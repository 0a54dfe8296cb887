-- ===== src/Collector/Remembered.antt =====
-- The remember set of the old space, pointers from old objects to new ones: the removal of
-- duplicates, gc_os_remove_dups_in_rs of vm/memory.c.
use nesrotom_run.Base.{
  ℕ, zero, suc, ◌≤◌, ◌≡◌, ◌≢◌, ◌⊎◌, ◌↔◌, refl, sym, ap, ◌∙◌, inl, inr, List, [], ◌∷◌, arith,
  Bool-cases, ◌==◌, ==→eq, ==_false→ne, if◌then◌else◌, length,
}
use mathlib.Core.List.{Memᴰ}
use mathlib.Core.List.Memᴰ

-- `os_remember_set_t`: the address of the old object, and that of its field that holds the pointer.
pub record Entry : Type 0 where
  pub old_obj : ℕ
  pub new_obj : ℕ

-- The outcome of gc_os_remove_dups_in_rs.
pub data Result : Type 0 where
  cleaned : List Entry → Result
  assert_failed out_of_fuel : Result

unfoldable pub keep : Entry → Result → Result
keep e (cleaned xs) = cleaned (e ∷ xs)
keep e assert_failed = assert_failed
keep e out_of_fuel = out_of_fuel

-- The inner loop: the entries behind `ptr1` for the same field are freed.
unfoldable pub remove_dups_of : Entry → List Entry → Result
remove_dups_of e [] = cleaned []
remove_dups_of e (x ∷ xs) =
    let rest = remove_dups_of e xs in
    if e.new_obj == x.new_obj
    then (if e.old_obj == x.old_obj then rest else assert_failed)
    else keep x rest

-- gc_os_remove_dups_in_rs, the outer loop; the fuel is the number of its turns.
unfoldable pub remove_dups_from : ℕ → Result → Result
remove_dups_from n assert_failed = assert_failed
remove_dups_from n out_of_fuel = out_of_fuel
remove_dups_from n (cleaned []) = cleaned []
remove_dups_from zero (cleaned (e ∷ xs)) = out_of_fuel
remove_dups_from (suc n) (cleaned (e ∷ xs)) = keep e (remove_dups_from n (remove_dups_of e xs))

unfoldable pub remove_dups_in_rs : List Entry → Result
remove_dups_in_rs xs = remove_dups_from (length xs) (cleaned xs)

-- Entries for the same field name the same object.
pub record Consistent (xs : List Entry) : Type 0 where
  pub same_object : (x y : Entry) → Memᴰ x xs → Memᴰ y xs → x.new_obj ≡ y.new_obj → x ≡ y

-- No two entries are for the same field.
pub data Distinct : List Entry → Type 0 where
  distinct_nil : Distinct []
  distinct_cons :
      {e : Entry} {xs : List Entry}
      → ((x : Entry) → Memᴰ x xs → e.new_obj ≢ x.new_obj)
      → Distinct xs
      → Distinct (e ∷ xs)

-- What is left of `xs` once the entries for the field of `e` are gone.
record Without (e : Entry) (xs ys : List Entry) : Type 0 where
  pub shorter : length ys ≤ length xs
  pub from : (x : Entry) → Memᴰ x ys → Memᴰ x xs × (e.new_obj ≢ x.new_obj)
  pub stay : (x : Entry) → Memᴰ x xs → (x ≡ e) ⊎ Memᴰ x ys

remove_dups_of-Without :
    (e : Entry) (xs : List Entry)
    → ((x : Entry) → Memᴰ x xs → e.new_obj ≡ x.new_obj → x ≡ e)
    → (ys : List Entry) × (remove_dups_of e xs ≡ cleaned ys) × Without e xs ys
unfolding remove_dups_of keep
remove_dups_of-Without e [] c =
    ([], refl, record { shorter = omega arith; from = λ x m. elim m [ ]; stay = λ x m. elim m [ ] })
remove_dups_of-Without e (x ∷ xs) c =
    let (ys, run, w) = remove_dups_of-Without e xs (λ y m. c y (Memᴰ.tail m)) in
    elim (Bool-cases (e.new_obj == x.new_obj)) [
      | inl y ↦
          let same = c x (Memᴰ.head refl) (==→eq _ _ y) in
          (
            ys,
            ground (arith, run, y, ap (λ q. q.old_obj) same),
            record {
              shorter = omega (arith, w.shorter);
              from = λ q m. let (a, b) = w.from q m in (Memᴰ.tail a, b);
              stay =
                  λ q m. elim (Memᴰ.cases_cons m) [ inl z ↦ inl (z ∙ same) | inr z ↦ w.stay q z ];
            },
          )
      | inr n ↦ (
        x ∷ ys,
        ground (arith, run, n),
        record {
          shorter = omega (arith, w.shorter);
          from = λ q m. elim (Memᴰ.cases_cons m) [
            | inl z ↦ (Memᴰ.head z, λ k. ==_false→ne _ _ n (k ∙ ap (λ r. r.new_obj) z))
            | inr z ↦ let (a, b) = w.from q z in (Memᴰ.tail a, b)
          ];
          stay = λ q m. elim (Memᴰ.cases_cons m) [
            | inl z ↦ inr (Memᴰ.head z)
            | inr z ↦ elim (w.stay q z) [ inl k ↦ inl k | inr k ↦ inr (Memᴰ.tail k) ]
          ];
        },
      )
    ]

-- The entries that are left: the same ones, each field once.
pub record Cleans (xs ys : List Entry) : Type 0 where
  pub distinct : Distinct ys
  pub same : (x : Entry) → Memᴰ x xs ↔ Memᴰ x ys

Cleans-cons :
    {e : Entry} {xs ys zs : List Entry} → Without e xs ys → Cleans ys zs → Cleans (e ∷ xs) (e ∷ zs)
Cleans-cons {e} w k = record {
  distinct = distinct_cons (λ x m. let (a, b) = w.from x ((k.same x).1 m) in b) k.distinct;
  same = λ x. (
    (λ m. elim (Memᴰ.cases_cons m) [
      | inl y ↦ Memᴰ.head y
      | inr y ↦ elim (w.stay x y) [ inl z ↦ Memᴰ.head z | inr z ↦ Memᴰ.tail ((k.same x).0 z) ]
    ]),
    (λ m. elim (Memᴰ.cases_cons m) [
      | inl y ↦ Memᴰ.head y
      | inr y ↦ let (a, b) = w.from x ((k.same x).1 y) in Memᴰ.tail a
    ]),
  );
}

behind : {e : Entry} {xs ys : List Entry} → Consistent (e ∷ xs) → Without e xs ys → Consistent ys
behind c w = record {
  same_object = λ x y p q r.
      let (a, _) = w.from x p in
      let (b, _) = w.from y q in c.same_object x y (Memᴰ.tail a) (Memᴰ.tail b) r;
}

remove_dups_from-Cleans :
    (n : ℕ) (xs : List Entry)
    → length xs ≤ n
    → Consistent xs
    → (ys : List Entry) × (remove_dups_from n (cleaned xs) ≡ cleaned ys) × Cleans xs ys
unfolding remove_dups_from keep
remove_dups_from-Cleans n [] l c =
    ([], refl, record { distinct = distinct_nil; same = λ x. ((λ m. m), (λ m. m)) })
remove_dups_from-Cleans zero (e ∷ xs) l c = absurd (omega (arith, l))
remove_dups_from-Cleans (suc n) (e ∷ xs) l c =
    let (ys, run, w) =
      remove_dups_of-Without e xs
        (λ x m q. sym (c.same_object e x (Memᴰ.head refl) (Memᴰ.tail m) q)) in
    let (zs, rest, k) = remove_dups_from-Cleans n ys (omega (arith, l, w.shorter)) (behind c w) in
    (e ∷ zs, ground (arith, run, rest), Cleans-cons w k)

-- When entries for the same field name the same object, the removal of duplicates ends, no assertion
-- fails, each field is left once, and no entry is lost or made up.
pub remove_dups_in_rs-Cleans :
    (xs : List Entry)
    → Consistent xs
    → (ys : List Entry) × (remove_dups_in_rs xs ≡ cleaned ys) × Cleans xs ys
unfolding remove_dups_in_rs
remove_dups_in_rs-Cleans xs c = remove_dups_from-Cleans (length xs) xs (omega arith) c
