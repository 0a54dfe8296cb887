-- ===== src/Classes/Sizes.antt =====
-- The number of instance variables of a class, its ancestors' included.
use nesrotom_run.Base.{
  ℕ, zero, suc, ◌+◌, ◌%◌, ◌^◌, ◌<◌, ◌≡◌, ◌≢◌, refl, sym, subst, ◌∙◌, inl, inr, none, some, List, [],
  ◌∷◌, arith, length, get_elem?, set, length-set, get_elem?-set_self, get_elem?-set_ne,
  Option-cases, Bool-cases, ◌==◌, ==_false→ne,
}
use native.Mathlib.Decide.{ℕ_discrete}
use nesrotom_run.State.{Class, unset, add32}
use nesrotom_run.Classes.{with_total, calc_total_syms_cnt, calculate_totals}
use nesrotom_run.Classes.Lookup.{IsRanked}

-- `TotalIs cs i n`: class `i` and its ancestors declare `n` instance variables together, modulo
-- 2 ^ 32 as the program adds.
pub data TotalIs (cs : List Class) : ℕ → ℕ → Type 0 where
  alone :
      {i : ℕ} {c : Class}
      → get_elem? cs i ≡ some c
      → c.parent ≡ none
      → TotalIs cs i (length c.syms_instance % 2 ^ 32)
  with_parent :
      {i p n : ℕ} {c : Class}
      → get_elem? cs i ≡ some c
      → c.parent ≡ some p
      → TotalIs cs p n
      → TotalIs cs i (add32 (length c.syms_instance) n)

-- Two classes differ at most in the count that is filled in.
pub record SameShape (c d : Class) : Type 0 where
  pub same_parent : d.parent ≡ c.parent
  pub same_syms : d.syms_instance ≡ c.syms_instance

-- The table `ds` is `cs` with counts filled in: the same classes, and every count that is set in
-- `ds` is the total.
pub record Fills (cs ds : List Class) : Type 0 where
  pub shape :
      (i : ℕ) (c : Class)
      → get_elem? cs i ≡ some c
      → (d : Class) × (get_elem? ds i ≡ some d) × SameShape c d
  pub right :
      (i : ℕ) (d : Class)
      → get_elem? ds i ≡ some d
      → d.total_syms_instance_cnt ≢ unset
      → TotalIs cs i d.total_syms_instance_cnt
  pub same_length : length ds ≡ length cs

pub lt_of_get {ℓ} :
    {A : Type ℓ} (xs : List A) (i : ℕ) {a : A} → get_elem? xs i ≡ some a → i < length xs
lt_of_get [] i h = cc
lt_of_get (x ∷ xs) zero h = omega arith
lt_of_get (x ∷ xs) (suc i) h = omega (arith, lt_of_get xs i h)

pub get_of_lt {ℓ} :
    {A : Type ℓ} (xs : List A) (i : ℕ) → i < length xs → (a : A) × (get_elem? xs i ≡ some a)
get_of_lt [] i h = elim h [ ]
get_of_lt (x ∷ xs) zero h = (x, refl)
get_of_lt (x ∷ xs) (suc i) h = get_of_lt xs i (omega arith)

-- The count of class `j` in `ds` is the total.
abbrev pub IsDone : List Class → List Class → ℕ → Type 0
IsDone cs ds j = (d : Class) × (get_elem? ds j ≡ some d) × TotalIs cs j d.total_syms_instance_cnt

module _ (cs : List Class) where
  fill-IsDone :
      (ds : List Class) (i n : ℕ) (d k : Class) (j : ℕ)
      → get_elem? ds i ≡ some k
      → TotalIs cs i n
      → IsDone cs ds j
      → IsDone cs (set ds i (with_total d n)) j
  fill-IsDone ds i n d k j at total (e, ate, tot) = elim (ℕ_discrete i j) [
    | yes ij ↦
        subst (λ z. IsDone cs (set ds i (with_total d n)) z) ij
          (with_total d n, get_elem?-set_self ds i (with_total d n) (lt_of_get ds i at), total)
    | no ne ↦ (e, get_elem?-set_ne ds i j (with_total d n) ne ∙ ate, tot)
  ]

  -- Filling in the right count at class `i` keeps the table right.
  fill-Fills :
      (ds : List Class) (i n : ℕ) (c d k : Class)
      → Fills cs ds
      → get_elem? cs i ≡ some c
      → get_elem? ds i ≡ some k
      → SameShape c d
      → TotalIs cs i n
      → Fills cs (set ds i (with_total d n))
  fill-Fills ds i n c d k f at at' same total = record {
    shape = λ j e atj. elim (ℕ_discrete i j) [
      | yes ij ↦ (
        with_total d n,
        subst (λ t. get_elem? (set ds i (with_total d n)) t ≡ some (with_total d n)) ij
            (get_elem?-set_self ds i (with_total d n) (lt_of_get ds i at')),
        same_at j e atj ij,
      )
      | no ne ↦
          let (k', atk, s) = f.shape j e atj in
          (k', get_elem?-set_ne ds i j (with_total d n) ne ∙ atk, s)
    ];
    right = λ j e atj set'. right_at j e atj set';
    same_length = length-set ds i (with_total d n) ∙ f.same_length;
  }
    where
      same_at : (j : ℕ) (e : Class) → get_elem? cs j ≡ some e → i ≡ j → SameShape e (with_total d n)
      same_at j e atj ij =
          let ce : c ≡ e = cc in
          subst (λ z. SameShape z (with_total d n)) ce
            (record { same_parent = same.same_parent; same_syms = same.same_syms })

      right_at :
          (j : ℕ) (e : Class)
          → get_elem? (set ds i (with_total d n)) j ≡ some e
          → e.total_syms_instance_cnt ≢ unset
          → TotalIs cs j e.total_syms_instance_cnt
      right_at j e atj ne' = elim (ℕ_discrete i j) [
        | yes ij ↦
            let de : with_total d n ≡ e =
              cc (get_elem?-set_self ds i (with_total d n) (lt_of_get ds i at')) in
            subst (λ z. TotalIs cs j z.total_syms_instance_cnt) de
              (subst (λ z. TotalIs cs z n) ij total)
        | no ne ↦ f.right j e (sym (get_elem?-set_ne ds i j (with_total d n) ne) ∙ atj) ne'
      ]

  module _ (rank : ℕ → ℕ) (ranked : IsRanked rank cs) where
    -- One call of calc_total_syms_cnt returns the total of its class and leaves a table whose counts
    -- are right, whatever was filled in before.
    calc-Fills :
        (fuel : ℕ) (ds : List Class) (i : ℕ) (c : Class)
        → Fills cs ds
        → get_elem? cs i ≡ some c
        → rank i < fuel
        → (n : ℕ) × (es : List Class) × (calc_total_syms_cnt fuel ds i ≡ some (n, es))
          × TotalIs cs i n
          × Fills cs es
          × IsDone cs es i
          × ((j : ℕ) → IsDone cs ds j → IsDone cs es j)
    unfolding calc_total_syms_cnt
    calc-Fills zero ds i c f at h = absurd (omega arith)
    calc-Fills (suc fuel) ds i c f at h =
        let (d, atd, s) = f.shape i c at in
        elim (Bool-cases (d.total_syms_instance_cnt == unset)) [
          | inr set' ↦ (
            d.total_syms_instance_cnt,
            ds,
            ground arith,
            f.right i d atd (==_false→ne _ _ set'),
            f,
            (d, atd, f.right i d atd (==_false→ne _ _ set')),
            λ j x. x,
          )
          | inl todo ↦ elim (Option-cases c.parent) [
            | inl top ↦
                let n : ℕ = length c.syms_instance % 2 ^ 32 in
                (
                  n,
                  set ds i (with_total d n),
                  ground (arith, s.same_parent, s.same_syms),
                  alone at top,
                  fill-Fills ds i n c d d f at atd s (alone at top),
                  (
                    with_total d n,
                    get_elem?-set_self ds i (with_total d n) (lt_of_get ds i atd),
                    alone at top,
                  ),
                  λ j x. fill-IsDone ds i n d d j atd (alone at top) x,
                )
            | inr (p, up) ↦
                let (k, atp) = ranked.parent_in i c p at up in
                let (m, es, run, tot, g, _, keep) =
                  calc-Fills fuel ds p k f atp (omega (arith, ranked.parent_below i c p at up)) in
                let (e, ate, s') = g.shape i c at in
                let n : ℕ = add32 (length c.syms_instance) m in
                (
                  n,
                  set es i (with_total d n),
                  ground (arith, s.same_parent, s.same_syms, run),
                  with_parent at up tot,
                  fill-Fills es i n c d e g at ate s (with_parent at up tot),
                  (
                    with_total d n,
                    get_elem?-set_self es i (with_total d n) (lt_of_get es i ate),
                    with_parent at up tot,
                  ),
                  λ j x. fill-IsDone es i n d e j ate (with_parent at up tot) (keep j x),
                )
          ]
        ]

    -- The loop over the classes from index `i` on.
    calculate_totals_from :
        (fuel todo i : ℕ) (ds : List Class)
        → Fills cs ds
        → i + todo ≡ length cs
        → ((j : ℕ) → rank j < fuel)
        → ((j : ℕ) → j < i → IsDone cs ds j)
        → (es : List Class) × (calculate_totals fuel todo i ds ≡ some es)
          × Fills cs es
          × ((j : ℕ) → j < length cs → IsDone cs es j)
    unfolding calculate_totals
    calculate_totals_from fuel zero i ds f e h done = (ds, refl, f, λ j lt. done j (omega arith))
    calculate_totals_from fuel (suc todo) i ds f e h done =
        let (c, at) = get_of_lt cs i (omega arith) in
        let (n, es, run, tot, g, here, keep) = calc-Fills fuel ds i c f at (h i) in
        let (out, run', g', all) =
          calculate_totals_from fuel todo (suc i) es g (omega arith) h (λ j lt.
            elim (ℕ_discrete i j) [
              | yes ij ↦ subst (IsDone cs es) ij here
              | no ne ↦ keep j (done j (omega arith))
            ]) in
        (out, ground (arith, run, run'), g', all)

-- A table as the loader leaves it: no count is filled in, or it is right.
pub record IsLoaded (cs : List Class) : Type 0 where
  pub right :
      (i : ℕ) (d : Class)
      → get_elem? cs i ≡ some d
      → d.total_syms_instance_cnt ≢ unset
      → TotalIs cs i d.total_syms_instance_cnt

IsLoaded-Fills : (cs : List Class) → IsLoaded cs → Fills cs cs
IsLoaded-Fills cs l = record {
  shape = λ i c at. (c, at, record { same_parent = refl; same_syms = refl });
  right = l.right;
  same_length = refl;
}

-- After the counts have been calculated, class `j` has the number of instance variables that it and
-- its ancestors declare, whatever the order of the classes in the table; the run ends when the
-- parent links have no cycle.
pub calculate_totals-TotalIs :
    (cs : List Class) (rank : ℕ → ℕ) (fuel j : ℕ)
    → IsRanked rank cs
    → IsLoaded cs
    → ((i : ℕ) → rank i < fuel)
    → j < length cs
    → (es : List Class) × (calculate_totals fuel (length cs) 0 cs ≡ some es) × IsDone cs es j
calculate_totals-TotalIs cs rank fuel j ranked loaded h lt =
    let (es, run, _, all) =
      calculate_totals_from cs rank ranked fuel (length cs) 0 cs (IsLoaded-Fills cs loaded)
        (omega arith) h (λ i i0. absurd (omega arith)) in
    (es, run, all j lt)
