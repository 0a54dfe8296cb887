-- ===== src/Compiler/Emit/Constants.antt =====
-- The constants that bco_int, bco_str and bco_sym (compiler/bcout.cpp) put into the constant table
-- and look for there.
use nesrotom_run.Base.{
  ℕ, suc, ◌+◌, ◌≤◌, ◌<◌, ◌≡◌, ◌∙◌, refl, ap, inl, inr, Bool, true, false, none, some, List, [], ◌∷◌,
  ◌++◌, length, arith, ◌==◌, ne→==, eq→==, ==→eq, Bool-cases, Option-cases,
}
use nesrotom_run.State.{Bytes}
use nesrotom_run.Classes.Lookup.{bytes_eq_refl}
use nesrotom_run.Compiler.Emit.{
  Bcout, Emit, Item, arr_item, bco_int, bco_str, bco_sym, ct_malloc, exinfo_item, find_item,
  found_or_new, int_item, is_int_item, is_str_item, is_sym_item, item_at, nil_item, round4,
  str_item, sym_item,
}

-- The objects lie one after the other, from `lo` on and below `hi`.
abbrev pub Table : (lo hi : ℕ) → List (ℕ × Item) → Type 0
Table lo hi [] = lo ≤ hi
Table lo hi ((i, x) ∷ xs) = (lo ≤ i) × Table (suc i) hi xs

-- The table of the compiler is one.
abbrev pub IsTable : Bcout → Type 0
IsTable s = Table 0 s.const_table_cnt s.const_table

Table-le : (lo hi : ℕ) (xs : List (ℕ × Item)) → Table lo hi xs → lo ≤ hi
Table-le lo hi [] h = h
Table-le lo hi ((i, x) ∷ xs) (a, h) = omega (arith, a, Table-le (suc i) hi xs h)

item_at-new :
    (lo hi : ℕ) (x : Item) (xs : List (ℕ × Item))
    → Table lo hi xs
    → item_at hi (xs ++ ((hi, x) ∷ [])) ≡ some x
unfolding item_at
item_at-new lo hi x [] h = rw (eq→== hi hi refl) refl
item_at-new lo hi x ((i, y) ∷ xs) (a, h) =
    let l = Table-le (suc i) hi xs h in
    rw (ne→== hi i (λ e. omega (arith, l, e))) (item_at-new (suc i) hi x xs h)

item_at-append :
    (i : ℕ) (y : Item) (xs zs : List (ℕ × Item))
    → item_at i xs ≡ some y
    → item_at i (xs ++ zs) ≡ some y
unfolding item_at
item_at-append i y [] zs h = absurd (ground (arith, h))
item_at-append i y ((j, x) ∷ xs) zs h = elim (Bool-cases (i == j)) [
  | inl e ↦ ground (arith, h, e)
  | inr e ↦ ground (arith, h, e, item_at-append i y xs zs)
]

Table-append :
    (lo hi k : ℕ) (x : Item) (xs : List (ℕ × Item))
    → 0 < k
    → Table lo hi xs
    → Table lo (hi + k) (xs ++ ((hi, x) ∷ []))
Table-append lo hi k x [] p h = (h, omega arith)
Table-append lo hi k x ((i, y) ∷ xs) p (a, h) = (a, Table-append (suc i) hi k x xs p h)

below : (i lo hi : ℕ) (xs : List (ℕ × Item)) → Table lo hi xs → i < lo → item_at i xs ≡ none
unfolding item_at
below i lo hi [] h l = refl
below i lo hi ((j, x) ∷ xs) (a, h) l =
    rw (ne→== i j (λ e. omega (arith, a, l, e))) (below i (suc j) hi xs h (omega (arith, a, l)))

find_above :
    (p : Item → Bool) (i lo hi : ℕ) (xs : List (ℕ × Item))
    → Table lo hi xs
    → find_item p xs ≡ some i
    → lo ≤ i
unfolding find_item
find_above p i lo hi [] h e = absurd (ground (arith, e))
find_above p i lo hi ((j, x) ∷ xs) (a, h) e = elim (Bool-cases (p x)) [
  | inl t ↦ ground (arith, e, t, a)
  | inr f ↦ ground (arith, e, f, a, find_above p i (suc j) hi xs h)
]

find_item-item_at :
    (p : Item → Bool) (i lo hi : ℕ) (xs : List (ℕ × Item))
    → Table lo hi xs
    → find_item p xs ≡ some i
    → (x : Item) × (item_at i xs ≡ some x) × (p x ≡ true)
unfolding find_item item_at
find_item-item_at p i lo hi [] h e = absurd (ground (arith, e))
find_item-item_at p i lo hi ((j, x) ∷ xs) (a, h) e = elim (Bool-cases (p x)) [
  | inl t ↦ (x, ground (arith, e, t), t)
  | inr f ↦
      let e' : find_item p xs ≡ some i = ground (arith, e, f) in
      let (y, k, q) = find_item-item_at p i (suc j) hi xs h e' in
      let above = find_above p i (suc j) hi xs h e' in
      (y, rw (ne→== i j (λ d. omega (arith, above, d))) k, q)
]

find_item-new :
    (p : Item → Bool) (n : ℕ) (x : Item) (xs : List (ℕ × Item))
    → p x ≡ true
    → find_item p xs ≡ none
    → find_item p (xs ++ ((n, x) ∷ [])) ≡ some n
unfolding find_item
find_item-new p n x [] t h = rw t refl
find_item-new p n x ((j, y) ∷ xs) t h = elim (Bool-cases (p y)) [
  | inl e ↦ absurd (ground (arith, h, e))
  | inr e ↦ ground (arith, h, e, find_item-new p n x xs t)
]

-- What a table keeps: every object at its offset.
abbrev pub Grows : Bcout → Bcout → Type 0
Grows s t = (i : ℕ) (x : Item) → item_at i s.const_table ≡ some x → item_at i t.const_table ≡ some x

-- What found_or_new promises: the object that is at the index, and that the next search finds it.
abbrev pub Shares : (Item → Bool) → (m : Emit ℕ) → Bcout → Type 0
Shares p m s =
    (i : ℕ) × (t : Bcout) × (x : Item) × (m s ≡ some (i, t))
    × (item_at i t.const_table ≡ some x)
    × (p x ≡ true)
    × IsTable t
    × Grows s t
    × (m t ≡ some (i, t))
    × (t.bc_arr ≡ s.bc_arr)

found_or_new-Shares :
    (p : Item → Bool) (k : ℕ) (x : Item) (s : Bcout)
    → p x ≡ true
    → 0 < k
    → IsTable s
    → Shares p (found_or_new p k x) s
unfolding ct_malloc
found_or_new-Shares p k x s t pos h = elim (Option-cases (find_item p s.const_table)) [
  | inl e ↦
      let u = s.const_table_cnt in
      let xs = s.const_table ++ ((u, x) ∷ []) in
      let f = find_item-new p u x s.const_table t e in
      (
        u,
        record s { const_table = xs; const_table_cnt = u + k },
        x,
        ground (arith, e),
        item_at-new 0 u x s.const_table h,
        t,
        Table-append 0 u k x s.const_table pos h,
        λ i y. item_at-append i y s.const_table ((u, x) ∷ []),
        ground (arith, f),
        refl,
      )
  | inr (i, e) ↦
      let (y, a, b) = find_item-item_at p i 0 s.const_table_cnt s.const_table h e in
      (i, s, y, ground (arith, e), a, b, h, λ i y g. g, ground (arith, e), refl)
]

is_str_item_self : (b : Bytes) → is_str_item b (str_item b) ≡ true
is_str_item_self b = bytes_eq_refl b

is_sym_item_self : (b : Bytes) → is_sym_item b (sym_item b 0) ≡ true
is_sym_item_self b = bytes_eq_refl b

-- In a table whose objects lie one after the other, bco_int, bco_str and bco_sym return an index at
-- which the table holds that integer, string or symbol; they keep the objects in this order, change no
-- other object and no bytecode, and asked again for the same constant return the same index and leave
-- the output as it is.
pub constants-Shares :
    (v : ℕ) (b : Bytes) (s : Bcout)
    → IsTable s
    → Shares (is_int_item v) (bco_int v) s
      × Shares (is_str_item b) (bco_str b) s
      × Shares (is_sym_item b) (bco_sym false b) s
unfolding bco_int bco_str bco_sym
constants-Shares v b s h = (
  found_or_new-Shares (is_int_item v) 32 (int_item v) s (eq→== v v refl) (omega arith) h,
  found_or_new-Shares (is_str_item b) (32 + round4 (length b)) (str_item b) s (is_str_item_self b)
      (omega arith) h,
  found_or_new-Shares (is_sym_item b) (32 + round4 (length b)) (sym_item b 0) s (is_sym_item_self b)
      (omega arith) h,
)

int_item_unique : (v : ℕ) (x : Item) → is_int_item v x ≡ true → x ≡ int_item v
int_item_unique v (int_item n) h = ap int_item (==→eq n v h)
int_item_unique v nil_item h = absurd (ground (arith, h))
int_item_unique v (str_item b) h = absurd (ground (arith, h))
int_item_unique v (sym_item b k) h = absurd (ground (arith, h))
int_item_unique v (arr_item es) h = absurd (ground (arith, h))
int_item_unique v (exinfo_item k bs) h = absurd (ground (arith, h))

-- bco_int by itself, for the translation of a number.
pub bco_int_lem :
    (v : ℕ) (s : Bcout)
    → IsTable s
    → (i : ℕ) × (t : Bcout) × (bco_int v s ≡ some (i, t))
      × (item_at i t.const_table ≡ some (int_item v))
      × IsTable t
      × Grows s t
      × (t.bc_arr ≡ s.bc_arr)
bco_int_lem v s h =
    let (i, t, x, a, b, c, d, e, f, g) = (constants-Shares v [] s h).0 in
    (i, t, a, b ∙ ap some (int_item_unique v x c), d, e, g)
