-- ===== src/Classes/Lookup.antt =====
-- The searches by name along the parents of a class, and vm_find_class, of vm/vm.c.
use nesrotom_run.Base.{
  ℕ, zero, suc, ◌+◌, ◌<◌, ◌≡◌, refl, subst, inl, inr, true, Option, none, some, List, [], ◌∷◌,
  arith, get_elem?, Option-cases, Bool-cases, false, ◌∙◌, sym, ap, eq→==, ne→==,
}
use native.Mathlib.Decide.{ℕ_discrete}
use nesrotom_run.State.{Bytes, Method, Symbol, Class}
use nesrotom_run.Classes.{
  bytes_eq, find_method, is_named, find_class_from, find_class, own_method, own_static_sym,
  own_instance_sym, climb, find_method_in_class, find_static_sym_in_class,
  find_instance_sym_in_class,
}

-- `Resolves own cs i r`: from class `i` upwards, the nearest class with a match of its own has `r`;
-- `none` when there is no such class up to the root.
pub data Resolves {ℓ} {A : Type ℓ} (own : Class → Option A) (cs : List Class)
    : ℕ → Option A → Type ℓ where
  here :
      {i : ℕ} {c : Class} {a : A}
      → get_elem? cs i ≡ some c
      → own c ≡ some a
      → Resolves own cs i (some a)
  up :
      {i p : ℕ} {c : Class} {r : Option A}
      → get_elem? cs i ≡ some c
      → own c ≡ none
      → c.parent ≡ some p
      → Resolves own cs p r
      → Resolves own cs i r
  root :
      {i : ℕ} {c : Class}
      → get_elem? cs i ≡ some c
      → own c ≡ none
      → c.parent ≡ none
      → Resolves own cs i none

-- Every parent is in the table, and the classes can be numbered so that a parent comes before its
-- children: the links have no cycle.
pub record IsRanked (rank : ℕ → ℕ) (cs : List Class) : Type 0 where
  pub parent_in :
      (i : ℕ) (c : Class) (p : ℕ)
      → get_elem? cs i ≡ some c
      → c.parent ≡ some p
      → (k : Class) × (get_elem? cs p ≡ some k)
  pub parent_below :
      (i : ℕ) (c : Class) (p : ℕ) → get_elem? cs i ≡ some c → c.parent ≡ some p → rank p < rank i

module _ {ℓ} {A : Type ℓ} (own : Class → Option A) (cs : List Class) (rank : ℕ → ℕ)
    (ranked : IsRanked rank cs) where
  climb-Resolves :
      (fuel i : ℕ) (c : Class)
      → get_elem? cs i ≡ some c
      → rank i < fuel
      → (r : Option A) × (climb own cs fuel i ≡ some r) × Resolves own cs i r
  unfolding climb
  climb-Resolves zero i c at h = absurd (omega arith)
  climb-Resolves (suc fuel) i c at h = elim (Option-cases (own c)) [
    | inr (a, e) ↦ (some a, ground arith, here at e)
    | inl e ↦ elim (Option-cases c.parent) [
      | inl top ↦ (none, ground arith, root at e top)
      | inr (p, e') ↦
          let (k, at') = ranked.parent_in i c p at e' in
          let (r, run, res) =
            climb-Resolves fuel p k at' (omega (arith, ranked.parent_below i c p at e')) in
          (r, ground (arith, run), up at e e' res)
    ]
  ]

-- A class has at most one nearest match.
pub Resolves-unique {ℓ} :
    {A : Type ℓ} {own : Class → Option A} {cs : List Class} {i : ℕ} {r s : Option A}
    → Resolves own cs i r
    → Resolves own cs i s
    → r ≡ s
Resolves-unique (here at e) (here at' e') = ground arith
Resolves-unique (here at e) (up at' e' q y) = ground arith
Resolves-unique (here at e) (root at' e' q) = ground arith
Resolves-unique (up at e p x) (here at' e') = ground arith
Resolves-unique {own} {cs} {s} (up at e p x) (up at' e' q y) =
    Resolves-unique x (subst (λ t. Resolves own cs t s) (ground arith) y)
Resolves-unique (up at e p x) (root at' e' q) = ground arith
Resolves-unique (root at e p) (here at' e') = ground arith
Resolves-unique (root at e p) (up at' e' q y) = ground arith
Resolves-unique (root at e p) (root at' e' q) = refl

pub bytes_eq→eq : (a b : Bytes) → bytes_eq a b ≡ true → a ≡ b
unfolding bytes_eq
bytes_eq→eq [] [] h = refl
bytes_eq→eq [] (y ∷ ys) h = cc
bytes_eq→eq (x ∷ xs) [] h = cc
bytes_eq→eq (x ∷ xs) (y ∷ ys) h = ground (arith, bytes_eq→eq xs ys)

pub bytes_eq_refl : (a : Bytes) → bytes_eq a a ≡ true
unfolding bytes_eq
bytes_eq_refl [] = refl
bytes_eq_refl (x ∷ xs) = ground (arith, bytes_eq_refl xs)

same_method : {a b : Method} → some a ≡ some b → a ≡ b
same_method {a} e = ap (λ o. elim o [ some x ↦ x | none ↦ a ]) e

-- The first method of a list with this name and this kind, 0 or 1 for `static`.
pub data FirstMethod (name : Bytes) (kind : ℕ) : List Method → Option Method → Type 0 where
  first :
      {m : Method} {ms : List Method}
      → m.name ≡ name
      → m.is_static ≡ kind
      → FirstMethod name kind (m ∷ ms) (some m)
  other :
      {m : Method} {ms : List Method} {r : Option Method}
      → ¬ ((m.name ≡ name) × (m.is_static ≡ kind))
      → FirstMethod name kind ms r
      → FirstMethod name kind (m ∷ ms) r
  no_more : FirstMethod name kind [] none

-- What a class has of this name and kind itself: a constructor of the name, whatever the
-- constructor's kind, or else the first method of the name and kind.
pub data OwnMethod (name : Bytes) (kind : ℕ) (c : Class) : Option Method → Type 0 where
  constructed :
      {m : Method} → c.constructor ≡ some m → m.name ≡ name → OwnMethod name kind c (some m)
  listed :
      {r : Option Method}
      → ((m : Method) → c.constructor ≡ some m → ¬ (m.name ≡ name))
      → FirstMethod name kind c.methods r
      → OwnMethod name kind c r

-- From class `i` upwards: what the nearest class has that has anything, or nothing up to the root.
pub data Reaches (name : Bytes) (kind : ℕ) (cs : List Class) : ℕ → Option Method → Type 0 where
  in_class :
      {i : ℕ} {c : Class} {m : Method}
      → get_elem? cs i ≡ some c
      → OwnMethod name kind c (some m)
      → Reaches name kind cs i (some m)
  in_parent :
      {i p : ℕ} {c : Class} {r : Option Method}
      → get_elem? cs i ≡ some c
      → OwnMethod name kind c none
      → c.parent ≡ some p
      → Reaches name kind cs p r
      → Reaches name kind cs i r
  in_none :
      {i : ℕ} {c : Class}
      → get_elem? cs i ≡ some c
      → OwnMethod name kind c none
      → c.parent ≡ none
      → Reaches name kind cs i none

module _ (name : Bytes) (kind : ℕ) where
  differs : (b : Bytes) → bytes_eq b name ≡ false → ¬ (b ≡ name)
  differs b f e = absurd (ground (arith, f, ap (λ x. bytes_eq x name) e, bytes_eq_refl name))

  find_method-FirstMethod : (ms : List Method) → FirstMethod name kind ms (find_method name kind ms)
  unfolding find_method
  find_method-FirstMethod [] = no_more
  find_method-FirstMethod (m ∷ ms) = elim (Bool-cases (bytes_eq m.name name)) [
    | inr f ↦ rw f (other (λ (e, _). differs m.name f e) (find_method-FirstMethod ms))
    | inl t ↦ elim (ℕ_discrete m.is_static kind) [
      | yes e ↦ rw (t, eq→== m.is_static kind e) (first (bytes_eq→eq m.name name t) e)
      | no ne ↦
          rw (t, ne→== m.is_static kind ne) (other (λ (_, e). ne e) (find_method-FirstMethod ms))
    ]
  ]

  own_constructor :
      (c : Class) (m : Method)
      → c.constructor ≡ some m
      → bytes_eq m.name name ≡ true
      → own_method name kind c ≡ some m
  unfolding own_method
  own_constructor c m e t = ground (arith, e, t)

  own_method_of :
      (c : Class)
      → is_named name c.constructor ≡ false
      → own_method name kind c ≡ find_method name kind c.methods
  unfolding own_method
  own_method_of c f = rw f refl

  own_listed :
      (c : Class)
      → is_named name c.constructor ≡ false
      → ((m : Method) → c.constructor ≡ some m → ¬ (m.name ≡ name))
      → OwnMethod name kind c (own_method name kind c)
  own_listed c f h =
      subst (OwnMethod name kind c) (sym (own_method_of c f))
        (listed h (find_method-FirstMethod c.methods))

  own_method-OwnMethod : (c : Class) → OwnMethod name kind c (own_method name kind c)
  own_method-OwnMethod c = elim (Option-cases c.constructor) [
    | inl e ↦ own_listed c (rw e refl) (λ m e'. absurd (ground (arith, e, e')))
    | inr (m, e) ↦ elim (Bool-cases (bytes_eq m.name name)) [
      | inl t ↦
          subst (OwnMethod name kind c) (sym (own_constructor c m e t))
            (constructed e (bytes_eq→eq m.name name t))
      | inr f ↦
          own_listed c (ap (is_named name) e ∙ f)
            (λ m' e' n. differs m.name f (ap (λ x. x.name) (same_method (sym e ∙ e')) ∙ n))
    ]
  ]

  Resolves-Reaches :
      (cs : List Class) {i : ℕ} {r : Option Method}
      → Resolves (own_method name kind) cs i r
      → Reaches name kind cs i r
  Resolves-Reaches cs (here {i} {c} at e) =
      in_class at (subst (OwnMethod name kind c) e (own_method-OwnMethod c))
  Resolves-Reaches cs (up {i} {p} {c} {r} at e q x) =
      in_parent at (subst (OwnMethod name kind c) e (own_method-OwnMethod c)) q
        (Resolves-Reaches cs x)
  Resolves-Reaches cs (root {i} {c} at e q) =
      in_none at (subst (OwnMethod name kind c) e (own_method-OwnMethod c)) q

-- The method that a call on class `i` reaches: when every parent is in the table and the parent
-- links have no cycle (a rank that falls from a class to its parent, with more fuel than the rank of
-- the class), the search ends. Its result is that of the nearest class, from `i` up to its root,
-- that has a constructor of the name, whatever the constructor's kind, or a method of the name and
-- kind: this constructor, or else the first such method. It is nothing when there is no such class.
pub find_method_in_class-Reaches :
    (cs : List Class) (rank : ℕ → ℕ) (fuel i : ℕ) (c : Class) (name : Bytes) (is_static : ℕ)
    → IsRanked rank cs
    → get_elem? cs i ≡ some c
    → rank i < fuel
    → (r : Option Method) × (find_method_in_class cs fuel i name is_static ≡ some r)
      × Reaches name is_static cs i r
unfolding find_method_in_class
find_method_in_class-Reaches cs rank fuel i c name is_static ranked at h =
    let (r, run, res) = climb-Resolves (own_method name is_static) cs rank ranked fuel i c at h in
    (r, run, Resolves-Reaches name is_static cs res)

-- The same of the two searches for variables: of the class, and of its instances.
pub find_sym_in_class-Resolves :
    (cs : List Class) (rank : ℕ → ℕ) (fuel i : ℕ) (c : Class) (name : Bytes)
    → IsRanked rank cs
    → get_elem? cs i ≡ some c
    → rank i < fuel
    → ((r : Option Symbol) × (find_static_sym_in_class cs fuel i name ≡ some r)
        × Resolves (own_static_sym name) cs i r)
      × ((r : Option Symbol) × (find_instance_sym_in_class cs fuel i name ≡ some r)
          × Resolves (own_instance_sym name) cs i r)
unfolding find_static_sym_in_class find_instance_sym_in_class
find_sym_in_class-Resolves cs rank fuel i c name ranked at h = (
  climb-Resolves (own_static_sym name) cs rank ranked fuel i c at h,
  climb-Resolves (own_instance_sym name) cs rank ranked fuel i c at h,
)

find_class_from-some :
    (k : ℕ) (name : Bytes) (cs : List Class) (j : ℕ)
    → find_class_from k name cs ≡ some j
    → (i : ℕ) × (c : Class) × (j ≡ k + i) × (get_elem? cs i ≡ some c) × (c.name ≡ name)
unfolding find_class_from
find_class_from-some k name [] j h = cc
find_class_from-some k name (c ∷ cs) j h = elim (Bool-cases (bytes_eq c.name name)) [
  | inl e ↦ (0, c, ground arith, refl, bytes_eq→eq c.name name e)
  | inr ne ↦
      let (i, d, at, g, n) = find_class_from-some (suc k) name cs j (ground arith) in
      (suc i, d, omega arith, g, n)
]

-- vm_find_class answers with a class of that name.
pub find_class-some :
    (name : Bytes) (cs : List Class) (j : ℕ)
    → find_class name cs ≡ some j
    → (c : Class) × (get_elem? cs j ≡ some c) × (c.name ≡ name)
unfolding find_class
find_class-some name cs j h =
    let (i, c, e, g, n) = find_class_from-some 0 name cs j h in
    (c, subst (λ t. get_elem? cs t ≡ some c) (omega arith) g, n)
