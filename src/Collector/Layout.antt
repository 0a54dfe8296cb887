-- ===== src/Collector/Layout.antt =====
-- Where the objects of the collected heap stand: cells that a write leaves alone, the least size of
-- an object, and the objects between the scan pointer and the free space, which lie end to end.
use nesrotom_run.Base.{
  ℕ, ◌+◌, ◌≤◌, ◌<◌, ◌≡◌, ◌≢◌, ◌⊎◌, refl, sym, ap, ◌∙◌, subst, inl, inr, Option, some, List, [], ◌∷◌,
  ◌++◌, true, false, arith, Bool-cases, ==→eq,
}
use mathlib.Core.Option.{some-injective}
use mathlib.Core.List.{Memᴰ}
use nesrotom_run.State.{Ref, const_ref, heap_ref, class_ref, stack_ref, Body, Class}
use nesrotom_run.State.Memory.{aligned}
use nesrotom_run.Collector.{
  Heap, Cell, object, class_cell, stack_cell, copied, Gc, ref_eq, put, body_size, obj_size,
}

ref_eq→eq : (q r : Ref) → ref_eq q r ≡ true → q ≡ r
unfolding ref_eq
ref_eq→eq (const_ref i) (const_ref j) h = ap const_ref (==→eq i j h)
ref_eq→eq (heap_ref i) (heap_ref j) h = ap heap_ref (==→eq i j h)
ref_eq→eq (class_ref i) (class_ref j) h = ap class_ref (==→eq i j h)
ref_eq→eq stack_ref stack_ref h = refl
ref_eq→eq _ _ h = absurd (ground (arith, h))

ref_eq_self : (r : Ref) → ref_eq r r ≡ true
unfolding ref_eq
ref_eq_self (const_ref i) = ground arith
ref_eq_self (heap_ref i) = ground arith
ref_eq_self (class_ref i) = ground arith
ref_eq_self stack_ref = refl

pub Ref-cases : (q r : Ref) → (q ≡ r) ⊎ (q ≢ r)
Ref-cases q r = elim (Bool-cases (ref_eq q r)) [
  | inl e ↦ inl (ref_eq→eq q r e)
  | inr n ↦ inr (λ e. absurd (ground (arith, ref_eq_self r, subst (λ x. ref_eq x r ≡ false) e n)))
]

address : Ref → ℕ
address (heap_ref a) = a
address _ = 0

pub heap_ref-ne : (a b : ℕ) → a ≢ b → heap_ref a ≢ heap_ref b
unfolding address
heap_ref-ne a b n e = n (ap address e)

pub cells-put_self : (r : Ref) (c : Cell) (s : Gc) → (put r c s).cells r ≡ some c
unfolding put
cells-put_self r c s = ground (arith, ref_eq_self r)

pub cells-put_ne : (q r : Ref) (c : Cell) (s : Gc) → q ≢ r → (put r c s).cells q ≡ s.cells q
unfolding put
cells-put_ne q r c s ne = elim (Bool-cases (ref_eq q r)) [
  | inl e ↦ absurd (ne (ref_eq→eq q r e))
  | inr e ↦ ground (arith, e)
]

body_size-le :
    (cs : List Class) (cls : Option ℕ) (b : Body) (size : ℕ)
    → body_size cs cls b ≡ some size
    → 32 ≤ aligned size
unfolding body_size aligned
body_size-le cs cls b size h = ground (arith, h)

pub obj_size-le :
    (cs : List Class) (c : Cell) (size : ℕ) → obj_size cs c ≡ some size → 32 ≤ aligned size
unfolding obj_size aligned
obj_size-le cs (object o) size h = body_size-le cs o.cls o.body size h
obj_size-le cs class_cell size h = ground (arith, h)
obj_size-le cs stack_cell size h = ground (arith, h)
obj_size-le cs (copied p) size h = ground (arith, h)

-- The addresses of the objects from `p` up to the free space, in order and end to end.
pub data Chain (cs : List Class) (cells : Heap) (free : ℕ) : ℕ → List ℕ → Type 0 where
  ended : {p : ℕ} → p ≡ free → Chain cs cells free p []
  next :
      {p size : ℕ} {bs : List ℕ} {c : Cell}
      → cells (heap_ref p) ≡ some c
      → obj_size cs c ≡ some size
      → Chain cs cells free (p + aligned size) bs
      → Chain cs cells free p (p ∷ bs)

module _ {cs : List Class} {cells : Heap} {free : ℕ} where
  pub Chain-le : {p : ℕ} {bs : List ℕ} → Chain cs cells free p bs → p ≤ free
  Chain-le (ended e) = omega (arith, e)
  Chain-le (next {c} e z k) = omega (arith, Chain-le k, obj_size-le cs c _ z)

  -- An object of the chain starts at or behind `p` and ends before the free space.
  pub Chain-mem :
      {p : ℕ} {bs : List ℕ} (b : ℕ)
      → Chain cs cells free p bs
      → Memᴰ b bs
      → (p ≤ b) × (b + 32 ≤ free)
  Chain-mem b (ended e) m = elim m [ ]
  Chain-mem b (next {c} e z k) (Memᴰ.head x) =
      (omega (arith, x), omega (arith, x, Chain-le k, obj_size-le cs c _ z))
  Chain-mem b (next {c} e z k) (Memᴰ.tail m) = let (l, r) = Chain-mem b k m in (omega (arith, l), r)

-- Cells of the chain may be read in another heap that agrees on them, and an object that ends at the
-- new end of the free space follows the last one.
pub Chain-snoc :
    {cs : List Class} {cells after : Heap} {free p size : ℕ} {bs : List ℕ} {c : Cell}
    → Chain cs cells free p bs
    → ((b : ℕ) → p ≤ b → b < free → after (heap_ref b) ≡ cells (heap_ref b))
    → after (heap_ref free) ≡ some c
    → obj_size cs c ≡ some size
    → Chain cs after (free + aligned size) p (bs ++ (free ∷ []))
Chain-snoc {cs} {after} {free} {size} (ended e) same new z =
    subst (λ q. Chain cs after (free + aligned size) q (free ∷ [])) (sym e)
      (next new z (ended refl))
Chain-snoc (next {c} e y k) same new z =
    let l = obj_size-le _ c _ y in
    let m = Chain-le k in
    next (same _ (omega arith) (omega (arith, l, m)) ∙ e) y
      (Chain-snoc k (λ b h. same b (omega (arith, h))) new z)

pub Chain-cells :
    {cs : List Class} {cells after : Heap} {free p : ℕ} {bs : List ℕ}
    → Chain cs cells free p bs
    → ((b : ℕ) → p ≤ b → b < free → after (heap_ref b) ≡ cells (heap_ref b))
    → Chain cs after free p bs
Chain-cells (ended e) same = ended e
Chain-cells (next {c} e y k) same =
    let l = obj_size-le _ c _ y in
    let m = Chain-le k in
    next (same _ (omega arith) (omega (arith, l, m)) ∙ e) y
      (Chain-cells k (λ b h. same b (omega (arith, h))))

-- What follows the first object of a chain.
pub Chain-tail :
    {cs : List Class} {cells : Heap} {free p q size : ℕ} {bs : List ℕ} {c : Cell}
    → Chain cs cells free p (q ∷ bs)
    → cells (heap_ref p) ≡ some c
    → obj_size cs c ≡ some size
    → Chain cs cells free (p + aligned size) bs
Chain-tail {cs} {cells} {free} {p} {bs} (next {size = m} x y k) e z =
    let same = some-injective _ _ (sym x ∙ e) in
    let sizes = some-injective _ _ (sym y ∙ ap (obj_size cs) same ∙ z) in
    subst (λ n. Chain cs cells free (p + aligned n) bs) sizes k

pub ended_before :
    {cs : List Class} {cells : Heap} {free p q : ℕ} {bs : List ℕ}
    → Chain cs cells free p (q ∷ bs)
    → free ≤ p
    → ⊥
ended_before (next {c} x y k) l = absurd (omega (arith, l, Chain-le k, obj_size-le _ c _ y))

-- The object that a chain starts with.
pub Chain-head :
    {cs : List Class} {cells : Heap} {free p : ℕ} {bs : List ℕ}
    → Chain cs cells free p bs
    → p < free
    → (qs : List ℕ) × (bs ≡ p ∷ qs)
Chain-head (ended e) l = absurd (omega (arith, e, l))
Chain-head (next {bs = qs} x y k) l = (qs, refl)
