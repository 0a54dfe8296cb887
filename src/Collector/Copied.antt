-- ===== src/Collector/Copied.antt =====
-- One object copied to the beginning of the free space and its forwarding address
-- (gc_cheney_copy_obj_to_space_free of vm/memory.c), under the invariant of a collection.
use nesrotom_run.Base.{
  ℕ, ◌+◌, ◌≤◌, ◌<◌, ◌≡◌, ◌≢◌, ◌⊎◌, refl, sym, ◌∙◌, inl, inr, Option, none, some, List, [], ◌∷◌,
  ◌++◌, true, false, arith, Bool-cases, subst,
}
use native.Mathlib.Decide.{ℕ_discrete}
use mathlib.Core.List.{Memᴰ}
use mathlib.Core.List.Memᴰ
use nesrotom_run.State.{Ref, const_ref, heap_ref, class_ref, stack_ref, ptr}
use nesrotom_run.State.Memory.{aligned}
use nesrotom_run.Collector.{
  Cell, copied, Gc, new_segment_size, header_size, obj_size, ptr_in_space, ptr_in_to_space, put,
}
use nesrotom_run.Collector.Scavenge.{in_segment}
use nesrotom_run.Collector.Invariant.{
  Sent, sent_ptr, CellSent-Grows, Placed, unscanned, scanned, Fate, untouched, moved, Inv, Grows,
  Extends,
}
use nesrotom_run.Collector.Layout.{
  Chain-le, Chain-mem, Chain-snoc, obj_size-le, cells-put_self, cells-put_ne, Ref-cases,
  heap_ref-ne,
}

-- An object that is not in the to-space by the code's own test stands outside of it.
pub outside :
    {z s : Gc} {p : ℕ} {bs : List ℕ} (r : Ref) (c : Cell)
    → Inv z p bs s
    → s.cells r ≡ some c
    → ptr_in_to_space r header_size s ≡ false
    → in_segment z.to_space r ≡ false
unfolding in_segment ptr_in_to_space ptr_in_space aligned
outside (const_ref i) c k e h = refl
outside (class_ref i) c k e h = refl
outside stack_ref c k e h = refl
outside {z} (heap_ref a) c k e h = elim (Bool-cases (in_segment z.to_space (heap_ref a))) [
  | inr n ↦ n
  | inl y ↦ absurd (ground (arith, k.unused a (inr (ground (arith, y, h, k.to_same))) y, e))
]

pub inside_live :
    {z s : Gc} {p : ℕ} {bs : List ℕ}
    → Inv z p bs s
    → (r : Ref) (b : ℕ) → in_segment z.to_space r ≡ true
    → s.cells r ≢ some (copied b)
unfolding in_segment
inside_live i (heap_ref a) b y e = i.live a b y e
inside_live i (const_ref a) b y e = ground (arith, y)
inside_live i (class_ref a) b y e = ground (arith, y)
inside_live i stack_ref b y e = ground (arith, y)

pub copied_inj : {b d : ℕ} → Path (Option Cell) (some (copied b)) (some (copied d)) → b ≡ d
copied_inj h = ground (arith, h)

Placed-below :
    {z s : Gc} {p b : ℕ} {bs : List ℕ} {c : Cell}
    → Inv z p bs s
    → Placed z s.cells p bs b c
    → b < s.free
Placed-below i (unscanned m x) = let (l, h) = Chain-mem _ i.chain m in omega (arith, h)
Placed-below i (scanned l m x y) = omega (arith, l, Chain-le i.chain)

-- A copy stands before the free space.
pub copy_below :
    {z s : Gc} {p : ℕ} {bs : List ℕ}
    → Inv z p bs s
    → (r : Ref) (b : ℕ) → s.cells r ≡ some (copied b)
    → b < s.free
copy_below {z} {s} {p} {bs} i r b e = elim (Bool-cases (in_segment z.to_space r)) [
  | inl y ↦ absurd (inside_live i r b y e)
  | inr n ↦ elim (i.fate r n) [
    | untouched x ↦ absurd (i.fresh.uncopied r b (sym x ∙ e))
    | moved {b = d} {c} x y k ↦
        let same = copied_inj (sym x ∙ e) in subst (λ a. a < s.free) same (Placed-below i k)
  ]
]

-- One object copied to the beginning of the free space.
module _ {z s : Gc} {p : ℕ} {bs : List ℕ} (i : Inv z p bs s) (r : Ref) (c : Cell) (size : ℕ)
    (e : s.cells r ≡ some c) (plain : (b : ℕ) → c ≢ copied b)
    (out : in_segment z.to_space r ≡ false) (sized : obj_size z.classes c ≡ some size)
    (fits : s.free + aligned size < z.to_space + new_segment_size) where
  abbrev pub after : Gc
  after =
      put r (copied s.free) (put (heap_ref s.free) c (record s { free = s.free + aligned size }))

  p-le : p ≤ s.free
  p-le = Chain-le i.chain

  inside : (a : ℕ) → z.to_space ≤ a → a ≤ s.free → in_segment z.to_space (heap_ref a) ≡ true
  unfolding in_segment
  inside a l m = ground (arith, l, m, fits)

  ne : (a : ℕ) → in_segment z.to_space (heap_ref a) ≡ true → heap_ref a ≢ r
  ne a h x = absurd (ground (arith, out, subst (λ q. in_segment z.to_space q ≡ true) x h))

  at_r : after.cells r ≡ some (copied s.free)
  at_r = cells-put_self r _ _

  pub at_free : after.cells (heap_ref s.free) ≡ some c
  at_free =
      cells-put_ne _ r _ _
        (ne s.free (inside s.free (omega (arith, i.started, p-le)) (omega arith)))
      ∙ cells-put_self (heap_ref s.free) _ _

  elsewhere : (q : Ref) → q ≢ r → q ≢ heap_ref s.free → after.cells q ≡ s.cells q
  elsewhere q n m = cells-put_ne q r _ _ n ∙ cells-put_ne q _ _ _ m

  below : (a : ℕ) → z.to_space ≤ a → a < s.free → after.cells (heap_ref a) ≡ s.cells (heap_ref a)
  below a l m =
      elsewhere _ (ne a (inside a l (omega (arith, m)))) (heap_ref-ne a s.free (omega (arith, m)))

  free_empty : s.cells (heap_ref s.free) ≡ none
  free_empty =
      i.unused s.free (inl (omega arith))
        (inside s.free (omega (arith, i.started, p-le)) (omega arith))

  after_Grows : Grows s.cells after.cells
  after_Grows = record {
    kept = λ q b x. elim (Ref-cases q r) [
      | inl y ↦ absurd (ground (arith, plain b, e, x, y))
      | inr n ↦ elim (Ref-cases q (heap_ref s.free)) [
        | inl y ↦ absurd (ground (arith, free_empty, x, y))
        | inr m ↦ elsewhere q n m ∙ x
      ]
    ];
  }

  still_Placed :
      (b : ℕ) (d : Cell)
      → Placed z s.cells p bs b d
      → Placed z after.cells p (bs ++ (s.free ∷ [])) b d
  still_Placed b d (unscanned m x) =
      let (l, h) = Chain-mem b i.chain m in
      unscanned (Memᴰ.append_left _ m)
        (below b (omega (arith, l, i.started)) (omega (arith, h)) ∙ x)
  still_Placed b d (scanned l m x y) =
      scanned l m (below b m (omega (arith, l, p-le)) ∙ x) (CellSent-Grows after_Grows y)

  z_r : z.cells r ≡ some c
  z_r = elim (i.fate r out) [
    | untouched x ↦ sym x ∙ e
    | moved {b} x y k ↦ absurd (ground (arith, plain b, e, x))
  ]

  not_free : (q : Ref) → in_segment z.to_space q ≡ false → q ≢ heap_ref s.free
  not_free q o x = absurd (
      ground (
        arith,
        inside s.free (omega (arith, i.started, p-le)) (omega arith),
        subst (λ y. in_segment z.to_space y ≡ false) x o,
      ))

  other_Fate :
      (q : Ref)
      → q ≢ r
      → in_segment z.to_space q ≡ false
      → Fate z s.cells p bs q
      → Fate z after.cells p (bs ++ (s.free ∷ [])) q
  other_Fate q n o (untouched x) = untouched (elsewhere q n (not_free q o) ∙ x)
  other_Fate q n o (moved {b} {c = d} x y k) =
      moved (elsewhere q n (not_free q o) ∙ x) y (still_Placed b d k)

  after_unused :
      (a : ℕ)
      → (s.free + aligned size ≤ a) ⊎ (z.to_space + new_segment_size ≤ a + header_size)
      → in_segment z.to_space (heap_ref a) ≡ true
      → after.cells (heap_ref a) ≡ none
  after_unused a (inl l) h =
      let m = obj_size-le z.classes c size sized in
      elsewhere _ (ne a h) (heap_ref-ne a s.free (omega (arith, l, m)))
      ∙ i.unused a (inl (omega (arith, l))) h
  after_unused a (inr l) h =
      let m = obj_size-le z.classes c size sized in
      elsewhere _ (ne a h) (heap_ref-ne a s.free (omega (arith, l, m, fits))) ∙ i.unused a (inr l) h

  after_live :
      (a b : ℕ)
      → in_segment z.to_space (heap_ref a) ≡ true
      → after.cells (heap_ref a) ≢ some (copied b)
  after_live a b h x = elim (ℕ_discrete a s.free) [
    | yes y ↦ absurd (
        ground
          (arith, plain b, at_free, subst (λ d. after.cells (heap_ref d) ≡ some (copied b)) y x))
    | no n ↦ i.live a b h (sym (elsewhere _ (ne a h) (heap_ref-ne a s.free n)) ∙ x)
  ]

  -- What is copied afterwards was copied before, but for the new copy.
  pub before :
      (q : Ref) (b : ℕ) → q ≢ r → after.cells q ≡ some (copied b) → s.cells q ≡ some (copied b)
  before q b n x = elim (Ref-cases q (heap_ref s.free)) [
    | inl y ↦
        absurd (ground (arith, plain b, at_free, subst (λ k. after.cells k ≡ some (copied b)) y x))
    | inr m ↦ sym (elsewhere q n m) ∙ x
  ]

  -- The new copy has an address that no other copy has.
  new_address : (q : Ref) (b : ℕ) → q ≢ r → after.cells q ≡ some (copied b) → s.free ≢ b
  new_address q b n x y = absurd (omega (arith, y, copy_below i q b (before q b n x)))

  target : (q : Ref) (b : ℕ) → q ≡ r → after.cells q ≡ some (copied b) → s.free ≡ b
  target q b m x = ground (arith, at_r, subst (λ k. after.cells k ≡ some (copied b)) m x)

  after_once :
      (q k : Ref) (b : ℕ)
      → after.cells q ≡ some (copied b)
      → after.cells k ≡ some (copied b)
      → q ≡ k
  after_once q k b x y = elim (Ref-cases q r) [
    | inl m ↦ elim (Ref-cases k r) [
      | inl n ↦ m ∙ sym n
      | inr n ↦ absurd (new_address k b n y (target q b m x))
    ]
    | inr m ↦ elim (Ref-cases k r) [
      | inl n ↦ absurd (new_address q b m x (target k b n y))
      | inr n ↦ i.once q k b (before q b m x) (before k b n y)
    ]
  ]

  after_Fate :
      (q : Ref) → in_segment z.to_space q ≡ false → Fate z after.cells p (bs ++ (s.free ∷ [])) q
  after_Fate q o = elim (Ref-cases q r) [
    | inl y ↦
        subst (Fate z after.cells p (bs ++ (s.free ∷ []))) (sym y)
          (moved at_r z_r (unscanned (Memᴰ.append_right bs (Memᴰ.head refl)) at_free))
    | inr n ↦ other_Fate q n o (i.fate q o)
  ]

  after-Inv : Inv z p (bs ++ (s.free ∷ [])) after
  unfolding put
  after-Inv = record {
    fresh = i.fresh;
    classes_same = i.classes_same;
    to_same = i.to_same;
    from_same = i.from_same;
    started = i.started;
    room = omega (arith, fits);
    chain = Chain-snoc i.chain (λ b l m. below b (omega (arith, l, i.started)) m) at_free sized;
    unused = after_unused;
    live = after_live;
    once = after_once;
    fate = after_Fate;
  }

  pub after-Extends : Extends z s after p bs
  unfolding put
  after-Extends = record {
    added = s.free ∷ [];
    inv = after-Inv;
    grows = after_Grows;
    longer = omega arith;
    keeps = below;
    roots = record {
      scan_same = refl;
      statics_same = refl;
      rootset_same = refl;
      const_arrays_same = refl;
      stack_same = refl;
    };
  }

  pub after_Sent : Sent after.cells (ptr r) (ptr (heap_ref s.free))
  after_Sent = sent_ptr at_r
