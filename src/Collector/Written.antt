-- ===== src/Collector/Written.antt =====
-- The object at the scan pointer written back with its new fields (gc_cheney_copy_neighbor of
-- vm/memory.c), under the invariant of a collection.
use nesrotom_run.Base.{
  ℕ, ◌+◌, ◌≤◌, ◌≡◌, ◌≢◌, ◌⊎◌, sym, ap, ◌∙◌, inl, inr, subst, none, some, List, ◌∷◌, true, false,
  arith,
}
use mathlib.Core.Option.{some-injective}
use mathlib.Core.List.{Memᴰ}
use nesrotom_run.State.{Ref, heap_ref, Object, Body}
use nesrotom_run.State.Memory.{aligned}
use nesrotom_run.Collector.{
  Cell, object, copied, Gc, put, obj_size, new_segment_size, header_size, var_count,
}
use nesrotom_run.Collector.Scavenge.{in_segment}
use nesrotom_run.Collector.Layout.{
  Chain, Chain-le, Chain-mem, Chain-cells, obj_size-le, cells-put_self, cells-put_ne, Ref-cases,
  heap_ref-ne,
}
use nesrotom_run.Collector.Invariant.{
  CellSent, sent_object, CellSent-Grows, BodySent, BodySent-Grows, Placed, unscanned, scanned, Fate,
  untouched, moved, Inv, Grows,
}

-- The object at the scan pointer gets its new fields.
module _ {z u : Gc} {p size : ℕ} {bs : List ℕ} (i : Inv z p (p ∷ bs) u) (o : Object) (b : Body)
    (e : u.cells (heap_ref p) ≡ some (object o)) (sized : obj_size z.classes (object o) ≡ some size)
    (k : Chain z.classes u.cells u.free (p + aligned size) bs)
    (sent : BodySent u.cells (var_count z.classes o.cls) o.body b) where
  abbrev written : Gc
  written = put (heap_ref p) (object (record o { body = b })) u

  size-le : 32 ≤ aligned size
  size-le = obj_size-le z.classes (object o) size sized

  p-lt : p + 32 ≤ u.free
  p-lt = omega (arith, Chain-le k, size-le)

  at_p : written.cells (heap_ref p) ≡ some (object (record o { body = b }))
  at_p = cells-put_self (heap_ref p) _ u

  away : (r : Ref) → r ≢ heap_ref p → written.cells r ≡ u.cells r
  away r n = cells-put_ne r (heap_ref p) _ u n

  away_from : (a : ℕ) → a ≢ p → written.cells (heap_ref a) ≡ u.cells (heap_ref a)
  away_from a n = away (heap_ref a) (heap_ref-ne a p n)

  before : (r : Ref) (d : ℕ) → written.cells r ≡ some (copied d) → u.cells r ≡ some (copied d)
  before r d x = elim (Ref-cases r (heap_ref p)) [
    | inl y ↦ absurd (ground (arith, at_p, subst (λ q. written.cells q ≡ some (copied d)) y x))
    | inr n ↦ sym (away r n) ∙ x
  ]

  pub written_Grows : Grows u.cells written.cells
  written_Grows = record {
    kept = λ r d x. elim (Ref-cases r (heap_ref p)) [
      | inl y ↦ absurd (ground (arith, e, subst (λ q. u.cells q ≡ some (copied d)) y x))
      | inr n ↦ away r n ∙ x
    ];
  }

  written_Placed :
      (d : ℕ) (c : Cell)
      → Placed z u.cells p (p ∷ bs) d c
      → Placed z written.cells (p + aligned size) bs d c
  written_Placed d c (unscanned (Memᴰ.head x) y) =
      let same = some-injective _ _ (sym e ∙ sym (ap (λ a. u.cells (heap_ref a)) x) ∙ y) in
      scanned (omega (arith, x, size-le)) (omega (arith, x, i.started))
        (ap (λ a. written.cells (heap_ref a)) x ∙ at_p)
        (subst (λ q. CellSent z.classes written.cells q (object (record o { body = b }))) same
          (sent_object (BodySent-Grows written_Grows sent)))
  written_Placed d c (unscanned (Memᴰ.tail m) y) =
      let (l, h) = Chain-mem d k m in unscanned m (away_from d (omega (arith, l, size-le)) ∙ y)
  written_Placed d c (scanned l m x y) =
      scanned (omega (arith, l)) m (away_from d (omega (arith, l)) ∙ x)
        (CellSent-Grows written_Grows y)

  inside_p : in_segment z.to_space (heap_ref p) ≡ true
  unfolding in_segment
  inside_p = ground (arith, i.started, p-lt, i.room)

  written_unused :
      (a : ℕ)
      → u.free ≤ a ⊎ z.to_space + new_segment_size ≤ a + header_size
      → in_segment z.to_space (heap_ref a) ≡ true
      → written.cells (heap_ref a) ≡ none
  written_unused a (inl l) h = away_from a (omega (arith, l, p-lt)) ∙ i.unused a (inl l) h
  written_unused a (inr l) h = away_from a (omega (arith, l, p-lt, i.room)) ∙ i.unused a (inr l) h

  written_Fate :
      (r : Ref)
      → in_segment z.to_space r ≡ false
      → Fate z u.cells p (p ∷ bs) r
      → Fate z written.cells (p + aligned size) bs r
  written_Fate r n (untouched x) = untouched (
      away r
        (λ y. absurd (ground (arith, inside_p, subst (λ q. in_segment z.to_space q ≡ false) y n)))
      ∙ x)
  written_Fate r n (moved {b = d} {c} x y m) =
      moved (written_Grows.kept r d x) y (written_Placed d c m)

  pub written_Inv : Inv z (p + aligned size) bs written
  unfolding put
  written_Inv = record {
    fresh = i.fresh;
    classes_same = i.classes_same;
    to_same = i.to_same;
    from_same = i.from_same;
    started = omega (arith, i.started);
    room = i.room;
    chain = Chain-cells k (λ a l m. away_from a (omega (arith, l, size-le)));
    unused = written_unused;
    live = λ a d h x. i.live a d h (before (heap_ref a) d x);
    once = λ q r d x y. i.once q r d (before q d x) (before r d y);
    fate = λ r n. written_Fate r n (i.fate r n);
  }
