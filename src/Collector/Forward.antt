-- ===== src/Collector/Forward.antt =====
-- One pointer forwarded (gc_cheney_copy_root_obj and gc_cheney_copy_neighbor_inner of vm/memory.c),
-- under the invariant of a collection.
use nesrotom_run.Base.{
  if_false, ℕ, ◌+◌, ◌<◌, ◌≡◌, ◌≢◌, sym, ap, ◌∙◌, inl, inr, some, List, arith, Bool-cases, subst,
  leb, leb_false→lt,
}
use nesrotom_run.State.{
  Ref, const_ref, heap_ref, class_ref, stack_ref, Value, null, ptr, small, char, dptr, Body, Object,
  Class, Fault,
}
use nesrotom_run.State as State
use nesrotom_run.State.Memory.{aligned}
use nesrotom_run.Collector.{
  Cell, object, class_cell, stack_cell, copied, Gc, done, new_segment_size, header_size, obj_size,
  ptr_in_to_space, is_const, Heap, put, read, from_option, and_then,
}
use nesrotom_run.Collector.Scavenge.{
  forward, forward_cell, copy_and_forward, copy_obj_to_space_free, place, leave_forward,
}
use nesrotom_run.Collector.Invariant.{Sent, sent_const, sent_ptr, Inv, Extends, Extends-refl}
use nesrotom_run.Collector.Runs.{from_done, done_inj, from_some}
use nesrotom_run.Collector.Copied.{outside, after, at_free, after-Extends, after_Sent}

placed :
    (s : Gc) {t : Gc} (c : Cell) (size a : ℕ)
    → place c size s ≡ done a t
    → (s.free + aligned size < s.to_space + new_segment_size)
      × (s.free ≡ a)
      × (put (heap_ref s.free) c (record s { free = s.free + aligned size }) ≡ t)
unfolding place
placed s c size a h =
    elim (Bool-cases (leb (s.to_space + new_segment_size) (s.free + aligned size))) [
      | inl e ↦ absurd (ground (arith, h, e))
      | inr e ↦ let (x, y) = done_inj (sym (if_false _ _ e) ∙ h) in (leb_false→lt _ _ e, x, y)
    ]

-- gc_cheney_copy_obj_to_space_free where it succeeds.
copied_free :
    (s : Gc) {t : Gc} (c : Cell) (a : ℕ)
    → copy_obj_to_space_free c s ≡ done a t
    → (size : ℕ) × (obj_size s.classes c ≡ some size)
      × (s.free + aligned size < s.to_space + new_segment_size)
      × (s.free ≡ a)
      × (put (heap_ref s.free) c (record s { free = s.free + aligned size }) ≡ t)
unfolding copy_obj_to_space_free
copied_free s {t} c a h =
    let (size, w, first, rest) =
      from_done (from_option (obj_size s.classes c) State.assert_failed s) (place c) a _ h in
    let (e, same) = from_some (obj_size s.classes c) State.assert_failed size w first in
    let (fits, at_free, after) =
      placed s c size a (subst (λ u. place c size u ≡ done a t) (sym same) rest) in
    (size, e, fits, at_free, after)

copy_and_forward-Extends :
    {z s t : Gc} {p : ℕ} {bs : List ℕ} (r : Ref) (c : Cell) (v : Value)
    → Inv z p bs s
    → s.cells r ≡ some c
    → ((b : ℕ) → c ≢ copied b)
    → copy_and_forward r c s ≡ done v t
    → Extends z s t p bs × Sent t.cells (ptr r) v
unfolding copy_and_forward leave_forward
copy_and_forward-Extends {z} {s} {t} {p} {bs} r c v i e plain h =
    elim (Bool-cases (ptr_in_to_space r header_size s)) [
      | inl y ↦ absurd (ground (arith, h, y))
      | inr y ↦
          let (a, u, run, rest) =
            from_done (copy_obj_to_space_free c s) (leave_forward r) v t
              (sym (if_false _ _ y) ∙ h) in
          let (size, sized, fits, fe, ue) = copied_free s c a run in
          let (ve, te) = done_inj rest in
          let sized' = subst (λ cs. obj_size cs c ≡ some size) i.classes_same sized in
          let fits' = subst (λ q. s.free + aligned size < q + new_segment_size) i.to_same fits in
          let out = outside r c i e y in
          let path = ap (λ w. put r (copied s.free) w) ue ∙ ap (λ q. put r (copied q) u) fe ∙ te in
          (
            subst (λ w. Extends z s w p bs) path
                (after-Extends i r c size e plain out sized' fits'),
            subst (λ w. Sent w.cells (ptr r) v) path
                (subst (Sent _ (ptr r)) (ap (λ q. ptr (heap_ref q)) fe ∙ ve)
                  (after_Sent i r c size e plain out sized' fits')),
          )
    ]

-- The outcome of a command that leaves the state as it is.
pub unchanged :
    {z s t : Gc} {p : ℕ} {bs : List ℕ} {A : Type 0} {a b : A} (P : Heap → A → Type 0)
    → Inv z p bs s
    → P s.cells a
    → done a s ≡ done b t
    → Extends z s t p bs × P t.cells b
unchanged {z} {s} {p} {bs} {b} P i x h =
    let (ve, te) = done_inj h in
    (
      subst (λ w. Extends z s w p bs) te (Extends-refl i),
      subst (λ w. P w.cells b) te (subst (P s.cells) ve x),
    )

forward_cell-Extends :
    {z s t : Gc} {p : ℕ} {bs : List ℕ} (r : Ref) (c : Cell) (v : Value)
    → Inv z p bs s
    → s.cells r ≡ some c
    → forward_cell r c s ≡ done v t
    → Extends z s t p bs × Sent t.cells (ptr r) v
unfolding forward_cell
forward_cell-Extends r (copied b) v i e h = unchanged (λ g. Sent g (ptr r)) i (sent_ptr e) h
forward_cell-Extends r (object o) v i e h =
    copy_and_forward-Extends r (object o) v i e (λ b x. absurd (ground (arith, x))) h
forward_cell-Extends r class_cell v i e h =
    copy_and_forward-Extends r class_cell v i e (λ b x. absurd (ground (arith, x))) h
forward_cell-Extends r stack_cell v i e h =
    copy_and_forward-Extends r stack_cell v i e (λ b x. absurd (ground (arith, x))) h

movable-Extends :
    {z s t : Gc} {p : ℕ} {bs : List ℕ} (r : Ref) (v : Value)
    → Inv z p bs s
    → and_then (read r s) (forward_cell r) ≡ done v t
    → Extends z s t p bs × Sent t.cells (ptr r) v
unfolding read
movable-Extends {z} {s} {t} {p} {bs} r v i h =
    let (c, u, first, rest) = from_done (read r s) (forward_cell r) v t h in
    let (e, same) = from_some (s.cells r) State.bad_access c u first in
    forward_cell-Extends r c v i e (subst (λ w. forward_cell r c w ≡ done v t) (sym same) rest)

-- A pointer that gc_cheney_copy_neighbor_inner goes through is sent, and what was sent before stays so.
pub forward-Extends :
    {z s t : Gc} {p : ℕ} {bs : List ℕ} (r : Ref) (v : Value)
    → Inv z p bs s
    → forward r s ≡ done v t
    → Extends z s t p bs × Sent t.cells (ptr r) v
unfolding forward is_const
forward-Extends (const_ref n) v i h = unchanged (λ g. Sent g (ptr (const_ref n))) i sent_const h
forward-Extends (heap_ref a) v i h = movable-Extends (heap_ref a) v i h
forward-Extends (class_ref n) v i h = movable-Extends (class_ref n) v i h
forward-Extends stack_ref v i h = movable-Extends stack_ref v i h
