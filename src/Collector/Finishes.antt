-- ===== src/Collector/Finishes.antt =====
-- The end of the loop of gc_cheney_scavenge (vm/memory.c), whose fuel in the model is the size of a
-- segment.
use nesrotom_run.Base.{
  if_true, ℕ, zero, suc, ◌+◌, ◌≤◌, ◌<◌, ◌≡◌, ◌≢◌, refl, sym, ◌∙◌, inl, inr, subst, List, arith,
  Bool-cases, ltb, ltb→lt,
}
use nesrotom_run.State.{
  Ref, const_ref, heap_ref, class_ref, stack_ref, Value, null, ptr, small, char, dptr, Body, Fault,
  out_of_fuel,
}
use nesrotom_run.State as State
use nesrotom_run.State.Memory.{aligned}
use nesrotom_run.Collector.{Cell, Gc, failed, and_then, read, new_segment_size}
use nesrotom_run.Collector.Scavenge.{scan_next, scan_loop, copy_roots, swap_spaces, scavenge}
use nesrotom_run.Collector.Layout.{Chain-head}
use nesrotom_run.Collector.Invariant.{Inv}
use nesrotom_run.Collector.Runs.{from_some}
use nesrotom_run.Collector.Scanning.{Scanned, next-Scanned}
use nesrotom_run.Collector.Roots.{copy_roots-Walked}
use nesrotom_run.Collector.Isomorphic.{Settled, swapped-Fresh, start-Inv}
use nesrotom_run.Collector.Fueled.{from_failed, read-Fueled, next-Fueled, roots-Fueled}

turn-Fueled :
    {z s : Gc} {bs : List ℕ} (fuel : ℕ)
    → Inv z s.scan bs s
    → s.scan < s.free
    → ((u : Gc) (size : ℕ)
        → 32 ≤ aligned size
        → Scanned z s u (s.scan + aligned size)
        → scan_loop fuel u ≢ failed out_of_fuel)
    → and_then
        (read (heap_ref s.scan) s)
        (λ c w. and_then (scan_next s.scan c w) (λ _. scan_loop fuel))
      ≢ failed out_of_fuel
unfolding read
turn-Fueled {z} {s} fuel i l below h =
    let loop = λ (u : Unit {0}). scan_loop fuel in
    let go = λ (c : Cell) (w : Gc). and_then (scan_next s.scan c w) loop in
    elim (from_failed (read (heap_ref s.scan) s) go h) [
      | inl e ↦ (read-Fueled (heap_ref s.scan)).never s e
      | inr (c, w, first, f) ↦
          let (e, same) = from_some (s.cells (heap_ref s.scan)) State.bad_access c w first in
          let f' = subst (λ v. go c v ≡ failed out_of_fuel) (sym same) f in
          elim (from_failed (scan_next s.scan c s) loop f') [
            | inl q ↦ (next-Fueled s.scan c).never s q
            | inr (_, u, run, last) ↦
                let (qs, split) = Chain-head i.chain l in
                let (size, big, x) =
                  next-Scanned c (subst (λ b. Inv z s.scan b s) split i) refl e run in
                below u size big x last
          ]
    ]

loop-Fueled :
    {z : Gc} (fuel : ℕ) (s : Gc) (bs : List ℕ)
    → Inv z s.scan bs s
    → z.to_space + new_segment_size ≤ s.scan + fuel
    → scan_loop fuel s ≢ failed out_of_fuel
unfolding scan_loop
loop-Fueled zero s bs i l h = elim (Bool-cases (ltb s.scan s.free)) [
  | inl y ↦ absurd (omega (arith, ltb→lt _ _ y, l, i.room))
  | inr n ↦ absurd (ground (arith, h, n))
]
loop-Fueled {z} (suc fuel) s bs i l h = elim (Bool-cases (ltb s.scan s.free)) [
  | inr n ↦ absurd (ground (arith, h, n))
  | inl y ↦
      turn-Fueled fuel i (ltb→lt _ _ y)
        (λ u size big x.
          loop-Fueled fuel u x.pending (subst (λ q. Inv z q x.pending u) (sym x.at_scan) x.inv)
            (omega (arith, l, big, x.at_scan)))
        (sym (if_true _ _ y) ∙ h)
]

-- The collection of a settled heap ends: the loop over the copied objects never runs out of the
-- fuel that the model gives it, whatever the roots and the objects are.
pub scavenge-finishes : (s : Gc) → Settled s → scavenge s ≢ failed out_of_fuel
unfolding scavenge swap_spaces
scavenge-finishes s k h =
    let loop = λ (u : Unit {0}). scan_loop new_segment_size in
    elim (from_failed (copy_roots (swap_spaces s)) loop h) [
      | inl e ↦ roots-Fueled.never (swap_spaces s) e
      | inr (_, u, run, last) ↦
          let w = copy_roots-Walked (start-Inv (swapped-Fresh k) refl) run in
          let i = subst (λ q. Inv (swap_spaces s) q w.pending u) (sym w.at_scan) w.inv in
          loop-Fueled new_segment_size u w.pending i (omega (arith, w.at_scan)) last
    ]
