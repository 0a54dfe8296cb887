-- ===== src/Collector/Scanning.antt =====
-- The loop of gc_cheney_scavenge (vm/memory.c) over the objects that have been copied: one turn, and
-- all of them.
use nesrotom_run.Base.{
  if_true, if_false, ℕ, zero, suc, ◌+◌, ◌≤◌, ◌<◌, ◌≡◌, refl, sym, ap, ◌∙◌, inl, inr, subst, some,
  List, [], ◌∷◌, ◌++◌, arith, Bool-cases, ltb, ltb→lt, ltb_false→le,
}
use nesrotom_run.State.{Ref, heap_ref, Object, Body}
use nesrotom_run.State as State
use nesrotom_run.State.Memory.{aligned}
use nesrotom_run.Collector.{
  Cell, object, class_cell, stack_cell, copied, Gc, done, Step, and_then, put, obj_size,
  from_option, read, var_count,
}
use nesrotom_run.Collector.Scavenge.{
  copy_neighbor, write_body, copy_fields, scan_next, advance_scan, scan_loop,
}
use nesrotom_run.Collector.Layout.{Chain-le, obj_size-le, Chain-tail, Chain-head, ended_before}
use nesrotom_run.Collector.Invariant.{BodySent, Inv, Grows, Extends, Inv-with_roots}
use nesrotom_run.Collector.Runs.{from_done, done_inj, from_some}
use nesrotom_run.Collector.Fields.{fields-Extends}
use nesrotom_run.Collector.Written.{written_Grows, written_Inv}

-- What a turn of the loop, or several, has done. The scan pointer is at `p`, and the copies at
-- `pending` follow.
pub record Scanned (z s t : Gc) (p : ℕ) : Type 0 where
  pub pending : List ℕ
  pub inv : Inv z p pending t
  pub grows : Grows s.cells t.cells
  pub at_scan : t.scan ≡ p
  pub statics_same : t.statics ≡ s.statics
  pub rootset_same : t.rootset ≡ s.rootset
  pub const_arrays_same : t.const_arrays ≡ s.const_arrays
  pub stack_same : t.stack ≡ s.stack

write-Scanned :
    {z s u t : Gc} {p size : ℕ} {bs : List ℕ} {o : Object} {b : Body}
    → Inv z p (p ∷ bs) s
    → s.cells (heap_ref p) ≡ some (object o)
    → obj_size z.classes (object o) ≡ some size
    → s.scan ≡ p + aligned size
    → Extends z s u p (p ∷ bs)
    → BodySent u.cells (var_count z.classes o.cls) o.body b
    → write_body p o b u ≡ done tt t
    → Scanned z s t (p + aligned size)
unfolding write_body put
write-Scanned {z} {s} {u} {t} {p} {size} {bs} {o} {b} i e sized at x sent h =
    let e' =
      x.keeps p i.started (
        omega (
          arith,
          Chain-le (Chain-tail i.chain e sized),
          obj_size-le z.classes (object o) size sized,
        ))
      ∙ e in
    let k = Chain-tail x.inv.chain e' sized in
    let (_, same) = done_inj h in
    subst (λ w. Scanned z s w (p + aligned size)) same
      (record {
        pending = bs ++ x.added;
        inv = written_Inv x.inv o b e' sized k sent;
        grows = record {
          kept = λ r d y. (written_Grows x.inv o b e' sized k sent).kept r d (x.grows.kept r d y);
        };
        at_scan = x.roots.scan_same ∙ at;
        statics_same = x.roots.statics_same;
        rootset_same = x.roots.rootset_same;
        const_arrays_same = x.roots.const_arrays_same;
        stack_same = x.roots.stack_same;
      })

neighbor-Scanned :
    {z s t : Gc} {p size : ℕ} {bs : List ℕ} {c : Cell}
    → Inv z p (p ∷ bs) s
    → s.cells (heap_ref p) ≡ some c
    → obj_size z.classes c ≡ some size
    → s.scan ≡ p + aligned size
    → copy_neighbor p c s ≡ done tt t
    → Scanned z s t (p + aligned size)
unfolding copy_neighbor
neighbor-Scanned {c = class_cell} i e sized at h = absurd (ground (arith, h))
neighbor-Scanned {c = stack_cell} i e sized at h = absurd (ground (arith, h))
neighbor-Scanned {c = copied d} i e sized at h = absurd (ground (arith, h))
neighbor-Scanned {z} {s} {t} {p} {size} {bs} {c = object o} i e sized at h =
    let n = var_count s.classes o.cls in
    let (b, u, run, last) = from_done (copy_fields n o.body s) (write_body p o) tt t h in
    let (x, sent) = fields-Extends n o.body b i run in
    let sent' = subst (λ cs. BodySent u.cells (var_count cs o.cls) o.body b) i.classes_same sent in
    write-Scanned i e sized at x sent' last

from_moved : {z s t : Gc} {p q : ℕ} → Scanned z (record s { scan = q }) t p → Scanned z s t p
from_moved x = record {
  pending = x.pending;
  inv = x.inv;
  grows = record { kept = x.grows.kept };
  at_scan = x.at_scan;
  statics_same = x.statics_same;
  rootset_same = x.rootset_same;
  const_arrays_same = x.const_arrays_same;
  stack_same = x.stack_same;
}

-- One turn of the loop.
pub next-Scanned :
    {z s t : Gc} {p : ℕ} {bs : List ℕ} (c : Cell)
    → Inv z p (p ∷ bs) s
    → s.scan ≡ p
    → s.cells (heap_ref p) ≡ some c
    → scan_next p c s ≡ done tt t
    → (size : ℕ) × (32 ≤ aligned size) × Scanned z s t (p + aligned size)
unfolding scan_next advance_scan
next-Scanned {z} {s} {t} {p} {bs} c i at e h =
    let o = obj_size s.classes c in
    let (size, w, first, rest) =
      from_done (from_option o State.assert_failed s)
        (λ size v. and_then (advance_scan size v) (λ _. copy_neighbor p c)) tt t h in
    let (sized, same) = from_some o State.assert_failed size w first in
    let sized' = subst (λ cs. obj_size cs c ≡ some size) i.classes_same sized in
    let moved = record s { scan = s.scan + aligned size } in
    let rest' =
      subst (λ v. and_then (advance_scan size v) (λ _. copy_neighbor p c) ≡ done tt t) (sym same)
        rest in
    let i' = Inv-with_roots (s.scan + aligned size) s.statics s.rootset s.const_arrays s.stack i in
    (
      size,
      obj_size-le z.classes c size sized',
      from_moved (neighbor-Scanned i' e sized' (ap (λ q. q + aligned size) at) rest'),
    )

-- The end of the loop: nothing is left to scan.
pub record AllScanned (z s t : Gc) : Type 0 where
  pub inv : Inv z t.free [] t
  pub grows : Grows s.cells t.cells
  pub statics_same : t.statics ≡ s.statics
  pub rootset_same : t.rootset ≡ s.rootset
  pub const_arrays_same : t.const_arrays ≡ s.const_arrays
  pub stack_same : t.stack ≡ s.stack

AllScanned-then : {z s t u : Gc} {p : ℕ} → Scanned z s t p → AllScanned z t u → AllScanned z s u
AllScanned-then x y = record {
  inv = y.inv;
  grows = record { kept = λ r b e. y.grows.kept r b (x.grows.kept r b e) };
  statics_same = y.statics_same ∙ x.statics_same;
  rootset_same = y.rootset_same ∙ x.rootset_same;
  const_arrays_same = y.const_arrays_same ∙ x.const_arrays_same;
  stack_same = y.stack_same ∙ x.stack_same;
}

ended_Inv : {z s : Gc} {p : ℕ} (bs : List ℕ) → Inv z p bs s → s.free ≤ p → Inv z s.free [] s
ended_Inv {z} {s} {p} [] i l = subst (λ q. Inv z q [] s) (omega (arith, l, Chain-le i.chain)) i
ended_Inv (b ∷ bs) i l = absurd (ended_before i.chain l)

stopped : {z s t : Gc} {p : ℕ} (bs : List ℕ) → Inv z p bs s → s.free ≤ p → s ≡ t → AllScanned z s t
stopped {z} {s} {p} bs i l same = subst (AllScanned z s) same (record {
  inv = ended_Inv bs i l;
  grows = record { kept = λ r b e. e };
  statics_same = refl;
  rootset_same = refl;
  const_arrays_same = refl;
  stack_same = refl;
})

turn-Scanned :
    {z s t : Gc} {bs : List ℕ} (rest : Step (Unit {0}))
    → Inv z s.scan bs s
    → s.scan < s.free
    → and_then (read (heap_ref s.scan) s) (λ c w. and_then (scan_next s.scan c w) (λ _. rest))
      ≡ done tt t
    → (u : Gc) × (size : ℕ) × Scanned z s u (s.scan + aligned size) × (rest u ≡ done tt t)
unfolding read
turn-Scanned {z} {s} {t} {bs} rest i l h =
    let go = λ (c : Cell) (w : Gc). and_then (scan_next s.scan c w) (λ _. rest) in
    let (c, w, first, more) = from_done (read (heap_ref s.scan) s) go tt t h in
    let (e, same) = from_some (s.cells (heap_ref s.scan)) State.bad_access c w first in
    let more' = subst (λ v. go c v ≡ done tt t) (sym same) more in
    let (_, u, run, last) = from_done (scan_next s.scan c s) (λ _. rest) tt t more' in
    let (qs, split) = Chain-head i.chain l in
    let (size, _, x) = next-Scanned c (subst (λ b. Inv z s.scan b s) split i) refl e run in
    (u, size, x, last)

pub loop-AllScanned :
    {z : Gc} (fuel : ℕ) (s t : Gc) (bs : List ℕ)
    → Inv z s.scan bs s
    → scan_loop fuel s ≡ done tt t
    → AllScanned z s t
unfolding scan_loop
loop-AllScanned zero s t bs i h = elim (Bool-cases (ltb s.scan s.free)) [
  | inl y ↦ absurd (ground (arith, h, y))
  | inr n ↦
      let (_, same) = done_inj (sym (if_false _ _ n) ∙ h) in stopped bs i (ltb_false→le _ _ n) same
]
loop-AllScanned {z} (suc fuel) s t bs i h = elim (Bool-cases (ltb s.scan s.free)) [
  | inr n ↦
      let (_, same) = done_inj (sym (if_false _ _ n) ∙ h) in stopped bs i (ltb_false→le _ _ n) same
  | inl y ↦
      let (u, size, x, last) =
        turn-Scanned (scan_loop fuel) i (ltb→lt _ _ y) (sym (if_true _ _ y) ∙ h) in
      let j = subst (λ q. Inv z q x.pending u) (sym x.at_scan) x.inv in
      AllScanned-then x (loop-AllScanned fuel u t x.pending j last)
]
