-- ===== src/Collector/Isomorphic.antt =====
-- The heap before and after a collection (gc_cheney_scavenge of vm/memory.c): roots and objects,
-- and the state in which the next collection starts.
use nesrotom_run.Base.{
  ℕ, ◌+◌, ◌≤◌, ◌<◌, ◌≡◌, ◌≢◌, ◌⊎◌, refl, sym, ap, ◌∙◌, inl, inr, subst, some, List, [], true, false,
  arith, Bool-cases,
}
use nesrotom_run.State.{Ref, heap_ref, Object, Class}
use nesrotom_run.Collector.{Cell, object, copied, Gc, Heap, done, ◌>>◌, new_segment_size}
use nesrotom_run.Collector.Scavenge.{copy_roots, in_segment, swap_spaces, scan_loop, scavenge}
use nesrotom_run.Collector.Layout.{ended}
use nesrotom_run.Collector.Invariant.{
  CellSent, sent_object, Fresh, unscanned, scanned, untouched, moved, Inv,
}
use nesrotom_run.Collector.Copied.{copied_inj, inside_live}
use nesrotom_run.Collector.Runs.{from_done}
use nesrotom_run.Collector.Scanning.{loop-AllScanned}
use nesrotom_run.Collector.Roots.{RootsSent, RootsSent-Grows, copy_roots-Walked}

-- The heap between two collections: nothing outside the from-space is copied, every object is in one
-- of the spaces, and the free space begins inside the to-space or at its end. (The constants are not
-- cells of this heap.)
pub record Settled (s : Gc) : Type 0 where
  pub plain : (r : Ref) (b : ℕ) → in_segment s.from_space r ≡ false → s.cells r ≢ some (copied b)
  pub homes :
      (r : Ref) (o : Object)
      → s.cells r ≡ some (object o)
      → (in_segment s.from_space r ≡ true) ⊎ (in_segment s.to_space r ≡ true)
  pub low : s.to_space ≤ s.free
  pub high : s.free ≤ s.to_space + new_segment_size

-- The state `t` is a copy of `z`: the roots are sent, an object that has been copied stands at its
-- new address in the used part of the to-space with its own pointers sent, and no two objects have
-- become one.
pub record IsCopy (z t : Gc) : Type 0 where
  pub roots : RootsSent z z t.cells t
  pub objects :
      (r : Ref) (b : ℕ)
      → t.cells r ≡ some (copied b)
      → (c c' : Cell) × (z.cells r ≡ some c)
        × (t.cells (heap_ref b) ≡ some c')
        × CellSent z.classes t.cells c c'
        × (z.to_space ≤ b)
        × (b < t.free)
  pub once : (q r : Ref) (b : ℕ) → t.cells q ≡ some (copied b) → t.cells r ≡ some (copied b) → q ≡ r

pub swapped-Fresh : {s : Gc} → Settled s → Fresh (swap_spaces s)
unfolding swap_spaces
swapped-Fresh {s} k = record {
  uncopied = λ r b e. elim (Bool-cases (in_segment s.from_space r)) [
    | inl y ↦ absurd (ground (arith, e, y))
    | inr n ↦ k.plain r b n (ground (arith, e, n))
  ];
  empty = λ r y. ground (arith, y);
}

pub start-Inv : {z : Gc} → Fresh z → z.free ≡ z.to_space → Inv z z.to_space [] z
start-Inv {z} f e = record {
  fresh = f;
  classes_same = refl;
  to_same = refl;
  from_same = refl;
  started = omega arith;
  room = omega (arith, e);
  chain = ended (sym e);
  unused = λ a l h. f.empty (heap_ref a) h;
  live = λ a b h. f.uncopied (heap_ref a) b;
  once = λ q r b x y. absurd (f.uncopied q b x);
  fate = λ r n. untouched refl;
}

-- The end of a collection that began in `z`.
pub record Collected (z t : Gc) : Type 0 where
  pub inv : Inv z t.free [] t
  pub roots : RootsSent z z t.cells t

run-Collected :
    {z t : Gc} (fuel : ℕ)
    → Fresh z
    → z.free ≡ z.to_space
    → z.scan ≡ z.to_space
    → (do copy_roots; scan_loop fuel) z ≡ done tt t
    → Collected z t
run-Collected {z} {t} fuel f e at h =
    let (_, u, run, last) = from_done (copy_roots z) (λ _. scan_loop fuel) tt t h in
    let w = copy_roots-Walked (start-Inv f e) run in
    let i = subst (λ q. Inv z q w.pending u) (sym (w.at_scan ∙ at)) w.inv in
    let x = loop-AllScanned fuel u t w.pending i last in
    record {
      inv = x.inv;
      roots =
          RootsSent-Grows x.grows w.sent x.statics_same x.rootset_same x.const_arrays_same
            x.stack_same;
    }

sent-object :
    {cs : List Class} {h : Heap} {c c' : Cell} → CellSent cs h c c' → (o : Object) × (c ≡ object o)
sent-object (sent_object {cls} {b} k) = (record { cls = cls; body = b }, refl)

module _ {z t : Gc} (x : Collected z t) where
  outside : (r : Ref) (b : ℕ) → t.cells r ≡ some (copied b) → in_segment z.to_space r ≡ false
  outside r b e = elim (Bool-cases (in_segment z.to_space r)) [
    | inl y ↦ absurd (inside_live x.inv r b y e)
    | inr n ↦ n
  ]

  copied-Placed :
      (r : Ref) (b : ℕ)
      → t.cells r ≡ some (copied b)
      → (c c' : Cell) × (z.cells r ≡ some c)
        × (t.cells (heap_ref b) ≡ some c')
        × CellSent z.classes t.cells c c'
        × (z.to_space ≤ b)
        × (b < t.free)
  copied-Placed r b e = elim (x.inv.fate r (outside r b e)) [
    | untouched y ↦ absurd (x.inv.fresh.uncopied r b (sym y ∙ e))
    | moved y w (unscanned m q) ↦ absurd (elim m [ ])
    | moved {c} y w (scanned {c'} l m q k) ↦
        let same = copied_inj (sym y ∙ e) in
        (
          c,
          c',
          w,
          ap (λ a. t.cells (heap_ref a)) (sym same) ∙ q,
          k,
          omega (arith, same, m),
          omega (arith, same, l),
        )
  ]

  pub Collected-IsCopy : IsCopy z t
  Collected-IsCopy = record { roots = x.roots; objects = copied-Placed; once = x.inv.once }

  object-home :
      (r : Ref) (o : Object)
      → t.cells r ≡ some (object o)
      → in_segment z.to_space r ≡ false
      → z.cells r ≡ some (object o)
  object-home r o e n = elim (x.inv.fate r n) [
    | untouched y ↦ sym y ∙ e
    | moved y w k ↦ absurd (ground (arith, y, e))
  ]

  copied-object :
      (r : Ref) (b : ℕ) → t.cells r ≡ some (copied b) → (o : Object) × (z.cells r ≡ some (object o))
  copied-object r b e =
      let (c, c', w, q, k, l, m) = copied-Placed r b e in
      let (o, same) = sent-object k in (o, w ∙ ap some same)

module _ {s t : Gc} (k : Settled s) (x : Collected (swap_spaces s) t) where
  before :
      (r : Ref) (o : Object)
      → (swap_spaces s).cells r ≡ some (object o)
      → in_segment s.to_space r ≡ true
  unfolding swap_spaces
  before r o e = elim (Bool-cases (in_segment s.from_space r)) [
    | inl y ↦ absurd (ground (arith, e, y))
    | inr n ↦ elim (k.homes r o (ground (arith, e, n))) [
      | inl y ↦ absurd (ground (arith, y, n))
      | inr y ↦ y
    ]
  ]

  from_same : t.from_space ≡ s.to_space
  unfolding swap_spaces
  from_same = x.inv.from_same

  to_same : t.to_space ≡ s.from_space
  unfolding swap_spaces
  to_same = x.inv.to_same

  after-plain : (r : Ref) (b : ℕ) → in_segment t.from_space r ≡ false → t.cells r ≢ some (copied b)
  after-plain r b n e =
      let (o, w) = copied-object x r b e in
      absurd (ground (arith, before r o w, subst (λ q. in_segment q r ≡ false) from_same n))

  after-homes :
      (r : Ref) (o : Object)
      → t.cells r ≡ some (object o)
      → (in_segment t.from_space r ≡ true) ⊎ (in_segment t.to_space r ≡ true)
  after-homes r o e = elim (Bool-cases (in_segment (swap_spaces s).to_space r)) [
    | inl y ↦ inr (subst (λ q. in_segment q r ≡ true) (sym x.inv.to_same) y)
    | inr n ↦
        inl
          (subst (λ q. in_segment q r ≡ true) (sym from_same) (before r o (object-home x r o e n)))
  ]

  Collected-Settled : Settled t
  Collected-Settled = record {
    plain = after-plain;
    homes = after-homes;
    low = omega (arith, x.inv.to_same, x.inv.started);
    high = omega (arith, x.inv.to_same, x.inv.room);
  }

scavenge-Collected : (s t : Gc) → Settled s → scavenge s ≡ done tt t → Collected (swap_spaces s) t
unfolding scavenge swap_spaces
scavenge-Collected s t k h = run-Collected new_segment_size (swapped-Fresh k) refl refl h

-- A collection that succeeds on a settled heap leaves a copy of what the roots reach: every root is
-- null or not a pointer and stays, or leads to a constant and stays, or gets the new address of its
-- object; a pointer on the stack to a class, to the header of the stack or into the to-space, which
-- is empty at the start, may stay, too; the cell at a new address is the old object, of the same
-- class, type and size, with the pointers it has in use sent in the same way and everything else as
-- it was; it lies in the used part of the to-space; and two objects never get the same new address.
pub scavenge-IsCopy : (s t : Gc) → Settled s → scavenge s ≡ done tt t → IsCopy (swap_spaces s) t
scavenge-IsCopy s t k h = Collected-IsCopy (scavenge-Collected s t k h)

-- A collection that succeeds on a settled heap leaves a settled heap whose spaces have changed
-- places.
pub scavenge-Settled :
    (s t : Gc)
    → Settled s
    → scavenge s ≡ done tt t
    → Settled t × (t.from_space ≡ s.to_space) × (t.to_space ≡ s.from_space)
scavenge-Settled s t k h =
    let x = scavenge-Collected s t k h in (Collected-Settled k x, from_same k x, to_same k x)
