-- ===== src/Collector/Malloc.antt =====
-- Allocation in the collected heap, gc_cheney_malloc of vm/memory.c: the next block of the to-space,
-- after a collection when the space is full.
use nesrotom_run.Base.{
  ℕ, ◌+◌, ◌≤◌, ◌<◌, ◌≡◌, ◌≢◌, ◌⊎◌, sym, ap, ◌∙◌, inl, inr, subst, some, true, false, arith, leb,
  if◌then◌else◌,
}
use nesrotom_run.State.{Ref, heap_ref, Object, vm_error}
use nesrotom_run.State.Memory.{aligned}
use nesrotom_run.Collector.{
  object, copied, Gc, done, failed, Step, ◌>>◌, new_segment_size, put, ptr_in_space,
  ptr_in_to_space, can_malloc,
}
use nesrotom_run.Collector.Scavenge.{in_segment, scavenge}
use nesrotom_run.Collector.Layout.{cells-put_self, cells-put_ne, Ref-cases}
use nesrotom_run.Collector.Isomorphic.{Settled}

unfoldable pub check_room : ℕ → Step (Unit {0})
check_room size s = if can_malloc size s then done tt s else failed vm_error

-- A full space is collected once; when there is no room then either, the program stops.
unfoldable pub make_room : ℕ → Step (Unit {0})
make_room size s = if can_malloc size s then done tt s else (do scavenge; check_room size) s

-- The block and its header; the object `o` stands for what the caller writes into the block.
unfoldable pub take_block : ℕ → Object → Step Ref
take_block size o s =
    if ptr_in_to_space (heap_ref s.free) size s
    then done (heap_ref s.free)
        (put (heap_ref s.free) (object o) (record s { free = s.free + aligned size }))
    else failed vm_error

-- gc_cheney_malloc
unfoldable pub cheney_malloc : ℕ → Object → Step Ref
cheney_malloc size o s =
    if leb new_segment_size (aligned size)
    then failed vm_error
    else (do make_room size; take_block size o) s

-- A block of the to-space after `u`, which is the state before or what a collection has left.
pub record Allocated (size : ℕ) (o : Object) (s : Gc) (r : Ref) (t : Gc) : Type 0 where
  pub base : Gc
  pub collected : (base ≡ s) ⊎ (scavenge s ≡ done tt base)
  pub where_free : r ≡ heap_ref base.free
  pub inside : in_segment t.to_space r ≡ true
  pub fits : base.free + aligned size < t.to_space + new_segment_size
  pub moved : t.free ≡ base.free + aligned size
  pub written : t.cells r ≡ some (object o)
  pub others : (q : Ref) → q ≢ r → t.cells q ≡ base.cells q
  pub settled : Settled t

module _ {u : Gc} (size : ℕ) (o : Object) (k : Settled u)
    (fits : u.free + aligned size < u.to_space + new_segment_size) where
  abbrev pub taken : Gc
  taken = put (heap_ref u.free) (object o) (record u { free = u.free + aligned size })

  taken-written : taken.cells (heap_ref u.free) ≡ some (object o)
  taken-written = cells-put_self (heap_ref u.free) _ _

  taken-others : (q : Ref) → q ≢ heap_ref u.free → taken.cells q ≡ u.cells q
  taken-others q n = cells-put_ne q _ _ _ n

  block_inside : in_segment u.to_space (heap_ref u.free) ≡ true
  unfolding in_segment
  block_inside = ground (arith, k.low, fits)

  taken-homes :
      (r : Ref) (p : Object)
      → taken.cells r ≡ some (object p)
      → (in_segment u.from_space r ≡ true) ⊎ (in_segment u.to_space r ≡ true)
  taken-homes r p e = elim (Ref-cases r (heap_ref u.free)) [
    | inl y ↦ inr (ap (in_segment u.to_space) y ∙ block_inside)
    | inr n ↦ k.homes r p (sym (taken-others r n) ∙ e)
  ]

  taken-plain :
      (r : Ref) (b : ℕ) → in_segment u.from_space r ≡ false → taken.cells r ≢ some (copied b)
  taken-plain r b n e = elim (Ref-cases r (heap_ref u.free)) [
    | inl y ↦
        absurd (ground (arith, taken-written, subst (λ q. taken.cells q ≡ some (copied b)) y e))
    | inr m ↦ k.plain r b n (sym (taken-others r m) ∙ e)
  ]

  pub taken-Settled : Settled taken
  unfolding put
  taken-Settled = record {
    plain = taken-plain;
    homes = taken-homes;
    low = omega (arith, k.low);
    high = omega (arith, fits);
  }

-- With room in the to-space the block is the next one and nothing is collected: the test on the new
-- block that gc_cheney_malloc makes at the end always succeeds.
pub malloc-room :
    (size : ℕ) (o : Object) (s : Gc)
    → s.to_space ≤ s.free
    → s.free + aligned size < s.to_space + new_segment_size
    → cheney_malloc size o s
      ≡ done
          (heap_ref s.free)
          (put (heap_ref s.free) (object o) (record s { free = s.free + aligned size }))
unfolding cheney_malloc make_room take_block can_malloc ptr_in_to_space ptr_in_space aligned
malloc-room size o s l h = ground (arith, l, h)
