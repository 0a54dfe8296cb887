-- ===== src/Collector/Invariant.antt =====
-- The invariant of a collection of vm/memory.c (gc_cheney_scavenge): where the copies of the objects
-- stand and what their pointers are.
use nesrotom_run.Base.{
  ℕ, suc, ◌+◌, ◌≤◌, ◌<◌, ◌≡◌, ◌≢◌, ◌⊎◌, refl, sym, ◌∙◌, Option, none, some, List, [], ◌∷◌, ◌++◌,
  true, false, arith, append_assoc, append-nil, subst,
}
use mathlib.Core.List.{Memᴰ}
use nesrotom_run.State.{
  Ref, const_ref, heap_ref, class_ref, stack_ref, Value, null, ptr, small, char, dptr, Body, Object,
  Class,
}
use nesrotom_run.State as State
use nesrotom_run.Collector.{
  Cell, object, copied, Gc, Root, new_segment_size, header_size, var_count, Heap,
}
use nesrotom_run.Collector.Scavenge.{in_segment}
use nesrotom_run.Collector.Layout.{Chain}

-- `Sent h v w`: in the heap `h`, where the copied objects have left their new addresses, `w` is what
-- the pointer field `v` becomes.
pub data Sent (h : Heap) : Value → Value → Type 0 where
  sent_null : Sent h null null
  sent_small : {n : ℕ} → Sent h (small n) (small n)
  sent_char : {n : ℕ} → Sent h (char n) (char n)
  sent_dptr : {f : State.Field} → Sent h (dptr f) (dptr f)
  sent_const : {i : ℕ} → Sent h (ptr (const_ref i)) (ptr (const_ref i))
  sent_ptr : {r : Ref} {b : ℕ} → h r ≡ some (copied b) → Sent h (ptr r) (ptr (heap_ref b))

-- The first `n` slots are sent and the others are as they were.
pub data SlotsSent (h : Heap) : ℕ → List Value → List Value → Type 0 where
  sent_rest : {xs : List Value} → SlotsSent h 0 xs xs
  sent_more :
      {n : ℕ} {x y : Value} {xs ys : List Value}
      → Sent h x y
      → SlotsSent h n xs ys
      → SlotsSent h (suc n) (x ∷ xs) (y ∷ ys)

-- The same object with its pointers sent: an array's pointer to its elements, the elements in use,
-- the message of an exception, the variables of an instance.
pub data BodySent (h : Heap) (vars : Option ℕ) : Body → Body → Type 0 where
  sent_int : {n : ℕ} → BodySent h vars (State.int n) (State.int n)
  sent_str : {t : List ℕ} → BodySent h vars (State.str t) (State.str t)
  sent_sym : {t : List ℕ} → BodySent h vars (State.sym t) (State.sym t)
  sent_arr :
      {n k : ℕ} {x y : Value} → Sent h x y → BodySent h vars (State.arr n k x) (State.arr n k y)
  sent_arr_objs :
      {n k : ℕ} {xs ys : List Value}
      → SlotsSent h n xs ys
      → BodySent h vars (State.arr_objs n k xs) (State.arr_objs n k ys)
  sent_expt : {o : ℕ} {x y : Value} → Sent h x y → BodySent h vars (State.expt o x) (State.expt o y)
  sent_file : {o : ℕ} {f : Option ℕ} → BodySent h vars (State.file o f) (State.file o f)
  sent_term : BodySent h vars State.term State.term
  sent_udo :
      {o n : ℕ} {xs ys : List Value}
      → vars ≡ some n
      → SlotsSent h n xs ys
      → BodySent h vars (State.udo o xs) (State.udo o ys)

pub data CellSent (cs : List Class) (h : Heap) : Cell → Cell → Type 0 where
  sent_object :
      {cls : Option ℕ} {b b' : Body}
      → BodySent h (var_count cs cls) b b'
      → CellSent cs h
          (object (record { cls = cls; body = b }))
          (object (record { cls = cls; body = b' }))

-- A heap at the start of a collection: nothing is copied and the to-space is empty.
pub record Fresh (z : Gc) : Type 0 where
  pub uncopied : (r : Ref) (b : ℕ) → z.cells r ≢ some (copied b)
  pub empty : (r : Ref) → in_segment z.to_space r ≡ true → z.cells r ≡ none

-- Where the copy of the cell `c` at `b` stands: still to be scanned, as it was, or before the scan
-- pointer `p`, with its pointers sent.
pub data Placed (z : Gc) (h : Heap) (p : ℕ) (bs : List ℕ) (b : ℕ) (c : Cell) : Type 0 where
  unscanned : Memᴰ b bs → h (heap_ref b) ≡ some c → Placed z h p bs b c
  scanned :
      {c' : Cell}
      → b < p
      → z.to_space ≤ b
      → h (heap_ref b) ≡ some c'
      → CellSent z.classes h c c'
      → Placed z h p bs b c

-- What has become of the cell at `r`, which stands outside the to-space.
pub data Fate (z : Gc) (h : Heap) (p : ℕ) (bs : List ℕ) (r : Ref) : Type 0 where
  untouched : h r ≡ z.cells r → Fate z h p bs r
  moved :
      {b : ℕ} {c : Cell}
      → h r ≡ some (copied b)
      → z.cells r ≡ some c
      → Placed z h p bs b c
      → Fate z h p bs r

-- The invariant of a collection that began in `z`: the copies from `p` on, at the addresses `bs`, are
-- to be scanned.
pub record Inv (z : Gc) (p : ℕ) (bs : List ℕ) (s : Gc) : Type 0 where
  pub fresh : Fresh z
  pub classes_same : s.classes ≡ z.classes
  pub to_same : s.to_space ≡ z.to_space
  pub from_same : s.from_space ≡ z.from_space
  pub started : z.to_space ≤ p
  pub room : s.free ≤ z.to_space + new_segment_size
  pub chain : Chain z.classes s.cells s.free p bs
  pub unused :
      (a : ℕ)
      → s.free ≤ a ⊎ z.to_space + new_segment_size ≤ a + header_size
      → in_segment z.to_space (heap_ref a) ≡ true
      → s.cells (heap_ref a) ≡ none
  pub live :
      (a b : ℕ) → in_segment z.to_space (heap_ref a) ≡ true → s.cells (heap_ref a) ≢ some (copied b)
  pub once : (q r : Ref) (b : ℕ) → s.cells q ≡ some (copied b) → s.cells r ≡ some (copied b) → q ≡ r
  pub fate : (r : Ref) → in_segment z.to_space r ≡ false → Fate z s.cells p bs r

-- The invariant does not read the scan pointer nor the roots.
pub Inv-with_roots :
    {z s : Gc} {p : ℕ} {bs : List ℕ} (scan : ℕ) (statics : List (List Value)) (rootset : List Root)
    (const_arrays stack : List Value)
    → Inv z p bs s
    → Inv z p bs (record s {
      scan = scan;
      statics = statics;
      rootset = rootset;
      const_arrays = const_arrays;
      stack = stack;
    })
Inv-with_roots scan statics rootset const_arrays stack i = record {
  fresh = i.fresh;
  classes_same = i.classes_same;
  to_same = i.to_same;
  from_same = i.from_same;
  started = i.started;
  room = i.room;
  chain = i.chain;
  unused = i.unused;
  live = i.live;
  once = i.once;
  fate = i.fate;
}

-- What is copied in `g` is copied to the same address in `h`.
pub record Grows (g h : Heap) : Type 0 where
  pub kept : (r : Ref) (b : ℕ) → g r ≡ some (copied b) → h r ≡ some (copied b)

pub Sent-Grows : {g h : Heap} {v w : Value} → Grows g h → Sent g v w → Sent h v w
Sent-Grows k sent_null = sent_null
Sent-Grows k sent_small = sent_small
Sent-Grows k sent_char = sent_char
Sent-Grows k sent_dptr = sent_dptr
Sent-Grows k sent_const = sent_const
Sent-Grows k (sent_ptr {r} {b} e) = sent_ptr (k.kept r b e)

pub SlotsSent-Grows :
    {g h : Heap} {n : ℕ} {xs ys : List Value}
    → Grows g h
    → SlotsSent g n xs ys
    → SlotsSent h n xs ys
SlotsSent-Grows k sent_rest = sent_rest
SlotsSent-Grows k (sent_more e r) = sent_more (Sent-Grows k e) (SlotsSent-Grows k r)

pub BodySent-Grows :
    {g h : Heap} {n : Option ℕ} {b c : Body} → Grows g h → BodySent g n b c → BodySent h n b c
BodySent-Grows k sent_int = sent_int
BodySent-Grows k sent_str = sent_str
BodySent-Grows k sent_sym = sent_sym
BodySent-Grows k (sent_arr e) = sent_arr (Sent-Grows k e)
BodySent-Grows k (sent_arr_objs e) = sent_arr_objs (SlotsSent-Grows k e)
BodySent-Grows k (sent_expt e) = sent_expt (Sent-Grows k e)
BodySent-Grows k sent_file = sent_file
BodySent-Grows k sent_term = sent_term
BodySent-Grows k (sent_udo n e) = sent_udo n (SlotsSent-Grows k e)

pub CellSent-Grows :
    {cs : List Class} {g h : Heap} {c c' : Cell}
    → Grows g h
    → CellSent cs g c c'
    → CellSent cs h c c'
CellSent-Grows k (sent_object e) = sent_object (BodySent-Grows k e)

-- The parts of the state that copying one object leaves alone.
pub record SameRoots (s t : Gc) : Type 0 where
  pub scan_same : t.scan ≡ s.scan
  pub statics_same : t.statics ≡ s.statics
  pub rootset_same : t.rootset ≡ s.rootset
  pub const_arrays_same : t.const_arrays ≡ s.const_arrays
  pub stack_same : t.stack ≡ s.stack

-- From `s` to `t` some objects have been copied, at the end of the to-space.
pub record Extends (z s t : Gc) (p : ℕ) (bs : List ℕ) : Type 0 where
  pub added : List ℕ
  pub inv : Inv z p (bs ++ added) t
  pub grows : Grows s.cells t.cells
  pub longer : s.free ≤ t.free
  pub keeps : (a : ℕ) → z.to_space ≤ a → a < s.free → t.cells (heap_ref a) ≡ s.cells (heap_ref a)
  pub roots : SameRoots s t

pub Extends-refl : {z s : Gc} {p : ℕ} {bs : List ℕ} → Inv z p bs s → Extends z s s p bs
Extends-refl {z} {s} {p} {bs} i = record {
  added = [];
  inv = subst (λ l. Inv z p l s) (sym (append-nil bs)) i;
  grows = record { kept = λ r b e. e };
  longer = omega arith;
  keeps = λ a l m. refl;
  roots = record {
    scan_same = refl;
    statics_same = refl;
    rootset_same = refl;
    const_arrays_same = refl;
    stack_same = refl;
  };
}

pub Extends-trans :
    {z s t u : Gc} {p : ℕ} {bs : List ℕ}
    → (x : Extends z s t p bs) → Extends z t u p (bs ++ x.added)
    → Extends z s u p bs
Extends-trans {z} {u} {p} {bs} x y = record {
  added = x.added ++ y.added;
  inv = subst (λ l. Inv z p l u) (append_assoc bs x.added y.added) y.inv;
  grows = record { kept = λ r b e. y.grows.kept r b (x.grows.kept r b e) };
  longer = omega (arith, x.longer, y.longer);
  keeps = λ a l m. y.keeps a l (omega (arith, m, x.longer)) ∙ x.keeps a l m;
  roots = record {
    scan_same = y.roots.scan_same ∙ x.roots.scan_same;
    statics_same = y.roots.statics_same ∙ x.roots.statics_same;
    rootset_same = y.roots.rootset_same ∙ x.roots.rootset_same;
    const_arrays_same = y.roots.const_arrays_same ∙ x.roots.const_arrays_same;
    stack_same = y.roots.stack_same ∙ x.roots.stack_same;
  };
}

-- Two lists of the same length whose elements are related one by one.
pub data Pairwise {ℓ} {A : Type ℓ} (R : A → A → Type 0) : List A → List A → Type ℓ where
  pair_nil : Pairwise R [] []
  pair_cons : {x y : A} {xs ys : List A} → R x y → Pairwise R xs ys → Pairwise R (x ∷ xs) (y ∷ ys)
