-- ===== src/Collector/Roots.antt =====
-- The roots of a collection (gc_rootset of vm/memory.c): each kind of root by itself, and then all
-- of them.
use nesrotom_run.Base.{
  ℕ, ◌≡◌, ◌≢◌, sym, ◌∙◌, inl, inr, subst, some, List, true, false, arith, Bool-cases,
}
use nesrotom_run.State.{
  Ref, const_ref, heap_ref, class_ref, stack_ref, Value, null, ptr, small, char, dptr,
}
use nesrotom_run.State as State
use nesrotom_run.Collector.{
  Cell, object, class_cell, stack_cell, copied, Root, Gc, Heap, ◌>>=◌, ◌>>◌, done, Step, and_then,
  read,
}
use nesrotom_run.Collector.Scavenge.{
  copy_root_obj, each, root_static, root_variable, root_cell, root_stack, set_statics, set_rootset,
  set_const_arrays, set_stack, copy_roots, in_segment,
}
use nesrotom_run.Collector.Invariant.{
  Sent, sent_const, sent_null, sent_small, sent_char, sent_dptr, Sent-Grows, untouched, moved, Inv,
  Inv-with_roots, Grows, Extends, Pairwise,
}
use nesrotom_run.Collector.Forward.{unchanged}
use nesrotom_run.Collector.Runs.{from_done, done_inj, from_some}
use nesrotom_run.Collector.Fields.{Copies, mapped, root-Extends, root-Copies, each-Copies}

-- A registered variable whose contents are sent; it keeps its number.
pub data RootSent (h : Heap) : Root → Root → Type 0 where
  root_sent :
      {n : ℕ} {v w : Value}
      → Sent h v w
      → RootSent h (record { uid = n; obj = v }) (record { uid = n; obj = w })

-- A word of the stack: sent, or a pointer to a class or to the header of the stack, which stays. A
-- pointer into the to-space, which is empty when the collection starts, leads to neither.
pub data StackSent (z : Gc) (h : Heap) : Value → Value → Type 0 where
  word_sent : {v w : Value} → Sent h v w → StackSent z h v w
  class_kept : {r : Ref} → z.cells r ≡ some class_cell → StackSent z h (ptr r) (ptr r)
  header_kept : {r : Ref} → z.cells r ≡ some stack_cell → StackSent z h (ptr r) (ptr r)
  stray_kept : {r : Ref} → in_segment z.to_space r ≡ true → StackSent z h (ptr r) (ptr r)

static-Extends :
    {z s t : Gc} {p : ℕ} {bs : List ℕ} (x y : Value)
    → Inv z p bs s
    → root_static x s ≡ done y t
    → Extends z s t p bs × Sent t.cells x y
unfolding root_static
static-Extends (ptr r) y i h = root-Extends (ptr r) y i h
static-Extends null y i h = unchanged (λ g. Sent g null) i sent_null h
static-Extends (small n) y i h = unchanged (λ g. Sent g (small n)) i sent_small h
static-Extends (char n) y i h = unchanged (λ g. Sent g (char n)) i sent_char h
static-Extends (dptr f) y i h = unchanged (λ g. Sent g (dptr f)) i sent_dptr h

static-Copies : {z : Gc} → Copies z Sent root_static
static-Copies = record { later = Sent-Grows; copies = static-Extends }

RootSent-Grows : {g h : Heap} {a b : Root} → Grows g h → RootSent g a b → RootSent h a b
RootSent-Grows k (root_sent e) = root_sent (Sent-Grows k e)

variable-Extends :
    {z s t : Gc} {p : ℕ} {bs : List ℕ} (x y : Root)
    → Inv z p bs s
    → root_variable x s ≡ done y t
    → Extends z s t p bs × RootSent t.cells x y
unfolding root_variable
variable-Extends {s} {t} x y i h =
    let (v, run, e) = mapped (copy_root_obj x.obj s) (λ v. record x { obj = v }) y t h in
    let (w, q) = root-Extends x.obj v i run in (w, subst (RootSent _ x) e (root_sent q))

variable-Copies : {z : Gc} → Copies z RootSent root_variable
variable-Copies = record { later = RootSent-Grows; copies = variable-Extends }

StackSent-Grows :
    {z : Gc} {g h : Heap} {a b : Value} → Grows g h → StackSent z g a b → StackSent z h a b
StackSent-Grows k (word_sent e) = word_sent (Sent-Grows k e)
StackSent-Grows k (class_kept e) = class_kept e
StackSent-Grows k (header_kept e) = header_kept e
StackSent-Grows k (stray_kept e) = stray_kept e

-- What the invariant knows of a class or of the stack's header.
origin :
    {z s : Gc} {p : ℕ} {bs : List ℕ} (r : Ref) (c : Cell)
    → Inv z p bs s
    → s.cells r ≡ some c
    → ((b : ℕ) → c ≢ copied b)
    → in_segment z.to_space r ≡ false
    → z.cells r ≡ some c
origin r c i e plain out = elim (i.fate r out) [
  | untouched x ↦ sym x ∙ e
  | moved {b} x y k ↦ absurd (ground (arith, plain b, e, x))
]

cell-Extends :
    {z s t : Gc} {p : ℕ} {bs : List ℕ} (r : Ref) (c : Cell) (y : Value)
    → Inv z p bs s
    → s.cells r ≡ some c
    → root_cell r c s ≡ done y t
    → Extends z s t p bs × StackSent z t.cells (ptr r) y
unfolding root_cell
cell-Extends {z} r class_cell y i e h = elim (Bool-cases (in_segment z.to_space r)) [
  | inl n ↦ unchanged (λ g. StackSent z g (ptr r)) i (stray_kept n) h
  | inr n ↦
      unchanged (λ g. StackSent z g (ptr r)) i
        (class_kept (origin r class_cell i e (λ b x. absurd (ground (arith, x))) n)) h
]
cell-Extends {z} r stack_cell y i e h = elim (Bool-cases (in_segment z.to_space r)) [
  | inl n ↦ unchanged (λ g. StackSent z g (ptr r)) i (stray_kept n) h
  | inr n ↦
      unchanged (λ g. StackSent z g (ptr r)) i
        (header_kept (origin r stack_cell i e (λ b x. absurd (ground (arith, x))) n)) h
]
cell-Extends r (object o) y i e h = let (x, q) = root-Extends (ptr r) y i h in (x, word_sent q)
cell-Extends r (copied d) y i e h = let (x, q) = root-Extends (ptr r) y i h in (x, word_sent q)

pointer-Extends :
    {z s t : Gc} {p : ℕ} {bs : List ℕ} (r : Ref) (y : Value)
    → Inv z p bs s
    → and_then (read r s) (root_cell r) ≡ done y t
    → Extends z s t p bs × StackSent z t.cells (ptr r) y
unfolding read
pointer-Extends {s} {t} r y i h =
    let (c, u, first, rest) = from_done (read r s) (root_cell r) y t h in
    let (e, same) = from_some (s.cells r) State.bad_access c u first in
    cell-Extends r c y i e (subst (λ w. root_cell r c w ≡ done y t) (sym same) rest)

stack-Extends :
    {z s t : Gc} {p : ℕ} {bs : List ℕ} (x y : Value)
    → Inv z p bs s
    → root_stack x s ≡ done y t
    → Extends z s t p bs × StackSent z t.cells x y
unfolding root_stack
stack-Extends {z} (ptr (const_ref n)) y i h =
    unchanged (λ g. StackSent z g (ptr (const_ref n))) i (word_sent sent_const) h
stack-Extends (ptr (heap_ref a)) y i h = pointer-Extends (heap_ref a) y i h
stack-Extends (ptr (class_ref n)) y i h = pointer-Extends (class_ref n) y i h
stack-Extends (ptr stack_ref) y i h = pointer-Extends stack_ref y i h
stack-Extends {z} null y i h = unchanged (λ g. StackSent z g null) i (word_sent sent_null) h
stack-Extends {z} (small n) y i h =
    unchanged (λ g. StackSent z g (small n)) i (word_sent sent_small) h
stack-Extends {z} (char n) y i h = unchanged (λ g. StackSent z g (char n)) i (word_sent sent_char) h
stack-Extends {z} (dptr f) y i h = unchanged (λ g. StackSent z g (dptr f)) i (word_sent sent_dptr) h

stack-Copies : {z : Gc} → Copies z (StackSent z) root_stack
stack-Copies = record { later = StackSent-Grows; copies = stack-Extends }

-- All the roots of `s` are sent in `t`, to where the heap `h` says.
pub record RootsSent (z s : Gc) (h : Heap) (t : Gc) : Type 0 where
  pub statics_sent : Pairwise (Pairwise (Sent h)) s.statics t.statics
  pub rootset_sent : Pairwise (RootSent h) s.rootset t.rootset
  pub const_arrays_sent : Pairwise (Sent h) s.const_arrays t.const_arrays
  pub stack_sent : Pairwise (StackSent z h) s.stack t.stack

pub RootsSent-Grows :
    {z s t u : Gc} {g h : Heap}
    → Grows g h
    → RootsSent z s g t
    → u.statics ≡ t.statics
    → u.rootset ≡ t.rootset
    → u.const_arrays ≡ t.const_arrays
    → u.stack ≡ t.stack
    → RootsSent z s h u
RootsSent-Grows {z} {s} {h} k x a b c d = record {
  statics_sent =
      subst (Pairwise (Pairwise (Sent h)) s.statics) (sym a)
        ((each-Copies {z = z} (each-Copies static-Copies)).later k x.statics_sent);
  rootset_sent =
      subst (Pairwise (RootSent h) s.rootset) (sym b)
        ((each-Copies {z = z} variable-Copies).later k x.rootset_sent);
  const_arrays_sent =
      subst (Pairwise (Sent h) s.const_arrays) (sym c)
        ((each-Copies {z = z} root-Copies).later k x.const_arrays_sent);
  stack_sent =
      subst (Pairwise (StackSent z h) s.stack) (sym d)
        ((each-Copies {z = z} stack-Copies).later k x.stack_sent);
}

Grows-trans : {f g h : Heap} → Grows f g → Grows g h → Grows f h
Grows-trans x y = record { kept = λ r b e. y.kept r b (x.kept r b e) }

-- One kind of root: the list is walked and its result put in its place.
walked :
    {A : Type 0} {P : Heap → A → A → Type 0} {f : A → Step A} {z s u : Gc} {p : ℕ} {bs : List ℕ}
    (k : Copies z P f) (xs : List A) (set : List A → Step (Unit {0})) (rest : Step (Unit {0}))
    → Inv z p bs s
    → and_then (each f xs s) (λ ys w. and_then (set ys w) (λ _. rest)) ≡ done tt u
    → (ys : List A) × (t : Gc) × Extends z s t p bs
      × Pairwise (P t.cells) xs ys
      × (and_then (set ys t) (λ _. rest) ≡ done tt u)
walked {f} {s} {u} k xs set rest i h =
    let (ys, t, run, more) =
      from_done (each f xs s) (λ ys w. and_then (set ys w) (λ _. rest)) tt u h in
    let (x, q) = (each-Copies k).copies xs ys i run in (ys, t, x, q, more)

-- The walk from the registered variables on, from the arrays on, and over the stack.
abbrev from_stack : Gc → Step (Unit {0})
from_stack s = do stack ← each root_stack s.stack; set_stack stack

abbrev from_arrays : Gc → Step (Unit {0})
from_arrays s = do
  const_arrays ← each copy_root_obj s.const_arrays
  set_const_arrays const_arrays
  from_stack s

abbrev from_variables : Gc → Step (Unit {0})
from_variables s = do rootset ← each root_variable s.rootset; set_rootset rootset; from_arrays s

-- The state after the walk over the roots.
pub record Walked (z s t : Gc) (p : ℕ) : Type 0 where
  pub pending : List ℕ
  pub inv : Inv z p pending t
  pub at_scan : t.scan ≡ s.scan
  pub sent : RootsSent z s t.cells t

pub copy_roots-Walked :
    {z s t : Gc} {p : ℕ} {bs : List ℕ} → Inv z p bs s → copy_roots s ≡ done tt t → Walked z s t p
unfolding copy_roots set_statics set_rootset set_const_arrays set_stack
copy_roots-Walked {z} {s} {t} {p} i h =
    let (a, t1, x1, q1, h1) =
      walked (each-Copies static-Copies) s.statics set_statics (from_variables s) i h in
    let i1 = Inv-with_roots t1.scan a t1.rootset t1.const_arrays t1.stack x1.inv in
    let (b, t2, x2, q2, h2) = walked variable-Copies s.rootset set_rootset (from_arrays s) i1 h1 in
    let i2 = Inv-with_roots t2.scan t2.statics b t2.const_arrays t2.stack x2.inv in
    let (c, t3, x3, q3, h3) =
      walked root-Copies s.const_arrays set_const_arrays (from_stack s) i2 h2 in
    let i3 = Inv-with_roots t3.scan t3.statics t3.rootset c t3.stack x3.inv in
    let (d, t4, run, last) = from_done (each root_stack s.stack _) set_stack tt t h3 in
    let (x4, q4) = (each-Copies stack-Copies).copies s.stack d i3 run in
    let after_rootset = Grows-trans x3.grows x4.grows in
    let after_statics = Grows-trans x2.grows after_rootset in
    let h4 = t4.cells in
    let (_, same) = done_inj last in
    subst (λ w. Walked z s w p) same
      (record {
        pending = _;
        inv = Inv-with_roots t4.scan t4.statics t4.rootset t4.const_arrays d x4.inv;
        at_scan = x4.roots.scan_same ∙ x3.roots.scan_same ∙ x2.roots.scan_same ∙ x1.roots.scan_same;
        sent = record {
          statics_sent =
              subst (Pairwise (Pairwise (Sent h4)) s.statics)
                (sym (x4.roots.statics_same ∙ x3.roots.statics_same ∙ x2.roots.statics_same))
                ((each-Copies {z = z} (each-Copies {z = z} static-Copies)).later after_statics q1);
          rootset_sent =
              subst (Pairwise (RootSent h4) s.rootset)
                (sym (x4.roots.rootset_same ∙ x3.roots.rootset_same))
                ((each-Copies {z = z} variable-Copies).later after_rootset q2);
          const_arrays_sent =
              subst (Pairwise (Sent h4) s.const_arrays) (sym x4.roots.const_arrays_same)
                ((each-Copies {z = z} root-Copies).later x4.grows q3);
          stack_sent = q4;
        };
      })
