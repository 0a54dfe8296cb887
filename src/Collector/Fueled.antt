-- ===== src/Collector/Fueled.antt =====
-- The functions of a collection (vm/memory.c) other than its loop, and the outcome out_of_fuel.
use nesrotom_run.Base.{
  if_false, ℕ, zero, suc, ◌+◌, ◌≡◌, ◌≢◌, ◌⊎◌, refl, sym, ap, ◌∙◌, inl, inr, Option, none, some,
  List, [], ◌∷◌, arith, Bool-cases,
}
use nesrotom_run.State.{
  Ref, const_ref, heap_ref, class_ref, stack_ref, Value, null, ptr, small, char, dptr, Body, Fault,
  out_of_fuel,
}
use nesrotom_run.State as State
use nesrotom_run.State.Memory.{aligned}
use nesrotom_run.Collector.{
  Cell, object, class_cell, stack_cell, copied, Root, Gc, Outcome, done, failed, Step, and_then,
  ◌>>=◌, pure, from_option, read, is_const, ptr_in_to_space, header_size, obj_size, var_count,
}
use nesrotom_run.Collector.Scavenge.{
  place, copy_obj_to_space_free, leave_forward, copy_and_forward, forward_cell, forward,
  copy_root_obj, copy_neighbor_inner, copy_var, copy_elem, copy_slots, copy_elems_ptr,
  copy_inst_vars, copy_fields, write_body, copy_neighbor, advance_scan, scan_next, each,
  root_static, root_variable, root_cell, root_stack, set_statics, set_rootset, set_const_arrays,
  set_stack, copy_roots,
}

-- A command that never fails for lack of fuel.
pub record Fueled {A : Type 0} (m : Step A) : Type 0 where
  pub never : (s : Gc) → m s ≢ failed out_of_fuel

fault_of : {A : Type 0} → Outcome A → Fault
fault_of (done a s) = out_of_fuel
fault_of (failed x) = x

pub from_failed :
    {A B : Type 0} {x : Fault} (o : Outcome A) (k : A → Step B)
    → and_then o k ≡ failed x
    → (o ≡ failed x) ⊎ ((a : A) × (t : Gc) × (o ≡ done a t) × (k a t ≡ failed x))
unfolding fault_of
from_failed (done a t) k h = inr (a, t, refl, h)
from_failed (failed y) k h = inl (ap failed (ap fault_of h))

bind :
    {A B : Type 0} {m : Step A} {k : A → Step B}
    → Fueled m
    → ((a : A) → Fueled (k a))
    → Fueled (m >>= k)
bind {m} {k} p q = record {
  never = λ s h. elim (from_failed (m s) k h) [
    | inl e ↦ p.never s e
    | inr (a, t, e, f) ↦ (q a).never t f
  ];
}

done-Fueled : {A : Type 0} {a : A} → Fueled (pure a)
done-Fueled = record { never = λ s h. absurd (ground (arith, h)) }

stop-Fueled : {A : Type 0} (x : Fault) → x ≢ out_of_fuel → Fueled {A = A} (λ s. failed x)
unfolding fault_of
stop-Fueled x n = record { never = λ s h. n (ap fault_of h) }

option-Fueled : {A : Type 0} (o : Option A) (x : Fault) → x ≢ out_of_fuel → Fueled (from_option o x)
unfolding from_option
option-Fueled none x n = stop-Fueled x n
option-Fueled (some a) x n = done-Fueled

bad_access-ne : State.bad_access ≢ out_of_fuel
bad_access-ne h = absurd (ground (arith, h))

assert_failed-ne : State.assert_failed ≢ out_of_fuel
assert_failed-ne h = absurd (ground (arith, h))

vm_error-ne : State.vm_error ≢ out_of_fuel
vm_error-ne h = absurd (ground (arith, h))

pub read-Fueled : (r : Ref) → Fueled (read r)
unfolding read
read-Fueled r = record {
  never = λ s. (option-Fueled (s.cells r) State.bad_access bad_access-ne).never s;
}

copy_obj-Fueled : (c : Cell) → Fueled (copy_obj_to_space_free c)
unfolding copy_obj_to_space_free place
copy_obj-Fueled c = record {
  never = λ s h.
      elim (from_failed (from_option (obj_size s.classes c) State.assert_failed s) (place c) h) [
        | inl e ↦
            (option-Fueled (obj_size s.classes c) State.assert_failed assert_failed-ne).never s e
        | inr (a, t, e, f) ↦ absurd (ground (arith, f))
      ];
}

copy_and_forward-Fueled : (r : Ref) (c : Cell) → Fueled (copy_and_forward r c)
unfolding copy_and_forward leave_forward
copy_and_forward-Fueled r c = record {
  never = λ s h. elim (Bool-cases (ptr_in_to_space r header_size s)) [
    | inl y ↦ absurd (ground (arith, h, y))
    | inr n ↦
        (bind (copy_obj-Fueled c)
            (λ to. record { never = λ t g. absurd (ground (arith, g)) })).never
          s (sym (if_false _ _ n) ∙ h)
  ];
}

forward_cell-Fueled : (r : Ref) (c : Cell) → Fueled (forward_cell r c)
unfolding forward_cell
forward_cell-Fueled r (copied b) = done-Fueled
forward_cell-Fueled r (object o) = copy_and_forward-Fueled r (object o)
forward_cell-Fueled r class_cell = copy_and_forward-Fueled r class_cell
forward_cell-Fueled r stack_cell = copy_and_forward-Fueled r stack_cell

forward-Fueled : (r : Ref) → Fueled (forward r)
unfolding forward is_const
forward-Fueled (const_ref n) = done-Fueled
forward-Fueled (heap_ref a) = bind (read-Fueled _) (forward_cell-Fueled _)
forward-Fueled (class_ref n) = bind (read-Fueled _) (forward_cell-Fueled _)
forward-Fueled stack_ref = bind (read-Fueled _) (forward_cell-Fueled _)

root-Fueled : (v : Value) → Fueled (copy_root_obj v)
unfolding copy_root_obj
root-Fueled (ptr r) = forward-Fueled r
root-Fueled null = stop-Fueled State.bad_access bad_access-ne
root-Fueled (small n) = stop-Fueled State.bad_access bad_access-ne
root-Fueled (char n) = stop-Fueled State.bad_access bad_access-ne
root-Fueled (dptr f) = stop-Fueled State.bad_access bad_access-ne

var-Fueled : (v : Value) → Fueled (copy_var v)
unfolding copy_var copy_neighbor_inner
var-Fueled (ptr r) = forward-Fueled r
var-Fueled null = done-Fueled
var-Fueled (small n) = done-Fueled
var-Fueled (char n) = done-Fueled
var-Fueled (dptr f) = done-Fueled

elem-Fueled : (v : Value) → Fueled (copy_elem v)
unfolding copy_elem copy_neighbor_inner
elem-Fueled (ptr r) = forward-Fueled r
elem-Fueled null = stop-Fueled State.bad_access bad_access-ne
elem-Fueled (small n) = done-Fueled
elem-Fueled (char n) = done-Fueled
elem-Fueled (dptr f) = done-Fueled

elems_ptr-Fueled : (v : Value) → Fueled (copy_elems_ptr v)
unfolding copy_elems_ptr copy_neighbor_inner
elems_ptr-Fueled (ptr r) = forward-Fueled r
elems_ptr-Fueled null = done-Fueled
elems_ptr-Fueled (small n) = stop-Fueled State.assert_failed assert_failed-ne
elems_ptr-Fueled (char n) = stop-Fueled State.assert_failed assert_failed-ne
elems_ptr-Fueled (dptr f) = stop-Fueled State.assert_failed assert_failed-ne

static-Fueled : (v : Value) → Fueled (root_static v)
unfolding root_static copy_root_obj
static-Fueled (ptr r) = forward-Fueled r
static-Fueled null = done-Fueled
static-Fueled (small n) = done-Fueled
static-Fueled (char n) = done-Fueled
static-Fueled (dptr f) = done-Fueled

slots-Fueled :
    {f : Value → Step Value}
    → ((v : Value) → Fueled (f v))
    → (n : ℕ) (xs : List Value) → Fueled (copy_slots f n xs)
unfolding copy_slots
slots-Fueled p zero xs = done-Fueled
slots-Fueled p (suc n) [] = stop-Fueled State.bad_access bad_access-ne
slots-Fueled p (suc n) (x ∷ xs) = bind (p x) (λ y. bind (slots-Fueled p n xs) (λ ys. done-Fueled))

inst_vars-Fueled : (n : Option ℕ) (xs : List Value) → Fueled (copy_inst_vars n xs)
unfolding copy_inst_vars
inst_vars-Fueled none xs = stop-Fueled State.bad_access bad_access-ne
inst_vars-Fueled (some n) xs = slots-Fueled var-Fueled n xs

fields-Fueled : (n : Option ℕ) (b : Body) → Fueled (copy_fields n b)
unfolding copy_fields
fields-Fueled n State.nil = stop-Fueled State.assert_failed assert_failed-ne
fields-Fueled n (State.int v) = done-Fueled
fields-Fueled n (State.str v) = done-Fueled
fields-Fueled n (State.sym v) = done-Fueled
fields-Fueled n (State.arr l k x) = bind (elems_ptr-Fueled x) (λ y. done-Fueled)
fields-Fueled n (State.arr_objs l k xs) = bind (slots-Fueled elem-Fueled l xs) (λ y. done-Fueled)
fields-Fueled n (State.exinfo o k) = stop-Fueled State.assert_failed assert_failed-ne
fields-Fueled n (State.expt o x) = bind (var-Fueled x) (λ y. done-Fueled)
fields-Fueled n (State.file o f) = done-Fueled
fields-Fueled n State.term = done-Fueled
fields-Fueled n (State.udo o xs) = bind (inst_vars-Fueled n xs) (λ y. done-Fueled)

neighbor-Fueled : (p : ℕ) (c : Cell) → Fueled (copy_neighbor p c)
unfolding copy_neighbor write_body
neighbor-Fueled p class_cell = stop-Fueled State.assert_failed assert_failed-ne
neighbor-Fueled p stack_cell = stop-Fueled State.vm_error vm_error-ne
neighbor-Fueled p (copied d) = stop-Fueled State.assert_failed assert_failed-ne
neighbor-Fueled p (object o) = record {
  never = λ s.
      (bind (fields-Fueled (var_count s.classes o.cls) o.body)
          (λ b. record { never = λ t g. absurd (ground (arith, g)) })).never
        s;
}

pub next-Fueled : (p : ℕ) (c : Cell) → Fueled (scan_next p c)
unfolding scan_next advance_scan
next-Fueled p c = record {
  never = λ s.
      (bind (option-Fueled (obj_size s.classes c) State.assert_failed assert_failed-ne) (λ size.
          record {
            never = λ t. (neighbor-Fueled p c).never (record t { scan = t.scan + aligned size });
          })).never
        s;
}

each-Fueled :
    {A : Type 0} {f : A → Step A} → ((a : A) → Fueled (f a)) → (xs : List A) → Fueled (each f xs)
unfolding each
each-Fueled p [] = done-Fueled
each-Fueled p (x ∷ xs) = bind (p x) (λ y. bind (each-Fueled p xs) (λ ys. done-Fueled))

variable-Fueled : (g : Root) → Fueled (root_variable g)
unfolding root_variable
variable-Fueled g = bind (root-Fueled g.obj) (λ v. done-Fueled)

cell-Fueled : (r : Ref) (c : Cell) → Fueled (root_cell r c)
unfolding root_cell
cell-Fueled r class_cell = done-Fueled
cell-Fueled r stack_cell = done-Fueled
cell-Fueled r (object o) = root-Fueled (ptr r)
cell-Fueled r (copied d) = root-Fueled (ptr r)

stack-Fueled : (v : Value) → Fueled (root_stack v)
unfolding root_stack
stack-Fueled (ptr (const_ref n)) = done-Fueled
stack-Fueled (ptr (heap_ref a)) = bind (read-Fueled _) (cell-Fueled _)
stack-Fueled (ptr (class_ref n)) = bind (read-Fueled _) (cell-Fueled _)
stack-Fueled (ptr stack_ref) = bind (read-Fueled _) (cell-Fueled _)
stack-Fueled null = done-Fueled
stack-Fueled (small n) = done-Fueled
stack-Fueled (char n) = done-Fueled
stack-Fueled (dptr f) = done-Fueled

setter : (f : Gc → Gc) → Fueled (λ s. done (tt {0}) (f s))
setter f = record { never = λ s h. absurd (ground (arith, h)) }

pub roots-Fueled : Fueled copy_roots
unfolding copy_roots set_statics set_rootset set_const_arrays set_stack
roots-Fueled = record {
  never = λ s.
      (bind (each-Fueled (each-Fueled static-Fueled) s.statics) (λ a.
          bind (setter (λ (t : Gc). record t { statics = a })) (λ _.
            bind (each-Fueled variable-Fueled s.rootset) (λ b.
              bind (setter (λ (t : Gc). record t { rootset = b })) (λ _.
                bind (each-Fueled root-Fueled s.const_arrays) (λ c.
                  bind (setter (λ (t : Gc). record t { const_arrays = c })) (λ _.
                    bind (each-Fueled stack-Fueled s.stack)
                      (λ d. setter (λ (t : Gc). record t { stack = d }))))))))).never
        s;
}
