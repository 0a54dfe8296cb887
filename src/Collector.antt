-- ===== src/Collector.antt =====
-- The collected heap under `-g new`, the default (GC_NEW; vm/memory.c and vm/memory.h): the two
-- semispaces, the cells in them, the sizes of objects (vm_obj_size of vm/vm.c) and allocation in
-- the to-space. Runs are a state and fault monad over the collector's state.
pub mod Scavenge
pub mod Layout
pub mod Invariant
pub mod Runs
pub mod Copied
pub mod Forward
pub mod Fields
pub mod Written
pub mod Scanning
pub mod Roots
pub mod Isomorphic
pub mod Rootset
pub mod Remembered
pub mod Malloc
pub mod Fueled
pub mod Finishes
mod Tests
use mathlib.Core.Option as Opt
use nesrotom_run.Base.{
  ℕ, zero, suc, ◌+◌, ◌*◌, ◌%◌, ◌^◌, Option, none, some, List, [], ◌∷◌, Bool, true, false, ◌&&◌, ltb,
  leb, ◌==◌, if◌then◌else◌, get_elem?, length,
}
use nesrotom_run.State.{
  Ref, const_ref, heap_ref, class_ref, stack_ref, Value, Body, str, sym, arr_objs, udo, Object,
  Class, Fault, vm_error, bad_access, assert_failed, add32,
}
use nesrotom_run.State.Memory.{aligned}

-- What memory holds at an address: an object, a `class_t`, the header of the stack, or what is left
-- of an object that has been copied, KEK_COPIED with the address of the copy in `h.cls`.
pub data Cell : Type 0 where
  object : Object → Cell
  class_cell : Cell
  stack_cell : Cell
  copied : ℕ → Cell

abbrev pub Heap : Type 0
Heap = Ref → Option Cell

-- `gc_rootset_t`: a node of the list of registered variables. `obj` is the value of the variable
-- that the node points to.
pub record Root : Type 0 where
  pub uid : ℕ
  pub obj : Value

-- The global variables of the collector. `heap_ref a` is an object at the address `a`.
-- `statics` are the values of the static variables, class by class; `const_arrays` are the
-- KEK_ARR_OBJS of the arrays in the constant table (gc_carrlist_g); `stack` is `stack_g` from
-- `sp_g - 1` down to 0. Under `-g new` every object is in the state OBJ_1ST_GEN_YOUNG.
pub record Gc : Type 0 where
  pub classes : List Class
  pub cells : Heap
  pub from_space : ℕ
  pub to_space : ℕ
  pub free : ℕ
  pub scan : ℕ
  pub iteration : ℕ
  pub statics : List (List Value)
  pub rootset : List Root
  pub const_arrays : List Value
  pub stack : List Value

pub data Outcome {ℓ} (A : Type ℓ) : Type ℓ where
  done : A → Gc → Outcome A
  failed : Fault → Outcome A

abbrev pub Step {ℓ} : Type ℓ → Type ℓ
Step A = Gc → Outcome A

abbrev pub and_then {ℓ κ} : {A : Type ℓ} {B : Type κ} → Outcome A → (A → Step B) → Outcome B
and_then (done a s) k = k a s
and_then (failed e) k = failed e

infixl 5 ◌>>=◌ ◌>>◌
abbrev pub ◌>>=◌ {ℓ κ} : {A : Type ℓ} {B : Type κ} → Step A → (A → Step B) → Step B
◌>>=◌ m k s = and_then (m s) k

abbrev pub ◌>>◌ {ℓ κ} : {A : Type ℓ} {B : Type κ} → Step A → Step B → Step B
◌>>◌ m k s = and_then (m s) (λ _. k)

abbrev pub pure {ℓ} : {A : Type ℓ} → A → Step A
pure a s = done a s

abbrev pub stop {ℓ} : {A : Type ℓ} → Fault → Step A
stop e s = failed e

unfoldable pub from_option {ℓ} : {A : Type ℓ} → Option A → Fault → Step A
from_option none e = stop e
from_option (some a) e = pure a

-- NEW_SEGMENT_SIZE
abbrev pub new_segment_size : ℕ
new_segment_size = 524288

-- sizeof(header_t)
abbrev pub header_size : ℕ
header_size = 24

-- Whether two pointers are the same address.
unfoldable pub ref_eq : Ref → Ref → Bool
ref_eq (const_ref i) (const_ref j) = i == j
ref_eq (heap_ref i) (heap_ref j) = i == j
ref_eq (class_ref i) (class_ref j) = i == j
ref_eq stack_ref stack_ref = true
ref_eq _ _ = false

unfoldable pub put : Ref → Cell → Gc → Gc
put r c s = record s { cells = λ q. if ref_eq q r then some c else s.cells q }

-- The number of variables of an instance: `total_syms_instance_cnt + syms_instance_offset`.
unfoldable pub var_count : List Class → Option ℕ → Option ℕ
var_count cs none = none
var_count cs (some i) =
    Opt.map (λ c. add32 c.total_syms_instance_cnt c.syms_instance_offset) (get_elem? cs i)

-- What vm_obj_size computes from the fields of an object. The array of pointers in a KEK_ARR_OBJS
-- and in an instance counts one pointer less than it has, since the struct has the first one:
-- `40 + (n - 1) * 8` is `32 + n * 8`, also for `n = 0`, where the difference wraps around. An
-- instance without a class fails an assertion.
unfoldable pub body_size : List Class → Option ℕ → Body → Option ℕ
body_size cs cls (str text) = some (32 + length text)
body_size cs cls (sym text) = some (32 + length text)
body_size cs cls (arr_objs n alloc_size elems) = some (32 + alloc_size * 8)
body_size cs cls (udo var_offset inst_var) = Opt.map (λ n. 32 + n * 8) (var_count cs cls)
body_size cs cls _ = some 48

-- vm_obj_size; the default is the size of the union of all objects.
unfoldable pub obj_size : List Class → Cell → Option ℕ
obj_size cs (object o) = body_size cs o.cls o.body
obj_size cs class_cell = some 112
obj_size cs stack_cell = some 48
obj_size cs (copied p) = some 48

-- gc_cheney_ptr_in_space; the end of the block must lie before the end of the segment.
unfoldable pub ptr_in_space : ℕ → ℕ → ℕ → Bool
ptr_in_space segment p size = leb segment p && ltb (p + aligned size) (segment + new_segment_size)

-- gc_cheney_ptr_in_to_space. Constants, classes and the stack lie in neither space.
unfoldable pub ptr_in_to_space : Ref → ℕ → Gc → Bool
ptr_in_to_space (heap_ref a) size s = ptr_in_space s.to_space a (aligned size)
ptr_in_to_space _ size s = false

-- gc_cheney_can_malloc
unfoldable pub can_malloc : ℕ → Gc → Bool
can_malloc size s = ltb (s.free + aligned size) (s.to_space + new_segment_size)

unfoldable pub read : Ref → Step Cell
read r s = from_option (s.cells r) bad_access s

-- vm_is_const
unfoldable pub is_const : Ref → Bool
is_const (const_ref i) = true
is_const _ = false
