-- ===== src/State.antt =====
-- The data of the virtual machine: vm/types.h (values and objects), vm/vm.h (symbols, methods,
-- classes), the global variables of vm/vm.c, vm/stack.c and vm/memory.c, and the runs of the
-- machine as a state and fault monad.
pub mod Memory
pub mod Samples
use nesrotom_run.Base.{ℕ, ◌+◌, ◌-◌, ◌%◌, ◌^◌, List, Option, Bool}

-- A C string without its terminating zero: bytes below 256.
abbrev pub Bytes : Type 0
Bytes = List ℕ

-- Where a pointer leads: into the constant table (its offset), to an object of the segment (its
-- offset), to `classes_g[i]`, or to the header of the stack.
pub data Ref : Type 0 where
  const_ref : ℕ → Ref
  heap_ref : ℕ → Ref
  class_ref : ℕ → Ref
  stack_ref : Ref

-- The field that a DPTR names: a pointer field of the object that it is relative to, counted from
-- the first one, or `classes_g[i].syms_static[k].value`, relative to no object.
pub data Field : Type 0 where
  field : ℕ → Field
  static_field : ℕ → ℕ → Field

-- A `kek_obj_t *`, by what was stored in it: NULL, a reference to an object, the result of INT (an
-- integer kept in the word, as a bit pattern), of MAKE_CHAR or of MAKE_DPTR. The tags of `Word` tell
-- references and characters from the others, but not an integer from a DPTR: the words of some are both
-- IS_INT and IS_DPTR.
pub data Value : Type 0 where
  null : Value
  ptr : Ref → Value
  small : ℕ → Value
  char : ℕ → Value
  dptr : Field → Value

-- `try_range_t`
pub record TryRange : Type 0 where
  pub try_addr : ℕ
  pub catch_addr : ℕ

-- What follows the header of an object; one constructor for each `type_t` that an object of the
-- segment or of the constant table can have.
pub data Body : Type 0 where
  nil : Body
  int : ℕ → Body
  str : Bytes → Body
  sym : Bytes → Body
  arr : (length alloc_size : ℕ) → (elems : Value) → Body
  arr_objs : (length alloc_size : ℕ) → (elems : List Value) → Body
  exinfo : (obj_thrown : Value) → (blocks : List TryRange) → Body
  expt : (var_offset : ℕ) → (msg : Value) → Body
  file : (var_offset : ℕ) → (f_handle : Option ℕ) → Body
  term : Body
  udo : (var_offset : ℕ) → (inst_var : List Value) → Body

-- `header_t` keeps the class; the type is the constructor of the body.
pub record Object : Type 0 where
  pub cls : Option ℕ
  pub body : Body

-- The functions that a native method's `entry.func` can point to.
pub data Native : Type 0 where
  new_array array_length array_append : Native
  string_length string_split string_replace string_to_int : Native
  string_from_array string_from_int string_from_symbol : Native
  new_file file_close file_readln file_writeln term_readln : Native
  sys_rand sys_srand sys_time : Native
  new_exception exception_msg exception_type meta_new : Native

-- The union `entry` of `method_t`; its flag `is_native` is the choice of constructor.
pub data Entry : Type 0 where
  bc_addr : ℕ → Entry
  func : Native → Entry

pub record Method : Type 0 where
  pub name : Bytes
  pub entry : Entry
  pub args_cnt : ℕ
  pub locals_cnt : ℕ
  pub is_static : ℕ

pub record Symbol : Type 0 where
  pub name : Bytes
  pub const_ptr : ℕ
  pub value : Value
  pub addr : ℕ
  pub const_flag : Bool

-- The functions that `allocator` of `class_t` can point to.
pub data Allocator : Type 0 where
  alloc_array alloc_file alloc_term alloc_exception alloc_udo : Allocator

-- `class_t`. A count that goes with an array is the length of the list. The two cached sizes are
-- bit patterns, `unset` for -1.
pub record Class : Type 0 where
  pub name : Bytes
  pub parent : Option ℕ
  pub methods : List Method
  pub allocator : Option Allocator
  pub constructor : Option Method
  pub static_init : Option Method
  pub syms_static : List Symbol
  pub total_syms_instance_cnt : ℕ
  pub syms_instance : List Symbol
  pub syms_instance_offset : ℕ
  pub parent_name : Option Bytes

-- The bit pattern of the `int` -1, which is also NATIVE.
abbrev pub unset : ℕ
unset = 0xffff_ffff

abbrev pub native_addr : ℕ
native_addr = 0xffff_ffff

-- `inline_cache_t`, where `cls` is not NULL.
pub record InlineCache : Type 0 where
  pub cls : ℕ
  pub mth : Method

-- The machine under `-g none`: objects are allocated one after the other in one segment and never
-- move. `used` is `segments_g->used`; `cache` holds the inline caches, which the program keeps
-- inside its bytecode array; `out` is what WRT has printed, the last first. The four registers are
-- bit patterns of `int`.
pub record Vm : Type 0 where
  pub classes : List Class
  pub consts : ℕ → Option Object
  pub heap : ℕ → Option Object
  pub used : ℕ
  pub bc_arr : ℕ → Option ℕ
  pub cache : ℕ → Option InlineCache
  pub stack : ℕ → Value
  pub sp : ℕ
  pub ap : ℕ
  pub fp : ℕ
  pub ip : ℕ
  pub out : List Bytes

-- How a run can stop early: `vm_error` (which kills the process), a failed `assert`, `exit(1)` when
-- the stack is full, an access to memory that holds no such object, the processor's trap on a
-- division, or lack of fuel in the model.
pub data Fault : Type 0 where
  vm_error assert_failed stack_overflow bad_access arithmetic_trap out_of_fuel : Fault

pub data Run {ℓ} (A : Type ℓ) : Type ℓ where
  ok : A → Vm → Run A
  fault : Fault → Run A

abbrev pub Cmd {ℓ} : Type ℓ → Type ℓ
Cmd A = Vm → Run A

abbrev pub pure {ℓ} : {A : Type ℓ} → A → Cmd A
pure a s = ok a s

abbrev pub stop {ℓ} : {A : Type ℓ} → Fault → Cmd A
stop e s = fault e

abbrev pub and_then {ℓ κ} : {A : Type ℓ} {B : Type κ} → Run A → (A → Cmd B) → Run B
and_then (ok a s) k = k a s
and_then (fault e) k = fault e

infixl 5 ◌>>=◌ ◌>>◌
abbrev pub ◌>>=◌ {ℓ κ} : {A : Type ℓ} {B : Type κ} → Cmd A → (A → Cmd B) → Cmd B
◌>>=◌ m k s = and_then (m s) k

abbrev pub ◌>>◌ {ℓ} : {B : Type ℓ} → Cmd (Unit {0}) → Cmd B → Cmd B
◌>>◌ m k s = and_then (m s) (λ _. k)

abbrev pub get : Cmd Vm
get s = ok s s

abbrev pub modify : (Vm → Vm) → Cmd (Unit {0})
modify f s = ok tt (f s)

-- `if (!test) …` where the program stops.
abbrev pub ensure : Bool → Fault → Cmd (Unit {0})
ensure b e s = elim b [ Bool.true ↦ ok tt s | Bool.false ↦ fault e ]

abbrev pub from_option {ℓ} : {A : Type ℓ} → Option A → Fault → Cmd A
from_option o e s = elim o [ Option.some a ↦ ok a s | Option.none ↦ fault e ]

-- `a + b` and `a - b` on `int` and `uint32_t` bit patterns.
unfoldable pub add32 : ℕ → ℕ → ℕ
add32 a b = (a + b) % 2 ^ 32

unfoldable pub sub32 : ℕ → ℕ → ℕ
sub32 a b = (a + 2 ^ 32 - b % 2 ^ 32) % 2 ^ 32
