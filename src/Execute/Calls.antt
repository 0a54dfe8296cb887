-- ===== src/Execute/Calls.antt =====
-- The instructions that call methods and make objects: CALL, CALLS, CALLE and NEW, with the inline
-- cache of a call site and the allocators of vm/memory.c. `native` runs the function of a native
-- method.
pub mod Caching
pub mod Coherence
pub mod History
use nesrotom_run.Base.{
  ℕ, ◌+◌, ◌-◌, ◌*◌, Bool, true, false, not, Option, none, some, get_elem?, replicate, ◌==◌,
  if◌then◌else◌,
}
use nesrotom_run.State.{
  Bytes, class_ref, Value, null, ptr, udo, file, term, expt, Native, bc_addr, func, Method,
  native_addr, alloc_file, alloc_term, alloc_exception, alloc_udo, Class, InlineCache, vm_error,
  bad_access, assert_failed, out_of_fuel, Cmd, pure, stop, get, modify, ensure, from_option, ◌>>=◌,
  ◌>>◌, add32,
}
use nesrotom_run.State.Memory.{alloc, load, update}
use nesrotom_run.Frame.{stack_push, stack_top, this, bc_call, bc_tcall}
use nesrotom_run.Objects.{kek_nil, has_type, is_ptr}
use nesrotom_run.Classes.{find_method_in_class}
use nesrotom_run.Array.{alloc_array}
use nesrotom_run.Execute.Operands.{advance, byte_at, operand16, next_operand16}
use nesrotom_run.Execute.Members.{const_symbol}

-- `call_type`: E, I and S of the source.
pub data CallType : Type 0 where
  calle call calls : CallType

-- The opcode RET, by which a tail call is recognised.
abbrev pub ret_code : ℕ
ret_code = 13

abbrev pub hit : Option InlineCache → ℕ → Option Method
hit none cls = none
hit (some c) cls = if c.cls == cls then some c.mth else none

abbrev pub static_flag : Bool → ℕ
static_flag true = 1
static_flag false = 0

-- The search for the method of a call, with the check of the number of arguments.
unfoldable pub look_up : (fuel cls : ℕ) → Bytes → Bool → (args : ℕ) → Cmd Method
look_up fuel cls name static_call args = do
  s ← get
  found ←
      from_option (find_method_in_class s.classes fuel cls name (static_flag static_call))
        out_of_fuel
  m ← from_option found vm_error
  ensure (m.args_cnt == args) vm_error
  pure m

-- The method of a call on class `cls` at the call site `site`: the cached one when the cache is for
-- that class; otherwise the one that is found, which is put into the cache.
unfoldable pub resolve : (fuel site cls : ℕ) → Bytes → Bool → (args : ℕ) → Cmd Method
resolve fuel site cls name static_call args = do
  s ← get
  elim (hit (s.cache site) cls) [
    | some m ↦ pure m
    | none ↦ do
      m ← look_up fuel cls name static_call args
      modify λ t. record t { cache = update t.cache site (some (record { cls = cls; mth = m })) }
      pure m
  ]

-- The class that the receiver on top of the stack stands for, and whether the call is static.
unfoldable pub receiver_class : Value → Cmd (ℕ × Bool)
receiver_class obj = elim obj [
  | ptr (class_ref i) ↦ pure (i, true)
  | v ↦ do o ← load v; i ← from_option o.cls vm_error; pure (i, false)
]

-- Entering the method: a frame in place of the current one where RET follows the call.
unfoldable pub enter_method : (Native → Cmd (Unit {0})) → Method → Bool → Cmd (Unit {0})
enter_method native m tail_call = do
  s ← get
  elim m.entry [
    | func f ↦ do
      if tail_call
          then bc_tcall native_addr m.args_cnt m.locals_cnt
          else bc_call native_addr s.ip m.args_cnt m.locals_cnt
      native f
    | bc_addr a ↦
        if tail_call
        then bc_tcall a m.args_cnt m.locals_cnt
        else bc_call a s.ip m.args_cnt m.locals_cnt
  ]

abbrev push_this : CallType → Cmd (Unit {0})
push_this calle = pure tt
push_this _ = do v ← this; stack_push v

-- CALLS takes the class from the method's symbol: the parent class.
abbrev called_class : CallType → ℕ → Option ℕ → Option ℕ
called_class calls i up = up
called_class _ i up = some i

abbrev is_null : Value → Bool
is_null null = true
is_null _ = false

-- CALL, CALLS and CALLE
unfoldable pub exec_call : (Native → Cmd (Unit {0})) → ℕ → CallType → Cmd (Unit {0})
exec_call native fuel call_type = do
  push_this call_type
  arg1 ← operand16
  arg2 ← next_operand16
  s ← get
  let site = s.ip
  advance 16
  s ← get
  next ← byte_at s.ip
  obj ← stack_top
  ensure (not (is_null obj)) vm_error
  ensure (is_ptr obj) vm_error
  is_nil ← has_type kek_nil obj
  ensure (not is_nil) vm_error
  (name, o) ← const_symbol arg1
  (i, static_call) ← receiver_class obj
  cls ← from_option (called_class call_type i o.cls) assert_failed
  m ← resolve fuel site cls name static_call arg2
  enter_method native m (next == ret_code)

-- alloc_udo: the variables are the inherited ones and those that a built-in parent reserves. Memory
-- that malloc has just obtained for the segment is taken to be zero.
unfoldable pub new_udo : ℕ → Class → Cmd Value
new_udo i c =
    let total = add32 c.total_syms_instance_cnt c.syms_instance_offset in
    alloc (record { cls = some i; body = udo c.syms_instance_offset (replicate total null) })
      (40 + (if total == 0 then 0 else total - 1) * 48)

-- `cls->allocator(cls)`
unfoldable pub allocate : ℕ → Class → Cmd Value
allocate i c = elim c.allocator [
  | none ↦ stop bad_access
  | some alloc_file ↦ alloc (record { cls = some i; body = file 0 none }) 40
  | some alloc_term ↦ alloc (record { cls = some i; body = term }) 24
  | some alloc_exception ↦ alloc (record { cls = some i; body = expt 0 null }) 40
  | some alloc_udo ↦ new_udo i c
  | some _ ↦ alloc_array (some i)
]

-- The constructor call of NEW; it is never a tail call.
unfoldable pub construct : (Native → Cmd (Unit {0})) → Method → ℕ → Cmd (Unit {0})
construct native m args = do
  ensure (m.args_cnt == args) vm_error
  s ← get
  elim m.entry [
    | func f ↦ do bc_call native_addr s.ip m.args_cnt m.locals_cnt; native f
    | bc_addr a ↦ bc_call a s.ip m.args_cnt m.locals_cnt
  ]

-- NEW
unfoldable pub exec_new : (Native → Cmd (Unit {0})) → Cmd (Unit {0})
exec_new native = do
  arg1 ← operand16
  arg2 ← next_operand16
  (_, o) ← const_symbol arg1
  i ← from_option o.cls vm_error
  s ← get
  c ← from_option (get_elem? s.classes i) bad_access
  obj ← allocate i c
  stack_push obj
  elim c.constructor [ none ↦ pure tt | some m ↦ construct native m arg2 ]
