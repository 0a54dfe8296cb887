-- ===== src/State/Memory.antt =====
-- Access to objects, allocation under `-g none` (gc_obj_malloc, mem_obj_malloc and
-- mem_segment_malloc of vm/memory.c), and make_integer and INT_VAL on top of them.
use nesrotom_run.Base.{ℕ, ◌+◌, ◌*◌, ◌/◌, ◌^◌, Option, none, some, ltb, ◌==◌, if◌then◌else◌}
use nesrotom_run.State.{
  Ref, const_ref, heap_ref, class_ref, stack_ref, Value, ptr, small, Body, int, Object, Vm,
  vm_error, bad_access, ok, fault, Cmd, pure, stop, get, from_option, ◌>>=◌,
}

abbrev pub update {ℓ} : {A : Type ℓ} → (ℕ → A) → ℕ → A → ℕ → A
update f i a j = if j == i then a else f j

-- ALIGNED: the next multiple of OBJ_ALIGN.
unfoldable pub aligned : ℕ → ℕ
aligned n = (n + 7) / 8 * 8

-- SEGMENT_SIZE
abbrev pub segment_size : ℕ
segment_size = 33554432

-- mem_segment_malloc and the header that mem_obj_malloc writes. A full segment is an error; the
-- code after that vm_error is not reached.
unfoldable pub alloc : Object → ℕ → Cmd Value
alloc o size s =
    if ltb segment_size (s.used + aligned size)
    then fault vm_error
    else ok (ptr (heap_ref s.used))
        (record s { heap = update s.heap s.used (some o); used = s.used + aligned size })

-- The object behind a pointer; anything else has no object to read.
unfoldable pub object_at : Ref → Vm → Option Object
object_at (const_ref i) s = s.consts i
object_at (heap_ref i) s = s.heap i
object_at (class_ref i) s = none
object_at stack_ref s = none

unfoldable pub load : Value → Cmd Object
load (ptr r) = do s ← get; from_option (object_at r s) bad_access
load _ = stop bad_access

unfoldable pub store : Value → Object → Cmd (Unit {0})
store (ptr (const_ref i)) o s = ok tt (record s { consts = update s.consts i (some o) })
store (ptr (heap_ref i)) o s = ok tt (record s { heap = update s.heap i (some o) })
store _ o s = fault bad_access

abbrev pub int_object : ℕ → Object
int_object n = record { cls = none; body = int n }

-- make_integer: a value with its top bit set becomes an object, any other stays in the word.
unfoldable pub make_integer : ℕ → Cmd Value
make_integer value = if ltb value (2 ^ 31) then pure (small value) else alloc (int_object value) 32

abbrev int_body : Body → Option ℕ
int_body (int n) = some n
int_body _ = none

-- INT_VAL. Of a DPTR it is a shift of the word in C, of which the number depends on addresses; here it
-- is a fault, as that of an object of another type is.
unfoldable pub int_val : Value → Cmd ℕ
int_val (small n) = pure n
int_val (ptr r) = do o ← load (ptr r); from_option (int_body o.body) bad_access
int_val _ = stop bad_access
