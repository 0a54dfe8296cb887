-- ===== src/Operators.antt =====
-- bc_bop of vm/vm.c: the binary operators on integers, on strings and characters, on symbols, and
-- equality of references.
pub mod Laws
pub mod Division
mod Tests
use Prim.Native.Nat.{bit_and, bit_or, bit_xor}
use nesrotom_run.Base.{
  ℕ, ◌+◌, ◌-◌, ◌*◌, ◌/◌, ◌%◌, ◌^◌, Bool, true, false, not, ◌&&◌, ◌||◌, Option, none, some, List, [],
  ◌∷◌, ltb, leb, ◌==◌, if◌then◌else◌,
}
use nesrotom_run.State.{
  Bytes, Ref, Value, null, ptr, small, char, dptr, Vm, vm_error, bad_access, arithmetic_trap, Cmd,
  Run, ok, fault, pure, stop, get, from_option, ◌>>=◌, ◌>>◌, add32, sub32,
}
use nesrotom_run.State.Memory.{make_integer, int_val, load}
use nesrotom_run.Frame.{int_lt}
use nesrotom_run.Int32.{neg32, mul32, div32, mod32, shl32, shr32, truth, int_le}
use nesrotom_run.Objects.{
  ObjType, kek_str, kek_sym, has_type, is_int, string_of, symbol_of, new_string_from_concat,
  same_value,
}

-- `op_t`
pub data Op : Type 0 where
  plus minus times divide modulo eq not_eq less greater less_or_eq greater_or_eq : Op
  log_or log_and bit_or_op bit_and_op xor_op lsh rsh error_op : Op

-- The operand byte of BOP; a byte above the enum is no operator.
unfoldable pub op_of : ℕ → Op
op_of n =
    if n == 0
    then plus
    else if n == 1
    then minus
    else if n == 2
    then times
    else if n == 3
    then divide
    else if n == 4
    then modulo
    else if n == 5
    then eq
    else if n == 6
    then not_eq
    else if n == 7
    then less
    else if n == 8
    then greater
    else if n == 9
    then less_or_eq
    else if n == 10
    then greater_or_eq
    else if n == 11
    then log_or
    else if n == 12
    then log_and
    else if n == 13
    then bit_or_op
    else if n == 14
    then bit_and_op
    else if n == 15
    then xor_op
    else if n == 16
    then lsh
    else if n == 17
    then rsh
    else error_op

-- The switch on two integers: the pattern that make_integer is given.
unfoldable pub int_op : Op → ℕ → ℕ → Cmd ℕ
int_op plus a b = pure (add32 a b)
int_op minus a b = pure (sub32 a b)
int_op times a b = pure (mul32 a b)
int_op divide a b = from_option (div32 a b) arithmetic_trap
int_op modulo a b = from_option (mod32 a b) arithmetic_trap
int_op eq a b = pure (truth (a == b))
int_op not_eq a b = pure (truth (not (a == b)))
int_op less a b = pure (truth (int_lt a b))
int_op greater a b = pure (truth (int_lt b a))
int_op less_or_eq a b = pure (truth (int_le a b))
int_op greater_or_eq a b = pure (truth (int_le b a))
int_op log_or a b = pure (truth (not (a == 0) || not (b == 0)))
int_op log_and a b = pure (truth (not (a == 0) && not (b == 0)))
int_op bit_or_op a b = pure (bit_or a b)
int_op bit_and_op a b = pure (bit_and a b)
int_op xor_op a b = pure (bit_xor a b)
int_op lsh a b = pure (shl32 a b)
int_op rsh a b = pure (shr32 a b)
int_op error_op a b = stop vm_error

-- strcmp on the bytes as `unsigned char`; only the sign of its result is fixed, here -1, 0 or 1.
unfoldable pub strcmp : Bytes → Bytes → ℕ
strcmp [] [] = 0
strcmp [] (b ∷ bs) = 2 ^ 32 - 1
strcmp (a ∷ as') [] = 1
strcmp (a ∷ as') (b ∷ bs) = if ltb a b then 2 ^ 32 - 1 else if ltb b a then 1 else strcmp as' bs

-- The switch on two texts, with the results as values.
unfoldable pub text_op : Op → Bytes → Bytes → Cmd Value
text_op plus a b = new_string_from_concat a b
text_op eq a b = make_integer (truth (strcmp a b == 0))
text_op not_eq a b = make_integer (strcmp a b)
text_op less a b = make_integer (truth (int_lt (strcmp a b) 0))
text_op greater a b = make_integer (truth (int_lt 0 (strcmp a b)))
text_op less_or_eq a b = make_integer (truth (int_le (strcmp a b) 0))
text_op greater_or_eq a b = make_integer (truth (int_le 0 (strcmp a b)))
text_op _ a b = stop vm_error

-- The switch on two symbols.
unfoldable pub symbol_op : Op → Bytes → Bytes → Cmd Value
symbol_op eq a b = make_integer (truth (strcmp a b == 0))
symbol_op not_eq a b = make_integer (strcmp a b)
symbol_op _ a b = stop vm_error

-- The switch on any other two references.
unfoldable pub reference_op : Op → Value → Value → Cmd Value
reference_op eq a b = make_integer (truth (same_value a b))
reference_op not_eq a b = make_integer (truth (not (same_value a b)))
reference_op _ a b = stop vm_error

-- The text of an operand: a character other than 0 as a string of its own, or a string.
unfoldable pub text_of : Value → Cmd (Option Bytes)
text_of (char c) = pure (if c == 0 then none else some (c ∷ []))
text_of v = do
  is_str ← has_type kek_str v
  elim is_str [ true ↦ (do b ← string_of v; pure (some b)) | false ↦ pure none ]

-- The third and fourth branch of bc_bop.
unfoldable pub other_op : Op → Value → Value → Cmd Value
other_op o a b = do
  sym_a ← has_type kek_sym a
  sym_b ← elim sym_a [ true ↦ has_type kek_sym b | false ↦ pure false ]
  elim sym_b [
    | true ↦ do x ← symbol_of a; y ← symbol_of b; symbol_op o x y
    | false ↦ reference_op o a b
  ]

-- The second branch: the text of `b` is looked at only when `a` has one.
unfoldable pub text_or_other : Op → Value → Value → Cmd Value
text_or_other o a b = do
  x ← text_of a
  y ← elim x [ none ↦ pure none | some _ ↦ text_of b ]
  elim x [
    | none ↦ other_op o a b
    | some s ↦ elim y [ none ↦ other_op o a b | some t ↦ text_op o s t ]
  ]

unfoldable pub bc_bop : Op → Value → Value → Cmd Value
bc_bop o a b = do
  int_a ← is_int a
  int_b ← elim int_a [ true ↦ is_int b | false ↦ pure false ]
  elim int_b [
    | true ↦ do x ← int_val a; y ← int_val b; r ← int_op o x y; make_integer r
    | false ↦ text_or_other o a b
  ]
