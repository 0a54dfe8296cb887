-- ===== src/Execute/Simple.antt =====
-- The instructions of vm_execute_bc that load, store, index, compute, print and jump.
use nesrotom_run.Base.{
  ℕ, zero, suc, ◌+◌, ◌-◌, ◌/◌, ◌%◌, ◌^◌, Bool, true, false, not, Option, none, some, [], ◌∷◌, ◌++◌,
  length, get_elem?, ltb, ◌==◌, if◌then◌else◌,
}
use nesrotom_run.State.{
  Bytes, stack_ref, field, Value, null, ptr, char, dptr, vm_error, bad_access, assert_failed, Cmd,
  pure, stop, get, modify, ensure, from_option, ◌>>=◌, ◌>>◌, add32, sub32,
}
use nesrotom_run.State.Memory.{make_integer, int_val}
use nesrotom_run.Frame.{
  stack_push, stack_pop, stack_top, replace_top, read_cell, arg, loc, this, int_lt,
}
use nesrotom_run.Int32.{neg32}
use nesrotom_run.Objects.{kek_arr, kek_str, kek_nil, has_type, is_int, string_of, const}
use nesrotom_run.Operators.{op_of, bc_bop}
use nesrotom_run.Array.{load_array, load_elems, native_grow_array, arr_set_length}
use nesrotom_run.Execute.Operands.{advance, operand16, operand8, read_field, write_field}

unfoldable pub exec_lvbi_c : Cmd (Unit {0})
exec_lvbi_c = do i ← operand16; stack_push (const i)

unfoldable pub exec_lvbi_arg : Cmd (Unit {0})
exec_lvbi_arg = do i ← operand16; v ← arg i; stack_push v

unfoldable pub exec_lvbi_loc : Cmd (Unit {0})
exec_lvbi_loc = do i ← operand16; v ← loc i; stack_push v

-- The address of an argument or a local: the stack, and the cell in it.
unfoldable pub exec_labi_arg : Cmd (Unit {0})
exec_labi_arg = do
  i ← operand16
  s ← get
  stack_push (ptr stack_ref)
  stack_push (dptr (field (add32 s.ap i)))

unfoldable pub exec_labi_loc : Cmd (Unit {0})
exec_labi_loc = do
  i ← operand16
  s ← get
  stack_push (ptr stack_ref)
  stack_push (dptr (field (add32 s.fp (i + 1))))

abbrev pub is_null : Value → Bool
is_null null = true
is_null _ = false

-- ST; under `-g none` there is no write barrier.
unfoldable pub exec_st : Cmd (Unit {0})
exec_st = do
  advance 1
  obj ← stack_pop
  addr ← stack_pop
  dst_obj ← stack_pop
  ensure (not (is_null obj)) assert_failed
  ensure (not (is_null addr)) assert_failed
  write_field dst_obj addr obj

-- DR
unfoldable pub exec_dr : Cmd (Unit {0})
exec_dr = do advance 1; addr ← stack_pop; obj ← stack_top; v ← read_field obj addr; replace_top v

-- `obj->k_arr.elems[idx_n]`, with an index below the length; a negative one reads before the cells.
unfoldable pub array_elem : Value → ℕ → Cmd Value
array_elem obj idx_n = do
  h ← load_array obj
  ensure (int_lt idx_n h.length) vm_error
  e ← load_elems h.elems
  from_option (get_elem? e.cells idx_n) bad_access

unfoldable pub string_elem : Value → ℕ → Cmd Value
string_elem obj idx_n = do
  b ← string_of obj
  ensure (int_lt idx_n (length b)) vm_error
  c ← from_option (get_elem? b idx_n) bad_access
  pure (char c)

-- IDX
unfoldable pub exec_idx : Cmd (Unit {0})
exec_idx = do
  advance 1
  idx ← stack_pop
  obj ← stack_pop
  ensure (not (is_null obj)) vm_error
  ensure (not (is_null idx)) vm_error
  int ← is_int idx
  ensure int vm_error
  idx_n ← int_val idx
  is_arr ← has_type kek_arr obj
  is_str ← elim is_arr [ true ↦ pure false | false ↦ has_type kek_str obj ]
  v ← elim is_arr [
    | true ↦ array_elem obj idx_n
    | false ↦ elim is_str [ true ↦ string_elem obj idx_n | false ↦ stop vm_error ]
  ]
  stack_push v

-- IDXA, for an index on an array: it is made long enough first. `idx_n >= size` is on `int`.
unfoldable pub grow_to : ℕ → Value → ℕ → Cmd (Unit {0})
grow_to fuel obj idx_n = do
  h ← load_array obj
  if not (int_lt idx_n h.alloc_size)
      then (do
        ensure (not (h.alloc_size == 0)) assert_failed
        native_grow_array fuel obj (add32 idx_n 1))
      else if not (int_lt idx_n h.length)
      then arr_set_length obj (add32 idx_n 1)
      else pure tt

-- IDXA
unfoldable pub exec_idxa : ℕ → Cmd (Unit {0})
exec_idxa fuel = do
  advance 1
  idx ← stack_pop
  obj ← stack_top
  ensure (not (is_null obj)) vm_error
  is_arr ← has_type kek_arr obj
  ensure is_arr vm_error
  ensure (not (is_null idx)) vm_error
  int ← is_int idx
  ensure int vm_error
  idx_n ← int_val idx
  grow_to fuel obj idx_n
  obj ← stack_pop
  h ← load_array obj
  stack_push h.elems
  stack_push (dptr (field idx_n))

-- BOP
unfoldable pub exec_bop : Cmd (Unit {0})
exec_bop = do o ← operand8; b ← stack_pop; a ← stack_pop; r ← bc_bop (op_of o) a b; stack_push r

-- UNM
unfoldable pub exec_unm : Cmd (Unit {0})
exec_unm = do
  advance 1
  obj ← stack_top
  int ← is_int obj
  ensure int vm_error
  n ← int_val obj
  v ← make_integer (neg32 n)
  replace_top v

-- What NOT and IFNJ read as false: the integer 0 and nil. `none` is any other object.
unfoldable pub condition : Value → Cmd (Option Bool)
condition obj = do
  int ← is_int obj
  elim int [
    | true ↦ do n ← int_val obj; pure (some (not (n == 0)))
    | false ↦ do is_nil ← has_type kek_nil obj; pure (if is_nil then some false else none)
  ]

-- NOT
unfoldable pub exec_not : Cmd (Unit {0})
exec_not = do
  advance 1
  obj ← stack_top
  c ← condition obj
  v ← make_integer (elim c [ none ↦ 0 | some b ↦ if b then 0 else 1 ])
  replace_top v

-- DUP: the two topmost cells.
unfoldable pub exec_dup : Cmd (Unit {0})
exec_dup = do
  advance 1
  s ← get
  v ← read_cell (sub32 s.sp 2)
  stack_push v
  s ← get
  w ← read_cell (sub32 s.sp 2)
  stack_push w

-- The decimal digits of a number below 10 ^ fuel, in front of `rest`.
unfoldable pub digits : ℕ → ℕ → Bytes → Bytes
digits zero n rest = rest
digits (suc fuel) n rest =
    let more = digits fuel (n / 10) ((48 + n % 10) ∷ rest) in
    if ltb n 10 then (48 + n) ∷ rest else more

-- What printf writes for "%d"; an `int` has at most ten digits.
unfoldable pub print_int : ℕ → Bytes
print_int n = if ltb n (2 ^ 31) then digits 10 n [] else 45 ∷ digits 10 (2 ^ 32 - n) []

-- The text that WRT prints: a character or a number with a line feed, a string as it is.
unfoldable pub written : Value → Cmd Bytes
written (char c) = pure (c ∷ 10 ∷ [])
written obj = do
  int ← is_int obj
  is_str ← elim int [ true ↦ pure false | false ↦ has_type kek_str obj ]
  elim int [
    | true ↦ do n ← int_val obj; pure (print_int n ++ 10 ∷ [])
    | false ↦ elim is_str [ true ↦ string_of obj | false ↦ stop vm_error ]
  ]

-- WRT
unfoldable pub exec_wrt : Cmd (Unit {0})
exec_wrt = do advance 1; obj ← stack_pop; b ← written obj; modify λ s. record s { out = b ∷ s.out }

-- JU
unfoldable pub exec_ju : Cmd (Unit {0})
exec_ju = do a ← operand16; modify λ s. record s { ip = a }

-- IFNJ
unfoldable pub exec_ifnj : Cmd (Unit {0})
exec_ifnj = do
  a ← operand16
  obj ← stack_pop
  c ← condition obj
  b ← from_option c vm_error
  if b then pure tt else modify λ s. record s { ip = a }

-- LD_SELF
unfoldable pub exec_ld_self : Cmd (Unit {0})
exec_ld_self = do advance 1; v ← this; stack_push v

-- POP
unfoldable pub exec_pop : Cmd (Unit {0})
exec_pop = do advance 1; _ ← stack_pop; pure tt
