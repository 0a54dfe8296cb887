-- ===== src/Frame.antt =====
-- The stack of vm/stack.c and the calling sequences of vm/stack.h. A cell of `stack_g` is reached
-- through an `int`; one outside the memory that stack_init allocates is a fault.
pub mod Calls
pub mod Returns
pub mod TailCall
pub mod Equivalence
mod Tests
use nesrotom_run.Base.{
  ℕ, zero, suc, ◌+◌, ◌-◌, ◌*◌, ◌/◌, ◌%◌, ◌^◌, Bool, true, false, Option, none, some, List, [], ◌∷◌,
  ltb, leb, ◌==◌, if◌then◌else◌, ◌&&◌,
}
use nesrotom_run.State.{
  Value, null, small, Vm, Fault, stack_overflow, bad_access, Run, ok, fault, Cmd, pure, get, modify,
  ◌>>=◌, ◌>>◌, add32, sub32,
}
use nesrotom_run.State.Memory.{update, make_integer, int_val}

-- STACK_DEFAULT_SIZE
abbrev pub stack_size : ℕ
stack_size = 4096

-- stack_init allocates `(sizeof(header_t) + stack_size_g) * sizeof(kek_obj_t*)` bytes and puts one
-- header of 24 bytes in front: the cells that the memory holds.
abbrev pub stack_cells : ℕ
stack_cells = 4117

-- `a < b` on `int` bit patterns
unfoldable pub int_lt : ℕ → ℕ → Bool
int_lt a b = ltb ((a + 2 ^ 31) % 2 ^ 32) ((b + 2 ^ 31) % 2 ^ 32)

-- stack_init, after malloc: the registers of an empty stack.
unfoldable pub stack_init : Cmd (Unit {0})
stack_init = modify λ s. record s { sp = 0; fp = 0; ap = 0 }

-- `stack_g[i]`, read and written
unfoldable pub read_cell : ℕ → Cmd Value
read_cell i s = if ltb i stack_cells then ok (s.stack i) s else fault bad_access

unfoldable pub write_cell : ℕ → Value → Cmd (Unit {0})
write_cell i v s =
    if ltb i stack_cells then ok tt (record s { stack = update s.stack i v }) else fault bad_access

-- stack_push
unfoldable pub stack_push : Value → Cmd (Unit {0})
stack_push obj s =
    if int_lt s.sp stack_size
    then (write_cell s.sp obj >> modify λ t. record t { sp = add32 t.sp 1 }) s
    else fault stack_overflow

-- stack_pop
unfoldable pub stack_pop : Cmd Value
stack_pop = do modify λ s. record s { sp = sub32 s.sp 1 }; s ← get; read_cell s.sp

-- stack_top
unfoldable pub stack_top : Cmd Value
stack_top = do s ← get; read_cell (sub32 s.sp 1)

-- `stack_g[sp_g - 1] = v`
unfoldable pub replace_top : Value → Cmd (Unit {0})
replace_top v = do s ← get; write_cell (sub32 s.sp 1) v

-- ARG, LOC and THIS, read
unfoldable pub arg : ℕ → Cmd Value
arg i = do s ← get; read_cell (add32 s.ap i)

unfoldable pub loc : ℕ → Cmd Value
loc i = do s ← get; read_cell (add32 s.fp (i + 1))

unfoldable pub this : Cmd Value
this = do s ← get; read_cell (sub32 s.fp 4)

-- `for (i = from; …; ++i) stack_g[i] = NULL;` in `count` rounds
unfoldable pub clear_cells : ℕ → ℕ → Cmd (Unit {0})
clear_cells zero i = pure tt
clear_cells (suc count) i = write_cell i null >> clear_cells count (add32 i 1)

-- how often the body of `for (i = from; i < to; ++i)` runs, on `int`
unfoldable pub rounds : ℕ → ℕ → ℕ
rounds from to = if int_lt from to then sub32 to from else 0

-- The end of BC_CALL and of BC_TCALL: the frame begins at the current top with the cell of the
-- exception table, and the locals are cleared.
unfoldable pub enter_frame : ℕ → ℕ → Cmd (Unit {0})
enter_frame entry locals_cnt = do
  modify λ s. record s { fp = s.sp }
  s ← get
  write_cell s.fp null
  modify λ s. record s { sp = add32 s.sp (locals_cnt + 1) }
  s ← get
  clear_cells (rounds (add32 s.fp 1) s.sp) (add32 s.fp 1)
  modify λ s. record s { ip = entry }

unfoldable pub push_integer : ℕ → Cmd (Unit {0})
push_integer n = make_integer n >>= stack_push

-- BC_CALL
unfoldable pub bc_call : (entry ret arg_cnt locals_cnt : ℕ) → Cmd (Unit {0})
bc_call entry ret arg_cnt locals_cnt = do
  push_integer ret
  s ← get
  push_integer s.ap
  modify λ s. record s { ap = sub32 s.sp (arg_cnt + 3) }
  s ← get
  push_integer s.fp
  enter_frame entry locals_cnt

-- INT_VAL of the cell `k` below the frame pointer
unfoldable pub saved : ℕ → Cmd ℕ
saved k = do s ← get; v ← read_cell (sub32 s.fp k); int_val v

-- `for (i = 0; i <= arg_cnt; ++i) stack_g[ap_g + i] = stack_g[tmp_ap + i];` from index `i` on
unfoldable pub move_args : (count i tmp_ap : ℕ) → Cmd (Unit {0})
move_args zero i tmp_ap = pure tt
move_args (suc count) i tmp_ap = do
  s ← get
  v ← read_cell (add32 tmp_ap i)
  write_cell (add32 s.ap i) v
  move_args count (add32 i 1) tmp_ap

-- BC_TCALL
unfoldable pub bc_tcall : (entry arg_cnt locals_cnt : ℕ) → Cmd (Unit {0})
bc_tcall entry arg_cnt locals_cnt = do
  ret_addr ← saved 3
  caller_ap ← saved 2
  caller_fp ← saved 1
  s ← get
  move_args (suc arg_cnt) 0 (sub32 s.sp (arg_cnt + 1))
  modify λ s. record s { sp = add32 s.ap (arg_cnt + 1) }
  push_integer ret_addr
  push_integer caller_ap
  push_integer caller_fp
  enter_frame entry locals_cnt

-- BC_RET and BC_RET_SELF after the value to return is found
unfoldable pub leave_frame : Value → Cmd (Unit {0})
leave_frame ret_val = do
  modify λ s. record s { sp = s.ap }
  ret_addr ← saved 3
  caller_ap ← saved 2
  modify λ s. record s { ap = caller_ap }
  caller_fp ← saved 1
  modify λ s. record s { fp = caller_fp }
  stack_push ret_val
  modify λ s. record s { ip = ret_addr }

-- BC_RET
unfoldable pub bc_ret : Cmd (Unit {0})
bc_ret = stack_pop >>= leave_frame

-- BC_RET_SELF
unfoldable pub bc_ret_self : Cmd (Unit {0})
bc_ret_self = this >>= leave_frame
