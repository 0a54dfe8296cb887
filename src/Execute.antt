-- ===== src/Execute.antt =====
-- The bytecode interpreter vm_execute_bc of vm/vm.c: one function for each instruction in the
-- children, and here the opcodes, the choice of the instruction and the loop. `native` runs the
-- function of a native method; `fuel` bounds the searches along parents and frames and the growth of
-- arrays.
pub mod Operands
pub mod Simple
pub mod Members
pub mod Calls
pub mod Throw
mod Tests
use nesrotom_run.Base.{ℕ, zero, suc, Bool, true, false, Option, none, some, ◌==◌, if◌then◌else◌}
use nesrotom_run.State.{
  Native, native_addr, Vm, vm_error, out_of_fuel, Cmd, pure, stop, get, ◌>>=◌, ◌>>◌,
}
use nesrotom_run.Frame.{bc_ret, bc_ret_self}
use Operands.{byte_at}
use Simple.{
  exec_lvbi_c, exec_lvbi_arg, exec_lvbi_loc, exec_labi_arg, exec_labi_loc, exec_st, exec_dr,
  exec_idx, exec_idxa, exec_bop, exec_unm, exec_not, exec_dup, exec_wrt, exec_ju, exec_ifnj,
  exec_ld_self, exec_pop,
}
use Members.{
  exec_labi_cv, exec_labi_cve, exec_lvbi_cv, exec_lvbi_cve, exec_lvbs_cve, exec_labs_cve,
  exec_labi_iv, exec_lvbi_iv, exec_lvbs_ive, exec_labs_ive, exec_ld_class,
}
use Calls.{calle, call, calls, exec_call, exec_new}
use Throw.{exec_st_exinfo, exec_throw, exec_ld_exobj}

-- What the loop does after an instruction: go on, or leave vm_execute_bc.
pub data Next : Type 0 where
  continue leave : Next

abbrev go_on : Cmd (Unit {0}) → Cmd Next
go_on m = do m; pure continue

-- RET and RET_SELF leave the interpreter when the frame was entered from native code.
unfoldable pub after_ret : Cmd Next
after_ret = do s ← get; pure (if s.ip == native_addr then leave else continue)

-- The switch of vm_execute_bc on an opcode of `bc_t`. NOP, RD, SWAP and STOP have no case there.
unfoldable pub execute : (Native → Cmd (Unit {0})) → ℕ → ℕ → Cmd Next
execute native fuel op =
    if op == 1
    then go_on exec_bop
    else if op == 2
    then go_on exec_unm
    else if op == 3
    then go_on exec_dr
    else if op == 4
    then go_on exec_st
    else if op == 5
    then go_on exec_ifnj
    else if op == 6
    then go_on exec_ju
    else if op == 7
    then go_on exec_wrt
    else if op == 9
    then go_on exec_dup
    else if op == 11
    then go_on exec_not
    else if op == 13
    then (bc_ret >> after_ret)
    else if op == 14
    then go_on (exec_call native fuel call)
    else if op == 15
    then go_on (exec_call native fuel calls)
    else if op == 16
    then go_on (exec_call native fuel calle)
    else if op == 17
    then go_on exec_lvbi_c
    else if op == 18
    then go_on exec_lvbi_arg
    else if op == 19
    then go_on exec_lvbi_loc
    else if op == 20
    then go_on exec_lvbi_iv
    else if op == 21
    then go_on (exec_lvbi_cv fuel)
    else if op == 22
    then go_on (exec_lvbi_cve fuel)
    else if op == 23
    then go_on (exec_lvbs_ive fuel)
    else if op == 24
    then go_on (exec_lvbs_cve fuel)
    else if op == 25
    then go_on exec_ld_self
    else if op == 26
    then go_on exec_ld_class
    else if op == 27
    then go_on exec_labi_arg
    else if op == 28
    then go_on exec_labi_loc
    else if op == 29
    then go_on exec_labi_iv
    else if op == 30
    then go_on (exec_labi_cv fuel)
    else if op == 31
    then go_on (exec_labi_cve fuel)
    else if op == 32
    then go_on (exec_labs_ive fuel)
    else if op == 33
    then go_on (exec_labs_cve fuel)
    else if op == 34
    then go_on exec_idx
    else if op == 35
    then go_on (exec_idxa fuel)
    else if op == 36
    then go_on (exec_new native)
    else if op == 37
    then (bc_ret_self >> after_ret)
    else if op == 38
    then go_on exec_ld_exobj
    else if op == 39
    then go_on exec_st_exinfo
    else if op == 40
    then go_on (exec_throw fuel)
    else if op == 41
    then go_on exec_pop
    else stop vm_error

-- One round of the loop. Under `-g none` the call of gc() between rounds does nothing.
unfoldable pub step : (Native → Cmd (Unit {0})) → ℕ → Cmd Next
step native fuel = do s ← get; op ← byte_at s.ip; execute native fuel op

-- vm_execute_bc in at most `ticks` rounds
unfoldable pub execute_bc : (Native → Cmd (Unit {0})) → (fuel ticks : ℕ) → Cmd (Unit {0})
execute_bc native fuel zero = stop out_of_fuel
execute_bc native fuel (suc ticks) = do
  n ← step native fuel
  elim n [ leave ↦ pure tt | continue ↦ execute_bc native fuel ticks ]
