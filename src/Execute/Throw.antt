-- ===== src/Execute/Throw.antt =====
-- Exceptions of vm/vm.c: the search for a handler up the frames, throwing, and the instructions
-- ST_EXINFO, THROW and LD_EXOBJ.
pub mod Handlers
use nesrotom_run.Base.{ℕ, zero, suc, ◌&&◌, Option, none, some, List, [], ◌∷◌, ◌==◌, if◌then◌else◌}
use nesrotom_run.State.{
  Value, null, TryRange, Body, exinfo, native_addr, vm_error, bad_access, assert_failed,
  out_of_fuel, Cmd, pure, stop, get, modify, ensure, from_option, ◌>>=◌, ◌>>◌, add32, sub32,
}
use nesrotom_run.State.Memory.{load, store, int_val}
use nesrotom_run.Frame.{stack_push, stack_pop, read_cell, write_cell, int_lt}
use nesrotom_run.Int32.{int_le}
use nesrotom_run.Objects.{kek_exinfo, has_type, const}
use nesrotom_run.Execute.Operands.{advance, operand16}

-- The registers while frames are left.
pub record Unwound : Type 0 where
  pub ap : ℕ
  pub fp : ℕ
  pub sp : ℕ
  pub ret_addr : ℕ

-- The try block around an address: the first whose range holds it.
unfoldable pub find_block : ℕ → List TryRange → Option TryRange
find_block a [] = none
find_block a (b ∷ bs) =
    if int_le b.try_addr a && int_lt a b.catch_addr then some b else find_block a bs

abbrev saved_int : ℕ → Cmd ℕ
saved_int i = do v ← read_cell i; int_val v

-- UNWIND: one frame up; `none` where the frame was entered from native code.
unfoldable pub unwind : Unwound → Cmd (Option Unwound)
unwind u = do
  r ← saved_int (sub32 u.fp 3)
  a ← saved_int (sub32 u.fp 2)
  f ← saved_int (sub32 u.fp 1)
  pure
      (if r == native_addr then none else some (record { ap = a; fp = f; sp = u.ap; ret_addr = r }))

abbrev pub as_exinfo : Body → Option (List TryRange)
as_exinfo (exinfo o bs) = some bs
as_exinfo _ = none

-- The handler in the frame itself: the cell under the frame pointer is NULL, or an exception table.
unfoldable pub frame_handler : Unwound → Cmd (Option (Value × TryRange))
frame_handler u = do
  v ← read_cell u.fp
  elim v [
    | null ↦ pure none
    | w ↦ do
      o ← load w
      bs ← from_option (as_exinfo o.body) bad_access
      pure (elim (find_block (sub32 u.ret_addr 1) bs) [ none ↦ none | some b ↦ some (w, b) ])
  ]

-- `exi->obj_thrown = obj`
unfoldable pub set_thrown : Value → Value → Cmd (Unit {0})
set_thrown exi obj = do
  o ← load exi
  bs ← from_option (as_exinfo o.body) bad_access
  store exi (record o { body = exinfo obj bs })

-- find_handler_for_exobj, with fuel for the frames: the registers of the frame that handles the
-- object, and the address of its handler; `none` is the result -1.
unfoldable pub find_handler : ℕ → Value → Unwound → Cmd (Option (Unwound × ℕ))
find_handler zero obj u = stop out_of_fuel
find_handler (suc fuel) obj u = do
  h ← frame_handler u
  elim h [
    | some (exi, b) ↦ do set_thrown exi obj; pure (some (u, b.catch_addr))
    | none ↦ do up ← unwind u; elim up [ none ↦ pure none | some w ↦ find_handler fuel obj w ]
  ]

-- vm_throw_obj: without a handler the program is killed.
unfoldable pub vm_throw_obj : ℕ → Value → Cmd (Unit {0})
vm_throw_obj fuel obj = do
  s ← get
  found ←
      find_handler fuel obj (record { ap = s.ap; fp = s.fp; sp = s.sp; ret_addr = add32 s.ip 1 })
  (u, catch_addr) ← from_option found vm_error
  modify λ s. record s { ap = u.ap; fp = u.fp; sp = u.sp; ip = catch_addr }

-- THROW
unfoldable pub exec_throw : ℕ → Cmd (Unit {0})
exec_throw fuel = do advance 1; obj ← stack_pop; vm_throw_obj fuel obj

-- ST_EXINFO
unfoldable pub exec_st_exinfo : Cmd (Unit {0})
exec_st_exinfo = do
  i ← operand16
  is_exi ← has_type kek_exinfo (const i)
  ensure is_exi assert_failed
  s ← get
  write_cell s.fp (const i)

abbrev thrown : Body → Option Value
thrown (exinfo o bs) = some o
thrown _ = none

-- LD_EXOBJ
unfoldable pub exec_ld_exobj : Cmd (Unit {0})
exec_ld_exobj = do
  advance 1
  s ← get
  exi ← read_cell s.fp
  is_exi ← has_type kek_exinfo exi
  ensure is_exi assert_failed
  o ← load exi
  v ← from_option (thrown o.body) bad_access
  stack_push v
