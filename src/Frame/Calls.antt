-- ===== src/Frame/Calls.antt =====
-- What the calling sequences of vm/stack.h do to the stack when they run within its bounds.
use nesrotom_run.Base.{ℕ, zero, suc, ◌+◌, ◌-◌, ◌^◌, ◌≤◌, ◌<◌, ◌≡◌, refl, ◌∙◌, true, arith, lt→ltb}
use nesrotom_run.State.{Value, null, small, Vm, ok, add32, sub32}
use nesrotom_run.State.Memory.{update, make_integer}
use nesrotom_run.Frame.{
  stack_size, stack_cells, int_lt, read_cell, write_cell, stack_push, clear_cells, rounds,
  enter_frame, push_integer, bc_call,
}

pub add32_small : (a b : ℕ) → a + b < 2 ^ 32 → add32 a b ≡ a + b
unfolding add32
add32_small a b h = omega arith

pub sub32_small : (a b : ℕ) → b ≤ a → a < 2 ^ 32 → sub32 a b ≡ a - b
unfolding sub32
sub32_small a b h k = omega arith

pub int_lt_small : (a b : ℕ) → a < b → b < 2 ^ 31 → int_lt a b ≡ true
unfolding int_lt
int_lt_small a b h k = ground arith

pub read_cell_lem : (i : ℕ) (s : Vm) → i < stack_cells → read_cell i s ≡ ok (s.stack i) s
unfolding read_cell
read_cell_lem i s h = rw (lt→ltb _ _ h)

pub write_cell_lem :
    (i : ℕ) (v : Value) (s : Vm)
    → i < stack_cells
    → write_cell i v s ≡ ok tt (record s { stack = update s.stack i v })
unfolding write_cell
write_cell_lem i v s h = rw (lt→ltb _ _ h)

pub push_lem :
    (v : Value) (s : Vm)
    → s.sp < stack_size
    → stack_push v s ≡ ok tt (record s { stack = update s.stack s.sp v; sp = s.sp + 1 })
unfolding stack_push
push_lem v s h = rw (
  int_lt_small s.sp stack_size h (omega arith),
  write_cell_lem s.sp v s (omega arith),
  add32_small s.sp 1 (omega arith),
)

pub make_integer_small : (v : ℕ) (s : Vm) → v < 2 ^ 31 → make_integer v s ≡ ok (small v) s
unfolding make_integer
make_integer_small v s h = rw (lt→ltb _ _ h)

pub push_integer_lem :
    (v : ℕ) (s : Vm)
    → v < 2 ^ 31
    → s.sp < stack_size
    → push_integer v s ≡ ok tt (record s { stack = update s.stack s.sp (small v); sp = s.sp + 1 })
unfolding push_integer
push_integer_lem v s h k = rw (make_integer_small v s h) (push_lem (small v) s k)

-- The cells from `i` on, `n` of them, set to NULL.
unfoldable pub cleared : ℕ → ℕ → (ℕ → Value) → ℕ → Value
cleared zero i st = st
cleared (suc n) i st = cleared n (i + 1) (update st i null)

pub cleared_below : (n i j : ℕ) (st : ℕ → Value) → j < i → cleared n i st j ≡ st j
unfolding cleared
cleared_below zero i j st h = refl
cleared_below (suc n) i j st h =
    cleared_below n (i + 1) j (update st i null) (omega arith) ∙ ground arith

pub clear_cells_lem :
    (n i : ℕ) (s : Vm)
    → i + n ≤ stack_cells
    → clear_cells n i s ≡ ok tt (record s { stack = cleared n i s.stack })
unfolding clear_cells cleared
clear_cells_lem zero i s h = refl
clear_cells_lem (suc n) i s h =
    rw (write_cell_lem i null s (omega arith), add32_small i 1 (omega arith))
      (clear_cells_lem n (i + 1) (record s { stack = update s.stack i null }) (omega arith))

frame_rounds : (a l : ℕ) → a + (l + 1) < 2 ^ 31 → rounds (a + 1) (a + (l + 1)) ≡ l
unfolding rounds int_lt sub32
frame_rounds a l h = ground arith

pub enter_frame_lem :
    (e l : ℕ) (s : Vm)
    → s.sp + l + 1 ≤ stack_cells
    → enter_frame e l s
      ≡ ok tt (record s {
        fp = s.sp;
        sp = s.sp + (l + 1);
        stack = cleared l (s.sp + 1) (update s.stack s.sp null);
        ip = e;
      })
unfolding enter_frame
enter_frame_lem e l s h = rw (
  write_cell_lem s.sp null (record s { fp = s.sp }) (omega arith),
  add32_small s.sp (l + 1) (omega arith),
  add32_small s.sp 1 (omega arith),
  frame_rounds s.sp l (omega arith),
  clear_cells_lem l (s.sp + 1) _ (omega arith),
)

-- The state after a call, in terms of the state before it.
unfoldable pub called : (entry ret arg_cnt locals_cnt : ℕ) → Vm → Vm
called entry ret arg_cnt locals_cnt s = record s {
  fp = s.sp + 3;
  ap = s.sp - (arg_cnt + 1);
  sp = s.sp + (locals_cnt + 4);
  ip = entry;
  stack = cleared locals_cnt (s.sp + 4) (
      update
        (update (update (update s.stack s.sp (small ret)) (s.sp + 1) (small s.ap)) (s.sp + 2)
          (small s.fp))
        (s.sp + 3) null);
}

-- The registers are small enough to be pushed as integers, and the frame fits.
pub record CanCall (ret arg_cnt locals_cnt : ℕ) (s : Vm) : Type 0 where
  pub ret_small : ret < 2 ^ 31
  pub ap_small : s.ap < 2 ^ 31
  pub fp_small : s.fp < 2 ^ 31
  pub has_args : arg_cnt + 1 ≤ s.sp
  pub fits : s.sp + locals_cnt + 4 ≤ stack_size

plus_two : (a : ℕ) → a + 1 + 1 ≡ a + 2
plus_two a = omega arith

plus_three : (a : ℕ) → a + 2 + 1 ≡ a + 3
plus_three a = omega arith

plus_four : (a : ℕ) → a + 3 + 1 ≡ a + 4
plus_four a = omega arith

frame_top : (a l : ℕ) → a + 3 + (l + 1) ≡ a + (l + 4)
frame_top a l = omega arith

args_below : (a n : ℕ) → n + 1 ≤ a → a < stack_size → sub32 (a + 2) (n + 3) ≡ a - (n + 1)
unfolding sub32
args_below a n h k = omega arith

pub bc_call_lem :
    (entry ret arg_cnt locals_cnt : ℕ) (s : Vm)
    → CanCall ret arg_cnt locals_cnt s
    → bc_call entry ret arg_cnt locals_cnt s ≡ ok tt (called entry ret arg_cnt locals_cnt s)
unfolding bc_call called
bc_call_lem entry ret n l s c =
    let s₁ : Vm = record s { stack = update s.stack s.sp (small ret); sp = s.sp + 1 } in
    let s₂ : Vm = record s₁ {
      stack = update s₁.stack (s.sp + 1) (small s.ap);
      sp = s.sp + 2;
      ap = s.sp - (n + 1);
    } in
    let s₃ : Vm = record s₂ { stack = update s₂.stack (s.sp + 2) (small s.fp); sp = s.sp + 3 } in
    rw (
      push_integer_lem ret s c.ret_small (omega arith),
      push_integer_lem s.ap s₁ c.ap_small (omega arith),
      plus_two s.sp,
      args_below s.sp n c.has_args (omega arith),
      push_integer_lem s.fp s₂ c.fp_small (omega arith),
      plus_three s.sp,
      enter_frame_lem entry l s₃ (omega arith),
      plus_four s.sp,
      frame_top s.sp l,
    )
