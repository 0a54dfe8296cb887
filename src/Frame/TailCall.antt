-- ===== src/Frame/TailCall.antt =====
-- BC_TCALL of vm/stack.h: the state that it leads to, and what the callee finds there.
use nesrotom_run.Base.{
  ℕ, zero, suc, ◌+◌, ◌-◌, ◌^◌, ◌≤◌, ◌<◌, ◌≡◌, refl, ◌∙◌, arith, ◌==◌, if◌then◌else◌, ne→==, eq→==,
}
use native.Mathlib.Decide.{ℕ_discrete}
use nesrotom_run.State.{Value, null, small, Vm, ok}
use nesrotom_run.State.Memory.{update}
use nesrotom_run.Frame.{stack_size, move_args, bc_tcall}
use nesrotom_run.Frame.Calls.{
  add32_small, sub32_small, read_cell_lem, write_cell_lem, push_integer_lem, enter_frame_lem,
  cleared, cleared_below,
}
use nesrotom_run.Frame.Returns.{IsFrame, saved_lem}

-- `n` cells from `dst + i` on, copied one after the other from `src + i` on.
unfoldable pub moved : (n i dst src : ℕ) → (ℕ → Value) → ℕ → Value
moved zero i dst src st = st
moved (suc n) i dst src st = moved n (i + 1) dst src (update st (dst + i) (st (src + i)))

pub moved_outside :
    (n i dst src : ℕ) (st : ℕ → Value) (j : ℕ) → j < dst + i → moved n i dst src st j ≡ st j
unfolding moved
moved_outside zero i dst src st j h = refl
moved_outside (suc n) i dst src st j h =
    moved_outside n (i + 1) dst src _ j (omega arith) ∙ rw (ne→== j (dst + i) (omega arith))

-- Copying downwards in ascending order overwrites no cell that is still to be read.
pub moved_at :
    (n i dst src : ℕ) (st : ℕ → Value) (m : ℕ)
    → dst ≤ src
    → i ≤ m
    → m < i + n
    → moved n i dst src st (dst + m) ≡ st (src + m)
unfolding moved
moved_at zero i dst src st m d a b = absurd (omega arith)
moved_at (suc n) i dst src st m d a b = elim (ℕ_discrete i m) [
  | yes e ↦
      moved_outside n (i + 1) dst src _ (dst + m) (omega arith)
      ∙ rw (e, eq→== (dst + m) (dst + m) refl)
  | no ne ↦
      moved_at n (i + 1) dst src _ m d (omega arith) (omega arith)
      ∙ rw (ne→== (src + m) (dst + i) (omega arith))
]

move_args_lem :
    (n i src : ℕ) (s : Vm)
    → s.ap + i + n ≤ stack_size
    → src + i + n ≤ stack_size
    → move_args n i src s ≡ ok tt (record s { stack = moved n i s.ap src s.stack })
unfolding move_args moved
move_args_lem zero i src s h k = refl
move_args_lem (suc n) i src s h k =
    rw
      (
        add32_small src i (omega arith),
        read_cell_lem (src + i) s (omega arith),
        add32_small s.ap i (omega arith),
        write_cell_lem (s.ap + i) (s.stack (src + i)) s (omega arith),
        add32_small i 1 (omega arith),
      )
      (move_args_lem n (i + 1) src
        (record s { stack = update s.stack (s.ap + i) (s.stack (src + i)) }) (omega arith)
        (omega arith))

-- The state after a tail call out of a frame that saves `ret`, `ap` and `fp`.
unfoldable pub tail_called : (entry arg_cnt locals_cnt ret ap fp : ℕ) → Vm → Vm
tail_called entry n l ret ap fp s = record s {
  fp = s.ap + (n + 4);
  sp = s.ap + (n + l + 5);
  ip = entry;
  stack = cleared l (s.ap + (n + 5)) (
      update
        (update
          (update
            (update (moved (suc n) 0 s.ap (s.sp - (n + 1)) s.stack) (s.ap + (n + 1)) (small ret))
            (s.ap + (n + 2)) (small ap))
          (s.ap + (n + 3)) (small fp))
        (s.ap + (n + 4)) null);
}

-- A frame of the machine with a call's arguments on top of it.
pub record CanTailCall (ret ap fp arg_cnt locals_cnt : ℕ) (s : Vm) : Type 0 where
  pub frame : IsFrame ret ap fp s
  pub ret_small : ret < 2 ^ 31
  pub ap_small : ap < 2 ^ 31
  pub fp_small : fp < 2 ^ 31
  pub ap_below : s.ap + 3 ≤ s.fp
  pub has_args : s.fp + arg_cnt + 1 < s.sp
  pub fits : s.sp + locals_cnt + 4 ≤ stack_size

sums :
    (a n l : ℕ)
    → (a + (n + 1) + 1 ≡ a + (n + 2))
      × (a + (n + 2) + 1 ≡ a + (n + 3))
      × (a + (n + 3) + 1 ≡ a + (n + 4))
      × (a + (n + 4) + 1 ≡ a + (n + 5))
      × (a + (n + 4) + (l + 1) ≡ a + (n + l + 5))
sums a n l = omega arith

pub bc_tcall_lem :
    (entry ret ap fp n l : ℕ) (s : Vm)
    → CanTailCall ret ap fp n l s
    → bc_tcall entry n l s ≡ ok tt (tail_called entry n l ret ap fp s)
unfolding bc_tcall tail_called
bc_tcall_lem entry ret ap fp n l s c =
    let a = s.ap in
    let s₁ : Vm = record s {
      stack = moved (suc n) 0 a (s.sp - (n + 1)) s.stack;
      sp = a + (n + 1);
    } in
    let s₂ : Vm = record s₁ {
      stack = update s₁.stack (a + (n + 1)) (small ret);
      sp = a + (n + 2);
    } in
    let s₃ : Vm = record s₂ {
      stack = update s₂.stack (a + (n + 2)) (small ap);
      sp = a + (n + 3);
    } in
    let s₄ : Vm = record s₃ {
      stack = update s₃.stack (a + (n + 3)) (small fp);
      sp = a + (n + 4);
    } in
    let e = sums a n l in
    let f = c.frame in
    rw (
      saved_lem 3 s ret f.ret_cell (omega arith) f.has_cells f.fp_fits,
      saved_lem 2 s ap f.ap_cell (omega arith) (omega arith) f.fp_fits,
      saved_lem 1 s fp f.fp_cell (omega arith) (omega arith) f.fp_fits,
      sub32_small s.sp (n + 1) (omega arith) (omega arith),
      move_args_lem (suc n) 0 (s.sp - (n + 1)) s (omega arith) (omega arith),
      add32_small a (n + 1) (omega arith),
      push_integer_lem ret s₁ c.ret_small (omega arith),
      e.0,
      push_integer_lem ap s₂ c.ap_small (omega arith),
      e.1,
      push_integer_lem fp s₃ c.fp_small (omega arith),
      e.2,
      enter_frame_lem entry l s₄ (omega arith),
      e.3,
      e.4,
    )

pub tail_cell :
    (e n l r ap fp : ℕ) (s : Vm) (j : ℕ)
    → j < s.ap + (n + 4)
    → (tail_called e n l r ap fp s).stack j ≡ (
        if j == s.ap + (n + 3)
        then small fp
        else if j == s.ap + (n + 2)
        then small ap
        else if j == s.ap + (n + 1)
        then small r
        else moved (suc n) 0 s.ap (s.sp - (n + 1)) s.stack j)
unfolding tail_called
tail_cell e n l r ap fp s j h =
    cleared_below l (s.ap + (n + 5)) j _ (omega arith) ∙ rw (ne→== j (s.ap + (n + 4)) (omega arith))
