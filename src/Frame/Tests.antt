-- ===== src/Frame/Tests.antt =====
-- The calling sequences at concrete machines.
use nesrotom_run.Base.{◌∷◌, ◌+◌, ◌-◌, ◌≡◌, ◌<◌, ◌≤◌, refl, arith}
use nesrotom_run.State.{null, small, ptr, class_ref, Vm, ok, fault, stack_overflow, ◌>>◌}
use nesrotom_run.State.Samples.{empty_vm}
use nesrotom_run.State.Memory.{update}
use nesrotom_run.Frame.{stack_size, int_lt, stack_push, bc_call, bc_tcall, bc_ret}
use nesrotom_run.Frame.Calls.{cleared, called, CanCall}
use nesrotom_run.Frame.Returns.{
  returned, KeepsFrame, top_value, cells, Looks, after_return, bc_ret-bc_call,
}
use nesrotom_run.Frame.TailCall.{tail_called, CanTailCall}
use nesrotom_run.Frame.Equivalence.{after_both, bc_tcall-bc_call}

-- An instance pointer and one argument on an otherwise empty stack.
abbrev caller : Vm
caller = record empty_vm {
  stack = update (update (λ _. null) 0 (small 7)) 1 (ptr (class_ref 0));
  sp = 2;
}

-- The callee of `caller`, with a value to return on top.
abbrev callee : Vm
callee = record (called 40 5 1 2 caller) {
  stack = update (called 40 5 1 2 caller).stack 8 (small 9);
  sp = 9;
}

caller-CanCall : CanCall 5 1 2 caller
caller-CanCall = omega arith

callee-KeepsFrame : KeepsFrame (called 40 5 1 2 caller) callee
unfolding called cleared
callee-KeepsFrame = record {
  ap_kept = refl;
  fp_kept = refl;
  below_kept = λ j h. ground arith;
  ret_kept = refl;
  ap_cell_kept = refl;
  fp_cell_kept = refl;
  has_value = omega arith;
  top_fits = omega arith;
}

bc_ret-bc_call_example :
    (bc_call 40 5 1 2 caller ≡ ok tt (called 40 5 1 2 caller))
    × ((called 40 5 1 2 caller).ip ≡ 40)
    × (bc_ret callee ≡ ok tt (after_return 40 5 1 2 caller callee caller-CanCall callee-KeepsFrame))
    × Looks 5 0 0
        (top_value callee ∷ cells (2 - 2) caller.stack)
        (after_return 40 5 1 2 caller callee caller-CanCall callee-KeepsFrame)
bc_ret-bc_call_example = bc_ret-bc_call 40 5 1 2 caller callee caller-CanCall callee-KeepsFrame

-- A frame with one argument that is about to tail call a method with two.
abbrev tail_caller : Vm
tail_caller = record empty_vm {
  stack =
      update
        (update
          (update
            (update (update (update (update (λ _. null) 0 (small 7)) 2 (small 90)) 3 (small 0)) 4
              (small 0))
            6 (small 1))
          7 (small 2))
        8 (ptr (class_ref 1));
  fp = 5;
  sp = 9;
}

tail_caller-CanTailCall : CanTailCall 90 0 0 2 0 tail_caller
tail_caller-CanTailCall = record {
  frame = record {
    ret_cell = refl;
    ap_cell = refl;
    fp_cell = refl;
    has_cells = omega arith;
    fp_fits = omega arith;
    ap_fits = omega arith;
  };
  ret_small = omega arith;
  ap_small = omega arith;
  fp_small = omega arith;
  ap_below = omega arith;
  has_args = omega arith;
  fits = omega arith;
}

abbrev with_value : Vm → Vm
with_value s = record s { stack = update s.stack s.sp (small 9); sp = s.sp + 1 }

with_value-KeepsFrame :
    (s : Vm)
    → s.ap ≤ s.sp
    → s.fp < s.sp
    → 3 < s.fp
    → s.sp < stack_size
    → KeepsFrame s (with_value s)
with_value-KeepsFrame s a b c d = record {
  ap_kept = refl;
  fp_kept = refl;
  below_kept = λ j h. ground arith;
  ret_kept = ground arith;
  ap_cell_kept = ground arith;
  fp_cell_kept = ground arith;
  has_value = omega arith;
  top_fits = omega arith;
}

abbrev call_end : Vm
call_end = with_value (called 40 33 2 0 tail_caller)

abbrev tail_end : Vm
tail_end = with_value (tail_called 40 2 0 90 0 0 tail_caller)

call_end-KeepsFrame : KeepsFrame (called 40 33 2 0 tail_caller) call_end
unfolding called
call_end-KeepsFrame =
    with_value-KeepsFrame (called 40 33 2 0 tail_caller) (omega arith) (omega arith) (omega arith)
      (omega arith)

tail_end-KeepsFrame : KeepsFrame (tail_called 40 2 0 90 0 0 tail_caller) tail_end
unfolding tail_called
tail_end-KeepsFrame =
    with_value-KeepsFrame (tail_called 40 2 0 90 0 0 tail_caller) (omega arith) (omega arith)
      (omega arith) (omega arith)

same_value : top_value tail_end ≡ top_value call_end
unfolding called tail_called
same_value = refl

bc_tcall-bc_call_example :
    (bc_call 40 33 2 0 tail_caller ≡ ok tt (called 40 33 2 0 tail_caller))
    × (bc_tcall 40 2 0 tail_caller ≡ ok tt (tail_called 40 2 0 90 0 0 tail_caller))
    × ((bc_ret >> bc_ret) call_end ≡ ok tt (after_both 90 33 0 0 tail_caller call_end))
    × (bc_ret tail_end ≡ ok tt (returned (top_value tail_end) 90 0 0 tail_end))
    × Looks 90 0 0
        (top_value call_end ∷ cells 0 tail_caller.stack)
        (after_both 90 33 0 0 tail_caller call_end)
    × Looks 90 0 0
        (top_value call_end ∷ cells 0 tail_caller.stack)
        (returned (top_value tail_end) 90 0 0 tail_end)
bc_tcall-bc_call_example =
    bc_tcall-bc_call 40 90 33 0 0 2 0 tail_caller call_end tail_end tail_caller-CanTailCall
      (omega arith) call_end-KeepsFrame tail_end-KeepsFrame same_value

-- A push on a full stack stops the program.
push_full : stack_push null (record empty_vm { sp = 4096 }) ≡ fault stack_overflow
unfolding stack_push int_lt
push_full = refl
