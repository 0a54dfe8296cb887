-- ===== src/Frame/Equivalence.antt =====
-- Returning from the callee of BC_TCALL, against returning from that of BC_CALL and then from the
-- caller.
use nesrotom_run.Base.{◌∷◌, ℕ, suc, ◌+◌, ◌-◌, ◌^◌, ◌<◌, ◌≡◌, refl, ◌∙◌, arith, ne→==}
use nesrotom_run.State.{Vm, ok, ◌>>◌}
use nesrotom_run.Frame.{bc_call, bc_tcall, bc_ret}
use nesrotom_run.Frame.Calls.{called, CanCall, bc_call_lem}
use nesrotom_run.Frame.Returns.{
  IsFrame, called_below, called-IsFrame, called_ap, returned, bc_ret_lem, KeepsFrame, top_value,
  cells, Looks, returned-Looks,
}
use nesrotom_run.Frame.TailCall.{moved_outside, tail_called, CanTailCall, bc_tcall_lem, tail_cell}

module _ (e ret ap fp n l : ℕ) (s : Vm) (c : CanTailCall ret ap fp n l s) where
  tail-IsFrame : (t : Vm) → KeepsFrame (tail_called e n l ret ap fp s) t → IsFrame ret ap fp t
  unfolding tail_called
  tail-IsFrame t k =
      let at = tail_cell e n l ret ap fp s in
      let f = c.frame in
      record {
        ret_cell = rw k.fp_kept (k.ret_kept ∙ at (s.ap + (n + 4) - 3) (omega arith) ∙ ground arith);
        ap_cell =
            rw k.fp_kept (k.ap_cell_kept ∙ at (s.ap + (n + 4) - 2) (omega arith) ∙ ground arith);
        fp_cell =
            rw k.fp_kept (k.fp_cell_kept ∙ at (s.ap + (n + 4) - 1) (omega arith) ∙ ground arith);
        has_cells = omega (arith, k.fp_kept);
        fp_fits = omega (arith, k.fp_kept);
        ap_fits = omega (arith, k.ap_kept);
      }

  tail_below : (j : ℕ) → j < s.ap → (tail_called e n l ret ap fp s).stack j ≡ s.stack j
  tail_below j h =
      tail_cell e n l ret ap fp s j (omega arith)
      ∙ (rw
          (
            ne→== j (s.ap + (n + 3)) (omega arith),
            ne→== j (s.ap + (n + 2)) (omega arith),
            ne→== j (s.ap + (n + 1)) (omega arith),
          )
          (moved_outside (suc n) 0 s.ap (s.sp - (n + 1)) s.stack j (omega arith)))

  tail_ap : (t : Vm) → KeepsFrame (tail_called e n l ret ap fp s) t → t.ap ≡ s.ap
  unfolding tail_called
  tail_ap t k = k.ap_kept

  pub tail_return :
      (t : Vm)
      → KeepsFrame (tail_called e n l ret ap fp s) t
      → (bc_ret t ≡ ok tt (returned (top_value t) ret ap fp t))
        × Looks ret ap fp (top_value t ∷ cells s.ap s.stack) (returned (top_value t) ret ap fp t)
  tail_return t k = (
    bc_ret_lem ret ap fp t (tail-IsFrame t k) (omega (arith, k.has_value)) k.top_fits,
    rw (← tail_ap t k) (
        returned-Looks (top_value t) ret ap fp s t (λ j h.
          k.below_kept j (omega (arith, k.ap_kept)) ∙ tail_below j (omega (arith, tail_ap t k)))),
  )

-- A return into the frame of state `s`, and a return out of that frame.
abbrev pub after_both : (ret ret' ap fp : ℕ) → Vm → Vm → Vm
after_both ret ret' ap fp s t =
    returned (top_value t) ret ap fp (returned (top_value t) ret' s.ap s.fp t)

module _ (e ret ret' ap fp n l : ℕ) (s t : Vm) (c : CanTailCall ret ap fp n l s)
    (can : CanCall ret' n l s) (k : KeepsFrame (called e ret' n l s) t) where
  -- the caller's own frame, after the callee has returned into it
  caller_cell : (j : ℕ) → j < s.fp → (returned (top_value t) ret' s.ap s.fp t).stack j ≡ s.stack j
  unfolding returned
  caller_cell j h = rw (ne→== j t.ap (omega (arith, called_ap e ret' n l s t can k))) (
      k.below_kept j (omega (arith, k.ap_kept, called_ap e ret' n l s t can k))
      ∙ called_below e ret' n l s j (omega arith))

  caller-IsFrame : IsFrame ret ap fp (returned (top_value t) ret' s.ap s.fp t)
  unfolding returned
  caller-IsFrame =
      let f = c.frame in
      record {
        ret_cell = caller_cell (s.fp - 3) (omega arith) ∙ f.ret_cell;
        ap_cell = caller_cell (s.fp - 2) (omega arith) ∙ f.ap_cell;
        fp_cell = caller_cell (s.fp - 1) (omega arith) ∙ f.fp_cell;
        has_cells = f.has_cells;
        fp_fits = f.fp_fits;
        ap_fits = f.ap_fits;
      }

  caller_top : top_value (returned (top_value t) ret' s.ap s.fp t) ≡ top_value t
  unfolding returned
  caller_top = ground arith

  returned_sp : (returned (top_value t) ret' s.ap s.fp t).sp ≡ t.ap + 1
  unfolding returned
  returned_sp = refl

  both_returns : (bc_ret >> bc_ret) t ≡ ok tt (after_both ret ret' ap fp s t)
  both_returns =
      let f = called-IsFrame e ret' n l s t can k in
      rw (
        bc_ret_lem ret' s.ap s.fp t f (omega (arith, k.has_value)) k.top_fits,
        bc_ret_lem ret ap fp (returned (top_value t) ret' s.ap s.fp t) caller-IsFrame
            (omega (arith, returned_sp))
            (omega (arith, returned_sp, called_ap e ret' n l s t can k)),
        caller_top,
      )

  both-Looks : Looks ret ap fp (top_value t ∷ cells s.ap s.stack) (after_both ret ret' ap fp s t)
  unfolding returned
  both-Looks =
      returned-Looks (top_value t) ret ap fp s (returned (top_value t) ret' s.ap s.fp t)
        (λ j h. caller_cell j (omega (arith, c.ap_below)))

can_call :
    (ret ret' ap fp n l : ℕ) (s : Vm)
    → CanTailCall ret ap fp n l s
    → ret' < 2 ^ 31
    → CanCall ret' n l s
can_call ret ret' ap fp n l s c h =
    let f = c.frame in
    record {
      ret_small = h;
      ap_small = omega arith;
      fp_small = omega arith;
      has_args = omega arith;
      fits = c.fits;
    }

-- The calls of one method from a frame that is about to return: BC_CALL with a return address, or
-- BC_TCALL, which reuses the frame. When the two callees keep their frames and return the same
-- value, RET out of the first and RET out of the caller lead to the same registers and the same
-- live stack as the one RET out of the second: those of the caller's caller, with the value in
-- place of the caller's arguments.
pub bc_tcall-bc_call :
    (e ret ret' ap fp n l : ℕ) (s t u : Vm)
    → CanTailCall ret ap fp n l s
    → ret' < 2 ^ 31
    → KeepsFrame (called e ret' n l s) t
    → KeepsFrame (tail_called e n l ret ap fp s) u
    → top_value u ≡ top_value t
    → (bc_call e ret' n l s ≡ ok tt (called e ret' n l s))
      × (bc_tcall e n l s ≡ ok tt (tail_called e n l ret ap fp s))
      × ((bc_ret >> bc_ret) t ≡ ok tt (after_both ret ret' ap fp s t))
      × (bc_ret u ≡ ok tt (returned (top_value u) ret ap fp u))
      × Looks ret ap fp (top_value t ∷ cells s.ap s.stack) (after_both ret ret' ap fp s t)
      × Looks ret ap fp (top_value t ∷ cells s.ap s.stack) (returned (top_value u) ret ap fp u)
bc_tcall-bc_call e ret ret' ap fp n l s t u c h k k' same =
    let can = can_call ret ret' ap fp n l s c h in
    (
      bc_call_lem e ret' n l s can,
      bc_tcall_lem e ret ap fp n l s c,
      both_returns e ret ret' ap fp n l s t c can k,
      (tail_return e ret ap fp n l s c u k').0,
      both-Looks e ret ret' ap fp n l s t c can k,
      rw (← same) (tail_return e ret ap fp n l s c u k').1,
    )
