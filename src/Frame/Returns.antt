-- ===== src/Frame/Returns.antt =====
-- Leaving a frame, and a call followed by a return.
use nesrotom_run.Base.{
  List, [], ◌∷◌, ℕ, zero, suc, ◌+◌, ◌-◌, ◌≤◌, ◌<◌, ◌≡◌, refl, ◌∙◌, arith, ◌==◌, if◌then◌else◌,
  ne→==, eq→==,
}
use native.Mathlib.Numerals.{add-one}
use nesrotom_run.State.{Value, small, Vm, ok}
use nesrotom_run.State.Memory.{update, int_val}
use nesrotom_run.Frame.{stack_size, stack_pop, bc_call, saved, leave_frame, bc_ret}
use nesrotom_run.Frame.Calls.{
  sub32_small, read_cell_lem, push_lem, cleared_below, called, CanCall, bc_call_lem,
}

-- The three cells below the frame pointer hold a return address, the caller's argument pointer and
-- the caller's frame pointer, as small integers.
pub record IsFrame (ret ap fp : ℕ) (s : Vm) : Type 0 where
  pub ret_cell : s.stack (s.fp - 3) ≡ small ret
  pub ap_cell : s.stack (s.fp - 2) ≡ small ap
  pub fp_cell : s.stack (s.fp - 1) ≡ small fp
  pub has_cells : 3 ≤ s.fp
  pub fp_fits : s.fp ≤ stack_size
  pub ap_fits : s.ap < stack_size

pub saved_lem :
    (k : ℕ) (s : Vm) (n : ℕ)
    → s.stack (s.fp - k) ≡ small n
    → 1 ≤ k
    → k ≤ s.fp
    → s.fp ≤ stack_size
    → saved k s ≡ ok n s
unfolding saved int_val
saved_lem k s n e one has fits =
    rw (sub32_small s.fp k has (omega arith), read_cell_lem (s.fp - k) s (omega arith), e)

unfoldable pub returned : (v : Value) (ret ap fp : ℕ) → Vm → Vm
returned v ret ap fp s = record s {
  sp = s.ap + 1;
  stack = update s.stack s.ap v;
  ap = ap;
  fp = fp;
  ip = ret;
}

pub leave_frame_lem :
    (v : Value) (ret ap fp : ℕ) (s : Vm)
    → IsFrame ret ap fp s
    → leave_frame v s ≡ ok tt (returned v ret ap fp s)
unfolding leave_frame returned
leave_frame_lem v ret ap fp s f =
    let s₁ : Vm = record s { sp = s.ap } in
    let s₂ : Vm = record s₁ { ap = ap } in
    let s₃ : Vm = record s₂ { fp = fp } in
    rw (
      saved_lem 3 s₁ ret f.ret_cell (omega arith) f.has_cells f.fp_fits,
      saved_lem 2 s₁ ap f.ap_cell (omega arith) (omega arith) f.fp_fits,
      saved_lem 1 s₂ fp f.fp_cell (omega arith) (omega arith) f.fp_fits,
      push_lem v s₃ f.ap_fits,
    )

pub bc_ret_lem :
    (ret ap fp : ℕ) (s : Vm)
    → IsFrame ret ap fp s
    → 1 ≤ s.sp
    → s.sp ≤ stack_size
    → bc_ret s ≡ ok tt (returned (s.stack (s.sp - 1)) ret ap fp s)
unfolding bc_ret stack_pop returned
bc_ret_lem ret ap fp s f one fits = rw (
  sub32_small s.sp 1 one (omega arith),
  read_cell_lem (s.sp - 1) (record s { sp = s.sp - 1 }) (omega arith),
  leave_frame_lem (s.stack (s.sp - 1)) ret ap fp (record s { sp = s.sp - 1 })
      (record {
        ret_cell = f.ret_cell;
        ap_cell = f.ap_cell;
        fp_cell = f.fp_cell;
        has_cells = f.has_cells;
        fp_fits = f.fp_fits;
        ap_fits = f.ap_fits;
      }),
)

-- What a callee that ends in state `t` leaves alone of the frame it was entered with in state `s`:
-- its registers, the three saved cells, and all below its arguments. A value is on top.
pub record KeepsFrame (s t : Vm) : Type 0 where
  pub ap_kept : t.ap ≡ s.ap
  pub fp_kept : t.fp ≡ s.fp
  pub below_kept : (j : ℕ) → j < s.ap → t.stack j ≡ s.stack j
  pub ret_kept : t.stack (s.fp - 3) ≡ s.stack (s.fp - 3)
  pub ap_cell_kept : t.stack (s.fp - 2) ≡ s.stack (s.fp - 2)
  pub fp_cell_kept : t.stack (s.fp - 1) ≡ s.stack (s.fp - 1)
  pub has_value : s.fp < t.sp
  pub top_fits : t.sp ≤ stack_size

abbrev pub top_value : Vm → Value
top_value t = t.stack (t.sp - 1)

called_cell :
    (e r n l : ℕ) (s : Vm) (j : ℕ)
    → j < s.sp + 3
    → (called e r n l s).stack j ≡ (
        if j == s.sp + 2
        then small s.fp
        else if j == s.sp + 1
        then small s.ap
        else if j == s.sp
        then small r
        else s.stack j)
unfolding called
called_cell e r n l s j h =
    cleared_below l (s.sp + 4) j _ (omega arith) ∙ rw (ne→== j (s.sp + 3) (omega arith))

module _ (e r n l : ℕ) (s : Vm) where
  pub called_below : (j : ℕ) → j < s.sp → (called e r n l s).stack j ≡ s.stack j
  called_below j h = called_cell e r n l s j (omega arith) ∙ ground arith

  pub called-IsFrame :
      (t : Vm) → CanCall r n l s → KeepsFrame (called e r n l s) t → IsFrame r s.ap s.fp t
  unfolding called
  called-IsFrame t c k = record {
    ret_cell =
        rw k.fp_kept
          (k.ret_kept ∙ called_cell e r n l s (s.sp + 3 - 3) (omega arith) ∙ ground arith);
    ap_cell =
        rw k.fp_kept
          (k.ap_cell_kept ∙ called_cell e r n l s (s.sp + 3 - 2) (omega arith) ∙ ground arith);
    fp_cell =
        rw k.fp_kept
          (k.fp_cell_kept ∙ called_cell e r n l s (s.sp + 3 - 1) (omega arith) ∙ ground arith);
    has_cells = omega (arith, k.fp_kept);
    fp_fits = omega (arith, k.fp_kept);
    ap_fits = omega (arith, k.ap_kept);
  }

-- The cells below `n`, the topmost first, and the cells in use.
unfoldable pub cells : ℕ → (ℕ → Value) → List Value
cells zero st = []
cells (suc n) st = st n ∷ cells n st

abbrev pub live : Vm → List Value
live s = cells s.sp s.stack

pub cells_congr : (n : ℕ) (f g : ℕ → Value) → ((j : ℕ) → j < n → f j ≡ g j) → cells n f ≡ cells n g
unfolding cells
cells_congr zero f g h = refl
cells_congr (suc n) f g h = rw (h n (omega arith), cells_congr n f g (λ j k. h j (omega arith)))

pub live-returned :
    (v : Value) (ret ap fp : ℕ) (s t : Vm)
    → ((j : ℕ) → j < t.ap → t.stack j ≡ s.stack j)
    → live (returned v ret ap fp t) ≡ v ∷ cells t.ap s.stack
unfolding returned cells
live-returned v ret ap fp s t h = rw add-one (
    rw (
      eq→== t.ap t.ap refl,
      cells_congr t.ap (update t.stack t.ap v) s.stack
          (λ j k. rw (ne→== j t.ap (omega arith)) (h j k)),
    ))

-- The registers and the live cells of a machine.
pub record Looks (ip ap fp : ℕ) (stack : List Value) (s : Vm) : Type 0 where
  pub ip_is : s.ip ≡ ip
  pub ap_is : s.ap ≡ ap
  pub fp_is : s.fp ≡ fp
  pub stack_is : live s ≡ stack

pub returned-Looks :
    (v : Value) (ret ap fp : ℕ) (s t : Vm)
    → ((j : ℕ) → j < t.ap → t.stack j ≡ s.stack j)
    → Looks ret ap fp (v ∷ cells t.ap s.stack) (returned v ret ap fp t)
unfolding returned
returned-Looks v ret ap fp s t h = record {
  ip_is = refl;
  ap_is = refl;
  fp_is = refl;
  stack_is = live-returned v ret ap fp s t h;
}

module _ (e r n l : ℕ) (s t : Vm) (c : CanCall r n l s) (k : KeepsFrame (called e r n l s) t) where
  pub called_ap : t.ap ≡ s.sp - (n + 1)
  unfolding called
  called_ap = k.ap_kept

  unfoldable pub after_return : Vm
  after_return = returned (top_value t) r s.ap s.fp t

  -- A call that fits the stack enters the callee, and when the callee has kept its frame and
  -- returns, RET goes back behind the call: the caller's registers are as before, and on the stack
  -- the arguments and the instance pointer have been replaced by the returned value.
  pub bc_ret-bc_call :
      (bc_call e r n l s ≡ ok tt (called e r n l s))
      × ((called e r n l s).ip ≡ e)
      × (bc_ret t ≡ ok tt after_return)
      × Looks r s.ap s.fp (top_value t ∷ cells (s.sp - (n + 1)) s.stack) after_return
  unfolding after_return
  bc_ret-bc_call = (
    bc_call_lem e r n l s c,
    (unfold called in refl),
    bc_ret_lem r s.ap s.fp t (called-IsFrame e r n l s t c k) (omega (arith, k.has_value))
        k.top_fits,
    rw (← called_ap) (
        returned-Looks (top_value t) r s.ap s.fp s t (λ j h.
          k.below_kept j (omega (arith, k.ap_kept))
          ∙ called_below e r n l s j (omega (arith, called_ap)))),
  )
