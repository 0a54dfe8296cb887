-- ===== src/Compiler/Translate/Operations.antt =====
-- The last instruction of an operator's code, after the code of its operands.
use nesrotom_run.Base.{ℕ, ◌+◌, ◌≡◌, ◌∙◌, sym, ap, subst, some, [], ◌∷◌, arith, ◌==◌}
use nesrotom_run.State.{Native, small, Vm, Cmd, ok}
use nesrotom_run.Int32.{neg32, truth}
use nesrotom_run.Operators.{Op, bc_bop}
use nesrotom_run.Operators.Laws.{inline}
use nesrotom_run.Compiler.Tree.{op_code}
use nesrotom_run.Compiler.Optimize.{fold}
use nesrotom_run.Compiler.Optimize.Bop.{bc_bop-fold}
use nesrotom_run.Compiler.Translate.Steps.{step-bop, step-unm, step-not}
use nesrotom_run.Compiler.Translate.Machine.{
  stay, round, Runs-trans, Known, Later, Later-trans, Known-Later, make_integer-Made, op_of-op_code,
}
use nesrotom_run.Compiler.Translate.Run.{At, Room, Computed, Known-same, on_top}

-- The state with another address is as late.
Later-ip : {s t : Vm} (a b : ℕ) → Later s t → Later s (record t { ip = a; sp = b })
Later-ip a b l = record {
  code = l.code;
  table = l.table;
  frame = l.frame;
  objects = l.objects;
  grown = l.grown;
  cells = l.cells;
}

module _ (native : Native → Cmd (Unit {0})) (fuel : ℕ) where
  -- UNM after its operand.
  pub run-minus :
      (k x : ℕ) (s t : Vm)
      → Computed native fuel k x s t
      → At (2 ∷ []) (s.ip + k) s.bc_arr
      → Room (k + 1) s
      → (u : Vm) × Computed native fuel (k + 1) (neg32 x) s u
  run-minus k x s t c (a, _) m =
      let u : Vm = record t { ip = t.ip + 1 } in
      let (r, w, (make, known, l, ip, sp, cells, used)) =
        make_integer-Made (neg32 x) u (omega (arith, c.used, m.heap)) in
      let go =
        step-unm native fuel s.sp x t w r (omega (arith, c.ip, m.address)) c.sp
          (omega (arith, m.deep)) (ap t.bc_arr c.ip ∙ ap (λ f. f (s.ip + k)) c.later.code ∙ a)
          c.result.0 make (sp ∙ c.sp) in
      on_top native fuel (k + 1) (neg32 x) s w r (Runs-trans c.runs (round _ go stay))
        (ip ∙ omega (arith, c.ip)) known
        (Later-trans (omega (arith, c.sp)) (Later-ip (t.ip + 1) t.sp c.later) l)
        (omega (arith, c.used, used))

  -- NOT after its operand.
  pub run-not :
      (k x : ℕ) (s t : Vm)
      → Computed native fuel k x s t
      → At (11 ∷ []) (s.ip + k) s.bc_arr
      → Room (k + 1) s
      → (u : Vm) × Computed native fuel (k + 1) (truth (x == 0)) s u
  run-not k x s t c (a, _) m =
      let w : Vm = record t { ip = t.ip + 1 } in
      let go =
        step-not native fuel s.sp x t (omega (arith, c.ip, m.address)) c.sp (omega (arith, m.deep))
          (ap t.bc_arr c.ip ∙ ap (λ f. f (s.ip + k)) c.later.code ∙ a) c.result.0 in
      on_top native fuel (k + 1) (truth (x == 0)) s w (small (truth (x == 0)))
        (Runs-trans c.runs (round _ go stay)) (omega (arith, c.ip)) (inline (ground arith), tt)
        (Later-ip (t.ip + 1) t.sp c.later) (omega (arith, c.used))

  -- BOP after its operands.
  pub run-bop :
      (o : Op) (k j x y n : ℕ) (s t u : Vm)
      → Computed native fuel k x s t
      → Computed native fuel j y t u
      → fold o x y ≡ some n
      → At (1 ∷ op_code o ∷ []) (s.ip + k + j) s.bc_arr
      → Room (k + (j + 2)) s
      → (w : Vm) × Computed native fuel (k + (j + 2)) n s w
  run-bop o k j x y n s t u c d e (a, (b, _)) m =
      let v : Vm = record u { ip = u.ip + 2; sp = s.sp } in
      let (r, w, (make, known, l, ip, sp, cells, used)) =
        make_integer-Made n v (omega (arith, c.used, d.used, m.heap)) in
      let later = Later-trans (omega (arith, c.sp)) c.later d.later in
      let at = d.ip ∙ ap (λ p. p + j) c.ip in
      let left : Known (u.stack s.sp) x u =
        subst (λ z. Known z x u) (sym (d.later.cells s.sp (omega (arith, c.sp))))
          (Known-Later d.later c.result) in
      let right : Known (u.stack (s.sp + 1)) y u =
        subst (λ p. Known (u.stack p) y u) c.sp d.result in
      let op : bc_bop o (u.stack s.sp) (u.stack (s.sp + 1)) v ≡ ok r w =
        bc_bop-fold o (Known-same {f = u.stack} left).0 (Known-same {f = u.stack} right).0
        ∙ rw e make in
      let go =
        step-bop native fuel (op_code o) s.sp u w r (omega (arith, at, m.address))
          (d.sp ∙ ap (λ p. p + 1) c.sp) (omega (arith, m.deep))
          (ap u.bc_arr at ∙ ap (λ f. f (s.ip + k + j)) later.code ∙ a)
          (ap (λ p. u.bc_arr (p + 1)) at ∙ ap (λ f. f (s.ip + k + j + 1)) later.code ∙ b)
          (rw (op_of-op_code o) op) sp in
      on_top native fuel (k + (j + 2)) n s w r
        (Runs-trans c.runs (Runs-trans d.runs (round _ go stay))) (ip ∙ omega (arith, at)) known
        (Later-trans (omega arith) (Later-ip (u.ip + 2) s.sp later) l)
        (omega (arith, c.used, d.used, used))
