-- ===== src/Compiler/Optimize/Machine.antt =====
-- Integer expressions before and after Optimize (compiler/strom.cpp), valued by the operators of the
-- machine (bc_bop in vm/vm.c).
use nesrotom_run.Base.{ℕ, ◌≡◌, ◌∙◌, refl, sym, Option, none, some, ◌==◌, inl, inr, Option-cases}
use nesrotom_run.Int32.{neg32, truth}
use nesrotom_run.State.{Vm, Run, ok, fault}
use nesrotom_run.Operators.{Op, int_op}
use nesrotom_run.Compiler.Tree.{Node, VarInfo, bop, log_not, no_args, numb, un_minus, var}
use nesrotom_run.Compiler.Optimize.{fold, optimize, ◌>>=◌}
use nesrotom_run.Compiler.Optimize.Bop.{int_op-fold}
use nesrotom_run.Compiler.Optimize.Folding.{
  IntExpr, of_numb, of_var, of_bop, of_minus, of_not, eval, optimize-eval,
}

-- The number that a run of the machine ends with, if it ends with one.
unfoldable pub result : Run ℕ → Option ℕ
result (ok n s) = some n
result (fault e) = none

-- The value of an integer expression on the machine `s`: each operator gives what the machine's
-- integer operator gives. `none` is a fault, or a variable without an integer.
unfoldable pub machine_eval : Vm → (VarInfo → Option ℕ) → Node → Option ℕ
machine_eval s ρ (numb n) = some n
machine_eval s ρ (var v no_args) = ρ v
machine_eval s ρ (bop o l r) = do
  a ← machine_eval s ρ l
  b ← machine_eval s ρ r
  result (int_op o a b s)
machine_eval s ρ (un_minus e) = do a ← machine_eval s ρ e; some (neg32 a)
machine_eval s ρ (log_not e) = do a ← machine_eval s ρ e; some (truth (a == 0))
machine_eval s ρ _ = none

result-int_op : (o : Op) (a b : ℕ) (s : Vm) → result (int_op o a b s) ≡ fold o a b
unfolding result
result-int_op o a b s = elim (Option-cases (fold o a b)) [
  | inl e ↦ rw (int_op-fold o a b s, e) refl
  | inr (n, e) ↦ rw (int_op-fold o a b s, e) refl
]

machine_eval-eval :
    {P : VarInfo → Type 0} (s : Vm) (ρ : VarInfo → Option ℕ) {e : Node}
    → IntExpr P e
    → machine_eval s ρ e ≡ eval ρ e
unfolding machine_eval eval
machine_eval-eval s ρ (of_numb n) = refl
machine_eval-eval s ρ (of_var v p) = refl
machine_eval-eval s ρ (of_bop o {l} {r} x y) =
    rw (machine_eval-eval s ρ x, machine_eval-eval s ρ y)
      (elim (Option-cases (eval ρ l)) [
        | inl e ↦ rw e refl
        | inr (a, e) ↦ elim (Option-cases (eval ρ r)) [
          | inl f ↦ rw (e, f) refl
          | inr (b, f) ↦ rw (e, f) (result-int_op o a b s)
        ]
      ])
machine_eval-eval s ρ (of_minus x) = rw (machine_eval-eval s ρ x) refl
machine_eval-eval s ρ (of_not x) = rw (machine_eval-eval s ρ x) refl

-- On an expression of numbers, variables, binary operators, - and !, Optimize, where it ends with a
-- node, ends with an expression of the same kind. On every machine it has the value that the
-- first one has when its operators are the machine's integer operators, a fault included, whatever
-- integers the variables have.
pub optimize-machine_eval :
    {P : VarInfo → Type 0} (m : Vm) (ρ : VarInfo → Option ℕ) {e : Node} (f s : Node)
    → IntExpr P e
    → optimize e ≡ some (f, s)
    → IntExpr P f × (machine_eval m ρ f ≡ machine_eval m ρ e)
optimize-machine_eval m ρ f s a h =
    let (b, v) = optimize-eval ρ f s a h in
    (b, machine_eval-eval m ρ b ∙ v ∙ sym (machine_eval-eval m ρ a))
