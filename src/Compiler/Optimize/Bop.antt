-- ===== src/Compiler/Optimize/Bop.antt =====
-- Bop::Optimize of compiler/strom.cpp and the machine's BOP, bc_bop of vm/vm.c.
use nesrotom_run.Base.{ℕ, ◌≡◌, ◌∙◌, refl, inl, inr, none, some, Option-cases}
use nesrotom_run.State.{Value, Vm, Fault, vm_error, arithmetic_trap, fault, from_option}
use nesrotom_run.State.Memory.{make_integer}
use nesrotom_run.Operators.{
  Op, plus, minus, times, divide, modulo, eq, not_eq, less, greater, less_or_eq, greater_or_eq,
  log_or, log_and, bit_or_op, bit_and_op, xor_op, lsh, rsh, error_op, int_op, bc_bop,
}
use nesrotom_run.Operators.Laws.{HasInt, bc_bop-HasInt}
use nesrotom_run.Compiler.Optimize.{fold}

-- How the machine stops where nothing can be folded.
abbrev pub failure : Op → Fault
failure error_op = vm_error
failure _ = arithmetic_trap

pub int_op-fold :
    (o : Op) (x y : ℕ) (s : Vm) → int_op o x y s ≡ from_option (fold o x y) (failure o) s
unfolding fold int_op
int_op-fold plus x y s = refl
int_op-fold minus x y s = refl
int_op-fold times x y s = refl
int_op-fold divide x y s = refl
int_op-fold modulo x y s = refl
int_op-fold eq x y s = refl
int_op-fold not_eq x y s = refl
int_op-fold less x y s = refl
int_op-fold greater x y s = refl
int_op-fold less_or_eq x y s = refl
int_op-fold greater_or_eq x y s = refl
int_op-fold log_or x y s = refl
int_op-fold log_and x y s = refl
int_op-fold bit_or_op x y s = refl
int_op-fold bit_and_op x y s = refl
int_op-fold xor_op x y s = refl
int_op-fold lsh x y s = refl
int_op-fold rsh x y s = refl
int_op-fold error_op x y s = refl

-- The operator that the compiler folds is the one that the machine's BOP computes: on two values that
-- hold integers, in the word or as objects, BOP makes the integer of the folded number, and where the
-- compiler ends instead, the machine stops, with the trap of the division or with an error.
pub bc_bop-fold :
    (o : Op) {v w : Value} {x y : ℕ} {s : Vm}
    → HasInt v x s
    → HasInt w y s
    → bc_bop o v w s ≡ elim (fold o x y) [ some n ↦ make_integer n s | none ↦ fault (failure o) ]
bc_bop-fold o {x} {y} {s} a b = elim (Option-cases (fold o x y)) [
  | inl e ↦ bc_bop-HasInt o a b ∙ rw (int_op-fold o x y s, e) refl
  | inr (n, e) ↦ bc_bop-HasInt o a b ∙ rw (int_op-fold o x y s, e) refl
]
