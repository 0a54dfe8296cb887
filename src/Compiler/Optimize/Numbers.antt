-- ===== src/Compiler/Optimize/Numbers.antt =====
-- Expressions of numbers and binary operators under Optimize (compiler/strom.cpp).
use nesrotom_run.Base.{ℕ, ◌≡◌, ap, inl, inr, Option, none, some, arith, Option-cases}
use nesrotom_run.Operators.{Op}
use nesrotom_run.Compiler.Tree.{Node, VarInfo, bop, deleted, numb}
use nesrotom_run.Compiler.Optimize.{Optimized, fold_bop, optimize}
use nesrotom_run.Compiler.Optimize.Folding.{eval}

-- Expressions of numbers and binary operators only.
pub data Sum : Node → Type 0 where
  number : (n : ℕ) → Sum (numb n)
  operation : (o : Op) {l r : Node} → Sum l → Sum r → Sum (bop o l r)

abbrev kept_as : ℕ → ℕ → Optimized
kept_as n m = some (numb m, numb n)

pub optimize-parts :
    (ρ : VarInfo → Option ℕ) {e : Node}
    → Sum e
    → ((n : ℕ) → eval ρ e ≡ some n → (s : Node) × (optimize e ≡ some (numb n, s)))
      × (eval ρ e ≡ none → optimize e ≡ none)
unfolding optimize eval fold_bop
optimize-parts ρ (number n) =
    (λ m h. (numb n, ap (λ k. kept_as n k) (ground (arith, h))), λ h. absurd (ground (arith, h)))
optimize-parts ρ (operation o {l} {r} a b) =
    let (p, p') = optimize-parts ρ a in
    let (q, q') = optimize-parts ρ b in
    elim (Option-cases (eval ρ l)) [
      | inl e ↦ (λ n h. absurd (ground (arith, e, h)), λ h. ground (arith, p' e))
      | inr (x, e) ↦ elim (Option-cases (eval ρ r)) [
        | inl f ↦ (
          λ n h. absurd (ground (arith, e, f, h)),
          λ h. let (_, k) = p x e in ground (arith, k, q' f),
        )
        | inr (y, f) ↦
            (let (_, k) = p x e in
              let (_, m) = q y f in
              (λ n h. (deleted, ground (arith, e, f, h, k, m)), λ h. ground (arith, e, f, h, k, m)))
      ]
    ]
