-- ===== src/Compiler/Optimize/Faults.antt =====
-- Optimize of compiler/strom.cpp on unary operators, conditions and loops with constant operands.
use nesrotom_run.Base.{
  ℕ, ◌≡◌, refl, inl, inr, Option, none, some, arith, ◌==◌, if◌then◌else◌, Bool-cases, Option-cases,
}
use nesrotom_run.Operators.{Op}
use nesrotom_run.Compiler.Tree.{
  Node, VarInfo, bop, deleted, empty_statm, for_loop, if_else, log_not, null_node, numb, un_minus,
  while_do,
}
use nesrotom_run.Compiler.Emit.{Bcout}
use nesrotom_run.Compiler.Translate.{translate}
use nesrotom_run.Compiler.Optimize.{fold_bop, fold_if, fold_loop, fold_unary, optimize}
use nesrotom_run.Compiler.Optimize.Folding.{eval}
use nesrotom_run.Compiler.Optimize.Numbers.{Sum, optimize-parts}

-- A binary operation on numbers that is folded deletes its own node.
optimize-operation :
    (ρ : VarInfo → Option ℕ) (o : Op) {l r : Node} (n : ℕ)
    → Sum l
    → Sum r
    → eval ρ (bop o l r) ≡ some n
    → optimize (bop o l r) ≡ some (numb n, deleted)
unfolding optimize eval fold_bop
optimize-operation ρ o {l} {r} n a b h = elim (Option-cases (eval ρ l)) [
  | inl e ↦ absurd (ground (arith, e, h))
  | inr (x, e) ↦ elim (Option-cases (eval ρ r)) [
    | inl f ↦ absurd (ground (arith, e, f, h))
    | inr (y, f) ↦
        let (_, p) = (optimize-parts ρ a).0 x e in
        let (_, q) = (optimize-parts ρ b).0 y f in ground (arith, e, f, h, p, q)
  ]
]

-- The negation `-` and the negation `!` of an operation on numbers that has a value are the end of the
-- compiler: it drops the pointer to the folded number and reads the node that was deleted.
pub optimize-unary_deleted :
    (ρ : VarInfo → Option ℕ) (o : Op) {l r : Node} (n : ℕ)
    → Sum l
    → Sum r
    → eval ρ (bop o l r) ≡ some n
    → (optimize (un_minus (bop o l r)) ≡ none) × (optimize (log_not (bop o l r)) ≡ none)
unfolding optimize fold_unary
optimize-unary_deleted ρ o n a b h =
    let k = optimize-operation ρ o n a b h in (rw k refl, rw k refl)

-- An `if` without `else` whose condition is made of numbers and binary operators and has the value n by
-- the operators that Optimize folds, and whose statement is optimised to a node: Optimize leaves the null pointer in place of the `if`
-- when n is 0, and the optimised statement when it is not.
pub optimize-if_constant :
    (ρ : VarInfo → Option ℕ) (n : ℕ) {c : Node} (t t' s : Node)
    → Sum c
    → eval ρ c ≡ some n
    → optimize t ≡ some (t', s)
    → optimize (if_else c t null_node) ≡ some (if n == 0 then null_node else t', deleted)
unfolding optimize fold_if
optimize-if_constant ρ n t t' s a e h =
    let (_, k) = (optimize-parts ρ a).0 n e in
    elim (Bool-cases (n == 0)) [ inl z ↦ ground (arith, k, h, z) | inr z ↦ ground (arith, k, h, z) ]

-- A `for` whose condition has the value 0 becomes the empty statement, which translates to nothing: its
-- initialisation goes, too. A `while` is treated alike.
pub optimize-for_drops_init :
    (ρ : VarInfo → Option ℕ) (init counter : Node) {c : Node} (b b' s : Node) (o : Bcout)
    → Sum c
    → eval ρ c ≡ some 0
    → optimize b ≡ some (b', s)
    → (optimize (for_loop init c counter b) ≡ some (empty_statm, deleted))
      × (optimize (while_do c b) ≡ some (empty_statm, deleted))
      × (translate empty_statm o ≡ some (0, o))
unfolding optimize fold_loop translate
optimize-for_drops_init ρ init counter b b' s o a e h =
    let (_, k) = (optimize-parts ρ a).0 0 e in (ground (arith, k, h), ground (arith, k, h), refl)
