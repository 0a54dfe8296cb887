-- ===== src/Compiler/Optimize/Folding.antt =====
-- Integer expressions: their values, by the operators that Optimize (compiler/strom.cpp) folds.
use nesrotom_run.Base.{
  ℕ, ◌≡◌, ◌∙◌, ◌⊎◌, refl, sym, ap, subst, inl, inr, Option, none, some, arith, ◌==◌, Option-cases,
}
use nesrotom_run.Int32.{neg32, truth}
use nesrotom_run.Operators.{Op}
use nesrotom_run.Compiler.Tree.{Node, VarInfo, bop, deleted, log_not, no_args, numb, un_minus, var}
use nesrotom_run.Compiler.Optimize.{
  fold, fold_bop, fold_unary, kept, number_of, operand, optimize, ◌>>=◌,
}

-- Expressions of numbers, variables without an index and with the property `P`, and operators.
pub data IntExpr (P : VarInfo → Type 0) : Node → Type 0 where
  of_numb : (n : ℕ) → IntExpr P (numb n)
  of_var : (v : VarInfo) → P v → IntExpr P (var v no_args)
  of_bop : (o : Op) {l r : Node} → IntExpr P l → IntExpr P r → IntExpr P (bop o l r)
  of_minus : {e : Node} → IntExpr P e → IntExpr P (un_minus e)
  of_not : {e : Node} → IntExpr P e → IntExpr P (log_not e)

-- Their value where the variables have the integers `ρ`; `none` is a trap, or a variable that has none.
unfoldable pub eval : (VarInfo → Option ℕ) → Node → Option ℕ
eval ρ (numb n) = some n
eval ρ (var v no_args) = ρ v
eval ρ (bop o l r) = do a ← eval ρ l; b ← eval ρ r; fold o a b
eval ρ (un_minus e) = do a ← eval ρ e; some (neg32 a)
eval ρ (log_not e) = do a ← eval ρ e; some (truth (a == 0))
eval ρ _ = none

some-inj : {a b : Node × Node} → some a ≡ some b → a ≡ b
some-inj h = ground (arith, h)

-- The two pointers that Optimize leaves: one node, or a number in place of a deleted one.
data Leaves (P : VarInfo → Type 0) : Node → Node → Type 0 where
  same : {e : Node} → IntExpr P e → Leaves P e e
  folded : (n : ℕ) → Leaves P (numb n) deleted

Leaves-IntExpr : {P : VarInfo → Type 0} {e s : Node} → Leaves P e s → IntExpr P e
Leaves-IntExpr (same h) = h
Leaves-IntExpr (folded n) = of_numb n

-- An operand, as Bop::Optimize keeps it.
operand-Leaves :
    {P : VarInfo → Type 0} {e s : Node} (ρ : VarInfo → Option ℕ)
    → Leaves P e s
    → IntExpr P (operand (e, s)) × (operand (e, s) ≡ e)
operand-Leaves ρ (same (of_numb n)) = (of_numb n, refl)
operand-Leaves ρ (same (of_var v z)) = (of_var v z, refl)
operand-Leaves ρ (same (of_bop o a b)) = (of_bop o a b, refl)
operand-Leaves ρ (same (of_minus a)) = (of_minus a, refl)
operand-Leaves ρ (same (of_not a)) = (of_not a, refl)
operand-Leaves ρ (folded n) = (of_numb n, refl)

number_of-numb :
    {P : VarInfo → Type 0} {e : Node} {n : ℕ} → IntExpr P e → number_of e ≡ some n → e ≡ numb n
number_of-numb (of_numb m) h = ground (arith, h)
number_of-numb (of_var v z) h = absurd (ground (arith, h))
number_of-numb (of_bop o a b) h = absurd (ground (arith, h))
number_of-numb (of_minus a) h = absurd (ground (arith, h))
number_of-numb (of_not a) h = absurd (ground (arith, h))

-- The value of an operator on two nodes.
abbrev of_two : (VarInfo → Option ℕ) → Op → Node → Node → Option ℕ
of_two ρ o l r = do a ← eval ρ l; b ← eval ρ r; fold o a b

fold_bop-numbers :
    {P : VarInfo → Type 0} (ρ : VarInfo → Option ℕ) (o : Op) (a b : ℕ) (ls rs : Node)
    (r : Node × Node)
    → fold_bop o (numb a, ls) (numb b, rs) ≡ some r
    → Leaves P r.0 r.1 × (eval ρ r.0 ≡ fold o a b)
unfolding fold_bop eval
fold_bop-numbers {P} ρ o a b ls rs r h = elim (Option-cases (fold o a b)) [
  | inl e ↦ absurd (ground (arith, h, e))
  | inr (n, e) ↦
      let k : r ≡ (numb n, deleted) = ground (arith, h, e) in
      subst (λ q. Leaves P q.0 q.1 × (eval ρ q.0 ≡ fold o a b)) (sym k) (folded n, sym e)
]

fold_bop-kept :
    (o : Op) (l m : Node × Node)
    → (number_of l.0 ≡ none) ⊎ (number_of m.0 ≡ none)
    → fold_bop o l m ≡ kept (bop o (operand l) (operand m))
unfolding fold_bop
fold_bop-kept o l m (inl e) = ground (arith, e)
fold_bop-kept o l m (inr e) = elim (Option-cases (number_of l.0)) [
  | inl f ↦ ground (arith, f)
  | inr (n, f) ↦ ground (arith, f, e)
]

fold_bop-open :
    {P : VarInfo → Type 0} (ρ : VarInfo → Option ℕ) (o : Op) {l ls m ms : Node} (r : Node × Node)
    → Leaves P l ls
    → Leaves P m ms
    → (number_of l ≡ none) ⊎ (number_of m ≡ none)
    → fold_bop o (l, ls) (m, ms) ≡ some r
    → Leaves P r.0 r.1 × (eval ρ r.0 ≡ of_two ρ o l m)
unfolding eval
fold_bop-open {P} ρ o {l} {ls} {m} {ms} r a b c h =
    let k : kept (bop o l m) ≡ some r =
      ap kept (
        ap (λ x. bop o x m) (sym (operand-Leaves ρ a).1)
        ∙ ap (bop o (operand (l, ls))) (sym (operand-Leaves ρ b).1))
      ∙ sym (fold_bop-kept o (l, ls) (m, ms) c)
      ∙ h in
    let q : (bop o l m, bop o l m) ≡ r = some-inj k in
    subst (λ r. Leaves P r.0 r.1 × (eval ρ r.0 ≡ of_two ρ o l m)) q
      (same (of_bop o (Leaves-IntExpr a) (Leaves-IntExpr b)), refl)

fold_bop-Good :
    {P : VarInfo → Type 0} (ρ : VarInfo → Option ℕ) (o : Op) {l ls m ms : Node} (r : Node × Node)
    → Leaves P l ls
    → Leaves P m ms
    → fold_bop o (l, ls) (m, ms) ≡ some r
    → Leaves P r.0 r.1 × (eval ρ r.0 ≡ of_two ρ o l m)
unfolding eval
fold_bop-Good ρ o {l} {ls} {m} {ms} r a b h = elim (Option-cases (number_of l)) [
  | inl e ↦ fold_bop-open ρ o r a b (inl e) h
  | inr (x, e) ↦ elim (Option-cases (number_of m)) [
    | inl f ↦ fold_bop-open ρ o r a b (inr f) h
    | inr (y, f) ↦
        let p = number_of-numb (Leaves-IntExpr a) e in
        let q = number_of-numb (Leaves-IntExpr b) f in
        let t : fold_bop o (numb x, ls) (numb y, ms) ≡ some r = rw (sym p, sym q) h in
        let (u, v) = fold_bop-numbers ρ o x y ls ms r t in (u, rw (p, q) v)
  ]
]

fold_unary-kept :
    {P : VarInfo → Type 0} (f : ℕ → ℕ) (node : Node → Node) {e : Node}
    → IntExpr P e
    → number_of e ≡ none
    → fold_unary f node e ≡ kept (node e)
unfolding fold_unary
fold_unary-kept f node (of_numb n) h = absurd (ground (arith, h))
fold_unary-kept f node (of_var v z) h = refl
fold_unary-kept f node (of_bop o a b) h = refl
fold_unary-kept f node (of_minus a) h = refl
fold_unary-kept f node (of_not a) h = refl

-- The value of a unary operator on a node.
abbrev of_one : (VarInfo → Option ℕ) → (ℕ → ℕ) → Node → Option ℕ
of_one ρ f e = do a ← eval ρ e; some (f a)

fold_unary-number :
    {P : VarInfo → Type 0} (ρ : VarInfo → Option ℕ) (f : ℕ → ℕ) (node : Node → Node) (n : ℕ)
    (r : Node × Node)
    → fold_unary f node (numb n) ≡ some r
    → Leaves P r.0 r.1 × (eval ρ r.0 ≡ some (f n))
unfolding fold_unary eval
fold_unary-number {P} ρ f node n r h =
    subst (λ r. Leaves P r.0 r.1 × (eval ρ r.0 ≡ some (f n))) (some-inj h) (folded (f n), refl)

fold_unary-deleted :
    (f : ℕ → ℕ) (node : Node → Node) (r : Node × Node) → fold_unary f node deleted ≡ some r → ⊥
unfolding fold_unary
fold_unary-deleted f node r h = ground (arith, h)

fold_unary-Good :
    {P : VarInfo → Type 0} (ρ : VarInfo → Option ℕ) (f : ℕ → ℕ) (node : Node → Node) {e s : Node}
    (r : Node × Node)
    → IntExpr P (node e)
    → eval ρ (node e) ≡ of_one ρ f e
    → Leaves P e s
    → fold_unary f node s ≡ some r
    → Leaves P r.0 r.1 × (eval ρ r.0 ≡ of_one ρ f e)
unfolding eval
fold_unary-Good {P} ρ f node {e} r k v (same a) h = elim (Option-cases (number_of e)) [
  | inl g ↦
      subst (λ r. Leaves P r.0 r.1 × (eval ρ r.0 ≡ of_one ρ f e))
        (some-inj (sym (fold_unary-kept f node a g) ∙ h)) (same k, v)
  | inr (n, g) ↦
      let p = number_of-numb a g in
      let q : fold_unary f node (numb n) ≡ some r = rw (sym p) h in
      rw p (fold_unary-number ρ f node n r q)
]
fold_unary-Good {P} ρ f node r k v (folded n) h = absurd (fold_unary-deleted f node r h)

-- A result that comes from the result on an operand.
from_one :
    {A B : Type 0} (o : Option A) (k : A → Option B) (r : B)
    → (o >>= k) ≡ some r
    → (a : A) × (o ≡ some a) × (k a ≡ some r)
from_one none k r h = absurd (ground (arith, h))
from_one (some a) k r h = (a, refl, h)

optimize-Good :
    {P : VarInfo → Type 0} (ρ : VarInfo → Option ℕ) {e : Node} (r : Node × Node)
    → IntExpr P e
    → optimize e ≡ some r
    → Leaves P r.0 r.1 × (eval ρ r.0 ≡ eval ρ e)
unfolding optimize eval
optimize-Good {P} ρ r (of_numb n) h =
    subst (λ r. Leaves P r.0 r.1 × (eval ρ r.0 ≡ some n)) (some-inj h) (same (of_numb n), refl)
optimize-Good {P} ρ r (of_var v z) h =
    subst (λ r. Leaves P r.0 r.1 × (eval ρ r.0 ≡ ρ v)) (some-inj h) (same (of_var v z), refl)
optimize-Good {P} ρ r (of_bop o {l} {r = m} a b) h =
    let (x, p, h) = from_one (optimize l) _ r h in
    let (y, q, h) = from_one (optimize m) _ r h in
    let (u, i) = optimize-Good ρ x a p in
    let (v, j) = optimize-Good ρ y b q in
    let (w, k) = fold_bop-Good ρ o r u v h in (w, rw (sym i, sym j) k)
optimize-Good {P} ρ r (of_minus {e} a) h =
    let (x, p, h) = from_one (optimize e) _ r h in
    let (u, i) = optimize-Good ρ x a p in
    let (w, k) = fold_unary-Good ρ neg32 un_minus r (of_minus (Leaves-IntExpr u)) refl u h in
    (w, rw (sym i) k)
optimize-Good {P} ρ r (of_not {e} a) h =
    let (x, p, h) = from_one (optimize e) _ r h in
    let (u, i) = optimize-Good ρ x a p in
    let (w, k) =
      fold_unary-Good ρ (λ n. truth (n == 0)) log_not r (of_not (Leaves-IntExpr u)) refl u h in
    (w, rw (sym i) k)

-- The expression that Optimize leaves has the value of the first one, by the operators it folds.
pub optimize-eval :
    {P : VarInfo → Type 0} (ρ : VarInfo → Option ℕ) {e : Node} (f s : Node)
    → IntExpr P e
    → optimize e ≡ some (f, s)
    → IntExpr P f × (eval ρ f ≡ eval ρ e)
optimize-eval ρ f s a h = let (u, i) = optimize-Good ρ (f, s) a h in (Leaves-IntExpr u, i)
