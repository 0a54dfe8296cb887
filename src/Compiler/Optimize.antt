-- ===== src/Compiler/Optimize.antt =====
-- The Optimize methods of compiler/strom.cpp.
pub mod Folding
pub mod Numbers
pub mod Bop
pub mod Machine
pub mod Faults
pub mod Switch
use Prim.Native.Nat.{bit_and, bit_or, bit_xor}
use nesrotom_run.Base.{
  ℕ, Bool, true, false, not, ◌&&◌, ◌||◌, Option, none, some, ◌==◌, if◌then◌else◌,
}
use nesrotom_run.State.{Bytes, add32, sub32}
use nesrotom_run.Frame.{int_lt}
use nesrotom_run.Int32.{neg32, mul32, div32, mod32, shl32, shr32, truth, int_le}
use nesrotom_run.Operators.{
  Op, plus, minus, times, divide, modulo, eq, not_eq, less, greater, less_or_eq, greater_or_eq,
  log_or, log_and, bit_or_op, bit_and_op, xor_op, lsh, rsh, error_op,
}
use nesrotom_run.Compiler.Tree.{
  Args, Blocks, Node, Scopes, Statms, arg, array_const, assign, assign_with_bop, block, bop, call,
  case_block, case_of, class_node, class_ref, deleted, else_scope, empty_statm, for_loop, if_else,
  is_null_node, last, log_not, method, more, new_object, nil_const, no_args, no_blocks, no_scopes,
  null_node, numb, number_scope, obj_ref, parent_ref, range_scope, read, return_statm, statm_list,
  symbol_const, text_const, throw, try_catch, un_minus, var, while_do, write,
}

-- What Optimize ends with: the pointer that it returns, and what the pointer that it was called on
-- then points to, a node that is changed in place or one that has deleted itself. `none` is the end of
-- the compiler: an access through NULL or to a deleted node, a trap, or abort.
abbrev pub Optimized : Type 0
Optimized = Option (Node × Node)

-- `return this;`, and `delete this; return n;`
abbrev pub kept : Node → Optimized
kept n = some (n, n)

abbrev pub replaced : Node → Optimized
replaced n = some (n, deleted)

infixl 5 ◌>>=◌
abbrev pub ◌>>=◌ {ℓ κ} : {A : Type ℓ} {B : Type κ} → Option A → (A → Option B) → Option B
none >>= k = none
some a >>= k = k a

-- `dynamic_cast<Numb *>`, on a node that has not been deleted.
abbrev pub number_of : Node → Option ℕ
number_of (numb n) = some n
number_of _ = none

-- `dynamic_cast<Const *>`
abbrev pub is_const : Node → Bool
is_const (numb n) = true
is_const (text_const s) = true
is_const (symbol_const s) = true
is_const (array_const a) = true
is_const nil_const = true
is_const _ = false

-- The switch of Bop::Optimize, on bit patterns.
unfoldable pub fold : Op → ℕ → ℕ → Option ℕ
fold plus a b = some (add32 a b)
fold minus a b = some (sub32 a b)
fold times a b = some (mul32 a b)
fold divide a b = div32 a b
fold modulo a b = mod32 a b
fold eq a b = some (truth (a == b))
fold not_eq a b = some (truth (not (a == b)))
fold less a b = some (truth (int_lt a b))
fold greater a b = some (truth (int_lt b a))
fold less_or_eq a b = some (truth (int_le a b))
fold greater_or_eq a b = some (truth (int_le b a))
fold log_or a b = some (truth (not (a == 0) || not (b == 0)))
fold log_and a b = some (truth (not (a == 0) && not (b == 0)))
fold bit_or_op a b = some (bit_or a b)
fold bit_and_op a b = some (bit_and a b)
fold xor_op a b = some (bit_xor a b)
fold lsh a b = some (shl32 a b)
fold rsh a b = some (shr32 a b)
fold error_op a b = none

-- The rest of Bop::Optimize: an operand is replaced only by a number. Any other result is dropped, and
-- the pointer to the operand is kept.
abbrev pub operand : Node × Node → Node
operand (res, self) = elim (number_of res) [ some n ↦ res | none ↦ self ]

unfoldable pub fold_bop : Op → Node × Node → Node × Node → Optimized
fold_bop o l r = elim (number_of l.0) [
  | some a ↦ elim (number_of r.0) [
    | some b ↦ (do n ← fold o a b; replaced (numb n))
    | none ↦ kept (bop o (operand l) (operand r))
  ]
  | none ↦ kept (bop o (operand l) (operand r))
]

-- UnMinus::Optimize and Not::Optimize, after `expr->Optimize()`: its result is dropped, and the cast
-- of `expr` reads a node that may have been deleted.
unfoldable pub fold_unary : (ℕ → ℕ) → (Node → Node) → (self : Node) → Optimized
fold_unary f node deleted = none
fold_unary f node (numb n) = replaced (numb (f n))
fold_unary f node e = kept (node e)

unfoldable pub fold_if : (cond then_statm else_statm : Node) → Optimized
fold_if c t e = elim (number_of c) [
  | some n ↦ if n == 0 then replaced e else replaced t
  | none ↦ kept (if_else c t e)
]

-- While::Optimize and For::Optimize: a loop whose condition is the number 0 goes, the initialisation
-- of a `for` with it.
unfoldable pub fold_loop : (cond : Node) → (loop : Node) → Optimized
fold_loop c loop = elim (number_of c) [
  | some n ↦ if n == 0 then replaced empty_statm else kept loop
  | none ↦ kept loop
]

unfoldable pub fold_class_ref : (name : Bytes) → (target : Node) → Optimized
fold_class_ref name t = if is_const t then replaced t else kept (class_ref name t)

-- Does a scope of the list match the number?
unfoldable pub matches : ℕ → Scopes → Bool
matches n no_scopes = false
matches n (else_scope next) = true
matches n (number_scope e next) = elim (number_of e) [
  | some m ↦ if n == m then true else matches n next
  | none ↦ matches n next
]
matches n (range_scope lo hi next) = if int_le lo n && int_le n hi then true else matches n next

-- The scope before the present one in the loop of Case::Optimize: there is none, it is in the list, or
-- it has been taken out at the front of the list.
pub data Previous : Type 0 where
  first in_list unlinked : Previous

-- A range of one number becomes this number, and an empty range is taken out; one that follows an
-- empty range at the front of the list is unlinked from that one, and stays.
unfoldable pub simplify : Previous → Scopes → Scopes
simplify p no_scopes = no_scopes
simplify p (else_scope next) = else_scope (simplify in_list next)
simplify p (number_scope e next) = number_scope e (simplify in_list next)
simplify p (range_scope lo hi next) =
    if lo == hi
    then number_scope (numb lo) (simplify in_list next)
    else if int_lt hi lo
    then elim p [
      | first ↦ simplify unlinked next
      | in_list ↦ simplify in_list next
      | unlinked ↦ range_scope lo hi (simplify unlinked next)
    ]
    else range_scope lo hi (simplify in_list next)

-- The block that is chosen, and the blocks with it.
abbrev pub Chosen : Type 0
Chosen = Option (Node × Blocks)

abbrev pub with_block : (statm : Node) → Scopes → Chosen → Chosen
with_block s ss none = none
with_block s ss (some (b, rest)) = some (b, block s ss rest)

unfoldable mutual
  pub optimize : Node → Optimized
  optimize null_node = none
  optimize deleted = none
  optimize (var v offset) = do o ← optimize_args offset; kept (var v o)
  optimize (call m args external target void_call) = do
    a ← optimize_args args
    kept (call m a external target void_call)
  optimize (class_ref name target) =
      if is_null_node target
      then kept (class_ref name target)
      else (do t ← optimize target; fold_class_ref name t.0)
  optimize (obj_ref v offset target) = do
    t ← optimize target
    o ← optimize_args offset
    kept (obj_ref v o t.0)
  optimize (parent_ref par target) = do t ← optimize target; kept (parent_ref par t.0)
  optimize (new_object c args) = do a ← optimize_args args; kept (new_object c a)
  optimize (bop o l r) = do l ← optimize l; r ← optimize r; fold_bop o l r
  optimize (un_minus e) = do e ← optimize e; fold_unary neg32 un_minus e.1
  optimize (log_not e) = do e ← optimize e; fold_unary (λ n. truth (n == 0)) log_not e.1
  optimize (assign v e) = do e ← optimize e; kept (assign v e.0)
  optimize (assign_with_bop o v e) = do e ← optimize e; kept (assign_with_bop o v e.0)
  optimize (write e) = do e ← optimize e; kept (write e.0)
  optimize (read v) = do v ← optimize v; kept (read v.0)
  optimize (if_else c t e) = do
    c ← optimize c
    t ← optimize t
    e ← if is_null_node e then kept e else optimize e
    fold_if c.0 t.0 e.0
  optimize (while_do c b) = do c ← optimize c; b ← optimize b; fold_loop c.0 (while_do c.0 b.0)
  optimize (for_loop i c k b) = do
    c ← optimize c
    b ← optimize b
    fold_loop c.0 (for_loop i c.0 k b.0)
  optimize (try_catch t c m) = do t ← optimize t; c ← optimize c; kept (try_catch t.0 c.0 m)
  optimize (throw e) = do e ← optimize e; kept (throw e.0)
  optimize (statm_list l) = do l ← optimize_statms l; kept (statm_list l)
  optimize (case_of e blocks) = do
    e ← optimize e
    elim (number_of e.0) [
      | some n ↦ (do
        c ← choose n blocks
        elim c [ none ↦ replaced empty_statm | some (b, rest) ↦ some (b, case_of e.0 rest) ])
      | none ↦ (do b ← optimize_blocks blocks; kept (case_of e.0 b))
    ]
  optimize (case_block statm ss) =
      if is_null_node statm
      then kept (case_block statm ss)
      else (do s ← optimize statm; kept (case_block s.1 ss))
  optimize (method is_constructor m body) = do
    b ← optimize_statms body
    kept (method is_constructor m b)
  optimize (class_node stm) =
      if is_null_node stm
      then kept (class_node stm)
      else (do s ← optimize stm; kept (class_node s.0))
  optimize (return_statm e) = do e ← optimize e; kept (return_statm e.0)
  optimize n = kept n

  optimize_args : Args → Option Args
  optimize_args no_args = some no_args
  optimize_args (arg a next) = do a ← optimize a; n ← optimize_args next; some (arg a.0 n)

  optimize_statms : Statms → Option Statms
  optimize_statms (last n) = do n ← optimize n; some (last n.0)
  optimize_statms (more n next) = do n ← optimize n; m ← optimize_statms next; some (more n.0 m)

  -- The first block with a scope that matches the number, its statement optimised.
  choose : ℕ → Blocks → Option Chosen
  choose n no_blocks = some none
  choose n (block statm ss next) =
      if matches n ss
      then (do s ← optimize statm; some (some (case_block s.0 ss, block s.0 ss next)))
      else (do c ← choose n next; some (with_block statm ss c))

  -- All blocks; one without a statement is left as it is.
  optimize_blocks : Blocks → Option Blocks
  optimize_blocks no_blocks = some no_blocks
  optimize_blocks (block statm ss next) =
      let rest = optimize_blocks next in
      if is_null_node statm
      then (do n ← rest; some (block statm ss n))
      else (do s ← optimize statm; n ← rest; some (block s.0 (simplify first ss) n))
