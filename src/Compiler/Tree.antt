-- ===== src/Compiler/Tree.antt =====
-- The syntax tree of compiler/strom.h: one constructor for each class of nodes.
use nesrotom_run.Base.{ℕ, suc, Bool, true, false}
use nesrotom_run.State.{Bytes}
use nesrotom_run.Operators.{
  Op, plus, minus, times, divide, modulo, eq, not_eq, less, greater, less_or_eq, greater_or_eq,
  log_or, log_and, bit_or_op, bit_and_op, xor_op, lsh, rsh, error_op,
}

-- The byte of an operator. The compiler's `Operator` has the enumerators of the machine's `op_t`.
unfoldable pub op_code : Op → ℕ
op_code plus = 0
op_code minus = 1
op_code times = 2
op_code divide = 3
op_code modulo = 4
op_code eq = 5
op_code not_eq = 6
op_code less = 7
op_code greater = 8
op_code less_or_eq = 9
op_code greater_or_eq = 10
op_code log_or = 11
op_code log_and = 12
op_code bit_or_op = 13
op_code bit_and_op = 14
op_code xor_op = 15
op_code lsh = 16
op_code rsh = 17
op_code error_op = 18

-- `Scope`, compiler/tabsym.h
pub data Scope : Type 0 where
  sc_local sc_arg sc_instance sc_class sc_exobj : Scope

-- The members of `Var` but its offset; `addr` is a bit pattern.
pub record VarInfo : Type 0 where
  pub name : Bytes
  pub addr : ℕ
  pub rvalue : Bool
  pub sc : Scope
  pub external : Bool
  pub unknown_class : Bool

-- `Node *`: `null_node` is NULL, `deleted` a pointer to a node that has been deleted. An int is a bit
-- pattern, and a method's `MethodEnv` is known by its number. A `case_block` is
-- the block that Case::Optimize has chosen; its `next` is not followed any more.
mutual
  pub data Node : Type 0 where
    null_node deleted : Node
    var : VarInfo → Args → Node
    call : (method : Node) (args : Args) (external : Bool) (target : Node) (void_call : Bool) → Node
    class_ref : (name : Bytes) (target : Node) → Node
    obj_ref : VarInfo → Args → (target : Node) → Node
    self_ref : Node
    parent_ref : (par_name : Bytes) (target : Node) → Node
    method_ref : (name : Bytes) → Node
    new_object : (constructor : Bytes) → Args → Node
    numb : ℕ → Node
    text_const : Bytes → Node
    symbol_const : Bytes → Node
    array_const : Args → Node
    nil_const : Node
    bop : Op → Node → Node → Node
    un_minus : Node → Node
    log_not : Node → Node
    assign : Node → Node → Node
    assign_with_bop : Op → Node → Node → Node
    write : Node → Node
    read : Node → Node
    if_else : (cond then_statm else_statm : Node) → Node
    while_do : (cond body : Node) → Node
    for_loop : (init cond counter body : Node) → Node
    try_catch : (try_block catch_block : Node) (mth_env : ℕ) → Node
    throw : Node → Node
    statm_list : Statms → Node
    break_statm : Node
    empty_statm : Node
    case_of : Node → Blocks → Node
    case_block : (statm : Node) → Scopes → Node
    method : (is_constructor : Bool) (mth_env : ℕ) → Statms → Node
    class_node : (stm : Node) → Node
    return_statm : Node → Node

  -- `ArgList *`, also the offsets of a variable and the elements of an array
  pub data Args : Type 0 where
    no_args : Args
    arg : Node → Args → Args

  -- `StatmList`, which has at least one element; also `ClassList`
  pub data Statms : Type 0 where
    last : Node → Statms
    more : Node → Statms → Statms

  -- `CaseBlock *`
  pub data Blocks : Type 0 where
    no_blocks : Blocks
    block : (statm : Node) → Scopes → Blocks → Blocks

  -- `CaseBlockScope *`, of type 0, 1 and 2; the ends of a range are the values of its numbers.
  pub data Scopes : Type 0 where
    no_scopes : Scopes
    else_scope : Scopes → Scopes
    number_scope : (eq : Node) → Scopes → Scopes
    range_scope : (lo hi : ℕ) → Scopes → Scopes

-- ArgList::Count
unfoldable pub count : Args → ℕ
count no_args = 0
count (arg a next) = suc (count next)

abbrev pub is_null_node : Node → Bool
is_null_node null_node = true
is_null_node _ = false
