-- ===== src/Compiler/Tests.antt =====
-- Runs of the compiler's parts at concrete inputs.
use nesrotom_run.Base.{
  replicate, ◌++◌, ℕ, ◌+◌, ◌^◌, ◌<◌, ◌≡◌, refl, ap, subst, inl, inr, ==→eq, Bool-cases, true, false,
  Option, none, some, [], ◌∷◌, get_elem?, arith, ◌==◌, if◌then◌else◌,
}
use nesrotom_run.State.{Native, small, int, Vm, add32, vm_error, Cmd, stop, fault}
use nesrotom_run.State.Memory.{make_integer, int_object}
use nesrotom_run.State.Samples.{empty_vm}
use nesrotom_run.Int32.{mul32}
use nesrotom_run.Operators.{plus, times, divide, bc_bop}
use nesrotom_run.Operators.Laws.{HasInt, inline}
use nesrotom_run.Compiler.Lexan.{codes, Input, numb}
use nesrotom_run.Compiler.Tree.{
  Node, Scopes, VarInfo, bop, break_statm, deleted, if_else, log_not, no_args, no_scopes, null_node,
  numb, op_code, range_scope, sc_local, un_minus, var, while_do,
}
use nesrotom_run.Compiler.Emit.{
  Bcout, MethodEnv, bco_fix_forward_jmpw, bco_get_ip, bco_int, bco_resolve_break, bco_w16, bco_w8,
  bco_w8_labeled, bco_wb1, bco_ww1, bco_ww1_labeled, bcout_init, ct_malloc, find_item, fixed,
  int_item, item_at, nil_item, no_label, resolve_at, resolve_from,
}
use nesrotom_run.Compiler.Emit.Constants.{IsTable}
use nesrotom_run.Compiler.Optimize.{fold, fold_bop, optimize, matches, simplify, first}
use nesrotom_run.Compiler.Optimize.Switch.{matches-simplify}
use nesrotom_run.Compiler.Optimize.Folding.{IntExpr, of_numb, of_var, of_bop, eval}
use nesrotom_run.Compiler.Optimize.Machine.{machine_eval, optimize-machine_eval}
use nesrotom_run.Compiler.Optimize.Numbers.{Sum, number, operation}
use nesrotom_run.Compiler.Optimize.Bop.{bc_bop-fold, failure}
use nesrotom_run.Compiler.Optimize.Faults.{optimize-unary_deleted, optimize-if_constant}
use nesrotom_run.Compiler.Translate.{translate, address}
use nesrotom_run.Compiler.Translate.Code.{IsLocal, Translates, translate-CodeOf}
use nesrotom_run.Compiler.Translate.Machine.{Known}
use nesrotom_run.Compiler.Translate.Run.{At, Ready, Computed}
use nesrotom_run.Compiler.Translate.Prefix.{Keeps}
use nesrotom_run.Compiler.Translate.Appends.{translate-Keeps}
use nesrotom_run.Compiler.Translate.Correct.{compile-run}

-- A string with a backslash in it.
abbrev quoted_text : Input
quoted_text = codes " \"a\\n\";"

-- `2 * 3 + x`, with a local variable whose value is 7.
abbrev local_x : VarInfo
local_x = record {
  name = codes "x";
  addr = 0;
  rvalue = true;
  sc = sc_local;
  external = false;
  unknown_class = false;
}

abbrev two_three : Node
two_three = bop times (numb 2) (numb 3)

abbrev sample_expr : Node
sample_expr = bop plus two_three (var local_x no_args)

sample_expr-IntExpr : IntExpr IsLocal sample_expr
sample_expr-IntExpr =
    of_bop plus (of_bop times (of_numb 2) (of_numb 3)) (of_var local_x (refl, refl, omega arith))

abbrev seven : VarInfo → Option ℕ
seven v = if v.addr == 0 then some 7 else none

abbrev no_envs : ℕ → MethodEnv
no_envs m = record {
  bc_entrypoint = 0;
  exception_info_idx = 0;
  try_block_cnt = 0;
  has_exobjs = false;
}

abbrev at_start : Bcout
at_start = bcout_init no_envs

at_start-IsTable : IsTable at_start
at_start-IsTable = (omega arith, omega arith)

abbrev folded_expr : Node
folded_expr = bop plus (numb 6) (var local_x no_args)

optimize-machine_eval_example :
    IntExpr IsLocal folded_expr
    × (machine_eval empty_vm seven folded_expr ≡ machine_eval empty_vm seven sample_expr)
unfolding optimize fold_bop fold mul32
optimize-machine_eval_example =
    optimize-machine_eval empty_vm seven folded_expr folded_expr sample_expr-IntExpr refl

two_three-Sum : Sum two_three
two_three-Sum = operation times (number 2) (number 3)

bc_bop-fold_example :
    bc_bop divide (small 7) (small 0) empty_vm
    ≡ elim (fold divide 7 0) [ some n ↦ make_integer n empty_vm | none ↦ fault (failure divide) ]
bc_bop-fold_example = bc_bop-fold divide (inline (omega arith)) (inline (omega arith))

optimize-unary_deleted_example :
    (optimize (un_minus two_three) ≡ none) × (optimize (log_not two_three) ≡ none)
unfolding eval fold mul32
optimize-unary_deleted_example = optimize-unary_deleted seven times 6 (number 2) (number 3) refl

optimize-if_constant_example :
    optimize (if_else (numb 0) break_statm null_node)
    ≡ some (if 0 == 0 then null_node else break_statm, deleted)
unfolding eval optimize
optimize-if_constant_example =
    optimize-if_constant seven 0 break_statm break_statm break_statm (number 0) refl refl

translate-CodeOf_example : Translates sample_expr at_start
translate-CodeOf_example = translate-CodeOf at_start sample_expr-IntExpr at_start-IsTable

-- What the compiler has written for the folded expression, and a machine with it.
abbrev compiled : Bcout
compiled = record {
  bc_arr = 17 ∷ 24 ∷ 0 ∷ 19 ∷ 0 ∷ 0 ∷ 1 ∷ 0 ∷ [];
  bc_lab =
      no_label ∷ no_label ∷ no_label ∷ no_label ∷ no_label ∷ no_label ∷ no_label ∷ no_label ∷ [];
  const_table = (0, nil_item) ∷ (24, int_item 6) ∷ [];
  const_table_cnt = 56;
  envs = no_envs;
}

abbrev machine : Vm
machine = record empty_vm {
  bc_arr = get_elem? compiled.bc_arr;
  consts = λ i. if i == 24 then some (int_object 6) else none;
  stack = λ i. small 7;
  sp = 2;
}

some-inj : {a b : ℕ} → some a ≡ some b → a ≡ b
some-inj h = ground (arith, h)

int_item-inj : {a b : ℕ} → some (int_item a) ≡ some (int_item b) → a ≡ b
int_item-inj h = ground (arith, h)

table_integers :
    (i n : ℕ)
    → item_at i compiled.const_table ≡ some (int_item n)
    → (i < 2 ^ 16)
      × (cls : Option ℕ) × (machine.consts i ≡ some (record { cls = cls; body = int n }))
unfolding item_at
table_integers i n h = elim (Bool-cases (i == 24)) [
  | inl e ↦
      let q : some (int_item 6) ≡ some (int_item n) = ground (arith, h, e) in
      (omega (arith, ==→eq i 24 e), none, rw e (ap (λ k. some (int_object k)) (int_item-inj q)))
  | inr e ↦ absurd (ground (arith, h, e))
]

machine_local :
    (v : VarInfo) (n : ℕ)
    → seven v ≡ some n
    → Known (machine.stack (machine.fp + (v.addr + 1))) n machine
      × (machine.fp + (v.addr + 1) < machine.sp)
machine_local v n e = elim (Bool-cases (v.addr == 0)) [
  | inl z ↦
      let q : some 7 ≡ some n = ground (arith, e, z) in
      (
        (subst (λ k. HasInt (small 7) k machine) (some-inj q) (inline (omega arith)), tt),
        omega (arith, ==→eq v.addr 0 z),
      )
  | inr z ↦ absurd (ground (arith, e, z))
]

machine-Ready : Ready compiled.const_table seven machine
unfolding item_at
machine-Ready = record { integers = table_integers; locals = λ v n l e. machine_local v n e }

abbrev no_native : Native → Cmd (Unit {0})
no_native f = stop vm_error

code_there : At compiled.bc_arr 0 machine.bc_arr
code_there = (refl, (refl, (refl, (refl, (refl, (refl, (refl, (refl, tt))))))))

compile-run_example : (t : Vm) × Computed no_native 9 8 13 machine t
unfolding optimize fold_bop fold mul32 add32 eval translate address bco_int bco_ww1 bco_wb1 bco_w8
    bco_w16 find_item ct_malloc op_code
compile-run_example =
    compile-run no_native 9 seven 13 folded_expr folded_expr at_start compiled machine
      sample_expr-IntExpr refl refl at_start-IsTable refl code_there machine-Ready
      (record { address = omega arith; deep = omega arith; heap = omega arith })

-- `case 5..2, 3..3, 7..9`
abbrev ranges : Scopes
ranges = range_scope 5 2 (range_scope 3 3 (range_scope 7 9 no_scopes))

matches-simplify_example : matches 8 (simplify first ranges) ≡ matches 8 ranges
matches-simplify_example =
    matches-simplify 8 first ranges (omega arith)
      (omega arith, omega arith, (omega arith, omega arith, (omega arith, omega arith, tt)))

-- `while (6) break;` behind the code of the expression.
abbrev endless : Node
endless = while_do (numb 6) break_statm

abbrev with_loop : Bcout
with_loop = record compiled {
  bc_arr = compiled.bc_arr ++ (17 ∷ 24 ∷ 0 ∷ 5 ∷ 20 ∷ 0 ∷ 6 ∷ 20 ∷ 0 ∷ 6 ∷ 8 ∷ 0 ∷ []);
  bc_lab = replicate 20 no_label;
}

translate-Keeps_example : Keeps 8 compiled with_loop
unfolding translate bco_int bco_ww1 bco_ww1_labeled bco_w8 bco_w8_labeled bco_w16 find_item
    bco_get_ip bco_resolve_break resolve_from resolve_at fixed bco_fix_forward_jmpw
translate-Keeps_example = translate-Keeps endless 0 compiled with_loop refl
