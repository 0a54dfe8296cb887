-- ===== src/Compiler/Translate.antt =====
-- The Translate methods of compiler/strom.cpp: the bytecode of a tree.
pub mod Steps
pub mod Code
pub mod Machine
pub mod Run
pub mod Operations
pub mod Correct
pub mod Prefix
pub mod Commands
pub mod Appends
use nesrotom_run.Base.{
  ℕ, zero, suc, ◌+◌, Bool, true, false, ◌||◌, Option, none, some, List, [], ◌∷◌, length, leb,
  if◌then◌else◌,
}
use nesrotom_run.State.{Bytes}
use nesrotom_run.Classes.{bytes_eq}
use nesrotom_run.Operators.{Op, not_eq, greater_or_eq, greater}
use nesrotom_run.Compiler.Tree.{
  Args, Blocks, Node, Scope, Scopes, Statms, VarInfo, arg, array_const, assign, assign_with_bop,
  block, bop, break_statm, call, case_block, case_of, class_node, class_ref, count, deleted,
  else_scope, empty_statm, for_loop, if_else, is_null_node, last, log_not, method, method_ref, more,
  new_object, nil_const, no_args, no_blocks, no_scopes, null_node, numb, number_scope, obj_ref,
  op_code, parent_ref, range_scope, read, return_statm, sc_arg, sc_class, sc_exobj, sc_instance,
  sc_local, self_ref, statm_list, symbol_const, text_const, throw, try_catch, un_minus, var,
  while_do, write,
}
use nesrotom_run.Compiler.Bc.{
  op_bop, op_call, op_calle, op_calls, op_dr, op_dup, op_idx, op_idxa, op_ifnj, op_ju, op_labi_arg,
  op_labi_cv, op_labi_cve, op_labi_iv, op_labi_loc, op_labs_cve, op_labs_ive, op_ld_class,
  op_ld_exobj, op_ld_self, op_lvbi_arg, op_lvbi_c, op_lvbi_cv, op_lvbi_cve, op_lvbi_iv, op_lvbi_loc,
  op_lvbs_cve, op_lvbs_ive, op_new, op_nop, op_not, op_pop, op_rd, op_ret, op_ret_self, op_st,
  op_st_exinfo, op_throw, op_unm, op_wrt,
}
use nesrotom_run.Compiler.Emit.{
  Bcout, Emit, bco_arr, bco_arr_set_idx, bco_exinfo, bco_exinfo_add_block, bco_fix_forward_jmpw,
  bco_get_ip, bco_int, bco_nil, bco_resolve_break, bco_str, bco_sym, bco_w0, bco_wb1, bco_ww1,
  bco_ww1_labeled, bco_ww2, brk, crash, get, item_at, pure, set_entrypoint, set_exception_info,
  set_item, sym_item, ◌>>=◌, ◌>>◌,
}

abbrev pub has_offset : Args → Bool
has_offset no_args = false
has_offset (arg a next) = true

abbrev pub either : Bool → ℕ → ℕ → ℕ
either b m n = if b then m else n

abbrev done : Emit ℕ → Emit ℕ
done m = do _ ← m; pure 0

-- The switch of Var::Translate; `load` is `rvalue || offset`.
unfoldable pub address : Scope → VarInfo → (load : Bool) → Emit ℕ
address sc_local v load = bco_ww1 (either load op_lvbi_loc op_labi_loc) v.addr
address sc_arg v load = bco_ww1 (either load op_lvbi_arg op_labi_arg) v.addr
address sc_instance v load =
    if v.external
    then (do i ← bco_sym false v.name; bco_ww1 (either load op_lvbs_ive op_labs_ive) i)
    else bco_ww1 (either load op_lvbi_iv op_labi_iv) v.addr
address sc_class v load =
    if v.external
    then (if v.unknown_class
        then (do i ← bco_sym false v.name; bco_ww1 (either load op_lvbs_cve op_labs_cve) i)
        else bco_ww1 (either load op_lvbi_cve op_labi_cve) v.addr)
    else bco_ww1 (either load op_lvbi_cv op_labi_cv) v.addr
address sc_exobj v load = bco_w0 op_ld_exobj

abbrev pub translate_scope : VarInfo → (load : Bool) → Emit ℕ
translate_scope v load = address v.sc v load

-- The name of the symbol at an index.
unfoldable pub class_name_of : Bcout → ℕ → Option Bytes
class_name_of s i = elim (item_at i s.const_table) [ some (sym_item n k) ↦ some n | _ ↦ none ]

unfoldable pub set_parent : (sym parent : ℕ) → Emit (Unit {0})
set_parent i p s = elim (item_at i s.const_table) [
  | some (sym_item n k) ↦
      some (tt, record s { const_table = set_item i (sym_item n p) s.const_table })
  | _ ↦ none
]

-- Does the symbol `i` already belong to a call of another parent class?
unfoldable pub other_parent : (i : ℕ) → (par_name : Bytes) → Emit Bool
other_parent i par s = elim (item_at i s.const_table) [
  | some (sym_item n zero) ↦ some (false, s)
  | some (sym_item n (suc k)) ↦ elim (class_name_of s (suc k)) [
    | some m ↦ some (if bytes_eq m par then false else true, s)
    | none ↦ none
  ]
  | _ ↦ none
]

unfoldable pub sym_name : ℕ → Emit Bytes
sym_name i s = elim (class_name_of s i) [ some n ↦ some (n, s) | none ↦ none ]

-- CALLS: the symbol carries the parent's name; another call's symbol is not shared.
unfoldable pub translate_super : (mth_idx : ℕ) → (par_name : Bytes) → (arg_count : ℕ) → Emit ℕ
translate_super i par n = do
  other ← other_parent i par
  j ← if other then (do m ← sym_name i; bco_sym true m) else pure i
  p ← bco_sym false par
  set_parent j p
  bco_ww2 op_calls j n

-- The call instruction, by the form of `method`.
unfoldable pub translate_call : Node → (external : Bool) → (mth_idx arg_count : ℕ) → Emit ℕ
translate_call (parent_ref par t) external i n = translate_super i par n
translate_call m external i n = bco_ww2 (either external op_calle op_call) i n

-- The `k` NOPs in which the machine keeps an inline cache.
unfoldable pub nops : ℕ → Emit (Unit {0})
nops zero = pure tt
nops (suc k) = do _ ← bco_w0 op_nop; nops k

-- The forward jumps of a list all lead to the present end.
unfoldable pub fix_all : List ℕ → Emit (Unit {0})
fix_all [] = pure tt
fix_all (a ∷ as') = do bco_fix_forward_jmpw a; fix_all as'

-- `finalJumps[1000]` and `jumpBeforeBlock[1000]`
abbrev pub max_jumps : ℕ
max_jumps = 1000

abbrev pub note_jump : List ℕ → ℕ → Emit (List ℕ)
note_jump as' a = if leb max_jumps (length as') then crash else pure (a ∷ as')

-- The code that Method::Translate puts at the end of a body without a `return`.
unfoldable pub implicit_return : (is_constructor : Bool) → Emit ℕ
implicit_return is_constructor =
    if is_constructor
    then bco_w0 op_ret_self
    else (do i ← bco_nil; _ ← bco_ww1 op_lvbi_c i; bco_w0 op_ret)

abbrev pub is_return : Node → Bool
is_return (return_statm e) = true
is_return _ = false

unfoldable pub ends_in_return : Statms → Bool
ends_in_return (last n) = is_return n
ends_in_return (more n next) = ends_in_return next

-- A node that may be NULL, with its code: `if (target) return target->Translate(); return 0;`
abbrev pub unless_null : Node → Emit ℕ → Emit ℕ → Emit ℕ
unless_null n otherwise code = if is_null_node n then otherwise else code

-- The second half of If::Translate, from the jump at `a1` on.
abbrev pub after_then : (a1 : ℕ) → Node → Emit ℕ → Emit (Unit {0})
after_then a1 n code =
    if is_null_node n
    then bco_fix_forward_jmpw a1
    else (do a2 ← bco_ww1 op_ju 0; bco_fix_forward_jmpw a1; _ ← code; bco_fix_forward_jmpw a2)

unfoldable mutual
  pub translate : Node → Emit ℕ
  translate null_node = crash
  translate deleted = crash
  translate (var v offset) = do
    _ ← translate_scope v (v.rvalue || has_offset offset)
    translate_offset v.rvalue offset
    pure 0
  translate (call m args external target void_call) = do
    translate_args args
    i ← translate m
    _ ← translate_call m external i (count args)
    nops 16
    _ ← unless_null target (if void_call then bco_w0 op_pop else pure 0) (translate target)
    pure 0
  translate (class_ref name target) = do
    i ← bco_sym false name
    _ ← bco_ww1 op_ld_class i
    unless_null target (pure 0) (translate target)
  translate (obj_ref v offset target) = do
    _ ← translate_scope v (v.rvalue || has_offset offset)
    translate_offset v.rvalue offset
    translate target
  translate self_ref = done (bco_w0 op_ld_self)
  translate (parent_ref par target) = translate target
  translate (method_ref name) = bco_sym false name
  translate (new_object c args) = do
    translate_args args
    i ← bco_sym false c
    _ ← bco_ww2 op_new i (count args)
    pure 0
  translate (numb n) = do i ← bco_int n; done (bco_ww1 op_lvbi_c i)
  translate (text_const s) = do i ← bco_str s; done (bco_ww1 op_lvbi_c i)
  translate (symbol_const s) = do i ← bco_sym false s; done (bco_ww1 op_lvbi_c i)
  translate (array_const elems) = do i ← construct_const_array elems; done (bco_ww1 op_lvbi_c i)
  translate nil_const = do i ← bco_nil; done (bco_ww1 op_lvbi_c i)
  translate (bop o l r) = do _ ← translate l; _ ← translate r; done (bco_wb1 op_bop (op_code o))
  translate (un_minus e) = do _ ← translate e; done (bco_w0 op_unm)
  translate (log_not e) = do _ ← translate e; done (bco_w0 op_not)
  translate (assign v e) = do _ ← translate v; _ ← translate e; done (bco_w0 op_st)
  translate (assign_with_bop o v e) = do
    _ ← translate v
    _ ← bco_w0 op_dup
    _ ← bco_w0 op_dr
    _ ← translate e
    _ ← bco_wb1 op_bop (op_code o)
    done (bco_w0 op_st)
  translate (write e) = do _ ← translate e; done (bco_w0 op_wrt)
  translate (read v) = do _ ← translate v; done (bco_w0 op_rd)
  translate (if_else c t e) = do
    _ ← translate c
    a1 ← bco_ww1 op_ifnj 0
    _ ← translate t
    after_then a1 e (translate e)
    pure 0
  translate (while_do c b) = do
    a1 ← bco_get_ip
    _ ← translate c
    a2 ← bco_ww1 op_ifnj 0
    b1 ← bco_get_ip
    _ ← translate b
    b2 ← bco_get_ip
    _ ← bco_ww1 op_ju a1
    bco_resolve_break b1 b2
    bco_fix_forward_jmpw a2
    pure 0
  translate (for_loop i c k b) = do
    _ ← translate i
    a1 ← bco_get_ip
    _ ← translate c
    a2 ← bco_ww1 op_ifnj 0
    b1 ← bco_get_ip
    _ ← translate b
    b2 ← bco_get_ip
    _ ← translate k
    _ ← bco_ww1 op_ju a1
    bco_resolve_break b1 b2
    bco_fix_forward_jmpw a2
    pure 0
  translate (try_catch t c m) = do
    try_addr ← bco_get_ip
    _ ← translate t
    a1 ← bco_ww1 op_ju 0
    catch_addr ← bco_get_ip
    _ ← translate c
    bco_fix_forward_jmpw a1
    s ← get
    bco_exinfo_add_block (s.envs m).exception_info_idx try_addr catch_addr
    pure 0
  translate (throw e) = do _ ← translate e; done (bco_w0 op_throw)
  translate (statm_list l) = do translate_statms l; pure 0
  translate break_statm = done (bco_ww1_labeled op_ju 0 brk)
  translate empty_statm = pure 0
  translate (case_of e blocks) = do
    finals ← translate_blocks (translate e) [] blocks
    fix_all finals
    pure 0
  translate (case_block statm ss) = unless_null statm (pure 0) (translate statm)
  translate (method is_constructor m body) = do
    ip ← bco_get_ip
    set_entrypoint m ip
    s ← get
    if (s.envs m).has_exobjs
        then (do
          i ← bco_exinfo (s.envs m).try_block_cnt
          _ ← bco_ww1 op_st_exinfo i
          set_exception_info m i)
        else pure tt
    translate_statms body
    if ends_in_return body then pure 0 else done (implicit_return is_constructor)
  translate (class_node stm) = done (unless_null stm (pure 0) (translate stm))
  translate (return_statm e) =
      done (unless_null e (bco_w0 op_ret_self) (do _ ← translate e; bco_w0 op_ret))

  -- ArgList::Translate
  pub translate_args : Args → Emit (Unit {0})
  translate_args no_args = pure tt
  translate_args (arg a next) = do _ ← translate a; translate_args next

  -- The indices of a variable, all but the last one with IDX.
  pub translate_offset : (rvalue : Bool) → Args → Emit (Unit {0})
  translate_offset rvalue no_args = pure tt
  translate_offset rvalue (arg a no_args) = do
    _ ← translate a
    _ ← bco_w0 (either rvalue op_idx op_idxa)
    pure tt
  translate_offset rvalue (arg a (arg b next)) = do
    _ ← translate a
    _ ← bco_w0 op_idx
    translate_offset rvalue (arg b next)

  -- StatmList::Translate, ClassList::Translate
  pub translate_statms : Statms → Emit (Unit {0})
  translate_statms (last n) = do _ ← translate n; pure tt
  translate_statms (more n next) = do _ ← translate n; translate_statms next

  pub construct_const_array : Args → Emit ℕ
  construct_const_array no_args = crash
  construct_const_array (arg e next) = do
    a ← bco_arr (count (arg e next))
    construct_elem a 0 e
    construct_elems a 1 next
    pure a

  pub construct_elems : (arr i : ℕ) → Args → Emit (Unit {0})
  construct_elems a i no_args = pure tt
  construct_elems a i (arg e next) = do construct_elem a i e; construct_elems a (suc i) next

  -- An element that is no constant of these kinds keeps 0, which is nil.
  pub construct_elem : (arr i : ℕ) → Node → Emit (Unit {0})
  construct_elem a i (numb n) = do c ← bco_int n; bco_arr_set_idx a i c
  construct_elem a i (text_const s) = do c ← bco_str s; bco_arr_set_idx a i c
  construct_elem a i (symbol_const s) = do c ← bco_sym false s; bco_arr_set_idx a i c
  construct_elem a i (array_const es) = do c ← construct_const_array es; bco_arr_set_idx a i c
  construct_elem a i _ = pure tt

  -- The tests before a case block, with the code of `expr`; the jumps to the block are returned. One
  -- test: `expr o e`, and a jump when it is false.
  pub translate_scopes : Emit ℕ → List ℕ → Scopes → Emit (List ℕ)
  translate_scopes expr js no_scopes = pure js
  translate_scopes expr js (else_scope next) = do
    j ← bco_ww1 op_ju 0
    js ← note_jump js j
    translate_scopes expr js next
  translate_scopes expr js (number_scope e next) = do
    _ ← expr
    _ ← translate e
    _ ← bco_wb1 op_bop (op_code not_eq)
    j ← bco_ww1 op_ifnj 0
    js ← note_jump js j
    translate_scopes expr js next
  translate_scopes expr js (range_scope lo hi next) = do
    _ ← expr
    l ← bco_int lo
    _ ← bco_ww1 op_lvbi_c l
    _ ← bco_wb1 op_bop (op_code greater_or_eq)
    fail ← bco_ww1 op_ifnj 0
    _ ← expr
    h ← bco_int hi
    _ ← bco_ww1 op_lvbi_c h
    _ ← bco_wb1 op_bop (op_code greater)
    j ← bco_ww1 op_ifnj 0
    js ← note_jump js j
    bco_fix_forward_jmpw fail
    translate_scopes expr js next

  -- The blocks of Case::Translate; the jumps to the end of the whole are returned.
  pub translate_blocks : Emit ℕ → List ℕ → Blocks → Emit (List ℕ)
  translate_blocks expr finals no_blocks = pure finals
  translate_blocks expr finals (block statm ss no_blocks) = do
    js ← translate_scopes expr [] ss
    over ← bco_ww1 op_ju 0
    fix_all js
    _ ← unless_null statm (pure 0) (translate statm)
    bco_fix_forward_jmpw over
    pure finals
  translate_blocks expr finals (block statm ss (block statm' ss' next)) = do
    js ← translate_scopes expr [] ss
    over ← bco_ww1 op_ju 0
    fix_all js
    _ ← unless_null statm (pure 0) (translate statm)
    final ← bco_ww1 op_ju 0
    finals ← note_jump finals final
    bco_fix_forward_jmpw over
    translate_blocks expr finals (block statm' ss' next)
