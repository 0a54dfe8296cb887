-- ===== src/Compiler/Translate/Appends.antt =====
-- Translate and the bytecode that is there before it.
use nesrotom_run.Base.{
  ℕ, suc, ◌≤◌, ◌≡◌, Bool, true, false, some, List, [], ◌∷◌, length, arith, leb, if◌then◌else◌,
}
use nesrotom_run.State.{Bytes}
use nesrotom_run.Compiler.Tree.{
  Args, Blocks, Node, Scope, Scopes, Statms, VarInfo, arg, array_const, assign, assign_with_bop,
  block, bop, break_statm, call, case_block, case_of, class_node, class_ref, deleted, else_scope,
  empty_statm, for_loop, if_else, is_null_node, last, log_not, method, method_ref, more, new_object,
  nil_const, no_args, no_blocks, no_scopes, null_node, numb, number_scope, obj_ref, parent_ref,
  range_scope, read, return_statm, sc_arg, sc_class, sc_exobj, sc_instance, sc_local, self_ref,
  statm_list, symbol_const, text_const, throw, try_catch, un_minus, var, while_do, write,
}
use nesrotom_run.Compiler.Bc.{op_st_exinfo}
use nesrotom_run.Compiler.Emit.{
  Emit, Bcout, bco_exinfo, bco_ww1, set_exception_info, bco_exinfo_add_block, pure, ◌>>=◌, ◌>>◌,
}
use nesrotom_run.Compiler.Translate.{
  address, construct_const_array, construct_elem, construct_elems, ends_in_return, fix_all,
  implicit_return, max_jumps, note_jump, translate, translate_args, translate_blocks,
  translate_call, translate_offset, translate_scopes, translate_statms, translate_super,
}
use nesrotom_run.Compiler.Translate.Prefix.{
  Safe, Any, Keeps, bind, followed, Safe-pure, Safe-crash, Safe-fix, Safe-resolve,
}
use nesrotom_run.Compiler.Translate.Commands.{
  Safe-Any, Safe-w0, Safe-wb1, Safe-ww1, Safe-ww1_labeled, Safe-ww2, Safe-ip, Safe-get, Safe-int,
  Safe-str, Safe-sym, Safe-nil, Safe-arr, Safe-exinfo, Safe-set_idx, Safe-add_block,
  Safe-set_parent, Safe-other_parent, Safe-sym_name, Safe-entrypoint, Safe-exception_info,
  Safe-nops, Safe-if, finish,
}

-- Every address of a list is not among the first `n`.
abbrev AllFrom : ℕ → List ℕ → Type 0
AllFrom n [] = Unit
AllFrom n (a ∷ as') = (n ≤ a) × AllFrom n as'

Safe-fix_all : {n : ℕ} (js : List ℕ) → AllFrom n js → Safe n Any (fix_all js)
unfolding fix_all
Safe-fix_all [] h = Safe-pure tt tt
Safe-fix_all (a ∷ js) (h, k) = followed (Safe-fix a h) (Safe-fix_all js k)

Safe-note :
    {n : ℕ} (js : List ℕ) (a : ℕ) → AllFrom n js → n ≤ a → Safe n (AllFrom n) (note_jump js a)
Safe-note js a h k = Safe-if (leb max_jumps (length js)) Safe-crash (Safe-pure (a ∷ js) (k, h))

Safe-address : {n : ℕ} (c : Scope) (v : VarInfo) (load : Bool) → Safe n Any (address c v load)
unfolding address
Safe-address sc_local v load = Safe-Any (Safe-ww1 _ _)
Safe-address sc_arg v load = Safe-Any (Safe-ww1 _ _)
Safe-address sc_instance v load =
    Safe-if v.external (bind (Safe-sym false v.name) (λ i _. Safe-Any (Safe-ww1 _ _)))
      (Safe-Any (Safe-ww1 _ _))
Safe-address sc_class v load =
    Safe-if v.external
      (Safe-if v.unknown_class (bind (Safe-sym false v.name) (λ i _. Safe-Any (Safe-ww1 _ _)))
        (Safe-Any (Safe-ww1 _ _)))
      (Safe-Any (Safe-ww1 _ _))
Safe-address sc_exobj v load = Safe-Any (Safe-w0 _)

Safe-super : {n : ℕ} (i : ℕ) (par : Bytes) (k : ℕ) → Safe n Any (translate_super i par k)
unfolding translate_super
Safe-super i par k = bind (Safe-other_parent i par) λ other _.
    bind {P = Any}
      (Safe-if other (bind (Safe-sym_name i) (λ m _. Safe-sym true m)) (Safe-pure i tt))
      λ j _.
        bind (Safe-sym false par) λ p _. followed (Safe-set_parent j p) (Safe-Any (Safe-ww2 _ _ _))

Safe-call :
    {n : ℕ} (m : Node) (external : Bool) (i k : ℕ) → Safe n Any (translate_call m external i k)
unfolding translate_call
Safe-call (parent_ref par t) external i k = Safe-super i par k
Safe-call m external i k = Safe-Any (Safe-ww2 _ _ _)

Safe-return : {n : ℕ} (c : Bool) → Safe n Any (implicit_return c)
unfolding implicit_return
Safe-return c =
    Safe-if c (Safe-Any (Safe-w0 _))
      (bind Safe-nil (λ i _. bind (Safe-ww1 _ _) (λ _ _. Safe-Any (Safe-w0 _))))

-- The parts of Method::Translate around the body.
abbrev enter : Bcout → ℕ → Emit (Unit {0})
enter s m =
    if (s.envs m).has_exobjs
    then (do
      i ← bco_exinfo (s.envs m).try_block_cnt
      _ ← bco_ww1 op_st_exinfo i
      set_exception_info m i)
    else pure tt

abbrev leave : Statms → Bool → Emit ℕ
leave body c = if ends_in_return body then pure 0 else (implicit_return c >>= (λ _. pure 0))

mutual
  unfolding translate translate_args translate_offset translate_statms construct_const_array
      construct_elems construct_elem translate_scopes translate_blocks

  Safe-translate : {n : ℕ} (e : Node) → Safe n Any (translate e)
  Safe-translate null_node = Safe-crash
  Safe-translate deleted = Safe-crash
  Safe-translate (var v offset) =
      bind (Safe-address v.sc v _) λ _ _. followed (Safe-offset v.rvalue offset) (Safe-pure 0 tt)
  Safe-translate (call m args external target void_call) = followed (Safe-args args) (
      bind (Safe-translate m) λ i _. bind (Safe-call m external i _) λ _ _.
        followed (Safe-nops 16) (
          finish (
            Safe-if (is_null_node target)
              (Safe-if void_call (Safe-Any (Safe-w0 _)) (Safe-pure 0 tt)) (Safe-translate target))))
  Safe-translate (class_ref name target) = bind (Safe-sym false name) λ i _.
      bind (Safe-ww1 _ _)
        λ _ _. Safe-if (is_null_node target) (Safe-pure 0 tt) (Safe-translate target)
  Safe-translate (obj_ref v offset target) =
      bind (Safe-address v.sc v _)
        λ _ _. followed (Safe-offset v.rvalue offset) (Safe-translate target)
  Safe-translate self_ref = finish (Safe-w0 _)
  Safe-translate (parent_ref par target) = Safe-translate target
  Safe-translate (method_ref name) = Safe-sym false name
  Safe-translate (new_object c args) =
      followed (Safe-args args) (bind (Safe-sym false c) λ i _. finish (Safe-ww2 _ _ _))
  Safe-translate (numb k) = bind (Safe-int k) λ i _. finish (Safe-ww1 _ _)
  Safe-translate (text_const s) = bind (Safe-str s) λ i _. finish (Safe-ww1 _ _)
  Safe-translate (symbol_const s) = bind (Safe-sym false s) λ i _. finish (Safe-ww1 _ _)
  Safe-translate (array_const elems) = bind (Safe-array elems) λ i _. finish (Safe-ww1 _ _)
  Safe-translate nil_const = bind Safe-nil λ i _. finish (Safe-ww1 _ _)
  Safe-translate (bop o l r) =
      bind (Safe-translate l) λ _ _. bind (Safe-translate r) λ _ _. finish (Safe-wb1 _ _)
  Safe-translate (un_minus e) = bind (Safe-translate e) λ _ _. finish (Safe-w0 _)
  Safe-translate (log_not e) = bind (Safe-translate e) λ _ _. finish (Safe-w0 _)
  Safe-translate (assign v e) =
      bind (Safe-translate v) λ _ _. bind (Safe-translate e) λ _ _. finish (Safe-w0 _)
  Safe-translate (assign_with_bop o v e) = bind (Safe-translate v) λ _ _. bind (Safe-w0 _) λ _ _.
      bind (Safe-w0 _)
        λ _ _. bind (Safe-translate e) λ _ _. bind (Safe-wb1 _ _) λ _ _. finish (Safe-w0 _)
  Safe-translate (write e) = bind (Safe-translate e) λ _ _. finish (Safe-w0 _)
  Safe-translate (read v) = bind (Safe-translate v) λ _ _. finish (Safe-w0 _)
  Safe-translate (if_else c t e) = bind (Safe-translate c) λ _ _. bind (Safe-ww1 _ _) λ a1 h.
      bind (Safe-translate t) λ _ _.
        followed
          (Safe-if (is_null_node e) (Safe-fix a1 h) (
            bind (Safe-ww1 _ _)
              λ a2 k. followed (Safe-fix a1 h) (bind (Safe-translate e) λ _ _. Safe-fix a2 k)))
          (Safe-pure 0 tt)
  Safe-translate (while_do c b) = bind Safe-ip λ a1 _. bind (Safe-translate c) λ _ _.
      bind (Safe-ww1 _ _) λ a2 h. bind Safe-ip λ b1 k. bind (Safe-translate b) λ _ _.
        bind Safe-ip λ b2 _.
          bind (Safe-ww1 _ _)
            λ _ _. followed (Safe-resolve b1 b2 k) (followed (Safe-fix a2 h) (Safe-pure 0 tt))
  Safe-translate (for_loop i c k b) = bind (Safe-translate i) λ _ _. bind Safe-ip λ a1 _.
      bind (Safe-translate c) λ _ _. bind (Safe-ww1 _ _) λ a2 h. bind Safe-ip λ b1 q.
        bind (Safe-translate b) λ _ _. bind Safe-ip λ b2 _. bind (Safe-translate k) λ _ _.
          bind (Safe-ww1 _ _)
            λ _ _. followed (Safe-resolve b1 b2 q) (followed (Safe-fix a2 h) (Safe-pure 0 tt))
  Safe-translate (try_catch t c m) = bind Safe-ip λ try_addr _. bind (Safe-translate t) λ _ _.
      bind (Safe-ww1 _ _) λ a1 h. bind Safe-ip λ catch_addr _. bind (Safe-translate c) λ _ _.
        followed (Safe-fix a1 h) (
          bind
            {k = λ s.
              bco_exinfo_add_block (s.envs m).exception_info_idx try_addr catch_addr >> pure 0}
            Safe-get λ s _. followed (Safe-add_block _ _ _) (Safe-pure 0 tt))
  Safe-translate (throw e) = bind (Safe-translate e) λ _ _. finish (Safe-w0 _)
  Safe-translate (statm_list l) = followed (Safe-statms l) (Safe-pure 0 tt)
  Safe-translate break_statm = finish (Safe-ww1_labeled _ _ _)
  Safe-translate empty_statm = Safe-pure 0 tt
  Safe-translate (case_of e blocks) =
      bind (Safe-blocks (Safe-translate e) [] tt blocks)
        λ js h. followed (Safe-fix_all js h) (Safe-pure 0 tt)
  Safe-translate (case_block statm ss) =
      Safe-if (is_null_node statm) (Safe-pure 0 tt) (Safe-translate statm)
  Safe-translate (method is_constructor m body) = bind Safe-ip λ ip _.
      followed (Safe-entrypoint m ip) (
        bind {k = λ s. enter s m >> (translate_statms body >> leave body is_constructor)} Safe-get
          λ s _.
            followed
              (Safe-if (s.envs m).has_exobjs
                (bind (Safe-exinfo _) λ i _. bind (Safe-ww1 _ _) λ _ _. Safe-exception_info m i)
                (Safe-pure tt tt))
              (followed (Safe-statms body) (
                Safe-if (ends_in_return body) (Safe-pure 0 tt)
                  (finish (Safe-return is_constructor)))))
  Safe-translate (class_node stm) =
      finish (Safe-if (is_null_node stm) (Safe-pure 0 tt) (Safe-translate stm))
  Safe-translate (return_statm e) =
      finish (Safe-if (is_null_node e) (Safe-w0 _) (bind (Safe-translate e) λ _ _. Safe-w0 _))

  Safe-args : {n : ℕ} (a : Args) → Safe n Any (translate_args a)
  Safe-args no_args = Safe-pure tt tt
  Safe-args (arg a next) = bind (Safe-translate a) λ _ _. Safe-args next

  Safe-offset : {n : ℕ} (rvalue : Bool) (a : Args) → Safe n Any (translate_offset rvalue a)
  Safe-offset rvalue no_args = Safe-pure tt tt
  Safe-offset rvalue (arg a no_args) =
      bind (Safe-translate a) λ _ _. bind (Safe-w0 _) λ _ _. Safe-pure tt tt
  Safe-offset rvalue (arg a (arg b next)) =
      bind (Safe-translate a) λ _ _. bind (Safe-w0 _) λ _ _. Safe-offset rvalue (arg b next)

  Safe-statms : {n : ℕ} (l : Statms) → Safe n Any (translate_statms l)
  Safe-statms (last e) = bind (Safe-translate e) λ _ _. Safe-pure tt tt
  Safe-statms (more e next) = bind (Safe-translate e) λ _ _. Safe-statms next

  Safe-array : {n : ℕ} (a : Args) → Safe n Any (construct_const_array a)
  Safe-array no_args = Safe-crash
  Safe-array (arg e next) =
      bind (Safe-arr _)
        λ a _. followed (Safe-elem a 0 e) (followed (Safe-elems a 1 next) (Safe-pure a tt))

  Safe-elems : {n : ℕ} (a i : ℕ) (es : Args) → Safe n Any (construct_elems a i es)
  Safe-elems a i no_args = Safe-pure tt tt
  Safe-elems a i (arg e next) = followed (Safe-elem a i e) (Safe-elems a (suc i) next)

  Safe-elem : {n : ℕ} (a i : ℕ) (e : Node) → Safe n Any (construct_elem a i e)
  Safe-elem a i (numb k) = bind (Safe-int k) λ c _. Safe-set_idx a i c
  Safe-elem a i (text_const s) = bind (Safe-str s) λ c _. Safe-set_idx a i c
  Safe-elem a i (symbol_const s) = bind (Safe-sym false s) λ c _. Safe-set_idx a i c
  Safe-elem a i (array_const es) = bind (Safe-array es) λ c _. Safe-set_idx a i c
  Safe-elem a i _ = Safe-pure tt tt

  Safe-scopes :
      {n : ℕ} {expr : Emit ℕ}
      → Safe n Any expr
      → (js : List ℕ) → AllFrom n js
      → (ss : Scopes) → Safe n (AllFrom n) (translate_scopes expr js ss)
  Safe-scopes x js h no_scopes = Safe-pure js h
  Safe-scopes x js h (else_scope next) =
      bind (Safe-ww1 _ _) λ j k. bind (Safe-note js j h k) λ js h. Safe-scopes x js h next
  Safe-scopes x js h (number_scope e next) = bind x λ _ _. bind (Safe-translate e) λ _ _.
      bind (Safe-wb1 _ _)
        λ _ _. bind (Safe-ww1 _ _) λ j k. bind (Safe-note js j h k) λ js h. Safe-scopes x js h next
  Safe-scopes x js h (range_scope lo hi next) = bind x λ _ _. bind (Safe-int lo) λ _ _.
      bind (Safe-ww1 _ _) λ _ _. bind (Safe-wb1 _ _) λ _ _. bind (Safe-ww1 _ _) λ fail q.
        bind x λ _ _. bind (Safe-int hi) λ _ _. bind (Safe-ww1 _ _) λ _ _.
          bind (Safe-wb1 _ _) λ _ _. bind (Safe-ww1 _ _) λ j k.
            bind (Safe-note js j h k) λ js h. followed (Safe-fix fail q) (Safe-scopes x js h next)

  Safe-blocks :
      {n : ℕ} {expr : Emit ℕ}
      → Safe n Any expr
      → (finals : List ℕ) → AllFrom n finals
      → (bs : Blocks) → Safe n (AllFrom n) (translate_blocks expr finals bs)
  Safe-blocks x fs h no_blocks = Safe-pure fs h
  Safe-blocks x fs h (block statm ss no_blocks) = bind (Safe-scopes x [] tt ss) λ js k.
      bind (Safe-ww1 _ _) λ over q. followed (Safe-fix_all js k) (
        bind (Safe-if (is_null_node statm) (Safe-pure 0 tt) (Safe-translate statm))
          λ _ _. followed (Safe-fix over q) (Safe-pure fs h))
  Safe-blocks x fs h (block statm ss (block statm' ss' next)) =
      bind (Safe-scopes x [] tt ss) λ js k. bind (Safe-ww1 _ _) λ over q.
        followed (Safe-fix_all js k) (
          bind (Safe-if (is_null_node statm) (Safe-pure 0 tt) (Safe-translate statm)) λ _ _.
            bind (Safe-ww1 _ _) λ final r.
              bind (Safe-note fs final h r)
                λ fs h. followed (Safe-fix over q) (Safe-blocks x fs h (block statm' ss' next)))

-- The translation of any tree only appends to the bytecode: where it ends without a crash, the
-- bytecode is not shorter than before, and every byte that was there is the same, for all the jumps
-- that are filled in later.
pub translate-Keeps :
    (e : Node) (i : ℕ) (s t : Bcout) → translate e s ≡ some (i, t) → Keeps (length s.bc_arr) s t
translate-Keeps e i s t h = ((Safe-translate e).safe s i t (omega arith) h).1
