-- ===== src/Execute/Members.antt =====
-- The instructions on class and instance variables, and the search for a class variable by its
-- number (SYM_STATIC).
use nesrotom_run.Base.{
  ℕ, zero, suc, ◌^◌, Bool, true, false, not, Option, none, some, List, [], ◌∷◌, get_elem?, ltb,
  if◌then◌else◌,
}
use nesrotom_run.State.{
  Bytes, class_ref, field, static_field, Value, null, ptr, dptr, Body, udo, Object, Symbol, Class,
  vm_error, bad_access, assert_failed, out_of_fuel, Cmd, pure, stop, get, ensure, from_option,
  ◌>>=◌, ◌>>◌, add32, sub32,
}
use nesrotom_run.State.Memory.{load}
use nesrotom_run.Frame.{stack_push, stack_pop, stack_top, this}
use nesrotom_run.Objects.{kek_sym, kek_class, kek_udo, has_type, is_ptr, symbol_of, const}
use nesrotom_run.Classes.{bytes_eq, find_instance_sym_in_class}
use nesrotom_run.Execute.Operands.{operand16}

abbrev class_at : ℕ → Cmd Class
class_at i = do s ← get; from_option (get_elem? s.classes i) bad_access

-- the address of the first class variable, `syms_static[0].addr`
abbrev first_addr : Class → Option ℕ
first_addr c = elim c.syms_static [ [] ↦ none | y ∷ ys ↦ some y.addr ]

abbrev is_neg : ℕ → Bool
is_neg n = not (ltb n (2 ^ 31))

-- The loop of SYM_STATIC: while the index is negative, climb to the parent, and count from its first
-- variable if it has one.
unfoldable pub sym_static_loop : ℕ → (idx cls c_idx : ℕ) → Cmd (ℕ × ℕ)
sym_static_loop zero idx i c_idx = stop out_of_fuel
sym_static_loop (suc fuel) idx i c_idx = do
  c ← class_at i
  elim c.parent [
    | none ↦ pure (i, c_idx)
    | some p ↦ elim (is_neg c_idx) [
      | false ↦ pure (i, c_idx)
      | true ↦ do
        d ← class_at p
        sym_static_loop fuel idx p (elim (first_addr d) [ none ↦ c_idx | some a ↦ sub32 idx a ])
    ]
  ]

-- SYM_STATIC: the class and the index in its `syms_static`. A class without class variables has no
-- first one to read, and an index past the last one is no symbol.
unfoldable pub sym_static : ℕ → (cls idx : ℕ) → Cmd (ℕ × ℕ × Symbol)
sym_static fuel i idx = do
  c ← class_at i
  a ← from_option (first_addr c) bad_access
  (j, k) ← sym_static_loop fuel idx i (sub32 idx a)
  ensure (not (is_neg k)) vm_error
  d ← class_at j
  y ← from_option (get_elem? d.syms_static k) bad_access
  pure (j, k, y)

-- The class of THIS: itself, or that of the instance.
unfoldable pub class_of_this : Cmd ℕ
class_of_this = do
  obj ← this
  elim obj [ ptr (class_ref i) ↦ pure i | v ↦ do o ← load v; from_option o.cls bad_access ]

-- `if (IS_PTR(obj) && IS_CLASS(obj)) cls = obj; else vm_error(…)`; NULL is read.
unfoldable pub pop_class : Cmd ℕ
pop_class = do
  obj ← stack_pop
  elim obj [ ptr (class_ref i) ↦ pure i | null ↦ stop bad_access | _ ↦ stop vm_error ]

-- `sym = CONST(arg1); if (!IS_SYM(sym)) vm_error(…)`
unfoldable pub const_symbol : ℕ → Cmd (Bytes × Object)
const_symbol i = do
  is_sym ← has_type kek_sym (const i)
  ensure is_sym vm_error
  b ← symbol_of (const i)
  o ← load (const i)
  pure (b, o)

-- the end of LABI_CV, LABI_CVE and LABS_CVE: the address of a variable that is no constant
unfoldable pub push_static_addr : (cls idx : ℕ) → Symbol → Cmd (Unit {0})
push_static_addr j k y = do
  ensure (not y.const_flag) vm_error
  stack_push null
  stack_push (dptr (static_field j k))

unfoldable pub exec_labi_cv : ℕ → Cmd (Unit {0})
exec_labi_cv fuel = do
  n ← operand16
  i ← class_of_this
  (j, k, y) ← sym_static fuel i n
  push_static_addr j k y

unfoldable pub exec_labi_cve : ℕ → Cmd (Unit {0})
exec_labi_cve fuel = do
  n ← operand16
  i ← pop_class
  (j, k, y) ← sym_static fuel i n
  push_static_addr j k y

unfoldable pub exec_lvbi_cv : ℕ → Cmd (Unit {0})
exec_lvbi_cv fuel = do
  n ← operand16
  i ← class_of_this
  (j, k, y) ← sym_static fuel i n
  stack_push y.value

unfoldable pub exec_lvbi_cve : ℕ → Cmd (Unit {0})
exec_lvbi_cve fuel = do
  n ← operand16
  i ← pop_class
  (j, k, y) ← sym_static fuel i n
  stack_push y.value

-- the index of the first symbol of that name
unfoldable pub index_of : ℕ → Bytes → List Symbol → Option ℕ
index_of i name [] = none
index_of i name (y ∷ ys) = if bytes_eq y.name name then some i else index_of (suc i) name ys

-- vm_find_static_sym_in_class, with the place that the returned pointer leads to.
unfoldable pub locate_static : ℕ → ℕ → Bytes → Cmd (ℕ × ℕ × Symbol)
locate_static zero i name = stop out_of_fuel
locate_static (suc fuel) i name = do
  c ← class_at i
  elim (index_of 0 name c.syms_static) [
    | some k ↦ do y ← from_option (get_elem? c.syms_static k) bad_access; pure (i, k, y)
    | none ↦ elim c.parent [ none ↦ stop vm_error | some p ↦ locate_static fuel p name ]
  ]

unfoldable pub exec_lvbs_cve : ℕ → Cmd (Unit {0})
exec_lvbs_cve fuel = do
  n ← operand16
  i ← pop_class
  (name, o) ← const_symbol n
  (j, k, y) ← locate_static fuel i name
  stack_push y.value

unfoldable pub exec_labs_cve : ℕ → Cmd (Unit {0})
exec_labs_cve fuel = do
  n ← operand16
  i ← pop_class
  (name, o) ← const_symbol n
  (j, k, y) ← locate_static fuel i name
  push_static_addr j k y

abbrev pub as_udo : Body → Option (ℕ × List Value)
as_udo (udo o v) = some (o, v)
as_udo _ = none

-- `obj = THIS; assert(IS_UDO(obj));` and its offset and variables
unfoldable pub this_udo : Cmd (Value × ℕ × List Value)
this_udo = do
  obj ← this
  is_udo ← has_type kek_udo obj
  ensure is_udo assert_failed
  o ← load obj
  (off, vars) ← from_option (as_udo o.body) bad_access
  pure (obj, off, vars)

unfoldable pub exec_labi_iv : Cmd (Unit {0})
exec_labi_iv = do
  n ← operand16
  (obj, off, vars) ← this_udo
  stack_push obj
  stack_push (dptr (field (add32 n off)))

unfoldable pub exec_lvbi_iv : Cmd (Unit {0})
exec_lvbi_iv = do
  n ← operand16
  (obj, off, vars) ← this_udo
  v ← from_option (get_elem? vars (add32 n off)) bad_access
  stack_push v

-- The checks of LVBS_IVE and LABS_IVE on the object, and the variable of that name in its class.
unfoldable pub find_instance_var : ℕ → Value → ℕ → Cmd (Object × Symbol)
find_instance_var fuel obj n = do
  ensure (is_ptr obj) vm_error
  is_class ← has_type kek_class obj
  ensure (not is_class) assert_failed
  (name, _) ← const_symbol n
  o ← load obj
  i ← from_option o.cls vm_error
  s ← get
  found ← from_option (find_instance_sym_in_class s.classes fuel i name) out_of_fuel
  y ← from_option found vm_error
  pure (o, y)

-- INST_VAR through a cast: the object is taken for a user-defined one.
unfoldable pub exec_lvbs_ive : ℕ → Cmd (Unit {0})
exec_lvbs_ive fuel = do
  n ← operand16
  obj ← stack_pop
  (o, y) ← find_instance_var fuel obj n
  (off, vars) ← from_option (as_udo o.body) bad_access
  v ← from_option (get_elem? vars (add32 y.addr off)) bad_access
  stack_push v

unfoldable pub exec_labs_ive : ℕ → Cmd (Unit {0})
exec_labs_ive fuel = do
  n ← operand16
  obj ← stack_top
  (o, y) ← find_instance_var fuel obj n
  (off, vars) ← from_option (as_udo o.body) bad_access
  stack_push (dptr (field (add32 y.addr off)))

-- LD_CLASS
unfoldable pub exec_ld_class : Cmd (Unit {0})
exec_ld_class = do
  n ← operand16
  (_, o) ← const_symbol n
  i ← from_option o.cls vm_error
  stack_push (ptr (class_ref i))
