-- ===== src/Compiler/Tabsym/Declare.antt =====
-- The declarations of the compiler's symbol table, compiler/tabsym.cpp: classes, methods, variables
-- and constants, and the searches that end the compiler when nothing is found.
use nesrotom_run.Base.{
  ℕ, ◌+◌, ◌%◌, ◌^◌, Option, none, some, [], ◌∷◌, Bool, true, false, if◌then◌else◌,
}
use nesrotom_run.State.{Bytes}
use nesrotom_run.Compiler.Tree.{Scope, sc_local, sc_arg, sc_instance, sc_class, sc_exobj}
use nesrotom_run.Compiler.Emit.{Emit, bco_int, bco_str, crash, pure, ◌>>=◌}
use nesrotom_run.Compiler.Tabsym.{
  ClassEnv, ClassPtr, DruhId, MethodEnv, Parent, PrvekTab, TabClass, class_at, class_ptr,
  find_method, hledej_class, hledej_member, id_const_num, id_const_str, id_prom, known, no_parent,
  unknown,
}

-- The constructor of ClassEnv: the addresses go on where those of the parent end.
unfoldable pub first_addrs : Option ClassEnv → ℕ × ℕ
first_addrs none = (0, 0)
first_addrs (some pe) = (pe.class_addr_next, pe.obj_addr_next)

unfoldable pub parent_class : Parent → TabClass → Option ClassEnv
parent_class (known n) cs = class_at n cs
parent_class _ cs = none

unfoldable pub new_class : Bytes → Option Bytes → Parent → TabClass → ClassEnv
new_class name par_name par cs =
    let (class_addr, obj_addr) = first_addrs (parent_class par cs) in
    record {
      class_name = name;
      parent_name = par_name;
      parent = par;
      syms = [];
      methods = [];
      constructor = none;
      static_init = none;
      class_addr_next = class_addr;
      obj_addr_next = obj_addr;
    }

unfoldable pub found_parent : Option ℕ → Parent
found_parent none = unknown
found_parent (some n) = known n

unfoldable pub parent_named : Option Bytes → TabClass → Parent
parent_named none cs = no_parent
parent_named (some par) cs = found_parent (hledej_class par cs)

-- The declarations: none is the end of the compiler by Chyba.
unfoldable pub unless_taken {ℓ κ} : {A : Type ℓ} {B : Type κ} → Option A → B → Option B
unless_taken (some a) b = none
unless_taken none b = some b

-- deklClass
unfoldable pub dekl_class : Bytes → Option Bytes → TabClass → Option TabClass
dekl_class cls par cs =
    unless_taken (hledej_class cls cs) (new_class cls par (parent_named par cs) cs ∷ cs)

-- The constructor of MethodEnv
unfoldable pub new_method : Bytes → Bool → MethodEnv
new_method name is_static = record {
  method_name = name;
  is_static = is_static;
  args = [];
  syms = [];
  exobjs = [];
  arg_addr_next = 0;
  local_addr_next = 0;
}

-- deklMethod: the class with the new method, and the new method.
unfoldable pub dekl_method :
    Bytes → (constructor is_static : Bool) → ClassEnv → Option (ClassEnv × MethodEnv)
dekl_method mth constructor is_static cls =
    let me = new_method mth is_static in
    if constructor
    then (if is_static
        then unless_taken cls.static_init (record cls { static_init = some me }, me)
        else unless_taken cls.constructor (record cls { constructor = some me }, me))
    else unless_taken (find_method mth cls.methods) (record cls { methods = me ∷ cls.methods }, me)

-- The two objects that a declaration of a member changes.
pub record Env : Type 0 where
  pub cls : ClassEnv
  pub mth : Option MethodEnv

abbrev pub next_addr : ℕ → ℕ
next_addr n = (n + 1) % 2 ^ 32

unfoldable pub variable : Bytes → Scope → ℕ → PrvekTab
variable id sc addr = record { ident = id; druh = id_prom; sc = sc; addr = addr; const_ptr = 0 }

-- The part of deklProm in a method: arguments and local variables have counters of their own.
unfoldable pub add_to_method : Bytes → (arg : Bool) → MethodEnv → MethodEnv
add_to_method id arg me =
    if arg
    then record me {
      args = variable id sc_arg me.arg_addr_next ∷ me.args;
      arg_addr_next = next_addr me.arg_addr_next;
    }
    else record me {
      syms = variable id sc_local me.local_addr_next ∷ me.syms;
      local_addr_next = next_addr me.local_addr_next;
    }

-- The part of deklProm in a class: so have class variables and instance variables.
unfoldable pub add_to_class : Bytes → (is_static : Bool) → ClassEnv → ClassEnv
add_to_class id is_static cls =
    if is_static
    then record cls {
      syms = variable id sc_class cls.class_addr_next ∷ cls.syms;
      class_addr_next = next_addr cls.class_addr_next;
    }
    else record cls {
      syms = variable id sc_instance cls.obj_addr_next ∷ cls.syms;
      obj_addr_next = next_addr cls.obj_addr_next;
    }

unfoldable pub add_variable : Bytes → (arg is_static : Bool) → ClassEnv → Option MethodEnv → Env
add_variable id arg is_static cls (some me) = record {
  cls = cls;
  mth = some (add_to_method id arg me);
}
add_variable id arg is_static cls none = record { cls = add_to_class id is_static cls; mth = none }

-- hledejMember as the declarations call it, not recursive: in the method, or else in the class.
unfoldable pub declared : Bytes → Env → Option PrvekTab
declared id e = hledej_member id (class_ptr e.cls []) e.mth false

-- deklProm
unfoldable pub dekl_prom : Bytes → (arg is_static : Bool) → Env → Option Env
dekl_prom id arg is_static e =
    unless_taken (declared id e) (add_variable id arg is_static e.cls e.mth)

-- The constants of deklKonst; the value goes to the constant table (bco_int, bco_str) when the
-- declaration is made. A local number has no address.
unfoldable pub constant : Bytes → DruhId → Scope → ℕ → ℕ → PrvekTab
constant id druh sc addr const_ptr = record {
  ident = id;
  druh = druh;
  sc = sc;
  addr = addr;
  const_ptr = const_ptr;
}

unfoldable pub add_class_constant : Bytes → DruhId → ClassEnv → ℕ → ClassEnv
add_class_constant id druh cls const_ptr = record cls {
  syms = constant id druh sc_class cls.class_addr_next const_ptr ∷ cls.syms;
  class_addr_next = next_addr cls.class_addr_next;
}

unfoldable pub add_local_num : Bytes → ℕ → MethodEnv → ℕ → MethodEnv
add_local_num id val me const_ptr = record me {
  syms = constant id (id_const_num val) sc_local 0 const_ptr ∷ me.syms;
}

-- A local text takes an address, too.
unfoldable pub add_local_str : Bytes → Bytes → MethodEnv → ℕ → MethodEnv
add_local_str id val me const_ptr = record me {
  syms = constant id (id_const_str val) sc_local me.local_addr_next const_ptr ∷ me.syms;
  local_addr_next = next_addr me.local_addr_next;
}

unfoldable pub konst_num_in :
    Bytes → ℕ → (is_static : Bool) → ClassEnv → Option MethodEnv → Emit Env
konst_num_in id val is_static cls (some me) = do
  k ← bco_int val
  pure (record { cls = cls; mth = some (add_local_num id val me k) })
konst_num_in id val is_static cls none =
    if is_static
    then (do
      k ← bco_int val
      pure (record { cls = add_class_constant id (id_const_num val) cls k; mth = none }))
    else crash

unfoldable pub konst_str_in :
    Bytes → Bytes → (is_static : Bool) → ClassEnv → Option MethodEnv → Emit Env
konst_str_in id val is_static cls (some me) = do
  k ← bco_str val
  pure (record { cls = cls; mth = some (add_local_str id val me k) })
konst_str_in id val is_static cls none =
    if is_static
    then (do
      k ← bco_str val
      pure (record { cls = add_class_constant id (id_const_str val) cls k; mth = none }))
    else crash

unfoldable pub unless_declared {ℓ} : {A : Type ℓ} → Option PrvekTab → Emit A → Emit A
unless_declared (some p) m = crash
unless_declared none m = m

-- deklKonst of a number and of a text; a crash is the end of the compiler by Chyba.
unfoldable pub dekl_konst_num : Bytes → ℕ → (is_static : Bool) → Env → Emit Env
dekl_konst_num id val is_static e =
    unless_declared (declared id e) (konst_num_in id val is_static e.cls e.mth)

unfoldable pub dekl_konst_str : Bytes → Bytes → (is_static : Bool) → Env → Emit Env
dekl_konst_str id val is_static e =
    unless_declared (declared id e) (konst_str_in id val is_static e.cls e.mth)

-- deklExObj, which does not look for an earlier declaration
unfoldable pub dekl_ex_obj : Bytes → MethodEnv → MethodEnv
dekl_ex_obj id me = record me { exobjs = variable id sc_exobj 0 ∷ me.exobjs }

-- adrSym: the compiler ends when nothing is found.
unfoldable pub adr_sym : Bytes → ClassPtr → Option MethodEnv → Option PrvekTab
adr_sym id cls mth = hledej_member id cls mth true

unfoldable pub as_variable : PrvekTab → DruhId → Option PrvekTab
as_variable p id_prom = some p
as_variable p _ = none

unfoldable pub variable_of : Option PrvekTab → Option PrvekTab
variable_of none = none
variable_of (some p) = as_variable p p.druh

-- adrProm
unfoldable pub adr_prom : Bytes → ClassPtr → Option MethodEnv → Option PrvekTab
adr_prom id cls mth = variable_of (adr_sym id cls mth)
