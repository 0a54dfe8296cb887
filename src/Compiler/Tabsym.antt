-- ===== src/Compiler/Tabsym.antt =====
-- The compiler's symbol table, compiler/tabsym.cpp and compiler/tabsym.h: classes, their methods and
-- members, and the declarations and searches that the parser makes.
pub mod Declare
pub mod Lookup
pub mod Layout
pub mod Grows
pub mod Addresses
mod Tests
use nesrotom_run.Base.{
  ℕ, zero, suc, ◌+◌, ◌%◌, ◌^◌, Option, none, some, List, [], ◌∷◌, Bool, true, false, length, ◌==◌,
  if◌then◌else◌,
}
use nesrotom_run.State.{Bytes}
use nesrotom_run.Classes.{bytes_eq}
use nesrotom_run.Compiler.Tree.{Scope, sc_local, sc_arg, sc_instance, sc_class, sc_exobj}
use nesrotom_run.Compiler.Emit.{Bcout, Emit, bco_int, bco_str, crash, pure, ◌>>=◌}

-- `DruhId` but Nedef, with the union `val` of the constants; `num` is a bit pattern.
pub data DruhId : Type 0 where
  id_prom : DruhId
  id_const_num : (num : ℕ) → DruhId
  id_const_str : (str : Bytes) → DruhId

-- `PrvekTab`; a linked list of them is a list, the newest first.
pub record PrvekTab : Type 0 where
  pub ident : Bytes
  pub druh : DruhId
  pub sc : Scope
  pub addr : ℕ
  pub const_ptr : ℕ

pub record MethodEnv : Type 0 where
  pub method_name : Bytes
  pub is_static : Bool
  pub args : List PrvekTab
  pub syms : List PrvekTab
  pub exobjs : List PrvekTab
  pub arg_addr_next : ℕ
  pub local_addr_next : ℕ

-- The pointer `parent` of a class: NULL, CLASS_UNKNOWN, or the class that was declared after `n`
-- others.
pub data Parent : Type 0 where
  no_parent unknown : Parent
  known : (n : ℕ) → Parent

pub record ClassEnv : Type 0 where
  pub class_name : Bytes
  pub parent_name : Option Bytes
  pub parent : Parent
  pub syms : List PrvekTab
  pub methods : List MethodEnv
  pub constructor : Option MethodEnv
  pub static_init : Option MethodEnv
  pub class_addr_next : ℕ
  pub obj_addr_next : ℕ

-- TabClass, the newest class first; that of `known n` is the one with `n` classes behind it.
abbrev pub TabClass : Type 0
TabClass = List ClassEnv

unfoldable pub class_at : ℕ → TabClass → Option ClassEnv
class_at n [] = none
class_at n (ce ∷ older) = if n == length older then some ce else class_at n older

-- hledejClass
unfoldable pub hledej_class : Bytes → TabClass → Option ℕ
hledej_class id [] = none
hledej_class id (ce ∷ older) =
    if bytes_eq id ce.class_name then some (length older) else hledej_class id older

-- FIND_METHOD and FIND_SYM
unfoldable pub find_method : Bytes → List MethodEnv → Option MethodEnv
find_method id [] = none
find_method id (me ∷ mes) = if bytes_eq id me.method_name then some me else find_method id mes

unfoldable pub find_sym : Bytes → List PrvekTab → Option PrvekTab
find_sym id [] = none
find_sym id (p ∷ syms) = if bytes_eq id p.ident then some p else find_sym id syms

abbrev pub or_else {ℓ} : {A : Type ℓ} → Option A → Option A → Option A
or_else (some a) o = some a
or_else none o = o

-- A search from a class upwards, `own` being the search in one class. A parent is older than its
-- class, so that it stands further down in the table.
unfoldable pub search_up {ℓ} : {A : Type ℓ} → (ClassEnv → Option A) → Parent → TabClass → Option A
search_up own no_parent cs = none
search_up own unknown cs = none
search_up own (known n) [] = none
search_up own (known n) (ce ∷ older) =
    let above = search_up own ce.parent older in
    let further = search_up own (known n) older in
    if n == length older then or_else (own ce) above else further

-- A search in all classes, for CLASS_ANY.
unfoldable pub search_all {ℓ} : {A : Type ℓ} → (ClassEnv → Option A) → TabClass → Option A
search_all own [] = none
search_all own (ce ∷ older) = or_else (own ce) (search_all own older)

abbrev pub own_method : Bytes → ClassEnv → Option MethodEnv
own_method id ce = find_method id ce.methods

abbrev pub own_sym : Bytes → ClassEnv → Option PrvekTab
own_sym id ce = find_sym id ce.syms

-- The pointer to a class that the searches take: CLASS_ANY, CLASS_UNKNOWN, or a class, with the table
-- of those declared before it.
pub data ClassPtr : Type 0 where
  class_any : TabClass → ClassPtr
  class_unknown : ClassPtr
  class_ptr : ClassEnv → (older : TabClass) → ClassPtr

-- hledejMethod
unfoldable pub hledej_method : Bytes → ClassPtr → (recursive : Bool) → Option MethodEnv
hledej_method id (class_any cs) recursive = search_all (own_method id) cs
hledej_method id class_unknown recursive = none
hledej_method id (class_ptr ce older) recursive =
    or_else (own_method id ce)
      (if recursive then search_up (own_method id) ce.parent older else none)

-- hledejMember in a method: exception objects, local variables, arguments.
unfoldable pub method_member : Bytes → MethodEnv → Option PrvekTab
method_member id me =
    or_else (find_sym id me.exobjs) (or_else (find_sym id me.syms) (find_sym id me.args))

-- hledejMember in a class
unfoldable pub class_member : Bytes → ClassPtr → (recursive : Bool) → Option PrvekTab
class_member id (class_any cs) recursive = search_all (own_sym id) cs
class_member id class_unknown recursive = none
class_member id (class_ptr ce older) recursive =
    or_else (own_sym id ce) (if recursive then search_up (own_sym id) ce.parent older else none)

-- hledejMember
unfoldable pub hledej_member :
    Bytes → ClassPtr → Option MethodEnv → (recursive : Bool) → Option PrvekTab
hledej_member id cls none recursive = class_member id cls recursive
hledej_member id cls (some me) recursive =
    or_else (method_member id me) (if recursive then class_member id cls recursive else none)
