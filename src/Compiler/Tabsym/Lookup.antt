-- ===== src/Compiler/Tabsym/Lookup.antt =====
-- What a declaration does to the searches: deklProm of compiler/tabsym.cpp followed by adrProm,
-- adrSym and a second declaration.
use nesrotom_run.Base.{
  ◌≡◌, ◌≢◌, refl, sym, inl, inr, Option, none, some, List, ◌∷◌, Bool, true, false, arith,
  Bool-cases, subst,
}
use nesrotom_run.State.{Bytes}
use nesrotom_run.Classes.{bytes_eq}
use nesrotom_run.Classes.Lookup.{bytes_eq_refl, bytes_eq→eq}
use nesrotom_run.Compiler.Tree.{sc_local, sc_arg, sc_instance, sc_class}
use nesrotom_run.Compiler.Tabsym.{
  PrvekTab, MethodEnv, ClassEnv, TabClass, class_ptr, find_sym, hledej_member, method_member,
  class_member,
}
use nesrotom_run.Compiler.Tabsym.Declare.{
  Env, variable, add_variable, add_to_method, add_to_class, unless_taken, declared, dekl_prom,
  adr_sym, adr_prom, as_variable, variable_of,
}

-- The entry that a declaration of a variable makes: an argument, a local variable, a class variable
-- or an instance variable, at the next address of its kind.
unfoldable pub new_variable :
    Bytes → (arg is_static : Bool) → ClassEnv → Option MethodEnv → PrvekTab
new_variable id true is_static cls (some me) = variable id sc_arg me.arg_addr_next
new_variable id false is_static cls (some me) = variable id sc_local me.local_addr_next
new_variable id arg true cls none = variable id sc_class cls.class_addr_next
new_variable id arg false cls none = variable id sc_instance cls.obj_addr_next

bytes_eq_ne : (a b : Bytes) → a ≢ b → bytes_eq a b ≡ false
bytes_eq_ne a b n = elim (Bool-cases (bytes_eq a b)) [
  | inl e ↦ absurd (n (bytes_eq→eq a b e))
  | inr e ↦ e
]

find_sym-new :
    (id : Bytes) (p : PrvekTab) (ps : List PrvekTab) → p.ident ≡ id → find_sym id (p ∷ ps) ≡ some p
unfolding find_sym
find_sym-new id p ps e =
    ground (arith, subst (λ x. bytes_eq id x ≡ true) (sym e) (bytes_eq_refl id))

find_sym-other :
    (id : Bytes) (p : PrvekTab) (ps : List PrvekTab)
    → id ≢ p.ident
    → find_sym id (p ∷ ps) ≡ find_sym id ps
unfolding find_sym
find_sym-other id p ps n = ground (arith, bytes_eq_ne id p.ident n)

pub taken-some :
    {A B : Type 0} (o : Option A) (b c : B) → unless_taken o b ≡ some c → (o ≡ none) × (b ≡ c)
unfolding unless_taken
taken-some none b c h = (refl, ground (arith, h))
taken-some (some a) b c h = absurd (ground (arith, h))

-- After a declaration its name is found, and every other name as before.
pub record Declares (id : Bytes) (p : PrvekTab) (older : TabClass) (e e' : Env) : Type 0 where
  pub found : adr_prom id (class_ptr e'.cls older) e'.mth ≡ some p
  pub again : declared id e' ≡ some p
  pub others :
      (other : Bytes)
      → other ≢ id
      → adr_sym other (class_ptr e'.cls older) e'.mth ≡ adr_sym other (class_ptr e.cls older) e.mth

-- deklProm in a method: the table of the method has the new entry in front.
method-Declares :
    (id : Bytes) (arg is_static : Bool) (older : TabClass) (cls : ClassEnv) (me : MethodEnv)
    → method_member id me ≡ none
    → Declares id
        (new_variable id arg is_static cls (some me))
        older
        (record { cls = cls; mth = some me })
        (record { cls = cls; mth = some (add_to_method id arg me) })
unfolding add_to_method new_variable variable adr_prom adr_sym hledej_member method_member
    variable_of as_variable declared
method-Declares id true is_static older cls me h = record {
  found = ground (arith, h, find_sym-new id (variable id sc_arg me.arg_addr_next) me.args refl);
  again = ground (arith, h, find_sym-new id (variable id sc_arg me.arg_addr_next) me.args refl);
  others = λ o n. ground (arith, find_sym-other o (variable id sc_arg me.arg_addr_next) me.args n);
}
method-Declares id false is_static older cls me h = record {
  found = ground (arith, h, find_sym-new id (variable id sc_local me.local_addr_next) me.syms refl);
  again = ground (arith, h, find_sym-new id (variable id sc_local me.local_addr_next) me.syms refl);
  others =
      λ o n. ground (arith, find_sym-other o (variable id sc_local me.local_addr_next) me.syms n);
}

class-Declares :
    (id : Bytes) (arg is_static : Bool) (older : TabClass) (cls : ClassEnv)
    → Declares id
        (new_variable id arg is_static cls none)
        older
        (record { cls = cls; mth = none })
        (record { cls = add_to_class id is_static cls; mth = none })
unfolding add_to_class new_variable variable adr_prom adr_sym hledej_member class_member variable_of
    as_variable declared
class-Declares id arg true older cls = record {
  found = ground (arith, find_sym-new id (variable id sc_class cls.class_addr_next) cls.syms refl);
  again = ground (arith, find_sym-new id (variable id sc_class cls.class_addr_next) cls.syms refl);
  others =
      λ o n. ground (arith, find_sym-other o (variable id sc_class cls.class_addr_next) cls.syms n);
}
class-Declares id arg false older cls = record {
  found = ground (arith, find_sym-new id (variable id sc_instance cls.obj_addr_next) cls.syms refl);
  again = ground (arith, find_sym-new id (variable id sc_instance cls.obj_addr_next) cls.syms refl);
  others = λ o n.
      ground (arith, find_sym-other o (variable id sc_instance cls.obj_addr_next) cls.syms n);
}

free_in_method :
    (id : Bytes) (cls : ClassEnv) (me : MethodEnv)
    → declared id (record { cls = cls; mth = some me }) ≡ none
    → method_member id me ≡ none
unfolding declared hledej_member
free_in_method id cls me h = ground (arith, h)

refused : {A B : Type 0} (o : Option A) (b : B) (a : A) → o ≡ some a → unless_taken o b ≡ none
unfolding unless_taken
refused o b a h = ground (arith, h)

add_variable-Declares :
    (id : Bytes) (arg is_static : Bool) (older : TabClass) (cls : ClassEnv) (mth : Option MethodEnv)
    → declared id (record { cls = cls; mth = mth }) ≡ none
    → Declares id
        (new_variable id arg is_static cls mth)
        older
        (record { cls = cls; mth = mth })
        (add_variable id arg is_static cls mth)
unfolding add_variable
add_variable-Declares id arg is_static older cls none h = class-Declares id arg is_static older cls
add_variable-Declares id arg is_static older cls (some me) h =
    method-Declares id arg is_static older cls me (free_in_method id cls me h)

-- A variable that deklProm declares is found by adrProm, in its class or method and as a variable of
-- the kind declared, at the address that was next for this kind; a second declaration of the name
-- there is refused; and every other name is found as before.
pub dekl_prom-Declares :
    (id : Bytes) (arg is_static : Bool) (older : TabClass) (e e' : Env)
    → dekl_prom id arg is_static e ≡ some e'
    → Declares id (new_variable id arg is_static e.cls e.mth) older e e'
      × ((arg' is_static' : Bool) → dekl_prom id arg' is_static' e' ≡ none)
unfolding dekl_prom
dekl_prom-Declares id arg is_static older e e' h =
    let (n, same) = taken-some (declared id e) (add_variable id arg is_static e.cls e.mth) e' h in
    let k = add_variable-Declares id arg is_static older e.cls e.mth n in
    let d = subst (Declares id (new_variable id arg is_static e.cls e.mth) older e) same k in
    (d, λ a s. refused (declared id e') (add_variable id a s e'.cls e'.mth) _ d.again)
