-- ===== src/Compiler/Tabsym/Tests.antt =====
-- Two classes declared, the second with the first as its parent.
use nesrotom_run.Base.{◌≡◌, ◌<◌, refl, inr, none, some, [], ◌∷◌, false, arith, Bool}
use mathlib.Core.List.{Memᴰ}
use nesrotom_run.Classes.{bytes_eq}
use nesrotom_run.Compiler.Tree.{sc_instance}
use nesrotom_run.Compiler.Lexan.{codes}
use nesrotom_run.Compiler.Tabsym.{
  ClassEnv, PrvekTab, no_parent, known, class_at, class_member, find_sym, hledej_class,
  hledej_member,
}
use nesrotom_run.Compiler.Tabsym.Declare.{
  add_to_class, add_variable, declared, dekl_class, dekl_prom, first_addrs, found_parent, new_class,
  parent_class, parent_named, unless_taken, variable,
}
use nesrotom_run.Compiler.Tabsym.Lookup.{Declares, new_variable, dekl_prom-Declares}
use nesrotom_run.Compiler.Tabsym.Addresses.{
  Reached, reached_nil, reached_class, reached_variable, Ancestor, parent, Reached-Ancestor,
}

abbrev x_of_a : PrvekTab
x_of_a = variable (codes "x") sc_instance 0

abbrev y_of_b : PrvekTab
y_of_b = variable (codes "y") sc_instance 1

abbrev class_a : ClassEnv
class_a = new_class (codes "A") none no_parent []

abbrev class_ax : ClassEnv
class_ax = add_to_class (codes "x") false class_a

abbrev class_b : ClassEnv
class_b = new_class (codes "B") (some (codes "A")) (known 0) (class_ax ∷ [])

abbrev class_by : ClassEnv
class_by = add_to_class (codes "y") false class_b

a_has_x :
    dekl_prom (codes "x") false false (record { cls = class_a; mth = none })
    ≡ some (record { cls = class_ax; mth = none })
unfolding dekl_prom declared hledej_member class_member find_sym unless_taken add_variable new_class
a_has_x = refl

b_has_y :
    dekl_prom (codes "y") false false (record { cls = class_b; mth = none })
    ≡ some (record { cls = class_by; mth = none })
unfolding dekl_prom declared hledej_member class_member find_sym unless_taken add_variable new_class
b_has_y = refl

a_first : dekl_class (codes "A") none [] ≡ some (class_a ∷ [])
unfolding dekl_class hledej_class unless_taken parent_named
a_first = refl

b_second :
    dekl_class (codes "B") (some (codes "A")) (class_ax ∷ []) ≡ some (class_b ∷ class_ax ∷ [])
unfolding dekl_class hledej_class unless_taken parent_named found_parent bytes_eq new_class
    add_to_class
b_second = refl

both-Reached : Reached (class_by ∷ class_ax ∷ [])
unfolding new_class add_to_class first_addrs parent_class class_at
both-Reached =
    reached_variable (codes "y") false false none
      (reached_class (codes "B") (some (codes "A"))
        (reached_variable (codes "x") false false none
          (reached_class (codes "A") none reached_nil a_first)
          (record { class_room = omega arith; obj_room = omega arith }) a_has_x)
        b_second)
      (record { class_room = omega arith; obj_room = omega arith }) b_has_y

a_above_b : Ancestor (class_by ∷ class_ax ∷ []) class_by class_ax
unfolding class_at new_class add_to_class
a_above_b = parent 1 0 refl refl refl

y_in_b : Memᴰ y_of_b class_by.syms
unfolding add_to_class new_class first_addrs parent_class class_at
y_in_b = Memᴰ.head refl

x_in_a : Memᴰ x_of_a class_ax.syms
unfolding add_to_class new_class first_addrs parent_class
x_in_a = Memᴰ.head refl

Reached-Ancestor_example : x_of_a.addr < y_of_b.addr
unfolding variable
Reached-Ancestor_example =
    Reached-Ancestor y_of_b x_of_a both-Reached a_above_b y_in_b x_in_a (inr (refl, refl))

dekl_prom-Declares_example :
    Declares
      (codes "x")
      (new_variable (codes "x") false false class_a none)
      []
      (record { cls = class_a; mth = none })
      (record { cls = class_ax; mth = none })
    × ((arg is_static : Bool)
        → dekl_prom (codes "x") arg is_static (record { cls = class_ax; mth = none }) ≡ none)
dekl_prom-Declares_example =
    dekl_prom-Declares (codes "x") false false [] (record { cls = class_a; mth = none })
      (record { cls = class_ax; mth = none }) a_has_x
