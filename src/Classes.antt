-- ===== src/Classes.antt =====
-- The class table of vm/vm.c: searches by name, the links from a class to its parent, and the
-- number of instance variables of an object. A class is its index in `classes_g`. The C functions
-- that climb from a class to its parent recur without a bound; here they run on fuel, and `none`
-- means that it ran out, or that the index is not one of a class.
pub mod Lookup
pub mod Sizes
pub mod Parents
mod Tests
use nesrotom_run.Base.{
  ℕ, zero, suc, ◌+◌, ◌-◌, ◌%◌, ◌^◌, Bool, true, false, ◌&&◌, Option, none, some, List, [], ◌∷◌,
  length, get_elem?, set, ltb, ◌==◌, if◌then◌else◌,
}
use nesrotom_run.State.{
  Bytes, Method, Symbol, Class, Value, Vm, Cmd, Fault, bad_access, vm_error, assert_failed, Run, ok,
  fault, unset, add32, sub32, from_option, stop, pure, get, ◌>>=◌,
}

-- `!strcmp(a, b)`
unfoldable pub bytes_eq : Bytes → Bytes → Bool
bytes_eq [] [] = true
bytes_eq [] (b ∷ bs) = false
bytes_eq (a ∷ as') [] = false
bytes_eq (a ∷ as') (b ∷ bs) = a == b && bytes_eq as' bs

-- vm_find_class, from index `i` on
unfoldable pub find_class_from : ℕ → Bytes → List Class → Option ℕ
find_class_from i name [] = none
find_class_from i name (c ∷ cs) =
    if bytes_eq c.name name then some i else find_class_from (suc i) name cs

unfoldable pub find_class : Bytes → List Class → Option ℕ
find_class name cs = find_class_from 0 name cs

-- The loop of vm_find_method_in_class over the methods of one class; `is_static` is 0 or 1.
unfoldable pub find_method : Bytes → ℕ → List Method → Option Method
find_method name is_static [] = none
find_method name is_static (m ∷ ms) =
    if bytes_eq m.name name && m.is_static == is_static
    then some m
    else find_method name is_static ms

abbrev pub is_named : Bytes → Option Method → Bool
is_named name none = false
is_named name (some m) = bytes_eq m.name name

-- What vm_find_method_in_class finds in the class itself: its constructor comes first, static or
-- not, then its methods.
unfoldable pub own_method : Bytes → ℕ → Class → Option Method
own_method name is_static c =
    if is_named name c.constructor then c.constructor else find_method name is_static c.methods

unfoldable pub find_symbol : Bytes → List Symbol → Option Symbol
find_symbol name [] = none
find_symbol name (y ∷ ys) = if bytes_eq y.name name then some y else find_symbol name ys

abbrev pub own_static_sym : Bytes → Class → Option Symbol
own_static_sym name c = find_symbol name c.syms_static

abbrev pub own_instance_sym : Bytes → Class → Option Symbol
own_instance_sym name c = find_symbol name c.syms_instance

-- The recursion that the three searches share: the class itself, then its parent.
unfoldable pub climb {ℓ} :
    {A : Type ℓ} → (Class → Option A) → List Class → ℕ → ℕ → Option (Option A)
climb own cs zero i = none
climb own cs (suc fuel) i = elim (get_elem? cs i) [
  | none ↦ none
  | some c ↦ elim (own c) [
    | some a ↦ some (some a)
    | none ↦ elim c.parent [ none ↦ some none | some p ↦ climb own cs fuel p ]
  ]
]

-- vm_find_method_in_class
unfoldable pub find_method_in_class : List Class → ℕ → ℕ → Bytes → ℕ → Option (Option Method)
find_method_in_class cs fuel i name is_static = climb (own_method name is_static) cs fuel i

-- vm_find_static_sym_in_class
unfoldable pub find_static_sym_in_class : List Class → ℕ → ℕ → Bytes → Option (Option Symbol)
find_static_sym_in_class cs fuel i name = climb (own_static_sym name) cs fuel i

-- vm_find_instance_sym_in_class
unfoldable pub find_instance_sym_in_class : List Class → ℕ → ℕ → Bytes → Option (Option Symbol)
find_instance_sym_in_class cs fuel i name = climb (own_instance_sym name) cs fuel i

-- vm_find_method, from index `i` on: the first class that has the method, itself or by a parent.
unfoldable pub find_method_from :
    List Class → ℕ → Bytes → ℕ → (todo i : ℕ) → Option (Option (ℕ × Method))
find_method_from cs fuel name is_static zero i = some none
find_method_from cs fuel name is_static (suc todo) i =
    elim (find_method_in_class cs fuel i name is_static) [
      | none ↦ none
      | some none ↦ find_method_from cs fuel name is_static todo (suc i)
      | some (some m) ↦ some (some (i, m))
    ]

unfoldable pub vm_find_method : List Class → ℕ → Bytes → ℕ → Option (Option (ℕ × Method))
vm_find_method cs fuel name is_static = find_method_from cs fuel name is_static (length cs) 0

-- The parent that vm_init_parent_pointers gives a class: none for a missing or empty name. A name
-- that is no class's is a failed assertion, here the outer `none`.
unfoldable pub parent_of : List Class → Class → Option (Option ℕ)
parent_of cs c = elim c.parent_name [
  | none ↦ some none
  | some [] ↦ some none
  | some (b ∷ bs) ↦ elim (find_class (b ∷ bs) cs) [ none ↦ none | some p ↦ some (some p) ]
]

-- vm_init_parent_pointers over the classes `todo`; names are searched in the whole table.
unfoldable pub link_parents : List Class → List Class → Option (List Class)
link_parents cs [] = some []
link_parents cs (c ∷ todo) = elim (parent_of cs c) [
  | none ↦ none
  | some p ↦ elim (link_parents cs todo) [
    | none ↦ none
    | some linked ↦ some (record c { parent = p } ∷ linked)
  ]
]

unfoldable pub init_parent_pointers : List Class → Option (List Class)
init_parent_pointers cs = link_parents cs cs

abbrev pub with_total : Class → ℕ → Class
with_total c n = record c { total_syms_instance_cnt = n }

-- calc_total_syms_cnt: the count and the table with the counts that were filled in.
unfoldable pub calc_total_syms_cnt : ℕ → List Class → ℕ → Option (ℕ × List Class)
calc_total_syms_cnt zero cs i = none
calc_total_syms_cnt (suc fuel) cs i = elim (get_elem? cs i) [
  | none ↦ none
  | some c ↦ elim (c.total_syms_instance_cnt == unset) [
    | false ↦ some (c.total_syms_instance_cnt, cs)
    | true ↦ elim c.parent [
      | none ↦ some (
        length c.syms_instance % 2 ^ 32,
        set cs i (with_total c (length c.syms_instance % 2 ^ 32)),
      )
      | some p ↦ elim (calc_total_syms_cnt fuel cs p) [
        | none ↦ none
        | some (n, cs') ↦ some (
          add32 (length c.syms_instance) n,
          set cs' i (with_total c (add32 (length c.syms_instance) n)),
        )
      ]
    ]
  ]
]

-- The first half of vm_calculate_udo_sizes: every class from index `i` on.
unfoldable pub calculate_totals : ℕ → (todo i : ℕ) → List Class → Option (List Class)
calculate_totals fuel zero i cs = some cs
calculate_totals fuel (suc todo) i cs = elim (calc_total_syms_cnt fuel cs i) [
  | none ↦ none
  | some (n, cs') ↦ calculate_totals fuel todo (suc i) cs'
]
