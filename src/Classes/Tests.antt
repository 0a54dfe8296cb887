-- ===== src/Classes/Tests.antt =====
-- A table of three classes: `B` inherits from `A`, and `C` stands alone.
use nesrotom_run.Base.{
  ℕ, zero, suc, ◌<◌, ◌≡◌, refl, false, Option, none, some, List, [], ◌∷◌, arith, get_elem?, ◌==◌,
  if◌then◌else◌,
}
use nesrotom_run.State.{Bytes, Method, bc_addr, Symbol, null, Class, alloc_udo, unset}
use nesrotom_run.Classes.{
  bytes_eq, find_method, own_method, climb, find_method_in_class, calculate_totals, find_class,
  find_class_from, init_parent_pointers, link_parents, parent_of,
}
use nesrotom_run.Classes.Lookup.{Reaches, IsRanked, find_method_in_class-Reaches}
use nesrotom_run.Classes.Parents.{
  HasParent, known, unnamed, IsLinked, init_parent_pointers-IsLinked,
}
use nesrotom_run.Classes.Sizes.{TotalIs, IsLoaded, IsDone, calculate_totals-TotalIs}

abbrev method : Bytes → Method
method name = record {
  name = name;
  entry = bc_addr 12;
  args_cnt = 0;
  locals_cnt = 0;
  is_static = 0;
}

abbrev variable : Bytes → ℕ → Symbol
variable name i = record { name = name; const_ptr = 0; value = null; addr = i; const_flag = false }

abbrev class : Bytes → Option ℕ → List Method → List Symbol → Bytes → Class
class name parent methods vars up = record {
  name = name;
  parent = parent;
  methods = methods;
  allocator = some alloc_udo;
  constructor = none;
  static_init = none;
  syms_static = [];
  total_syms_instance_cnt = unset;
  syms_instance = vars;
  syms_instance_offset = unset;
  parent_name = some up;
}

abbrev table : List Class
table =
    class (66 ∷ []) (some 1) (method (103 ∷ []) ∷ []) (variable (120 ∷ []) 1 ∷ []) (65 ∷ [])
    ∷ class (65 ∷ []) none (method (102 ∷ []) ∷ []) (variable (121 ∷ []) 0 ∷ []) []
    ∷ class (67 ∷ []) none [] [] []
    ∷ []

-- `B` before its parent `A`: the rank of the parent is lower.
abbrev rank : ℕ → ℕ
rank i = if i == 0 then 1 else 0

table-IsRanked : IsRanked rank table
table-IsRanked = record { parent_in = parent_in; parent_below = parent_below }
  where
    parent_in :
        (i : ℕ) (c : Class) (p : ℕ)
        → get_elem? table i ≡ some c
        → c.parent ≡ some p
        → (k : Class) × (get_elem? table p ≡ some k)
    parent_in zero c p at up = (
      class (65 ∷ []) none (method (102 ∷ []) ∷ []) (variable (121 ∷ []) 0 ∷ []) [],
      ground arith,
    )
    parent_in (suc zero) c p at up = absurd (ground arith)
    parent_in (suc (suc zero)) c p at up = absurd (ground arith)
    parent_in (suc (suc (suc i))) c p at up = absurd (ground arith)

    parent_below :
        (i : ℕ) (c : Class) (p : ℕ)
        → get_elem? table i ≡ some c
        → c.parent ≡ some p
        → rank p < rank i
    parent_below zero c p at up = ground arith
    parent_below (suc zero) c p at up = absurd (ground arith)
    parent_below (suc (suc zero)) c p at up = absurd (ground arith)
    parent_below (suc (suc (suc i))) c p at up = absurd (ground arith)

abbrev first : Class
first = class (66 ∷ []) (some 1) (method (103 ∷ []) ∷ []) (variable (120 ∷ []) 1 ∷ []) (65 ∷ [])

find_method_in_class-Reaches_example :
    (r : Option Method) × (find_method_in_class table 2 0 (102 ∷ []) 0 ≡ some r)
    × Reaches (102 ∷ []) 0 table 0 r
find_method_in_class-Reaches_example =
    find_method_in_class-Reaches table rank 2 0 first (102 ∷ []) 0 table-IsRanked refl (omega arith)

-- The inherited method is found.
inherited : find_method_in_class table 2 0 (102 ∷ []) 0 ≡ some (some (method (102 ∷ [])))
unfolding find_method_in_class climb own_method find_method bytes_eq
inherited = refl

table-IsLoaded : IsLoaded table
table-IsLoaded = record { right = right }
  where
    right :
        (i : ℕ) (d : Class)
        → get_elem? table i ≡ some d
        → ¬ (d.total_syms_instance_cnt ≡ unset)
        → TotalIs table i d.total_syms_instance_cnt
    right zero d at h = absurd (h (ground arith))
    right (suc zero) d at h = absurd (h (ground arith))
    right (suc (suc zero)) d at h = absurd (h (ground arith))
    right (suc (suc (suc i))) d at h = absurd (ground arith)

calculate_totals-TotalIs_example :
    (es : List Class) × (calculate_totals 2 3 0 table ≡ some es) × IsDone table es 0
calculate_totals-TotalIs_example =
    calculate_totals-TotalIs table rank 2 0 table-IsRanked table-IsLoaded (λ i. ground arith)
      (omega arith)

-- The parents by name are the parents by index of the table.
linked : init_parent_pointers table ≡ some table
unfolding init_parent_pointers link_parents parent_of find_class find_class_from bytes_eq
linked = refl

table-HasParent : (i : ℕ) (c : Class) → get_elem? table i ≡ some c → HasParent table c
table-HasParent zero c at =
    known (65 ∷ []) 1
      (class (65 ∷ []) none (method (102 ∷ []) ∷ []) (variable (121 ∷ []) 0 ∷ []) [])
      (ground (arith, at)) refl refl
table-HasParent (suc zero) c at = unnamed (ground (arith, at))
table-HasParent (suc (suc zero)) c at = unnamed (ground (arith, at))
table-HasParent (suc (suc (suc i))) c at = absurd (ground arith)

init_parent_pointers-IsLinked_example :
    (es : List Class) × (init_parent_pointers table ≡ some es) × IsLinked table table es
init_parent_pointers-IsLinked_example = init_parent_pointers-IsLinked table table-HasParent
