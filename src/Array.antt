-- ===== src/Array.antt =====
-- The growing arrays of vm/k_array.c and the allocation of their elements in vm/memory.c. An array
-- object points to a second object with the elements; both keep the length and the capacity.
pub mod Growth
pub mod Lengths
pub mod Copying
pub mod Append
mod Tests
use nesrotom_run.Base.{
  ℕ, zero, suc, ◌+◌, ◌-◌, ◌*◌, ◌/◌, ◌^◌, Bool, true, false, not, ◌&&◌, ◌||◌, Option, none, some,
  List, [], ◌∷◌, length, get_elem?, set, replicate, ltb, leb, ◌==◌, if◌then◌else◌,
}
use nesrotom_run.State.{
  Ref, Value, null, ptr, small, Body, arr, arr_objs, Object, Vm, vm_error, bad_access,
  assert_failed, out_of_fuel, Cmd, Run, ok, fault, pure, stop, get, modify, ensure, from_option,
  ◌>>=◌, ◌>>◌, add32,
}
use nesrotom_run.State.Memory.{alloc, load, store, make_integer}
use nesrotom_run.Frame.{stack_push, this, arg, bc_ret, bc_ret_self}
use nesrotom_run.Objects.{kek_arr, has_type, nil_value, is_ptr}

-- ARR_INIT_SIZE
abbrev pub arr_init_size : ℕ
arr_init_size = 512

-- The fields of an array object and of an object of elements.
pub record ArrayHead : Type 0 where
  pub length : ℕ
  pub alloc_size : ℕ
  pub elems : Value

pub record Elems : Type 0 where
  pub length : ℕ
  pub alloc_size : ℕ
  pub cells : List Value

abbrev pub as_array : Body → Option ArrayHead
as_array (arr l a e) = some (record { length = l; alloc_size = a; elems = e })
as_array _ = none

abbrev pub as_elems : Body → Option Elems
as_elems (arr_objs l a e) = some (record { length = l; alloc_size = a; cells = e })
as_elems _ = none

unfoldable pub load_array : Value → Cmd ArrayHead
load_array v = do o ← load v; from_option (as_array o.body) bad_access

unfoldable pub load_elems : Value → Cmd Elems
load_elems v = do o ← load v; from_option (as_elems o.body) bad_access

-- Writing the fields back keeps the class in the header.
unfoldable pub store_array : Value → ArrayHead → Cmd (Unit {0})
store_array v h = do o ← load v; store v (record o { body = arr h.length h.alloc_size h.elems })

unfoldable pub store_elems : Value → Elems → Cmd (Unit {0})
store_elems v e = do
  o ← load v
  store v (record o { body = arr_objs e.length e.alloc_size e.cells })

-- arr_set_length: in both objects, after the check that the array points to elements.
unfoldable pub arr_set_length : Value → ℕ → Cmd (Unit {0})
arr_set_length a n = do
  h ← load_array a
  store_array a (record h { length = n })
  e ← load_elems h.elems
  store_elems h.elems (record e { length = n })

-- arr_set_alloc_size
unfoldable pub arr_set_alloc_size : Value → ℕ → Cmd (Unit {0})
arr_set_alloc_size a n = do
  h ← load_array a
  store_array a (record h { alloc_size = n })
  e ← load_elems h.elems
  store_elems h.elems (record e { alloc_size = n })

-- alloc_array_objs: `items` cells, all NIL. Its length and capacity are written by the callers.
unfoldable pub alloc_array_objs : ℕ → Cmd Value
alloc_array_objs items =
    alloc (record { cls = none; body = arr_objs 0 0 (replicate items nil_value) }) (32 + items * 8)

-- alloc_arr_elems
unfoldable pub alloc_arr_elems : (size length : ℕ) → Cmd Value
alloc_arr_elems size n = do
  v ← alloc_array_objs size
  e ← load_elems v
  store_elems v (record e { length = n })
  pure v

-- alloc_array
unfoldable pub alloc_array : Option ℕ → Cmd Value
alloc_array cls = alloc (record { cls = cls; body = arr 0 0 null }) 40

-- native_new_array
unfoldable pub native_new_array : Value → Cmd (Unit {0})
native_new_array a = do
  h ← load_array a
  store_array a (record h { length = 0 })
  v ← alloc_arr_elems arr_init_size 0
  h ← load_array a
  store_array a (record h { elems = v })
  arr_set_alloc_size a arr_init_size

-- The loop of arr_realloc_elems that finds the new capacity; `new_size * 3` past `int` is a fault.
unfoldable pub grow_size : ℕ → (new_size length : ℕ) → Cmd ℕ
grow_size zero new_size n = stop out_of_fuel
grow_size (suc fuel) new_size n =
    let rest = grow_size fuel (new_size * 3 / 2) n in
    if ltb new_size n
    then (if ltb (new_size * 3) (2 ^ 31) then rest else stop bad_access)
    else pure new_size

-- The cells of the new elements: the first `n` of the old ones, then what was there.
unfoldable pub copy_cells : ℕ → List Value → List Value → Option (List Value)
copy_cells zero new old = some new
copy_cells (suc n) [] old = none
copy_cells (suc n) (x ∷ new) [] = none
copy_cells (suc n) (x ∷ new) (y ∷ old) = elim (copy_cells n new old) [
  | none ↦ none
  | some r ↦ some (y ∷ r)
]

-- `arr->elems[arr->length - 1] != NULL`. With length 0 the word before the elements is read: the
-- length and the capacity of the object of elements.
unfoldable pub last_is_set : ArrayHead → Elems → Option Bool
last_is_set h e = elim (h.length == 0) [
  | true ↦ some (not (e.length == 0 && e.alloc_size == 0))
  | false ↦ elim (get_elem? e.cells (h.length - 1)) [
    | none ↦ none
    | some null ↦ some false
    | some _ ↦ some true
  ]
]

-- arr_realloc_elems, with fuel for the loop
unfoldable pub arr_realloc_elems : ℕ → Value → ℕ → Cmd (Unit {0})
arr_realloc_elems fuel a n = do
  h ← load_array a
  e ← load_elems h.elems
  set' ← from_option (last_is_set h e) bad_access
  ensure set' assert_failed
  new_size ← grow_size fuel h.alloc_size n
  v ← alloc_arr_elems new_size h.length
  new ← load_elems v
  cells ← from_option (copy_cells h.length new.cells e.cells) bad_access
  store_elems v (record new { cells = cells })
  old ← load_elems h.elems
  store_elems h.elems (record old { length = h.length })
  store_array a (record h { elems = v })
  arr_set_alloc_size a new_size

-- native_grow_array
unfoldable pub native_grow_array : ℕ → Value → ℕ → Cmd (Unit {0})
native_grow_array fuel a n = do arr_realloc_elems fuel a n; arr_set_length a n

-- `arr->elems[idx] = obj`
unfoldable pub set_cell : Value → ℕ → Value → Cmd (Unit {0})
set_cell a idx obj = do
  h ← load_array a
  e ← load_elems h.elems
  ensure (ltb idx (length e.cells)) bad_access
  store_elems h.elems (record e { cells = set e.cells idx obj })

-- native_arr_elem_set; its callers count `idx` up from 0.
unfoldable pub native_arr_elem_set : ℕ → Value → ℕ → Value → Cmd (Unit {0})
native_arr_elem_set fuel a idx obj = do
  h ← load_array a
  if leb h.alloc_size idx
      then native_grow_array fuel a (idx + 1)
      else if leb h.length idx
      then arr_set_length a (idx + 1)
      else pure tt
  set_cell a idx obj

-- native_array_length
unfoldable pub native_array_length : Value → Cmd Value
native_array_length a = do
  h ← load_array a
  v ← make_integer h.length
  e ← load_elems h.elems
  ensure (h.length == e.length) assert_failed
  pure v

-- new_array under `-g none`, where no collection is tried first
unfoldable pub new_array : Cmd (Unit {0})
new_array = do a ← this; native_new_array a; bc_ret_self

-- array_length
unfoldable pub array_length : Cmd (Unit {0})
array_length = do a ← this; v ← native_array_length a; stack_push v; bc_ret

-- The loop of array_append: `n` cells of the argument from index `j` on.
unfoldable pub append_cells : (n i j : ℕ) → Value → Value → Cmd (Unit {0})
append_cells zero i j a b = pure tt
append_cells (suc n) i j a b = do
  h ← load_array b
  e ← load_elems h.elems
  v ← from_option (get_elem? e.cells j) bad_access
  set_cell a i v
  append_cells n (suc i) (suc j) a b

-- array_append: without growth only the length in the array object is set. The loop's bound is the
-- length of the argument, which is read again in every round and does not change in the loop.
unfoldable pub array_append : ℕ → Cmd (Unit {0})
array_append fuel = do
  a ← this
  b ← arg 0
  is_arr ← has_type kek_arr b
  ensure is_arr vm_error
  h ← load_array a
  k ← load_array b
  if ltb h.alloc_size (h.length + k.length)
      then native_grow_array fuel a (h.length + k.length)
      else store_array a (record h { length = h.length + k.length })
  k ← load_array b
  append_cells k.length h.length 0 a b
  stack_push nil_value
  bc_ret
