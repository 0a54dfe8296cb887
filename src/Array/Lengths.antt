-- ===== src/Array/Lengths.antt =====
-- The two lengths of an array: in the array object and in the object of its elements
-- (arr_set_length and native_array_length of vm/k_array.c).
use nesrotom_run.Base.{ℕ, ◌^◌, ◌<◌, ◌≡◌, ◌≢◌, ◌∙◌, refl, sym, Option, some, List, eq→==, ne→==}
use nesrotom_run.State.{
  heap_ref, Value, ptr, small, arr, arr_objs, Object, Vm, ok, fault, assert_failed,
}
use nesrotom_run.State.Memory.{update, load, store, object_at}
use nesrotom_run.Frame.Calls.{make_integer_small}
use nesrotom_run.Array.{
  load_array, load_elems, store_array, store_elems, arr_set_length, native_array_length,
}

abbrev pub array_object : Option ℕ → (length alloc_size q : ℕ) → Object
array_object cls n c q = record { cls = cls; body = arr n c (ptr (heap_ref q)) }

abbrev pub elems_object : Option ℕ → (length alloc_size : ℕ) → List Value → Object
elems_object cls n c es = record { cls = cls; body = arr_objs n c es }

-- An array in the segment: its object at `r` with length `n`, its elements at `q` with length `m`.
pub record IsArray (r q n m c d : ℕ) (cls els : Option ℕ) (es : List Value) (s : Vm) : Type 0 where
  pub array_at : s.heap r ≡ some (array_object cls n c q)
  pub elems_at : s.heap q ≡ some (elems_object els m d es)
  pub apart : r ≢ q

pub load_array_lem :
    (r q n c : ℕ) (cls : Option ℕ) (s : Vm)
    → s.heap r ≡ some (array_object cls n c q)
    → load_array (ptr (heap_ref r)) s
      ≡ ok (record { length = n; alloc_size = c; elems = ptr (heap_ref q) }) s
unfolding load_array load object_at
load_array_lem r q n c cls s h = rw h

pub load_elems_lem :
    (q m d : ℕ) (els : Option ℕ) (es : List Value) (s : Vm)
    → s.heap q ≡ some (elems_object els m d es)
    → load_elems (ptr (heap_ref q)) s ≡ ok (record { length = m; alloc_size = d; cells = es }) s
unfolding load_elems load object_at
load_elems_lem q m d els es s h = rw h

abbrev pub put : ℕ → Object → Vm → Vm
put r o s = record s { heap = update s.heap r (some o) }

pub store_array_lem :
    (r q n c n' : ℕ) (cls : Option ℕ) (s : Vm)
    → s.heap r ≡ some (array_object cls n c q)
    → store_array
        (ptr (heap_ref r))
        (record { length = n'; alloc_size = c; elems = ptr (heap_ref q) })
        s
      ≡ ok tt (put r (array_object cls n' c q) s)
unfolding store_array load store object_at
store_array_lem r q n c n' cls s h = rw h

store_elems_lem :
    (q m d m' : ℕ) (els : Option ℕ) (es : List Value) (s : Vm)
    → s.heap q ≡ some (elems_object els m d es)
    → store_elems (ptr (heap_ref q)) (record { length = m'; alloc_size = d; cells = es }) s
      ≡ ok tt (put q (elems_object els m' d es) s)
unfolding store_elems load store object_at
store_elems_lem q m d m' els es s h = rw h

pub put_other : (r q : ℕ) (o : Object) (s : Vm) → r ≢ q → (put r o s).heap q ≡ s.heap q
put_other r q o s ne = rw (ne→== q r (λ e. ne (sym e)))

pub put_same : (r : ℕ) (o : Object) (s : Vm) → (put r o s).heap r ≡ some o
put_same r o s = rw (eq→== r r refl)

-- The state after arr_set_length.
unfoldable pub resized : (r q n c d : ℕ) (cls els : Option ℕ) → List Value → Vm → Vm
resized r q n c d cls els es s = put q (elems_object els n d es) (put r (array_object cls n c q) s)

resized-IsArray :
    (r q n m n' c d : ℕ) (cls els : Option ℕ) (es : List Value) (s : Vm)
    → IsArray r q n m c d cls els es s
    → IsArray r q n' n' c d cls els es (resized r q n' c d cls els es s)
unfolding resized
resized-IsArray r q n m n' c d cls els es s a = record {
  array_at =
      put_other q r (elems_object els n' d es) (put r (array_object cls n' c q) s)
        (λ e. a.apart (sym e))
      ∙ put_same r (array_object cls n' c q) s;
  elems_at = put_same q (elems_object els n' d es) (put r (array_object cls n' c q) s);
  apart = a.apart;
}

arr_set_length_lem :
    (r q n m n' c d : ℕ) (cls els : Option ℕ) (es : List Value) (s : Vm)
    → IsArray r q n m c d cls els es s
    → arr_set_length (ptr (heap_ref r)) n' s ≡ ok tt (resized r q n' c d cls els es s)
unfolding arr_set_length resized
arr_set_length_lem r q n m n' c d cls els es s a =
    let s₁ = put r (array_object cls n' c q) s in
    let at = put_other r q (array_object cls n' c q) s a.apart ∙ a.elems_at in
    rw (
      load_array_lem r q n c cls s a.array_at,
      store_array_lem r q n c n' cls s a.array_at,
      load_elems_lem q m d els es s₁ at,
      store_elems_lem q m d n' els es s₁ at,
    )

length_same :
    (r q n m c d : ℕ) (cls els : Option ℕ) (es : List Value) (s : Vm)
    → IsArray r q n m c d cls els es s
    → n < 2 ^ 31
    → n ≡ m
    → native_array_length (ptr (heap_ref r)) s ≡ ok (small n) s
unfolding native_array_length
length_same r q n m c d cls els es s a h e = rw (
  load_array_lem r q n c cls s a.array_at,
  make_integer_small n s h,
  load_elems_lem q m d els es s a.elems_at,
  eq→== n m e,
)

pub length_differs :
    (r q n m c d : ℕ) (cls els : Option ℕ) (es : List Value) (s : Vm)
    → IsArray r q n m c d cls els es s
    → n < 2 ^ 31
    → n ≢ m
    → native_array_length (ptr (heap_ref r)) s ≡ fault assert_failed
unfolding native_array_length
length_differs r q n m c d cls els es s a h ne = rw (
  load_array_lem r q n c cls s a.array_at,
  make_integer_small n s h,
  load_elems_lem q m d els es s a.elems_at,
  ne→== n m ne,
)

-- arr_set_length on an array of the segment succeeds, whatever lengths its two objects had; both have
-- the new length then, capacities and elements are as before, and native_array_length, whose
-- assertion holds, gives that length when it is an `int`.
pub native_array_length-arr_set_length :
    (r q n m n' c d : ℕ) (cls els : Option ℕ) (es : List Value) (s : Vm)
    → IsArray r q n m c d cls els es s
    → n' < 2 ^ 31
    → (arr_set_length (ptr (heap_ref r)) n' s ≡ ok tt (resized r q n' c d cls els es s))
      × IsArray r q n' n' c d cls els es (resized r q n' c d cls els es s)
      × (native_array_length (ptr (heap_ref r)) (resized r q n' c d cls els es s)
          ≡ ok (small n') (resized r q n' c d cls els es s))
native_array_length-arr_set_length r q n m n' c d cls els es s a h =
    let b = resized-IsArray r q n m n' c d cls els es s a in
    (
      arr_set_length_lem r q n m n' c d cls els es s a,
      b,
      length_same r q n' n' c d cls els es (resized r q n' c d cls els es s) b h refl,
    )
