-- ===== src/Array/Tests.antt =====
-- The growth of an array at concrete lengths.
use nesrotom_run.Base.{ℕ, suc, ◌≤◌, ◌≡◌, arith, none, some, [], ◌∷◌, refl, List, ◌+◌}
use nesrotom_run.State.{
  Vm, ok, fault, out_of_fuel, heap_ref, ptr, small, null, assert_failed, Value,
}
use nesrotom_run.State.Memory.{update}
use nesrotom_run.State.Samples.{empty_vm}
use nesrotom_run.Array.{grow_size, arr_set_length, native_array_length, array_append}
use nesrotom_run.Array.Lengths.{
  array_object, elems_object, IsArray, resized, native_array_length-arr_set_length,
}
use nesrotom_run.Array.Append.{IsNativeCall, array_append_lem}
use nesrotom_run.Array.Copying.{IsSplice}
use nesrotom_run.Array.Growth.{grow_size-fits, grow_size-stuck}

grow_size-fits_example :
    (m : ℕ) × (grow_size (suc 100) 512 600 empty_vm ≡ ok m empty_vm) × (600 ≤ m) × (512 ≤ m)
grow_size-fits_example =
    grow_size-fits 100 512 600 empty_vm (omega arith) (omega arith) (omega arith)

grow_size-stuck_example : grow_size 1000 1 2 empty_vm ≡ fault out_of_fuel
grow_size-stuck_example = grow_size-stuck 1000 2 empty_vm (omega arith)

-- An array of length 1 and capacity 2.
abbrev small_array : Vm
small_array = record empty_vm {
  heap =
      update (update (λ _. none) 0 (some (array_object none 1 2 40))) 40
        (some (elems_object none 1 2 (small 5 ∷ null ∷ [])));
}

small_array-IsArray : IsArray 0 40 1 1 2 2 none none (small 5 ∷ null ∷ []) small_array
small_array-IsArray = record { array_at = refl; elems_at = refl; apart = ground arith }

native_array_length-arr_set_length_example :
    (arr_set_length (ptr (heap_ref 0)) 2 small_array
      ≡ ok tt (resized 0 40 2 2 2 none none (small 5 ∷ null ∷ []) small_array))
    × IsArray 0 40 2 2 2 2 none none
        (small 5 ∷ null ∷ [])
        (resized 0 40 2 2 2 none none (small 5 ∷ null ∷ []) small_array)
    × (native_array_length
          (ptr (heap_ref 0))
          (resized 0 40 2 2 2 none none (small 5 ∷ null ∷ []) small_array)
        ≡ ok (small 2) (resized 0 40 2 2 2 none none (small 5 ∷ null ∷ []) small_array))
native_array_length-arr_set_length_example =
    native_array_length-arr_set_length 0 40 1 1 2 2 2 none none (small 5 ∷ null ∷ []) small_array
      small_array-IsArray (omega arith)

-- An array with the element 5 and the capacity 2, and one with the element 7, in a call of a native
-- method of the first with the second as its argument.
abbrev appending : Vm
appending = record empty_vm {
  heap =
      update (update small_array.heap 80 (some (array_object none 1 1 120))) 120
        (some (elems_object none 1 1 (small 7 ∷ [])));
  stack =
      update
        (update
          (update (update (update (λ _. null) 0 (ptr (heap_ref 80))) 1 (ptr (heap_ref 0))) 2
            (small 9))
          3 (small 0))
        4 (small 0);
  ap = 0;
  fp = 5;
  sp = 6;
}

appending-IsNativeCall : IsNativeCall 0 80 9 0 0 appending
appending-IsNativeCall = record {
  frame = record {
    ret_cell = refl;
    ap_cell = refl;
    fp_cell = refl;
    has_cells = omega arith;
    fp_fits = omega arith;
    ap_fits = omega arith;
  };
  this_cell = refl;
  arg_cell = refl;
  has_this = omega arith;
  fp_below = omega arith;
  room = omega arith;
}

receiver-IsArray : IsArray 0 40 1 1 2 2 none none (small 5 ∷ null ∷ []) appending
receiver-IsArray = record { array_at = refl; elems_at = refl; apart = ground arith }

argument-IsArray : IsArray 80 120 1 1 1 1 none none (small 7 ∷ []) appending
argument-IsArray = record { array_at = refl; elems_at = refl; apart = ground arith }

array_append_lem_example :
    (es : List Value) × (t : Vm) × (array_append 9 appending ≡ ok tt t)
    × IsArray 0 40 (1 + 1) 1 2 2 none none es t
    × IsSplice 1 1 0 (small 5 ∷ null ∷ []) (small 7 ∷ []) es
    × (native_array_length (ptr (heap_ref 0)) t ≡ fault assert_failed)
array_append_lem_example =
    array_append_lem 9 0 40 1 2 1 2 80 120 1 1 1 1 9 0 0 none none none none (small 5 ∷ null ∷ [])
      (small 7 ∷ []) appending appending-IsNativeCall receiver-IsArray argument-IsArray
      (ground arith) (ground arith) (omega arith) (omega arith) (omega arith) (omega arith)
      (ground arith)
