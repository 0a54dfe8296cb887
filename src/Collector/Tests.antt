-- ===== src/Collector/Tests.antt =====
-- A small heap collected, and the collector's theorems at it.
use nesrotom_run.Base.{ℕ, ◌+◌, ◌≡◌, ◌≢◌, refl, sym, ap, ◌∙◌, none, List, [], ◌∷◌, ◌++◌, arith}
use mathlib.Core.List.{Memᴰ}
use nesrotom_run.State.{
  const_ref, heap_ref, null, ptr, small, str, expt, arr_objs, Object, out_of_fuel,
}
use nesrotom_run.State.Memory.{aligned}
use nesrotom_run.Collector.{
  object, Root, Gc, Outcome, done, failed, put, ref_eq, obj_size, body_size, from_option, read,
  is_const, ptr_in_space, ptr_in_to_space,
}
use nesrotom_run.Collector.Scavenge.{
  scavenge, swap_spaces, copy_roots, scan_loop, scan_next, advance_scan, copy_neighbor, write_body,
  copy_fields, copy_slots, copy_elem, copy_var, copy_elems_ptr, copy_neighbor_inner, copy_root_obj,
  forward, forward_cell, copy_and_forward, copy_obj_to_space_free, place, leave_forward, each,
  root_static, root_variable, root_cell, root_stack, set_statics, set_rootset, set_const_arrays,
  set_stack, in_segment,
}
use nesrotom_run.Collector.Isomorphic.{Settled, IsCopy, scavenge-IsCopy, scavenge-Settled}
use nesrotom_run.Collector.Finishes.{scavenge-finishes}
use nesrotom_run.Collector.Malloc.{taken-Settled}
use nesrotom_run.Collector.Rootset.{
  rootset_add, rootset_remove_id, intact, Absent, absent_nil, absent_cons, outcome,
  rootset_remove_id-rootset_add, rootset_remove_id_lem,
}
use nesrotom_run.Collector.Remembered.{
  Entry, Consistent, Cleans, cleaned, remove_dups_in_rs, remove_dups_in_rs-Cleans,
}

-- Two spaces without objects.
abbrev empty_heap : Gc
empty_heap = record {
  classes = [];
  cells = λ r. none;
  from_space = 1048576;
  to_space = 2097152;
  free = 2097152;
  scan = 2097152;
  iteration = 0;
  statics = (ptr (heap_ref 2097192) ∷ null ∷ []) ∷ [];
  rootset = record { uid = 1; obj = ptr (heap_ref 2097240) } ∷ [];
  const_arrays = [];
  stack = ptr (heap_ref 2097192) ∷ small 3 ∷ ptr (const_ref 0) ∷ [];
}

empty_heap-Settled : Settled empty_heap
empty_heap-Settled = record {
  plain = λ r b n e. absurd (ground (arith, e));
  homes = λ r o e. absurd (ground (arith, e));
  low = omega arith;
  high = omega arith;
}

abbrev text : Object
text = record { cls = none; body = str (65 ∷ 66 ∷ 67 ∷ []) }

abbrev raised : Object
raised = record { cls = none; body = expt 0 (ptr (heap_ref 2097152)) }

abbrev elements : Object
elements = record {
  cls = none;
  body = arr_objs 2 3 (ptr (heap_ref 2097192) ∷ small 7 ∷ ptr (heap_ref 5) ∷ []);
}

-- A string, an exception whose message it is, and the elements of an array that has the exception in
-- its first place and something left behind the used ones.
abbrev heap1 : Gc
heap1 = put (heap_ref 2097152) (object text) (record empty_heap { free = 2097192 })

abbrev heap2 : Gc
heap2 = put (heap_ref 2097192) (object raised) (record heap1 { free = 2097240 })

abbrev heap3 : Gc
heap3 = put (heap_ref 2097240) (object elements) (record heap2 { free = 2097296 })

heap3-Settled : Settled heap3
unfolding aligned put
heap3-Settled =
    taken-Settled 56 elements
      (taken-Settled 48 raised (taken-Settled 35 text empty_heap-Settled (omega arith))
        (omega arith))
      (omega arith)

abbrev left_by : {A : Type 0} → Gc → Outcome A → Gc
left_by s (done a t) = t
left_by s (failed x) = s

abbrev result : Gc
result = left_by heap3 (scavenge heap3)

collected : scavenge heap3 ≡ done tt result
unfolding scavenge swap_spaces copy_roots scan_loop scan_next advance_scan copy_neighbor write_body
    copy_fields copy_slots copy_elem copy_var copy_elems_ptr copy_neighbor_inner copy_root_obj
    forward forward_cell copy_and_forward copy_obj_to_space_free place leave_forward each
    root_static root_variable root_cell root_stack set_statics set_rootset set_const_arrays
    set_stack in_segment put ref_eq obj_size body_size from_option read is_const ptr_in_space
    ptr_in_to_space aligned
collected = refl

scavenge-IsCopy_example : IsCopy (swap_spaces heap3) result
scavenge-IsCopy_example = scavenge-IsCopy heap3 result heap3-Settled collected

scavenge-finishes_example : scavenge heap3 ≢ failed out_of_fuel
scavenge-finishes_example = scavenge-finishes heap3 heap3-Settled

roots_moved : result.stack ≡ ptr (heap_ref 1048576) ∷ small 3 ∷ ptr (const_ref 0) ∷ []
unfolding scavenge swap_spaces copy_roots scan_loop scan_next advance_scan copy_neighbor write_body
    copy_fields copy_slots copy_elem copy_var copy_elems_ptr copy_neighbor_inner copy_root_obj
    forward forward_cell copy_and_forward copy_obj_to_space_free place leave_forward each
    root_static root_variable root_cell root_stack set_statics set_rootset set_const_arrays
    set_stack in_segment put ref_eq obj_size body_size from_option read is_const ptr_in_space
    ptr_in_to_space aligned
roots_moved = refl

scavenge-Settled_example :
    Settled result × (result.from_space ≡ 2097152) × (result.to_space ≡ 1048576)
unfolding put
scavenge-Settled_example = scavenge-Settled heap3 result heap3-Settled collected

abbrev heap4 : Gc
heap4 = put (heap_ref 2097296) (object text) (record heap3 { free = 2097296 + aligned 35 })

abbrev first : Root
first = record { uid = 1; obj = ptr (heap_ref 8) }

abbrev second : Root
second = record { uid = 2; obj = small 5 }

abbrev third : Root
third = record { uid = 3; obj = null }

absent : (id : ℕ) → id ≢ 1 → id ≢ 2 → Absent id (second ∷ first ∷ [])
absent id a b =
    absent_cons (λ e. b (omega (arith, e))) (absent_cons (λ e. a (omega (arith, e))) absent_nil)

rootset_remove_id-rootset_add_example :
    rootset_remove_id
      ((rootset_add (small 9) 2 (second ∷ first ∷ [])).0)
      ((rootset_add (small 9) 2 (second ∷ first ∷ [])).1)
    ≡ intact (second ∷ first ∷ [])
rootset_remove_id-rootset_add_example =
    rootset_remove_id-rootset_add (small 9) 2 (second ∷ first ∷ [])
      (absent 3 (omega arith) (omega arith))

rootset_remove_id_lem_example :
    rootset_remove_id 3 ((second ∷ first ∷ []) ++ (third ∷ [])) ≡ outcome (second ∷ first ∷ []) []
rootset_remove_id_lem_example =
    rootset_remove_id_lem 3 (second ∷ first ∷ []) third [] (absent 3 (omega arith) (omega arith))
      refl absent_nil

abbrev entries : List Entry
entries =
    record { old_obj = 40; new_obj = 64 }
    ∷ record { old_obj = 40; new_obj = 72 }
    ∷ record { old_obj = 40; new_obj = 64 }
    ∷ []

of_40 : (x : Entry) → Memᴰ x entries → x.old_obj ≡ 40
of_40 x (Memᴰ.head e) = ap (λ q. q.old_obj) e
of_40 x (Memᴰ.tail (Memᴰ.head e)) = ap (λ q. q.old_obj) e
of_40 x (Memᴰ.tail (Memᴰ.tail (Memᴰ.head e))) = ap (λ q. q.old_obj) e
of_40 x (Memᴰ.tail (Memᴰ.tail (Memᴰ.tail m))) = elim m [ ]

entries-Consistent : Consistent entries
entries-Consistent = record {
  same_object = λ x y p q e.
      ap (λ n. record { old_obj = n; new_obj = x.new_obj }) (of_40 x p ∙ sym (of_40 y q))
      ∙ ap (λ n. record { old_obj = y.old_obj; new_obj = n }) e;
}

remove_dups_in_rs-Cleans_example :
    (ys : List Entry) × (remove_dups_in_rs entries ≡ cleaned ys) × Cleans entries ys
remove_dups_in_rs-Cleans_example = remove_dups_in_rs-Cleans entries entries-Consistent
