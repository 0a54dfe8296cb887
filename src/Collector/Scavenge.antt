-- ===== src/Collector/Scavenge.antt =====
-- One collection of the new space, gc_cheney_scavenge of vm/memory.c under `-g new`, with the walk
-- over the roots, gc_rootset, and gc_cheney_malloc, which starts it.
use nesrotom_run.Base.{
  ℕ, zero, suc, ◌+◌, Option, none, some, List, [], ◌∷◌, Bool, false, ltb, leb, if◌then◌else◌, ◌&&◌,
}
use nesrotom_run.State.{
  Ref, const_ref, heap_ref, Value, null, ptr, Body, nil, int, str, sym, arr, arr_objs, exinfo, expt,
  file, term, udo, Object, vm_error, bad_access, assert_failed, out_of_fuel,
}
use nesrotom_run.State.Memory.{aligned}
use nesrotom_run.Collector.{
  Cell, object, from_option, class_cell, stack_cell, copied, Root, Gc, done, failed, Step, pure,
  stop, ◌>>=◌, ◌>>◌, new_segment_size, header_size, put, var_count, obj_size, ptr_in_to_space, read,
  is_const,
}

-- gc_cheney_copy_obj_to_space_free: the copy stands where the free space begins. No object may reach
-- the end of the segment.
unfoldable pub place : Cell → ℕ → Step ℕ
place c size s =
    if leb (s.to_space + new_segment_size) (s.free + aligned size)
    then failed vm_error
    else done s.free (put (heap_ref s.free) c (record s { free = s.free + aligned size }))

unfoldable pub copy_obj_to_space_free : Cell → Step ℕ
copy_obj_to_space_free c s =
    (do size ← from_option (obj_size s.classes c) assert_failed; place c size) s

unfoldable pub leave_forward : Ref → ℕ → Step Value
leave_forward r to s = done (ptr (heap_ref to)) (put r (copied to) s)

-- The copy of an object that is not one yet, and the forwarding address left in its place.
unfoldable pub copy_and_forward : Ref → Cell → Step Value
copy_and_forward r c s =
    if ptr_in_to_space r header_size s
    then failed vm_error
    else (do to ← copy_obj_to_space_free c; leave_forward r to) s

-- What happens to a cell that is not constant: a copied one is not copied again.
unfoldable pub forward_cell : Ref → Cell → Step Value
forward_cell r (copied to) = pure (ptr (heap_ref to))
forward_cell r c = copy_and_forward r c

unfoldable pub forward : Ref → Step Value
forward r = if is_const r then pure (ptr r) else (do c ← read r; forward_cell r c)

-- gc_cheney_copy_root_obj; the argument and the result are the contents of `*objptr`. A word that
-- is no pointer is read as an object before the assertion on it.
unfoldable pub copy_root_obj : Value → Step Value
copy_root_obj (ptr r) = forward r
copy_root_obj _ = stop bad_access

-- gc_cheney_copy_neighbor_inner
unfoldable pub copy_neighbor_inner : Value → Step Value
copy_neighbor_inner (ptr r) = forward r
copy_neighbor_inner _ = stop assert_failed

-- A field of an exception or an instance.
unfoldable pub copy_var : Value → Step Value
copy_var (ptr r) = copy_neighbor_inner (ptr r)
copy_var v = pure v

-- An element of an array: IS_NIL reads a null pointer before the assertion on it.
unfoldable pub copy_elem : Value → Step Value
copy_elem null = stop bad_access
copy_elem (ptr r) = copy_neighbor_inner (ptr r)
copy_elem v = pure v

-- The loop over the first `n` slots behind an object.
unfoldable pub copy_slots : (Value → Step Value) → ℕ → List Value → Step (List Value)
copy_slots f zero xs = pure xs
copy_slots f (suc n) [] = stop bad_access
copy_slots f (suc n) (x ∷ xs) = do y ← f x; ys ← copy_slots f n xs; pure (y ∷ ys)

unfoldable pub copy_elems_ptr : Value → Step Value
copy_elems_ptr null = pure null
copy_elems_ptr v = copy_neighbor_inner v

unfoldable pub copy_inst_vars : Option ℕ → List Value → Step (List Value)
copy_inst_vars none xs = stop bad_access
copy_inst_vars (some n) xs = copy_slots copy_var n xs

-- The fields that gc_cheney_copy_neighbor goes through, type by type.
unfoldable pub copy_fields : Option ℕ → Body → Step Body
copy_fields n nil = stop assert_failed
copy_fields n (int v) = pure (int v)
copy_fields n (str text) = pure (str text)
copy_fields n (sym text) = pure (sym text)
copy_fields n (arr len size elems) = do y ← copy_elems_ptr elems; pure (arr len size y)
copy_fields n (arr_objs len size elems) = do
  ys ← copy_slots copy_elem len elems
  pure (arr_objs len size ys)
copy_fields n (exinfo thrown blocks) = stop assert_failed
copy_fields n (expt offset msg) = do y ← copy_var msg; pure (expt offset y)
copy_fields n (file offset handle) = pure (file offset handle)
copy_fields n term = pure term
copy_fields n (udo offset vars) = do ys ← copy_inst_vars n vars; pure (udo offset ys)

-- gc_cheney_copy_neighbor on the object at the address `p` of the to-space.
unfoldable pub write_body : ℕ → Object → Body → Step (Unit {0})
write_body p o body s = done tt (put (heap_ref p) (object (record o { body = body })) s)

unfoldable pub copy_neighbor : ℕ → Cell → Step (Unit {0})
copy_neighbor p (object o) s =
    (do body ← copy_fields (var_count s.classes o.cls) o.body; write_body p o body) s
copy_neighbor p stack_cell s = failed vm_error
copy_neighbor p _ s = failed assert_failed

unfoldable pub advance_scan : ℕ → Step (Unit {0})
advance_scan size s = done tt (record s { scan = s.scan + aligned size })

-- One turn of the loop: the scan pointer goes over the object `c` at `p`, then its fields.
unfoldable pub scan_next : ℕ → Cell → Step (Unit {0})
scan_next p c s =
    (do
      size ← from_option (obj_size s.classes c) assert_failed
      advance_scan size
      copy_neighbor p c)
      s

-- The loop of gc_cheney_scavenge over the objects between the scan pointer and the free space.
unfoldable pub scan_loop : ℕ → Step (Unit {0})
scan_loop zero s = if ltb s.scan s.free then failed out_of_fuel else done tt s
scan_loop (suc fuel) s =
    let rest = scan_loop fuel in
    if ltb s.scan s.free
    then (do c ← read (heap_ref s.scan); scan_next s.scan c; rest) s
    else done tt s

unfoldable pub each {ℓ} : {A : Type ℓ} → (A → Step A) → List A → Step (List A)
each f [] = pure []
each f (x ∷ xs) = do y ← f x; ys ← each f xs; pure (y ∷ ys)

-- A static variable that holds a pointer.
unfoldable pub root_static : Value → Step Value
root_static (ptr r) = copy_root_obj (ptr r)
root_static v = pure v

unfoldable pub root_variable : Root → Step Root
root_variable g = do v ← copy_root_obj g.obj; pure (record g { obj = v })

-- A pointer on the stack; those to a class or to the header of the stack are left alone.
unfoldable pub root_cell : Ref → Cell → Step Value
root_cell r class_cell = pure (ptr r)
root_cell r stack_cell = pure (ptr r)
root_cell r (object o) = copy_root_obj (ptr r)
root_cell r (copied to) = copy_root_obj (ptr r)

unfoldable pub root_stack : Value → Step Value
root_stack (ptr (const_ref i)) = pure (ptr (const_ref i))
root_stack (ptr r) = do c ← read r; root_cell r c
root_stack v = pure v

unfoldable pub set_statics : List (List Value) → Step (Unit {0})
set_statics vs s = done tt (record s { statics = vs })

unfoldable pub set_rootset : List Root → Step (Unit {0})
set_rootset gs s = done tt (record s { rootset = gs })

unfoldable pub set_const_arrays : List Value → Step (Unit {0})
set_const_arrays vs s = done tt (record s { const_arrays = vs })

unfoldable pub set_stack : List Value → Step (Unit {0})
set_stack vs s = done tt (record s { stack = vs })

-- gc_rootset applied to gc_cheney_copy_root_obj: the static variables, the registered variables, the
-- arrays of the constant table, the stack. The remember set is only used under `-g gen`.
unfoldable pub copy_roots : Step (Unit {0})
copy_roots s =
    (do
      statics ← each (each root_static) s.statics
      set_statics statics
      rootset ← each root_variable s.rootset
      set_rootset rootset
      const_arrays ← each copy_root_obj s.const_arrays
      set_const_arrays const_arrays
      stack ← each root_stack s.stack
      set_stack stack)
      s

unfoldable pub in_segment : ℕ → Ref → Bool
in_segment base (heap_ref a) = leb base a && ltb a (base + new_segment_size)
in_segment base _ = false

-- The spaces change places, and the free space is the whole new to-space: what an earlier
-- collection left there is no object any more.
unfoldable pub swap_spaces : Gc → Gc
swap_spaces s = record s {
  from_space = s.to_space;
  to_space = s.from_space;
  free = s.from_space;
  scan = s.from_space;
  iteration = s.iteration + 1;
  cells = λ r. if in_segment s.from_space r then none else s.cells r;
}

-- gc_cheney_scavenge. Every turn of its loop moves the scan pointer on inside one segment, so that
-- the size of a segment is enough fuel.
unfoldable pub scavenge : Step (Unit {0})
scavenge s = (do copy_roots; scan_loop new_segment_size) (swap_spaces s)
