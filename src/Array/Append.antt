-- ===== src/Array/Append.antt =====
-- array_append of vm/k_array.c where the array has the capacity for the elements of the argument.
use nesrotom_run.Base.{
  ℕ, ◌+◌, ◌-◌, ◌^◌, ◌≤◌, ◌<◌, ◌≡◌, ◌≢◌, ◌∙◌, refl, sym, ap, Option, some, List, length, le→ltb,
  ne→==, arith, true,
}
use nesrotom_run.State.{heap_ref, Value, ptr, Object, Vm, ok, fault, assert_failed}
use nesrotom_run.State.Memory.{update, load, object_at}
use nesrotom_run.Frame.{stack_size, this, arg, stack_push, bc_ret}
use nesrotom_run.Frame.Calls.{sub32_small, add32_small, read_cell_lem, push_lem}
use nesrotom_run.Frame.Returns.{IsFrame, returned, bc_ret_lem}
use nesrotom_run.Objects.{kek_arr, has_type, type_of, body_type, nil_value}
use nesrotom_run.Array.{array_append, native_array_length}
use nesrotom_run.Array.Lengths.{
  array_object, IsArray, put, load_array_lem, store_array_lem, put_other, put_same, length_differs,
}
use nesrotom_run.Array.Copying.{IsSplice, IsPair, other_kind, append_cells_lem}

-- A native method with one argument runs: THIS is the array, ARG(0) the argument, and the frame can be
-- left.
pub record IsNativeCall (r r' ret ap fp : ℕ) (s : Vm) : Type 0 where
  pub frame : IsFrame ret ap fp s
  pub this_cell : s.stack (s.fp - 4) ≡ ptr (heap_ref r)
  pub arg_cell : s.stack s.ap ≡ ptr (heap_ref r')
  pub has_this : 4 ≤ s.fp
  pub fp_below : s.fp ≤ s.sp
  pub room : s.sp < stack_size

add_zero : (a : ℕ) → a + 0 ≡ a
add_zero a = omega arith

module _ (r r' ret ap fp : ℕ) (s : Vm) (c : IsNativeCall r r' ret ap fp s) where
  this_lem : this s ≡ ok (ptr (heap_ref r)) s
  unfolding this
  this_lem =
      let fits = c.frame.fp_fits in
      rw (
        sub32_small s.fp 4 c.has_this (omega arith),
        read_cell_lem (s.fp - 4) s (omega arith),
        c.this_cell,
      )

  arg_lem : arg 0 s ≡ ok (ptr (heap_ref r')) s
  unfolding arg
  arg_lem =
      let fits = c.frame.ap_fits in
      rw (
        add32_small s.ap 0 (omega arith),
        add_zero s.ap,
        read_cell_lem s.ap s (omega arith),
        c.arg_cell,
      )

  -- The state before `PUSH(NIL)`, after changes of the segment, and the one after it.
  abbrev at_end : (ℕ → Option Object) → Vm
  at_end h = record s { heap = h }

  abbrev pushed : (ℕ → Option Object) → Vm
  pushed h = record s { heap = h; stack = update s.stack s.sp nil_value; sp = s.sp + 1 }

  below_top : (j : ℕ) → j < s.fp → update s.stack s.sp nil_value j ≡ s.stack j
  below_top j k = let le = c.fp_below in rw (ne→== j s.sp (λ e. omega (arith, e, k, le))) refl

  pushed-IsFrame : (h : ℕ → Option Object) → IsFrame ret ap fp (pushed h)
  pushed-IsFrame h =
      let has = c.has_this in
      record {
        ret_cell = below_top (s.fp - 3) (omega arith) ∙ c.frame.ret_cell;
        ap_cell = below_top (s.fp - 2) (omega arith) ∙ c.frame.ap_cell;
        fp_cell = below_top (s.fp - 1) (omega arith) ∙ c.frame.fp_cell;
        has_cells = omega arith;
        fp_fits = c.frame.fp_fits;
        ap_fits = c.frame.ap_fits;
      }

  push_nil : (h : ℕ → Option Object) → stack_push nil_value (at_end h) ≡ ok tt (pushed h)
  push_nil h = push_lem nil_value (at_end h) c.room

  abbrev after : (ℕ → Option Object) → Vm
  after h = returned ((pushed h).stack (s.sp + 1 - 1)) ret ap fp (pushed h)

  return_nil : (h : ℕ → Option Object) → bc_ret (pushed h) ≡ ok tt (after h)
  return_nil h =
      let room = c.room in
      bc_ret_lem ret ap fp (pushed h) (pushed-IsFrame h) (omega arith) (omega arith)

is_array :
    (r n c q : ℕ) (cls : Option ℕ) (s : Vm)
    → s.heap r ≡ some (array_object cls n c q)
    → has_type kek_arr (ptr (heap_ref r)) s ≡ ok true s
unfolding has_type type_of load object_at body_type
is_array r n c q cls s h = rw h

-- array_append where the array has the capacity for its own length n and the length k of the argument,
-- as a native method called with both in the segment, two arrays that share neither object and hold as
-- many cells as these lengths need; n + k is an `int`, and is not m, the length in the object of the
-- array's elements. It succeeds. The array has the length n + k then, and its cells are those before
-- with the first k cells of the argument from n on; but the length in the object of elements is still m,
-- and the next native_array_length fails its assertion.
pub array_append_lem :
    (fuel r q n c m d r' q' k c' m' d' ret ap fp : ℕ) (cls els cls' els' : Option ℕ)
    (es fs : List Value) (s : Vm)
    → IsNativeCall r r' ret ap fp s
    → IsArray r q n m c d cls els es s
    → IsArray r' q' k m' c' d' cls' els' fs s
    → r ≢ r'
    → q ≢ q'
    → n + k ≤ c
    → n + k ≤ length es
    → k ≤ length fs
    → n + k < 2 ^ 31
    → n + k ≢ m
    → (es' : List Value) × (t : Vm) × (array_append fuel s ≡ ok tt t)
      × IsArray r q (n + k) m c d cls els es' t
      × IsSplice k n 0 es fs es'
      × (native_array_length (ptr (heap_ref r)) t ≡ fault assert_failed)
unfolding array_append returned
array_append_lem fuel r q n c m d r' q' k c' m' d' ret ap fp cls els cls' els' es fs s f a b ne nq
      fits room has small differ =
    let s₁ = put r (array_object cls (n + k) c q) s in
    let o = array_object cls (n + k) c q in
    let args = put_other r r' o s ne ∙ b.array_at in
    let pair : IsPair r q (n + k) c m d r' q' k c' m' d' cls els cls' els' fs es s₁ = record {
      array_at = put_same r o s;
      elems_at = put_other r q o s a.apart ∙ a.elems_at;
      argument_at = args;
      cells_at =
          put_other r q' o s
            (λ e. other_kind s r q' cls n c q els' m' d' fs a.array_at b.elems_at (sym e))
          ∙ b.elems_at;
      apart = nq;
    } in
    let (es', h, run, p, cut) =
      append_cells_lem r q (n + k) c m d r' q' k c' m' d' cls els cls' els' fs k n 0 es s₁ pair room
        (omega arith) in
    let t = after r r' ret ap fp s f h in
    let whole : IsArray r q (n + k) m c d cls els es' t = record {
      array_at = p.array_at;
      elems_at = p.elems_at;
      apart = a.apart;
    } in
    (
      es',
      t,
      rw (
        this_lem r r' ret ap fp s f,
        arg_lem r r' ret ap fp s f,
        is_array r' k c' q' cls' s b.array_at,
        load_array_lem r q n c cls s a.array_at,
        load_array_lem r' q' k c' cls' s b.array_at,
        le→ltb c (n + k) fits,
        store_array_lem r q n c (n + k) cls s a.array_at,
        load_array_lem r' q' k c' cls' s₁ args,
        run,
        push_nil r r' ret ap fp s f h,
        return_nil r r' ret ap fp s f h,
      ),
      whole,
      cut,
      length_differs r q (n + k) m c d cls els es' t whole small differ,
    )
