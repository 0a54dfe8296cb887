-- ===== src/Operators/Laws.antt =====
-- Integers of either representation under make_integer, INT_VAL and bc_bop, and the order of texts.
use nesrotom_run.Base.{
  ℕ, ◌+◌, ◌^◌, ◌≤◌, ◌<◌, ◌≡◌, inl, inr, refl, ◌∙◌, Bool, true, false, not, Option, some, ltb, ◌==◌,
  if◌then◌else◌, arith, le→ltb, Bool-cases,
}
use nesrotom_run.State.{
  const_ref, heap_ref, Value, ptr, small, int, Object, Vm, ok, ◌>>=◌, add32, sub32,
}
use nesrotom_run.State.Memory.{
  update, make_integer, int_val, load, object_at, int_object, alloc, aligned, segment_size,
}
use nesrotom_run.Frame.Calls.{make_integer_small}
use nesrotom_run.Int32.{truth}
use nesrotom_run.Int32.Signed.{
  signed, ltb_ℤ, int_lt-signed, ◌+ℤ◌, ◌-ℤ◌, InRange, signed-add32, signed-sub32,
}
use nesrotom_run.Objects.{has_type, is_int, type_of, body_type}
use nesrotom_run.Operators.{
  Op, plus, minus, eq, not_eq, less, greater, less_or_eq, greater_or_eq, int_op, bc_bop,
}

-- `HasInt v n s`: in state `s` the value is the integer with pattern `n`, in the word, as an object or
-- as a constant.
pub data HasInt : Value → ℕ → Vm → Type 0 where
  inline : {n : ℕ} {s : Vm} → n < 2 ^ 31 → HasInt (small n) n s
  boxed :
      {i n : ℕ} {s : Vm}
      → object_at (heap_ref i) s ≡ some (int_object n)
      → HasInt (ptr (heap_ref i)) n s
  constant :
      {i n : ℕ} {s : Vm} (cls : Option ℕ)
      → object_at (const_ref i) s ≡ some (record { cls = cls; body = int n })
      → HasInt (ptr (const_ref i)) n s

pub int_val-HasInt : {v : Value} {n : ℕ} {s : Vm} → HasInt v n s → int_val v s ≡ ok n s
unfolding int_val load
int_val-HasInt (inline h) = refl
int_val-HasInt (boxed e) = rw e
int_val-HasInt (constant c e) = rw e

pub is_int-HasInt : {v : Value} {n : ℕ} {s : Vm} → HasInt v n s → is_int v s ≡ ok true s
unfolding is_int has_type type_of load body_type
is_int-HasInt (inline h) = refl
is_int-HasInt (boxed e) = rw e
is_int-HasInt (constant c e) = rw e

fresh_object :
    (o : Object) (n : ℕ) (s : Vm)
    → object_at (heap_ref s.used) (record s { heap = update s.heap s.used (some o); used = n })
      ≡ some o
unfolding object_at
fresh_object o n s = ground arith

-- With 32 bytes free in the segment, every `int` that make_integer is given is read back by INT_VAL,
-- a negative one from the object that is allocated for it; the segment grows only then, by 32 bytes.
pub int_val-make_integer :
    (n : ℕ) (s : Vm)
    → s.used + 32 ≤ segment_size
    → (v : Value) × (t : Vm) × (make_integer n s ≡ ok v t)
      × HasInt v n t
      × (int_val v t ≡ ok n t)
      × (t.used ≡ (if ltb n (2 ^ 31) then s.used else s.used + 32))
unfolding make_integer alloc aligned
int_val-make_integer n s h = elim (Bool-cases (ltb n (2 ^ 31))) [
  | inl e ↦
      let i : HasInt (small n) n s = inline (ground arith) in
      (small n, s, rw e, i, int_val-HasInt i, rw e)
  | inr e ↦
      let t : Vm = record s {
        heap = update s.heap s.used (some (int_object n));
        used = s.used + 32;
      } in
      let i : HasInt (ptr (heap_ref s.used)) n t =
        boxed (fresh_object (int_object n) (s.used + 32) s) in
      (
        ptr (heap_ref s.used),
        t,
        rw (e, le→ltb segment_size (s.used + 32) h),
        i,
        int_val-HasInt i,
        rw e,
      )
]

-- On two integers, however they are represented, bc_bop is the operator on their patterns.
pub bc_bop-HasInt :
    (o : Op) {v w : Value} {x y : ℕ} {s : Vm}
    → HasInt v x s
    → HasInt w y s
    → bc_bop o v w s ≡ (int_op o x y >>= make_integer) s
unfolding bc_bop
bc_bop-HasInt o a b = rw (is_int-HasInt a, is_int-HasInt b, int_val-HasInt a, int_val-HasInt b)

make_truth : (b : Bool) (s : Vm) → make_integer (truth b) s ≡ ok (small (truth b)) s
make_truth true s = make_integer_small 1 s (omega arith)
make_truth false s = make_integer_small 0 s (omega arith)

-- The six comparisons of integers give 1 or 0 by the order and the equality of the signed numbers,
-- whichever of the two operands are kept in the word and which as objects, and change nothing.
pub bc_bop-comparisons :
    {v w : Value} (x y : ℕ) {s : Vm}
    → x < 2 ^ 32
    → y < 2 ^ 32
    → HasInt v x s
    → HasInt w y s
    → (bc_bop less v w s ≡ ok (small (truth (ltb_ℤ (signed x) (signed y)))) s)
      × (bc_bop greater v w s ≡ ok (small (truth (ltb_ℤ (signed y) (signed x)))) s)
      × (bc_bop less_or_eq v w s ≡ ok (small (truth (not (ltb_ℤ (signed y) (signed x))))) s)
      × (bc_bop greater_or_eq v w s ≡ ok (small (truth (not (ltb_ℤ (signed x) (signed y))))) s)
      × (bc_bop eq v w s ≡ ok (small (truth (x == y))) s)
      × (bc_bop not_eq v w s ≡ ok (small (truth (not (x == y)))) s)
unfolding int_op
bc_bop-comparisons x y {s} h k a b =
    let xy = int_lt-signed x y h k in
    let yx = int_lt-signed y x k h in
    (
      bc_bop-HasInt less a b ∙ rw xy (make_truth _ s),
      bc_bop-HasInt greater a b ∙ rw yx (make_truth _ s),
      bc_bop-HasInt less_or_eq a b ∙ rw yx (make_truth _ s),
      bc_bop-HasInt greater_or_eq a b ∙ rw xy (make_truth _ s),
      bc_bop-HasInt eq a b ∙ make_truth _ s,
      bc_bop-HasInt not_eq a b ∙ make_truth _ s,
    )

-- The sum of two integers, where the exact sum is an `int` and 32 bytes are free in the segment:
-- the result of bc_bop is an integer whose signed value is the exact sum.
pub bc_bop-plus :
    {v w : Value} (x y : ℕ) {s : Vm}
    → x < 2 ^ 32
    → y < 2 ^ 32
    → s.used + 32 ≤ segment_size
    → HasInt v x s
    → HasInt w y s
    → InRange (signed x +ℤ signed y)
    → (r : Value) × (n : ℕ) × (t : Vm) × (bc_bop plus v w s ≡ ok r t)
      × HasInt r n t
      × (signed n ≡ signed x +ℤ signed y)
unfolding int_op
bc_bop-plus x y {s} h k room a b p =
    let (r, t, run, i, _, _) = int_val-make_integer (add32 x y) s room in
    (r, add32 x y, t, bc_bop-HasInt plus a b ∙ run, i, signed-add32 x y h k p)

-- The difference of two integers, where the exact difference is an `int` and 32 bytes are free in the segment:
-- the result of bc_bop is an integer whose signed value is the exact difference.
pub bc_bop-minus :
    {v w : Value} (x y : ℕ) {s : Vm}
    → x < 2 ^ 32
    → y < 2 ^ 32
    → s.used + 32 ≤ segment_size
    → HasInt v x s
    → HasInt w y s
    → InRange (signed x -ℤ signed y)
    → (r : Value) × (n : ℕ) × (t : Vm) × (bc_bop minus v w s ≡ ok r t)
      × HasInt r n t
      × (signed n ≡ signed x -ℤ signed y)
unfolding int_op
bc_bop-minus x y {s} h k room a b p =
    let (r, t, run, i, _, _) = int_val-make_integer (sub32 x y) s room in
    (r, sub32 x y, t, bc_bop-HasInt minus a b ∙ run, i, signed-sub32 x y h k p)
