-- ===== src/Operators/Tests.antt =====
-- bc_bop at concrete operands.
use nesrotom_run.Base.{
  ℕ, ◌+◌, ◌-◌, ◌*◌, ◌^◌, ◌≡◌, ◌<◌, not, refl, false, none, some, [], ltb, ◌==◌, if◌then◌else◌,
  arith,
}
use nesrotom_run.State.{Value, small, ptr, heap_ref, null, Vm, ok}
use nesrotom_run.State.Memory.{update, make_integer, int_val, int_object, object_at}
use nesrotom_run.Int32.{truth}
use nesrotom_run.Int32.Signed.{signed, ltb_ℤ, InRange, ◌+ℤ◌, ◌-ℤ◌}
use nesrotom_run.Int32.{differ, magnitude, with_sign, is_negative, traps}
use nesrotom_run.Operators.{
  plus, minus, divide, modulo, less, greater, less_or_eq, greater_or_eq, eq, not_eq, bc_bop,
}
use nesrotom_run.Operators.Division.{bc_bop-division}
use nesrotom_run.Operators.Laws.{
  HasInt, inline, boxed, int_val-make_integer, bc_bop-comparisons, bc_bop-plus, bc_bop-minus,
}

-- A segment that holds the integer -2, and 32 bytes in use.
abbrev with_negative : Vm
with_negative = record {
  classes = [];
  consts = λ _. none;
  heap = update (λ _. none) 0 (some (int_object (2 ^ 32 - 2)));
  used = 32;
  bc_arr = λ _. none;
  cache = λ _. none;
  stack = λ _. null;
  sp = 0;
  ap = 0;
  fp = 0;
  ip = 0;
  out = [];
}

abbrev minus_two : Value
minus_two = ptr (heap_ref 0)

minus_two-HasInt : HasInt minus_two (2 ^ 32 - 2) with_negative
unfolding object_at
minus_two-HasInt = boxed refl

five-HasInt : HasInt (small 5) 5 with_negative
five-HasInt = inline (omega arith)

int_val-make_integer_example :
    (v : Value) × (t : Vm) × (make_integer (2 ^ 32 - 9) with_negative ≡ ok v t)
    × HasInt v (2 ^ 32 - 9) t
    × (int_val v t ≡ ok (2 ^ 32 - 9) t)
    × (t.used ≡ (if ltb (2 ^ 32 - 9) (2 ^ 31) then 32 else 32 + 32))
int_val-make_integer_example = int_val-make_integer (2 ^ 32 - 9) with_negative (omega arith)

bc_bop-comparisons_example :
    (bc_bop less minus_two (small 5) with_negative
      ≡ ok (small (truth (ltb_ℤ (signed (2 ^ 32 - 2)) (signed 5)))) with_negative)
    × (bc_bop greater minus_two (small 5) with_negative
        ≡ ok (small (truth (ltb_ℤ (signed 5) (signed (2 ^ 32 - 2))))) with_negative)
    × (bc_bop less_or_eq minus_two (small 5) with_negative
        ≡ ok (small (truth (not (ltb_ℤ (signed 5) (signed (2 ^ 32 - 2)))))) with_negative)
    × (bc_bop greater_or_eq minus_two (small 5) with_negative
        ≡ ok (small (truth (not (ltb_ℤ (signed (2 ^ 32 - 2)) (signed 5))))) with_negative)
    × (bc_bop eq minus_two (small 5) with_negative
        ≡ ok (small (truth (2 ^ 32 - 2 == 5))) with_negative)
    × (bc_bop not_eq minus_two (small 5) with_negative
        ≡ ok (small (truth (not (2 ^ 32 - 2 == 5)))) with_negative)
bc_bop-comparisons_example =
    bc_bop-comparisons (2 ^ 32 - 2) 5 (omega arith) (omega arith) minus_two-HasInt five-HasInt

sum-InRange : InRange (signed (2 ^ 32 - 2) +ℤ signed 5)
unfolding signed ◌+ℤ◌
sum-InRange = omega arith

difference-InRange : InRange (signed (2 ^ 32 - 2) -ℤ signed 5)
unfolding signed ◌-ℤ◌
difference-InRange = omega arith

bc_bop-plus_example :
    (r : Value) × (n : ℕ) × (t : Vm) × (bc_bop plus minus_two (small 5) with_negative ≡ ok r t)
    × HasInt r n t
    × (signed n ≡ signed (2 ^ 32 - 2) +ℤ signed 5)
bc_bop-plus_example =
    bc_bop-plus (2 ^ 32 - 2) 5 (omega arith) (omega arith) (omega arith) minus_two-HasInt
      five-HasInt sum-InRange

bc_bop-minus_example :
    (r : Value) × (n : ℕ) × (t : Vm) × (bc_bop minus minus_two (small 5) with_negative ≡ ok r t)
    × HasInt r n t
    × (signed n ≡ signed (2 ^ 32 - 2) -ℤ signed 5)
bc_bop-minus_example =
    bc_bop-minus (2 ^ 32 - 2) 5 (omega arith) (omega arith) (omega arith) minus_two-HasInt
      five-HasInt difference-InRange

no_trap : traps 5 (2 ^ 32 - 2) ≡ false
unfolding traps
no_trap = refl

-- 5 divided by -2.
bc_bop-division_example :
    (q : ℕ) × (r : ℕ) × ((u : Value) × (t : Vm) × (bc_bop divide (small 5) minus_two with_negative
        ≡ ok u t)
      × HasInt u q t)
    × ((u : Value) × (t : Vm) × (bc_bop modulo (small 5) minus_two with_negative ≡ ok u t)
        × HasInt u r t)
    × (magnitude 5 ≡ magnitude q * magnitude (2 ^ 32 - 2) + magnitude r)
    × (magnitude r < magnitude (2 ^ 32 - 2))
    × (q ≡ with_sign (differ (is_negative 5) (is_negative (2 ^ 32 - 2))) (magnitude q))
    × (r ≡ with_sign (is_negative 5) (magnitude r))
bc_bop-division_example =
    bc_bop-division 5 (2 ^ 32 - 2) (omega arith) (omega arith) no_trap (omega arith) five-HasInt
      minus_two-HasInt
