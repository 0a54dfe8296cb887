-- ===== src/Int32.antt =====
-- C's `int` on 32-bit two's complement patterns, as bc_bop, UNM and NOT of vm/vm.c use it. Sums,
-- differences and products wrap; a shift takes its count modulo 32, as the processor does.
pub mod Signed
use Prim.Native.Nat.{bit_and, bit_or, bit_xor}
use nesrotom_run.Base.{
  ℕ, ◌+◌, ◌-◌, ◌*◌, ◌/◌, ◌%◌, ◌^◌, Bool, true, false, not, ◌&&◌, ◌||◌, Option, none, some, ltb,
  ◌==◌, if◌then◌else◌,
}
use nesrotom_run.State.{add32, sub32}
use nesrotom_run.Frame.{int_lt}

unfoldable pub neg32 : ℕ → ℕ
neg32 a = sub32 0 a

unfoldable pub mul32 : ℕ → ℕ → ℕ
mul32 a b = a * b % 2 ^ 32

abbrev pub is_negative : ℕ → Bool
is_negative a = not (ltb a (2 ^ 31))

-- the absolute value of the integer that the pattern stands for
unfoldable pub magnitude : ℕ → ℕ
magnitude a = if ltb a (2 ^ 31) then a else 2 ^ 32 - a

abbrev pub differ : Bool → Bool → Bool
differ true b = not b
differ false b = b

unfoldable pub with_sign : Bool → ℕ → ℕ
with_sign true m = neg32 m
with_sign false m = m % 2 ^ 32

-- Where `a / b` and `a % b` trap: division by zero, and the one quotient that is no `int`.
unfoldable pub traps : ℕ → ℕ → Bool
traps a b = b == 0 || (a == 2 ^ 31 && b == 2 ^ 32 - 1)

-- Division truncates towards zero.
unfoldable pub div32 : ℕ → ℕ → Option ℕ
div32 a b =
    if traps a b
    then none
    else some (with_sign (differ (is_negative a) (is_negative b)) (magnitude a / magnitude b))

unfoldable pub mod32 : ℕ → ℕ → Option ℕ
mod32 a b = if traps a b then none else some (with_sign (is_negative a) (magnitude a % magnitude b))

unfoldable pub shl32 : ℕ → ℕ → ℕ
shl32 a b = a * 2 ^ (b % 32) % 2 ^ 32

-- The right shift of a negative number brings in ones.
unfoldable pub shr32 : ℕ → ℕ → ℕ
shr32 a b =
    let k = 2 ^ (b % 32) in if ltb a (2 ^ 31) then a / k else 2 ^ 32 - (2 ^ 32 - a + k - 1) / k

abbrev pub truth : Bool → ℕ
truth true = 1
truth false = 0

abbrev pub int_le : ℕ → ℕ → Bool
int_le a b = not (int_lt b a)
