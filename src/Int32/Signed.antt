-- ===== src/Int32/Signed.antt =====
-- What the patterns of Int32 stand for.
use nesrotom_run.Base.{
  ℕ, suc, ◌+◌, ◌-◌, ◌*◌, ◌/◌, ◌%◌, ◌^◌, ◌≤◌, ◌<◌, ◌≡◌, refl, sym, ◌∙◌, Bool, true, false, some,
  arith, ltb, leb, if◌then◌else◌,
}
use native.Mathlib.Decide.{ℕ_discrete}
use native.Mathlib.Nat.{div-add-mod, mod-lt, mul_comm}
use nesrotom_run.State.{add32, sub32}
use nesrotom_run.Frame.{int_lt}
use nesrotom_run.Int32.{neg32, magnitude, with_sign, traps, div32, mod32, is_negative, differ}

-- `negsuc n` is -(n + 1).
pub data ℤ : Type 0 where
  pos : ℕ → ℤ
  negsuc : ℕ → ℤ

abbrev pub pos_part : ℤ → ℕ
pos_part (pos n) = n
pos_part (negsuc n) = 0

abbrev pub neg_part : ℤ → ℕ
neg_part (pos n) = 0
neg_part (negsuc n) = suc n

abbrev pub sub_ℕ : ℕ → ℕ → ℤ
sub_ℕ a b = if leb b a then pos (a - b) else negsuc (b - a - 1)

abbrev pub ltb_ℤ : ℤ → ℤ → Bool
ltb_ℤ a b = ltb (pos_part a + neg_part b) (pos_part b + neg_part a)

infixl 65 ◌+ℤ◌ ◌-ℤ◌
unfoldable pub ◌+ℤ◌ : ℤ → ℤ → ℤ
a +ℤ b = sub_ℕ (pos_part a + pos_part b) (neg_part a + neg_part b)

unfoldable pub ◌-ℤ◌ : ℤ → ℤ → ℤ
a -ℤ b = sub_ℕ (pos_part a + neg_part b) (neg_part a + pos_part b)

-- The integer of a pattern, and the range of `int`.
unfoldable pub signed : ℕ → ℤ
signed w = if ltb w (2 ^ 31) then pos w else negsuc (2 ^ 32 - w - 1)

abbrev pub InRange : ℤ → Type 0
InRange (pos n) = n < 2 ^ 31
InRange (negsuc n) = n < 2 ^ 31

-- The comparison of patterns is the comparison of integers.
pub int_lt-signed : (a b : ℕ) → a < 2 ^ 32 → b < 2 ^ 32 → int_lt a b ≡ ltb_ℤ (signed a) (signed b)
unfolding int_lt signed
int_lt-signed a b h k = ground arith

-- Wrapping sums and differences, and the negation of UNM, are those of the integers where the result
-- is an `int`.
pub signed-add32 :
    (a b : ℕ)
    → a < 2 ^ 32
    → b < 2 ^ 32
    → InRange (signed a +ℤ signed b)
    → signed (add32 a b) ≡ signed a +ℤ signed b
unfolding signed add32 ◌+ℤ◌
signed-add32 a b h k r = ground arith

pub signed-sub32 :
    (a b : ℕ)
    → a < 2 ^ 32
    → b < 2 ^ 32
    → InRange (signed a -ℤ signed b)
    → signed (sub32 a b) ≡ signed a -ℤ signed b
unfolding signed sub32 ◌-ℤ◌
signed-sub32 a b h k r = ground arith

magnitude-with_sign_small : (s : Bool) (m : ℕ) → m < 2 ^ 31 → magnitude (with_sign s m) ≡ m
unfolding magnitude with_sign neg32 sub32
magnitude-with_sign_small true m h = ground arith
magnitude-with_sign_small false m h = ground arith

magnitude-with_sign_min : magnitude (with_sign true (2 ^ 31)) ≡ 2 ^ 31
unfolding magnitude with_sign neg32 sub32
magnitude-with_sign_min = refl

magnitude-le : (a : ℕ) → a < 2 ^ 32 → magnitude a ≤ 2 ^ 31
unfolding magnitude
magnitude-le a h = ground arith

magnitude-pos : (a b : ℕ) → b < 2 ^ 32 → traps a b ≡ false → 0 < magnitude b
unfolding magnitude traps
magnitude-pos a b k h = ground arith

full_quotient : (m k : ℕ) → m ≤ 2 ^ 31 → 0 < k → m / k ≡ 2 ^ 31 → (k ≡ 1) × (m ≡ 2 ^ 31)
full_quotient m k h p e =
    let s : m ≡ k * 2 ^ 31 + m % k = rw e at (sym (div-add-mod m k)) in (omega arith, omega arith)

edge :
    (a b : ℕ)
    → a < 2 ^ 32
    → b < 2 ^ 32
    → traps a b ≡ false
    → magnitude b ≡ 1
    → magnitude a ≡ 2 ^ 31
    → differ (is_negative a) (is_negative b) ≡ true
unfolding magnitude traps
edge a b h k t b1 a1 = ground arith

magnitude-quotient :
    (s : Bool) (m : ℕ) → m ≤ 2 ^ 31 → (m ≡ 2 ^ 31 → s ≡ true) → magnitude (with_sign s m) ≡ m
magnitude-quotient s m h neg = elim (ℕ_discrete m (2 ^ 31)) [
  | yes e ↦ rw (neg e, e) magnitude-with_sign_min
  | no ne ↦ magnitude-with_sign_small s m (omega arith)
]

-- The only quotient of magnitudes that is no positive `int` has a negative sign.
quotient-magnitude :
    (a b : ℕ)
    → a < 2 ^ 32
    → b < 2 ^ 32
    → traps a b ≡ false
    → magnitude a / magnitude b ≡ 2 ^ 31
    → differ (is_negative a) (is_negative b) ≡ true
quotient-magnitude a b h k t e =
    let (b1, a1) =
      full_quotient (magnitude a) (magnitude b) (magnitude-le a h) (magnitude-pos a b k t) e in
    edge a b h k t b1 a1

-- A division that does not trap: the remainder is smaller than the divisor, the dividend has the
-- magnitude that the two results say, and the signs are those of C.
pub div32-mod32 :
    (a b : ℕ)
    → a < 2 ^ 32
    → b < 2 ^ 32
    → traps a b ≡ false
    → (q : ℕ) × (r : ℕ) × (div32 a b ≡ some q)
      × (mod32 a b ≡ some r)
      × (magnitude a ≡ magnitude q * magnitude b + magnitude r)
      × (magnitude r < magnitude b)
      × (r ≡ with_sign (is_negative a) (magnitude r))
      × (q ≡ with_sign (differ (is_negative a) (is_negative b)) (magnitude q))
unfolding div32 mod32
div32-mod32 a b h k t =
    let p = magnitude-pos a b k t in
    let small = magnitude-le b k in
    let rest : magnitude a % magnitude b < magnitude b = mod-lt (magnitude a) p in
    let r = magnitude-with_sign_small (is_negative a) (magnitude a % magnitude b) (omega arith) in
    let q =
      magnitude-quotient (differ (is_negative a) (is_negative b)) (magnitude a / magnitude b)
        (omega (arith, magnitude-le a h)) (quotient-magnitude a b h k t) in
    (
      with_sign (differ (is_negative a) (is_negative b)) (magnitude a / magnitude b),
      with_sign (is_negative a) (magnitude a % magnitude b),
      ground arith,
      ground arith,
      rw (q, r)
          (sym (div-add-mod (magnitude a) (magnitude b))
            ∙ omega (arith, mul_comm (magnitude b) (magnitude a / magnitude b))),
      rw r rest,
      rw r,
      rw q,
    )
