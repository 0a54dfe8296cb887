-- ===== src/Operators/Division.antt =====
-- `/` and `%` of bc_bop (vm/vm.c) on integers.
use nesrotom_run.Base.{ℕ, ◌+◌, ◌*◌, ◌^◌, ◌≤◌, ◌<◌, ◌≡◌, ◌∙◌, refl, false, some}
use nesrotom_run.State.{Value, Vm, ok}
use nesrotom_run.State.Memory.{segment_size}
use nesrotom_run.Int32.{div32, mod32, magnitude, with_sign, is_negative, differ, traps}
use nesrotom_run.Int32.Signed.{div32-mod32}
use nesrotom_run.Operators.{Op, divide, modulo, int_op, bc_bop}
use nesrotom_run.Operators.Laws.{HasInt, bc_bop-HasInt, int_val-make_integer}

module _ {v w : Value} (x y n : ℕ) {s : Vm} (room : s.used + 32 ≤ segment_size) (a : HasInt v x s)
    (b : HasInt w y s) where
  made :
      (o : Op)
      → int_op o x y s ≡ ok n s
      → (r : Value) × (t : Vm) × (bc_bop o v w s ≡ ok r t) × HasInt r n t
  made o e =
      let (r, t, run, i, _, _) = int_val-make_integer n s room in
      (r, t, bc_bop-HasInt o a b ∙ rw e run, i)

  made_quotient :
      div32 x y ≡ some n → (r : Value) × (t : Vm) × (bc_bop divide v w s ≡ ok r t) × HasInt r n t
  unfolding int_op
  made_quotient e = made divide (rw e refl)

  made_remainder :
      mod32 x y ≡ some n → (r : Value) × (t : Vm) × (bc_bop modulo v w s ≡ ok r t) × HasInt r n t
  unfolding int_op
  made_remainder e = made modulo (rw e refl)

-- `/` and `%` of bc_bop on two integers, where the division does not trap (the divisor is not 0, and
-- it is not the least `int` divided by -1) and 32 bytes are free in the segment: both give integers,
-- the quotient q and the remainder r, for which the magnitude of the dividend is that of q times that
-- of the divisor plus that of r, and r is smaller than the divisor. q is negative or zero when the
-- signs of the operands differ, else not negative; r has the sign of the dividend or is zero.
pub bc_bop-division :
    {v w : Value} (x y : ℕ) {s : Vm}
    → x < 2 ^ 32
    → y < 2 ^ 32
    → traps x y ≡ false
    → s.used + 32 ≤ segment_size
    → HasInt v x s
    → HasInt w y s
    → (q : ℕ) × (r : ℕ) × ((u : Value) × (t : Vm) × (bc_bop divide v w s ≡ ok u t) × HasInt u q t)
      × ((u : Value) × (t : Vm) × (bc_bop modulo v w s ≡ ok u t) × HasInt u r t)
      × (magnitude x ≡ magnitude q * magnitude y + magnitude r)
      × (magnitude r < magnitude y)
      × (q ≡ with_sign (differ (is_negative x) (is_negative y)) (magnitude q))
      × (r ≡ with_sign (is_negative x) (magnitude r))
bc_bop-division x y h k safe room a b =
    let (q, r, d, m, eq, lt, rs, qs) = div32-mod32 x y h k safe in
    (q, r, made_quotient x y q room a b d, made_remainder x y r room a b m, eq, lt, qs, rs)
