-- ===== src/Array/Growth.antt =====
-- The loop of arr_realloc_elems (vm/memory.c) that looks for the capacity of a longer array.
use nesrotom_run.Base.{
  ℕ, zero, suc, ◌+◌, ◌*◌, ◌/◌, ◌^◌, ◌≤◌, ◌<◌, ◌≡◌, ◌∙◌, refl, inl, inr, arith, ltb, Bool-cases,
  ltb_false→le, le→ltb, lt→ltb,
}
use nesrotom_run.State.{Vm, ok, fault, out_of_fuel}
use nesrotom_run.Array.{grow_size}

half_again : (n : ℕ) → 2 ≤ n → n < n * 3 / 2
half_again n h = omega arith

stop_at :
    (fuel new_size n : ℕ) (s : Vm)
    → n ≤ new_size
    → grow_size (suc fuel) new_size n s ≡ ok new_size s
unfolding grow_size
stop_at fuel new_size n s h = rw (le→ltb new_size n h)

go_on :
    (fuel new_size n : ℕ) (s : Vm)
    → new_size < n
    → new_size * 3 < 2 ^ 31
    → grow_size (suc fuel) new_size n s ≡ grow_size fuel (new_size * 3 / 2) n s
unfolding grow_size
go_on fuel new_size n s h k = rw (lt→ltb new_size n h, lt→ltb (new_size * 3) (2 ^ 31) k)

-- A capacity of two or more grows by half until the length fits: the search ends within the
-- difference of the two in rounds and one, for a length of at most 2^29, and the capacity found holds
-- the length and is no smaller than before.
pub grow_size-fits :
    (fuel new_size n : ℕ) (s : Vm)
    → 2 ≤ new_size
    → n ≤ 2 ^ 29
    → n ≤ fuel + new_size
    → (m : ℕ) × (grow_size (suc fuel) new_size n s ≡ ok m s) × (n ≤ m) × (new_size ≤ m)
grow_size-fits zero new_size n s h k f =
    (new_size, stop_at zero new_size n s (omega arith), omega arith, omega arith)
grow_size-fits (suc fuel) new_size n s h k f = elim (Bool-cases (ltb new_size n)) [
  | inr e ↦
      let le = ltb_false→le new_size n e in
      (new_size, stop_at (suc fuel) new_size n s le, le, omega arith)
  | inl e ↦
      let more = half_again new_size h in
      let (m, run, fits, le) =
        grow_size-fits fuel (new_size * 3 / 2) n s (omega (arith, more)) k (omega (arith, more)) in
      (
        m,
        go_on (suc fuel) new_size n s (ground arith) (ground arith) ∙ run,
        fits,
        omega (arith, le, more),
      )
]

-- From a capacity of one the search never ends: whatever the number of rounds, a length above one
-- is not reached, since 1 * 3 / 2 is 1 again.
pub grow_size-stuck : (fuel n : ℕ) (s : Vm) → 1 < n → grow_size fuel 1 n s ≡ fault out_of_fuel
unfolding grow_size
grow_size-stuck zero n s h = refl
grow_size-stuck (suc fuel) n s h = ground (arith, grow_size-stuck fuel n s h)
