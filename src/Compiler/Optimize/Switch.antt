-- ===== src/Compiler/Optimize/Switch.antt =====
-- The scopes of a `switch` and what Case::Optimize (compiler/strom.cpp) makes of them.
use nesrotom_run.Base.{
  ℕ, ◌^◌, ◌<◌, ◌≡◌, ◌∙◌, refl, sym, ap, inl, inr, Bool, true, false, ◌&&◌, arith, ◌==◌,
  if◌then◌else◌, Bool-cases, Option-cases, ==→eq,
}
use nesrotom_run.Int32.{int_le}
use nesrotom_run.Frame.{int_lt}
use nesrotom_run.Compiler.Tree.{Scopes, else_scope, no_scopes, number_scope, range_scope}
use nesrotom_run.Compiler.Optimize.{
  Previous, first, in_list, matches, number_of, simplify, unlinked,
}

-- The ends of all ranges are patterns of 32 bits.
abbrev pub Ints : Scopes → Type 0
Ints no_scopes = Unit
Ints (else_scope next) = Ints next
Ints (number_scope e next) = Ints next
Ints (range_scope lo hi next) = (lo < 2 ^ 32) × (hi < 2 ^ 32) × Ints next

-- Does a number lie in a range?
abbrev inside : ℕ → ℕ → ℕ → Bool
inside n lo hi = int_le lo n && int_le n hi

inside_one : (n lo : ℕ) → n < 2 ^ 32 → lo < 2 ^ 32 → inside n lo lo ≡ (n == lo)
unfolding int_lt
inside_one n lo h k = ground arith

inside_empty : (n lo hi : ℕ) → int_lt hi lo ≡ true → inside n lo hi ≡ false
unfolding int_lt
inside_empty n lo hi h = ground (arith, h)

-- An empty range, taken out or left, by what is before it.
taken_out :
    (n lo hi : ℕ) (p : Previous) (next : Scopes)
    → inside n lo hi ≡ false
    → ((q : Previous) → matches n (simplify q next) ≡ matches n next)
    → matches n (elim p [
      | first ↦ simplify unlinked next
      | in_list ↦ simplify in_list next
      | unlinked ↦ range_scope lo hi (simplify unlinked next)
    ])
      ≡ matches n next
unfolding matches
taken_out n lo hi first next e ih = ih unlinked
taken_out n lo hi in_list next e ih = ih in_list
taken_out n lo hi unlinked next e ih = rw e (ih unlinked)

-- Taking out empty ranges and writing a range of one number as this number keeps which numbers a list
-- of scopes matches, wherever in its loop Case::Optimize is.
pub matches-simplify :
    (n : ℕ) (p : Previous) (ss : Scopes)
    → n < 2 ^ 32
    → Ints ss
    → matches n (simplify p ss) ≡ matches n ss
unfolding matches simplify
matches-simplify n p no_scopes h k = refl
matches-simplify n p (else_scope next) h k = refl
matches-simplify n p (number_scope e next) h k = elim (Option-cases (number_of e)) [
  | inl z ↦ ground (arith, z, matches-simplify n in_list next h k)
  | inr (m, z) ↦ ground (arith, z, matches-simplify n in_list next h k)
]
matches-simplify n p (range_scope lo hi next) h (a, b, k) = elim (Bool-cases (lo == hi)) [
  | inl e ↦
      let same = ==→eq lo hi e in
      rw (e, matches-simplify n in_list next h k)
        (ap (λ c. if c then true else matches n next)
          (sym (inside_one n lo h a) ∙ ap (inside n lo) same))
  | inr e ↦ elim (Bool-cases (int_lt hi lo)) [
    | inl f ↦
        rw (e, f, inside_empty n lo hi f)
          (taken_out n lo hi p next (inside_empty n lo hi f) (λ q. matches-simplify n q next h k))
    | inr f ↦ rw (e, f, matches-simplify n in_list next h k) refl
  ]
]
