-- ===== src/Compiler/Translate/Prefix.antt =====
-- Commands of the compiler and the first `n` bytes of the bytecode.
use nesrotom_run.Base.{
  ℕ, zero, suc, ◌+◌, ◌-◌, ◌/◌, ◌%◌, ◌≤◌, ◌<◌, ◌≡◌, ◌∙◌, refl, sym, ap, subst, inl, inr, Option,
  none, some, List, [], ◌∷◌, ◌++◌, length, length-append, length-set, set, get_elem?,
  get_elem?-set_ne, arith, Bool-cases,
}
use nesrotom_run.State.{Bytes}
use nesrotom_run.Compiler.Emit.{
  Bcout, Emit, Label, and_then, append, bco_fix_forward_jmpw, bco_resolve_break, crash, fixed,
  is_brk, pure, resolve_at, resolve_from, ◌>>=◌, ◌>>◌,
}

pub record Keeps (n : ℕ) (s t : Bcout) : Type 0 where
  pub longer : length s.bc_arr ≤ length t.bc_arr
  pub same : (i : ℕ) → i < n → get_elem? t.bc_arr i ≡ get_elem? s.bc_arr i

Keeps-trans : {n : ℕ} {s t u : Bcout} → Keeps n s t → Keeps n t u → Keeps n s u
Keeps-trans k l = record {
  longer = omega (arith, k.longer, l.longer);
  same = λ i h. l.same i h ∙ k.same i h;
}

-- A command that, run on at least `n` bytes, keeps the first `n` and returns something with `P`.
pub record Safe {A : Type 0} (n : ℕ) (P : A → Type 0) (m : Emit A) : Type 0 where
  pub safe :
      (s : Bcout) (a : A) (t : Bcout) → n ≤ length s.bc_arr → m s ≡ some (a, t) → P a × Keeps n s t

abbrev pub Any : {A : Type 0} → A → Type 0
Any a = Unit

from_one :
    {A B : Type 0} (o : Option (A × Bcout)) (k : A → Emit B) (r : B × Bcout)
    → and_then o k ≡ some r
    → (a : A) × (t : Bcout) × (o ≡ some (a, t)) × (k a t ≡ some r)
from_one none k r h = absurd (ground (arith, h))
from_one (some (a, t)) k r h = (a, t, refl, h)

pub bind :
    {A B : Type 0} {n : ℕ} {P : A → Type 0} {Q : B → Type 0} {m : Emit A} {k : A → Emit B}
    → Safe n P m
    → ((a : A) → P a → Safe n Q (k a))
    → Safe n Q (m >>= k)
bind {m} {k} p q = record {
  safe = λ s b u l e.
      let (a, t, run, rest) = from_one (m s) k (b, u) e in
      let (pa, first) = p.safe s a t l run in
      let (qb, second) = (q a pa).safe t b u (omega (arith, l, first.longer)) rest in
      (qb, Keeps-trans first second);
}

pub followed :
    {A B : Type 0} {n : ℕ} {P : A → Type 0} {Q : B → Type 0} {m : Emit A} {k : Emit B}
    → Safe n P m
    → Safe n Q k
    → Safe n Q (m >> k)
followed {m} {k} p q = record {
  safe = λ s b u l e.
      let (a, t, run, rest) = from_one (m s) (λ _. k) (b, u) e in
      let (pa, first) = p.safe s a t l run in
      let (qb, second) = q.safe t b u (omega (arith, l, first.longer)) rest in
      (qb, Keeps-trans first second);
}

pub Keeps-refl : (n : ℕ) (s : Bcout) → Keeps n s s
Keeps-refl n s = record { longer = omega arith; same = λ i h. refl }

-- The result and the state of a run.
abbrev fst_of : {A : Type 0} → A → Option (A × Bcout) → A
fst_of d none = d
fst_of d (some (a, s)) = a

abbrev snd_of : {A : Type 0} → Bcout → Option (A × Bcout) → Bcout
snd_of d none = d
snd_of d (some (a, s)) = s

-- A command that returns one thing and one state.
pub steady :
    {A : Type 0} {n : ℕ} {P : A → Type 0} {m : Emit A} (f : Bcout → A) (g : Bcout → Bcout)
    → ((s : Bcout) → m s ≡ some (f s, g s))
    → ((s : Bcout) → n ≤ length s.bc_arr → P (f s) × Keeps n s (g s))
    → Safe n P m
steady {n} {P} {m} f g run keeps = record {
  safe = λ s a t l e.
      let (p, k) = keeps s l in
      let eq = sym (run s) ∙ e in
      (subst P (ap (fst_of a) eq) p, subst (Keeps n s) (ap (snd_of t) eq) k);
}

pub Safe-pure : {A : Type 0} {n : ℕ} {P : A → Type 0} (a : A) → P a → Safe n P (pure a)
Safe-pure {n} a p = steady (λ s. a) (λ s. s) (λ s. refl) (λ s l. (p, Keeps-refl n s))

pub Safe-crash : {A : Type 0} {n : ℕ} {P : A → Type 0} → Safe n P (crash {A = A})
Safe-crash = record { safe = λ s a t l e. absurd (ground (arith, e)) }

get_append : (xs ys : Bytes) (i : ℕ) → i < length xs → get_elem? (xs ++ ys) i ≡ get_elem? xs i
get_append [] ys i h = absurd (omega (arith, h))
get_append (x ∷ xs) ys zero h = refl
get_append (x ∷ xs) ys (suc i) h = get_append xs ys i (omega (arith, h))

-- Bytes behind the others.
Keeps-append :
    (n : ℕ) (s : Bcout) (c : Bytes) (l : List Label)
    → n ≤ length s.bc_arr
    → Keeps n s (record s { bc_arr = s.bc_arr ++ c; bc_lab = l })
Keeps-append n s c l h = record {
  longer = omega (arith, length-append s.bc_arr c);
  same = λ i k. get_append s.bc_arr c i (omega (arith, k, h));
}

pub Safe-append : {n : ℕ} (b : Bytes) (l : List Label) → Safe n (λ a. n ≤ a) (append b l)
Safe-append {n} b l =
    steady (λ s. length s.bc_arr) (λ s. record s { bc_arr = s.bc_arr ++ b; bc_lab = s.bc_lab ++ l })
      (λ s. refl) (λ s h. (h, Keeps-append n s b (s.bc_lab ++ l) h))

Keeps-fixed : (n i : ℕ) (s : Bcout) → n ≤ i → Keeps n s (fixed i s)
unfolding fixed
Keeps-fixed n i s h =
    let v = length s.bc_arr % 256 in
    let w = length s.bc_arr / 256 % 256 in
    record {
      longer =
          omega
            (arith, length-set (set s.bc_arr (i + 1) v) (i + 2) w, length-set s.bc_arr (i + 1) v);
      same = λ j k.
          get_elem?-set_ne (set s.bc_arr (i + 1) v) (i + 2) j w (λ e. omega (arith, e, k, h))
          ∙ get_elem?-set_ne s.bc_arr (i + 1) j v (λ e. omega (arith, e, k, h));
    }

pub Safe-fix : {n : ℕ} (i : ℕ) → n ≤ i → Safe n Any (bco_fix_forward_jmpw i)
unfolding bco_fix_forward_jmpw
Safe-fix {n} i h = steady (λ s. tt) (fixed i) (λ s. refl) (λ s l. (tt, Keeps-fixed n i s h))

Keeps-resolve_at : (n i : ℕ) (s : Bcout) → n ≤ i → Keeps n s (resolve_at i s)
unfolding resolve_at
Keeps-resolve_at n i s h = elim (Bool-cases (is_brk (get_elem? s.bc_lab i))) [
  | inl e ↦ let k = Keeps-fixed n i s h in rw e (record { longer = k.longer; same = k.same })
  | inr e ↦ rw e (Keeps-refl n s)
]

Keeps-resolve_from : (n k i : ℕ) (s : Bcout) → n ≤ i → Keeps n s (resolve_from k i s)
unfolding resolve_from
Keeps-resolve_from n zero i s h = Keeps-refl n s
Keeps-resolve_from n (suc k) i s h =
    Keeps-trans (Keeps-resolve_at n i s h)
      (Keeps-resolve_from n k (suc i) (resolve_at i s) (omega (arith, h)))

pub Safe-resolve : {n : ℕ} (a b : ℕ) → n ≤ a → Safe n Any (bco_resolve_break a b)
unfolding bco_resolve_break
Safe-resolve {n} a b h =
    steady (λ s. tt) (resolve_from (b - a) a) (λ s. refl)
      (λ s l. (tt, Keeps-resolve_from n (b - a) a s h))
