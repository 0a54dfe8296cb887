-- ===== src/Compiler/Tabsym/Layout.antt =====
-- How the members of a class are laid out in the symbol table (compiler/tabsym.cpp).
use nesrotom_run.Base.{
  ℕ, ◌+◌, ◌^◌, ◌≤◌, ◌<◌, ◌≡◌, ap, List, [], ◌∷◌, Bool, true, false, arith, subst, length,
}
use mathlib.Core.List.{Memᴰ}
use nesrotom_run.Compiler.Tree.{Scope, sc_instance, sc_class}
use nesrotom_run.Compiler.Tabsym.{PrvekTab, ClassEnv, TabClass, known}
use nesrotom_run.Compiler.Tabsym.Declare.{first_addrs, parent_class}

-- The entries of a list for which `P` holds have falling addresses, from below `n` down to `low`.
pub data Slots (P : PrvekTab → Bool) (low : ℕ) : ℕ → List PrvekTab → Type 0 where
  slots_nil : {n : ℕ} → low ≤ n → Slots P low n []
  slots_cons :
      {n : ℕ} {x : PrvekTab} {xs : List PrvekTab}
      → P x ≡ true
      → x.addr < n
      → Slots P low x.addr xs
      → Slots P low n (x ∷ xs)
  slots_other :
      {n : ℕ} {x : PrvekTab} {xs : List PrvekTab}
      → P x ≡ false
      → Slots P low n xs
      → Slots P low n (x ∷ xs)

module _ {P : PrvekTab → Bool} {low : ℕ} where
  pub Slots-le : {n : ℕ} {xs : List PrvekTab} → Slots P low n xs → low ≤ n
  Slots-le (slots_nil l) = l
  Slots-le (slots_cons p l s) = omega (arith, l, Slots-le s)
  Slots-le (slots_other p s) = Slots-le s

  pub Slots-mem :
      {n : ℕ} {xs : List PrvekTab} (x : PrvekTab)
      → Slots P low n xs
      → Memᴰ x xs
      → P x ≡ true
      → (low ≤ x.addr) × (x.addr < n)
  Slots-mem x (slots_nil l) m h = elim m [ ]
  Slots-mem x (slots_cons p l s) (Memᴰ.head e) h =
      let same = ap (λ q. q.addr) e in (omega (arith, same, Slots-le s), omega (arith, same, l))
  Slots-mem x (slots_cons p l s) (Memᴰ.tail m) h =
      let (a, b) = Slots-mem x s m h in (a, omega (arith, b, l))
  Slots-mem x (slots_other p s) (Memᴰ.head e) h =
      absurd (ground (arith, p, subst (λ q. P q ≡ true) e h))
  Slots-mem x (slots_other p s) (Memᴰ.tail m) h = Slots-mem x s m h

  pub Slots-weaken : {n m : ℕ} {xs : List PrvekTab} → Slots P low n xs → n ≤ m → Slots P low m xs
  Slots-weaken (slots_nil l) k = slots_nil (omega (arith, l, k))
  Slots-weaken (slots_cons p l s) k = slots_cons p (omega (arith, l, k)) s
  Slots-weaken (slots_other p s) k = slots_other p (Slots-weaken s k)

unfoldable pub is_class : Scope → Bool
is_class sc_class = true
is_class _ = false

unfoldable pub is_instance : Scope → Bool
is_instance sc_instance = true
is_instance _ = false

-- The members of a class lie between the counters of its parent and its own.
pub record LaidClass (low : ℕ × ℕ) (ce : ClassEnv) : Type 0 where
  pub class_slots : Slots (λ p. is_class p.sc) low.0 ce.class_addr_next ce.syms
  pub obj_slots : Slots (λ p. is_instance p.sc) low.1 ce.obj_addr_next ce.syms

-- A table in which every class is laid out behind its parent, which is older.
pub data Layered : TabClass → Type 0 where
  layered_nil : Layered []
  layered_cons :
      {ce : ClassEnv} {cs : TabClass}
      → ((m : ℕ) → ce.parent ≡ known m → m < length cs)
      → LaidClass (first_addrs (parent_class ce.parent cs)) ce
      → Layered cs
      → Layered (ce ∷ cs)

-- Room for one address more: the counters are ints.
pub record Roomy (ce : ClassEnv) : Type 0 where
  pub class_room : ce.class_addr_next + 1 < 2 ^ 32
  pub obj_room : ce.obj_addr_next + 1 < 2 ^ 32
