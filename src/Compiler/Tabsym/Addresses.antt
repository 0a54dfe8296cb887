-- ===== src/Compiler/Tabsym/Addresses.antt =====
-- The addresses that the symbol table (compiler/tabsym.cpp) gives to the members of a class and of
-- its ancestors.
use nesrotom_run.Base.{
  if_true, if_false, ℕ, ◌≤◌, ◌<◌, ◌≡◌, ◌⊎◌, refl, sym, ap, ◌∙◌, inl, inr, Option, none, some, [],
  ◌∷◌, Bool, arith, Bool-cases, Option-cases, subst, length, ◌==◌, ==→eq,
}
use mathlib.Core.Option.{some-injective}
use mathlib.Core.List.{Memᴰ}
use nesrotom_run.State.{Bytes}
use nesrotom_run.Classes.{bytes_eq}
use nesrotom_run.Compiler.Tabsym.Lookup.{taken-some}
use nesrotom_run.Compiler.Tree.{sc_instance, sc_class}
use nesrotom_run.Compiler.Emit.{Bcout}
use nesrotom_run.Compiler.Tabsym.{
  PrvekTab, MethodEnv, ClassEnv, TabClass, Parent, no_parent, unknown, known, class_at,
  hledej_class,
}
use nesrotom_run.Compiler.Tabsym.Declare.{
  Env, first_addrs, parent_class, found_parent, new_class, parent_named, dekl_class, dekl_prom,
  dekl_method, dekl_konst_num, dekl_konst_str,
}
use nesrotom_run.Compiler.Tabsym.Layout.{
  slots_nil, Slots-le, Slots-mem, is_class, is_instance, LaidClass, Layered, layered_nil,
  layered_cons, Roomy,
}
use nesrotom_run.Compiler.Tabsym.Grows.{Grown, prom-Grown, num-Grown, str-Grown, method-Grown}

-- The tables that declarations lead to: a new class, or a method, a variable or a constant in the
-- newest class, which is the one that the parser is in.
pub data Reached : TabClass → Type 0 where
  reached_nil : Reached []
  reached_class :
      {cs cs' : TabClass}
      → (name : Bytes) (par : Option Bytes) → Reached cs
      → dekl_class name par cs ≡ some cs'
      → Reached cs'
  reached_method :
      {ce ce' : ClassEnv} {cs : TabClass} {me : MethodEnv}
      → (name : Bytes) (constructor is_static : Bool) → Reached (ce ∷ cs)
      → dekl_method name constructor is_static ce ≡ some (ce', me)
      → Reached (ce' ∷ cs)
  reached_variable :
      {ce : ClassEnv} {cs : TabClass} {e : Env}
      → (id : Bytes) (arg is_static : Bool) (mth : Option MethodEnv) → Reached (ce ∷ cs)
      → Roomy ce
      → dekl_prom id arg is_static (record { cls = ce; mth = mth }) ≡ some e
      → Reached (e.cls ∷ cs)
  reached_num :
      {ce : ClassEnv} {cs : TabClass} {e : Env}
      → (id : Bytes) (val : ℕ) (is_static : Bool) (mth : Option MethodEnv) (b b' : Bcout)
      → Reached (ce ∷ cs)
      → Roomy ce
      → dekl_konst_num id val is_static (record { cls = ce; mth = mth }) b ≡ some (e, b')
      → Reached (e.cls ∷ cs)
  reached_str :
      {ce : ClassEnv} {cs : TabClass} {e : Env}
      → (id val : Bytes) (is_static : Bool) (mth : Option MethodEnv) (b b' : Bcout)
      → Reached (ce ∷ cs)
      → Roomy ce
      → dekl_konst_str id val is_static (record { cls = ce; mth = mth }) b ≡ some (e, b')
      → Reached (e.cls ∷ cs)

hledej_class-lt : (id : Bytes) (cs : TabClass) (n : ℕ) → hledej_class id cs ≡ some n → n < length cs
unfolding hledej_class
hledej_class-lt id [] n h = absurd (ground (arith, h))
hledej_class-lt id (ce ∷ cs) n h = elim (Bool-cases (bytes_eq id ce.class_name)) [
  | inl y ↦ ground (arith, h, y)
  | inr y ↦ let l = hledej_class-lt id cs n (ground (arith, h, y)) in omega (arith, l)
]

class_at-lt : (n : ℕ) (cs : TabClass) (ce : ClassEnv) → class_at n cs ≡ some ce → n < length cs
unfolding class_at
class_at-lt n [] ce h = absurd (ground (arith, h))
class_at-lt n (c ∷ cs) ce h = elim (Bool-cases (n == length cs)) [
  | inl y ↦ omega (arith, ==→eq _ _ y)
  | inr y ↦ let l = class_at-lt n cs ce (ground (arith, h, y)) in omega (arith, l)
]

class_at-older :
    (n : ℕ) (c : ClassEnv) (cs : TabClass) → n < length cs → class_at n (c ∷ cs) ≡ class_at n cs
unfolding class_at
class_at-older n c cs l = ground (arith, l)

-- In a layered table a class is laid out behind its parent, and is younger.
record Placed (cs : TabClass) (n : ℕ) (ce : ClassEnv) : Type 0 where
  pub laid : LaidClass (first_addrs (parent_class ce.parent cs)) ce
  pub younger : (m : ℕ) → ce.parent ≡ known m → m < n

parent_class-older :
    (c : ClassEnv) (cs : TabClass) (p : Parent)
    → ((m : ℕ) → p ≡ known m → m < length cs)
    → parent_class p (c ∷ cs) ≡ parent_class p cs
unfolding parent_class
parent_class-older c cs no_parent h = refl
parent_class-older c cs unknown h = refl
parent_class-older c cs (known m) h = class_at-older m c cs (h m refl)

layer :
    {cs : TabClass} (n : ℕ) (ce : ClassEnv) → Layered cs → class_at n cs ≡ some ce → Placed cs n ce
unfolding class_at
layer n ce layered_nil h = absurd (ground (arith, h))
layer n ce (layered_cons {ce = c} {cs} o k l) h = elim (Bool-cases (n == length cs)) [
  | inl y ↦
      let same = some-injective _ _ (sym (if_true _ _ y) ∙ h) in
      subst (Placed (c ∷ cs) n) same (record {
        laid =
            subst (λ q. LaidClass (first_addrs q) c) (sym (parent_class-older c cs c.parent o)) k;
        younger = λ m e. omega (arith, o m e, ==→eq _ _ y);
      })
  | inr y ↦
      let found = sym (if_false _ _ y) ∙ h in
      let p = layer n ce l found in
      let lt = class_at-lt n cs ce found in
      record {
        laid =
            subst (λ q. LaidClass (first_addrs q) ce)
              (sym (parent_class-older c cs ce.parent (λ m e. omega (arith, lt, p.younger m e))))
              p.laid;
        younger = p.younger;
      }
]

prom-Layered :
    {cs : TabClass} {ce ce' : ClassEnv}
    → Layered (ce ∷ cs)
    → ((low : ℕ × ℕ) → LaidClass low ce → Grown low ce ce')
    → Layered (ce' ∷ cs)
prom-Layered {cs} {ce'} (layered_cons {ce} o k l) g =
    let w = g (first_addrs (parent_class ce.parent cs)) k in
    layered_cons (λ m e. o m (sym w.parent_same ∙ e))
      (subst (λ p. LaidClass (first_addrs (parent_class p cs)) ce') (sym w.parent_same) w.laid) l

known-inj : {n m : ℕ} → known n ≡ known m → n ≡ m
known-inj h = ground (arith, h)

parent_named-lt :
    (par : Option Bytes) (cs : TabClass) (m : ℕ) → parent_named par cs ≡ known m → m < length cs
unfolding parent_named found_parent
parent_named-lt none cs m h = absurd (ground (arith, h))
parent_named-lt (some par) cs m h = elim (Option-cases (hledej_class par cs)) [
  | inl e ↦ absurd (ground (arith, h, e))
  | inr (n, e) ↦ hledej_class-lt par cs m (e ∙ ap some (known-inj (sym (ap found_parent e) ∙ h)))
]

new_class-parent :
    (name : Bytes) (par : Option Bytes) (p : Parent) (cs : TabClass)
    → (new_class name par p cs).parent ≡ p
unfolding new_class
new_class-parent name par p cs = refl

new_class-Laid :
    (name : Bytes) (par : Option Bytes) (p : Parent) (cs : TabClass)
    → LaidClass (first_addrs (parent_class p cs)) (new_class name par p cs)
unfolding new_class
new_class-Laid name par p cs = record {
  class_slots = slots_nil (omega arith);
  obj_slots = slots_nil (omega arith);
}

class-Layered :
    (name : Bytes) (par : Option Bytes) (cs cs' : TabClass)
    → Layered cs
    → dekl_class name par cs ≡ some cs'
    → Layered cs'
unfolding dekl_class
class-Layered name par cs cs' l h =
    let (_, same) =
      taken-some (hledej_class name cs) (new_class name par (parent_named par cs) cs ∷ cs) cs' h in
    subst Layered same (
      layered_cons
        (λ m e.
          parent_named-lt par cs m (sym (new_class-parent name par (parent_named par cs) cs) ∙ e))
        (subst
          (λ p.
            LaidClass (first_addrs (parent_class p cs))
              (new_class name par (parent_named par cs) cs))
          (sym (new_class-parent name par (parent_named par cs) cs))
          (new_class-Laid name par (parent_named par cs) cs))
        l)

-- Every table that declarations lead to is laid out so.
pub Reached-Layered : {cs : TabClass} → Reached cs → Layered cs
Reached-Layered reached_nil = layered_nil
Reached-Layered (reached_class {cs} {cs'} name par r h) =
    class-Layered name par cs cs' (Reached-Layered r) h
Reached-Layered (reached_method {ce} {ce'} {me} name constructor is_static r h) =
    prom-Layered (Reached-Layered r)
      (λ low k. method-Grown name constructor is_static ce ce' me k h)
Reached-Layered (reached_variable {ce} {e} id arg is_static mth r room h) =
    prom-Layered (Reached-Layered r) (λ low k. prom-Grown id arg is_static ce mth e room k h)
Reached-Layered (reached_num {ce} {e} id val is_static mth b b' r room h) =
    prom-Layered (Reached-Layered r) (λ low k. num-Grown id val is_static ce mth e b b' room k h)
Reached-Layered (reached_str {ce} {e} id val is_static mth b b' r room h) =
    prom-Layered (Reached-Layered r) (λ low k. str-Grown id val is_static ce mth e b b' room k h)

-- `Ancestor cs ce pe`: `pe` is the parent of `ce`, or above the parent, where each class on the way was
-- declared after its parent. A parent that is declared later stays unknown in the table
-- (CLASS_UNKNOWN), and is no ancestor here.
pub data Ancestor (cs : TabClass) : ClassEnv → ClassEnv → Type 0 where
  parent :
      {ce pe : ClassEnv} (n m : ℕ)
      → class_at n cs ≡ some ce
      → ce.parent ≡ known m
      → class_at m cs ≡ some pe
      → Ancestor cs ce pe
  above :
      {ce pe qe : ClassEnv} (n m : ℕ)
      → class_at n cs ≡ some ce
      → ce.parent ≡ known m
      → class_at m cs ≡ some pe
      → Ancestor cs pe qe
      → Ancestor cs ce qe

-- What a class is laid out behind, and that an ancestor ends below it.
record Behind (ce qe : ClassEnv) : Type 0 where
  pub low : ℕ × ℕ
  pub laid : LaidClass low ce
  pub base : ℕ × ℕ
  pub above_laid : LaidClass base qe
  pub class_below : qe.class_addr_next ≤ low.0
  pub obj_below : qe.obj_addr_next ≤ low.1

first_of :
    (cs : TabClass) (ce : ClassEnv) {pe : ClassEnv} {m : ℕ}
    → ce.parent ≡ known m
    → class_at m cs ≡ some pe
    → first_addrs (parent_class ce.parent cs) ≡ (pe.class_addr_next, pe.obj_addr_next)
unfolding first_addrs parent_class
first_of cs ce e h = ap (λ p. first_addrs (parent_class p cs)) e ∙ ap first_addrs h

Ancestor-Behind : {cs : TabClass} {ce qe : ClassEnv} → Layered cs → Ancestor cs ce qe → Behind ce qe
Ancestor-Behind {cs} {ce} {qe} l (parent n m x y z) = record {
  low = (qe.class_addr_next, qe.obj_addr_next);
  laid = subst (λ q. LaidClass q ce) (first_of cs ce y z) (layer n ce l x).laid;
  base = _;
  above_laid = (layer m qe l z).laid;
  class_below = omega arith;
  obj_below = omega arith;
}
Ancestor-Behind {cs} {ce} l (above {pe} n m x y z a) =
    let b = Ancestor-Behind l a in
    record {
      low = (pe.class_addr_next, pe.obj_addr_next);
      laid = subst (λ q. LaidClass q ce) (first_of cs ce y z) (layer n ce l x).laid;
      base = b.base;
      above_laid = b.above_laid;
      class_below = omega (arith, b.class_below, Slots-le b.laid.class_slots);
      obj_below = omega (arith, b.obj_below, Slots-le b.laid.obj_slots);
    }

-- In every table that declarations lead to, a class variable or constant has a higher address than
-- every one of an ancestor, and an instance variable than every instance variable of an ancestor. An
-- ancestor is a class reached through parents of which each was declared before its subclass; of a
-- parent that is declared later nothing is said, since its subclass is numbered from 0.
pub Reached-Ancestor :
    {cs : TabClass} {ce qe : ClassEnv} (x y : PrvekTab)
    → Reached cs
    → Ancestor cs ce qe
    → Memᴰ x ce.syms
    → Memᴰ y qe.syms
    → ((x.sc ≡ sc_class) × (y.sc ≡ sc_class)) ⊎ ((x.sc ≡ sc_instance) × (y.sc ≡ sc_instance))
    → y.addr < x.addr
unfolding is_class is_instance
Reached-Ancestor x y r a p q (inl (e, f)) =
    let b = Ancestor-Behind (Reached-Layered r) a in
    let (l, _) = Slots-mem x b.laid.class_slots p (ap is_class e) in
    let (_, h) = Slots-mem y b.above_laid.class_slots q (ap is_class f) in
    omega (arith, l, h, b.class_below)
Reached-Ancestor x y r a p q (inr (e, f)) =
    let b = Ancestor-Behind (Reached-Layered r) a in
    let (l, _) = Slots-mem x b.laid.obj_slots p (ap is_instance e) in
    let (_, h) = Slots-mem y b.above_laid.obj_slots q (ap is_instance f) in
    omega (arith, l, h, b.obj_below)
