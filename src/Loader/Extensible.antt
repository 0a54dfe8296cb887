-- ===== src/Loader/Extensible.antt =====
-- The loads of vm/loader.c and the bytes that follow what they take.
use nesrotom_run.Base.{
  ℕ, zero, suc, ◌^◌, ◌≡◌, ◌⊎◌, ◌∙◌, refl, sym, ap, subst, Bool, true, false, none, some, List, [],
  ◌∷◌, ◌++◌, ◌==◌, ltb, if◌then◌else◌, inl, inr,
}
use nesrotom_run.State.{Bytes, Value, Symbol, Fault, vm_error, assert_failed, bad_access}
use nesrotom_run.Loader.{
  Loaded, loaded, failed, Load, ◌>>=◌, ◌>>◌, done, fail, then_load, fread, from_bytes, unless_max,
  load_uint, no_zero, load_string, load_sym, load_syms_loop, load_syms, load_method,
  load_methods_loop, load_methods, load_optional,
}
use nesrotom_run.Loader.Parts.{
  load_class, load_classes_loop, load_classes, kek_magic, load_magic, load_bytes, starts_with_nil,
  kexe_load,
}

-- With more bytes after the file a load ends with the same result, and leaves the bytes.
pub record IsExtensible {ℓ} {A : Type ℓ} (m : Load A) : Type ℓ where
  pub extend : (f x : Bytes) (a : A) (r : Bytes) → m f ≡ loaded a r → m (f ++ x) ≡ loaded a (r ++ x)

done-IsExtensible {ℓ} : {A : Type ℓ} (a : A) → IsExtensible (done a)
done-IsExtensible a = record {
  extend = λ f x b r e. ap (λ l. then_load l (λ c s. loaded c (s ++ x))) e;
}

pub not_loaded {ℓ} : {A : Type ℓ} {e : Fault} {a : A} {r : Bytes} → ¬ (failed e ≡ loaded a r)
not_loaded k = subst (λ l. elim l as (λ _. Type 0) [ loaded _ _ ↦ ⊥ | failed _ ↦ Unit ]) k tt

fail-IsExtensible {ℓ} : {A : Type ℓ} (e : Fault) → IsExtensible (fail {A = A} e)
fail-IsExtensible e = record { extend = λ f x b r k. absurd (not_loaded k) }

pub loaded-cases {ℓ} :
    {A : Type ℓ} (l : Loaded A)
    → ((a : A) × (r : Bytes) × (l ≡ loaded a r)) ⊎ ((e : Fault) × (l ≡ failed e))
loaded-cases (loaded a r) = inl (a, r, refl)
loaded-cases (failed e) = inr (e, refl)

then-IsExtensible {ℓ κ} :
    {A : Type ℓ} {B : Type κ} (m : Load A) (k : A → Load B)
    → IsExtensible m
    → ((a : A) → IsExtensible (k a))
    → IsExtensible (m >>= k)
then-IsExtensible m k hm hk = record {
  extend = λ f x b r e. elim (loaded-cases (m f)) [
    | inl (a, s, e') ↦
        ap (λ l. then_load l k) (hm.extend f x a s e')
        ∙ (hk a).extend s x b r (sym (ap (λ l. then_load l k) e') ∙ e)
    | inr (z, e') ↦ absurd (not_loaded (sym (ap (λ l. then_load l k) e') ∙ e))
  ];
}

after-IsExtensible {ℓ} :
    {B : Type ℓ} (m : Load (Unit {0})) (k : Load B)
    → IsExtensible m
    → IsExtensible k
    → IsExtensible (m >> k)
after-IsExtensible m k hm hk = then-IsExtensible m (λ _. k) hm (λ _. hk)

if-IsExtensible {ℓ} :
    {A : Type ℓ} (b : Bool) (m k : Load A)
    → IsExtensible m
    → IsExtensible k
    → IsExtensible (if b then m else k)
if-IsExtensible true m k hm hk = hm
if-IsExtensible false m k hm hk = hk

fread-extend :
    (n : ℕ) (f x a r : Bytes) → fread n f ≡ loaded a r → fread n (f ++ x) ≡ loaded a (r ++ x)
unfolding fread
fread-extend zero f x a r e = ap (λ l. then_load l (λ c s. loaded c (s ++ x))) e
fread-extend (suc n) [] x a r e = absurd (not_loaded e)
fread-extend (suc n) (b ∷ f) x a r e = elim (loaded-cases (fread n f)) [
  | inl (c, s, e') ↦
      ap (λ l. then_load l (λ bs rest. loaded (b ∷ bs) rest)) (fread-extend n f x c s e')
      ∙ ap (λ l. then_load l (λ c s. loaded c (s ++ x)))
          (sym (ap (λ l. then_load l (λ bs rest. loaded (b ∷ bs) rest)) e') ∙ e)
  | inr (z, e') ↦
      absurd (not_loaded (sym (ap (λ l. then_load l (λ bs rest. loaded (b ∷ bs) rest)) e') ∙ e))
]

fread-IsExtensible : (n : ℕ) → IsExtensible (fread n)
fread-IsExtensible n = record { extend = fread-extend n }

unless_max-IsExtensible : (max v : ℕ) → IsExtensible (unless_max max v)
unfolding unless_max
unless_max-IsExtensible max v =
    if-IsExtensible (v == max) (fail vm_error) (done v) (fail-IsExtensible vm_error)
      (done-IsExtensible v)

load_uint-IsExtensible : (n max : ℕ) → IsExtensible (load_uint n max)
unfolding load_uint
load_uint-IsExtensible n max =
    then-IsExtensible (fread n) _ (fread-IsExtensible n)
      (λ bs. unless_max-IsExtensible max (from_bytes bs))

load_string-IsExtensible : IsExtensible load_string
unfolding load_string
load_string-IsExtensible = then-IsExtensible _ _ (load_uint-IsExtensible 4 0xffff_ffff) (λ len.
    then-IsExtensible (fread len) _ (fread-IsExtensible len) (λ s.
      if-IsExtensible (no_zero s) (done s) (fail assert_failed) (done-IsExtensible s)
        (fail-IsExtensible assert_failed)))

load_sym-IsExtensible : (old : Value) → IsExtensible (load_sym old)
unfolding load_sym
load_sym-IsExtensible old = then-IsExtensible load_string _ load_string-IsExtensible (λ name.
    then-IsExtensible _ _ (load_uint-IsExtensible 4 0xffff_ffff) (λ addr.
      then-IsExtensible _ _ (load_uint-IsExtensible 4 0xffff_ffff) (λ p. done-IsExtensible _)))

load_method-IsExtensible : IsExtensible load_method
unfolding load_method
load_method-IsExtensible = then-IsExtensible load_string _ load_string-IsExtensible (λ name.
    then-IsExtensible _ _ (load_uint-IsExtensible 4 0xffff_ffff) (λ args.
      then-IsExtensible _ _ (load_uint-IsExtensible 4 0xffff_ffff) (λ locals.
        then-IsExtensible _ _ (load_uint-IsExtensible 4 0xffff_ffff) (λ addr.
          then-IsExtensible _ _ (load_uint-IsExtensible 1 0xff) (λ st. done-IsExtensible _)))))

load_syms_loop-IsExtensible :
    (old : Value) (n : ℕ) (syms : List Symbol) → IsExtensible (load_syms_loop old n syms)
unfolding load_syms_loop
load_syms_loop-IsExtensible old zero syms = done-IsExtensible syms
load_syms_loop-IsExtensible old (suc n) syms =
    then-IsExtensible (load_sym old) _ (load_sym-IsExtensible old)
      (λ sym. load_syms_loop-IsExtensible old n (sym ∷ syms))

load_syms-IsExtensible : (old : Value) → IsExtensible (load_syms old)
unfolding load_syms
load_syms-IsExtensible old = then-IsExtensible _ _ (load_uint-IsExtensible 4 0xffff_ffff) (λ n.
    if-IsExtensible (ltb (2 ^ 31) n) (fail bad_access) (load_syms_loop old n [])
      (fail-IsExtensible bad_access) (load_syms_loop-IsExtensible old n []))

load_methods_loop-IsExtensible : (n : ℕ) → IsExtensible (load_methods_loop n)
unfolding load_methods_loop
load_methods_loop-IsExtensible zero = done-IsExtensible []
load_methods_loop-IsExtensible (suc n) =
    then-IsExtensible load_method _ load_method-IsExtensible (λ m.
      then-IsExtensible (load_methods_loop n) _ (load_methods_loop-IsExtensible n)
        (λ ms. done-IsExtensible (m ∷ ms)))

load_methods-IsExtensible : IsExtensible load_methods
unfolding load_methods
load_methods-IsExtensible =
    then-IsExtensible _ _ (load_uint-IsExtensible 4 0xffff_ffff) load_methods_loop-IsExtensible

load_optional-IsExtensible : IsExtensible load_optional
unfolding load_optional
load_optional-IsExtensible = then-IsExtensible _ _ (load_uint-IsExtensible 1 0xff) (λ has.
    if-IsExtensible (has == 0) _ _ (done-IsExtensible none)
      (then-IsExtensible load_method _ load_method-IsExtensible (λ m. done-IsExtensible (some m))))

load_class-IsExtensible : (old : Value) → IsExtensible (load_class old)
unfolding load_class
load_class-IsExtensible old = then-IsExtensible load_string _ load_string-IsExtensible (λ name.
    then-IsExtensible load_string _ load_string-IsExtensible (λ parent.
      then-IsExtensible (load_syms old) _ (load_syms-IsExtensible old) (λ statics.
        then-IsExtensible (load_syms old) _ (load_syms-IsExtensible old) (λ fields.
          then-IsExtensible load_optional _ load_optional-IsExtensible (λ init.
            then-IsExtensible load_optional _ load_optional-IsExtensible (λ constr.
              then-IsExtensible load_methods _ load_methods-IsExtensible
                (λ ms. done-IsExtensible _)))))))

load_classes_loop-IsExtensible : (old : Value) (n : ℕ) → IsExtensible (load_classes_loop old n)
unfolding load_classes_loop
load_classes_loop-IsExtensible old zero = done-IsExtensible []
load_classes_loop-IsExtensible old (suc n) =
    then-IsExtensible (load_class old) _ (load_class-IsExtensible old) (λ c.
      then-IsExtensible (load_classes_loop old n) _ (load_classes_loop-IsExtensible old n)
        (λ cs. done-IsExtensible (c ∷ cs)))

load_bytes-IsExtensible : IsExtensible load_bytes
unfolding load_bytes
load_bytes-IsExtensible =
    then-IsExtensible _ _ (load_uint-IsExtensible 8 0xffff_ffff_ffff_ffff) fread-IsExtensible

load_magic-IsExtensible : IsExtensible load_magic
unfolding load_magic
load_magic-IsExtensible = then-IsExtensible _ _ (load_uint-IsExtensible 4 0xffff_ffff) (λ magic.
    if-IsExtensible (magic == kek_magic) _ _ (done-IsExtensible tt) (fail-IsExtensible vm_error))

pub kexe_load-IsExtensible : (old : Value) → IsExtensible (kexe_load old)
unfolding kexe_load load_classes
kexe_load-IsExtensible old = after-IsExtensible load_magic _ load_magic-IsExtensible (
    then-IsExtensible _ _
      (then-IsExtensible _ _ (load_uint-IsExtensible 4 0xffff_ffff)
        (load_classes_loop-IsExtensible old))
      (λ cs. then-IsExtensible load_bytes _ load_bytes-IsExtensible (λ ct.
        then-IsExtensible load_bytes _ load_bytes-IsExtensible (λ bc.
          if-IsExtensible (starts_with_nil ct) _ _ (done-IsExtensible _)
            (fail-IsExtensible assert_failed)))))
