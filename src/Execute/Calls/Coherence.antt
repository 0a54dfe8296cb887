-- ===== src/Execute/Calls/Coherence.antt =====
-- Two and more calls through the inline cache of one site (CALL in vm/vm.c).
use nesrotom_run.Base.{
  ℕ, ◌≡◌, ◌∙◌, ◌⊎◌, refl, sym, ap, subst, inl, inr, Bool, true, none, some, arith, ◌==◌,
  Option-cases, Bool-cases, eq→==,
}
use nesrotom_run.State.{Bytes, Method, InlineCache, Vm, Run, ok}
use nesrotom_run.Classes.{find_method_in_class}
use nesrotom_run.Execute.Calls.{hit, static_flag, look_up, resolve}
use nesrotom_run.Execute.Calls.Caching.{
  cached, IsCoherent, look_up-cases, miss_ok, miss_fault, hit_ok, hit_same,
}

module _ (fuel cls : ℕ) (name : Bytes) (st : Bool) (args : ℕ) (s : Vm) where
  ok_same :
      {m m' : Method} {t t' : Vm} → Path (Run Method) (ok m t) (ok m' t') → (m ≡ m') × (t ≡ t')
  ok_same e = (ground (arith, e), ground (arith, e))

  resolve-ok :
      (site : ℕ) (m : Method) (t : Vm)
      → resolve fuel site cls name st args s ≡ ok m t
      → ((t ≡ s) × (hit (s.cache site) cls ≡ some m))
        ⊎ ((t ≡ cached site cls m s) × (look_up fuel cls name st args s ≡ ok m s))
  resolve-ok site m t r = elim (Option-cases (hit (s.cache site) cls)) [
    | inr (m', e) ↦
        let (a, b) = ok_same (sym (hit_ok fuel cls name st args s site m' e) ∙ r) in
        inl (sym b, e ∙ ap some a)
    | inl e ↦ elim (look_up-cases fuel cls name st args s) [
      | inl (m', k) ↦
          let (a, b) = ok_same (sym (miss_ok fuel cls name st args s site m' e k) ∙ r) in
          inr (sym b ∙ ap (λ x. cached site cls x s) a, k ∙ ap (λ x. ok x s) a)
      | inr (f, k) ↦ absurd (ground (arith, miss_fault fuel cls name st args s site f e k, r))
    ]
  ]

  look_up_lem :
      (t : Vm) (k : Method)
      → t.classes ≡ s.classes
      → find_method_in_class s.classes fuel cls name (static_flag st) ≡ some (some k)
      → (k.args_cnt == args) ≡ true
      → look_up fuel cls name st args t ≡ ok k t
  unfolding look_up
  look_up_lem t k same e b = rw (same, e, b)

  -- The search looks at the classes only.
  pub look_up-classes :
      (t : Vm) (m : Method)
      → t.classes ≡ s.classes
      → look_up fuel cls name st args s ≡ ok m s
      → look_up fuel cls name st args t ≡ ok m t
  unfolding look_up
  look_up-classes t m same h =
      elim (Option-cases (find_method_in_class s.classes fuel cls name (static_flag st))) [
        | inl e ↦ absurd (ground (arith, h, e))
        | inr (r, e) ↦ elim (Option-cases r) [
          | inl e' ↦ absurd (ground (arith, h, e, e'))
          | inr (k, e') ↦ elim (Bool-cases (k.args_cnt == args)) [
            | inl b ↦
                let found = e ∙ ap some e' in
                let (eq, _) = ok_same (sym h ∙ look_up_lem s k refl found b) in
                look_up_lem t k same found b ∙ ap (λ x. ok x t) (sym eq)
            | inr f ↦ absurd (ground (arith, h, e, e', f))
          ]
        ]
      ]

cached_at :
    (site cls : ℕ) (m : Method) (s : Vm)
    → (cached site cls m s).cache site ≡ some (record { cls = cls; mth = m })
unfolding cached
cached_at site cls m s = rw (eq→== site site refl)

same_cache : {c d : InlineCache} → some c ≡ some d → c ≡ d
same_cache {c} e = ap (λ o. elim o [ some x ↦ x | none ↦ c ]) e

-- The cache of a site stays coherent when a call of the same kind goes through it.
pub resolve-IsCoherent :
    (fuel site cls : ℕ) (name : Bytes) (static_call : Bool) (args : ℕ) (s t : Vm) (m : Method)
    → IsCoherent fuel site name static_call args s
    → resolve fuel site cls name static_call args s ≡ ok m t
    → IsCoherent fuel site name static_call args t
unfolding cached
resolve-IsCoherent fuel site cls name st args s t m h r =
    elim (resolve-ok fuel cls name st args s site m t r) [
      | inl (e, _) ↦ subst (IsCoherent fuel site name st args) (sym e) h
      | inr (e, found) ↦ subst (IsCoherent fuel site name st args) (sym e) (record {
        found = λ c k.
            subst
              (λ x.
                look_up fuel x.cls name st args (cached site cls m s)
                ≡ ok x.mth (cached site cls m s))
              (same_cache (sym (cached_at site cls m s) ∙ k))
              (look_up-classes fuel cls name st args s (cached site cls m s) m refl found);
      })
    ]

-- A call site that has resolved a method for a class gives the same method for that class again,
-- whatever the name, the kind of the call, static or not, and the number of arguments: none of them
-- is compared with the cache.
pub resolve-again :
    (fuel fuel' site cls : ℕ) (name name' : Bytes) (static_call static_call' : Bool)
    (args args' : ℕ) (s t : Vm) (m : Method)
    → resolve fuel site cls name static_call args s ≡ ok m t
    → resolve fuel' site cls name' static_call' args' t ≡ ok m t
resolve-again fuel fuel' site cls name name' st st' args args' s t m r =
    elim (resolve-ok fuel cls name st args s site m t r) [
      | inl (e, h) ↦
          hit_ok fuel' cls name' st' args' t site m (ap (λ x. hit (x.cache site) cls) e ∙ h)
      | inr (e, _) ↦ hit_ok fuel' cls name' st' args' t site m (
          ap (λ x. hit (x.cache site) cls) e
          ∙ hit_same fuel' cls name' st' args' (cached site cls m s) site
              (record { cls = cls; mth = m }) (cached_at site cls m s) refl)
    ]
