-- ===== src/Execute/Calls/Caching.antt =====
-- The inline cache of a call site against the search that it saves (CALL in vm/vm.c).
use nesrotom_run.Base.{
  ℕ, ◌≡◌, ◌≢◌, ◌∙◌, ◌⊎◌, ap, subst, inl, inr, Bool, none, some, arith, ◌==◌, Option-cases,
  Bool-cases, eq→==, ne→==,
}
use native.Mathlib.Decide.{ℕ_discrete}
use nesrotom_run.State.{
  Bytes, Method, InlineCache, Vm, Fault, vm_error, out_of_fuel, Run, ok, fault,
}
use nesrotom_run.State.Memory.{update}
use nesrotom_run.Classes.{find_method_in_class}
use nesrotom_run.Execute.Calls.{hit, static_flag, look_up, resolve}

-- The state with the method in the cache of the site.
unfoldable pub cached : (site cls : ℕ) → Method → Vm → Vm
cached site cls m s = record s {
  cache = update s.cache site (some (record { cls = cls; mth = m }));
}

-- What the cache of a site holds is what the search for these arguments finds.
pub record IsCoherent (fuel site : ℕ) (name : Bytes) (static_call : Bool) (args : ℕ) (s : Vm)
    : Type 0 where
  pub found :
      (c : InlineCache)
      → s.cache site ≡ some c
      → look_up fuel c.cls name static_call args s ≡ ok c.mth s

-- The outcomes of a call without and with the cache: the same method, which is then in the cache of
-- the site, or the same fault.
pub data SameOutcome (site cls : ℕ) (s : Vm) : Run Method → Run Method → Type 0 where
  from_cache :
      {m : Method}
      → s.cache site ≡ some (record { cls = cls; mth = m })
      → SameOutcome site cls s (ok m s) (ok m s)
  from_search : {m : Method} → SameOutcome site cls s (ok m s) (ok m (cached site cls m s))
  same_fault : {e : Fault} → SameOutcome site cls s (fault e) (fault e)

module _ (fuel cls : ℕ) (name : Bytes) (st : Bool) (args : ℕ) (s : Vm) where
  -- The search changes nothing.
  pub look_up-cases :
      ((m : Method) × (look_up fuel cls name st args s ≡ ok m s))
      ⊎ ((e : Fault) × (look_up fuel cls name st args s ≡ fault e))
  unfolding look_up
  look_up-cases =
      elim (Option-cases (find_method_in_class s.classes fuel cls name (static_flag st))) [
        | inl e ↦ inr (out_of_fuel, ground arith)
        | inr (r, e) ↦ elim (Option-cases r) [
          | inl e' ↦ inr (vm_error, ground arith)
          | inr (m, e') ↦ elim (Bool-cases (m.args_cnt == args)) [
            | inl t ↦ inl (m, ground arith)
            | inr f ↦ inr (vm_error, ground arith)
          ]
        ]
      ]

  pub miss_ok :
      (site : ℕ) (m : Method)
      → hit (s.cache site) cls ≡ none
      → look_up fuel cls name st args s ≡ ok m s
      → resolve fuel site cls name st args s ≡ ok m (cached site cls m s)
  unfolding resolve cached
  miss_ok site m h e = ground (arith, h, e)

  pub miss_fault :
      (site : ℕ) (f : Fault)
      → hit (s.cache site) cls ≡ none
      → look_up fuel cls name st args s ≡ fault f
      → resolve fuel site cls name st args s ≡ fault f
  unfolding resolve
  miss_fault site f h e = ground (arith, h, e)

  pub hit_ok :
      (site : ℕ) (m : Method)
      → hit (s.cache site) cls ≡ some m
      → resolve fuel site cls name st args s ≡ ok m s
  unfolding resolve
  hit_ok site m h = ground (arith, h)

  along :
      (site : ℕ) {a b a' b' : Run Method}
      → a ≡ a'
      → b ≡ b'
      → SameOutcome site cls s a' b'
      → SameOutcome site cls s a b
  along site e e' x = rw (e, e') x

  -- Without the class in the cache the search decides.
  resolve-miss :
      (site : ℕ)
      → hit (s.cache site) cls ≡ none
      → SameOutcome site cls s
          (look_up fuel cls name st args s)
          (resolve fuel site cls name st args s)
  resolve-miss site h = elim look_up-cases [
    | inl (m, e) ↦ along site e (miss_ok site m h e) from_search
    | inr (f, e) ↦ along site e (miss_fault site f h e) same_fault
  ]

  hit-none : (site : ℕ) → s.cache site ≡ none → hit (s.cache site) cls ≡ none
  hit-none site h = rw h

  hit_other :
      (site : ℕ) (c : InlineCache)
      → s.cache site ≡ some c
      → c.cls ≢ cls
      → hit (s.cache site) cls ≡ none
  hit_other site c h ne = rw (h, ne→== c.cls cls ne)

  pub hit_same :
      (site : ℕ) (c : InlineCache)
      → s.cache site ≡ some c
      → c.cls ≡ cls
      → hit (s.cache site) cls ≡ some c.mth
  hit_same site c h e = rw (h, eq→== c.cls cls e)

-- With a coherent cache, a call finds what the search finds.
pub resolve-look_up :
    (fuel site cls : ℕ) (name : Bytes) (static_call : Bool) (args : ℕ) (s : Vm)
    → IsCoherent fuel site name static_call args s
    → SameOutcome site cls s
        (look_up fuel cls name static_call args s)
        (resolve fuel site cls name static_call args s)
resolve-look_up fuel site cls name st args s h = elim (Option-cases (s.cache site)) [
  | inl e ↦ resolve-miss fuel cls name st args s site (hit-none fuel cls name st args s site e)
  | inr (c, e) ↦ elim (ℕ_discrete c.cls cls) [
    | no ne ↦
        resolve-miss fuel cls name st args s site (hit_other fuel cls name st args s site c e ne)
    | yes same ↦
        along fuel cls name st args s site
          (subst (λ x. look_up fuel x name st args s ≡ ok c.mth s) same (h.found c e))
          (hit_ok fuel cls name st args s site c.mth
            (hit_same fuel cls name st args s site c e same))
          (from_cache (e ∙ ap (λ x. some (record { cls = x; mth = c.mth })) same))
  ]
]
