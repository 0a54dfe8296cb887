-- ===== src/Execute/Calls/History.antt =====
-- A call site over time: the calls that go through its inline cache (CALL in vm/vm.c), from the
-- state in which the cache is empty.
use nesrotom_run.Base.{ℕ, ◌≡◌, Bool, none, arith, ◌∙◌, sym}
use nesrotom_run.State.{Bytes, Method, Vm, ok}
use nesrotom_run.Execute.Calls.{look_up, resolve}
use nesrotom_run.Execute.Calls.Caching.{IsCoherent, SameOutcome, resolve-look_up}
use nesrotom_run.Execute.Calls.Coherence.{look_up-classes, resolve-IsCoherent}

-- The states that a call site used with one name, one kind of call and one number of arguments leads
-- to: its cache is empty; or a call through it found a method, for any class; or something else
-- happened, which left the class table and the cache of this site alone.
pub data History (fuel site : ℕ) (name : Bytes) (static_call : Bool) (args : ℕ) : Vm → Type 0 where
  fresh : {s : Vm} → s.cache site ≡ none → History fuel site name static_call args s
  called :
      {s t : Vm} (cls : ℕ) (m : Method)
      → History fuel site name static_call args s
      → resolve fuel site cls name static_call args s ≡ ok m t
      → History fuel site name static_call args t
  elsewhere :
      {s t : Vm}
      → History fuel site name static_call args s
      → t.classes ≡ s.classes
      → t.cache site ≡ s.cache site
      → History fuel site name static_call args t

History-IsCoherent :
    {fuel site : ℕ} {name : Bytes} {static_call : Bool} {args : ℕ} {s : Vm}
    → History fuel site name static_call args s
    → IsCoherent fuel site name static_call args s
History-IsCoherent (fresh e) = record { found = λ c h. absurd (ground (arith, e, h)) }
History-IsCoherent {fuel} {site} {name} {static_call} {args} (called {s} {t} cls m h r) =
    resolve-IsCoherent fuel site cls name static_call args s t m (History-IsCoherent h) r
History-IsCoherent {fuel} {site} {name} {static_call} {args} (elsewhere {s} {t} h same at) =
    record {
      found = λ c e.
          look_up-classes fuel c.cls name static_call args s t c.mth same
            ((History-IsCoherent h).found c (sym at ∙ e));
    }

-- At a call site that starts with an empty cache and is used with one name, one kind of call and one
-- number of arguments, for receivers of any classes, while the class table stays as it is, the cache
-- is transparent after any such history: a call finds the method that the search along the parents
-- finds now, or fails as the search does; on success this method is in the cache, for the class.
pub resolve-History :
    (fuel site cls : ℕ) (name : Bytes) (static_call : Bool) (args : ℕ) (s : Vm)
    → History fuel site name static_call args s
    → SameOutcome site cls s
        (look_up fuel cls name static_call args s)
        (resolve fuel site cls name static_call args s)
resolve-History fuel site cls name static_call args s h =
    resolve-look_up fuel site cls name static_call args s (History-IsCoherent h)
