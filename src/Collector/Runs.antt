-- ===== src/Collector/Runs.antt =====
-- What the outcome of a run of the collector says about its parts.
use nesrotom_run.Base.{◌≡◌, refl, ap, Option, none, some, arith}
use nesrotom_run.State.{Fault}
use nesrotom_run.Collector.{Gc, Outcome, done, failed, Step, from_option, and_then}

pub from_done :
    {A B : Type 0} (o : Outcome A) (k : A → Step B) (b : B) (u : Gc)
    → and_then o k ≡ done b u
    → (a : A) × (t : Gc) × (o ≡ done a t) × (k a t ≡ done b u)
from_done (done a t) k b u h = (a, t, refl, h)
from_done (failed x) k b u h = absurd (ground (arith, h))

state_of : {A : Type 0} → Gc → Outcome A → Gc
state_of z (done a s) = s
state_of z (failed x) = z

value_of : {A : Type 0} → A → Outcome A → A
value_of a (done b s) = b
value_of a (failed x) = a

pub done_inj : {A : Type 0} {a b : A} {s t : Gc} → done a s ≡ done b t → (a ≡ b) × (s ≡ t)
unfolding state_of value_of
done_inj {a} {s} h = (ap (value_of a) h, ap (state_of s) h)

pub from_some :
    {A : Type 0} {s : Gc} (o : Option A) (x : Fault) (a : A) (t : Gc)
    → from_option o x s ≡ done a t
    → (o ≡ some a) × (s ≡ t)
unfolding from_option
from_some none x a t h = absurd (ground (arith, h))
from_some (some b) x a t h = let (e, f) = done_inj h in (ap some e, f)
