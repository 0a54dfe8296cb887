-- ===== src/Loader/RoundTrip.antt =====
-- Numbers, strings and lists that the compiler writes, under the loads of vm/loader.c.
use nesrotom_run.Base.{
  ℕ, zero, suc, ◌+◌, ◌*◌, ◌/◌, ◌%◌, ◌^◌, ◌<◌, ◌≡◌, ◌≢◌, ◌∙◌, refl, ap, true, [], ◌∷◌, ◌++◌,
  append_assoc, arith, length, ne→==,
}
use nesrotom_run.State.{Bytes}
use nesrotom_run.Loader.{
  loaded, Load, ◌>>=◌, ◌>>◌, fread, from_bytes, unless_max, load_uint, load_uint32, no_zero,
  load_string,
}
use nesrotom_run.Loader.Writer.{to_bytes, w32, wstr}

-- On a file that begins with `bs`, the load ends with `a` and leaves the rest.
abbrev pub Reads {ℓ} : {A : Type ℓ} → Load A → Bytes → A → Type ℓ
Reads m bs a = (rest : Bytes) → m (bs ++ rest) ≡ loaded a rest

pub Reads-then {ℓ κ} :
    {A : Type ℓ} {B : Type κ} (m : Load A) (k : A → Load B) (bs cs : Bytes) (a : A) (b : B)
    → Reads m bs a
    → Reads (k a) cs b
    → Reads (m >>= k) (bs ++ cs) b
Reads-then m k bs cs a b h g rest = rw (append_assoc bs cs rest, h (cs ++ rest), g rest)

pub Reads-after {ℓ} :
    {B : Type ℓ} (m : Load (Unit {0})) (k : Load B) (bs cs : Bytes) (b : B)
    → Reads m bs tt
    → Reads k cs b
    → Reads (m >> k) (bs ++ cs) b
Reads-after m k bs cs b h g rest = rw (append_assoc bs cs rest, h (cs ++ rest), g rest)

-- The same where the next load reads nothing.
pub Reads-last {ℓ κ} :
    {A : Type ℓ} {B : Type κ} (m : Load A) (k : A → Load B) (bs : Bytes) (a : A) (b : B)
    → Reads m bs a
    → Reads (k a) [] b
    → Reads (m >>= k) bs b
Reads-last m k bs a b h g rest = rw (h rest, g rest)

pub fread_lem : (bs : Bytes) → Reads (fread (length bs)) bs bs
unfolding fread
fread_lem [] rest = refl
fread_lem (b ∷ bs) rest = rw (fread_lem bs rest)

fread-to_bytes : (n v : ℕ) → Reads (fread n) (to_bytes n v) (to_bytes n v)
unfolding fread to_bytes
fread-to_bytes zero v rest = refl
fread-to_bytes (suc n) v rest = rw (fread-to_bytes n (v / 256) rest)

below : (n v : ℕ) → v < 256 ^ suc n → v / 256 < 256 ^ n
below n v h = grind arith

from_bytes-to_bytes : (n v : ℕ) → v < 256 ^ n → from_bytes (to_bytes n v) ≡ v
unfolding from_bytes to_bytes
from_bytes-to_bytes zero v h = omega (arith, h)
from_bytes-to_bytes (suc n) v h =
    ap (λ t. v % 256 + 256 * t) (from_bytes-to_bytes n (v / 256) (below n v h)) ∙ omega arith

pub load_uint_lem : (n max v : ℕ) → v < 256 ^ n → v ≢ max → Reads (load_uint n max) (to_bytes n v) v
unfolding load_uint unless_max
load_uint_lem n max v h ne rest =
    rw (fread-to_bytes n v rest, from_bytes-to_bytes n v h, ne→== v max ne)

pub load_uint32_lem : (v : ℕ) → v < 0xffff_ffff → Reads load_uint32 (w32 v) v
load_uint32_lem v h = load_uint_lem 4 0xffff_ffff v (omega arith) (omega arith)

pub load_string_lem :
    (s : Bytes) → length s < 0xffff_ffff → no_zero s ≡ true → Reads load_string (wstr s) s
unfolding load_string wstr
load_string_lem s h z rest = rw (
  append_assoc (w32 (length s)) s rest,
  load_uint32_lem (length s) h (s ++ rest),
  fread_lem s rest,
  z,
)
