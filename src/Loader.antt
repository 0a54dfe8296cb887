-- ===== src/Loader.antt =====
-- Loading a program file, vm/loader.c: the file is the list of its remaining bytes, and every load
-- takes what it reads off the front.
pub mod Parts
pub mod Written
pub mod Extensible
pub mod Truncated
pub mod Writer
pub mod RoundTrip
pub mod Members
mod Tests
use nesrotom_run.Base.{
  ℕ, zero, suc, ◌+◌, ◌*◌, ◌^◌, Bool, true, false, not, Option, none, some, List, [], ◌∷◌, ◌==◌, ltb,
  if◌then◌else◌,
}
use nesrotom_run.State.{
  Bytes, Value, Symbol, Method, bc_addr, Fault, vm_error, assert_failed, bad_access,
}

-- A load ends with its result and the rest of the file, or with the end of the program: vm_error
-- does not return, so neither do the error returns after it.
pub data Loaded {ℓ} (A : Type ℓ) : Type ℓ where
  loaded : A → Bytes → Loaded A
  failed : Fault → Loaded A

abbrev pub Load {ℓ} : Type ℓ → Type ℓ
Load A = Bytes → Loaded A

abbrev pub then_load {ℓ κ} : {A : Type ℓ} {B : Type κ} → Loaded A → (A → Load B) → Loaded B
then_load (loaded a rest) k = k a rest
then_load (failed e) k = failed e

infixl 5 ◌>>=◌ ◌>>◌
abbrev pub ◌>>=◌ {ℓ κ} : {A : Type ℓ} {B : Type κ} → Load A → (A → Load B) → Load B
◌>>=◌ m k f = then_load (m f) k

abbrev pub ◌>>◌ {ℓ} : {B : Type ℓ} → Load (Unit {0}) → Load B → Load B
◌>>◌ m k f = then_load (m f) (λ _. k)

abbrev pub done {ℓ} : {A : Type ℓ} → A → Load A
done a f = loaded a f

abbrev pub fail {ℓ} : {A : Type ℓ} → Fault → Load A
fail e f = failed e

-- `fread(…, 1, n, f)` of n bytes; fewer are an error.
unfoldable pub fread : ℕ → Load Bytes
fread zero f = loaded [] f
fread (suc n) [] = failed vm_error
fread (suc n) (b ∷ f) = then_load (fread n f) (λ bs rest. loaded (b ∷ bs) rest)

-- The number with these bytes, the low one first.
unfoldable pub from_bytes : Bytes → ℕ
from_bytes [] = 0
from_bytes (b ∷ bs) = b + 256 * from_bytes bs

-- `!= UINT…_MAX` on a number just read
unfoldable pub unless_max : (max value : ℕ) → Load ℕ
unless_max max value = if value == max then fail vm_error else done value

-- kexe_load_uint8, kexe_load_uint16, kexe_load_uint32 and kexe_load_size, each with the callers' test
-- that the result is not the greatest value of the type.
unfoldable pub load_uint : (bytes max : ℕ) → Load ℕ
load_uint bytes max = do bs ← fread bytes; unless_max max (from_bytes bs)

abbrev pub load_uint8 : Load ℕ
load_uint8 = load_uint 1 0xff

abbrev load_uint16 : Load ℕ
load_uint16 = load_uint 2 0xffff

abbrev pub load_uint32 : Load ℕ
load_uint32 = load_uint 4 0xffff_ffff

abbrev pub load_size : Load ℕ
load_size = load_uint 8 0xffff_ffff_ffff_ffff

-- `strlen(string) == len`: no byte is zero.
unfoldable pub no_zero : Bytes → Bool
no_zero [] = true
no_zero (b ∷ bs) = if b == 0 then false else no_zero bs

-- kexe_load_string
unfoldable pub load_string : Load Bytes
load_string = do
  len ← load_uint32
  string ← fread len
  if no_zero string then done string else fail assert_failed

-- kexe_load_sym, where malloc left `old` in the field `value`
unfoldable pub load_sym : Value → Load Symbol
load_sym old = do
  name ← load_string
  addr ← load_uint32
  const_ptr ← load_uint32
  done (record {
    name = name;
    const_ptr = const_ptr;
    value = old;
    addr = addr;
    const_flag = not (const_ptr == 0);
  })

-- The loop of kexe_load_syms: `i` counts down, so the first symbol read is the last of the array.
unfoldable pub load_syms_loop : Value → ℕ → List Symbol → Load (List Symbol)
load_syms_loop old zero syms = done syms
load_syms_loop old (suc i) syms = do sym ← load_sym old; load_syms_loop old i (sym ∷ syms)

-- kexe_load_syms. Above 2^31 the counter, an `int`, starts negative and the loop does not run: the
-- array keeps what malloc left in its more than 2^31 elements.
unfoldable pub load_syms : Value → Load (List Symbol)
load_syms old = do
  sym_cnt ← load_uint32
  if ltb (2 ^ 31) sym_cnt then fail bad_access else load_syms_loop old sym_cnt []

-- kexe_load_method, and the body of the loop of kexe_load_methods
unfoldable pub load_method : Load Method
load_method = do
  name ← load_string
  args_cnt ← load_uint32
  locals_cnt ← load_uint32
  addr ← load_uint32
  is_static ← load_uint8
  done (record {
    name = name;
    entry = bc_addr addr;
    args_cnt = args_cnt;
    locals_cnt = locals_cnt;
    is_static = is_static;
  })

-- The loop of kexe_load_methods
unfoldable pub load_methods_loop : ℕ → Load (List Method)
load_methods_loop zero = done []
load_methods_loop (suc n) = do
  method ← load_method
  methods ← load_methods_loop n
  done (method ∷ methods)

-- kexe_load_methods
unfoldable pub load_methods : Load (List Method)
load_methods = do methods_cnt ← load_uint32; load_methods_loop methods_cnt

-- `if (has_…) kexe_load_method(…)`
unfoldable pub load_optional : Load (Option Method)
load_optional = do
  has ← load_uint8
  if has == 0 then done none else (do method ← load_method; done (some method))
