-- ===== src/Word.antt =====
-- The tagged machine words of vm/types.h, on a 64-bit target: an object reference is a number
-- below 2 ^ 64, whose low bits say whether it is a pointer, a small integer, a character or an
-- offset into an object. `x & 3` is `x % 4`, `x >> 1` is `x / 2`, and `x | t` on a multiple of a
-- power of two above `t` is `x + t`.
pub mod Tags
mod Tests
use Prim.Native.Nat.{bit_or}
use nesrotom_run.Base.{
  ℕ, ◌+◌, ◌-◌, ◌*◌, ◌/◌, ◌%◌, ◌^◌, Bool, true, false, ◌||◌, ltb, ◌==◌, if◌then◌else◌,
}

abbrev pub word_mod : ℕ
word_mod = 2 ^ 64

abbrev pub int_mod : ℕ
int_mod = 2 ^ 32

-- IS_PTR
unfoldable pub is_ptr : ℕ → Bool
is_ptr obj = obj % 4 == 0

-- IS_CHAR
unfoldable pub is_char : ℕ → Bool
is_char obj = obj % 4 == 2

-- the first disjunct of IS_INT: a small integer kept in the word itself
unfoldable pub is_tagged_int : ℕ → Bool
is_tagged_int obj = obj % 2 == 1

-- IS_DPTR
unfoldable pub is_dptr : ℕ → Bool
is_dptr obj = obj % 4 == 3

-- A `char` is the bit pattern of a signed byte; converting it to `ptruint_t` extends the sign.
unfoldable pub extend_char : ℕ → ℕ
extend_char c = if ltb c 128 then c else word_mod - 256 + c

-- MAKE_CHAR
unfoldable pub make_char : ℕ → ℕ
unfolding extend_char
make_char c = extend_char c * 4 % word_mod + 2

-- CHAR_VAL
unfoldable pub char_val : ℕ → ℕ
char_val w = w / 4 % 256

-- the inline branch of make_integer: `((uint64_t)value << 1) | 1`
unfoldable pub tag_int : ℕ → ℕ
tag_int value = value * 2 % word_mod + 1

-- the first branch of INT_VAL: `(int32_t)(obj >> 1)`
unfoldable pub untag_int : ℕ → ℕ
untag_int w = w / 2 % int_mod

-- MAKE_DPTR: `(addr - obj) | 3`. The two low bits are set, whatever they were.
unfoldable pub make_dptr : ℕ → ℕ → ℕ
make_dptr obj addr = let d = (addr + word_mod - obj) % word_mod in d - d % 4 + 3

-- DPTR_VAL: `obj + (addr & ~3)`
unfoldable pub dptr_val : ℕ → ℕ → ℕ
dptr_val obj w = (obj + (w - w % 4)) % word_mod
