-- ===== src/Compiler/Lexan/Spelling.antt =====
-- How the symbols of the scanner, compiler/lexan.cpp, are written, and its states that read them.
use nesrotom_run.Base.{
  ℕ, zero, suc, ◌+◌, ◌-◌, ◌*◌, ◌%◌, ◌^◌, ◌≤◌, ◌<◌, ◌≡◌, ◌≢◌, ◌⊎◌, ◌∙◌, refl, sym, ap, inl, inr,
  Bool, true, false, ◌||◌, Option, none, some, [], ◌∷◌, ◌++◌, append_assoc, arith, length, ◌==◌,
  if◌then◌else◌,
}
use native.Mathlib.Nat.{pow-succ'}
use nesrotom_run.State.{Bytes}
use nesrotom_run.Compiler.Lexan.{
  Input, codes, LexSymbolType, lcurly, rcurly, add_assign, increment, plus, sub_assign, decrement,
  minus, mul_assign, times, div_assign, divide, mod_assign, modulo, lpar, rpar, eq, assign, lte,
  lshift, lt, gte, rshift, gt, colon, comma, double_dot, dot, lbrac, rbrac, neq, log_not, log_or,
  bit_or, log_and, bit_and, xor, plain, word, number_symbol, text_symbol, key_word, is_word_char,
  word_chars, is_digit, decimal, escape, prepend, text, max_ident_len, symbol, operator, starts,
  char_type,
}
use nesrotom_run.Compiler.Lexan.Pass.{
  bounded, scan_word, scan_number, scan_text, by_type, scan, slash,
}

-- The characters of a word.
abbrev pub WordChars : Bytes → Type 0
WordChars [] = Unit
WordChars (c ∷ w) = (is_word_char c ≡ true) × WordChars w

-- What may follow: no further character of a word; no further digit.
pub data Stops (p : ℕ → Bool) : Input → Type 0 where
  at_end : Stops p []
  at_other : {c : ℕ} {f : Input} → p c ≡ false → Stops p (c ∷ f)

word_chars_lem :
    (w : Bytes) (rest : Input)
    → WordChars w
    → Stops is_word_char rest
    → word_chars (w ++ rest) ≡ (w, rest)
unfolding word_chars
word_chars_lem [] [] h s = refl
word_chars_lem [] (c ∷ f) h (at_other e) = rw e
word_chars_lem (c ∷ w) rest (e, h) s = rw (word_chars_lem w rest h s, e)

-- A letter or an underscore.
pub data BeginsWord (c : ℕ) : Type 0 where
  capital : 65 ≤ c → c ≤ 90 → BeginsWord c
  small : 97 ≤ c → c ≤ 122 → BeginsWord c
  under : c ≡ 95 → BeginsWord c

begins : (c : ℕ) → BeginsWord c → (c ≡ 95) ⊎ ((65 ≤ c) × (c ≤ 122) × (91 ≤ c → 97 ≤ c))
begins c (capital a b) = inr (a, omega arith, λ h. omega arith)
begins c (small a b) = inr (omega arith, b, λ h. a)
begins c (under e) = inl e

operator-word : (c : ℕ) (f : Input) → BeginsWord c → operator c f ≡ none
unfolding operator
operator-word c f (capital a b) = ground arith
operator-word c f (small a b) = ground arith
operator-word c f (under e) = ground arith

scan-word_start : (c : ℕ) (f : Input) → BeginsWord c → scan (c ∷ f) ≡ scan_word c f
unfolding scan by_type char_type
scan-word_start c f (capital a b) = rw (operator-word c f (capital a b)) (ground arith)
scan-word_start c f (small a b) = rw (operator-word c f (small a b)) (ground arith)
scan-word_start c f (under e) = rw (operator-word c f (under e)) (ground arith)

pub scan-word :
    (c : ℕ) (w : Bytes) (rest : Input)
    → BeginsWord c
    → WordChars w
    → length w + 1 < max_ident_len
    → Stops is_word_char rest
    → scan (c ∷ w ++ rest) ≡ symbol (word (key_word (c ∷ w)) (c ∷ w)) rest
unfolding scan_word bounded
scan-word c w rest b h short s =
    scan-word_start c (w ++ rest) b ∙ rw (word_chars_lem w rest h s) (ground arith)

-- The number that decimal digits stand for.
unfoldable pub value : Bytes → ℕ
value [] = 0
value (d ∷ ds) = (d - 48) * 10 ^ length ds + value ds

abbrev pub Digits : Bytes → Type 0
Digits [] = Unit
Digits (d ∷ ds) = (48 ≤ d) × (d ≤ 57) × Digits ds

digit_test : (d : ℕ) → 48 ≤ d → d ≤ 57 → is_digit d ≡ true
digit_test d a b = ground arith

ten_pos : (k : ℕ) → 1 ≤ 10 ^ k
ten_pos zero = omega arith
ten_pos (suc k) = omega (arith, ten_pos k)

shift : (n d p v : ℕ) → (10 * n + d) * p + v ≡ n * (10 * p) + (d * p + v)
shift n d p v = grind arith

shift_digit : (n d k v : ℕ) → (10 * n + d) * 10 ^ k + v ≡ n * 10 ^ suc k + (d * 10 ^ k + v)
shift_digit n d k v =
    shift n d (10 ^ k) v ∙ ap (λ p. n * p + (d * 10 ^ k + v)) (sym (pow-succ' 10 k))

keeps : (m p v : ℕ) → 1 ≤ p → m * p + v < 2 ^ 32 → m < 2 ^ 32
keeps m p v h k = grind arith

mod_small : (a : ℕ) → a < 2 ^ 32 → a % 2 ^ 32 ≡ a
mod_small a h = omega arith

decimal_lem :
    (n : ℕ) (ds : Bytes) (rest : Input)
    → Digits ds
    → Stops is_digit rest
    → n * 10 ^ length ds + value ds < 2 ^ 32
    → decimal n (ds ++ rest) ≡ (n * 10 ^ length ds + value ds, rest)
unfolding decimal value
decimal_lem n [] [] h s fits = ap (λ m. (m, [])) (omega arith)
decimal_lem n [] (c ∷ f) h (at_other e) fits = rw e (ap (λ m. (m, c ∷ f)) (omega arith))
decimal_lem n (d ∷ ds) rest (a, b, h) s fits =
    let p = 10 ^ length ds in
    let total : (10 * n + (d - 48)) * p + value ds < 2 ^ 32 =
      omega (arith, shift_digit n (d - 48) (length ds) (value ds), fits) in
    let below = keeps (10 * n + (d - 48)) p (value ds) (ten_pos (length ds)) total in
    rw
      (
        digit_test d a b,
        mod_small (10 * n + (d - 48)) below,
        decimal_lem (10 * n + (d - 48)) ds rest h s total,
      )
      (ap (λ m. (m, rest)) (shift_digit n (d - 48) (length ds) (value ds)))

text_plain : (c : ℕ) (f : Input) → c ≢ 34 → c ≢ 92 → text (c ∷ f) ≡ prepend c (text f)
unfolding text
text_plain c [] q b = ground arith
text_plain c (d ∷ f) q b = ground arith

text_escaped : (d : ℕ) (f : Input) → text (92 ∷ d ∷ f) ≡ prepend (escape d) (text f)
unfolding text
text_escaped d f = ground arith

text_close : (f : Input) → text (34 ∷ f) ≡ some ([], f)
unfolding text
text_close [] = refl
text_close (d ∷ f) = refl

-- A character as it is written inside a string.
unfoldable pub quoted : ℕ → Bytes
quoted c =
    if c == 10
    then 92 ∷ b'n' ∷ []
    else if c == 9
    then 92 ∷ b't' ∷ []
    else if c == 8
    then 92 ∷ b'b' ∷ []
    else if c == 13
    then 92 ∷ b'r' ∷ []
    else if c == 34 || c == 92
    then 92 ∷ c ∷ []
    else c ∷ []

unfoldable pub quoted_all : Bytes → Bytes
quoted_all [] = []
quoted_all (c ∷ s) = quoted c ++ quoted_all s

text-quoted : (c : ℕ) (f : Input) → text (quoted c ++ f) ≡ prepend c (text f)
unfolding quoted escape
text-quoted c f = ground (
  arith,
  text_plain c f,
  text_escaped c f,
  text_escaped b'n' f,
  text_escaped b't' f,
  text_escaped b'b' f,
  text_escaped b'r' f,
)

text-quoted_all : (s : Bytes) (rest : Input) → text (quoted_all s ++ (34 ∷ rest)) ≡ some (s, rest)
unfolding quoted_all
text-quoted_all [] rest = text_close rest
text-quoted_all (c ∷ s) rest = rw (
  append_assoc (quoted c) (quoted_all s) (34 ∷ rest),
  text-quoted c (quoted_all s ++ (34 ∷ rest)),
  text-quoted_all s rest,
)

pub scan-text :
    (s : Bytes) (rest : Input)
    → length s < max_ident_len
    → scan (34 ∷ quoted_all s ++ (34 ∷ rest)) ≡ symbol (text_symbol s) rest
unfolding scan scan_text bounded
scan-text s rest short = ground (arith, text-quoted_all s rest)

no_x :
    (ds : Bytes) (rest : Input)
    → Digits ds
    → starts 120 rest ≡ false
    → starts 120 (ds ++ rest) ≡ false
no_x [] rest h e = e
no_x (d ∷ ds) rest (a, b, h) e = ground arith

operator-digit : (c : ℕ) (f : Input) → 48 ≤ c → c ≤ 57 → operator c f ≡ none
unfolding operator
operator-digit c f a b = ground arith

scan-number_start :
    (c : ℕ) (f : Input)
    → 48 ≤ c
    → c ≤ 57
    → starts 120 f ≡ false
    → scan (c ∷ f) ≡ symbol (number_symbol (decimal (c - 48) f).0) (decimal (c - 48) f).1
unfolding scan by_type char_type scan_number
scan-number_start c f a b e = rw (operator-digit c f a b) (ground (arith, e))

pub scan-number :
    (d : ℕ) (ds : Bytes) (rest : Input)
    → Digits (d ∷ ds)
    → value (d ∷ ds) < 2 ^ 32
    → Stops is_digit rest
    → starts 120 rest ≡ false
    → scan (d ∷ ds ++ rest) ≡ symbol (number_symbol (value (d ∷ ds))) rest
unfolding value
scan-number d ds rest (a, b, h) fits s e =
    rw (
      scan-number_start d (ds ++ rest) a b (no_x ds rest h e),
      decimal_lem (d - 48) ds rest h s fits,
    )

unfoldable pub spelling : LexSymbolType → Option Bytes
spelling lcurly = some (codes "{")
spelling rcurly = some (codes "}")
spelling add_assign = some (codes "+=")
spelling increment = some (codes "++")
spelling plus = some (codes "+")
spelling sub_assign = some (codes "-=")
spelling decrement = some (codes "--")
spelling minus = some (codes "-")
spelling mul_assign = some (codes "*=")
spelling times = some (codes "*")
spelling div_assign = some (codes "/=")
spelling divide = some (codes "/")
spelling mod_assign = some (codes "%=")
spelling modulo = some (codes "%")
spelling lpar = some (codes "(")
spelling rpar = some (codes ")")
spelling eq = some (codes "==")
spelling assign = some (codes "=")
spelling lte = some (codes "<=")
spelling lshift = some (codes "<<")
spelling lt = some (codes "<")
spelling gte = some (codes ">=")
spelling rshift = some (codes ">>")
spelling gt = some (codes ">")
spelling colon = some (codes ":")
spelling comma = some (codes ",")
spelling double_dot = some (codes "..")
spelling dot = some (codes ".")
spelling lbrac = some (codes "[")
spelling rbrac = some (codes "]")
spelling neq = some (codes "!=")
spelling log_not = some (codes "!")
spelling log_or = some (codes "||")
spelling bit_or = some (codes "|")
spelling log_and = some (codes "&&")
spelling bit_and = some (codes "&")
spelling xor = some (codes "^")
spelling _ = none

-- The characters with which an operator goes on to a longer one or to a comment.
unfoldable pub joins : LexSymbolType → ℕ → Bool
joins plus c = c == b'=' || c == b'+'
joins minus c = c == b'=' || c == b'-'
joins times c = c == b'='
joins divide c = c == b'=' || c == b'/' || c == b'*'
joins modulo c = c == b'='
joins assign c = c == b'='
joins lt c = c == b'=' || c == b'<'
joins gt c = c == b'=' || c == b'>'
joins dot c = c == b'.'
joins log_not c = c == b'='
joins bit_or c = c == b'|'
joins bit_and c = c == b'&'
joins _ c = false

pub scan-operator :
    (t : LexSymbolType) (s : Bytes) (rest : Input)
    → spelling t ≡ some s
    → Stops (joins t) rest
    → scan (s ++ rest) ≡ symbol (plain t) rest
unfolding spelling joins scan operator slash
scan-operator t s rest h at_end = ground (arith, h)
scan-operator t s rest h (at_other e) = ground (arith, h, e)
