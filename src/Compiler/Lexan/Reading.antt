-- ===== src/Compiler/Lexan/Reading.antt =====
-- Written symbols with blanks and comments before them, and readLexem (compiler/lexan.cpp).
use nesrotom_run.Base.{ℕ, suc, ◌+◌, ◌^◌, ◌<◌, ◌≡◌, ◌≢◌, false, some, [], ◌∷◌, ◌++◌, length}
use nesrotom_run.State.{Bytes}
use nesrotom_run.Compiler.Lexan.{
  Input, LexSymbolType, plain, word, number_symbol, text_symbol, LexicalSymbol, key_word,
  is_word_char, is_digit, max_ident_len, starts,
}
use nesrotom_run.Compiler.Lexan.Spelling.{
  WordChars, Stops, BeginsWord, Digits, value, quoted_all, spelling, joins,
}

-- `Written x f rest`: the text `f` is a writing of the symbol `x`, and then `rest`.
pub data Written : LexicalSymbol → Input → Input → Type 0 where
  as_word :
      {c : ℕ} {w : Bytes} {rest : Input}
      → BeginsWord c
      → WordChars w
      → length w + 1 < max_ident_len
      → Stops is_word_char rest
      → Written (word (key_word (c ∷ w)) (c ∷ w)) (c ∷ w ++ rest) rest
  as_number :
      (d : ℕ) (ds : Bytes) {rest : Input}
      → Digits (d ∷ ds)
      → value (d ∷ ds) < 2 ^ 31
      → Stops is_digit rest
      → starts 120 rest ≡ false
      → Written (number_symbol (value (d ∷ ds))) (d ∷ ds ++ rest) rest
  as_text :
      (s : Bytes) {rest : Input}
      → length s < max_ident_len
      → Written (text_symbol s) (34 ∷ quoted_all s ++ (34 ∷ rest)) rest
  as_operator :
      {t : LexSymbolType} {s : Bytes} {rest : Input}
      → spelling t ≡ some s
      → Stops (joins t) rest
      → Written (plain t) (s ++ rest) rest

-- A comment's text: in one line; without a star.
abbrev pub InLine : Bytes → Type 0
InLine [] = Unit
InLine (c ∷ t) = (c ≢ 10) × (c ≢ 255) × InLine t

abbrev pub NoStar : Bytes → Type 0
NoStar [] = Unit
NoStar (c ∷ t) = (c ≢ 42) × (c ≢ 255) × NoStar t

-- The same with `n` blanks and comments in front.
pub data Reads : ℕ → LexicalSymbol → Input → Input → Type 0 where
  here : {x : LexicalSymbol} {f rest : Input} → Written x f rest → Reads 0 x f rest
  space :
      {n : ℕ} {x : LexicalSymbol} {f rest : Input}
      → Reads n x f rest
      → Reads (suc n) x (32 ∷ f) rest
  tab :
      {n : ℕ} {x : LexicalSymbol} {f rest : Input} → Reads n x f rest → Reads (suc n) x (9 ∷ f) rest
  one_line :
      {n : ℕ} {x : LexicalSymbol} {f rest : Input} (t : Bytes)
      → InLine t
      → Reads n x f rest
      → Reads (suc n) x (47 ∷ 47 ∷ t ++ (10 ∷ f)) rest
  long :
      {n : ℕ} {x : LexicalSymbol} {f rest : Input} (t : Bytes)
      → NoStar t
      → Reads n x f rest
      → Reads (suc n) x (47 ∷ 42 ∷ t ++ (42 ∷ 47 ∷ f)) rest
