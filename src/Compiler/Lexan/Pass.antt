-- ===== src/Compiler/Lexan/Pass.antt =====
-- The states of the compiler's scanner, compiler/lexan.cpp, from state q0 on: one pass, and readLexem.
use nesrotom_run.Base.{
  ℕ, zero, suc, ◌-◌, ◌&&◌, none, some, [], ◌∷◌, length, drop, ltb, ◌==◌, if◌then◌else◌,
}
use nesrotom_run.State.{Bytes}
use nesrotom_run.Compiler.Lexan.{
  div_assign, Input, LexicalSymbol, Scan, again, char_type, decimal, divide, end, eoi, hexadecimal,
  key_word, letter, line_comment, long_comment, max_ident_len, new_line, newline, no_type, number,
  number_symbol, operator, overflow, plain, refused, semicolon, skip_blanks, starts, symbol, text,
  text_symbol, underscore, white_space, word, word_chars,
}

-- After a `/`, state q1.
unfoldable pub slash : Input → Scan
slash f =
    if starts b'=' f
    then symbol (plain div_assign) (drop 1 f)
    else if starts b'/' f
    then elim (line_comment (drop 1 f)) [ none ↦ refused | some g ↦ again g ]
    else if starts b'*' f
    then elim (long_comment (drop 1 f)) [ none ↦ refused | some g ↦ again g ]
    else symbol (plain divide) f

-- The terminating zero is written behind the text, too.
unfoldable pub bounded : LexicalSymbol → Bytes → Input → Scan
bounded x s f = if ltb (length s) max_ident_len then symbol x f else overflow

unfoldable pub scan_number : ℕ → Input → Scan
scan_number c f =
    if c == b'0' && starts b'x' f
    then elim (hexadecimal 0 (drop 1 f)) [
      | none ↦ refused
      | some (n, g) ↦ symbol (number_symbol n) g
    ]
    else (let (n, g) = decimal (c - b'0') f in symbol (number_symbol n) g)

unfoldable pub scan_word : ℕ → Input → Scan
scan_word c f = let (w, g) = word_chars f in bounded (word (key_word (c ∷ w)) (c ∷ w)) (c ∷ w) g

unfoldable pub scan_text : Input → Scan
scan_text f = elim (text f) [ none ↦ overflow | some (s, g) ↦ bounded (text_symbol s) s g ]

-- The switch on `input`.
unfoldable pub by_type : ℕ → Input → Scan
by_type c f = elim (char_type c) [
  | new_line ↦ symbol (plain newline) (skip_blanks f)
  | white_space ↦ again f
  | end ↦ symbol (plain eoi) (c ∷ f)
  | letter ↦ scan_word c f
  | underscore ↦ scan_word c f
  | number ↦ scan_number c f
  | no_type ↦ refused
]

-- One pass from state q0.
unfoldable pub scan : Input → Scan
scan [] = symbol (plain eoi) []
scan (c ∷ f) =
    if c == b'/'
    then slash f
    else if c == b';'
    then symbol (plain semicolon) (skip_blanks f)
    else if c == b'"'
    then scan_text f
    else elim (operator c f) [ some (t, g) ↦ symbol (plain t) g | none ↦ by_type c f ]

-- What readLexem ends with.
pub data Lexed : Type 0 where
  lexed : LexicalSymbol → Input → Lexed
  exits overflows out_of_fuel : Lexed

-- readLexem, with fuel for the returns to state q0
unfoldable pub read_lexem : ℕ → Input → Lexed
read_lexem zero f = out_of_fuel
read_lexem (suc fuel) f = elim (scan f) [
  | symbol x g ↦ lexed x g
  | again g ↦ read_lexem fuel g
  | refused ↦ exits
  | overflow ↦ overflows
]
