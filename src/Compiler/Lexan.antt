-- ===== src/Compiler/Lexan.antt =====
-- The scanner, compiler/lexan.cpp. The input is the list of characters that getChar returns before EOF;
-- its head is the variable `character`, and readInput drops it. A byte above 127 is a negative `char`,
-- and 255 is EOF.
pub mod Pass
pub mod Spelling
pub mod Reading
use Prim.Native.Char.{code}
use Prim.Native.String.{String}
use nesrotom_run.Base.{
  ℕ, zero, suc, ◌+◌, ◌-◌, ◌*◌, ◌%◌, ◌^◌, Bool, true, false, ◌&&◌, ◌||◌, Option, none, some, List,
  [], ◌∷◌, length, drop, ltb, leb, ◌==◌, if◌then◌else◌,
}
use nesrotom_run.State.{Bytes}
use nesrotom_run.Classes.{bytes_eq}

abbrev pub codes : String → Bytes
codes String.[] = []
codes (String.◌∷◌ c s) = code c ∷ codes s

abbrev pub Input : Type 0
Input = List ℕ

pub data InputCharType : Type 0 where
  letter number underscore white_space new_line end no_type : InputCharType

-- The test of readInput.
unfoldable pub char_type : ℕ → InputCharType
char_type c =
    if (leb b'A' c && leb c b'Z') || (leb b'a' c && leb c b'z')
    then letter
    else if leb b'0' c && leb c b'9'
    then number
    else if c == b'_'
    then underscore
    else if c == 255
    then end
    else if c == 10
    then new_line
    else if leb c 32 || leb 128 c
    then white_space
    else no_type

-- `LexSymbolType`
pub data LexSymbolType : Type 0 where
  ident numb str plus minus times divide modulo eq neq lt gt lte gte : LexSymbolType
  lpar rpar assign comma semicolon newline kw_var kw_const lcurly rcurly : LexSymbolType
  kw_if kw_then kw_else kw_while kw_do kw_write eoi err kw_switch kw_case kw_default : LexSymbolType
  dot double_dot colon dash kw_integer kw_record lbrac rbrac kw_for kw_to kw_downto : LexSymbolType
  kw_break add_assign sub_assign mul_assign div_assign mod_assign increment decrement :
      LexSymbolType
  log_not log_or log_and bit_or bit_and xor lshift rshift kw_class kw_enum kw_static : LexSymbolType
  kw_return kw_this kw_super kw_new kw_nil kw_try kw_catch kw_throw : LexSymbolType

-- `LexicalSymbol`: the type, with the attribute that is set for it. `word` is an identifier or a
-- keyword, with its spelling.
pub data LexicalSymbol : Type 0 where
  plain : LexSymbolType → LexicalSymbol
  word : LexSymbolType → Bytes → LexicalSymbol
  number_symbol : ℕ → LexicalSymbol
  text_symbol : Bytes → LexicalSymbol

-- `keyWordTable`
abbrev pub key_word_table : List (Bytes × LexSymbolType)
key_word_table =
    (codes "var", kw_var)
    ∷ (codes "const", kw_const)
    ∷ (codes "if", kw_if)
    ∷ (codes "else", kw_else)
    ∷ (codes "while", kw_while)
    ∷ (codes "write", kw_write)
    ∷ (codes "switch", kw_switch)
    ∷ (codes "case", kw_case)
    ∷ (codes "default", kw_default)
    ∷ (codes "for", kw_for)
    ∷ (codes "downto", kw_downto)
    ∷ (codes "break", kw_break)
    ∷ (codes "class", kw_class)
    ∷ (codes "enum", kw_enum)
    ∷ (codes "static", kw_static)
    ∷ (codes "return", kw_return)
    ∷ (codes "this", kw_this)
    ∷ (codes "super", kw_super)
    ∷ (codes "new", kw_new)
    ∷ (codes "nil", kw_nil)
    ∷ (codes "try", kw_try)
    ∷ (codes "catch", kw_catch)
    ∷ (codes "throw", kw_throw)
    ∷ []

unfoldable pub key_word_in : List (Bytes × LexSymbolType) → Bytes → LexSymbolType
key_word_in [] id = ident
key_word_in ((w, t) ∷ table) id = if bytes_eq id w then t else key_word_in table id

-- keyWord
unfoldable pub key_word : Bytes → LexSymbolType
key_word id = key_word_in key_word_table id

-- `while (input == NEW_LINE || input == WHITE_SPACE) readInput();`
abbrev pub is_blank : ℕ → Bool
is_blank c = elim (char_type c) [ new_line ↦ true | white_space ↦ true | _ ↦ false ]

unfoldable pub skip_blanks : Input → Input
skip_blanks [] = []
skip_blanks (c ∷ f) = if is_blank c then skip_blanks f else c ∷ f

abbrev pub starts : ℕ → Input → Bool
starts d [] = false
starts d (c ∷ f) = c == d

abbrev pub is_end : ℕ → Bool
is_end c = c == 255

-- A one-line comment, from its second `/`: what follows its line, or the end of the file.
unfoldable pub line_comment : Input → Option Input
line_comment [] = none
line_comment (c ∷ f) = if is_end c then none else if c == 10 then some f else line_comment f

-- State q1a, in a long comment.
unfoldable pub long_comment : Input → Option Input
long_comment [] = none
long_comment (c ∷ f) =
    let rest = long_comment f in
    if c == b'*'
    then (if starts b'/' f then some (drop 1 f) else rest)
    else (if is_end c then none else rest)

abbrev pub is_word_char : ℕ → Bool
is_word_char c = elim (char_type c) [
  | letter ↦ true
  | number ↦ true
  | underscore ↦ true
  | _ ↦ false
]

-- State q2: the rest of a word, and what follows it.
unfoldable pub word_chars : Input → Bytes × Input
word_chars [] = ([], [])
word_chars (c ∷ f) =
    let (w, rest) = word_chars f in if is_word_char c then (c ∷ w, rest) else ([], c ∷ f)

abbrev pub is_digit : ℕ → Bool
is_digit c = leb b'0' c && leb c b'9'

-- State q3: a decimal number. Its value is an `int`: from 2^31 on the sum overflows, which C leaves
-- undefined; here the pattern wraps.
unfoldable pub decimal : ℕ → Input → ℕ × Input
decimal n [] = (n, [])
decimal n (c ∷ f) =
    let r = decimal ((10 * n + (c - b'0')) % 2 ^ 32) f in if is_digit c then r else (n, c ∷ f)

-- The value of a hexadecimal digit.
unfoldable pub hex_digit : ℕ → Option ℕ
hex_digit c =
    if is_digit c
    then some (c - b'0')
    else if leb b'a' c && leb c b'f'
    then some (c - b'a' + 10)
    else if leb b'A' c && leb c b'F'
    then some (c - b'A' + 10)
    else none

abbrev pub is_letter : ℕ → Bool
is_letter c = elim (char_type c) [ letter ↦ true | _ ↦ false ]

-- State q7: a hexadecimal number; any other letter ends the program.
unfoldable pub hexadecimal : ℕ → Input → Option (ℕ × Input)
hexadecimal n [] = some (n, [])
hexadecimal n (c ∷ f) = elim (hex_digit c) [
  | some d ↦ hexadecimal ((16 * n + d) % 2 ^ 32) f
  | none ↦ if is_letter c then none else some (n, c ∷ f)
]

-- State q9: the character after a backslash.
unfoldable pub escape : ℕ → ℕ
escape c =
    if c == b'n'
    then 10
    else if c == b't'
    then 9
    else if c == b'b'
    then 8
    else if c == b'r'
    then 13
    else c

abbrev pub prepend : ℕ → Option (Bytes × Input) → Option (Bytes × Input)
prepend c none = none
prepend c (some (s, rest)) = some (c ∷ s, rest)

-- State q8: the rest of a string. At the end of the file the code goes on writing EOF, which takes it
-- past the end of `ident`. This write is undefined in C, as that of a string that is too long; `none`
-- stands for it, and scan_text makes it the outcome `overflow`.
unfoldable pub text : Input → Option (Bytes × Input)
text [] = none
text (c ∷ []) = if c == b'"' then some ([], []) else none
text (c ∷ d ∷ f) =
    if c == b'"'
    then some ([], d ∷ f)
    else if c == b'\\'
    then prepend (escape d) (text f)
    else prepend c (text (d ∷ f))

-- MAX_IDENT_LEN
abbrev pub max_ident_len : ℕ
max_ident_len = 1024

-- What one pass from state q0 ends with: a symbol, state q0 again, `exit(1)`, or a write past the end of
-- the buffer `ident`.
pub data Scan : Type 0 where
  symbol : LexicalSymbol → Input → Scan
  again : Input → Scan
  refused overflow : Scan

-- The symbols that are told by their first two characters; `f` follows the first one.
abbrev pub follows : ℕ → LexSymbolType → LexSymbolType → Input → Option (LexSymbolType × Input)
follows d t u f = some (if starts d f then (t, drop 1 f) else (u, f))

unfoldable pub operator : ℕ → Input → Option (LexSymbolType × Input)
operator c f =
    if c == b'{'
    then some (lcurly, f)
    else if c == b'}'
    then some (rcurly, f)
    else if c == b'+'
    then (if starts b'=' f then some (add_assign, drop 1 f) else follows b'+' increment plus f)
    else if c == b'-'
    then (if starts b'=' f then some (sub_assign, drop 1 f) else follows b'-' decrement minus f)
    else if c == b'*'
    then follows b'=' mul_assign times f
    else if c == b'%'
    then follows b'=' mod_assign modulo f
    else if c == b'('
    then some (lpar, f)
    else if c == b')'
    then some (rpar, f)
    else if c == b'='
    then follows b'=' eq assign f
    else if c == b'<'
    then (if starts b'=' f then some (lte, drop 1 f) else follows b'<' lshift lt f)
    else if c == b'>'
    then (if starts b'=' f then some (gte, drop 1 f) else follows b'>' rshift gt f)
    else if c == b':'
    then some (colon, f)
    else if c == b','
    then some (comma, f)
    else if c == b'.'
    then follows b'.' double_dot dot f
    else if c == b'['
    then some (lbrac, f)
    else if c == b']'
    then some (rbrac, f)
    else if c == b'!'
    then follows b'=' neq log_not f
    else if c == b'|'
    then follows b'|' log_or bit_or f
    else if c == b'&'
    then follows b'&' log_and bit_and f
    else if c == b'^'
    then some (xor, f)
    else none
