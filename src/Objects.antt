-- ===== src/Objects.antt =====
-- The type tests of vm/types.h on values of the machine, and the objects that vm/k_string.c and
-- vm/k_symbol.c make.
use nesrotom_run.Base.{
  ℕ, ◌+◌, Bool, true, false, ◌&&◌, Option, none, some, [], ◌∷◌, ◌++◌, length, ◌==◌,
}
use nesrotom_run.State.{
  Bytes, Ref, const_ref, heap_ref, class_ref, stack_ref, Field, field, static_field, Value, null,
  ptr, small, char, dptr, Body, nil, int, str, sym, arr, arr_objs, exinfo, expt, file, term, udo,
  bad_access, Cmd, pure, stop, get, from_option, ◌>>=◌,
}
use nesrotom_run.State.Memory.{alloc, load}
use nesrotom_run.Classes.{find_class}

-- `type_t`, in the order of the source.
pub data ObjType : Type 0 where
  kek_nil kek_int kek_str kek_sym kek_arr kek_arr_objs kek_exinfo kek_expt kek_file kek_term :
      ObjType
  kek_udo kek_class kek_stack : ObjType

unfoldable pub body_type : Body → ObjType
body_type nil = kek_nil
body_type (int n) = kek_int
body_type (str s) = kek_str
body_type (sym s) = kek_sym
body_type (arr l a e) = kek_arr
body_type (arr_objs l a e) = kek_arr_objs
body_type (exinfo o b) = kek_exinfo
body_type (expt o m) = kek_expt
body_type (file o h) = kek_file
body_type term = kek_term
body_type (udo o v) = kek_udo

-- The number of a type: the enum value.
abbrev pub type_code : ObjType → ℕ
type_code kek_nil = 0
type_code kek_int = 1
type_code kek_str = 2
type_code kek_sym = 3
type_code kek_arr = 4
type_code kek_arr_objs = 5
type_code kek_exinfo = 6
type_code kek_expt = 7
type_code kek_file = 8
type_code kek_term = 9
type_code kek_udo = 10
type_code kek_class = 11
type_code kek_stack = 12

-- `obj->h.t`: a class and the stack begin with their type, too.
unfoldable pub type_of : Ref → Cmd ObjType
type_of (class_ref i) = pure kek_class
type_of stack_ref = pure kek_stack
type_of r = do o ← load (ptr r); pure (body_type o.body)

-- IS_NIL, IS_STR, IS_SYM, IS_ARR, IS_UDO, IS_CLASS: NULL counts as a pointer and is read.
unfoldable pub has_type : ObjType → Value → Cmd Bool
has_type t null = stop bad_access
has_type t (ptr r) = do u ← type_of r; pure (type_code u == type_code t)
has_type t v = pure false

-- IS_INT: every word with its low bit set passes, a DPTR too.
unfoldable pub is_int : Value → Cmd Bool
is_int (small n) = pure true
is_int (dptr f) = pure true
is_int v = has_type kek_int v

abbrev pub is_char : Value → Bool
is_char (char c) = true
is_char _ = false

-- IS_PTR
abbrev pub is_ptr : Value → Bool
is_ptr null = true
is_ptr (ptr r) = true
is_ptr _ = false

-- NIL, the object at the start of the constant table
abbrev pub nil_value : Value
nil_value = ptr (const_ref 0)

-- CONST
abbrev pub const : ℕ → Value
const i = ptr (const_ref i)

-- alloc_string, with the class that vm_find_class finds and the bytes that strcpy writes.
-- new_string_from_cstring
unfoldable pub new_string_from_cstring : Bytes → Cmd Value
new_string_from_cstring cstr = do
  s ← get
  alloc
      (record {
        cls = find_class (83 ∷ 116 ∷ 114 ∷ 105 ∷ 110 ∷ 103 ∷ []) s.classes;
        body = str cstr;
      })
      (32 + length cstr)

-- new_string_from_concat
unfoldable pub new_string_from_concat : Bytes → Bytes → Cmd Value
new_string_from_concat a b = do
  s ← get
  alloc
      (record {
        cls = find_class (83 ∷ 116 ∷ 114 ∷ 105 ∷ 110 ∷ 103 ∷ []) s.classes;
        body = str (a ++ b);
      })
      (32 + (length a + length b))

-- new_symbol_from_cstring
unfoldable pub new_symbol_from_cstring : Bytes → Cmd Value
new_symbol_from_cstring cstr = alloc (record { cls = none; body = sym cstr }) (32 + length cstr)

abbrev pub str_bytes : Body → Option Bytes
str_bytes (str s) = some s
str_bytes _ = none

abbrev pub sym_bytes : Body → Option Bytes
sym_bytes (sym s) = some s
sym_bytes _ = none

-- `obj->k_str.string` of a string, `obj->k_sym.symbol` of a symbol
unfoldable pub string_of : Value → Cmd Bytes
string_of v = do o ← load v; from_option (str_bytes o.body) bad_access

unfoldable pub symbol_of : Value → Cmd Bytes
symbol_of v = do o ← load v; from_option (sym_bytes o.body) bad_access

abbrev pub same_ref : Ref → Ref → Bool
same_ref (const_ref i) (const_ref j) = i == j
same_ref (heap_ref i) (heap_ref j) = i == j
same_ref (class_ref i) (class_ref j) = i == j
same_ref stack_ref stack_ref = true
same_ref _ _ = false

abbrev pub same_field : Field → Field → Bool
same_field (field i) (field j) = i == j
same_field (static_field i j) (static_field k l) = i == k && j == l
same_field _ _ = false

-- `a == b` on references
unfoldable pub same_value : Value → Value → Bool
same_value null null = true
same_value (ptr r) (ptr q) = same_ref r q
same_value (small m) (small n) = m == n
same_value (char c) (char d) = c == d
same_value (dptr f) (dptr g) = same_field f g
same_value _ _ = false
