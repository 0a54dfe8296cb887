-- ===== src/Execute/Operands.antt =====
-- Fetching an instruction's operands, and the pointer fields that ST and DR reach through a DPTR.
use nesrotom_run.Base.{
  ℕ, ◌+◌, ◌*◌, Option, none, some, List, length, get_elem?, set, ltb, ◌==◌, if◌then◌else◌,
}
use nesrotom_run.State.{
  const_ref, heap_ref, stack_ref, field, static_field, Value, null, ptr, dptr, Body, arr_objs, udo,
  expt, Symbol, Class, bad_access, Cmd, pure, stop, get, modify, from_option, ◌>>=◌, ◌>>◌, add32,
}
use nesrotom_run.State.Memory.{load, store}
use nesrotom_run.Frame.{read_cell, write_cell}

-- `ip_g += n`
unfoldable pub advance : ℕ → Cmd (Unit {0})
advance n = modify λ s. record s { ip = add32 s.ip n }

-- `bc_arr_g[i]`
unfoldable pub byte_at : ℕ → Cmd ℕ
byte_at i = do s ← get; from_option (s.bc_arr i) bad_access

-- `BC_OP16(ip_g)`: two bytes, the low one first.
unfoldable pub op16 : Cmd ℕ
op16 = do s ← get; lo ← byte_at s.ip; hi ← byte_at (add32 s.ip 1); pure (lo + hi * 256)

-- `arg1 = BC_OP16(++ip_g); ip_g += 2;`
unfoldable pub operand16 : Cmd ℕ
operand16 = do advance 1; n ← op16; advance 2; pure n

-- `arg2 = BC_OP16(ip_g); ip_g += 2;`
unfoldable pub next_operand16 : Cmd ℕ
next_operand16 = do n ← op16; advance 2; pure n

-- `arg1 = BC_OP8(++ip_g); ip_g++;`
unfoldable pub operand8 : Cmd ℕ
operand8 = do advance 1; s ← get; n ← byte_at s.ip; advance 1; pure n

-- The pointer fields of an object, the first at `field 0`. The message of an exception lies where a
-- user-defined object has its first variable.
unfoldable pub body_field : Body → ℕ → Option Value
body_field (arr_objs l a e) i = get_elem? e i
body_field (udo o v) i = get_elem? v i
body_field (expt o m) i = if i == 0 then some m else none
body_field _ i = none

unfoldable pub set_body_field : Body → ℕ → Value → Option Body
set_body_field (arr_objs l a e) i v =
    if ltb i (length e) then some (arr_objs l a (set e i v)) else none
set_body_field (udo o w) i v = if ltb i (length w) then some (udo o (set w i v)) else none
set_body_field (expt o m) i v = if i == 0 then some (expt o v) else none
set_body_field _ i v = none

abbrev pub with_value : Symbol → Value → Symbol
with_value y v = record y { value = v }

abbrev pub static_of : List Class → ℕ → ℕ → Option Symbol
static_of cs c k = elim (get_elem? cs c) [ none ↦ none | some d ↦ get_elem? d.syms_static k ]

abbrev pub set_static : List Class → ℕ → ℕ → Value → Option (List Class)
set_static cs c k v = elim (get_elem? cs c) [
  | none ↦ none
  | some d ↦ elim (get_elem? d.syms_static k) [
    | none ↦ none
    | some y ↦ some (set cs c (record d { syms_static = set d.syms_static k (with_value y v) }))
  ]
]

-- `*DPTR_VAL(obj, addr)`, read
unfoldable pub read_field : Value → Value → Cmd Value
read_field (ptr stack_ref) (dptr (field i)) = read_cell i
read_field (ptr (heap_ref r)) (dptr (field i)) = do
  o ← load (ptr (heap_ref r))
  from_option (body_field o.body i) bad_access
read_field (ptr (const_ref r)) (dptr (field i)) = do
  o ← load (ptr (const_ref r))
  from_option (body_field o.body i) bad_access
read_field null (dptr (static_field c k)) = do
  s ← get
  y ← from_option (static_of s.classes c k) bad_access
  pure y.value
read_field _ _ = stop bad_access

-- `*DPTR_VAL(obj, addr) = v`
unfoldable pub write_field : Value → Value → Value → Cmd (Unit {0})
write_field (ptr stack_ref) (dptr (field i)) v = write_cell i v
write_field (ptr (heap_ref r)) (dptr (field i)) v = do
  o ← load (ptr (heap_ref r))
  b ← from_option (set_body_field o.body i v) bad_access
  store (ptr (heap_ref r)) (record o { body = b })
write_field (ptr (const_ref r)) (dptr (field i)) v = do
  o ← load (ptr (const_ref r))
  b ← from_option (set_body_field o.body i v) bad_access
  store (ptr (const_ref r)) (record o { body = b })
write_field null (dptr (static_field c k)) v = do
  s ← get
  cs ← from_option (set_static s.classes c k v) bad_access
  modify λ s. record s { classes = cs }
write_field _ _ v = stop bad_access
