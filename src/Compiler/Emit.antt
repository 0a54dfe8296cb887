-- ===== src/Compiler/Emit.antt =====
-- The compiler's output, compiler/bcout.cpp: the bytecode with its labels, and the constant table. The
-- buffers are lists; their growth is left out. What the translation
-- stores into a `MethodEnv` is kept here, too.
pub mod Constants
use nesrotom_run.Base.{
  ℕ, zero, suc, ◌+◌, ◌-◌, ◌*◌, ◌/◌, ◌%◌, ◌^◌, Bool, true, false, not, ◌&&◌, Option, none, some,
  List, [], ◌∷◌, ◌++◌, length, get_elem?, set, replicate, ltb, leb, ◌==◌, if◌then◌else◌,
}
use nesrotom_run.State.{Bytes, TryRange}
use nesrotom_run.State.Memory.{update}
use nesrotom_run.Classes.{bytes_eq}
use nesrotom_run.Compiler.Bc.{op_ju}

-- `label_t`
pub data Label : Type 0 where
  no_label brk : Label

-- An object of the constant table. `cls` is the name of the parent class, 0 for none; `capacity` is the
-- number of blocks that were allocated.
pub data Item : Type 0 where
  nil_item : Item
  int_item : ℕ → Item
  str_item : Bytes → Item
  sym_item : (name : Bytes) (cls : ℕ) → Item
  arr_item : (elems : List ℕ) → Item
  exinfo_item : (capacity : ℕ) (blocks : List TryRange) → Item

-- What the translation uses of `MethodEnv` (compiler/tabsym.h).
pub record MethodEnv : Type 0 where
  pub bc_entrypoint : ℕ
  pub exception_info_idx : ℕ
  pub try_block_cnt : ℕ
  pub has_exobjs : Bool

-- `bcout_t`. An object of the table is known by its offset.
pub record Bcout : Type 0 where
  pub bc_arr : Bytes
  pub bc_lab : List Label
  pub const_table : List (ℕ × Item)
  pub const_table_cnt : ℕ
  pub envs : ℕ → MethodEnv

-- A piece of the compiler that writes; `none` is a crash: an access through NULL, to a deleted node, or
-- past the end of an object.
abbrev pub Emit {ℓ} : Type ℓ → Type ℓ
Emit A = Bcout → Option (A × Bcout)

abbrev pub pure {ℓ} : {A : Type ℓ} → A → Emit A
pure a s = some (a, s)

abbrev pub crash {ℓ} : {A : Type ℓ} → Emit A
crash s = none

abbrev pub and_then {ℓ κ} :
    {A : Type ℓ} {B : Type κ} → Option (A × Bcout) → (A → Emit B) → Option (B × Bcout)
and_then none k = none
and_then (some (a, s)) k = k a s

infixl 5 ◌>>=◌ ◌>>◌
abbrev pub ◌>>=◌ {ℓ κ} : {A : Type ℓ} {B : Type κ} → Emit A → (A → Emit B) → Emit B
◌>>=◌ m k s = and_then (m s) k

abbrev pub ◌>>◌ {ℓ κ} : {A : Type ℓ} {B : Type κ} → Emit A → Emit B → Emit B
◌>>◌ m k s = and_then (m s) (λ _. k)

abbrev pub get : Emit Bcout
get s = some (s, s)

-- The bytes and their labels, behind what is there; the address of the first one is returned.
abbrev pub append : Bytes → List Label → Emit ℕ
append b l s = some (length s.bc_arr, record s { bc_arr = s.bc_arr ++ b; bc_lab = s.bc_lab ++ l })

unfoldable pub bco_w8 : ℕ → Emit ℕ
bco_w8 b = append (b % 256 ∷ []) (no_label ∷ [])

unfoldable pub bco_w8_labeled : ℕ → Label → Emit ℕ
bco_w8_labeled b l = append (b % 256 ∷ []) (l ∷ [])

-- The low byte first; a larger number loses its upper bits.
unfoldable pub bco_w16 : ℕ → Emit ℕ
bco_w16 n = append (n % 256 ∷ n / 256 % 256 ∷ []) (no_label ∷ no_label ∷ [])

unfoldable pub bco_w0 : ℕ → Emit ℕ
bco_w0 bc = bco_w8 bc

unfoldable pub bco_wb1 : ℕ → ℕ → Emit ℕ
bco_wb1 bc a = do ip ← bco_w8 bc; _ ← bco_w8 a; pure ip

unfoldable pub bco_ww1 : ℕ → ℕ → Emit ℕ
bco_ww1 bc a = do ip ← bco_w8 bc; _ ← bco_w16 a; pure ip

unfoldable pub bco_ww1_labeled : ℕ → ℕ → Label → Emit ℕ
bco_ww1_labeled bc a l = do ip ← bco_w8_labeled bc l; _ ← bco_w16 a; pure ip

unfoldable pub bco_ww2 : ℕ → ℕ → ℕ → Emit ℕ
bco_ww2 bc a b = do ip ← bco_w8 bc; _ ← bco_w16 a; _ ← bco_w16 b; pure ip

-- bco_get_ip
unfoldable pub bco_get_ip : Emit ℕ
bco_get_ip = do s ← get; pure (length s.bc_arr)

-- The operand of the jump at `i` becomes the present end of the bytecode, cut to 16 bits.
unfoldable pub fixed : ℕ → Bcout → Bcout
fixed i s =
    let n = length s.bc_arr in
    record s { bc_arr = set (set s.bc_arr (i + 1) (n % 256)) (i + 2) (n / 256 % 256) }

unfoldable pub bco_fix_forward_jmpw : ℕ → Emit (Unit {0})
bco_fix_forward_jmpw i s = some (tt, fixed i s)

abbrev pub is_brk : Option Label → Bool
is_brk (some brk) = true
is_brk _ = false

-- One round of the loop of bco_resolve_break.
unfoldable pub resolve_at : ℕ → Bcout → Bcout
resolve_at i s =
    if is_brk (get_elem? s.bc_lab i)
    then (let t = fixed i s in record t { bc_lab = set t.bc_lab i no_label })
    else s

unfoldable pub resolve_from : (n i : ℕ) → Bcout → Bcout
resolve_from zero i s = s
resolve_from (suc n) i s = resolve_from n (suc i) (resolve_at i s)

unfoldable pub bco_resolve_break : ℕ → ℕ → Emit (Unit {0})
bco_resolve_break a1 a2 s = some (tt, resolve_from (a2 - a1) a1 s)

-- The first object of the table that passes a test: the loops of bco_find_int, bco_find_str and
-- bco_find_sym.
unfoldable pub find_item : (Item → Bool) → List (ℕ × Item) → Option ℕ
find_item p [] = none
find_item p ((i, x) ∷ xs) = if p x then some i else find_item p xs

abbrev pub is_int_item : ℕ → Item → Bool
is_int_item v (int_item n) = n == v
is_int_item v _ = false

abbrev pub is_str_item : Bytes → Item → Bool
is_str_item b (str_item c) = bytes_eq c b
is_str_item b _ = false

abbrev pub is_sym_item : Bytes → Item → Bool
is_sym_item b (sym_item c k) = bytes_eq c b
is_sym_item b _ = false

-- The object at an offset, and the table with another one there.
unfoldable pub item_at : ℕ → List (ℕ × Item) → Option Item
item_at i [] = none
item_at i ((j, x) ∷ xs) = if i == j then some x else item_at i xs

unfoldable pub set_item : ℕ → Item → List (ℕ × Item) → List (ℕ × Item)
set_item i y [] = []
set_item i y ((j, x) ∷ xs) = if i == j then (j, y) ∷ xs else (j, x) ∷ set_item i y xs

-- ct_malloc of `size` bytes, and the object that is written there, where the table has room for it:
-- the branch that moves a full table by realloc is left out.
unfoldable pub ct_malloc : ℕ → Item → Emit ℕ
ct_malloc size x s = some (
  s.const_table_cnt,
  record s {
    const_table = s.const_table ++ ((s.const_table_cnt, x) ∷ []);
    const_table_cnt = s.const_table_cnt + size;
  },
)

-- `(len + 3) & ~3`
unfoldable pub round4 : ℕ → ℕ
round4 n = (n + 3) / 4 * 4

-- What was found, or a new object.
abbrev pub found_or_new : (Item → Bool) → ℕ → Item → Emit ℕ
found_or_new p size x s = elim (find_item p s.const_table) [
  | some i ↦ some (i, s)
  | none ↦ ct_malloc size x s
]

-- bco_nil: the singleton that bcout_init makes
unfoldable pub bco_nil : Emit ℕ
bco_nil = pure 0

unfoldable pub bco_int : ℕ → Emit ℕ
bco_int v = found_or_new (is_int_item v) 32 (int_item v)

unfoldable pub bco_str : Bytes → Emit ℕ
bco_str b = found_or_new (is_str_item b) (32 + round4 (length b)) (str_item b)

unfoldable pub bco_sym : (force_new : Bool) → Bytes → Emit ℕ
bco_sym force_new b =
    if force_new
    then ct_malloc (32 + round4 (length b)) (sym_item b 0)
    else found_or_new (is_sym_item b) (32 + round4 (length b)) (sym_item b 0)

-- bco_arr: the memory is zero, which is the offset of nil.
unfoldable pub bco_arr : ℕ → Emit ℕ
bco_arr n = ct_malloc (40 + n * 4 - 4) (arr_item (replicate n 0))

unfoldable pub bco_arr_set_idx : (arr idx elem : ℕ) → Emit (Unit {0})
bco_arr_set_idx a i e s = elim (item_at a s.const_table) [
  | some (arr_item es) ↦
      some (tt, record s { const_table = set_item a (arr_item (set es i e)) s.const_table })
  | _ ↦ none
]

unfoldable pub bco_exinfo : ℕ → Emit ℕ
bco_exinfo n = ct_malloc (48 + n * 8 - 8) (exinfo_item n [])

unfoldable pub bco_exinfo_add_block : (exinfo try_addr catch_addr : ℕ) → Emit (Unit {0})
bco_exinfo_add_block x t c s = elim (item_at x s.const_table) [
  | some (exinfo_item n bs) ↦
      if ltb (length bs) n
      then some (
        tt,
        record s {
          const_table =
              set_item x (exinfo_item n (bs ++ (record { try_addr = t; catch_addr = c } ∷ [])))
                s.const_table;
        },
      )
      else none
  | _ ↦ none
]

-- `mthEnv->bc_entrypoint = …` and `mthEnv->exception_info_idx = …`
unfoldable pub set_entrypoint : (mth_env addr : ℕ) → Emit (Unit {0})
set_entrypoint m a s =
    some (tt, record s { envs = update s.envs m (record (s.envs m) { bc_entrypoint = a }) })

unfoldable pub set_exception_info : (mth_env idx : ℕ) → Emit (Unit {0})
set_exception_info m i s =
    some (tt, record s { envs = update s.envs m (record (s.envs m) { exception_info_idx = i }) })

-- bcout_init
abbrev pub bcout_init : (ℕ → MethodEnv) → Bcout
bcout_init envs = record {
  bc_arr = [];
  bc_lab = [];
  const_table = (0, nil_item) ∷ [];
  const_table_cnt = 24;
  envs = envs;
}
