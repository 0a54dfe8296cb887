-- ===== src/Loader/Writer.antt =====
-- The other side of the file: the compiler's output of classes, compiler/bcout.cpp. The buffer that
-- the compiler fills is the list of the bytes written so far; its growth is left out.
use nesrotom_run.Base.{
  ℕ, zero, suc, ◌/◌, ◌%◌, Bool, true, false, Option, none, some, List, [], ◌∷◌, ◌++◌, length,
}
use nesrotom_run.State.{Bytes}
use nesrotom_run.Loader.Parts.{kek_magic}

-- What of `PrvekTab`, `MethodEnv` and `ClassEnv` (compiler/tabsym.h) reaches the file. A linked list
-- is a list; `args` and `syms` of a method only by their lengths.
pub record PrvekTab : Type 0 where
  pub ident : Bytes
  pub addr : ℕ
  pub const_ptr : ℕ

pub record MethodEnv : Type 0 where
  pub method_name : Bytes
  pub args : List PrvekTab
  pub syms : List PrvekTab
  pub bc_entrypoint : ℕ
  pub is_static : Bool

pub record ClassEnv : Type 0 where
  pub class_name : Bytes
  pub parent_name : Option Bytes
  pub syms_static : List PrvekTab
  pub syms_instance : List PrvekTab
  pub static_init : Option MethodEnv
  pub constructor : Option MethodEnv
  pub methods : List MethodEnv

-- The `n` low bytes of a number, the lowest first, as a little-endian machine stores it.
unfoldable pub to_bytes : (n value : ℕ) → Bytes
to_bytes zero v = []
to_bytes (suc n) v = v % 256 ∷ to_bytes n (v / 256)

abbrev pub w8 : ℕ → Bytes
w8 = to_bytes 1

abbrev pub w32 : ℕ → Bytes
w32 = to_bytes 4

-- classout_wstr
unfoldable pub wstr : Bytes → Bytes
wstr s = w32 (length s) ++ s

-- classout_symbol
unfoldable pub write_symbol : PrvekTab → Bytes
write_symbol pt = wstr pt.ident ++ (w32 pt.addr ++ w32 pt.const_ptr)

unfoldable pub write_all {ℓ} : {A : Type ℓ} → (A → Bytes) → List A → Bytes
write_all w [] = []
write_all w (x ∷ xs) = w x ++ write_all w xs

-- classout_prvektab_ll: the number is written in front when all are out.
unfoldable pub write_symbols : List PrvekTab → Bytes
write_symbols pts = w32 (length pts) ++ write_all write_symbol pts

abbrev pub byte_of : Bool → ℕ
byte_of true = 1
byte_of false = 0

-- classout_method
unfoldable pub write_method : MethodEnv → Bytes
write_method me =
    wstr me.method_name
    ++ (w32 (length me.args)
        ++ (w32 (length me.syms) ++ (w32 me.bc_entrypoint ++ w8 (byte_of me.is_static))))

unfoldable pub write_optional : Option MethodEnv → Bytes
write_optional none = w8 0
write_optional (some me) = w8 1 ++ write_method me

abbrev pub name_of : Option Bytes → Bytes
name_of none = []
name_of (some s) = s

-- classout_class, once the variables are divided into those of the class and of the instance
unfoldable pub write_class : ClassEnv → Bytes
write_class ce =
    wstr ce.class_name
    ++ (wstr (name_of ce.parent_name)
        ++ (write_symbols ce.syms_static
            ++ (write_symbols ce.syms_instance
                ++ (write_optional ce.static_init
                    ++ (write_optional ce.constructor
                        ++ (w32 (length ce.methods) ++ write_all write_method ce.methods))))))

-- bcout_to_file
unfoldable pub write_file : List ClassEnv → (const_table bc_arr : Bytes) → Bytes
write_file ces const_table bc_arr =
    w32 kek_magic
    ++ ((w32 (length ces) ++ write_all write_class ces)
        ++ ((to_bytes 8 (length const_table) ++ const_table)
            ++ (to_bytes 8 (length bc_arr) ++ bc_arr)))
