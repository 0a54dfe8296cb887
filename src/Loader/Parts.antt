-- ===== src/Loader/Parts.antt =====
-- The parts of a program file, vm/loader.c: classes, constant table, bytecode, and the whole file.
use nesrotom_run.Base.{
  ℕ, zero, suc, Bool, false, ◌&&◌, none, some, List, [], ◌∷◌, ◌==◌, map, if◌then◌else◌,
}
use nesrotom_run.State.{Bytes, Value, Symbol, Class, alloc_udo, unset, vm_error, assert_failed}
use nesrotom_run.Objects.{const}
use nesrotom_run.Loader.{
  Load, ◌>>=◌, ◌>>◌, done, fail, fread, load_uint32, load_size, load_string, load_syms,
  load_optional, load_methods,
}

-- The body of the loop of kexe_load_classes; what it does not write is zero from calloc.
unfoldable pub load_class : Value → Load Class
load_class old = do
  name ← load_string
  parent_name ← load_string
  syms_static ← load_syms old
  syms_instance ← load_syms old
  static_init ← load_optional
  constr ← load_optional
  methods ← load_methods
  done (record {
    name = name;
    parent = none;
    methods = methods;
    allocator = some alloc_udo;
    constructor = constr;
    static_init = static_init;
    syms_static = syms_static;
    total_syms_instance_cnt = unset;
    syms_instance = syms_instance;
    syms_instance_offset = unset;
    parent_name = some parent_name;
  })

-- The loop of kexe_load_classes
unfoldable pub load_classes_loop : Value → ℕ → Load (List Class)
load_classes_loop old zero = done []
load_classes_loop old (suc n) = do c ← load_class old; cs ← load_classes_loop old n; done (c ∷ cs)

-- kexe_load_classes
unfoldable pub load_classes : Value → Load (List Class)
load_classes old = do classes_cnt ← load_uint32; load_classes_loop old classes_cnt

abbrev pub kek_magic : ℕ
kek_magic = 0x4266_6CEC

-- kexe_load_magic
unfoldable pub load_magic : Load (Unit {0})
load_magic = do magic ← load_uint32; if magic == kek_magic then done tt else fail vm_error

-- kexe_load_const_table and kexe_load_bc_arr: a size and as many bytes.
unfoldable pub load_bytes : Load Bytes
load_bytes = do cnt ← load_size; fread cnt

-- init_const_sym_pointers, for one symbol, for one class and for all
unfoldable pub init_const_sym : Symbol → Symbol
init_const_sym sym = if sym.const_flag then record sym { value = const sym.const_ptr } else sym

unfoldable pub init_const_syms : Class → Class
init_const_syms c = record c { syms_static = map init_const_sym c.syms_static }

unfoldable pub init_const_sym_pointers : List Class → List Class
init_const_sym_pointers cs = map init_const_syms cs

-- What a program file fills: `classes_g`, `const_table_g` and `bc_arr_g`.
pub record Program : Type 0 where
  pub classes : List Class
  pub const_table : Bytes
  pub bc_arr : Bytes

-- `IS_NIL(CONST(0))`: the first word of the constant table is KEK_NIL, which is 0; an `enum` of four
-- bytes. A shorter table is read past its end.
unfoldable pub starts_with_nil : Bytes → Bool
starts_with_nil (a ∷ b ∷ c ∷ d ∷ bs) = a == 0 && b == 0 && c == 0 && d == 0
starts_with_nil _ = false

-- kexe_load of a file that can be opened
unfoldable pub kexe_load : Value → Load Program
kexe_load old = do
  load_magic
  cs ← load_classes old
  const_table ← load_bytes
  bc_arr ← load_bytes
  if starts_with_nil const_table
      then done (record {
        classes = init_const_sym_pointers cs;
        const_table = const_table;
        bc_arr = bc_arr;
      })
      else fail assert_failed
