-- ===== src/Loader/Written.antt =====
-- The whole file that the compiler writes, under kexe_load of vm/loader.c.
use nesrotom_run.Base.{
  ◌^◌, ◌<◌, ◌≤◌, ◌≡◌, refl, ap, true, none, some, List, [], ◌∷◌, ◌++◌, arith, length, if◌then◌else◌,
  map,
}
use nesrotom_run.State.{Bytes, Value, Class, alloc_udo, unset, assert_failed}
use nesrotom_run.Loader.{
  loaded, done, fail, fread, load_uint32, load_size, load_string, load_syms, load_optional,
  load_methods,
}
use nesrotom_run.Loader.Parts.{
  load_class, load_classes_loop, load_classes, kek_magic, load_magic, load_bytes, starts_with_nil,
  init_const_sym_pointers, Program, kexe_load,
}
use nesrotom_run.Loader.Writer.{
  ClassEnv, to_bytes, w32, wstr, write_all, write_method, write_symbols, write_optional, name_of,
  write_class, write_file,
}
use nesrotom_run.Loader.RoundTrip.{
  Reads, Reads-then, Reads-last, Reads-after, load_uint_lem, load_uint32_lem, fread_lem,
}
use nesrotom_run.Loader.Members.{
  IsName, IsSymbol, IsMethod, IsOptional, AllOf, symbols_of, method_of, optional_of, load_name,
  load_syms_lem, load_optional_lem, load_methods_lem,
}

pub record IsClass (ce : ClassEnv) : Type 0 where
  pub name : IsName ce.class_name
  pub parent : IsName (name_of ce.parent_name)
  pub few_static : length ce.syms_static ≤ 2 ^ 31
  pub static_syms : AllOf IsSymbol ce.syms_static
  pub few_instance : length ce.syms_instance ≤ 2 ^ 31
  pub instance_syms : AllOf IsSymbol ce.syms_instance
  pub init : IsOptional ce.static_init
  pub constr : IsOptional ce.constructor
  pub few_methods : length ce.methods < 0xffff_ffff
  pub all_methods : AllOf IsMethod ce.methods

-- What is loaded for a class and for a program.
unfoldable pub class_of : Value → ClassEnv → Class
class_of old ce = record {
  name = ce.class_name;
  parent = none;
  methods = map method_of ce.methods;
  allocator = some alloc_udo;
  constructor = optional_of ce.constructor;
  static_init = optional_of ce.static_init;
  syms_static = symbols_of old ce.syms_static;
  total_syms_instance_cnt = unset;
  syms_instance = symbols_of old ce.syms_instance;
  syms_instance_offset = unset;
  parent_name = some (name_of ce.parent_name);
}

unfoldable pub program_of : Value → List ClassEnv → (const_table bc_arr : Bytes) → Program
program_of old ces const_table bc_arr = record {
  classes = init_const_sym_pointers (map (class_of old) ces);
  const_table = const_table;
  bc_arr = bc_arr;
}

load_class_lem :
    (old : Value) (ce : ClassEnv)
    → IsClass ce
    → Reads (load_class old) (write_class ce) (class_of old ce)
unfolding load_class write_class class_of
load_class_lem old ce h =
    Reads-then load_string _ (wstr ce.class_name) _ ce.class_name (class_of old ce)
      (load_name ce.class_name h.name)
      (Reads-then load_string _ (wstr (name_of ce.parent_name)) _ (name_of ce.parent_name)
        (class_of old ce) (load_name (name_of ce.parent_name) h.parent)
        (Reads-then (load_syms old) _ (write_symbols ce.syms_static) _
          (symbols_of old ce.syms_static) (class_of old ce)
          (load_syms_lem old ce.syms_static h.few_static h.static_syms)
          (Reads-then (load_syms old) _ (write_symbols ce.syms_instance) _
            (symbols_of old ce.syms_instance) (class_of old ce)
            (load_syms_lem old ce.syms_instance h.few_instance h.instance_syms)
            (Reads-then load_optional _ (write_optional ce.static_init) _
              (optional_of ce.static_init) (class_of old ce)
              (load_optional_lem ce.static_init h.init)
              (Reads-then load_optional _ (write_optional ce.constructor)
                (w32 (length ce.methods) ++ write_all write_method ce.methods)
                (optional_of ce.constructor) (class_of old ce)
                (load_optional_lem ce.constructor h.constr)
                (Reads-last load_methods _
                  (w32 (length ce.methods) ++ write_all write_method ce.methods)
                  (map method_of ce.methods) (class_of old ce)
                  (load_methods_lem ce.methods h.few_methods h.all_methods) (λ rest. refl)))))))

load_classes_loop_lem :
    (old : Value) (ces : List ClassEnv)
    → AllOf IsClass ces
    → Reads
        (load_classes_loop old (length ces))
        (write_all write_class ces)
        (map (class_of old) ces)
unfolding load_classes_loop write_all
load_classes_loop_lem old [] h = λ rest. refl
load_classes_loop_lem old (ce ∷ ces) (h, hs) =
    Reads-then (load_class old) _ (write_class ce) (write_all write_class ces) (class_of old ce)
      (class_of old ce ∷ map (class_of old) ces) (load_class_lem old ce h)
      (Reads-last (load_classes_loop old (length ces)) _ (write_all write_class ces)
        (map (class_of old) ces) (class_of old ce ∷ map (class_of old) ces)
        (load_classes_loop_lem old ces hs) (λ rest. refl))

load_classes_lem :
    (old : Value) (ces : List ClassEnv)
    → length ces < 0xffff_ffff
    → AllOf IsClass ces
    → Reads
        (load_classes old)
        (w32 (length ces) ++ write_all write_class ces)
        (map (class_of old) ces)
unfolding load_classes
load_classes_lem old ces short h =
    Reads-then load_uint32 _ (w32 (length ces)) (write_all write_class ces) (length ces)
      (map (class_of old) ces) (load_uint32_lem (length ces) short)
      (load_classes_loop_lem old ces h)

load_magic_lem : Reads load_magic (w32 kek_magic) tt
unfolding load_magic
load_magic_lem =
    Reads-last load_uint32 _ (w32 kek_magic) kek_magic tt (load_uint32_lem kek_magic (omega arith))
      (λ rest. refl)

load_bytes_lem :
    (bs : Bytes)
    → length bs < 0xffff_ffff_ffff_ffff
    → Reads load_bytes (to_bytes 8 (length bs) ++ bs) bs
unfolding load_bytes
load_bytes_lem bs short =
    Reads-then load_size fread (to_bytes 8 (length bs)) bs (length bs) bs
      (load_uint_lem 8 0xffff_ffff_ffff_ffff (length bs) (omega arith) (omega arith)) (fread_lem bs)

-- The last test of the load.
starts_lem :
    {A : Type 0} (a : A) (bs : Bytes)
    → starts_with_nil bs ≡ true
    → (if starts_with_nil bs then done a else fail assert_failed) ≡ done a
starts_lem a bs h = rw h

-- The file that the compiler writes for a list of classes, a constant table and bytecode is loaded
-- as these: each class with its name, its parent's name, its methods and initialisers, and its
-- variables in the opposite order, a symbol with a constant pointing into the constant table, and
-- both byte arrays as they are; nothing of the file is left, and what follows it is not read. The
-- names have no zero byte, every number and length is below the greatest of its type, and the
-- constant table starts with NIL. The values of the other symbols are what malloc left there.
pub kexe_load-write_file :
    (old : Value) (ces : List ClassEnv) (const_table bc_arr rest : Bytes)
    → length ces < 0xffff_ffff
    → AllOf IsClass ces
    → length const_table < 0xffff_ffff_ffff_ffff
    → length bc_arr < 0xffff_ffff_ffff_ffff
    → starts_with_nil const_table ≡ true
    → kexe_load old (write_file ces const_table bc_arr ++ rest)
      ≡ loaded (program_of old ces const_table bc_arr) rest
unfolding kexe_load write_file program_of
kexe_load-write_file old ces const_table bc_arr rest short h ct bc nil =
    Reads-after load_magic _ (w32 kek_magic) _ (program_of old ces const_table bc_arr)
      load_magic_lem
      (Reads-then (load_classes old) _ (w32 (length ces) ++ write_all write_class ces) _
        (map (class_of old) ces) (program_of old ces const_table bc_arr)
        (load_classes_lem old ces short h)
        (Reads-then load_bytes _ (to_bytes 8 (length const_table) ++ const_table)
          (to_bytes 8 (length bc_arr) ++ bc_arr) const_table (program_of old ces const_table bc_arr)
          (load_bytes_lem const_table ct)
          (Reads-last load_bytes _ (to_bytes 8 (length bc_arr) ++ bc_arr) bc_arr
            (program_of old ces const_table bc_arr) (load_bytes_lem bc_arr bc)
            (λ end.
              ap (λ m. m end)
                (starts_lem (program_of old ces const_table bc_arr) const_table nil)))))
      rest
