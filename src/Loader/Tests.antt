-- ===== src/Loader/Tests.antt =====
-- A program file at one concrete program.
use nesrotom_run.Base.{◌≡◌, refl, true, none, some, [], ◌∷◌, ◌++◌, arith}
use nesrotom_run.State.{Bytes, null, vm_error, Fault}
use nesrotom_run.Loader.{
  loaded, failed, load_string, no_zero, load_uint, fread, from_bytes, unless_max,
}
use nesrotom_run.Loader.Parts.{kexe_load, starts_with_nil}
use nesrotom_run.Loader.Writer.{PrvekTab, MethodEnv, ClassEnv, write_file, to_bytes, write_all}
use nesrotom_run.Loader.Members.{IsSymbol, IsMethod}
use nesrotom_run.Loader.Truncated.{kexe_load-truncated}
use nesrotom_run.Loader.Written.{IsClass, program_of, kexe_load-write_file}

-- "m", "x" and "A"
abbrev x_symbol : PrvekTab
x_symbol = record { ident = 120 ∷ []; addr = 1; const_ptr = 4 }

abbrev y_symbol : PrvekTab
y_symbol = record { ident = 121 ∷ []; addr = 0; const_ptr = 0 }

abbrev main_method : MethodEnv
main_method = record {
  method_name = 109 ∷ [];
  args = y_symbol ∷ [];
  syms = [];
  bc_entrypoint = 0;
  is_static = true;
}

abbrev a_class : ClassEnv
a_class = record {
  class_name = 65 ∷ [];
  parent_name = none;
  syms_static = x_symbol ∷ y_symbol ∷ [];
  syms_instance = [];
  static_init = none;
  constructor = some main_method;
  methods = main_method ∷ [];
}

x_symbol-IsSymbol : IsSymbol x_symbol
unfolding no_zero
x_symbol-IsSymbol = record {
  name = record { short = omega arith; zero_free = refl };
  addr = omega arith;
  const_ptr = omega arith;
}

y_symbol-IsSymbol : IsSymbol y_symbol
unfolding no_zero
y_symbol-IsSymbol = record {
  name = record { short = omega arith; zero_free = refl };
  addr = omega arith;
  const_ptr = omega arith;
}

main_method-IsMethod : IsMethod main_method
unfolding no_zero
main_method-IsMethod = record {
  name = record { short = omega arith; zero_free = refl };
  args = omega arith;
  syms = omega arith;
  entry = omega arith;
}

a_class-IsClass : IsClass a_class
unfolding no_zero
a_class-IsClass = record {
  name = record { short = omega arith; zero_free = refl };
  parent = record { short = omega arith; zero_free = refl };
  few_static = omega arith;
  static_syms = (x_symbol-IsSymbol, (y_symbol-IsSymbol, tt));
  few_instance = omega arith;
  instance_syms = tt;
  init = tt;
  constr = main_method-IsMethod;
  few_methods = omega arith;
  all_methods = (main_method-IsMethod, tt);
}

nil_starts : starts_with_nil (0 ∷ 0 ∷ 0 ∷ 0 ∷ 7 ∷ []) ≡ true
unfolding starts_with_nil
nil_starts = refl

kexe_load-write_file_example :
    kexe_load null (write_file (a_class ∷ []) (0 ∷ 0 ∷ 0 ∷ 0 ∷ 7 ∷ []) (12 ∷ []) ++ (9 ∷ []))
    ≡ loaded (program_of null (a_class ∷ []) (0 ∷ 0 ∷ 0 ∷ 0 ∷ 7 ∷ []) (12 ∷ [])) (9 ∷ [])
kexe_load-write_file_example =
    kexe_load-write_file null (a_class ∷ []) (0 ∷ 0 ∷ 0 ∷ 0 ∷ 7 ∷ []) (12 ∷ []) (9 ∷ [])
      (omega arith) (a_class-IsClass, tt) (omega arith) (omega arith) nil_starts

-- A string that ends too early.
short_string : load_string (3 ∷ 0 ∷ 0 ∷ 0 ∷ 65 ∷ []) ≡ failed vm_error
unfolding load_string load_uint fread from_bytes unless_max
short_string = refl

-- A file without classes, with one byte of bytecode, which is lost.
abbrev most : Bytes
most =
    236 ∷ 108 ∷ 102 ∷ 66 ∷ 0 ∷ 0 ∷ 0 ∷ 0 ∷ 4 ∷ 0 ∷ 0 ∷ 0 ∷ 0 ∷ 0 ∷ 0 ∷ 0 ∷ 0 ∷ 0 ∷ 0 ∷ 0 ∷ 1 ∷ 0 ∷ 0
    ∷ 0 ∷ 0 ∷ 0 ∷ 0 ∷ 0 ∷ []

most_written : write_file [] (0 ∷ 0 ∷ 0 ∷ 0 ∷ []) (12 ∷ []) ≡ most ++ (12 ∷ [])
unfolding write_file to_bytes write_all
most_written = refl

nil_only : starts_with_nil (0 ∷ 0 ∷ 0 ∷ 0 ∷ []) ≡ true
unfolding starts_with_nil
nil_only = refl

kexe_load-truncated_example : (e : Fault) × (kexe_load null most ≡ failed e)
kexe_load-truncated_example =
    kexe_load-truncated null [] (0 ∷ 0 ∷ 0 ∷ 0 ∷ []) (12 ∷ []) most (12 ∷ []) (omega arith) tt
      (omega arith) (omega arith) nil_only most_written (λ e. absurd (ground (arith, e)))
