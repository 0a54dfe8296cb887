-- ===== src/Loader/Members.antt =====
-- Each part of a class that the compiler writes (compiler/bcout.cpp), under the loads of vm/loader.c.
use nesrotom_run.Base.{
  ℕ, ◌^◌, ◌<◌, ◌≡◌, ◌∙◌, refl, ap, Bool, true, false, not, Option, none, some, List, [], ◌∷◌, ◌++◌,
  arith, length, ◌==◌, ltb, if◌then◌else◌, le→ltb, ◌≤◌, map,
}
use nesrotom_run.State.{Bytes, Value, Symbol, Method, bc_addr, bad_access}
use nesrotom_run.Loader.{
  fail, load_uint8, load_uint32, no_zero, load_string, load_sym, load_syms_loop, load_syms,
  load_method, load_methods_loop, load_methods, load_optional,
}
use nesrotom_run.Loader.Writer.{
  PrvekTab, MethodEnv, w8, w32, wstr, write_symbol, write_all, write_symbols, byte_of, write_method,
  write_optional,
}
use nesrotom_run.Loader.RoundTrip.{
  Reads, Reads-then, Reads-last, load_uint_lem, load_uint32_lem, load_string_lem,
}

-- What a compiler can write: a name without a zero byte, and numbers and lengths that are below the
-- value that stands for an error.
pub record IsName (s : Bytes) : Type 0 where
  pub short : length s < 0xffff_ffff
  pub zero_free : no_zero s ≡ true

pub record IsSymbol (pt : PrvekTab) : Type 0 where
  pub name : IsName pt.ident
  pub addr : pt.addr < 0xffff_ffff
  pub const_ptr : pt.const_ptr < 0xffff_ffff

pub record IsMethod (me : MethodEnv) : Type 0 where
  pub name : IsName me.method_name
  pub args : length me.args < 0xffff_ffff
  pub syms : length me.syms < 0xffff_ffff
  pub entry : me.bc_entrypoint < 0xffff_ffff

abbrev pub AllOf {ℓ κ} : {A : Type ℓ} → (A → Type κ) → List A → Type κ
AllOf P [] = Unit
AllOf P (x ∷ xs) = P x × AllOf P xs

-- What is loaded for a symbol and for a method.
unfoldable pub symbol_of : Value → PrvekTab → Symbol
symbol_of old pt = record {
  name = pt.ident;
  const_ptr = pt.const_ptr;
  value = old;
  addr = pt.addr;
  const_flag = not (pt.const_ptr == 0);
}

unfoldable pub method_of : MethodEnv → Method
method_of me = record {
  name = me.method_name;
  entry = bc_addr me.bc_entrypoint;
  args_cnt = length me.args;
  locals_cnt = length me.syms;
  is_static = byte_of me.is_static;
}

pub load_name : (s : Bytes) → IsName s → Reads load_string (wstr s) s
load_name s h = load_string_lem s h.short h.zero_free

load_uint8_lem : (v : ℕ) → v < 0xff → Reads load_uint8 (w8 v) v
load_uint8_lem v h = load_uint_lem 1 0xff v (omega arith) (omega arith)

load_flag : (b : Bool) → Reads load_uint8 (w8 (byte_of b)) (byte_of b)
load_flag true = load_uint8_lem 1 (omega arith)
load_flag false = load_uint8_lem 0 (omega arith)

load_sym_lem :
    (old : Value) (pt : PrvekTab)
    → IsSymbol pt
    → Reads (load_sym old) (write_symbol pt) (symbol_of old pt)
unfolding load_sym write_symbol symbol_of
load_sym_lem old pt h =
    Reads-then load_string _ (wstr pt.ident) (w32 pt.addr ++ w32 pt.const_ptr) pt.ident
      (symbol_of old pt) (load_name pt.ident h.name)
      (Reads-then load_uint32 _ (w32 pt.addr) (w32 pt.const_ptr) pt.addr (symbol_of old pt)
        (load_uint32_lem pt.addr h.addr)
        (Reads-last load_uint32 _ (w32 pt.const_ptr) pt.const_ptr (symbol_of old pt)
          (load_uint32_lem pt.const_ptr h.const_ptr) (λ rest. refl)))

load_method_lem :
    (me : MethodEnv) → IsMethod me → Reads load_method (write_method me) (method_of me)
unfolding load_method write_method method_of
load_method_lem me h =
    Reads-then load_string _ (wstr me.method_name)
      (w32 (length me.args)
        ++ (w32 (length me.syms) ++ (w32 me.bc_entrypoint ++ w8 (byte_of me.is_static))))
      me.method_name (method_of me) (load_name me.method_name h.name)
      (Reads-then load_uint32 _ (w32 (length me.args))
        (w32 (length me.syms) ++ (w32 me.bc_entrypoint ++ w8 (byte_of me.is_static)))
        (length me.args) (method_of me) (load_uint32_lem (length me.args) h.args)
        (Reads-then load_uint32 _ (w32 (length me.syms))
          (w32 me.bc_entrypoint ++ w8 (byte_of me.is_static)) (length me.syms) (method_of me)
          (load_uint32_lem (length me.syms) h.syms)
          (Reads-then load_uint32 _ (w32 me.bc_entrypoint) (w8 (byte_of me.is_static))
            me.bc_entrypoint (method_of me) (load_uint32_lem me.bc_entrypoint h.entry)
            (Reads-last load_uint8 _ (w8 (byte_of me.is_static)) (byte_of me.is_static)
              (method_of me) (load_flag me.is_static) (λ rest. refl)))))

-- The symbols arrive in the opposite order.
abbrev pub onto {ℓ} : {A : Type ℓ} → List A → List A → List A
onto [] ys = ys
onto (x ∷ xs) ys = onto xs (x ∷ ys)

abbrev pub reverse {ℓ} : {A : Type ℓ} → List A → List A
reverse xs = onto xs []

unfoldable pub symbols_of : Value → List PrvekTab → List Symbol
symbols_of old pts = reverse (map (symbol_of old) pts)

load_syms_loop_lem :
    (old : Value) (pts : List PrvekTab) (syms : List Symbol)
    → AllOf IsSymbol pts
    → Reads
        (load_syms_loop old (length pts) syms)
        (write_all write_symbol pts)
        (onto (map (symbol_of old) pts) syms)
unfolding load_syms_loop write_all
load_syms_loop_lem old [] syms h = λ rest. refl
load_syms_loop_lem old (pt ∷ pts) syms (h, hs) =
    Reads-then (load_sym old) _ (write_symbol pt) (write_all write_symbol pts) (symbol_of old pt)
      (onto (map (symbol_of old) pts) (symbol_of old pt ∷ syms)) (load_sym_lem old pt h)
      (load_syms_loop_lem old pts (symbol_of old pt ∷ syms) hs)

within :
    (old : Value) (n : ℕ)
    → n ≤ 2 ^ 31
    → (if ltb (2 ^ 31) n then fail bad_access else load_syms_loop old n [])
      ≡ load_syms_loop old n []
within old n h = rw (le→ltb (2 ^ 31) n h)

pub load_syms_lem :
    (old : Value) (pts : List PrvekTab)
    → length pts ≤ 2 ^ 31
    → AllOf IsSymbol pts
    → Reads (load_syms old) (write_symbols pts) (symbols_of old pts)
unfolding load_syms write_symbols symbols_of
load_syms_lem old pts short h =
    Reads-then load_uint32 _ (w32 (length pts)) (write_all write_symbol pts) (length pts)
      (symbols_of old pts) (load_uint32_lem (length pts) (omega (arith, short)))
      (λ rest.
        ap (λ m. m (write_all write_symbol pts ++ rest)) (within old (length pts) short)
        ∙ load_syms_loop_lem old pts [] h rest)

load_methods_loop_lem :
    (mes : List MethodEnv)
    → AllOf IsMethod mes
    → Reads (load_methods_loop (length mes)) (write_all write_method mes) (map method_of mes)
unfolding load_methods_loop write_all
load_methods_loop_lem [] h = λ rest. refl
load_methods_loop_lem (me ∷ mes) (h, hs) =
    Reads-then load_method _ (write_method me) (write_all write_method mes) (method_of me)
      (method_of me ∷ map method_of mes) (load_method_lem me h)
      (Reads-last (load_methods_loop (length mes)) _ (write_all write_method mes)
        (map method_of mes) (method_of me ∷ map method_of mes) (load_methods_loop_lem mes hs)
        (λ rest. refl))

pub load_methods_lem :
    (mes : List MethodEnv)
    → length mes < 0xffff_ffff
    → AllOf IsMethod mes
    → Reads load_methods (w32 (length mes) ++ write_all write_method mes) (map method_of mes)
unfolding load_methods
load_methods_lem mes short h =
    Reads-then load_uint32 load_methods_loop (w32 (length mes)) (write_all write_method mes)
      (length mes) (map method_of mes) (load_uint32_lem (length mes) short)
      (load_methods_loop_lem mes h)

abbrev pub IsOptional : Option MethodEnv → Type 0
IsOptional none = Unit
IsOptional (some me) = IsMethod me

unfoldable pub optional_of : Option MethodEnv → Option Method
optional_of none = none
optional_of (some me) = some (method_of me)

pub load_optional_lem :
    (o : Option MethodEnv) → IsOptional o → Reads load_optional (write_optional o) (optional_of o)
unfolding load_optional write_optional optional_of
load_optional_lem none h =
    Reads-last load_uint8 _ (w8 0) 0 none (load_uint8_lem 0 (omega arith)) (λ rest. refl)
load_optional_lem (some me) h =
    Reads-then load_uint8 _ (w8 1) (write_method me) 1 (some (method_of me))
      (load_uint8_lem 1 (omega arith))
      (Reads-last load_method _ (write_method me) (method_of me) (some (method_of me))
        (load_method_lem me h) (λ rest. refl))
