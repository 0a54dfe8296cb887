-- ===== src/Compiler/Translate/Commands.antt =====
-- The commands of the output (compiler/bcout.cpp) that Translate uses, and the bytes that are there.
use nesrotom_run.Base.{
  ℕ, zero, suc, ◌≤◌, ◌≡◌, ◌∙◌, refl, sym, ap, get_elem?, Bool, true, false, Option, none, some,
  length, arith, if◌then◌else◌,
}
use nesrotom_run.State.{Bytes}
use nesrotom_run.Compiler.Bc.{op_nop}
use nesrotom_run.Compiler.Emit.{
  Bcout, Emit, Item, Label, bco_arr, bco_arr_set_idx, bco_exinfo, bco_exinfo_add_block, bco_get_ip,
  bco_int, bco_nil, bco_str, bco_sym, bco_w0, bco_w16, bco_w8, bco_w8_labeled, bco_wb1, bco_ww1,
  bco_ww1_labeled, bco_ww2, ct_malloc, found_or_new, get, is_int_item, is_str_item, is_sym_item,
  pure, set_entrypoint, set_exception_info, ◌>>=◌,
}
use nesrotom_run.Compiler.Translate.{nops, other_parent, set_parent, sym_name}
use nesrotom_run.Compiler.Translate.Prefix.{
  Safe, Any, Keeps, Keeps-refl, bind, steady, Safe-pure, Safe-append,
}

-- The first address of what is written is not among the bytes that are there.
abbrev pub From : ℕ → ℕ → Type 0
From n a = n ≤ a

pub Safe-Any : {A : Type 0} {n : ℕ} {P : A → Type 0} {m : Emit A} → Safe n P m → Safe n Any m
Safe-Any p = record { safe = λ s a t l e. (tt, (p.safe s a t l e).1) }

pub Safe-w8 : {n : ℕ} (b : ℕ) → Safe n (From n) (bco_w8 b)
unfolding bco_w8
Safe-w8 b = Safe-append _ _

pub Safe-w16 : {n : ℕ} (a : ℕ) → Safe n (From n) (bco_w16 a)
unfolding bco_w16
Safe-w16 a = Safe-append _ _

pub Safe-w0 : {n : ℕ} (bc : ℕ) → Safe n (From n) (bco_w0 bc)
unfolding bco_w0
Safe-w0 bc = Safe-w8 bc

pub Safe-wb1 : {n : ℕ} (bc a : ℕ) → Safe n (From n) (bco_wb1 bc a)
unfolding bco_wb1
Safe-wb1 bc a = bind (Safe-w8 bc) (λ ip h. bind (Safe-w8 a) (λ _ _. Safe-pure ip h))

pub Safe-ww1 : {n : ℕ} (bc a : ℕ) → Safe n (From n) (bco_ww1 bc a)
unfolding bco_ww1
Safe-ww1 bc a = bind (Safe-w8 bc) (λ ip h. bind (Safe-w16 a) (λ _ _. Safe-pure ip h))

pub Safe-ww1_labeled : {n : ℕ} (bc a : ℕ) (l : Label) → Safe n (From n) (bco_ww1_labeled bc a l)
unfolding bco_ww1_labeled bco_w8_labeled
Safe-ww1_labeled bc a l = bind (Safe-append _ _) (λ ip h. bind (Safe-w16 a) (λ _ _. Safe-pure ip h))

pub Safe-ww2 : {n : ℕ} (bc a b : ℕ) → Safe n (From n) (bco_ww2 bc a b)
unfolding bco_ww2
Safe-ww2 bc a b =
    bind (Safe-w8 bc) (λ ip h. bind (Safe-w16 a) (λ _ _. bind (Safe-w16 b) (λ _ _. Safe-pure ip h)))

pub Safe-ip : {n : ℕ} → Safe n (From n) bco_get_ip
unfolding bco_get_ip
Safe-ip {n} = steady (λ s. length s.bc_arr) (λ s. s) (λ s. refl) (λ s l. (l, Keeps-refl n s))

pub Safe-get : {n : ℕ} → Safe n Any get
Safe-get {n} = steady (λ s. s) (λ s. s) (λ s. refl) (λ s l. (tt, Keeps-refl n s))

-- The bytecode after a run; a crash leaves it.
abbrev bytes_of : {A : Type 0} → Bcout → Option (A × Bcout) → Bytes
bytes_of d none = d.bc_arr
bytes_of d (some (a, s)) = s.bc_arr

Keeps-same : (n : ℕ) (s t : Bcout) → t.bc_arr ≡ s.bc_arr → Keeps n s t
Keeps-same n s t e = record {
  longer = omega (arith, ap length e);
  same = λ i k. ap (λ b. get_elem? b i) e;
}

-- A command that changes no bytecode.
untouched :
    {A : Type 0} {n : ℕ} {m : Emit A} → ((s : Bcout) → bytes_of s (m s) ≡ s.bc_arr) → Safe n Any m
untouched {n} h = record {
  safe = λ s a t l e. (tt, Keeps-same n s t (sym (ap (bytes_of s) e) ∙ h s));
}

pub Safe-malloc : {n : ℕ} (k : ℕ) (x : Item) → Safe n Any (ct_malloc k x)
unfolding ct_malloc
Safe-malloc k x = untouched (λ s. refl)

Safe-found : {n : ℕ} (p : Item → Bool) (k : ℕ) (x : Item) → Safe n Any (found_or_new p k x)
unfolding ct_malloc
Safe-found p k x = untouched (λ s. ground arith)

pub Safe-int : {n : ℕ} (v : ℕ) → Safe n Any (bco_int v)
unfolding bco_int
Safe-int v = Safe-found (is_int_item v) _ _

pub Safe-str : {n : ℕ} (b : Bytes) → Safe n Any (bco_str b)
unfolding bco_str
Safe-str b = Safe-found (is_str_item b) _ _

pub Safe-sym : {n : ℕ} (new : Bool) (b : Bytes) → Safe n Any (bco_sym new b)
unfolding bco_sym
Safe-sym true b = Safe-malloc _ _
Safe-sym false b = Safe-found (is_sym_item b) _ _

pub Safe-nil : {n : ℕ} → Safe n Any bco_nil
unfolding bco_nil
Safe-nil = Safe-pure 0 tt

pub Safe-arr : {n : ℕ} (k : ℕ) → Safe n Any (bco_arr k)
unfolding bco_arr
Safe-arr k = Safe-malloc _ _

pub Safe-exinfo : {n : ℕ} (k : ℕ) → Safe n Any (bco_exinfo k)
unfolding bco_exinfo
Safe-exinfo k = Safe-malloc _ _

pub Safe-set_idx : {n : ℕ} (a i e : ℕ) → Safe n Any (bco_arr_set_idx a i e)
unfolding bco_arr_set_idx
Safe-set_idx a i e = untouched (λ s. ground arith)

pub Safe-add_block : {n : ℕ} (x t c : ℕ) → Safe n Any (bco_exinfo_add_block x t c)
unfolding bco_exinfo_add_block
Safe-add_block x t c = untouched (λ s. ground arith)

pub Safe-set_parent : {n : ℕ} (i p : ℕ) → Safe n Any (set_parent i p)
unfolding set_parent
Safe-set_parent i p = untouched (λ s. ground arith)

pub Safe-other_parent : {n : ℕ} (i : ℕ) (par : Bytes) → Safe n Any (other_parent i par)
unfolding other_parent
Safe-other_parent i par = untouched (λ s. ground arith)

pub Safe-sym_name : {n : ℕ} (i : ℕ) → Safe n Any (sym_name i)
unfolding sym_name
Safe-sym_name i = untouched (λ s. ground arith)

pub Safe-entrypoint : {n : ℕ} (m a : ℕ) → Safe n Any (set_entrypoint m a)
unfolding set_entrypoint
Safe-entrypoint m a = untouched (λ s. refl)

pub Safe-exception_info : {n : ℕ} (m i : ℕ) → Safe n Any (set_exception_info m i)
unfolding set_exception_info
Safe-exception_info m i = untouched (λ s. refl)

pub Safe-nops : {n : ℕ} (k : ℕ) → Safe n Any (nops k)
unfolding nops
Safe-nops zero = Safe-pure tt tt
Safe-nops (suc k) = bind (Safe-w0 op_nop) (λ _ _. Safe-nops k)

pub Safe-if :
    {A : Type 0} {n : ℕ} {P : A → Type 0} {x y : Emit A} (b : Bool)
    → Safe n P x
    → Safe n P y
    → Safe n P (if b then x else y)
Safe-if true p q = p
Safe-if false p q = q

-- `m; return 0`
pub finish :
    {A : Type 0} {n : ℕ} {P : A → Type 0} {m : Emit A}
    → Safe n P m
    → Safe {A = ℕ} n Any (m >>= (λ _. pure 0))
finish p = bind p (λ _ _. Safe-pure 0 tt)
