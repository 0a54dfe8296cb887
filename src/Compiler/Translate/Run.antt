-- ===== src/Compiler/Translate/Run.antt =====
-- The code of an integer expression, run by the machine.
use nesrotom_run.Base.{
  ℕ, ◌+◌, ◌*◌, ◌^◌, ◌≤◌, ◌<◌, ◌≡◌, ◌∙◌, refl, sym, ap, subst, Option, some, List, [], ◌∷◌, ◌++◌,
  length, arith,
}
use nesrotom_run.State.{Bytes, Native, Value, int, Vm, Cmd, ok}
use nesrotom_run.State.Memory.{update, object_at, segment_size}
use nesrotom_run.Objects.{const}
use nesrotom_run.Frame.{stack_size}
use nesrotom_run.Operators.Laws.{inline, boxed, constant}
use nesrotom_run.Execute.{continue, step}
use nesrotom_run.Compiler.Tree.{VarInfo}
use nesrotom_run.Compiler.Emit.{Item, int_item, item_at}
use nesrotom_run.Compiler.Translate.Code.{word16, IsLocal}
use nesrotom_run.Compiler.Translate.Steps.{step-lvbi_c, step-lvbi_loc}
use nesrotom_run.Compiler.Translate.Machine.{
  Runs, stay, round, Known, Later, Known-Later, update-same, update-below,
}

-- The bytes lie in the program from address `p` on.
abbrev pub At : Bytes → ℕ → (ℕ → Option ℕ) → Type 0
At [] p f = Unit
At (b ∷ c) p f = (f p ≡ some b) × At c (p + 1) f

pub At-left : (c d : Bytes) (p : ℕ) (f : ℕ → Option ℕ) → At (c ++ d) p f → At c p f
At-left [] d p f h = tt
At-left (b ∷ c) d p f (a, h) = (a, At-left c d (p + 1) f h)

pub At-right : (c d : Bytes) (p : ℕ) (f : ℕ → Option ℕ) → At (c ++ d) p f → At d (p + length c) f
At-right [] d p f h = subst (λ q. At d q f) (omega arith) h
At-right (b ∷ c) d p f (a, h) = subst (λ q. At d q f) (omega arith) (At-right c d (p + 1) f h)

plus_two : (p : ℕ) → p + 2 ≡ p + 1 + 1
plus_two p = omega arith

-- The machine has the compiler's integers as constants, at offsets of 16 bits, and the variables have
-- the integers `ρ`.
pub record Ready (tbl : List (ℕ × Item)) (ρ : VarInfo → Option ℕ) (s : Vm) : Type 0 where
  pub integers :
      (i n : ℕ)
      → item_at i tbl ≡ some (int_item n)
      → (i < 2 ^ 16) × (cls : Option ℕ) × (s.consts i ≡ some (record { cls = cls; body = int n }))
  pub locals :
      (v : VarInfo) (n : ℕ)
      → IsLocal v
      → ρ v ≡ some n
      → Known (s.stack (s.fp + (v.addr + 1))) n s × (s.fp + (v.addr + 1) < s.sp)

pub Ready-Later :
    {tbl : List (ℕ × Item)} {ρ : VarInfo → Option ℕ} {s t : Vm}
    → s.sp ≤ t.sp
    → Later s t
    → Ready tbl ρ s
    → Ready tbl ρ t
Ready-Later {s} {t} p l r = record {
  integers = λ i n h. let (a, c, e) = r.integers i n h in (a, c, ap (λ g. g i) l.table ∙ e);
  locals = λ v n h e.
      let (k, b) = r.locals v n h e in
      let same : t.stack (t.fp + (v.addr + 1)) ≡ s.stack (s.fp + (v.addr + 1)) =
        ap (λ f. t.stack (f + (v.addr + 1))) l.frame ∙ l.cells (s.fp + (v.addr + 1)) b in
      (
        subst (λ w. Known w n t) (sym same) (Known-Later l k),
        subst (λ f. f + (v.addr + 1) < t.sp) (sym l.frame) (omega (arith, b, p)),
      );
}

-- Room for `n` bytes of code: for the address, on the stack, and in the segment.
pub record Room (n : ℕ) (s : Vm) : Type 0 where
  pub address : s.ip + n < 2 ^ 32
  pub deep : s.sp + n < stack_size
  pub heap : s.used + 32 * n ≤ segment_size

-- A value stays known when registers and cells change.
pub Known-same :
    {v : Value} {n a b : ℕ} {w : Vm} {f : ℕ → Value}
    → Known v n w
    → Known v n (record w { ip = a; stack = f; sp = b })
unfolding object_at
Known-same (inline h, o) = (inline h, o)
Known-same (boxed h, o) = (boxed h, o)
Known-same (constant c h, o) = (constant c h, o)

module _ (native : Native → Cmd (Unit {0})) (fuel : ℕ) where
  -- The code of `k` bytes has been run and has pushed the integer `n`.
  pub record Computed (k n : ℕ) (s t : Vm) : Type 0 where
    pub runs : Runs native fuel s t
    pub ip : t.ip ≡ s.ip + k
    pub sp : t.sp ≡ s.sp + 1
    pub result : Known (t.stack s.sp) n t
    pub later : Later s t
    pub used : t.used ≤ s.used + 32 * k

  -- One instruction of three bytes that pushes a value.
  pushed :
      (v : Value) (n : ℕ) (s : Vm)
      → Known v n s
      → step native fuel s
        ≡ ok continue (record s { ip = s.ip + 3; stack = update s.stack s.sp v; sp = s.sp + 1 })
      → (t : Vm) × Computed 3 n s t
  pushed v n s k e =
      let t : Vm = record s { ip = s.ip + 3; stack = update s.stack s.sp v; sp = s.sp + 1 } in
      let l : Later s t = record {
        code = refl;
        table = refl;
        frame = refl;
        objects = λ i h. refl;
        grown = omega arith;
        cells = λ i h. update-below s.stack s.sp i v h;
      } in
      (
        t,
        record {
          runs = round t e stay;
          ip = refl;
          sp = refl;
          result = subst (λ w. Known w n t) (sym (update-same s.stack s.sp v)) (Known-Later l k);
          later = l;
          used = omega arith;
        },
      )

  pub run-numb :
      (i n : ℕ) {tbl : List (ℕ × Item)} {ρ : VarInfo → Option ℕ} (s : Vm)
      → item_at i tbl ≡ some (int_item n)
      → At (17 ∷ word16 i) s.ip s.bc_arr
      → Ready tbl ρ s
      → Room 3 s
      → (t : Vm) × Computed 3 n s t
  unfolding object_at
  run-numb i n s h (a, (b, (c, _))) r m =
      let (fits, cls, e) = r.integers i n h in
      pushed (const i) n s (constant cls e, tt)
        (step-lvbi_c native fuel i s fits m.address (omega (arith, m.deep)) a b
          (ap s.bc_arr (plus_two s.ip) ∙ c))

  pub run-var :
      (v : VarInfo) (n : ℕ) {tbl : List (ℕ × Item)} {ρ : VarInfo → Option ℕ} (s : Vm)
      → IsLocal v
      → ρ v ≡ some n
      → At (19 ∷ word16 v.addr) s.ip s.bc_arr
      → Ready tbl ρ s
      → Room 3 s
      → (t : Vm) × Computed 3 n s t
  run-var v n s h e (a, (b, (c, _))) r m =
      let (k, p) = r.locals v n h e in
      pushed (s.stack (s.fp + (v.addr + 1))) n s k (
        step-lvbi_loc native fuel v.addr s h.2 m.address (omega (arith, m.deep))
          (omega (arith, p, m.deep)) a b (ap s.bc_arr (plus_two s.ip) ∙ c))

  -- A value on the top, in place of what was above the stack of `s`.
  pub on_top :
      (k n : ℕ) (s w : Vm) (v : Value)
      → Runs native fuel s (record w { stack = update w.stack s.sp v; sp = s.sp + 1 })
      → w.ip ≡ s.ip + k
      → Known v n w
      → Later s w
      → w.used ≤ s.used + 32 * k
      → (t : Vm) × Computed k n s t
  on_top k n s w v r p known l u =
      let t : Vm = record w { stack = update w.stack s.sp v; sp = s.sp + 1 } in
      let below : Later s t = record {
        code = l.code;
        table = l.table;
        frame = l.frame;
        objects = l.objects;
        grown = l.grown;
        cells = λ i h. update-below w.stack s.sp i v h ∙ l.cells i h;
      } in
      (
        t,
        record {
          runs = r;
          ip = p;
          sp = refl;
          result = subst (λ x. Known x n t) (sym (update-same w.stack s.sp v)) (Known-same known);
          later = below;
          used = u;
        },
      )
