-- ===== src/Compiler/Translate/Machine.antt =====
-- The code of an integer expression in the machine: one operator at a time.
use nesrotom_run.Base.{
  ℕ, ◌+◌, ◌^◌, ◌≤◌, ◌<◌, ◌≡◌, ◌∙◌, refl, ap, inl, inr, some, arith, ltb, le→ltb, eq→==, ne→==,
  Bool-cases,
}
use nesrotom_run.State.{heap_ref, Native, Value, ptr, small, Vm, Cmd, ok}
use nesrotom_run.State.Memory.{
  update, make_integer, int_object, object_at, alloc, aligned, segment_size,
}
use nesrotom_run.Operators.{Op, op_of}
use nesrotom_run.Operators.Laws.{HasInt, inline, boxed, constant}
use nesrotom_run.Execute.{continue, step}
use nesrotom_run.Compiler.Tree.{op_code}

-- A number of rounds of vm_execute_bc's loop.
pub data Runs (native : Native → Cmd (Unit {0})) (fuel : ℕ) : Vm → Vm → Type 0 where
  stay : {s : Vm} → Runs native fuel s s
  round :
      {s t : Vm} (u : Vm)
      → step native fuel s ≡ ok continue u
      → Runs native fuel u t
      → Runs native fuel s t

pub Runs-trans :
    {native : Native → Cmd (Unit {0})} {fuel : ℕ} {s t u : Vm}
    → Runs native fuel s t
    → Runs native fuel t u
    → Runs native fuel s u
Runs-trans stay r = r
Runs-trans (round v e q) r = round v e (Runs-trans q r)

-- A value that holds an integer, and that lies below the end of the segment.
abbrev Old : Value → ℕ → Type 0
Old (ptr (heap_ref i)) n = i < n
Old _ n = Unit

abbrev pub Known : Value → ℕ → Vm → Type 0
Known v n s = HasInt v n s × Old v s.used

-- What the code of an expression leaves as it was: the program, the constants, the frame, the stack
-- below its top, and every object.
pub record Later (s t : Vm) : Type 0 where
  pub code : t.bc_arr ≡ s.bc_arr
  pub table : t.consts ≡ s.consts
  pub frame : t.fp ≡ s.fp
  pub objects : (i : ℕ) → i < s.used → t.heap i ≡ s.heap i
  pub grown : s.used ≤ t.used
  pub cells : (k : ℕ) → k < s.sp → t.stack k ≡ s.stack k

pub Later-refl : (s : Vm) → Later s s
Later-refl s = record {
  code = refl;
  table = refl;
  frame = refl;
  objects = λ i k. refl;
  grown = omega arith;
  cells = λ k l. refl;
}

pub Later-trans : {s t u : Vm} → s.sp ≤ t.sp → Later s t → Later t u → Later s u
Later-trans p l m = record {
  code = m.code ∙ l.code;
  table = m.table ∙ l.table;
  frame = m.frame ∙ l.frame;
  objects = λ i h. m.objects i (omega (arith, h, l.grown)) ∙ l.objects i h;
  grown = omega (arith, l.grown, m.grown);
  cells = λ k h. m.cells k (omega (arith, h, p)) ∙ l.cells k h;
}

pub Known-Later : {s t : Vm} {v : Value} {n : ℕ} → Later s t → Known v n s → Known v n t
unfolding object_at
Known-Later l (inline h, o) = (inline h, tt)
Known-Later l (boxed {i} h, o) = (boxed (l.objects i o ∙ h), omega (arith, o, l.grown))
Known-Later l (constant {i} cls h, o) = (constant cls (ap (λ g. g i) l.table ∙ h), tt)

-- make_integer, with what it leaves as it was.
abbrev Made : ℕ → Vm → Value → Vm → Type 0
Made n s v t =
    (make_integer n s ≡ ok v t)
    × Known v n t
    × Later s t
    × (t.ip ≡ s.ip)
    × (t.sp ≡ s.sp)
    × (t.stack ≡ s.stack)
    × (t.used ≤ s.used + 32)

pub make_integer-Made :
    (n : ℕ) (s : Vm) → s.used + 32 ≤ segment_size → (v : Value) × (t : Vm) × Made n s v t
unfolding make_integer alloc aligned object_at
make_integer-Made n s h = elim (Bool-cases (ltb n (2 ^ 31))) [
  | inl e ↦ (
    small n,
    s,
    (rw e refl, (inline (ground arith), tt), Later-refl s, refl, refl, refl, omega arith),
  )
  | inr e ↦
      let t : Vm = record s {
        heap = update s.heap s.used (some (int_object n));
        used = s.used + 32;
      } in
      (
        ptr (heap_ref s.used),
        t,
        (
          rw (e, le→ltb segment_size (s.used + 32) h) refl,
          (boxed (rw (eq→== s.used s.used refl) refl), omega arith),
          record {
            code = refl;
            table = refl;
            frame = refl;
            objects = λ i k. rw (ne→== i s.used (λ q. omega (arith, k, q))) refl;
            grown = omega arith;
            cells = λ k l. refl;
          },
          refl,
          refl,
          refl,
          omega arith,
        ),
      )
]

-- A cell that has been written, and the cells below it.
pub update-same : (f : ℕ → Value) (i : ℕ) (v : Value) → update f i v i ≡ v
update-same f i v = rw (eq→== i i refl) refl

pub update-below : (f : ℕ → Value) (i k : ℕ) (v : Value) → k < i → update f i v k ≡ f k
update-below f i k v h = rw (ne→== k i (λ e. omega (arith, h, e))) refl

-- The machine reads the operator that the compiler writes.
pub op_of-op_code : (o : Op) → op_of (op_code o) ≡ o
unfolding op_of op_code
op_of-op_code o = ground arith
