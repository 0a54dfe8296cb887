-- ===== src/Compiler/Translate/Steps.antt =====
-- The instructions that the code of an integer expression uses, as the machine runs them.
use nesrotom_run.Base.{
  ℕ, ◌+◌, ◌*◌, ◌/◌, ◌%◌, ◌^◌, ◌<◌, ◌≡◌, ◌∙◌, refl, sym, some, inl, inr, Bool-cases, arith, ◌==◌,
}
use nesrotom_run.State.{Native, Value, small, Vm, Cmd, ok, add32, sub32}
use nesrotom_run.State.Memory.{update, make_integer, object_at}
use nesrotom_run.Frame.{stack_size, stack_cells, stack_pop, stack_top, replace_top, loc}
use nesrotom_run.Frame.Calls.{
  add32_small, sub32_small, push_lem, read_cell_lem, make_integer_small, write_cell_lem,
}
use nesrotom_run.Objects.{const}
use nesrotom_run.Operators.{op_of, bc_bop}
use nesrotom_run.Operators.Laws.{HasInt, inline, boxed, constant, is_int-HasInt, int_val-HasInt}
use nesrotom_run.Int32.{neg32, truth}
use nesrotom_run.Execute.{continue, step, execute}
use nesrotom_run.Execute.Operands.{advance, byte_at, op16, operand16, operand8}
use nesrotom_run.Execute.Simple.{
  exec_lvbi_c, exec_lvbi_loc, exec_bop, exec_unm, exec_not, condition,
}

sum_lem : (i : ℕ) → i < 2 ^ 16 → i % 256 + i / 256 % 256 * 256 ≡ i
sum_lem i h = omega arith

next_lem : (a b c n : ℕ) → a + b + c < 2 ^ 32 → b + c ≡ n → add32 (a + b) c ≡ a + n
next_lem a b c n h e = add32_small (a + b) c h ∙ omega arith

pred_lem : (m n : ℕ) → m ≡ n + 1 → n < stack_size → sub32 m 1 ≡ n
pred_lem m n e h = sub32_small m 1 (omega arith) (omega arith) ∙ omega arith

-- The operand of two bytes, as bco_w16 wrote it.
operand16_lem :
    (i : ℕ) (s : Vm)
    → i < 2 ^ 16
    → s.ip + 3 < 2 ^ 32
    → s.bc_arr (s.ip + 1) ≡ some (i % 256)
    → s.bc_arr (s.ip + 2) ≡ some (i / 256 % 256)
    → operand16 s ≡ ok i (record s { ip = s.ip + 3 })
unfolding operand16 op16 advance byte_at
operand16_lem i s fits room b c =
    rw
      (
        add32_small s.ip 1 (omega arith),
        b,
        next_lem s.ip 1 1 2 (omega arith) refl,
        c,
        next_lem s.ip 1 2 3 (omega arith) refl,
        sum_lem i fits,
      )
      refl

operand8_lem :
    (n : ℕ) (s : Vm)
    → s.ip + 2 < 2 ^ 32
    → s.bc_arr (s.ip + 1) ≡ some n
    → operand8 s ≡ ok n (record s { ip = s.ip + 2 })
unfolding operand8 advance byte_at
operand8_lem n s room b =
    rw (add32_small s.ip 1 (omega arith), b, next_lem s.ip 1 1 2 (omega arith) refl) refl

pop_lem :
    (n : ℕ) (s : Vm)
    → s.sp ≡ n + 1
    → n < stack_size
    → stack_pop s ≡ ok (s.stack n) (record s { sp = n })
unfolding stack_pop
pop_lem n s e h = rw (pred_lem s.sp n e h) (read_cell_lem n (record s { sp = n }) (omega arith))

top_lem : (n : ℕ) (s : Vm) → s.sp ≡ n + 1 → n < stack_size → stack_top s ≡ ok (s.stack n) s
unfolding stack_top
top_lem n s e h = rw (pred_lem s.sp n e h) (read_cell_lem n s (omega arith))

replace_lem :
    (n : ℕ) (v : Value) (s : Vm)
    → s.sp ≡ n + 1
    → n < stack_size
    → replace_top v s ≡ ok tt (record s { stack = update s.stack n v })
unfolding replace_top
replace_lem n v s e h = rw (pred_lem s.sp n e h) (write_cell_lem n v s (omega arith))

HasInt-ip : {v : Value} {n : ℕ} {s : Vm} (a : ℕ) → HasInt v n s → HasInt v n (record s { ip = a })
unfolding object_at
HasInt-ip a (inline h) = inline h
HasInt-ip a (boxed e) = boxed e
HasInt-ip a (constant c e) = constant c e

module _ (native : Native → Cmd (Unit {0})) (fuel : ℕ) where
  -- LVBI_C
  pub step-lvbi_c :
      (i : ℕ) (s : Vm)
      → i < 2 ^ 16
      → s.ip + 3 < 2 ^ 32
      → s.sp < stack_size
      → s.bc_arr s.ip ≡ some 17
      → s.bc_arr (s.ip + 1) ≡ some (i % 256)
      → s.bc_arr (s.ip + 2) ≡ some (i / 256 % 256)
      → step native fuel s
        ≡ ok continue
            (record s { ip = s.ip + 3; stack = update s.stack s.sp (const i); sp = s.sp + 1 })
  unfolding step execute byte_at exec_lvbi_c
  step-lvbi_c i s fits room deep a b c =
      rw (a, operand16_lem i s fits room b c, push_lem (const i) (record s { ip = s.ip + 3 }) deep)
        refl

  -- LVBI_LOC
  pub step-lvbi_loc :
      (i : ℕ) (s : Vm)
      → i < 2 ^ 16
      → s.ip + 3 < 2 ^ 32
      → s.sp < stack_size
      → s.fp + (i + 1) < stack_cells
      → s.bc_arr s.ip ≡ some 19
      → s.bc_arr (s.ip + 1) ≡ some (i % 256)
      → s.bc_arr (s.ip + 2) ≡ some (i / 256 % 256)
      → step native fuel s
        ≡ ok continue (record s {
          ip = s.ip + 3;
          stack = update s.stack s.sp (s.stack (s.fp + (i + 1)));
          sp = s.sp + 1;
        })
  unfolding step execute byte_at exec_lvbi_loc loc
  step-lvbi_loc i s fits room deep frame a b c =
      rw
        (
          a,
          operand16_lem i s fits room b c,
          add32_small s.fp (i + 1) (omega arith),
          read_cell_lem (s.fp + (i + 1)) (record s { ip = s.ip + 3 }) frame,
          push_lem (s.stack (s.fp + (i + 1))) (record s { ip = s.ip + 3 }) deep,
        )
        refl

  -- BOP: what bc_bop does on the two cells on the top, with the stack two cells lower.
  pub step-bop :
      (o n : ℕ) (s t : Vm) (r : Value)
      → s.ip + 2 < 2 ^ 32
      → s.sp ≡ n + 1 + 1
      → n + 1 < stack_size
      → s.bc_arr s.ip ≡ some 1
      → s.bc_arr (s.ip + 1) ≡ some o
      → bc_bop (op_of o) (s.stack n) (s.stack (n + 1)) (record s { ip = s.ip + 2; sp = n }) ≡ ok r t
      → t.sp ≡ n
      → step native fuel s ≡ ok continue (record t { stack = update t.stack n r; sp = n + 1 })
  unfolding step execute byte_at exec_bop
  step-bop o n s t r room e deep a b run sp =
      rw
        (
          a,
          operand8_lem o s room b,
          pop_lem (n + 1) (record s { ip = s.ip + 2 }) e (omega arith),
          pop_lem n (record s { ip = s.ip + 2; sp = n + 1 }) refl (omega arith),
          run,
          push_lem r t (omega arith),
          sp,
        )
        refl

  -- UNM and NOT on a cell that holds an integer.
  pub step-unm :
      (n x : ℕ) (s t : Vm) (r : Value)
      → s.ip + 1 < 2 ^ 32
      → s.sp ≡ n + 1
      → n < stack_size
      → s.bc_arr s.ip ≡ some 2
      → HasInt (s.stack n) x s
      → make_integer (neg32 x) (record s { ip = s.ip + 1 }) ≡ ok r t
      → t.sp ≡ n + 1
      → step native fuel s ≡ ok continue (record t { stack = update t.stack n r; sp = n + 1 })
  unfolding step execute byte_at exec_unm advance
  step-unm n x s t r room e deep a i run sp =
      let u : Vm = record s { ip = s.ip + 1 } in
      let j = HasInt-ip (s.ip + 1) i in
      rw
        (
          a,
          add32_small s.ip 1 (omega arith),
          top_lem n u e deep,
          is_int-HasInt j,
          int_val-HasInt j,
          run,
          replace_lem n r t sp deep,
          sym sp,
        )
        refl

  pub step-not :
      (n x : ℕ) (s : Vm)
      → s.ip + 1 < 2 ^ 32
      → s.sp ≡ n + 1
      → n < stack_size
      → s.bc_arr s.ip ≡ some 11
      → HasInt (s.stack n) x s
      → step native fuel s
        ≡ ok continue (record s {
          ip = s.ip + 1;
          stack = update s.stack n (small (truth (x == 0)));
          sp = n + 1;
        })
  unfolding step execute byte_at exec_not advance condition
  step-not n x s room e deep a i =
      let u : Vm = record s { ip = s.ip + 1 } in
      let j = HasInt-ip (s.ip + 1) i in
      let k = add32_small s.ip 1 (omega arith) in
      let tp = top_lem n u e deep in
      elim (Bool-cases (x == 0)) [
        | inl z ↦
            rw
              (
                a,
                k,
                tp,
                is_int-HasInt j,
                int_val-HasInt j,
                z,
                make_integer_small 1 u (omega arith),
                replace_lem n (small 1) u e deep,
                sym e,
              )
              refl
        | inr z ↦
            rw
              (
                a,
                k,
                tp,
                is_int-HasInt j,
                int_val-HasInt j,
                z,
                make_integer_small 0 u (omega arith),
                replace_lem n (small 0) u e deep,
                sym e,
              )
              refl
      ]
