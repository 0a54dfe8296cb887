-- ===== src/Compiler/Translate/Correct.antt =====
-- The code of an integer expression (compiler/strom.cpp) run by the machine (vm/vm.c), against the
-- value of the expression.
use nesrotom_run.Base.{
  ℕ, ◌+◌, ◌≤◌, ◌≡◌, ◌∙◌, refl, sym, ap, subst, inl, inr, Option, some, List, [], ◌∷◌, ◌++◌, length,
  length-append, drop, arith, Option-cases,
}
use nesrotom_run.State.{Bytes, Native, Vm, Cmd}
use nesrotom_run.Compiler.Tree.{Node, VarInfo, op_code}
use nesrotom_run.Compiler.Emit.{Bcout, Item, int_item}
use nesrotom_run.Compiler.Optimize.{optimize}
use nesrotom_run.Compiler.Emit.Constants.{IsTable}
use nesrotom_run.Compiler.Translate.{translate}
use nesrotom_run.Compiler.Optimize.Folding.{IntExpr, optimize-eval, eval}
use nesrotom_run.Compiler.Translate.Code.{
  IsLocal, translate-CodeOf, CodeOf, code_numb, code_var, code_bop, code_minus, code_not,
}
use nesrotom_run.Compiler.Translate.Operations.{run-minus, run-not, run-bop}
use nesrotom_run.Compiler.Translate.Run.{
  At, At-left, At-right, Ready, Ready-Later, Room, Computed, run-numb, run-var,
}

some-inj : {a b : ℕ} → some a ≡ some b → a ≡ b
some-inj h = ground (arith, h)

module _ (native : Native → Cmd (Unit {0})) (fuel : ℕ) where
  -- A later state in which the next bytes lie at its address.
  next-At :
      (d : Bytes) (k x : ℕ) (s t : Vm)
      → Computed native fuel k x s t
      → At d (s.ip + k) s.bc_arr
      → At d t.ip t.bc_arr
  next-At d k x s t c a =
      subst (λ f. At d t.ip f) (sym c.later.code) (subst (λ p. At d p s.bc_arr) (sym c.ip) a)

  Room-left : (k m : ℕ) (s : Vm) → Room m s → k ≤ m → Room k s
  Room-left k m s r h = record {
    address = omega (arith, r.address, h);
    deep = omega (arith, r.deep, h);
    heap = omega (arith, r.heap, h);
  }

  Room-next :
      (k j m x : ℕ) (s t : Vm)
      → Computed native fuel k x s t
      → 1 ≤ k
      → Room m s
      → k + j ≤ m
      → Room j t
  Room-next k j m x s t c p r h = record {
    address = omega (arith, r.address, h, c.ip);
    deep = omega (arith, r.deep, h, c.sp, p);
    heap = omega (arith, r.heap, h, c.used);
  }

  code_pos : {tbl : List (ℕ × Item)} {e : Node} {c : Bytes} → CodeOf tbl e c → 1 ≤ length c
  code_pos (code_numb i h) = omega arith
  code_pos (code_var h) = omega arith
  code_pos (code_bop {o} c d h k) =
      omega (arith, length-append c (d ++ (1 ∷ op_code o ∷ [])), code_pos h)
  code_pos (code_minus c h) = omega (arith, length-append c (2 ∷ []))
  code_pos (code_not c h) = omega (arith, length-append c (11 ∷ []))

  relabel :
      {k j x y : ℕ} {s : Vm}
      → k ≡ j
      → x ≡ y
      → (t : Vm) × Computed native fuel k x s t
      → (t : Vm) × Computed native fuel j y s t
  relabel {k} {j} {x} {y} {s} p q h =
      subst (λ i. (t : Vm) × Computed native fuel i y s t) p
        (subst (λ z. (t : Vm) × Computed native fuel k z s t) q h)

  -- The code of an expression computes its value.
  pub run-CodeOf :
      {tbl : List (ℕ × Item)} {e : Node} {c : Bytes} (ρ : VarInfo → Option ℕ) (n : ℕ) (s : Vm)
      → CodeOf tbl e c
      → At c s.ip s.bc_arr
      → Ready tbl ρ s
      → Room (length c) s
      → eval ρ e ≡ some n
      → (t : Vm) × Computed native fuel (length c) n s t
  unfolding eval
  run-CodeOf ρ n s (code_numb {n = m} i h) a r room e =
      run-numb native fuel i n s (h ∙ ap (λ k. some (int_item k)) (some-inj e)) a r room
  run-CodeOf ρ n s (code_var {v} h) a r room e = run-var native fuel v n s h e a r room
  run-CodeOf ρ n s (code_minus {e = f} c h) a r room e = elim (Option-cases (eval ρ f)) [
    | inl g ↦ absurd (ground (arith, e, g))
    | inr (x, g) ↦
        let size = length-append c (2 ∷ []) in
        let (t, d) =
          run-CodeOf ρ x s h (At-left c (2 ∷ []) s.ip s.bc_arr a) r
            (Room-left _ _ s room (omega (arith, size))) g in
        let out =
          run-minus native fuel (length c) x s t d (At-right c (2 ∷ []) s.ip s.bc_arr a)
            (Room-left (length c + 1) _ s room (omega (arith, size))) in
        relabel (sym size) (ground (arith, e, g)) out
  ]
  run-CodeOf ρ n s (code_not {e = f} c h) a r room e = elim (Option-cases (eval ρ f)) [
    | inl g ↦ absurd (ground (arith, e, g))
    | inr (x, g) ↦
        let size = length-append c (11 ∷ []) in
        let (t, d) =
          run-CodeOf ρ x s h (At-left c (11 ∷ []) s.ip s.bc_arr a) r
            (Room-left _ _ s room (omega (arith, size))) g in
        let out =
          run-not native fuel (length c) x s t d (At-right c (11 ∷ []) s.ip s.bc_arr a)
            (Room-left (length c + 1) _ s room (omega (arith, size))) in
        relabel (sym size) (ground (arith, e, g)) out
  ]
  run-CodeOf ρ n s (code_bop {o} {l} {r = m} c d h k) a q room e = elim (Option-cases (eval ρ l)) [
    | inl g ↦ absurd (ground (arith, e, g))
    | inr (x, g) ↦ elim (Option-cases (eval ρ m)) [
      | inl i ↦ absurd (ground (arith, e, g, i))
      | inr (y, i) ↦
          let op : Bytes = 1 ∷ op_code o ∷ [] in
          let size : length (c ++ (d ++ op)) ≡ length c + (length d + 2) =
            length-append c (d ++ op) ∙ ap (λ j. length c + j) (length-append d op) in
          let rest = At-right c (d ++ op) s.ip s.bc_arr a in
          let (t, p) =
            run-CodeOf ρ x s h (At-left c (d ++ op) s.ip s.bc_arr a) q
              (Room-left _ _ s room (omega (arith, size))) g in
          let (u, w) =
            run-CodeOf ρ y t k (next-At d _ x s t p (At-left d op (s.ip + length c) s.bc_arr rest))
              (Ready-Later (omega (arith, p.sp)) p.later q)
              (Room-next _ (length d) _ x s t p (code_pos h) room (omega (arith, size))) i in
          let out =
            run-bop native fuel o (length c) (length d) x y n s t u p w (ground (arith, e, g, i))
              (At-right d op (s.ip + length c) s.bc_arr rest)
              (Room-left (length c + (length d + 2)) _ s room (omega (arith, size))) in
          relabel (sym size) refl out
    ]
  ]

drop-append : (x c : Bytes) → drop (length x) (x ++ c) ≡ c
drop-append [] c = refl
drop-append (b ∷ x) c = drop-append x c

abbrev result : ℕ → Bcout → Option (ℕ × Bcout)
result i s = some (i, s)

result-inj : {i j : ℕ} {s t : Bcout} → result i s ≡ result j t → s ≡ t
result-inj h = ground (arith, h)

-- What a translation from `b` to `b'` has written.
abbrev pub new_code : Bcout → Bcout → Bytes
new_code b b' = drop (length b.bc_arr) b'.bc_arr

-- From the tree to the machine: an integer expression of numbers, local variables and operators that
-- has the value `n` is optimised and translated. In a machine that has the new code at the instruction
-- pointer, the integers of the compiler's constant table as its constants, and the variables' integers
-- in the frame, with room for as many bytes, stack cells and objects as there are bytes of code, the
-- loop of the interpreter runs to a state behind the code, with one value more on the stack, which
-- holds `n`; program, constants, frame, the stack below and all objects are as before.
pub compile-run :
    (native : Native → Cmd (Unit {0})) (fuel : ℕ) (ρ : VarInfo → Option ℕ) (n : ℕ) {e : Node}
    (f q : Node) (b b' : Bcout) (s : Vm)
    → IntExpr IsLocal e
    → eval ρ e ≡ some n
    → optimize e ≡ some (f, q)
    → IsTable b
    → translate f b ≡ some (0, b')
    → At (new_code b b') s.ip s.bc_arr
    → Ready b'.const_table ρ s
    → Room (length (new_code b b')) s
    → (t : Vm) × Computed native fuel (length (new_code b b')) n s t
compile-run native fuel ρ n f q b b' s h v o wf run at ready room =
    let (i, same) = optimize-eval ρ f q h o in
    let (t, c, run', bytes, code, _, _) = translate-CodeOf b i wf in
    let eq : t ≡ b' = result-inj (sym run' ∙ run) in
    let new : new_code b b' ≡ c =
      ap (λ u. drop (length b.bc_arr) u.bc_arr) (sym eq)
      ∙ ap (drop (length b.bc_arr)) bytes
      ∙ drop-append b.bc_arr c in
    let code' : CodeOf b'.const_table f (new_code b b') =
      subst (λ u. CodeOf u.const_table f (new_code b b')) eq
        (subst (λ d. CodeOf t.const_table f d) (sym new) code) in
    run-CodeOf native fuel ρ n s code' at ready room (same ∙ v)
