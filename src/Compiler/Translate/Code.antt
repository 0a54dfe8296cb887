-- ===== src/Compiler/Translate/Code.antt =====
-- The code of an integer expression, described without the output buffer, and Translate
-- (compiler/strom.cpp).
use nesrotom_run.Base.{
  ℕ, ◌/◌, ◌%◌, ◌^◌, ◌<◌, ◌≡◌, ◌∙◌, refl, ap, true, some, List, [], ◌∷◌, ◌++◌, append_assoc, length,
  arith,
}
use nesrotom_run.State.{Bytes}
use nesrotom_run.Operators.{Op}
use nesrotom_run.Compiler.Tree.{
  Node, VarInfo, bop, log_not, no_args, numb, op_code, sc_local, un_minus, var,
}
use nesrotom_run.Compiler.Emit.{
  Bcout, Emit, Item, Label, bco_w0, bco_w16, bco_w8, bco_wb1, bco_ww1, int_item, item_at, no_label,
}
use nesrotom_run.Compiler.Emit.Constants.{IsTable, Grows, bco_int_lem}
use nesrotom_run.Compiler.Translate.{translate, address}
use nesrotom_run.Compiler.Optimize.Folding.{IntExpr, of_numb, of_var, of_bop, of_minus, of_not}

-- The two bytes of an operand, the low one first.
abbrev pub word16 : ℕ → Bytes
word16 n = n % 256 ∷ n / 256 % 256 ∷ []

-- A local variable that is read, with an address of 16 bits.
abbrev pub IsLocal : VarInfo → Type 0
IsLocal v = (v.sc ≡ sc_local) × (v.rvalue ≡ true) × (v.addr < 2 ^ 16)

-- `CodeOf tbl e c`: with the constant table `tbl` the bytes `c` compute `e`, operands first.
pub data CodeOf (tbl : List (ℕ × Item)) : Node → Bytes → Type 0 where
  code_numb :
      {n : ℕ} (i : ℕ) → item_at i tbl ≡ some (int_item n) → CodeOf tbl (numb n) (17 ∷ word16 i)
  code_var : {v : VarInfo} → IsLocal v → CodeOf tbl (var v no_args) (19 ∷ word16 v.addr)
  code_bop :
      {o : Op} {l r : Node} (c d : Bytes)
      → CodeOf tbl l c
      → CodeOf tbl r d
      → CodeOf tbl (bop o l r) (c ++ (d ++ (1 ∷ op_code o ∷ [])))
  code_minus : {e : Node} (c : Bytes) → CodeOf tbl e c → CodeOf tbl (un_minus e) (c ++ (2 ∷ []))
  code_not : {e : Node} (c : Bytes) → CodeOf tbl e c → CodeOf tbl (log_not e) (c ++ (11 ∷ []))

CodeOf-Grows :
    {xs ys : List (ℕ × Item)} {e : Node} {c : Bytes}
    → ((i : ℕ) (x : Item) → item_at i xs ≡ some x → item_at i ys ≡ some x)
    → CodeOf xs e c
    → CodeOf ys e c
CodeOf-Grows g (code_numb {n} i h) = code_numb i (g i (int_item n) h)
CodeOf-Grows g (code_var h) = code_var h
CodeOf-Grows g (code_bop c d h k) = code_bop c d (CodeOf-Grows g h) (CodeOf-Grows g k)
CodeOf-Grows g (code_minus c h) = code_minus c (CodeOf-Grows g h)
CodeOf-Grows g (code_not c h) = code_not c (CodeOf-Grows g h)

abbrev written : Bcout → Bytes → List Label → Bcout
written s c l = record s { bc_arr = s.bc_arr ++ c; bc_lab = l }

-- An emitter that writes the bytes `c` and nothing else.
abbrev Writes : Emit ℕ → Bytes → Bcout → Type 0
Writes m c s = (i : ℕ) × (l : List Label) × (m s ≡ some (i, written s c l))

ww1-Writes : (bc a : ℕ) (s : Bcout) → Writes (bco_ww1 bc a) (bc % 256 ∷ word16 a) s
unfolding bco_ww1 bco_w8 bco_w16
ww1-Writes bc a s = (
  length s.bc_arr,
  _,
  ap
      (λ b. some (
        length s.bc_arr,
        record s {
          bc_arr = b;
          bc_lab = (s.bc_lab ++ (no_label ∷ [])) ++ (no_label ∷ no_label ∷ []);
        },
      ))
      (append_assoc s.bc_arr (bc % 256 ∷ []) (word16 a)),
)

wb1-Writes : (bc a : ℕ) (s : Bcout) → Writes (bco_wb1 bc a) (bc % 256 ∷ a % 256 ∷ []) s
unfolding bco_wb1 bco_w8
wb1-Writes bc a s = (
  length s.bc_arr,
  _,
  ap
      (λ b. some (
        length s.bc_arr,
        record s { bc_arr = b; bc_lab = (s.bc_lab ++ (no_label ∷ [])) ++ (no_label ∷ []) },
      ))
      (append_assoc s.bc_arr (bc % 256 ∷ []) (a % 256 ∷ [])),
)

w0-Writes : (bc : ℕ) (s : Bcout) → Writes (bco_w0 bc) (bc % 256 ∷ []) s
unfolding bco_w0 bco_w8
w0-Writes bc s = (length s.bc_arr, _, refl)

op_code-byte : (o : Op) → op_code o % 256 ≡ op_code o
unfolding op_code
op_code-byte o = ground arith

-- What Translate does to an expression: it returns, its bytes come behind the ones that are there, and
-- they compute the expression with the constants that are then in the table.
abbrev pub Translates : Node → Bcout → Type 0
Translates e s =
    (t : Bcout) × (c : Bytes) × (translate e s ≡ some (0, t))
    × (t.bc_arr ≡ s.bc_arr ++ c)
    × CodeOf t.const_table e c
    × IsTable t
    × Grows s t

joined : (x y z c d w : Bytes) → y ≡ x ++ c → z ≡ y ++ d → z ++ w ≡ x ++ (c ++ (d ++ w))
joined x y z c d w e f =
    ap (λ v. v ++ w) (f ∙ ap (λ v. v ++ d) e)
    ∙ append_assoc (x ++ c) d w
    ∙ append_assoc x c (d ++ w)

-- On an expression of numbers, local variables with an address of 16 bits, and operators, with a table
-- whose objects lie one after the other, Translate returns, appends to the bytecode the code that
-- computes the operands before their operator, and keeps the constants that are there.
pub translate-CodeOf : {e : Node} (s : Bcout) → IntExpr IsLocal e → IsTable s → Translates e s
unfolding translate address
translate-CodeOf s (of_numb n) h =
    let (i, t, run, at, wf, g, kept) = bco_int_lem n s h in
    let (j, l, run') = ww1-Writes 17 i t in
    (
      written t (17 ∷ word16 i) l,
      17 ∷ word16 i,
      rw (run, run') refl,
      ap (λ b. b ++ (17 ∷ word16 i)) kept,
      code_numb i at,
      wf,
      g,
    )
translate-CodeOf s (of_var v (local, rv, fits)) h =
    let (j, l, run) = ww1-Writes 19 v.addr s in
    (
      written s (19 ∷ word16 v.addr) l,
      19 ∷ word16 v.addr,
      rw (local, rv, run) refl,
      refl,
      code_var (local, rv, fits),
      h,
      λ i x e. e,
    )
translate-CodeOf s (of_bop o a b) h =
    let (t, c, run, bytes, code, wf, g) = translate-CodeOf s a h in
    let (u, d, run', bytes', code', wf', g') = translate-CodeOf t b wf in
    let (j, l, run'') = wb1-Writes 1 (op_code o) u in
    let last : Bytes = 1 ∷ op_code o ∷ [] in
    let shape : u.bc_arr ++ (1 ∷ op_code o % 256 ∷ []) ≡ s.bc_arr ++ (c ++ (d ++ last)) =
      ap (λ k. u.bc_arr ++ (1 ∷ k ∷ [])) (op_code-byte o)
      ∙ joined s.bc_arr t.bc_arr u.bc_arr c d last bytes bytes' in
    (
      written u (1 ∷ op_code o % 256 ∷ []) l,
      c ++ (d ++ last),
      rw (run, run', run'') refl,
      shape,
      code_bop c d (CodeOf-Grows g' code) code',
      wf',
      λ i x e. g' i x (g i x e),
    )
translate-CodeOf s (of_minus a) h =
    let (t, c, run, bytes, code, wf, g) = translate-CodeOf s a h in
    let (j, l, run') = w0-Writes 2 t in
    (
      written t (2 ∷ []) l,
      c ++ (2 ∷ []),
      rw (run, run') refl,
      ap (λ v. v ++ (2 ∷ [])) bytes ∙ append_assoc s.bc_arr c (2 ∷ []),
      code_minus c code,
      wf,
      g,
    )
translate-CodeOf s (of_not a) h =
    let (t, c, run, bytes, code, wf, g) = translate-CodeOf s a h in
    let (j, l, run') = w0-Writes 11 t in
    (
      written t (11 ∷ []) l,
      c ++ (11 ∷ []),
      rw (run, run') refl,
      ap (λ v. v ++ (11 ∷ [])) bytes ∙ append_assoc s.bc_arr c (11 ∷ []),
      code_not c code,
      wf,
      g,
    )
