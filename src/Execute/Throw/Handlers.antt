-- ===== src/Execute/Throw/Handlers.antt =====
-- The handler that a thrown object reaches (find_handler_for_exobj and vm_throw_obj of vm/vm.c).
use nesrotom_run.Base.{
  ℕ, zero, suc, ◌-◌, ◌≤◌, ◌<◌, ◌≡◌, ◌≢◌, ◌∙◌, refl, Bool, true, false, ◌&&◌, none, some, List, [],
  ◌∷◌, arith, ne→==, eq→==,
}
use nesrotom_run.State.{
  const_ref, Value, null, ptr, small, TryRange, exinfo, Object, native_addr, Vm, ok, add32, sub32,
}
use nesrotom_run.State.Memory.{update, object_at, load, store, int_val}
use nesrotom_run.Frame.{stack_size, stack_cells, int_lt}
use nesrotom_run.Frame.Calls.{read_cell_lem, sub32_small}
use nesrotom_run.Int32.{int_le}
use nesrotom_run.Execute.Throw.{
  Unwound, find_block, saved_int, unwind, as_exinfo, frame_handler, set_thrown, find_handler,
  vm_throw_obj,
}

abbrev pub covers : TryRange → ℕ → Bool
covers b a = int_le b.try_addr a && int_lt a b.catch_addr

-- `Nearest a bs b`: of the try blocks `bs` the first one around the address `a` is `b`.
pub data Nearest (a : ℕ) : List TryRange → TryRange → Type 0 where
  this_one : {b : TryRange} {bs : List TryRange} → covers b a ≡ true → Nearest a (b ∷ bs) b
  later :
      {b c : TryRange} {bs : List TryRange}
      → covers b a ≡ false
      → Nearest a bs c
      → Nearest a (b ∷ bs) c

-- None of the blocks is around the address.
pub data Outside (a : ℕ) : List TryRange → Type 0 where
  no_more : Outside a []
  not_this :
      {b : TryRange} {bs : List TryRange} → covers b a ≡ false → Outside a bs → Outside a (b ∷ bs)

find_block-Nearest :
    {a : ℕ} {bs : List TryRange} {b : TryRange} → Nearest a bs b → find_block a bs ≡ some b
unfolding find_block
find_block-Nearest (this_one h) = rw h
find_block-Nearest (later h n) = rw (h, find_block-Nearest n)

find_block-Outside : {a : ℕ} {bs : List TryRange} → Outside a bs → find_block a bs ≡ none
unfolding find_block
find_block-Outside no_more = refl
find_block-Outside (not_this h n) = rw (h, find_block-Outside n)

-- In state `s` the value is the exception table at offset `i` of the constants, with these blocks.
pub record IsTable (s : Vm) (v : Value) (i : ℕ) (o : Object) (bs : List TryRange) : Type 0 where
  pub cell : v ≡ ptr (const_ref i)
  pub const : s.consts i ≡ some o
  pub blocks : as_exinfo o.body ≡ some bs

-- The frame at `u` saves the registers of the frame at `w`, and its caller is bytecode.
pub record IsCalledFrom (s : Vm) (u w : Unwound) : Type 0 where
  pub ret_cell : s.stack (u.fp - 3) ≡ small w.ret_addr
  pub ap_cell : s.stack (u.fp - 2) ≡ small w.ap
  pub fp_cell : s.stack (u.fp - 1) ≡ small w.fp
  pub sp_left : w.sp ≡ u.ap
  pub bytecode : w.ret_addr ≢ native_addr
  pub has_cells : 3 ≤ u.fp
  pub fits : u.fp ≤ stack_size

-- The frame at `u` has no block around its address: no exception table, or one without it.
pub data Passes (s : Vm) (u : Unwound) : Type 0 where
  no_table : s.stack u.fp ≡ null → Passes s u
  outside :
      {i : ℕ} {o : Object} {bs : List TryRange}
      → IsTable s (s.stack u.fp) i o bs
      → Outside (sub32 u.ret_addr 1) bs
      → Passes s u

-- `Catches s n u w i bs b`: from the frame at `u`, the nearest frame with a block around its address
-- is the one at `w`, `n` frames up; its exception table is at `i`, with the blocks `bs`, and `b` is the
-- block.
pub data Catches (s : Vm) : ℕ → Unwound → Unwound → ℕ → List TryRange → TryRange → Type 0 where
  here :
      {u : Unwound} {i : ℕ} {o : Object} {bs : List TryRange} {b : TryRange}
      → u.fp ≤ stack_size
      → IsTable s (s.stack u.fp) i o bs
      → Nearest (sub32 u.ret_addr 1) bs b
      → Catches s 0 u u i bs b
  up :
      {n : ℕ} {u v w : Unwound} {i : ℕ} {bs : List TryRange} {b : TryRange}
      → Passes s u
      → IsCalledFrom s u v
      → Catches s n v w i bs b
      → Catches s (suc n) u w i bs b

saved_int_lem : (i n : ℕ) (s : Vm) → i < stack_cells → s.stack i ≡ small n → saved_int i s ≡ ok n s
unfolding int_val
saved_int_lem i n s h e = rw (read_cell_lem i s h, e)

unwind_lem : (s : Vm) (u w : Unwound) → IsCalledFrom s u w → unwind u s ≡ ok (some w) s
unfolding unwind
unwind_lem s u w c = rw (
  sub32_small u.fp 3 c.has_cells (omega arith),
  sub32_small u.fp 2 (omega arith) (omega arith),
  sub32_small u.fp 1 (omega arith) (omega arith),
  saved_int_lem (u.fp - 3) w.ret_addr s (omega arith) c.ret_cell,
  saved_int_lem (u.fp - 2) w.ap s (omega arith) c.ap_cell,
  saved_int_lem (u.fp - 1) w.fp s (omega arith) c.fp_cell,
  ne→== w.ret_addr native_addr c.bytecode,
  c.sp_left,
)

frame_handler-null :
    (s : Vm) (u : Unwound) → u.fp ≤ stack_size → s.stack u.fp ≡ null → frame_handler u s ≡ ok none s
unfolding frame_handler
frame_handler-null s u h e = rw (read_cell_lem u.fp s (omega arith), e)

load_const :
    (s : Vm) (i : ℕ) (o : Object) → s.consts i ≡ some o → load (ptr (const_ref i)) s ≡ ok o s
unfolding load object_at
load_const s i o e = rw e

frame_handler-table :
    (s : Vm) (u : Unwound) (v : Value) (i : ℕ) (o : Object) (bs : List TryRange)
    → u.fp ≤ stack_size
    → s.stack u.fp ≡ v
    → IsTable s v i o bs
    → frame_handler u s
      ≡ ok
          (elim (find_block (sub32 u.ret_addr 1) bs) [
            | none ↦ none
            | some b ↦ some (ptr (const_ref i), b)
          ])
          s
unfolding frame_handler
frame_handler-table s u v i o bs h e t =
    rw (read_cell_lem u.fp s (omega arith), e ∙ t.cell, load_const s i o t.const, t.blocks)

frame_handler-Passes :
    (s : Vm) (u : Unwound) → u.fp ≤ stack_size → Passes s u → frame_handler u s ≡ ok none s
frame_handler-Passes s u h (no_table e) = frame_handler-null s u h e
frame_handler-Passes s u h (outside {i} {o} {bs} t out) =
    rw (frame_handler-table s u (s.stack u.fp) i o bs h refl t, find_block-Outside out)

frame_handler-Nearest :
    (s : Vm) (u : Unwound) (i : ℕ) (o : Object) (bs : List TryRange) (b : TryRange)
    → u.fp ≤ stack_size
    → IsTable s (s.stack u.fp) i o bs
    → Nearest (sub32 u.ret_addr 1) bs b
    → frame_handler u s ≡ ok (some (ptr (const_ref i), b)) s
frame_handler-Nearest s u i o bs b h t near =
    rw (frame_handler-table s u (s.stack u.fp) i o bs h refl t, find_block-Nearest near)

-- The state with the object in the exception table at `i`.
unfoldable pub with_thrown : ℕ → Object → List TryRange → Value → Vm → Vm
with_thrown i o bs obj s = record s {
  consts = update s.consts i (some (record o { body = exinfo obj bs }));
}

set_thrown_lem :
    (s : Vm) (v : Value) (i : ℕ) (o : Object) (bs : List TryRange) (obj : Value)
    → IsTable s v i o bs
    → set_thrown (ptr (const_ref i)) obj s ≡ ok tt (with_thrown i o bs obj s)
unfolding set_thrown with_thrown store
set_thrown_lem s v i o bs obj t = rw (load_const s i o t.const, t.blocks)

find_handler-Catches :
    (s : Vm) (fuel n : ℕ) (u w : Unwound) (i : ℕ) (bs : List TryRange) (b : TryRange) (obj : Value)
    → Catches s n u w i bs b
    → n < fuel
    → (o : Object) × (s.consts i ≡ some o)
      × (find_handler fuel obj u s ≡ ok (some (w, b.catch_addr)) (with_thrown i o bs obj s))
unfolding find_handler
find_handler-Catches s zero n u w i bs b obj c h = absurd (omega arith)
find_handler-Catches s (suc fuel) n u w i bs b obj (here {o} fits t near) h = (
  o,
  t.const,
  rw (frame_handler-Nearest s u i o bs b fits t near, set_thrown_lem s (s.stack u.fp) i o bs obj t),
)
find_handler-Catches s (suc fuel) (suc n) u w i bs b obj (up {v} p call c) h =
    let (o, e, run) = find_handler-Catches s fuel n v w i bs b obj c (omega arith) in
    (o, e, rw (frame_handler-Passes s u call.fits p, unwind_lem s u v call) run)

-- Where vm_throw_obj begins.
unfoldable pub throw_point : Vm → Unwound
throw_point s = record { ap = s.ap; fp = s.fp; sp = s.sp; ret_addr = add32 s.ip 1 }

-- The state in the handler.
unfoldable pub in_handler : Unwound → ℕ → Object → List TryRange → TryRange → Value → Vm → Vm
in_handler w i o bs b obj s = record (with_thrown i o bs obj s) {
  ap = w.ap;
  fp = w.fp;
  sp = w.sp;
  ip = b.catch_addr;
}

vm_throw_obj_lem :
    (s : Vm) (fuel : ℕ) (w : Unwound) (i : ℕ) (o : Object) (bs : List TryRange) (b : TryRange)
    (obj : Value)
    → find_handler fuel obj (throw_point s) s
      ≡ ok (some (w, b.catch_addr)) (with_thrown i o bs obj s)
    → vm_throw_obj fuel obj s ≡ ok tt (in_handler w i o bs b obj s)
unfolding vm_throw_obj throw_point in_handler with_thrown
vm_throw_obj_lem s fuel w i o bs b obj h = rw h

-- A thrown object reaches the nearest frame with a try block around its address, when the search is
-- given a round for each frame on the way: the machine continues in that frame, with its registers,
-- at the handler of the first such block, the rest of the state is as it was, and the exception
-- table of that frame holds the object.
pub vm_throw_obj-Catches :
    (s : Vm) (fuel n : ℕ) (w : Unwound) (i : ℕ) (bs : List TryRange) (b : TryRange) (obj : Value)
    → Catches s n (throw_point s) w i bs b
    → n < fuel
    → (o : Object) × (s.consts i ≡ some o)
      × (vm_throw_obj fuel obj s ≡ ok tt (in_handler w i o bs b obj s))
      × ((in_handler w i o bs b obj s).consts i ≡ some (record o { body = exinfo obj bs }))
unfolding in_handler with_thrown
vm_throw_obj-Catches s fuel n w i bs b obj c h =
    let (o, e, run) = find_handler-Catches s fuel n (throw_point s) w i bs b obj c h in
    (o, e, vm_throw_obj_lem s fuel w i o bs b obj run, rw (eq→== i i refl))
