-- ===== src/Collector/Fields.antt =====
-- The fields of an object, and the lists of roots, one after the other (gc_cheney_copy_neighbor and
-- the loops of gc_rootset in vm/memory.c).
use nesrotom_run.Base.{ℕ, zero, suc, ◌≡◌, refl, subst, Option, none, some, List, [], ◌∷◌, arith}
use nesrotom_run.State.{
  Ref, const_ref, heap_ref, class_ref, stack_ref, Value, null, ptr, small, char, dptr, Body,
}
use nesrotom_run.State as State
use nesrotom_run.Collector.{Gc, Heap, Outcome, done, Step, and_then, pure}
use nesrotom_run.Collector.Scavenge.{
  copy_neighbor_inner, copy_root_obj, copy_var, copy_elem, copy_elems_ptr, copy_slots,
  copy_inst_vars, copy_fields, each,
}
use nesrotom_run.Collector.Invariant.{
  Sent, sent_null, sent_small, sent_char, sent_dptr, Sent-Grows, SlotsSent, sent_rest, sent_more,
  BodySent, sent_int, sent_str, sent_sym, sent_arr, sent_arr_objs, sent_expt, sent_file, sent_term,
  sent_udo, Inv, Grows, Extends, Extends-trans, Pairwise, pair_nil, pair_cons,
}
use nesrotom_run.Collector.Forward.{unchanged, forward-Extends}
use nesrotom_run.Collector.Runs.{from_done, done_inj}

-- A command that turns `a` into something with `P`, and that the invariant survives.
pub record Copies {A : Type 0} (z : Gc) (P : Heap → A → A → Type 0) (f : A → Step A) : Type 0 where
  pub later : {g h : Heap} {a b : A} → Grows g h → P g a b → P h a b
  pub copies :
      {s t : Gc} {p : ℕ} {bs : List ℕ} (a b : A)
      → Inv z p bs s
      → f a s ≡ done b t
      → Extends z s t p bs × P t.cells a b

-- A command followed by a step that only builds the result.
pub mapped :
    {A B : Type 0} (o : Outcome A) (g : A → B) (b : B) (t : Gc)
    → and_then o (λ a. pure (g a)) ≡ done b t
    → (a : A) × (o ≡ done a t) × (g a ≡ b)
mapped o g b t h =
    let (a, u, run, last) = from_done o (λ a. pure (g a)) b t h in
    let (e, same) = done_inj last in (a, subst (λ w. o ≡ done a w) same run, e)

pub root-Extends :
    {z s t : Gc} {p : ℕ} {bs : List ℕ} (x y : Value)
    → Inv z p bs s
    → copy_root_obj x s ≡ done y t
    → Extends z s t p bs × Sent t.cells x y
unfolding copy_root_obj
root-Extends (ptr r) v i h = forward-Extends r v i h
root-Extends null v i h = absurd (ground (arith, h))
root-Extends (small n) v i h = absurd (ground (arith, h))
root-Extends (char n) v i h = absurd (ground (arith, h))
root-Extends (dptr f) v i h = absurd (ground (arith, h))

pub var-Extends :
    {z s t : Gc} {p : ℕ} {bs : List ℕ} (x y : Value)
    → Inv z p bs s
    → copy_var x s ≡ done y t
    → Extends z s t p bs × Sent t.cells x y
unfolding copy_var copy_neighbor_inner
var-Extends (ptr r) v i h = forward-Extends r v i h
var-Extends null v i h = unchanged (λ g. Sent g null) i sent_null h
var-Extends (small n) v i h = unchanged (λ g. Sent g (small n)) i sent_small h
var-Extends (char n) v i h = unchanged (λ g. Sent g (char n)) i sent_char h
var-Extends (dptr f) v i h = unchanged (λ g. Sent g (dptr f)) i sent_dptr h

elem-Extends :
    {z s t : Gc} {p : ℕ} {bs : List ℕ} (x y : Value)
    → Inv z p bs s
    → copy_elem x s ≡ done y t
    → Extends z s t p bs × Sent t.cells x y
unfolding copy_elem copy_neighbor_inner
elem-Extends (ptr r) v i h = forward-Extends r v i h
elem-Extends null v i h = absurd (ground (arith, h))
elem-Extends (small n) v i h = unchanged (λ g. Sent g (small n)) i sent_small h
elem-Extends (char n) v i h = unchanged (λ g. Sent g (char n)) i sent_char h
elem-Extends (dptr f) v i h = unchanged (λ g. Sent g (dptr f)) i sent_dptr h

elems_ptr-Extends :
    {z s t : Gc} {p : ℕ} {bs : List ℕ} (x y : Value)
    → Inv z p bs s
    → copy_elems_ptr x s ≡ done y t
    → Extends z s t p bs × Sent t.cells x y
unfolding copy_elems_ptr copy_neighbor_inner
elems_ptr-Extends (ptr r) v i h = forward-Extends r v i h
elems_ptr-Extends null v i h = unchanged (λ g. Sent g null) i sent_null h
elems_ptr-Extends (small n) v i h = absurd (ground (arith, h))
elems_ptr-Extends (char n) v i h = absurd (ground (arith, h))
elems_ptr-Extends (dptr f) v i h = absurd (ground (arith, h))

pub root-Copies : {z : Gc} → Copies z Sent copy_root_obj
root-Copies = record { later = Sent-Grows; copies = root-Extends }

var-Copies : {z : Gc} → Copies z Sent copy_var
var-Copies = record { later = Sent-Grows; copies = var-Extends }

elem-Copies : {z : Gc} → Copies z Sent copy_elem
elem-Copies = record { later = Sent-Grows; copies = elem-Extends }

-- A list handled from the front.
cons-Copies :
    {A : Type 0} {P : Heap → A → A → Type 0} {f : A → Step A} {rest : Step (List A)} {z s t : Gc}
    {p : ℕ} {bs : List ℕ} (Q : Heap → List A → Type 0) (k : Copies z P f) (x : A) (zs : List A)
    → Inv z p bs s
    → ((u v : Gc) (cs : List ℕ) (ys : List A)
        → Inv z p cs u
        → rest u ≡ done ys v
        → Extends z u v p cs × Q v.cells ys)
    → and_then (f x s) (λ y w. and_then (rest w) (λ ys. pure (y ∷ ys))) ≡ done zs t
    → (y : A) × (ys : List A) × Extends z s t p bs × P t.cells x y × Q t.cells ys × (y ∷ ys ≡ zs)
cons-Copies {f} {rest} {t} Q k x zs i below h =
    let (y, u, run, more) =
      from_done (f x _) (λ y w. and_then (rest w) (λ ys. pure (y ∷ ys))) zs t h in
    let (ys, run2, e) = mapped (rest u) (λ ys. y ∷ ys) zs t more in
    let (first, py) = k.copies x y i run in
    let (second, q) = below u t _ ys first.inv run2 in
    (y, ys, Extends-trans first second, k.later second.grows py, q, e)

Pairwise-Grows :
    {z : Gc} {A : Type 0} {P : Heap → A → A → Type 0} {f : A → Step A} {g h : Heap} {xs ys : List A}
    → Copies z P f
    → Grows g h
    → Pairwise (P g) xs ys
    → Pairwise (P h) xs ys
Pairwise-Grows k w pair_nil = pair_nil
Pairwise-Grows k w (pair_cons x y) = pair_cons (k.later w x) (Pairwise-Grows k w y)

each-Extends :
    {A : Type 0} {P : Heap → A → A → Type 0} {f : A → Step A} {z s t : Gc} {p : ℕ} {bs : List ℕ}
    (k : Copies z P f) (xs ys : List A)
    → Inv z p bs s
    → each f xs s ≡ done ys t
    → Extends z s t p bs × Pairwise (P t.cells) xs ys
unfolding each
each-Extends {P} k [] ys i h = unchanged (λ g. Pairwise (P g) []) i pair_nil h
each-Extends {P} {f} k (x ∷ xs) zs i h =
    let (y, ys, e, py, q, same) =
      cons-Copies {rest = each f xs} (λ g. Pairwise (P g) xs) k x zs i
        (λ u v cs ys j run. each-Extends k xs ys j run) h in
    (e, subst (Pairwise (P _) (x ∷ xs)) same (pair_cons py q))

pub each-Copies :
    {z : Gc} {A : Type 0} {P : Heap → A → A → Type 0} {f : A → Step A}
    → Copies z P f
    → Copies z (λ h. Pairwise (P h)) (each f)
each-Copies k = record { later = Pairwise-Grows k; copies = each-Extends k }

slots-Extends :
    {f : Value → Step Value} {z s t : Gc} {p : ℕ} {bs : List ℕ} (k : Copies z Sent f) (n : ℕ)
    (xs ys : List Value)
    → Inv z p bs s
    → copy_slots f n xs s ≡ done ys t
    → Extends z s t p bs × SlotsSent t.cells n xs ys
unfolding copy_slots
slots-Extends k zero xs ys i h = unchanged (λ g. SlotsSent g 0 xs) i sent_rest h
slots-Extends k (suc n) [] ys i h = absurd (ground (arith, h))
slots-Extends {f} k (suc n) (x ∷ xs) zs i h =
    let (y, ys, e, py, q, same) =
      cons-Copies {rest = copy_slots f n xs} (λ g. SlotsSent g n xs) k x zs i
        (λ u v cs ys j run. slots-Extends k n xs ys j run) h in
    (e, subst (SlotsSent _ (suc n) (x ∷ xs)) same (sent_more py q))

inst_vars-Extends :
    {z s t : Gc} {p : ℕ} {bs : List ℕ} (n : Option ℕ) (xs ys : List Value)
    → Inv z p bs s
    → copy_inst_vars n xs s ≡ done ys t
    → (m : ℕ) × (n ≡ some m) × Extends z s t p bs × SlotsSent t.cells m xs ys
unfolding copy_inst_vars
inst_vars-Extends none xs ys i h = absurd (ground (arith, h))
inst_vars-Extends (some n) xs ys i h =
    let (e, q) = slots-Extends var-Copies n xs ys i h in (n, refl, e, q)

-- The fields of an object, whatever its type.
pub fields-Extends :
    {z s t : Gc} {p : ℕ} {bs : List ℕ} (n : Option ℕ) (b c : Body)
    → Inv z p bs s
    → copy_fields n b s ≡ done c t
    → Extends z s t p bs × BodySent t.cells n b c
unfolding copy_fields
fields-Extends n State.nil c i h = absurd (ground (arith, h))
fields-Extends n (State.int v) c i h = unchanged (λ g. BodySent g n (State.int v)) i sent_int h
fields-Extends n (State.str v) c i h = unchanged (λ g. BodySent g n (State.str v)) i sent_str h
fields-Extends n (State.sym v) c i h = unchanged (λ g. BodySent g n (State.sym v)) i sent_sym h
fields-Extends n (State.file o f) c i h =
    unchanged (λ g. BodySent g n (State.file o f)) i sent_file h
fields-Extends n State.term c i h = unchanged (λ g. BodySent g n State.term) i sent_term h
fields-Extends n (State.exinfo o f) c i h = absurd (ground (arith, h))
fields-Extends {s} {t} n (State.arr len k x) c i h =
    let (y, run, e) = mapped (copy_elems_ptr x s) (State.arr len k) c t h in
    let (w, q) = elems_ptr-Extends x y i run in (w, subst (BodySent _ n _) e (sent_arr q))
fields-Extends {s} {t} n (State.arr_objs len k xs) c i h =
    let (ys, run, e) = mapped (copy_slots copy_elem len xs s) (State.arr_objs len k) c t h in
    let (w, q) = slots-Extends elem-Copies len xs ys i run in
    (w, subst (BodySent _ n _) e (sent_arr_objs q))
fields-Extends {s} {t} n (State.expt o x) c i h =
    let (y, run, e) = mapped (copy_var x s) (State.expt o) c t h in
    let (w, q) = var-Extends x y i run in (w, subst (BodySent _ n _) e (sent_expt q))
fields-Extends {s} {t} n (State.udo o xs) c i h =
    let (ys, run, e) = mapped (copy_inst_vars n xs s) (State.udo o) c t h in
    let (m, vars, w, q) = inst_vars-Extends n xs ys i run in
    (w, subst (BodySent _ n _) e (sent_udo vars q))
