-- ===== src/Compiler/Tabsym/Grows.antt =====
-- Every declaration in a class (deklProm, deklKonst and deklMethod of compiler/tabsym.cpp) and the
-- layout of the class.
use nesrotom_run.Base.{
  ℕ, ◌+◌, ◌^◌, ◌<◌, ◌≡◌, refl, ap, Option, none, some, List, ◌∷◌, Bool, true, false, arith, subst,
}
use mathlib.Core.Option.{some-injective}
use nesrotom_run.State.{Bytes}
use nesrotom_run.Compiler.Tabsym.Lookup.{taken-some}
use nesrotom_run.Compiler.Emit.{Bcout, Emit, and_then, pure, ◌>>=◌, bco_int, bco_str}
use nesrotom_run.Compiler.Tabsym.{
  DruhId, PrvekTab, MethodEnv, ClassEnv, find_method, id_const_num, id_const_str,
}
use nesrotom_run.Compiler.Tabsym.Declare.{
  Env, variable, next_addr, add_variable, add_to_class, unless_taken, declared, dekl_prom,
  dekl_method, dekl_konst_num, dekl_konst_str, konst_num_in, konst_str_in, unless_declared,
  add_class_constant, add_local_num, add_local_str, constant,
}
use nesrotom_run.Compiler.Tabsym.Layout.{
  Slots, slots_cons, slots_other, Slots-weaken, is_class, is_instance, LaidClass, Roomy,
}

-- A new entry at the counter.
Slots-new :
    {P : PrvekTab → Bool} {low n : ℕ} {xs : List PrvekTab} (x : PrvekTab)
    → P x ≡ true
    → x.addr ≡ n
    → n + 1 < 2 ^ 32
    → Slots P low n xs
    → Slots P low (next_addr n) (x ∷ xs)
Slots-new x p e r s = slots_cons p (omega (arith, e, r)) (Slots-weaken s (omega (arith, e)))

add_to_class-Laid :
    {low : ℕ × ℕ} (id : Bytes) (is_static : Bool) (ce : ClassEnv)
    → Roomy ce
    → LaidClass low ce
    → LaidClass low (add_to_class id is_static ce)
unfolding add_to_class variable is_class is_instance
add_to_class-Laid id true ce r k = record {
  class_slots = Slots-new _ refl refl r.class_room k.class_slots;
  obj_slots = slots_other refl k.obj_slots;
}
add_to_class-Laid id false ce r k = record {
  class_slots = slots_other refl k.class_slots;
  obj_slots = Slots-new _ refl refl r.obj_room k.obj_slots;
}

add_class_constant-Laid :
    {low : ℕ × ℕ} (id : Bytes) (druh : DruhId) (ce : ClassEnv) (k : ℕ)
    → Roomy ce
    → LaidClass low ce
    → LaidClass low (add_class_constant id druh ce k)
unfolding add_class_constant constant is_class is_instance
add_class_constant-Laid id druh ce c r k = record {
  class_slots = Slots-new _ refl refl r.class_room k.class_slots;
  obj_slots = slots_other refl k.obj_slots;
}

-- Every declaration keeps the name of the parent.
pub record Grown (low : ℕ × ℕ) (ce ce' : ClassEnv) : Type 0 where
  pub laid : LaidClass low ce'
  pub parent_same : ce'.parent ≡ ce.parent

add_to_class-parent :
    (id : Bytes) (is_static : Bool) (ce : ClassEnv)
    → (add_to_class id is_static ce).parent ≡ ce.parent
unfolding add_to_class
add_to_class-parent id true ce = refl
add_to_class-parent id false ce = refl

variable-Grown :
    {low : ℕ × ℕ} (id : Bytes) (arg is_static : Bool) (ce : ClassEnv) (mth : Option MethodEnv)
    → Roomy ce
    → LaidClass low ce
    → Grown low ce (add_variable id arg is_static ce mth).cls
unfolding add_variable
variable-Grown id arg is_static ce (some me) r k = record { laid = k; parent_same = refl }
variable-Grown id arg is_static ce none r k = record {
  laid = add_to_class-Laid id is_static ce r k;
  parent_same = add_to_class-parent id is_static ce;
}

pub prom-Grown :
    {low : ℕ × ℕ} (id : Bytes) (arg is_static : Bool) (ce : ClassEnv) (mth : Option MethodEnv)
    (e : Env)
    → Roomy ce
    → LaidClass low ce
    → dekl_prom id arg is_static (record { cls = ce; mth = mth }) ≡ some e
    → Grown low ce e.cls
unfolding dekl_prom
prom-Grown {low} id arg is_static ce mth e r k h =
    let (_, same) =
      taken-some (declared id (record { cls = ce; mth = mth }))
        (add_variable id arg is_static ce mth) e h in
    subst (λ q. Grown low ce q.cls) same (variable-Grown id arg is_static ce mth r k)

constant-Grown :
    {low : ℕ × ℕ} (id : Bytes) (druh : DruhId) (ce : ClassEnv) (c : ℕ)
    → Roomy ce
    → LaidClass low ce
    → Grown low ce (add_class_constant id druh ce c)
unfolding add_class_constant
constant-Grown id druh ce c r k = record {
  laid = add_class_constant-Laid id druh ce c r k;
  parent_same = refl;
}

emit_result :
    (o : Option (ℕ × Bcout)) (f : ℕ → Env) (e : Env) (b' : Bcout)
    → and_then o (λ c. pure (f c)) ≡ some (e, b')
    → (c : ℕ) × (f c ≡ e)
emit_result none f e b' h = absurd (ground (arith, h))
emit_result (some (c, b)) f e b' h = (c, ap (λ q. q.0) (some-injective _ _ h))

emitted :
    (m : Emit ℕ) (f : ℕ → Env) (b : Bcout) (e : Env) (b' : Bcout)
    → (do c ← m; pure (f c)) b ≡ some (e, b')
    → (c : ℕ) × (f c ≡ e)
emitted m f b e b' h = emit_result (m b) f e b' h

konst_num_in-Grown :
    {low : ℕ × ℕ} (id : Bytes) (val : ℕ) (is_static : Bool) (ce : ClassEnv) (mth : Option MethodEnv)
    (e : Env) (b b' : Bcout)
    → Roomy ce
    → LaidClass low ce
    → konst_num_in id val is_static ce mth b ≡ some (e, b')
    → Grown low ce e.cls
unfolding konst_num_in
konst_num_in-Grown {low} id val is_static ce (some me) e b b' r k h =
    let (c, same) =
      emitted (bco_int val) (λ c. record { cls = ce; mth = some (add_local_num id val me c) }) b e
        b' h in
    subst (λ q. Grown low ce q.cls) same (record { laid = k; parent_same = refl })
konst_num_in-Grown id val false ce none e b b' r k h = absurd (ground (arith, h))
konst_num_in-Grown {low} id val true ce none e b b' r k h =
    let (c, same) =
      emitted (bco_int val)
        (λ c. record { cls = add_class_constant id (id_const_num val) ce c; mth = none }) b e b'
        h in
    subst (λ q. Grown low ce q.cls) same (constant-Grown id (id_const_num val) ce c r k)

konst_str_in-Grown :
    {low : ℕ × ℕ} (id : Bytes) (val : Bytes) (is_static : Bool) (ce : ClassEnv)
    (mth : Option MethodEnv) (e : Env) (b b' : Bcout)
    → Roomy ce
    → LaidClass low ce
    → konst_str_in id val is_static ce mth b ≡ some (e, b')
    → Grown low ce e.cls
unfolding konst_str_in
konst_str_in-Grown {low} id val is_static ce (some me) e b b' r k h =
    let (c, same) =
      emitted (bco_str val) (λ c. record { cls = ce; mth = some (add_local_str id val me c) }) b e
        b' h in
    subst (λ q. Grown low ce q.cls) same (record { laid = k; parent_same = refl })
konst_str_in-Grown id val false ce none e b b' r k h = absurd (ground (arith, h))
konst_str_in-Grown {low} id val true ce none e b b' r k h =
    let (c, same) =
      emitted (bco_str val)
        (λ c. record { cls = add_class_constant id (id_const_str val) ce c; mth = none }) b e b'
        h in
    subst (λ q. Grown low ce q.cls) same (constant-Grown id (id_const_str val) ce c r k)

undeclared :
    {A : Type 0} (o : Option PrvekTab) (m : Emit A) (b : Bcout) (r : A × Bcout)
    → unless_declared o m b ≡ some r
    → m b ≡ some r
unfolding unless_declared
undeclared none m b r h = h
undeclared (some p) m b r h = absurd (ground (arith, h))

pub num-Grown :
    {low : ℕ × ℕ} (id : Bytes) (val : ℕ) (is_static : Bool) (ce : ClassEnv) (mth : Option MethodEnv)
    (e : Env) (b b' : Bcout)
    → Roomy ce
    → LaidClass low ce
    → dekl_konst_num id val is_static (record { cls = ce; mth = mth }) b ≡ some (e, b')
    → Grown low ce e.cls
unfolding dekl_konst_num
num-Grown id val is_static ce mth e b b' r k h =
    konst_num_in-Grown id val is_static ce mth e b b' r k (
      undeclared (declared id (record { cls = ce; mth = mth }))
        (konst_num_in id val is_static ce mth) b (e, b') h)

pub str-Grown :
    {low : ℕ × ℕ} (id : Bytes) (val : Bytes) (is_static : Bool) (ce : ClassEnv)
    (mth : Option MethodEnv) (e : Env) (b b' : Bcout)
    → Roomy ce
    → LaidClass low ce
    → dekl_konst_str id val is_static (record { cls = ce; mth = mth }) b ≡ some (e, b')
    → Grown low ce e.cls
unfolding dekl_konst_str
str-Grown id val is_static ce mth e b b' r k h =
    konst_str_in-Grown id val is_static ce mth e b b' r k (
      undeclared (declared id (record { cls = ce; mth = mth }))
        (konst_str_in id val is_static ce mth) b (e, b') h)

with_method-Grown :
    {low : ℕ × ℕ} {A : Type 0} (o : Option A) (ce ce' d : ClassEnv) (me me' : MethodEnv)
    → Grown low ce d
    → unless_taken {B = ClassEnv × MethodEnv} o (d, me) ≡ some (ce', me')
    → Grown low ce ce'
with_method-Grown {low} o ce ce' d me me' g h =
    let (_, same) = taken-some o (d, me) (ce', me') h in subst (Grown low ce) (ap (λ q. q.0) same) g

pub method-Grown :
    {low : ℕ × ℕ} (name : Bytes) (constructor is_static : Bool) (ce ce' : ClassEnv) (me : MethodEnv)
    → LaidClass low ce
    → dekl_method name constructor is_static ce ≡ some (ce', me)
    → Grown low ce ce'
unfolding dekl_method
method-Grown name true true ce ce' me k h =
    with_method-Grown ce.static_init ce ce' _ _ me
      (record {
        laid = record { class_slots = k.class_slots; obj_slots = k.obj_slots };
        parent_same = refl;
      })
      h
method-Grown name true false ce ce' me k h =
    with_method-Grown ce.constructor ce ce' _ _ me
      (record {
        laid = record { class_slots = k.class_slots; obj_slots = k.obj_slots };
        parent_same = refl;
      })
      h
method-Grown name false is_static ce ce' me k h =
    with_method-Grown (find_method name ce.methods) ce ce' _ _ me
      (record {
        laid = record { class_slots = k.class_slots; obj_slots = k.obj_slots };
        parent_same = refl;
      })
      h
