-- ===== src/Execute/Tests.antt =====
-- Instructions at concrete machines.
use nesrotom_run.Base.{◌≡◌, refl, true, false, none, some, [], ◌∷◌, arith}
use nesrotom_run.State.{
  Method, Class, bc_addr, alloc_udo, Vm, ok, TryRange, Object, exinfo, null, ptr, const_ref, small,
  sub32,
}
use nesrotom_run.Frame.{int_lt}
use nesrotom_run.State.Memory.{update}
use nesrotom_run.State.Samples.{empty_vm}
use nesrotom_run.Classes.{find_method_in_class, climb, own_method, find_method, bytes_eq}
use nesrotom_run.Execute.Calls.{look_up, resolve}
use nesrotom_run.Execute.Throw.{Unwound, vm_throw_obj}
use nesrotom_run.Execute.Throw.Handlers.{
  Catches, here, up, no_table, this_one, throw_point, in_handler, vm_throw_obj-Catches,
}
use nesrotom_run.Execute.Calls.Caching.{cached, SameOutcome}
use nesrotom_run.Execute.Calls.History.{called, fresh, resolve-History}
use nesrotom_run.Execute.Calls.Coherence.{resolve-again}

abbrev get_method : Method
get_method = record {
  name = 103 ∷ [];
  entry = bc_addr 30;
  args_cnt = 1;
  locals_cnt = 0;
  is_static = 1;
}

abbrev box_class : Class
box_class = record {
  name = 66 ∷ [];
  parent = none;
  methods = get_method ∷ [];
  allocator = some alloc_udo;
  constructor = none;
  static_init = none;
  syms_static = [];
  total_syms_instance_cnt = 0;
  syms_instance = [];
  syms_instance_offset = 0;
  parent_name = none;
}

abbrev vm : Vm
vm = record empty_vm { classes = box_class ∷ [] }

-- The first call of `g` at the site 8.
first_call : resolve 1 8 0 (103 ∷ []) true 1 vm ≡ ok get_method (cached 8 0 get_method vm)
unfolding resolve look_up cached find_method_in_class climb own_method find_method bytes_eq
first_call = refl

-- The second call, which the cache answers.
resolve-History_example :
    SameOutcome 8 0
      (cached 8 0 get_method vm)
      (look_up 1 0 (103 ∷ []) true 1 (cached 8 0 get_method vm))
      (resolve 1 8 0 (103 ∷ []) true 1 (cached 8 0 get_method vm))
resolve-History_example =
    resolve-History 1 8 0 (103 ∷ []) true 1 (cached 8 0 get_method vm)
      (called 0 get_method (fresh refl) first_call)

-- A call of the static method from an instance, with two arguments too many.
resolve-again_example :
    resolve 1 8 0 (103 ∷ []) false 3 (cached 8 0 get_method vm)
    ≡ ok get_method (cached 8 0 get_method vm)
resolve-again_example =
    resolve-again 1 1 8 0 (103 ∷ []) (103 ∷ []) true false 1 3 vm (cached 8 0 get_method vm)
      get_method first_call

-- A frame called from one with a try block at the addresses 10 to 20; the callee throws.
abbrev try_block : TryRange
try_block = record { try_addr = 10; catch_addr = 20 }

abbrev table : Object
table = record { cls = none; body = exinfo null (try_block ∷ []) }

abbrev thrower : Vm
thrower = record empty_vm {
  consts = update (λ _. none) 64 (some table);
  stack =
      update (update (update (update (λ _. null) 4 (ptr (const_ref 64))) 8 (small 15)) 9 (small 0))
        10 (small 4);
  fp = 11;
  ap = 7;
  sp = 12;
  ip = 40;
}

abbrev catcher : Unwound
catcher = record { ap = 0; fp = 4; sp = 7; ret_addr = 15 }

thrower-Catches : Catches thrower 1 (throw_point thrower) catcher 64 (try_block ∷ []) try_block
unfolding throw_point sub32 int_lt
thrower-Catches =
    up (no_table refl)
      (record {
        ret_cell = refl;
        ap_cell = refl;
        fp_cell = refl;
        sp_left = refl;
        bytecode = ground arith;
        has_cells = omega arith;
        fits = omega arith;
      })
      (here {o = table} (omega arith) (record { cell = refl; const = refl; blocks = refl })
        (this_one refl))

vm_throw_obj-Catches_example :
    (o : Object) × (thrower.consts 64 ≡ some o)
    × (vm_throw_obj 2 (small 3) thrower
        ≡ ok tt (in_handler catcher 64 o (try_block ∷ []) try_block (small 3) thrower))
    × ((in_handler catcher 64 o (try_block ∷ []) try_block (small 3) thrower).consts 64
        ≡ some (record o { body = exinfo (small 3) (try_block ∷ []) }))
vm_throw_obj-Catches_example =
    vm_throw_obj-Catches thrower 2 1 catcher 64 (try_block ∷ []) try_block (small 3) thrower-Catches
      (omega arith)
