-- ===== src/State/Samples.antt =====
-- A machine for the tests of the components.
use nesrotom_run.Base.{[], none}
use nesrotom_run.State.{Vm, null}

-- A machine with nothing loaded.
abbrev pub empty_vm : Vm
empty_vm = record {
  classes = [];
  consts = λ _. none;
  heap = λ _. none;
  used = 0;
  bc_arr = λ _. none;
  cache = λ _. none;
  stack = λ _. null;
  sp = 0;
  ap = 0;
  fp = 0;
  ip = 0;
  out = [];
}
