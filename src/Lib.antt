-- ===== src/Lib.antt =====
-- A model of the virtual machine of .KEK-on-Rails (vm/), which loads a compiled program, a file of
-- classes, constants and bytecode, and interprets it; and of the compiler (compiler/): its scanner and
-- symbol table, the optimisation and translation of the syntax tree, and the output of that file.
--
-- The parts, and the files that model them:
--   Base        names and lemmas that all parts share
--   Word        the tags of a machine word (vm/types.h): IS_PTR, MAKE_CHAR, CHAR_VAL, MAKE_DPTR, ...
--   State       values, objects, classes and the machine's global variables (vm/types.h, vm/vm.h) as
--               the record Vm; a C function that changes them is a Cmd, which ends with a result and
--               a new Vm or with a Fault. State/Memory has allocation and INT_VAL
--   Frame       the stack and the calling sequences (vm/stack.h, vm/stack.c): stack_push, BC_CALL as
--               bc_call, BC_TCALL as bc_tcall, BC_RET as bc_ret
--   Classes     the class table (vm/vm.c): vm_find_class, the searches along the parents, and what
--               is computed after loading
--   Int32       the arithmetic of `int` on bit patterns below 2^32
--   Objects     type tests and the construction of strings and symbols
--   Operators   bc_bop of vm/vm.c
--   Array       vm/k_array.c and the elements of arrays in vm/memory.c
--   Execute     vm_execute_bc of vm/vm.c: exec_NAME is the case NAME of its switch; Execute/Calls has
--               the calls with their inline caches, Execute/Throw the exceptions
--   Collector   the collected heap of vm/memory.c under `-g new`: the two spaces and the sizes of
--               objects; Collector/Scavenge is gc_cheney_scavenge with gc_rootset, Collector/Malloc
--               gc_cheney_malloc, Collector/Rootset the registered variables, Collector/Remembered the
--               remember set. A C function is a Step on the record Gc. Invariant and
--               Layout state the invariant of a collection; Copied, Forward, Fields, Written,
--               Scanning and Roots are about the functions of a collection under it, Fueled and
--               Finishes about its end
--   Loader      vm/loader.c, kexe_load_NAME as load_NAME; Loader/Parts the classes and the whole file,
--               Loader/Writer the compiler's side
--   Compiler    Compiler/Lexan the scanner (compiler/lexan.cpp), readLexem as read_lexem;
--               Compiler/Tabsym the symbol table (compiler/tabsym.cpp), hledejNAME as hledej_name,
--               with the declarations in Compiler/Tabsym/Declare, deklNAME as dekl_name;
--               Compiler/Tree the nodes of compiler/strom.h, Compiler/Optimize and
--               Compiler/Translate their methods Optimize and Translate (compiler/strom.cpp), one
--               clause for each class; Compiler/Bc the opcodes and Compiler/Emit the functions bco_NAME
--               of compiler/bcout.cpp, on the record Bcout, with an Emit as a command that may crash
--
-- The interpreter reads instructions and operands from the bytecode, keeps its values in the stack
-- of Frame, finds methods in Classes, allocates through State/Memory, and leaves the functions of
-- native methods to a parameter `native` of Execute. The compiler's Translate writes through Emit
-- the bytecode that Execute runs; Compiler/Translate/Correct is about running it.
--
-- Choices. A word is a Value, which records what was stored: null, a reference, a small integer, a
-- character or a DPTR. The tags of vm/types.h do not tell a small integer from a DPTR, since some
-- words pass both tests; INT_VAL of a DPTR is a fault here. The machine of Execute is the one
-- without a collector (-g none): objects are allocated in one segment and do not move. Collector
-- has a state of its own, in which `heap_ref a` is the object at the address `a`; what a collection
-- left in the space that it emptied is no object any more when the next one begins. Registers,
-- counts and integers are bit patterns below 2^32, sums wrap. A machine word has 64 bits and is
-- stored with its low byte first. What C leaves undefined, a read outside an object or a value of
-- the wrong type, is the fault bad_access. vm_error ends the program.
--
-- Fuel. The searches along the parents take fuel, which is enough when it exceeds the rank of the
-- class in a numbering in which parents come first. The growth of an array takes one round of fuel
-- more than the elements that are missing, for a capacity of two or more and a length up to 2^29.
-- The search for a handler takes a round for each frame, the interpreter one for each instruction.
-- The scanner takes one round for each blank, comment or symbol; what writes past its buffer, a
-- string that is not closed among it, is an outcome of its own. A collection takes one round for
-- each copied object, and the size of a segment is enough.
--
-- Not modelled: the old space and its objects' states (vm/memory.c under `-g gen`) but for the
-- duplicates in its remember set, the native classes (files, terminal, time, the methods of
-- strings), printing for debugging, the compiler's parser (compiler/parser.cpp), and the growth of
-- its buffers. They are input and output or further components of their own.
pub mod Array
pub mod Base
pub mod Classes
pub mod Collector
pub mod Compiler
pub mod Execute
pub mod Frame
pub mod Int32
pub mod Loader
pub mod Objects
pub mod Operators
pub mod State
pub mod Word
