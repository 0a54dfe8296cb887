-- ===== src/Compiler.antt =====
-- The compiler, compiler/: the scanner, the syntax tree and its optimisation, the translation to
-- bytecode, and the output that the translation writes.
pub mod Lexan
pub mod Tree
pub mod Tabsym
pub mod Bc
pub mod Emit
pub mod Translate
pub mod Optimize
mod Tests
