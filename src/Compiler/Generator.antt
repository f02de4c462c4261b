-- ===== src/Compiler/Generator.antt =====
-- compiler/generator.c: code generation with back-patched jumps. The list linked by `next` is a
-- list, a pointer to an element is its position, and `current` is the last element. The counters,
-- `int` in C, do not overflow.
pub mod Defs
pub mod Exprs
pub mod Jumps
pub mod Statements
pub mod Stmts
pub mod Compiles
pub mod Functions
