-- ===== src/Correct.antt =====
-- What generated code does on the interpreter: compiler/generator.c against
-- backend/asm_instructions.S, joined by the words of the bytecode file.
pub mod Steps
pub mod Exprs
pub mod Generated
pub mod Jumps
pub mod Semantics
pub mod Reaches
pub mod Stmts
pub mod Jumping
pub mod Branches
pub mod Loops
pub mod Programs
pub mod Tests
