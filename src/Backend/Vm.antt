-- ===== src/Backend/Vm.antt =====
-- The bytecode interpreter of backend/asm_instructions.S, with the state of
-- backend/asm_state_macros.S. The segments are their decrypted contents, addressed in words: the
-- line registers and the encryption of memory lines are not part of this model. The segments are
-- aligned to 16 bytes, and nothing is read from outside a segment but code.
pub mod Defs
pub mod Exec
pub mod Segments
pub mod Runs
