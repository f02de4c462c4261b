-- ===== src/Frontend.antt =====
-- The program that runs bytecode files (frontend/bispe.c): numbers on its command line (Numbers), its
-- options and arguments (Arguments), and its main with what it shows (Main);
-- Passwords is what it makes of a typed password.
pub mod Numbers
pub mod Arguments
pub mod Main
pub mod Passwords
pub mod Hook
mod Tests
