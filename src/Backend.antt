-- ===== src/Backend.antt =====
-- The kernel module (backend/): the bytecode interpreter and its environment.
pub mod Vm
pub mod Session
pub mod Memory
pub mod Key
pub mod Tests
