-- ===== src/Backend/Session.antt =====
-- backend/bispe_interpreter.c and the part of backend/bispe_main.c that runs a program: memory of
-- the kernel (Kernel), the context of a run (Context), its cycles (Cycles), and the hook that user
-- space calls (Invoke).
pub mod Kernel
pub mod Context
pub mod Cycles
pub mod Invoke
pub mod Runs
pub mod Prints
pub mod Frees
pub mod Hook
pub mod Results
