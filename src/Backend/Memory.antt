-- ===== src/Backend/Memory.antt =====
-- Encrypted memory: the macros of backend/asm_state_macros.S that read and write lines of 128 bits
-- in CBC mode, and encrypt_code of backend/bispe_main.c. The block cipher of
-- backend/bispe_crypto_asm.S, which consists of the AES instructions of the processor, is a
-- parameter.
pub mod Cbc
pub mod Encrypt
pub mod Chain
pub mod Code
