-- ===== src/Backend/Key.antt =====
-- The key: bits of words (Bits), SHA-256 as backend/bispe_sha.c computes it (Sha), and password_store
-- and hash_show of backend/bispe_key.c (Store), with the password that counts (Passwords).
pub mod Bits
pub mod Sha
pub mod Store
pub mod Passwords
mod Tests
