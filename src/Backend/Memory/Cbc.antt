-- ===== src/Backend/Memory/Cbc.antt =====
-- Lines of memory in CBC mode. Line 0 of a segment is its initialisation vector, so that line `i` of
-- its contents is at `suc i`.
use bispe.Base.{ℕ, zero, suc, ◌≡◌, ◌==◌, if◌then◌else◌}

-- `encblk`, `decblk` and `vpxor` on blocks of 128 bits.
pub record Cipher (Block : Type 0) : Type 0 where
  pub encblk : Block → Block
  pub decblk : Block → Block
  pub xor : Block → Block → Block

-- Decryption undoes encryption, and the exclusive or undoes itself.
pub record IsCipher {Block : Type 0} (c : Cipher Block) : Type 0 where
  pub decblk-encblk : (b : Block) → c.decblk (c.encblk b) ≡ b
  pub xor-xor : (a b : Block) → c.xor (c.xor a b) b ≡ a

module _ {Block : Type 0} (c : Cipher Block) where
  abbrev pub write : (ℕ → Block) → ℕ → Block → ℕ → Block
  write mem i b j = if i == j then b else mem j

  unfoldable pub decrypt_memory_cbc : (ℕ → Block) → ℕ → Block
  decrypt_memory_cbc mem i = c.xor (c.decblk (mem (suc i))) (mem i)

  unfoldable pub encrypt_reg_cbc : Block → (ℕ → Block) → ℕ → ℕ → Block
  encrypt_reg_cbc src mem i = write mem (suc i) (c.encblk (c.xor src (mem i)))

  -- The loop at the label 8: `n` lines are left up to the last one, `dest` is where the encrypted
  -- block in `rstate` belongs.
  unfoldable pub encrypt_loop : ℕ → (ℕ → Block) → ℕ → Block → ℕ → Block
  encrypt_loop zero mem dest rstate = write mem dest rstate
  encrypt_loop (suc n) mem dest rstate =
      encrypt_loop n (write mem dest rstate) (suc dest)
        (c.encblk (c.xor (c.xor (c.decblk (mem (suc dest))) (mem dest)) rstate))

  -- A line is written, and the `n` lines behind it are encrypted again.
  unfoldable pub encrypt_reg_cbc_chain : Block → (ℕ → Block) → ℕ → ℕ → ℕ → Block
  unfolding encrypt_loop
  encrypt_reg_cbc_chain src mem i n = encrypt_loop n mem (suc i) (c.encblk (c.xor src (mem i)))
