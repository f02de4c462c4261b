-- ===== src/Backend/Memory/Encrypt.antt =====
-- encrypt_code of backend/bispe_main.c. The buffer is its lines of 128 bits, the first of which is the
-- initialisation vector; what copy_from_user copies is a parameter, where none is a failed copy.
use bispe.Base.{
  ℕ, zero, suc, ◌-◌, ◌/◌, ◌*◌, ◌%◌, not, Option, none, some, ◌==◌, if◌then◌else◌, ◌>>=◌, ◌>>◌, pure,
}
use bispe.Backend.Session.Kernel.{Env, M, vmalloc, vfree}
use bispe.Backend.Memory.Cbc.{Cipher, write}

module _ {Block : Type 0} (c : Cipher Block) where
  -- The loop: `n` lines are left behind the line at `i`.
  unfoldable pub encrypt_lines : ℕ → ℕ → (ℕ → Block) → ℕ → Block
  encrypt_lines zero i code_buf = code_buf
  encrypt_lines (suc n) i code_buf =
      encrypt_lines n (suc i)
        (write c code_buf (suc i) (c.encblk (c.xor (code_buf (suc i)) (code_buf i))))

  -- The result of the hook, and the lines that are copied back, if they are.
  abbrev pub Encrypted : Type 0
  Encrypted = ℕ × Option (ℕ → Block)

  -- Behind copy_from_user. A failed copy leaves the block allocated.
  unfoldable pub encrypt_copied : ℕ → ℕ → Option (ℕ → Block) → M Encrypted
  unfolding encrypt_lines vfree
  encrypt_copied size block none = pure (0, none)
  encrypt_copied size block (some code_buf) = do
    vfree block
    pure (size, some (encrypt_lines (size / 16 - 1) 0 code_buf))

  -- Behind `vmalloc`.
  abbrev pub encrypt_block : ℕ → Option (ℕ → Block) → Option ℕ → M Encrypted
  encrypt_block size copied none = pure (0, none)
  encrypt_block size copied (some block) = encrypt_copied size block copied

  -- The hook: `count` bytes hold a structure of sixteen.
  unfoldable pub encrypt_code : Env → Option (ℕ → Block) → ℕ → ℕ → M Encrypted
  unfolding encrypt_copied vmalloc
  encrypt_code env copied size count =
      if count == 0
      then pure (0, none)
      else if not (count == 16)
      then pure (0, none)
      else if not (size % (4 * 4) == 0)
      then pure (0, none)
      else vmalloc env size >>= encrypt_block size copied
