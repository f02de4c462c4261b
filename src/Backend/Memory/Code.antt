-- ===== src/Backend/Memory/Code.antt =====
-- What encrypt_code makes of a code buffer is what the interpreter decrypts.
use mathlib.Core.Path.{ap₂, subst}
use native.Mathlib.Decide.{ℕ_discrete}
use bispe.Base.{
  ℕ, zero, suc, ◌+◌, ◌-◌, ◌/◌, ◌%◌, ◌≤◌, ◌<◌, ◌≡◌, refl, ◌∙◌, arith, true, some, returned,
}
use bispe.Backend.Session.Kernel.{Kernel, Env, vmalloc, vfree, remove, set_at}
use bispe.Backend.Memory.Cbc.{Cipher, IsCipher, write, decrypt_memory_cbc}
use bispe.Backend.Memory.Chain.{xor-decblk-encblk, write_self, write_ne}
use bispe.Backend.Memory.Encrypt.{encrypt_lines, encrypt_code}

module _ {Block : Type 0} (c : Cipher Block) (laws : IsCipher c) where
  encrypt_lines-below : (n i j : ℕ) (code : ℕ → Block) → j ≤ i → encrypt_lines c n i code j ≡ code j
  unfolding encrypt_lines
  encrypt_lines-below zero i j code h = refl
  encrypt_lines-below (suc n) i j code h =
      let b : Block = c.encblk (c.xor (code (suc i)) (code i)) in
      encrypt_lines-below n (suc i) j (write c code (suc i) b) (omega arith)
      ∙ write_ne c laws code (suc i) j b (omega arith)

  decrypt-encrypt_lines :
      (n i j : ℕ) (code : ℕ → Block)
      → i ≤ j
      → j < i + n
      → decrypt_memory_cbc c (encrypt_lines c n i code) j ≡ code (suc j)
  unfolding encrypt_lines decrypt_memory_cbc
  decrypt-encrypt_lines zero i j code h l = absurd (omega arith)
  decrypt-encrypt_lines (suc n) i j code h l =
      let b : Block = c.encblk (c.xor (code (suc i)) (code i)) in
      let code' : ℕ → Block = write c code (suc i) b in
      elim (ℕ_discrete i j) [
        | yes e ↦
            subst (λ j. decrypt_memory_cbc c (encrypt_lines c n (suc i) code') j ≡ code (suc j)) e
              (ap₂ (λ a b. c.xor (c.decblk a) b)
                  (encrypt_lines-below n (suc i) (suc i) code' (omega arith)
                    ∙ write_self c laws code (suc i) b)
                  (encrypt_lines-below n (suc i) i code' (omega arith)
                    ∙ write_ne c laws code (suc i) i b (omega arith))
                ∙ xor-decblk-encblk c laws (code (suc i)) (code i))
        | no e ↦
            decrypt-encrypt_lines n (suc i) j code' (omega arith) (omega arith)
            ∙ write_ne c laws code (suc i) (suc j) b (omega arith)
      ]

  -- Called with a structure of sixteen bytes for a buffer of whole lines, where the allocation and
  -- the copy succeed, the hook returns the size of the buffer and lines whose first one, the
  -- initialisation vector, is that of the buffer, and whose others are decrypted in CBC mode to
  -- those of the buffer; it frees what it has allocated.
  pub decrypt-encrypt_code :
      (env : Env) (code : ℕ → Block) (size : ℕ) (k : Kernel)
      → size % 16 ≡ 0
      → env.alloc k.calls size ≡ true
      → (lines : ℕ → Block) × (k' : Kernel) × (encrypt_code c env (some code) size 16 k
          ≡ returned ((size, some lines), k'))
        × (k'.live ≡ k.live)
        × (lines 0 ≡ code 0)
        × ((j : ℕ) → j < size / 16 - 1 → decrypt_memory_cbc c lines j ≡ code (suc j))
  unfolding encrypt_code vmalloc vfree remove
  decrypt-encrypt_code env code size k aligned allocated = (
    encrypt_lines c (size / 16 - 1) 0 code,
    record k { calls = k.calls + 1; sizes = set_at k.sizes k.calls size },
    ground arith,
    refl,
    encrypt_lines-below (size / 16 - 1) 0 0 code (omega arith),
    λ j h. decrypt-encrypt_lines (size / 16 - 1) 0 j code (omega arith) (omega arith),
  )
