-- ===== src/Backend/Memory/Chain.antt =====
-- Encrypted memory against its decrypted contents: what the interpreter reads is what it has written.
use bispe.Base.{
  ℕ, zero, suc, ◌+◌, ◌≤◌, ◌<◌, ◌≡◌, ◌≢◌, refl, ◌∙◌, arith, false, ◌==◌, ==_refl, if◌then◌else◌,
}
use mathlib.Core.Path.{ap₂, subst}
use native.Mathlib.Decide.{ℕ_discrete, dec_lt}
use bispe.Backend.Memory.Cbc.{
  Cipher, IsCipher, write, decrypt_memory_cbc, encrypt_reg_cbc, encrypt_loop, encrypt_reg_cbc_chain,
}

module _ {Block : Type 0} (c : Cipher Block) (laws : IsCipher c) where
  -- A block that was encrypted over `b`, decrypted over `b`.
  pub xor-decblk-encblk : (a b : Block) → c.xor (c.decblk (c.encblk (c.xor a b))) b ≡ a
  xor-decblk-encblk a b = rw (laws.decblk-encblk (c.xor a b)) (laws.xor-xor a b)

  pub write_self : (mem : ℕ → Block) (i : ℕ) (b : Block) → write c mem i b i ≡ b
  write_self mem i b = ground arith

  pub write_ne : (mem : ℕ → Block) (i j : ℕ) (b : Block) → i ≢ j → write c mem i b j ≡ mem j
  write_ne mem i j b h = ground arith

  encrypt_loop-below :
      (n : ℕ) (mem : ℕ → Block) (dest j : ℕ) (r : Block)
      → j < dest
      → encrypt_loop c n mem dest r j ≡ mem j
  unfolding encrypt_loop
  encrypt_loop-below zero mem dest j r h = ground arith
  encrypt_loop-below (suc n) mem dest j r h =
      encrypt_loop-below n (write c mem dest r) (suc dest) j
        (c.encblk (c.xor (c.xor (c.decblk (mem (suc dest))) (mem dest)) r)) (omega arith)
      ∙ write_ne mem dest j r (omega arith)

  encrypt_loop-dest :
      (n : ℕ) (mem : ℕ → Block) (dest : ℕ) (r : Block) → encrypt_loop c n mem dest r dest ≡ r
  unfolding encrypt_loop
  encrypt_loop-dest zero mem dest r = write_self mem dest r
  encrypt_loop-dest (suc n) mem dest r =
      encrypt_loop-below n (write c mem dest r) (suc dest) dest
        (c.encblk (c.xor (c.xor (c.decblk (mem (suc dest))) (mem dest)) r)) (omega arith)
      ∙ write_self mem dest r

  -- The lines behind `dest`, up to the last one of the loop, keep their contents.
  encrypt_loop-behind :
      (n : ℕ) (mem : ℕ → Block) (dest j : ℕ) (r : Block)
      → dest ≤ j
      → j < dest + n
      → decrypt_memory_cbc c (encrypt_loop c n mem dest r) j ≡ decrypt_memory_cbc c mem j
  unfolding encrypt_loop decrypt_memory_cbc
  encrypt_loop-behind zero mem dest j r h l = absurd (omega arith)
  encrypt_loop-behind (suc n) mem dest j r h l =
      let next : Block = c.encblk (c.xor (c.xor (c.decblk (mem (suc dest))) (mem dest)) r) in
      let mem' : ℕ → Block = write c mem dest r in
      elim (ℕ_discrete dest j) [
        | yes e ↦
            subst
              (λ j.
                decrypt_memory_cbc c (encrypt_loop c n mem' (suc dest) next) j
                ≡ decrypt_memory_cbc c mem j)
              e
              (ap₂ (λ a b. c.xor (c.decblk a) b) (encrypt_loop-dest n mem' (suc dest) next)
                  (encrypt_loop-below n mem' (suc dest) dest next (omega arith)
                    ∙ write_self mem dest r)
                ∙ xor-decblk-encblk (c.xor (c.decblk (mem (suc dest))) (mem dest)) r)
        | no e ↦
            encrypt_loop-behind n mem' (suc dest) j next (omega arith) (omega arith)
            ∙ ap₂ (λ a b. c.xor (c.decblk a) b) (write_ne mem dest (suc j) r (omega arith))
                (write_ne mem dest j r e)
      ]

  -- Let a segment be written at the line `i` of its contents, with the `n` lines behind it encrypted
  -- again, by a cipher whose decryption undoes its encryption. Then each line up to the last of
  -- these decrypts to what it was, and the line `i` to what was written.
  pub decrypt_memory_cbc-encrypt_reg_cbc_chain :
      (src : Block) (mem : ℕ → Block) (i n j : ℕ)
      → j ≤ i + n
      → decrypt_memory_cbc c (encrypt_reg_cbc_chain c src mem i n) j
        ≡ (if j == i then src else decrypt_memory_cbc c mem j)
  unfolding encrypt_reg_cbc_chain decrypt_memory_cbc
  decrypt_memory_cbc-encrypt_reg_cbc_chain src mem i n j h =
      let r : Block = c.encblk (c.xor src (mem i)) in
      elim (ℕ_discrete j i) [
        | yes e ↦ rw e (
            rw (==_refl i) (
              ap₂ (λ a b. c.xor (c.decblk a) b) (encrypt_loop-dest n mem (suc i) r)
                (encrypt_loop-below n mem (suc i) i r (omega arith))
              ∙ xor-decblk-encblk src (mem i)))
        | no e ↦
            let ne : (j == i) ≡ false = ground arith in
            rw ne (elim (dec_lt j i) [
              | yes lt ↦
                  ap₂ (λ a b. c.xor (c.decblk a) b)
                    (encrypt_loop-below n mem (suc i) (suc j) r (omega arith))
                    (encrypt_loop-below n mem (suc i) j r (omega arith))
              | no ge ↦ encrypt_loop-behind n mem (suc i) j r (omega arith) (omega arith)
            ])
      ]

  -- The line on top of the stack has none behind it.
  pub encrypt_reg_cbc-chain :
      (src : Block) (mem : ℕ → Block) (i : ℕ)
      → encrypt_reg_cbc c src mem i ≡ encrypt_reg_cbc_chain c src mem i 0
  unfolding encrypt_reg_cbc encrypt_reg_cbc_chain
  encrypt_reg_cbc-chain src mem i = refl
