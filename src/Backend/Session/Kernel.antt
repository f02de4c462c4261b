-- ===== src/Backend/Session/Kernel.antt =====
-- What the routines of the kernel module share: its memory, the static variables of
-- backend/bispe_interpreter.c and backend/bispe_main.c, and amalloc and afree.
use bispe.Base.{
  ℕ, ◌+◌, ◌-◌, Bool, Option, none, some, List, [], ◌∷◌, ◌==◌, if◌then◌else◌, Stateful, ◌>>=◌, pure,
  crash, change, deref, get_elem?,
}
use bispe.Backend.Vm.Defs.{Vm}

-- A pointer into a block that `vmalloc` has returned: the block, and an offset in words.
pub record Pointer : Type 0 where
  pub block : ℕ
  pub offset : ℕ

-- The interpreter in the memory of the kernel, with the flags that bispe_cycle_asm.S keeps. The
-- sizes in `vm` are the static `bispe_stack_seg_size` and its like.
pub record Machine : Type 0 where
  pub vm : Vm
  pub halt_flag : Bool
  pub error : ℕ

-- `calls` counts the allocations, and numbers the blocks; `live` are the blocks in use, `sizes` the
-- bytes that were asked for, `mem` the words of each block. `locked` is `interpreter_lock`,
-- `finish_count` the value of the semaphore `interpreter_finish_lock`.
pub record Kernel : Type 0 where
  pub calls : ℕ
  pub live : List ℕ
  pub sizes : ℕ → ℕ
  pub mem : ℕ → ℕ → ℕ
  pub machine : Machine
  pub locked : Bool
  pub finish_count : ℕ

-- The environment: which allocations succeed, by number and size; the words that copy_from_user
-- copies from an address, unless it fails; the words of get_random_bytes, by block; and the
-- decrypted contents of a segment behind its initialisation vector.
pub record Env : Type 0 where
  pub alloc : ℕ → ℕ → Bool
  pub user : ℕ → ℕ → Option (List ℕ)
  pub random : ℕ → ℕ → ℕ
  pub decrypted : (ℕ → ℕ) → ℕ → ℕ

abbrev pub M : Type 0 → Type 0
M A = Stateful Kernel A

abbrev pub set_at {ℓ} : {A : Type ℓ} → (ℕ → A) → ℕ → A → ℕ → A
set_at f i a j = if i == j then a else f j

-- The blocks without one of them; `none` if it is not there.
unfoldable pub remove : ℕ → List ℕ → Option (List ℕ)
remove b [] = none
remove b (c ∷ live) =
    if b == c then some live else elim (remove b live) [ none ↦ none | some r ↦ some (c ∷ r) ]

-- A block, or NULL.
unfoldable pub vmalloc : Env → ℕ → M (Option ℕ)
vmalloc env size k =
    let k' = record k { calls = k.calls + 1 } in
    if env.alloc k.calls size
    then pure (some k.calls)
        (record k' { live = k.calls ∷ k.live; sizes = set_at k.sizes k.calls size })
    else pure none k'

-- To free what is not allocated is a fault.
unfoldable pub vfree : ℕ → M (Unit {0})
unfolding remove
vfree b = do live ← deref λ k. remove b k.live; change λ k. record k { live = live }

-- With room for the alignment to 128 bytes, and for the block's own address in front of it.
unfoldable pub amalloc : Env → ℕ → M (Option Pointer)
unfolding vmalloc
amalloc env size = do
  mem ← vmalloc env (size + 128 - 1 + 8)
  pure (elim mem [ none ↦ none | some b ↦ some (record { block = b; offset = 0 }) ])

-- The block's address is in front of the pointer that amalloc has returned, and nowhere else.
unfoldable pub afree : Option Pointer → M (Unit {0})
unfolding vfree
afree none = pure tt
afree (some p) = if p.offset == 0 then vfree p.block else crash

-- Words from the beginning of a block.
abbrev pub write_words : ℕ → List ℕ → Kernel → Kernel
write_words b words k = record k {
  mem = set_at k.mem b λ i. elim (get_elem? words i) [ none ↦ k.mem b i | some w ↦ w ];
}

-- `ptr += n` and `ptr -= n` on an `uint32_t *`.
abbrev pub shadow : ℕ → Option Pointer → Option Pointer
shadow n none = none
shadow n (some p) = some (record p { offset = p.offset + n })

abbrev pub unshadow : ℕ → Option Pointer → Option Pointer
unshadow n none = none
unshadow n (some p) = some (record p { offset = p.offset - n })

-- A static variable that the interpreter reads.
abbrev pub static_size : (Vm → ℕ) → M ℕ
static_size f k = pure (f k.machine.vm) k
