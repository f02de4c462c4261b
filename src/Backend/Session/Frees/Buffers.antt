-- ===== src/Backend/Session/Frees/Buffers.antt =====
-- What init_interpreter allocates is freed.
use bispe.Base.{
  ℕ, ◌+◌, ◌-◌, ◌/◌, ◌%◌, ◌<◌, ◌≡◌, refl, ap, ◌∙◌, true, false, Option, none, some, List, [], ◌∷◌,
  append-nil, arith, ltb, if◌then◌else◌, Bool-cases, inl, inr, ◌>>=◌,
}
use bispe.Backend.Session.Kernel.{Pointer, Kernel, Env, M, remove, vmalloc, vfree, write_words}
use bispe.Backend.Session.Context.{
  copy_from_user, InvokeCtx, RuntimeCtx, create_runtime_ctx, get_buf_from_user, with_args,
  with_code, init_interpreter,
}
use bispe.Backend.Session.Frees.{
  at, maybe_at, blocks, remove_all, remove_all_new, AllBelow, Made, held, configured-made,
  with_stack-Made, refusing, granting,
}

-- The context itself is taken to be allocated.
module _ (env : Env) (roomy : (n : ℕ) → env.alloc n 8 ≡ true) (c : InvokeCtx) (base : List ℕ) where
  create_runtime_ctx-Made :
      (code size asize : ℕ) (args : Option ℕ) (k : Kernel)
      → (if ltb 0 (asize / 4) then maybe_at args else none) ≡ maybe_at args
      → AllBelow k.calls (code ∷ blocks args)
      → remove_all (code ∷ blocks args) k.live ≡ some base
      → Made c base k (
          create_runtime_ctx env c
            (record { ptr = at code; size = size })
            (record { ptr = maybe_at args; size = asize })
            k)
  unfolding create_runtime_ctx vmalloc held
  create_runtime_ctx-Made code size asize args k used below h = rw (roomy k.calls) (
      rw (configured-made c code k.calls size asize args used) (
        with_stack-Made c code k.calls size asize args env base (granting 8 k) (omega arith) (
          remove_all_new k.calls (code ∷ blocks args) [] k.live below
          ∙ (ap (λ bs. remove_all bs k.live) (append-nil (code ∷ blocks args)) ∙ h))))

  -- Copies from user space are taken to succeed.
  module _ (copied : (p n : ℕ) → (words : List ℕ) × (env.user p n ≡ some words)) where
    get_buf_from_user-then :
        (k : Kernel) (src size : ℕ) (f : Option Pointer → M (Option RuntimeCtx))
        → Made c base k (f none (refusing k))
        → Made c base k (
            f
              (at k.calls)
              (write_words k.calls (copied src size).0 (granting (size + 128 - 1 + 8) k)))
        → Made c base k ((get_buf_from_user env src size >>= f) k)
    unfolding get_buf_from_user vmalloc
    get_buf_from_user-then k src size f null new =
        elim (Bool-cases (env.alloc k.calls (size + 128 - 1 + 8))) [
          | inl e ↦ rw e (rw ((copied src size).1, copy_from_user) new)
          | inr e ↦ rw e null
        ]

    -- Behind the copy of the code.
    with_code-Made :
        (code : ℕ) (k : Kernel)
        → c.arg_buf.size % 4 ≡ 0
        → code < k.calls
        → k.live ≡ code ∷ base
        → Made c base k (with_code env c (at code) k)
    unfolding with_code with_args maybe_at blocks remove_all remove vfree
    with_code-Made code k words below live = elim (Bool-cases (ltb 0 c.arg_buf.size)) [
      | inl e ↦
          (let k' : Kernel =
              write_words k.calls (copied c.arg_buf.ptr c.arg_buf.size).0
                (granting (c.arg_buf.size + 128 - 1 + 8) k) in
            let some_words : ltb 0 (c.arg_buf.size / 4) ≡ true = ground arith in
            rw e (
              get_buf_from_user-then k c.arg_buf.ptr c.arg_buf.size (with_args env c (at code))
                (ground arith)
                (create_runtime_ctx-Made code c.code_buf.size c.arg_buf.size (some k.calls) k'
                  (rw some_words refl) (omega arith) (ground arith))))
      | inr e ↦
          (let no_words : ltb 0 (c.arg_buf.size / 4) ≡ false = ground arith in
            rw e (
              create_runtime_ctx-Made code c.code_buf.size c.arg_buf.size none k (rw no_words refl)
                (omega arith) (ground arith)))
    ]

    pub init_interpreter-Made :
        (k : Kernel)
        → c.arg_buf.size % 4 ≡ 0
        → k.live ≡ base
        → Made c base k (init_interpreter env c k)
    unfolding init_interpreter with_code
    init_interpreter-Made k words live =
        get_buf_from_user-then k c.code_buf.ptr c.code_buf.size (with_code env c) (live, refl, refl)
          (with_code-Made k.calls
            (write_words k.calls (copied c.code_buf.ptr c.code_buf.size).0
              (granting (c.code_buf.size + 128 - 1 + 8) k))
            words (omega arith) (ap (◌∷◌ k.calls) live))
