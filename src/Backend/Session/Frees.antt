-- ===== src/Backend/Session/Frees.antt =====
-- What create_runtime_ctx allocates is freed: the segments (here) and the buffers (Buffers).
pub mod Buffers
use bispe.Base.{
  ℕ, zero, suc, ◌+◌, ◌-◌, ◌*◌, ◌/◌, ◌<◌, ◌≡◌, refl, sym, ap, ◌∙◌, Bool, true, false, Option, none,
  some, List, [], ◌∷◌, ◌++◌, arith, ltb, ◌==◌, if◌then◌else◌, Bool-cases, inl, inr, ◌>>=◌, Result,
  returned, exited, faulted, bind,
}
use bispe.Backend.Session.Kernel.{
  Pointer, Machine, Kernel, Env, M, remove, set_at, vmalloc, vfree, amalloc, afree, unshadow,
  shadow,
}
use bispe.Backend.Session.Context.{
  InvokeCtx, RuntimeCtx, KernelBuf, free_segments, cleanup_runtime_ctx, give_up, create_runtime_ctx,
  or_default, default_print_size, default_stack_size, default_call_size, default_instr_per_cycle,
  shadowed, configured, with_print, with_call, with_stack, with_ctx,
}

abbrev pub and_then : Option (List ℕ) → (List ℕ → Option (List ℕ)) → Option (List ℕ)
and_then none f = none
and_then (some r) f = f r

-- Blocks freed one behind the other.
pub remove_all : List ℕ → List ℕ → Option (List ℕ)
remove_all [] live = some live
remove_all (b ∷ bs) live = and_then (remove b live) (remove_all bs)

abbrev pub AllBelow : ℕ → List ℕ → Type 0
AllBelow n [] = Unit
AllBelow n (x ∷ xs) = (x < n) × AllBelow n xs

remove_new :
    (x p : ℕ) (live : List ℕ)
    → x < p
    → remove x (p ∷ live) ≡ and_then (remove x live) λ r. some (p ∷ r)
unfolding remove
remove_new x p live h = ground arith

-- A new block, freed behind some of the others.
pub remove_all_new :
    (p : ℕ) (xs ys live : List ℕ)
    → AllBelow p xs
    → remove_all (xs ++ p ∷ ys) (p ∷ live) ≡ remove_all (xs ++ ys) live
unfolding remove_all
remove_all_new p [] ys live h = unfold remove in ground arith
remove_all_new p (x ∷ xs) ys live (lt, h) =
    ap (λ o. and_then o (remove_all (xs ++ p ∷ ys))) (remove_new x p live lt)
    ∙ elim (remove x live)
        as (λ o.
          and_then (and_then o λ r. some (p ∷ r)) (remove_all (xs ++ p ∷ ys))
          ≡ and_then o (remove_all (xs ++ ys))) [
            | none ↦ refl
            | some r ↦ remove_all_new p xs ys r h
          ]

abbrev pub at : ℕ → Option Pointer
at b = some (record { block = b; offset = 0 })

-- A pointer to one of the blocks, or NULL.
pub maybe_at : Option ℕ → Option Pointer
maybe_at none = none
maybe_at (some b) = at b

pub blocks : Option ℕ → List ℕ
blocks none = []
blocks (some b) = b ∷ []

-- What create_runtime_ctx and init_interpreter leave, where `base` are the blocks that were live
-- before the buffers were allocated: without a context these blocks alone, and otherwise a context
-- whose cleanup leaves them alone again. The lock and the semaphore are as in `k`, and the print
-- segment has the size that was asked for.
abbrev pub Made : InvokeCtx → List ℕ → Kernel → Result (Option RuntimeCtx × Kernel) → Type 0
Made c base k (returned (none, k')) =
    (k'.live ≡ base) × (k'.locked ≡ k.locked) × (k'.finish_count ≡ k.finish_count)
Made c base k (returned (some ctx, k')) =
    ((k'' : Kernel)
      → k''.live ≡ k'.live
      → cleanup_runtime_ctx (some ctx) k'' ≡ returned (tt, record k'' { live = base }))
    × (k'.locked ≡ k.locked)
    × (k'.finish_count ≡ k.finish_count)
    × (ctx.print_seg_size ≡ or_default c.out_buf.size default_print_size)
Made c base k exited = ⊥
Made c base k faulted = ⊥

-- The state behind an allocation that fails, and behind one that does not.
abbrev pub refusing : Kernel → Kernel
refusing k = record k { calls = k.calls + 1 }

abbrev pub granting : ℕ → Kernel → Kernel
granting size k = record k {
  calls = k.calls + 1;
  live = k.calls ∷ k.live;
  sizes = set_at k.sizes k.calls size;
}

-- Behind an allocation: with NULL, or with a new block.
vmalloc-then :
    (P : Result (Option RuntimeCtx × Kernel) → Type 0) (env : Env) (size : ℕ)
    (f : Option ℕ → M (Option RuntimeCtx)) (k : Kernel)
    → P (f none (refusing k))
    → P (f (some k.calls) (granting size k))
    → P ((vmalloc env size >>= f) k)
unfolding vmalloc
vmalloc-then P env size f k null new = elim (Bool-cases (env.alloc k.calls size)) [
  | inl e ↦ rw e new
  | inr e ↦ rw e null
]

amalloc-then :
    (P : Result (Option RuntimeCtx × Kernel) → Type 0) (env : Env) (size : ℕ)
    (f : Option Pointer → M (Option RuntimeCtx)) (k : Kernel)
    → P (f none (refusing k))
    → P (f (at k.calls) (granting (size + 128 - 1 + 8) k))
    → P ((amalloc env size >>= f) k)
unfolding amalloc vmalloc
amalloc-then P env size f k null new = elim (Bool-cases (env.alloc k.calls (size + 128 - 1 + 8))) [
  | inl e ↦ rw e new
  | inr e ↦ rw e null
]

module _ (c : InvokeCtx) (code b size asize : ℕ) (args : Option ℕ) where
  -- The context with the segments that have been allocated so far.
  pub made : Option ℕ → Option ℕ → Option ℕ → RuntimeCtx
  unfolding maybe_at
  made stack call print = record {
    block = b;
    code_seg_bp = at code;
    stack_seg_bp = maybe_at stack;
    call_seg_bp = maybe_at call;
    print_seg_bp = maybe_at print;
    code_seg_size = size;
    stack_seg_size = or_default c.stack_size default_stack_size * (4 * 4) + 16;
    call_seg_size = or_default c.call_size default_call_size * (4 * 4) + 16;
    print_seg_size = or_default c.out_buf.size default_print_size;
    argc = asize / 4;
    argv = maybe_at args;
    ipc = or_default c.ipc default_instr_per_cycle;
  }

  -- Where the argument buffer is used, that is where there is one.
  pub configured-made :
      (if ltb 0 (asize / 4) then maybe_at args else none) ≡ maybe_at args
      → configured c
          (record { ptr = at code; size = size })
          (record { ptr = maybe_at args; size = asize })
          b
        ≡ made none none none
  unfolding configured made
  configured-made used = rw used refl

  -- Its blocks, in the order in which they are freed.
  pub held : Option ℕ → Option ℕ → Option ℕ → List ℕ
  unfolding blocks
  held stack call print =
      code ∷ (blocks stack ++ (blocks call ++ (blocks print ++ (blocks args ++ b ∷ []))))

  give_up_lem :
      (s l p : Option ℕ) (base : List ℕ) (k : Kernel)
      → remove_all (held s l p) k.live ≡ some base
      → give_up (made s l p) k ≡ returned (none, record k { live = base })
  unfolding give_up made held remove_all
  give_up_lem s l p base k h = ground arith

  shadowed-Made :
      (env : Env) (s l p : ℕ) (base : List ℕ) (k : Kernel)
      → remove_all (held (some s) (some l) (some p)) k.live ≡ some base
      → Made c base k (shadowed env (made (some s) (some l) (some p)) k)
  unfolding shadowed made held remove_all cleanup_runtime_ctx
  shadowed-Made env s l p base k h = (λ k'' e. ground arith, refl, refl, refl)

  module _ (env : Env) (base : List ℕ) where
    with_print-Made :
        (s l : ℕ) (k : Kernel)
        → AllBelow k.calls (code ∷ s ∷ l ∷ [])
        → remove_all (held (some s) (some l) none) k.live ≡ some base
        → Made c base k (
            (amalloc env k.machine.vm.print_size >>= with_print env (made (some s) (some l) none))
              k)
    unfolding with_print held made
    with_print-Made s l k below h =
        amalloc-then (Made c base k) env k.machine.vm.print_size
          (with_print env (made (some s) (some l) none)) k
          (rw (give_up_lem (some s) (some l) none base (refusing k) h) (refl, refl, refl))
          (shadowed-Made env s l k.calls base (granting (k.machine.vm.print_size + 128 - 1 + 8) k)
            (remove_all_new k.calls (code ∷ s ∷ l ∷ []) (blocks args ++ b ∷ []) k.live below ∙ h))

    with_call-Made :
        (s : ℕ) (k : Kernel)
        → AllBelow k.calls (code ∷ s ∷ [])
        → remove_all (held (some s) none none) k.live ≡ some base
        → Made c base k
            ((amalloc env k.machine.vm.call_size >>= with_call env (made (some s) none none)) k)
    unfolding with_call held made
    with_call-Made s k below h =
        amalloc-then (Made c base k) env k.machine.vm.call_size
          (with_call env (made (some s) none none)) k
          (rw (give_up_lem (some s) none none base (refusing k) h) (refl, refl, refl))
          (with_print-Made s k.calls (granting (k.machine.vm.call_size + 128 - 1 + 8) k)
            (omega arith)
            (remove_all_new k.calls (code ∷ s ∷ []) (blocks args ++ b ∷ []) k.live below ∙ h))

    pub with_stack-Made :
        (k : Kernel)
        → AllBelow k.calls (code ∷ [])
        → remove_all (held none none none) k.live ≡ some base
        → Made c base k
            ((amalloc env k.machine.vm.stack_size >>= with_stack env (made none none none)) k)
    unfolding with_stack held made
    with_stack-Made k below h =
        amalloc-then (Made c base k) env k.machine.vm.stack_size
          (with_stack env (made none none none)) k
          (rw (give_up_lem none none none base (refusing k) h) (refl, refl, refl))
          (with_call-Made k.calls (granting (k.machine.vm.stack_size + 128 - 1 + 8) k) (omega arith)
            (remove_all_new k.calls (code ∷ []) (blocks args ++ b ∷ []) k.live below ∙ h))
