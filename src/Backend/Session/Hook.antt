-- ===== src/Backend/Session/Hook.antt =====
-- The hook of user space: it stays in the user's buffer and leaves nothing behind.
use bispe.Base.{
  ◌⊎◌, inl, inr, ok, faults, ℕ, zero, suc, ◌+◌, ◌*◌, ◌%◌, ◌≤◌, ◌≡◌, ◌≢◌, refl, sym, ap, Bool, true,
  false, not, ◌&&◌, Option, none, some, List, [], arith, ltb, ◌==◌, if_holds, if_holds', Result,
  returned, exited, faulted, Outcome, then_run, from_result, ℤ, pos, negsuc, length,
}
use bispe.Backend.Session.Kernel.{Kernel, Env}
use bispe.Backend.Session.Context.{
  InvokeCtx, RuntimeCtx, init_interpreter, cleanup_runtime_ctx, or_default, default_print_size,
  segments_fit,
}
use bispe.Backend.Session.Cycles.{words_from, start_interpreter}
use bispe.Backend.Session.Invoke.{
  Created, Schedule, enomem, eintr, never, from_then_on, up, thread_main, down, wait_and_stop,
  run_thread, start_interpreter_thread, Invoked, clean, report, dispatch, invoke_locked,
  invoke_interpreter,
}
use bispe.Backend.Session.Prints.{
  InBuffer, Gives, Gives-then, Gives-map, Gives-both, Ran, IsCode, start_interpreter-Ran,
  start_interpreter-IsCode,
}
use bispe.Backend.Session.Frees.{Made}
use bispe.Backend.Session.Frees.Buffers.{init_interpreter-Made}

-- Where the print pointer is behind the thread, and what the thread leaves alone.
abbrev Stopped : ℕ → Kernel → ℤ × Kernel → Type 0
Stopped size k (r, k') = InBuffer size k'.machine.vm × (k'.live ≡ k.live) × (k'.locked ≡ k.locked)

-- The same, with `up` done.
abbrev Finished : ℕ → Kernel → ℤ × Kernel → Type 0
Finished size k (r, k') = Stopped size k (r, k') × (k'.finish_count ≡ suc k.finish_count)

up-Stopped : (size : ℕ) (k : Kernel) (r : ℤ × Kernel) → Ran size k r → Gives (Stopped size k) (up r)
up-Stopped size k (pos n, k') (b, l, m, c) = (b, l, m)
up-Stopped size k (negsuc n, k') (b, l, m, c) = (b, l, m)

up-Finished :
    (size : ℕ) (k : Kernel) (r : ℤ × Kernel)
    → Ran size k r × IsCode r
    → Gives (Finished size k) (up r)
up-Finished size k (pos n, k') ((b, l, m, c), i) = ((b, l, m), ap suc c)
up-Finished size k (negsuc n, k') (h, e) = cc (e.1)

-- The same of the thread's creator, which may have no thread, and no prints then.
abbrev Joined : ℕ → Kernel → ℤ × Kernel → Type 0
Joined size k (pos n, k') = Stopped size k (pos n, k')
Joined size k (negsuc n, k') = (k'.live ≡ k.live) × (k'.locked ≡ k.locked)

Stopped-Joined : (size : ℕ) (k : Kernel) (r : ℤ × Kernel) → Stopped size k r → Joined size k r
Stopped-Joined size k (pos n, k') h = h
Stopped-Joined size k (negsuc n, k') (b, l, m) = (l, m)

module _ (f : ℕ) (env : Env) (ctx : RuntimeCtx) where
  thread_main-Stopped :
      (stop : ℕ → Bool) (k : Kernel)
      → Gives (Stopped ctx.print_seg_size k) (thread_main f env ctx stop k)
  unfolding thread_main
  thread_main-Stopped stop k =
      Gives-then (Ran ctx.print_seg_size k) (Stopped ctx.print_seg_size k)
        (start_interpreter f env ctx true stop k) up (start_interpreter-Ran f env ctx true stop k)
        (up-Stopped ctx.print_seg_size k)

  thread_main-Finished :
      (k : Kernel) → Gives (Finished ctx.print_seg_size k) (thread_main f env ctx never k)
  unfolding thread_main
  thread_main-Finished k =
      Gives-then (λ r. Ran ctx.print_seg_size k r × IsCode r) (Finished ctx.print_seg_size k)
        (start_interpreter f env ctx true never k) up
        (Gives-both (Ran ctx.print_seg_size k) IsCode (start_interpreter f env ctx true never k)
          (start_interpreter-Ran f env ctx true never k)
          (start_interpreter-IsCode true never (λ i. refl) f env ctx k))
        (up-Finished ctx.print_seg_size k)

  down-Stopped :
      (k : Kernel) (r : ℤ × Kernel)
      → Finished ctx.print_seg_size k r
      → Gives (Stopped ctx.print_seg_size k) (down r)
  down-Stopped k (r, k') (h, c) = ground arith

  wait_and_stop-Stopped :
      (signal : Bool) (stop_from c : ℕ) (k : Kernel)
      → Gives (Stopped ctx.print_seg_size k) (wait_and_stop f env ctx signal stop_from c k)
  unfolding wait_and_stop
  wait_and_stop-Stopped true stop_from zero k = thread_main-Stopped (from_then_on stop_from) k
  wait_and_stop-Stopped false stop_from zero k =
      Gives-then (Finished ctx.print_seg_size k) (Stopped ctx.print_seg_size k)
        (thread_main f env ctx never k) down (thread_main-Finished k) (down-Stopped k)
  wait_and_stop-Stopped signal stop_from (suc c) k =
      thread_main-Stopped (from_then_on stop_from) (record k { finish_count = c })

  run_thread-Joined :
      (s : Schedule) (t : Created) (k : Kernel)
      → t ≢ eintr
      → Gives (Joined ctx.print_seg_size k) (run_thread f env ctx s t k)
  run_thread-Joined s Created.created k h =
      Gives-map (Stopped ctx.print_seg_size k) (Joined ctx.print_seg_size k)
        (wait_and_stop f env ctx s.signal s.stop_from k.finish_count k)
        (wait_and_stop-Stopped s.signal s.stop_from k.finish_count k)
        (Stopped-Joined ctx.print_seg_size k)
  run_thread-Joined s enomem k h = (refl, refl)
  run_thread-Joined s eintr k h = absurd (h refl)

length-words_from : (g : ℕ → ℕ) (i n : ℕ) → length (words_from g i n) ≡ n
unfolding words_from
length-words_from g i zero = refl
length-words_from g i (suc n) = ap suc (length-words_from g (i + 1) n)

-- What the hook has done, called with `c` in the state `k`.
pub record Answers (c : InvokeCtx) (k : Kernel) (inv : Invoked) : Type 0 where
  pub in_bounds : inv.written ≤ c.out_buf.size
  pub words : 4 * length inv.output ≡ inv.written
  pub live : inv.kernel.live ≡ k.live
  pub locked : inv.kernel.locked ≡ k.locked

-- The state in which the hook holds the lock.
abbrev pub held_by : Kernel → Kernel
held_by k = record k { locked = true }

-- The segments of the context that is built for the call do not stand in their blocks.
abbrev pub Unfit : Env → InvokeCtx → Kernel → Type 0
Unfit env c k =
    (ctx : RuntimeCtx) × (k' : Kernel) × (init_interpreter env c (held_by k)
      ≡ returned (some ctx, k'))
    × (segments_fit ctx k' ≡ false)

-- A fault, for which there is this one reason, or an answer.
abbrev pub AnswersOr : Env → InvokeCtx → Kernel → Outcome Invoked → Type 0
AnswersOr env c k o = ((o ≡ faults) × Unfit env c k) ⊎ Gives (Answers c k) o

module _ (c : InvokeCtx) (k : Kernel) (free : k.locked ≡ false) where
  clean-Answers :
      (ctx : RuntimeCtx) (written : ℕ) (output : List ℕ) (put_result : Option ℤ) (k' : Kernel)
      → 4 * length output ≡ written
      → written ≤ c.out_buf.size
      → cleanup_runtime_ctx (some ctx) k' ≡ returned (tt, record k' { live = k.live })
      → Gives (Answers c k) (clean ctx written output put_result k')
  unfolding clean
  clean-Answers ctx written output put_result k' words fits e =
      rw e (record { in_bounds = fits; words = words; live = refl; locked = sym free })

  report-Answers :
      (ctx : RuntimeCtx) (k' : Kernel) (r : ℤ × Kernel)
      → ctx.print_seg_size ≡ or_default c.out_buf.size default_print_size
      → ((k'' : Kernel)
          → k''.live ≡ k'.live
          → cleanup_runtime_ctx (some ctx) k'' ≡ returned (tt, record k'' { live = k.live }))
      → Joined ctx.print_seg_size k' r
      → Gives (Answers c k) (report c ctx r)
  unfolding report
  report-Answers ctx k' (negsuc n, k'') size cleans (l, m) =
      clean-Answers ctx 0 [] none k'' refl (omega arith) (cleans k'' l)
  report-Answers ctx k' (pos n, k'') size cleans ((b, b'), l, m) =
      let count = k''.machine.vm.print_ptr in
      let words = words_from k''.machine.vm.print_seg 0 count in
      if_holds' (Gives (Answers c k)) (ltb 0 c.out_buf.size && ltb 0 count)
        (λ h.
          clean-Answers ctx (4 * count) words (some (pos n)) k''
            (ap (λ n. 4 * n) (length-words_from k''.machine.vm.print_seg 0 count)) (ground arith)
            (cleans k'' l))
        (λ h. clean-Answers ctx 0 [] (some (pos n)) k'' refl (omega arith) (cleans k'' l))

  -- The hook behind `mutex_trylock`.
  module _ (f : ℕ) (env : Env) (s : Schedule) (threads : s.created ≢ eintr) where
    dispatch-AnswersOr :
        (r : Result (Option RuntimeCtx × Kernel))
        → init_interpreter env c (held_by k) ≡ r
        → Made c k.live (held_by k) r
        → AnswersOr env c k (then_run (from_result r) (dispatch f env c s))
    unfolding start_interpreter_thread
    dispatch-AnswersOr (returned (none, k')) e (l, m, n) =
        inr (record { in_bounds = omega arith; words = refl; live = l; locked = sym free })
    dispatch-AnswersOr (returned (some ctx, k')) e (cleans, m, n, size) =
        if_holds' (AnswersOr env c k) (segments_fit ctx k')
          (λ fit. inr (
            Gives-then (Joined ctx.print_seg_size k') (Answers c k)
              (run_thread f env ctx s s.created k') (report c ctx)
              (run_thread-Joined f env ctx s s.created k' threads)
              λ r h. report-Answers ctx k' r size cleans h))
          (λ unfit. inl (refl, (ctx, k', e, unfit)))
    dispatch-AnswersOr exited e h = absurd h
    dispatch-AnswersOr faulted e h = absurd h

refused-Answers :
    (c : InvokeCtx) (k : Kernel)
    → Answers c k (record { written = 0; output = []; put_result = none; kernel = k })
refused-Answers c k = record { in_bounds = omega arith; words = refl; live = refl; locked = refl }

pub invoke_interpreter-Answers :
    (f : ℕ) (env : Env) (c : InvokeCtx) (count : ℕ) (s : Schedule) (k : Kernel)
    → ((n : ℕ) → env.alloc n 8 ≡ true)
    → ((p n : ℕ) → (words : List ℕ) × (env.user p n ≡ some words))
    → c.arg_buf.size % 4 ≡ 0
    → s.created ≢ eintr
    → AnswersOr env c k (invoke_interpreter f env c count s k)
unfolding invoke_interpreter invoke_locked
invoke_interpreter-Answers f env c count s k roomy copied words threads =
    let P : Outcome Invoked → Type 0 = AnswersOr env c k in
    let refused : AnswersOr env c k
        (ok (record { written = 0; output = []; put_result = none; kernel = k })) =
      inr (refused-Answers c k) in
    if_holds P (count == 0) refused (
      if_holds P (not (count == 72)) refused (
        if_holds P (not (c.out_buf.size % 4 == 0)) refused (
          if_holds P (not (c.code_buf.size % (4 * 4) == 0)) refused (
            if_holds' P k.locked (λ h. refused)
              (λ free.
                dispatch-AnswersOr c k free f env s threads (init_interpreter env c (held_by k))
                  refl (init_interpreter-Made env roomy c k.live copied (held_by k) words refl))))))
