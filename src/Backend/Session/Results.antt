-- ===== src/Backend/Session/Results.antt =====
-- What the hook of user space answers when the program ends.
use mathlib.Core.Path.{subst}
use bispe.Base.{
  ℕ, ◌*◌, ◌%◌, ◌≡◌, refl, ap, ◌∙◌, true, false, ◌&&◌, some, List, [], arith, ltb, if◌then◌else◌,
  Bool-cases, inl, inr, returned, Outcome, ok, pos,
}
use bispe.Backend.Vm.Defs.{Vm, error_code}
use bispe.Backend.Vm.Exec.{Status, running, halted, failed, run}
use bispe.Backend.Session.Kernel.{Machine, Kernel, Env}
use bispe.Backend.Session.Context.{
  InvokeCtx, RuntimeCtx, init_interpreter, cleanup_runtime_ctx, segments_fit,
}
use bispe.Backend.Session.Cycles.{words_from, loaded, start_interpreter}
use bispe.Backend.Session.Invoke.{
  Created, Schedule, never, thread_main, wait_and_stop, run_thread, start_interpreter_thread,
  Invoked, clean, report, invoke_locked, invoke_interpreter,
}
use bispe.Backend.Session.Runs.{at_end, at_error, Reports, start_interpreter-Reports}
use bispe.Backend.Session.Frees.{Made}
use bispe.Backend.Session.Frees.Buffers.{init_interpreter-Made}

-- The words of the print buffer in front of the print pointer, which is at the beginning again when
-- the buffer has been filled: the hook copies no others.
abbrev pub printed : InvokeCtx → Vm → List ℕ
printed c vm =
    if ltb 0 c.out_buf.size && ltb 0 vm.print_ptr
    then words_from vm.print_seg 0 vm.print_ptr
    else []

abbrev pub bytes_printed : InvokeCtx → Vm → ℕ
bytes_printed c vm = if ltb 0 c.out_buf.size && ltb 0 vm.print_ptr then 4 * vm.print_ptr else 0

module _ (f : ℕ) (env : Env) (ctx : RuntimeCtx) (k : Kernel) (code : ℕ) (m : Machine)
    (ended : start_interpreter f env ctx true never k
      ≡ ok (pos code, record k { machine = m })) where
  wait_and_stop-ended :
      (stop_from c : ℕ)
      → c ≡ 0
      → wait_and_stop f env ctx false stop_from c k ≡ ok (pos code, record k { machine = m })
  unfolding wait_and_stop thread_main
  wait_and_stop-ended stop_from c e = rw e (rw ended refl)

  run_thread-ended :
      (s : Schedule)
      → s.created ≡ Created.created
      → s.signal ≡ false
      → k.finish_count ≡ 0
      → start_interpreter_thread f env ctx s k ≡ ok (pos code, record k { machine = m })
  unfolding start_interpreter_thread
  run_thread-ended s created quiet zero_count =
      ap (λ t. run_thread f env ctx s t k) created
      ∙ (ap (λ b. wait_and_stop f env ctx b s.stop_from k.finish_count k) quiet
          ∙ wait_and_stop-ended s.stop_from k.finish_count zero_count)

  report-ended :
      (c : InvokeCtx) (base : List ℕ)
      → ((k'' : Kernel)
          → k''.live ≡ k.live
          → cleanup_runtime_ctx (some ctx) k'' ≡ returned (tt, record k'' { live = base }))
      → report c ctx (pos code, record k { machine = m })
        ≡ ok (record {
          written = bytes_printed c m.vm;
          output = printed c m.vm;
          put_result = some (pos code);
          kernel = record k { machine = m; live = base; locked = false };
        })
  unfolding report clean
  report-ended c base cleans = elim (Bool-cases (ltb 0 c.out_buf.size && ltb 0 m.vm.print_ptr)) [
    | inl e ↦ rw e (rw (cleans (record k { machine = m }) refl) refl)
    | inr e ↦ rw e (rw (cleans (record k { machine = m }) refl) refl)
  ]

-- What the hook answers, with the code and the words of a machine.
abbrev answer : InvokeCtx → Kernel → Kernel → ℕ → Machine → Outcome Invoked
answer c k k1 code m = ok (record {
  written = bytes_printed c m.vm;
  output = printed c m.vm;
  put_result = some (pos code);
  kernel = record k1 { machine = m; live = k.live; locked = false };
})

-- The answer of a hook that was called in the state `k` and has loaded the program in the state
-- `k1`, by where the run of the program stands.
abbrev pub Ends : InvokeCtx → Kernel → Kernel → Status → Outcome Invoked → Type 0
Ends c k k1 (running vm) o = Unit
Ends c k k1 (halted vm) o = o ≡ answer c k k1 0 (at_end vm)
Ends c k k1 (failed e) o = (vm : Vm) × (o ≡ answer c k k1 (error_code e) (at_error e vm))

-- The hook gets to the thread.
invoke_interpreter-dispatch :
    (f : ℕ) (env : Env) (c : InvokeCtx) (count : ℕ) (s : Schedule) (k : Kernel)
    → count ≡ 72
    → c.out_buf.size % 4 ≡ 0
    → c.code_buf.size % 16 ≡ 0
    → k.locked ≡ false
    → invoke_interpreter f env c count s k ≡ invoke_locked f env c s (record k { locked = true })
unfolding invoke_interpreter
invoke_interpreter-dispatch f env c count s k sized out code free = ground arith

module _ (f : ℕ) (env : Env) (c : InvokeCtx) (count : ℕ) (s : Schedule) (k : Kernel)
    (roomy : (n : ℕ) → env.alloc n 8 ≡ true)
    (copied : (p n : ℕ) → (words : List ℕ) × (env.user p n ≡ some words))
    (words : c.arg_buf.size % 4 ≡ 0) (ctx : RuntimeCtx) (k1 : Kernel)
    (initialised : init_interpreter env c (record k { locked = true }) ≡ returned (some ctx, k1))
    (fit : segments_fit ctx k1 ≡ true) where
  created-Made : Made c k.live (record k { locked = true }) (returned (some ctx, k1))
  created-Made =
      subst (Made c k.live (record k { locked = true })) initialised
        (init_interpreter-Made env roomy c k.live copied (record k { locked = true }) words refl)

  invoke_locked-ended :
      (code : ℕ) (m : Machine)
      → s.created ≡ Created.created
      → s.signal ≡ false
      → k.finish_count ≡ 0
      → start_interpreter f env ctx true never k1 ≡ ok (pos code, record k1 { machine = m })
      → invoke_locked f env c s (record k { locked = true })
        ≡ ok (record {
          written = bytes_printed c m.vm;
          output = printed c m.vm;
          put_result = some (pos code);
          kernel = record k1 { machine = m; live = k.live; locked = false };
        })
  unfolding invoke_locked
  invoke_locked-ended code m thread quiet zero_count ended =
      let (cleans, l, n, size) = created-Made in
      rw initialised (
        rw fit (
          rw (run_thread-ended f env ctx k1 code m ended s thread quiet (n ∙ zero_count))
            (report-ended f env ctx k1 code m ended c k.live cleans)))

  -- Let the hook be called with a structure of the right size and with buffers that are whole words
  -- and lines, while the lock and the semaphore are free; let the buffers be copied and the context
  -- be built, its segments stand in their blocks, the thread be created, and no fatal signal come. If
  -- the program that is loaded from the context halts within the instructions of `f` cycles, then the
  -- hook puts the result 0 and returns the words of the print buffer in front of the print pointer,
  -- where there is an output buffer; if the program fails with an error, it puts its code. The lock
  -- and all memory are free again.
  pub invoke_interpreter-Ends :
      count ≡ 72
      → c.out_buf.size % 4 ≡ 0
      → c.code_buf.size % 16 ≡ 0
      → k.locked ≡ false
      → k.finish_count ≡ 0
      → s.created ≡ Created.created
      → s.signal ≡ false
      → Ends c k k1
          (run (f * ctx.ipc) (loaded env ctx k1).vm)
          (invoke_interpreter f env c count s k)
  invoke_interpreter-Ends sized out code free zero_count thread quiet =
      let reports : Reports true never (λ i. refl) k1 (run (f * ctx.ipc) (loaded env ctx k1).vm)
          (start_interpreter f env ctx true never k1) =
        start_interpreter-Reports true never (λ i. refl) f env ctx k1 in
      rw (invoke_interpreter-dispatch f env c count s k sized out code free)
        (ends (run (f * ctx.ipc) (loaded env ctx k1).vm) reports)
    where
      ends :
          (t : Status)
          → Reports true never (λ i. refl) k1 t (start_interpreter f env ctx true never k1)
          → Ends c k k1 t (invoke_locked f env c s (record k { locked = true }))
      ends (running vm) e = tt
      ends (halted vm) e = invoke_locked-ended 0 (at_end vm) thread quiet zero_count e
      ends (failed r) (vm, e) =
          (vm, invoke_locked-ended (error_code r) (at_error r vm) thread quiet zero_count e)
