-- ===== src/Backend/Session/Invoke.antt =====
-- thread_main, start_interpreter_thread and invoke_interpreter of backend/bispe_main.c.
use bispe.Base.{
  ℕ, zero, suc, ◌*◌, ◌%◌, Bool, true, false, not, ◌&&◌, Option, none, some, List, [], ltb, ◌==◌,
  if◌then◌else◌, Outcome, ok, faults, then_run, from_result, ℤ, pos, negsuc,
}
use bispe.Backend.Session.Kernel.{Kernel, Env}
use bispe.Backend.Session.Context.{
  InvokeCtx, RuntimeCtx, init_interpreter, cleanup_runtime_ctx, segments_fit,
}
use bispe.Backend.Session.Cycles.{words_from, start_interpreter}

-- What kthread_run returns: a thread, or the error -ENOMEM or -EINTR.
pub data Created : Type 0 where
  created enomem eintr : Created

-- How a thread goes: whether it is created, whether its creator gets a fatal signal while it waits,
-- and from which question on the thread is told to stop, if its creator does not wait for it.
pub record Schedule : Type 0 where
  pub created : Created
  pub signal : Bool
  pub stop_from : ℕ

abbrev pub never : ℕ → Bool
never i = false

-- kthread_stop is not taken back.
abbrev pub from_then_on : ℕ → ℕ → Bool
from_then_on n i = not (ltb i n)

-- `up`, unless the thread was told to stop.
abbrev pub up : ℤ × Kernel → Outcome (ℤ × Kernel)
up (pos code, k) = ok (pos code, record k { finish_count = suc k.finish_count })
up (negsuc n, k) = ok (negsuc n, k)

-- The thread up to where it waits to be stopped; its result is what kthread_stop returns.
unfoldable pub thread_main : ℕ → Env → RuntimeCtx → (ℕ → Bool) → Kernel → Outcome (ℤ × Kernel)
unfolding start_interpreter
thread_main fuel env ctx stop k = then_run (start_interpreter fuel env ctx true stop k) up

-- `down_killable`, where the thread has come to its end before.
abbrev pub down : ℤ × Kernel → Outcome (ℤ × Kernel)
down (r, k) = elim (k.finish_count) [
  | zero ↦ faults
  | suc c ↦ ok (r, record k { finish_count = c })
]

-- `down_killable` and `kthread_stop`: a count that is left from before, or a signal, stops the
-- thread while it runs.
unfoldable pub wait_and_stop : ℕ → Env → RuntimeCtx → Bool → ℕ → ℕ → Kernel → Outcome (ℤ × Kernel)
unfolding thread_main
wait_and_stop fuel env ctx signal stop_from zero k =
    if signal
    then thread_main fuel env ctx (from_then_on stop_from) k
    else then_run (thread_main fuel env ctx never k) down
wait_and_stop fuel env ctx signal stop_from (suc c) k =
    thread_main fuel env ctx (from_then_on stop_from) (record k { finish_count = c })

-- The error -EINTR is not looked for, and kthread_stop is given an error for a thread.
abbrev pub run_thread : ℕ → Env → RuntimeCtx → Schedule → Created → Kernel → Outcome (ℤ × Kernel)
run_thread fuel env ctx s Created.created k =
    wait_and_stop fuel env ctx s.signal s.stop_from k.finish_count k
run_thread fuel env ctx s enomem k = ok (negsuc 1, k)
run_thread fuel env ctx s eintr k = faults

unfoldable pub start_interpreter_thread :
    ℕ → Env → RuntimeCtx → Schedule → Kernel → Outcome (ℤ × Kernel)
unfolding wait_and_stop
start_interpreter_thread fuel env ctx s k = run_thread fuel env ctx s s.created k

-- What the hook leaves: its result, the words copied to the output buffer, and the number that is
-- put at `invoke_ctx->result`, if one is.
pub record Invoked : Type 0 where
  pub written : ℕ
  pub output : List ℕ
  pub put_result : Option ℤ
  pub kernel : Kernel

abbrev pub refused : Kernel → Outcome Invoked
refused k = ok (record { written = 0; output = []; put_result = none; kernel = k })

-- `mutex_unlock`
abbrev pub unlock : Kernel → Kernel
unlock k = record k { locked = false }

-- The labels `cleanup` and `error`.
unfoldable pub clean : RuntimeCtx → ℕ → List ℕ → Option ℤ → Kernel → Outcome Invoked
unfolding cleanup_runtime_ctx
clean ctx written output put_result k =
    then_run (from_result (cleanup_runtime_ctx (some ctx) k)) λ (u, k').
      ok
        (record { written = written; output = output; put_result = put_result; kernel = unlock k' })

-- Behind the thread. The count of printed words is where the ring buffer stands.
unfoldable pub report : InvokeCtx → RuntimeCtx → ℤ × Kernel → Outcome Invoked
unfolding clean words_from
report invoke_ctx ctx (negsuc n, k) = clean ctx 0 [] none k
report invoke_ctx ctx (pos code, k) =
    let count = k.machine.vm.print_ptr in
    if ltb 0 invoke_ctx.out_buf.size && ltb 0 count
    then clean ctx (4 * count) (words_from k.machine.vm.print_seg 0 count) (some (pos code)) k
    else clean ctx 0 [] (some (pos code)) k

-- A block that is smaller than its segment is a fault: what the interpreter reads and writes behind
-- it is not followed.
abbrev pub dispatch : ℕ → Env → InvokeCtx → Schedule → Option RuntimeCtx × Kernel → Outcome Invoked
dispatch fuel env invoke_ctx s (none, k) = refused (unlock k)
dispatch fuel env invoke_ctx s (some ctx, k) =
    let reported = then_run (start_interpreter_thread fuel env ctx s k) (report invoke_ctx ctx) in
    if segments_fit ctx k then reported else faults

-- Behind `mutex_trylock`.
unfoldable pub invoke_locked : ℕ → Env → InvokeCtx → Schedule → Kernel → Outcome Invoked
unfolding init_interpreter start_interpreter_thread report segments_fit
invoke_locked fuel env invoke_ctx s k =
    then_run (from_result (init_interpreter env invoke_ctx k)) (dispatch fuel env invoke_ctx s)

-- sizeof(struct invoke_ctx) in the kernel's 64 bit build.
abbrev pub sizeof_invoke_ctx : ℕ
sizeof_invoke_ctx = 72

-- The hook: `count` bytes hold the structure.
unfoldable pub invoke_interpreter : ℕ → Env → InvokeCtx → ℕ → Schedule → Kernel → Outcome Invoked
unfolding invoke_locked
invoke_interpreter fuel env invoke_ctx count s k =
    if count == 0
    then refused k
    else if not (count == sizeof_invoke_ctx)
    then refused k
    else if not (invoke_ctx.out_buf.size % 4 == 0)
    then refused k
    else if not (invoke_ctx.code_buf.size % (4 * 4) == 0)
    then refused k
    else if k.locked
    then refused k
    else invoke_locked fuel env invoke_ctx s (record k { locked = true })
