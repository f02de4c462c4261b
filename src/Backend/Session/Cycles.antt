-- ===== src/Backend/Session/Cycles.antt =====
-- The cycles of a run: bispe_cycle_entry with its flags, and start_interpreter of
-- backend/bispe_interpreter.c. The disabling of interrupts and the clearing of registers do not
-- show in this state.
use bispe.Base.{
  ℕ, zero, suc, ◌+◌, Bool, true, false, ◌&&◌, Option, none, some, List, [], ◌∷◌, if◌then◌else◌,
  Outcome, ok, out_of_fuel, then_run, ℤ, pos, negsuc,
}
use bispe.Backend.Vm.Defs.{Step, next, fail, error_code}
use bispe.Backend.Vm.Exec.{Flow, more, halt, step}
use bispe.Backend.Session.Kernel.{Pointer, Machine, Kernel, Env}
use bispe.Backend.Session.Context.{RuntimeCtx}

-- What an instruction does to the flags. An instruction that fails does not get to printing, and
-- nothing else of the machine is looked at behind an error: it is left as in front of it.
abbrev pub flagged : Step Flow → Machine → (Machine → Machine) → Machine
flagged (next more vm) m k = k (record m { vm = vm })
flagged (next halt vm) m k = record m { vm = vm; halt_flag = true }
flagged (fail e) m k = record m { halt_flag = true; error = error_code e }

-- At most `n` instructions.
unfoldable pub cycle_entry : ℕ → Machine → Machine
unfolding error_code
cycle_entry zero m = m
cycle_entry (suc n) m = flagged (step m.vm) m (cycle_entry n)

-- The loop over the cycles. `stop i` is the answer to the question number `i` whether the thread
-- should stop, which an interpreter that has no thread of its own does not ask.
unfoldable pub cycles : ℕ → Bool → (ℕ → Bool) → ℕ → ℕ → Machine → Outcome (Machine × ℕ)
unfolding cycle_entry
cycles zero threaded stop i ipc m = out_of_fuel
cycles (suc f) threaded stop i ipc m =
    let m' = cycle_entry ipc m in
    let again = cycles f threaded stop (i + 1) ipc m' in
    if threaded && stop i then ok (m, i) else if m'.halt_flag then ok (m', i + 1) else again

-- Behind the loop: -1 for a thread that was told to stop, or the error code, or 0.
abbrev pub result_of : Bool → (ℕ → Bool) → Machine × ℕ → ℤ × Machine
result_of threaded stop (m, i) =
    if threaded && stop i
    then (negsuc 0, m)
    else if m.halt_flag
    then (pos m.error, m)
    else (pos 0, m)

-- The contents of a segment: nothing is read through NULL.
abbrev pub words_at : Kernel → Option Pointer → ℕ → ℕ
words_at k none i = 0
words_at k (some p) i = k.mem p.block (p.offset + i)

abbrev pub block_words : Kernel → Option Pointer → ℕ → ℕ
block_words k none i = 0
block_words k (some p) i = k.mem p.block i

-- The words `argv[0]` to `argv[argc - 1]`.
unfoldable pub words_from : (ℕ → ℕ) → ℕ → ℕ → List ℕ
words_from f i zero = []
words_from f i (suc n) = f i ∷ words_from f (i + 1) n

-- The static variables and the state pointers, from the context; the flags are reset.
unfoldable pub loaded : Env → RuntimeCtx → Kernel → Machine
unfolding words_from
loaded env ctx k = record {
  vm = record {
    code_seg = env.decrypted (block_words k ctx.code_seg_bp);
    code_size = ctx.code_seg_size;
    stack_seg = env.decrypted (block_words k ctx.stack_seg_bp);
    stack_size = ctx.stack_seg_size;
    call_seg = env.decrypted (block_words k ctx.call_seg_bp);
    call_size = ctx.call_seg_size;
    print_seg = words_at k ctx.print_seg_bp;
    print_size = ctx.print_seg_size;
    argv = words_from (words_at k ctx.argv) 0 ctx.argc;
    instr_ptr = 0;
    stack_ptr = 0;
    call_ptr = 0;
    print_ptr = 0;
  };
  halt_flag = false;
  error = 0;
}

abbrev pub finish_run : Kernel → ℤ × Machine → Outcome (ℤ × Kernel)
finish_run k (r, m) = ok (r, record k { machine = m })

unfoldable pub start_interpreter :
    ℕ → Env → RuntimeCtx → Bool → (ℕ → Bool) → Kernel → Outcome (ℤ × Kernel)
unfolding cycles loaded
start_interpreter fuel env ctx threaded stop k =
    then_run (cycles fuel threaded stop 0 ctx.ipc (loaded env ctx k))
      λ r. finish_run k (result_of threaded stop r)
