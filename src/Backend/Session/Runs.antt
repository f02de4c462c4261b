-- ===== src/Backend/Session/Runs.antt =====
-- Cycles against uninterrupted runs of the interpreter.
use bispe.Base.{
  ℕ, zero, suc, ◌+◌, ◌*◌, ◌≡◌, refl, Bool, true, false, ◌&&◌, arith, Outcome, ok, out_of_fuel,
  then_run, ℤ, pos,
}
use bispe.Backend.Vm.Defs.{Vm, next, fail, Error, error_code}
use bispe.Backend.Vm.Exec.{more, halt, step, Status, running, halted, failed, status, resume, run}
use bispe.Backend.Vm.Runs.{run-add}
use bispe.Backend.Session.Kernel.{Machine, Kernel, Env}
use bispe.Backend.Session.Context.{RuntimeCtx}
use bispe.Backend.Session.Cycles.{
  flagged, cycle_entry, cycles, result_of, loaded, finish_run, start_interpreter,
}

-- A machine with its flags reset, at the end of a program, and behind an error.
abbrev pub clear : Vm → Machine
clear vm = record { vm = vm; halt_flag = false; error = 0 }

abbrev pub at_end : Vm → Machine
at_end vm = record { vm = vm; halt_flag = true; error = 0 }

abbrev pub at_error : Error → Vm → Machine
at_error e vm = record { vm = vm; halt_flag = true; error = error_code e }

-- A machine shows where a run stands.
abbrev Shows : Status → Machine → Type 0
Shows (running vm) m = m ≡ clear vm
Shows (halted vm) m = m ≡ at_end vm
Shows (failed e) m = (vm : Vm) × (m ≡ at_error e vm)

cycle_entry-Shows : (n : ℕ) (vm : Vm) → Shows (run n vm) (cycle_entry n (clear vm))
unfolding run cycle_entry
cycle_entry-Shows zero vm = refl
cycle_entry-Shows (suc n) vm =
    elim (step vm)
      as (λ s. Shows (resume (status s) (run n)) (flagged s (clear vm) (cycle_entry n))) [
        | next more vm' ↦ cycle_entry-Shows n vm'
        | next halt vm' ↦ refl
        | fail e ↦ (vm, refl)
      ]

-- The loop over the cycles shows where the run of all their instructions stands.
abbrev LoopShows : Status → Outcome (Machine × ℕ) → Type 0
LoopShows (running vm) o = o ≡ out_of_fuel
LoopShows (halted vm) o = (i : ℕ) × (o ≡ ok (at_end vm, i))
LoopShows (failed e) o = (vm : Vm) × (i : ℕ) × (o ≡ ok (at_error e vm, i))

module _ (threaded : Bool) (stop : ℕ → Bool) (quiet : (i : ℕ) → (threaded && stop i) ≡ false) where
  -- One more cycle.
  cycles_step :
      (f i ipc : ℕ) (m : Machine) (s : Status)
      → Shows s (cycle_entry ipc m)
      → ((vm : Vm) → LoopShows (run (f * ipc) vm) (cycles f threaded stop (i + 1) ipc (clear vm)))
      → LoopShows (resume s (run (f * ipc))) (cycles (suc f) threaded stop i ipc m)
  unfolding cycles
  cycles_step f i ipc m (running vm) e next_cycles = rw (quiet i) (rw e (next_cycles vm))
  cycles_step f i ipc m (halted vm) e next_cycles = rw (quiet i) (rw e (i + 1, refl))
  cycles_step f i ipc m (failed r) (vm, e) next_cycles = rw (quiet i) (rw e (vm, i + 1, refl))

  cycles-LoopShows :
      (f i ipc : ℕ) (vm : Vm)
      → LoopShows (run (f * ipc) vm) (cycles f threaded stop i ipc (clear vm))
  unfolding cycles run
  cycles-LoopShows zero i ipc vm = let e : 0 * ipc ≡ 0 = omega arith in rw e refl
  cycles-LoopShows (suc f) i ipc vm =
      let e : suc f * ipc ≡ ipc + f * ipc = omega arith in
      rw e (
        rw (run-add ipc (f * ipc) vm) (
          cycles_step f i ipc (clear vm) (run ipc vm) (cycle_entry-Shows ipc vm)
            (cycles-LoopShows f (i + 1) ipc)))

  -- What start_interpreter makes of the place where a run stands.
  abbrev pub Reports : Kernel → Status → Outcome (ℤ × Kernel) → Type 0
  Reports k (running vm) o = o ≡ out_of_fuel
  Reports k (halted vm) o = o ≡ ok (pos 0, record k { machine = at_end vm })
  Reports k (failed e) o =
      (vm : Vm) × (o ≡ ok (pos (error_code e), record k { machine = at_error e vm }))

  reports :
      (k : Kernel) (s : Status) (o : Outcome (Machine × ℕ))
      → LoopShows s o
      → Reports k s (then_run o λ r. finish_run k (result_of threaded stop r))
  reports k (running vm) o e = rw e refl
  reports k (halted vm) o (i, e) = rw e (rw (quiet i) refl)
  reports k (failed r) o (vm, i, e) = rw e (vm, rw (quiet i) refl)

  -- An interpreter that is not told to stop reports where the run of its instructions stands, however
  -- they are cut into cycles: with fuel for `f` cycles of the context's length, it is still running
  -- where `f` times as many instructions leave the program running; it returns 0, in the state in
  -- which the program has halted; and it returns the code of the error with which the program fails.
  pub start_interpreter-Reports :
      (f : ℕ) (env : Env) (ctx : RuntimeCtx) (k : Kernel)
      → Reports k
          (run (f * ctx.ipc) (loaded env ctx k).vm)
          (start_interpreter f env ctx threaded stop k)
  unfolding start_interpreter loaded
  start_interpreter-Reports f env ctx k =
      reports k (run (f * ctx.ipc) (loaded env ctx k).vm)
        (cycles f threaded stop 0 ctx.ipc (loaded env ctx k))
        (cycles-LoopShows f 0 ctx.ipc (loaded env ctx k).vm)
