-- ===== src/Backend/Session/Prints.antt =====
-- The ring buffer of printed words never leaves its segment.
use bispe.Base.{
  ℕ, zero, suc, ◌+◌, ◌*◌, ◌<◌, ◌≡◌, ◌⊎◌, inl, refl, Bool, false, ◌&&◌, arith, if_holds, Outcome, ok,
  exits, faults, out_of_fuel, then_run, ℤ, pos,
}
use bispe.Backend.Vm.Defs.{Vm, Step, next, fail}
use bispe.Backend.Vm.Exec.{Flow, more, halt, jmp_through_table, step}
use bispe.Backend.Session.Kernel.{Machine, Kernel, Env}
use bispe.Backend.Session.Context.{RuntimeCtx}
use bispe.Backend.Session.Cycles.{
  flagged, cycle_entry, cycles, result_of, loaded, finish_run, start_interpreter,
}

-- The print pointer is in its segment of `size` bytes, or at its beginning.
abbrev pub InBuffer : ℕ → Vm → Type 0
InBuffer size vm = (vm.print_size ≡ size) × ((vm.print_ptr ≡ 0) ⊎ (4 * vm.print_ptr < size))

-- If an instruction goes on, `P` holds of the state that it leaves.
abbrev Leaves {ℓ} : {A : Type ℓ} → (Vm → Type 0) → Step A → Type 0
Leaves P (next a vm) = P vm
Leaves P (fail e) = Unit

-- The routine returns with `P`, or is still running when the fuel is used up.
abbrev pub Gives {ℓ} : {A : Type ℓ} → (A → Type 0) → Outcome A → Type 0
Gives P (ok a) = P a
Gives P exits = ⊥
Gives P faults = ⊥
Gives P out_of_fuel = Unit

pub Gives-then {ℓ κ} :
    {A : Type ℓ} {B : Type κ} (P : A → Type 0) (Q : B → Type 0) (o : Outcome A) (f : A → Outcome B)
    → Gives P o
    → ((a : A) → P a → Gives Q (f a))
    → Gives Q (then_run o f)
Gives-then P Q (ok a) f h k = k a h
Gives-then P Q exits f h k = h
Gives-then P Q faults f h k = h
Gives-then P Q out_of_fuel f h k = tt

pub Gives-map {ℓ} :
    {A : Type ℓ} (P Q : A → Type 0) (o : Outcome A) → Gives P o → ((a : A) → P a → Q a) → Gives Q o
Gives-map P Q (ok a) h k = k a h
Gives-map P Q exits h k = h
Gives-map P Q faults h k = h
Gives-map P Q out_of_fuel h k = tt

pub Gives-both {ℓ} :
    {A : Type ℓ} (P Q : A → Type 0) (o : Outcome A)
    → Gives P o
    → Gives Q o
    → Gives (λ a. P a × Q a) o
Gives-both P Q (ok a) h k = (h, k)
Gives-both P Q exits h k = h
Gives-both P Q faults h k = h
Gives-both P Q out_of_fuel h k = tt

jmp_through_table-InBuffer :
    (size op : ℕ) (vm : Vm) → InBuffer size vm → Leaves (InBuffer size) (jmp_through_table op vm)
unfolding jmp_through_table
jmp_through_table-InBuffer size op vm h = ground arith

flagged-InBuffer :
    (size : ℕ) (m : Machine) (go : Machine → Machine) (s : Step Flow)
    → InBuffer size m.vm
    → ((vm : Vm) → InBuffer size vm → InBuffer size (go (record m { vm = vm })).vm)
    → Leaves (InBuffer size) s
    → InBuffer size (flagged s m go).vm
flagged-InBuffer size m go (next more vm) h ih b = ih vm b
flagged-InBuffer size m go (next halt vm) h ih b = b
flagged-InBuffer size m go (fail e) h ih b = h

cycle_entry-InBuffer :
    (size n : ℕ) (m : Machine) → InBuffer size m.vm → InBuffer size (cycle_entry n m).vm
unfolding cycle_entry step
cycle_entry-InBuffer size zero m h = h
cycle_entry-InBuffer size (suc n) m h =
    flagged-InBuffer size m (cycle_entry n) (step m.vm) h
      (λ vm b. cycle_entry-InBuffer size n (record m { vm = vm }) b)
      (jmp_through_table-InBuffer size (m.vm.code_seg m.vm.instr_ptr) m.vm h)

-- In any number of cycles.
cycles-InBuffer :
    (size f : ℕ) (threaded : Bool) (stop : ℕ → Bool) (i ipc : ℕ) (m : Machine)
    → InBuffer size m.vm
    → Gives (λ r. InBuffer size r.0.vm) (cycles f threaded stop i ipc m)
unfolding cycles
cycles-InBuffer size zero threaded stop i ipc m h = tt
cycles-InBuffer size (suc f) threaded stop i ipc m h =
    let h' : InBuffer size (cycle_entry ipc m).vm = cycle_entry-InBuffer size ipc m h in
    let rest = cycles-InBuffer size f threaded stop (i + 1) ipc (cycle_entry ipc m) h' in
    if_holds (Gives (λ (r : Machine × ℕ). InBuffer size r.0.vm)) (threaded && stop i) h (
      if_holds (Gives (λ (r : Machine × ℕ). InBuffer size r.0.vm)) (cycle_entry ipc m).halt_flag h'
        rest)

-- Where the print pointer is behind a run, and what the run leaves alone.
abbrev pub Ran : ℕ → Kernel → ℤ × Kernel → Type 0
Ran size k (r, k') =
    InBuffer size k'.machine.vm
    × (k'.live ≡ k.live)
    × (k'.locked ≡ k.locked)
    × (k'.finish_count ≡ k.finish_count)

result_of-Ran :
    (size : ℕ) (threaded : Bool) (stop : ℕ → Bool) (k : Kernel) (r : Machine × ℕ)
    → InBuffer size r.0.vm
    → Gives (Ran size k) (finish_run k (result_of threaded stop r))
result_of-Ran size threaded stop k (m, i) h = ground arith

pub start_interpreter-Ran :
    (f : ℕ) (env : Env) (ctx : RuntimeCtx) (threaded : Bool) (stop : ℕ → Bool) (k : Kernel)
    → Gives (Ran ctx.print_seg_size k) (start_interpreter f env ctx threaded stop k)
unfolding start_interpreter loaded
start_interpreter-Ran f env ctx threaded stop k =
    Gives-then (λ (r : Machine × ℕ). InBuffer ctx.print_seg_size r.0.vm) (Ran ctx.print_seg_size k)
      (cycles f threaded stop 0 ctx.ipc (loaded env ctx k))
      (λ r. finish_run k (result_of threaded stop r))
      (cycles-InBuffer ctx.print_seg_size f threaded stop 0 ctx.ipc (loaded env ctx k)
        (refl, inl refl))
      λ r h. result_of-Ran ctx.print_seg_size threaded stop k r h

-- The result of an interpreter that is not told to stop.
abbrev pub IsCode : ℤ × Kernel → Type 0
IsCode (r, k) = (code : ℕ) × (r ≡ pos code)

module _ (threaded : Bool) (stop : ℕ → Bool) (quiet : (i : ℕ) → (threaded && stop i) ≡ false) where
  finish_run-IsCode :
      (size : ℕ) (k : Kernel) (o : Outcome (Machine × ℕ))
      → Gives (λ r. InBuffer size r.0.vm) o
      → Gives IsCode (then_run o λ r. finish_run k (result_of threaded stop r))
  finish_run-IsCode size k (ok (m, i)) h = rw (quiet i) (
      if_holds (λ (r : ℤ × Machine). IsCode (r.0, k)) m.halt_flag {x = (pos m.error, m)}
        {y = (pos 0, m)} (m.error, refl) (0, refl))
  finish_run-IsCode size k exits h = h
  finish_run-IsCode size k faults h = h
  finish_run-IsCode size k out_of_fuel h = h

  pub start_interpreter-IsCode :
      (f : ℕ) (env : Env) (ctx : RuntimeCtx) (k : Kernel)
      → Gives IsCode (start_interpreter f env ctx threaded stop k)
  unfolding start_interpreter loaded
  start_interpreter-IsCode f env ctx k =
      finish_run-IsCode ctx.print_seg_size k (cycles f threaded stop 0 ctx.ipc (loaded env ctx k)) (
        cycles-InBuffer ctx.print_seg_size f threaded stop 0 ctx.ipc (loaded env ctx k)
          (refl, inl refl))
