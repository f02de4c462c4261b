-- ===== src/Backend/Vm/Runs.antt =====
-- Runs of the interpreter in pieces: a cycle ends after any number of instructions.
use mathlib.Core.Path.{fun_ext}
use bispe.Base.{ℕ, zero, suc, ◌+◌, ◌≡◌, refl, sym, ap, ◌∙◌, arith}
use bispe.Backend.Vm.Defs.{Vm, next}
use bispe.Backend.Vm.Exec.{more, step, Status, running, halted, failed, status, resume, run}

pub resume_assoc :
    (s : Status) (k l : Vm → Status) → resume (resume s k) l ≡ resume s (λ vm. resume (k vm) l)
resume_assoc (running vm) k l = refl
resume_assoc (halted vm) k l = refl
resume_assoc (failed e) k l = refl

-- Running `m + n` instructions is running `m`, and then `n` from where these have stopped, unless
-- the program has ended or failed before: it makes no difference for the result where one cycle
-- ends and the next one begins.
pub run-add : (m n : ℕ) (vm : Vm) → run (m + n) vm ≡ resume (run m vm) (run n)
unfolding run
run-add zero n vm = ap (λ k. run k vm) (omega arith)
run-add (suc m) n vm =
    let e : suc m + n ≡ suc (m + n) = omega arith in
    ap (λ k. run k vm) e
    ∙ (ap (resume (status (step vm))) (fun_ext (run-add m n))
        ∙ sym (resume_assoc (status (step vm)) (run m) (run n)))

-- One instruction that goes on.
pub run_one : (vm vm' : Vm) → step vm ≡ next more vm' → run 1 vm ≡ running vm'
unfolding run
run_one vm vm' e = rw e refl
