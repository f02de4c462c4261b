-- ===== src/Backend/Tests.antt =====
-- A program on the interpreter, invoked from user space, and the theorems at concrete inputs.
use bispe.Base.{
  faults, ℕ, ◌+◌, ◌-◌, ◌*◌, ◌/◌, ◌<◌, ◌≡◌, refl, arith, Bool, true, false, not, Option, none, some,
  List, [], ◌∷◌, ◌==◌, if◌then◌else◌, Result, returned, exited, faulted, Outcome, ok, ℤ, pos,
}
use mathlib.Core.Bool.{xor}
use bispe.Backend.Vm.Defs.{Vm}
use bispe.Backend.Vm.Exec.{step, run}
use bispe.Backend.Session.Kernel.{Kernel, Env}
use bispe.Backend.Session.Context.{InvokeCtx, RuntimeCtx, init_interpreter, segments_fit}
use bispe.Backend.Session.Cycles.{loaded, start_interpreter}
use bispe.Backend.Session.Invoke.{Created, Schedule, Invoked, invoke_interpreter, never}
use bispe.Backend.Session.Runs.{Reports, start_interpreter-Reports}
use bispe.Backend.Session.Results.{Ends, invoke_interpreter-Ends}
use bispe.Backend.Memory.Cbc.{Cipher, IsCipher, decrypt_memory_cbc, encrypt_reg_cbc_chain}
use bispe.Backend.Memory.Chain.{decrypt_memory_cbc-encrypt_reg_cbc_chain}
use bispe.Backend.Memory.Encrypt.{encrypt_code}
use bispe.Backend.Memory.Code.{decrypt-encrypt_code}

abbrev idle_vm : Vm
idle_vm = record {
  code_seg = λ i. 0;
  code_size = 0;
  stack_seg = λ i. 0;
  stack_size = 0;
  call_seg = λ i. 0;
  call_size = 0;
  print_seg = λ i. 0;
  print_size = 0;
  argv = [];
  instr_ptr = 0;
  stack_ptr = 0;
  call_ptr = 0;
  print_ptr = 0;
}

-- The static sizes are those of a run before, with larger segments.
abbrev sized_vm : Vm
sized_vm = record idle_vm { stack_size = 400; call_size = 400; print_size = 400 }

abbrev pub idle : Kernel
idle = record {
  calls = 0;
  live = [];
  sizes = λ i. 0;
  mem = λ b i. 0;
  machine = record { vm = sized_vm; halt_flag = false; error = 0 };
  locked = false;
  finish_count = 0;
}

-- push 7; print; finish, behind an initialisation vector, in a cipher that changes nothing.
abbrev print_seven : List ℕ
print_seven = 0 ∷ 0 ∷ 0 ∷ 0 ∷ 2 ∷ 7 ∷ 3 ∷ 1 ∷ []

abbrev first : Kernel
first = record idle { machine = record { vm = idle_vm; halt_flag = false; error = 0 } }

abbrev pub roomy_env : Env
roomy_env = record {
  alloc = λ n size. true;
  user = λ p n. some print_seven;
  random = λ b i. 0;
  decrypted = λ words i. words (i + 4);
}

abbrev request : InvokeCtx
request = record {
  stack_size = 0;
  call_size = 0;
  ipc = 0;
  code_buf = record { ptr = 0; size = 32 };
  arg_buf = record { ptr = 0; size = 0 };
  result = 0;
  out_buf = record { ptr = 0; size = 40 };
}

abbrev pub undisturbed : Schedule
undisturbed = record { created = Created.created; signal = false; stop_from = 0 }

abbrev nothing : RuntimeCtx
nothing = record {
  block = 0;
  code_seg_bp = none;
  stack_seg_bp = none;
  call_seg_bp = none;
  print_seg_bp = none;
  code_seg_size = 0;
  stack_seg_size = 0;
  call_seg_size = 0;
  print_seg_size = 0;
  argc = 0;
  argv = none;
  ipc = 0;
}

abbrev context_of : Result (Option RuntimeCtx × Kernel) → RuntimeCtx × Kernel
context_of (returned (some ctx, k)) = (ctx, k)
context_of (returned (none, k)) = (nothing, k)
context_of exited = (nothing, idle)
context_of faulted = (nothing, idle)

seven : RuntimeCtx × Kernel
unfolding init_interpreter
seven = context_of (init_interpreter roomy_env request (record idle { locked = true }))

seven_initialised :
    init_interpreter roomy_env request (record idle { locked = true })
    ≡ returned (some seven.0, seven.1)
unfolding init_interpreter seven
seven_initialised = refl

seven_fits : segments_fit seven.0 seven.1 ≡ true
unfolding seven segments_fit init_interpreter
seven_fits = refl

-- In the first run the static sizes are 0, and the blocks are too small.
invoke_interpreter-first : invoke_interpreter 1 roomy_env request 72 undisturbed first ≡ faults
unfolding invoke_interpreter
invoke_interpreter-first = refl

abbrev answered : Outcome Invoked → Option (ℕ × List ℕ × Option ℤ)
answered (ok i) = some (i.written, i.output, i.put_result)
answered o = none

invoke_interpreter-seven :
    answered (invoke_interpreter 1 roomy_env request 72 undisturbed idle)
    ≡ some (4, 7 ∷ [], some (pos 0))
unfolding invoke_interpreter step
invoke_interpreter-seven = refl

start_interpreter-Reports_example :
    Reports false never
      (λ i. refl)
      seven.1
      (run (1 * seven.0.ipc) (loaded roomy_env seven.0 seven.1).vm)
      (start_interpreter 1 roomy_env seven.0 false never seven.1)
start_interpreter-Reports_example =
    start_interpreter-Reports false never (λ i. refl) 1 roomy_env seven.0 seven.1

invoke_interpreter-Ends_example :
    Ends request idle seven.1
      (run (1 * seven.0.ipc) (loaded roomy_env seven.0 seven.1).vm)
      (invoke_interpreter 1 roomy_env request 72 undisturbed idle)
invoke_interpreter-Ends_example =
    invoke_interpreter-Ends 1 roomy_env request 72 undisturbed idle (λ n. refl)
      (λ p n. (print_seven, refl)) refl seven.0 seven.1 seven_initialised seven_fits refl refl refl
      refl refl refl refl

-- A cipher on Booleans.
abbrev flip : Cipher Bool
flip = record { encblk = not; decblk = not; xor = xor }

flip-IsCipher : IsCipher flip
unfolding xor
flip-IsCipher = record { decblk-encblk = not_not; xor-xor = xor_xor }
  where
    not_not : (b : Bool) → not (not b) ≡ b
    not_not true = refl
    not_not false = refl

    xor_xor : (a b : Bool) → xor (xor a b) b ≡ a
    xor_xor true true = refl
    xor_xor true false = refl
    xor_xor false true = refl
    xor_xor false false = refl

abbrev zeros : ℕ → Bool
zeros i = false

decrypt_memory_cbc-encrypt_reg_cbc_chain_example :
    decrypt_memory_cbc flip (encrypt_reg_cbc_chain flip true zeros 2 3) 2
    ≡ (if 2 == 2 then true else decrypt_memory_cbc flip zeros 2)
decrypt_memory_cbc-encrypt_reg_cbc_chain_example =
    decrypt_memory_cbc-encrypt_reg_cbc_chain flip flip-IsCipher true zeros 2 3 2 (omega arith)

decrypt-encrypt_code_example :
    (lines : ℕ → Bool) × (k' : Kernel) × (encrypt_code flip roomy_env (some zeros) 48 16 idle
      ≡ returned ((48, some lines), k'))
    × (k'.live ≡ [])
    × (lines 0 ≡ false)
    × ((j : ℕ) → j < 48 / 16 - 1 → decrypt_memory_cbc flip lines j ≡ false)
decrypt-encrypt_code_example =
    decrypt-encrypt_code flip flip-IsCipher roomy_env zeros 48 idle refl refl
