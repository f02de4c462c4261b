-- ===== src/Frontend/Tests.antt =====
-- The frontend on small inputs.
use bispe.Base.{
  Bytes, returned, ℕ, ◌/◌, ◌≡◌, refl, sym, ap, ◌∙◌, true, false, Option, none, some, List, [], ◌∷◌,
  codes, str_eq, if◌then◌else◌, length, pos, arith,
}
use bispe.Backend.Vm.Defs.{div_zero, error_code}
use bispe.Compiler.Tests.{
  zeros, length-zeros, zero_malloc, zero_malloc-IsMalloc, zero_realloc, zero_realloc-IsRealloc,
}
use bispe.Frontend.Numbers.{parse_arg, print_int}
use bispe.Frontend.Numbers.Decimal.{parse_arg-print_int}
use bispe.Frontend.Arguments.{
  Opt, stack_size, Settings, defaults, parse_options, parse_args, read_password,
}
use bispe.Frontend.Main.{quiet, known, message_of, System, main}
use bispe.Frontend.Main.Shows.{
  message_of-error_code, IsBackend, IsPrintBlock, Reports, main-Reports,
}
use bispe.Frontend.Hook.{hook, hook-IsBackend}
use bispe.Backend.Tests.{roomy_env, undisturbed, idle}
use bispe.Backend.Vm.Exec.{step}
use bispe.Frontend.Passwords.{IsTyped, read_password_lem}

parse_arg-print_int_example : parse_arg (print_int 4294967295) ≡ some 4294967295
parse_arg-print_int_example = parse_arg-print_int 4294967295 (omega arith)

read_password_lem_example : read_password (98 ∷ 10 ∷ []) (7 ∷ 7 ∷ []) ≡ 98 ∷ 7 ∷ []
read_password_lem_example =
    read_password_lem (98 ∷ []) [] (7 ∷ []) (7 ∷ []) (IsTyped.cons refl refl IsTyped.nil) refl

-- The same, for the theorem on the frontend.
hooked : IsBackend (hook 1 roomy_env undisturbed idle)
hooked = hook-IsBackend 1 roomy_env undisturbed idle (λ n. refl) cc

abbrev zero_print_block : ℕ → Option (List ℕ)
zero_print_block n = some (zeros (n / 4))

zero_print_block-IsPrintBlock : IsPrintBlock zero_print_block
zero_print_block-IsPrintBlock n block e =
    let same : zeros (n / 4) ≡ block = cc in sym (ap length same) ∙ length-zeros (n / 4)

-- push 7; print; finish, behind 16 bytes.
abbrev print_seven_file : Bytes
print_seven_file =
    0 ∷ 0 ∷ 0 ∷ 0 ∷ 0 ∷ 0 ∷ 0 ∷ 0 ∷ 0 ∷ 0 ∷ 0 ∷ 0 ∷ 0 ∷ 0 ∷ 0 ∷ 0 ∷ 2 ∷ 0 ∷ 0 ∷ 0 ∷ 7 ∷ 0 ∷ 0 ∷ 0
    ∷ 3 ∷ 0 ∷ 0 ∷ 0 ∷ 1 ∷ 0 ∷ 0 ∷ 0 ∷ []

abbrev small_system : System
small_system = record {
  files = λ name. if str_eq name (codes "p") then some (false, print_seven_file) else none;
  malloc = zero_malloc;
  realloc = zero_realloc;
  print_block = zero_print_block;
  answer = none;
  password = [];
  password_fails = true;
  junk = [];
  store = λ pw. false;
  invoke = hook 1 roomy_env undisturbed idle;
}

abbrev few : Settings
few = record defaults { stack = 20 }

abbrev options : List Opt
options = stack_size (codes "20") ∷ []

options-few : parse_options options defaults ≡ some few
unfolding parse_options
options-few = refl

numbers : parse_args (codes "7" ∷ []) ≡ some (7 ∷ [])
unfolding parse_args
numbers = refl

main-Reports_example :
    Reports small_system few none print_seven_file
      (7 ∷ [])
      false
      (main small_system options (codes "p" ∷ codes "7" ∷ []))
unfolding str_eq
main-Reports_example =
    main-Reports small_system options (codes "p") (codes "7" ∷ []) few (7 ∷ []) false
      print_seven_file hooked zero_print_block-IsPrintBlock zero_malloc-IsMalloc
      zero_realloc-IsRealloc options-few refl numbers refl

message_of-error_code_example :
    (help : Option Bytes) × (message_of (pos (error_code div_zero))
      ≡ returned (known (error_code div_zero) (codes "division by zero") help))
message_of-error_code_example = message_of-error_code div_zero

-- The program that the hook runs, and what it has printed is shown.
main-seven :
    main small_system options (codes "p" ∷ codes "7" ∷ [])
    ≡ returned (record { status = 0; stored = none; message = quiet; words = 7 ∷ [] })
unfolding main hook str_eq step
main-seven = refl
