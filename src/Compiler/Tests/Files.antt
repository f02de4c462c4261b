-- ===== src/Compiler/Tests/Files.antt =====
-- The compiler's main on a small file system.
use bispe.Base.{
  ◌≡◌, refl, false, none, some, List, [], ◌∷◌, Bytes, codes, str_eq, if◌then◌else◌, Outcome, ok,
  ◌⊎◌,
}
use bispe.Compiler.Symbols.{func_info_hash, var_info_hash, add_func}
use bispe.Compiler.Generator.Defs.{push, push_func_prolog, push_func_epilog}
use bispe.Compiler.Driver.Main.{Opt, unencrypted, System, refuses, Exit, failure, main}
use bispe.Compiler.Driver.Main.Stages.{Ends, BreaksOff, Refuses, Compiles}
use bispe.Compiler.Driver.Main.Phases.{main-Compiles}
use bispe.Compiler.Parser.Grammar.{productions}
use bispe.Compiler.Token.{token_eq}
use bispe.Compiler.Instr.{width}
use bispe.Compiler.Parser.Match.{create_child}
use bispe.Compiler.Ast.Create.{create_node, create_empty}
use bispe.Compiler.Ast.Register.{
  register_args, register_loc_vars, calculate_arg_addresses, check_return_validity,
}
use bispe.Compiler.Tests.{
  assoc, search_assoc, start, zero_malloc, zero_realloc, zero_random, zero_malloc-IsMalloc,
  zero_realloc-IsRealloc, zero_random-IsRandom,
}

abbrev print_one : Bytes
print_one = codes "void main(void) { print 1; }"

-- One file, a kernel module that refuses, and no place to write to but one.
abbrev small_system : System
small_system = record {
  files = λ name. if str_eq name (codes "a.scl") then some (false, print_one) else none;
  malloc = zero_malloc;
  realloc = zero_realloc;
  random = zero_random;
  crypto = λ words. refuses;
  writable = λ name. str_eq name (codes "a.scle");
}

main-Compiles_example :
    Ends
      (BreaksOff assoc start small_system (unencrypted ∷ []) (codes "a.scl" ∷ []))
      (λ e.
        Refuses assoc start small_system (unencrypted ∷ []) (codes "a.scl" ∷ []) e
        ⊎ Compiles assoc start small_system (unencrypted ∷ []) (codes "a.scl" ∷ []) e)
      (main assoc start small_system (unencrypted ∷ []) (codes "a.scl" ∷ []))
main-Compiles_example =
    main-Compiles assoc start small_system zero_malloc-IsMalloc zero_realloc-IsRealloc
      zero_random-IsRandom (unencrypted ∷ []) (codes "a.scl" ∷ [])

run_main : List Opt → Outcome Exit
unfolding main search_assoc func_info_hash var_info_hash push push_func_prolog push_func_epilog
    productions token_eq create_child create_node add_func register_args register_loc_vars
    create_empty calculate_arg_addresses check_return_validity width
run_main opts = main assoc start small_system opts (codes "a.scl" ∷ [])

-- Without `-u` the kernel module would have to encrypt.
main-refused : run_main [] ≡ ok failure
unfolding run_main
main-refused = refl

-- call main; finish; push 1; print; ret; finish
main-plain :
    run_main (unencrypted ∷ [])
    ≡ ok (record {
      status = 0;
      written = some (codes "a.scle", 18 ∷ 3 ∷ 1 ∷ 2 ∷ 1 ∷ 3 ∷ 19 ∷ 1 ∷ []);
    })
unfolding run_main
main-plain = refl
