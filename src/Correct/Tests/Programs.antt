-- ===== src/Correct/Tests/Programs.antt =====
-- Instances of the theorems on whole statements and functions.
use bispe.Base.{ℕ, ◌+◌, ◌≡◌, refl, false, List, [], ◌∷◌, ◌++◌, codes, returned, arith}
use bispe.Compiler.Symbols.{dtype_int, FuncInfo}
use bispe.Compiler.Ast.Nodes.{
  ast_branch, ast_loop, ast_print, ast_sequence, ast_var_assign, unset, var, Node, null, node,
  ast_return, func,
}
use bispe.Compiler.Tests.{Assoc, assoc}
use bispe.Compiler.Instr.{
  width, instr_prolog, instr_push, instr_load, instr_jge, instr_epilog, instr_ret,
  boolop_to_jmp_instr, neg_jmp_instr,
}
use bispe.Compiler.Codebuf.Layout.{encode}
use bispe.Compiler.Generator.Defs.{
  Code, code, Gen, generate_helper, generate_function, numop_instr, push, push_func_epilog,
}
use bispe.Compiler.Generator.Exprs.{literal, identifier, append_code}
use bispe.Compiler.Generator.Jumps.{lt, with_code}
use bispe.Compiler.Generator.Stmts.{
  Stmt, assign, print, seq, while, IsStmt, is_print, is_assign, is_sequence, is_while,
  StmtPositions, stmt_code, stmt_size,
}
use bispe.Compiler.Generator.Compiles.{done, generate_helper-stmt}
use bispe.Compiler.Generator.Functions.{prolog_code, entered, closing_code, generate_function_lem}
use bispe.Correct.Tests.{
  gen, vm, symbols, pos, a_ref, a_info, seven_tree, a_tree, less_tree, seven-IsExpr, a-IsExpr,
  less-IsCond, a-Positions, seven-Positions, segment,
}
use bispe.Backend.Vm.Defs.{Vm}
use bispe.Correct.Steps.{Words}
use bispe.Correct.Exprs.{eval}
use bispe.Correct.Semantics.{
  Vars, write, Executes, of_while_turn, of_while_end, of_seq, of_print, of_assign,
}
use bispe.Correct.Reaches.{Reaches}
use bispe.Correct.Generated.{run-generate_helper-stmt}

-- `while(7 < a) { print a; a = 7; }`
abbrev loop_stmt : Stmt
loop_stmt =
    while lt (literal 7) (identifier a_ref)
      (seq (print (identifier a_ref)) (assign a_ref (literal 7)))

abbrev loop_tree : Node
loop_tree =
    node ast_loop unset less_tree
      (node ast_sequence unset (node ast_print unset a_tree null null)
        (node ast_var_assign (var a_ref) seven_tree null null) null)
      null

loop-IsStmt : IsStmt loop_tree loop_stmt
loop-IsStmt = is_while {v = unset} less-IsCond (
    is_sequence {v = unset} (is_print {v = unset} {m = null} {r = null} a-IsExpr)
      (is_assign {m = null} {r = null} seven-IsExpr))

loop-StmtPositions : StmtPositions symbols pos loop_stmt
unfolding StmtPositions
loop-StmtPositions = (seven-Positions, a-Positions, (a-Positions, (a-Positions, seven-Positions)))

generate_helper-stmt_example :
    generate_helper assoc loop_tree gen
    ≡ done gen (gen.elems ++ stmt_code pos gen.size loop_stmt) (gen.size + stmt_size pos loop_stmt)
generate_helper-stmt_example = generate_helper-stmt assoc pos loop-IsStmt gen loop-StmtPositions

abbrev loop_gen : Gen Assoc
loop_gen =
    with_code gen (gen.elems ++ stmt_code pos gen.size loop_stmt)
      (gen.size + stmt_size pos loop_stmt)

-- Its code, in front of `finish`, and `a` is 9.
abbrev loop_words : List ℕ
loop_words = 0x0B ∷ 9 ∷ 4 ∷ 1 ∷ 3 ∷ 2 ∷ 7 ∷ 5 ∷ 1 ∷ 2 ∷ 7 ∷ 4 ∷ 1 ∷ 0x0E ∷ 2 ∷ 1 ∷ []

abbrev loop_vm : Vm
loop_vm = record vm { code_seg = segment loop_words; code_size = 64; call_seg = λ p. 9 }

loop-Words : Words (encode (loop_gen.elems ++ [])) (segment loop_words) 0
unfolding encode width
loop-Words = (
  refl,
  (
    refl,
    (
      refl,
      (
        refl,
        (refl, (refl, (refl, (refl, (refl, (refl, (refl, (refl, (refl, (refl, (refl, tt))))))))))),
      ),
    ),
  ),
)

abbrev nine : Vars
nine p = 9

loop-Executes : Executes pos loop_stmt nine (9 ∷ []) (write nine 1 7)
unfolding eval
loop-Executes =
    of_while_turn {vars' = write nine 1 7} {us = 9 ∷ []} {vs = []} refl
      (of_seq {vars' = nine} {us = 9 ∷ []} {vs = []} (of_print {v = 9} refl refl refl)
        (of_assign {v = 7} refl refl refl) refl)
      (of_while_end refl refl refl) refl

run-generate_helper-stmt_example : Reaches loop_vm gen.size loop_gen.size (9 ∷ []) (write nine 1 7)
unfolding width
run-generate_helper-stmt_example =
    run-generate_helper-stmt assoc loop-IsStmt pos gen loop_gen [] loop_vm nine (write nine 1 7)
      (9 ∷ []) loop-StmtPositions refl
      (generate_helper-stmt assoc pos loop-IsStmt gen loop-StmtPositions) loop-Words (omega arith)
      (
        tt,
        (omega arith, omega arith),
        ((omega arith, omega arith), ((omega arith, omega arith), tt)),
      )
      (omega arith, omega arith, (omega arith, omega arith)) (λ p h. refl) loop-Executes

-- The function `f` with the body `if(7 < a) { return; }`.
abbrev f_entry : FuncInfo Assoc
f_entry = record {
  name = codes "f";
  ret_type = dtype_int;
  prototyped = false;
  addr = 0;
  arg_count = 0;
  var_count = 1;
  max_call_size = 0;
  var_table = (codes "a", 0) ∷ [];
  vars = a_info ∷ [];
}

abbrev early_return : Node
early_return = node ast_branch unset less_tree (node ast_return unset null null null) null

-- The jump around the return goes to the word 11.
abbrev early_code : List Code
early_code =
    code instr_prolog 1
    ∷ code instr_push 7
    ∷ code instr_load 1
    ∷ code instr_jge 11
    ∷ code instr_epilog 1
    ∷ []

early_body :
    generate_helper assoc early_return (append_code (prolog_code f_entry) (entered 0 gen))
    ≡ returned (tt, with_code (entered 0 gen) (early_code ++ code instr_ret 0 ∷ []) 11)
unfolding generate_helper numop_instr boolop_to_jmp_instr neg_jmp_instr width push_func_epilog push
early_body = refl

generate_function_example :
    generate_function (func 0) (generate_helper assoc early_return) gen
    ≡ returned (
      tt,
      append_code
          (closing_code f_entry (code instr_ret 0))
          (with_code (entered 0 gen) (early_code ++ code instr_ret 0 ∷ []) 11),
    )
generate_function_example =
    generate_function_lem 0 f_entry (generate_helper assoc early_return) gen early_code
      (code instr_ret 0) 11 refl early_body
