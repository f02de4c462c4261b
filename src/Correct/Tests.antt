-- ===== src/Correct/Tests.antt =====
-- Instances of the theorems on generated code: `7 / a`, a branch and a loop on `7 < a`.
pub mod Programs
use bispe.Base.{
  ℕ, ◌+◌, ◌-◌, ◌≡◌, refl, true, false, none, some, List, [], ◌∷◌, ◌++◌, codes, returned, arith,
  length, get_elem?,
}
use bispe.Compiler.Token.{tok_slash, tok_lt}
use bispe.Compiler.Symbols.{dtype_int, Symbols, VarInfo, VarRef, FuncInfo}
use bispe.Compiler.Ast.Nodes.{
  ast_empty, ast_identifier, ast_intliteral, ast_expression, ast_expression1, ast_numop,
  ast_numop_leaf, ast_boolop, ast_boolop_leaf, ast_condition, ast_branch, ast_loop, ast_print,
  ast_sequence, ast_var_assign, unset, type, number, var, Node, null, node, leaf, ast_return, func,
}
use bispe.Compiler.Tests.{Assoc, assoc}
use bispe.Compiler.Instr.{
  instr_jmp, width, instr_prolog, instr_push, instr_load, instr_jge, instr_epilog, instr_ret,
  boolop_to_jmp_instr, neg_jmp_instr,
}
use bispe.Compiler.Codebuf.Layout.{encode}
use bispe.Compiler.Generator.Defs.{
  Code, code, Gen, start_gen, generate_helper, generate_function, numop_instr, push,
  push_func_epilog,
}
use bispe.Compiler.Generator.Exprs.{
  slash, Expr, literal, identifier, binary, IsExpr, is_literal, is_identifier, is_expression1,
  is_expression, is_binary, Positions, append_code, code_of, code_size, generate_helper-expr,
}
use bispe.Compiler.Generator.Jumps.{lt, cmp_instr, opposite, IsCond, is_cond, with_code}
use bispe.Compiler.Generator.Statements.{cond_code, generate_helper-branch, generate_helper-while}
use bispe.Compiler.Generator.Stmts.{
  Stmt, assign, seq, while, IsStmt, is_print, is_assign, is_sequence, is_while, StmtPositions,
  stmt_code, stmt_size,
}
use bispe.Compiler.Generator.Compiles.{done, generate_helper-stmt}
use bispe.Compiler.Generator.Functions.{prolog_code, entered, closing_code, generate_function_lem}
use bispe.Backend.Vm.Defs.{Vm}
use bispe.Backend.Vm.Exec.{resume, run}
use bispe.Correct.Steps.{Words, variable}
use bispe.Correct.Exprs.{Computed, both, eval}
use bispe.Correct.Semantics.{
  Vars, write, Executes, of_while_turn, of_while_end, of_seq, of_print, of_assign,
}
use bispe.Correct.Reaches.{Reaches}
use bispe.Correct.Generated.{run-generate_helper, run-generate_helper-stmt}
use bispe.Correct.Jumps.{Branched, holds, run-cond_code}

-- A function with the variable `a` at position 1.
abbrev pub a_ref : VarRef
a_ref = record { func = 0; var = 0 }

abbrev pub a_info : VarInfo
a_info = record { name = codes "a"; type = dtype_int; pos = 1 }

abbrev pub symbols : Symbols Assoc
symbols = record {
  func_table_init = true;
  func_table = (codes "f", 0) ∷ [];
  funcs =
      (record {
        name = codes "f";
        ret_type = dtype_int;
        prototyped = false;
        addr = 0;
        arg_count = 0;
        var_count = 1;
        max_call_size = 0;
        var_table = (codes "a", 0) ∷ [];
        vars = a_info ∷ [];
      })
      ∷ [];
  junk = 0;
}

abbrev pub pos : VarRef → ℕ
pos r = 1

abbrev pub seven_tree : Node
seven_tree =
    node ast_expression unset
      (node ast_expression1 unset (leaf ast_intliteral (number 7)) null null) null null

abbrev pub a_tree : Node
a_tree =
    node ast_expression unset
      (node ast_expression1 unset (leaf ast_identifier (var a_ref)) null null) null null

abbrev quotient : Expr
quotient = binary slash (literal 7) (identifier a_ref)

abbrev quotient_tree : Node
quotient_tree =
    node ast_expression unset seven_tree
      (node ast_numop unset (leaf ast_numop_leaf (type tok_slash)) null null) a_tree

pub seven-IsExpr : IsExpr seven_tree (literal 7)
seven-IsExpr = is_expression {v = unset} (is_expression1 {v = unset} is_literal)

pub a-IsExpr : IsExpr a_tree (identifier a_ref)
a-IsExpr = is_expression {v = unset} (is_expression1 {v = unset} is_identifier)

quotient-IsExpr : IsExpr quotient_tree quotient
quotient-IsExpr = is_binary {v = unset} {w = unset} {o = slash} seven-IsExpr a-IsExpr

abbrev pub gen : Gen Assoc
gen = start_gen assoc symbols

pub a-Positions : Positions symbols pos (identifier a_ref)
unfolding Positions
a-Positions = (a_info, refl, refl)

pub seven-Positions : Positions symbols pos (literal 7)
unfolding Positions
seven-Positions = tt

quotient-Positions : Positions symbols pos quotient
unfolding Positions
quotient-Positions = (seven-Positions, a-Positions)

generate_helper-expr_example :
    generate_helper assoc quotient_tree gen ≡ returned (tt, append_code (code_of pos quotient) gen)
generate_helper-expr_example = generate_helper-expr assoc quotient-IsExpr pos gen quotient-Positions

-- A segment with these words, and zeros behind them.
abbrev pub segment : List ℕ → ℕ → ℕ
segment ws p = elim (get_elem? ws p) [ none ↦ 0 | some w ↦ w ]

-- The code of `7 / a`, in front of `finish`, and `a` is 2.
abbrev pub vm : Vm
vm = record {
  code_seg = segment (2 ∷ 7 ∷ 4 ∷ 1 ∷ 9 ∷ 1 ∷ []);
  code_size = 32;
  stack_seg = λ p. 0;
  stack_size = 4096;
  call_seg = λ p. 2;
  call_size = 4096;
  print_seg = λ p. 0;
  print_size = 4096;
  argv = [];
  instr_ptr = 0;
  stack_ptr = 0;
  call_ptr = 1;
  print_ptr = 0;
}

quotient-Words :
    Words (encode (code_of pos quotient ++ [])) (segment (2 ∷ 7 ∷ 4 ∷ 1 ∷ 9 ∷ 1 ∷ [])) 0
unfolding encode
quotient-Words = (refl, (refl, (refl, (refl, (refl, tt)))))

run-generate_helper_example :
    Computed vm
      ((append_code (code_of pos quotient) gen).size - gen.size)
      (eval (λ r. variable vm (pos r)) quotient)
      (run (length (append_code (code_of pos quotient) gen).elems - length gen.elems) vm)
run-generate_helper_example =
    run-generate_helper assoc quotient-IsExpr pos gen (append_code (code_of pos quotient) gen) [] vm
      quotient-Positions refl
      (generate_helper-expr assoc quotient-IsExpr pos gen quotient-Positions) refl quotient-Words
      (tt, (omega arith, omega arith)) (omega arith)

abbrev pub less_tree : Node
less_tree =
    node ast_condition unset seven_tree
      (node ast_boolop unset (leaf ast_boolop_leaf (type tok_lt)) null null) a_tree

pub less-IsCond : IsCond less_tree lt (literal 7) (identifier a_ref)
less-IsCond = is_cond {v = unset} {w = unset} {c = lt} seven-IsExpr a-IsExpr

-- The code of the condition with a jump to 0, and `a` is 9.
abbrev vm_at_cond : Vm
vm_at_cond = record vm { code_seg = segment (2 ∷ 7 ∷ 4 ∷ 1 ∷ 0x0E ∷ 0 ∷ 1 ∷ []); call_seg = λ p. 9 }

less-Words :
    Words
      (encode (cond_code pos (literal 7) (identifier a_ref) ++ code (cmp_instr lt) 0 ∷ []))
      (segment (2 ∷ 7 ∷ 4 ∷ 1 ∷ 0x0E ∷ 0 ∷ 1 ∷ []))
      0
unfolding encode
less-Words = (refl, (refl, (refl, (refl, (refl, (refl, tt))))))

run-cond_code_example :
    Branched vm_at_cond
      (code_size (cond_code pos (literal 7) (identifier a_ref) ++ code (cmp_instr lt) 0 ∷ []))
      0
      (both
        (eval (λ r. variable vm_at_cond (pos r)) (literal 7))
        (eval (λ r. variable vm_at_cond (pos r)) (identifier a_ref))
        λ x y. some (holds lt x y))
      (run
        (length (cond_code pos (literal 7) (identifier a_ref) ++ code (cmp_instr lt) 0 ∷ []))
        vm_at_cond)
run-cond_code_example =
    run-cond_code pos lt (literal 7) (identifier a_ref) 0 vm_at_cond less-Words (omega arith) tt
      (omega arith, omega arith) (omega arith) (omega arith)

-- An empty sequence of statements.
abbrev empty : Node
empty = node ast_empty unset null null null

empty_body :
    generate_helper assoc empty (
      with_code gen
        ((gen.elems ++ cond_code pos (literal 7) (identifier a_ref))
          ++ code (cmp_instr (opposite lt)) 0 ∷ [])
        (gen.size
          + code_size (cond_code pos (literal 7) (identifier a_ref) ++ code (cmp_instr lt) 0 ∷ [])))
    ≡ returned (
      tt,
      with_code gen
          ((gen.elems ++ cond_code pos (literal 7) (identifier a_ref))
            ++ code (cmp_instr (opposite lt)) 0 ∷ [])
          6,
    )
unfolding generate_helper width
empty_body = refl

empty_loop :
    generate_helper assoc empty (with_code gen (gen.elems ++ code instr_jmp 0 ∷ []) (gen.size + 2))
    ≡ returned (tt, with_code gen (gen.elems ++ code instr_jmp 0 ∷ []) 2)
unfolding generate_helper
empty_loop = refl

generate_helper-branch_example :
    generate_helper assoc (node ast_branch unset less_tree empty null) gen
    ≡ returned (
      tt,
      with_code gen
          ((gen.elems ++ cond_code pos (literal 7) (identifier a_ref))
            ++ code (cmp_instr (opposite lt)) 6 ∷ [])
          6,
    )
generate_helper-branch_example =
    generate_helper-branch assoc less-IsCond pos gen unset empty [] 6 seven-Positions a-Positions
      empty_body

generate_helper-while_example :
    generate_helper assoc (node ast_loop unset less_tree empty null) gen
    ≡ returned (
      tt,
      with_code gen
          ((gen.elems ++ code instr_jmp 2 ∷ [])
            ++ cond_code pos (literal 7) (identifier a_ref)
            ++ code (cmp_instr lt) (gen.size + 2) ∷ [])
          (2
            + code_size
                (cond_code pos (literal 7) (identifier a_ref) ++ code (cmp_instr lt) 0 ∷ [])),
    )
generate_helper-while_example =
    generate_helper-while assoc less-IsCond pos gen unset empty [] 2 seven-Positions a-Positions
      empty_loop
