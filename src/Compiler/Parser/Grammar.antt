-- ===== src/Compiler/Parser/Grammar.antt =====
-- The grammar of compiler/parser.c: for each routine the productions that it tries, in order. A
-- production is the type of its node and the symbols of its table.
use bispe.Base.{Bool, true, false, Option, none, some, List, [], ◌∷◌}
use bispe.Compiler.Token.{
  TokenType, tok_identifier, tok_intliteral, tok_void, tok_int, tok_if, tok_else, tok_while,
  tok_for, tok_do, tok_return, tok_print, tok_openpa, tok_closepa, tok_openbr, tok_closebr,
  tok_comma, tok_semicl, tok_eq, tok_eqeq, tok_neq, tok_gt, tok_lt, tok_ge, tok_le, tok_plus,
  tok_minus, tok_star, tok_slash, tok_percent,
}
use bispe.Compiler.Ast.Nodes.{
  AstType, ast_inner, ast_type, ast_var_def, ast_var_assign, ast_print, ast_return, ast_expression,
  ast_expression1, ast_numop, ast_boolop, ast_condition, ast_statement, ast_sequence, ast_branch,
  ast_for_loop_head, ast_loop, ast_fcall_arglist, ast_fcall, ast_ret_fcall, ast_argdef,
  ast_argdeflist, ast_function, ast_function_proto,
}

-- The routines that a `check` pointer can hold.
pub data Check : Type 0 where
  type var_def var_assign print return expr expr1 cond numop boolop statement sequence : Check
  branch for_loop_head loop fcall_arglist ret_fcall fcall argdef argdeflist func program : Check

-- The routines that a `create` pointer can hold.
pub data Creator : Type 0 where
  identifier intliteral neg_intliteral numop boolop type : Creator

pub data Symbol : Type 0 where
  terminal : TokenType → Option Creator → Symbol
  check : Check → Symbol

pub data Production : Type 0 where
  prod : AstType → List Symbol → Production

unfoldable pub check_type : List Production
check_type =
    prod ast_type (terminal tok_void (some type) ∷ [])
    ∷ prod ast_type (terminal tok_int (some type) ∷ [])
    ∷ []

unfoldable pub check_var_def : List Production
check_var_def =
    prod ast_var_def (
      check type
      ∷ terminal tok_identifier (some identifier)
      ∷ terminal tok_eq none
      ∷ check expr
      ∷ [])
    ∷ prod ast_var_def (check type ∷ terminal tok_identifier (some identifier) ∷ [])
    ∷ []

unfoldable pub check_var_assign : List Production
check_var_assign =
    prod ast_var_assign
      (terminal tok_identifier (some identifier) ∷ terminal tok_eq none ∷ check expr ∷ [])
    ∷ []

unfoldable pub check_print : List Production
check_print = prod ast_print (terminal tok_print none ∷ check expr ∷ []) ∷ []

unfoldable pub check_return : List Production
check_return =
    prod ast_return (terminal tok_return none ∷ check expr ∷ [])
    ∷ prod ast_return (terminal tok_return none ∷ [])
    ∷ []

unfoldable pub check_expr : List Production
check_expr =
    prod ast_expression (check expr1 ∷ check numop ∷ check expr ∷ [])
    ∷ prod ast_expression (check expr1 ∷ [])
    ∷ []

unfoldable pub check_expr1 : List Production
check_expr1 =
    prod ast_expression1 (check ret_fcall ∷ [])
    ∷ prod ast_expression1 (terminal tok_identifier (some identifier) ∷ [])
    ∷ prod ast_expression1 (terminal tok_intliteral (some intliteral) ∷ [])
    ∷ prod ast_expression1
        (terminal tok_minus none ∷ terminal tok_intliteral (some neg_intliteral) ∷ [])
    ∷ prod ast_expression1 (terminal tok_openpa none ∷ check expr ∷ terminal tok_closepa none ∷ [])
    ∷ []

unfoldable pub check_cond : List Production
check_cond = prod ast_condition (check expr ∷ check boolop ∷ check expr ∷ []) ∷ []

unfoldable pub check_numop : List Production
check_numop =
    prod ast_numop (terminal tok_plus (some numop) ∷ [])
    ∷ prod ast_numop (terminal tok_minus (some numop) ∷ [])
    ∷ prod ast_numop (terminal tok_star (some numop) ∷ [])
    ∷ prod ast_numop (terminal tok_slash (some numop) ∷ [])
    ∷ prod ast_numop (terminal tok_percent (some numop) ∷ [])
    ∷ []

unfoldable pub check_boolop : List Production
check_boolop =
    prod ast_boolop (terminal tok_eqeq (some boolop) ∷ [])
    ∷ prod ast_boolop (terminal tok_neq (some boolop) ∷ [])
    ∷ prod ast_boolop (terminal tok_gt (some boolop) ∷ [])
    ∷ prod ast_boolop (terminal tok_lt (some boolop) ∷ [])
    ∷ prod ast_boolop (terminal tok_ge (some boolop) ∷ [])
    ∷ prod ast_boolop (terminal tok_le (some boolop) ∷ [])
    ∷ []

unfoldable pub check_statement : List Production
check_statement =
    prod ast_statement (check var_def ∷ terminal tok_semicl none ∷ [])
    ∷ prod ast_statement (check var_assign ∷ terminal tok_semicl none ∷ [])
    ∷ prod ast_statement (check fcall ∷ terminal tok_semicl none ∷ [])
    ∷ prod ast_statement (check print ∷ terminal tok_semicl none ∷ [])
    ∷ prod ast_statement (check return ∷ terminal tok_semicl none ∷ [])
    ∷ []

unfoldable pub check_sequence : List Production
check_sequence =
    prod ast_sequence (check statement ∷ check sequence ∷ [])
    ∷ prod ast_sequence (check branch ∷ check sequence ∷ [])
    ∷ prod ast_sequence (check loop ∷ check sequence ∷ [])
    ∷ []

unfoldable pub check_branch : List Production
check_branch =
    prod ast_branch (
      terminal tok_if none
      ∷ terminal tok_openpa none
      ∷ check cond
      ∷ terminal tok_closepa none
      ∷ terminal tok_openbr none
      ∷ check sequence
      ∷ terminal tok_closebr none
      ∷ terminal tok_else none
      ∷ terminal tok_openbr none
      ∷ check sequence
      ∷ terminal tok_closebr none
      ∷ [])
    ∷ prod ast_branch (
        terminal tok_if none
        ∷ terminal tok_openpa none
        ∷ check cond
        ∷ terminal tok_closepa none
        ∷ terminal tok_openbr none
        ∷ check sequence
        ∷ terminal tok_closebr none
        ∷ [])
    ∷ []

unfoldable pub check_for_loop_head : List Production
check_for_loop_head =
    prod ast_for_loop_head (
      check var_def
      ∷ terminal tok_semicl none
      ∷ check cond
      ∷ terminal tok_semicl none
      ∷ check var_assign
      ∷ [])
    ∷ prod ast_for_loop_head (
        check var_assign
        ∷ terminal tok_semicl none
        ∷ check cond
        ∷ terminal tok_semicl none
        ∷ check var_assign
        ∷ [])
    ∷ []

unfoldable pub check_loop : List Production
check_loop =
    prod ast_loop (
      terminal tok_while none
      ∷ terminal tok_openpa none
      ∷ check cond
      ∷ terminal tok_closepa none
      ∷ terminal tok_openbr none
      ∷ check sequence
      ∷ terminal tok_closebr none
      ∷ [])
    ∷ prod ast_loop (
        terminal tok_for none
        ∷ terminal tok_openpa none
        ∷ check for_loop_head
        ∷ terminal tok_closepa none
        ∷ terminal tok_openbr none
        ∷ check sequence
        ∷ terminal tok_closebr none
        ∷ [])
    ∷ prod ast_loop (
        terminal tok_do none
        ∷ terminal tok_openbr none
        ∷ check sequence
        ∷ terminal tok_closebr none
        ∷ terminal tok_while none
        ∷ terminal tok_openpa none
        ∷ check cond
        ∷ terminal tok_closepa none
        ∷ terminal tok_semicl none
        ∷ [])
    ∷ []

unfoldable pub check_fcall_arglist : List Production
check_fcall_arglist =
    prod ast_fcall_arglist (check expr ∷ terminal tok_comma none ∷ check fcall_arglist ∷ [])
    ∷ prod ast_fcall_arglist (check expr ∷ [])
    ∷ []

unfoldable pub check_ret_fcall : List Production
check_ret_fcall =
    prod ast_ret_fcall (
      terminal tok_identifier (some identifier)
      ∷ terminal tok_openpa none
      ∷ check fcall_arglist
      ∷ terminal tok_closepa none
      ∷ [])
    ∷ []

unfoldable pub check_fcall : List Production
check_fcall =
    prod ast_fcall (
      terminal tok_identifier (some identifier)
      ∷ terminal tok_openpa none
      ∷ check fcall_arglist
      ∷ terminal tok_closepa none
      ∷ [])
    ∷ []

unfoldable pub check_argdef : List Production
check_argdef = prod ast_argdef (check type ∷ terminal tok_identifier (some identifier) ∷ []) ∷ []

unfoldable pub check_argdeflist : List Production
check_argdeflist =
    prod ast_argdeflist (check argdef ∷ terminal tok_comma none ∷ check argdeflist ∷ [])
    ∷ prod ast_argdeflist (check argdef ∷ [])
    ∷ prod ast_argdeflist (terminal tok_void none ∷ [])
    ∷ []

unfoldable pub check_func : List Production
check_func =
    prod ast_function (
      check type
      ∷ terminal tok_identifier (some identifier)
      ∷ terminal tok_openpa none
      ∷ check argdeflist
      ∷ terminal tok_closepa none
      ∷ terminal tok_openbr none
      ∷ check sequence
      ∷ terminal tok_closebr none
      ∷ [])
    ∷ prod ast_function_proto (
        check type
        ∷ terminal tok_identifier (some identifier)
        ∷ terminal tok_openpa none
        ∷ check argdeflist
        ∷ terminal tok_closepa none
        ∷ terminal tok_semicl none
        ∷ [])
    ∷ []

unfoldable pub check_program : List Production
check_program = prod ast_inner (check func ∷ check program ∷ []) ∷ []

unfoldable pub productions : Check → List Production
unfolding check_type check_var_def check_var_assign check_print check_return check_expr check_expr1
    check_cond check_numop check_boolop check_statement check_sequence check_branch
    check_for_loop_head check_loop check_fcall_arglist check_ret_fcall check_fcall check_argdef
    check_argdeflist check_func check_program
productions type = check_type
productions var_def = check_var_def
productions var_assign = check_var_assign
productions print = check_print
productions return = check_return
productions expr = check_expr
productions expr1 = check_expr1
productions cond = check_cond
productions numop = check_numop
productions boolop = check_boolop
productions statement = check_statement
productions sequence = check_sequence
productions branch = check_branch
productions for_loop_head = check_for_loop_head
productions loop = check_loop
productions fcall_arglist = check_fcall_arglist
productions ret_fcall = check_ret_fcall
productions fcall = check_fcall
productions argdef = check_argdef
productions argdeflist = check_argdeflist
productions func = check_func
productions program = check_program

-- The routines that return `create_empty()` where no production matches.
unfoldable pub accepts_empty : Check → Bool
accepts_empty sequence = true
accepts_empty fcall_arglist = true
accepts_empty program = true
accepts_empty _ = false
