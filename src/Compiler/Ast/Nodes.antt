-- ===== src/Compiler/Ast/Nodes.antt =====
-- The nodes of compiler/include/ast.h.
use bispe.Base.{ℕ, Bool, true, false, Option, none, some, Bytes}
use bispe.Compiler.Token.{TokenType}
use bispe.Compiler.Symbols.{VarRef}

pub data AstType : Type 0 where
  ast_head ast_empty ast_inner ast_identifier ast_intliteral ast_type ast_typeleaf : AstType
  ast_var_def ast_var_assign ast_print ast_return ast_expression ast_expression1 : AstType
  ast_numop ast_numop_leaf ast_boolop ast_boolop_leaf ast_condition ast_statement : AstType
  ast_sequence ast_branch ast_for_loop_head ast_loop ast_fcall_arglist ast_fcall : AstType
  ast_ret_fcall ast_argdef ast_argdeflist ast_function ast_function_proto : AstType

-- The union `val`, with the member that was written last.
pub data Val : Type 0 where
  unset : Val
  str : Bytes → Val
  type : TokenType → Val
  number : ℕ → Val
  func : ℕ → Val
  var : VarRef → Val

-- A pointer to a node: NULL, or a type, a value, and the pointers left, middle and right.
pub data Node : Type 0 where
  null : Node
  node : AstType → Val → Node → Node → Node → Node

abbrev pub leaf : AstType → Val → Node
leaf t v = node t v null null null

-- `node->val.str`, `node->val.type`; `none` is a null dereference or another member.
abbrev pub val_str : Node → Option Bytes
val_str (node t (str s) l m r) = some s
val_str _ = none

abbrev pub val_type : Node → Option TokenType
val_type (node t (type k) l m r) = some k
val_type _ = none

-- `node->left`
abbrev pub left_of : Node → Option Node
left_of null = none
left_of (node t v l m r) = some l

unfoldable pub is_return : AstType → Bool
is_return ast_return = true
is_return _ = false
