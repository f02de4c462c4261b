-- ===== src/Compiler/Token.antt =====
-- The tokens of compiler/include/lexer.h. A token list linked by `next` is a list.
use bispe.Base.{ℕ, Bool, Option, Bytes, ◌==◌}

pub data TokenType : Type 0 where
  tok_eof tok_identifier tok_intliteral tok_void tok_int tok_if tok_else tok_while : TokenType
  tok_for tok_do tok_return tok_print tok_openpa tok_closepa tok_openbr tok_closebr : TokenType
  tok_comma tok_semicl tok_eq tok_eqeq tok_neq tok_gt tok_lt tok_ge tok_le : TokenType
  tok_plus tok_minus tok_star tok_slash tok_percent : TokenType

-- The value of the enumerator in C.
unfoldable pub token_code : TokenType → ℕ
token_code tok_eof = 0
token_code tok_identifier = 1
token_code tok_intliteral = 2
token_code tok_void = 3
token_code tok_int = 4
token_code tok_if = 5
token_code tok_else = 6
token_code tok_while = 7
token_code tok_for = 8
token_code tok_do = 9
token_code tok_return = 10
token_code tok_print = 11
token_code tok_openpa = 12
token_code tok_closepa = 13
token_code tok_openbr = 14
token_code tok_closebr = 15
token_code tok_comma = 16
token_code tok_semicl = 17
token_code tok_eq = 18
token_code tok_eqeq = 19
token_code tok_neq = 20
token_code tok_gt = 21
token_code tok_lt = 22
token_code tok_ge = 23
token_code tok_le = 24
token_code tok_plus = 25
token_code tok_minus = 26
token_code tok_star = 27
token_code tok_slash = 28
token_code tok_percent = 29

-- `token->type == type`
unfoldable pub token_eq : TokenType → TokenType → Bool
unfolding token_code
token_eq a b = token_code a == token_code b

-- `val` is `none` where the C pointer is NULL.
pub record Token : Type 0 where
  pub type : TokenType
  pub val : Option Bytes
