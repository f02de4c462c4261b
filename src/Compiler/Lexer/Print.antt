-- ===== src/Compiler/Lexer/Print.antt =====
-- How tokens are spelled, and the tokens that the lexer of compiler/lexer.c can return.
use bispe.Base.{
  ℕ, ◌≡◌, Bool, true, false, ◌&&◌, ◌||◌, not, none, some, List, [], ◌∷◌, ◌++◌, Bytes, ◌==◌, codes,
}
use bispe.Compiler.Token.{
  TokenType, tok_eof, tok_identifier, tok_intliteral, tok_void, tok_int, tok_if, tok_else,
  tok_while, tok_for, tok_do, tok_return, tok_print, tok_openpa, tok_closepa, tok_openbr,
  tok_closebr, tok_comma, tok_semicl, tok_eq, tok_eqeq, tok_neq, tok_gt, tok_lt, tok_ge, tok_le,
  tok_plus, tok_minus, tok_star, tok_slash, tok_percent, Token,
}
use bispe.Compiler.Lexer.{
  token, valued, check_ident_type, is_letter, is_digit, is_ident, is_hex_letter,
}

-- The characters of an identifier behind its first.
pub data IsIdentTail : Bytes → Type 0 where
  nil : IsIdentTail []
  cons : {c : ℕ} {v : Bytes} → is_ident c ≡ true → IsIdentTail v → IsIdentTail (c ∷ v)

abbrev pub digit_of : Bool → Bool → ℕ → Bool
digit_of is_hex is_oct c =
    (is_digit c && not (is_oct && (c == b'8' || c == b'9'))) || (is_hex && is_hex_letter c)

-- Digits of base 16, 8 or 10.
pub data AreDigits (is_hex is_oct : Bool) : Bytes → Type 0 where
  nil : AreDigits is_hex is_oct []
  cons :
      {c : ℕ} {v : Bytes}
      → digit_of is_hex is_oct c ≡ true
      → AreDigits is_hex is_oct v
      → AreDigits is_hex is_oct (c ∷ v)

-- The literals of C, with an empty row of digits allowed behind `0x`.
pub data IsIntliteral : Bytes → Type 0 where
  decimal :
      {c : ℕ} {v : Bytes}
      → (is_digit c && not (c == b'0')) ≡ true
      → AreDigits false false v
      → IsIntliteral (c ∷ v)
  octal : {v : Bytes} → AreDigits false true v → IsIntliteral (b'0' ∷ v)
  hex : {v : Bytes} → AreDigits true false v → IsIntliteral (b'0' ∷ b'x' ∷ v)

-- Operators and separators.
unfoldable pub symbol : TokenType → Bytes
symbol tok_openpa = codes "("
symbol tok_closepa = codes ")"
symbol tok_openbr = codes "{"
symbol tok_closebr = codes "}"
symbol tok_comma = codes ","
symbol tok_semicl = codes ";"
symbol tok_eq = codes "="
symbol tok_eqeq = codes "=="
symbol tok_neq = codes "!="
symbol tok_gt = codes ">"
symbol tok_lt = codes "<"
symbol tok_ge = codes ">="
symbol tok_le = codes "<="
symbol tok_plus = codes "+"
symbol tok_minus = codes "-"
symbol tok_star = codes "*"
symbol tok_slash = codes "/"
symbol tok_percent = codes "%"
symbol _ = []

abbrev pub is_symbol : TokenType → Bool
is_symbol tok_eof = false
is_symbol tok_identifier = false
is_symbol tok_intliteral = false
is_symbol tok_void = false
is_symbol tok_int = false
is_symbol tok_if = false
is_symbol tok_else = false
is_symbol tok_while = false
is_symbol tok_for = false
is_symbol tok_do = false
is_symbol tok_return = false
is_symbol tok_print = false
is_symbol _ = true

-- A token of a source text: a symbol, a word with the type of its spelling, or a literal.
pub data IsToken : Token → Type 0 where
  symbolic : (t : TokenType) → is_symbol t ≡ true → IsToken (token t)
  word :
      (c : ℕ) (v : Bytes)
      → (is_letter c || c == b'_') ≡ true
      → IsIdentTail v
      → IsToken (valued (check_ident_type (c ∷ v)) (c ∷ v))
  literal : (v : Bytes) → IsIntliteral v → IsToken (valued tok_intliteral v)

-- The tokens of a text, closed by the end of file.
pub data AreTokens : List Token → Type 0 where
  eof : AreTokens (token tok_eof ∷ [])
  more : {t : Token} {ts : List Token} → IsToken t → AreTokens ts → AreTokens (t ∷ ts)

unfoldable pub spell : Token → Bytes
unfolding symbol
spell t = elim t.val [ none ↦ symbol t.type | some v ↦ v ]

-- The tokens with a blank behind each; the end of file is not printed.
unfoldable pub print_tokens : List Token → Bytes
unfolding spell
print_tokens [] = []
print_tokens (t ∷ []) = []
print_tokens (t ∷ (u ∷ ts)) = spell t ++ (b' ' ∷ print_tokens (u ∷ ts))
