-- ===== src/Compiler/Ast/Literals.antt =====
-- The leaves of the tree: create_identifier and its like in compiler/ast.c. An `int32_t` is its
-- bit pattern, a number below 2 ^ 32.
use bispe.Base.{
  ℕ, ◌+◌, ◌-◌, ◌*◌, ◌%◌, ◌^◌, ◌&&◌, ◌||◌, [], ◌∷◌, Bytes, ltb, leb, ◌==◌, if◌then◌else◌, Result,
  returned, exited, bind, from_option,
}
use bispe.Compiler.Token.{Token}
use bispe.Compiler.Ast.Nodes.{
  ast_identifier, ast_intliteral, ast_typeleaf, ast_numop_leaf, ast_boolop_leaf, str, type, number,
  Node, leaf,
}

-- A literal's token has a text; `strtol` reads it, and `str` keeps the pointer to it.
abbrev pub text : Token → Result Bytes
text t = from_option t.val

unfoldable pub create_identifier : Token → Result Node
create_identifier t = bind (text t) λ s. returned (leaf ast_identifier (str s))

-- The value of a digit, up to base 16; other characters are above every base.
unfoldable pub digit_value : ℕ → ℕ
digit_value c =
    if leb b'0' c && leb c b'9'
    then c - b'0'
    else if leb b'a' c && leb c b'f'
    then c - b'a' + 10
    else if leb b'A' c && leb c b'F'
    then c - b'A' + 10
    else 16

-- The digits of `base` from the front of a text, behind the value `acc`.
unfoldable pub read_digits : ℕ → ℕ → Bytes → ℕ
unfolding digit_value
read_digits base acc [] = acc
read_digits base acc (c ∷ s) =
    let rest = read_digits base (acc * base + digit_value c) s in
    if ltb (digit_value c) base then rest else acc

-- `strtol(s, NULL, 0)` at a text of digits, before it is cut to the range of `long`.
unfoldable pub strtol : Bytes → ℕ
unfolding read_digits
strtol [] = 0
strtol (c ∷ []) = read_digits 10 0 (c ∷ [])
strtol (c ∷ (d ∷ s)) =
    if c == b'0'
    then (if d == b'x' || d == b'X' then read_digits 16 0 s else read_digits 8 0 (d ∷ s))
    else read_digits 10 0 (c ∷ (d ∷ s))

-- A value above UINT32_MAX, also one out of the range of `long`, ends the program.
unfoldable pub literal_number : Bytes → Result ℕ
unfolding strtol
literal_number s = if ltb (2 ^ 32 - 1) (strtol s) then exited else returned (strtol s % 2 ^ 32)

unfoldable pub create_intliteral : Token → Result Node
unfolding literal_number
create_intliteral t =
    bind (text t) λ s. bind (literal_number s) λ n. returned (leaf ast_intliteral (number n))

-- `(-1) * number` on the bit pattern.
unfoldable pub create_neg_intliteral : Token → Result Node
unfolding literal_number
create_neg_intliteral t = bind (text t) λ s.
    bind (literal_number s) λ n. returned (leaf ast_intliteral (number ((2 ^ 32 - n) % 2 ^ 32)))

unfoldable pub create_numop : Token → Result Node
create_numop t = returned (leaf ast_numop_leaf (type t.type))

unfoldable pub create_boolop : Token → Result Node
create_boolop t = returned (leaf ast_boolop_leaf (type t.type))

unfoldable pub create_type : Token → Result Node
create_type t = returned (leaf ast_typeleaf (type t.type))
