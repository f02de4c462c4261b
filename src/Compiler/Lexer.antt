-- ===== src/Compiler/Lexer.antt =====
-- compiler/lexer.c. A position in the source string is the string that is left from it; the
-- byte at its end is the terminating zero. Allocation succeeds.
pub mod Total
pub mod Print
pub mod Sound
pub mod RoundTrip
use bispe.Base.{
  ℕ, zero, suc, Bool, true, false, ◌&&◌, ◌||◌, Option, none, some, List, [], ◌∷◌, ◌++◌, Bytes, leb,
  ◌==◌, if◌then◌else◌, length, tail, str_eq, codes, Outcome, ok, out_of_fuel,
}
use bispe.Compiler.Token.{
  TokenType, tok_eof, tok_identifier, tok_intliteral, tok_void, tok_int, tok_if, tok_else,
  tok_while, tok_for, tok_do, tok_return, tok_print, tok_openpa, tok_closepa, tok_openbr,
  tok_closebr, tok_comma, tok_semicl, tok_eq, tok_eqeq, tok_neq, tok_gt, tok_lt, tok_ge, tok_le,
  tok_plus, tok_minus, tok_star, tok_slash, tok_percent, Token,
}

-- `str[0]`
abbrev pub first_byte : Bytes → ℕ
first_byte [] = 0
first_byte (c ∷ s) = c

abbrev pub token : TokenType → Token
token t = record { type = t; val = none }

abbrev pub valued : TokenType → Bytes → Token
valued t v = record { type = t; val = some v }

abbrev pub keywords : List (Bytes × TokenType)
keywords =
    (codes "void", tok_void)
    ∷ (codes "int", tok_int)
    ∷ (codes "if", tok_if)
    ∷ (codes "else", tok_else)
    ∷ (codes "while", tok_while)
    ∷ (codes "for", tok_for)
    ∷ (codes "do", tok_do)
    ∷ (codes "return", tok_return)
    ∷ (codes "print", tok_print)
    ∷ []

unfoldable pub find_keyword : List (Bytes × TokenType) → Bytes → TokenType
unfolding str_eq
find_keyword [] v = tok_identifier
find_keyword ((k, t) ∷ rest) v = if str_eq k v then t else find_keyword rest v

unfoldable pub check_ident_type : Bytes → TokenType
unfolding find_keyword
check_ident_type v = find_keyword keywords v

abbrev pub is_letter : ℕ → Bool
is_letter c = (leb b'A' c && leb c b'Z') || (leb b'a' c && leb c b'z')

abbrev pub is_digit : ℕ → Bool
is_digit c = leb b'0' c && leb c b'9'

abbrev pub is_ident : ℕ → Bool
is_ident c = is_letter c || is_digit c || c == b'_'

abbrev pub is_hex_letter : ℕ → Bool
is_hex_letter c = (leb b'A' c && leb c b'F') || (leb b'a' c && leb c b'f')

-- The loop of `scan_ident`: the characters of the identifier, and the rest.
unfoldable pub scan_ident : Bytes → Bytes × Bytes
scan_ident [] = ([], [])
scan_ident (c ∷ s) =
    let (v, rest) = scan_ident s in if is_ident c then (c ∷ v, rest) else ([], c ∷ s)

-- The text in front of what a scan reads is part of what it has read.
abbrev pub onto : Bytes → Option (Bytes × Bytes) → Option (Bytes × Bytes)
onto p none = none
onto p (some (v, rest)) = some (p ++ v, rest)

-- The `do` loop of `scan_intliteral`; `none` is an illegal character.
unfoldable pub scan_digits : Bool → Bool → Bytes → Option (Bytes × Bytes)
scan_digits is_hex is_oct [] = some ([], [])
scan_digits is_hex is_oct (c ∷ s) =
    let more = onto (c ∷ []) (scan_digits is_hex is_oct s) in
    if is_oct && (c == b'8' || c == b'9')
    then none
    else if is_digit c
    then more
    else if is_hex && is_hex_letter c
    then more
    else if is_letter c || c == b'_'
    then none
    else some ([], c ∷ s)

-- The prefix decides the base; it is called at a digit.
unfoldable pub scan_intliteral : Bytes → Option (Bytes × Bytes)
unfolding scan_digits
scan_intliteral [] = scan_digits false false []
scan_intliteral (c ∷ s) =
    if c == b'0'
    then (if first_byte s == b'x'
        then onto (b'0' ∷ b'x' ∷ []) (scan_digits true false (tail s))
        else if first_byte s == 0
        then scan_digits false false (c ∷ s)
        else onto (b'0' ∷ []) (scan_digits false true s))
    else scan_digits false false (c ∷ s)

-- The comment loop: up to the end of the line.
unfoldable pub skip_comment : Bytes → Bytes
skip_comment [] = []
skip_comment (c ∷ s) = let rest = skip_comment s in if c == 0 || c == b'\n' then c ∷ s else rest

-- What one turn of the loop of `tokenize_string` does with the string from its position on.
pub data Lexeme : Type 0 where
  skipped : Bytes → Lexeme
  lexed : Token → Bytes → Lexeme
  illegal : Lexeme

abbrev pub scanned : Option (Bytes × Bytes) → Lexeme
scanned none = illegal
scanned (some (v, rest)) = lexed (valued tok_intliteral v) rest

-- An operator that may be followed by `=`.
abbrev pub with_eq : TokenType → Lexeme → Bytes → Lexeme
with_eq long short s = if first_byte s == b'=' then lexed (token long) (tail s) else short

-- The cases of the switch that are one character.
unfoldable pub lex_punct : ℕ → Bytes → Lexeme
lex_punct c s =
    if c == b'('
    then lexed (token tok_openpa) s
    else if c == b')'
    then lexed (token tok_closepa) s
    else if c == b'{'
    then lexed (token tok_openbr) s
    else if c == b'}'
    then lexed (token tok_closebr) s
    else if c == b','
    then lexed (token tok_comma) s
    else if c == b';'
    then lexed (token tok_semicl) s
    else if c == b'+'
    then lexed (token tok_plus) s
    else if c == b'-'
    then lexed (token tok_minus) s
    else if c == b'*'
    then lexed (token tok_star) s
    else if c == b'%'
    then lexed (token tok_percent) s
    else illegal

-- The other cases of the switch on `ch`, the byte before `s`.
unfoldable pub lex : ℕ → Bytes → Lexeme
unfolding lex_punct scan_intliteral check_ident_type scan_ident skip_comment
lex c s =
    if c == b'\n' || c == b' ' || c == b'\t' || c == b'\r'
    then skipped s
    else if is_letter c || c == b'_'
    then (let (v, rest) = scan_ident (c ∷ s) in lexed (valued (check_ident_type v) v) rest)
    else if is_digit c
    then scanned (scan_intliteral (c ∷ s))
    else if c == b'='
    then with_eq tok_eqeq (lexed (token tok_eq) s) s
    else if c == b'!'
    then with_eq tok_neq illegal s
    else if c == b'<'
    then with_eq tok_le (lexed (token tok_lt) s) s
    else if c == b'>'
    then with_eq tok_ge (lexed (token tok_gt) s) s
    else if c == b'/'
    then (if first_byte s == b'/'
        then skipped (skip_comment (c ∷ s))
        else lexed (token tok_slash) s)
    else lex_punct c s

-- `none` is a NULL result.
abbrev pub cons_token : Token → Outcome (Option (List Token)) → Outcome (Option (List Token))
cons_token t (ok (some ts)) = ok (some (t ∷ ts))
cons_token t r = r

-- The end of a turn: go on with the rest of the string, or return NULL.
abbrev pub follow : (Bytes → Outcome (Option (List Token))) → Lexeme → Outcome (Option (List Token))
follow loop (skipped rest) = loop rest
follow loop (lexed t rest) = cons_token t (loop rest)
follow loop illegal = ok none

-- The loop of `tokenize_string`, on fuel.
unfoldable pub tokenize_loop : ℕ → Bytes → Outcome (Option (List Token))
tokenize_loop zero s = out_of_fuel
tokenize_loop (suc f) [] = ok (some (token tok_eof ∷ []))
tokenize_loop (suc f) (c ∷ s) =
    if c == 0 then ok (some (token tok_eof ∷ [])) else follow (tokenize_loop f) (lex c s)

unfoldable pub tokenize_string : Bytes → Outcome (Option (List Token))
unfolding tokenize_loop lex
tokenize_string s = tokenize_loop (suc (length s)) s
