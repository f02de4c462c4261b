-- ===== src/Compiler/Lexer/RoundTrip.antt =====
-- The lexer of compiler/lexer.c reads back what was printed.
use bispe.Base.{
  ℕ, zero, suc, ◌+◌, ◌<◌, ◌≡◌, refl, sym, ap, ◌∙◌, Bool, true, false, ◌||◌, some, List, [], ◌∷◌,
  ◌++◌, Bytes, arith, ◌==◌, length, length-append, ok,
}
use bispe.Compiler.Token.{
  TokenType, tok_eof, tok_identifier, tok_intliteral, tok_void, tok_int, tok_if, tok_else,
  tok_while, tok_for, tok_do, tok_return, tok_print, Token,
}
use bispe.Compiler.Lexer.{
  token, valued, first_byte, onto, scan_ident, scan_digits, scan_intliteral, Lexeme, lexed,
  check_ident_type, scanned, lex, is_letter, is_digit, is_ident, cons_token, follow, tokenize_loop,
  tokenize_string,
}
use bispe.Compiler.Lexer.Print.{
  IsIdentTail, AreDigits, IsIntliteral, decimal, octal, hex, IsToken, symbolic, word, literal,
  digit_of, AreTokens, eof, more, is_symbol, symbol, spell, print_tokens,
}
use bispe.Compiler.Lexer.Sound.{tokenize_string-AreTokens}

scan_ident-blank :
    {v : Bytes} (rest : Bytes) → IsIdentTail v → scan_ident (v ++ b' ' ∷ rest) ≡ (v, b' ' ∷ rest)
unfolding scan_ident
scan_ident-blank rest IsIdentTail.nil = refl
scan_ident-blank rest (IsIdentTail.cons {c} {v} h t) = rw (h, scan_ident-blank rest t)

scan_digits_step :
    (x o : Bool) (c : ℕ) (s : Bytes)
    → digit_of x o c ≡ true
    → scan_digits x o (c ∷ s) ≡ onto (c ∷ []) (scan_digits x o s)
unfolding scan_digits
scan_digits_step x o c s h = ground arith

scan_digits-blank :
    (x o : Bool) {v : Bytes} (rest : Bytes)
    → AreDigits x o v
    → scan_digits x o (v ++ b' ' ∷ rest) ≡ some (v, b' ' ∷ rest)
scan_digits-blank true true rest AreDigits.nil = unfold scan_digits in refl
scan_digits-blank true false rest AreDigits.nil = unfold scan_digits in refl
scan_digits-blank false true rest AreDigits.nil = unfold scan_digits in refl
scan_digits-blank false false rest AreDigits.nil = unfold scan_digits in refl
scan_digits-blank x o rest (AreDigits.cons {c} {v} h t) =
    scan_digits_step x o c (v ++ b' ' ∷ rest) h ∙ ap (onto (c ∷ [])) (scan_digits-blank x o rest t)

-- The character behind a leading zero decides nothing for octal digits and a blank.
first_digit :
    {v : Bytes} (rest : Bytes)
    → AreDigits false true v
    → ((first_byte (v ++ b' ' ∷ rest) == b'x') ≡ false)
      × ((first_byte (v ++ b' ' ∷ rest) == 0) ≡ false)
first_digit rest AreDigits.nil = (refl, refl)
first_digit rest (AreDigits.cons {c} h t) = (ground arith, ground arith)

scan_intliteral-blank :
    {v : Bytes} (rest : Bytes)
    → IsIntliteral v
    → scan_intliteral (v ++ b' ' ∷ rest) ≡ some (v, b' ' ∷ rest)
unfolding scan_intliteral
scan_intliteral-blank rest (decimal {c} {v} h d) =
    let zero_no : (c == b'0') ≡ false = ground arith in
    let digit : digit_of false false c ≡ true = ground arith in
    rw zero_no (scan_digits-blank false false rest (AreDigits.cons digit d))
scan_intliteral-blank rest (octal {v} d) =
    let (x, z) = first_digit rest d in
    rw (x, z) (ap (onto (b'0' ∷ [])) (scan_digits-blank false true rest d))
scan_intliteral-blank rest (hex {v} d) =
    ap (onto (b'0' ∷ b'x' ∷ [])) (scan_digits-blank true false rest d)

-- One turn of the loop takes a printed token, and leaves the blank behind it.
abbrev Turns : Token → Type 0
Turns t =
    (f : ℕ) (rest : Bytes)
    → tokenize_loop (suc f) (spell t ++ b' ' ∷ rest) ≡ cons_token t (tokenize_loop f (b' ' ∷ rest))

turn_symbol : (t : TokenType) → is_symbol t ≡ true → Turns (token t)
unfolding tokenize_loop lex spell
turn_symbol tok_eof h = cc
turn_symbol tok_identifier h = cc
turn_symbol tok_intliteral h = cc
turn_symbol tok_void h = cc
turn_symbol tok_int h = cc
turn_symbol tok_if h = cc
turn_symbol tok_else h = cc
turn_symbol tok_while h = cc
turn_symbol tok_for h = cc
turn_symbol tok_do h = cc
turn_symbol tok_return h = cc
turn_symbol tok_print h = cc
turn_symbol _ h = λ f rest. refl

symbol_pos : (t : TokenType) → is_symbol t ≡ true → 0 < length (symbol t)
unfolding symbol
symbol_pos tok_eof h = cc
symbol_pos tok_identifier h = cc
symbol_pos tok_intliteral h = cc
symbol_pos tok_void h = cc
symbol_pos tok_int h = cc
symbol_pos tok_if h = cc
symbol_pos tok_else h = cc
symbol_pos tok_while h = cc
symbol_pos tok_for h = cc
symbol_pos tok_do h = cc
symbol_pos tok_return h = cc
symbol_pos tok_print h = cc
symbol_pos _ h = omega arith

lex_word :
    (c : ℕ) (s : Bytes)
    → (is_letter c || c == b'_') ≡ true
    → lex c s
      ≡ lexed
          (valued (check_ident_type (scan_ident (c ∷ s)).0) (scan_ident (c ∷ s)).0)
          (scan_ident (c ∷ s)).1
unfolding lex
lex_word c s h = ground arith

lex_digit : (c : ℕ) (s : Bytes) → is_digit c ≡ true → lex c s ≡ scanned (scan_intliteral (c ∷ s))
unfolding lex
lex_digit c s h = ground arith

turn :
    (f c : ℕ) (s : Bytes) {x : Lexeme}
    → (c == 0) ≡ false
    → lex c s ≡ x
    → tokenize_loop (suc f) (c ∷ s) ≡ follow (tokenize_loop f) x
unfolding tokenize_loop
turn f c s z e = rw (z, e)

turn_word :
    (c : ℕ) (v : Bytes)
    → (is_letter c || c == b'_') ≡ true
    → IsIdentTail v
    → Turns (valued (check_ident_type (c ∷ v)) (c ∷ v))
unfolding spell
turn_word c v h t f rest =
    let e : is_ident c ≡ true = ground arith in
    let whole : IsIdentTail (c ∷ v) = IsIdentTail.cons e t in
    turn f c _ (ground arith)
      (rw (scan_ident-blank rest whole) at (lex_word c (v ++ b' ' ∷ rest) h))

first_of_literal :
    {v : Bytes} → IsIntliteral v → (c : ℕ) × (w : Bytes) × (v ≡ c ∷ w) × (is_digit c ≡ true)
first_of_literal (decimal {c} {v} h d) = (c, v, refl, ground arith)
first_of_literal (octal {v} d) = (b'0', v, refl, refl)
first_of_literal (hex {v} d) = (b'0', b'x' ∷ v, refl, refl)

turn_digit :
    (c : ℕ) (v : Bytes)
    → is_digit c ≡ true
    → IsIntliteral (c ∷ v)
    → Turns (valued tok_intliteral (c ∷ v))
unfolding spell
turn_digit c v d h f rest =
    turn f c _ (ground arith) (lex_digit c _ d ∙ ap scanned (scan_intliteral-blank rest h))

turn_literal : (v : Bytes) → IsIntliteral v → Turns (valued tok_intliteral v)
turn_literal v h = let (c, w, e, d) = first_of_literal h in rw e (turn_digit c w d (rw e at h))

turn_token : {t : Token} → IsToken t → Turns t
turn_token (symbolic t h) = turn_symbol t h
turn_token (word c v h t) = turn_word c v h t
turn_token (literal v h) = turn_literal v h

turn_blank : (f : ℕ) (s : Bytes) → tokenize_loop (suc f) (b' ' ∷ s) ≡ tokenize_loop f s
unfolding tokenize_loop lex
turn_blank f s = refl

spell_pos : {t : Token} → IsToken t → 0 < length (spell t)
unfolding spell
spell_pos (symbolic t h) = symbol_pos t h
spell_pos (word c v h t) = omega arith
spell_pos (literal v h) = let (c, w, e, d) = first_of_literal h in omega (arith, ap length e)

print_tokens-more :
    (t : Token) {ts : List Token}
    → AreTokens ts
    → print_tokens (t ∷ ts) ≡ spell t ++ (b' ' ∷ print_tokens ts)
unfolding print_tokens
print_tokens-more t eof = refl
print_tokens-more t (more h hs) = refl

length-print :
    (t : Token) {ts : List Token}
    → AreTokens ts
    → length (print_tokens (t ∷ ts)) ≡ length (spell t) + suc (length (print_tokens ts))
length-print t {ts} h =
    ap length (print_tokens-more t h) ∙ length-append (spell t) (b' ' ∷ print_tokens ts)

tokenize_loop-print :
    (f : ℕ) {ts : List Token}
    → AreTokens ts
    → length (print_tokens ts) < f
    → tokenize_loop f (print_tokens ts) ≡ ok (some ts)
tokenize_loop-print zero h lt = absurd (omega arith)
tokenize_loop-print (suc f) eof lt = unfold tokenize_loop print_tokens in refl
tokenize_loop-print (suc zero) (more {t} {ts} h hs) lt =
    absurd (omega (arith, length-print t hs, spell_pos h))
tokenize_loop-print (suc (suc f)) (more {t} {ts} h hs) lt =
    let ih = tokenize_loop-print f hs (omega (arith, length-print t hs, spell_pos h)) in
    rw (print_tokens-more t hs, turn_token h, turn_blank, ih)

-- Every well-formed token list, printed with blanks between its tokens, is read back as it was.
pub tokenize_string-print :
    {ts : List Token} → AreTokens ts → tokenize_string (print_tokens ts) ≡ ok (some ts)
unfolding tokenize_string
tokenize_string-print {ts} h = tokenize_loop-print (suc (length (print_tokens ts))) h (omega arith)

-- Printing what was read from a source text, and reading it again, changes nothing.
pub tokenize_string-print_tokens :
    (s : Bytes) {ts : List Token}
    → tokenize_string s ≡ ok (some ts)
    → tokenize_string (print_tokens ts) ≡ tokenize_string s
tokenize_string-print_tokens s e = tokenize_string-print (tokenize_string-AreTokens s e) ∙ sym e
