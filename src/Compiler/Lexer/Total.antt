-- ===== src/Compiler/Lexer/Total.antt =====
-- Every turn of the loop of `tokenize_string` (compiler/lexer.c) moves on in the string, so the
-- fuel that the model hands out is enough.
use bispe.Base.{
  ℕ, zero, suc, ◌≤◌, ◌<◌, ◌≡◌, refl, Bool, true, false, ◌||◌, Option, none, some, List, [], ◌∷◌,
  Bytes, arith, ◌==◌, if_holds, length, tail, length-tail, Outcome, ok,
}
use bispe.Compiler.Token.{Token}
use bispe.Compiler.Lexer.{
  onto, scan_ident, scan_digits, scan_intliteral, skip_comment, Lexeme, skipped, lexed, illegal,
  scanned, lex_punct, lex, is_letter, is_digit, cons_token, follow, tokenize_loop, tokenize_string,
}

-- What is left is no longer than `n`.
abbrev Leaves : ℕ → Lexeme → Type 0
Leaves n (skipped rest) = length rest ≤ n
Leaves n (lexed t rest) = length rest ≤ n
Leaves n illegal = Unit

length-scan_ident : (s : Bytes) → length (scan_ident s).1 ≤ length s
unfolding scan_ident
length-scan_ident [] = omega arith
length-scan_ident (c ∷ s) = ground (arith, length-scan_ident s)

length-scan_ident_cons :
    (c : ℕ) (s : Bytes)
    → (is_letter c || c == b'_') ≡ true
    → length (scan_ident (c ∷ s)).1 ≤ length s
unfolding scan_ident
length-scan_ident_cons c s h = ground (arith, length-scan_ident s)

length-skip_comment : (s : Bytes) → length (skip_comment s) ≤ length s
unfolding skip_comment
length-skip_comment [] = omega arith
length-skip_comment (c ∷ s) = ground (arith, length-skip_comment s)

length-skip_comment_cons :
    (c : ℕ) (s : Bytes) → (c == b'/') ≡ true → length (skip_comment (c ∷ s)) ≤ length s
unfolding skip_comment
length-skip_comment_cons c s h = ground (arith, length-skip_comment s)

onto-Leaves :
    (p : Bytes) (r : Option (Bytes × Bytes)) (n : ℕ) {m : ℕ}
    → Leaves m (scanned r)
    → m ≤ n
    → Leaves n (scanned (onto p r))
onto-Leaves p none n h le = tt
onto-Leaves p (some (v, rest)) n h le = omega arith

scan_digits-Leaves : (x o : Bool) (s : Bytes) → Leaves (length s) (scanned (scan_digits x o s))
unfolding scan_digits
scan_digits-Leaves x o [] = omega arith
scan_digits-Leaves x o (c ∷ s) = ground (arith, scan_digits-Leaves x o s)

scan_decimal-Leaves :
    (c : ℕ) (s : Bytes)
    → is_digit c ≡ true
    → Leaves (length s) (scanned (scan_digits false false (c ∷ s)))
unfolding scan_digits
scan_decimal-Leaves c s h = ground (arith, scan_digits-Leaves false false s)

scan_intliteral-Leaves :
    (c : ℕ) (s : Bytes) → is_digit c ≡ true → Leaves (length s) (scanned (scan_intliteral (c ∷ s)))
unfolding scan_intliteral
scan_intliteral-Leaves c s h = ground (
  arith,
  scan_decimal-Leaves c s h,
  scan_digits-Leaves true false (tail s),
  length-tail s,
  scan_digits-Leaves false true s,
)

lex_punct-Leaves : (c : ℕ) (s : Bytes) → Leaves (length s) (lex_punct c s)
unfolding lex_punct
lex_punct-Leaves c s = ground arith

lex-Leaves : (c : ℕ) (s : Bytes) → Leaves (length s) (lex c s)
unfolding lex
lex-Leaves c s = ground (
  arith,
  length-scan_ident_cons c s,
  scan_intliteral-Leaves c s,
  length-tail s,
  length-skip_comment_cons c s,
  lex_punct-Leaves c s,
)

abbrev pub Ends : Outcome (Option (List Token)) → Type 0
Ends r = (ts : Option (List Token)) × (r ≡ ok ts)

cons_token-Ends : (t : Token) (r : Outcome (Option (List Token))) → Ends r → Ends (cons_token t r)
cons_token-Ends t r (none, e) = (none, rw e refl)
cons_token-Ends t r (some ts, e) = (some (t ∷ ts), rw e refl)

follow-Ends :
    (loop : Bytes → Outcome (Option (List Token))) (n : ℕ) (x : Lexeme)
    → Leaves n x
    → ((s : Bytes) → length s ≤ n → Ends (loop s))
    → Ends (follow loop x)
follow-Ends loop n (skipped rest) h ih = ih rest h
follow-Ends loop n (lexed t rest) h ih = cons_token-Ends t (loop rest) (ih rest h)
follow-Ends loop n illegal h ih = (none, refl)

-- The loop ends by itself, with more fuel than characters left.
pub tokenize_loop-Ends : (f : ℕ) (s : Bytes) → length s < f → Ends (tokenize_loop f s)
unfolding tokenize_loop
tokenize_loop-Ends zero s h = absurd (omega arith)
tokenize_loop-Ends (suc f) [] h = (some _, refl)
tokenize_loop-Ends (suc f) (c ∷ s) h =
    if_holds Ends (c == 0) (some _, refl)
      (follow-Ends (tokenize_loop f) (length s) (lex c s) (lex-Leaves c s)
        (λ t le. tokenize_loop-Ends f t (omega arith)))

-- For every source string the lexer ends, with a token list or with NULL.
pub tokenize_string_total : (s : Bytes) → (r : Option (List Token)) × (tokenize_string s ≡ ok r)
unfolding tokenize_string
tokenize_string_total s = tokenize_loop-Ends (suc (length s)) s (omega arith)
