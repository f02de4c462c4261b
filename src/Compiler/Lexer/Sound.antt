-- ===== src/Compiler/Lexer/Sound.antt =====
-- Whatever the lexer of compiler/lexer.c returns is a well-formed token list.
use bispe.Base.{
  ℕ, zero, suc, ◌≡◌, refl, Bool, true, false, ◌&&◌, ◌||◌, not, Option, none, some, List, [], ◌∷◌,
  ◌++◌, Bytes, arith, ◌==◌, if_holds, length, tail, Bool-cases, Outcome, ok, inl, inr,
}
use bispe.Compiler.Token.{
  tok_openpa, tok_closepa, tok_openbr, tok_closebr, tok_comma, tok_semicl, tok_eq, tok_eqeq,
  tok_neq, tok_gt, tok_lt, tok_ge, tok_le, tok_plus, tok_minus, tok_star, tok_slash, tok_percent,
  Token,
}
use bispe.Compiler.Lexer.{
  valued, first_byte, onto, scan_ident, scan_digits, scan_intliteral, Lexeme, skipped, lexed,
  illegal, check_ident_type, scanned, lex_punct, lex, is_letter, is_digit, is_ident, cons_token,
  follow, tokenize_loop, tokenize_string,
}
use bispe.Compiler.Lexer.Print.{
  IsIdentTail, AreDigits, IsIntliteral, decimal, octal, hex, IsToken, symbolic, word, literal,
  digit_of, AreTokens, eof, more,
}

abbrev Yields : (Bytes → Type 0) → Option (Bytes × Bytes) → Type 0
Yields P none = Unit
Yields P (some (v, rest)) = P v

onto-Yields :
    (P Q : Bytes → Type 0) (p : Bytes) (r : Option (Bytes × Bytes))
    → ((v : Bytes) → P v → Q (p ++ v))
    → Yields P r
    → Yields Q (onto p r)
onto-Yields P Q p none f h = tt
onto-Yields P Q p (some (v, rest)) f h = f v h

scan_ident-IsIdentTail : (s : Bytes) → IsIdentTail (scan_ident s).0
unfolding scan_ident
scan_ident-IsIdentTail [] = IsIdentTail.nil
scan_ident-IsIdentTail (c ∷ s) = elim (Bool-cases (is_ident c)) [
  | inl e ↦ rw e (IsIdentTail.cons e (scan_ident-IsIdentTail s))
  | inr e ↦ rw e IsIdentTail.nil
]

scan_digits_cons :
    (x o : Bool) (c : ℕ) (s : Bytes)
    → Yields (AreDigits x o) (scan_digits x o s)
    → digit_of x o c ≡ true
    → Yields (AreDigits x o) (onto (c ∷ []) (scan_digits x o s))
scan_digits_cons x o c s ih d =
    onto-Yields (AreDigits x o) (AreDigits x o) (c ∷ []) _ (λ v h. AreDigits.cons d h) ih

scan_digits-AreDigits : (x o : Bool) (s : Bytes) → Yields (AreDigits x o) (scan_digits x o s)
unfolding scan_digits
scan_digits-AreDigits x o [] = AreDigits.nil
scan_digits-AreDigits x o (c ∷ s) =
    let none_left : AreDigits x o [] = AreDigits.nil in
    ground (arith, scan_digits_cons x o c s (scan_digits-AreDigits x o s), none_left)

scan_decimal :
    (c : ℕ) (s : Bytes)
    → (is_digit c && not (c == b'0')) ≡ true
    → Yields IsIntliteral (scan_digits false false (c ∷ s))
unfolding scan_digits
scan_decimal c s h =
    let after =
      onto-Yields (AreDigits false false) IsIntliteral (c ∷ []) _ (λ v d. decimal h d)
        (scan_digits-AreDigits false false s) in
    ground (arith, after)

-- A lone zero.
scan_zero :
    (s : Bytes) → first_byte s ≡ 0 → Yields IsIntliteral (scan_digits false false (b'0' ∷ s))
unfolding scan_digits
scan_zero [] h = octal AreDigits.nil
scan_zero (c ∷ s) h =
    let zero_only : IsIntliteral (b'0' ∷ []) = octal AreDigits.nil in rw h zero_only

scan_intliteral-IsIntliteral :
    (c : ℕ) (s : Bytes) → is_digit c ≡ true → Yields IsIntliteral (scan_intliteral (c ∷ s))
unfolding scan_intliteral
scan_intliteral-IsIntliteral c s h =
    let h16 =
      onto-Yields (AreDigits true false) IsIntliteral (b'0' ∷ b'x' ∷ []) _ (λ v d. hex d)
        (scan_digits-AreDigits true false (tail s)) in
    let h8 =
      onto-Yields (AreDigits false true) IsIntliteral (b'0' ∷ []) _ (λ v d. octal d)
        (scan_digits-AreDigits false true s) in
    ground (arith, h16, h8, scan_decimal c s, scan_zero s)

-- A token that is returned is one of the source language.
abbrev IsFine : Lexeme → Type 0
IsFine (skipped rest) = Unit
IsFine (lexed t rest) = IsToken t
IsFine illegal = Unit

lex_punct-IsFine : (c : ℕ) (s : Bytes) → IsFine (lex_punct c s)
unfolding lex_punct
lex_punct-IsFine c s = ground (
  arith,
  symbolic tok_openpa refl,
  symbolic tok_closepa refl,
  symbolic tok_openbr refl,
  symbolic tok_closebr refl,
  symbolic tok_comma refl,
  symbolic tok_semicl refl,
  symbolic tok_plus refl,
  symbolic tok_minus refl,
  symbolic tok_star refl,
  symbolic tok_percent refl,
)

scanned-IsFine : (r : Option (Bytes × Bytes)) → Yields IsIntliteral r → IsFine (scanned r)
scanned-IsFine none h = tt
scanned-IsFine (some (v, rest)) h = literal v h

lex_word :
    (c : ℕ) (s : Bytes)
    → (is_letter c || c == b'_') ≡ true
    → IsToken (valued (check_ident_type (scan_ident (c ∷ s)).0) (scan_ident (c ∷ s)).0)
unfolding scan_ident
lex_word c s h =
    let e : is_ident c ≡ true = ground arith in rw e (word c _ h (scan_ident-IsIdentTail s))

lex-IsFine : (c : ℕ) (s : Bytes) → IsFine (lex c s)
unfolding lex
lex-IsFine c s = ground (
  arith,
  symbolic tok_eq refl,
  symbolic tok_eqeq refl,
  symbolic tok_neq refl,
  symbolic tok_lt refl,
  symbolic tok_le refl,
  symbolic tok_gt refl,
  symbolic tok_ge refl,
  symbolic tok_slash refl,
  lex_word c s,
  lex_punct-IsFine c s,
  λ (h : is_digit c ≡ true).
      scanned-IsFine (scan_intliteral (c ∷ s)) (scan_intliteral-IsIntliteral c s h),
)

abbrev AreFine : Outcome (Option (List Token)) → Type 0
AreFine (ok (some ts)) = AreTokens ts
AreFine _ = Unit

cons_token-AreFine :
    (t : Token) (r : Outcome (Option (List Token)))
    → IsToken t
    → AreFine r
    → AreFine (cons_token t r)
cons_token-AreFine t (ok (some ts)) h hs = more h hs
cons_token-AreFine t (ok none) h hs = tt
cons_token-AreFine t _ h hs = tt

follow-AreFine :
    (loop : Bytes → Outcome (Option (List Token))) (x : Lexeme)
    → IsFine x
    → ((s : Bytes) → AreFine (loop s))
    → AreFine (follow loop x)
follow-AreFine loop (skipped rest) h ih = ih rest
follow-AreFine loop (lexed t rest) h ih = cons_token-AreFine t (loop rest) h (ih rest)
follow-AreFine loop illegal h ih = tt

tokenize_loop-AreFine : (f : ℕ) (s : Bytes) → AreFine (tokenize_loop f s)
unfolding tokenize_loop
tokenize_loop-AreFine zero s = tt
tokenize_loop-AreFine (suc f) [] = eof
tokenize_loop-AreFine (suc f) (c ∷ s) =
    if_holds AreFine (c == 0) eof
      (follow-AreFine (tokenize_loop f) (lex c s) (lex-IsFine c s) (tokenize_loop-AreFine f))

-- A token list that the lexer returns ends with the end of file, which stands nowhere else. Each
-- token before it is a symbol, an identifier or keyword whose type is that of its spelling, or a
-- literal of base 8, 10 or 16.
pub tokenize_string-AreTokens :
    (s : Bytes) {ts : List Token} → tokenize_string s ≡ ok (some ts) → AreTokens ts
unfolding tokenize_string
tokenize_string-AreTokens s e = rw e at (tokenize_loop-AreFine (suc (length s)) s)
