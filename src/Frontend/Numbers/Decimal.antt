-- ===== src/Frontend/Numbers/Decimal.antt =====
-- What is printed is read back.
use native.Mathlib.Nat.{pow-suc}
use bispe.Base.{
  ℕ, zero, suc, ◌+◌, ◌-◌, ◌*◌, ◌/◌, ◌%◌, ◌^◌, ◌≤◌, ◌<◌, ◌≡◌, refl, sym, ap, ◌∙◌, inl, inr, Bool,
  true, false, ◌&&◌, ◌||◌, some, [], ◌∷◌, ◌++◌, append-nil, append_assoc, arith, ltb, leb, ◌==◌,
  if◌then◌else◌, Bytes, Bool-cases,
}
use bispe.Frontend.Numbers.{
  skip_space, read_digits, numeral, any_base, signed, word_of, parse_arg, digits, print_int,
}

-- The factor that reading the digits of `n` brings to what was read before.
scale : ℕ → ℕ → ℕ
scale zero n = 1
scale (suc f) n = let more = scale f (n / 10) * 10 in if ltb n 10 then 10 else more

read_digit :
    (d acc : ℕ) (s : Bytes)
    → d < 10
    → read_digits 10 acc ((b'0' + d) ∷ s) ≡ read_digits 10 (acc * 10 + d) s
unfolding read_digits
read_digit d acc s h = ground arith

read_digits-digits :
    (f n acc : ℕ) (s : Bytes)
    → n < 10 ^ f
    → read_digits 10 acc (digits f n ++ s) ≡ read_digits 10 (acc * scale f n + n) s
unfolding digits scale
read_digits-digits zero n acc s h = ap (λ k. read_digits 10 k s) (omega arith)
read_digits-digits (suc f) n acc s h = elim (Bool-cases (ltb n 10)) [
  | inl e ↦ rw e (read_digit n acc s (ground arith))
  | inr e ↦ rw e (
      ap (read_digits 10 acc) (append_assoc (digits f (n / 10)) ((b'0' + n % 10) ∷ []) s)
      ∙ (read_digits-digits f (n / 10) acc ((b'0' + n % 10) ∷ s) (omega (arith, pow-suc 10 f))
          ∙ (read_digit (n % 10) (acc * scale f (n / 10) + n / 10) s (omega arith)
              ∙ ap (λ k. read_digits 10 k s) (grind arith))))
]

-- A text that begins with a digit other than zero.
abbrev Leading : Bytes → Type 0
Leading [] = ⊥
Leading (c ∷ s) = (49 ≤ c) × (c ≤ 57)

Leading-append : (s t : Bytes) → Leading s → Leading (s ++ t)
Leading-append [] t h = absurd h
Leading-append (c ∷ s) t h = h

digits-Leading : (f n : ℕ) → 0 < n → n < 10 ^ f → Leading (digits f n)
unfolding digits
digits-Leading zero n h l = absurd (omega arith)
digits-Leading (suc f) n h l = elim (Bool-cases (ltb n 10)) [
  | inl e ↦ rw e (ground arith)
  | inr e ↦ rw e (
      Leading-append (digits f (n / 10)) ((b'0' + n % 10) ∷ [])
        (digits-Leading f (n / 10) (ground arith) (omega (arith, pow-suc 10 f))))
]

-- Such a text is read in base ten.
any_base-Leading :
    (negative : Bool) (s : Bytes)
    → Leading s
    → any_base negative s
      ≡ some (record {
        negative = negative;
        magnitude = (read_digits 10 0 s).0;
        rest = (read_digits 10 0 s).1;
      })
unfolding any_base numeral
any_base-Leading negative [] h = absurd h
any_base-Leading negative (c ∷ []) h = ground arith
any_base-Leading negative (c ∷ x ∷ s) h = ground arith

any_base-digits :
    (negative : Bool) (n : ℕ)
    → 0 < n
    → n < 10 ^ 10
    → any_base negative (digits 10 n)
      ≡ some (record { negative = negative; magnitude = n; rest = [] })
unfolding read_digits
any_base-digits negative n pos lt =
    let e : read_digits 10 0 (digits 10 n) ≡ (n, []) =
      ap (read_digits 10 0) (sym (append-nil (digits 10 n)))
      ∙ (read_digits-digits 10 n 0 [] lt ∙ ap (λ k. read_digits 10 k []) (omega arith)) in
    any_base-Leading negative (digits 10 n) (digits-Leading 10 n pos lt)
    ∙ ap (λ r. some (record { negative = negative; magnitude = r.0; rest = r.1 })) e

signed-Leading : (s : Bytes) → Leading s → signed any_base (skip_space s) ≡ any_base false s
unfolding skip_space
signed-Leading [] h = absurd h
signed-Leading (c ∷ s) h =
    let space : (c == b' ' || (leb 9 c && leb c 13)) ≡ false = ground arith in
    let minus : (c == b'-') ≡ false = ground arith in
    let plus : (c == b'+') ≡ false = ground arith in rw space (rw minus (rw plus refl))

-- Every word that the frontend prints, given to it as an argument, is that word again: the output of
-- one program can be the input of the next one.
pub parse_arg-print_int : (w : ℕ) → w < 2 ^ 32 → parse_arg (print_int w) ≡ some w
unfolding parse_arg print_int
parse_arg-print_int zero h = refl
parse_arg-print_int (suc w) h = elim (Bool-cases (ltb (suc w) (2 ^ 31))) [
  | inl e ↦ rw e (
      ap (word_of (digits 10 (suc w))) (
        signed-Leading (digits 10 (suc w)) (digits-Leading 10 (suc w) (omega arith) (omega arith))
        ∙ any_base-digits false (suc w) (omega arith) (omega arith))
      ∙ ground arith)
  | inr e ↦ rw e (
      ap (word_of (b'-' ∷ digits 10 (2 ^ 32 - suc w)))
        (any_base-digits true (2 ^ 32 - suc w) (omega arith) (ground arith))
      ∙ ground arith)
]
