-- ===== src/Frontend/Numbers.antt =====
-- The numbers that frontend/bispe.c reads from its command line with strtol and strtoul, in a 64 bit
-- build, and prints with `%d`.
pub mod Decimal
use bispe.Base.{
  ℕ, zero, suc, ◌+◌, ◌-◌, ◌*◌, ◌/◌, ◌%◌, ◌^◌, Bool, true, false, ◌&&◌, ◌||◌, Option, none, some,
  List, [], ◌∷◌, ◌++◌, Bytes, ltb, leb, ◌==◌, if◌then◌else◌, is_empty,
}

-- `isspace`
abbrev pub is_space : ℕ → Bool
is_space c = c == b' ' || (leb 9 c && leb c 13)

unfoldable pub skip_space : Bytes → Bytes
skip_space [] = []
skip_space (c ∷ s) = if is_space c then skip_space s else c ∷ s

-- The value of a digit; `none` for any other character.
abbrev pub digit_of : ℕ → Option ℕ
digit_of c =
    if leb b'0' c && leb c b'9'
    then some (c - b'0')
    else if leb b'a' c && leb c b'z'
    then some (c - b'a' + 10)
    else if leb b'A' c && leb c b'Z'
    then some (c - b'A' + 10)
    else none

-- Digits below the base are read; the value that is read, and the text behind it.
unfoldable pub read_digits : ℕ → ℕ → Bytes → ℕ × Bytes
read_digits base n [] = (n, [])
read_digits base n (c ∷ s) = elim (digit_of c) [
  | none ↦ (n, c ∷ s)
  | some d ↦
      (let rest = read_digits base (n * base + d) s in if ltb d base then rest else (n, c ∷ s))
]

-- What strtol and strtoul see: the sign, the digits' value, and the text behind them; `none` if there
-- is no digit.
pub record Numeral : Type 0 where
  pub negative : Bool
  pub magnitude : ℕ
  pub rest : Bytes

-- A digit of the base.
abbrev pub begins_with_digit : ℕ → Bytes → Bool
begins_with_digit base [] = false
begins_with_digit base (c ∷ s) = elim (digit_of c) [ none ↦ false | some d ↦ ltb d base ]

-- The digits behind the sign, in a base that is given.
unfoldable pub numeral : ℕ → Bool → Bytes → Option Numeral
unfolding read_digits
numeral base negative s =
    if begins_with_digit base s
    then (let (n, rest) = read_digits base 0 s in
        some (record { negative = negative; magnitude = n; rest = rest }))
    else none

-- Base 0: sixteen behind `0x`, eight behind `0`, ten otherwise. An `x` with no digit behind it is not
-- a part of the number.
unfoldable pub any_base : Bool → Bytes → Option Numeral
unfolding numeral
any_base negative [] = none
any_base negative (c ∷ []) = numeral 10 negative (c ∷ [])
any_base negative (c ∷ x ∷ s) =
    if c == b'0'
    then (if (x == b'x' || x == b'X') && begins_with_digit 16 s
        then numeral 16 negative s
        else numeral 8 negative (c ∷ x ∷ s))
    else numeral 10 negative (c ∷ x ∷ s)

-- The sign, behind white space.
abbrev pub signed : (Bool → Bytes → Option Numeral) → Bytes → Option Numeral
signed f [] = none
signed f (c ∷ s) = if c == b'-' then f true s else if c == b'+' then f false s else f false (c ∷ s)

-- An argument of the program: `strtol` with base 0, the tests on its result and on `endptr`, and the
-- cast to `uint32_t`; `none` exits. Where there is no digit, the number is 0 and `endptr` is the
-- argument.
abbrev pub word_of : Bytes → Option Numeral → Option ℕ
word_of arg none = if is_empty arg then some 0 else none
word_of arg (some n) =
    if n.negative
    then (if leb n.magnitude (2 ^ 31) && is_empty n.rest
        then some ((2 ^ 32 - n.magnitude) % 2 ^ 32)
        else none)
    else (if ltb n.magnitude (2 ^ 32) && is_empty n.rest then some n.magnitude else none)

unfoldable pub parse_arg : Bytes → Option ℕ
unfolding any_base skip_space
parse_arg arg = word_of arg (signed any_base (skip_space arg))

-- `strtoul` with base 10, and the test on `endptr`. A number that is too large is the largest one,
-- and a minus sign negates in 64 bits.
abbrev pub size_of : Bytes → Option Numeral → Option ℕ
size_of arg none = if is_empty arg then some 0 else none
size_of arg (some n) =
    if is_empty n.rest
    then some (
        if leb (2 ^ 64) n.magnitude
        then 2 ^ 64 - 1
        else if n.negative
        then (2 ^ 64 - n.magnitude) % 2 ^ 64
        else n.magnitude)
    else none

unfoldable pub parse_size : Bytes → Option ℕ
unfolding numeral skip_space
parse_size arg = size_of arg (signed (numeral 10) (skip_space arg))

-- The decimal digits of a number, on fuel that is one more than the number needs: digits are as many
-- as divisions by ten.
unfoldable pub digits : ℕ → ℕ → Bytes
digits zero n = []
digits (suc f) n =
    let more = digits f (n / 10) ++ (b'0' + n % 10) ∷ [] in
    if ltb n 10 then (b'0' + n) ∷ [] else more

-- `printf("%d", ...)` of a 32 bit word.
unfoldable pub print_int : ℕ → Bytes
unfolding digits
print_int w = if ltb w (2 ^ 31) then digits 10 w else b'-' ∷ digits 10 (2 ^ 32 - w)
