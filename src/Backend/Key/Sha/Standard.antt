-- ===== src/Backend/Key/Sha/Standard.antt =====
-- The digest of backend/bispe_sha.c against the standard FIPS 180-4, with its padding.
use bispe.Base.{
  ℕ, zero, length-append, suc, ◌+◌, ◌-◌, ◌*◌, ◌/◌, ◌%◌, ◌^◌, ◌≤◌, ◌<◌, ◌≡◌, refl, sym, ap, ◌∙◌,
  List, [], ◌∷◌, ◌++◌, append_assoc, Bytes, length, arith,
}
use mathlib.Core.Path.{ap₂}
use Prim.Native.Nat.{bit_or, min}
use bispe.Backend.Key.Sha.Schedule.{IsSchedule, extend-IsSchedule}
use bispe.Backend.Key.Bits.{bit_or-shifted}
use bispe.Backend.Key.Sha.Fips.{round_constants, initial_hash, compress_all}
use bispe.Backend.Key.Sha.Functions.{
  constants-round_constants, initial-initial_hash, rounds-compress_all,
}
use bispe.Backend.Key.Sha.Order.{big_endian, output, digest_of-output}
use bispe.Backend.Key.Sha.{
  shl, zeros, copy_message, build_chunk, first_words, restricted, initial, constants, rounds,
  extend, bispe_sha256, digest_of,
}

abbrev pub AllBytes : Bytes → Type 0
AllBytes [] = Unit
AllBytes (c ∷ s) = (c < 2 ^ 8) × AllBytes s

-- `n` zeros
abbrev pub zero_bytes : ℕ → Bytes
zero_bytes zero = []
zero_bytes (suc n) = 0 ∷ zero_bytes n

zeros-zero_bytes : (n : ℕ) → zeros n ≡ zero_bytes n
unfolding zeros
zeros-zero_bytes zero = refl
zeros-zero_bytes (suc n) = ap (λ s. 0 ∷ s) (zeros-zero_bytes n)

-- The message, a bit, zeros, and its length in bits in 64 bits.
abbrev pub padded : Bytes → Bytes
padded m =
    m
    ++ (0x80
        ∷ (zero_bytes (55 - length m)
            ++ (big_endian (8 * length m / 2 ^ 32) ++ big_endian (8 * length m % 2 ^ 32))))

-- Sixteen words, with their highest byte first.
abbrev pub words_of : Bytes → List ℕ
words_of (a ∷ b ∷ c ∷ d ∷ s) = (a * 2 ^ 24 + b * 2 ^ 16 + c * 2 ^ 8 + d) ∷ words_of s
words_of _ = []

-- The first bytes, when there are enough.
copy_message-append : (m rest : Bytes) → copy_message (length m) (m ++ rest) ≡ m
unfolding copy_message
copy_message-append [] rest = refl
copy_message-append (c ∷ m) rest = ap (λ s. c ∷ s) (copy_message-append m rest)

zeros-add : (n k : ℕ) → zeros (n + k) ≡ zeros n ++ zeros k
unfolding zeros
zeros-add zero k = let e : 0 + k ≡ k = omega arith in ap zeros e
zeros-add (suc n) k =
    let e : suc n + k ≡ suc (n + k) = omega arith in ap zeros e ∙ ap (λ s. 0 ∷ s) (zeros-add n k)

-- The length takes the two lowest of its eight bytes.
length_field :
    (n : ℕ)
    → n ≤ 53
    → zeros (61 - n) ++ (n * 8 / 2 ^ 8 % 2 ^ 8 ∷ n * 8 / 1 % 2 ^ 8 ∷ [])
      ≡ zeros (55 - n) ++ (big_endian (8 * n / 2 ^ 32) ++ big_endian (8 * n % 2 ^ 32))
unfolding zeros
length_field n h =
    let e : 61 - n ≡ (55 - n) + 6 = omega arith in
    rw e (
      rw (zeros-add (55 - n) 6) (
        append_assoc (zeros (55 - n)) (zeros 6) _
        ∙ ap (λ s. zeros (55 - n) ++ s)
            (ap₂ ◌∷◌ (omega arith) (
              ap₂ ◌∷◌ (omega arith) (
                ap₂ ◌∷◌ (omega arith) (
                  ap₂ ◌∷◌ (omega arith) (
                    ap₂ ◌∷◌ (omega arith) (
                      ap₂ ◌∷◌ (omega arith)
                        (ap₂ ◌∷◌ (omega arith) (ap₂ ◌∷◌ (omega arith) refl))))))))))

build_chunk-padded :
    (m rest : Bytes) → length m ≤ 53 → build_chunk (m ++ rest) (length m) ≡ padded m
unfolding build_chunk
build_chunk-padded m rest h =
    let field : Bytes = big_endian (8 * length m / 2 ^ 32) ++ big_endian (8 * length m % 2 ^ 32) in
    ap₂ ◌++◌ (copy_message-append m rest) (
      ap (λ s. 0x80 ∷ s)
        (length_field (length m) h ∙ ap (λ z. z ++ field) (zeros-zero_bytes (55 - length m))))

-- Four bytes make a word.
word-of_bytes :
    (a b c d : ℕ)
    → a < 2 ^ 8
    → b < 2 ^ 8
    → c < 2 ^ 8
    → d < 2 ^ 8
    → bit_or (bit_or (bit_or (shl a 24) (shl b 16)) (shl c 8)) d
      ≡ a * 2 ^ 24 + b * 2 ^ 16 + c * 2 ^ 8 + d
word-of_bytes a b c d ha hb hc hd =
    let ea : shl a 24 ≡ a * 2 ^ 24 = omega arith in
    let eb : shl b 16 ≡ b * 2 ^ 16 = omega arith in
    let ec : shl c 8 ≡ c * 2 ^ 8 = omega arith in
    let one : bit_or (a * 2 ^ 24) (b * 2 ^ 16) ≡ (a * 2 ^ 16 + b * 2 ^ 8) * 2 ^ 8 =
      bit_or-shifted 24 a (b * 2 ^ 16) (omega arith) ∙ omega arith in
    let e1 : (a * 2 ^ 16 + b * 2 ^ 8) * 2 ^ 8 ≡ (a * 2 ^ 8 + b) * 2 ^ 16 = omega arith in
    let two : bit_or ((a * 2 ^ 8 + b) * 2 ^ 16) (c * 2 ^ 8) ≡ (a * 2 ^ 16 + b * 2 ^ 8 + c) * 2 ^ 8 =
      bit_or-shifted 16 (a * 2 ^ 8 + b) (c * 2 ^ 8) (omega arith) ∙ omega arith in
    let three : bit_or ((a * 2 ^ 16 + b * 2 ^ 8 + c) * 2 ^ 8) d
        ≡ a * 2 ^ 24 + b * 2 ^ 16 + c * 2 ^ 8 + d =
      bit_or-shifted 8 (a * 2 ^ 16 + b * 2 ^ 8 + c) d hd ∙ omega arith in
    ap₂ (λ x y. bit_or (bit_or x y) d) (ap₂ bit_or ea eb ∙ (one ∙ e1)) ec
    ∙ (ap (λ x. bit_or x d) two ∙ three)

pub first_words-words_of : (s : Bytes) → AllBytes s → first_words s ≡ words_of s
unfolding first_words
first_words-words_of [] h = refl
first_words-words_of (a ∷ []) h = refl
first_words-words_of (a ∷ b ∷ []) h = refl
first_words-words_of (a ∷ b ∷ c ∷ []) h = refl
first_words-words_of (a ∷ b ∷ c ∷ d ∷ s) (ha, (hb, (hc, (hd, h)))) =
    ap₂ ◌∷◌ (word-of_bytes a b c d ha hb hc hd) (first_words-words_of s h)

AllBytes-append : (s t : Bytes) → AllBytes s → AllBytes t → AllBytes (s ++ t)
AllBytes-append [] t h k = k
AllBytes-append (c ∷ s) t (hc, h) k = (hc, AllBytes-append s t h k)

zero_bytes-AllBytes : (n : ℕ) → AllBytes (zero_bytes n)
zero_bytes-AllBytes zero = tt
zero_bytes-AllBytes (suc n) = (omega arith, zero_bytes-AllBytes n)

big_endian-AllBytes : (x : ℕ) → AllBytes (big_endian x)
big_endian-AllBytes x = (omega arith, (omega arith, (omega arith, (omega arith, tt))))

padded-AllBytes : (m : Bytes) → AllBytes m → AllBytes (padded m)
padded-AllBytes m h =
    let high : Bytes = big_endian (8 * length m / 2 ^ 32) in
    let low : Bytes = big_endian (8 * length m % 2 ^ 32) in
    let field : AllBytes (high ++ low) =
      AllBytes-append high low (big_endian-AllBytes (8 * length m / 2 ^ 32))
        (big_endian-AllBytes (8 * length m % 2 ^ 32)) in
    AllBytes-append m _ h (
      omega arith,
      AllBytes-append (zero_bytes (55 - length m)) (high ++ low)
          (zero_bytes-AllBytes (55 - length m)) field,
    )

words_of-length : (k : ℕ) (s : Bytes) → length s ≡ 4 * k → length (words_of s) ≡ k
words_of-length zero [] h = refl
words_of-length zero (a ∷ s) h = absurd (omega arith)
words_of-length (suc k) [] h = absurd (omega arith)
words_of-length (suc k) (a ∷ []) h = absurd (omega arith)
words_of-length (suc k) (a ∷ b ∷ []) h = absurd (omega arith)
words_of-length (suc k) (a ∷ b ∷ c ∷ []) h = absurd (omega arith)
words_of-length (suc k) (a ∷ b ∷ c ∷ d ∷ s) h = ap suc (words_of-length k s (omega arith))

zero_bytes-length : (n : ℕ) → length (zero_bytes n) ≡ n
zero_bytes-length zero = refl
zero_bytes-length (suc n) = ap suc (zero_bytes-length n)

padded-length : (m : Bytes) → length m ≤ 53 → length (padded m) ≡ 64
padded-length m h = omega (
  arith,
  length-append m (
      0x80
      ∷ (zero_bytes (55 - length m)
          ++ (big_endian (8 * length m / 2 ^ 32) ++ big_endian (8 * length m % 2 ^ 32)))),
  length-append (zero_bytes (55 - length m))
      (big_endian (8 * length m / 2 ^ 32) ++ big_endian (8 * length m % 2 ^ 32)),
  zero_bytes-length (55 - length m),
)

restricted-min : (n : ℕ) → restricted n ≡ min n 53
restricted-min n = ground arith

-- The block of the message as the standard pads it, read as words and extended to its schedule.
abbrev pub Schedules : Bytes → List ℕ → Type 0
Schedules m w = IsSchedule (words_of (padded m)) w

-- The code's rounds with its constants, and the standard's.
standard :
    (w : List ℕ)
    → output initial (rounds constants w initial)
      ≡ output initial_hash (compress_all round_constants w initial_hash)
standard w =
    ap₂ (λ i ks. output i (rounds ks w i)) initial-initial_hash constants-round_constants
    ∙ ap (output initial_hash) (rounds-compress_all round_constants w initial_hash)

-- For the message `m` of the counted bytes, or of the first 53 if more are counted, and whatever lies
-- behind it in memory, `bispe_sha256` gives the digest of the standard: the bytes, each word's highest
-- first, of the sums of the initial hash with the result of the 64 rounds on the message schedule of
-- the padded message. The functions are those of the standard, the constants of the rounds are taken
-- from the cube roots of the first 64 primes, and the initial hash from the square roots of the
-- first eight.
pub bispe_sha256_lem :
    (m rest : Bytes) (n : ℕ)
    → AllBytes m
    → length m ≡ min n 53
    → (w : List ℕ) × (Schedules m w
        × (bispe_sha256 (m ++ rest) n
            ≡ output initial_hash (compress_all round_constants w initial_hash)))
unfolding bispe_sha256
bispe_sha256_lem m rest n h e =
    let short : length m ≤ 53 = omega (arith, e) in
    let w : List ℕ = extend 48 (words_of (padded m)) in
    let count : restricted n ≡ length m = restricted-min n ∙ sym e in
    let block : first_words (build_chunk (m ++ rest) (restricted n)) ≡ words_of (padded m) =
      ap (λ k. first_words (build_chunk (m ++ rest) k)) count
      ∙ (ap first_words (build_chunk-padded m rest short)
          ∙ first_words-words_of (padded m) (padded-AllBytes m h)) in
    let scheduled : Schedules m w =
      extend-IsSchedule (words_of (padded m))
        (words_of-length 16 (padded m) (padded-length m short)) in
    let digest : bispe_sha256 (m ++ rest) n ≡ output initial (rounds constants w initial) =
      ap (λ b. digest_of initial (rounds constants (extend 48 b) initial)) block
      ∙ digest_of-output initial (rounds constants w initial) in
    (w, (scheduled, digest ∙ standard w))
