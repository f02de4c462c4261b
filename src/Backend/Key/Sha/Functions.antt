-- ===== src/Backend/Key/Sha/Functions.antt =====
-- The functions, the constants and the rounds of backend/bispe_sha.c are those of the standard.
use bispe.Base.{ℕ, ◌+◌, ◌/◌, ◌%◌, ◌^◌, ◌≡◌, refl, ap, ◌∙◌, List, [], ◌∷◌, arith}
use mathlib.Core.Path.{ap₂}
use Prim.Native.Nat.{bit_or, bit_xor}
use bispe.Backend.Key.Sha.{
  add32, shr, small_sigma0, small_sigma1, sigma0, sigma1, ch, maj, constants, initial, Hash, round,
  rounds,
}
use bispe.Backend.Key.Sha.Fips.{
  lower_sigma0, lower_sigma1, upper_sigma0, upper_sigma1, choose, majority, round_constants,
  initial_hash, compress, compress_all,
}

-- Two rotations and a third part.
three :
    {a b c a' b' c' : ℕ}
    → a ≡ a'
    → b ≡ b'
    → c ≡ c'
    → bit_xor (bit_xor a b) c ≡ bit_xor (bit_xor a' b') c'
three p q r = ap₂ bit_xor (ap₂ bit_xor p q) r

-- What a rotation puts on top.
rotated : (x n : ℕ) {top low : ℕ} → top ≡ low → bit_or (shr x n) top ≡ bit_or (x / 2 ^ n) low
rotated x n e = ap (bit_or (x / 2 ^ n)) e

pub small_sigma0-lower_sigma0 : (x : ℕ) → small_sigma0 x ≡ lower_sigma0 x
unfolding small_sigma0 lower_sigma0
small_sigma0-lower_sigma0 x = three (rotated x 7 (omega arith)) (rotated x 18 (omega arith)) refl

pub small_sigma1-lower_sigma1 : (x : ℕ) → small_sigma1 x ≡ lower_sigma1 x
unfolding small_sigma1 lower_sigma1
small_sigma1-lower_sigma1 x = three (rotated x 17 (omega arith)) (rotated x 19 (omega arith)) refl

sigma0-upper_sigma0 : (x : ℕ) → sigma0 x ≡ upper_sigma0 x
unfolding sigma0 upper_sigma0
sigma0-upper_sigma0 x =
    three (rotated x 2 (omega arith)) (rotated x 13 (omega arith)) (rotated x 22 (omega arith))

sigma1-upper_sigma1 : (x : ℕ) → sigma1 x ≡ upper_sigma1 x
unfolding sigma1 upper_sigma1
sigma1-upper_sigma1 x =
    three (rotated x 6 (omega arith)) (rotated x 11 (omega arith)) (rotated x 25 (omega arith))

ch-choose : (x y z : ℕ) → ch x y z ≡ choose x y z
unfolding ch choose
ch-choose x y z = refl

maj-majority : (x y z : ℕ) → maj x y z ≡ majority x y z
unfolding maj majority
maj-majority x y z = refl

pub constants-round_constants : constants ≡ round_constants
unfolding round_constants
constants-round_constants = refl

pub initial-initial_hash : initial ≡ initial_hash
unfolding initial_hash
initial-initial_hash = refl

round-compress : (k w : ℕ) (s : Hash) → round k w s ≡ compress k w s
unfolding round compress
round-compress k w s =
    let made : ℕ → ℕ → Hash =
      λ a e. record { a = a; b = s.a; c = s.b; d = s.c; e = e; f = s.e; g = s.f; h = s.g } in
    let one : sigma1 s.e ≡ upper_sigma1 s.e = sigma1-upper_sigma1 s.e in
    let two : sigma0 s.a ≡ upper_sigma0 s.a = sigma0-upper_sigma0 s.a in
    let three : ch s.e s.f s.g ≡ choose s.e s.f s.g = ch-choose s.e s.f s.g in
    let four : maj s.a s.b s.c ≡ majority s.a s.b s.c = maj-majority s.a s.b s.c in
    let t1 : add32 (add32 (add32 (add32 s.h (sigma1 s.e)) (ch s.e s.f s.g)) k) w
        ≡ (s.h + upper_sigma1 s.e + choose s.e s.f s.g + k + w) % 2 ^ 32 =
      omega (arith, one, three) in
    let t2 : add32 (sigma0 s.a) (maj s.a s.b s.c)
        ≡ (upper_sigma0 s.a + majority s.a s.b s.c) % 2 ^ 32 =
      omega (arith, two, four) in
    ap₂ made (ap₂ add32 t1 t2) (ap (add32 s.d) t1)

pub rounds-compress_all : (ks ws : List ℕ) (s : Hash) → rounds ks ws s ≡ compress_all ks ws s
unfolding rounds compress_all
rounds-compress_all [] ws s = refl
rounds-compress_all (k ∷ ks) [] s = refl
rounds-compress_all (k ∷ ks) (w ∷ ws) s =
    ap (rounds ks ws) (round-compress k w s) ∙ rounds-compress_all ks ws (compress k w s)
