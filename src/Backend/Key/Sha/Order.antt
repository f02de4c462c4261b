-- ===== src/Backend/Key/Sha/Order.antt =====
-- The order of the bytes in the digest of backend/bispe_sha.c.
use bispe.Base.{ℕ, ◌+◌, ◌*◌, ◌/◌, ◌%◌, ◌^◌, ◌<◌, ◌≡◌, refl, ◌∙◌, [], ◌∷◌, ◌++◌, Bytes, arith}
use mathlib.Core.Path.{ap₂}
use Prim.Native.Nat.{bit_and, bit_or}
use bispe.Backend.Key.Bits.{shifted-bit_or, bit_or-middle, bit_and-byte}
use bispe.Backend.Key.Sha.{add32, endian, stored, Hash, digest_of}

-- A word with its highest byte first.
abbrev pub big_endian : ℕ → Bytes
big_endian x = x / 2 ^ 24 % 2 ^ 8 ∷ x / 2 ^ 16 % 2 ^ 8 ∷ x / 2 ^ 8 % 2 ^ 8 ∷ x % 2 ^ 8 ∷ []

-- The sums as words with their highest byte first.
abbrev pub output : Hash → Hash → Bytes
output i s =
    big_endian ((i.a + s.a) % 2 ^ 32)
    ++ (big_endian ((i.b + s.b) % 2 ^ 32)
        ++ (big_endian ((i.c + s.c) % 2 ^ 32)
            ++ (big_endian ((i.d + s.d) % 2 ^ 32)
                ++ (big_endian ((i.e + s.e) % 2 ^ 32)
                    ++ (big_endian ((i.f + s.f) % 2 ^ 32)
                        ++ (big_endian ((i.g + s.g) % 2 ^ 32)
                            ++ big_endian ((i.h + s.h) % 2 ^ 32)))))))

-- The four bytes that `endian` puts together.
endian_lem :
    (x : ℕ)
    → x < 2 ^ 32
    → endian x
      ≡ (x % 2 ^ 8) * 2 ^ 24
        + (x / 2 ^ 8 % 2 ^ 8) * 2 ^ 16
        + ((x / 2 ^ 16 % 2 ^ 8) * 2 ^ 8 + x / 2 ^ 24)
unfolding endian
endian_lem x h =
    let low : ℕ = x / 2 ^ 16 % 2 ^ 8 * 2 ^ 8 + x / 2 ^ 24 in
    let second : bit_and (x / 2 ^ 8) 0xFF00 ≡ x / 2 ^ 16 % 2 ^ 8 * 2 ^ 8 =
      bit_and-byte 8 (x / 2 ^ 8) ∙ omega arith in
    let third : bit_and (x * 2 ^ 8 % 2 ^ 32) 0xFF0000 ≡ x / 2 ^ 8 % 2 ^ 8 * 2 ^ 16 =
      bit_and-byte 16 (x * 2 ^ 8 % 2 ^ 32) ∙ omega arith in
    let first : x * 2 ^ 24 % 2 ^ 32 ≡ x % 2 ^ 8 * 2 ^ 24 = omega arith in
    let two : bit_or (x / 2 ^ 24) (x / 2 ^ 16 % 2 ^ 8 * 2 ^ 8) ≡ low =
      shifted-bit_or 8 (x / 2 ^ 16 % 2 ^ 8) (x / 2 ^ 24) (omega arith) in
    let three : bit_or low (x % 2 ^ 8 * 2 ^ 24) ≡ x % 2 ^ 8 * 2 ^ 24 + low =
      shifted-bit_or 24 (x % 2 ^ 8) low (omega arith) in
    rw second (
      rw third (
        rw first (
          rw two (
            rw three
              (bit_or-middle (x % 2 ^ 8) (x / 2 ^ 8 % 2 ^ 8) low (omega arith) (omega arith))))))

stored-endian : (x : ℕ) → x < 2 ^ 32 → stored (endian x) ≡ big_endian x
unfolding stored
stored-endian x h = rw (endian_lem x h) (
    ap₂ ◌∷◌ (omega arith)
      (ap₂ ◌∷◌ (omega arith) (ap₂ ◌∷◌ (omega arith) (ap₂ ◌∷◌ (omega arith) refl))))

stored-sum : (a b : ℕ) → stored (endian (add32 a b)) ≡ big_endian (add32 a b)
stored-sum a b = stored-endian (add32 a b) (omega arith)

pub digest_of-output : (i s : Hash) → digest_of i s ≡ output i s
unfolding digest_of
digest_of-output i s = ap₂ ◌++◌ (stored-sum i.a s.a) (
    ap₂ ◌++◌ (stored-sum i.b s.b) (
      ap₂ ◌++◌ (stored-sum i.c s.c) (
        ap₂ ◌++◌ (stored-sum i.d s.d) (
          ap₂ ◌++◌ (stored-sum i.e s.e)
            (ap₂ ◌++◌ (stored-sum i.f s.f) (ap₂ ◌++◌ (stored-sum i.g s.g) (stored-sum i.h s.h)))))))
