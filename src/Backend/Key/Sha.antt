-- ===== src/Backend/Key/Sha.antt =====
-- backend/bispe_sha.c: SHA-256 of a message of one block. The arithmetic is that of `uint32_t`.
pub mod Fips
pub mod Functions
pub mod Order
pub mod Schedule
pub mod Standard
use Prim.Native.Nat.{bit_and, bit_or, bit_xor}
use bispe.Base.{
  ℕ, zero, suc, ◌+◌, ◌-◌, ◌*◌, ◌/◌, ◌%◌, ◌^◌, Option, none, some, List, [], ◌∷◌, ◌++◌, Bytes,
  length, get_elem?, ltb, if◌then◌else◌,
}

abbrev pub add32 : ℕ → ℕ → ℕ
add32 a b = (a + b) % 2 ^ 32

-- `x >> n` and `x << n`
abbrev pub shr : ℕ → ℕ → ℕ
shr x n = x / 2 ^ n

abbrev pub shl : ℕ → ℕ → ℕ
shl x n = x * 2 ^ n % 2 ^ 32

unfoldable pub rot : ℕ → ℕ → ℕ
rot x n = bit_or (shr x n) (shl x (32 - n))

-- `s0` and `s1`
unfoldable pub small_sigma0 : ℕ → ℕ
unfolding rot
small_sigma0 x = bit_xor (bit_xor (rot x 7) (rot x 18)) (shr x 3)

unfoldable pub small_sigma1 : ℕ → ℕ
unfolding rot
small_sigma1 x = bit_xor (bit_xor (rot x 17) (rot x 19)) (shr x 10)

-- `S0` and `S1`
unfoldable pub sigma0 : ℕ → ℕ
unfolding rot
sigma0 x = bit_xor (bit_xor (rot x 2) (rot x 13)) (rot x 22)

unfoldable pub sigma1 : ℕ → ℕ
unfolding rot
sigma1 x = bit_xor (bit_xor (rot x 6) (rot x 11)) (rot x 25)

unfoldable pub ch : ℕ → ℕ → ℕ → ℕ
ch x y z = bit_xor (bit_and x y) (bit_and (2 ^ 32 - 1 - x) z)

unfoldable pub maj : ℕ → ℕ → ℕ → ℕ
maj x y z = bit_xor (bit_xor (bit_and x y) (bit_and x z)) (bit_and y z)

unfoldable pub endian : ℕ → ℕ
endian x =
    bit_or (bit_or (bit_or (shr x 24) (bit_and (shr x 8) 0x0000FF00)) (shl x 24))
      (bit_and (shl x 8) 0x00FF0000)

-- The table `k`.
abbrev pub constants : List ℕ
constants =
    0x428a2f98 ∷ 0x71374491 ∷ 0xb5c0fbcf ∷ 0xe9b5dba5 ∷ 0x3956c25b ∷ 0x59f111f1 ∷ 0x923f82a4
    ∷ 0xab1c5ed5 ∷ 0xd807aa98 ∷ 0x12835b01 ∷ 0x243185be ∷ 0x550c7dc3 ∷ 0x72be5d74 ∷ 0x80deb1fe
    ∷ 0x9bdc06a7 ∷ 0xc19bf174 ∷ 0xe49b69c1 ∷ 0xefbe4786 ∷ 0x0fc19dc6 ∷ 0x240ca1cc ∷ 0x2de92c6f
    ∷ 0x4a7484aa ∷ 0x5cb0a9dc ∷ 0x76f988da ∷ 0x983e5152 ∷ 0xa831c66d ∷ 0xb00327c8 ∷ 0xbf597fc7
    ∷ 0xc6e00bf3 ∷ 0xd5a79147 ∷ 0x06ca6351 ∷ 0x14292967 ∷ 0x27b70a85 ∷ 0x2e1b2138 ∷ 0x4d2c6dfc
    ∷ 0x53380d13 ∷ 0x650a7354 ∷ 0x766a0abb ∷ 0x81c2c92e ∷ 0x92722c85 ∷ 0xa2bfe8a1 ∷ 0xa81a664b
    ∷ 0xc24b8b70 ∷ 0xc76c51a3 ∷ 0xd192e819 ∷ 0xd6990624 ∷ 0xf40e3585 ∷ 0x106aa070 ∷ 0x19a4c116
    ∷ 0x1e376c08 ∷ 0x2748774c ∷ 0x34b0bcb5 ∷ 0x391c0cb3 ∷ 0x4ed8aa4a ∷ 0x5b9cca4f ∷ 0x682e6ff3
    ∷ 0x748f82ee ∷ 0x78a5636f ∷ 0x84c87814 ∷ 0x8cc70208 ∷ 0x90befffa ∷ 0xa4506ceb ∷ 0xbef9a3f7
    ∷ 0xc67178f2 ∷ []

-- An element of an array; the loops stay inside their arrays.
abbrev pub at : List ℕ → ℕ → ℕ
at xs i = elim (get_elem? xs i) [ none ↦ 0 | some x ↦ x ]

-- The first loop: the bytes of the message, as many as are counted.
unfoldable pub copy_message : ℕ → Bytes → Bytes
copy_message zero message = []
copy_message (suc n) [] = 0 ∷ copy_message n []
copy_message (suc n) (c ∷ message) = c ∷ copy_message n message

unfoldable pub zeros : ℕ → Bytes
zeros zero = []
zeros (suc n) = 0 ∷ zeros n

-- The count, at most 53.
abbrev pub restricted : ℕ → ℕ
restricted msglen = if ltb 53 msglen then 53 else msglen

-- The 64 bytes of `chunk`.
unfoldable pub build_chunk : Bytes → ℕ → Bytes
unfolding copy_message zeros
build_chunk message msglen =
    copy_message msglen message
    ++ (0x80
        ∷ (zeros (61 - msglen)
            ++ (msglen * 8 / 2 ^ ((63 - 62) * 8) % 2 ^ 8
                ∷ (msglen * 8 / 2 ^ ((63 - 63) * 8) % 2 ^ 8 ∷ []))))

-- The first sixteen words of `w`: four bytes each, the first one on top.
unfoldable pub first_words : Bytes → List ℕ
first_words (a ∷ b ∷ c ∷ d ∷ chunk) =
    (bit_or (bit_or (bit_or (shl a 24) (shl b 16)) (shl c 8)) d) ∷ first_words chunk
first_words _ = []

-- The other words, `n` of them.
unfoldable pub extend : ℕ → List ℕ → List ℕ
unfolding small_sigma0 small_sigma1
extend zero w = w
extend (suc n) w =
    let i = length w in
    extend n (
      w
      ++ (add32 (add32 (add32 (at w (i - 16)) (small_sigma0 (at w (i - 15)))) (at w (i - 7)))
            (small_sigma1 (at w (i - 2)))
          ∷ []))

pub record Hash : Type 0 where
  pub a : ℕ
  pub b : ℕ
  pub c : ℕ
  pub d : ℕ
  pub e : ℕ
  pub f : ℕ
  pub g : ℕ
  pub h : ℕ

abbrev pub initial : Hash
initial = record {
  a = 0x6a09e667;
  b = 0xbb67ae85;
  c = 0x3c6ef372;
  d = 0xa54ff53a;
  e = 0x510e527f;
  f = 0x9b05688c;
  g = 0x1f83d9ab;
  h = 0x5be0cd19;
}

-- The body of the main loop.
unfoldable pub round : ℕ → ℕ → Hash → Hash
unfolding sigma0 sigma1 ch maj
round k w s =
    let t1 = add32 (add32 (add32 (add32 s.h (sigma1 s.e)) (ch s.e s.f s.g)) k) w in
    let t2 = add32 (sigma0 s.a) (maj s.a s.b s.c) in
    record {
      a = add32 t1 t2;
      b = s.a;
      c = s.b;
      d = s.c;
      e = add32 s.d t1;
      f = s.e;
      g = s.f;
      h = s.g;
    }

-- The main loop, over the constants and the words.
unfoldable pub rounds : List ℕ → List ℕ → Hash → Hash
unfolding round
rounds (k ∷ ks) (w ∷ ws) s = rounds ks ws (round k w s)
rounds _ _ s = s

-- The words are stored with the lowest byte first.
unfoldable pub stored : ℕ → Bytes
stored x = x % 2 ^ 8 ∷ x / 2 ^ 8 % 2 ^ 8 ∷ x / 2 ^ 16 % 2 ^ 8 ∷ x / 2 ^ 24 % 2 ^ 8 ∷ []

-- The sums, and their words aligned and stored.
unfoldable pub digest_of : Hash → Hash → Bytes
unfolding endian stored
digest_of i s =
    stored (endian (add32 i.a s.a))
    ++ (stored (endian (add32 i.b s.b))
        ++ (stored (endian (add32 i.c s.c))
            ++ (stored (endian (add32 i.d s.d))
                ++ (stored (endian (add32 i.e s.e))
                    ++ (stored (endian (add32 i.f s.f))
                        ++ (stored (endian (add32 i.g s.g)) ++ stored (endian (add32 i.h s.h))))))))

-- The digest of the first `msglen` bytes.
unfoldable pub bispe_sha256 : Bytes → ℕ → Bytes
unfolding build_chunk first_words extend rounds digest_of
bispe_sha256 message msglen =
    digest_of initial
      (rounds constants (extend 48 (first_words (build_chunk message (restricted msglen)))) initial)
