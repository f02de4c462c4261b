-- ===== src/Backend/Key/Sha/Fips.antt =====
-- The standard FIPS 180-4, written out anew: the functions and constants of SHA-256 and its rounds,
-- with which backend/bispe_sha.c is compared.
use bispe.Base.{
  ℕ, zero, suc, ◌+◌, ◌-◌, ◌*◌, ◌/◌, ◌%◌, ◌^◌, Bool, true, ◌&&◌, not, List, [], ◌∷◌, map, leb, ◌==◌,
  if◌then◌else◌,
}
use Prim.Native.Nat.{bit_and, bit_or, bit_xor}
use bispe.Backend.Key.Sha.{Hash}

-- The rotation to the right of a word of 32 bits.
abbrev pub rotr : ℕ → ℕ → ℕ
rotr n x = bit_or (x / 2 ^ n) (x % 2 ^ n * 2 ^ (32 - n))

-- The functions of the schedule, and those of a round.
unfoldable pub lower_sigma0 : ℕ → ℕ
lower_sigma0 x = bit_xor (bit_xor (rotr 7 x) (rotr 18 x)) (x / 2 ^ 3)

unfoldable pub lower_sigma1 : ℕ → ℕ
lower_sigma1 x = bit_xor (bit_xor (rotr 17 x) (rotr 19 x)) (x / 2 ^ 10)

unfoldable pub upper_sigma0 : ℕ → ℕ
upper_sigma0 x = bit_xor (bit_xor (rotr 2 x) (rotr 13 x)) (rotr 22 x)

unfoldable pub upper_sigma1 : ℕ → ℕ
upper_sigma1 x = bit_xor (bit_xor (rotr 6 x) (rotr 11 x)) (rotr 25 x)

unfoldable pub choose : ℕ → ℕ → ℕ → ℕ
choose x y z = bit_xor (bit_and x y) (bit_and (2 ^ 32 - 1 - x) z)

unfoldable pub majority : ℕ → ℕ → ℕ → ℕ
majority x y z = bit_xor (bit_xor (bit_and x y) (bit_and x z)) (bit_and y z)

-- No number from 2 up to `k + 1` divides `n`.
unfoldable pub undivided : ℕ → ℕ → Bool
undivided zero n = true
undivided (suc k) n = not (n % (k + 2) == 0) && undivided k n

-- The primes among `k` numbers from `n` on.
unfoldable pub primes_from : ℕ → ℕ → List ℕ
unfolding undivided
primes_from zero n = []
primes_from (suc k) n =
    let rest = primes_from k (n + 1) in if undivided (n - 2) n then n ∷ rest else rest

-- The greatest number whose power is at most `t`, bit by bit below the bit `k`.
unfoldable pub root : ℕ → ℕ → ℕ → ℕ → ℕ
root zero e t r = r
root (suc k) e t r = root k e t (if leb ((r + 2 ^ k) ^ e) t then r + 2 ^ k else r)

-- The first 32 bits behind the point of the root of a prime number.
unfoldable pub fraction : ℕ → ℕ → ℕ
unfolding root
fraction e p = root 36 e (p * 2 ^ (32 * e)) 0 % 2 ^ 32

-- Those of the cube roots of the first 64 primes, which are the ones below 312.
unfoldable pub round_constants : List ℕ
unfolding fraction primes_from
round_constants = map (fraction 3) (primes_from 310 2)

-- Those of the square roots of the first eight primes.
unfoldable pub initial_hash : Hash
unfolding fraction
initial_hash = record {
  a = fraction 2 2;
  b = fraction 2 3;
  c = fraction 2 5;
  d = fraction 2 7;
  e = fraction 2 11;
  f = fraction 2 13;
  g = fraction 2 17;
  h = fraction 2 19;
}

-- A round, and all of them.
unfoldable pub compress : ℕ → ℕ → Hash → Hash
unfolding upper_sigma0 upper_sigma1 choose majority
compress k w s =
    let t1 = (s.h + upper_sigma1 s.e + choose s.e s.f s.g + k + w) % 2 ^ 32 in
    let t2 = (upper_sigma0 s.a + majority s.a s.b s.c) % 2 ^ 32 in
    record {
      a = (t1 + t2) % 2 ^ 32;
      b = s.a;
      c = s.b;
      d = s.c;
      e = (s.d + t1) % 2 ^ 32;
      f = s.e;
      g = s.f;
      h = s.g;
    }

unfoldable pub compress_all : List ℕ → List ℕ → Hash → Hash
unfolding compress
compress_all (k ∷ ks) (w ∷ ws) s = compress_all ks ws (compress k w s)
compress_all _ _ s = s
