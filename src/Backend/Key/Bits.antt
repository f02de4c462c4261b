-- ===== src/Backend/Key/Bits.antt =====
-- `|` and `&` of words that are put together from bytes, as arithmetic.
use native.Mathlib.Nat.{pow-suc, div-div-eq-div-mul}
use Prim.Native.Nat.{min, max, bit_and, bit_or, digits, bitwise, bit_and-bitwise, bit_or-bitwise}
use mathlib.Core.Path.{ap₂}
use bispe.Base.{ℕ, zero, suc, ◌+◌, ◌*◌, ◌/◌, ◌%◌, ◌^◌, ◌≤◌, ◌<◌, ◌≡◌, refl, sym, ap, ◌∙◌, arith}

-- More digits to go than the first number has make no difference.
module _ (z : ℕ → ℕ) (f : ℕ → ℕ → ℕ) where
  digits-enough : (n m a b : ℕ) → a ≤ n → a ≤ m → digits z f n a b ≡ digits z f m a b
  digits-enough zero zero a b h k = refl
  digits-enough zero (suc m) zero b h k = refl
  digits-enough zero (suc m) (suc a) b h k = absurd (omega arith)
  digits-enough (suc n) zero zero b h k = refl
  digits-enough (suc n) zero (suc a) b h k = absurd (omega arith)
  digits-enough (suc n) (suc m) zero b h k = refl
  digits-enough (suc n) (suc m) (suc a) b h k =
      ap (λ r. r * 2 + f (suc a % 2) (b % 2))
        (digits-enough n m (suc a / 2) (b / 2) (omega arith) (omega arith))

  bitwise_step :
      (a b : ℕ)
      → bitwise z f (suc a) b ≡ bitwise z f (suc a / 2) (b / 2) * 2 + f (suc a % 2) (b % 2)
  bitwise_step a b =
      ap (λ r. r * 2 + f (suc a % 2) (b % 2))
        (digits-enough a (suc a / 2) (suc a / 2) (b / 2) (omega arith) (omega arith))

-- One digit at a time.
bit_or_step : (a b : ℕ) → bit_or a b ≡ bit_or (a / 2) (b / 2) * 2 + max (a % 2) (b % 2)
bit_or_step zero b =
    let whole : bit_or 0 b ≡ b = bit_or-bitwise 0 b in
    let half : bit_or 0 (b / 2) ≡ b / 2 = bit_or-bitwise 0 (b / 2) in omega arith
bit_or_step (suc a) b =
    bit_or-bitwise (suc a) b
    ∙ (bitwise_step (λ b. b) max a b
        ∙ ap (λ r. r * 2 + max (suc a % 2) (b % 2)) (sym (bit_or-bitwise (suc a / 2) (b / 2))))

bit_and_step : (a b : ℕ) → bit_and a b ≡ bit_and (a / 2) (b / 2) * 2 + min (a % 2) (b % 2)
bit_and_step zero b =
    let whole : bit_and 0 b ≡ 0 = bit_and-bitwise 0 b in
    let half : bit_and 0 (b / 2) ≡ 0 = bit_and-bitwise 0 (b / 2) in omega arith
bit_and_step (suc a) b =
    bit_and-bitwise (suc a) b
    ∙ (bitwise_step (λ b. 0) min a b
        ∙ ap (λ r. r * 2 + min (suc a % 2) (b % 2)) (sym (bit_and-bitwise (suc a / 2) (b / 2))))

bit_or-zero_below : (n a : ℕ) → a ≤ n → bit_or a 0 ≡ a
bit_or-zero_below zero zero h = refl
bit_or-zero_below zero (suc a) h = absurd (omega arith)
bit_or-zero_below (suc n) a h =
    omega (arith, bit_or_step a 0, bit_or-zero_below n (a / 2) (omega arith))

bit_and-zero_below : (n a : ℕ) → a ≤ n → bit_and a 0 ≡ 0
bit_and-zero_below zero zero h = refl
bit_and-zero_below zero (suc a) h = absurd (omega arith)
bit_and-zero_below (suc n) a h =
    omega (arith, bit_and_step a 0, bit_and-zero_below n (a / 2) (omega arith))

times_pow-suc : (q k : ℕ) → q * 2 ^ suc k ≡ q * 2 ^ k * 2
times_pow-suc q k = omega (arith, ap (λ (t : ℕ). q * t) (pow-suc 2 k))

zero-bit_or : (b : ℕ) → bit_or 0 b ≡ b
zero-bit_or b = bit_or-bitwise 0 b

bit_or-zero : (a : ℕ) → bit_or a 0 ≡ a
bit_or-zero a = bit_or-zero_below a a (omega arith)

-- The digits below `2 ^ k` and those above are put together one by one.
bit_or-fields :
    (k q r p s : ℕ)
    → r < 2 ^ k
    → s < 2 ^ k
    → bit_or (q * 2 ^ k + r) (p * 2 ^ k + s) ≡ bit_or q p * 2 ^ k + bit_or r s
bit_or-fields zero q r p s h l =
    let hr : r ≡ 0 = omega arith in
    let hs : s ≡ 0 = omega arith in
    let hq : q * 1 + 0 ≡ q = omega arith in
    let hp : p * 1 + 0 ≡ p = omega arith in rw hr (rw hs (rw hq (rw hp (omega arith))))
bit_or-fields (suc k) q r p s h l =
    let pow : 2 ^ suc k ≡ 2 ^ k * 2 = pow-suc 2 k in
    let a : ℕ = q * 2 ^ suc k + r in
    let b : ℕ = p * 2 ^ suc k + s in
    let ea : a / 2 ≡ q * 2 ^ k + r / 2 = omega (arith, times_pow-suc q k) in
    let eb : b / 2 ≡ p * 2 ^ k + s / 2 = omega (arith, times_pow-suc p k) in
    let ih : bit_or (a / 2) (b / 2) ≡ bit_or q p * 2 ^ k + bit_or (r / 2) (s / 2) =
      ap₂ bit_or ea eb ∙ bit_or-fields k q (r / 2) p (s / 2) (omega arith) (omega arith) in
    let ra : a % 2 ≡ r % 2 = omega (arith, times_pow-suc q k) in
    let rb : b % 2 ≡ s % 2 = omega (arith, times_pow-suc p k) in
    omega (arith, bit_or_step a b, bit_or_step r s, times_pow-suc (bit_or q p) k)

-- A number above `k` free digits, and one in them, in both orders.
pub bit_or-shifted : (k q r : ℕ) → r < 2 ^ k → bit_or (q * 2 ^ k) r ≡ q * 2 ^ k + r
bit_or-shifted k q r h =
    ap₂ bit_or (omega arith) (omega arith)
    ∙ (bit_or-fields k q 0 0 r (omega arith) h
        ∙ ap₂ (λ x y. x * 2 ^ k + y) (bit_or-zero q) (zero-bit_or r))

pub shifted-bit_or : (k q r : ℕ) → r < 2 ^ k → bit_or r (q * 2 ^ k) ≡ q * 2 ^ k + r
shifted-bit_or k q r h =
    ap₂ bit_or (omega arith) (omega arith)
    ∙ (bit_or-fields k 0 r q 0 h (omega arith)
        ∙ ap₂ (λ x y. x * 2 ^ k + y) (zero-bit_or q) (bit_or-zero r))

-- A byte between the highest one and the two lowest.
pub bit_or-middle :
    (c d r : ℕ)
    → d < 2 ^ 8
    → r < 2 ^ 16
    → bit_or (c * 2 ^ 24 + r) (d * 2 ^ 16) ≡ c * 2 ^ 24 + d * 2 ^ 16 + r
bit_or-middle c d r h l =
    ap₂ bit_or (omega arith) (omega arith)
    ∙ (bit_or-fields 16 (c * 2 ^ 8) r d 0 l (omega arith)
        ∙ omega (arith, bit_or-shifted 8 c d h, bit_or-zero r))

bit_and-one : (a : ℕ) → bit_and a 1 ≡ a % 2
bit_and-one a = omega (arith, bit_and_step a 1, bit_and-zero_below (a / 2) (a / 2) (omega arith))

-- One bit more each time.
bit_and-two : (a : ℕ) → bit_and a 0x3 ≡ a % 2 ^ 2
bit_and-two a = omega (arith, bit_and_step a 0x3, bit_and-one (a / 2))

bit_and-three : (a : ℕ) → bit_and a 0x7 ≡ a % 2 ^ 3
bit_and-three a = omega (arith, bit_and_step a 0x7, bit_and-two (a / 2))

bit_and-four : (a : ℕ) → bit_and a 0xf ≡ a % 2 ^ 4
bit_and-four a = omega (arith, bit_and_step a 0xf, bit_and-three (a / 2))

bit_and-five : (a : ℕ) → bit_and a 0x1f ≡ a % 2 ^ 5
bit_and-five a = omega (arith, bit_and_step a 0x1f, bit_and-four (a / 2))

bit_and-six : (a : ℕ) → bit_and a 0x3f ≡ a % 2 ^ 6
bit_and-six a = omega (arith, bit_and_step a 0x3f, bit_and-five (a / 2))

bit_and-seven : (a : ℕ) → bit_and a 0x7f ≡ a % 2 ^ 7
bit_and-seven a = omega (arith, bit_and_step a 0x7f, bit_and-six (a / 2))

bit_and-low_byte : (a : ℕ) → bit_and a 0xFF ≡ a % 2 ^ 8
bit_and-low_byte a = omega (arith, bit_and_step a 0xFF, bit_and-seven (a / 2))

-- The digit below is free in both numbers.
bit_and-double : (a m : ℕ) → bit_and a (m * 2) ≡ bit_and (a / 2) m * 2
bit_and-double a m =
    let half : m * 2 / 2 ≡ m = omega arith in
    let e : bit_and (a / 2) (m * 2 / 2) ≡ bit_and (a / 2) m = ap (bit_and (a / 2)) half in
    omega (arith, bit_and_step a (m * 2))

pub bit_and-shifted : (k a m : ℕ) → bit_and a (m * 2 ^ k) ≡ bit_and (a / 2 ^ k) m * 2 ^ k
bit_and-shifted zero a m =
    let e : m * 1 ≡ m = omega arith in
    let e' : a / 1 ≡ a = omega arith in rw e (rw e' (omega arith))
bit_and-shifted (suc k) a m =
    let twice : 2 * 2 ^ k ≡ 2 ^ suc k = omega (arith, pow-suc 2 k) in
    let e : a / 2 / 2 ^ k ≡ a / 2 ^ suc k =
      div-div-eq-div-mul a 2 (2 ^ k) ∙ ap (λ t. a / t) twice in
    ap (bit_and a) (times_pow-suc m k)
    ∙ (bit_and-double a (m * 2 ^ k)
        ∙ (ap (λ t. t * 2) (bit_and-shifted k (a / 2) m)
            ∙ (ap (λ t. bit_and t m * 2 ^ k * 2) e
                ∙ sym (times_pow-suc (bit_and (a / 2 ^ suc k) m) k))))

-- A byte of a word, where it stands.
pub bit_and-byte : (k a : ℕ) → bit_and a (0xFF * 2 ^ k) ≡ a / 2 ^ k % 2 ^ 8 * 2 ^ k
bit_and-byte k a = bit_and-shifted k a 0xFF ∙ ap (λ t. t * 2 ^ k) (bit_and-low_byte (a / 2 ^ k))
