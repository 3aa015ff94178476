-- ===== src/Prelude/Bits.antt =====
-- Bit masks: the single bits of `&` and `|`, for words of any width.
use Prim.Native.Nat.{
  ℕ, zero, suc, ◌+◌, ◌-◌, ◌^◌, ◌*◌, ◌/◌, ◌%◌, ◌≤◌, ◌<◌, min, max, bit_and, bit_or, digits,
  bit_and-bitwise, bit_or-bitwise,
}
use mathlib.Core.Path.{◌≡◌, refl}
use mathlib.Core.Logic.{◌≢◌}
use native.Mathlib.Nat.{pow-suc}
use native.Mathlib.Omega.{arith}

-- Bit `k` of a word, as 0 or 1.
unfoldable pub bit : ℕ → ℕ → ℕ
bit a zero = a % 2
bit a (suc k) = bit (a / 2) k

pub bit-lt_two : (a k : ℕ) → bit a k < 2
unfolding bit
bit-lt_two a zero = omega arith
bit-lt_two a (suc k) = bit-lt_two (a / 2) k

-- The count of digits to go does not matter, if it is enough.
digits_fuel :
    (z : ℕ → ℕ) (f : ℕ → ℕ → ℕ) (n m a b : ℕ) → a ≤ n → a ≤ m → digits z f n a b ≡ digits z f m a b
digits_fuel z f zero zero a b p q = refl
digits_fuel z f zero (suc m) zero b p q = refl
digits_fuel z f zero (suc m) (suc a) b p q = absurd (omega arith)
digits_fuel z f (suc n) zero zero b p q = refl
digits_fuel z f (suc n) zero (suc a) b p q = absurd (omega arith)
digits_fuel z f (suc n) (suc m) zero b p q = refl
digits_fuel z f (suc n) (suc m) (suc a) b p q =
    omega (arith, digits_fuel z f n m (suc a / 2) (b / 2) (omega arith) (omega arith))

-- A digit operation peels off its lowest digit, where `z` is its value at a first number 0.
digits_step :
    (z : ℕ → ℕ) (f : ℕ → ℕ → ℕ) (a b : ℕ)
    → z b ≡ z (b / 2) * 2 + f 0 (b % 2)
    → digits z f a a b ≡ digits z f (a / 2) (a / 2) (b / 2) * 2 + f (a % 2) (b % 2)
digits_step z f zero b h = h
digits_step z f (suc a) b h =
    omega (arith, digits_fuel z f a (suc a / 2) (suc a / 2) (b / 2) (omega arith) (omega arith))

pub bit_and_half : (a b : ℕ) → bit_and a b ≡ bit_and (a / 2) (b / 2) * 2 + min (a % 2) (b % 2)
bit_and_half a b = omega (
  arith,
  bit_and-bitwise a b,
  bit_and-bitwise (a / 2) (b / 2),
  digits_step (λ b. zero) min a b (omega arith),
)

pub bit_or_half : (a b : ℕ) → bit_or a b ≡ bit_or (a / 2) (b / 2) * 2 + max (a % 2) (b % 2)
bit_or_half a b = omega (
  arith,
  bit_or-bitwise a b,
  bit_or-bitwise (a / 2) (b / 2),
  digits_step (λ b. b) max a b (omega arith),
)

-- Bit `k` of `a & b` and of `a | b`.
pub bit-bit_and : (a b k : ℕ) → bit (bit_and a b) k ≡ min (bit a k) (bit b k)
unfolding bit
bit-bit_and a b zero = omega (arith, bit_and_half a b)
bit-bit_and a b (suc k) =
    let half : bit_and a b / 2 ≡ bit_and (a / 2) (b / 2) = omega (arith, bit_and_half a b) in
    rw half (bit-bit_and (a / 2) (b / 2) k)

pub bit-bit_or : (a b k : ℕ) → bit (bit_or a b) k ≡ max (bit a k) (bit b k)
unfolding bit
bit-bit_or a b zero = omega (arith, bit_or_half a b)
bit-bit_or a b (suc k) =
    let half : bit_or a b / 2 ≡ bit_or (a / 2) (b / 2) = omega (arith, bit_or_half a b) in
    rw half (bit-bit_or (a / 2) (b / 2) k)

-- `~x` at a width of `n` bits turns every bit round.
pub bit-complement : (n x k : ℕ) → x < 2 ^ n → k < n → bit (2 ^ n - 1 - x) k ≡ 1 - bit x k
unfolding bit
bit-complement zero x k h lt = absurd (omega arith)
bit-complement (suc n) x zero h lt = omega (arith, pow-suc 2 n)
bit-complement (suc n) x (suc k) h lt =
    let half : (2 ^ suc n - 1 - x) / 2 ≡ 2 ^ n - 1 - x / 2 = omega (arith, pow-suc 2 n) in
    rw half (bit-complement n (x / 2) k (omega (arith, pow-suc 2 n)) (omega arith))

pub zero-bit : (k : ℕ) → bit 0 k ≡ 0
unfolding bit
zero-bit zero = refl
zero-bit (suc k) = zero-bit k

pub ne_zero_of_bit : (a k : ℕ) → bit a k ≡ 1 → a ≢ 0
ne_zero_of_bit a k h z = let e : bit 0 k ≡ 1 = rw z at h in omega (arith, zero-bit k)

bit_and-le_fuel : (n a b : ℕ) → a ≤ n → bit_and a b ≤ a
bit_and-le_fuel n zero b h = omega (arith, bit_and-bitwise 0 b)
bit_and-le_fuel zero (suc a) b h = absurd (omega arith)
bit_and-le_fuel (suc n) (suc a) b h =
    omega (arith, bit_and_half (suc a) b, bit_and-le_fuel n (suc a / 2) (b / 2) (omega arith))

pub bit_and-le : (a b : ℕ) → bit_and a b ≤ a
bit_and-le a b = bit_and-le_fuel a a b (omega arith)
