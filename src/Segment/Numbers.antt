-- ===== src/Segment/Numbers.antt =====
-- experiment/segment_descriptor_parser.cc: disjoint bits, binary digits, base and limit.
use lambda_linux_kernel.Prelude.{
  ℕ, zero, suc, ◌+◌, ◌-◌, ◌*◌, ◌/◌, ◌%◌, ◌^◌, ◌≤◌, ◌<◌, ◌≡◌, refl, ◌==◌, if◌then◌else◌, bit_or,
  arith, ◌∙◌, ap, inl, inr, Bool-cases, sym,
}
use Prim.Native.Nat.{bit_or-bitwise}
use native.Mathlib.Nat.{pow-suc, pow-succ', div-div-eq-div-mul}
use lambda_linux_kernel.Prelude.Bits.{bit, bit_or_half}
use lambda_linux_kernel.Segment.{
  Descriptor, limit_0_15, limit_16_19, base_0_15, base_16_23, base_24_31, g, segment_base,
  segment_limit, to_binary_from, to_binary,
}

bit_or_zero : (n a : ℕ) → a ≤ n → bit_or a 0 ≡ a
bit_or_zero n zero h = bit_or-bitwise 0 0
bit_or_zero zero (suc a) h = absurd (omega arith)
bit_or_zero (suc n) (suc a) h =
    omega (arith, bit_or_half (suc a) 0, bit_or_zero n (suc a / 2) (omega arith))

pub bit_or_shift : (k a b : ℕ) → a < 2 ^ k → bit_or (b * 2 ^ k) a ≡ b * 2 ^ k + a
bit_or_shift zero a b lt =
    let none : a ≡ 0 = omega arith in
    rw none (omega (arith, bit_or_zero (b * 1) (b * 1) (omega arith)))
bit_or_shift (suc k) a b lt =
    let half : b * 2 ^ suc k / 2 ≡ b * 2 ^ k = rw (pow-suc 2 k) (grind arith) in
    let even : b * 2 ^ suc k ≡ b * 2 ^ k * 2 = rw (pow-suc 2 k) (grind arith) in
    let rest : bit_or (b * 2 ^ suc k / 2) (a / 2) ≡ b * 2 ^ k + a / 2 =
      rw half (bit_or_shift k (a / 2) b (omega (arith, pow-suc 2 k))) in
    omega (arith, bit_or_half (b * 2 ^ suc k) a, rest, even)

-- The digits 0 and 1 of `n` read as a decimal number, and back.
abbrev pub decimal : (k n : ℕ) → ℕ
decimal zero n = 0
decimal (suc k) n = n % 2 + 10 * decimal k (n / 2)

pub from_binary : (k x : ℕ) → ℕ
from_binary zero x = 0
from_binary (suc k) x = x % 10 + 2 * from_binary k (x / 10)

from_binary-decimal : (k n : ℕ) → n < 2 ^ k → from_binary k (decimal k n) ≡ n
unfolding from_binary
from_binary-decimal zero n lt = omega arith
from_binary-decimal (suc k) n lt =
    let top : decimal (suc k) n / 10 ≡ decimal k (n / 2) = omega arith in
    rw top (omega (arith, pow-suc 2 k, from_binary-decimal k (n / 2) (omega (arith, pow-suc 2 k))))

decimal_more : (k n : ℕ) → n < 2 ^ k → decimal (suc k) n ≡ decimal k n
decimal_more zero n lt = omega arith
decimal_more (suc k) n lt =
    omega (arith, pow-suc 2 k, decimal_more k (n / 2) (omega (arith, pow-suc 2 k)))

decimal-lt : (k n : ℕ) → 9 * decimal k n + 1 ≤ 10 ^ k
decimal-lt zero n = omega arith
decimal-lt (suc k) n = omega (arith, pow-suc 10 k, decimal-lt k (n / 2))

shift_more : (n k : ℕ) → n / 2 ^ suc k ≡ n / 2 ^ k / 2
shift_more n k = rw (pow-suc 2 k) (sym (div-div-eq-div-mul n (2 ^ k) 2))

bit_at : (n k : ℕ) → bit n k ≡ n / 2 ^ k % 2
unfolding bit
bit_at n zero = omega arith
bit_at n (suc k) =
    bit_at (n / 2) k
    ∙ ap (λ x. x % 2) (div-div-eq-div-mul n 2 (2 ^ k) ∙ ap (λ x. n / x) (sym (pow-succ' 2 k)))

-- The loop holds the digits of the bits that it has read.
to_binary_from-decimal :
    (k n : ℕ) → n < 2 ^ 10 → to_binary_from k n (decimal 10 (n / 2 ^ k)) ≡ decimal 10 n
unfolding to_binary_from
to_binary_from-decimal zero n lt = ap (decimal 10) (omega arith)
to_binary_from-decimal (suc k) n lt =
    let m = n / 2 ^ suc k in
    let more = shift_more n k in
    let step : decimal 10 (n / 2 ^ k) ≡ (decimal 10 m * 10 + bit n k) % 2 ^ 32 =
      omega (arith, bit_at n k, decimal_more 9 m, decimal-lt 10 (n / 2 ^ k)) in
    rw (← step) (to_binary_from-decimal k n lt)

-- Up to ten digits are read back.
pub from_binary-to_binary : (n : ℕ) → n < 2 ^ 10 → from_binary 10 (to_binary n) ≡ n
unfolding to_binary
from_binary-to_binary n lt =
    let none : n / 2 ^ 32 ≡ 0 = omega arith in
    let start : decimal 10 (n / 2 ^ 32) ≡ 0 = rw none refl in
    let same : to_binary_from 32 n 0 ≡ decimal 10 n =
      ap (to_binary_from 32 n) (sym start) ∙ to_binary_from-decimal 32 n lt in
    rw same (from_binary-decimal 10 n lt)

pub segment_base_lem :
    (d : Descriptor) → segment_base d ≡ base_24_31 d * 2 ^ 24 + base_16_23 d * 2 ^ 16 + base_0_15 d
unfolding segment_base
segment_base_lem d =
    let high : bit_or (base_24_31 d * 2 ^ 24) (base_16_23 d * 2 ^ 16)
        ≡ (base_24_31 d * 2 ^ 8 + base_16_23 d) * 2 ^ 16 =
      omega (arith, bit_or_shift 24 (base_16_23 d * 2 ^ 16) (base_24_31 d) (omega arith)) in
    rw high (
      omega
        (arith, bit_or_shift 16 (base_0_15 d) (base_24_31 d * 2 ^ 8 + base_16_23 d) (omega arith)))

-- The limit in units of one byte, or of 4 KB.
abbrev pub units : Descriptor → ℕ
units d = limit_16_19 d * 2 ^ 16 + limit_0_15 d

abbrev pub unit : Descriptor → ℕ
unit d = if g d == 0 then 1 else 4096

pub segment_limit-units :
    (d : Descriptor) → (segment_limit d ≡ (units d + 1) * unit d - 1) × (segment_limit d < 2 ^ 32)
unfolding segment_limit
segment_limit-units d =
    let raw : bit_or (limit_16_19 d * 2 ^ 16) (limit_0_15 d) ≡ units d =
      bit_or_shift 16 (limit_0_15 d) (limit_16_19 d) (omega arith) in
    let small : units d < 2 ^ 20 = omega arith in
    rw raw (elim (Bool-cases (g d == 0)) [
      | inl small ↦ rw small (omega arith, omega arith)
      | inr pages ↦ rw pages (omega arith, omega arith)
    ])
