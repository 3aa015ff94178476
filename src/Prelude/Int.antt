-- ===== src/Prelude/Int.antt =====
-- Signed integers over the native numbers, and `int` and `long` as the integers that wrap at 32
-- bits: the code's arithmetic is written `wrap32 (a +ℤ b)`.
use Prim.Native.Nat.{ℕ, suc, ◌+◌, ◌-◌, ◌/◌, ◌%◌, ◌^◌, ◌≤◌, ◌<◌}
use mathlib.Core.Path.{◌≡◌}
use mathlib.Core.Bool.{Bool}
use native.Mathlib.Omega.{arith}
use lambda_linux_kernel.Prelude.Tests.{ltb, leb, ◌==◌, if◌then◌else◌}

-- `negsuc n` is -(n + 1).
pub data ℤ : Type 0 where
  pos : ℕ → ℤ
  negsuc : ℕ → ℤ

abbrev pub pos_part : ℤ → ℕ
pos_part (pos n) = n
pos_part (negsuc n) = 0

abbrev pub neg_part : ℤ → ℕ
neg_part (pos n) = 0
neg_part (negsuc n) = suc n

-- a - b, as an integer.
abbrev pub sub_ℕ : ℕ → ℕ → ℤ
sub_ℕ a b = if leb b a then pos (a - b) else negsuc (b - a - 1)

infixl 65 ◌+ℤ◌ ◌-ℤ◌
infix 50 ◌≤ℤ◌ ◌<ℤ◌
unfoldable pub ◌+ℤ◌ : ℤ → ℤ → ℤ
a +ℤ b = sub_ℕ (pos_part a + pos_part b) (neg_part a + neg_part b)

unfoldable pub ◌-ℤ◌ : ℤ → ℤ → ℤ
a -ℤ b = sub_ℕ (pos_part a + neg_part b) (neg_part a + pos_part b)

abbrev pub ◌≤ℤ◌ : ℤ → ℤ → Type 0
a ≤ℤ b = pos_part a + neg_part b ≤ pos_part b + neg_part a

abbrev pub ◌<ℤ◌ : ℤ → ℤ → Type 0
a <ℤ b = pos_part a + neg_part b < pos_part b + neg_part a

abbrev pub ltb_ℤ : ℤ → ℤ → Bool
ltb_ℤ a b = ltb (pos_part a + neg_part b) (pos_part b + neg_part a)

abbrev pub leb_ℤ : ℤ → ℤ → Bool
leb_ℤ a b = leb (pos_part a + neg_part b) (pos_part b + neg_part a)

abbrev pub eqb_ℤ : ℤ → ℤ → Bool
eqb_ℤ a b = (pos_part a + neg_part b) == (pos_part b + neg_part a)

-- The bit pattern of an integer at 32 bits, and the signed number that a pattern stands for.
unfoldable pub to_word : ℤ → ℕ
to_word (pos n) = n % 2 ^ 32
to_word (negsuc n) = 2 ^ 32 - 1 - n % 2 ^ 32

unfoldable pub of_word : ℕ → ℤ
of_word w = if ltb w (2 ^ 31) then pos w else negsuc (2 ^ 32 - 1 - w)

unfoldable pub wrap32 : ℤ → ℤ
unfolding to_word of_word
wrap32 z = of_word (to_word z)

-- Within the range of `long` nothing wraps.
pub wrap32_in : (z : ℤ) → negsuc (2 ^ 31 - 1) ≤ℤ z → z ≤ℤ pos (2 ^ 31 - 1) → wrap32 z ≡ z
unfolding wrap32
wrap32_in (pos n) lo hi = ground arith
wrap32_in (negsuc n) lo hi = ground arith

-- `x >> 1` of a signed `x`: the arithmetic shift of i386 gcc.
unfoldable pub asr1 : ℤ → ℤ
asr1 (pos n) = pos (n / 2)
asr1 (negsuc n) = negsuc (n / 2)

pub +ℤ-pos : (n m : ℕ) → pos n +ℤ pos m ≡ pos (n + m)
unfolding ◌+ℤ◌
+ℤ-pos n m = ground arith

pub -ℤ-pos : (n m : ℕ) → m ≤ n → pos n -ℤ pos m ≡ pos (n - m)
unfolding ◌-ℤ◌
-ℤ-pos n m h = ground arith

pub sub_ℕ-pos : (n m : ℕ) → m ≤ n → sub_ℕ n m ≡ pos (n - m)
sub_ℕ-pos n m h = ground arith

pub +ℤ_parts :
    (a b : ℤ)
    → pos_part (a +ℤ b) + neg_part a + neg_part b ≡ neg_part (a +ℤ b) + pos_part a + pos_part b
unfolding ◌+ℤ◌
+ℤ_parts a b = ground arith

pub -ℤ_parts :
    (a b : ℤ)
    → pos_part (a -ℤ b) + neg_part a + pos_part b ≡ neg_part (a -ℤ b) + pos_part a + neg_part b
unfolding ◌-ℤ◌
-ℤ_parts a b = ground arith

pub eq_of_parts : (a b : ℤ) → pos_part a + neg_part b ≡ pos_part b + neg_part a → a ≡ b
eq_of_parts a b h = ground arith

pub ruleset int_laws = (arith, +ℤ_parts, -ℤ_parts, eq_of_parts)
