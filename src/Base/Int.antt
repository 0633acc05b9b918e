-- ===== src/Base/Int.antt =====
-- Go's signed integers over the native numbers, and the wrap-around of `int64` (and `int`, which
-- has 64 bits on the platforms this program is built for).
use Prim.Native.Nat.{ℕ, suc, ◌+◌, ◌-◌, ◌*◌, ◌/◌, ◌%◌, ◌<◌, ◌≤◌}
use mathlib.Core.Path.{◌≡◌, refl}
use mathlib.Core.Bool.{Bool}
use native.Mathlib.Omega.{arith}
use p2p_file_distribution.Base.Tests.{ltb, leb, ◌==◌, if◌then◌else◌}

-- `negsuc n` is -(n + 1).
pub data ℤ : Type 0 where
  pos : ℕ → ℤ
  negsuc : ℕ → ℤ

abbrev pub pos_part : ℤ → ℕ
pos_part (pos n) = n
pos_part (negsuc n) = 0

abbrev pub neg_part : ℤ → ℕ
neg_part (pos n) = 0
neg_part (negsuc n) = suc n

-- a - b, as an integer.
abbrev pub sub_ℕ : ℕ → ℕ → ℤ
sub_ℕ a b = if leb b a then pos (a - b) else negsuc (b - a - 1)

abbrev pub ltb_ℤ : ℤ → ℤ → Bool
ltb_ℤ a b = ltb (pos_part a + neg_part b) (pos_part b + neg_part a)

abbrev pub leb_ℤ : ℤ → ℤ → Bool
leb_ℤ a b = leb (pos_part a + neg_part b) (pos_part b + neg_part a)

infix 50 ◌≤ℤ◌
abbrev pub ◌≤ℤ◌ : ℤ → ℤ → Type 0
a ≤ℤ b = pos_part a + neg_part b ≤ pos_part b + neg_part a

abbrev pub eq_ℤ : ℤ → ℤ → Bool
eq_ℤ a b = pos_part a + neg_part b == pos_part b + neg_part a

abbrev pub two_63 : ℕ
two_63 = 9223372036854775808

-- The int64 with the bits of an integer.
unfoldable pub wrap : ℤ → ℤ
wrap (pos n) =
    let m = n % (2 * two_63) in if ltb m two_63 then pos m else negsuc (2 * two_63 - 1 - m)
wrap (negsuc n) =
    let m = n % (2 * two_63) in if ltb m two_63 then negsuc m else pos (2 * two_63 - 1 - m)

pub wrap-pos : (n : ℕ) → n < two_63 → wrap (pos n) ≡ pos n
unfolding wrap
wrap-pos n h = ground arith

infixl 65 ◌+ℤ◌ ◌-ℤ◌
-- `a + b` and `a - b` on int64.
unfoldable pub ◌+ℤ◌ : ℤ → ℤ → ℤ
a +ℤ b = wrap (sub_ℕ (pos_part a + pos_part b) (neg_part a + neg_part b))

unfoldable pub ◌-ℤ◌ : ℤ → ℤ → ℤ
a -ℤ b = wrap (sub_ℕ (pos_part a + neg_part b) (neg_part a + pos_part b))

-- `a * b` on int64, for factors that are not negative.
unfoldable pub mul_i64 : ℕ → ℕ → ℤ
mul_i64 a b = wrap (pos (a * b))

-- `a / d` on int64 for a positive `d`: Go rounds towards zero.
unfoldable pub div_i64 : ℤ → ℕ → ℤ
div_i64 (pos n) d = pos (n / d)
div_i64 (negsuc n) d = sub_ℕ 0 (suc n / d)

pub pos-add : (a b : ℕ) → a + b < two_63 → pos a +ℤ pos b ≡ pos (a + b)
unfolding ◌+ℤ◌ wrap
pos-add a b h = ground arith

pub pos-sub : (a b : ℕ) → b ≤ a → a < two_63 → pos a -ℤ pos b ≡ pos (a - b)
unfolding ◌-ℤ◌ wrap
pos-sub a b h k = ground arith

pub pos-mul : (a b : ℕ) → a * b < two_63 → mul_i64 a b ≡ pos (a * b)
unfolding mul_i64
pos-mul a b h = wrap-pos (a * b) h

-- The nearest int64 above the largest one is the smallest one.
wrap_overflow : wrap (pos two_63) ≡ negsuc 9223372036854775807
unfolding wrap
wrap_overflow = refl
