-- ===== src/Base/Int.antt =====
-- The machine integer i64: signed integers over the native numbers, and addition that wraps.
-- Orders and sums go through the two parts of an integer, which are numbers that `omega` reads.
use swr_cache.Base.Tests.{ltb, leb, if◌then◌else◌}
use Prim.Native.Nat.{ℕ, suc, ◌+◌, ◌-◌, ◌/◌, ◌%◌, ◌^◌, ◌≤◌, ◌<◌}
use mathlib.Core.Path.{◌≡◌}
use mathlib.Core.Bool.{Bool}
use native.Mathlib.Omega.{arith}

-- `negsuc n` is -(n + 1).
pub data ℤ : Type 0 where
  pos : ℕ → ℤ
  negsuc : ℕ → ℤ

abbrev pub pos_part : ℤ → ℕ
pos_part (pos n) = n
pos_part (negsuc n) = 0

abbrev pub neg_part : ℤ → ℕ
neg_part (pos n) = 0
neg_part (negsuc n) = suc n

-- a - b, as an integer.
abbrev pub sub_ℕ : ℕ → ℕ → ℤ
sub_ℕ a b = if leb b a then pos (a - b) else negsuc (b - a - 1)

infixl 65 ◌+ℤ◌ ◌-ℤ◌
infix 50 ◌≤ℤ◌ ◌<ℤ◌
unfoldable pub ◌+ℤ◌ : ℤ → ℤ → ℤ
a +ℤ b = sub_ℕ (pos_part a + pos_part b) (neg_part a + neg_part b)

unfoldable pub ◌-ℤ◌ : ℤ → ℤ → ℤ
a -ℤ b = sub_ℕ (pos_part a + neg_part b) (neg_part a + pos_part b)

abbrev pub ◌≤ℤ◌ : ℤ → ℤ → Type 0
a ≤ℤ b = pos_part a + neg_part b ≤ pos_part b + neg_part a

abbrev pub ◌<ℤ◌ : ℤ → ℤ → Type 0
a <ℤ b = pos_part a + neg_part b < pos_part b + neg_part a

-- `a < b` and `a <= b` on i64; `a >= b` is `leb_ℤ b a`, and `a > b` is `ltb_ℤ b a`.
abbrev pub ltb_ℤ : ℤ → ℤ → Bool
ltb_ℤ a b = ltb (pos_part a + neg_part b) (pos_part b + neg_part a)

abbrev pub leb_ℤ : ℤ → ℤ → Bool
leb_ℤ a b = leb (pos_part a + neg_part b) (pos_part b + neg_part a)

-- An integer within one modulus of the range, brought back into it as two's complement does.
unfoldable pub wrap_i64 : ℤ → ℤ
unfolding ◌+ℤ◌ ◌-ℤ◌
wrap_i64 a =
    if leb_ℤ (pos (2 ^ 63)) a
    then a -ℤ pos (2 ^ 64)
    else if ltb_ℤ a (negsuc (2 ^ 63 - 1))
    then a +ℤ pos (2 ^ 64)
    else a

-- `a + b` on i64 in a release build, where an overflow wraps; a debug build panics there.
infixl 65 ◌+i64◌
unfoldable pub ◌+i64◌ : ℤ → ℤ → ℤ
unfolding wrap_i64 ◌+ℤ◌
a +i64 b = wrap_i64 (a +ℤ b)

-- `a - b` on i64, wrapping likewise.
infixl 65 ◌-i64◌
unfoldable pub ◌-i64◌ : ℤ → ℤ → ℤ
unfolding wrap_i64 ◌-ℤ◌
a -i64 b = wrap_i64 (a -ℤ b)

-- `a / n` on i64 for a positive `n`: towards zero.
unfoldable pub quot_i64 : ℤ → ℕ → ℤ
quot_i64 (pos a) n = pos (a / n)
quot_i64 (negsuc a) n = sub_ℕ 0 (suc a / n)

-- `a.max(b)`
unfoldable pub max_i64 : ℤ → ℤ → ℤ
max_i64 a b = if leb_ℤ a b then b else a

-- `a as u64`
unfoldable pub as_u64 : ℤ → ℕ
as_u64 (pos a) = a
as_u64 (negsuc a) = 2 ^ 64 - suc a

-- The values that an i64 holds.
abbrev pub InI64 : ℤ → Type 0
InI64 a = (pos_part a < 2 ^ 63) × (neg_part a ≤ 2 ^ 63)

-- `n as i64` for an unsigned `n`: the low 64 bits, read as two's complement.
unfoldable pub as_i64 : ℕ → ℤ
as_i64 n = let m = n % 2 ^ 64 in if ltb m (2 ^ 63) then pos m else negsuc (2 ^ 64 - m - 1)

module _ (a b : ℤ) where
  pub +ℤ_parts :
      pos_part (a +ℤ b) + neg_part a + neg_part b ≡ neg_part (a +ℤ b) + pos_part a + pos_part b
  unfolding ◌+ℤ◌
  +ℤ_parts = ground arith

  pub -ℤ_parts :
      pos_part (a -ℤ b) + neg_part a + pos_part b ≡ neg_part (a -ℤ b) + pos_part a + neg_part b
  unfolding ◌-ℤ◌
  -ℤ_parts = ground arith

  -- Where the sum fits, nothing wraps.
  pub +i64_fits : InI64 (a +ℤ b) → a +i64 b ≡ a +ℤ b
  unfolding ◌+i64◌
  +i64_fits h = ground arith

  -- A sum above the range comes back 2^64 lower, and so below both summands' sum.
  pub +i64_overflow : InI64 a → InI64 b → pos (2 ^ 63) ≤ℤ a +ℤ b → a +i64 b <ℤ pos 0
  unfolding ◌+i64◌
  +i64_overflow ha hb h = ground (arith, +ℤ_parts)

  -- The sum of two i64 is an i64.
  pub InI64-+i64 : InI64 a → InI64 b → InI64 (a +i64 b)
  unfolding ◌+i64◌
  InI64-+i64 ha hb = ground arith

pub InI64-as_i64 : (n : ℕ) → InI64 (as_i64 n)
unfolding as_i64
InI64-as_i64 n = ground arith
