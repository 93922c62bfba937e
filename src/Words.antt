-- ===== src/Words.antt =====
-- Go's signed machine integers as bit patterns: an `int64` (and an `int`, which has 64 bits on the
-- platforms that the program is built for) is a number below 2 ^ 64, and a negative value x stands
-- as 2 ^ 64 + x; an `int32` likewise below 2 ^ 32.
use go_bemu.Base.{
  ℕ, ◌+◌, ◌-◌, ◌/◌, ◌%◌, ◌<◌, ◌≡◌, Bool, true, false, not, arith, ltb, if◌then◌else◌,
}

abbrev pub word64 : ℕ
word64 = 18446744073709551616

abbrev pub half64 : ℕ
half64 = 9223372036854775808

abbrev pub word32 : ℕ
word32 = 4294967296

abbrev pub half32 : ℕ
half32 = 2147483648

-- `a + b` and `a - b` on int64, with the wrap-around.
unfoldable pub add64 : ℕ → ℕ → ℕ
add64 a b = (a + b) % word64

unfoldable pub sub64 : ℕ → ℕ → ℕ
sub64 a b = (a + word64 - b) % word64

-- Signed `a < b` on int64: the sign bit is flipped on both sides.
unfoldable pub lt64 : ℕ → ℕ → Bool
lt64 a b = ltb ((a + half64) % word64) ((b + half64) % word64)

unfoldable pub lt32 : ℕ → ℕ → Bool
lt32 a b = ltb ((a + half32) % word32) ((b + half32) % word32)

abbrev same : Bool → Bool → Bool
same true b = b
same false b = not b

abbrev negate : Bool → ℕ → ℕ
negate true a = (word64 - a) % word64
negate false a = a

abbrev magnitude : ℕ → ℕ
magnitude a = if ltb a half64 then a else word64 - a

-- Go's `/` and `%` on int64 cut towards zero; the divisor must not be 0.
unfoldable pub quot64 : ℕ → ℕ → ℕ
quot64 a b = negate (not (same (ltb a half64) (ltb b half64))) (magnitude a / magnitude b)

unfoldable pub rem64 : ℕ → ℕ → ℕ
rem64 a b = negate (not (ltb a half64)) (magnitude a % magnitude b)

-- `int64(a)` of an int32.
unfoldable pub widen : ℕ → ℕ
widen a = if ltb a half32 then a else a + (word64 - word32)

-- A non-negative int64.
abbrev pub IsNonneg64 : ℕ → Type 0
IsNonneg64 a = a < half64

pub add64_small : (a b : ℕ) → a + b < word64 → add64 a b ≡ a + b
unfolding add64
add64_small a b h = omega arith

pub sub64_small : (a b : ℕ) → a < word64 → b < word64 → b < a + 1 → sub64 a b ≡ a - b
unfolding sub64
sub64_small a b ha hb h = omega arith

mod_flip : (a : ℕ) → a < half64 → (a + half64) % word64 ≡ a + half64
mod_flip a h = omega arith

pub lt64_small : (a b : ℕ) → a < half64 → b < half64 → lt64 a b ≡ ltb a b
unfolding lt64
lt64_small a b ha hb = ground (arith, mod_flip a, mod_flip b)

mod_flip32 : (a : ℕ) → a < half32 → (a + half32) % word32 ≡ a + half32
mod_flip32 a h = omega arith

pub lt32_small : (a b : ℕ) → a < half32 → b < half32 → lt32 a b ≡ ltb a b
unfolding lt32
lt32_small a b ha hb = ground (arith, mod_flip32 a, mod_flip32 b)

-- A negative int64 is below every non-negative one.
pub lt64_negative : (a b : ℕ) → half64 < a + 1 → a < word64 → b < half64 → lt64 a b ≡ true
unfolding lt64
lt64_negative a b h ha hb = ground arith

pub widen_small : (a : ℕ) → a < half32 → widen a ≡ a
unfolding widen
widen_small a h = ground arith

pub quot64_small : (a b : ℕ) → a < half64 → b < half64 → quot64 a b ≡ a / b
unfolding quot64
quot64_small a b ha hb = ground arith

pub rem64_small : (a b : ℕ) → a < half64 → b < half64 → rem64 a b ≡ a % b
unfolding rem64
rem64_small a b ha hb = ground arith
