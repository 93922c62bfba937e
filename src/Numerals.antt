-- ===== src/Numerals.antt =====
-- strconv.FormatInt(value, 10) of an int64, to the texts that operation tokens hold.
pub mod Reading
use go_bemu.Base.{ℕ, zero, suc, ◌+◌, ◌-◌, ◌*◌, ◌/◌, ◌%◌, [], ◌∷◌, ltb, if◌then◌else◌}
use go_bemu.Words.{word64, half64}
use go_bemu.Text.{Bytes}

-- The digits of a number below 10 ^ fuel, in front of `out`.
unfoldable pub digits : ℕ → ℕ → Bytes → Bytes
digits zero n out = out
digits (suc fuel) n out =
    let rest = digits fuel (n / 10) ((b'0' + n % 10) ∷ out) in
    if ltb n 10 then (b'0' + n) ∷ out else rest

-- 2 ^ 64 has 20 digits.
unfoldable pub format_int : ℕ → Bytes
unfolding digits
format_int n = if ltb n half64 then digits 20 n [] else b'-' ∷ digits 20 (word64 - n) []

-- The decimal text of a number, big.Int's String on one that is not negative.
unfoldable pub nat_text : ℕ → Bytes
nat_text n = digits (suc n) n []

-- The number that a text of digits stands for, after the digits of `acc`.
unfoldable pub number_from : ℕ → Bytes → ℕ
number_from acc [] = acc
number_from acc (c ∷ s) = number_from (acc * 10 + (c - b'0')) s
