-- ===== src/Catalog/Literal.antt =====
-- The decimal literals of internal/domain/decimal.go: the grammar of `decimalLiteralPattern`, and what
-- big.Rat's SetString makes of a text of that grammar.
use go_bemu.Base.{
  ℕ, ◌+◌, ◌-◌, Bool, false, not, ◌&&◌, ◌||◌, Option, none, some, [], ◌∷◌, ◌++◌, nat_eq, ltb, leb,
  length, is_empty, if◌then◌else◌,
}
use go_bemu.Words.{half64}
use go_bemu.Text.{Bytes}
use go_bemu.Numerals.{number_from}
use go_bemu.Catalog.Names.{is_digit}

-- The digits before and after the point, how many stand after it, and the exponent.
pub record Literal : Type 0 where
  pub negative : Bool
  pub digits : Bytes
  pub fraction : ℕ
  pub small : Bool
  pub exponent : ℕ

abbrev is_minus : ℕ → Bool
is_minus c = nat_eq c b'-'

-- [+-]?
abbrev pub take_sign : Bytes → Bool × Bytes
take_sign [] = (false, [])
take_sign (c ∷ s) = if nat_eq c b'+' || is_minus c then (is_minus c, s) else (false, c ∷ s)

-- [0-9]*
unfoldable pub span_digits : Bytes → Bytes × Bytes
span_digits [] = ([], [])
span_digits (c ∷ s) = let (a, r) = span_digits s in if is_digit c then (c ∷ a, r) else ([], c ∷ s)

-- The exponent, read after the mantissa; without one it is 0.
unfoldable pub parse_exponent : Bytes → Option (Bool × ℕ)
parse_exponent [] = some (false, 0)
parse_exponent (c ∷ s) =
    let (small, r) = take_sign s in
    let (ds, rest) = span_digits r in
    if (nat_eq c b'e' || nat_eq c b'E') && not (is_empty ds) && is_empty rest
    then some (small, number_from 0 ds)
    else none

abbrev with_exponent : Bool → Bytes → ℕ → Option (Bool × ℕ) → Option Literal
with_exponent negative ds n none = none
with_exponent negative ds n (some (small, e)) =
    some (record { negative = negative; digits = ds; fraction = n; small = small; exponent = e })

-- The fraction, after the digits `a`.
abbrev parse_fraction : Bool → Bytes → Bytes → Option Literal
parse_fraction negative a [] =
    if is_empty a then none else with_exponent negative a 0 (some (false, 0))
parse_fraction negative a (c ∷ r) =
    let (b, rest) = span_digits r in
    if nat_eq c b'.'
    then (if is_empty a && is_empty b
        then none
        else with_exponent negative (a ++ b) (length b) (parse_exponent rest))
    else if is_empty a
    then none
    else with_exponent negative a 0 (parse_exponent (c ∷ r))

-- A text that matches ^[+-]?(?:[0-9]+(?:\.[0-9]*)?|\.[0-9]+)(?:[eE][+-]?[0-9]+)?$, in its parts.
unfoldable pub parse_literal : Bytes → Option Literal
parse_literal s =
    let (negative, r) = take_sign s in
    let (a, rest) = span_digits r in parse_fraction negative a rest

abbrev pub mantissa : Literal → ℕ
mantissa l = number_from 0 l.digits

-- The powers of ten that the mantissa is multiplied by, and divided by.
abbrev pub raised : Literal → ℕ
raised l = if l.small then 0 else l.exponent

abbrev pub lowered : Literal → ℕ
lowered l = l.fraction + (if l.small then l.exponent else 0)

abbrev distance : ℕ → ℕ → ℕ
distance a b = (a - b) + (b - a)

-- SetString gives up on an exponent that is no int64, and on a power of ten past 10 ^ 6, but for zero.
unfoldable pub is_representable : Literal → Bool
is_representable l =
    ltb l.exponent (if l.small then half64 + 1 else half64)
    && (nat_eq (mantissa l) 0 || leb (distance (raised l) (lowered l)) 1000000)
