-- ===== src/Catalog/Decimal.antt =====
-- Decimal fields of internal/domain/decimal.go: the effective precision and scale of a field, its
-- rounding mode, and the parsing, rounding and printing of a value.
pub mod Rounding
pub mod Parameters
pub mod Printing
pub mod Normalizing
pub mod Stable
use go_bemu.Base.{
  ℕ, zero, suc, ◌+◌, ◌-◌, ◌*◌, ◌/◌, ◌%◌, ◌^◌, Bool, true, false, not, ◌&&◌, ◌||◌, Option, none,
  some, List, [], ◌∷◌, ◌++◌, nat_eq, ltb, length, take, drop, replicate, if◌then◌else◌,
}
use go_bemu.Words.{half64, lt64, sub64}
use go_bemu.Text.{Bytes, codes, text_eq}
use go_bemu.Exec.{Result, ok, err}
use go_bemu.Catalog.Failure.{Failure, fails, invalid, unsupported}
use go_bemu.Catalog.Casing.{Casing}
use go_bemu.Catalog.Names.{is_digit}
use go_bemu.Numerals.{nat_text}
use go_bemu.Catalog.Fields.{Field, field}
use go_bemu.Catalog.Literal.{Literal, parse_literal, mantissa, raised, lowered, is_representable}

pub record DecimalParameters : Type 0 where
  pub precision : ℕ
  pub scale : ℕ

abbrev pub params : ℕ → ℕ → DecimalParameters
params p s = record { precision = p; scale = s }

-- Explicit parameters; `numeric` tells NUMERIC from BIGNUMERIC.
unfoldable pub check_parameters : Bool → ℕ → ℕ → Result Failure DecimalParameters
check_parameters numeric precision scale =
    if lt64 precision 1
    then fails invalid "precision must be positive"
    else if lt64 38 precision
    then fails unsupported "precision exceeds Spark maximum 38"
    else if lt64 scale 0 || lt64 38 scale
    then fails invalid "scale must be between 0 and 38"
    else if lt64 precision scale
    then fails invalid "scale must not exceed precision"
    else if numeric && lt64 9 scale
    then fails invalid "scale must not exceed 9"
    else if numeric && lt64 29 (sub64 precision scale)
    then fails invalid "integer digits must not exceed 29"
    else ok (params precision scale)

unfoldable pub choose_parameters : Bool → Option ℕ → Option ℕ → Result Failure DecimalParameters
choose_parameters numeric none none = ok (params 38 (if numeric then 9 else 18))
choose_parameters numeric none (some scale) = fails invalid "cannot specify scale without precision"
choose_parameters numeric (some precision) none = check_parameters numeric precision 0
choose_parameters numeric (some precision) (some scale) = check_parameters numeric precision scale

abbrev pub is_numeric : Bytes → Bool
is_numeric kind = text_eq kind (codes "NUMERIC")

abbrev pub is_decimal : Bytes → Bool
is_decimal kind = is_numeric kind || text_eq kind (codes "BIGNUMERIC")

-- EffectiveDecimalParameters
unfoldable pub effective_decimal_parameters : Casing → Field → Result Failure DecimalParameters
effective_decimal_parameters c (field name kind mode description precision scale rounding nested) =
    if is_decimal (c.upper kind)
    then choose_parameters (is_numeric (c.upper kind)) precision scale
    else fails invalid "not a decimal type"

pub data RoundingMode : Type 0 where
  half_away_from_zero half_even : RoundingMode

-- EffectiveRoundingMode, on the field's text.
unfoldable pub choose_rounding : Bytes → Result Failure RoundingMode
choose_rounding text =
    if text_eq text []
      || text_eq text (codes "ROUNDING_MODE_UNSPECIFIED")
      || text_eq text (codes "ROUND_HALF_AWAY_FROM_ZERO")
    then ok half_away_from_zero
    else if text_eq text (codes "ROUND_HALF_EVEN")
    then ok half_even
    else fails invalid "unsupported rounding mode"

unfoldable pub effective_rounding_mode : Casing → Field → Result Failure RoundingMode
effective_rounding_mode c (field name kind mode description precision scale rounding nested) =
    if is_decimal (c.upper kind)
    then choose_rounding rounding
    else fails invalid "not a decimal type"

-- The division of `NormalizeDecimalValue`, on absolute values: the quotient, one more if the rest
-- is past the half, or at the half and the mode says so. The program's fraction is in lowest terms;
-- neither the quotient nor the comparison of twice the rest with the divisor depends on that.
unfoldable pub round_div : RoundingMode → ℕ → ℕ → ℕ
round_div mode n d =
    if ltb d (2 * (n % d))
    then n / d + 1
    else if nat_eq (2 * (n % d)) d
    then elim mode [ half_away_from_zero ↦ n / d + 1 | half_even ↦ n / d + (n / d) % 2 ]
    else n / d

-- The fraction whose value is that of a literal times 10 ^ scale.
abbrev pub numerator : Literal → ℕ → ℕ
numerator l scale = mantissa l * 10 ^ (raised l + scale - lowered l)

abbrev pub denominator : Literal → ℕ → ℕ
denominator l scale = 10 ^ (lowered l - (raised l + scale))

-- `scale` digits after a point, filled with zeros in front.
unfoldable pub with_point : ℕ → Bytes → Bytes
with_point scale ds =
    let padded = replicate (suc scale - length ds) b'0' ++ ds in
    let whole = length padded - scale in take whole padded ++ b'.' ∷ drop whole padded

-- formatScaledDecimal of the value `quotient`, with its sign.
unfoldable pub format_scaled_decimal : Bool → ℕ → ℕ → Bytes
unfolding with_point
format_scaled_decimal negative quotient scale =
    let ds = nat_text quotient in
    let text = if ltb 0 scale then with_point scale ds else ds in
    if negative && not (nat_eq quotient 0) then b'-' ∷ text else text

-- NormalizeDecimalValue with the field's parameters and rounding mode.
unfoldable pub normalize_literal : DecimalParameters → RoundingMode → Literal → Result Failure Bytes
normalize_literal p mode l =
    let quotient = round_div mode (numerator l p.scale) (denominator l p.scale) in
    if not (is_representable l)
    then fails invalid "cannot be parsed as a base-10 decimal"
    else if ltb p.precision (length (nat_text quotient))
    then fails invalid "exceeds precision after rounding"
    else ok (format_scaled_decimal l.negative quotient p.scale)

abbrev pub normalize_parsed :
    DecimalParameters → RoundingMode → Option Literal → Result Failure Bytes
normalize_parsed p mode none = fails invalid "does not use the supported base-10 grammar"
normalize_parsed p mode (some l) = normalize_literal p mode l

abbrev pub normalize_with :
    Result Failure DecimalParameters → Result Failure RoundingMode → Bytes → Result Failure Bytes
normalize_with (err e) mode s = err e
normalize_with (ok p) (err e) s = err e
normalize_with (ok p) (ok mode) s = normalize_parsed p mode (parse_literal s)

-- NormalizeDecimalValue
unfoldable pub normalize_decimal_value : Casing → Field → Bytes → Result Failure Bytes
normalize_decimal_value c f s =
    normalize_with (effective_decimal_parameters c f) (effective_rounding_mode c f) s
