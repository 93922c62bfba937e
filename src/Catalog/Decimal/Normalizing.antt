-- ===== src/Catalog/Decimal/Normalizing.antt =====
-- What NormalizeDecimalValue returns.
use native.Mathlib.Nat.{one-le-pow, pow-le-pow_right}
use go_bemu.Base.{
  ℕ, ◌^◌, ◌<◌, ◌≡◌, refl, subst, inl, inr, not, Option-cases, some, arith, ltb, not-ltb→le, length,
}
use go_bemu.Text.{Bytes}
use go_bemu.Exec.{Result, ok, err}
use go_bemu.Numerals.{nat_text}
use go_bemu.Numerals.Reading.{lt-pow-length}
use go_bemu.Catalog.Failure.{Failure, else_ok, ok_inj}
use go_bemu.Catalog.Casing.{Casing}
use go_bemu.Catalog.Fields.{Field}
use go_bemu.Catalog.Literal.{Literal, parse_literal, is_representable}
use go_bemu.Catalog.Decimal.{
  DecimalParameters, RoundingMode, effective_decimal_parameters, effective_rounding_mode, numerator,
  denominator, round_div, normalize_literal, normalize_decimal_value, normalize_with,
  normalize_parsed,
}
use go_bemu.Catalog.Decimal.Rounding.{IsRounded, round_div-IsRounded}
use go_bemu.Catalog.Decimal.Printing.{IsNumeral, format-IsNumeral}

-- `text` is the numeral of the rounded value of the literal, and fits the parameters.
pub record IsNormalized (p : DecimalParameters) (mode : RoundingMode) (l : Literal) (text : Bytes)
    : Type 0 where
  pub quotient : ℕ
  pub rounded : IsRounded mode (numerator l p.scale) (denominator l p.scale) quotient
  pub fits : quotient < 10 ^ p.precision
  pub numeral : IsNumeral l.negative quotient p.scale text

normalize_literal-IsNormalized :
    (p : DecimalParameters) (mode : RoundingMode) (l : Literal) {text : Bytes}
    → normalize_literal p mode l ≡ ok text
    → IsNormalized p mode l text
unfolding normalize_literal
normalize_literal-IsNormalized p mode l h =
    let q = round_div mode (numerator l p.scale) (denominator l p.scale) in
    let (_, h) = else_ok (not (is_representable l)) _ h in
    let (short, h) = else_ok (ltb p.precision (length (nat_text q))) _ h in
    let e = ok_inj h in
    record {
      quotient = q;
      rounded = round_div-IsRounded mode _ _ (one-le-pow _ 10 (omega arith));
      fits =
          omega (
            arith,
            lt-pow-length q,
            pow-le-pow_right {n = 10} (omega arith) (not-ltb→le _ _ short),
          );
      numeral = subst (IsNumeral l.negative q p.scale) e (format-IsNumeral l.negative q p.scale);
    }

-- What a normalization that succeeds goes through.
abbrev pub Normalization :
    Result Failure DecimalParameters → Result Failure RoundingMode → Bytes → Bytes → Type 0
Normalization rp rm s text =
    (p : DecimalParameters) × (mode : RoundingMode) × (l : Literal) × (rp ≡ ok p)
    × (rm ≡ ok mode)
    × (parse_literal s ≡ some l)
    × IsNormalized p mode l text

normalize_with-Normalization :
    (rp : Result Failure DecimalParameters) (rm : Result Failure RoundingMode) (s : Bytes)
    {text : Bytes}
    → normalize_with rp rm s ≡ ok text
    → Normalization rp rm s text
normalize_with-Normalization (err e) rm s h = cc
normalize_with-Normalization (ok p) (err e) s h = cc
normalize_with-Normalization (ok p) (ok mode) s {text} h = elim (Option-cases (parse_literal s)) [
  | inl e ↦ (let x = subst (λ o. normalize_parsed p mode o ≡ ok text) e h in absurd cc)
  | inr (l, e) ↦ (
    p,
    mode,
    l,
    refl,
    refl,
    e,
    normalize_literal-IsNormalized p mode l (subst (λ o. normalize_parsed p mode o ≡ ok text) e h),
  )
]

-- Where NormalizeDecimalValue succeeds, the field has effective parameters and a rounding mode, the
-- text is a literal, and the result is the numeral of the literal's value times 10 ^ scale, rounded
-- to a nearest whole number by the field's mode; that number is below 10 ^ precision, and the numeral
-- has `scale` digits behind the point.
pub normalize-IsNormalized :
    (c : Casing) (f : Field) (s : Bytes) {text : Bytes}
    → normalize_decimal_value c f s ≡ ok text
    → Normalization (effective_decimal_parameters c f) (effective_rounding_mode c f) s text
unfolding normalize_decimal_value
normalize-IsNormalized c f s h =
    normalize_with-Normalization (effective_decimal_parameters c f) (effective_rounding_mode c f) s
      h
