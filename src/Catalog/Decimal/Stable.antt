-- ===== src/Catalog/Decimal/Stable.antt =====
-- A normalized decimal is its own normal form.
use go_bemu.Base.{
  ℕ, zero, suc, ◌+◌, ◌-◌, ◌*◌, ◌^◌, ◌≤◌, ◌<◌, ◌≡◌, refl, sym, ap, ◌∙◌, subst, inl, inr, Bool, true,
  false, not, ◌&&◌, some, [], ◌∷◌, ◌++◌, arith, nat_eq, ltb, length, All, Bool-cases, Option-cases,
  if◌then◌else◌,
}
use mathlib.Core.List.{append-nil}
use go_bemu.Text.{Bytes}
use go_bemu.Exec.{Result, ok, err}
use go_bemu.Numerals.{nat_text, number_from}
use go_bemu.Numerals.Reading.{IsDigit}
use go_bemu.Catalog.Failure.{Failure, else_ok, then_ok, ok_inj}
use go_bemu.Catalog.Casing.{Casing}
use go_bemu.Catalog.Names.{is_digit}
use go_bemu.Catalog.Fields.{Field, field}
use go_bemu.Catalog.Literal.{
  Literal, take_sign, span_digits, parse_exponent, parse_literal, is_representable,
}
use go_bemu.Catalog.Decimal.{
  DecimalParameters, RoundingMode, half_even, half_away_from_zero, is_decimal, is_numeric,
  effective_decimal_parameters, effective_rounding_mode, numerator, denominator, round_div,
  format_scaled_decimal, normalize_literal, normalize_decimal_value, normalize_with,
  normalize_parsed,
}
use go_bemu.Catalog.Decimal.Parameters.{IsInt64, choose_parameters-IsEffective}
use go_bemu.Catalog.Decimal.Printing.{IsNumeral, format-IsNumeral, point_text}

-- The literal that a numeral is.
abbrev plain_literal : Bool → Bytes → ℕ → Literal
plain_literal negative ds scale = record {
  negative = negative;
  digits = ds;
  fraction = scale;
  small = false;
  exponent = 0;
}

abbrev Stops : Bytes → Type 0
Stops [] = Unit
Stops (c ∷ s) = is_digit c ≡ false

digit_test : (c : ℕ) → IsDigit c → is_digit c ≡ true
digit_test c (a, b) = ground arith

span_digits-append :
    (ds rest : Bytes) → All IsDigit ds → Stops rest → span_digits (ds ++ rest) ≡ (ds, rest)
unfolding span_digits
span_digits-append [] [] h k = refl
span_digits-append [] (c ∷ s) h k = rw k refl
span_digits-append (d ∷ ds) rest (h, hs) k =
    rw (digit_test d h, span_digits-append ds rest hs k) refl

parts-IsDigit : (xs ys : Bytes) → All IsDigit (xs ++ ys) → All IsDigit xs × All IsDigit ys
parts-IsDigit [] ys h = (tt, h)
parts-IsDigit (x ∷ xs) ys (h, hs) = let (a, b) = parts-IsDigit xs ys hs in ((h, a), b)

take_sign-sign :
    (b : Bool) (c : ℕ) (t : Bytes)
    → IsDigit c
    → take_sign ((if b then b'-' ∷ [] else []) ++ c ∷ t) ≡ (b, c ∷ t)
take_sign-sign true c t h = refl
take_sign-sign false c t (h, k) = ground arith

span_whole : (fraction : Bytes) → All IsDigit fraction → span_digits fraction ≡ (fraction, [])
span_whole fraction h =
    ap span_digits (sym (append-nil fraction)) ∙ span_digits-append fraction [] h tt

-- Parsing the digits of a numeral, with and without a point.
parse_digits :
    (b : Bool) (c : ℕ) (w fraction : Bytes) (scale : ℕ)
    → IsDigit c
    → All IsDigit w
    → All IsDigit fraction
    → length fraction ≡ scale
    → parse_literal ((if b then b'-' ∷ [] else []) ++ (c ∷ w ++ point_text scale fraction))
      ≡ some (plain_literal b (c ∷ w ++ fraction) scale)
unfolding parse_literal parse_exponent
parse_digits b c w [] zero hc hw hf e =
    rw (append-nil w, take_sign-sign b c w hc, span_whole (c ∷ w) (hc, hw)) refl
parse_digits b c w (d ∷ fraction) zero hc hw hf e = absurd (omega (arith, e))
parse_digits b c w fraction (suc scale) hc hw hf e =
    rw
      (
        take_sign-sign b c (w ++ b'.' ∷ fraction) hc,
        span_digits-append (c ∷ w) (b'.' ∷ fraction) (hc, hw) refl,
        span_whole fraction hf,
        e,
      )
      refl

numerator_plain :
    (b : Bool) (ds : Bytes) (s : ℕ) → numerator (plain_literal b ds s) s ≡ number_from 0 ds
numerator_plain b ds s =
    let e : 0 + s - (s + 0) ≡ 0 = omega arith in ap (λ k. number_from 0 ds * 10 ^ k) e ∙ omega arith

denominator_plain : (b : Bool) (ds : Bytes) (s : ℕ) → denominator (plain_literal b ds s) s ≡ 1
denominator_plain b ds s = let e : s + 0 - (0 + s) ≡ 0 = omega arith in ap (λ k. 10 ^ k) e

round_div-one : (mode : RoundingMode) (q : ℕ) → round_div mode q 1 ≡ q
unfolding round_div
round_div-one half_away_from_zero q = ground arith
round_div-one half_even q = ground arith

plain_representable :
    (b : Bool) (ds : Bytes) (s : ℕ) → s ≤ 38 → is_representable (plain_literal b ds s) ≡ true
unfolding is_representable
plain_representable b ds s h = ground arith

format_sign :
    (b : Bool) (q s : ℕ)
    → format_scaled_decimal (b && not (nat_eq q 0)) q s ≡ format_scaled_decimal b q s
unfolding format_scaled_decimal
format_sign false q s = refl
format_sign true q s = elim (Bool-cases (nat_eq q 0)) [ inl e ↦ rw e refl | inr e ↦ rw e refl ]

parse_whole :
    (b : Bool) (whole fraction : Bytes) (scale : ℕ)
    → 0 < length whole
    → All IsDigit (whole ++ fraction)
    → length fraction ≡ scale
    → parse_literal ((if b then b'-' ∷ [] else []) ++ (whole ++ point_text scale fraction))
      ≡ some (plain_literal b (whole ++ fraction) scale)
parse_whole b [] fraction scale n h e = absurd (omega (arith, n))
parse_whole b (c ∷ w) fraction scale n (hc, h) e =
    let (hw, hf) = parts-IsDigit w fraction h in parse_digits b c w fraction scale hc hw hf e

-- The optional precision and scale of a field are int64 values.
abbrev pub IsTypedField : Field → Type 0
IsTypedField (field name kind mode description precision scale rounding nested) =
    IsInt64 precision × IsInt64 scale

module _ (p : DecimalParameters) (mode : RoundingMode) (small : p.scale ≤ 38) where
  normalize_plain :
      (b : Bool) (ds : Bytes) (q : ℕ)
      → number_from 0 ds ≡ q
      → ltb p.precision (length (nat_text q)) ≡ false
      → normalize_literal p mode (plain_literal (b && not (nat_eq q 0)) ds p.scale)
        ≡ ok (format_scaled_decimal b q p.scale)
  unfolding normalize_literal
  normalize_plain b ds q e h =
      let l = plain_literal (b && not (nat_eq q 0)) ds p.scale in
      let r : round_div mode (numerator l p.scale) (denominator l p.scale) ≡ q =
        ap (λ n. round_div mode n (denominator l p.scale))
          (numerator_plain (b && not (nat_eq q 0)) ds p.scale ∙ e)
        ∙ ap (round_div mode q) (denominator_plain (b && not (nat_eq q 0)) ds p.scale)
        ∙ round_div-one mode q in
      rw
        (
          plain_representable (b && not (nat_eq q 0)) ds p.scale small,
          r,
          h,
          format_sign b q p.scale,
        )
        refl

  numeral_parses :
      (b : Bool) (q : ℕ) (text : Bytes)
      → IsNumeral b q p.scale text
      → (ds : Bytes) × (number_from 0 ds ≡ q)
        × (parse_literal text ≡ some (plain_literal (b && not (nat_eq q 0)) ds p.scale))
  numeral_parses b q text n = (
    n.whole ++ n.fraction,
    n.value,
    ap parse_literal n.shape
        ∙ parse_whole (b && not (nat_eq q 0)) n.whole n.fraction p.scale n.nonempty n.all_digits
            n.places,
  )

  -- The normal form of a literal is a literal whose normal form is itself.
  normalize_again :
      (l : Literal) {text : Bytes}
      → normalize_literal p mode l ≡ ok text
      → (k : Literal) × (parse_literal text ≡ some k) × (normalize_literal p mode k ≡ ok text)
  unfolding normalize_literal
  normalize_again l {text} h =
      let q = round_div mode (numerator l p.scale) (denominator l p.scale) in
      let (_, h) = else_ok (not (is_representable l)) _ h in
      let (short, h) = else_ok (ltb p.precision (length (nat_text q))) _ h in
      let e = ok_inj h in
      let (ds, v, k) =
        numeral_parses l.negative q text
          (subst (IsNumeral l.negative q p.scale) e (format-IsNumeral l.negative q p.scale)) in
      (_, k, normalize_plain l.negative ds q v short ∙ ap ok e)

scale_bound :
    (c : Casing) (f : Field) {p : DecimalParameters}
    → IsTypedField f
    → effective_decimal_parameters c f ≡ ok p
    → p.scale ≤ 38
unfolding effective_decimal_parameters
scale_bound c (field name kind mode description precision scale rounding nested) (tp, ts) h =
    let b =
      choose_parameters-IsEffective (is_numeric (c.upper kind)) precision scale tp ts
        (then_ok (is_decimal (c.upper kind)) _ h) in
    omega (arith, b.contained, b.bounded)

normalize_with_again :
    (rp : Result Failure DecimalParameters) (rm : Result Failure RoundingMode) (s : Bytes)
    {text : Bytes}
    → ((p : DecimalParameters) → rp ≡ ok p → p.scale ≤ 38)
    → normalize_with rp rm s ≡ ok text
    → normalize_with rp rm text ≡ ok text
normalize_with_again (err e) rm s small h = cc
normalize_with_again (ok p) (err e) s small h = cc
normalize_with_again (ok p) (ok mode) s {text} small h = elim (Option-cases (parse_literal s)) [
  | inl e ↦ (let x = subst (λ o. normalize_parsed p mode o ≡ ok text) e h in absurd cc)
  | inr (l, e) ↦
      let (k, d, again) =
        normalize_again p mode (small p refl) l
          (subst (λ o. normalize_parsed p mode o ≡ ok text) e h) in
      ap (normalize_parsed p mode) d ∙ again
]

-- For a field whose precision and scale, where given, are int64 values: what NormalizeDecimalValue
-- returns, normalized again, is itself.
pub normalize_decimal_value_again :
    (c : Casing) (f : Field) (s : Bytes) {text : Bytes}
    → IsTypedField f
    → normalize_decimal_value c f s ≡ ok text
    → normalize_decimal_value c f text ≡ ok text
unfolding normalize_decimal_value
normalize_decimal_value_again c f s t h =
    normalize_with_again (effective_decimal_parameters c f) (effective_rounding_mode c f) s
      (λ p e. scale_bound c f t e) h
