-- ===== src/Catalog/Decimal/Printing.antt =====
-- The text of a decimal value shows the value, with as many digits behind the point as its scale.
use go_bemu.Base.{
  ℕ, zero, suc, ◌+◌, ◌-◌, ◌≤◌, ◌<◌, ◌≡◌, refl, sym, ap, subst, ◌∙◌, Bool, true, false, not, ◌&&◌,
  [], ◌∷◌, ◌++◌, arith, lt→ltb, nat_eq, length, length-append, All, All-append, take, drop,
  replicate, take-drop, length-drop, length-replicate, if◌then◌else◌,
}
use mathlib.Core.List.{append-nil}
use go_bemu.Text.{Bytes}
use go_bemu.Numerals.{nat_text, number_from}
use go_bemu.Numerals.Reading.{
  IsDigit, nat_text-IsDigit, number_from-nat_text, number_from-replicate, nat_text_nonempty,
}
use go_bemu.Catalog.Decimal.{format_scaled_decimal, with_point}

abbrev pub sign_text : Bool → ℕ → Bytes
sign_text negative q = if negative && not (nat_eq q 0) then b'-' ∷ [] else []

abbrev pub point_text : ℕ → Bytes → Bytes
point_text zero fraction = fraction
point_text (suc scale) fraction = b'.' ∷ fraction

-- `text` is the decimal numeral of `q` divided by 10 ^ scale, with that many digits behind the point.
pub record IsNumeral (negative : Bool) (q scale : ℕ) (text : Bytes) : Type 0 where
  pub whole : Bytes
  pub fraction : Bytes
  pub shape : text ≡ sign_text negative q ++ (whole ++ point_text scale fraction)
  pub nonempty : 0 < length whole
  pub places : length fraction ≡ scale
  pub all_digits : All IsDigit (whole ++ fraction)
  pub value : number_from 0 (whole ++ fraction) ≡ q

replicate-IsDigit : (k : ℕ) → All IsDigit (replicate k b'0')
replicate-IsDigit zero = tt
replicate-IsDigit (suc k) = ((omega arith, omega arith), replicate-IsDigit k)

-- What padding and cutting the digits give.
record IsPadded (ds : Bytes) (scale : ℕ) (whole fraction : Bytes) : Type 0 where
  nonempty : 0 < length whole
  places : length fraction ≡ scale
  all_digits : All IsDigit (whole ++ fraction)
  value : number_from 0 (whole ++ fraction) ≡ number_from 0 ds

length-take-drop : (n : ℕ) (xs : Bytes) → length (take n xs) + length (drop n xs) ≡ length xs
length-take-drop n xs = sym (length-append (take n xs) (drop n xs)) ∙ ap length (take-drop n xs)

module _ (ds padded : Bytes) (scale : ℕ) (long : suc scale ≤ length padded)
    (hd : All IsDigit padded) (hv : number_from 0 padded ≡ number_from 0 ds) where
  ends-IsPadded :
      IsPadded ds scale (take (length padded - scale) padded) (drop (length padded - scale) padded)
  ends-IsPadded =
      let n = length padded - scale in
      record {
        nonempty = omega (arith, length-take-drop n padded, length-drop n padded);
        places = omega (arith, length-drop n padded);
        all_digits = subst (All IsDigit) (sym (take-drop n padded)) hd;
        value = ap (number_from 0) (take-drop n padded) ∙ hv;
      }

padded-length :
    (ds : Bytes) (scale : ℕ) → suc scale ≤ length (replicate (suc scale - length ds) b'0' ++ ds)
padded-length ds scale = omega (
  arith,
  length-append (replicate (suc scale - length ds) b'0') ds,
  length-replicate {A = ℕ} (suc scale - length ds) b'0',
)

with_point-IsNumeral :
    (scale : ℕ) (ds : Bytes)
    → All IsDigit ds
    → (whole : Bytes) × (fraction : Bytes) × (with_point scale ds ≡ whole ++ b'.' ∷ fraction)
      × IsPadded ds scale whole fraction
unfolding with_point
with_point-IsNumeral scale ds hd =
    let padded = replicate (suc scale - length ds) b'0' ++ ds in
    (
      _,
      _,
      refl,
      ends-IsPadded ds padded scale (padded-length ds scale)
          (All-append IsDigit (replicate (suc scale - length ds) b'0') ds (replicate-IsDigit _) hd)
          (number_from-replicate _ ds),
    )

sign-append :
    (b : Bool) (t : Bytes) → (if b then b'-' ∷ t else t) ≡ (if b then b'-' ∷ [] else []) ++ t
sign-append true t = refl
sign-append false t = refl

-- formatScaledDecimal prints the numeral of the value at the scale.
pub format-IsNumeral :
    (negative : Bool) (q scale : ℕ)
    → IsNumeral negative q scale (format_scaled_decimal negative q scale)
unfolding format_scaled_decimal
format-IsNumeral negative q zero = record {
  whole = nat_text q;
  fraction = [];
  shape =
      ap (λ t. if negative && not (nat_eq q 0) then b'-' ∷ t else t) (sym (append-nil (nat_text q)))
      ∙ sign-append (negative && not (nat_eq q 0)) (nat_text q ++ []);
  nonempty = nat_text_nonempty q;
  places = refl;
  all_digits = subst (All IsDigit) (sym (append-nil (nat_text q))) (nat_text-IsDigit q);
  value = ap (number_from 0) (append-nil (nat_text q)) ∙ number_from-nat_text q;
}
format-IsNumeral negative q (suc scale) =
    let (whole, fraction, e, cut) =
      with_point-IsNumeral (suc scale) (nat_text q) (nat_text-IsDigit q) in
    record {
      whole = whole;
      fraction = fraction;
      shape =
          rw (lt→ltb 0 (suc scale) (omega arith), e)
            (sign-append (negative && not (nat_eq q 0)) (whole ++ b'.' ∷ fraction));
      nonempty = cut.nonempty;
      places = cut.places;
      all_digits = cut.all_digits;
      value = cut.value ∙ number_from-nat_text q;
    }
