-- ===== src/Numerals/Reading.antt =====
-- The decimal text of a number reads back as the number, and is as long as the number is large.
use go_bemu.Base.{
  ℕ, zero, suc, ◌+◌, ◌-◌, ◌*◌, ◌/◌, ◌%◌, ◌^◌, ◌≤◌, ◌<◌, ◌≡◌, refl, ap, ◌∙◌, inl, inr, [], ◌∷◌, ◌++◌,
  arith, ltb, length, All, Bool-cases, ltb→lt, not-ltb→le, replicate,
}
use native.Mathlib.Nat.{pow-suc}
use go_bemu.Text.{Bytes}
use go_bemu.Numerals.{digits, nat_text, number_from}

-- The digits of n, enough fuel given, read as n in front of what follows them.
number_from-digits :
    (fuel n : ℕ) (out : Bytes) → n < fuel → number_from 0 (digits fuel n out) ≡ number_from n out
unfolding digits number_from
number_from-digits zero n out h = absurd (omega arith)
number_from-digits (suc fuel) n out h = elim (Bool-cases (ltb n 10)) [
  | inl e ↦ rw e (ap (λ k. number_from k out) (omega arith))
  | inr e ↦ rw e (
      number_from-digits fuel (n / 10) ((b'0' + n % 10) ∷ out) (omega (arith, not-ltb→le n 10 e))
      ∙ ap (λ k. number_from k out) (omega arith))
]

pub number_from-nat_text : (n : ℕ) → number_from 0 (nat_text n) ≡ n
unfolding nat_text number_from
number_from-nat_text n = number_from-digits (suc n) n [] (omega arith)

abbrev pub IsDigit : ℕ → Type 0
IsDigit c = (b'0' ≤ c) × (c ≤ b'9')

digits-IsDigit : (fuel n : ℕ) (out : Bytes) → All IsDigit out → All IsDigit (digits fuel n out)
unfolding digits
digits-IsDigit zero n out h = h
digits-IsDigit (suc fuel) n out h = elim (Bool-cases (ltb n 10)) [
  | inl e ↦ rw e ((omega arith, omega (arith, ltb→lt n 10 e)), h)
  | inr e ↦
      rw e (digits-IsDigit fuel (n / 10) ((b'0' + n % 10) ∷ out) ((omega arith, omega arith), h))
]

pub nat_text-IsDigit : (n : ℕ) → All IsDigit (nat_text n)
unfolding nat_text
nat_text-IsDigit n = digits-IsDigit (suc n) n [] tt

mul_mono : (w m h : ℕ) → w ≤ m → w * h ≤ m * h
mul_mono w m h p = grind arith

next : (p q acc d r : ℕ) → q ≡ p * 10 → d < 10 → r < (acc * 10 + d + 1) * p → r < (acc + 1) * q
next p q acc d r e h l =
    let mono = mul_mono (acc * 10 + d + 1) ((acc + 1) * 10) p (omega arith) in
    omega (arith, ap (λ x. (acc + 1) * x) e, mono)

number_from-lt :
    (acc : ℕ) (ds : Bytes) → All IsDigit ds → number_from acc ds < (acc + 1) * 10 ^ length ds
unfolding number_from
number_from-lt acc [] h = omega arith
number_from-lt acc (c ∷ ds) (hc, h) =
    next (10 ^ length ds) (10 ^ suc (length ds)) acc (c - b'0') _ (pow-suc 10 (length ds))
      (omega arith) (number_from-lt (acc * 10 + (c - b'0')) ds h)

-- A number is below ten to the length of its text.
pub lt-pow-length : (n : ℕ) → n < 10 ^ length (nat_text n)
lt-pow-length n =
    omega (arith, number_from-nat_text n, number_from-lt 0 (nat_text n) (nat_text-IsDigit n))

-- Zeros in front change nothing.
pub number_from-replicate :
    (k : ℕ) (ds : Bytes) → number_from 0 (replicate k b'0' ++ ds) ≡ number_from 0 ds
unfolding number_from
number_from-replicate zero ds = refl
number_from-replicate (suc k) ds = number_from-replicate k ds

digits_longer : (fuel n : ℕ) (out : Bytes) → length out < length (digits (suc fuel) n out)
unfolding digits
digits_longer zero n out = ground arith
digits_longer (suc fuel) n out = ground (arith, digits_longer fuel (n / 10) ((b'0' + n % 10) ∷ out))

pub nat_text_nonempty : (n : ℕ) → 0 < length (nat_text n)
unfolding nat_text
nat_text_nonempty n = digits_longer n n []
