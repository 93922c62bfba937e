-- ===== src/Catalog/Decimal/Rounding.antt =====
-- round_div rounds to a nearest number, and breaks ties as its mode says.
use go_bemu.Base.{ℕ, ◌+◌, ◌*◌, ◌/◌, ◌%◌, ◌≤◌, ◌<◌, ◌≡◌, refl, sym, arith}
use native.Mathlib.Nat.{div-add-mod', mod-lt}
use go_bemu.Catalog.Decimal.{RoundingMode, half_away_from_zero, half_even, round_div}

-- `q` is a number nearest to the fraction n / d, and on a tie the one that the mode asks for.
pub record IsRounded (mode : RoundingMode) (n d q : ℕ) : Type 0 where
  pub not_above : 2 * (q * d) ≤ 2 * n + d
  pub not_below : 2 * n ≤ 2 * (q * d) + d
  pub ties_away : mode ≡ half_away_from_zero → 2 * n < 2 * (q * d) + d
  pub ties_even : mode ≡ half_even → 2 * n ≡ 2 * (q * d) + d → q % 2 ≡ 0
  pub ties_even_up : mode ≡ half_even → 2 * (q * d) ≡ 2 * n + d → q % 2 ≡ 0

-- The fraction in terms of quotient and rest.
parts-IsRounded :
    (mode : RoundingMode) (n d k r : ℕ)
    → n ≡ k * d + r
    → r < d
    → (n / d ≡ k) × (n % d ≡ r)
    → IsRounded mode n d (round_div mode n d)
unfolding round_div
parts-IsRounded half_away_from_zero n d k r e h p = rw (p.0, p.1) (grind arith)
parts-IsRounded half_even n d k r e h p = rw (p.0, p.1) (grind arith)

pub round_div-IsRounded :
    (mode : RoundingMode) (n d : ℕ) → 0 < d → IsRounded mode n d (round_div mode n d)
round_div-IsRounded mode n d h =
    parts-IsRounded mode n d (n / d) (n % d) (sym (div-add-mod' n d)) (mod-lt n h) (refl, refl)
