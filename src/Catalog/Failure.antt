-- ===== src/Catalog/Failure.antt =====
-- The errors of internal/domain/errors.go: a text that wraps one of these. Texts with values
-- formatted into them stand without the values.
use go_bemu.Base.{◌≡◌, refl, Bool, true, false, String, if◌then◌else◌}
use go_bemu.Exec.{Result, ok, err}

pub data Kind : Type 0 where
  not_found conflict invalid invalid_query precondition unsupported backend : Kind

pub record Failure : Type 0 where
  pub kind : Kind
  pub text : String

-- fmt.Errorf("%w: ...", Err..., ...)
abbrev pub fails : {A : Type 0} → Kind → String → Result Failure A
fails k text = err (record { kind = k; text = text })

abbrev pub Checked : Type 0
Checked = Result Failure (Unit {0})

-- A guard that refuses is off where the result is no error.
pub else_ok :
    {A : Type 0} (b : Bool) (e : Failure) {r : Result Failure A} {a : A}
    → (if b then err e else r) ≡ ok a
    → (b ≡ false) × (r ≡ ok a)
else_ok true e h = cc
else_ok false e h = (refl, h)

pub ok_inj : {A : Type 0} {a b : A} → ◌≡◌ {A = Result Failure A} (ok a) (ok b) → a ≡ b
ok_inj h = cc

pub then_ok :
    {A : Type 0} (b : Bool) (e : Failure) {r : Result Failure A} {a : A}
    → (if b then r else err e) ≡ ok a
    → r ≡ ok a
then_ok true e h = h
then_ok false e h = cc
