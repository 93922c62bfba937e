-- ===== src/Catalog/Decimal/Parameters.antt =====
-- The bounds that effective decimal parameters keep.
use go_bemu.Base.{
  ℕ, ◌-◌, ◌≤◌, ◌<◌, ◌≡◌, subst, if◌then◌else◌, Bool, true, false, ◌&&◌, ◌||◌, Option, none, some,
  arith, or_parts, refl, sym, ap, ◌⊎◌, inl, inr, Bool-cases,
}
use go_bemu.Words.{word64, half64, lt64, sub64, sub64_small}
use go_bemu.Exec.{Result, ok, err}
use go_bemu.Text.{Bytes, codes, text_eq, text_eq_iff}
use go_bemu.Catalog.Casing.{Casing}
use go_bemu.Catalog.Fields.{Fields, field}
use go_bemu.Catalog.Failure.{Failure, else_ok, then_ok, ok_inj}
use go_bemu.Catalog.Decimal.{
  DecimalParameters, params, check_parameters, choose_parameters, is_numeric, is_decimal,
  effective_decimal_parameters,
}

-- What an engine's decimal type accepts: at most 38 digits, and for NUMERIC at most 9 behind and 29
-- before the point.
pub record IsEffective (numeric : Bool) (p : DecimalParameters) : Type 0 where
  pub positive : 1 ≤ p.precision
  pub bounded : p.precision ≤ 38
  pub contained : p.scale ≤ p.precision
  pub fraction : numeric ≡ true → p.scale ≤ 9
  pub whole : numeric ≡ true → p.precision - p.scale ≤ 29

lt64_bound : (a b : ℕ) → a < word64 → b < half64 → lt64 a b ≡ false → (b ≤ a) × (a < half64)
unfolding lt64
lt64_bound a b ha hb h = ground arith

lt64_below : (a b : ℕ) → a < half64 → b < half64 → lt64 a b ≡ false → b ≤ a
lt64_below a b ha hb h = (lt64_bound a b (omega arith) hb h).0

on_off : (a b : Bool) → a && b ≡ false → a ≡ true → b ≡ false
on_off true b h e = h
on_off false b h e = ground arith

narrow :
    (precision scale : ℕ)
    → scale ≤ precision
    → precision ≤ 38
    → lt64 29 (sub64 precision scale) ≡ false
    → precision - scale ≤ 29
narrow precision scale h hp l =
    let e = sub64_small precision scale (omega arith) (omega arith) (omega arith) in
    let m = lt64_below 29 (sub64 precision scale) (omega arith) (omega (arith, e)) l in
    omega (arith, e, m)

check_parameters-IsEffective :
    (numeric : Bool) (precision scale : ℕ) {p : DecimalParameters}
    → precision < word64
    → scale < word64
    → check_parameters numeric precision scale ≡ ok p
    → IsEffective numeric p × (params precision scale ≡ p)
unfolding check_parameters
check_parameters-IsEffective numeric precision scale hp hs h =
    let (a, h) = else_ok (lt64 precision 1) _ h in
    let (b, h) = else_ok (lt64 38 precision) _ h in
    let (c, h) = else_ok (lt64 scale 0 || lt64 38 scale) _ h in
    let (d, h) = else_ok (lt64 precision scale) _ h in
    let (e, h) = else_ok (numeric && lt64 9 scale) _ h in
    let (f, h) = else_ok (numeric && lt64 29 (sub64 precision scale)) _ h in
    let (ha, hb) = lt64_bound precision 1 hp (omega arith) a in
    let (cs, ct) = or_parts (lt64 scale 0) (lt64 38 scale) c in
    let (hc, hd) = lt64_bound scale 0 hs (omega arith) cs in
    let most = lt64_below 38 precision (omega arith) hb b in
    let inside = lt64_below precision scale hb hd d in
    (
      subst (IsEffective numeric) (ok_inj h) (record {
        positive = ha;
        bounded = most;
        contained = inside;
        fraction = λ n. lt64_below 9 scale (omega arith) hd (on_off numeric _ e n);
        whole = λ n. narrow precision scale inside most (on_off numeric _ f n);
      }),
      ok_inj h,
    )

-- The values of a field's optional int64.
abbrev pub IsInt64 : Option ℕ → Type 0
IsInt64 none = Unit
IsInt64 (some a) = a < word64

default-IsEffective : (numeric : Bool) → IsEffective numeric (params 38 (if numeric then 9 else 18))
default-IsEffective true = record {
  positive = omega arith;
  bounded = omega arith;
  contained = omega arith;
  fraction = λ _. omega arith;
  whole = λ _. omega arith;
}
default-IsEffective false = record {
  positive = omega arith;
  bounded = omega arith;
  contained = omega arith;
  fraction = λ n. cc;
  whole = λ n. cc;
}

pub choose_parameters-IsEffective :
    (numeric : Bool) (precision scale : Option ℕ) {p : DecimalParameters}
    → IsInt64 precision
    → IsInt64 scale
    → choose_parameters numeric precision scale ≡ ok p
    → IsEffective numeric p
unfolding choose_parameters
choose_parameters-IsEffective numeric none none hp hs h =
    subst (IsEffective numeric) (ok_inj h) (default-IsEffective numeric)
choose_parameters-IsEffective numeric none (some scale) hp hs h = cc
choose_parameters-IsEffective numeric (some precision) none hp hs h =
    (check_parameters-IsEffective numeric precision 0 hp (omega arith) h).0
choose_parameters-IsEffective numeric (some precision) (some scale) hp hs h =
    (check_parameters-IsEffective numeric precision scale hp hs h).0

-- What a field declares, with the defaults of NUMERIC and of BIGNUMERIC.
abbrev pub IsDeclared : Bool → Option ℕ → Option ℕ → DecimalParameters → Type 0
IsDeclared numeric none none p =
    (p.precision ≡ 38) × (numeric ≡ true → p.scale ≡ 9) × (numeric ≡ false → p.scale ≡ 18)
IsDeclared numeric none (some scale) p = ⊥
IsDeclared numeric (some precision) none p = (p.precision ≡ precision) × (p.scale ≡ 0)
IsDeclared numeric (some precision) (some scale) p = (p.precision ≡ precision) × (p.scale ≡ scale)

params_same : (a b : ℕ) {p : DecimalParameters} → params a b ≡ p → (p.precision ≡ a) × (p.scale ≡ b)
params_same a b h = (sym (ap (λ x. x.precision) h), sym (ap (λ x. x.scale) h))

default-IsDeclared :
    (numeric : Bool) → IsDeclared numeric none none (params 38 (if numeric then 9 else 18))
default-IsDeclared true = (refl, λ _. refl, λ h. cc)
default-IsDeclared false = (refl, λ h. cc, λ _. refl)

choose_parameters-IsDeclared :
    (numeric : Bool) (precision scale : Option ℕ) {p : DecimalParameters}
    → IsInt64 precision
    → IsInt64 scale
    → choose_parameters numeric precision scale ≡ ok p
    → IsDeclared numeric precision scale p
unfolding choose_parameters
choose_parameters-IsDeclared numeric none none hp hs h =
    subst (IsDeclared numeric none none) (ok_inj h) (default-IsDeclared numeric)
choose_parameters-IsDeclared numeric none (some scale) hp hs h = cc
choose_parameters-IsDeclared numeric (some precision) none hp hs h =
    params_same precision 0 (check_parameters-IsEffective numeric precision 0 hp (omega arith) h).1
choose_parameters-IsDeclared numeric (some precision) (some scale) hp hs h =
    params_same precision scale (check_parameters-IsEffective numeric precision scale hp hs h).1

-- The parameters `p` of a field of the type `kind`.
pub record AreFor (kind : Bytes) (precision scale : Option ℕ) (p : DecimalParameters) : Type 0 where
  pub decimal : (kind ≡ codes "NUMERIC") ⊎ (kind ≡ codes "BIGNUMERIC")
  pub positive : 1 ≤ p.precision
  pub bounded : p.precision ≤ 38
  pub contained : p.scale ≤ p.precision
  pub narrow : kind ≡ codes "NUMERIC" → (p.scale ≤ 9) × (p.precision - p.scale ≤ 29)
  pub declared_numeric : kind ≡ codes "NUMERIC" → IsDeclared true precision scale p
  pub declared_bignumeric : kind ≡ codes "BIGNUMERIC" → IsDeclared false precision scale p

then_on :
    {A : Type 0} (b : Bool) (e : Failure) (r : Result Failure A) {a : A}
    → (if b then r else err e) ≡ ok a
    → b ≡ true
then_on true e r h = refl
then_on false e r h = cc

decimal_kind :
    (kind : Bytes) → is_decimal kind ≡ true → (kind ≡ codes "NUMERIC") ⊎ (kind ≡ codes "BIGNUMERIC")
decimal_kind kind h = elim (Bool-cases (is_numeric kind)) [
  | inl e ↦ inl ((text_eq_iff kind (codes "NUMERIC")).0 e)
  | inr e ↦ inr ((text_eq_iff kind (codes "BIGNUMERIC")).0 (ground arith))
]

is_numeric-numeric : (kind : Bytes) → kind ≡ codes "NUMERIC" → is_numeric kind ≡ true
is_numeric-numeric kind h = (text_eq_iff kind (codes "NUMERIC")).1 h

is_numeric-bignumeric : (kind : Bytes) → kind ≡ codes "BIGNUMERIC" → is_numeric kind ≡ false
unfolding text_eq
is_numeric-bignumeric kind h = ap is_numeric h

-- Where EffectiveDecimalParameters succeeds, the type of the field is NUMERIC or BIGNUMERIC in upper
-- case; the precision is from 1 to 38 and the scale at most the precision; for NUMERIC the scale is
-- at most 9 and at most 29 digits stand before the point. They are those that the field declares, a
-- scale left out being 0; a field that declares none has precision 38, and scale 9 for NUMERIC and 18
-- for BIGNUMERIC; a scale alone does not succeed. The declared values are machine words.
pub effective_decimal_parameters-AreFor :
    (c : Casing) (name kind mode description : Bytes) (precision scale : Option ℕ)
    (rounding : Bytes) (nested : Fields) {p : DecimalParameters}
    → IsInt64 precision
    → IsInt64 scale
    → effective_decimal_parameters c
        (field name kind mode description precision scale rounding nested)
      ≡ ok p
    → AreFor (c.upper kind) precision scale p
unfolding effective_decimal_parameters
effective_decimal_parameters-AreFor c name kind mode description precision scale rounding nested {p}
      hp hs h =
    let k = c.upper kind in
    let d = then_on (is_decimal k) _ _ h in
    let h = then_ok (is_decimal k) _ h in
    let e = choose_parameters-IsEffective (is_numeric k) precision scale hp hs h in
    let s = choose_parameters-IsDeclared (is_numeric k) precision scale hp hs h in
    record {
      decimal = decimal_kind k d;
      positive = e.positive;
      bounded = e.bounded;
      contained = e.contained;
      narrow = λ n. (e.fraction (is_numeric-numeric k n), e.whole (is_numeric-numeric k n));
      declared_numeric =
          λ n. subst (λ b. IsDeclared b precision scale p) (is_numeric-numeric k n) s;
      declared_bignumeric =
          λ n. subst (λ b. IsDeclared b precision scale p) (is_numeric-bignumeric k n) s;
    }
