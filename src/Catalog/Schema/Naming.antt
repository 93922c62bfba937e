-- ===== src/Catalog/Schema/Naming.antt =====
-- What validateFieldList accepts: valid fields whose names differ, letters' case aside, at each level.
use go_bemu.Base.{◌≡◌, refl, sym, ◌↔◌, inl, inr, false, List, [], ◌∷◌, All, Bool-cases, or_parts}
use go_bemu.Text.{Bytes, text_eq, text_eq_iff}
use go_bemu.Exec.{ok}
use go_bemu.Catalog.Failure.{else_ok}
use go_bemu.Catalog.Casing.{Casing}
use go_bemu.Catalog.Fields.{Field, field, Fields, nil, cons}
use go_bemu.Catalog.Schema.{
  one_of, and_then-ok, check_field, field_name, validate_field, validate_nested, validate_list_from,
  validate_list_below, validate_field_list,
}

abbrev pub lower_names : Casing → Fields → List Bytes
lower_names c nil = []
lower_names c (cons f fs) = c.lower (field_name f) ∷ lower_names c fs

abbrev pub Distinct : List Bytes → Type 0
Distinct [] = Unit
Distinct (x ∷ xs) = (one_of x xs ≡ false) × Distinct xs

-- The names differ in the nested fields of each field, and below them.
abbrev mutual
  pub IsWellNamed : Casing → Field → Type 0
  IsWellNamed c (field name kind mode description precision scale rounding nested) =
      Distinct (lower_names c nested) × AreWellNamed c nested

  pub AreWellNamed : Casing → Fields → Type 0
  AreWellNamed c nil = Unit
  AreWellNamed c (cons f fs) = IsWellNamed c f × AreWellNamed c fs

abbrev AreFresh : List Bytes → List Bytes → Type 0
AreFresh seen names = All (λ n. one_of n seen ≡ false) names

text_eq_sym : (s t : Bytes) → text_eq s t ≡ false → text_eq t s ≡ false
text_eq_sym s t h = elim (Bool-cases (text_eq t s)) [
  | inl e ↦ let e' = (text_eq_iff s t).1 (sym ((text_eq_iff t s).0 e)) in cc
  | inr e ↦ e
]

AreFresh-Distinct :
    (x : Bytes) (seen names : List Bytes)
    → AreFresh (x ∷ seen) names
    → (one_of x names ≡ false) × AreFresh seen names
AreFresh-Distinct x seen [] h = (refl, tt)
AreFresh-Distinct x seen (n ∷ names) (h, hs) =
    let (a, b) = or_parts (text_eq n x) (one_of n seen) h in
    let (o, r) = AreFresh-Distinct x seen names hs in (rw (text_eq_sym n x a) o, (b, r))

Distinct-AreFresh :
    (x : Bytes) (seen names : List Bytes)
    → one_of x names ≡ false
    → AreFresh seen names
    → AreFresh (x ∷ seen) names
Distinct-AreFresh x seen [] h f = tt
Distinct-AreFresh x seen (n ∷ names) h (f, fs) =
    let (a, b) = or_parts (text_eq x n) (one_of x names) h in
    (rw (text_eq_sym x n a) f, Distinct-AreFresh x seen names b fs)

all_fresh : (names : List Bytes) → AreFresh [] names
all_fresh [] = tt
all_fresh (n ∷ names) = (refl, all_fresh names)

abbrev AreListed : Casing → List Bytes → Fields → Type 0
AreListed c seen fs =
    (validate_nested c fs ≡ ok tt)
    × AreFresh seen (lower_names c fs)
    × Distinct (lower_names c fs)
    × AreWellNamed c fs

mutual
  unfolding validate_list_from validate_field

  listed :
      (c : Casing) (seen : List Bytes) (fs : Fields)
      → validate_list_from c seen fs ≡ ok tt
      → AreListed c seen fs
  listed c seen nil h = (refl, tt, tt, tt)
  listed c seen (cons f fs) h =
      let (v, h) = and_then-ok (validate_field c f) _ h in
      let (o, h) = else_ok (one_of (c.lower (field_name f)) seen) _ h in
      let (b, h) = and_then-ok (validate_list_below c f) _ h in
      let (vs, fresh, ds, ws) = listed c (c.lower (field_name f) ∷ seen) fs h in
      let (d, fresh') = AreFresh-Distinct (c.lower (field_name f)) seen (lower_names c fs) fresh in
      (rw v vs, (o, fresh'), (d, ds), (listed_below c f b, ws))

  listed_below : (c : Casing) (f : Field) → validate_list_below c f ≡ ok tt → IsWellNamed c f
  listed_below c (field name kind mode description precision scale rounding nested) h =
      let (_, _, ds, ws) = listed c [] nested h in (ds, ws)

mutual
  unfolding validate_list_from validate_field

  accepted :
      (c : Casing) (seen : List Bytes) (fs : Fields)
      → AreListed c seen fs
      → validate_list_from c seen fs ≡ ok tt
  accepted c seen nil h = refl
  accepted c seen (cons f fs) (v, (o, fresh), (d, ds), (w, ws)) =
      let (a, vs) = and_then-ok (validate_field c f) _ v in
      rw (a, o, accepted_below c f a w)
        (accepted c (c.lower (field_name f) ∷ seen) fs
          (vs, Distinct-AreFresh (c.lower (field_name f)) seen (lower_names c fs) d fresh, ds, ws))

  accepted_below :
      (c : Casing) (f : Field)
      → validate_field c f ≡ ok tt
      → IsWellNamed c f
      → validate_list_below c f ≡ ok tt
  accepted_below c (field name kind mode description precision scale rounding nested) v (d, w) =
      let (_, vs) =
        and_then-ok
          (check_field c (field name kind mode description precision scale rounding nested)) _ v in
      accepted c [] nested (vs, all_fresh (lower_names c nested), d, w)

-- validateFieldList accepts a schema if and only if each field is valid and, at every level of
-- nesting, no two names are the same in lower case.
pub validate_field_list_iff :
    (c : Casing) (fs : Fields)
    → (validate_field_list c fs ≡ ok tt)
      ↔ ((validate_nested c fs ≡ ok tt) × Distinct (lower_names c fs) × AreWellNamed c fs)
validate_field_list_iff c fs = (
  λ h. let (v, _, d, w) = listed c [] fs h in (v, d, w),
  λ (v, d, w). accepted c [] fs (v, all_fresh (lower_names c fs), d, w),
)
