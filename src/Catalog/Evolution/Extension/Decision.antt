-- ===== src/Catalog/Evolution/Extension/Decision.antt =====
-- validateSchemaLevel accepts the extensions of a schema, and nothing else.
use go_bemu.Base.{
  ℕ, ◌≡◌, refl, ap, inl, inr, Bool, true, false, not, ◌||◌, ◌↔◌, Option, none, some, List, [], ◌∷◌,
  ◌++◌, nat_eq_iff, Bool-cases, not_off, if◌then◌else◌,
}
use go_bemu.Text.{Bytes, text_eq, text_eq→eq, text_eq_refl}
use go_bemu.Exec.{ok, err}
use go_bemu.Catalog.Failure.{Checked, else_ok}
use go_bemu.Catalog.Casing.{Casing}
use go_bemu.Catalog.Fields.{Field, field, Fields, nil, cons}
use go_bemu.Catalog.Schema.{and_then-ok, field_name, no_fields}
use go_bemu.Catalog.Evolution.{
  SchemaAddition, Evolved, canonical_field_mode, canonical_field_type, is_record,
  same_optional_int64, is_addable, validate_added_field, validate_added_nested, then_more,
  added_fields, addition, check_kept, evolve_after, fewer_than, match_fields, match_nested,
  validate_schema_level,
}
use go_bemu.Catalog.Evolution.Extension.{IsAddable, AreAddable, Keeps, Extends, Nests}

either_false : (a b : Bool) → not a || not b ≡ false → (a ≡ true) × (b ≡ true)
either_false true true h = (refl, refl)
either_false true false h = cc
either_false false b h = cc

mutual
  unfolding validate_added_field

  added-IsAddable : (c : Casing) (f : Field) → validate_added_field c f ≡ ok tt → IsAddable c f
  added-IsAddable c (field name kind mode description precision scale rounding nested) h =
      let (a, h) = else_ok (not (is_addable (canonical_field_mode c mode))) _ h in
      (not_off _ a, added-AreAddable c nested h)

  added-AreAddable :
      (c : Casing) (fs : Fields) → validate_added_nested c fs ≡ ok tt → AreAddable c fs
  added-AreAddable c nil h = tt
  added-AreAddable c (cons f fs) h =
      let (a, b) = and_then-ok (validate_added_field c f) _ h in
      (added-IsAddable c f a, added-AreAddable c fs b)

mutual
  unfolding validate_added_field

  addable-accepted : (c : Casing) (f : Field) → IsAddable c f → validate_added_field c f ≡ ok tt
  addable-accepted c (field name kind mode description precision scale rounding nested) (h, hs) =
      rw (h) (addable_all-accepted c nested hs)

  addable_all-accepted :
      (c : Casing) (fs : Fields) → AreAddable c fs → validate_added_nested c fs ≡ ok tt
  addable_all-accepted c nil h = refl
  addable_all-accepted c (cons f fs) (h, hs) =
      rw (addable-accepted c f h) (addable_all-accepted c fs hs)

-- The additions that a level returns.
abbrev pub IsOk : Evolved → Type 0
IsOk r = (xs : List SchemaAddition) × (r ≡ ok xs)

then_more-ok :
    (r s : Evolved) {xs : List SchemaAddition}
    → then_more r s ≡ ok xs
    → (ys : List SchemaAddition) × (zs : List SchemaAddition) × (r ≡ ok ys) × (s ≡ ok zs)
then_more-ok (ok ys) (ok zs) h = (ys, zs, refl, refl)
then_more-ok (ok ys) (err e) h = cc
then_more-ok (err e) s h = cc

pub evolve_after-ok :
    (r : Checked) (s : Evolved) {xs : List SchemaAddition}
    → evolve_after r s ≡ ok xs
    → (r ≡ ok tt) × (s ≡ ok xs)
evolve_after-ok (ok tt) s h = (refl, h)
evolve_after-ok (err e) s h = cc

added_fields-AreAddable :
    (c : Casing) (parent : List Bytes) (gs : Fields) {xs : List SchemaAddition}
    → added_fields c parent gs ≡ ok xs
    → AreAddable c gs
unfolding added_fields
added_fields-AreAddable c parent nil h = tt
added_fields-AreAddable c parent (cons g gs) h =
    let (a, h) = evolve_after-ok (validate_added_field c g) _ h in
    let (_, _, _, b) = then_more-ok (addition parent g) (added_fields c parent gs) h in
    (added-IsAddable c g a, added_fields-AreAddable c parent gs b)

then_more-total : (r s : Evolved) → IsOk r → IsOk s → IsOk (then_more r s)
then_more-total r s (xs, a) (ys, b) = rw (a, b) (xs ++ ys, refl)

addable-added_fields :
    (c : Casing) (parent : List Bytes) (gs : Fields)
    → AreAddable c gs
    → IsOk (added_fields c parent gs)
unfolding added_fields
addable-added_fields c parent nil h = ([], refl)
addable-added_fields c parent (cons g gs) (h, hs) = rw (addable-accepted c g h) (
    then_more-total (addition parent g) (added_fields c parent gs) (_, refl)
      (addable-added_fields c parent gs hs))

same_optional-eq : (a b : Option ℕ) → same_optional_int64 a b ≡ true → a ≡ b
unfolding same_optional_int64
same_optional-eq none none h = refl
same_optional-eq none (some b) h = cc
same_optional-eq (some a) none h = cc
same_optional-eq (some a) (some b) h = ap some ((nat_eq_iff a b).0 h)

same_optional_refl : (a : Option ℕ) → same_optional_int64 a a ≡ true
unfolding same_optional_int64
same_optional_refl none = refl
same_optional_refl (some a) = (nat_eq_iff a a).1 refl

check_kept-Keeps : (c : Casing) (f g : Field) → check_kept c f g ≡ ok tt → Keeps c f g
unfolding check_kept
check_kept-Keeps c (field name kind mode description precision scale rounding nested)
      (field name' kind' mode' description' precision' scale' rounding' nested') h =
    let (n, h) = else_ok (not (text_eq name' name)) _ h in
    let (k, h) =
      else_ok (not (text_eq (canonical_field_type c kind') (canonical_field_type c kind))) _ h in
    let (d, h) =
      else_ok
        (not (same_optional_int64 precision' precision) || not (same_optional_int64 scale' scale)) _
        h in
    let (r, h) = else_ok (not (text_eq rounding' rounding)) _ h in
    let (m, h) =
      else_ok (not (text_eq (canonical_field_mode c mode') (canonical_field_mode c mode))) _ h in
    let (dp, ds) =
      either_false (same_optional_int64 precision' precision) (same_optional_int64 scale' scale)
        d in
    (
      text_eq→eq _ _ (not_off _ n),
      text_eq→eq _ _ (not_off _ k),
      same_optional-eq _ _ dp,
      same_optional-eq _ _ ds,
      text_eq→eq _ _ (not_off _ r),
      text_eq→eq _ _ (not_off _ m),
    )

pub Keeps-check_kept : (c : Casing) (f g : Field) → Keeps c f g → check_kept c f g ≡ ok tt
unfolding check_kept
Keeps-check_kept c (field name kind mode description precision scale rounding nested)
      (field name' kind' mode' description' precision' scale' rounding' nested')
      (n, k, p, s, r, m) =
    rw (n, k, p, s, r, m)
      (rw
        (
          text_eq_refl name,
          text_eq_refl (canonical_field_type c kind),
          same_optional_refl precision,
          same_optional_refl scale,
          text_eq_refl rounding,
          text_eq_refl (canonical_field_mode c mode),
        )
        refl)

Extends-fewer : (c : Casing) (fs gs : Fields) → Extends c fs gs → fewer_than gs fs ≡ false
Extends-fewer c nil nil h = refl
Extends-fewer c nil (cons g gs) h = refl
Extends-fewer c (cons f fs) nil h = absurd h
Extends-fewer c (cons f fs) (cons g gs) (_, _, h) = Extends-fewer c fs gs h

pub no_fields-nil : (fs : Fields) → no_fields fs ≡ true → fs ≡ nil
no_fields-nil nil h = refl
no_fields-nil (cons f fs) h = cc

choose_ok :
    (b : Bool) {r s : Evolved} {xs : List SchemaAddition}
    → (if b then r else s) ≡ ok xs
    → (b ≡ true → r ≡ ok xs) × (b ≡ false → s ≡ ok xs)
choose_ok true h = (λ _. h, λ e. cc)
choose_ok false h = (λ e. cc, λ _. h)

mutual
  unfolding match_fields

  match_fields-Extends :
      (c : Casing) (parent : List Bytes) (fs gs : Fields) {xs : List SchemaAddition}
      → match_fields c parent fs gs ≡ ok xs
      → Extends c fs gs
  match_fields-Extends c parent nil gs h = added_fields-AreAddable c parent gs h
  match_fields-Extends c parent (cons f fs) nil h = cc
  match_fields-Extends c parent (cons f fs) (cons g gs) h =
      let (k, h) = evolve_after-ok (check_kept c f g) _ h in
      let (_, _, a, b) =
        then_more-ok (match_nested c (parent ++ field_name f ∷ []) f g)
          (match_fields c parent fs gs) h in
      (
        check_kept-Keeps c f g k,
        match_nested-Nests c _ f g a,
        match_fields-Extends c parent fs gs b,
      )

  match_nested-Nests :
      (c : Casing) (path : List Bytes) (f g : Field) {xs : List SchemaAddition}
      → match_nested c path f g ≡ ok xs
      → Nests c f g
  match_nested-Nests c path (field name kind mode description precision scale rounding nested)
        (field name' kind' mode' description' precision' scale' rounding' nested') h =
      let (a, b) = choose_ok (is_record c kind) h in
      (
        λ e.
            match_fields-Extends c path nested nested'
              (else_ok (fewer_than nested' nested) _ (a e)).1,
        λ e. no_fields-nil nested' (not_off _ (else_ok (not (no_fields nested')) _ (b e)).0),
      )

mutual
  unfolding match_fields

  Extends-match_fields :
      (c : Casing) (parent : List Bytes) (fs gs : Fields)
      → Extends c fs gs
      → IsOk (match_fields c parent fs gs)
  Extends-match_fields c parent nil gs h = addable-added_fields c parent gs h
  Extends-match_fields c parent (cons f fs) nil h = absurd h
  Extends-match_fields c parent (cons f fs) (cons g gs) (k, n, h) = rw (Keeps-check_kept c f g k) (
      then_more-total (match_nested c (parent ++ field_name f ∷ []) f g)
        (match_fields c parent fs gs) (Nests-match_nested c _ f g n)
        (Extends-match_fields c parent fs gs h))

  Nests-match_nested :
      (c : Casing) (path : List Bytes) (f g : Field) → Nests c f g → IsOk (match_nested c path f g)
  Nests-match_nested c path (field name kind mode description precision scale rounding nested)
        (field name' kind' mode' description' precision' scale' rounding' nested') (a, b) =
      elim (Bool-cases (is_record c kind)) [
        | inl e ↦
            rw (e, Extends-fewer c nested nested' (a e))
              (Extends-match_fields c path nested nested' (a e))
        | inr e ↦ rw (e, b e) ([], refl)
      ]

-- validateSchemaLevel accepts exactly the extensions of the current fields, at any path.
pub validate_schema_level-Extends :
    (c : Casing) (parent : List Bytes) (current proposed : Fields)
    → IsOk (validate_schema_level c parent current proposed) ↔ Extends c current proposed
validate_schema_level-Extends c parent current proposed = (
  λ (xs, h).
      match_fields-Extends c parent current proposed (else_ok (fewer_than proposed current) _ h).1,
  λ h. rw (Extends-fewer c current proposed h) (Extends-match_fields c parent current proposed h),
)
