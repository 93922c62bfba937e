-- ===== src/Catalog/Evolution/Unchanged.antt =====
-- A valid schema may stay as it is.
use go_bemu.Base.{
  ◌≡◌, refl, sym, ◌∙◌, subst, inl, inr, false, not, ◌&&◌, List, [], ◌∷◌, arith, ◌++◌, Bool-cases,
  not_off,
}
use go_bemu.Text.{Bytes, codes, text_eq, text_eq→eq}
use go_bemu.Exec.{ok}
use go_bemu.Catalog.Failure.{else_ok}
use go_bemu.Catalog.Casing.{Casing}
use go_bemu.Catalog.Fields.{Field, field, Fields, nil, cons}
use go_bemu.Catalog.Schema.{
  one_of, and_then-ok, field_name, no_fields, validate_field, validate_nested, validate_list_from,
  validate_list_below, validate_field_list, check_field, check_name, check_kind, check_shape,
  check_decimal, known_modes, is_record_type,
}
use go_bemu.Catalog.Evolution.{
  canonical_upper, is_record, fewer_than, match_fields, match_nested, added_fields,
  validate_schema_evolution,
}
use go_bemu.Catalog.Evolution.Extension.{Keeps}
use go_bemu.Catalog.Evolution.Extension.Decision.{Keeps-check_kept, no_fields-nil}

fewer_self : (fs : Fields) → fewer_than fs fs ≡ false
fewer_self nil = refl
fewer_self (cons f fs) = fewer_self fs

-- The canonical type of STRUCT is RECORD, and no other type's is.
canonical-record : (t : Bytes) → text_eq (canonical_upper t) (codes "RECORD") ≡ is_record_type t
unfolding canonical_upper text_eq
canonical-record t = elim (Bool-cases (text_eq t (codes "BOOL"))) [
  | inl e ↦ rw (text_eq→eq t _ e) refl
  | inr e ↦ elim (Bool-cases (text_eq t (codes "INTEGER"))) [
    | inl e' ↦ rw (text_eq→eq t _ e') refl
    | inr e' ↦ elim (Bool-cases (text_eq t (codes "FLOAT"))) [
      | inl e'' ↦ rw (text_eq→eq t _ e'') refl
      | inr e'' ↦ elim (Bool-cases (text_eq t (codes "STRUCT"))) [
        | inl d ↦ rw (text_eq→eq t _ d) refl
        | inr d ↦ rw (e, e', e'', d) (ground arith)
      ]
    ]
  ]
]

scalar_plain :
    (t mode : Bytes) (nested : Fields)
    → check_shape t mode nested ≡ ok tt
    → is_record_type t ≡ false
    → nested ≡ nil
unfolding check_shape
scalar_plain t mode nested h e =
    let (_, h) = else_ok (not (one_of mode known_modes)) _ h in
    let (_, h) = else_ok (is_record_type t && no_fields nested) _ h in
    let (k, _) = else_ok (not (is_record_type t) && not (no_fields nested)) _ h in
    no_fields-nil nested (not_off _ (subst (λ b. not b && not (no_fields nested) ≡ false) e k))

Keeps-self : (c : Casing) (f : Field) → Keeps c f f
Keeps-self c (field _ _ _ _ _ _ _ _) = (refl, refl, refl, refl, refl, refl)

mutual
  unfolding match_fields validate_field check_field is_record added_fields

  match_fields_self :
      (c : Casing) (parent : List Bytes) (fs : Fields)
      → validate_nested c fs ≡ ok tt
      → match_fields c parent fs fs ≡ ok []
  match_fields_self c parent nil h = refl
  match_fields_self c parent (cons f fs) h =
      let (a, b) = and_then-ok (validate_field c f) _ h in
      rw
        (
          Keeps-check_kept c f f (Keeps-self c f),
          match_nested_self c (parent ++ field_name f ∷ []) f a,
          match_fields_self c parent fs b,
        )
        refl

  match_nested_self :
      (c : Casing) (path : List Bytes) (f : Field)
      → validate_field c f ≡ ok tt
      → match_nested c path f f ≡ ok []
  match_nested_self c path (field name kind mode description precision scale rounding nested) h =
      let (h, below) =
        and_then-ok
          (check_field c (field name kind mode description precision scale rounding nested)) _ h in
      let (_, h) = and_then-ok (check_name name) _ h in
      let (_, h) = and_then-ok (check_kind (c.upper kind)) _ h in
      let (_, shape) = and_then-ok (check_decimal c (c.upper kind) _) _ h in
      elim (Bool-cases (is_record c kind)) [
        | inl e ↦ rw (e, fewer_self nested) (match_fields_self c path nested below)
        | inr e ↦
            rw (e, scalar_plain _ _ nested shape (sym (canonical-record (c.upper kind)) ∙ e)) refl
      ]

listed_valid :
    (c : Casing) (seen : List Bytes) (fs : Fields)
    → validate_list_from c seen fs ≡ ok tt
    → validate_nested c fs ≡ ok tt
unfolding validate_list_from validate_field
listed_valid c seen nil h = refl
listed_valid c seen (cons f fs) h =
    let (a, h) = and_then-ok (validate_field c f) _ h in
    let (_, h) = else_ok (one_of (c.lower (field_name f)) seen) _ h in
    let (_, h) = and_then-ok (validate_list_below c f) _ h in
    rw (a, listed_valid c (c.lower (field_name f) ∷ seen) fs h) refl

-- A valid schema is accepted after itself, with no additions.
pub validate_schema_evolution_self :
    (c : Casing) (fs : Fields)
    → validate_field_list c fs ≡ ok tt
    → validate_schema_evolution c fs fs ≡ ok []
unfolding validate_schema_evolution
validate_schema_evolution_self c fs h =
    rw (h, fewer_self fs, match_fields_self c [] fs (listed_valid c [] fs h)) refl
