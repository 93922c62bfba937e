-- ===== src/Catalog/Schema.antt =====
-- The schema rules of internal/domain/catalog.go: Field.Validate and validateFieldList.
pub mod Naming
use go_bemu.Base.{
  ℕ, ◌≡◌, refl, Bool, true, false, not, ◌&&◌, ◌||◌, Option, none, some, List, [], ◌∷◌, ltb, length,
  if◌then◌else◌,
}
use go_bemu.Text.{Bytes, codes, text_eq}
use go_bemu.Exec.{Result, ok, err}
use go_bemu.Catalog.Failure.{Failure, fails, invalid, unsupported, Checked}
use go_bemu.Catalog.Casing.{Casing}
use go_bemu.Catalog.Names.{is_resource_id}
use go_bemu.Catalog.Fields.{Field, field, Fields, nil, cons}
use go_bemu.Catalog.Decimal.{is_decimal, effective_decimal_parameters, effective_rounding_mode}

-- `if err := check; err != nil { return err }`
abbrev pub and_then {ℓ} : {A : Type ℓ} → Result Failure A → Checked → Checked
and_then (ok a) k = k
and_then (err e) k = err e

pub and_then-ok : (r k : Checked) → and_then r k ≡ ok tt → (r ≡ ok tt) × (k ≡ ok tt)
and_then-ok (ok tt) k h = (refl, h)
and_then-ok (err e) k h = cc

abbrev pub one_of : Bytes → List Bytes → Bool
one_of s [] = false
one_of s (t ∷ ts) = text_eq s t || one_of s ts

abbrev pub field_name : Field → Bytes
field_name (field name kind mode description precision scale rounding nested) = name

abbrev pub nested_fields : Field → Fields
nested_fields (field name kind mode description precision scale rounding nested) = nested

abbrev pub known_types : List Bytes
known_types =
    codes "BOOL"
    ∷ codes "BOOLEAN"
    ∷ codes "INT64"
    ∷ codes "INTEGER"
    ∷ codes "FLOAT64"
    ∷ codes "FLOAT"
    ∷ codes "NUMERIC"
    ∷ codes "BIGNUMERIC"
    ∷ codes "STRING"
    ∷ codes "BYTES"
    ∷ codes "DATE"
    ∷ codes "DATETIME"
    ∷ codes "TIME"
    ∷ codes "TIMESTAMP"
    ∷ codes "JSON"
    ∷ codes "RECORD"
    ∷ codes "STRUCT"
    ∷ []

abbrev pub known_modes : List Bytes
known_modes = [] ∷ codes "NULLABLE" ∷ codes "REQUIRED" ∷ codes "REPEATED" ∷ []

abbrev pub is_record_type : Bytes → Bool
is_record_type t = text_eq t (codes "RECORD") || text_eq t (codes "STRUCT")

abbrev is_set : {A : Type 0} → Option A → Bool
is_set none = false
is_set (some a) = true

abbrev pub no_fields : Fields → Bool
no_fields nil = true
no_fields (cons f fs) = false

-- The decimal parameters of a field of a type.
unfoldable pub check_decimal : Casing → Bytes → Field → Checked
check_decimal c t (field name kind mode description precision scale rounding nested) =
    let f = field name kind mode description precision scale rounding nested in
    if is_decimal t
    then and_then (effective_decimal_parameters c f)
        (and_then (effective_rounding_mode c f) (ok tt))
    else if is_set precision || is_set scale || not (text_eq rounding [])
    then fails invalid
        "precision, scale, and rounding mode are valid only for NUMERIC or BIGNUMERIC"
    else ok tt

-- Whether a type nests.
unfoldable pub check_shape : Bytes → Bytes → Fields → Checked
check_shape t mode nested =
    if not (one_of mode known_modes)
    then fails invalid "unsupported field mode"
    else if is_record_type t && no_fields nested
    then fails invalid "requires nested fields"
    else if not (is_record_type t) && not (no_fields nested)
    then fails invalid "scalar field must not define nested fields"
    else ok tt

unfoldable pub check_kind : Bytes → Checked
check_kind t =
    if text_eq t (codes "GEOGRAPHY")
    then fails unsupported "type GEOGRAPHY has no local semantic implementation"
    else if not (one_of t known_types)
    then fails invalid "unsupported field type"
    else ok tt

unfoldable pub check_name : Bytes → Checked
check_name name =
    if ltb 1024 (length name) || not (is_resource_id name)
    then fails invalid "invalid field name"
    else ok tt

-- Field.Validate up to the nested fields.
unfoldable pub check_field : Casing → Field → Checked
check_field c (field name kind mode description precision scale rounding nested) =
    let f = field name kind mode description precision scale rounding nested in
    and_then (check_name name) (
      and_then (check_kind (c.upper kind)) (
        and_then (check_decimal c (c.upper kind) f)
          (check_shape (c.upper kind) (c.upper mode) nested)))

unfoldable mutual
  -- Field.Validate
  pub validate_field : Casing → Field → Checked
  validate_field c (field name kind mode description precision scale rounding nested) =
      let rest = validate_nested c nested in
      and_then (check_field c (field name kind mode description precision scale rounding nested))
        rest

  -- The loop over the nested fields.
  pub validate_nested : Casing → Fields → Checked
  validate_nested c nil = ok tt
  validate_nested c (cons f fs) =
      let first = validate_field c f in let rest = validate_nested c fs in and_then first rest

-- validateFieldList, with the lower-case names seen before.
unfoldable mutual
  pub validate_list_from : Casing → List Bytes → Fields → Checked
  validate_list_from c seen nil = ok tt
  validate_list_from c seen (cons f fs) =
      let below = validate_list_below c f in
      let rest = validate_list_from c (c.lower (field_name f) ∷ seen) fs in
      and_then (validate_field c f) (
        if one_of (c.lower (field_name f)) seen
        then fails invalid "duplicate field"
        else and_then below rest)

  pub validate_list_below : Casing → Field → Checked
  validate_list_below c (field name kind mode description precision scale rounding nested) =
      validate_list_from c [] nested

abbrev pub validate_field_list : Casing → Fields → Checked
validate_field_list c fs = validate_list_from c [] fs
