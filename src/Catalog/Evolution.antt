-- ===== src/Catalog/Evolution.antt =====
-- internal/domain/schema_evolution.go: which schemas may follow a schema.
pub mod Extension
pub mod Unchanged
use go_bemu.Base.{
  ℕ, Bool, true, false, not, ◌&&◌, ◌||◌, Option, none, some, List, [], ◌∷◌, ◌++◌, nat_eq,
  if◌then◌else◌,
}
use go_bemu.Text.{Bytes, codes, text_eq}
use go_bemu.Exec.{Result, ok, err}
use go_bemu.Catalog.Failure.{Failure, fails, invalid, Checked}
use go_bemu.Catalog.Casing.{Casing}
use go_bemu.Catalog.Fields.{Field, field, Fields, nil, cons}
use go_bemu.Catalog.Schema.{and_then, field_name, no_fields, validate_field_list}

-- SchemaAddition
pub record SchemaAddition : Type 0 where
  pub path : List Bytes
  pub added : Field

abbrev pub Evolved : Type 0
Evolved = Result Failure (List SchemaAddition)

unfoldable pub canonical_field_mode : Casing → Bytes → Bytes
canonical_field_mode c mode = if text_eq mode [] then codes "NULLABLE" else c.upper mode

unfoldable pub canonical_upper : Bytes → Bytes
canonical_upper t =
    if text_eq t (codes "BOOL")
    then codes "BOOLEAN"
    else if text_eq t (codes "INTEGER")
    then codes "INT64"
    else if text_eq t (codes "FLOAT")
    then codes "FLOAT64"
    else if text_eq t (codes "STRUCT")
    then codes "RECORD"
    else t

abbrev pub canonical_field_type : Casing → Bytes → Bytes
canonical_field_type c kind = canonical_upper (c.upper kind)

unfoldable pub is_record : Casing → Bytes → Bool
is_record c kind = text_eq (canonical_field_type c kind) (codes "RECORD")

unfoldable pub same_optional_int64 : Option ℕ → Option ℕ → Bool
same_optional_int64 none none = true
same_optional_int64 (some a) (some b) = nat_eq a b
same_optional_int64 _ _ = false

unfoldable pub is_addable : Bytes → Bool
is_addable mode = text_eq mode (codes "NULLABLE") || text_eq mode (codes "REPEATED")

unfoldable mutual
  pub validate_added_field : Casing → Field → Checked
  validate_added_field c (field name kind mode description precision scale rounding nested) =
      let below = validate_added_nested c nested in
      if not (is_addable (canonical_field_mode c mode))
      then fails invalid "new fields must be NULLABLE or REPEATED"
      else below

  pub validate_added_nested : Casing → Fields → Checked
  validate_added_nested c nil = ok tt
  validate_added_nested c (cons f fs) =
      let first = validate_added_field c f in
      let rest = validate_added_nested c fs in and_then first rest

-- `append(additions, ...)`
abbrev pub then_more : Evolved → Evolved → Evolved
then_more (err e) r = err e
then_more (ok xs) (err e) = err e
then_more (ok xs) (ok ys) = ok (xs ++ ys)

abbrev pub evolve_after : Checked → Evolved → Evolved
evolve_after (ok _) r = r
evolve_after (err e) r = err e

abbrev pub addition : List Bytes → Field → Evolved
addition parent f = ok (record { path = parent ++ field_name f ∷ []; added = f } ∷ [])

-- The loop over the fields past the current ones.
unfoldable pub added_fields : Casing → List Bytes → Fields → Evolved
added_fields c parent nil = ok []
added_fields c parent (cons f fs) =
    let rest = added_fields c parent fs in
    evolve_after (validate_added_field c f) (then_more (addition parent f) rest)

-- The attributes that an existing field keeps; its description is free.
unfoldable pub check_kept : Casing → Field → Field → Checked
check_kept c (field name kind mode description precision scale rounding nested)
      (field name' kind' mode' description' precision' scale' rounding' nested') =
    if not (text_eq name' name)
    then fails invalid "field removal, rename, or reorder is not supported"
    else if not (text_eq (canonical_field_type c kind') (canonical_field_type c kind))
    then fails invalid "type change is not supported"
    else if not (same_optional_int64 precision' precision) || not (same_optional_int64 scale' scale)
    then fails invalid "decimal precision or scale change is not supported"
    else if not (text_eq rounding' rounding)
    then fails invalid "decimal rounding mode change is not supported"
    else if not (text_eq (canonical_field_mode c mode') (canonical_field_mode c mode))
    then fails invalid "mode change is not supported"
    else ok tt

abbrev fewer_than : Fields → Fields → Bool
fewer_than nil nil = false
fewer_than nil (cons f fs) = true
fewer_than (cons f fs) nil = false
fewer_than (cons f fs) (cons g gs) = fewer_than fs gs

-- `if len(proposed) < len(current)`
abbrev pub guard_level : Fields → Fields → Evolved → Evolved
guard_level current proposed r =
    if fewer_than proposed current then fails invalid "field removal is not supported" else r

-- The loop of validateSchemaLevel over the current fields, then the one over the added fields. Behind
-- the test of `guard_level` the proposed fields do not run out first.
unfoldable mutual
  pub match_fields : Casing → List Bytes → Fields → Fields → Evolved
  match_fields c parent nil proposed = added_fields c parent proposed
  match_fields c parent (cons f fs) nil = fails invalid "field removal is not supported"
  match_fields c parent (cons f fs) (cons g gs) =
      let below = match_nested c (parent ++ field_name f ∷ []) f g in
      let rest = match_fields c parent fs gs in
      evolve_after (check_kept c f g) (then_more below rest)

  -- What the nested fields of a field add.
  pub match_nested : Casing → List Bytes → Field → Field → Evolved
  match_nested c path (field name kind mode description precision scale rounding nested)
        (field name' kind' mode' description' precision' scale' rounding' nested') =
      let below = match_fields c path nested nested' in
      if is_record c kind
      then guard_level nested nested' below
      else if not (no_fields nested')
      then fails invalid "non-RECORD fields cannot gain nested fields"
      else ok []

abbrev pub validate_schema_level : Casing → List Bytes → Fields → Fields → Evolved
validate_schema_level c parent current proposed =
    guard_level current proposed (match_fields c parent current proposed)

-- ValidateSchemaEvolution
unfoldable pub validate_schema_evolution : Casing → Fields → Fields → Evolved
validate_schema_evolution c current proposed =
    evolve_after (validate_field_list c proposed) (validate_schema_level c [] current proposed)
