-- ===== src/Catalog/Evolution/Extension.antt =====
-- The relation that schema evolution decides, without its tests and errors.
pub mod Decision
pub mod Order
use go_bemu.Base.{
  ℕ, ◌≡◌, refl, sym, ap, ◌∙◌, subst, inl, inr, Bool, true, false, not, ◌&&◌, ◌||◌, Option, none,
  some, List, [], ◌∷◌, arith, ◌++◌, nat_eq, nat_eq_iff, Bool-cases, if◌then◌else◌,
}
use go_bemu.Text.{Bytes, codes, text_eq, text_eq→eq, text_eq_refl}
use go_bemu.Exec.{Result, ok, err, Result-cases}
use go_bemu.Catalog.Failure.{Failure, fails, invalid, Checked, else_ok, ok_inj}
use go_bemu.Catalog.Casing.{Casing}
use go_bemu.Catalog.Fields.{Field, field, Fields, nil, cons}
use go_bemu.Catalog.Schema.{and_then, field_name, no_fields}
use go_bemu.Catalog.Evolution.{
  SchemaAddition, Evolved, canonical_field_mode, canonical_field_type, is_record,
  same_optional_int64, is_addable, validate_added_field, validate_added_nested, then_more,
  added_fields, check_kept, evolve_after, fewer_than, guard_level, match_fields, match_nested,
  validate_schema_level,
}

-- Every mode is NULLABLE or REPEATED, at each level.
abbrev mutual
  pub IsAddable : Casing → Field → Type 0
  IsAddable c (field name kind mode description precision scale rounding nested) =
      (is_addable (canonical_field_mode c mode) ≡ true) × AreAddable c nested

  pub AreAddable : Casing → Fields → Type 0
  AreAddable c nil = Unit
  AreAddable c (cons f fs) = IsAddable c f × AreAddable c fs

-- The attributes that stay.
abbrev pub Keeps : Casing → Field → Field → Type 0
Keeps c (field name kind mode description precision scale rounding nested)
      (field name' kind' mode' description' precision' scale' rounding' nested') =
    (name' ≡ name)
    × (canonical_field_type c kind' ≡ canonical_field_type c kind)
    × (precision' ≡ precision)
    × (scale' ≡ scale)
    × (rounding' ≡ rounding)
    × (canonical_field_mode c mode' ≡ canonical_field_mode c mode)

-- The proposed fields are the current ones, each with its attributes kept and its nested fields
-- extended, followed by addable ones.
abbrev mutual
  pub Extends : Casing → Fields → Fields → Type 0
  Extends c nil gs = AreAddable c gs
  Extends c (cons f fs) nil = ⊥
  Extends c (cons f fs) (cons g gs) = Keeps c f g × Nests c f g × Extends c fs gs

  pub Nests : Casing → Field → Field → Type 0
  Nests c (field name kind mode description precision scale rounding nested)
        (field name' kind' mode' description' precision' scale' rounding' nested') =
      (is_record c kind ≡ true → Extends c nested nested')
      × (is_record c kind ≡ false → nested' ≡ nil)
