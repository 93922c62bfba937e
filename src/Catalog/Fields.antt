-- ===== src/Catalog/Fields.antt =====
-- The schema fields of internal/domain/catalog.go; a list of nested fields is `Fields`. A value of
-- this type shares nothing, so CloneFields is the identity on it.
use go_bemu.Base.{ℕ, Option}
use go_bemu.Text.{Bytes}

mutual
  pub data Field : Type 0 where
    field :
        (name kind mode description : Bytes)
        → (precision scale : Option ℕ) → (rounding_mode : Bytes) → Fields
        → Field

  pub data Fields : Type 0 where
    nil : Fields
    cons : Field → Fields → Fields
