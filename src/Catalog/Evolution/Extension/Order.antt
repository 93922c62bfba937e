-- ===== src/Catalog/Evolution/Extension/Order.antt =====
-- The extensions of schemas, as an order.
use go_bemu.Base.{◌≡◌, sym, ap, ◌∙◌, ◌↔◌, subst, inl, inr, true, [], Bool-cases}
use go_bemu.Text.{Bytes, codes, text_eq}
use go_bemu.Exec.{ok}
use go_bemu.Catalog.Casing.{Casing}
use go_bemu.Catalog.Fields.{Field, field, Fields, nil, cons}
use go_bemu.Catalog.Schema.{validate_field_list}
use go_bemu.Catalog.Evolution.{
  canonical_field_type, is_record, is_addable, validate_schema_evolution,
}
use go_bemu.Catalog.Evolution.Extension.{IsAddable, AreAddable, Keeps, Extends, Nests}
use go_bemu.Catalog.Evolution.Extension.Decision.{
  IsOk, evolve_after-ok, validate_schema_level-Extends,
}

-- An addable field stays addable, whatever extends it; a field that does not nest has no fields.
mutual
  kept-IsAddable :
      (c : Casing) (f g : Field) → IsAddable c f → Keeps c f g → Nests c f g → IsAddable c g
  kept-IsAddable c (field name kind mode description precision scale rounding nested)
        (field name' kind' mode' description' precision' scale' rounding' nested') (a, hs)
        (_, _, _, _, _, m) (u, v) =
      (
        subst (λ x. is_addable x ≡ true) (sym m) a,
        elim (Bool-cases (is_record c kind)) [
          | inl e ↦ extended-AreAddable c nested nested' hs (u e)
          | inr e ↦ rw (v e) tt
        ],
      )

  extended-AreAddable :
      (c : Casing) (fs gs : Fields) → AreAddable c fs → Extends c fs gs → AreAddable c gs
  extended-AreAddable c nil gs hs h = h
  extended-AreAddable c (cons f fs) nil hs h = absurd h
  extended-AreAddable c (cons f fs) (cons g gs) (a, hs) (k, n, h) =
      (kept-IsAddable c f g a k n, extended-AreAddable c fs gs hs h)

is_record_kept :
    (c : Casing) (kind kind' : Bytes)
    → canonical_field_type c kind' ≡ canonical_field_type c kind
    → is_record c kind' ≡ is_record c kind
unfolding is_record
is_record_kept c kind kind' e = ap (λ t. text_eq t (codes "RECORD")) e

Keeps-trans : (c : Casing) (f g k : Field) → Keeps c f g → Keeps c g k → Keeps c f k
Keeps-trans c (field _ _ _ _ _ _ _ _) (field _ _ _ _ _ _ _ _) (field _ _ _ _ _ _ _ _)
      (n, t, p, s, r, m) (n', t', p', s', r', m') =
    (n' ∙ n, t' ∙ t, p' ∙ p, s' ∙ s, r' ∙ r, m' ∙ m)

mutual
  Extends-trans :
      (c : Casing) (fs gs ks : Fields) → Extends c fs gs → Extends c gs ks → Extends c fs ks
  Extends-trans c nil gs ks h h' = extended-AreAddable c gs ks h h'
  Extends-trans c (cons f fs) nil ks h h' = absurd h
  Extends-trans c (cons f fs) (cons g gs) nil h h' = absurd h'
  Extends-trans c (cons f fs) (cons g gs) (cons k ks) (a, n, h) (a', n', h') =
      (Keeps-trans c f g k a a', Nests-trans c f g k a n n', Extends-trans c fs gs ks h h')

  Nests-trans : (c : Casing) (f g k : Field) → Keeps c f g → Nests c f g → Nests c g k → Nests c f k
  Nests-trans c (field name kind mode description precision scale rounding nested)
        (field name' kind' mode' description' precision' scale' rounding' nested')
        (field name'' kind'' mode'' description'' precision'' scale'' rounding'' nested'')
        (_, t, _, _, _, _) (u, v) (u', v') =
      (
        λ e. Extends-trans c nested nested' nested'' (u e) (u' (is_record_kept c kind kind' t ∙ e)),
        λ e. v' (is_record_kept c kind kind' t ∙ e),
      )

-- A proposed schema is accepted if and only if it is valid and extends the current one: each current
-- field in its place with its name, canonical type, decimal parameters, rounding mode and canonical
-- mode kept, RECORD fields extended in the same way and the others without nested fields, then
-- further fields whose modes are NULLABLE or REPEATED at every level.
pub validate_schema_evolution_iff :
    (c : Casing) (current proposed : Fields)
    → IsOk (validate_schema_evolution c current proposed)
      ↔ ((validate_field_list c proposed ≡ ok tt) × Extends c current proposed)
unfolding validate_schema_evolution
validate_schema_evolution_iff c current proposed =
    let level = validate_schema_level-Extends c [] current proposed in
    (
      λ (xs, h).
          let (v, e) = evolve_after-ok (validate_field_list c proposed) _ h in (v, level.0 (xs, e)),
      λ (v, h). rw v (level.1 h),
    )

-- Accepted evolutions compose: where a second schema is accepted after a first and a third after the
-- second, the third is accepted after the first.
pub evolutions_compose :
    (c : Casing) (first second third : Fields)
    → IsOk (validate_schema_evolution c first second)
    → IsOk (validate_schema_evolution c second third)
    → IsOk (validate_schema_evolution c first third)
evolutions_compose c first second third h h' =
    let (_, a) = (validate_schema_evolution_iff c first second).0 h in
    let (v, b) = (validate_schema_evolution_iff c second third).0 h' in
    (validate_schema_evolution_iff c first third).1 (v, Extends-trans c first second third a b)
