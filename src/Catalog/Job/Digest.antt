-- ===== src/Catalog/Job/Digest.antt =====
-- The normal form of a query configuration, and its digest.
use go_bemu.Base.{◌≡◌, refl, ◌∙◌, true, false, Option, none, some, [], ◌∷◌, is_empty}
use go_bemu.Text.{Bytes, codes}
use go_bemu.Catalog.Casing.{Casing, IsCasing, each, is_capital}
use go_bemu.Catalog.Job.{JobReference, QueryConfiguration, Destination}
use go_bemu.Catalog.Job.Query.{
  Fingerprint, upper_or, upper_with, normalize_query_configuration, query_configuration_digest,
}

module _ (c : Casing) (laws : IsCasing c) where
  upper_or_nonempty : (default s : Bytes) → is_empty s ≡ false → upper_or c default s ≡ c.upper s
  upper_or_nonempty default [] h = cc
  upper_or_nonempty default (b ∷ s) h = refl

  upper_or-upper_or :
      (default s : Bytes)
      → is_empty default ≡ false
      → each is_capital default ≡ true
      → upper_or c default (upper_or c default s) ≡ upper_or c default s
  upper_or-upper_or default [] h k =
      upper_or_nonempty default default h ∙ laws.upper_capitals default k
  upper_or-upper_or default (b ∷ s) h k =
      upper_or_nonempty default (c.upper (b ∷ s)) (laws.upper_nonempty (b ∷ s) refl)
      ∙ laws.upper_upper (b ∷ s)

  upper_with-upper_with :
      (default s : Bytes) (d : Option Destination)
      → is_empty default ≡ false
      → each is_capital default ≡ true
      → upper_with c default d (upper_with c default d s) ≡ upper_with c default d s
  upper_with-upper_with default s none h k = refl
  upper_with-upper_with default s (some d) h k = upper_or-upper_or default s h k

  normalize_twice :
      (q : QueryConfiguration)
      → normalize_query_configuration c (normalize_query_configuration c q)
        ≡ normalize_query_configuration c q
  unfolding normalize_query_configuration
  normalize_twice q =
      rw
        (
          laws.trim_trim q.sql,
          upper_or-upper_or (codes "INTERACTIVE") q.priority refl refl,
          upper_with-upper_with (codes "WRITE_EMPTY") q.write_disposition q.destination refl refl,
          upper_with-upper_with (codes "CREATE_IF_NEEDED") q.create_disposition q.destination refl
              refl,
        )
        refl

  -- The digest of a configuration is that of its normal form, and does not depend on the case of the
  -- location: references and configurations with the same normal form have one digest.
  pub query_configuration_digest_normal :
      (fingerprint : Fingerprint) (r : JobReference) (q : QueryConfiguration)
      → query_configuration_digest c fingerprint
          (record r { location = c.upper r.location })
          (normalize_query_configuration c q)
        ≡ query_configuration_digest c fingerprint r q
  unfolding query_configuration_digest
  query_configuration_digest_normal fingerprint r q =
      rw (normalize_twice q, laws.upper_upper r.location) refl
