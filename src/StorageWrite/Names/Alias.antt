-- ===== src/StorageWrite/Names/Alias.antt =====
-- The two spellings of a default stream that ParseStreamName (internal/storagewrite/domain/write.go)
-- accepts: `<table>/streams/_default` and the legacy `<table>/_default`.
use go_bemu.Base.{
  ◌≡◌, refl, sym, ap, ◌∙◌, List, [], ◌∷◌, ◌++◌, arith, if◌then◌else◌, false, Option-cases,
  Bool-cases, inl, inr,
}
use go_bemu.Text.{
  Bytes, codes, slash, split, text_eq, text_eq_iff, cut_suffix, trim_suffix, cut_suffix-append,
  trim_suffix-append, cut_suffix-eq_append, split_then, split_whole, split-append, join, join_last,
  trim_suffix-none,
}
use go_bemu.Exec.{ok, err}
use go_bemu.StorageWrite.Names.{
  TableReference, name, as_default, default_stream, parse_parts, parse_table_name, parse_cut,
  parse_stream_name,
}
use go_bemu.StorageWrite.Names.RoundTrip.{IsTable, join-parts, split-name, parse_table_name-name}

abbrev last_of : Bytes → List Bytes → Bytes
last_of d [] = d
last_of d (p ∷ ps) = last_of p ps

last_of-append : (d q : Bytes) (ps : List Bytes) → last_of d (ps ++ q ∷ []) ≡ q
last_of-append d q [] = refl
last_of-append d q (p ∷ ps) = last_of-append p q ps

-- A table name ends in "/streams" only if the table is called that.
trim_name :
    (t : TableReference)
    → IsTable t
    → text_eq t.table_id (codes "streams") ≡ false
    → trim_suffix (name t) (codes "/streams") ≡ name t
trim_name t h n = elim (Option-cases (cut_suffix (codes "/streams") (name t))) [
  | inl e ↦ trim_suffix-none (name t) (codes "/streams") e
  | inr (p, e) ↦
      let whole = cut_suffix-eq_append (codes "/streams") (name t) p e in
      let cut =
        sym (split-name t h)
        ∙ ap split whole
        ∙ split-append p (codes "streams")
        ∙ ap (λ x. split p ++ x) (split_whole (codes "streams") (ground arith)) in
      let last = ap (last_of []) cut ∙ last_of-append [] (codes "streams") (split p) in
      absurd (ground (arith, n, (text_eq_iff t.table_id (codes "streams")).1 last))
]

-- A table name without its last part.
abbrev stem : TableReference → List Bytes
stem t = codes "projects" ∷ t.project_id ∷ codes "datasets" ∷ t.dataset_id ∷ codes "tables" ∷ []

split-stem : (t : TableReference) → IsTable t → split (join (stem t)) ≡ stem t
unfolding join
split-stem t h = split_then (codes "projects") _ (ground arith) (
    split_then t.project_id _ h.project.lacks (
      split_then (codes "datasets") _ (ground arith)
        (split_then t.dataset_id _ h.dataset.lacks (split_whole (codes "tables") (ground arith)))))

name-stem : (t : TableReference) → name t ≡ join (stem t) ++ slash ∷ t.table_id
name-stem t =
    sym (join-parts t)
    ∙ join_last (codes "projects")
        (t.project_id ∷ codes "datasets" ∷ t.dataset_id ∷ codes "tables" ∷ []) t.table_id

stem_refused :
    (t : TableReference)
    → IsTable t
    → parse_table_name (join (stem t)) ≡ err "invalid table resource"
unfolding parse_table_name
stem_refused t h = ap parse_parts (split-stem t h)

-- The legacy spelling of a table's default stream is parsed as the default stream, unless the
-- table's ID is "streams": then it is refused.
pub parse_legacy :
    (t : TableReference)
    → IsTable t
    → parse_stream_name (name t ++ codes "/_default") ≡ (
        if text_eq t.table_id (codes "streams")
        then err "invalid table resource"
        else ok (default_stream t))
unfolding parse_stream_name
parse_legacy t h = elim (Bool-cases (text_eq t.table_id (codes "streams"))) [
  | inl e ↦
      let called = (text_eq_iff t.table_id (codes "streams")).0 e in
      let cut = name-stem t ∙ ap (λ x. join (stem t) ++ slash ∷ x) called in
      ap (parse_cut (name t ++ codes "/_default")) (cut_suffix-append (name t) (codes "/_default"))
      ∙ ap (λ x. as_default (parse_table_name (trim_suffix x (codes "/streams")))) cut
      ∙ ap (λ x. as_default (parse_table_name x))
          (trim_suffix-append (join (stem t)) (codes "/streams"))
      ∙ ap as_default (stem_refused t h)
      ∙ rw e refl
  | inr e ↦
      ap (parse_cut (name t ++ codes "/_default")) (cut_suffix-append (name t) (codes "/_default"))
      ∙ ap (λ x. as_default (parse_table_name x)) (trim_name t h e)
      ∙ ap as_default (parse_table_name-name t h)
      ∙ rw e refl
]
