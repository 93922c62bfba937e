-- ===== src/StorageWrite/Names/RoundTrip.antt =====
-- ParseTableName and ParseStreamName of internal/storagewrite/domain/write.go against Name.
use go_bemu.Base.{
  String, ◌≡◌, refl, sym, ap, subst, ◌∙◌, true, Option, some, List, [], ◌∷◌, ◌++◌, inl, inr,
  Option-cases, arith, All,
}
use go_bemu.Text.{
  Bytes, codes, Lacks, text_eq→eq, text_eq_refl, split, join, join-split, split_then, split_whole,
  split-Lacks, cut_suffix, trim_suffix, cut_suffix-append, trim_suffix-append,
}
use go_bemu.Exec.{Result, ok, err}
use mathlib.Core.List.{append_assoc}
use go_bemu.StorageWrite.Names.{
  TableReference, name, valid_segment, parse_parts, parse_table_name, StreamName, default_stream,
  as_default, parse_named, parse_cut, parse_stream_name,
}

-- A segment that the table parser accepts and that holds no separator.
pub record IsSegment (s : Bytes) : Type 0 where
  pub valid : valid_segment s ≡ true
  pub lacks : Lacks s

pub record IsTable (t : TableReference) : Type 0 where
  pub project : IsSegment t.project_id
  pub dataset : IsSegment t.dataset_id
  pub table : IsSegment t.table_id

abbrev pub parts : TableReference → List Bytes
parts t =
    codes "projects"
    ∷ t.project_id
    ∷ codes "datasets"
    ∷ t.dataset_id
    ∷ codes "tables"
    ∷ t.table_id
    ∷ []

pub join-parts : (t : TableReference) → join (parts t) ≡ name t
unfolding join name
join-parts t = refl

pub split-name : (t : TableReference) → IsTable t → split (name t) ≡ parts t
unfolding name
split-name t h = split_then (codes "projects") _ (omega arith) (
    split_then t.project_id _ h.project.lacks (
      split_then (codes "datasets") _ (omega arith) (
        split_then t.dataset_id _ h.dataset.lacks
          (split_then (codes "tables") _ (omega arith) (split_whole t.table_id h.table.lacks)))))

-- Parsing the name of a table with valid segments gives the table back.
pub parse_table_name-name : (t : TableReference) → IsTable t → parse_table_name (name t) ≡ ok t
unfolding parse_table_name
parse_table_name-name t h = rw (split-name t h) (
    ground (
      arith,
      text_eq_refl (codes "projects"),
      text_eq_refl (codes "datasets"),
      text_eq_refl (codes "tables"),
    ))

abbrev Segments : TableReference → Type 0
Segments t =
    (valid_segment t.project_id ≡ true)
    × (valid_segment t.dataset_id ≡ true)
    × (valid_segment t.table_id ≡ true)

parse_parts-eq_ok :
    (ps : List Bytes) (t : TableReference) → parse_parts ps ≡ ok t → (ps ≡ parts t) × Segments t
unfolding parse_parts
parse_parts-eq_ok (p0 ∷ p1 ∷ p2 ∷ p3 ∷ p4 ∷ p5 ∷ []) t h = ground (
  arith,
  text_eq→eq p0 (codes "projects"),
  text_eq→eq p2 (codes "datasets"),
  text_eq→eq p4 (codes "tables"),
)
parse_parts-eq_ok _ t h = cc

IsTable-parts : (t : TableReference) → Segments t → All Lacks (parts t) → IsTable t
IsTable-parts t v l = record {
  project = record { valid = v.0; lacks = l.1.0 };
  dataset = record { valid = v.1; lacks = l.1.1.1.0 };
  table = record { valid = v.2; lacks = l.1.1.1.1.1.0 };
}

-- A name that ParseTableName accepts is the name of the table that it returns, whose segments are
-- valid.
pub parse_table_name_sound :
    (n : Bytes) (t : TableReference) → parse_table_name n ≡ ok t → (n ≡ name t) × IsTable t
unfolding parse_table_name
parse_table_name_sound n t h =
    let (e, v) = parse_parts-eq_ok (split n) t h in
    (
      sym (join-split n) ∙ ap join e ∙ join-parts t,
      IsTable-parts t v (subst (All Lacks) e (split-Lacks n)),
    )

abbrev streams : Bytes
streams = codes "/streams"

abbrev default_suffix : Bytes
default_suffix = codes "/_default"

cut-default :
    (t : TableReference)
    → cut_suffix default_suffix (default_stream t).canonical ≡ some (name t ++ streams)
unfolding default_stream
cut-default t =
    ap (cut_suffix default_suffix) (sym (append_assoc (name t) streams default_suffix))
    ∙ cut_suffix-append (name t ++ streams) default_suffix

-- The canonical name of a default stream is parsed as that default stream.
parse_default :
    (t : TableReference)
    → IsTable t
    → parse_stream_name (default_stream t).canonical ≡ ok (default_stream t)
unfolding parse_stream_name
parse_default t h =
    ap (parse_cut (default_stream t).canonical) (cut-default t)
    ∙ ap (λ x. as_default (parse_table_name x)) (trim_suffix-append (name t) streams)
    ∙ ap as_default (parse_table_name-name t h)

as_default-eq_ok :
    (r : Result String TableReference) (s : StreamName)
    → as_default r ≡ ok s
    → (t : TableReference) × (r ≡ ok t) × (s ≡ default_stream t)
as_default-eq_ok (ok t) s h = (t, refl, cc)
as_default-eq_ok (err m) s h = cc

parse_named-canonical :
    (n : Bytes) (ps : List Bytes) (s : StreamName) → parse_named n ps ≡ ok s → s.canonical ≡ n
unfolding parse_named
parse_named-canonical n (p0 ∷ p1 ∷ p2 ∷ p3 ∷ p4 ∷ p5 ∷ p6 ∷ p7 ∷ []) s h = ground arith
parse_named-canonical n _ s h = cc

-- Whatever ParseStreamName accepts, its canonical form is accepted with the same result.
pub parse_stream_name_idempotent :
    (n : Bytes) (s : StreamName) → parse_stream_name n ≡ ok s → parse_stream_name s.canonical ≡ ok s
unfolding parse_stream_name
parse_stream_name_idempotent n s h = elim (Option-cases (cut_suffix default_suffix n)) [
  | inl e ↦
      let same = parse_named-canonical n (split n) s (cut_case e) in ap parse_stream_name same ∙ h
  | inr (prefix, e) ↦
      let (t, p, d) =
        as_default-eq_ok (parse_table_name (trim_suffix prefix streams)) s (cut_case e) in
      rw d (parse_default t (parse_table_name_sound (trim_suffix prefix streams) t p).1)
]
  where
    cut_case : {o : Option Bytes} → cut_suffix default_suffix n ≡ o → parse_cut n o ≡ ok s
    cut_case e = ap (parse_cut n) (sym e) ∙ h
