-- ===== src/StorageWrite/Names.antt =====
-- Resource names of internal/storagewrite/domain/write.go: tables and write streams.
pub mod RoundTrip
pub mod Alias
use go_bemu.Base.{
  String, Bool, true, false, not, ◌&&◌, ◌||◌, Option, none, some, List, [], ◌∷◌, ◌++◌, is_empty,
  if◌then◌else◌,
}
use go_bemu.Text.{Bytes, codes, text_eq, split, cut_suffix, trim_suffix, join}
use go_bemu.Exec.{Result, ok, err}

pub record TableReference : Type 0 where
  pub project_id : Bytes
  pub dataset_id : Bytes
  pub table_id : Bytes

unfoldable pub table_eq : TableReference → TableReference → Bool
table_eq a b =
    text_eq a.project_id b.project_id
    && (text_eq a.dataset_id b.dataset_id && text_eq a.table_id b.table_id)

-- TableReference.Name
unfoldable pub name : TableReference → Bytes
name r =
    codes "projects/"
    ++ (r.project_id ++ (codes "/datasets/" ++ (r.dataset_id ++ (codes "/tables/" ++ r.table_id))))

-- resourceSegmentPattern, `^[^/]+$`, at a part of a Split: no '/' is left to exclude.
unfoldable pub segment_matches : Bytes → Bool
segment_matches s = not (is_empty s)

unfoldable pub valid_segment : Bytes → Bool
unfolding segment_matches
valid_segment s = segment_matches s && (not (text_eq s (codes ".")) && not (text_eq s (codes "..")))

unfoldable pub parse_parts : List Bytes → Result String TableReference
parse_parts (p0 ∷ p1 ∷ p2 ∷ p3 ∷ p4 ∷ p5 ∷ []) =
    if text_eq p0 (codes "projects")
      && (text_eq p2 (codes "datasets") && text_eq p4 (codes "tables"))
    then (if valid_segment p1 && (valid_segment p3 && valid_segment p5)
        then ok (record { project_id = p1; dataset_id = p3; table_id = p5 })
        else err "invalid table resource segment")
    else err "invalid table resource"
parse_parts _ = err "invalid table resource"

-- ParseTableName
unfoldable pub parse_table_name : Bytes → Result String TableReference
unfolding parse_parts
parse_table_name n = parse_parts (split n)

pub record StreamName : Type 0 where
  pub table : TableReference
  pub canonical : Bytes
  pub is_default : Bool

unfoldable pub default_stream : TableReference → StreamName
default_stream t = record {
  table = t;
  canonical = name t ++ codes "/streams/_default";
  is_default = true;
}

abbrev pub as_default : Result String TableReference → Result String StreamName
as_default (ok t) = ok (default_stream t)
as_default (err m) = err m

abbrev pub as_named : Bytes → Result String TableReference → Result String StreamName
as_named n (ok t) = ok (record { table = t; canonical = n; is_default = false })
as_named n (err m) = err m

-- The eight parts of a name that does not end in "/_default".
unfoldable pub parse_named : Bytes → List Bytes → Result String StreamName
parse_named n (p0 ∷ p1 ∷ p2 ∷ p3 ∷ p4 ∷ p5 ∷ p6 ∷ p7 ∷ []) =
    if text_eq p6 (codes "streams") && segment_matches p7
    then as_named n (parse_table_name (join (p0 ∷ p1 ∷ p2 ∷ p3 ∷ p4 ∷ p5 ∷ [])))
    else err "invalid write stream resource"
parse_named n _ = err "invalid write stream resource"

-- The branch on the default suffix, with what is left when it is cut.
unfoldable pub parse_cut : Bytes → Option Bytes → Result String StreamName
unfolding parse_named
parse_cut n (some prefix) = as_default (parse_table_name (trim_suffix prefix (codes "/streams")))
parse_cut n none = parse_named n (split n)

-- ParseStreamName
unfoldable pub parse_stream_name : Bytes → Result String StreamName
unfolding parse_cut
parse_stream_name n = parse_cut n (cut_suffix (codes "/_default") n)
