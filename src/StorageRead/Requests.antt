-- ===== src/StorageRead/Requests.antt =====
-- The checks and records of CreateSession (internal/storageread/application/contracts.go and service.go):
-- which requests and snapshots are valid, and what a session holds.
use go_bemu.Base.{
  ℕ, ◌+◌, Bool, true, false, not, ◌&&◌, ◌||◌, Option, none, some, List, [], ◌∷◌, ◌++◌, String,
  nat_eq, ltb, length, is_empty, if◌then◌else◌,
}
use go_bemu.Words.{lt64}
use go_bemu.Text.{Bytes, codes}
use go_bemu.Exec.{Result, ok, err}
use go_bemu.StorageRead.Domain.{
  Format, format_unspecified, format_arrow, format_avro, MaterializeRequest, SnapshotMetadata,
  CreateSessionRequest, session_active,
}
use go_bemu.StorageRead.Contracts.{partition_streams, valid_parent, valid_table}
use go_bemu.StorageRead.Service.{SessionState, Config}

abbrev pub same_format : Format → Format → Bool
same_format format_unspecified format_unspecified = true
same_format format_arrow format_arrow = true
same_format format_avro format_avro = true
same_format _ _ = false

abbrev is_blank_name : (Bytes → Bytes) → List Bytes → Bool
is_blank_name trim [] = false
is_blank_name trim (f ∷ fs) = is_empty (trim f) || is_blank_name trim fs

-- validateCreateRequest; `trim` is strings.TrimSpace.
unfoldable pub validate_create_request :
    (Bytes → Bytes) → CreateSessionRequest → Result String (Unit {0})
validate_create_request trim q =
    if not (valid_parent q.parent)
    then err "parent must have the form projects/{project}"
    else if not (valid_table q.table)
    then err "table must have the form projects/{project}/datasets/{dataset}/tables/{table}"
    else if same_format q.format format_unspecified
    then err "data format must be ARROW or AVRO"
    else if ltb 256 (length q.trace_id)
    then err "trace ID exceeds 256 bytes"
    else if is_blank_name trim q.selected_fields
    then err "selected fields must not contain empty names"
    else ok tt

-- The metadata with the fingerprint of its schema.
abbrev pub fingerprinted : (Bytes → Bytes) → SnapshotMetadata → SnapshotMetadata
fingerprinted digest md = record md {
  schema = record (md.schema) { fingerprint = digest md.schema.serialized };
}

-- validateSnapshotMetadata; `valid_json` is json.Valid.
unfoldable pub validate_snapshot_metadata :
    (Bytes → Bool) → (Bytes → Bytes) → Format → SnapshotMetadata → Result String SnapshotMetadata
validate_snapshot_metadata valid_json digest format md =
    if lt64 md.row_count 0 || lt64 md.estimated_bytes 0 || lt64 md.retained_bytes 0
    then err "snapshot metadata contains a negative size"
    else if not (same_format md.schema.format format)
    then err "snapshot format does not match request"
    else if is_empty md.schema.serialized
    then err "snapshot reference schema is empty"
    else if same_format format format_avro && not (valid_json md.schema.serialized)
    then err "snapshot Avro reference schema is not JSON"
    else ok (fingerprinted digest md)

-- strings.TrimPrefix(s, prefix)
abbrev cut_prefix : Bytes → Bytes → Option Bytes
cut_prefix [] s = some s
cut_prefix (p ∷ ps) [] = none
cut_prefix (p ∷ ps) (c ∷ s) = let rest = cut_prefix ps s in if nat_eq p c then rest else none

abbrev pub trim_prefix : Bytes → Bytes → Bytes
trim_prefix s prefix = elim (cut_prefix prefix s) [ none ↦ s | some r ↦ r ]

-- fmt.Sprintf("projects/%s/locations/%s/sessions/%s", project, location, sessionID)
abbrev pub session_name : Bytes → Bytes → Bytes → Bytes
session_name parent location id =
    codes "projects/"
    ++ trim_prefix parent (codes "projects/")
    ++ codes "/locations/"
    ++ location
    ++ codes "/sessions/"
    ++ id

unfoldable pub materialize_request : CreateSessionRequest → MaterializeRequest
materialize_request q = record {
  table = q.table;
  format = q.format;
  selected_fields = q.selected_fields;
  row_restriction = q.row_restriction;
  snapshot_time = q.snapshot_time;
}

-- The session, its record and its state, at the time `now`; times are exact, not machine words.
unfoldable pub new_session_state :
    (Bytes → Bytes)
    → Config
    → CreateSessionRequest
    → ℕ
    → ℕ
    → SnapshotMetadata
    → Bytes
    → ℕ
    → SessionState
new_session_state digest config q count snapshot md id now =
    let name = session_name q.parent config.location id in
    let streams = partition_streams name md.row_count count in
    record {
      session = record {
        name = name;
        table = q.table;
        format = q.format;
        schema = md.schema;
        streams = streams;
        expire_time = now + config.session_ttl;
        estimated_row_count = md.row_count;
        estimated_bytes_scanned = md.estimated_bytes;
        selected_fields = q.selected_fields;
        row_restriction = q.row_restriction;
        snapshot_time = q.snapshot_time;
        trace_id = q.trace_id;
      };
      snapshot = snapshot;
      retained_bytes = md.retained_bytes;
      stored = record {
        name = name;
        table = q.table;
        format = q.format;
        selected_fields = q.selected_fields;
        row_restriction_digest = digest q.row_restriction;
        row_restriction_bytes = length q.row_restriction;
        streams = streams;
        created_at = now;
        expire_time = now + config.session_ttl;
        snapshot_time = q.snapshot_time;
        retained_row_count = md.row_count;
        retained_bytes = md.retained_bytes;
        estimated_bytes_scanned = md.estimated_bytes;
        schema_fingerprint = md.schema.fingerprint;
        lifecycle = session_active;
        lifecycle_updated_at = now;
      };
    }
