-- ===== src/StorageRead/Domain.antt =====
-- The types of internal/storageread/domain. Times are numbers of nanoseconds, sizes and offsets
-- int64 bit patterns.
use go_bemu.Base.{ℕ, String, Option, List}
use go_bemu.Text.{Bytes}
use go_bemu.Errors.{GoError, coded, message}

pub data ErrorCode : Type 0 where
  canceled deadline_exceeded invalid_argument not_found failed_precondition : ErrorCode
  resource_exhausted unavailable unimplemented internal : ErrorCode

abbrev pub Err : Type 0
Err = GoError ErrorCode

-- domain.NewError(code, operation, errors.New(text))
abbrev pub failed : ErrorCode → String → String → Err
failed c operation text = coded c operation (message text)

pub data Format : Type 0 where
  format_unspecified format_arrow format_avro : Format

pub record ReferenceSchema : Type 0 where
  pub format : Format
  pub serialized : Bytes
  pub fingerprint : Bytes

pub record MaterializeRequest : Type 0 where
  pub table : Bytes
  pub format : Format
  pub selected_fields : List Bytes
  pub row_restriction : Bytes
  pub snapshot_time : Option ℕ

pub record SnapshotMetadata : Type 0 where
  pub schema : ReferenceSchema
  pub row_count : ℕ
  pub estimated_bytes : ℕ
  pub retained_bytes : ℕ

pub record EncodedBatch : Type 0 where
  pub offset : ℕ
  pub row_count : ℕ
  pub serialized_rows : Bytes

pub record CreateSessionRequest : Type 0 where
  pub parent : Bytes
  pub table : Bytes
  pub format : Format
  pub selected_fields : List Bytes
  pub row_restriction : Bytes
  pub snapshot_time : Option ℕ
  pub max_stream_count : ℕ
  pub preferred_min_stream_count : ℕ
  pub trace_id : Bytes

pub record Stream : Type 0 where
  pub name : Bytes
  pub start_offset : ℕ
  pub end_offset : ℕ

pub record Session : Type 0 where
  pub name : Bytes
  pub table : Bytes
  pub format : Format
  pub schema : ReferenceSchema
  pub streams : List Stream
  pub expire_time : ℕ
  pub estimated_row_count : ℕ
  pub estimated_bytes_scanned : ℕ
  pub selected_fields : List Bytes
  pub row_restriction : Bytes
  pub snapshot_time : Option ℕ
  pub trace_id : Bytes

pub data SessionLifecycle : Type 0 where
  session_active session_expired session_unavailable : SessionLifecycle

pub record SessionRecord : Type 0 where
  pub name : Bytes
  pub table : Bytes
  pub format : Format
  pub selected_fields : List Bytes
  pub row_restriction_digest : Bytes
  pub row_restriction_bytes : ℕ
  pub streams : List Stream
  pub created_at : ℕ
  pub expire_time : ℕ
  pub snapshot_time : Option ℕ
  pub retained_row_count : ℕ
  pub retained_bytes : ℕ
  pub estimated_bytes_scanned : ℕ
  pub schema_fingerprint : Bytes
  pub lifecycle : SessionLifecycle
  pub lifecycle_updated_at : ℕ

pub record PersistedStream : Type 0 where
  pub name : Bytes
  pub session : Bytes
  pub lifecycle : SessionLifecycle
  pub expires_at : ℕ

pub record ReadRowsRequest : Type 0 where
  pub stream_name : Bytes
  pub offset : ℕ

-- A progress value is a fraction of the stream's rows, kept exact: the code divides as float64.
pub record Progress : Type 0 where
  pub done : ℕ
  pub total : ℕ

pub record ReadChunk : Type 0 where
  pub format : Format
  pub schema : Option ReferenceSchema
  pub batch : EncodedBatch
  pub progress_start : Progress
  pub progress_end : Progress
