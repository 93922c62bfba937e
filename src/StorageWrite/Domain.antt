-- ===== src/StorageWrite/Domain.antt =====
-- The stream ledger's data: internal/storagewrite/domain (write.go, state.go, errors.go) and the
-- requests of ports/coordinator.go. An int64 is a bit pattern (Words); a time is a number of
-- nanoseconds since Go's zero time.
use go_bemu.Base.{ℕ, Bool, true, false, Option, List, String}
use go_bemu.Text.{Bytes}
use go_bemu.Errors.{GoError, message, coded}
use go_bemu.Catalog.Fields.{Fields}
use go_bemu.StorageWrite.Names.{TableReference}

pub data ErrorCode : Type 0 where
  invalid_argument not_found failed_precondition resource_exhausted canceled : ErrorCode
  deadline_exceeded already_exists out_of_range unimplemented internal : ErrorCode

abbrev pub Err : Type 0
Err = GoError ErrorCode

-- domain.NewError(code, operation, errors.New(text))
abbrev pub failed : ErrorCode → String → String → Err
failed code operation text = coded code operation (message text)

pub data StreamType : Type 0 where
  default pending : StreamType

pub data StreamState : Type 0 where
  open_state finalized committed : StreamState

pub data OperationKind : Type 0 where
  no_operation append_operation commit_operation : OperationKind

pub data OperationPhase : Type 0 where
  phase_none phase_prepared phase_unresolved : OperationPhase

pub data CleanupPhase : Type 0 where
  cleanup_active cleanup_pending cleanup_discarded : CleanupPhase

pub data ReceiptPhase : Type 0 where
  receipt_prepared receipt_unresolved receipt_applied : ReceiptPhase

pub data CommitPhase : Type 0 where
  commit_prepared commit_unresolved commit_applied commit_aborted : CommitPhase

abbrev pub is_default : StreamType → Bool
is_default default = true
is_default pending = false

abbrev pub is_pending : StreamType → Bool
is_pending pending = true
is_pending default = false

abbrev pub is_open : StreamState → Bool
is_open open_state = true
is_open _ = false

abbrev pub is_finalized : StreamState → Bool
is_finalized finalized = true
is_finalized _ = false

abbrev pub is_committed : StreamState → Bool
is_committed committed = true
is_committed _ = false

abbrev pub is_active : CleanupPhase → Bool
is_active cleanup_active = true
is_active _ = false

abbrev pub is_cleanup_pending : CleanupPhase → Bool
is_cleanup_pending cleanup_pending = true
is_cleanup_pending _ = false

abbrev pub is_idle : OperationKind → Bool
is_idle no_operation = true
is_idle _ = false

abbrev pub is_appending : OperationKind → Bool
is_appending append_operation = true
is_appending _ = false

abbrev pub is_committing : OperationKind → Bool
is_committing commit_operation = true
is_committing _ = false

abbrev pub is_prepared : OperationPhase → Bool
is_prepared phase_prepared = true
is_prepared _ = false

pub record WriteStream : Type 0 where
  pub name : Bytes
  pub parent : TableReference
  pub kind : StreamType
  pub state : StreamState
  pub create_time : ℕ
  pub commit_time : Option ℕ
  pub location : Bytes
  pub schema : Fields
  pub row_count : ℕ
  pub next_offset : ℕ
  pub schema_fingerprint : Bytes
  pub last_activity : ℕ

pub record CreateStreamRequest : Type 0 where
  pub parent : TableReference
  pub kind : StreamType

pub record AppendRequest : Type 0 where
  pub stream_name : Bytes
  pub offset : Option ℕ
  pub descriptor : Bytes
  pub rows : List Bytes
  pub payload_bytes : ℕ
  pub wire_bytes : ℕ
  pub schema_fingerprint : Bytes
  pub payload_digest : Bytes
  pub trace_id : Bytes

pub record AppendResult : Type 0 where
  pub stream_name : Bytes
  pub start_offset : ℕ
  pub has_offset : Bool
  pub row_count : ℕ

pub record StreamRecord : Type 0 where
  pub stream : WriteStream
  pub operation : OperationKind
  pub operation_phase : OperationPhase
  pub operation_token : Bytes
  pub cleanup_phase : CleanupPhase
  pub cleanup_attempts : ℕ
  pub revision : ℕ

pub record AppendReceipt : Type 0 where
  pub stream_name : Bytes
  pub start_offset : ℕ
  pub row_count : ℕ
  pub schema_fingerprint : Bytes
  pub payload_digest : Bytes
  pub phase : ReceiptPhase
  pub created_at : ℕ
  pub updated_at : ℕ

pub record CommitMember : Type 0 where
  pub stream_name : Bytes
  pub expected_row_count : ℕ

pub record CommitGroup : Type 0 where
  pub id : Bytes
  pub parent : TableReference
  pub members : List CommitMember
  pub expected_row_count : ℕ
  pub phase : CommitPhase
  pub created_at : ℕ
  pub updated_at : ℕ
  pub commit_time : Option ℕ

pub record StartupSnapshot : Type 0 where
  pub streams : List StreamRecord
  pub receipts : List AppendReceipt
  pub commit_groups : List CommitGroup

pub data StreamErrorCode : Type 0 where
  stream_already_committed stream_not_found invalid_stream_type : StreamErrorCode
  invalid_stream_state stream_finalized offset_already_exists offset_out_of_range : StreamErrorCode

pub record StreamError : Type 0 where
  pub code : StreamErrorCode
  pub stream : Bytes
  pub text : String

pub record BatchCommitResult : Type 0 where
  pub commit_time : Option ℕ
  pub stream_errors : List StreamError

pub record AppendBatch : Type 0 where
  pub stream_name : Bytes
  pub table : TableReference
  pub start_offset : ℕ
  pub wire_bytes : ℕ
  pub descriptor : Bytes
  pub rows : List Bytes
  pub schema_fingerprint : Bytes
  pub payload_digest : Bytes
  pub trace_id : Bytes

pub record CommitRequest : Type 0 where
  pub parent : TableReference
  pub stream_names : List Bytes
  pub group_id : Bytes
  pub expected_row_counts : List (Bytes × ℕ)
