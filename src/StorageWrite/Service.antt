-- ===== src/StorageWrite/Service.antt =====
-- The state of internal/storagewrite/application (service.go, state.go, config.go), its error
-- classification, and the calls that leave the service.
use go_bemu.Base.{ℕ, Bool, ◌||◌, Option, none, some, String, if◌then◌else◌}
use go_bemu.Text.{Bytes}
use go_bemu.Errors.{is, coded, joined, Sentinel}
use go_bemu.Exec.{Exec, Result, ok, err}
use go_bemu.Maps.{Map}
use go_bemu.StorageWrite.Domain.{
  ErrorCode, invalid_argument, failed_precondition, resource_exhausted, canceled, deadline_exceeded,
  internal, Err, WriteStream, OperationKind, OperationPhase, CleanupPhase, cleanup_active,
  cleanup_pending, StreamRecord, AppendReceipt, ReceiptPhase, CommitGroup,
}
use go_bemu.StorageWrite.Ports.{Call, Env}

pub record Config : Type 0 where
  pub location : Bytes
  pub max_streams : ℕ
  pub max_append_bytes : ℕ
  pub max_append_envelope_bytes : ℕ
  pub max_concurrent_append_requests : ℕ
  pub orphan_ttl : ℕ
  pub cleanup_interval : ℕ

-- appendReceipt
pub record PendingReceipt : Type 0 where
  pub start_offset : ℕ
  pub row_count : ℕ
  pub schema_fingerprint : Bytes
  pub payload_digest : Bytes
  pub phase : ReceiptPhase
  pub created_at : ℕ
  pub updated_at : ℕ

-- streamState
pub record StreamEntry : Type 0 where
  pub stream : WriteStream
  pub descriptor : Bytes
  pub unacknowledged : Option PendingReceipt
  pub cleanup_phase : CleanupPhase
  pub cleanup_attempts : ℕ
  pub operation : OperationKind
  pub operation_phase : OperationPhase
  pub operation_token : Bytes
  pub revision : ℕ

pub record Service : Type 0 where
  pub config : Config
  pub streams : Map StreamEntry
  pub commit_groups : Map CommitGroup
  pub closed : Bool
  pub state_reconciled : Bool
  pub pending : ℕ

-- A service, or one of its streams under that stream's mutex, with the world behind the ports.
pub record Machine (W : Type 0) : Type 0 where
  pub service : Service
  pub world : W

pub record Locked (W : Type 0) : Type 0 where
  pub entry : StreamEntry
  pub world : W

-- streamRecord
unfoldable pub stream_record : StreamEntry → StreamRecord
stream_record e = record {
  stream = e.stream;
  operation = e.operation;
  operation_phase = e.operation_phase;
  operation_token = e.operation_token;
  cleanup_phase = elim e.cleanup_phase [ cleanup_pending ↦ cleanup_pending | _ ↦ cleanup_active ];
  cleanup_attempts = e.cleanup_attempts;
  revision = e.revision;
}

-- appendReceiptRecord
unfoldable pub append_receipt_record : Bytes → PendingReceipt → ReceiptPhase → ℕ → ℕ → AppendReceipt
append_receipt_record name r phase created_at updated_at = record {
  stream_name = name;
  start_offset = r.start_offset;
  row_count = r.row_count;
  schema_fingerprint = r.schema_fingerprint;
  payload_digest = r.payload_digest;
  phase = phase;
  created_at = created_at;
  updated_at = updated_at;
}

unfoldable pub classify_state_error : String → Err → Err
classify_state_error operation e =
    if is e Sentinel.canceled
    then coded canceled operation e
    else if is e Sentinel.deadline_exceeded
    then coded deadline_exceeded operation e
    else if is e Sentinel.state_conflict
        || (is e Sentinel.receipt_conflict || is e Sentinel.commit_group_conflict)
    then coded failed_precondition operation e
    else coded internal operation e

unfoldable pub coordinator_error_code : Err → ErrorCode → ErrorCode
coordinator_error_code e fallback =
    if is e Sentinel.canceled
    then canceled
    else if is e Sentinel.queue_wait_timeout || is e Sentinel.resource_exhausted
    then resource_exhausted
    else if is e Sentinel.operation_timeout || is e Sentinel.deadline_exceeded
    then deadline_exceeded
    else if is e Sentinel.invalid_rows
    then invalid_argument
    else fallback

unfoldable pub append_outcome_is_ambiguous : Err → Bool
append_outcome_is_ambiguous e =
    is e Sentinel.operation_timeout || (is e Sentinel.deadline_exceeded || is e Sentinel.canceled)

-- A guard of a handler: the first error that it found, if any.
abbrev pub reject : {S : Type 0} → Option Err → Exec S Err (Unit {0})
reject none s = (ok tt, s)
reject (some e) s = (err e, s)

-- The error of a repository call, joined behind the error that led to it.
abbrev after : Option Err → Err → Err
after none e = e
after (some cause) e = joined cause e

module _ {W : Type 0} where
  abbrev settle :
      String → Option Err → StreamEntry → Option Err × W → Result Err (Unit {0}) × Locked W
  settle operation cause entry (none, w) = (ok tt, record { entry = entry; world = w })
  settle operation cause entry (some e, w) =
      (err (classify_state_error operation (after cause e)), record { entry = entry; world = w })

  -- A call of the state repository: its error is classified and returned.
  abbrev pub persist : String → Option Err → Call W → Exec (Locked W) Err (Unit {0})
  persist operation cause call l = settle operation cause l.entry (call l.world)

  abbrev pub clock : Env W → Exec (Locked W) Err ℕ
  clock env l = let (t, w) = env.now l.world in (ok t, record l { world = w })

  abbrev pub get_entry : Exec (Locked W) Err StreamEntry
  get_entry l = (ok l.entry, l)

  abbrev pub modify : (StreamEntry → StreamEntry) → Exec (Locked W) Err (Unit {0})
  modify f l = (ok tt, record l { entry = f l.entry })
