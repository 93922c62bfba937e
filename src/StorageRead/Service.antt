-- ===== src/StorageRead/Service.antt =====
-- The state of the Storage Read service (internal/storageread/application/service.go, config.go)
-- and the ports that it calls, as functions on the state W of the world behind them. A snapshot and
-- a batch iterator are handles, whose content the world has. `context_error` is ctx.Err(), `digest`
-- the "sha256:..." text of a byte sequence, `valid_json` json.Valid and `trim_space` strings.TrimSpace.
use go_bemu.Base.{ℕ, Bool, ◌||◌, Option, List, String, if◌then◌else◌}
use go_bemu.Text.{Bytes}
use go_bemu.Maps.{Map}
use go_bemu.Errors.{coded, is, Sentinel}
use go_bemu.Exec.{Result}
use go_bemu.StorageRead.Domain.{
  Err, ErrorCode, canceled, deadline_exceeded, failed_precondition, unavailable, Stream, Session,
  SessionLifecycle, SessionRecord, PersistedStream, SnapshotMetadata, MaterializeRequest,
  EncodedBatch,
}

pub record Config : Type 0 where
  pub location : Bytes
  pub max_streams : ℕ
  pub default_stream_count : ℕ
  pub session_ttl : ℕ
  pub cleanup_interval : ℕ
  pub max_rows_per_response : ℕ
  pub max_sessions : ℕ
  pub max_snapshot_bytes : ℕ
  pub max_total_snapshot_bytes : ℕ

pub record SessionState : Type 0 where
  pub session : Session
  pub snapshot : ℕ
  pub retained_bytes : ℕ
  pub stored : SessionRecord

-- A stream of the registry, with the name of the session that it belongs to.
pub record StreamState : Type 0 where
  pub session : SessionState
  pub stream : Stream

-- sessionReservation, by its ID; `cancel` and `done` only wake goroutines.
abbrev pub Reservations : Type 0
Reservations = List (ℕ × ℕ)

pub record Service : Type 0 where
  pub config : Config
  pub sessions : Map SessionState
  pub streams : Map StreamState
  pub reservations : Reservations
  pub next_reservation_id : ℕ
  pub retained_snapshot_bytes : ℕ
  pub closed : Bool
  pub state_reconciled : Bool

abbrev pub Call : Type 0 → Type 0
Call W = W → Option Err × W

pub record Env (W : Type 0) : Type 0 where
  pub now : W → ℕ × W
  pub new_id : W → Bytes × W
  pub context_error : W → Option Err
  pub materialize : MaterializeRequest → W → Result Err (Option ℕ) × W
  pub metadata : ℕ → W → SnapshotMetadata
  pub open_range : ℕ → ℕ → ℕ → ℕ → W → Result Err (Option ℕ) × W
  pub close_snapshot : ℕ → Call W
  pub next : ℕ → W → Result Err EncodedBatch × W
  pub close_iterator : ℕ → Call W
  pub create_session : SessionRecord → Call W
  pub transition_sessions : List Bytes → SessionLifecycle → SessionLifecycle → ℕ → Call W
  pub reconcile_active : ℕ → W → Result Err ℕ × W
  pub get_stream : Bytes → W → Result Err PersistedStream × W
  pub digest : Bytes → Bytes
  pub valid_json : Bytes → Bool
  pub trim_space : Bytes → Bytes

pub record Machine (W : Type 0) : Type 0 where
  pub service : Service
  pub world : W

unfoldable pub context_error_code : Err → ErrorCode
context_error_code e = if is e Sentinel.deadline_exceeded then deadline_exceeded else canceled

unfoldable pub classify_state_failure : String → Err → Err
classify_state_failure operation e =
    if is e Sentinel.canceled || is e Sentinel.deadline_exceeded
    then coded (context_error_code e) operation e
    else if is e Sentinel.session_state_conflict
    then coded failed_precondition operation e
    else coded unavailable operation e
