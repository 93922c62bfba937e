-- ===== src/StorageRead/Session.antt =====
-- CreateSession (internal/storageread/application/service.go): a request is checked and admitted, its
-- snapshot made and checked, and the session stored. While the snapshot is made, other callers use
-- the service: `others` are their operations.
pub mod Stored
pub mod Accepted
pub mod Refused
use go_bemu.Base.{
  ℕ, ◌+◌, Bool, true, false, not, ◌&&◌, ◌||◌, Option, none, some, List, [], ◌∷◌, ◌++◌, String,
  nat_eq, ltb, length, is_empty, if◌then◌else◌,
}
use go_bemu.Words.{add64, lt64}
use go_bemu.Text.{Bytes, codes}
use go_bemu.Errors.{coded, message, wrapped, join, joined, is, as_coded, Sentinel}
use go_bemu.Exec.{Result, ok, err, Exec, ◌>>=◌, pure, raise}
use go_bemu.StorageRead.Domain.{
  Err, ErrorCode, failed, invalid_argument, failed_precondition, resource_exhausted, internal,
  Format, format_unspecified, format_arrow, format_avro, ReferenceSchema, MaterializeRequest,
  SnapshotMetadata, CreateSessionRequest, Session, SessionRecord, session_active, Stream,
}
use go_bemu.StorageRead.Contracts.{
  negotiate_stream_count, partition_streams, valid_parent, valid_table, valid_resource_segment,
}
use go_bemu.StorageRead.Service.{SessionState, Service, Env, Machine, Config, context_error_code}
use go_bemu.StorageRead.Admission.{
  Reservation, reserve_session, commit_reserved_session, release_reservation,
}
use go_bemu.StorageRead.Requests.{
  validate_create_request, validate_snapshot_metadata, materialize_request, new_session_state,
}
use go_bemu.StorageRead.Lifecycle.{Operation, perform_all}

abbrev pub operation : String
operation = "storage_read.create_session"

abbrev pub code_or : Option ErrorCode → ErrorCode
code_or none = internal
code_or (some c) = c

-- classifyMaterializationFailure: the caller's context error comes first, then a shutdown.
unfoldable pub classify_materialization_failure : Bool → Option Err → Err → Err
classify_materialization_failure closed context e =
    if is e Sentinel.canceled || is e Sentinel.deadline_exceeded
    then elim context [
      | some c ↦ coded (context_error_code c) operation c
      | none ↦
          if closed
          then coded failed_precondition operation
              (wrapped "Storage Read service closed during materialization" e)
          else coded (code_or (as_coded e)) operation e
    ]
    else coded (code_or (as_coded e)) operation e

-- reserveSession, with its test of the context.
unfoldable pub reserve_live : Option Err → Service → Result Err Reservation × Service
reserve_live (some e) s = (err (coded (context_error_code e) operation e), s)
reserve_live none s = reserve_session operation s

abbrev pub Handler : Type 0 → Type 0 → Type 0
Handler W A = Exec (Machine W) Err A

module _ {W : Type 0} (env : Env W) where
  -- The snapshot is closed again, and the error carries that of closing it.
  unfoldable pub discard : {A : Type 0} → ErrorCode → Err → ℕ → Handler W A
  discard code e snapshot m =
      let (c, w) = env.close_snapshot snapshot m.world in
      (
        err (coded code operation (elim c [ none ↦ e | some x ↦ joined e x ])),
        record m { world = w },
      )

  abbrev pub materialized : Result Err (Option ℕ) → Handler W ℕ
  materialized (err e) m =
      (err (classify_materialization_failure m.service.closed (env.context_error m.world) e), m)
  materialized (ok none) m =
      (err (failed internal operation "materializer returned a nil snapshot"), m)
  materialized (ok (some snapshot)) m = (ok snapshot, m)

  unfoldable pub materialize_snapshot : List Operation → CreateSessionRequest → Handler W ℕ
  materialize_snapshot others q m =
      let (r, w) = env.materialize (materialize_request q) m.world in
      materialized r (perform_all env others (record m { world = w }))

  abbrev pub bounded : ℕ → Result String SnapshotMetadata → Handler W SnapshotMetadata
  bounded snapshot (err text) m = discard internal (message text) snapshot m
  bounded snapshot (ok md) m =
      if lt64 m.service.config.max_snapshot_bytes md.retained_bytes
      then discard resource_exhausted
          (message "snapshot retained bytes exceed configured per-session limit") snapshot m
      else (ok md, m)

  unfoldable pub check_snapshot : Format → ℕ → Handler W SnapshotMetadata
  check_snapshot format snapshot m =
      bounded snapshot
        (validate_snapshot_metadata env.valid_json env.digest format
          (env.metadata snapshot m.world))
        m

  abbrev pub stored_or_discarded :
      SessionState → Result Err (Unit {0}) × Machine W → Result Err Session × Machine W
  stored_or_discarded st (ok _, m) = (ok st.session, m)
  stored_or_discarded st (err e, m) = discard (code_or (as_coded e)) e st.snapshot m

  -- The session under a generated ID.
  unfoldable pub store_named :
      CreateSessionRequest → ℕ → ℕ → ℕ → SnapshotMetadata → Bytes → Handler W Session
  store_named q count reservation snapshot md id m =
      let (now, w) = env.now m.world in
      let st = new_session_state env.digest m.service.config q count snapshot md id now in
      if not (valid_resource_segment id)
      then discard internal (message "ID generator returned an invalid resource segment") snapshot m
      else stored_or_discarded st
          (commit_reserved_session env operation reservation st (record m { world = w }))

  unfoldable pub store_snapshot :
      CreateSessionRequest → ℕ → ℕ → ℕ → SnapshotMetadata → Handler W Session
  store_snapshot q count reservation snapshot md m =
      let (id, w) = env.new_id m.world in
      store_named q count reservation snapshot md id (record m { world = w })

  -- What CreateSession does with its reservation.
  abbrev pub fill_reservation : List Operation → CreateSessionRequest → ℕ → ℕ → Handler W Session
  fill_reservation others q count reservation = do
    snapshot ← materialize_snapshot others q
    md ← check_snapshot q.format snapshot
    store_snapshot q count reservation snapshot md

  -- The deferred release, unless the session was committed.
  abbrev pub release_unless_committed :
      ℕ → Result Err Session × Machine W → Result Err Session × Machine W
  release_unless_committed id (ok s, m) = (ok s, m)
  release_unless_committed id (err e, m) =
      (err e, record m { service = release_reservation id m.service })

  abbrev pub admitted_session :
      List Operation
      → CreateSessionRequest
      → ℕ
      → Result Err Reservation × Service
      → W
      → Result Err Session × Machine W
  admitted_session others q count (err e, s) w = (err e, record { service = s; world = w })
  admitted_session others q count (ok (id, bytes), s) w =
      release_unless_committed id
        (fill_reservation others q count id (record { service = s; world = w }))

  abbrev pub negotiated_session :
      List Operation → CreateSessionRequest → Result String ℕ → Handler W Session
  negotiated_session others q (err text) m = (err (failed invalid_argument operation text), m)
  negotiated_session others q (ok count) m =
      admitted_session others q count (reserve_live (env.context_error m.world) m.service) m.world

  abbrev pub checked_session :
      List Operation → CreateSessionRequest → Result String (Unit {0}) → Handler W Session
  checked_session others q (err text) m = (err (failed invalid_argument operation text), m)
  checked_session others q (ok _) m =
      negotiated_session others q
        (negotiate_stream_count m.service.config.max_streams m.service.config.default_stream_count
          q.max_stream_count q.preferred_min_stream_count)
        m

  unfoldable pub create_session : List Operation → CreateSessionRequest → Handler W Session
  create_session others q m = checked_session others q (validate_create_request env.trim_space q) m
