-- ===== src/StorageRead/Admission.antt =====
-- The admission of read sessions (internal/storageread/application/admission.go): session slots and
-- the byte budget, which a reservation holds while its snapshot is made.
pub mod Budget
use go_bemu.Base.{
  ℕ, ◌+◌, Bool, true, false, not, ◌||◌, Option, none, some, List, [], ◌∷◌, String, nat_eq, ltb,
  length, if◌then◌else◌,
}
use go_bemu.Words.{add64, sub64, lt64}
use go_bemu.Text.{Bytes}
use go_bemu.Maps.{Map, lookup, put}
use go_bemu.Errors.{coded}
use go_bemu.Exec.{Result, ok, err}
use go_bemu.StorageRead.Domain.{
  Err, ErrorCode, failed, failed_precondition, resource_exhausted, internal, Stream,
}
use go_bemu.StorageRead.Service.{
  Config, SessionState, StreamState, Reservations, Service, Call, Env, Machine, context_error_code,
  classify_state_failure,
}

-- A reservation: its ID and its bytes.
abbrev pub Reservation : Type 0
Reservation = ℕ × ℕ

-- The IDs count up, so the list has each once: s.reservations[id] and delete(s.reservations, id)
unfoldable pub reserved : ℕ → Reservations → Option ℕ
reserved id [] = none
reserved id ((i, bytes) ∷ rs) = if nat_eq i id then some bytes else reserved id rs

unfoldable pub drop_reservation : ℕ → Reservations → Reservations
drop_reservation id [] = []
drop_reservation id ((i, bytes) ∷ rs) =
    let rest = drop_reservation id rs in if nat_eq i id then rs else (i, bytes) ∷ rest

-- Why a session is not admitted.
unfoldable pub rejection : Service → Option (ErrorCode × String)
rejection s =
    if s.closed
    then some (failed_precondition, "service_closed")
    else if not s.state_reconciled
    then some (failed_precondition, "state_not_reconciled")
    else if not (ltb (length s.sessions + length s.reservations) s.config.max_sessions)
    then some (resource_exhausted, "session_limit")
    else if lt64 (sub64 s.config.max_total_snapshot_bytes s.retained_snapshot_bytes)
        s.config.max_snapshot_bytes
    then some (resource_exhausted, "snapshot_byte_budget")
    else none

-- The service with the next reservation in it.
unfoldable pub add_reservation : Service → Service
add_reservation s = record s {
  next_reservation_id = add64 s.next_reservation_id 1;
  reservations = (add64 s.next_reservation_id 1, s.config.max_snapshot_bytes) ∷ s.reservations;
  retained_snapshot_bytes = add64 s.retained_snapshot_bytes s.config.max_snapshot_bytes;
}

abbrev pub admitted :
    String → Option (ErrorCode × String) → Service → Result Err Reservation × Service
admitted operation (some (code, reason)) s = (err (failed code operation reason), s)
admitted operation none s =
    (ok (add64 s.next_reservation_id 1, s.config.max_snapshot_bytes), add_reservation s)

-- reserveSession under a live context.
unfoldable pub reserve_session : String → Service → Result Err Reservation × Service
reserve_session operation s = admitted operation (rejection s) s

-- releaseReservation
abbrev pub returned : ℕ → Option ℕ → Service → Service
returned id none s = s
returned id (some bytes) s = record s {
  retained_snapshot_bytes =
      if lt64 s.retained_snapshot_bytes bytes then 0 else sub64 s.retained_snapshot_bytes bytes;
  reservations = drop_reservation id s.reservations;
}

unfoldable pub release_reservation : ℕ → Service → Service
release_reservation id s = returned id (reserved id s.reservations) s

-- The streams of a session enter the registry.
unfoldable pub put_streams : SessionState → List Stream → Map StreamState → Map StreamState
put_streams st [] m = m
put_streams st (x ∷ xs) m = put_streams st xs (put x.name (record { session = st; stream = x }) m)

-- What stops a reserved session from being stored.
unfoldable pub commit_refusal : String → SessionState → Option ℕ → Service → Option Err
commit_refusal operation st none s =
    if s.closed
    then some
        (failed failed_precondition operation "Storage Read service closed before session commit")
    else some (failed internal operation "session reservation was lost")
commit_refusal operation st (some bytes) s =
    if s.closed
    then some (failed failed_precondition operation "Storage Read service is closed")
    else if lt64 bytes st.retained_bytes
    then some (failed resource_exhausted operation "snapshot exceeds reserved byte limit")
    else elim (lookup st.session.name s.sessions) [
      | none ↦ none
      | some other ↦ some (failed internal operation "session ID already exists")
    ]

-- The reservation turns into the session.
unfoldable pub store_session : ℕ → ℕ → SessionState → Service → Service
store_session id bytes st s = record s {
  retained_snapshot_bytes = add64 (sub64 s.retained_snapshot_bytes bytes) st.retained_bytes;
  reservations = drop_reservation id s.reservations;
  sessions = put st.session.name st s.sessions;
  streams = put_streams st st.session.streams s.streams;
}

module _ {W : Type 0} (env : Env W) where
  abbrev pub persisted :
      ℕ → ℕ → SessionState → Service → Option Err × W → Result Err (Unit {0}) × Machine W
  persisted id bytes st s (some e, w) = (
    err (classify_state_failure "storage_read.persist_session" e),
    record { service = s; world = w },
  )
  persisted id bytes st s (none, w) =
      (ok tt, record { service = store_session id bytes st s; world = w })

  -- A lost reservation always brings a refusal.
  abbrev pub commit_checked :
      ℕ → Option ℕ → SessionState → Option Err → Machine W → Result Err (Unit {0}) × Machine W
  commit_checked id none st (some e) m = (err e, m)
  commit_checked id none st none m = (ok tt, m)
  commit_checked id (some bytes) st (some e) m = (err e, m)
  commit_checked id (some bytes) st none m =
      persisted id bytes st m.service (env.create_session st.stored m.world)

  -- commitReservedSession: the session is persisted before it shows.
  unfoldable pub commit_reserved_session :
      String → ℕ → SessionState → Machine W → Result Err (Unit {0}) × Machine W
  commit_reserved_session operation id st m =
      let bytes = reserved id m.service.reservations in
      commit_checked id bytes st (commit_refusal operation st bytes m.service) m

-- releaseSnapshotBudget, for a session of that many retained bytes.
unfoldable pub release_snapshot_budget : ℕ → Service → Service
release_snapshot_budget bytes s = record s {
  retained_snapshot_bytes =
      if lt64 s.retained_snapshot_bytes bytes then 0 else sub64 s.retained_snapshot_bytes bytes;
}
