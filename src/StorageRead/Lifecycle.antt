-- ===== src/StorageRead/Lifecycle.antt =====
-- Expiry and shutdown of the Storage Read service (internal/storageread/application/lifecycle.go)
-- and the reconciliation at its start (session_state.go).
pub mod Budget
use go_bemu.Base.{
  ℕ, ◌<◌, Bool, true, false, Option, none, some, List, [], ◌∷◌, String, ltb, is_empty, map,
  if◌then◌else◌,
}
use go_bemu.Text.{Bytes}
use go_bemu.Maps.{Map, remove}
use go_bemu.Errors.{join, message}
use go_bemu.Words.{half64, lt64}
use go_bemu.Exec.{Result, ok, err}
use go_bemu.StorageRead.Domain.{
  Err, failed, failed_precondition, Stream, SessionLifecycle, session_active, session_expired,
  session_unavailable,
}
use go_bemu.StorageRead.Service.{
  SessionState, StreamState, Service, Reservations, Call, Env, Machine, classify_state_failure,
}
use go_bemu.StorageRead.Admission.{
  reserve_session, commit_reserved_session, release_reservation, release_snapshot_budget,
}

-- The sessions whose expiry is `now` or before, and the others.
unfoldable pub expired_at : ℕ → Map SessionState → Map SessionState
expired_at now [] = []
expired_at now ((k, st) ∷ m) =
    let rest = expired_at now m in if ltb now st.session.expire_time then rest else (k, st) ∷ rest

unfoldable pub live_at : ℕ → Map SessionState → Map SessionState
live_at now [] = []
live_at now ((k, st) ∷ m) =
    let rest = live_at now m in if ltb now st.session.expire_time then (k, st) ∷ rest else rest

abbrev pub session_names : Map SessionState → List Bytes
session_names [] = []
session_names ((k, st) ∷ m) = st.session.name ∷ session_names m

unfoldable pub drop_streams : List Stream → Map StreamState → Map StreamState
drop_streams [] m = m
drop_streams (x ∷ xs) m = drop_streams xs (remove x.name m)

unfoldable pub drop_all_streams : Map SessionState → Map StreamState → Map StreamState
drop_all_streams [] m = m
drop_all_streams ((k, st) ∷ ss) m = drop_all_streams ss (drop_streams st.session.streams m)

-- Every reservation of a list is released.
unfoldable pub release_all : Reservations → Service → Service
release_all [] s = s
release_all ((id, bytes) ∷ rs) s = release_all rs (release_reservation id s)

-- "snapshot budget underflow" if the budget does not hold the bytes to release.
abbrev pub budget_error : ℕ → Service → Option Err
budget_error bytes s =
    if lt64 s.retained_snapshot_bytes bytes
    then some (message "snapshot budget underflow")
    else none

-- The service without its expired sessions.
abbrev pub without_expired : ℕ → Service → Service
without_expired now s = record s {
  sessions = live_at now s.sessions;
  streams = drop_all_streams (expired_at now s.sessions) s.streams;
}

abbrev pub shut : Service → Service
shut s = record s { closed = true; sessions = []; streams = [] }

module _ {W : Type 0} (env : Env W) where
  -- transitionSessions
  abbrev classify : Option Err → Option Err
  classify none = none
  classify (some e) = some (classify_state_failure "storage_read.transition_sessions" e)

  unfoldable pub transition_sessions : List Bytes → SessionLifecycle → ℕ → Call W
  transition_sessions [] to time w = (none, w)
  transition_sessions (n ∷ ns) to time w =
      let (e, w') = env.transition_sessions (n ∷ ns) session_active to time w in (classify e, w')

  -- closeSnapshots: every snapshot is closed and gives its bytes back, whatever the others' errors.
  unfoldable pub close_snapshots :
      Option Err → Map SessionState → Machine W → Option Err × Machine W
  close_snapshots result [] m = (result, m)
  close_snapshots result ((k, st) ∷ ss) m =
      let (e, w) = env.close_snapshot st.snapshot m.world in
      let b = budget_error st.retained_bytes m.service in
      close_snapshots (join (join result e) b) ss
        (record { service = release_snapshot_budget st.retained_bytes m.service; world = w })

  abbrev pub swept : ℕ → Service → Option Err × W → Option Err × Machine W
  swept now s (some e, w) = (some e, record { service = s; world = w })
  swept now s (none, w) =
      close_snapshots none (expired_at now s.sessions)
        (record { service = without_expired now s; world = w })

  unfoldable pub sweep_expired : Machine W → Option Err × Machine W
  sweep_expired m =
      let (now, w) = env.now m.world in
      let names = session_names (expired_at now m.service.sessions) in
      swept now m.service (transition_sessions names session_expired now w)

  -- Close, up to the wait for the running materializations.
  unfoldable pub close : Machine W → Option Err × Machine W
  close m =
      let (now, w) = env.now m.world in
      let s = m.service in
      let (e, w') = transition_sessions (session_names s.sessions) session_unavailable now w in
      let (e', m') =
        close_snapshots none s.sessions
          (record { service = release_all s.reservations (shut s); world = w' }) in
      (join e e', m')

-- What callers and the cleanup do to the registry, each taken as one step.
pub data Operation : Type 0 where
  reserve : String → Operation
  commit : String → ℕ → SessionState → Operation
  give_up : ℕ → Operation
  sweep shutdown : Operation

-- A session that is committed retains a non-negative int64 of bytes.
abbrev pub IsTypedOperation : Operation → Type 0
IsTypedOperation (commit operation id st) = st.retained_bytes < half64
IsTypedOperation _ = Unit

module _ {W : Type 0} (env : Env W) where
  abbrev pub perform : Operation → Machine W → Machine W
  perform (reserve operation) m = record m { service = (reserve_session operation m.service).1 }
  perform (commit operation id st) m = (commit_reserved_session env operation id st m).1
  perform (give_up id) m = record m { service = release_reservation id m.service }
  perform sweep m = (sweep_expired env m).1
  perform shutdown m = (close env m).1

  unfoldable pub perform_all : List Operation → Machine W → Machine W
  perform_all [] m = m
  perform_all (o ∷ os) m = perform_all os (perform o m)
