-- ===== src/StorageWrite/Registry.antt =====
-- The stream registry of internal/storagewrite/application/service.go: lookups, CreateStream,
-- GetStream, and `Append` and `Finalize` as the service runs them. Each handler is one step here;
-- `s.mu` and a stream's mutex are held where the source holds them.
use go_bemu.Base.{ℕ, Bool, false, not, Option, none, some, [], String, if◌then◌else◌}
use go_bemu.Words.{lt64}
use go_bemu.Text.{Bytes}
use go_bemu.Maps.{lookup, put}
use go_bemu.Errors.{is, coded, joined, Sentinel}
use go_bemu.Exec.{Exec, Result, ok, err, pure, raise, fail_if, ◌>>=◌, ◌>>◌}
use go_bemu.Catalog.Fields.{Fields}
use go_bemu.StorageWrite.Domain.{
  ErrorCode, invalid_argument, not_found, failed_precondition, resource_exhausted, unimplemented,
  internal, Err, failed, StreamType, default, pending, open_state, committed, no_operation,
  phase_none, cleanup_active, StreamRecord,
}
use go_bemu.StorageWrite.Names.{TableReference, StreamName}
use go_bemu.StorageWrite.Ports.{Env}
use go_bemu.StorageWrite.Service.{
  StreamEntry, Service, Machine, Locked, stream_record, classify_state_error,
  coordinator_error_code,
}

-- An error text of a name parser under a code.
abbrev pub parsed : {A : Type 0} → String → Result String A → Result Err A
parsed operation (ok a) = ok a
parsed operation (err m) = err (failed invalid_argument operation m)

unfoldable pub admission_error : String → Service → Option Err
admission_error operation s =
    if s.closed
    then some (failed failed_precondition operation "Storage Write service is closed")
    else if not (lt64 s.pending s.config.max_streams)
    then some (failed resource_exhausted operation "logical stream capacity reached")
    else none

unfoldable pub describe_error_code : Err → ErrorCode
describe_error_code e =
    if is e Sentinel.table_not_found
    then not_found
    else if is e Sentinel.unsupported_schema
    then unimplemented
    else coordinator_error_code e internal

-- A stream that CreateStream or the first use of a default stream starts with.
unfoldable pub new_entry : Bytes → Bytes → TableReference → StreamType → Fields → ℕ → StreamEntry
new_entry location stream_name table kind schema now = record {
  stream = record {
    name = stream_name;
    parent = table;
    kind = kind;
    state = elim kind [ pending ↦ open_state | default ↦ committed ];
    create_time = now;
    commit_time = elim kind [ pending ↦ none | default ↦ some now ];
    location = location;
    schema = schema;
    row_count = 0;
    next_offset = 0;
    schema_fingerprint = [];
    last_activity = now;
  };
  descriptor = [];
  unacknowledged = none;
  cleanup_phase = cleanup_active;
  cleanup_attempts = 0;
  operation = no_operation;
  operation_phase = phase_none;
  operation_token = [];
  revision = 1;
}

-- The in-memory entry of a stored record; a stored phase is ACTIVE or PENDING.
unfoldable pub entry_of_record : StreamRecord → StreamEntry
entry_of_record r = record {
  stream = r.stream;
  descriptor = [];
  unacknowledged = none;
  cleanup_phase = r.cleanup_phase;
  cleanup_attempts = r.cleanup_attempts;
  operation = r.operation;
  operation_phase = r.operation_phase;
  operation_token = r.operation_token;
  revision = r.revision;
}

-- The outcome of one round of the ID loop.
pub data Attempt : Type 0 where
  retry : Attempt
  stop : Err → Attempt
  created : Attempt

abbrev pub attempt : String → Option Err → Attempt
attempt operation none = created
attempt operation (some e) =
    if is e Sentinel.state_conflict then retry else stop (classify_state_error operation e)

abbrev pub is_fresh_id : Result String StreamName → Bool
is_fresh_id (ok n) = not n.is_default
is_fresh_id (err m) = false

-- s.streams[key] = e
abbrev pub set_stream : Bytes → StreamEntry → Service → Service
set_stream key e s = record s { streams = put key e s.streams }

module _ {W : Type 0} where
  abbrev pub get_service : Exec (Machine W) Err Service
  get_service s = (ok s.service, s)

  unfoldable pub ensure_state_reconciled : String → Exec (Machine W) Err (Unit {0})
  ensure_state_reconciled operation s =
      fail_if (not s.service.state_reconciled)
        (failed failed_precondition operation "Storage Write startup reconciliation is incomplete")
        s

  -- Runs `m` on a stream under its mutex: the entry is shared with the map through its pointer.
  abbrev pub with_stream :
      {A : Type 0} → Bytes → StreamEntry → Exec (Locked W) Err A → Exec (Machine W) Err A
  with_stream key e m s =
      let (r, l) = m (record { entry = e; world = s.world }) in
      (r, record s { service = set_stream key l.entry s.service; world = l.world })

  abbrev pub found : String → Option StreamEntry → Exec (Machine W) Err StreamEntry
  found operation (some e) = pure e
  found operation none = raise (failed not_found operation "write stream not found")

  -- lookup
  unfoldable pub lookup_stream : String → Bytes → Exec (Machine W) Err StreamEntry
  lookup_stream operation key s =
      if s.service.closed
      then (err (failed failed_precondition operation "Storage Write service is closed"), s)
      else found operation (lookup key s.service.streams) s

module _ {W : Type 0} (env : Env W) where
  open env use {coordinator, repository}

  abbrev pub read_clock : Exec (Machine W) Err ℕ
  read_clock s = let (t, w) = env.now s.world in (ok t, record s { world = w })

  abbrev pub described : String → Machine W → Result Err Fields × W → Result Err Fields × Machine W
  described operation s (ok schema, w) = (ok schema, record s { world = w })
  described operation s (err e, w) =
      (err (coded (describe_error_code e) operation e), record s { world = w })

  unfoldable pub describe_table : String → TableReference → Exec (Machine W) Err Fields
  describe_table operation table s =
      described operation s (coordinator.describe_table table s.world)

  -- The entry that is stored when another process has created the default stream.
  abbrev adopt :
      String
      → Err
      → Bytes
      → Machine W
      → Result Err StreamRecord × W
      → Result Err StreamEntry × Machine W
  adopt operation cause key s (ok r, w) =
      let e = entry_of_record r in
      (ok e, record s { service = set_stream key e s.service; world = w })
  adopt operation cause key s (err e, w) =
      (err (classify_state_error operation (joined cause e)), record s { world = w })

  abbrev install :
      String → Bytes → StreamEntry → Machine W → Option Err × W → Result Err StreamEntry × Machine W
  install operation key e s (none, w) =
      (ok e, record s { service = set_stream key e s.service; world = w })
  install operation key e s (some x, w) =
      if is x Sentinel.state_conflict
      then adopt operation x key s (repository.get_stream key w)
      else (err (classify_state_error operation x), record s { world = w })

  abbrev register :
      String → Bytes → StreamEntry → Option StreamEntry → Exec (Machine W) Err StreamEntry
  register operation key candidate (some existing) s = (ok existing, s)
  register operation key candidate none s =
      install operation key candidate s (repository.create_stream (stream_record candidate) s.world)

  -- The first use of a table's default stream. Both tests are made again under `s.mu`.
  unfoldable pub create_default : String → StreamName → Exec (Machine W) Err StreamEntry
  create_default operation n = do
    schema ← describe_table operation n.table
    now ← read_clock
    s ← get_service
    let candidate = new_entry s.config.location n.canonical n.table default schema now
    fail_if s.closed (failed failed_precondition operation "Storage Write service is closed")
    register operation n.canonical candidate (lookup n.canonical s.streams)

  abbrev or_create : String → StreamName → Option StreamEntry → Exec (Machine W) Err StreamEntry
  or_create operation n (some e) = pure e
  or_create operation n none = create_default operation n

  unfoldable pub lookup_or_create_default : String → StreamName → Exec (Machine W) Err StreamEntry
  lookup_or_create_default operation n s =
      if not n.is_default
      then lookup_stream operation n.canonical s
      else if s.service.closed
      then (err (failed failed_precondition operation "Storage Write service is closed"), s)
      else or_create operation n (lookup n.canonical s.service.streams) s
