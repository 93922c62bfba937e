-- ===== src/StorageRead/Examples.antt =====
-- Runs of the Storage Read service at concrete inputs, over a world that is the next row to read.
use go_bemu.Base.{
  ℕ, ◌+◌, ◌/◌, ◌≡◌, refl, true, false, none, some, List, [], ◌∷◌, ◌++◌, arith, ltb, inr,
  if◌then◌else◌,
}
use go_bemu.Words.{lt32, lt64, sub64, add64}
use go_bemu.Text.{codes, text_eq, split}
use go_bemu.Maps.{lookup}
use go_bemu.Errors.{sentinel, Sentinel}
use go_bemu.Exec.{ok, err}
use go_bemu.StorageRead.Domain.{
  format_avro, format_arrow, CreateSessionRequest, SnapshotMetadata, Stream, SessionRecord,
  session_active, ReadRowsRequest, EncodedBatch,
}
use go_bemu.StorageRead.Contracts.{
  negotiate_stream_count, partition_streams, valid_parent, valid_parent_parts, valid_table,
  valid_table_parts, valid_resource_segment,
}
use go_bemu.StorageRead.Contracts.Partition.{IsPartition, partition_streams-IsPartition}
use go_bemu.StorageRead.Contracts.Negotiation.{
  IsNegotiated, negotiate-IsNegotiated, negotiate_accepts,
}
use go_bemu.StorageRead.Service.{Config, SessionState, StreamState, Service, Env, Call, Machine}
use go_bemu.StorageRead.Admission.{
  reserve_session, rejection, add_reservation, commit_reserved_session, commit_refusal, reserved,
  store_session,
}
use go_bemu.StorageRead.Requests.{
  validate_create_request, materialize_request, validate_snapshot_metadata, new_session_state,
}
use go_bemu.StorageRead.Session.{
  create_session, reserve_live, materialize_snapshot, check_snapshot, store_snapshot, store_named,
  discard,
}
use go_bemu.StorageRead.Session.Accepted.{IsCreated, create_session-IsCreated}
use go_bemu.StorageRead.Session.Refused.{IsRestored, failed_create-IsRestored}
use go_bemu.StorageRead.Rows.{read_rows}
use go_bemu.StorageRead.Rows.Coverage.{IsTyped, IsDelivered}
use go_bemu.StorageRead.Rows.Resume.{read_rows-Delivered}
use go_bemu.StorageRead.Admission.Budget.{IsBudgeted}
use go_bemu.StorageRead.Lifecycle.{
  Operation, reserve, commit, give_up, sweep, shutdown, perform_all,
}
use go_bemu.StorageRead.Lifecycle.Budget.{perform_all-IsBudgeted}

partition_streams-IsPartition_example :
    IsPartition 10 (10 / 3) 3 (partition_streams (codes "s") 10 3)
partition_streams-IsPartition_example =
    partition_streams-IsPartition (codes "s") 10 3 (omega arith) (omega arith) (omega arith)

negotiated : negotiate_stream_count 100 2 5 3 ≡ ok 3
unfolding negotiate_stream_count lt32
negotiated = refl

negotiate-IsNegotiated_example : IsNegotiated 100 5 3 3
negotiate-IsNegotiated_example =
    negotiate-IsNegotiated 100 2 5 3 3 (omega arith) (omega arith) (omega arith) (omega arith)
      (omega arith) negotiated

negotiate_accepts_example :
    ¬ (negotiate_stream_count 100 2 5 3 ≡ err "stream counts must not be negative")
negotiate_accepts_example =
    negotiate_accepts 100 2 5 3 (omega arith) (omega arith) (omega arith) (inr (omega arith))
      "stream counts must not be negative"

abbrev accept : Call ℕ
accept w = (none, w)

abbrev two_rows : ℕ → EncodedBatch
two_rows w = record { offset = w; row_count = 2; serialized_rows = [] }

-- A snapshot of six rows, read in batches of two.
abbrev env : Env ℕ
env = record {
  now = λ w. (5, w);
  new_id = λ w. (codes "id", w);
  context_error = λ w. none;
  materialize = λ r w. (ok (some 1), w);
  metadata = λ s w. record {
    schema = record { format = format_avro; serialized = codes "{}"; fingerprint = [] };
    row_count = 6;
    estimated_bytes = 60;
    retained_bytes = 60;
  };
  open_range = λ s start limit rows w. (ok (some 1), start);
  close_snapshot = λ s. accept;
  next = λ it w. if ltb w 6 then (ok (two_rows w), w + 2) else (err (sentinel Sentinel.eof), w);
  close_iterator = λ it. accept;
  create_session = λ r. accept;
  transition_sessions = λ names before after time. accept;
  reconcile_active = λ time w. (ok 0, w);
  get_stream = λ n w. (err (sentinel Sentinel.session_state_not_found), w);
  digest = λ b. codes "sha256:" ++ b;
  valid_json = λ b. true;
  trim_space = λ s. s;
}

abbrev config : Config
config = record {
  location = codes "us";
  max_streams = 4;
  default_stream_count = 1;
  session_ttl = 10;
  cleanup_interval = 1;
  max_rows_per_response = 2;
  max_sessions = 2;
  max_snapshot_bytes = 100;
  max_total_snapshot_bytes = 150;
}

abbrev stream : Stream
stream = record { name = codes "s/streams/0"; start_offset = 0; end_offset = 6 }

abbrev session_record : SessionRecord
session_record = record {
  name = codes "s";
  table = codes "t";
  format = format_avro;
  selected_fields = [];
  row_restriction_digest = [];
  row_restriction_bytes = 0;
  streams = stream ∷ [];
  created_at = 1;
  expire_time = 11;
  snapshot_time = none;
  retained_row_count = 6;
  retained_bytes = 60;
  estimated_bytes_scanned = 60;
  schema_fingerprint = [];
  lifecycle = session_active;
  lifecycle_updated_at = 1;
}

abbrev session : SessionState
session = record {
  session = record {
    name = codes "s";
    table = codes "t";
    format = format_avro;
    schema = record { format = format_avro; serialized = codes "{}"; fingerprint = [] };
    streams = stream ∷ [];
    expire_time = 11;
    estimated_row_count = 6;
    estimated_bytes_scanned = 60;
    selected_fields = [];
    row_restriction = [];
    snapshot_time = none;
    trace_id = [];
  };
  snapshot = 1;
  retained_bytes = 60;
  stored = session_record;
}

abbrev entry : StreamState
entry = record { session = session; stream = stream }

abbrev service : Service
service = record {
  config = config;
  sessions = (codes "s", session) ∷ [];
  streams = (codes "s/streams/0", entry) ∷ [];
  reservations = [];
  next_reservation_id = 1;
  retained_snapshot_bytes = 60;
  closed = false;
  state_reconciled = true;
}

abbrev resume : ReadRowsRequest
resume = record { stream_name = codes "s/streams/0"; offset = 2 }

env-IsTyped : IsTyped env
env-IsTyped it w b h = ground arith

stream_found : lookup (codes "s/streams/0") service.streams ≡ some entry
unfolding lookup text_eq
stream_found = refl

read_rows-Delivered_example :
    IsDelivered env (λ c. accept) 2 6 (read_rows env (λ c. accept) service resume 0)
read_rows-Delivered_example =
    read_rows-Delivered env (λ c. accept) service resume entry 0 env-IsTyped stream_found
      (omega arith) (omega arith)

abbrev empty : Machine ℕ
empty = record {
  service = record service {
    sessions = [];
    streams = [];
    next_reservation_id = 0;
    retained_snapshot_bytes = 0;
  };
  world = 0;
}

abbrev history : List Operation
history =
    reserve "create"
    ∷ commit "create" 1 session
    ∷ reserve "create"
    ∷ sweep
    ∷ give_up 2
    ∷ shutdown
    ∷ []

empty-IsBudgeted : IsBudgeted empty.service
empty-IsBudgeted = record {
  exact = omega arith;
  within = omega arith;
  slots = omega arith;
  typed = omega arith;
  typed_share = omega arith;
}

perform_all-IsBudgeted_example : IsBudgeted (perform_all env history empty).service
perform_all-IsBudgeted_example =
    perform_all-IsBudgeted env history empty (tt, (omega arith, (tt, (tt, (tt, (tt, tt))))))
      empty-IsBudgeted

abbrev request : CreateSessionRequest
request = record {
  parent = codes "projects/p";
  table = codes "projects/p/datasets/d/tables/t";
  format = format_avro;
  selected_fields = [];
  row_restriction = [];
  snapshot_time = none;
  max_stream_count = 0;
  preferred_min_stream_count = 3;
  trace_id = [];
}

abbrev checked : SnapshotMetadata
checked = record {
  schema = record {
    format = format_avro;
    serialized = codes "{}";
    fingerprint = codes "sha256:{}";
  };
  row_count = 6;
  estimated_bytes = 60;
  retained_bytes = 60;
}

abbrev created : SessionState
created = new_session_state env.digest config request 3 1 checked (codes "id") 5

create_session-IsCreated_example :
    IsCreated env [] request empty created.session
      (store_session 1 100 created (add_reservation empty.service))
unfolding create_session validate_create_request valid_parent valid_parent_parts valid_table
    valid_table_parts valid_resource_segment split text_eq negotiate_stream_count lt32 lt64 sub64
    add64 reserve_live reserve_session rejection add_reservation materialize_snapshot
    materialize_request perform_all check_snapshot validate_snapshot_metadata store_snapshot
    store_named new_session_state commit_reserved_session commit_refusal reserved lookup
    store_session
create_session-IsCreated_example =
    create_session-IsCreated env (λ snapshot w. (omega arith, omega arith)) [] request empty
      (omega arith) (omega arith) (omega arith) (omega arith) (omega arith) refl

-- The snapshot is not in the format that is asked for.
failed_create-IsRestored_example :
    IsRestored empty.service
      (create_session env [] (record request { format = format_arrow }) empty).1.service
unfolding create_session validate_create_request valid_parent valid_parent_parts valid_table
    valid_table_parts valid_resource_segment split text_eq negotiate_stream_count lt32 lt64 sub64
    add64 reserve_live reserve_session rejection add_reservation materialize_snapshot
    materialize_request perform_all check_snapshot validate_snapshot_metadata discard
failed_create-IsRestored_example =
    failed_create-IsRestored env (record request { format = format_arrow }) empty empty-IsBudgeted
      refl
