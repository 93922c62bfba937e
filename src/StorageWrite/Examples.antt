-- ===== src/StorageWrite/Examples.antt =====
-- Runs of the Storage Write service at concrete inputs, over a world that counts clock readings.
use go_bemu.Base.{ℕ, ◌<◌, suc, ◌≡◌, refl, true, false, Option, none, some, [], ◌∷◌, ◌++◌, arith}
use go_bemu.Words.{lt64}
use go_bemu.Text.{text_lt, Bytes, codes, split, text_eq, cut_suffix, trim_suffix, join}
use go_bemu.Maps.{lookup, put}
use go_bemu.Errors.{sentinel, coded, Sentinel, is}
use go_bemu.Exec.{ok, err}
use go_bemu.Catalog.Fields.{nil}
use go_bemu.StorageWrite.Domain.{
  BatchCommitResult, CreateStreamRequest, WriteStream, Err, deadline_exceeded, pending, StreamState,
  open_state, finalized, phase_none, no_operation, cleanup_active, AppendRequest, AppendResult,
  failed, already_exists, out_of_range,
}
use go_bemu.StorageWrite.Names.{
  TableReference, name, valid_segment, default_stream, StreamName, parse_table_name,
  parse_stream_name, table_eq, segment_matches, parse_named, parse_cut, parse_parts,
}
use go_bemu.StorageWrite.Names.Alias.{parse_legacy}
use go_bemu.StorageWrite.Handlers.{finalize_locked, check_finalize, create_stream, choose_id, round}
use go_bemu.StorageWrite.Finalized.{IsSealed, finalize-IsSealed, finalize-IsConsistent}
use go_bemu.StorageWrite.Commit.Response.{Answered, batch_commit-Answered}
use go_bemu.StorageWrite.Names.RoundTrip.{
  IsTable, parse_table_name-name, parse_table_name_sound, parse_stream_name_idempotent,
}
use go_bemu.StorageWrite.Ports.{Call, Env}
use go_bemu.StorageWrite.Service.{
  Config, StreamEntry, Machine, Locked, append_outcome_is_ambiguous, coordinator_error_code,
  stream_record,
}
use go_bemu.StorageWrite.Registry.{
  ensure_state_reconciled, new_entry, describe_table, admission_error,
}
use go_bemu.StorageWrite.Created.{IsRegistered, create_stream-IsRegistered}
use go_bemu.StorageWrite.Commit.Selection.{
  choose_all, choose_named, check_name, check_members, check_member, find_stranger, insert_named,
  sort_named,
}
use go_bemu.StorageWrite.Invariant.{IsConsistent}
use go_bemu.StorageWrite.Append.Checks.{operation}
use go_bemu.StorageWrite.Append.Steps.{
  admit, claim, submit, finish, complete, fail_append, append_locked,
}
use go_bemu.StorageWrite.Append.Ledger.{Advanced, append_advances}
use go_bemu.StorageWrite.Append.Refusals.{failed_append_keeps_stream, accepted_offset}
use go_bemu.StorageWrite.Append.Untouched.{
  append-offset_codes, misplaced, IsUntouched, refused_append-IsUntouched,
}
use go_bemu.StorageWrite.Append.Consistency.{append-IsConsistent}
use go_bemu.StorageWrite.Append.Sequence.{Contiguous, append_all, append_all-Contiguous}
use go_bemu.StorageWrite.Commit.View.{seen_stream}
use go_bemu.StorageWrite.Commit.Atomic.{failed_commit_keeps_streams}
use go_bemu.StorageWrite.Commit.Group.{records, update_all, set_all}
use go_bemu.StorageWrite.Commit.Steps.{
  batch_commit, commit_names, commit_selected, start_group, retry_stored, open_group, prepare_group,
  transition, submit_commit, run_group, fail_commit, close_intent, suspend, conclude,
}

abbrev events : TableReference
events = record { project_id = codes "p"; dataset_id = codes "d"; table_id = codes "events" }

abbrev events_name : Bytes
events_name = codes "projects/p/datasets/d/tables/events"

abbrev stream_name : Bytes
stream_name = codes "projects/p/datasets/d/tables/events/streams/s1"

abbrev s1 : StreamName
s1 = record { table = events; canonical = stream_name; is_default = false }

-- Ports whose repository accepts everything; `stage` is the answer of the backend.
abbrev accept : Call ℕ
accept w = (none, w)

abbrev answering : Option Err → Env ℕ
answering stage = record {
  now = λ w. (w, suc w);
  new_id = λ w. (codes "id", w);
  coordinator = record {
    describe_table = λ t w. (ok nil, w);
    append_default = λ b w. (stage, w);
    stage_pending = λ b w. (stage, w);
    commit_pending = λ r w. (stage, w);
    discard_pending = λ n w. (stage, w);
  };
  repository = record {
    reconcile_startup = λ t w. (ok (record { streams = []; receipts = []; commit_groups = [] }), w);
    create_stream = λ r. accept;
    get_stream = λ n w. (err (sentinel Sentinel.state_not_found), w);
    update_stream = λ v r. accept;
    delete_stream = λ n v. accept;
    prepare_append = λ v r a. accept;
    mark_append_unresolved = λ v r a. accept;
    complete_append = λ v r a. accept;
    abort_append = λ v r a. accept;
    prepare_commit = λ v r g. accept;
    mark_commit_unresolved = λ v r g. accept;
    complete_commit = λ v r g. accept;
    abort_commit = λ v r g. accept;
  };
  digest = λ b. codes "sha256:" ++ b;
}

abbrev working : Env ℕ
working = answering none

abbrev timing_out : Env ℕ
timing_out = answering (some (sentinel Sentinel.operation_timeout))

abbrev entry_at : StreamState → ℕ → StreamEntry
entry_at state rows = record {
  stream = record {
    name = stream_name;
    parent = events;
    kind = pending;
    state = state;
    create_time = 1;
    commit_time = none;
    location = codes "US";
    schema = nil;
    row_count = rows;
    next_offset = rows;
    schema_fingerprint = [];
    last_activity = 1;
  };
  descriptor = [];
  unacknowledged = none;
  cleanup_phase = cleanup_active;
  cleanup_attempts = 0;
  operation = no_operation;
  operation_phase = phase_none;
  operation_token = [];
  revision = 1;
}

abbrev start : Locked ℕ
start = record { entry = entry_at open_state 3; world = 10 }

abbrev request : Option ℕ → AppendRequest
request offset = record {
  stream_name = stream_name;
  offset = offset;
  descriptor = codes "proto";
  rows = codes "a" ∷ codes "b" ∷ [];
  payload_bytes = 2;
  wire_bytes = 20;
  schema_fingerprint = [];
  payload_digest = [];
  trace_id = [];
}

abbrev appended : AppendResult
appended = record { stream_name = stream_name; start_offset = 3; has_offset = true; row_count = 2 }

append_runs : (append_locked working s1 (request (some 3)) start).0 ≡ ok appended
unfolding append_locked admit claim submit finish complete lt64
append_runs = refl

append_advances_example :
    Advanced s1
      (request (some 3))
      start.entry
      (append_locked working s1 (request (some 3)) start).1.entry
      appended
append_advances_example =
    append_advances working s1 (request (some 3)) start
      (append_locked working s1 (request (some 3)) start).1 appended
      (λ i. (append_runs i, (append_locked working s1 (request (some 3)) start).1))

append_all-Contiguous_example :
    Contiguous 3
      (append_all working s1 (request (some 3) ∷ request (some 3) ∷ request none ∷ []) start).0
      (append_all working s1
        (request (some 3) ∷ request (some 3) ∷ request none ∷ [])
        start).1.entry.stream.next_offset
append_all-Contiguous_example =
    append_all-Contiguous working s1 (request (some 3) ∷ request (some 3) ∷ request none ∷ []) start

duplicate : Err
duplicate = failed already_exists operation "append offset already exists"

duplicate_refused : (admit working (request (some 1)) start).0 ≡ err duplicate
unfolding admit duplicate lt64
duplicate_refused = refl

refused_append-IsUntouched_example : IsUntouched working s1 (request (some 1)) start
refused_append-IsUntouched_example =
    refused_append-IsUntouched working s1 (request (some 1)) start
      (misplaced 1 (omega arith) (omega arith) refl (λ h. omega (arith, h)))

append_without_offset_runs : (append_locked working s1 (request none) start).0 ≡ ok appended
unfolding append_locked admit claim submit finish complete lt64
append_without_offset_runs = refl

append-offset_codes_example :
    (1 < 3 → (append_locked working s1 (request (some 1)) start).0 ≡ err duplicate)
    × (3 < 1
        → (append_locked working s1 (request (some 1)) start).0
          ≡ err (failed out_of_range operation "append offset is beyond stream end"))
unfolding duplicate
append-offset_codes_example =
    append-offset_codes working s1 (request (some 1)) start
      (append_locked working s1 (request none) start).1 appended 1 (omega arith) (omega arith) refl
      (λ i. (append_without_offset_runs i, (append_locked working s1 (request none) start).1))

timeout : Err
timeout = coded deadline_exceeded operation (sentinel Sentinel.operation_timeout)

timeout_fails : (append_locked timing_out s1 (request none) start).0 ≡ err timeout
unfolding append_locked admit claim submit finish fail_append timeout append_outcome_is_ambiguous is
    coordinator_error_code
timeout_fails = refl

failed_append_keeps_stream_example :
    (append_locked timing_out s1 (request none) start).1.entry.stream ≡ start.entry.stream
failed_append_keeps_stream_example =
    failed_append_keeps_stream timing_out s1 (request none) start timeout timeout_fails

accepted_offset_example : ◌≡◌ {A = ℕ} 3 3 × ◌≡◌ {A = ℕ} 3 3
accepted_offset_example =
    accepted_offset working s1 (request (some 3)) start
      (append_locked working s1 (request (some 3)) start).1 appended 3 (omega arith) (omega arith)
      refl (λ i. (append_runs i, (append_locked working s1 (request (some 3)) start).1))

start-IsConsistent : IsConsistent (entry_at open_state 3)
start-IsConsistent = ground arith

append-IsConsistent_example :
    IsConsistent (append_locked timing_out s1 (request none) start).1.entry
append-IsConsistent_example =
    append-IsConsistent timing_out s1 (request none) start start-IsConsistent

abbrev config : Config
config = record {
  location = codes "US";
  max_streams = 10;
  max_append_bytes = 100;
  max_append_envelope_bytes = 100;
  max_concurrent_append_requests = 1;
  orphan_ttl = 100;
  cleanup_interval = 10;
}

abbrev ready : Machine ℕ
ready = record {
  service = record {
    config = config;
    streams = (stream_name, entry_at finalized 3) ∷ [];
    commit_groups = [];
    closed = false;
    state_reconciled = true;
    pending = 1;
  };
  world = 10;
}

commit_timeout : Err
commit_timeout =
    coded deadline_exceeded "storage_write.batch_commit" (sentinel Sentinel.operation_timeout)

commit_fails : (batch_commit timing_out events (stream_name ∷ []) ready).0 ≡ err commit_timeout
unfolding batch_commit commit_timeout ensure_state_reconciled commit_names choose_all choose_named
    check_name parse_stream_name parse_named parse_cut parse_parts segment_matches valid_segment
    cut_suffix trim_suffix split text_eq table_eq lookup parse_table_name name join put
    commit_selected check_members check_member find_stranger insert_named sort_named text_lt
    start_group retry_stored open_group prepare_group transition records update_all set_all
    submit_commit run_group fail_commit close_intent suspend conclude stream_record
    append_outcome_is_ambiguous is coordinator_error_code
commit_fails = refl

failed_commit_keeps_streams_example :
    seen_stream (
      lookup stream_name
        (batch_commit timing_out events (stream_name ∷ []) ready).1.service.streams)
    ≡ seen_stream (lookup stream_name ready.service.streams)
failed_commit_keeps_streams_example =
    failed_commit_keeps_streams timing_out events (stream_name ∷ []) ready commit_timeout
      commit_fails stream_name

events-IsTable : IsTable events
unfolding valid_segment segment_matches text_eq
events-IsTable = record {
  project = record { valid = refl; lacks = ground arith };
  dataset = record { valid = refl; lacks = ground arith };
  table = record { valid = refl; lacks = ground arith };
}

parse_table_name-name_example : parse_table_name (name events) ≡ ok events
parse_table_name-name_example = parse_table_name-name events events-IsTable

events_parses : parse_table_name events_name ≡ ok events
unfolding parse_table_name split text_eq valid_segment
events_parses = refl

parse_table_name_sound_example : (events_name ≡ name events) × IsTable events
parse_table_name_sound_example = parse_table_name_sound events_name events events_parses

abbrev legacy : Bytes
legacy = codes "projects/p/datasets/d/tables/events/_default"

legacy_parses : parse_stream_name legacy ≡ ok (default_stream events)
unfolding parse_stream_name cut_suffix trim_suffix parse_table_name split text_eq valid_segment
legacy_parses = refl

parse_stream_name_idempotent_example :
    parse_stream_name (default_stream events).canonical ≡ ok (default_stream events)
parse_stream_name_idempotent_example =
    parse_stream_name_idempotent legacy (default_stream events) legacy_parses

parse_legacy_example :
    parse_stream_name (name events ++ codes "/_default") ≡ ok (default_stream events)
unfolding text_eq
parse_legacy_example = parse_legacy events events-IsTable

abbrev sealed : Locked ℕ
sealed = (finalize_locked working start).1

finalize_runs : (finalize_locked working start).0 ≡ ok 3
unfolding finalize_locked check_finalize
finalize_runs = refl

finalize-IsSealed_example : (◌≡◌ {A = ℕ} 3 3) × IsSealed start.entry sealed.entry
finalize-IsSealed_example =
    finalize-IsSealed working start sealed 3 (λ i. (finalize_runs i, sealed))

finalize-IsConsistent_example : IsConsistent sealed.entry
finalize-IsConsistent_example = finalize-IsConsistent working start start-IsConsistent

abbrev closed_stream : Locked ℕ
closed_stream = record { entry = entry_at finalized 3; world = 10 }

abbrev commit_response : BatchCommitResult
commit_response = record { commit_time = some 11; stream_errors = [] }

abbrev after_commit : Machine ℕ
after_commit = (batch_commit working events (stream_name ∷ []) ready).1

commit_runs : (batch_commit working events (stream_name ∷ []) ready).0 ≡ ok commit_response
unfolding batch_commit ensure_state_reconciled commit_names choose_all choose_named check_name
    parse_stream_name parse_named parse_cut parse_parts segment_matches valid_segment cut_suffix
    trim_suffix split text_eq table_eq lookup parse_table_name name join put commit_selected
    check_members check_member find_stranger insert_named sort_named text_lt start_group
    retry_stored open_group prepare_group transition records update_all set_all submit_commit
    run_group fail_commit close_intent suspend conclude stream_record append_outcome_is_ambiguous is
    coordinator_error_code
commit_runs = refl

batch_commit-Answered_example :
    Answered working (stream_name ∷ []) ready after_commit commit_response
batch_commit-Answered_example =
    batch_commit-Answered working events (stream_name ∷ []) ready after_commit commit_response
      (λ i. (commit_runs i, after_commit))

abbrev create_request : CreateStreamRequest
create_request = record { parent = events; kind = pending }

abbrev id_name : Bytes
id_name = codes "projects/p/datasets/d/tables/events/streams/id"

abbrev created_stream : WriteStream
created_stream = (new_entry (codes "US") id_name events pending nil 10).stream

abbrev after_create : Machine ℕ
after_create = (create_stream working create_request ready).1

create_runs : (create_stream working create_request ready).0 ≡ ok created_stream
unfolding create_stream ensure_state_reconciled choose_id round describe_table admission_error
    new_entry parse_stream_name parse_named parse_cut parse_parts segment_matches valid_segment
    cut_suffix trim_suffix split text_eq lookup parse_table_name name join stream_record lt64
create_runs = refl

create_stream-IsRegistered_example : IsRegistered ready.service after_create.service created_stream
create_stream-IsRegistered_example =
    create_stream-IsRegistered working create_request ready (λ i. (create_runs i, after_create))
