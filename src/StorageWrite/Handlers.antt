-- ===== src/StorageWrite/Handlers.antt =====
-- The handlers CreateStream, GetStream, Append and Finalize of
-- internal/storagewrite/application/service.go.
use go_bemu.Base.{ℕ, zero, suc, not, ◌||◌, Option, none, some, ◌++◌, String, if◌then◌else◌}
use go_bemu.Words.{add64}
use go_bemu.Text.{Bytes, codes}
use go_bemu.Maps.{lookup}
use go_bemu.Exec.{Exec, ok, err, pure, lift, fail_if, ◌>>=◌, ◌>>◌}
use go_bemu.Catalog.Fields.{Fields}
use go_bemu.StorageWrite.Domain.{
  not_found, failed_precondition, unimplemented, internal, Err, failed, pending, finalized,
  is_pending, is_active, is_committed, WriteStream, CreateStreamRequest, AppendRequest,
  AppendResult,
}
use go_bemu.StorageWrite.Names.{TableReference, name, parse_table_name, parse_stream_name}
use go_bemu.StorageWrite.Ports.{Env}
use go_bemu.StorageWrite.Service.{
  StreamEntry, Machine, Locked, stream_record, reject, persist, clock, get_entry, modify,
}
use go_bemu.StorageWrite.Append.Checks
use go_bemu.StorageWrite.Append.Steps.{is_none, append_locked}
use go_bemu.StorageWrite.Registry.{
  parsed, admission_error, new_entry, Attempt, retry, stop, created, attempt, is_fresh_id,
  get_service, ensure_state_reconciled, set_stream, with_stream, lookup_stream, read_clock,
  describe_table, lookup_or_create_default,
}

abbrev pub create_operation : String
create_operation = "storage_write.create_stream"

module _ {W : Type 0} (env : Env W) where
  open env use {repository}

  -- What the ID loop does with a candidate that no stream of this process has.
  abbrev pub store_candidate :
      Bytes
      → StreamEntry
      → Attempt
      → Exec (Machine W) Err (Option (Bytes × StreamEntry))
      → Exec (Machine W) Err (Option (Bytes × StreamEntry))
  store_candidate key e created next s = (ok (some (key, e)), s)
  store_candidate key e (stop x) next s = (err x, s)
  store_candidate key e retry next s = next s

  abbrev pub try_store :
      Bytes
      → StreamEntry
      → Exec (Machine W) Err (Option (Bytes × StreamEntry))
      → Exec (Machine W) Err (Option (Bytes × StreamEntry))
  try_store key e next s =
      let (x, w) = repository.create_stream (stream_record e) s.world in
      store_candidate key e (attempt create_operation x) next (record s { world = w })

  -- One round: an invalid or taken ID, and a conflict in the repository, go on to the next.
  unfoldable pub round :
      TableReference
      → Fields
      → ℕ
      → Bytes
      → Exec (Machine W) Err (Option (Bytes × StreamEntry))
      → Exec (Machine W) Err (Option (Bytes × StreamEntry))
  round parent schema now id next s =
      let key = name parent ++ (codes "/streams/" ++ id) in
      if not (is_fresh_id (parse_stream_name key)) || not (is_none (lookup key s.service.streams))
      then next s
      else try_store key (new_entry s.service.config.location key parent pending schema now) next s

  -- `for attempts := 0; attempts < 4; attempts++`
  unfoldable pub choose_id :
      ℕ → TableReference → Fields → ℕ → Exec (Machine W) Err (Option (Bytes × StreamEntry))
  choose_id zero parent schema now s = (ok none, s)
  choose_id (suc left) parent schema now s =
      let (id, w) = env.new_id s.world in
      round parent schema now id (choose_id left parent schema now) (record s { world = w })

  abbrev pub add_pending : Option (Bytes × StreamEntry) → Exec (Machine W) Err WriteStream
  add_pending none s = (
    err (failed internal create_operation "ID generator did not produce a unique valid stream ID"),
    s,
  )
  add_pending (some (key, e)) s = (
    ok e.stream,
    record s {
      service = record (set_stream key e s.service) { pending = add64 s.service.pending 1 };
    },
  )

  unfoldable pub create_stream : CreateStreamRequest → Exec (Machine W) Err WriteStream
  create_stream r = do
    ensure_state_reconciled create_operation
    fail_if (not (is_pending r.kind))
        (failed unimplemented create_operation "only PENDING streams can be created")
    parent ← lift (parsed create_operation (parse_table_name (name r.parent)))
    before ← get_service
    reject (admission_error create_operation before)
    schema ← describe_table env create_operation r.parent
    now ← read_clock env
    s ← get_service
    reject (admission_error create_operation s)
    chosen ← choose_id 4 r.parent schema now
    add_pending chosen

  unfoldable pub get_stream : Bytes → Exec (Machine W) Err WriteStream
  get_stream key = do
    ensure_state_reconciled "storage_write.get_stream"
    n ← lift (parsed "storage_write.get_stream" (parse_stream_name key))
    e ← lookup_or_create_default env "storage_write.get_stream" n
    fail_if (not (is_active e.cleanup_phase))
        (failed not_found "storage_write.get_stream" "write stream was discarded")
    pure e.stream

  -- Append
  unfoldable pub append : AppendRequest → Exec (Machine W) Err AppendResult
  append r = do
    ensure_state_reconciled Checks.operation
    n ← lift (parsed Checks.operation (parse_stream_name r.stream_name))
    s ← get_service
    reject (Checks.check_request s.config r)
    e ← lookup_or_create_default env Checks.operation n
    with_stream n.canonical e (append_locked env n r)

  abbrev finalize_operation : String
  finalize_operation = "storage_write.finalize_stream"

  unfoldable pub check_finalize : StreamEntry → Option Err
  check_finalize e =
      if not (is_active e.cleanup_phase)
      then some (failed not_found finalize_operation "write stream was discarded")
      else if is_committed e.stream.state
      then some (failed failed_precondition finalize_operation "write stream is already committed")
      else if not (is_none e.unacknowledged)
      then some (
          failed failed_precondition finalize_operation
            "an unacknowledged append must be reconciled before finalizing the stream")
      else none

  -- Finalize under the stream's mutex.
  unfoldable pub finalize_locked : Exec (Locked W) Err ℕ
  unfolding check_finalize
  finalize_locked = do
    e ← get_entry
    reject (check_finalize e)
    t ← clock env
    let updated = record (e.stream) { state = finalized; last_activity = t }
    let revision = add64 e.revision 1
    persist finalize_operation none (
        repository.update_stream e.revision
          (record (stream_record e) { stream = updated; revision = revision }))
    modify (λ x. record x { stream = updated; revision = revision })
    pure e.stream.row_count

  unfoldable pub finalize : Bytes → Exec (Machine W) Err ℕ
  finalize key = do
    ensure_state_reconciled finalize_operation
    n ← lift (parsed finalize_operation (parse_stream_name key))
    fail_if n.is_default
        (failed failed_precondition finalize_operation "the default stream cannot be finalized")
    e ← lookup_stream finalize_operation n.canonical
    with_stream n.canonical e finalize_locked
