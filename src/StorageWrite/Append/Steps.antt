-- ===== src/StorageWrite/Append/Steps.antt =====
-- What `Append` (internal/storagewrite/application/service.go) does under the stream's mutex, from
-- `state.mu.Lock()` on. The logging calls change nothing that the service keeps and are left out.
use go_bemu.Base.{
  ℕ, Bool, true, false, not, Option, none, some, [], length, is_empty, if◌then◌else◌,
}
use go_bemu.Words.{add64}
use go_bemu.Text.{Bytes}
use go_bemu.Numerals.{format_int}
use go_bemu.Errors.{coded}
use go_bemu.Exec.{Exec, ok, pure, raise, lift, ◌>>=◌, ◌>>◌}
use go_bemu.StorageWrite.Domain.{
  internal, Err, is_prepared, no_operation, append_operation, phase_none, phase_prepared,
  phase_unresolved, receipt_prepared, receipt_unresolved, receipt_applied, AppendRequest,
  AppendResult, AppendBatch, StreamRecord,
}
use go_bemu.StorageWrite.Names.{StreamName}
use go_bemu.StorageWrite.Ports.{Env}
use go_bemu.StorageWrite.Service.{
  PendingReceipt, StreamEntry, Locked, stream_record, append_receipt_record, coordinator_error_code,
  append_outcome_is_ambiguous, reject, persist, clock, get_entry, modify,
}
use go_bemu.StorageWrite.Append.Checks.{
  operation, check_entry, Writer, choose_descriptor, rows_digest, check_payload, new_receipt,
  check_ledger, prepared_record, settled_record,
}

abbrev pub is_none {ℓ} : {A : Type ℓ} → Option A → Bool
is_none none = true
is_none (some a) = false

module _ {W : Type 0} (env : Env W) where
  open env use {coordinator, repository}

  -- The receipt of this attempt: the stored one on a retry, else the new one, whose intent is
  -- recorded first.
  unfoldable pub claim : Bytes → StreamEntry → PendingReceipt → Exec (Locked W) Err PendingReceipt
  unfolding prepared_record append_receipt_record
  claim name e receipt = elim e.unacknowledged [
    | some stored ↦ pure stored
    | none ↦ do
      persist operation none (
          repository.prepare_append e.revision (prepared_record e) (
            append_receipt_record name receipt receipt_prepared receipt.created_at
              receipt.updated_at))
      modify (λ x. record x {
        operation = append_operation;
        operation_phase = phase_prepared;
        operation_token = format_int e.stream.next_offset;
        revision = add64 e.revision 1;
        unacknowledged = some receipt;
      })
      pure receipt
  ]

  -- `state.unacknowledged` points to the local variable `receipt` where this call has set it, so a
  -- later assignment to `receipt` shows there.
  abbrev pub share : Bool → PendingReceipt → StreamEntry → StreamEntry
  share true receipt e = record e { unacknowledged = some receipt }
  share false receipt e = e

  unfoldable pub submit : Bool → AppendBatch → Exec (Locked W) Err (Option Err)
  submit default_stream batch l =
      let (e, w) =
        if default_stream
        then coordinator.append_default batch l.world
        else coordinator.stage_pending batch l.world in
      (ok e, record l { world = w })

  -- The outcome is not known: the intent stays, marked unresolved.
  unfoldable pub note_unresolved :
      Bytes → PendingReceipt → Bool → Err → Exec (Locked W) Err (Unit {0})
  unfolding append_receipt_record
  note_unresolved name receipt shared cause = do
    e ← get_entry
    t ← clock env
    let unresolved = record receipt { phase = receipt_unresolved; updated_at = t }
    modify (share shared unresolved)
    persist operation (some cause) (
        repository.mark_append_unresolved e.revision
          (record (stream_record e) {
            operation_phase = phase_unresolved;
            revision = add64 e.revision 1;
          })
          (append_receipt_record name unresolved receipt_unresolved receipt.created_at t))
    modify (λ x. record x {
      operation_phase = phase_unresolved;
      revision = add64 e.revision 1;
      unacknowledged = some unresolved;
    })

  -- An intent that is unresolved already is left as it is.
  unfoldable pub mark_unresolved :
      Bytes → PendingReceipt → Bool → Err → Exec (Locked W) Err (Unit {0})
  unfolding note_unresolved
  mark_unresolved name receipt shared cause = do
    e ← get_entry
    if is_prepared e.operation_phase then note_unresolved name receipt shared cause else pure tt

  -- The backend refused: the intent is taken back.
  unfoldable pub abort : Bytes → PendingReceipt → Err → Exec (Locked W) Err (Unit {0})
  unfolding append_receipt_record settled_record
  abort name receipt cause = do
    e ← get_entry
    t ← clock env
    persist operation (some cause) (
        repository.abort_append e.revision (settled_record e)
          (append_receipt_record name receipt receipt.phase receipt.created_at t))
    modify (λ x. record x {
      operation = no_operation;
      operation_phase = phase_none;
      operation_token = [];
      revision = add64 e.revision 1;
      unacknowledged = none;
    })

  unfoldable pub fail_append :
      Bytes → PendingReceipt → Bool → Err → Exec (Locked W) Err AppendResult
  unfolding mark_unresolved abort
  fail_append name receipt shared cause = do
    if append_outcome_is_ambiguous cause
        then mark_unresolved name receipt shared cause
        else abort name receipt cause
    raise (coded (coordinator_error_code cause internal) operation cause)

  -- The record of the stream after `rows` more rows.
  unfoldable pub advanced_record : StreamEntry → Bytes → ℕ → ℕ → StreamRecord
  unfolding settled_record
  advanced_record e fingerprint rows t = record (settled_record e) {
    stream = record (e.stream) {
      row_count = add64 e.stream.row_count rows;
      next_offset = add64 e.stream.next_offset rows;
      last_activity = t;
      schema_fingerprint =
          if is_empty e.stream.schema_fingerprint then fingerprint else e.stream.schema_fingerprint;
    };
  }

  unfoldable pub complete :
      StreamName → AppendRequest → Writer → PendingReceipt → Bool → Exec (Locked W) Err AppendResult
  unfolding append_receipt_record advanced_record
  complete name r w receipt shared = do
    e ← get_entry
    t ← clock env
    let applied = record receipt { phase = receipt_applied; updated_at = t }
    modify (share shared applied)
    let completed = advanced_record e w.fingerprint (length r.rows) t
    persist operation none (
        repository.complete_append e.revision completed
          (append_receipt_record name.canonical applied receipt_applied receipt.created_at t))
    modify (λ x. record x {
      unacknowledged = none;
      operation = no_operation;
      operation_phase = phase_none;
      operation_token = [];
      revision = completed.revision;
      stream = completed.stream;
      descriptor = if is_empty e.descriptor then w.descriptor else e.descriptor;
    })
    pure (record {
      stream_name = name.canonical;
      start_offset = e.stream.next_offset;
      has_offset = not name.is_default;
      row_count = length r.rows;
    })

  unfoldable pub append_batch :
      StreamName → AppendRequest → StreamEntry → Writer → PendingReceipt → AppendBatch
  append_batch name r e w receipt = record {
    stream_name = name.canonical;
    table = name.table;
    start_offset = e.stream.next_offset;
    wire_bytes = r.wire_bytes;
    descriptor = w.descriptor;
    rows = r.rows;
    schema_fingerprint = w.fingerprint;
    payload_digest = rows_digest env.digest r.rows;
    trace_id = r.trace_id;
  }

  unfoldable pub finish :
      StreamName
      → AppendRequest
      → Writer
      → PendingReceipt
      → Bool
      → Option Err
      → Exec (Locked W) Err AppendResult
  finish name r w receipt shared (some cause) = fail_append name.canonical receipt shared cause
  finish name r w receipt shared none = complete name r w receipt shared

  -- Every check that can refuse the request before the ledger or the backend is touched.
  unfoldable pub admit : AppendRequest → Exec (Locked W) Err (Writer × PendingReceipt)
  unfolding check_entry choose_descriptor check_payload new_receipt check_ledger
  admit r = do
    e ← get_entry
    reject (check_entry r e)
    w ← lift (choose_descriptor env.digest r e)
    reject (check_payload env.digest r)
    t ← clock env
    let receipt = new_receipt env.digest r e w t
    reject (check_ledger r e receipt)
    pure (w, receipt)

  unfoldable pub append_locked : StreamName → AppendRequest → Exec (Locked W) Err AppendResult
  append_locked name r = do
    e ← get_entry
    admitted ← admit r
    receipt ← claim name.canonical e admitted.1
    outcome ← submit name.is_default (append_batch name r e admitted.0 receipt)
    finish name r admitted.0 receipt (is_none e.unacknowledged) outcome
