-- ===== src/StorageWrite/Append/Checks.antt =====
-- The checks of `Append` (internal/storagewrite/application/service.go) in their order, and the
-- receipts and records that it builds.
use go_bemu.Base.{
  ℕ, Bool, true, false, not, ◌&&◌, ◌||◌, Option, none, some, List, [], String, length, is_empty,
  concat, nat_eq, if◌then◌else◌,
}
use go_bemu.Words.{lt64, add64, sub64}
use go_bemu.Text.{Bytes, text_eq}
use go_bemu.Numerals.{format_int}
use go_bemu.Exec.{Result, ok, err}
use go_bemu.StorageWrite.Domain.{
  invalid_argument, not_found, failed_precondition, already_exists, out_of_range, Err, failed,
  is_default, is_pending, is_open, is_committed, is_active, no_operation, append_operation,
  phase_none, phase_prepared, receipt_prepared, AppendRequest, StreamRecord,
}
use go_bemu.StorageWrite.Service.{Config, PendingReceipt, StreamEntry, stream_record}

abbrev pub operation : String
operation = "storage_write.append"

-- The checks on the request alone.
unfoldable pub check_request : Config → AppendRequest → Option Err
check_request c r =
    if is_empty r.rows
    then some (failed invalid_argument operation "at least one ProtoRow is required")
    else if not (lt64 0 r.payload_bytes) || lt64 c.max_append_bytes r.payload_bytes
    then some (failed invalid_argument operation "append ProtoData size exceeds configured limit")
    else if lt64 r.wire_bytes r.payload_bytes
    then some (failed invalid_argument operation "append wire size is smaller than ProtoData size")
    else if lt64 c.max_append_envelope_bytes (sub64 r.wire_bytes r.payload_bytes)
    then some (failed invalid_argument operation "append envelope size exceeds configured limit")
    else none

-- The checks on the stream's state, up to the first append's writer schema.
unfoldable pub check_entry : AppendRequest → StreamEntry → Option Err
check_entry r e =
    if not (is_active e.cleanup_phase)
    then some (failed not_found operation "write stream was discarded")
    else if is_pending e.stream.kind && not (is_open e.stream.state)
    then some (
        failed failed_precondition operation (
          if is_committed e.stream.state
          then "write stream is already committed"
          else "write stream is finalized"))
    else if is_default e.stream.kind && elim r.offset [ none ↦ false | some _ ↦ true ]
    then some (failed invalid_argument operation "offset is not allowed for the default stream")
    else if is_empty r.descriptor && is_empty e.descriptor
    then some (failed invalid_argument operation "writer schema is required on the first append")
    else none

pub record Writer : Type 0 where
  pub descriptor : Bytes
  pub fingerprint : Bytes

-- The descriptor in force: the request's, which must fit its own fingerprint and the stream's, or
-- the one that the stream has.
unfoldable pub choose_descriptor : (Bytes → Bytes) → AppendRequest → StreamEntry → Result Err Writer
choose_descriptor digest r e =
    if is_empty r.descriptor
    then ok (record { descriptor = e.descriptor; fingerprint = e.stream.schema_fingerprint })
    else if not (is_empty r.schema_fingerprint)
        && not (text_eq r.schema_fingerprint (digest r.descriptor))
    then err
        (failed invalid_argument operation "writer schema fingerprint does not match descriptor")
    else if not (is_empty e.stream.schema_fingerprint)
        && not (text_eq (digest r.descriptor) e.stream.schema_fingerprint)
    then err (failed failed_precondition operation "writer schema changed for an existing stream")
    else ok (record { descriptor = r.descriptor; fingerprint = digest r.descriptor })

-- rowsDigest: the hash is fed row by row.
unfoldable pub rows_digest : (Bytes → Bytes) → List Bytes → Bytes
rows_digest digest rows = digest (concat rows)

unfoldable pub check_payload : (Bytes → Bytes) → AppendRequest → Option Err
unfolding rows_digest
check_payload digest r =
    if not (is_empty r.payload_digest) && not (text_eq r.payload_digest (rows_digest digest r.rows))
    then some (failed invalid_argument operation "payload digest does not match ProtoRows")
    else none

unfoldable pub append_receipts_match : PendingReceipt → PendingReceipt → Bool
append_receipts_match a b =
    nat_eq a.start_offset b.start_offset
    && (nat_eq a.row_count b.row_count
        && (text_eq a.schema_fingerprint b.schema_fingerprint
            && text_eq a.payload_digest b.payload_digest))

unfoldable pub new_receipt :
    (Bytes → Bytes) → AppendRequest → StreamEntry → Writer → ℕ → PendingReceipt
new_receipt digest r e w now = record {
  start_offset = e.stream.next_offset;
  row_count = length r.rows;
  schema_fingerprint = w.fingerprint;
  payload_digest = rows_digest digest r.rows;
  phase = receipt_prepared;
  created_at = now;
  updated_at = now;
}

abbrev pub conflicts : Option PendingReceipt → PendingReceipt → Bool
conflicts none r = false
conflicts (some u) r = not (append_receipts_match u r)

-- The offset that the client asks for against the end of the stream.
unfoldable pub check_offset : Option ℕ → ℕ → Option Err
check_offset none start = none
check_offset (some offset) start =
    if lt64 offset start
    then some (failed already_exists operation "append offset already exists")
    else if lt64 start offset
    then some (failed out_of_range operation "append offset is beyond stream end")
    else none

-- An unacknowledged append admits only its exact retry; then the offset is checked.
unfoldable pub check_ledger : AppendRequest → StreamEntry → PendingReceipt → Option Err
unfolding append_receipts_match check_offset
check_ledger r e receipt =
    if conflicts e.unacknowledged receipt
    then some (
        failed failed_precondition operation
          "an unacknowledged append must be retried with the same offset, schema, and payload before the stream can advance")
    else check_offset r.offset e.stream.next_offset

-- The record with its append intent, and with the intent taken back.
unfoldable pub prepared_record : StreamEntry → StreamRecord
unfolding stream_record
prepared_record e = record (stream_record e) {
  operation = append_operation;
  operation_phase = phase_prepared;
  operation_token = format_int e.stream.next_offset;
  revision = add64 e.revision 1;
}

unfoldable pub settled_record : StreamEntry → StreamRecord
unfolding stream_record
settled_record e = record (stream_record e) {
  operation = no_operation;
  operation_phase = phase_none;
  operation_token = [];
  revision = add64 e.revision 1;
}
