-- ===== src/StorageRead/Rows.antt =====
-- ReadRows (internal/storageread/application/read_rows.go): the range of a stream from a resume
-- offset on, batch by batch. The chunks that `send` was called with are a part of the result.
pub mod Coverage
pub mod Resume
use go_bemu.Base.{
  ℕ, zero, suc, ◌+◌, ◌-◌, Bool, true, false, not, ◌||◌, Option, none, some, List, [], ◌∷◌, String,
  nat_eq, ltb, is_empty, if◌then◌else◌,
}
use go_bemu.Words.{add64, sub64, lt64}
use go_bemu.Text.{Bytes}
use go_bemu.Maps.{lookup}
use go_bemu.Errors.{coded, is, Sentinel}
use go_bemu.Exec.{Result, ok, err}
use go_bemu.StorageRead.Domain.{
  Err, failed, invalid_argument, not_found, unavailable, internal, Stream, Session,
  SessionLifecycle, session_active, session_expired, session_unavailable, PersistedStream,
  EncodedBatch, ReadRowsRequest, Progress, ReadChunk, ReferenceSchema,
}
use go_bemu.StorageRead.Service.{
  SessionState, StreamState, Service, Call, Env, Machine, classify_state_failure,
}

abbrev operation : String
operation = "storage_read.read_rows"

-- domain.Stream.RowCount
unfoldable pub stream_rows : Stream → ℕ
stream_rows s = sub64 s.end_offset s.start_offset

unfoldable pub progress : Stream → ℕ → Progress
progress s absolute =
    if nat_eq (stream_rows s) 0
    then record { done = 1; total = 1 }
    else record { done = sub64 absolute s.start_offset; total = stream_rows s }

-- What the loop demands of the next batch.
unfoldable pub check_batch : ℕ → ℕ → ℕ → EncodedBatch → Option Err
check_batch max_rows expected limit b =
    if not (nat_eq b.offset expected)
      || not (lt64 0 b.row_count)
      || lt64 max_rows b.row_count
      || lt64 limit (add64 b.offset b.row_count)
    then some (failed internal operation "non-contiguous snapshot batch")
    else none

-- The first chunk carries the schema.
unfoldable pub chunk_of : Session → Stream → Bool → EncodedBatch → ReadChunk
chunk_of session stream first b = record {
  format = session.format;
  schema = if first then some session.schema else none;
  batch = b;
  progress_start = progress stream b.offset;
  progress_end = progress stream (add64 b.offset b.row_count);
}

-- The iterator's last word.
unfoldable pub at_end : ℕ → ℕ → Err → Result Err (Unit {0})
at_end expected limit e =
    if is e Sentinel.eof
    then (if nat_eq expected limit
        then ok tt
        else err (failed internal operation "snapshot ended early"))
    else err (coded internal operation e)

-- How a run ended (`none` if the fuel was too small) and the chunks that it handed to `send`.
abbrev pub Run : Type 0 → Type 0
Run W = Option (Result Err (Unit {0})) × List ReadChunk × W

-- The deferred Close: its error counts if the run brought none.
abbrev pub close_result :
    Option Err → Option (Result Err (Unit {0})) → Option (Result Err (Unit {0}))
close_result none r = r
close_result (some x) none = none
close_result (some x) (some (err e)) = some (err e)
close_result (some x) (some (ok u)) = some (err (coded internal operation x))

module _ {W : Type 0} (env : Env W) (send : ReadChunk → Call W) where
  -- One turn of the loop, with what comes after it: the send's outcome, the check's, the iterator's.
  abbrev pub after_send : ReadChunk → (W → Run W) → Option Err × W → Run W
  after_send c k (some x, w) = (some (err x), c ∷ [], w)
  after_send c k (none, w) = let (r, cs, w') = k w in (r, c ∷ cs, w')

  abbrev pub after_check : ReadChunk → (W → Run W) → Option Err → W → Run W
  after_check c k (some x) w = (some (err x), [], w)
  after_check c k none w = after_send c k (send c w)

  abbrev pub after_next : ℕ → ℕ → (EncodedBatch → W → Run W) → Result Err EncodedBatch × W → Run W
  after_next expected limit k (err e, w) = (some (at_end expected limit e), [], w)
  after_next expected limit k (ok b, w) = k b w

  -- `for { ... }`
  unfoldable pub rows_from : ℕ → ℕ → SessionState → Stream → ℕ → ℕ → Bool → W → Run W
  rows_from zero max_rows st stream it expected first w = (none, [], w)
  rows_from (suc fuel) max_rows st stream it expected first w =
      after_next expected stream.end_offset
        (λ b.
          after_check (chunk_of st.session stream first b)
            (rows_from fuel max_rows st stream it (add64 expected b.row_count) false)
            (check_batch max_rows expected stream.end_offset b))
        (env.next it w)

  abbrev pub closing : ℕ → Run W → Run W
  closing it (r, cs, w) =
      let (failure, w') = env.close_iterator it w in (close_result failure r, cs, w')

  -- As many turns as the range has rows, and one more for the iterator's end.
  unfoldable pub read_iterator : ℕ → SessionState → Stream → ℕ → ℕ → W → Run W
  read_iterator max_rows st stream start it w =
      closing it (rows_from (suc (stream.end_offset - start)) max_rows st stream it start true w)

  abbrev pub opened : ℕ → SessionState → Stream → ℕ → Result Err (Option ℕ) × W → Run W
  opened max_rows st stream start (err e, w) = (some (err (coded internal operation e)), [], w)
  opened max_rows st stream start (ok none, w) =
      (some (err (failed internal operation "snapshot returned a nil batch iterator")), [], w)
  opened max_rows st stream start (ok (some it), w) = read_iterator max_rows st stream start it w

  -- The stream is found: its session must live, and the offset must lie in it.
  unfoldable pub read_stream : ℕ → StreamState → ℕ → W → Run W
  read_stream max_rows entry offset w =
      let (now, w1) = env.now w in
      if not (ltb now entry.session.session.expire_time)
      then (some (err (failed not_found operation "read session expired")), [], w1)
      else if lt64 (stream_rows entry.stream) offset
      then (
        some (err (failed invalid_argument operation "offset exceeds stream row count")),
        [],
        w1,
      )
      else let start = add64 entry.stream.start_offset offset in
        opened max_rows entry.session entry.stream start
          (env.open_range entry.session.snapshot start entry.stream.end_offset max_rows w1)

  abbrev persisted_error : Result Err PersistedStream → Err
  persisted_error (err e) =
      if is e Sentinel.session_state_not_found
      then coded not_found operation e
      else classify_state_failure operation e
  persisted_error (ok s) = elim s.lifecycle [
    | session_expired ↦ failed not_found operation "read session expired"
    | session_active ↦ failed unavailable operation "read session snapshot is unavailable"
    | session_unavailable ↦ failed unavailable operation "read session snapshot is unavailable"
  ]

  -- A stream that this process does not hold.
  unfoldable pub persisted_stream_error : Bytes → W → Run W
  persisted_stream_error name w =
      let (s, w') = env.get_stream name w in (some (err (persisted_error s)), [], w')

  abbrev pub found : ℕ → ReadRowsRequest → Option StreamState → W → Run W
  found max_rows r none w = persisted_stream_error r.stream_name w
  found max_rows r (some entry) w = read_stream max_rows entry r.offset w

  -- ReadRows with a sender; it reads the service's state and leaves it as it is.
  unfoldable pub read_rows : Service → ReadRowsRequest → W → Run W
  read_rows s r w =
      if is_empty r.stream_name || lt64 r.offset 0
      then (
        some (
            err (
              failed invalid_argument operation
                "stream, non-negative offset, and sender are required")),
        [],
        w,
      )
      else found s.config.max_rows_per_response r (lookup r.stream_name s.streams) w
