-- ===== src/StorageRead/Rows/Resume.antt =====
-- ReadRows as a whole: reading from a resume offset delivers the rest of the stream.
use go_bemu.Base.{
  ℕ, suc, ◌+◌, ◌-◌, ◌≤◌, ◌<◌, ◌≡◌, refl, ltb, List, true, false, Option, none, some, is_empty, ◌||◌,
  arith, Bool-cases, inl, inr,
}
use go_bemu.Words.{half64, lt64, add64_small, sub64_small}
use go_bemu.Maps.{lookup}
use go_bemu.Exec.{Result, ok, err}
use go_bemu.StorageRead.Domain.{Err, Stream, ReadChunk, ReadRowsRequest}
use go_bemu.StorageRead.Service.{SessionState, StreamState, Service, Call, Env}
use go_bemu.StorageRead.Rows.{
  close_result, read_iterator, stream_rows, opened, read_stream, read_rows,
}
use go_bemu.StorageRead.Rows.Coverage.{
  Delivered, stopped, IsTyped, IsDelivered, rows_from-Delivered,
}

Delivered-close :
    {start limit : ℕ} {cs : List ReadChunk} (o : Option Err) (r : Option (Result Err (Unit {0})))
    → Delivered start limit r cs
    → Delivered start limit (close_result o r) cs
Delivered-close none r d = d
Delivered-close (some x) none d = absurd (d.ended refl)
Delivered-close (some x) (some (err e)) d = d
Delivered-close (some x) (some (ok u)) d = record {
  reached = d.reached;
  covers = d.covers;
  within = d.within;
  complete = λ e. cc;
  ended = λ e. cc;
}

ge :
    (start offset limit : ℕ)
    → start + offset ≤ limit
    → limit < half64
    → lt64 (limit - start) offset ≡ false
unfolding lt64
ge start offset limit h hl = ground arith

module _ {W : Type 0} (env : Env W) (send : ReadChunk → Call W) where
  opened-Delivered :
      (max_rows : ℕ) (st : SessionState) (stream : Stream) (start : ℕ)
      → IsTyped env
      → start ≤ stream.end_offset
      → stream.end_offset + max_rows < half64
      → (o : Result Err (Option ℕ) × W)
      → IsDelivered env send start stream.end_offset (opened env send max_rows st stream start o)
  unfolding read_iterator
  opened-Delivered max_rows st stream start ht hs hm (err e, w) = stopped _ hs
  opened-Delivered max_rows st stream start ht hs hm (ok none, w) = stopped _ hs
  opened-Delivered max_rows st stream start ht hs hm (ok (some it), w) = Delivered-close _ _ (
      rows_from-Delivered env send (suc (stream.end_offset - start)) max_rows st stream it start
        true w ht (omega arith) hs hm)

  read_stream-Delivered :
      (max_rows : ℕ) (entry : StreamState) (offset : ℕ) (w : W)
      → IsTyped env
      → entry.stream.start_offset + offset ≤ entry.stream.end_offset
      → entry.stream.end_offset + max_rows < half64
      → IsDelivered env send
          (entry.stream.start_offset + offset)
          entry.stream.end_offset
          (read_stream env send max_rows entry offset w)
  unfolding read_stream stream_rows
  read_stream-Delivered max_rows entry offset w ht ho hm =
      elim (Bool-cases (ltb (env.now w).0 entry.session.session.expire_time)) [
        | inl e ↦
            rw
              (
                e,
                sub64_small entry.stream.end_offset entry.stream.start_offset (omega arith)
                    (omega arith) (omega arith),
                add64_small entry.stream.start_offset offset (omega arith),
                ge entry.stream.start_offset offset entry.stream.end_offset ho (omega arith),
              )
              (opened-Delivered max_rows entry.session entry.stream _ ht ho hm _)
        | inr e ↦ rw e (stopped _ ho)
      ]

  -- ReadRows from an offset within a live stream of the service ends, and the chunks that it sent by
  -- then are, without gap, overlap or empty batch, the rows of the stream from that offset on; if it
  -- ends without an error, they are all of them. The iterator is not trusted, but for the type of
  -- its row counts; the stream's end and the batch limit together fit an int64.
  pub read_rows-Delivered :
      (s : Service) (r : ReadRowsRequest) (entry : StreamState) (w : W)
      → IsTyped env
      → lookup r.stream_name s.streams ≡ some entry
      → entry.stream.start_offset + r.offset ≤ entry.stream.end_offset
      → entry.stream.end_offset + s.config.max_rows_per_response < half64
      → IsDelivered env send
          (entry.stream.start_offset + r.offset)
          entry.stream.end_offset
          (read_rows env send s r w)
  unfolding read_rows
  read_rows-Delivered s r entry w ht he ho hm =
      elim (Bool-cases (is_empty r.stream_name || lt64 r.offset 0)) [
        | inl e ↦ rw e (stopped _ ho)
        | inr e ↦
            rw (e, he)
              (read_stream-Delivered s.config.max_rows_per_response entry r.offset w ht ho hm)
      ]
