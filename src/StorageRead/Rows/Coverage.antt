-- ===== src/StorageRead/Rows/Coverage.antt =====
-- The chunks that ReadRows sends cover the rows from the resume offset on.
use go_bemu.Base.{
  ℕ, zero, suc, ◌+◌, ◌≤◌, ◌<◌, ◌≡◌, ◌≢◌, refl, Bool, false, Option, none, some, List, [], ◌∷◌,
  arith,
}
use go_bemu.Words.{half64, word64, add64, lt64, add64_small}
use go_bemu.Exec.{Result, ok, err}
use go_bemu.StorageRead.Domain.{Err, Stream, EncodedBatch, ReadChunk}
use go_bemu.StorageRead.Service.{SessionState, Call, Env}
use go_bemu.StorageRead.Rows.{
  Run, check_batch, at_end, rows_from, chunk_of, after_send, after_check, after_next,
}

-- The chunks follow each other without gap or overlap from row `a` to row `b`, none is empty.
abbrev pub Covers : ℕ → List ReadChunk → ℕ → Type 0
Covers a [] b = a ≡ b
Covers a (c ∷ cs) b =
    (c.batch.offset ≡ a) × (0 < c.batch.row_count) × Covers (a + c.batch.row_count) cs b

-- A run that sent `cs` from row `start` on and ended with `r`: it ended, what it sent covers the rows
-- up to some row within the stream, and up to its end if there was no error.
pub record Delivered (start limit : ℕ) (r : Option (Result Err (Unit {0}))) (cs : List ReadChunk)
    : Type 0 where
  pub reached : ℕ
  pub covers : Covers start cs reached
  pub within : reached ≤ limit
  pub complete : r ≡ some (ok tt) → reached ≡ limit
  pub ended : r ≢ none

check_batch_lem :
    (max_rows expected limit : ℕ) (b : EncodedBatch)
    → b.row_count < word64
    → expected ≤ limit
    → limit + max_rows < half64
    → check_batch max_rows expected limit b ≡ none
    → (b.offset ≡ expected) × (0 < b.row_count) × (expected + b.row_count ≤ limit)
unfolding check_batch lt64 add64
check_batch_lem max_rows expected limit b hb he hm h = ground arith

pub stopped : {start limit : ℕ} (y : Err) → start ≤ limit → Delivered start limit (some (err y)) []
stopped {start = start} y h = record {
  reached = start;
  covers = refl;
  within = h;
  complete = λ e. cc;
  ended = λ e. cc;
}

ended :
    (start limit : ℕ) (x : Err)
    → start ≤ limit
    → Delivered start limit (some (at_end start limit x)) []
unfolding at_end
ended start limit x h = record {
  reached = start;
  covers = refl;
  within = h;
  complete = λ e. ground arith;
  ended = λ e. cc;
}

-- One more chunk in front.
more :
    {start limit : ℕ} {r : Option (Result Err (Unit {0}))} {cs : List ReadChunk} (c : ReadChunk)
    → c.batch.offset ≡ start
    → 0 < c.batch.row_count
    → Delivered (start + c.batch.row_count) limit r cs
    → Delivered start limit r (c ∷ cs)
more c ho hc d = record {
  reached = d.reached;
  covers = (ho, hc, d.covers);
  within = d.within;
  complete = d.complete;
  ended = d.ended;
}

-- The row count of a batch is an int64.
abbrev pub IsTyped : {W : Type 0} → Env W → Type 0
IsTyped {W = W} env =
    (it : ℕ) (w : W) (b : EncodedBatch) → (env.next it w).0 ≡ ok b → b.row_count < word64

module _ {W : Type 0} (env : Env W) (send : ReadChunk → Call W) where
  abbrev pub IsDelivered : ℕ → ℕ → Run W → Type 0
  IsDelivered start limit run = Delivered start limit run.0 run.1

  after_send-Delivered :
      {start limit : ℕ} (c : ReadChunk) (k : W → Run W)
      → c.batch.offset ≡ start
      → 0 < c.batch.row_count
      → start + c.batch.row_count ≤ limit
      → ((w : W) → IsDelivered (start + c.batch.row_count) limit (k w))
      → (o : Option Err × W) → IsDelivered start limit (after_send env send c k o)
  after_send-Delivered c k ho hc hl hk (some x, w) = more c ho hc (stopped x hl)
  after_send-Delivered c k ho hc hl hk (none, w) = more c ho hc (hk w)

  after_check-Delivered :
      {start limit : ℕ} (c : ReadChunk) (k : W → Run W)
      → start ≤ limit
      → (o : Option Err) (w : W)
      → (o ≡ none
          → (c.batch.offset ≡ start)
            × (0 < c.batch.row_count)
            × (start + c.batch.row_count ≤ limit)
            × ((v : W) → IsDelivered (start + c.batch.row_count) limit (k v)))
      → IsDelivered start limit (after_check env send c k o w)
  after_check-Delivered c k hs (some x) w hk = stopped x hs
  after_check-Delivered c k hs none w hk =
      let (ho, hc, hl, h) = hk refl in after_send-Delivered c k ho hc hl h (send c w)

  after_next-Delivered :
      (start limit : ℕ) (k : EncodedBatch → W → Run W)
      → start ≤ limit
      → (o : Result Err EncodedBatch × W)
      → ((b : EncodedBatch) → o.0 ≡ ok b → (v : W) → IsDelivered start limit (k b v))
      → IsDelivered start limit (after_next env send start limit k o)
  after_next-Delivered start limit k hs (err e, w) hk = ended start limit e hs
  after_next-Delivered start limit k hs (ok b, w) hk = hk b refl w

  pub rows_from-Delivered :
      (fuel max_rows : ℕ) (st : SessionState) (stream : Stream) (it expected : ℕ) (first : Bool)
      → (w : W) → IsTyped env
      → stream.end_offset < expected + fuel
      → expected ≤ stream.end_offset
      → stream.end_offset + max_rows < half64
      → IsDelivered expected stream.end_offset
          (rows_from env send fuel max_rows st stream it expected first w)
  unfolding rows_from chunk_of
  rows_from-Delivered zero max_rows st stream it expected first w ht hf he hm = absurd (omega arith)
  rows_from-Delivered (suc fuel) max_rows st stream it expected first w ht hf he hm =
      after_next-Delivered expected stream.end_offset _ he (env.next it w) λ b eb v.
        after_check-Delivered (chunk_of st.session stream first b) _ he
          (check_batch max_rows expected stream.end_offset b) v
          λ ec.
            let (ho, hc, hl) =
              check_batch_lem max_rows expected stream.end_offset b (ht it w b eb) he hm ec in
            let next = add64_small expected b.row_count (omega arith) in
            (
              ho,
              hc,
              hl,
              λ u. rw next (
                  rows_from-Delivered fuel max_rows st stream it (expected + b.row_count) false u ht
                    (omega arith) hl hm),
            )
