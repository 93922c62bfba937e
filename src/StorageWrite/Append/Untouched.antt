-- ===== src/StorageWrite/Append/Untouched.antt =====
-- Appends that are refused before the ledger or the backend is touched, in `Append` of
-- internal/storagewrite/application/service.go.
use go_bemu.Base.{
  ℕ, ◌<◌, ◌≡◌, ◌≢◌, refl, sym, ap, ◌∙◌, inl, inr, true, false, none, some, [], ◌∷◌, arith, ◌⊎◌,
  concat, is_empty,
}
use go_bemu.Words.{half64, lt64_small}
use go_bemu.Text.{Bytes, text_eq, text_eq_iff}
use go_bemu.Exec.{ok, err, Result-cases, >>=-eq-ok}
use go_bemu.StorageWrite.Domain.{
  Err, AppendResult, failed, already_exists, out_of_range, AppendRequest, cleanup_active,
  cleanup_pending, cleanup_discarded, CleanupPhase, pending, default, StreamState, open_state,
  finalized, committed, is_active, is_pending, is_open, is_default,
}
use go_bemu.StorageWrite.Names.{StreamName}
use go_bemu.StorageWrite.Ports.{Env}
use go_bemu.StorageWrite.Service.{PendingReceipt, StreamEntry, Locked}
use go_bemu.StorageWrite.Append.Checks.{
  operation, Writer, check_entry, choose_descriptor, check_payload, rows_digest, new_receipt,
  append_receipts_match, check_ledger, check_offset,
}
use go_bemu.StorageWrite.Append.Steps.{admit, append_locked}
use go_bemu.StorageWrite.Append.Ledger.{entry-admit}

-- Why a stream does not take a request. The hash of the environment is `digest`.
pub data IsRefused (digest : Bytes → Bytes) (r : AppendRequest) (e : StreamEntry) : Type 0 where
  discarded : e.cleanup_phase ≢ cleanup_active → IsRefused digest r e
  not_open : e.stream.kind ≡ pending → e.stream.state ≢ open_state → IsRefused digest r e
  offset_on_default : (o : ℕ) → e.stream.kind ≡ default → r.offset ≡ some o → IsRefused digest r e
  misplaced :
      (o : ℕ)
      → o < half64
      → e.stream.next_offset < half64
      → r.offset ≡ some o
      → o ≢ e.stream.next_offset
      → IsRefused digest r e
  without_schema : r.descriptor ≡ [] → e.descriptor ≡ [] → IsRefused digest r e
  other_fingerprint :
      r.descriptor ≢ []
      → r.schema_fingerprint ≢ []
      → r.schema_fingerprint ≢ digest r.descriptor
      → IsRefused digest r e
  other_schema :
      r.descriptor ≢ []
      → e.stream.schema_fingerprint ≢ []
      → digest r.descriptor ≢ e.stream.schema_fingerprint
      → IsRefused digest r e
  other_payload :
      r.payload_digest ≢ [] → r.payload_digest ≢ digest (concat r.rows) → IsRefused digest r e
  other_append :
      (u : PendingReceipt)
      → e.unacknowledged ≡ some u
      → u.payload_digest ≢ digest (concat r.rows)
      → IsRefused digest r e

-- What the checks have found where all of them pass.
record IsAdmitted (digest : Bytes → Bytes) (r : AppendRequest) (e : StreamEntry) : Type 0 where
  entry : check_entry r e ≡ none
  writer : Writer
  chosen : choose_descriptor digest r e ≡ ok writer
  payload : check_payload digest r ≡ none
  now : ℕ
  ledger : check_ledger r e (new_receipt digest r e writer now) ≡ none

active-admitted :
    (r : AppendRequest) (e : StreamEntry)
    → check_entry r e ≡ none
    → is_active e.cleanup_phase ≡ true
unfolding check_entry
active-admitted r e h = ground arith

open-admitted :
    (r : AppendRequest) (e : StreamEntry)
    → check_entry r e ≡ none
    → is_pending e.stream.kind ≡ true
    → is_open e.stream.state ≡ true
unfolding check_entry
open-admitted r e h k = ground arith

default-admitted :
    (r : AppendRequest) (e : StreamEntry) (o : ℕ)
    → check_entry r e ≡ none
    → is_default e.stream.kind ≡ true
    → r.offset ≢ some o
unfolding check_entry
default-admitted r e o h k x = ground arith

schema-admitted :
    (r : AppendRequest) (e : StreamEntry)
    → check_entry r e ≡ none
    → is_empty r.descriptor ≡ true
    → is_empty e.descriptor ≡ false
unfolding check_entry
schema-admitted r e h k = ground arith

is_active_iff : (p : CleanupPhase) → is_active p ≡ true → p ≡ cleanup_active
is_active_iff cleanup_active h = refl
is_active_iff cleanup_pending h = cc
is_active_iff cleanup_discarded h = cc

is_open_iff : (s : StreamState) → is_open s ≡ true → s ≡ open_state
is_open_iff open_state h = refl
is_open_iff finalized h = cc
is_open_iff committed h = cc

not_empty : (s : Bytes) → s ≢ [] → is_empty s ≡ false
not_empty [] h = absurd (h refl)
not_empty (a ∷ s) h = refl

text_apart : (s t : Bytes) → s ≢ t → text_eq s t ≡ false
text_apart s t h = let e = (text_eq_iff s t).0 in ground arith

fingerprint-admitted :
    (digest : Bytes → Bytes) (r : AppendRequest) (e : StreamEntry) (w : Writer)
    → choose_descriptor digest r e ≡ ok w
    → is_empty r.descriptor ≡ false
    → is_empty r.schema_fingerprint ≡ false
    → text_eq r.schema_fingerprint (digest r.descriptor) ≢ false
unfolding choose_descriptor
fingerprint-admitted digest r e w h a b c = ground arith

schema_kept-admitted :
    (digest : Bytes → Bytes) (r : AppendRequest) (e : StreamEntry) (w : Writer)
    → choose_descriptor digest r e ≡ ok w
    → is_empty r.descriptor ≡ false
    → is_empty e.stream.schema_fingerprint ≡ false
    → text_eq (digest r.descriptor) e.stream.schema_fingerprint ≢ false
unfolding choose_descriptor
schema_kept-admitted digest r e w h a b c = ground arith

payload-admitted :
    (digest : Bytes → Bytes) (r : AppendRequest)
    → check_payload digest r ≡ none
    → is_empty r.payload_digest ≡ false
    → text_eq r.payload_digest (digest (concat r.rows)) ≢ false
unfolding check_payload rows_digest
payload-admitted digest r h a c = ground arith

receipt-admitted :
    (r : AppendRequest) (e : StreamEntry) (receipt u : PendingReceipt)
    → check_ledger r e receipt ≡ none
    → e.unacknowledged ≡ some u
    → text_eq u.payload_digest receipt.payload_digest ≢ false
unfolding check_ledger append_receipts_match
receipt-admitted r e receipt u h k c = ground arith

offset-admitted :
    (r : AppendRequest) (e : StreamEntry) (receipt : PendingReceipt)
    → check_ledger r e receipt ≡ none
    → check_offset r.offset e.stream.next_offset ≡ none
unfolding check_ledger
offset-admitted r e receipt h = ground arith

check_offset_apart : (o n : ℕ) → o < half64 → n < half64 → o ≢ n → check_offset (some o) n ≢ none
unfolding check_offset
check_offset_apart o n ho hn d c = d (ground (arith, lt64_small o n, lt64_small n o, c))

-- No request that a stream does not take passes the checks.
refused-IsAdmitted :
    (digest : Bytes → Bytes) (r : AppendRequest) (e : StreamEntry)
    → IsRefused digest r e
    → ¬ IsAdmitted digest r e
unfolding new_receipt rows_digest
refused-IsAdmitted digest r e (discarded d) a =
    d (is_active_iff e.cleanup_phase (active-admitted r e a.entry))
refused-IsAdmitted digest r e (not_open k d) a =
    d (is_open_iff e.stream.state (open-admitted r e a.entry (ap is_pending k)))
refused-IsAdmitted digest r e (offset_on_default o k h) a =
    default-admitted r e o a.entry (ap is_default k) h
refused-IsAdmitted digest r e (misplaced o ho hn h d) a =
    check_offset_apart o e.stream.next_offset ho hn d (
      ap (λ x. check_offset x e.stream.next_offset) (sym h)
      ∙ offset-admitted r e (new_receipt digest r e a.writer a.now) a.ledger)
refused-IsAdmitted digest r e (without_schema h k) a =
    let x = schema-admitted r e a.entry (ap is_empty h) in
    let y : is_empty e.descriptor ≡ true = ap is_empty k in cc
refused-IsAdmitted digest r e (other_fingerprint n k d) a =
    fingerprint-admitted digest r e a.writer a.chosen (not_empty _ n) (not_empty _ k)
      (text_apart _ _ d)
refused-IsAdmitted digest r e (other_schema n k d) a =
    schema_kept-admitted digest r e a.writer a.chosen (not_empty _ n) (not_empty _ k)
      (text_apart _ _ d)
refused-IsAdmitted digest r e (other_payload n d) a =
    payload-admitted digest r a.payload (not_empty _ n) (text_apart _ _ d)
refused-IsAdmitted digest r e (other_append u k d) a =
    receipt-admitted r e (new_receipt digest r e a.writer a.now) u a.ledger k (text_apart _ _ d)

module _ {W : Type 0} (env : Env W) where
  world-admit :
      (r : AppendRequest) (l : Locked W)
      → ((admit env r l).1.world ≡ l.world) ⊎ ((admit env r l).1.world ≡ (env.now l.world).1)
  unfolding admit
  world-admit r l = ground arith

  -- The append fails with nothing done: the entry is the same, and of the ports only the clock was
  -- called.
  abbrev pub IsUntouched : StreamName → AppendRequest → Locked W → Type 0
  IsUntouched name r l =
      (x : Err) × ((append_locked env name r l).0 ≡ err x)
      × ((append_locked env name r l).1.entry ≡ l.entry)
      × (((append_locked env name r l).1.world ≡ l.world)
          ⊎ ((append_locked env name r l).1.world ≡ (env.now l.world).1))

  admit-IsUntouched :
      (name : StreamName) (r : AppendRequest) (l : Locked W) (x : Err)
      → (admit env r l).0 ≡ err x
      → IsUntouched name r l
  unfolding append_locked
  admit-IsUntouched name r l x h =
      (x, ground arith, ground (arith, entry-admit env r l), ground (arith, world-admit r l))

  admit-IsAdmitted :
      (r : AppendRequest) (l : Locked W) (a : Writer × PendingReceipt)
      → (admit env r l).0 ≡ ok a
      → IsAdmitted env.digest r l.entry
  unfolding admit
  admit-IsAdmitted r l a h = record {
    entry = ground arith;
    writer = a.0;
    chosen = ground arith;
    payload = ground arith;
    now = (env.now l.world).0;
    ledger = ground arith;
  }

  -- An append fails, with the entry unchanged and no port called but the clock, if the stream is
  -- discarded; or is a PENDING stream that is not open; or is a default stream and the request
  -- names an offset; or the offset that it names is not the end of the stream, both being
  -- non-negative int64 values; or neither the request nor the stream has a writer schema; or the
  -- digest that comes with the payload is not that of the rows; or the fingerprint that comes with
  -- a writer schema is not that of the schema; or the stream has had another writer schema; or
  -- an append of rows with another digest is unacknowledged.
  pub refused_append-IsUntouched :
      (name : StreamName) (r : AppendRequest) (l : Locked W)
      → IsRefused env.digest r l.entry
      → IsUntouched name r l
  refused_append-IsUntouched name r l h = elim (Result-cases (admit env r l).0) [
    | inl (a, e) ↦ absurd (refused-IsAdmitted env.digest r l.entry h (admit-IsAdmitted r l a e))
    | inr (x, e) ↦ admit-IsUntouched name r l x e
  ]

  offset-admit :
      (r : AppendRequest) (l : Locked W) (a : Writer × PendingReceipt) (o : ℕ) (x : Err)
      → l.entry.stream.kind ≡ pending
      → (admit env (record r { offset = none }) l).0 ≡ ok a
      → check_offset (some o) l.entry.stream.next_offset ≡ some x
      → (admit env (record r { offset = some o }) l).0 ≡ err x
  unfolding admit check_entry choose_descriptor check_payload new_receipt check_ledger rows_digest
  offset-admit r l a o x k h c = ground arith

  refused-admit :
      (name : StreamName) (r : AppendRequest) (l : Locked W) (x : Err)
      → (admit env r l).0 ≡ err x
      → (append_locked env name r l).0 ≡ err x
  unfolding append_locked
  refused-admit name r l x h = ground arith

  -- An append to a PENDING stream that is accepted without an offset is refused with ALREADY_EXISTS
  -- when it names an offset before the end of the stream, and with OUT_OF_RANGE when it names one
  -- beyond it, both being non-negative int64 values.
  pub append-offset_codes :
      (name : StreamName) (r : AppendRequest) (l l' : Locked W) (res : AppendResult) (o : ℕ)
      → o < half64
      → l.entry.stream.next_offset < half64
      → l.entry.stream.kind ≡ pending
      → append_locked env name (record r { offset = none }) l ≡ (ok res, l')
      → (o < l.entry.stream.next_offset
          → (append_locked env name (record r { offset = some o }) l).0
            ≡ err (failed already_exists operation "append offset already exists"))
        × (l.entry.stream.next_offset < o
            → (append_locked env name (record r { offset = some o }) l).0
              ≡ err (failed out_of_range operation "append offset is beyond stream end"))
  unfolding append_locked check_offset
  append-offset_codes name r l l' res o ho hn k h =
      let n = l.entry.stream.next_offset in
      let (a, ha, _) = >>=-eq-ok _ (admit env (record r { offset = none })) l h in
      let refuses = λ (x : Err) (c : check_offset (some o) n ≡ some x).
        refused-admit name (record r { offset = some o }) l x (offset-admit r l a o x k ha c) in
      (
        λ d. refuses _ (ground (arith, lt64_small o n)),
        λ d. refuses _ (ground (arith, lt64_small o n, lt64_small n o)),
      )
