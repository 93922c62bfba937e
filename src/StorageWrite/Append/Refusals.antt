-- ===== src/StorageWrite/Append/Refusals.antt =====
-- Appends that fail, in `Append` of internal/storagewrite/application/service.go.
use go_bemu.Base.{ℕ, ◌<◌, ◌≡◌, refl, sym, ap, ◌∙◌, Bool, true, false, Option, none, some, arith}
use go_bemu.Words.{half64, lt64_small}
use go_bemu.Text.{Bytes}
use go_bemu.Exec.{ok, err, >>=-eq-ok}
use go_bemu.Exec.Keeps.{Keeps, KeepsOnError, >>=-KeepsOnError}
use go_bemu.StorageWrite.Domain.{Err, AppendRequest, AppendResult, AppendBatch, WriteStream}
use go_bemu.StorageWrite.Names.{StreamName}
use go_bemu.StorageWrite.Ports.{Env}
use go_bemu.StorageWrite.Service.{PendingReceipt, StreamEntry, Locked, get_entry}
use go_bemu.StorageWrite.Append.Checks.{Writer, check_ledger, check_offset}
use go_bemu.StorageWrite.Append.Steps.{
  admit, claim, submit, complete, fail_append, finish, append_batch, is_none, append_locked,
}
use go_bemu.StorageWrite.Append.Ledger.{entry-admit, entry-submit, stream-claim, append_advances}

abbrev HasStream : {W : Type 0} → WriteStream → Locked W → Type 0
HasStream st l = l.entry.stream ≡ st

module _ {W : Type 0} (env : Env W) where
  stream-fail_append :
      (name : Bytes) (receipt : PendingReceipt) (shared : Bool) (cause : Err) (l : Locked W)
      → (fail_append env name receipt shared cause l).1.entry.stream ≡ l.entry.stream
  unfolding fail_append
  stream-fail_append name receipt true cause l = ground arith
  stream-fail_append name receipt false cause l = ground arith

  stream-complete :
      (name : StreamName) (r : AppendRequest) (w : Writer) (receipt : PendingReceipt)
      (shared : Bool) (l : Locked W) (x : Err)
      → (complete env name r w receipt shared l).0 ≡ err x
      → (complete env name r w receipt shared l).1.entry.stream ≡ l.entry.stream
  unfolding complete
  stream-complete name r w receipt true l x h = ground arith
  stream-complete name r w receipt false l x h = ground arith

  stream-finish :
      (name : StreamName) (r : AppendRequest) (w : Writer) (receipt : PendingReceipt)
      (shared : Bool) (o : Option Err) (l : Locked W) (x : Err)
      → (finish env name r w receipt shared o l).0 ≡ err x
      → (finish env name r w receipt shared o l).1.entry.stream ≡ l.entry.stream
  unfolding finish
  stream-finish name r w receipt shared none l x h = stream-complete name r w receipt shared l x h
  stream-finish name r w receipt shared (some e) l x h =
      stream-fail_append name.canonical receipt shared e l

  Keeps-admit : (st : WriteStream) (r : AppendRequest) → Keeps (HasStream st) (admit env r)
  Keeps-admit st r = record {
    at = λ l h. ap (λ (e : StreamEntry). e.stream) (entry-admit env r l) ∙ h;
  }

  Keeps-claim :
      (st : WriteStream) (name : Bytes) (e : StreamEntry) (receipt : PendingReceipt)
      → Keeps (HasStream st) (claim env name e receipt)
  Keeps-claim st name e receipt = record { at = λ l h. stream-claim env name e receipt l ∙ h }

  Keeps-submit :
      (st : WriteStream) (b : Bool) (batch : AppendBatch)
      → Keeps (HasStream st) (submit env b batch)
  Keeps-submit st b batch = record {
    at = λ l h. ap (λ (e : StreamEntry). e.stream) (entry-submit env b batch l) ∙ h;
  }

  KeepsOnError-finish :
      (st : WriteStream) (name : StreamName) (r : AppendRequest) (w : Writer)
      (receipt : PendingReceipt) (shared : Bool) (o : Option Err)
      → KeepsOnError (HasStream st) (finish env name r w receipt shared o)
  KeepsOnError-finish st name r w receipt shared o = record {
    at = λ l h x e. stream-finish name r w receipt shared o l x e ∙ h;
  }

  KeepsOnError-append :
      (st : WriteStream) (name : StreamName) (r : AppendRequest)
      → KeepsOnError (HasStream st) (append_locked env name r)
  unfolding append_locked
  KeepsOnError-append st name r =
      >>=-KeepsOnError _ get_entry (record { at = λ l h. h })
        λ e. >>=-KeepsOnError _ (admit env r) (Keeps-admit st r) λ a.
          >>=-KeepsOnError _ (claim env name.canonical e a.1) (Keeps-claim st name.canonical e a.1)
            λ receipt.
              >>=-KeepsOnError _
                (submit env name.is_default (append_batch env name r e a.0 receipt))
                (Keeps-submit st name.is_default (append_batch env name r e a.0 receipt))
                λ o. KeepsOnError-finish st name r a.0 receipt (is_none e.unacknowledged) o

  -- Whatever makes an append fail, a check, the repository or the backend: the stream's row count,
  -- end offset and state are what they were.
  pub failed_append_keeps_stream :
      (name : StreamName) (r : AppendRequest) (l : Locked W) (x : Err)
      → (append_locked env name r l).0 ≡ err x
      → (append_locked env name r l).1.entry.stream ≡ l.entry.stream
  failed_append_keeps_stream name r l x h =
      (KeepsOnError-append l.entry.stream name r).at l refl x h

  check-admit :
      (r : AppendRequest) (l : Locked W) (a : Writer × PendingReceipt)
      → (admit env r l).0 ≡ ok a
      → check_offset r.offset l.entry.stream.next_offset ≡ none
  unfolding admit check_ledger
  check-admit r l a h = ground arith

  -- An append that is accepted and names an offset names the end of the stream, both being
  -- non-negative int64 values, and the response reports that offset.
  pub accepted_offset :
      (name : StreamName) (r : AppendRequest) (l l' : Locked W) (res : AppendResult) (o : ℕ)
      → o < half64
      → l.entry.stream.next_offset < half64
      → r.offset ≡ some o
      → append_locked env name r l ≡ (ok res, l')
      → (o ≡ l.entry.stream.next_offset) × (o ≡ res.start_offset)
  unfolding append_locked check_offset
  accepted_offset name r l l' res o ho hn e h =
      let (a, ha, h1) = >>=-eq-ok _ (admit env r) l h in
      let c = check-admit r l a ha in
      let at_end : o ≡ l.entry.stream.next_offset = ground (
        arith,
        lt64_small o l.entry.stream.next_offset,
        lt64_small l.entry.stream.next_offset o,
        c,
      ) in
      (at_end, at_end ∙ sym (append_advances env name r l l' res h).starts_at_end)
