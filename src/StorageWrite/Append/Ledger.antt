-- ===== src/StorageWrite/Append/Ledger.antt =====
-- The offset ledger under `Append` (internal/storagewrite/application/service.go).
use go_bemu.Base.{◌≡◌, Bool, true, false, Option, none, some, arith, length}
use go_bemu.Words.{add64}
use go_bemu.Text.{Bytes}
use go_bemu.Exec.{ok, >>=-eq-ok}
use go_bemu.StorageWrite.Domain.{Err, no_operation, AppendRequest, AppendResult, AppendBatch}
use go_bemu.StorageWrite.Names.{StreamName}
use go_bemu.StorageWrite.Ports.{Env}
use go_bemu.StorageWrite.Service.{PendingReceipt, StreamEntry, Locked}
use go_bemu.StorageWrite.Append.Checks.{Writer}
use go_bemu.StorageWrite.Append.Steps.{
  admit, claim, submit, complete, fail_append, finish, append_batch, is_none, append_locked,
}

-- What an accepted append does to its stream.
pub record Advanced (name : StreamName) (r : AppendRequest) (e e' : StreamEntry)
    (res : AppendResult) : Type 0 where
  pub starts_at_end : res.start_offset ≡ e.stream.next_offset
  pub rows : res.row_count ≡ length r.rows
  pub next_offset : e'.stream.next_offset ≡ add64 e.stream.next_offset (length r.rows)
  pub row_count : e'.stream.row_count ≡ add64 e.stream.row_count (length r.rows)
  pub settled : e'.operation ≡ no_operation
  pub acknowledged : e'.unacknowledged ≡ none

module _ {W : Type 0} (env : Env W) where
  complete_lem :
      (name : StreamName) (r : AppendRequest) (w : Writer) (receipt : PendingReceipt)
      (shared : Bool) (l l' : Locked W) (res : AppendResult)
      → complete env name r w receipt shared l ≡ (ok res, l')
      → Advanced name r l.entry l'.entry res
  unfolding complete
  complete_lem name r w receipt true l l' res h = ground arith
  complete_lem name r w receipt false l l' res h = ground arith

  fail_append_lem :
      (name : Bytes) (receipt : PendingReceipt) (shared : Bool) (cause : Err) (l l' : Locked W)
      (res : AppendResult)
      → ¬ (fail_append env name receipt shared cause l ≡ (ok res, l'))
  unfolding fail_append
  fail_append_lem name receipt shared cause l l' res h = ground arith

  finish_lem :
      (name : StreamName) (r : AppendRequest) (w : Writer) (receipt : PendingReceipt)
      (shared : Bool) (o : Option Err) (l l' : Locked W) (res : AppendResult)
      → finish env name r w receipt shared o l ≡ (ok res, l')
      → Advanced name r l.entry l'.entry res
  unfolding finish
  finish_lem name r w receipt shared none l l' res h =
      complete_lem name r w receipt shared l l' res h
  finish_lem name r w receipt shared (some e) l l' res h =
      absurd (fail_append_lem name.canonical receipt shared e l l' res h)

  pub entry-admit : (r : AppendRequest) (l : Locked W) → (admit env r l).1.entry ≡ l.entry
  unfolding admit
  entry-admit r l = ground arith

  pub entry-submit :
      (b : Bool) (batch : AppendBatch) (l : Locked W) → (submit env b batch l).1.entry ≡ l.entry
  unfolding submit
  entry-submit b batch l = ground arith

  pub stream-claim :
      (name : Bytes) (e : StreamEntry) (receipt : PendingReceipt) (l : Locked W)
      → (claim env name e receipt l).1.entry.stream ≡ l.entry.stream
  unfolding claim
  stream-claim name e receipt l = ground arith

  -- An append that is accepted starts at the end of the stream, moves the end and the row count by
  -- the number of its rows, and leaves no append intent behind.
  pub append_advances :
      (name : StreamName) (r : AppendRequest) (l l' : Locked W) (res : AppendResult)
      → append_locked env name r l ≡ (ok res, l')
      → Advanced name r l.entry l'.entry res
  unfolding append_locked
  append_advances name r l l' res h =
      let (a, ha, h1) = >>=-eq-ok _ (admit env r) l h in
      let l1 = (admit env r l).1 in
      let (receipt, hc, h2) = >>=-eq-ok _ (claim env name.canonical l.entry a.1) l1 h1 in
      let l2 = (claim env name.canonical l.entry a.1 l1).1 in
      let batch = append_batch env name r l.entry a.0 receipt in
      let (o, hs, h3) = >>=-eq-ok _ (submit env name.is_default batch) l2 h2 in
      let l3 = (submit env name.is_default batch l2).1 in
      ground (
        arith,
        finish_lem name r a.0 receipt (is_none l.entry.unacknowledged) o l3 l' res h3,
        entry-submit name.is_default batch l2,
        stream-claim name.canonical l.entry a.1 l1,
        entry-admit r l,
      )
