-- ===== src/StorageWrite/Append/Consistency.antt =====
-- `Append` (internal/storagewrite/application/service.go) keeps the invariant of a stream's entry.
use go_bemu.Base.{◌≡◌, ◌≢◌, sym, ◌∙◌, subst, Bool, true, false, Option, none, some, arith}
use go_bemu.Numerals.{format_int}
use go_bemu.Text.{Bytes}
use go_bemu.Exec.{ok, err}
use go_bemu.Exec.Keeps.{>>=-post}
use go_bemu.StorageWrite.Domain.{
  Err, pending, append_operation, phase_none, is_open, AppendRequest, AppendBatch,
}
use go_bemu.StorageWrite.Names.{StreamName}
use go_bemu.StorageWrite.Ports.{Env}
use go_bemu.StorageWrite.Service.{PendingReceipt, StreamEntry, Locked}
use go_bemu.StorageWrite.Invariant.{IsConsistent}
use go_bemu.StorageWrite.Append.Checks.{Writer, check_entry}
use go_bemu.StorageWrite.Append.Steps.{
  admit, claim, submit, complete, note_unresolved, mark_unresolved, abort, fail_append, finish,
  append_batch, is_none, append_locked,
}
use go_bemu.StorageWrite.Append.Ledger.{entry-admit, entry-submit}

-- Between the claim and the outcome: the intent is recorded for this receipt.
record InFlight (receipt : PendingReceipt) (e : StreamEntry) : Type 0 where
  busy : e.operation ≡ append_operation
  phase : e.operation_phase ≢ phase_none
  token : e.operation_token ≡ format_int e.stream.next_offset
  stored : e.unacknowledged ≡ some receipt
  start : receipt.start_offset ≡ e.stream.next_offset
  takes_appends : e.stream.kind ≡ pending → is_open e.stream.state ≡ true
  rows : e.stream.row_count ≡ e.stream.next_offset

module _ {W : Type 0} (env : Env W) where
  admitted_checks :
      (r : AppendRequest) (l : Locked W) (w : Writer) (receipt : PendingReceipt)
      → (admit env r l).0 ≡ ok (w, receipt)
      → (check_entry r l.entry ≡ none) × (receipt.start_offset ≡ l.entry.stream.next_offset)
  unfolding admit
  admitted_checks r l w receipt h = ground arith

  claim-InFlight :
      (name : Bytes) (r : AppendRequest) (e : StreamEntry) (receipt rc : PendingReceipt)
      (l : Locked W)
      → l.entry ≡ e
      → IsConsistent e
      → check_entry r e ≡ none
      → receipt.start_offset ≡ e.stream.next_offset
      → (claim env name e receipt l).0 ≡ ok rc
      → InFlight rc (claim env name e receipt l).1.entry
  unfolding claim check_entry
  claim-InFlight name r e receipt rc l same c k s h = ground arith

  claim_err :
      (name : Bytes) (e : StreamEntry) (receipt : PendingReceipt) (l : Locked W) (x : Err)
      → (claim env name e receipt l).0 ≡ err x
      → (claim env name e receipt l).1.entry ≡ l.entry
  unfolding claim
  claim_err name e receipt l x h = ground arith

  InFlight-IsConsistent :
      (receipt : PendingReceipt) (e : StreamEntry) → InFlight receipt e → IsConsistent e
  InFlight-IsConsistent receipt e h = ground arith

  complete-IsConsistent :
      (name : StreamName) (r : AppendRequest) (w : Writer) (receipt : PendingReceipt)
      (shared : Bool) (l : Locked W)
      → InFlight receipt l.entry
      → IsConsistent (complete env name r w receipt shared l).1.entry
  unfolding complete
  complete-IsConsistent name r w receipt true l h = ground arith
  complete-IsConsistent name r w receipt false l h = ground arith

  note_unresolved-IsConsistent :
      (name : Bytes) (receipt : PendingReceipt) (shared : Bool) (cause : Err) (l : Locked W)
      → InFlight receipt l.entry
      → IsConsistent (note_unresolved env name receipt shared cause l).1.entry
  unfolding note_unresolved
  note_unresolved-IsConsistent name receipt true cause l h = ground arith
  note_unresolved-IsConsistent name receipt false cause l h = ground arith

  abort-IsConsistent :
      (name : Bytes) (receipt : PendingReceipt) (cause : Err) (l : Locked W)
      → InFlight receipt l.entry
      → IsConsistent (abort env name receipt cause l).1.entry
  unfolding abort
  abort-IsConsistent name receipt cause l h = ground arith

  fail_append-IsConsistent :
      (name : Bytes) (receipt : PendingReceipt) (shared : Bool) (cause : Err) (l : Locked W)
      → InFlight receipt l.entry
      → IsConsistent (fail_append env name receipt shared cause l).1.entry
  unfolding fail_append mark_unresolved
  fail_append-IsConsistent name receipt shared cause l h = ground (
    arith,
    note_unresolved-IsConsistent name receipt shared cause l h,
    abort-IsConsistent name receipt cause l h,
    InFlight-IsConsistent receipt l.entry h,
  )

  finish-IsConsistent :
      (name : StreamName) (r : AppendRequest) (w : Writer) (receipt : PendingReceipt)
      (shared : Bool) (o : Option Err) (l : Locked W)
      → InFlight receipt l.entry
      → IsConsistent (finish env name r w receipt shared o l).1.entry
  unfolding finish
  finish-IsConsistent name r w receipt shared none l h =
      complete-IsConsistent name r w receipt shared l h
  finish-IsConsistent name r w receipt shared (some e) l h =
      fail_append-IsConsistent name.canonical receipt shared e l h

  submit_never_fails :
      (b : Bool) (batch : AppendBatch) (l : Locked W) (x : Err)
      → ¬ ((submit env b batch l).0 ≡ err x)
  unfolding submit
  submit_never_fails b batch l x h = cc

  -- Every run of an append, accepted, refused or of unknown outcome, keeps the entry consistent.
  pub append-IsConsistent :
      (name : StreamName) (r : AppendRequest) (l : Locked W)
      → IsConsistent l.entry
      → IsConsistent (append_locked env name r l).1.entry
  unfolding append_locked
  append-IsConsistent name r l c =
      >>=-post At (admit env r) _ l (λ x h. subst IsConsistent (sym (entry-admit env r l)) c)
        λ a ha.
          let l1 = (admit env r l).1 in
          let (k, s) = admitted_checks r l a.0 a.1 ha in
          >>=-post At (claim env name.canonical l.entry a.1) _ l1
            (λ x h.
              subst IsConsistent
                (sym (claim_err name.canonical l.entry a.1 l1 x h ∙ entry-admit env r l)) c)
            λ receipt hc.
              let flying =
                claim-InFlight name.canonical r l.entry a.1 receipt l1 (entry-admit env r l) c k s
                  hc in
              let l2 = (claim env name.canonical l.entry a.1 l1).1 in
              let batch = append_batch env name r l.entry a.0 receipt in
              >>=-post At (submit env name.is_default batch) _ l2
                (λ x h. absurd (submit_never_fails name.is_default batch l2 x h))
                λ o ho.
                  finish-IsConsistent name r a.0 receipt (is_none l.entry.unacknowledged) o _ (
                    subst (InFlight receipt) (sym (entry-submit env name.is_default batch l2))
                      flying)
    where
      At : Locked W → Type 0
      At x = IsConsistent x.entry
