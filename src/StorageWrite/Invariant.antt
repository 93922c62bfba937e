-- ===== src/StorageWrite/Invariant.antt =====
-- What holds of a stream's entry (`streamState` of internal/storagewrite/application/service.go)
-- between two operations.
use go_bemu.Base.{ℕ, ◌≡◌, ◌≢◌, true, Option, none, some, []}
use go_bemu.Numerals.{format_int}
use go_bemu.StorageWrite.Domain.{
  pending, finalized, no_operation, append_operation, commit_operation, phase_none, is_open,
}
use go_bemu.StorageWrite.Service.{PendingReceipt, StreamEntry}

-- A receipt is there, and starts at n.
abbrev pub StartsAt : Option PendingReceipt → ℕ → Type 0
StartsAt none n = ⊥
StartsAt (some u) n = u.start_offset ≡ n

-- The operation in course, its phase, its token and the unacknowledged receipt fit together; the
-- row count is the end offset; an append is open only on a stream that takes appends, and a commit
-- only on a finalized PENDING stream.
pub record IsConsistent (e : StreamEntry) : Type 0 where
  pub idle_phase : e.operation ≡ no_operation → e.operation_phase ≡ phase_none
  pub idle_token : e.operation ≡ no_operation → e.operation_token ≡ []
  pub idle_ack : e.operation ≡ no_operation → e.unacknowledged ≡ none
  pub busy_phase : e.operation ≢ no_operation → e.operation_phase ≢ phase_none
  pub append_token :
      e.operation ≡ append_operation → e.operation_token ≡ format_int e.stream.next_offset
  pub append_receipt :
      e.operation ≡ append_operation → StartsAt e.unacknowledged e.stream.next_offset
  pub append_open :
      e.operation ≡ append_operation → e.stream.kind ≡ pending → is_open e.stream.state ≡ true
  pub commit_ack : e.operation ≡ commit_operation → e.unacknowledged ≡ none
  pub commit_kind : e.operation ≡ commit_operation → e.stream.kind ≡ pending
  pub commit_state : e.operation ≡ commit_operation → e.stream.state ≡ finalized
  pub rows : e.stream.row_count ≡ e.stream.next_offset
