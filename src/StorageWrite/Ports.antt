-- ===== src/StorageWrite/Ports.antt =====
-- The outbound interfaces of internal/storagewrite/ports: the clock, the ID generator, the
-- coordinator and the state repository, as functions on the state W of the world behind them. A
-- call returns its error, or `none` for nil, and the world after it. `digest` is the "sha256:..."
-- text of a byte sequence.
use go_bemu.Base.{ℕ, Option, List}
use go_bemu.Text.{Bytes}
use go_bemu.Exec.{Result}
use go_bemu.Catalog.Fields.{Fields}
use go_bemu.StorageWrite.Names.{TableReference}
use go_bemu.StorageWrite.Domain.{
  Err, StreamRecord, AppendReceipt, CommitGroup, StartupSnapshot, AppendBatch, CommitRequest,
}

abbrev pub Call : Type 0 → Type 0
Call W = W → Option Err × W

pub record Coordinator (W : Type 0) : Type 0 where
  pub describe_table : TableReference → W → Result Err Fields × W
  pub append_default : AppendBatch → Call W
  pub stage_pending : AppendBatch → Call W
  pub commit_pending : CommitRequest → Call W
  pub discard_pending : Bytes → Call W

pub record StateRepository (W : Type 0) : Type 0 where
  pub reconcile_startup : ℕ → W → Result Err StartupSnapshot × W
  pub create_stream : StreamRecord → Call W
  pub get_stream : Bytes → W → Result Err StreamRecord × W
  pub update_stream : ℕ → StreamRecord → Call W
  pub delete_stream : Bytes → ℕ → Call W
  pub prepare_append : ℕ → StreamRecord → AppendReceipt → Call W
  pub mark_append_unresolved : ℕ → StreamRecord → AppendReceipt → Call W
  pub complete_append : ℕ → StreamRecord → AppendReceipt → Call W
  pub abort_append : ℕ → StreamRecord → AppendReceipt → Call W
  pub prepare_commit : List (Bytes × ℕ) → List StreamRecord → CommitGroup → Call W
  pub mark_commit_unresolved : List (Bytes × ℕ) → List StreamRecord → CommitGroup → Call W
  pub complete_commit : List (Bytes × ℕ) → List StreamRecord → CommitGroup → Call W
  pub abort_commit : List (Bytes × ℕ) → List StreamRecord → CommitGroup → Call W

pub record Env (W : Type 0) : Type 0 where
  pub now : W → ℕ × W
  pub new_id : W → Bytes × W
  pub coordinator : Coordinator W
  pub repository : StateRepository W
  pub digest : Bytes → Bytes
