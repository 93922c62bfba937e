-- ===== src/StorageWrite/Finalized.antt =====
-- Finalize (internal/storagewrite/application/service.go): what it leaves behind.
use go_bemu.Base.{ℕ, ◌≡◌, none, arith}
use go_bemu.Exec.{ok}
use go_bemu.StorageWrite.Domain.{finalized}
use go_bemu.StorageWrite.Ports.{Env}
use go_bemu.StorageWrite.Service.{StreamEntry, Locked}
use go_bemu.StorageWrite.Invariant.{IsConsistent}
use go_bemu.StorageWrite.Handlers.{finalize_locked, check_finalize}

-- The entry `e'` is the finalized `e`: the rows and the offset are kept, and nothing is in flight.
pub record IsSealed (e e' : StreamEntry) : Type 0 where
  pub state : e'.stream.state ≡ finalized
  pub row_count : e'.stream.row_count ≡ e.stream.row_count
  pub next_offset : e'.stream.next_offset ≡ e.stream.next_offset
  pub kind : e'.stream.kind ≡ e.stream.kind
  pub settled : e'.unacknowledged ≡ none

module _ {W : Type 0} (env : Env W) where
  -- A Finalize that succeeds returns the row count of the stream, and leaves the stream finalized with
  -- its rows as they were and no append in flight.
  pub finalize-IsSealed :
      (l l' : Locked W) (n : ℕ)
      → finalize_locked env l ≡ (ok n, l')
      → (n ≡ l.entry.stream.row_count) × IsSealed l.entry l'.entry
  unfolding finalize_locked check_finalize
  finalize-IsSealed l l' n h = (
    ground arith,
    record {
      state = ground arith;
      row_count = ground arith;
      next_offset = ground arith;
      kind = ground arith;
      settled = ground arith;
    },
  )

  -- Whether it succeeds or fails, Finalize keeps the entry consistent.
  pub finalize-IsConsistent :
      (l : Locked W) → IsConsistent l.entry → IsConsistent (finalize_locked env l).1.entry
  unfolding finalize_locked check_finalize
  finalize-IsConsistent l c = ground arith
