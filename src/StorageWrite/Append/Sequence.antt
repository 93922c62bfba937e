-- ===== src/StorageWrite/Append/Sequence.antt =====
-- Many calls of `Append` (internal/storagewrite/application/service.go) on one stream.
use go_bemu.Base.{ℕ, ◌≡◌, refl, subst, List, [], ◌∷◌, inl, inr}
use go_bemu.Words.{add64}
use go_bemu.Exec.{Result, ok, err, Result-cases}
use go_bemu.StorageWrite.Domain.{Err, AppendRequest, AppendResult, WriteStream}
use go_bemu.StorageWrite.Names.{StreamName}
use go_bemu.StorageWrite.Ports.{Env}
use go_bemu.StorageWrite.Service.{Locked}
use go_bemu.StorageWrite.Append.Steps.{append_locked}
use go_bemu.StorageWrite.Append.Ledger.{append_advances}
use go_bemu.StorageWrite.Append.Refusals.{failed_append_keeps_stream}

-- The ranges of the results follow one another from n to m, with no gap and no overlap.
abbrev pub Contiguous : ℕ → List AppendResult → ℕ → Type 0
Contiguous n [] m = n ≡ m
Contiguous n (r ∷ rs) m = (r.start_offset ≡ n) × Contiguous (add64 n r.row_count) rs m

abbrev pub collect : Result Err AppendResult → List AppendResult → List AppendResult
collect (ok r) rs = r ∷ rs
collect (err e) rs = rs

module _ {W : Type 0} (env : Env W) (name : StreamName) where
  -- The accepted results of a list of calls, and the stream after them.
  unfoldable pub append_all : List AppendRequest → Locked W → List AppendResult × Locked W
  append_all [] l = ([], l)
  append_all (r ∷ rs) l =
      let (res, l') = append_locked env name r l in
      let (out, l'') = append_all rs l' in (collect res out, l'')

  -- Over any calls, of which some may fail at any point and be retried, the ranges of the accepted
  -- ones tile the offsets from the stream's end before to its end after.
  pub append_all-Contiguous :
      (rs : List AppendRequest) (l : Locked W)
      → Contiguous l.entry.stream.next_offset
          (append_all rs l).0
          (append_all rs l).1.entry.stream.next_offset
  unfolding append_all
  append_all-Contiguous [] l = refl
  append_all-Contiguous (r ∷ rs) l = elim (Result-cases (append_locked env name r l).0) [
    | inl (res, e) ↦
        let adv =
          append_advances env name r l (append_locked env name r l).1 res
            (λ i. (e i, (append_locked env name r l).1)) in
        let rest = append_all-Contiguous rs (append_locked env name r l).1 in
        rw e (adv.starts_at_end, rw (adv.rows, ← adv.next_offset) rest)
    | inr (x, e) ↦
        let rest = append_all-Contiguous rs (append_locked env name r l).1 in
        rw e (
          subst
            (λ (st : WriteStream).
              Contiguous st.next_offset (append_all rs (append_locked env name r l).1).0
                (append_all rs (append_locked env name r l).1).1.entry.stream.next_offset)
            (failed_append_keeps_stream env name r l x e) rest)
  ]
