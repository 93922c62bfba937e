-- ===== src/StorageWrite/Commit/Group.antt =====
-- The streams and the commit group in each phase of a commit, `BatchCommit` of
-- internal/storagewrite/application/service.go, and what is written for them.
use go_bemu.Base.{ℕ, Bool, true, false, none, some, List, [], ◌∷◌, ◌++◌, String}
use go_bemu.Words.{add64}
use go_bemu.Text.{Bytes}
use go_bemu.Maps.{Map, put}
use go_bemu.StorageWrite.Domain.{
  committed, no_operation, commit_operation, phase_none, phase_prepared, phase_unresolved,
  StreamError, invalid_stream_state, StreamRecord, CommitGroup, CommitMember, CommitPhase,
  commit_prepared, commit_unresolved, commit_applied, commit_aborted, BatchCommitResult,
}
use go_bemu.StorageWrite.Names.{TableReference}
use go_bemu.StorageWrite.Service.{StreamEntry, stream_record}
use go_bemu.StorageWrite.Commit.Selection.{Named, stream_error, total_rows}

abbrev pub operation : String
operation = "storage_write.batch_commit"

-- The stream in each phase of the commit.
abbrev pub intend : Bytes → StreamEntry → StreamEntry
intend token e = record e {
  operation = commit_operation;
  operation_phase = phase_prepared;
  operation_token = token;
  revision = add64 e.revision 1;
}

abbrev pub unresolve : StreamEntry → StreamEntry
unresolve e = record e { operation_phase = phase_unresolved; revision = add64 e.revision 1 }

abbrev pub release : StreamEntry → StreamEntry
release e = record e {
  operation = no_operation;
  operation_phase = phase_none;
  operation_token = [];
  revision = add64 e.revision 1;
}

abbrev pub apply : ℕ → StreamEntry → StreamEntry
apply t e = record e {
  stream = record (e.stream) { state = committed; commit_time = some t; last_activity = t };
  operation = no_operation;
  operation_phase = phase_none;
  operation_token = [];
  revision = add64 e.revision 1;
}

unfoldable pub update_all : (StreamEntry → StreamEntry) → List Named → List Named
update_all f [] = []
update_all f ((key, e) ∷ ns) = (key, f e) ∷ update_all f ns

unfoldable pub records : List Named → List StreamRecord
records [] = []
records ((key, e) ∷ ns) = stream_record e ∷ records ns

abbrev pub names : List Named → List Bytes
names [] = []
names ((key, e) ∷ ns) = key ∷ names ns

abbrev pub revisions : List Named → List (Bytes × ℕ)
revisions [] = []
revisions ((key, e) ∷ ns) = (key, e.revision) ∷ revisions ns

abbrev pub expected_rows : List Named → List (Bytes × ℕ)
expected_rows [] = []
expected_rows ((key, e) ∷ ns) = (key, e.stream.row_count) ∷ expected_rows ns

abbrev pub members : List Named → List CommitMember
members [] = []
members ((key, e) ∷ ns) =
    record { stream_name = key; expected_row_count = e.stream.row_count } ∷ members ns

-- The streams in hand share their entries with the map.
unfoldable pub set_all : List Named → Map StreamEntry → Map StreamEntry
set_all [] m = m
set_all ((key, e) ∷ ns) m = set_all ns (put key e m)

-- strings.Join(names, "\n")
abbrev pub join_lines : List Bytes → Bytes
join_lines [] = []
join_lines (k ∷ []) = k
join_lines (k ∷ j ∷ ks) = k ++ b'\n' ∷ join_lines (j ∷ ks)

-- int64(len(states))
abbrev pub count : List Named → ℕ
count [] = 0
count (n ∷ ns) = add64 (count ns) 1

abbrev pub rejected : List StreamError → BatchCommitResult
rejected es = record { commit_time = none; stream_errors = es }

abbrev pub mismatch : List Named → List StreamError
mismatch [] = []
mismatch ((key, e) ∷ ns) =
    stream_error invalid_stream_state key "commit retry does not match the unresolved commit group"
    ∷ []

abbrev pub is_prepared_commit : CommitPhase → Bool
is_prepared_commit commit_prepared = true
is_prepared_commit _ = false

abbrev pub new_group : Bytes → TableReference → List Named → ℕ → CommitGroup
new_group id parent ns now = record {
  id = id;
  parent = parent;
  members = members ns;
  expected_row_count = total_rows ns 0;
  phase = commit_prepared;
  created_at = now;
  updated_at = now;
  commit_time = none;
}

abbrev pub unresolved_group : CommitGroup → ℕ → CommitGroup
unresolved_group g t = record g { phase = commit_unresolved; updated_at = t }

abbrev pub aborted_group : CommitGroup → ℕ → CommitGroup
aborted_group g t = record g { phase = commit_aborted; updated_at = t }

abbrev pub applied_group : CommitGroup → ℕ → CommitGroup
applied_group g t = record g { phase = commit_applied; updated_at = t; commit_time = some t }
