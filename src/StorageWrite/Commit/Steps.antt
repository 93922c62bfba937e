-- ===== src/StorageWrite/Commit/Steps.antt =====
-- `BatchCommit` (internal/storagewrite/application/service.go): the group's intent, the one backend
-- transaction, and its outcome. The locks on the named streams make the whole one step.
use go_bemu.Base.{ℕ, ◌&&◌, Option, none, some, List, [], ◌∷◌, ◌++◌, is_empty, if◌then◌else◌}
use go_bemu.Words.{sub64}
use go_bemu.Text.{Bytes}
use go_bemu.Maps.{lookup, put}
use go_bemu.Errors.{coded, joined}
use go_bemu.Exec.{Exec, Result, ok, err, pure, raise, lift, fail_if, ◌>>=◌, ◌>>◌}
use go_bemu.StorageWrite.Domain.{
  invalid_argument, internal, Err, failed, StreamError, StreamRecord, CommitGroup,
  BatchCommitResult,
}
use go_bemu.StorageWrite.Names.{TableReference, name, parse_table_name}
use go_bemu.StorageWrite.Ports.{Call, Env}
use go_bemu.StorageWrite.Service.{
  StreamEntry, Machine, classify_state_error, coordinator_error_code, append_outcome_is_ambiguous,
}
use go_bemu.StorageWrite.Registry.{parsed, ensure_state_reconciled, read_clock}
use go_bemu.StorageWrite.Commit.Selection.{
  Named, choose_all, problems, selected, sort_named, check_members, find_stranger,
  commit_group_matches, is_pending_commit,
}
use go_bemu.StorageWrite.Commit.Group.{
  operation, intend, unresolve, release, apply, update_all, records, names, revisions,
  expected_rows, set_all, join_lines, count, rejected, mismatch, is_prepared_commit, new_group,
  unresolved_group, aborted_group, applied_group,
}

module _ {W : Type 0} (env : Env W) where
  open env use {coordinator, repository}

  abbrev store_all : List Named → CommitGroup → Exec (Machine W) Err (Unit {0})
  store_all ns g s = (
    ok tt,
    record s {
      service = record (s.service) {
        streams = set_all ns s.service.streams;
        commit_groups = put g.id g s.service.commit_groups;
      };
    },
  )

  abbrev settle : Option Err → Machine W → Option Err × W → Result Err (Unit {0}) × Machine W
  settle cause s (none, w) = (ok tt, record s { world = w })
  settle none s (some e, w) = (err (classify_state_error operation e), record s { world = w })
  settle (some cause) s (some e, w) =
      (err (classify_state_error operation (joined cause e)), record s { world = w })

  -- A repository call that records the streams and the group, then the same in memory.
  unfoldable pub transition :
      Option Err
      → (List (Bytes × ℕ) → List StreamRecord → CommitGroup → Call W)
      → (StreamEntry → StreamEntry)
      → List Named
      → CommitGroup
      → Exec (Machine W) Err (Unit {0})
  transition cause call f ns g = do
    λ s. settle cause s (call (revisions ns) (records (update_all f ns)) g s.world)
    store_all (update_all f ns) g

  -- s.pending.Add(-int64(len(states))), and the response.
  abbrev pub report : List Named → ℕ → Exec (Machine W) Err BatchCommitResult
  report ns t s = (
    ok (record { commit_time = some t; stream_errors = [] }),
    record s { service = record (s.service) { pending = sub64 s.service.pending (count ns) } },
  )

  -- A new group, with its intent recorded.
  unfoldable pub prepare_group :
      CommitGroup → List Named → Exec (Machine W) Err (CommitGroup × List Named)
  prepare_group g ns = do
    transition none repository.prepare_commit (intend g.id) ns g
    pure (g, update_all (intend g.id) ns)

  unfoldable pub open_group :
      TableReference → List Named → Exec (Machine W) Err (CommitGroup × List Named)
  open_group parent ns = do
    now ← read_clock env
    id ← λ s. let (i, w) = env.new_id s.world in (ok i, record s { world = w })
    prepare_group (new_group (env.digest (id ++ b'\n' ∷ join_lines (names ns))) parent ns now) ns

  unfoldable pub submit_commit :
      TableReference → List Named → CommitGroup → Exec (Machine W) Err (Option Err)
  submit_commit parent ns g s =
      let (e, w) =
        coordinator.commit_pending
          (record {
            parent = parent;
            stream_names = names ns;
            group_id = g.id;
            expected_row_counts = expected_rows ns;
          })
          s.world in
      (ok e, record s { world = w })

  -- The outcome is not known: the group becomes unresolved, once.
  unfoldable pub suspend : List Named → CommitGroup → Err → Exec (Machine W) Err (Unit {0})
  suspend ns g cause = do
    t ← read_clock env
    transition (some cause) repository.mark_commit_unresolved unresolve ns (unresolved_group g t)

  -- The backend refused: the streams are released.
  unfoldable pub abort_group : List Named → CommitGroup → Err → Exec (Machine W) Err (Unit {0})
  abort_group ns g cause = do
    t ← read_clock env
    transition (some cause) repository.abort_commit release ns (aborted_group g t)

  unfoldable pub close_intent : List Named → CommitGroup → Err → Exec (Machine W) Err (Unit {0})
  close_intent ns g cause s =
      if append_outcome_is_ambiguous cause
      then (if is_prepared_commit g.phase then suspend ns g cause s else (ok tt, s))
      else abort_group ns g cause s

  unfoldable pub fail_commit :
      List Named → CommitGroup → Err → Exec (Machine W) Err BatchCommitResult
  fail_commit ns g cause = do
    close_intent ns g cause
    raise (coded (coordinator_error_code cause internal) operation cause)

  -- The transaction is in: every stream of the group is committed at one time.
  unfoldable pub conclude : List Named → CommitGroup → Exec (Machine W) Err BatchCommitResult
  conclude ns g = do
    t ← read_clock env
    transition none repository.complete_commit (apply t) ns (applied_group g t)
    report ns t

  abbrev pub outcome :
      List Named → CommitGroup → Option Err → Exec (Machine W) Err BatchCommitResult
  outcome ns g none s = conclude ns g s
  outcome ns g (some cause) s = fail_commit ns g cause s

  unfoldable pub run_group :
      TableReference → List Named → CommitGroup → Exec (Machine W) Err BatchCommitResult
  run_group parent ns g = do result ← submit_commit parent ns g; outcome ns g result

  -- A retry runs the stored group again if it is this one and its outcome is open.
  unfoldable pub retry_group :
      TableReference
      → List Named
      → Option StreamError
      → Option CommitGroup
      → Exec (Machine W) Err BatchCommitResult
  retry_group parent ns (some e) g s = (ok (rejected (e ∷ [])), s)
  retry_group parent ns none none s = (ok (rejected (mismatch ns)), s)
  retry_group parent ns none (some g) s =
      if commit_group_matches g parent ns && is_pending_commit g.phase
      then run_group parent ns g s
      else (ok (rejected (mismatch ns)), s)

  unfoldable pub start_group : TableReference → List Named → Exec (Machine W) Err BatchCommitResult
  start_group parent ns = do opened ← open_group parent ns; run_group parent opened.1 opened.0

  unfoldable pub retry_stored :
      TableReference → List Named → Bytes → Exec (Machine W) Err BatchCommitResult
  retry_stored parent ns group s =
      retry_group parent ns (find_stranger group ns) (lookup group s.service.commit_groups) s

  -- The streams that are selected and sorted, with what the `switch` over them found.
  unfoldable pub commit_selected :
      TableReference
      → List Named
      → List StreamError
      → Bytes
      → Exec (Machine W) Err BatchCommitResult
  commit_selected parent ns (e ∷ es) group s = (ok (rejected (e ∷ es)), s)
  commit_selected parent ns [] group s =
      if is_empty group then start_group parent ns s else retry_stored parent ns group s

  abbrev pub commit_chosen :
      TableReference → List StreamError → List Named → Exec (Machine W) Err BatchCommitResult
  commit_chosen parent (e ∷ es) ns s = (ok (rejected (e ∷ es)), s)
  commit_chosen parent [] ns s =
      let (es, group) = check_members [] ns in commit_selected parent ns es group s

  -- Validation and commit, on the registry as it stands.
  unfoldable pub commit_names : TableReference → List Bytes → Exec (Machine W) Err BatchCommitResult
  commit_names parent keys s =
      let choices = choose_all s.service parent [] keys in
      commit_chosen parent (problems choices) (sort_named (selected choices)) s

  unfoldable pub batch_commit : TableReference → List Bytes → Exec (Machine W) Err BatchCommitResult
  batch_commit parent keys = do
    ensure_state_reconciled operation
    table ← lift (parsed operation (parse_table_name (name parent)))
    fail_if (is_empty keys) (failed invalid_argument operation "at least one stream is required")
    commit_names parent keys
