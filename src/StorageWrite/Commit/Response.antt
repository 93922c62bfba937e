-- ===== src/StorageWrite/Commit/Response.antt =====
-- BatchCommit (internal/storagewrite/application/service.go) commits all that is named, or nothing.
use go_bemu.Base.{
  ◌≡◌, ◌≢◌, refl, ◌∙◌, subst, ◌⊎◌, inl, inr, Bool, true, false, Option, none, some, List, [], ◌∷◌,
  arith, if◌then◌else◌, All, is_empty, ◌&&◌,
}
use go_bemu.Text.{Bytes}
use go_bemu.Exec.{Result, ok, >>=-eq-ok, fail_if, lift}
use go_bemu.StorageWrite.Domain.{
  Err, CommitGroup, StreamError, BatchCommitResult, failed, invalid_argument, invalid_stream_state,
}
use go_bemu.StorageWrite.Names.{TableReference, parse_table_name, name}
use go_bemu.StorageWrite.Ports.{Env}
use go_bemu.StorageWrite.Service.{Machine}
use go_bemu.StorageWrite.Registry.{parsed, ensure_state_reconciled}
use go_bemu.StorageWrite.Commit.Selection.{
  Named, choose_all, problems, selected, sort_named, check_members, find_stranger,
  commit_group_matches, is_pending_commit, stream_error,
}
use go_bemu.StorageWrite.Commit.Group.{operation, rejected, mismatch, intend, update_all}
use go_bemu.StorageWrite.Commit.Steps.{
  prepare_group, open_group, run_group, retry_group, start_group, retry_stored, commit_selected,
  commit_chosen, commit_names, batch_commit,
}
use go_bemu.StorageWrite.Commit.Success.{
  NamedIn, Selects, IsDone, run_group-IsDone, sort_named-NamedIn, update_all-NamedIn,
}
use go_bemu.StorageWrite.Commit.Chosen.{All-Selects, choose_all-Selects}

-- A request that is turned down has no commit time, lists what is wrong, and leaves the service
-- alone.
pub record IsRejected {W : Type 0} (res : BatchCommitResult) (s s' : Machine W) : Type 0 where
  pub untimed : res.commit_time ≡ none
  pub explained : res.stream_errors ≢ []
  pub unchanged : s'.service ≡ s.service

if_result : {A : Type 0} (b : Bool) (x y z : A) → (if b then x else y) ≡ z → (x ≡ z) ⊎ (y ≡ z)
if_result true x y z h = inl h
if_result false x y z h = inr h

module _ {W : Type 0} (env : Env W) where
  prepared_eq :
      (g : CommitGroup) (ns : List Named) (s : Machine W) (o : CommitGroup × List Named)
      → (prepare_group env g ns s).0 ≡ ok o
      → update_all (intend g.id) ns ≡ o.1
  unfolding prepare_group
  prepared_eq g ns s o h = ground arith

  prepared_names :
      (g : CommitGroup) (ns : List Named) (s : Machine W) (o : CommitGroup × List Named)
      → (prepare_group env g ns s).0 ≡ ok o
      → (k : Bytes) → NamedIn k ns
      → NamedIn k o.1
  prepared_names g ns s o h k i =
      subst (NamedIn k) (prepared_eq g ns s o h) (update_all-NamedIn (intend g.id) k ns i)

  start_group-IsDone :
      (parent : TableReference) (ns : List Named) (s s' : Machine W) (res : BatchCommitResult)
      → start_group env parent ns s ≡ (ok res, s')
      → IsDone env ns res s'
  unfolding start_group open_group
  start_group-IsDone parent ns s s' res h =
      let (o, ho, h1) = >>=-eq-ok _ (open_group env parent ns) s h in
      let done = run_group-IsDone env parent o.1 o.0 (open_group env parent ns s).1 s' res h1 in
      record {
        time = done.time;
        reported = done.reported;
        errorless = done.errorless;
        streams = λ k i. done.streams k (prepared_names _ ns _ o ho k i);
      }

  -- How a run on the streams `ns` may end.
  abbrev pub Answers : List Named → Machine W → Machine W → BatchCommitResult → Type 0
  Answers ns s s' res = IsRejected res s s' ⊎ IsDone env ns res s'

  turned_down :
      (es : List StreamError) (e : StreamError) (s s' : Machine W) (res : BatchCommitResult)
      → ◌≡◌ {A = Result Err BatchCommitResult × Machine W} (ok (rejected (e ∷ es)), s) (ok res, s')
      → IsRejected res s s'
  turned_down es e s s' res h = record {
    untimed = ground arith;
    explained = ground arith;
    unchanged = ground arith;
  }

  retry_group-Answers :
      (parent : TableReference) (n : Named) (ns : List Named) (x : Option StreamError)
      → (g : Option CommitGroup) (s s' : Machine W) (res : BatchCommitResult)
      → retry_group env parent (n ∷ ns) x g s ≡ (ok res, s')
      → Answers (n ∷ ns) s s' res
  unfolding retry_group
  retry_group-Answers parent n ns (some e) g s s' res h = inl (turned_down [] e s s' res h)
  retry_group-Answers parent n ns none none s s' res h = inl (turned_down [] _ s s' res h)
  retry_group-Answers parent n ns none (some g) s s' res h =
      elim (if_result (commit_group_matches g parent (n ∷ ns) && is_pending_commit g.phase)
        (run_group env parent (n ∷ ns) g s) (ok (rejected (mismatch (n ∷ ns))), s) (ok res, s') h) [
          | inl e ↦ inr (run_group-IsDone env parent (n ∷ ns) g s s' res e)
          | inr e ↦ inl (
              turned_down []
                (stream_error invalid_stream_state n.0
                  "commit retry does not match the unresolved commit group")
                s s' res e)
        ]

  selected-Answers :
      (parent : TableReference) (ns : List Named) (es : List StreamError) (group : Bytes)
      → (is_empty group ≡ false → is_empty ns ≡ false)
      → (s s' : Machine W) (res : BatchCommitResult)
      → commit_selected env parent ns es group s ≡ (ok res, s')
      → Answers ns s s' res
  unfolding commit_selected retry_stored
  selected-Answers parent ns (e ∷ es) group hn s s' res h = inl (turned_down es e s s' res h)
  selected-Answers parent ns [] [] hn s s' res h = inr (start_group-IsDone parent ns s s' res h)
  selected-Answers parent [] [] (c ∷ group) hn s s' res h = absurd (ground (arith, hn refl))
  selected-Answers parent (n ∷ ns) [] (c ∷ group) hn s s' res h =
      retry_group-Answers parent n ns (find_stranger (c ∷ group) (n ∷ ns)) _ s s' res h

  chosen-Answers :
      (parent : TableReference) (ns : List Named) (s s' : Machine W) (res : BatchCommitResult)
      → commit_chosen env parent [] ns s ≡ (ok res, s')
      → Answers ns s s' res
  unfolding check_members
  chosen-Answers parent [] s s' res h =
      selected-Answers parent [] [] [] (λ e. ground (arith, e)) s s' res h
  chosen-Answers parent (n ∷ ns) s s' res h =
      selected-Answers parent (n ∷ ns) (check_members [] (n ∷ ns)).0 (check_members [] (n ∷ ns)).1
        (λ e. refl) s s' res h

  -- What a response says of the names of the request.
  abbrev pub Answered : List Bytes → Machine W → Machine W → BatchCommitResult → Type 0
  Answered keys s s' res =
      IsRejected res s s' ⊎ ((ns : List Named) × All (Selects ns) keys × IsDone env ns res s')

  problems-Answered :
      (parent : TableReference) (es : List StreamError) (ns : List Named) (keys : List Bytes)
      → (es ≡ [] → All (Selects ns) keys)
      → (s s' : Machine W) (res : BatchCommitResult)
      → commit_chosen env parent es ns s ≡ (ok res, s')
      → Answered keys s s' res
  problems-Answered parent (e ∷ es) ns keys f s s' res h = inl (turned_down es e s s' res h)
  problems-Answered parent [] ns keys f s s' res h = elim (chosen-Answers parent ns s s' res h) [
    | inl r ↦ inl r
    | inr d ↦ inr (ns, f refl, d)
  ]

  names-Answered :
      (parent : TableReference) (keys : List Bytes) (s s' : Machine W) (res : BatchCommitResult)
      → commit_names env parent keys s ≡ (ok res, s')
      → Answered keys s s' res
  unfolding commit_names
  names-Answered parent keys s s' res h =
      let choices = choose_all s.service parent [] keys in
      problems-Answered parent (problems choices) (sort_named (selected choices)) keys
        (λ e.
          All-Selects (selected choices) (sort_named (selected choices)) keys
            (λ j i. sort_named-NamedIn j (selected choices) i)
            (choose_all-Selects s.service parent [] keys e))
        s s' res h

  reconciled_state :
      (s : Machine W) (u : Unit {0})
      → (ensure_state_reconciled {W = W} operation s).0 ≡ ok u
      → (ensure_state_reconciled {W = W} operation s).1 ≡ s
  unfolding ensure_state_reconciled
  reconciled_state s u h = ground arith

  fail_if_state : (b : Bool) (e : Err) (s : Machine W) → (fail_if b e s).1 ≡ s
  fail_if_state true e s = refl
  fail_if_state false e s = refl

  -- A response of BatchCommit without an error of its own has one of two forms. Either it lists stream
  -- errors and has no commit time, and the service is as it was; or it lists none, and every name of
  -- the request is that of a stream which is now committed at the response's commit time.
  pub batch_commit-Answered :
      (parent : TableReference) (keys : List Bytes) (s s' : Machine W) (res : BatchCommitResult)
      → batch_commit env parent keys s ≡ (ok res, s')
      → Answered keys s s' res
  unfolding batch_commit
  batch_commit-Answered parent keys s s' res h =
      let (u, hu, h1) = >>=-eq-ok _ (ensure_state_reconciled operation) s h in
      let (t, ht, h2) =
        >>=-eq-ok _ (lift (parsed operation (parse_table_name (name parent))))
          (ensure_state_reconciled {W = W} operation s).1 h1 in
      let (v, hv, h3) =
        >>=-eq-ok (λ w. commit_names env parent keys)
          (fail_if (is_empty keys)
            (failed invalid_argument operation "at least one stream is required"))
          (ensure_state_reconciled {W = W} operation s).1 h2 in
      let same = fail_if_state (is_empty keys) _ _ ∙ reconciled_state s u hu in
      names-Answered parent keys s s' res
        (subst (λ m. commit_names env parent keys m ≡ (ok res, s')) same h3)
