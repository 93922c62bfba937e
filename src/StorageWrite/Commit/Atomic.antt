-- ===== src/StorageWrite/Commit/Atomic.antt =====
-- `BatchCommit` (internal/storagewrite/application/service.go) is all or nothing.
use go_bemu.Base.{
  ℕ, ◌≡◌, refl, sym, subst, ◌&&◌, not, is_empty, Option, none, some, List, [], ◌∷◌, arith, ◌⊎◌, inl,
  inr,
}
use go_bemu.Text.{Bytes}
use go_bemu.Maps.{lookup}
use go_bemu.Exec.{ok, err, lift, fail_if}
use go_bemu.Exec.Keeps.{
  Keeps, KeepsOnError, Keeps-if, KeepsOnError-if, >>=-Keeps, >>=-KeepsOnError,
  >>=-KeepsOnError_total, >>=-KeepsOnError_with, Keeps-lift, Keeps-fail_if,
}
use go_bemu.StorageWrite.Domain.{
  Err, failed, invalid_argument, CommitGroup, StreamRecord, StreamError,
}
use go_bemu.StorageWrite.Names.{TableReference, name, parse_table_name}
use go_bemu.StorageWrite.Ports.{Call, Env}
use go_bemu.StorageWrite.Service.{StreamEntry, Service, Machine, append_outcome_is_ambiguous}
use go_bemu.StorageWrite.Registry.{read_clock, parsed, ensure_state_reconciled}
use go_bemu.StorageWrite.Commit.Selection.{
  Named, choose_all, problems, selected, check_members, sort_named, commit_group_matches,
  is_pending_commit, find_stranger,
}
use go_bemu.StorageWrite.Commit.Group.{
  operation, intend, unresolve, release, apply, update_all, set_all, unresolved_group,
  aborted_group, applied_group, is_prepared_commit,
}
use go_bemu.StorageWrite.Commit.Steps.{
  transition, prepare_group, open_group, retry_stored, submit_commit, suspend, abort_group,
  close_intent, fail_commit, conclude, outcome, report, run_group, retry_group, start_group,
  commit_selected, commit_chosen, commit_names, batch_commit,
}
use go_bemu.StorageWrite.Commit.View.{
  seen_stream, View, Shows, Fits, KeepsStream, set_all-Shows, update_all-Fits, choose_all-Fits,
  sort_named-Fits,
}

module _ {W : Type 0} (v : View) where
  abbrev StillShows : Machine W → Type 0
  StillShows s = Shows v s.service.streams

module _ {W : Type 0} (env : Env W) where
  -- A transition stores the changed streams if the repository has recorded them, else nothing.
  pub streams-transition :
      (cause : Option Err) (call : List (Bytes × ℕ) → List StreamRecord → CommitGroup → Call W)
      (f : StreamEntry → StreamEntry) (ns : List Named) (g : CommitGroup) (s : Machine W)
      → let (r, s') = transition env cause call f ns g s in
        ((r ≡ ok tt) × (s'.service.streams ≡ set_all (update_all f ns) s.service.streams))
        ⊎ ((x : Err) × (r ≡ err x) × (s'.service ≡ s.service))
  unfolding transition
  streams-transition none call f ns g s = ground arith
  streams-transition (some cause) call f ns g s = ground arith

  module _ (v : View) where
    transition-Keeps :
        (cause : Option Err) (call : List (Bytes × ℕ) → List StreamRecord → CommitGroup → Call W)
        (f : StreamEntry → StreamEntry)
        → KeepsStream f
        → (ns : List Named) (g : CommitGroup) → Fits v ns
        → Keeps (StillShows v) (transition env cause call f ns g)
    transition-Keeps cause call f kf ns g k = record {
      at = λ s h. elim (streams-transition cause call f ns g s) [
        | inl (r, e) ↦ subst (Shows v) (sym e) (set_all-Shows v f kf ns s.service.streams h k)
        | inr (x, r, e) ↦ subst (λ (u : Service). Shows v u.streams) (sym e) h
      ];
    }

    transition-KeepsOnError :
        (cause : Option Err) (call : List (Bytes × ℕ) → List StreamRecord → CommitGroup → Call W)
        (f : StreamEntry → StreamEntry) (ns : List Named) (g : CommitGroup)
        → KeepsOnError (StillShows v) (transition env cause call f ns g)
    transition-KeepsOnError cause call f ns g = record {
      at = λ s h x q. elim (streams-transition cause call f ns g s) [
        | inl (r, e) ↦ cc
        | inr (y, r, e) ↦ subst (λ (u : Service). Shows v u.streams) (sym e) h
      ];
    }

    -- What reads the world only keeps the streams.
    read_clock-Keeps : Keeps (StillShows v) (read_clock env)
    read_clock-Keeps = record { at = λ s h. h }

    reconciled-Keeps : Keeps (StillShows {W = W} v) (ensure_state_reconciled operation)
    unfolding ensure_state_reconciled
    reconciled-Keeps = record {
      at = λ s h.
          (Keeps-fail_if {P = StillShows {W = W} v} (not s.service.state_reconciled) _).at s h;
    }

    submit_commit-Keeps :
        (parent : TableReference) (ns : List Named) (g : CommitGroup)
        → Keeps (StillShows v) (submit_commit env parent ns g)
    unfolding submit_commit
    submit_commit-Keeps parent ns g = record { at = λ s h. h }

    suspend-Keeps :
        (ns : List Named) (g : CommitGroup) (cause : Err)
        → Fits v ns
        → Keeps (StillShows v) (suspend env ns g cause)
    unfolding suspend
    suspend-Keeps ns g cause k = >>=-Keeps _ (read_clock env) read_clock-Keeps λ t.
        transition-Keeps (some cause) env.repository.mark_commit_unresolved unresolve (λ e. refl) ns
          (unresolved_group g t) k

    abort_group-Keeps :
        (ns : List Named) (g : CommitGroup) (cause : Err)
        → Fits v ns
        → Keeps (StillShows v) (abort_group env ns g cause)
    unfolding abort_group
    abort_group-Keeps ns g cause k = >>=-Keeps _ (read_clock env) read_clock-Keeps λ t.
        transition-Keeps (some cause) env.repository.abort_commit release (λ e. refl) ns
          (aborted_group g t) k

    close_intent-Keeps :
        (ns : List Named) (g : CommitGroup) (cause : Err)
        → Fits v ns
        → Keeps (StillShows v) (close_intent env ns g cause)
    unfolding close_intent
    close_intent-Keeps ns g cause k =
        Keeps-if _ (abort_group env ns g cause) (append_outcome_is_ambiguous cause)
          (Keeps-if (suspend env ns g cause) _ (is_prepared_commit g.phase)
            (suspend-Keeps ns g cause k) (record { at = λ s h. h }))
          (abort_group-Keeps ns g cause k)

    fail_commit-Keeps :
        (ns : List Named) (g : CommitGroup) (cause : Err)
        → Fits v ns
        → Keeps (StillShows v) (fail_commit env ns g cause)
    unfolding fail_commit
    fail_commit-Keeps ns g cause k =
        >>=-Keeps _ (close_intent env ns g cause) (close_intent-Keeps ns g cause k)
          λ u. record { at = λ s h. h }

    conclude-KeepsOnError :
        (ns : List Named) (g : CommitGroup) → KeepsOnError (StillShows v) (conclude env ns g)
    unfolding conclude
    conclude-KeepsOnError ns g = >>=-KeepsOnError _ (read_clock env) read_clock-Keeps λ t.
        >>=-KeepsOnError_total (λ u. report env ns t) (λ u s x q. cc)
          (transition env none env.repository.complete_commit (apply t) ns (applied_group g t))
          (transition-KeepsOnError none env.repository.complete_commit (apply t) ns
            (applied_group g t))

    run_group-KeepsOnError :
        (parent : TableReference) (ns : List Named) (g : CommitGroup)
        → Fits v ns
        → KeepsOnError (StillShows v) (run_group env parent ns g)
    unfolding run_group
    run_group-KeepsOnError parent ns g k =
        >>=-KeepsOnError _ (submit_commit env parent ns g) (submit_commit-Keeps parent ns g)
          outcome-KeepsOnError
      where
        outcome-KeepsOnError : (o : Option Err) → KeepsOnError (StillShows v) (outcome env ns g o)
        outcome-KeepsOnError none = conclude-KeepsOnError ns g
        outcome-KeepsOnError (some e) = record {
          at = λ s h x q. (fail_commit-Keeps ns g e k).at s h;
        }

    prepare_group-Keeps :
        (g : CommitGroup) (ns : List Named)
        → Fits v ns
        → Keeps (StillShows v) (prepare_group env g ns)
    unfolding prepare_group
    prepare_group-Keeps g ns k =
        >>=-Keeps _ (transition env none env.repository.prepare_commit (intend g.id) ns g)
          (transition-Keeps none env.repository.prepare_commit (intend g.id) (λ e. refl) ns g k)
          λ u. record { at = λ s h. h }

    prepare_group-Fits :
        (g : CommitGroup) (ns : List Named)
        → Fits v ns
        → (s : Machine W) (a : CommitGroup × List Named) → (prepare_group env g ns s).0 ≡ ok a
        → Fits v a.1
    unfolding prepare_group
    prepare_group-Fits g ns k s a h =
        let e : a.1 ≡ update_all (intend g.id) ns = ground arith in
        subst (Fits v) (sym e) (update_all-Fits v (intend g.id) (λ x. refl) ns k)

    open_group-Keeps :
        (parent : TableReference) (ns : List Named)
        → Fits v ns
        → Keeps (StillShows v) (open_group env parent ns)
    unfolding open_group
    open_group-Keeps parent ns k = record { at = λ s h. (prepare_group-Keeps _ ns k).at _ h }

    open_group-Fits :
        (parent : TableReference) (ns : List Named)
        → Fits v ns
        → (s : Machine W) (a : CommitGroup × List Named) → (open_group env parent ns s).0 ≡ ok a
        → Fits v a.1
    unfolding open_group
    open_group-Fits parent ns k s a h = prepare_group-Fits _ ns k _ a h

    start_group-KeepsOnError :
        (parent : TableReference) (ns : List Named)
        → Fits v ns
        → KeepsOnError (StillShows v) (start_group env parent ns)
    unfolding start_group
    start_group-KeepsOnError parent ns k =
        >>=-KeepsOnError_with (λ a. Fits v a.1) _ (open_group env parent ns)
          (open_group-Keeps parent ns k) (open_group-Fits parent ns k)
          λ a fits. run_group-KeepsOnError parent a.1 a.0 fits

    retry_group-KeepsOnError :
        (parent : TableReference) (ns : List Named) (e : Option StreamError)
        (g : Option CommitGroup)
        → Fits v ns
        → KeepsOnError (StillShows v) (retry_group env parent ns e g)
    unfolding retry_group
    retry_group-KeepsOnError parent ns (some e) g k = record { at = λ s h x q. h }
    retry_group-KeepsOnError parent ns none none k = record { at = λ s h x q. h }
    retry_group-KeepsOnError parent ns none (some g) k =
        KeepsOnError-if (run_group env parent ns g) _
          (commit_group_matches g parent ns && is_pending_commit g.phase)
          (run_group-KeepsOnError parent ns g k) (record { at = λ s h x q. h })

    commit_selected-KeepsOnError :
        (parent : TableReference) (ns : List Named) (es : List StreamError) (group : Bytes)
        → Fits v ns
        → KeepsOnError (StillShows v) (commit_selected env parent ns es group)
    unfolding commit_selected retry_stored
    commit_selected-KeepsOnError parent ns (e ∷ es) group k = record { at = λ s h x q. h }
    commit_selected-KeepsOnError parent ns [] group k =
        KeepsOnError-if (start_group env parent ns) (retry_stored env parent ns group)
          (is_empty group) (start_group-KeepsOnError parent ns k)
          (record {
            at = λ s h x q.
                (retry_group-KeepsOnError parent ns (find_stranger group ns)
                    (lookup group s.service.commit_groups) k).at
                  s h x q;
          })

    commit_names-KeepsOnError :
        (parent : TableReference) (keys : List Bytes)
        → KeepsOnError (StillShows v) (commit_names env parent keys)
    unfolding commit_names
    commit_names-KeepsOnError parent keys = record {
      at = λ s h x q.
          let choices = choose_all s.service parent [] keys in
          (chosen-KeepsOnError parent (problems choices) (sort_named (selected choices)) (
              sort_named-Fits v (selected choices)
                (choose_all-Fits v s.service parent [] keys h))).at
            s h x q;
    }
      where
        chosen-KeepsOnError :
            (parent : TableReference) (es : List StreamError) (ns : List Named)
            → Fits v ns
            → KeepsOnError (StillShows v) (commit_chosen env parent es ns)
        chosen-KeepsOnError parent (e ∷ es) ns k = record { at = λ s h x q. h }
        chosen-KeepsOnError parent [] ns k = record {
          at = λ s h x q.
              let (es, group) = check_members [] ns in
              (commit_selected-KeepsOnError parent ns es group k).at s h x q;
        }

    batch_commit-KeepsOnError :
        (parent : TableReference) (keys : List Bytes)
        → KeepsOnError (StillShows v) (batch_commit env parent keys)
    unfolding batch_commit
    batch_commit-KeepsOnError parent keys =
        >>=-KeepsOnError _ (ensure_state_reconciled operation) reconciled-Keeps λ u.
          >>=-KeepsOnError _ (lift (parsed operation (parse_table_name (name parent))))
            (Keeps-lift _)
            λ t.
              >>=-KeepsOnError _
                (fail_if (is_empty keys)
                  (failed invalid_argument operation "at least one stream is required"))
                (Keeps-fail_if (is_empty keys) _) λ w. commit_names-KeepsOnError parent keys

  -- A commit that fails, for whatever reason, changes no stream that a client can see: none of the
  -- named streams, and no other, is committed or touched.
  pub failed_commit_keeps_streams :
      (parent : TableReference) (keys : List Bytes) (s : Machine W) (x : Err)
      → (batch_commit env parent keys s).0 ≡ err x
      → (j : Bytes)
      → seen_stream (lookup j (batch_commit env parent keys s).1.service.streams)
        ≡ seen_stream (lookup j s.service.streams)
  failed_commit_keeps_streams parent keys s x h =
      (batch_commit-KeepsOnError (λ j. seen_stream (lookup j s.service.streams)) parent keys).at s
        (λ j. refl) x h
