-- ===== src/Catalog/Job/Phases.antt =====
-- A query job goes from PENDING over RUNNING to DONE, where it has a result or an error.
use go_bemu.Base.{ℕ, ◌≡◌, refl, ap, ◌∙◌, subst, Option, none, some, List, [], ◌∷◌}
use go_bemu.Text.{Bytes}
use go_bemu.Exec.{Result, ok, err}
use go_bemu.Catalog.Failure.{Failure, Checked, conflict, ok_inj}
use go_bemu.Catalog.Casing.{Casing}
use go_bemu.Catalog.Job.{
  job_pending, job_running, job_done, JobReference, QueryConfiguration, QueryResult, JobError, Job,
  start, complete_job, fail_job,
}
use go_bemu.Catalog.Job.Query.{
  Fingerprint, new_configured_query_job, validate_query_job, located, normalize_query_configuration,
  after_check,
}

-- What a job is to its client.
pub data Phase (V : Type 0) : Type 0 where
  waiting : Phase V
  working : ℕ → Phase V
  succeeded : ℕ → ℕ → QueryResult V → Phase V
  failed : ℕ → ℕ → JobError → Phase V

-- Calls of the job's methods.
pub data Call (V : Type 0) : Type 0 where
  starts : ℕ → Call V
  completes : QueryResult V → ℕ → Call V
  aborts : Bytes → Bytes → ℕ → Call V

module _ {V : Type 0} where
  -- The job's fields show the phase.
  abbrev pub Shows : Job V → Phase V → Type 0
  Shows j waiting =
      (j.state ≡ job_pending)
      × (j.started_at ≡ none)
      × (j.ended_at ≡ none)
      × (j.result ≡ none)
      × (j.error ≡ none)
  Shows j (working s) =
      (j.state ≡ job_running)
      × (j.started_at ≡ some s)
      × (j.ended_at ≡ none)
      × (j.result ≡ none)
      × (j.error ≡ none)
  Shows j (succeeded s t r) =
      (j.state ≡ job_done)
      × (j.started_at ≡ some s)
      × (j.ended_at ≡ some t)
      × (j.result ≡ some r)
      × (j.error ≡ none)
  Shows j (failed s t e) =
      (j.state ≡ job_done)
      × (j.started_at ≡ some s)
      × (j.ended_at ≡ some t)
      × (j.result ≡ none)
      × (j.error ≡ some e)

  abbrev pub call_job : Call V → Job V → Result Failure (Unit {0}) × Job V
  call_job (starts now) j = start now j
  call_job (completes r now) j = complete_job r now j
  call_job (aborts reason message now) j = fail_job reason message now j

  -- What a call does to the phase; none is a refusal.
  abbrev pub next_phase : Call V → Phase V → Option (Phase V)
  next_phase (starts now) waiting = some (working now)
  next_phase (completes r now) (working s) = some (succeeded s now r)
  next_phase (aborts reason message now) (working s) =
      some (failed s now (record { reason = reason; message = message }))
  next_phase _ _ = none

  -- The job follows the phase, or refuses the call and stays as it is.
  abbrev pub Follows : Job V → Option (Phase V) → Result Failure (Unit {0}) × Job V → Type 0
  Follows j (some p) (r, j') = (r ≡ ok tt) × Shows j' p
  Follows j none (r, j') = ((e : Failure) × (r ≡ err e) × (e.kind ≡ conflict)) × (j' ≡ j)

  -- Each call of Start, Complete or Fail on a job that shows a phase does what the phase says: the
  -- job then shows the next phase, or the call is a conflict and the job is unchanged.
  pub call_job-Follows :
      (call : Call V) (j : Job V) (p : Phase V)
      → Shows j p
      → Follows j (next_phase call p) (call_job call j)
  unfolding start complete_job fail_job
  call_job-Follows (starts now) j waiting (s, a, b, d, e) = rw s (refl, (refl, refl, b, d, e))
  call_job-Follows (starts now) j (working t) (s, a, b, d, e) = rw s ((_, refl, refl), refl)
  call_job-Follows (starts now) j (succeeded _ _ _) (s, a, b, d, e) = rw s ((_, refl, refl), refl)
  call_job-Follows (starts now) j (failed _ _ _) (s, a, b, d, e) = rw s ((_, refl, refl), refl)
  call_job-Follows (completes r now) j waiting (s, a, b, d, e) = rw s ((_, refl, refl), refl)
  call_job-Follows (completes r now) j (working t) (s, a, b, d, e) =
      rw s (refl, (refl, a, refl, refl, e))
  call_job-Follows (completes r now) j (succeeded _ _ _) (s, a, b, d, e) =
      rw s ((_, refl, refl), refl)
  call_job-Follows (completes r now) j (failed _ _ _) (s, a, b, d, e) = rw s ((_, refl, refl), refl)
  call_job-Follows (aborts _ _ now) j waiting (s, a, b, d, e) = rw s ((_, refl, refl), refl)
  call_job-Follows (aborts _ _ now) j (working t) (s, a, b, d, e) =
      rw s (refl, (refl, a, refl, d, refl))
  call_job-Follows (aborts _ _ now) j (succeeded _ _ _) (s, a, b, d, e) =
      rw s ((_, refl, refl), refl)
  call_job-Follows (aborts _ _ now) j (failed _ _ _) (s, a, b, d, e) = rw s ((_, refl, refl), refl)

  abbrev pub call_all : List (Call V) → Job V → Job V
  call_all [] j = j
  call_all (call ∷ calls) j = call_all calls (call_job call j).1

  abbrev pub stay : Phase V → Option (Phase V) → Phase V
  stay p none = p
  stay p (some q) = q

  -- The phase after a list of calls, refused ones skipped.
  abbrev pub run_phases : List (Call V) → Phase V → Phase V
  run_phases [] p = p
  run_phases (call ∷ calls) p = run_phases calls (stay p (next_phase call p))

  Follows-Shows :
      (j : Job V) (p : Phase V) (o : Option (Phase V)) (r : Result Failure (Unit {0}) × Job V)
      → Shows j p
      → Follows j o r
      → Shows r.1 (stay p o)
  Follows-Shows j p none r h (_, e) = rw e h
  Follows-Shows j p (some q) r h (_, s) = s

  -- A job that shows a phase shows, after any calls, the phase that the calls lead to.
  pub call_all-Shows :
      (calls : List (Call V)) (j : Job V) (p : Phase V)
      → Shows j p
      → Shows (call_all calls j) (run_phases calls p)
  call_all-Shows [] j p h = h
  call_all-Shows (call ∷ calls) j p h =
      call_all-Shows calls (call_job call j).1 (stay p (next_phase call p))
        (Follows-Shows j p (next_phase call p) (call_job call j) h (call_job-Follows call j p h))

  -- No call leaves a phase that has ended.
  abbrev pub IsEnded : Phase V → Type 0
  IsEnded p = (call : Call V) → next_phase call p ≡ none

  succeeded-IsEnded : (s t : ℕ) (r : QueryResult V) → IsEnded (succeeded s t r)
  succeeded-IsEnded s t r (starts _) = refl
  succeeded-IsEnded s t r (completes _ _) = refl
  succeeded-IsEnded s t r (aborts _ _ _) = refl

  failed-IsEnded : (s t : ℕ) (e : JobError) → IsEnded (failed s t e)
  failed-IsEnded s t e (starts _) = refl
  failed-IsEnded s t e (completes _ _) = refl
  failed-IsEnded s t e (aborts _ _ _) = refl

  done-IsEnded : (j : Job V) (p : Phase V) → j.state ≡ job_done → Shows j p → IsEnded p
  done-IsEnded j waiting d (s, _, _, _, _) = cc
  done-IsEnded j (working t) d (s, _, _, _, _) = cc
  done-IsEnded j (succeeded s t r) d h = succeeded-IsEnded s t r
  done-IsEnded j (failed s t e) d h = failed-IsEnded s t e

  -- A job that is DONE and shows a phase stays exactly as it is under any calls.
  pub done_stays :
      (calls : List (Call V)) (j : Job V) (p : Phase V)
      → Shows j p
      → j.state ≡ job_done
      → call_all calls j ≡ j
  done_stays [] j p h d = refl
  done_stays (call ∷ calls) j p h d =
      let followed =
        subst (λ o. Follows j o (call_job call j)) (done-IsEnded j p d h call)
          (call_job-Follows call j p h) in
      ap (call_all calls) followed.1 ∙ done_stays calls j p h d

  after_check-ok :
      (r : Checked) (j : Job V) {k : Job V} → after_check r j ≡ ok k → (r ≡ ok tt) × (j ≡ k)
  after_check-ok (ok tt) j h = (refl, ok_inj h)
  after_check-ok (err e) j h = cc

  -- A job that NewConfiguredQueryJob returns is valid and waits.
  pub new_job-Shows :
      (c : Casing) (fingerprint : Fingerprint) (r : JobReference) (q : QueryConfiguration) (now : ℕ)
      {j : Job V}
      → new_configured_query_job c fingerprint r q now ≡ ok j
      → (validate_query_job j.reference j.configuration ≡ ok tt) × Shows j waiting
  unfolding new_configured_query_job
  new_job-Shows c fingerprint r q now h =
      let (v, e) =
        after_check-ok (validate_query_job (located r) (normalize_query_configuration c q)) _ h in
      subst (λ k. (validate_query_job k.reference k.configuration ≡ ok tt) × Shows k waiting) e
        (v, (refl, refl, refl, refl, refl))

  -- A job that NewConfiguredQueryJob returns has a valid reference and configuration, and after any
  -- calls of Start, Complete and Fail its state, times, result and error are those of the phase that
  -- the accepted ones among the calls lead to from PENDING.
  pub new_job_phases :
      (c : Casing) (fingerprint : Fingerprint) (r : JobReference) (q : QueryConfiguration) (now : ℕ)
      (calls : List (Call V)) {j : Job V}
      → new_configured_query_job c fingerprint r q now ≡ ok j
      → (validate_query_job j.reference j.configuration ≡ ok tt)
        × Shows (call_all calls j) (run_phases calls waiting)
  new_job_phases c fingerprint r q now calls {j} h =
      let (v, s) = new_job-Shows c fingerprint r q now h in (v, call_all-Shows calls j waiting s)
