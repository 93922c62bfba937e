-- ===== src/LoadJob/Submission/Execution.antt =====
-- A load job that is handed to execution ends as DONE in the repository.
use go_bemu.Base.{
  ℕ, ◌≡◌, ◌≢◌, refl, sym, ap, ◌∙◌, subst, false, Option, none, some, arith, if◌then◌else◌,
}
use go_bemu.Text.{Bytes, text_eq, text_eq_iff}
use go_bemu.Maps.{lookup, put, lookup-put_self, lookup-put}
use go_bemu.Exec.{ok}
use go_bemu.Catalog.Casing.{Casing}
use go_bemu.Catalog.Job.{job_pending, job_running, job_done, JobError}
use go_bemu.LoadJob.Domain.{
  LoadError, Statistics, LoadJob, clone_load, normalize_configuration, start_load, start_from,
  complete_load, fail_load,
}
use go_bemu.LoadJob.Terminal.{terminal_error}
use go_bemu.LoadJob.Submission.{
  load_key, LoadJobs, update_load, LoadEnv, LoadMachine, Run, finished, run_started,
  execute_started, execute,
}

-- The error that a run leaves in the job.
abbrev pub error_of : Option LoadError → Option JobError
error_of none = none
error_of (some e) = some (record { reason = (terminal_error e).0; message = (terminal_error e).1 })

-- The job `done` is `j` after its run from `start` to `end`, with that result.
pub record IsFinished (c : Casing) (j : LoadJob) (start : ℕ)
    (result : Statistics × Option LoadError) (end : ℕ) (done : LoadJob) : Type 0 where
  pub reference : done.reference ≡ j.reference
  pub configuration : done.configuration ≡ normalize_configuration c j.configuration
  pub digest : done.configuration_digest ≡ j.configuration_digest
  pub state : done.state ≡ job_done
  pub statistics : done.statistics ≡ result.0
  pub error : done.error ≡ error_of result.1
  pub created : done.created_at ≡ j.created_at
  pub started : done.started_at ≡ some start
  pub ended : done.ended_at ≡ some end

abbrev started_job : ℕ → LoadJob → LoadJob
started_job start j = record j { started_at = some start; state = job_running }

finished-IsFinished :
    (c : Casing) (j : LoadJob) (start end : ℕ) (result : Statistics × Option LoadError)
    → IsFinished c j start result end (clone_load c (finished result end (started_job start j)))
unfolding complete_load fail_load
finished-IsFinished c j start end (statistics, none) = record {
  reference = refl;
  configuration = refl;
  digest = refl;
  state = refl;
  statistics = refl;
  error = refl;
  created = refl;
  started = refl;
  ended = refl;
}
finished-IsFinished c j start end (statistics, some e) = record {
  reference = refl;
  configuration = refl;
  digest = refl;
  state = refl;
  statistics = refl;
  error = refl;
  created = refl;
  started = refl;
  ended = refl;
}

update-present :
    (c : Casing) (j : LoadJob) (m : LoadJobs) (k : Bytes) {old : LoadJob}
    → load_key j.reference ≡ k
    → lookup k m ≡ some old
    → update_load c j m ≡ (ok tt, put k (clone_load c j) m)
unfolding update_load
update-present c j m k {old} e =
    subst (λ x. lookup x m ≡ some old → update_load c j m ≡ (ok tt, put x (clone_load c j) m)) e
      (λ h. rw h refl)

start-pending :
    (j : LoadJob) (now : ℕ) → j.state ≡ job_pending → start_load now j ≡ (ok tt, started_job now j)
unfolding start_load
start-pending j now p = ap (λ s. start_from s now j) p

lookup-put_other :
    (k i : Bytes) (j : LoadJob) (m : LoadJobs) → k ≢ i → lookup i (put k j m) ≡ lookup i m
lookup-put_other k i j m d =
    let e : text_eq k i ≡ false = (let f = (text_eq_iff k i).0 in ground arith) in
    lookup-put k i j m ∙ ap (λ b. if b then some j else lookup i m) e

module _ {W : Type 0} (env : LoadEnv W) (run : Run W) where
  -- From `before`, the job was started at the first reading of the clock and run once, in the world
  -- after that reading; from `run`'s own result, and the reading of the clock after it, `after` has
  -- the finished job under its key, and the other jobs as they were.
  pub record HasRun (j : LoadJob) (before after : LoadMachine W) : Type 0 where
    pub start : ℕ × W
    pub starts_in : start ≡ env.now before.world
    pub outcome : (Statistics × Option LoadError) × W
    pub ran : outcome ≡ run (record j { started_at = some start.0; state = job_running }) start.1
    pub end : ℕ × W
    pub ends_in : end ≡ env.now outcome.1
    pub done : LoadJob
    pub ending : IsFinished env.casing j start.0 outcome.0 end.0 done
    pub stored : lookup (load_key j.reference) after.jobs ≡ some done
    pub others : (k : Bytes) → load_key j.reference ≢ k → lookup k after.jobs ≡ lookup k before.jobs
    pub world : after.world ≡ end.1

  run_started-HasRun :
      (j : LoadJob) (m : LoadMachine W) {old : LoadJob}
      → lookup (load_key j.reference) m.jobs ≡ some old
      → HasRun j m (
          run_started env run
            (started_job (env.now m.world).0 j)
            (update_load env.casing (started_job (env.now m.world).0 j) m.jobs)
            (env.now m.world).1)
  run_started-HasRun j m h =
      let k = load_key j.reference in
      let c = env.casing in
      let (start, w) = env.now m.world in
      let s = started_job start j in
      let jobs = put k (clone_load c s) m.jobs in
      let (result, w1) = run s w in
      let (end, w2) = env.now w1 in
      let done = finished result end s in
      let f = finished-IsFinished c j start end result in
      let second =
        update-present c done jobs k (ap load_key f.reference)
          (lookup-put_self k (clone_load c s) m.jobs) in
      subst (λ r. HasRun j m (run_started env run s r w)) (sym (update-present c s m.jobs k refl h))
        (record {
          start = (start, w);
          starts_in = refl;
          outcome = (result, w1);
          ran = refl;
          end = (end, w2);
          ends_in = refl;
          done = clone_load c done;
          ending = f;
          stored = ap (λ r. lookup k r.1) second ∙ lookup-put_self k (clone_load c done) jobs;
          others = λ i d.
              ap (λ r. lookup i r.1) second
              ∙ lookup-put_other k i (clone_load c done) jobs d
              ∙ lookup-put_other k i (clone_load c s) m.jobs d;
          world = refl;
        })

  -- The execution of a pending job that the repository holds runs it once and ends with the job DONE in
  -- the repository, whatever the run does: with the statistics of this run; with the reason and message
  -- that terminalError makes of the run's error, or without an error if the run returned none; with the
  -- times read before and after it; with the reference, digest and creation time as they were, and the
  -- configuration in normal form. Other jobs stay.
  pub execute-HasRun :
      (j : LoadJob) (m : LoadMachine W) {old : LoadJob}
      → j.state ≡ job_pending
      → lookup (load_key j.reference) m.jobs ≡ some old
      → HasRun j m (execute env run j m)
  unfolding execute
  execute-HasRun j m p h =
      let (now, w) = env.now m.world in
      subst (λ r. HasRun j m (execute_started env run r (record m { world = w })))
        (sym (start-pending j now p)) (run_started-HasRun j m h)
