-- ===== src/LoadJob/Submission.antt =====
-- The in-memory repository of load jobs (internal/loadjob/application/repository.go), and Submit and
-- execute of internal/loadjob/application/service.go over it. The repository keeps and returns clones.
pub mod Once
pub mod Execution
use go_bemu.Base.{
  ℕ, Bool, true, false, not, ◌&&◌, ◌||◌, Option, none, some, List, [], ◌∷◌, ◌++◌, is_empty, nat_eq,
  ltb, if◌then◌else◌,
}
use go_bemu.Text.{Bytes, codes, text_eq, text_lt}
use go_bemu.Maps.{Map, lookup, put}
use go_bemu.Exec.{Result, ok, err}
use go_bemu.Catalog.Casing.{Casing}
use go_bemu.LoadJob.Terminal.{terminal_error}
use go_bemu.LoadJob.Domain.{
  LoadError, LoadFault, conflict, refuse, LoadReference, LoadTable, LoadConfiguration, Statistics,
  LoadJob, Digester, clone_load, new_job, start_load, complete_load, fail_load,
}

-- jobKey
abbrev pub load_key : LoadReference → Bytes
load_key r = r.project ++ 0 ∷ (r.location ++ 0 ∷ r.job)

abbrev pub LoadJobs : Type 0
LoadJobs = Map LoadJob

module _ (c : Casing) where
  -- A job of the repository, and whether it was created just now.
  abbrev pub keep_or_insert : LoadJob → LoadJobs → Option LoadJob → (LoadJob × Bool) × LoadJobs
  keep_or_insert j m (some existing) = ((clone_load c existing, false), m)
  keep_or_insert j m none = ((clone_load c j, true), put (load_key j.reference) (clone_load c j) m)

  -- CreateOrGet
  unfoldable pub create_or_get_load : LoadJob → LoadJobs → (LoadJob × Bool) × LoadJobs
  create_or_get_load j m = keep_or_insert j m (lookup (load_key j.reference) m)

  abbrev pub replace_load :
      LoadJob → LoadJobs → Option LoadJob → Result LoadError (Unit {0}) × LoadJobs
  replace_load j m (some existing) = (ok tt, put (load_key j.reference) (clone_load c j) m)
  replace_load j m none = (refuse LoadFault.not_found (codes "load job"), m)

  -- Update
  unfoldable pub update_load : LoadJob → LoadJobs → Result LoadError (Unit {0}) × LoadJobs
  update_load j m = replace_load j m (lookup (load_key j.reference) m)

  -- Get
  unfoldable pub get_load : LoadReference → LoadJobs → Result LoadError LoadJob
  get_load r m = elim (lookup (load_key r) m) [
    | none ↦ refuse LoadFault.not_found (codes "load job")
    | some j ↦ ok (clone_load c j)
  ]

-- The ports that Submit and execute call, on the state W of the world.
pub record LoadEnv (W : Type 0) : Type 0 where
  pub now : W → ℕ × W
  pub new_id : W → Bytes × W
  pub casing : Casing
  pub digester : Digester

pub record LoadMachine (W : Type 0) : Type 0 where
  pub jobs : LoadJobs
  pub world : W

-- What Submit returns, and the job that it hands to a goroutine.
pub record Submitted : Type 0 where
  pub stored : LoadJob
  pub execution : Option LoadJob

abbrev or_default : Bytes → Bytes → Bytes
or_default default s = if is_empty s then default else s

-- The destination's project defaults to the job's.
unfoldable pub placed : LoadReference → LoadConfiguration → LoadConfiguration
placed r q = record q {
  destination = record (q.destination) { project = or_default r.project q.destination.project };
}

abbrev pub judged : Casing → LoadJob → LoadJob × Bool → Result LoadError Submitted
judged c job (stored, true) =
    ok (record { stored = stored; execution = some (clone_load c stored) })
judged c job (stored, false) =
    if not (text_eq stored.configuration_digest job.configuration_digest)
    then refuse conflict (codes "job ID already has a different load configuration")
    else ok (record { stored = stored; execution = none })

-- Service.run, with its result: the statistics, and the error if there is one.
abbrev pub Run : Type 0 → Type 0
Run W = LoadJob → W → (Statistics × Option LoadError) × W

-- The job after its run.
abbrev pub finished : Statistics × Option LoadError → ℕ → LoadJob → LoadJob
finished (statistics, none) now j = (complete_load statistics now j).1
finished (statistics, some e) now j =
    let (reason, message) = terminal_error e in (fail_load reason message statistics now j).1

module _ {W : Type 0} (env : LoadEnv W) where
  -- The reference with what it leaves out.
  unfoldable pub complete_reference : Bytes → LoadReference → W → LoadReference × W
  complete_reference location r w =
      let (id, w') = env.new_id w in
      let r' = record r { location = or_default location r.location } in
      if is_empty r.job then (record r' { job = codes "job_" ++ id }, w') else (r', w)

  abbrev pub submit_job :
      Result LoadError LoadJob → LoadMachine W → Result LoadError Submitted × LoadMachine W
  submit_job (err e) m = (err e, m)
  submit_job (ok job) m =
      let (r, jobs) = create_or_get_load env.casing job m.jobs in
      (judged env.casing job r, record m { jobs = jobs })

  -- Submit; `location` is the configured default.
  unfoldable pub submit :
      Bytes
      → LoadReference
      → LoadConfiguration
      → LoadMachine W
      → Result LoadError Submitted × LoadMachine W
  submit location r q m =
      let (r', w) = complete_reference location r m.world in
      let (now, w') = env.now w in
      submit_job (new_job env.casing env.digester r' (placed r' q) now) (record m { world = w' })

  abbrev pub run_started :
      Run W → LoadJob → Result LoadError (Unit {0}) × LoadJobs → W → LoadMachine W
  run_started run j (err e, jobs) w = record { jobs = jobs; world = w }
  run_started run j (ok _, jobs) w =
      let (result, w1) = run j w in
      let (now, w2) = env.now w1 in
      record { jobs = (update_load env.casing (finished result now j) jobs).1; world = w2 }

  abbrev pub execute_started :
      Run W → Result LoadError (Unit {0}) × LoadJob → LoadMachine W → LoadMachine W
  execute_started run (err e, j) m = m
  execute_started run (ok _, j) m = run_started run j (update_load env.casing j m.jobs) m.world

  -- execute
  unfoldable pub execute : Run W → LoadJob → LoadMachine W → LoadMachine W
  execute run j m =
      let (now, w) = env.now m.world in
      execute_started run (start_load now j) (record m { world = w })
