-- ===== src/Catalog/Job.antt =====
-- Query jobs: internal/domain/job.go. Times are instants, so `UTC` is the identity on them; the values
-- of result rows are of a type of the engine's.
pub mod Query
pub mod Phases
pub mod Digest
pub mod Repository
use go_bemu.Base.{
  ℕ, ◌≡◌, refl, Bool, true, false, not, ◌&&◌, ◌||◌, Option, none, some, List, [], ◌∷◌, ltb, length,
  if◌then◌else◌,
}
use go_bemu.Text.{Bytes, codes, text_eq}
use go_bemu.Maps.{Map}
use go_bemu.Exec.{Result, ok, err, Exec}
use go_bemu.Catalog.Failure.{Failure, fails, conflict, invalid, Checked}
use go_bemu.Catalog.Fields.{Fields}

pub data JobState : Type 0 where
  job_pending job_running job_done : JobState

pub record JobReference : Type 0 where
  pub project : Bytes
  pub job : Bytes
  pub location : Bytes

pub record Destination : Type 0 where
  pub project : Bytes
  pub dataset : Bytes
  pub table : Bytes

pub record QueryConfiguration : Type 0 where
  pub sql : Bytes
  pub default_project : Bytes
  pub default_dataset : Bytes
  pub destination : Option Destination
  pub write_disposition : Bytes
  pub create_disposition : Bytes
  pub priority : Bytes
  pub labels : Option (Map Bytes)
  pub anonymous_destination : Bool

pub record JobError : Type 0 where
  pub reason : Bytes
  pub message : Bytes

pub record QueryResult (V : Type 0) : Type 0 where
  pub columns : Fields
  pub rows : List (List V)
  pub affected_rows : ℕ
  pub total_rows : ℕ
  pub rows_unavailable : Bool

pub record Job (V : Type 0) : Type 0 where
  pub reference : JobReference
  pub query : Bytes
  pub configuration : QueryConfiguration
  pub configuration_digest : Bytes
  pub state : JobState
  pub error : Option JobError
  pub result : Option (QueryResult V)
  pub created_at : ℕ
  pub started_at : Option ℕ
  pub ended_at : Option ℕ

-- The methods of `*Job` change the job in place.
abbrev pub Step : Type 0 → Type 0
Step V = Exec (Job V) Failure (Unit {0})

module _ {V : Type 0} where
  -- Job.Start
  unfoldable pub start : ℕ → Step V
  start now j = elim (j.state) [
    | job_pending ↦ (ok tt, record j { state = job_running; started_at = some now })
    | _ ↦ (fails conflict "cannot start job", j)
  ]

  -- Job.Complete
  unfoldable pub complete_job : QueryResult V → ℕ → Step V
  complete_job r now j = elim (j.state) [
    | job_running ↦ (ok tt, record j { state = job_done; result = some r; ended_at = some now })
    | _ ↦ (fails conflict "cannot complete job", j)
  ]

  -- Job.Fail
  unfoldable pub fail_job : Bytes → Bytes → ℕ → Step V
  fail_job reason message now j = elim (j.state) [
    | job_running ↦ (
      ok tt,
      record j {
        state = job_done;
        error = some (record { reason = reason; message = message });
        ended_at = some now;
      },
    )
    | _ ↦ (fails conflict "cannot fail job", j)
  ]
