-- ===== src/Catalog/Job/Repository.antt =====
-- The in-memory repository of query jobs: internal/adapters/memory/jobs.go. A stored job shares
-- nothing with the caller's, so its copies are equal to it.
pub mod Identity
use go_bemu.Base.{
  ℕ, Bool, true, false, not, ◌&&◌, ◌||◌, Option, none, some, List, [], ◌∷◌, ◌++◌, ltb, nat_eq,
  is_empty, if◌then◌else◌,
}
use go_bemu.Text.{Bytes, text_eq, text_lt}
use go_bemu.Maps.{Map, lookup, put}
use go_bemu.Exec.{Result, ok, err, Exec, ◌>>=◌, pure, raise, lift}
use go_bemu.Catalog.Failure.{Failure, fails, not_found, Checked}
use go_bemu.Catalog.Casing.{Casing}
use go_bemu.Catalog.Job.{JobReference, Job}
use go_bemu.Catalog.Job.Query.{validate_reference, validate_job_list_scope, after_check}

abbrev pub compose_key : Bytes → Bytes → Bytes → Bytes
compose_key project location job = project ++ 0 ∷ (location ++ 0 ∷ job)

-- jobKey
unfoldable pub job_key : Casing → JobReference → Result Failure Bytes
job_key c r = after_check (validate_reference r) (compose_key r.project (c.upper r.location) r.job)

module _ {V : Type 0} (c : Casing) where
  -- The job under a key, and whether it is new.
  abbrev pub insert_or_keep :
      Bytes → Job V → Map (Job V) → Option (Job V) → (Job V × Bool) × Map (Job V)
  insert_or_keep key j m (some existing) = ((existing, false), m)
  insert_or_keep key j m none = ((j, true), put key j m)

  abbrev pub create_under :
      Result Failure Bytes → Job V → Map (Job V) → Result Failure (Job V × Bool) × Map (Job V)
  create_under (err e) j m = (err e, m)
  create_under (ok key) j m = let (r, m') = insert_or_keep key j m (lookup key m) in (ok r, m')

  -- CreateOrGet
  unfoldable pub create_or_get : Job V → Exec (Map (Job V)) Failure (Job V × Bool)
  create_or_get j m = create_under (job_key c j.reference) j m

  abbrev pub replace : Bytes → Job V → Map (Job V) → Option (Job V) → Checked × Map (Job V)
  replace key j m (some existing) = (ok tt, put key j m)
  replace key j m none = (fails not_found "job", m)

  abbrev pub update_under : Result Failure Bytes → Job V → Map (Job V) → Checked × Map (Job V)
  update_under (err e) j m = (err e, m)
  update_under (ok key) j m = replace key j m (lookup key m)

  -- Update
  unfoldable pub update : Job V → Exec (Map (Job V)) Failure (Unit {0})
  update j m = update_under (job_key c j.reference) j m

  abbrev pub found : Option (Job V) → Result Failure (Job V)
  found none = fails not_found "query job"
  found (some j) = ok j

  abbrev pub get_under : Result Failure Bytes → Map (Job V) → Result Failure (Job V)
  get_under (err e) m = err e
  get_under (ok key) m = found (lookup key m)

  -- Get
  unfoldable pub get : JobReference → Map (Job V) → Result Failure (Job V)
  get r m = get_under (job_key c r) m

  -- The order of List: newest first, then by job ID, then by location.
  unfoldable pub listed_before : Job V → Job V → Bool
  listed_before a b =
      if nat_eq a.created_at b.created_at
      then (if text_eq a.reference.job b.reference.job
          then text_lt (c.upper a.reference.location) (c.upper b.reference.location)
          else text_lt a.reference.job b.reference.job)
      else ltb b.created_at a.created_at

  unfoldable pub insert_listed : Job V → List (Job V) → List (Job V)
  insert_listed j [] = j ∷ []
  insert_listed j (k ∷ ks) =
      let rest = insert_listed j ks in if listed_before k j then k ∷ rest else j ∷ k ∷ ks

  abbrev pub is_listed : Bytes → Bytes → Job V → Bool
  is_listed project location j =
      text_eq j.reference.project project
      && (is_empty location || c.equal_fold j.reference.location location)

  -- The matching jobs, sorted; where keys differ no two of them are equal in the order, so sort.Slice
  -- has one result.
  unfoldable pub select_jobs : Bytes → Bytes → Map (Job V) → List (Job V)
  select_jobs project location [] = []
  select_jobs project location ((k, j) ∷ m) =
      let rest = select_jobs project location m in
      if is_listed project location j then insert_listed j rest else rest

  -- List
  unfoldable pub list_jobs : Bytes → Bytes → Map (Job V) → Result Failure (List (Job V))
  list_jobs project location m =
      after_check (validate_job_list_scope project location) (select_jobs project location m)
