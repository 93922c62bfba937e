-- ===== src/LoadJob/Submission/Once.antt =====
-- A load job is handed to execution at most once.
use go_bemu.Base.{
  ◌≡◌, ◌≢◌, sym, ◌∙◌, subst, inl, inr, false, Option, none, some, List, [], ◌∷◌, All, Bool-cases,
  Option-cases, if◌then◌else◌,
}
use go_bemu.Text.{Bytes, text_eq, text_eq_iff}
use go_bemu.Maps.{lookup, put, lookup-put}
use go_bemu.Exec.{Result, ok, err}
use go_bemu.LoadJob.Domain.{LoadError, LoadReference, LoadConfiguration, LoadJob, clone_load}
use go_bemu.LoadJob.Submission.{
  load_key, LoadJobs, create_or_get_load, keep_or_insert, update_load, replace_load, LoadEnv,
  LoadMachine, Submitted, judged, submit, submit_job,
}

-- What happens to the repository: submissions, and the updates of jobs that run.
pub data Event : Type 0 where
  submits : LoadReference → LoadConfiguration → Event
  updates : LoadJob → Event

abbrev pub to_execute : Result LoadError Submitted → List LoadJob
to_execute (err e) = []
to_execute (ok s) = elim (s.execution) [ none ↦ [] | some j ↦ j ∷ [] ]

abbrev pub cons_all : List LoadJob → List LoadJob → List LoadJob
cons_all [] js = js
cons_all (j ∷ is) js = j ∷ cons_all is js

-- Jobs under different keys.
abbrev pub AreApart : List LoadJob → Type 0
AreApart [] = Unit
AreApart (j ∷ js) = All (λ i. load_key j.reference ≢ load_key i.reference) js × AreApart js

abbrev pub AreNew : LoadJobs → List LoadJob → Type 0
AreNew m js = All (λ j. lookup (load_key j.reference) m ≡ none) js

some_none : (j : LoadJob) → ◌≢◌ {A = Option LoadJob} (some j) none
some_none j h = cc

put_absent :
    (k i : Bytes) (j : LoadJob) (m : LoadJobs)
    → lookup i (put k j m) ≡ none
    → (k ≢ i) × (lookup i m ≡ none)
put_absent k i j m h =
    let h = sym (lookup-put k i j m) ∙ h in
    elim (Bool-cases (text_eq k i)) [
      | inl e ↦ absurd (some_none j (subst (λ b. (if b then some j else lookup i m) ≡ none) e h))
      | inr e ↦ (
        (λ d. let t = (text_eq_iff k i).1 d in cc),
        subst (λ b. (if b then some j else lookup i m) ≡ none) e h,
      )
    ]

AreNew-put :
    (k : Bytes) (v : LoadJob) (m : LoadJobs) (js : List LoadJob)
    → AreNew (put k v m) js
    → All (λ i. k ≢ load_key i.reference) js × AreNew m js
AreNew-put k v m [] h = (tt, tt)
AreNew-put k v m (i ∷ js) (h, hs) =
    let (a, b) = put_absent k (load_key i.reference) v m h in
    let (x, y) = AreNew-put k v m js hs in ((a, x), (b, y))

module _ {W : Type 0} (env : LoadEnv W) (location : Bytes) where
  -- The repository and the jobs handed to execution, over a list of events.
  abbrev pub handle : Event → LoadMachine W → List LoadJob × LoadMachine W
  handle (submits r q) m = let (s, m') = submit env location r q m in (to_execute s, m')
  handle (updates j) m = ([], record m { jobs = (update_load env.casing j m.jobs).1 })

  unfoldable pub executions : List Event → LoadMachine W → List LoadJob
  executions [] m = []
  executions (e ∷ es) m = let (js, m') = handle e m in cons_all js (executions es m')

  kept :
      (job : LoadJob) (m : LoadJobs) (k : LoadJob) (later : List LoadJob)
      → AreNew m later
      → AreApart later
      → AreNew m (cons_all (to_execute (judged env.casing job (k, false))) later)
        × AreApart (cons_all (to_execute (judged env.casing job (k, false))) later)
  kept job m k later n a =
      elim (Bool-cases (text_eq k.configuration_digest job.configuration_digest)) [
        | inl e ↦ rw e (n, a)
        | inr e ↦ rw e (n, a)
      ]

  judged-executes :
      (job : LoadJob) (m : LoadJobs) (later : List LoadJob)
      → AreNew (create_or_get_load env.casing job m).1 later
      → AreApart later
      → AreNew m (
          cons_all
            (to_execute (judged env.casing job (create_or_get_load env.casing job m).0))
            later)
        × AreApart (
            cons_all
              (to_execute (judged env.casing job (create_or_get_load env.casing job m).0))
              later)
  unfolding create_or_get_load
  judged-executes job m later n a = elim (Option-cases (lookup (load_key job.reference) m)) [
    | inl e ↦
        let (x, y) =
          AreNew-put (load_key job.reference) (clone_load env.casing job) m later
            (subst (λ o. AreNew (keep_or_insert env.casing job m o).1 later) e n) in
        rw e ((e, y), (x, a))
    | inr (k, e) ↦ rw e (
        kept job m (clone_load env.casing k) later
          (subst (λ o. AreNew (keep_or_insert env.casing job m o).1 later) e n) a)
  ]

  submitted-executes :
      (r : Result LoadError LoadJob) (m : LoadMachine W) (later : List LoadJob)
      → AreNew (submit_job env r m).1.jobs later
      → AreApart later
      → AreNew m.jobs (cons_all (to_execute (submit_job env r m).0) later)
        × AreApart (cons_all (to_execute (submit_job env r m).0) later)
  submitted-executes (err e) m later n a = (n, a)
  submitted-executes (ok job) m later n a = judged-executes job m.jobs later n a

  updated-new :
      (j : LoadJob) (m : LoadJobs) (later : List LoadJob)
      → AreNew (update_load env.casing j m).1 later
      → AreNew m later
  unfolding update_load
  updated-new j m later n = elim (Option-cases (lookup (load_key j.reference) m)) [
    | inl e ↦ subst (λ o. AreNew (replace_load env.casing j m o).1 later) e n
    | inr (k, e) ↦
        (AreNew-put (load_key j.reference) (clone_load env.casing j) m later
          (subst (λ o. AreNew (replace_load env.casing j m o).1 later) e n)).1
  ]

  handled-executes :
      (e : Event) (m : LoadMachine W) (later : List LoadJob)
      → AreNew (handle e m).1.jobs later
      → AreApart later
      → AreNew m.jobs (cons_all (handle e m).0 later) × AreApart (cons_all (handle e m).0 later)
  unfolding submit
  handled-executes (submits r q) m later n a = submitted-executes _ _ later n a
  handled-executes (updates j) m later n a = (updated-new j m.jobs later n, a)

  -- Over any submissions and updates of jobs, the jobs that Submit hands to execution have keys that
  -- the repository did not have before, and no two of them have the same key.
  pub executions-AreApart :
      (es : List Event) (m : LoadMachine W)
      → AreNew m.jobs (executions es m) × AreApart (executions es m)
  unfolding executions
  executions-AreApart [] m = (tt, tt)
  executions-AreApart (e ∷ es) m =
      let (n, a) = executions-AreApart es (handle e m).1 in handled-executes e m _ n a
