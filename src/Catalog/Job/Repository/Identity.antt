-- ===== src/Catalog/Job/Repository/Identity.antt =====
-- Which references name the same job in the repository, and what its operations do to each of them.
use go_bemu.Base.{
  ℕ, ◌≡◌, ◌≢◌, refl, sym, ap, ◌∙◌, subst, inl, inr, Bool, true, false, not, ◌&&◌, ◌||◌, Option,
  some, [], ◌∷◌, ◌++◌, arith, All, Bool-cases, and_parts, or_parts, not_off, is_empty, Option-cases,
  ltb, length, leb, if◌then◌else◌,
}
use go_bemu.Text.{Bytes, text_eq, text_eq_iff, text_eq_refl}
use go_bemu.Maps.{Map, lookup, put, lookup-put}
use go_bemu.Exec.{Result, ok, err}
use go_bemu.Catalog.Failure.{Failure, else_ok}
use go_bemu.Catalog.Casing.{Casing, IsCasing}
use go_bemu.Catalog.Names.{
  every, is_project_id, is_job_location, is_job_id, is_lower, project_byte, location_byte,
}
use go_bemu.Catalog.Job.{JobReference, Job}
use go_bemu.Catalog.Job.Query.{validate_reference}
use go_bemu.Catalog.Job.Repository.{compose_key, job_key, create_or_get, update, get, found}

-- One project, one job ID, and one location, letters' case aside.
unfoldable pub same_identity : Casing → JobReference → JobReference → Bool
same_identity c r s =
    text_eq r.project s.project
    && (text_eq (c.upper r.location) (c.upper s.location) && text_eq r.job s.job)

abbrev pub succeeds : {A : Type 0} → Result Failure A → Bool
succeeds (ok a) = true
succeeds (err e) = false

abbrev pub IsClean : Bytes → Type 0
IsClean = All (λ b. b ≢ 0)

cut_equal : (s t u v : Bytes) → IsClean s → IsClean t → s ++ 0 ∷ u ≡ t ++ 0 ∷ v → (s ≡ t) × (u ≡ v)
cut_equal [] [] u v hs ht e = (refl, cc)
cut_equal [] (b ∷ t) u v hs (hb, ht) e = absurd (hb cc)
cut_equal (a ∷ s) [] u v (ha, hs) ht e = absurd (ha cc)
cut_equal (a ∷ s) (b ∷ t) u v (ha, hs) (hb, ht) e =
    let e' : s ++ 0 ∷ u ≡ t ++ 0 ∷ v = cc in
    let (p, q) = cut_equal s t u v hs ht e' in let e'' : a ≡ b = cc in (cc, q)

every-IsClean : (p : ℕ → Bool) (s : Bytes) → p 0 ≡ false → every p s ≡ true → IsClean s
every-IsClean p [] h k = tt
every-IsClean p (c ∷ s) h k =
    let (a, b) = and_parts (p c) (every p s) k in
    ((λ e. let d = subst (λ x. p x ≡ true) e a in cc), every-IsClean p s h b)

project-IsClean : (s : Bytes) → is_project_id s ≡ true → IsClean s
unfolding is_project_id
project-IsClean [] h = cc
project-IsClean (c ∷ s) h =
    let (a, b) =
      and_parts (is_lower c && (leb 2 (length s) && leb (length s) 62)) (every project_byte s) h in
    let (l, _) = and_parts (is_lower c) _ a in
    (
      (λ e. let d = subst (λ x. is_lower x ≡ true) e l in ground arith),
      every-IsClean project_byte s refl b,
    )

location-IsClean : (s : Bytes) → is_job_location s ≡ true → IsClean s
unfolding is_job_location
location-IsClean s h =
    every-IsClean location_byte s refl (and_parts (not (is_empty s)) (every location_byte s) h).1

-- The key of a valid reference, and its clean parts.
valid-IsClean :
    (r : JobReference) → validate_reference r ≡ ok tt → IsClean r.project × IsClean r.location
unfolding validate_reference
valid-IsClean r h =
    let (a, _) =
      else_ok
        (not (is_project_id r.project)
          || ltb 1024 (length r.job)
          || ltb 1024 (length r.location)
          || not (is_job_id r.job)
          || not (is_job_location r.location))
        _ h in
    let (a, l) =
      or_parts
        (not (is_project_id r.project)
          || ltb 1024 (length r.job)
          || ltb 1024 (length r.location)
          || not (is_job_id r.job))
        _ a in
    let (a, _) =
      or_parts
        (not (is_project_id r.project) || ltb 1024 (length r.job) || ltb 1024 (length r.location)) _
        a in
    let (a, _) = or_parts (not (is_project_id r.project) || ltb 1024 (length r.job)) _ a in
    let (a, _) = or_parts (not (is_project_id r.project)) _ a in
    (project-IsClean r.project (not_off _ a), location-IsClean r.location (not_off _ l))

module _ (c : Casing) (laws : IsCasing c) where
  abbrev key_of : JobReference → Bytes
  key_of r = compose_key r.project (c.upper r.location) r.job

  same_key :
      (r s : JobReference)
      → validate_reference r ≡ ok tt
      → validate_reference s ≡ ok tt
      → key_of r ≡ key_of s
      → (r.project ≡ s.project) × (c.upper r.location ≡ c.upper s.location) × (r.job ≡ s.job)
  same_key r s hr hs e =
      let (rp, rl) = valid-IsClean r hr in
      let (sp, sl) = valid-IsClean s hs in
      let (p, e) = cut_equal r.project s.project _ _ rp sp e in
      let (l, j) =
        cut_equal (c.upper r.location) (c.upper s.location) _ _ (laws.upper_zero _ rl)
          (laws.upper_zero _ sl) e in
      (p, l, j)

  key_equal : (r s : JobReference) → same_identity c r s ≡ true → key_of r ≡ key_of s
  unfolding same_identity
  key_equal r s i =
      let (p, i) = and_parts (text_eq r.project s.project) _ i in
      let (l, j) = and_parts (text_eq (c.upper r.location) (c.upper s.location)) _ i in
      rw
        (
          (text_eq_iff r.project s.project).0 p,
          (text_eq_iff (c.upper r.location) (c.upper s.location)).0 l,
          (text_eq_iff r.job s.job).0 j,
        )
        refl

  -- Keys are equal if and only if the identities are the same.
  key_test :
      (r s : JobReference)
      → validate_reference r ≡ ok tt
      → validate_reference s ≡ ok tt
      → text_eq (key_of r) (key_of s) ≡ same_identity c r s
  unfolding same_identity
  key_test r s hr hs = elim (Bool-cases (text_eq (key_of r) (key_of s))) [
    | inl e ↦
        let (p, l, j) = same_key r s hr hs ((text_eq_iff (key_of r) (key_of s)).0 e) in
        rw (e, p, l, j)
          (rw (text_eq_refl s.project, text_eq_refl (c.upper s.location), text_eq_refl s.job) refl)
    | inr e ↦ elim (Bool-cases (same_identity c r s)) [
      | inl i ↦
          let e' =
            subst (λ k. text_eq (key_of r) k ≡ true) (key_equal r s i) (text_eq_refl (key_of r)) in
          cc
      | inr i ↦ e ∙ sym i
    ]
  ]

  module _ {V : Type 0} where
    get-key :
        (r : JobReference) (m : Map (Job V))
        → validate_reference r ≡ ok tt
        → get c r m ≡ found c (lookup (key_of r) m)
    unfolding get job_key
    get-key r m h = rw h refl

    -- What the repository holds is a function on references: `write j g` is `g` but for the references
    -- with the identity of `j`.
    abbrev pub write :
        Job V → (JobReference → Result Failure (Job V)) → JobReference → Result Failure (Job V)
    write j g r = if same_identity c j.reference r then ok j else g r

    found-if :
        (b : Bool) (j : Job V) (o : Option (Job V))
        → found c (if b then some j else o) ≡ (if b then ok j else found c o)
    found-if true j o = refl
    found-if false j o = refl

    get-put :
        (j : Job V) (m : Map (Job V)) (r : JobReference)
        → validate_reference j.reference ≡ ok tt
        → validate_reference r ≡ ok tt
        → get c r (put (key_of j.reference) j m) ≡ write j (λ s. get c s m) r
    get-put j m r hj hr =
        get-key r (put (key_of j.reference) j m) hr
        ∙ ap (found c) (lookup-put (key_of j.reference) (key_of r) j m)
        ∙ rw (key_test j.reference r hj hr, get-key r m hr)
            (found-if (same_identity c j.reference r) j (lookup (key_of r) m))

    -- CreateOrGet and Update on such a function, given what it holds for the job's reference.
    abbrev pub spec_create :
        Job V
        → (JobReference → Result Failure (Job V))
        → Result Failure (Job V)
        → (Job V × Bool) × (JobReference → Result Failure (Job V))
    spec_create j g (ok k) = ((k, false), g)
    spec_create j g (err e) = ((j, true), write j g)

    abbrev pub spec_update :
        Job V
        → (JobReference → Result Failure (Job V))
        → Result Failure (Job V)
        → Bool × (JobReference → Result Failure (Job V))
    spec_update j g (ok k) = (true, write j g)
    spec_update j g (err e) = (false, g)

    -- For a job with a valid reference, CreateOrGet returns what the repository holds for that
    -- reference and changes nothing, or else stores the job and returns it as new; every valid reference
    -- then reads as in the abstract function, where only references with the identity of the job's
    -- (project, location in upper case, job ID) are changed.
    pub create_or_get_refines :
        (j : Job V) (m : Map (Job V)) (r : JobReference)
        → validate_reference j.reference ≡ ok tt
        → validate_reference r ≡ ok tt
        → let spec = spec_create j (λ s. get c s m) (get c j.reference m) in
          ((create_or_get c j m).0 ≡ ok spec.0) × (get c r (create_or_get c j m).1 ≡ spec.1 r)
    unfolding create_or_get job_key
    create_or_get_refines j m r hj hr = elim (Option-cases (lookup (key_of j.reference) m)) [
      | inl e ↦ rw (get-key j.reference m hj, hj, e) (refl, get-put j m r hj hr)
      | inr (k, e) ↦ rw (get-key j.reference m hj, hj, e) (refl, refl)
    ]

    -- For a job with a valid reference, Update succeeds if and only if the repository holds a job for
    -- that reference, and then replaces it under the identity of the reference; every other valid
    -- reference reads as before, and a refused Update changes none.
    pub update_refines :
        (j : Job V) (m : Map (Job V)) (r : JobReference)
        → validate_reference j.reference ≡ ok tt
        → validate_reference r ≡ ok tt
        → let spec = spec_update j (λ s. get c s m) (get c j.reference m) in
          (succeeds (update c j m).0 ≡ spec.0) × (get c r (update c j m).1 ≡ spec.1 r)
    unfolding update job_key
    update_refines j m r hj hr = elim (Option-cases (lookup (key_of j.reference) m)) [
      | inl e ↦ rw (get-key j.reference m hj, hj, e) (refl, refl)
      | inr (k, e) ↦ rw (get-key j.reference m hj, hj, e) (refl, get-put j m r hj hr)
    ]
