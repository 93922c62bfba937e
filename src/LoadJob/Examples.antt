-- ===== src/LoadJob/Examples.antt =====
-- Runs of load jobs at concrete inputs.
use go_bemu.Base.{
  ℕ, ◌+◌, length, ◌≡◌, refl, sym, ◌∙◌, subst, inl, inr, Bool, Bool-cases, List, [], ◌∷◌, arith,
  true, false, none, some,
}
use go_bemu.Words.{lt64, add64, sub64}
use go_bemu.Text.{Bytes, codes, text_eq, text_lt}
use go_bemu.Maps.{lookup, put}
use go_bemu.Exec.{Result, ok}
use go_bemu.Catalog.Casing.{ascii}
use go_bemu.Catalog.Fields.{nil}
use go_bemu.Catalog.Job.{job_pending}
use go_bemu.LoadJob.Domain.{
  LoadError, canceled, LoadReference, LoadConfiguration, LoadJob, no_statistics, new_job,
  normalize_configuration, validate_load_reference, validate_configuration, validate_schema,
  validate_fields, validate_unique_from, configuration_digest,
}
use go_bemu.LoadJob.Submission.{
  LoadEnv, LoadMachine, Run, load_key, submit, complete_reference, placed, create_or_get_load,
  execute,
}
use go_bemu.LoadJob.Submission.Once.{submits, executions, AreNew, AreApart, executions-AreApart}
use go_bemu.LoadJob.Submission.Execution.{HasRun, execute-HasRun}
use go_bemu.LoadJob.Sources.{
  ObjectInfo, Limits, ObjectStore, find_matches, is_pattern, resolve_patterns, resolve_objects,
  add_match, add_matches, sum_objects, insert_object, sort_objects, collect_objects,
  object_identity_changed,
}
use go_bemu.LoadJob.Sources.Bounds.{AreResolved, resolve_objects-AreResolved, AreWords, ok_same}

abbrev object : Bytes → ObjectInfo
object uri = record { uri = uri; generation = codes "1"; etag = []; size = 30 }

abbrev store : ObjectStore ℕ
store = record {
  list = λ p w. (ok (object (codes "gs://b/z") ∷ object (codes "gs://b/a") ∷ []), w);
  get = λ p w. (ok (object p), w);
}

abbrev limits : Limits
limits = record { max_objects = 2; max_object_bytes = 50; max_total_bytes = 100 }

-- What the store finds for a pattern or a URI.
abbrev found : Bool → Bytes → Result LoadError (List ObjectInfo)
found true p = ok (object (codes "gs://b/z") ∷ object (codes "gs://b/a") ∷ [])
found false p = ok (object p ∷ [])

found_words : (b : Bool) (p : Bytes) (os : List ObjectInfo) → found b p ≡ ok os → AreWords os
found_words true p os h = subst AreWords (ok_same h) (omega arith, (omega arith, tt))
found_words false p os h = subst AreWords (ok_same h) (omega arith, tt)

find_matches-found :
    (p : Bytes) (w : ℕ) → (find_matches store limits p w).0 ≡ found (is_pattern p) p
unfolding find_matches
find_matches-found p w = elim (Bool-cases (is_pattern p)) [ inl e ↦ rw e refl | inr e ↦ rw e refl ]

abbrev patterns : List Bytes
patterns = codes "gs://b/*" ∷ codes "gs://b/a" ∷ []

resolve_objects-AreResolved_example :
    AreResolved limits (object (codes "gs://b/a") ∷ object (codes "gs://b/z") ∷ [])
unfolding resolve_objects resolve_patterns find_matches add_matches add_match
    object_identity_changed collect_objects sum_objects sort_objects insert_object lookup put
    text_eq text_lt lt64 add64 sub64
resolve_objects-AreResolved_example =
    resolve_objects-AreResolved limits (record { share = omega arith; budget = omega arith }) store
      (λ p w os h. found_words (is_pattern p) p os (sym (find_matches-found p w) ∙ h)) patterns 0
      refl

abbrev reference : LoadReference
reference = record { project = codes "p"; location = codes "US"; job = codes "j" }

abbrev configuration : LoadConfiguration
configuration = record {
  source_uris = codes "gs://b/a" ∷ [];
  destination = record { project = []; dataset = codes "d"; table = codes "t" };
  source_format = codes "parquet";
  write_disposition = [];
  create_disposition = [];
  schema = nil;
  autodetect = false;
  schema_update_options = [];
  ignore_unknown_values = false;
  max_bad_records = 0;
  unsupported_options = [];
}

abbrev env : LoadEnv ℕ
env = record {
  now = λ w. (w, w + 1);
  new_id = λ w. (codes "id", w);
  casing = ascii;
  digester = λ q. q.source_format;
}

abbrev idle : LoadMachine ℕ
idle = record { jobs = []; world = 5 }

executions-AreApart_example :
    AreNew [] (
      executions env []
        (submits reference configuration ∷ submits reference configuration ∷ [])
        idle)
    × AreApart (
        executions env []
          (submits reference configuration ∷ submits reference configuration ∷ [])
          idle)
executions-AreApart_example =
    executions-AreApart env []
      (submits reference configuration ∷ submits reference configuration ∷ []) idle

abbrev pending : LoadJob
pending = record {
  reference = reference;
  configuration = configuration;
  configuration_digest = codes "PARQUET";
  state = job_pending;
  error = none;
  statistics = no_statistics;
  created_at = 5;
  started_at = none;
  ended_at = none;
}

-- The second submission hands nothing to execution.
submitted_once :
    length (
      executions env []
        (submits reference configuration ∷ submits reference configuration ∷ [])
        idle)
    ≡ 1
unfolding executions submit complete_reference placed new_job normalize_configuration
    validate_load_reference validate_configuration validate_schema validate_fields
    validate_unique_from configuration_digest create_or_get_load lookup put text_eq lt64
submitted_once = refl

abbrev fails : Run ℕ
fails j w = ((no_statistics, some canceled), w)

abbrev held : LoadMachine ℕ
held = record { jobs = (load_key reference, pending) ∷ []; world = 6 }

held_pending : lookup (load_key reference) held.jobs ≡ some pending
unfolding lookup text_eq
held_pending = refl

execute-HasRun_example : HasRun env fails pending held (execute env fails pending held)
execute-HasRun_example = execute-HasRun env fails pending held refl held_pending
