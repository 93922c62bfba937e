-- ===== src/LoadJob/Domain.antt =====
-- The load job and its errors: internal/loadjob/domain. Times are instants; a copied slice or pointer
-- is equal to what it copies.
use go_bemu.Base.{
  ℕ, Bool, false, not, ◌||◌, Option, none, some, List, [], ◌∷◌, is_empty, if◌then◌else◌,
}
use go_bemu.Words.{lt64}
use go_bemu.Text.{Bytes, codes}
use go_bemu.Exec.{Result, ok, err, Exec}
use go_bemu.Catalog.Failure.{Kind}
use go_bemu.Catalog.Casing.{Casing}
use go_bemu.Catalog.Fields.{Field, field, Fields, nil, cons}
use go_bemu.Catalog.Schema.{one_of, field_name, validate_field}
use go_bemu.Catalog.Job.{JobState, job_pending, job_running, job_done, JobError}
use go_bemu.Catalog.Job.Query.{upper_or, write_dispositions, create_dispositions}

-- An error of this package is one of its variables with a text; others come from the ports and from
-- contexts.
pub data LoadFault : Type 0 where
  not_found conflict invalid precondition unsupported : LoadFault

pub data LoadError : Type 0 where
  fault : LoadFault → Bytes → LoadError
  canceled deadline_exceeded : LoadError
  foreign : Bytes → LoadError

-- fmt.Errorf("%w: ...", domain.Err..., ...)
abbrev pub refuse : {A : Type 0} → LoadFault → Bytes → Result LoadError A
refuse k text = err (fault k text)

pub record LoadReference : Type 0 where
  pub project : Bytes
  pub location : Bytes
  pub job : Bytes

pub record LoadTable : Type 0 where
  pub project : Bytes
  pub dataset : Bytes
  pub table : Bytes

pub record LoadConfiguration : Type 0 where
  pub source_uris : List Bytes
  pub destination : LoadTable
  pub source_format : Bytes
  pub write_disposition : Bytes
  pub create_disposition : Bytes
  pub schema : Fields
  pub autodetect : Bool
  pub schema_update_options : List Bytes
  pub ignore_unknown_values : Bool
  pub max_bad_records : ℕ
  pub unsupported_options : List Bytes

pub record Statistics : Type 0 where
  pub input_files : ℕ
  pub input_bytes : ℕ
  pub output_bytes : ℕ
  pub output_rows : ℕ

pub record LoadJob : Type 0 where
  pub reference : LoadReference
  pub configuration : LoadConfiguration
  pub configuration_digest : Bytes
  pub state : JobState
  pub error : Option JobError
  pub statistics : Statistics
  pub created_at : ℕ
  pub started_at : Option ℕ
  pub ended_at : Option ℕ

unfoldable pub normalize_configuration : Casing → LoadConfiguration → LoadConfiguration
normalize_configuration c q = record q {
  source_format = upper_or c (codes "CSV") q.source_format;
  write_disposition = upper_or c (codes "WRITE_APPEND") q.write_disposition;
  create_disposition = upper_or c (codes "CREATE_IF_NEEDED") q.create_disposition;
}

unfoldable pub validate_load_reference : LoadReference → Result LoadError (Unit {0})
validate_load_reference r =
    if is_empty r.project || is_empty r.location || is_empty r.job
    then refuse invalid (codes "projectId, location, and jobId are required")
    else ok tt

-- The fields of a schema, checked in order.
abbrev pub first_fault :
    Result LoadError (Unit {0}) → Result LoadError (Unit {0}) → Result LoadError (Unit {0})
first_fault (ok _) r = r
first_fault (err e) r = err e

abbrev kind_fault : Kind → LoadFault
kind_fault Kind.unsupported = LoadFault.unsupported
kind_fault _ = LoadFault.invalid

abbrev pub check_valid : Casing → Field → Result LoadError (Unit {0})
check_valid c f = elim (validate_field c f) [
  | ok _ ↦ ok tt
  | err e ↦ refuse (kind_fault e.kind) (codes e.text)
]

unfoldable pub validate_fields : Casing → Fields → Result LoadError (Unit {0})
validate_fields c nil = ok tt
validate_fields c (cons f fs) =
    let rest = validate_fields c fs in first_fault (check_valid c f) rest

-- validateUniqueSchemaFields, with the lower-case names seen before.
unfoldable mutual
  pub validate_unique_from : Casing → List Bytes → Fields → Result LoadError (Unit {0})
  validate_unique_from c seen nil = ok tt
  validate_unique_from c seen (cons f fs) =
      let below = validate_unique_below c f in
      let rest = validate_unique_from c (c.lower (field_name f) ∷ seen) fs in
      if one_of (c.lower (field_name f)) seen
      then refuse invalid (codes "duplicate schema field")
      else first_fault below rest

  pub validate_unique_below : Casing → Field → Result LoadError (Unit {0})
  validate_unique_below c (field name kind mode description precision scale rounding nested) =
      validate_unique_from c [] nested

-- ValidateSchema
unfoldable pub validate_schema : Casing → Fields → Result LoadError (Unit {0})
validate_schema c fs = first_fault (validate_fields c fs) (validate_unique_from c [] fs)

abbrev any_blank : Casing → List Bytes → Bool
any_blank c [] = false
any_blank c (u ∷ us) = is_empty (c.trim u) || any_blank c us

abbrev pub source_formats : List Bytes
source_formats =
    codes "CSV" ∷ codes "NEWLINE_DELIMITED_JSON" ∷ codes "AVRO" ∷ codes "PARQUET" ∷ codes "ORC" ∷ []

-- ValidateConfiguration
unfoldable pub validate_configuration : Casing → LoadConfiguration → Result LoadError (Unit {0})
validate_configuration c q =
    if is_empty q.source_uris
    then refuse invalid (codes "sourceUris must contain at least one URI")
    else if any_blank c q.source_uris
    then refuse invalid (codes "sourceUris cannot contain an empty URI")
    else if is_empty q.destination.project
        || is_empty q.destination.dataset
        || is_empty q.destination.table
    then refuse invalid (codes "destinationTable projectId, datasetId, and tableId are required")
    else if not (one_of q.source_format source_formats)
    then refuse invalid (codes "unknown sourceFormat")
    else if not (one_of q.write_disposition write_dispositions)
    then refuse invalid (codes "unknown writeDisposition")
    else if not (one_of q.create_disposition create_dispositions)
    then refuse invalid (codes "unknown createDisposition")
    else if lt64 q.max_bad_records 0
    then refuse invalid (codes "maxBadRecords must not be negative")
    else validate_schema c q.schema

-- What json.Marshal and sha256.Sum256 make of a configuration, in hexadecimal digits.
abbrev pub Digester : Type 0
Digester = LoadConfiguration → Bytes

-- ConfigurationDigest; Marshal does not fail on these types.
unfoldable pub configuration_digest : Casing → Digester → LoadConfiguration → Bytes
configuration_digest c digester q = digester (normalize_configuration c q)

abbrev pub no_statistics : Statistics
no_statistics = record { input_files = 0; input_bytes = 0; output_bytes = 0; output_rows = 0 }

abbrev pub checked_job : Result LoadError (Unit {0}) → LoadJob → Result LoadError LoadJob
checked_job (ok _) j = ok j
checked_job (err e) j = err e

-- NewJob
unfoldable pub new_job :
    Casing → Digester → LoadReference → LoadConfiguration → ℕ → Result LoadError LoadJob
new_job c digester r q now =
    let configuration = normalize_configuration c q in
    checked_job (first_fault (validate_load_reference r) (validate_configuration c configuration))
      (record {
        reference = r;
        configuration = configuration;
        configuration_digest = configuration_digest c digester configuration;
        state = job_pending;
        error = none;
        statistics = no_statistics;
        created_at = now;
        started_at = none;
        ended_at = none;
      })

abbrev pub LoadStep : Type 0
LoadStep = Exec LoadJob LoadError (Unit {0})

abbrev pub start_from : JobState → ℕ → LoadStep
start_from job_pending now j = (ok tt, record j { started_at = some now; state = job_running })
start_from _ now j = (refuse conflict (codes "cannot start load job"), j)

-- Job.Start
unfoldable pub start_load : ℕ → LoadStep
start_load now j = start_from j.state now j

-- Job.Complete
unfoldable pub complete_load : Statistics → ℕ → LoadStep
complete_load statistics now j = elim (j.state) [
  | job_running ↦ (
    ok tt,
    record j { ended_at = some now; statistics = statistics; state = job_done; error = none },
  )
  | _ ↦ (refuse conflict (codes "cannot complete load job"), j)
]

-- Job.Fail
unfoldable pub fail_load : Bytes → Bytes → Statistics → ℕ → LoadStep
fail_load reason message statistics now j = elim (j.state) [
  | job_running ↦ (
    ok tt,
    record j {
      ended_at = some now;
      statistics = statistics;
      state = job_done;
      error = some (record { reason = reason; message = message });
    },
  )
  | _ ↦ (refuse conflict (codes "cannot fail load job"), j)
]

-- Job.Clone
abbrev pub clone_load : Casing → LoadJob → LoadJob
clone_load c j = record j { configuration = normalize_configuration c j.configuration }
