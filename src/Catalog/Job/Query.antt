-- ===== src/Catalog/Job/Query.antt =====
-- The construction of a query job: internal/domain/job.go.
use go_bemu.Base.{
  ℕ, Bool, true, not, ◌&&◌, ◌||◌, Option, none, some, List, [], ◌∷◌, ltb, length, is_empty,
  if◌then◌else◌,
}
use go_bemu.Text.{Bytes, codes, text_eq}
use go_bemu.Maps.{Map}
use go_bemu.Exec.{Result, ok, err}
use go_bemu.Catalog.Failure.{Failure, fails, invalid, Checked}
use go_bemu.Catalog.Casing.{Casing}
use go_bemu.Catalog.Schema.{and_then, one_of}
use go_bemu.Catalog.Names.{
  is_project_id, is_resource_id, is_job_location, is_job_id, is_label_key, is_label_value,
}
use go_bemu.Catalog.Job.{JobReference, QueryConfiguration, Destination, Job, job_pending}

-- JobReference.Validate
unfoldable pub validate_reference : JobReference → Checked
validate_reference r =
    if not (is_project_id r.project)
      || ltb 1024 (length r.job)
      || ltb 1024 (length r.location)
      || not (is_job_id r.job)
      || not (is_job_location r.location)
    then fails invalid "invalid projectId, location, or jobId in jobReference"
    else ok tt

unfoldable pub validate_job_list_scope : Bytes → Bytes → Checked
validate_job_list_scope project location =
    if not (is_project_id project) || not (text_eq location []) && not (is_job_location location)
    then fails invalid "invalid projectId or location in jobs.list scope"
    else ok tt

-- A text in upper case, or what stands for an empty one.
abbrev pub upper_or : Casing → Bytes → Bytes → Bytes
upper_or c default [] = default
upper_or c default (b ∷ s) = c.upper (b ∷ s)

abbrev pub upper_with : Casing → Bytes → Option Destination → Bytes → Bytes
upper_with c default none s = s
upper_with c default (some d) s = upper_or c default s

-- The copies of labels and destination that the code makes are equal to them.
unfoldable pub normalize_query_configuration : Casing → QueryConfiguration → QueryConfiguration
normalize_query_configuration c q = record q {
  sql = c.trim q.sql;
  priority = upper_or c (codes "INTERACTIVE") q.priority;
  write_disposition = upper_with c (codes "WRITE_EMPTY") q.destination q.write_disposition;
  create_disposition = upper_with c (codes "CREATE_IF_NEEDED") q.destination q.create_disposition;
}

abbrev is_label : Bytes → Bytes → Bool
is_label key value =
    not (ltb 63 (length key) || ltb 63 (length value)) && is_label_key key && is_label_value value

abbrev are_labels : Map Bytes → Bool
are_labels [] = true
are_labels ((k, v) ∷ m) = is_label k v && are_labels m

unfoldable pub validate_query_labels : Option (Map Bytes) → Checked
validate_query_labels none = ok tt
validate_query_labels (some m) =
    if ltb 64 (length m)
    then fails invalid "query job labels exceed 64 entries"
    else if not (are_labels m)
    then fails invalid "invalid query job label key or value"
    else ok tt

abbrev is_set : Bytes → Bool
is_set s = not (is_empty s)

unfoldable pub check_default_dataset : QueryConfiguration → Checked
check_default_dataset q =
    if is_empty q.default_dataset && is_set q.default_project
    then fails invalid "defaultDataset.projectId requires defaultDataset.datasetId"
    else if is_set q.default_dataset && not (is_resource_id q.default_dataset)
    then fails invalid "invalid defaultDataset.datasetId"
    else if is_set q.default_dataset
        && is_set q.default_project
        && not (is_project_id q.default_project)
    then fails invalid "invalid defaultDataset.projectId"
    else ok tt

abbrev pub write_dispositions : List Bytes
write_dispositions = codes "WRITE_APPEND" ∷ codes "WRITE_EMPTY" ∷ codes "WRITE_TRUNCATE" ∷ []

abbrev pub create_dispositions : List Bytes
create_dispositions = codes "CREATE_IF_NEEDED" ∷ codes "CREATE_NEVER" ∷ []

unfoldable pub check_destination : Option Destination → QueryConfiguration → Checked
check_destination none q =
    if q.anonymous_destination
    then fails invalid "anonymous query destination metadata requires destinationTable"
    else if is_set q.write_disposition || is_set q.create_disposition
    then fails invalid "writeDisposition and createDisposition require destinationTable"
    else ok tt
check_destination (some d) q =
    if is_empty d.project || is_empty d.dataset || is_empty d.table
    then fails invalid "destinationTable projectId, datasetId, and tableId are required"
    else if not (is_project_id d.project)
        || not (is_resource_id d.dataset)
        || not (is_resource_id d.table)
    then fails invalid "invalid destinationTable reference"
    else if not (one_of q.write_disposition write_dispositions)
    then fails invalid "unknown writeDisposition"
    else if not (one_of q.create_disposition create_dispositions)
    then fails invalid "unknown createDisposition"
    else if q.anonymous_destination
        && (not (text_eq q.write_disposition (codes "WRITE_EMPTY"))
            || not (text_eq q.create_disposition (codes "CREATE_IF_NEEDED")))
    then fails invalid "anonymous query destinations require WRITE_EMPTY and CREATE_IF_NEEDED"
    else ok tt

abbrev pub check_query : QueryConfiguration → Checked
check_query q =
    if is_empty q.sql
    then fails invalid "query is required"
    else if not (text_eq q.priority (codes "INTERACTIVE"))
        && not (text_eq q.priority (codes "BATCH"))
    then fails invalid "query priority must be INTERACTIVE or BATCH"
    else ok tt

unfoldable pub validate_query_job : JobReference → QueryConfiguration → Checked
validate_query_job r q = and_then (validate_reference r) (
    and_then (check_query q) (
      and_then (validate_query_labels q.labels)
        (and_then (check_default_dataset q) (check_destination q.destination q))))

-- What json.Marshal and sha256.Sum256 make of a project, a location and a configuration, in
-- hexadecimal digits.
abbrev pub Fingerprint : Type 0
Fingerprint = Bytes → Bytes → QueryConfiguration → Bytes

-- QueryConfigurationDigest; Marshal does not fail on these types.
unfoldable pub query_configuration_digest :
    Casing → Fingerprint → JobReference → QueryConfiguration → Bytes
query_configuration_digest c fingerprint r q =
    fingerprint r.project (c.upper r.location) (normalize_query_configuration c q)

abbrev pub located : JobReference → JobReference
located r = if is_empty r.location then record r { location = codes "US" } else r

abbrev pub after_check {ℓ} : {A : Type ℓ} → Checked → A → Result Failure A
after_check (ok _) a = ok a
after_check (err e) a = err e

-- NewConfiguredQueryJob
unfoldable pub new_configured_query_job :
    {V : Type 0}
    → Casing
    → Fingerprint
    → JobReference
    → QueryConfiguration
    → ℕ
    → Result Failure (Job V)
new_configured_query_job c fingerprint r q now =
    let reference = located r in
    let configuration = normalize_query_configuration c q in
    after_check (validate_query_job reference configuration) (record {
      reference = reference;
      query = configuration.sql;
      configuration = configuration;
      configuration_digest = query_configuration_digest c fingerprint reference configuration;
      state = job_pending;
      error = none;
      result = none;
      created_at = now;
      started_at = none;
      ended_at = none;
    })
