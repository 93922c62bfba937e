-- ===== src/Catalog/Examples.antt =====
-- Runs of the catalog's rules at concrete inputs, with ASCII texts.
use go_bemu.Base.{ℕ, ◌≡◌, refl, ◌↔◌, true, false, none, some, List, [], ◌∷◌, arith}
use go_bemu.Text.{Bytes, codes, text_eq}
use go_bemu.Maps.{lookup, put}
use go_bemu.Exec.{ok}
use go_bemu.Catalog.Casing.{ascii}
use go_bemu.Catalog.Names.{is_resource_id, is_project_id, is_job_id, is_job_location}
use go_bemu.Catalog.Fields.{Field, field, Fields, nil, cons}
use go_bemu.Catalog.Decimal.{
  params, effective_decimal_parameters, effective_rounding_mode, choose_parameters,
  check_parameters, normalize_decimal_value, normalize_literal, choose_rounding, round_div,
  format_scaled_decimal, with_point,
}
use go_bemu.Catalog.Decimal.Parameters.{AreFor, effective_decimal_parameters-AreFor}
use go_bemu.Catalog.Decimal.Normalizing.{Normalization, normalize-IsNormalized}
use go_bemu.Catalog.Decimal.Stable.{normalize_decimal_value_again}
use go_bemu.Catalog.Literal.{parse_literal, span_digits, parse_exponent, is_representable}
use go_bemu.Catalog.Schema.{
  validate_field_list, validate_list_from, validate_field, validate_nested, check_field, check_name,
  check_kind, check_shape, check_decimal,
}
use go_bemu.Catalog.Schema.Naming.{Distinct, lower_names, AreWellNamed, validate_field_list_iff}
use go_bemu.Catalog.Evolution.{
  validate_schema_evolution, validate_added_field, canonical_field_mode, canonical_upper, is_record,
  same_optional_int64, is_addable, added_fields, check_kept, match_fields,
}
use go_bemu.Catalog.Evolution.Extension.{Extends}
use go_bemu.Catalog.Evolution.Extension.Decision.{IsOk}
use go_bemu.Catalog.Evolution.Extension.Order.{validate_schema_evolution_iff, evolutions_compose}
use go_bemu.Catalog.Evolution.Unchanged.{validate_schema_evolution_self}
use go_bemu.Catalog.Casing.Ascii.{ascii-IsCasing}
use go_bemu.Catalog.Job.{job_pending, job_done, JobReference, QueryConfiguration, Job}
use go_bemu.Catalog.Job.Query.{
  Fingerprint, new_configured_query_job, validate_query_job, validate_reference,
  validate_query_labels, check_default_dataset, check_destination, normalize_query_configuration,
  query_configuration_digest,
}
use go_bemu.Catalog.Job.Phases.{
  Call, starts, completes, aborts, failed, Shows, call_all, done_stays, new_job_phases,
}
use go_bemu.Catalog.Job.Digest.{query_configuration_digest_normal}
use go_bemu.Catalog.Job.Repository.{create_or_get, update, get, job_key}
use go_bemu.Catalog.Job.Repository.Identity.{
  create_or_get_refines, update_refines, succeeds, same_identity,
}
use go_bemu.Numerals.{nat_text, number_from, digits}
use go_bemu.Words.{lt64, sub64}

effective_decimal_parameters-AreFor_example :
    AreFor (codes "NUMERIC") (some 20) (some 5) (params 20 5)
unfolding effective_decimal_parameters choose_parameters check_parameters text_eq lt64 sub64
effective_decimal_parameters-AreFor_example =
    effective_decimal_parameters-AreFor ascii (codes "price") (codes "numeric") [] [] (some 20)
      (some 5) [] nil (omega arith) (omega arith) refl

abbrev price : Field
price =
    field (codes "price") (codes "numeric") [] [] (some 5) (some 2) (codes "ROUND_HALF_EVEN") nil

normalize-IsNormalized_example :
    Normalization
      (effective_decimal_parameters ascii price)
      (effective_rounding_mode ascii price)
      (codes "-1.2345e1")
      (codes "-12.34")
unfolding normalize_decimal_value effective_decimal_parameters effective_rounding_mode
    normalize_literal choose_parameters check_parameters choose_rounding round_div
    format_scaled_decimal with_point parse_literal span_digits parse_exponent is_representable
    text_eq lt64 sub64 nat_text number_from digits
normalize-IsNormalized_example = normalize-IsNormalized ascii price (codes "-1.2345e1") refl

normalize_decimal_value_again_example :
    normalize_decimal_value ascii price (codes "-12.34") ≡ ok (codes "-12.34")
unfolding normalize_decimal_value effective_decimal_parameters effective_rounding_mode
    normalize_literal choose_parameters check_parameters choose_rounding round_div
    format_scaled_decimal with_point parse_literal span_digits parse_exponent is_representable
    text_eq lt64 sub64 nat_text number_from digits
normalize_decimal_value_again_example =
    normalize_decimal_value_again ascii price (codes "-1.2345e1") (omega arith, omega arith) refl

abbrev plain : Bytes → Bytes → Fields → Field
plain name kind nested = field name kind [] [] none none [] nested

abbrev old_schema : Fields
old_schema = cons (plain (codes "id") (codes "INT64") nil) (
    cons
      (plain (codes "tags") (codes "struct") (cons (plain (codes "key") (codes "STRING") nil) nil))
      nil)

abbrev new_schema : Fields
new_schema = cons (plain (codes "id") (codes "integer") nil) (
    cons
      (plain (codes "tags") (codes "RECORD") (
        cons (plain (codes "key") (codes "STRING") nil)
          (cons (plain (codes "value") (codes "JSON") nil) nil)))
      (cons price nil))

abbrev last_schema : Fields
last_schema = cons (plain (codes "id") (codes "integer") nil) (
    cons
      (plain (codes "tags") (codes "RECORD") (
        cons (plain (codes "key") (codes "STRING") nil)
          (cons (plain (codes "value") (codes "JSON") nil) nil)))
      (cons price (cons (plain (codes "day") (codes "DATE") nil) nil)))

validate_field_list_iff_example : (validate_field_list ascii new_schema ≡ ok tt) ↔ (
    (validate_nested ascii new_schema ≡ ok tt)
    × Distinct (lower_names ascii new_schema)
    × AreWellNamed ascii new_schema)
validate_field_list_iff_example = validate_field_list_iff ascii new_schema

validate_schema_evolution_iff_example :
    IsOk (validate_schema_evolution ascii old_schema new_schema)
    ↔ ((validate_field_list ascii new_schema ≡ ok tt) × Extends ascii old_schema new_schema)
validate_schema_evolution_iff_example = validate_schema_evolution_iff ascii old_schema new_schema

evolutions_compose_example : IsOk (validate_schema_evolution ascii old_schema last_schema)
unfolding validate_schema_evolution validate_list_from validate_field check_field check_name
    check_kind check_shape check_decimal effective_decimal_parameters effective_rounding_mode
    choose_rounding choose_parameters check_parameters lt64 sub64 text_eq is_resource_id
    match_fields check_kept added_fields validate_added_field is_addable canonical_field_mode
    canonical_upper is_record same_optional_int64
evolutions_compose_example =
    evolutions_compose ascii old_schema new_schema last_schema (_, refl) (_, refl)

validate_schema_evolution_self_example :
    validate_schema_evolution ascii new_schema new_schema ≡ ok []
unfolding validate_list_from validate_field check_field check_name check_kind check_shape
    check_decimal effective_decimal_parameters effective_rounding_mode choose_rounding
    choose_parameters check_parameters lt64 sub64 text_eq is_resource_id
validate_schema_evolution_self_example = validate_schema_evolution_self ascii new_schema refl

abbrev reference : JobReference
reference = record { project = codes "my-project"; job = codes "job_1"; location = codes "eu" }

abbrev configuration : QueryConfiguration
configuration = record {
  sql = codes " SELECT 1 ";
  default_project = [];
  default_dataset = [];
  destination = none;
  write_disposition = [];
  create_disposition = [];
  priority = codes "batch";
  labels = none;
  anonymous_destination = false;
}

abbrev fingerprint : Fingerprint
fingerprint project location q = q.sql

abbrev job : Job ℕ
job = record {
  reference = reference;
  query = codes "SELECT 1";
  configuration = record configuration { sql = codes "SELECT 1"; priority = codes "BATCH" };
  configuration_digest = codes "SELECT 1";
  state = job_pending;
  error = none;
  result = none;
  created_at = 5;
  started_at = none;
  ended_at = none;
}

abbrev calls : List (Call ℕ)
calls =
    completes
      (record {
        columns = nil;
        rows = [];
        affected_rows = 0;
        total_rows = 0;
        rows_unavailable = false;
      })
      6
    ∷ starts 7
    ∷ aborts (codes "invalid") [] 8
    ∷ []

new_job_phases_example :
    (validate_query_job job.reference job.configuration ≡ ok tt)
    × Shows (call_all calls job) (failed 7 8 (record { reason = codes "invalid"; message = [] }))
unfolding new_configured_query_job validate_query_job validate_reference validate_query_labels
    check_default_dataset check_destination normalize_query_configuration query_configuration_digest
    text_eq is_project_id is_job_id is_job_location
new_job_phases_example = new_job_phases ascii fingerprint reference configuration 5 calls refl

abbrev ended : Job ℕ
ended = record job {
  state = job_done;
  started_at = some 7;
  ended_at = some 8;
  error = some (record { reason = codes "invalid"; message = [] });
}

done_stays_example : call_all calls ended ≡ ended
done_stays_example =
    done_stays calls ended (failed 7 8 (record { reason = codes "invalid"; message = [] }))
      (refl, refl, refl, refl, refl) refl

query_configuration_digest_normal_example :
    query_configuration_digest ascii fingerprint
      (record reference { location = codes "EU" })
      (normalize_query_configuration ascii configuration)
    ≡ query_configuration_digest ascii fingerprint reference configuration
query_configuration_digest_normal_example =
    query_configuration_digest_normal ascii ascii-IsCasing fingerprint reference configuration

create_or_get_refines_example :
    ((create_or_get ascii job []).0 ≡ ok (job, true))
    × (get ascii (record reference { location = codes "EU" }) (create_or_get ascii job []).1
        ≡ ok job)
unfolding validate_reference is_project_id is_job_id is_job_location get lookup same_identity
    text_eq job_key
create_or_get_refines_example =
    create_or_get_refines ascii ascii-IsCasing job [] (record reference { location = codes "EU" })
      refl refl

update_refines_example :
    (succeeds (update ascii ended (put (codes "k") job [])).0 ≡ false)
    × (get ascii reference (update ascii ended (put (codes "k") job [])).1
        ≡ get ascii reference (put (codes "k") job []))
unfolding validate_reference is_project_id is_job_id is_job_location get lookup same_identity
    text_eq job_key put
update_refines_example =
    update_refines ascii ascii-IsCasing ended (put (codes "k") job []) reference refl refl
