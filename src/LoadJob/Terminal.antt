-- ===== src/LoadJob/Terminal.antt =====
-- What a client sees of the error that ends a load job: terminalError of
-- internal/loadjob/application/service.go.
use go_bemu.Base.{Bool, true, false, ◌&&◌, ◌||◌, nat_eq, [], ◌∷◌, ◌++◌, if◌then◌else◌}
use go_bemu.Text.{Bytes, codes}
use go_bemu.LoadJob.Domain.{
  LoadError, not_found, conflict, invalid, precondition, unsupported, fault, canceled,
  deadline_exceeded, foreign,
}

abbrev starts_with : Bytes → Bytes → Bool
starts_with [] s = true
starts_with (p ∷ ps) [] = false
starts_with (p ∷ ps) (c ∷ s) = nat_eq p c && starts_with ps s

-- strings.Contains(s, part)
abbrev pub contains : Bytes → Bytes → Bool
contains part [] = starts_with part []
contains part (c ∷ s) = starts_with part (c ∷ s) || contains part s

-- CapabilityParquetNestedRepeatedV1 and CapabilityDecimalRoundingV1
abbrev nested_capability : Bytes
nested_capability = codes "load.parquet.nested-repeated.unsupported-v1"

abbrev rounding_capability : Bytes
rounding_capability = codes "load.decimal-rounding.unsupported-v1"

abbrev unsupported_message : Bytes
unsupported_message = codes "the requested load-job feature is not implemented"

unfoldable pub terminal_error : LoadError → Bytes × Bytes
terminal_error (fault unsupported text) = (
  codes "notImplemented",
  if contains nested_capability text
      then unsupported_message ++ codes "; capability=" ++ nested_capability
      else if contains rounding_capability text
      then unsupported_message ++ codes "; capability=" ++ rounding_capability
      else unsupported_message,
)
terminal_error (fault invalid text) =
    (codes "invalid", codes "the load configuration or source schema is invalid")
terminal_error (fault not_found text) =
    (codes "notFound", codes "a requested load source or destination was not found")
terminal_error (fault conflict text) =
    (codes "duplicate", codes "the load job conflicts with an existing resource")
terminal_error (fault precondition text) =
    (codes "conditionNotMet", codes "a load-job precondition was not met")
terminal_error canceled =
    (codes "backendError", codes "the load job exceeded its configured execution deadline")
terminal_error deadline_exceeded =
    (codes "backendError", codes "the load job exceeded its configured execution deadline")
terminal_error (foreign text) =
    (codes "backendError", codes "the load job failed in the local backend")
