-- ===== src/Config/Validation.antt =====
-- `ObservabilityConfig.validation_errors` of policyengine_observability/config.py, over a
-- configuration whose fields may hold any Python value.
pub mod Checks
pub mod Fields
pub mod Destinations
pub mod Complete
use policyengine_observabili.Base.{
  ℕ, suc, ◌+◌, ◌-◌, ◌^◌, ℤ, pos, negsuc, Float, finite, leb, leb_float, is_finite, Text, text,
  strip, is_empty, member, Bool, true, false, not, ◌&&◌, if◌then◌else◌, List, [], ◌∷◌, ◌++◌, map,
  Option, none, some,
}
use policyengine_observabili.Value.{Value}

-- A value where a tuple or a frozenset belongs.
pub data Collection : Type 0 where
  tuple frozenset : List Value → Collection
  scalar : Value → Collection

-- The field that an error names: a field of the configuration, or one of a named destination.
pub data Field : Type 0 where
  at : Text → Field
  of_destination : Text → Text → Field

-- The messages, by their form.
pub data ConfigError : Type 0 where
  nonempty_string : Text → ConfigError
  sensitive_tuple : ConfigError
  sensitive_entry : ℕ → ConfigError
  keys_frozenset keys_entries : Text → ConfigError
  one_of : Field → List Text → ConfigError
  an_integer : Text → ConfigError
  between : Field → Float → Float → ConfigError
  reported : Text → ConfigError
  invalid_strategy : ConfigError

-- What `diagnostics()` of a destination does, where it is callable.
pub data Diagnosis : Type 0 where
  lacking raising : Diagnosis
  returning : List Text → Diagnosis

-- A strategy of the application; `none` is an attribute whose reading raises.
pub record Destination : Type 0 where
  pub name : Option Text
  pub delivery : Option Value
  pub queue_capacity : Option Value
  pub batch_size : Option Value
  pub diagnostics : Diagnosis

pub record Exporter : Type 0 where
  pub endpoint : Value
  pub protocol : Value
  pub endpoint_mode : Value
  pub timeout_seconds : Value

-- The fields of a configuration that validation looks at. It leaves out the region, the instance, the
-- flags of the logging and of OpenTelemetry, and the headers and the authentication of an exporter,
-- which may have any value.
pub record Unchecked : Type 0 where
  pub service_name : Value
  pub service_namespace : Value
  pub service_version : Value
  pub service_role : Value
  pub environment : Value
  pub platform : Value
  pub sensitive_values : Collection
  pub application_attribute_keys : Option Collection
  pub dispatch_attribute_keys : Collection
  pub metric_attribute_keys : Collection
  pub minimum_severity : Value
  pub logging_shutdown_timeout : Value
  pub destinations : List Destination
  pub provider_mode : Value
  pub sampling_ratio : Value
  pub span_queue_capacity : Value
  pub span_batch_size : Value
  pub span_schedule_delay : Value
  pub metric_export_interval : Value
  pub otel_shutdown_timeout : Value
  pub traces : Option Exporter
  pub metrics : Option Exporter
  pub max_string_length : Value
  pub max_error_message_length : Value
  pub max_stack_length : Value
  pub async_parent_max_age : Value

-- A check adds errors, or raises an exception that `validation_errors` lets through.
abbrev pub Check : Type 0
Check = Option (List ConfigError)

abbrev pub expect : Bool → ConfigError → Check
expect true e = some []
expect false e = some (e ∷ [])

-- `isinstance(value, str) and value.strip()`
unfoldable pub is_nonblank : Value → Bool
is_nonblank (Value.str t) = not (is_empty (strip t))
is_nonblank _ = false

unfoldable pub is_choice : List Text → Value → Bool
is_choice choices (Value.str t) = member t choices
is_choice choices _ = false

unfoldable pub choice_error : Field → Value → List Text → Check
choice_error name value choices = expect (is_choice choices value) (one_of name choices)

-- `float(n)`, and so `math.isfinite(n)`, raises `OverflowError` from this size on.
unfoldable pub overflows : ℤ → Bool
overflows (pos n) = leb (2 ^ 1024 - 2 ^ 970) n
overflows (negsuc n) = leb (2 ^ 1024 - 2 ^ 970) (suc n)

unfoldable pub within : Float → Float → Float → Bool
within minimum maximum x = leb_float minimum x && leb_float x maximum

unfoldable pub number_error : Field → Value → Float → Float → Check
unfolding overflows within
number_error name (Value.int n) minimum maximum =
    if overflows n
    then none
    else expect (within minimum maximum (finite n 0)) (between name minimum maximum)
number_error name (Value.float x) minimum maximum =
    expect (is_finite x && within minimum maximum x) (between name minimum maximum)
number_error name value minimum maximum = some (between name minimum maximum ∷ [])

unfoldable pub integer_error : Field → Value → ℕ → ℕ → Check
unfolding within
integer_error name (Value.int n) minimum maximum =
    expect (within (finite (pos minimum) 0) (finite (pos maximum) 0) (finite n 0))
      (between name (finite (pos minimum) 0) (finite (pos maximum) 0))
integer_error name value minimum maximum =
    some (between name (finite (pos minimum) 0) (finite (pos maximum) 0) ∷ [])

unfoldable pub string_error : Text → Value → Check
string_error name value = expect (is_nonblank value) (nonempty_string name)

unfoldable pub severity_error : Value → Check
severity_error (Value.int n) = some []
severity_error value = some (an_integer (text "logging.minimum_severity") ∷ [])

-- `sensitive_values`, with the index of each value.
unfoldable pub sensitive_entries : ℕ → List Value → List ConfigError
sensitive_entries index [] = []
sensitive_entries index (v ∷ values) =
    let rest = sensitive_entries (index + 1) values in
    if is_nonblank v then rest else sensitive_entry index ∷ rest

unfoldable pub sensitive_error : Collection → Check
sensitive_error (tuple values) = some (sensitive_entries 0 values)
sensitive_error _ = some (sensitive_tuple ∷ [])

unfoldable pub key_entries : Text → List Value → List ConfigError
key_entries name [] = []
key_entries name (v ∷ values) =
    let rest = key_entries name values in if is_nonblank v then rest else keys_entries name ∷ rest

-- `_attribute_key_errors`
unfoldable pub attribute_key_errors : Text → Collection → Check
attribute_key_errors name (frozenset values) = some (key_entries name values)
attribute_key_errors name _ = some (keys_frozenset name ∷ [])

unfoldable pub optional_key_errors : Text → Option Collection → Check
optional_key_errors name none = some []
optional_key_errors name (some values) = attribute_key_errors name values

-- The checks in their order, up to the first that raises.
unfoldable pub all_checks : List Check → Check
all_checks [] = some []
all_checks (none ∷ checks) = none
all_checks (some errors ∷ checks) = elim (all_checks checks) [
  | none ↦ none
  | some more ↦ some (errors ++ more)
]

-- The `try` of the loop over destinations: an attribute that cannot be read ends it, with what was
-- found so far and one error more.
unfoldable pub with_attribute :
    Option Value
    → (Value → List ConfigError)
    → List ConfigError
    → (List ConfigError → List ConfigError)
    → List ConfigError
with_attribute none check found next = found ++ (invalid_strategy ∷ [])
with_attribute (some v) check found next = next (found ++ check v)

unfoldable pub diagnosis_errors : Diagnosis → List ConfigError
diagnosis_errors lacking = []
diagnosis_errors raising = invalid_strategy ∷ []
diagnosis_errors (returning messages) = map reported messages

abbrev pub found_by : Check → List ConfigError
found_by none = []
found_by (some errors) = errors

abbrev pub deliveries : List Text
deliveries = text "inline" ∷ text "queued" ∷ []

unfoldable pub named_destination_errors : Text → Destination → List ConfigError
named_destination_errors name d =
    with_attribute d.delivery
      (λ v. found_by (choice_error (of_destination name (text "delivery")) v deliveries)) []
      λ e1.
        with_attribute d.queue_capacity
          (λ v. found_by (integer_error (of_destination name (text "queue_capacity")) v 1 100000))
          e1
          λ e2.
            with_attribute d.batch_size
              (λ v. found_by (integer_error (of_destination name (text "batch_size")) v 1 10000)) e2
              λ e3. e3 ++ diagnosis_errors d.diagnostics

unfoldable pub maybe_named_errors : Option Text → Destination → Check
maybe_named_errors none d = some (invalid_strategy ∷ [])
maybe_named_errors (some name) d = some (named_destination_errors name d)

unfoldable pub destination_errors : Destination → Check
destination_errors d = maybe_named_errors d.name d

unfoldable pub each_destination : List Destination → List Check
each_destination [] = []
each_destination (d ∷ ds) = destination_errors d ∷ each_destination ds

-- The doubles nearest to 0.001 and 0.1.
abbrev pub one_thousandth : Float
one_thousandth = finite (pos 1152921504606847) 60

abbrev pub one_tenth : Float
one_tenth = finite (pos 3602879701896397) 55

abbrev pub whole : ℕ → Float
whole n = finite (pos n) 0

unfoldable pub exporter_errors : Text → Option Exporter → List Check
exporter_errors signal none = []
exporter_errors signal (some e) =
    string_error (text "otel." ++ signal ++ text ".endpoint") e.endpoint
    ∷ choice_error (at (text "otel." ++ signal ++ text ".protocol")) e.protocol
        (text "grpc" ∷ text "http/protobuf" ∷ [])
    ∷ choice_error (at (text "otel." ++ signal ++ text ".endpoint_mode")) e.endpoint_mode
        (text "base" ∷ text "signal" ∷ [])
    ∷ number_error (at (text "otel." ++ signal ++ text ".timeout_seconds")) e.timeout_seconds
        one_tenth (whole 60)
    ∷ []

abbrev pub platforms : List Text
platforms = text "google_cloud_run" ∷ text "modal" ∷ text "local" ∷ text "other" ∷ []

abbrev pub provider_modes : List Text
provider_modes = text "owned" ∷ text "external" ∷ []

unfoldable pub identity_checks : Unchecked → List Check
identity_checks c =
    string_error (text "service.name") c.service_name
    ∷ string_error (text "service.namespace") c.service_namespace
    ∷ string_error (text "service.version") c.service_version
    ∷ string_error (text "service.role") c.service_role
    ∷ string_error (text "deployment.environment") c.environment
    ∷ sensitive_error c.sensitive_values
    ∷ optional_key_errors (text "application_attribute_keys") c.application_attribute_keys
    ∷ attribute_key_errors (text "dispatch_attribute_keys") c.dispatch_attribute_keys
    ∷ attribute_key_errors (text "metric_attribute_keys") c.metric_attribute_keys
    ∷ choice_error (at (text "deployment.platform")) c.platform platforms
    ∷ severity_error c.minimum_severity
    ∷ number_error (at (text "logging.shutdown_timeout_seconds")) c.logging_shutdown_timeout
        (whole 0) (whole 60)
    ∷ []

unfoldable pub otel_checks : Unchecked → List Check
otel_checks c =
    choice_error (at (text "otel.provider_mode")) c.provider_mode provider_modes
    ∷ number_error (at (text "otel.sampling_ratio")) c.sampling_ratio (whole 0) (whole 1)
    ∷ integer_error (at (text "otel.span_queue_capacity")) c.span_queue_capacity 1 100000
    ∷ integer_error (at (text "otel.span_batch_size")) c.span_batch_size 1 10000
    ∷ number_error (at (text "otel.span_schedule_delay_seconds")) c.span_schedule_delay
        one_thousandth (whole 60)
    ∷ number_error (at (text "otel.metric_export_interval_seconds")) c.metric_export_interval
        (whole 1) (whole 3600)
    ∷ number_error (at (text "otel.shutdown_timeout_seconds")) c.otel_shutdown_timeout (whole 0)
        (whole 60)
    ∷ []

unfoldable pub limit_checks : Unchecked → List Check
limit_checks c =
    integer_error (at (text "limits.max_string_length")) c.max_string_length 1 1000000
    ∷ integer_error (at (text "limits.max_error_message_length")) c.max_error_message_length 1
        1000000
    ∷ integer_error (at (text "limits.max_stack_length")) c.max_stack_length 1 1000000
    ∷ number_error (at (text "limits.async_parent_max_age_seconds")) c.async_parent_max_age
        (whole 0) (whole 86400)
    ∷ []

unfoldable pub validation_errors : Unchecked → Check
validation_errors c = all_checks (
    identity_checks c
    ++ (each_destination c.destinations
        ++ (otel_checks c
            ++ (exporter_errors (text "traces") c.traces
                ++ (exporter_errors (text "metrics") c.metrics ++ limit_checks c)))))

-- `validate`: `raises` is a `ConfigurationError`, and `none` an exception of the checks.
pub data Outcome : Type 0 where
  passes : Outcome
  raises : List ConfigError → Outcome

unfoldable pub validate : Unchecked → Option Outcome
validate c = elim (validation_errors c) [
  | none ↦ none
  | some errors ↦ some (if is_empty errors then passes else raises errors)
]
