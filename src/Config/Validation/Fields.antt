-- ===== src/Config/Validation/Fields.antt =====
-- The checks on single fields find nothing exactly where the field is as declared.
use policyengine_observabili.Base.{
  ◌++◌, ◌≡◌, ◌↔◌, refl, Text, text, List, [], ◌∷◌, Option, none, some, arith, All,
}
use policyengine_observabili.Config.Validation.{
  Unchecked, Exporter, Check, all_checks, identity_checks, otel_checks, limit_checks,
  exporter_errors, platforms, provider_modes,
}
use policyengine_observabili.Config.Validation.Checks.{
  IsNonBlank, IsChoice, IsNumberIn, IsIntegerIn, IsInteger, IsTuple, IsFrozenset, IsOptional,
  string_error_iff, choice_error_iff, integer_error_iff, number_error_iff, severity_error_iff,
  sensitive_error_iff, attribute_key_errors_iff, optional_key_errors_iff,
}

abbrev pub IsSilent : Check → Type 0
IsSilent check = check ≡ some []

pub all_checks_iff : (checks : List Check) → (all_checks checks ≡ some []) ↔ All IsSilent checks
unfolding all_checks
all_checks_iff [] = ((λ _. tt), λ _. refl)
all_checks_iff (none ∷ checks) = ((λ h. absurd (cc h)), λ h. h.0)
all_checks_iff (some [] ∷ checks) = (
  (λ h. (refl, (all_checks_iff checks).0 (ground (arith, h)))),
  λ h. rw ((all_checks_iff checks).1 h.1),
)
all_checks_iff (some (e ∷ errors) ∷ checks) =
    ((λ h. absurd (ground (arith, h))), λ h. absurd (cc (h.0)))

pub All-append_inv :
    (xs ys : List Check) → All IsSilent (xs ++ ys) → All IsSilent xs × All IsSilent ys
All-append_inv [] ys h = (tt, h)
All-append_inv (x ∷ xs) ys h = let rest = All-append_inv xs ys h.1 in ((h.0, rest.0), rest.1)

pub record IsIdentityWellFormed (c : Unchecked) : Type 0 where
  pub service_name : IsNonBlank c.service_name
  pub service_namespace : IsNonBlank c.service_namespace
  pub service_version : IsNonBlank c.service_version
  pub service_role : IsNonBlank c.service_role
  pub environment : IsNonBlank c.environment
  pub sensitive_values : IsTuple c.sensitive_values
  pub application_keys : IsOptional c.application_attribute_keys
  pub dispatch_keys : IsFrozenset c.dispatch_attribute_keys
  pub metric_keys : IsFrozenset c.metric_attribute_keys
  pub platform : IsChoice platforms c.platform
  pub minimum_severity : IsInteger c.minimum_severity
  pub logging_timeout : IsNumberIn 0 0 60 c.logging_shutdown_timeout

pub identity_checks_iff :
    (c : Unchecked) → All IsSilent (identity_checks c) ↔ IsIdentityWellFormed c
unfolding identity_checks
identity_checks_iff c = (
  (λ h. record {
    service_name = (string_error_iff _ c.service_name).0 h.0;
    service_namespace = (string_error_iff _ c.service_namespace).0 h.1.0;
    service_version = (string_error_iff _ c.service_version).0 h.1.1.0;
    service_role = (string_error_iff _ c.service_role).0 h.1.1.1.0;
    environment = (string_error_iff _ c.environment).0 h.1.1.1.1.0;
    sensitive_values = (sensitive_error_iff c.sensitive_values).0 h.1.1.1.1.1.0;
    application_keys = (optional_key_errors_iff _ c.application_attribute_keys).0 h.1.1.1.1.1.1.0;
    dispatch_keys = (attribute_key_errors_iff _ c.dispatch_attribute_keys).0 h.1.1.1.1.1.1.1.0;
    metric_keys = (attribute_key_errors_iff _ c.metric_attribute_keys).0 h.1.1.1.1.1.1.1.1.0;
    platform = (choice_error_iff _ c.platform platforms).0 h.1.1.1.1.1.1.1.1.1.0;
    minimum_severity = (severity_error_iff c.minimum_severity).0 h.1.1.1.1.1.1.1.1.1.1.0;
    logging_timeout =
        (number_error_iff _ c.logging_shutdown_timeout 0 0 60 (omega arith)).0
          h.1.1.1.1.1.1.1.1.1.1.1.0;
  }),
  λ h. (
    (string_error_iff _ c.service_name).1 h.service_name,
    (
      (string_error_iff _ c.service_namespace).1 h.service_namespace,
      (
        (string_error_iff _ c.service_version).1 h.service_version,
        (
          (string_error_iff _ c.service_role).1 h.service_role,
          (
            (string_error_iff _ c.environment).1 h.environment,
            (
              (sensitive_error_iff c.sensitive_values).1 h.sensitive_values,
              (
                (optional_key_errors_iff _ c.application_attribute_keys).1 h.application_keys,
                (
                  (attribute_key_errors_iff _ c.dispatch_attribute_keys).1 h.dispatch_keys,
                  (
                    (attribute_key_errors_iff _ c.metric_attribute_keys).1 h.metric_keys,
                    (
                      (choice_error_iff _ c.platform platforms).1 h.platform,
                      (
                        (severity_error_iff c.minimum_severity).1 h.minimum_severity,
                        (
                          (number_error_iff _ c.logging_shutdown_timeout 0 0 60 (omega arith)).1
                              h.logging_timeout,
                          tt,
                        ),
                      ),
                    ),
                  ),
                ),
              ),
            ),
          ),
        ),
      ),
    ),
  ),
)

pub record IsOtelWellFormed (c : Unchecked) : Type 0 where
  pub provider_mode : IsChoice provider_modes c.provider_mode
  pub sampling_ratio : IsNumberIn 0 0 1 c.sampling_ratio
  pub queue_capacity : IsIntegerIn 1 100000 c.span_queue_capacity
  pub batch_size : IsIntegerIn 1 10000 c.span_batch_size
  pub schedule_delay : IsNumberIn 1152921504606847 60 60 c.span_schedule_delay
  pub export_interval : IsNumberIn 1 0 3600 c.metric_export_interval
  pub otel_timeout : IsNumberIn 0 0 60 c.otel_shutdown_timeout

pub otel_checks_iff : (c : Unchecked) → All IsSilent (otel_checks c) ↔ IsOtelWellFormed c
unfolding otel_checks
otel_checks_iff c = (
  (λ h. record {
    provider_mode = (choice_error_iff _ c.provider_mode provider_modes).0 h.0;
    sampling_ratio = (number_error_iff _ c.sampling_ratio 0 0 1 (omega arith)).0 h.1.0;
    queue_capacity = (integer_error_iff _ c.span_queue_capacity 1 100000).0 h.1.1.0;
    batch_size = (integer_error_iff _ c.span_batch_size 1 10000).0 h.1.1.1.0;
    schedule_delay =
        (number_error_iff _ c.span_schedule_delay 1152921504606847 60 60 (omega arith)).0
          h.1.1.1.1.0;
    export_interval =
        (number_error_iff _ c.metric_export_interval 1 0 3600 (omega arith)).0 h.1.1.1.1.1.0;
    otel_timeout =
        (number_error_iff _ c.otel_shutdown_timeout 0 0 60 (omega arith)).0 h.1.1.1.1.1.1.0;
  }),
  λ h. (
    (choice_error_iff _ c.provider_mode provider_modes).1 h.provider_mode,
    (
      (number_error_iff _ c.sampling_ratio 0 0 1 (omega arith)).1 h.sampling_ratio,
      (
        (integer_error_iff _ c.span_queue_capacity 1 100000).1 h.queue_capacity,
        (
          (integer_error_iff _ c.span_batch_size 1 10000).1 h.batch_size,
          (
            (number_error_iff _ c.span_schedule_delay 1152921504606847 60 60 (omega arith)).1
                h.schedule_delay,
            (
              (number_error_iff _ c.metric_export_interval 1 0 3600 (omega arith)).1
                  h.export_interval,
              (
                (number_error_iff _ c.otel_shutdown_timeout 0 0 60 (omega arith)).1 h.otel_timeout,
                tt,
              ),
            ),
          ),
        ),
      ),
    ),
  ),
)

pub record IsLimitWellFormed (c : Unchecked) : Type 0 where
  pub max_string_length : IsIntegerIn 1 1000000 c.max_string_length
  pub max_error_message_length : IsIntegerIn 1 1000000 c.max_error_message_length
  pub max_stack_length : IsIntegerIn 1 1000000 c.max_stack_length
  pub parent_max_age : IsNumberIn 0 0 86400 c.async_parent_max_age

pub limit_checks_iff : (c : Unchecked) → All IsSilent (limit_checks c) ↔ IsLimitWellFormed c
unfolding limit_checks
limit_checks_iff c = (
  (λ h. record {
    max_string_length = (integer_error_iff _ c.max_string_length 1 1000000).0 h.0;
    max_error_message_length = (integer_error_iff _ c.max_error_message_length 1 1000000).0 h.1.0;
    max_stack_length = (integer_error_iff _ c.max_stack_length 1 1000000).0 h.1.1.0;
    parent_max_age =
        (number_error_iff _ c.async_parent_max_age 0 0 86400 (omega arith)).0 h.1.1.1.0;
  }),
  λ h. (
    (integer_error_iff _ c.max_string_length 1 1000000).1 h.max_string_length,
    (
      (integer_error_iff _ c.max_error_message_length 1 1000000).1 h.max_error_message_length,
      (
        (integer_error_iff _ c.max_stack_length 1 1000000).1 h.max_stack_length,
        (
          (number_error_iff _ c.async_parent_max_age 0 0 86400 (omega arith)).1 h.parent_max_age,
          tt,
        ),
      ),
    ),
  ),
)

-- An exporter that is configured at all has an endpoint, a protocol, a mode and a timeout from a
-- tenth of a second to a minute.
pub record IsExporterWellFormed (e : Exporter) : Type 0 where
  pub endpoint : IsNonBlank e.endpoint
  pub protocol : IsChoice (text "grpc" ∷ text "http/protobuf" ∷ []) e.protocol
  pub endpoint_mode : IsChoice (text "base" ∷ text "signal" ∷ []) e.endpoint_mode
  pub timeout : IsNumberIn 3602879701896397 55 60 e.timeout_seconds

abbrev pub IsAbsentOr : {A : Type 0} → (A → Type 0) → Option A → Type 0
IsAbsentOr P none = Unit
IsAbsentOr P (some a) = P a

pub exporter_errors_iff :
    (signal : Text) (o : Option Exporter)
    → All IsSilent (exporter_errors signal o) ↔ IsAbsentOr IsExporterWellFormed o
unfolding exporter_errors
exporter_errors_iff signal none = ((λ _. tt), λ _. tt)
exporter_errors_iff signal (some e) = (
  (λ h. record {
    endpoint = (string_error_iff _ e.endpoint).0 h.0;
    protocol = (choice_error_iff _ e.protocol _).0 h.1.0;
    endpoint_mode = (choice_error_iff _ e.endpoint_mode _).0 h.1.1.0;
    timeout =
        (number_error_iff _ e.timeout_seconds 3602879701896397 55 60 (omega arith)).0 h.1.1.1.0;
  }),
  λ h. (
    (string_error_iff _ e.endpoint).1 h.endpoint,
    (
      (choice_error_iff _ e.protocol _).1 h.protocol,
      (
        (choice_error_iff _ e.endpoint_mode _).1 h.endpoint_mode,
        (
          (number_error_iff _ e.timeout_seconds 3602879701896397 55 60 (omega arith)).1 h.timeout,
          tt,
        ),
      ),
    ),
  ),
)
