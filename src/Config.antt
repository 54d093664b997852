-- ===== src/Config.antt =====
-- policyengine_observability/config.py: the configuration, with the types that its fields declare.
-- A configuration may hold other values until `validate` has passed: `Config/Validation.antt`.
pub mod Validation
pub mod Environment
use policyengine_observabili.Base.{
  true, false, is_some, if◌then◌else◌, ◌&&◌, ℕ, Text, text, Float, Bool, List, [], ◌∷◌, ◌++◌,
  Option, none, some, keep, member, not, any, is_empty, strip,
}

pub record ServiceIdentity : Type 0 where
  pub name : Text
  pub namespace : Text
  pub version : Text
  pub role : Text

-- `platform` is one of the four texts of `Platform`.
pub record DeploymentIdentity : Type 0 where
  pub environment : Text
  pub platform : Text
  pub region : Option Text
  pub instance_id : Option Text

pub data OtlpProtocol : Type 0 where
  grpc http_protobuf : OtlpProtocol

pub data OtlpEndpointMode : Type 0 where
  base signal : OtlpEndpointMode

pub data ProviderMode : Type 0 where
  owned external : ProviderMode

-- The package's own implementation with its audience, or another object of the application.
pub data OtlpAuthentication : Type 0 where
  google_id_token : Text → OtlpAuthentication
  other_auth : ℕ → OtlpAuthentication

pub record OtlpExporterConfig : Type 0 where
  pub endpoint : Text
  pub protocol : OtlpProtocol
  pub endpoint_mode : OtlpEndpointMode
  pub headers : List (Text × Text)
  pub auth : Option OtlpAuthentication
  pub timeout_seconds : Float

pub record OTelConfig : Type 0 where
  pub enabled : Bool
  pub traces : Option OtlpExporterConfig
  pub metrics : Option OtlpExporterConfig
  pub provider_mode : ProviderMode
  pub sampling_ratio : Float
  pub span_queue_capacity : ℕ
  pub span_batch_size : ℕ
  pub span_schedule_delay_seconds : Float
  pub metric_export_interval_seconds : Float
  pub shutdown_timeout_seconds : Float

pub record TelemetryLimits : Type 0 where
  pub max_string_length : ℕ
  pub max_error_message_length : ℕ
  pub max_stack_length : ℕ
  pub async_parent_max_age_seconds : Float

-- A frozenset of keys is the list of its members in the order of iteration.
pub record ObservabilityConfig : Type 0 where
  pub service : ServiceIdentity
  pub deployment : DeploymentIdentity
  pub otel : OTelConfig
  pub limits : TelemetryLimits
  pub application_attribute_keys : Option (List Text)
  pub dispatch_attribute_keys : List Text
  pub metric_attribute_keys : List Text
  pub sensitive_values : List Text

-- `a | b` on frozensets.
abbrev pub union : List Text → List Text → List Text
union a b = a ++ keep (λ k. not (member k a)) b

unfoldable pub local_attribute_keys : ObservabilityConfig → Option (List Text)
local_attribute_keys config = elim config.application_attribute_keys [
  | none ↦ none
  | some keys ↦ some (union keys config.dispatch_attribute_keys)
]

abbrev pub default_metric_attribute_keys : List Text
default_metric_attribute_keys =
    text "service.name"
    ∷ text "service.role"
    ∷ text "deployment.environment.name"
    ∷ text "cloud.platform"
    ∷ text "http.route"
    ∷ text "http.request.method"
    ∷ text "http.response.status_code_class"
    ∷ text "operation.name"
    ∷ text "operation.kind"
    ∷ text "outcome"
    ∷ []

-- Whether the six parts of the identity are all more than white space.
unfoldable pub identity_complete : ObservabilityConfig → Bool
identity_complete config = not (
    any (λ value. is_empty (strip value))
      (config.service.name ∷ config.service.namespace ∷ config.service.version ∷ config.service.role
        ∷ config.deployment.environment ∷ config.deployment.platform ∷ []))

abbrev is_owned : ProviderMode → Bool
is_owned owned = true
is_owned external = false

-- `diagnostics`: the warnings of a configuration that passes.
unfoldable pub config_warnings : ObservabilityConfig → List Text
config_warnings config =
    if config.otel.enabled
      && (is_owned config.otel.provider_mode
          && (not (is_some config.otel.traces) && not (is_some config.otel.metrics)))
    then text
        "Remote OTel export is disabled because no trace or metric OTLP endpoint is configured."
      ∷ []
    else []
