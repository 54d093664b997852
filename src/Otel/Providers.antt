-- ===== src/Otel/Providers.antt =====
-- policyengine_observability/otel.py: the providers that the package configures, by the arguments of
-- the SDK's classes; what the SDK makes of them is outside.
pub mod Bounds
use policyengine_observabili.Base.{
  ℕ, min, max, Text, text, Dict, is_empty, pos, Float, finite, max_float, min_float, ◌&&◌, is_some,
  or_else, if◌then◌else◌, Option, none, some, List, [], ◌∷◌,
}
use policyengine_observabili.Config.{
  ObservabilityConfig, OTelConfig, OtlpExporterConfig, OtlpAuthentication, OtlpProtocol, grpc,
  http_protobuf, base, signal, owned, external, identity_complete,
}
use policyengine_observabili.Otel.{http_signal_endpoint}

-- `{key: value for key, value in values.items() if value}` on optional texts.
unfoldable pub nonempty_values : List (Text × Option Text) → Dict Text
nonempty_values [] = []
nonempty_values ((key, none) ∷ values) = nonempty_values values
nonempty_values ((key, some value) ∷ values) =
    let rest = nonempty_values values in if is_empty value then rest else (key, value) ∷ rest

unfoldable pub resource_attributes : ObservabilityConfig → Dict Text
resource_attributes config = nonempty_values (
    (text "service.name", some config.service.name)
    ∷ (text "service.namespace", some config.service.namespace)
    ∷ (text "service.version", some config.service.version)
    ∷ (text "service.instance.id", config.deployment.instance_id)
    ∷ (text "deployment.environment.name", some config.deployment.environment)
    ∷ (text "cloud.platform", some config.deployment.platform)
    ∷ (text "cloud.region", config.deployment.region)
    ∷ (text "policyengine.service.role", some config.service.role)
    ∷ [])

-- The double next to 0.1, which the literal `0.1` is.
abbrev pub tenth : Float
tenth = finite (pos 3602879701896397) 55

-- What an exporter is given: its keyword arguments, with those of the authentication.
pub record ExporterArguments : Type 0 where
  pub endpoint : Text
  pub headers : Option (Dict Text)
  pub timeout : Float
  pub session : Option ℕ
  pub credentials : Option ℕ
  pub others : Dict ℕ

-- What an authentication adds to the arguments or puts in their place; `others` are of other names.
pub record AuthArguments : Type 0 where
  pub endpoint : Option Text
  pub headers : Option (Dict Text)
  pub timeout : Option Float
  pub session : Option ℕ
  pub credentials : Option ℕ
  pub others : Dict ℕ

abbrev pub no_arguments : AuthArguments
no_arguments = record {
  endpoint = none;
  headers = none;
  timeout = none;
  session = none;
  credentials = none;
  others = [];
}

-- `authenticate` is the authentication's `exporter_kwargs`.
module _ (authenticate : OtlpAuthentication → OtlpProtocol → Dict Text → AuthArguments) where
  unfoldable pub exporter_kwargs : OtlpExporterConfig → ExporterArguments
  exporter_kwargs config =
      let timeout = max_float tenth (min_float config.timeout_seconds (finite (pos 60) 0)) in
      let given : AuthArguments = elim config.auth [
        | none ↦ no_arguments
        | some auth ↦ authenticate auth config.protocol config.headers
      ] in
      record {
        endpoint = or_else given.endpoint config.endpoint;
        headers =
            if is_some given.session then none else some (or_else given.headers config.headers);
        timeout = or_else given.timeout timeout;
        session = given.session;
        credentials = given.credentials;
        others = given.others;
      }

  -- `_build_span_exporter` for "traces" and `_build_metric_exporter` for "metrics".
  unfoldable pub build_exporter : Text → OtlpExporterConfig → ExporterArguments
  build_exporter signal_name config =
      let kwargs = exporter_kwargs config in
      elim config.protocol [
        | grpc ↦ kwargs
        | http_protobuf ↦ elim config.endpoint_mode [
          | signal ↦ kwargs
          | base ↦ record kwargs { endpoint = http_signal_endpoint config.endpoint signal_name }
        ]
      ]

-- The arguments of `BatchSpanProcessor`; delays are in milliseconds, by `thousandfold`.
pub record SpanProcessor : Type 0 where
  pub max_queue_size : ℕ
  pub max_export_batch_size : ℕ
  pub schedule_delay_millis : Float
  pub export_timeout_millis : Float

pub record MetricReader : Type 0 where
  pub export_interval_millis : Float
  pub export_timeout_millis : Float

pub record OwnedProviders : Type 0 where
  pub resource : Dict Text
  pub reader : Option MetricReader
  pub sampling_ratio : Float
  pub processor : Option SpanProcessor

-- `thousandfold` is the product of a float by 1000.
module _ (thousandfold : Float → Float) where
  unfoldable pub metric_reader : OTelConfig → OtlpExporterConfig → MetricReader
  metric_reader otel exporter = record {
    export_interval_millis =
        max_float (finite (pos 1000) 0) (thousandfold otel.metric_export_interval_seconds);
    export_timeout_millis = max_float (finite (pos 1) 0) (thousandfold exporter.timeout_seconds);
  }

  unfoldable pub span_processor : OTelConfig → OtlpExporterConfig → SpanProcessor
  span_processor otel exporter = record {
    max_queue_size = max 1 otel.span_queue_capacity;
    max_export_batch_size = min (max 1 otel.span_batch_size) (max 1 otel.span_queue_capacity);
    schedule_delay_millis =
        max_float (finite (pos 1) 0) (thousandfold otel.span_schedule_delay_seconds);
    export_timeout_millis = max_float (finite (pos 1) 0) (thousandfold exporter.timeout_seconds);
  }

  unfoldable pub configure_owned_providers : ObservabilityConfig → OwnedProviders
  configure_owned_providers config =
      let otel = config.otel in
      record {
        resource = resource_attributes config;
        reader = elim otel.metrics [
          | none ↦ none
          | some exporter ↦ some (metric_reader otel exporter)
        ];
        sampling_ratio =
            min_float (max_float otel.sampling_ratio (finite (pos 0) 0)) (finite (pos 1) 0);
        processor = elim otel.traces [
          | none ↦ none
          | some exporter ↦ some (span_processor otel exporter)
        ];
      }

-- The providers that a runtime has, and whether they are its own.
pub data Providers : Type 0 where
  no_providers external_providers : Providers
  owned_providers : OwnedProviders → Providers

unfoldable pub configure : (Float → Float) → ObservabilityConfig → Providers
configure thousandfold config =
    if config.otel.enabled && identity_complete config
    then elim config.otel.provider_mode [
      | external ↦ external_providers
      | owned ↦ owned_providers (configure_owned_providers thousandfold config)
    ]
    else no_providers
