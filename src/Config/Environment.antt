-- ===== src/Config/Environment.antt =====
-- `ObservabilityConfig.from_env` of policyengine_observability/config.py: the OTel settings that
-- the standard environment variables give. `getenv` is `os.getenv` at the time of the call, and
-- `Conversions` holds what Python's own conversions do.
pub mod Headers
pub mod Settings
use policyengine_observabili.Base.{
  ℕ, ℤ, pos, pos_part, Float, finite, is_finite, leb_ℤ, leb_float, Text, text, strip, split_on,
  is_empty, member, ◌==◌, any, nat_eq, Bool, true, false, not, ◌&&◌, if◌then◌else◌, List, [], ◌∷◌,
  ◌++◌, Option, none, some, or_else,
}
use policyengine_observabili.Config.{
  OtlpProtocol, grpc, http_protobuf, OtlpEndpointMode, base, signal, ProviderMode, owned, external,
  google_id_token, OtlpExporterConfig, OTelConfig,
}

-- `str.lower`, `float` and `int` of a text, where they do not raise, and the quotient by 1000.
pub record Conversions : Type 0 where
  pub lower : Text → Text
  pub to_float : Text → Option Float
  pub to_int : Text → Option ℤ
  pub thousandth : Float → Float

-- The message of a `ConfigurationError` raised while the environment is read.
pub data EnvError : Type 0 where
  not_boolean bad_protocol bad_exporter empty_header_name not_number not_integer : Text → EnvError
  bad_provider_mode : EnvError
  header_without_equals : Text → Text → EnvError
  not_between : Text → Float → Float → EnvError
  not_between_integers : Text → ℤ → ℤ → EnvError

pub data Result (A : Type 0) : Type 0 where
  ok : A → Result A
  err : EnvError → Result A

infixl 5 ◌>>=◌
unfoldable pub ◌>>=◌ : {A B : Type 0} → Result A → (A → Result B) → Result B
ok a >>= f = f a
err e >>= f = err e

-- `value.split("=", 1)` of a text that has the separator.
unfoldable pub split_once : ℕ → Text → Text × Text
split_once sep [] = ([], [])
split_once sep (c ∷ t) =
    let rest = split_once sep t in if nat_eq c sep then ([], t) else (c ∷ rest.0, rest.1)

-- The loop of `_parse_headers` over the items between commas.
unfoldable pub parse_items : Text → List Text → Result (List (Text × Text))
parse_items name [] = ok []
parse_items name (item ∷ items) =
    let rest = parse_items name items in
    let (key, value) = split_once b'=' item in
    if is_empty (strip item)
    then rest
    else if not (any (nat_eq b'=') item)
    then err (header_without_equals name item)
    else if is_empty (strip key)
    then err (empty_header_name name)
    else (do headers ← rest; ok ((strip key, strip value) ∷ headers))

unfoldable pub parse_headers : Text → Text → Result (List (Text × Text))
parse_headers name value = parse_items name (split_on b',' value)

unfoldable pub parse_protocol : Text → Text → Result OtlpProtocol
parse_protocol name value =
    if strip value == text "grpc"
    then ok grpc
    else if strip value == text "http/protobuf"
    then ok http_protobuf
    else err (bad_protocol name)

-- `if value:` on an optional text.
abbrev pub truthy : Option Text → Option Text
truthy none = none
truthy (some t) = if is_empty t then none else some t

-- `a or b` on optional texts.
abbrev pub either : Option Text → Option Text → Option Text
either a b = elim (truthy a) [ none ↦ b | some t ↦ some t ]

-- What `_env_float` does with what `float` gave, and `_env_int` with what `int` gave.
unfoldable pub float_in_range : Text → Float → Float → Option Float → Result Float
float_in_range name minimum maximum none = err (not_number name)
float_in_range name minimum maximum (some parsed) =
    if is_finite parsed && (leb_float minimum parsed && leb_float parsed maximum)
    then ok parsed
    else err (not_between name minimum maximum)

unfoldable pub int_in_range : Text → ℤ → ℤ → Option ℤ → Result ℤ
int_in_range name minimum maximum none = err (not_integer name)
int_in_range name minimum maximum (some parsed) =
    if leb_ℤ minimum parsed && leb_ℤ parsed maximum
    then ok parsed
    else err (not_between_integers name minimum maximum)

module _ (c : Conversions) where
  unfoldable pub parse_bool : Text → Text → Result Bool
  parse_bool name value =
      let normalized = c.lower (strip value) in
      if member normalized (text "1" ∷ text "true" ∷ text "yes" ∷ text "on" ∷ [])
      then ok true
      else if member normalized (text "0" ∷ text "false" ∷ text "no" ∷ text "off" ∷ [])
      then ok false
      else err (not_boolean name)

  unfoldable pub provider_mode : Text → Result ProviderMode
  provider_mode value =
      let normalized = c.lower (strip value) in
      if normalized == text "owned"
      then ok owned
      else if normalized == text "external"
      then ok external
      else err bad_provider_mode

  unfoldable pub env_float : Text → Option Text → Float → Float → Float → Result Float
  unfolding float_in_range
  env_float name value default minimum maximum =
      float_in_range name minimum maximum
        (elim value [ none ↦ some default | some t ↦ c.to_float t ])

  unfoldable pub env_int : Text → Option Text → ℤ → ℤ → ℤ → Result ℤ
  unfolding int_in_range
  env_int name value default minimum maximum =
      int_in_range name minimum maximum (elim value [ none ↦ some default | some t ↦ c.to_int t ])

  module _ (getenv : Text → Option Text) where
    unfoldable pub env_bool : Text → Bool → Result Bool
    env_bool name default = elim (getenv name) [
      | none ↦ ok default
      | some value ↦ parse_bool name value
    ]

    unfoldable pub export_enabled : Text → Result Bool
    export_enabled name =
        let value = c.lower (strip (or_else (getenv name) (text "otlp"))) in
        if value == text "otlp"
        then ok true
        else if value == text "none"
        then ok false
        else err (bad_exporter name)

    -- The arguments that the two signals share.
    abbrev pub Common : Type 0
    Common = Option Text × OtlpProtocol × Text × Option Text

    unfoldable pub signal_protocol : Text → OtlpProtocol → Result OtlpProtocol
    signal_protocol prefix common = elim (getenv (prefix ++ text "_PROTOCOL")) [
      | none ↦ ok common
      | some value ↦ parse_protocol (prefix ++ text "_PROTOCOL") value
    ]

    unfoldable pub signal_headers : Text → Text → Result (List (Text × Text))
    signal_headers prefix common = elim (getenv (prefix ++ text "_HEADERS")) [
      | none ↦ parse_headers (text "OTEL_EXPORTER_OTLP_HEADERS") common
      | some value ↦ parse_headers (prefix ++ text "_HEADERS") value
    ]

    unfoldable pub signal_timeout : Text → Result Float
    signal_timeout prefix =
        let own = getenv (prefix ++ text "_TIMEOUT") in
        env_float
          (elim own [
            | none ↦ text "OTEL_EXPORTER_OTLP_TIMEOUT"
            | some t ↦ prefix ++ text "_TIMEOUT"
          ])
          (either own (getenv (text "OTEL_EXPORTER_OTLP_TIMEOUT"))) (finite (pos 5000) 0)
          (finite (pos 100) 0) (finite (pos 60000) 0)

    -- `name` is `signal.upper()`.
    unfoldable pub exporter_from_env : Text → Bool → Common → Result (Option OtlpExporterConfig)
    unfolding signal_protocol signal_headers signal_timeout
    exporter_from_env name enabled
          (common_endpoint, common_protocol, common_headers, common_audience) =
        let prefix = text "OTEL_EXPORTER_OTLP_" ++ name in
        let own = getenv (prefix ++ text "_ENDPOINT") in
        if not enabled then ok none else elim (truthy (either own common_endpoint)) [
          | none ↦ ok none
          | some endpoint ↦ do
            protocol ← signal_protocol prefix common_protocol
            headers ← signal_headers prefix common_headers
            timeout ← signal_timeout prefix
            ok (
                some (record {
                  endpoint = endpoint;
                  protocol = protocol;
                  endpoint_mode = elim (truthy own) [
                    | none ↦ base
                    | some t ↦ OtlpEndpointMode.signal
                  ];
                  headers = headers;
                  auth =
                      elim (truthy (
                        either
                          (getenv (text "POLICYENGINE_OTEL_" ++ name ++ text "_GOOGLE_AUDIENCE"))
                          common_audience)) [
                            | none ↦ none
                            | some audience ↦ some (google_id_token audience)
                          ];
                  timeout_seconds = c.thousandth timeout;
                }))
        ]

    -- The `OTelConfig` that `from_env` builds, in the order in which the variables are read.
    unfoldable pub otel_from_env : Result OTelConfig
    otel_from_env = do
      let common_endpoint = getenv (text "OTEL_EXPORTER_OTLP_ENDPOINT")
      common_protocol ←
          parse_protocol (text "OTEL_EXPORTER_OTLP_PROTOCOL")
            (or_else (getenv (text "OTEL_EXPORTER_OTLP_PROTOCOL")) (text "grpc"))
      let common_headers = or_else (getenv (text "OTEL_EXPORTER_OTLP_HEADERS")) []
      let common_audience = getenv (text "POLICYENGINE_OTEL_GOOGLE_AUDIENCE")
      traces_enabled ← export_enabled (text "OTEL_TRACES_EXPORTER")
      traces ←
          exporter_from_env (text "TRACES") traces_enabled
            (common_endpoint, common_protocol, common_headers, common_audience)
      metrics_enabled ← export_enabled (text "OTEL_METRICS_EXPORTER")
      metrics ←
          exporter_from_env (text "METRICS") metrics_enabled
            (common_endpoint, common_protocol, common_headers, common_audience)
      disabled ← env_bool (text "OTEL_SDK_DISABLED") false
      mode ←
          provider_mode (or_else (getenv (text "POLICYENGINE_OTEL_PROVIDER_MODE")) (text "owned"))
      ratio ←
          env_float (text "OTEL_TRACES_SAMPLER_ARG") (getenv (text "OTEL_TRACES_SAMPLER_ARG"))
            (finite (pos 1) 0) (finite (pos 0) 0) (finite (pos 1) 0)
      queue ←
          env_int (text "OTEL_BSP_MAX_QUEUE_SIZE") (getenv (text "OTEL_BSP_MAX_QUEUE_SIZE"))
            (pos 2048) (pos 1) (pos 100000)
      batch ←
          env_int (text "OTEL_BSP_MAX_EXPORT_BATCH_SIZE")
            (getenv (text "OTEL_BSP_MAX_EXPORT_BATCH_SIZE")) (pos 512) (pos 1) (pos 10000)
      delay ←
          env_float (text "OTEL_BSP_SCHEDULE_DELAY") (getenv (text "OTEL_BSP_SCHEDULE_DELAY"))
            (finite (pos 5000) 0) (finite (pos 1) 0) (finite (pos 60000) 0)
      interval ←
          env_float (text "OTEL_METRIC_EXPORT_INTERVAL")
            (getenv (text "OTEL_METRIC_EXPORT_INTERVAL")) (finite (pos 60000) 0)
            (finite (pos 1000) 0) (finite (pos 3600000) 0)
      ok (record {
        enabled = not disabled;
        traces = traces;
        metrics = metrics;
        provider_mode = mode;
        sampling_ratio = ratio;
        span_queue_capacity = pos_part queue;
        span_batch_size = pos_part batch;
        span_schedule_delay_seconds = c.thousandth delay;
        metric_export_interval_seconds = c.thousandth interval;
        shutdown_timeout_seconds = finite (pos 3) 0;
      })
