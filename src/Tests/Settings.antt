-- ===== src/Tests/Settings.antt =====
-- The configuration's checks and the settings of the environment at concrete values.
use policyengine_observabili.Base
use policyengine_observabili.Base.{
  Text, text, ◌==◌, ◌≡◌, ◌↔◌, refl, pos, finite, true, none, some, Option, [], ◌∷◌, if◌then◌else◌,
}
use policyengine_observabili.Value.{Value}
use policyengine_observabili.Config.{OTelConfig, owned}
use policyengine_observabili.Config.Validation.{
  Unchecked, tuple, frozenset, lacking, validate, passes,
}
use policyengine_observabili.Config.Validation.Complete.{IsWellFormed, validate_lem}
use policyengine_observabili.Config.Environment.{
  Conversions, ok, parse_headers, parse_items, split_once, otel_from_env, parse_protocol,
  export_enabled, exporter_from_env, env_bool, provider_mode, env_float, env_int, ◌>>=◌,
}
use policyengine_observabili.Config.Environment
use policyengine_observabili.Config.Environment.Headers.{IsPlain, format_headers, parse-format}
use policyengine_observabili.Config.Environment.Settings.{IsUsable, otel_from_env-IsUsable}

abbrev unchecked : Unchecked
unchecked = record {
  service_name = Value.str (text "api");
  service_namespace = Value.str (text "policyengine");
  service_version = Value.str (text "1");
  service_role = Value.str (text "web");
  environment = Value.str (text "test");
  platform = Value.str (text "local");
  sensitive_values = tuple (Value.str (text "hunter2") ∷ []);
  application_attribute_keys = none;
  dispatch_attribute_keys = frozenset [];
  metric_attribute_keys = frozenset (Value.str (text "outcome") ∷ []);
  minimum_severity = Value.int (pos 20);
  logging_shutdown_timeout = Value.float (finite (pos 2) 0);
  destinations =
      record {
        name = some (text "stdout");
        delivery = some (Value.str (text "inline"));
        queue_capacity = some (Value.int (pos 2048));
        batch_size = some (Value.int (pos 100));
        diagnostics = lacking;
      }
      ∷ [];
  provider_mode = Value.str (text "owned");
  sampling_ratio = Value.float (finite (pos 1) 1);
  span_queue_capacity = Value.int (pos 2048);
  span_batch_size = Value.int (pos 512);
  span_schedule_delay = Value.int (pos 5);
  metric_export_interval = Value.int (pos 60);
  otel_shutdown_timeout = Value.int (pos 3);
  traces = none;
  metrics = none;
  max_string_length = Value.int (pos 2048);
  max_error_message_length = Value.int (pos 2048);
  max_stack_length = Value.int (pos 16384);
  async_parent_max_age = Value.int (pos 900);
}

validate_lem_example : (validate unchecked ≡ some passes) ↔ IsWellFormed unchecked
validate_lem_example = validate_lem unchecked

abbrev header : Text × Text
header = (text "api-key", text "a=b c")

header-IsPlain : IsPlain header
unfolding Base.strip
header-IsPlain = record {
  named = refl;
  name_stripped = refl;
  value_stripped = refl;
  no_equals = refl;
  no_comma = refl;
}

parse-format_example :
    parse_headers (text "H") (format_headers (header ∷ header ∷ [])) ≡ ok (header ∷ header ∷ [])
parse-format_example =
    parse-format (text "H") (header ∷ header ∷ []) (header-IsPlain, (header-IsPlain, tt))

read_one : parse_headers (text "H") (text " a = b ,, ") ≡ ok ((text "a", text "b") ∷ [])
unfolding parse_headers parse_items split_once Base.strip Base.split_on ◌>>=◌
read_one = refl

abbrev conversions : Conversions
conversions = record {
  lower = λ t. t;
  to_float = λ t. some (finite (pos 1) 1);
  to_int = λ t. none;
  thousandth = λ x. x;
}

abbrev getenv : Text → Option Text
getenv name = if name == text "OTEL_TRACES_SAMPLER_ARG" then some (text "0.5") else none

abbrev settings : OTelConfig
settings = record {
  enabled = true;
  traces = none;
  metrics = none;
  provider_mode = owned;
  sampling_ratio = finite (pos 1) 1;
  span_queue_capacity = 2048;
  span_batch_size = 512;
  span_schedule_delay_seconds = finite (pos 5000) 0;
  metric_export_interval_seconds = finite (pos 60000) 0;
  shutdown_timeout_seconds = finite (pos 3) 0;
}

read_settings : otel_from_env conversions getenv ≡ ok settings
unfolding otel_from_env parse_protocol export_enabled exporter_from_env env_bool provider_mode
    env_float env_int Base.strip ◌>>=◌ Environment.float_in_range Environment.int_in_range
read_settings = refl

otel_from_env-IsUsable_example : IsUsable settings
otel_from_env-IsUsable_example = otel_from_env-IsUsable conversions getenv settings read_settings
