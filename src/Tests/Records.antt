-- ===== src/Tests/Records.antt =====
-- Records, attributes and redaction at a configuration with one sensitive value.
use policyengine_observabili.Base
use policyengine_observabili.Base.{
  Text, text, Dict, lookup, ◌≡◌, refl, pos, finite, false, none, some, [], ◌∷◌, All, some_injective,
  subst, arith, contains,
}
use policyengine_observabili.Value.{Value, Failure}
use policyengine_observabili.Config.{ObservabilityConfig, default_metric_attribute_keys, owned}
use policyengine_observabili.Schema.{
  RecordInput, redact, redact_each, normalize_attributes, build_record,
}
use policyengine_observabili.Schema.Attributes.{
  IsSafe, last_admitted, count_refused, normalize_attributes-IsSafe, normalize_attributes_lem,
}
use policyengine_observabili.Schema.Redaction.{IsMaskable, IsCleanEntry, contains-redact}
use policyengine_observabili.Schema.Records.{IsCleanInput, build_record-clean}

abbrev pub secret : Text
secret = text "hunter2"

abbrev pub config : ObservabilityConfig
config = record {
  service = record {
    name = text "api";
    namespace = text "policyengine";
    version = text "1";
    role = text "web";
  };
  deployment = record {
    environment = text "test";
    platform = text "local";
    region = none;
    instance_id = none;
  };
  otel = record {
    enabled = false;
    traces = none;
    metrics = none;
    provider_mode = owned;
    sampling_ratio = finite (pos 1) 0;
    span_queue_capacity = 2048;
    span_batch_size = 512;
    span_schedule_delay_seconds = finite (pos 5) 0;
    metric_export_interval_seconds = finite (pos 60) 0;
    shutdown_timeout_seconds = finite (pos 3) 0;
  };
  limits = record {
    max_string_length = 2048;
    max_error_message_length = 2048;
    max_stack_length = 16384;
    async_parent_max_age_seconds = finite (pos 900) 0;
  };
  application_attribute_keys = none;
  dispatch_attribute_keys = text "country.id" ∷ [];
  metric_attribute_keys = default_metric_attribute_keys;
  sensitive_values = secret ∷ [];
}

abbrev pub same : Text → Text
same t = t

abbrev attributes : Dict Value
attributes =
    (text "country.id", Value.str (text "uk"))
    ∷ (text "api_token", Value.str (text "x"))
    ∷ (text " note ", Value.str (text "is hunter2"))
    ∷ (text "country.id", Value.str (text "us"))
    ∷ []

abbrev pub failure : Failure
failure = record {
  type_name = text "ValueError";
  message = some (text "bad hunter2");
  stack = none;
}

abbrev input : RecordInput
input = record {
  severity = text "ERROR";
  event_name = none;
  message = some (text "hunter2!");
  context = (text "outcome", Value.str (text "error")) ∷ [];
  attributes = attributes;
  error = some failure;
}

pub secret-IsMaskable : IsMaskable secret
secret-IsMaskable = record { no_open = refl; no_close = refl; outside = refl }

input-IsCleanInput : IsCleanInput config same (text "2026-01-01T00:00:00Z") secret input
input-IsCleanInput = record {
  version = refl;
  time = refl;
  severity = refl;
  name = refl;
  namespace = refl;
  service_version = refl;
  role = refl;
  environment = refl;
  platform = refl;
  region = λ t e. absurd (ground (arith, e));
  instance_id = λ t e. absurd (ground (arith, e));
  event_name = λ t e. absurd (ground (arith, e));
  context = (refl, tt);
  error_type =
      λ e h. subst (λ (x : Failure). contains secret x.type_name ≡ false) (some_injective h) refl;
}

build_record-clean_example :
    All (IsCleanEntry secret) (build_record same same config (text "2026-01-01T00:00:00Z") input)
build_record-clean_example =
    build_record-clean config secret secret-IsMaskable refl same same (text "2026-01-01T00:00:00Z")
      input input-IsCleanInput

contains-redact_example : contains secret (redact (text "a hunter2 b") config) ≡ false
contains-redact_example = contains-redact config secret (text "a hunter2 b") secret-IsMaskable refl

redact_run : redact (text "a hunter2 b") config ≡ text "a [REDACTED] b"
unfolding redact redact_each Base.replace_from
redact_run = refl

normalize_attributes-IsSafe_example :
    All (IsSafe same config none) (normalize_attributes same attributes config none).0
normalize_attributes-IsSafe_example = normalize_attributes-IsSafe same config none attributes

-- The last value of a repeated key is kept, and the key with a prohibited part is counted.
normalize_attributes_lem_example :
    (lookup (text "country.id") (normalize_attributes same attributes config none).0
      ≡ last_admitted same config none (text "country.id") attributes)
    × ((normalize_attributes same attributes config none).1
        ≡ count_refused same config none attributes)
normalize_attributes_lem_example =
    normalize_attributes_lem same config none (text "country.id") attributes
