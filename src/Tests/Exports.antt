-- ===== src/Tests/Exports.antt =====
-- What leaves the process, at concrete values: measurements, exporters, formatted records, and the
-- credentials of Google.
use policyengine_observabili.Base
use policyengine_observabili.Base.{
  ℕ, ◌≤◌, Text, text, Dict, pos, Float, nan, finite, Bool, true, false, not, nat_eq, All, ◌≡◌, ◌⊎◌,
  refl, Option, none, some, List, [], ◌∷◌, if◌then◌else◌, ◌==◌,
}
use policyengine_observabili.Value.{Value}
use policyengine_observabili.Config.{
  ObservabilityConfig, identity_complete, OtlpExporterConfig, OtlpAuthentication, OtlpProtocol,
  other_auth, http_protobuf, base,
}
use policyengine_observabili.Otel.Spans.{
  ApiCall, Tracing, request_count, request_duration, dropped_count, of_request, of_dropped,
  Measurement, measure_each,
}
use policyengine_observabili.Otel.Spans.Points.{IsPoint, measure_each-IsPoint}
use policyengine_observabili.Otel.Exporters.{Exporter, Use, exports, flushes, shuts_down}
use policyengine_observabili.Otel.Providers.{
  AuthArguments, no_arguments, build_exporter, span_processor,
}
use policyengine_observabili.Otel.Providers.Bounds.{IsUsable, exporter-IsUsable}
use policyengine_observabili.Otel.Setup.{
  SetupStep, create_tracer_provider, meter_shut, configure_steps, configure, shutdown,
}
use policyengine_observabili.Otel.Setup.Owned.{shutdown-configure}
use policyengine_observabili.Delivery.Writer.{write_batch, close_writer}
use policyengine_observabili.Delivery.Formatting.{formatting_writer}
use policyengine_observabili.Delivery.Formatting.Equal.{
  Formats, HasFailure, write_batch-formatting_writer,
}
use policyengine_observabili.Google.{chosen_source}
use policyengine_observabili.Google.Chosen.{
  AllBacked, first_source, candidates, chosen_source-first,
}
use policyengine_observabili.Tests.Records.{config, same}
use policyengine_observabili.Tests.Queues.{writer}

-- Every second call raises.
abbrev alternates : List ApiCall → ApiCall → Bool
alternates [] call = true
alternates (c ∷ calls) call = not (alternates calls call)

abbrev tracing : Tracing
tracing = record {
  config = config;
  traced = true;
  instruments = request_count ∷ request_duration ∷ dropped_count ∷ [];
  next_handle = 0;
  calls = [];
  reports = [];
}

abbrev measurements : List Measurement
measurements =
    of_request (finite (pos 1) 0)
      ((text "service.name", Value.str (text "api")) ∷ (text "user", Value.str (text "x")) ∷ [])
    ∷ of_dropped (text "logs.dropped") 2
    ∷ []

measure_each-IsPoint_example :
    All (IsPoint alternates same config) (measure_each alternates same measurements tracing).calls
measure_each-IsPoint_example =
    measure_each-IsPoint alternates same config measurements tracing refl tt

-- The factory raises until the world is 2, and an export of 0 raises.
abbrev exporter : Exporter ℕ ℕ ℕ
exporter = record {
  factory = λ e. (nat_eq e 2, e);
  export = λ batch e. (if nat_eq batch 0 then none else some batch, e);
  force_flush = λ timeout e. (none, e);
  shutdown = λ timeout e. (false, e);
}

abbrev uses : List (Use ℕ)
uses = exports 3 ∷ flushes 10 ∷ exports 0 ∷ shuts_down 10 ∷ []

abbrev authenticate : OtlpAuthentication → OtlpProtocol → Dict Text → AuthArguments
authenticate auth protocol headers = record no_arguments { session = some 1 }

abbrev exported : OtlpExporterConfig
exported = record {
  endpoint = text "https://collector/";
  protocol = http_protobuf;
  endpoint_mode = base;
  headers = (text "a", text "b") ∷ [];
  auth = some (other_auth 0);
  timeout_seconds = nan;
}

abbrev identity : Float → Float
identity x = x

exporter-IsUsable_example :
    IsUsable (build_exporter authenticate (text "traces") exported)
    × (1 ≤ (span_processor identity config.otel exported).max_export_batch_size)
    × ((span_processor identity config.otel exported).max_export_batch_size
        ≤ (span_processor identity config.otel exported).max_queue_size)
exporter-IsUsable_example =
    exporter-IsUsable authenticate (λ auth protocol headers. refl) identity (text "traces")
      config.otel exported

abbrev formatter : Option (ℕ → Option ℕ)
formatter = some (λ n. if nat_eq n 3 then none else some n)

write_batch-formatting_writer_example :
    (((xs : List ℕ) × Formats formatter (1 ∷ 2 ∷ []) xs
        × (write_batch (formatting_writer formatter writer) (1 ∷ 2 ∷ []) []
            ≡ write_batch writer xs []))
      ⊎ (HasFailure formatter (1 ∷ 2 ∷ [])
          × (write_batch (formatting_writer formatter writer) (1 ∷ 2 ∷ []) [] ≡ (false, []))))
    × (close_writer (formatting_writer formatter writer) [] ≡ close_writer writer [])
write_batch-formatting_writer_example =
    write_batch-formatting_writer formatter writer (1 ∷ 2 ∷ []) []

abbrev environment : Text → Option Text
environment name = if name == text "MODAL_IDENTITY_TOKEN" then some (text "t") else none

chosen_source-first_example :
    (chosen_source environment (text "JSON") (text "FILE") true
      ≡ first_source environment (candidates environment (text "JSON") (text "FILE") true))
    × AllBacked environment (chosen_source environment (text "JSON") (text "FILE") true)
chosen_source-first_example = chosen_source-first environment (text "JSON") (text "FILE") true

abbrev remote_config : ObservabilityConfig
remote_config = record config { otel = record config.otel { enabled = true } }

-- The meter provider is made, and the tracer provider is not.
abbrev all_but_tracing : SetupStep → Bool
all_but_tracing create_tracer_provider = false
all_but_tracing _ = true

shutdown-configure_example :
    (shutdown (λ call. true) (pos 3000) (configure all_but_tracing remote_config)).calls
    ≡ meter_shut 3000 ∷ []
unfolding configure_steps identity_complete Base.strip
shutdown-configure_example =
    shutdown-configure all_but_tracing (λ call. true) remote_config (pos 3000)
