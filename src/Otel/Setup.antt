-- ===== src/Otel/Setup.antt =====
-- policyengine_observability/otel.py: the start of `OTelRuntime`, its flush and its shutdown. The
-- statements of `_configure` and of what it calls are steps, and `returns` says which return rather
-- than raise. The providers that the API and the SDK give are never `None`.
pub mod Owned
use policyengine_observabili.Base.{
  ℕ, ℤ, pos_part, Text, text, ◌++◌, Bool, true, false, ◌&&◌, if◌then◌else◌, Option, none, some,
  List, [], ◌∷◌,
}
use policyengine_observabili.Config.{ObservabilityConfig, owned, external, identity_complete}
use policyengine_observabili.Otel.Spans.{
  Instrument, request_count, request_duration, operation_count, operation_duration, error_count,
  dropped_count, exporter_failure_count,
}

pub data SetupStep : Type 0 where
  import_api import_sdk : SetupStep
  get_tracer_provider get_meter_provider : SetupStep
  create_resource create_reader create_meter_provider create_tracer_provider : SetupStep
  add_span_processor : SetupStep
  get_tracer get_meter : SetupStep
  create_instrument : Instrument → SetupStep
  create_gauge : SetupStep

pub data ProviderCall : Type 0 where
  tracer_flushed meter_flushed : ℕ → ProviderCall
  tracer_shut : ProviderCall
  meter_shut : ℕ → ProviderCall

-- `OTelRuntime`: a `Bool` says whether an attribute is set to other than `None` or `False`. `calls`
-- are those of the providers' methods, and `reports` those of the diagnostics.
pub record Setup : Type 0 where
  pub tracer : Bool
  pub meter : Bool
  pub tracer_provider : Bool
  pub meter_provider : Bool
  pub owns_tracer_provider : Bool
  pub owns_meter_provider : Bool
  pub instruments : List Instrument
  pub queue_depth : Bool
  pub calls : List ProviderCall
  pub reports : List Text

-- The attributes at the start of `__init__`.
abbrev pub new_setup : Setup
new_setup = record {
  tracer = false;
  meter = false;
  tracer_provider = false;
  meter_provider = false;
  owns_tracer_provider = false;
  owns_meter_provider = false;
  instruments = [];
  queue_depth = false;
  calls = [];
  reports = [];
}

abbrev pub perform : SetupStep → Setup → Setup
perform get_tracer_provider s = record s { tracer_provider = true }
perform get_meter_provider s = record s { meter_provider = true }
perform create_meter_provider s = record s { meter_provider = true; owns_meter_provider = true }
perform create_tracer_provider s = record s { tracer_provider = true; owns_tracer_provider = true }
perform get_tracer s = record s { tracer = true }
perform get_meter s = record s { meter = true }
perform (create_instrument i) s = record s { instruments = s.instruments ++ (i ∷ []) }
perform create_gauge s = record s { queue_depth = true }
perform _ s = s

abbrev pub step_if {ℓ} : {A : Type ℓ} → Option A → SetupStep → List SetupStep
step_if none step = []
step_if (some a) step = step ∷ []

-- `_configure_owned_providers`
abbrev pub owned_steps : ObservabilityConfig → List SetupStep
owned_steps config =
    import_sdk
    ∷ create_resource
    ∷ (step_if config.otel.metrics create_reader
        ++ (create_meter_provider
            ∷ create_tracer_provider
            ∷ step_if config.otel.traces add_span_processor))

-- `_configure_instruments`
abbrev pub instrument_steps : List SetupStep
instrument_steps =
    create_instrument request_count
    ∷ create_instrument request_duration
    ∷ create_instrument operation_count
    ∷ create_instrument operation_duration
    ∷ create_instrument error_count
    ∷ create_instrument dropped_count
    ∷ create_instrument exporter_failure_count
    ∷ create_gauge
    ∷ []

abbrev pub provider_steps : ObservabilityConfig → List SetupStep
provider_steps config = elim config.otel.provider_mode [
  | external ↦ get_tracer_provider ∷ get_meter_provider ∷ []
  | owned ↦ owned_steps config
]

unfoldable pub configure_steps : ObservabilityConfig → List SetupStep
configure_steps config =
    if config.otel.enabled && identity_complete config
    then import_api ∷ (provider_steps config ++ (get_tracer ∷ get_meter ∷ instrument_steps))
    else []

abbrev pub abandoned : Setup → Setup
abandoned s = record s {
  tracer = false;
  meter = false;
  reports = s.reports ++ (text "otel.configure" ∷ []);
}

-- The body of the `try` of `_configure`, with its handler.
unfoldable pub perform_each : (SetupStep → Bool) → List SetupStep → Setup → Setup
perform_each returns [] s = s
perform_each returns (step ∷ steps) s =
    let rest = perform_each returns steps (perform step s) in
    if returns step then rest else abandoned s

unfoldable pub configure : (SetupStep → Bool) → ObservabilityConfig → Setup
configure returns config = perform_each returns (configure_steps config) new_setup

-- `answers` says whether a call of a provider returns rather than raises.
module _ (answers : ProviderCall → Bool) where
  abbrev pub ask_provider : Text → ProviderCall → Setup → Setup
  ask_provider operation call s = record s {
    calls = s.calls ++ (call ∷ []);
    reports = s.reports ++ (if answers call then [] else operation ∷ []);
  }

  -- `milliseconds` is `int(timeout_seconds * 1_000)`.
  unfoldable pub shutdown : ℤ → Setup → Setup
  shutdown milliseconds s =
      let traced =
        if s.owns_tracer_provider && s.tracer_provider
        then ask_provider (text "otel.trace_shutdown") tracer_shut s
        else s in
      if traced.owns_meter_provider && traced.meter_provider
      then ask_provider (text "otel.metric_shutdown") (meter_shut (pos_part milliseconds)) traced
      else traced

  -- `tracer_flushes` and `meter_flushes` say whether a provider has the method.
  unfoldable pub force_flush : Bool → Bool → ℤ → Setup → Setup
  force_flush tracer_flushes meter_flushes milliseconds s =
      let timeout = pos_part milliseconds in
      let flushed =
        if s.tracer_provider && tracer_flushes
        then ask_provider (text "otel.force_flush") (tracer_flushed timeout) s
        else s in
      if flushed.meter_provider && meter_flushes
      then ask_provider (text "otel.force_flush") (meter_flushed timeout) flushed
      else flushed

-- `depth` is what the callback gives, `none` where it or the import raises: the observations, and
-- the setup with its reports.
unfoldable pub observe_queue_depth : Option ℤ → Setup → List ℕ × Setup
observe_queue_depth none s =
    ([], record s { reports = s.reports ++ (text "otel.queue_depth" ∷ []) })
observe_queue_depth (some depth) s = (pos_part depth ∷ [], s)
