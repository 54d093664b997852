-- ===== src/Otel/Spans.antt =====
-- policyengine_observability/otel.py: spans and metrics. The OpenTelemetry API is what the calls
-- reach: each call is listed in the order in which it is made, and `returns` says whether it returns
-- rather than raises, which may depend on the calls before it.
pub mod Points
use policyengine_observabili.Base.{
  ℕ, suc, Text, text, ◌++◌, Dict, lookup, Float, Bool, true, false, ◌||◌, if◌then◌else◌, Option,
  none, some, List, [], ◌∷◌, map,
}
use policyengine_observabili.Value.{Value, Failure}
use policyengine_observabili.Config.{ObservabilityConfig}
use policyengine_observabili.Schema.{Scalar, error_fields, metric_attributes}
use policyengine_observabili.Runtime.State.{SpanStart}

-- The counters and histograms that `_configure_instruments` creates.
pub data Instrument : Type 0 where
  request_count request_duration operation_count operation_duration : Instrument
  error_count dropped_count exporter_failure_count : Instrument

pub data Amount : Type 0 where
  whole : ℕ → Amount
  seconds : Float → Amount

pub data ApiCall : Type 0 where
  span_entered : SpanStart → ApiCall
  event_added : ℕ → Dict Value → ApiCall
  status_set : ℕ → ApiCall
  span_exited : ℕ → Option Failure → ApiCall
  attribute_set : Text → Value → ApiCall
  recorded : Instrument → Amount → Dict Scalar → ApiCall

-- The calls made, and the reports of those that raised.
pub record Tracing : Type 0 where
  pub config : ObservabilityConfig
  pub traced : Bool
  pub instruments : List Instrument
  pub next_handle : ℕ
  pub calls : List ApiCall
  pub reports : List Text

abbrev pub is_instrument : Instrument → Instrument → Bool
is_instrument request_count request_count = true
is_instrument request_duration request_duration = true
is_instrument operation_count operation_count = true
is_instrument operation_duration operation_duration = true
is_instrument error_count error_count = true
is_instrument dropped_count dropped_count = true
is_instrument exporter_failure_count exporter_failure_count = true
is_instrument _ _ = false

abbrev pub has_instrument : Instrument → List Instrument → Bool
has_instrument i [] = false
has_instrument i (j ∷ js) = is_instrument i j || has_instrument i js

abbrev pub field : Text → Dict Value → Value
field key details = elim (lookup key details) [ none ↦ Value.null | some v ↦ v ]

module _ (returns : List ApiCall → ApiCall → Bool) (lower : Text → Text) where
  -- A `try` block of calls: they are made up to the first that raises, which is reported.
  unfoldable pub attempt : Text → List ApiCall → Tracing → Tracing
  attempt operation [] t = t
  attempt operation (call ∷ calls) t =
      let made = record t { calls = t.calls ++ call ∷ [] } in
      let rest = attempt operation calls made in
      if returns t.calls call then rest else record made { reports = t.reports ++ operation ∷ [] }

  -- A handle where there is a tracer and its calls return.
  unfoldable pub start_span : SpanStart → Tracing → Option ℕ × Tracing
  start_span start t =
      if t.traced
      then (let entered = attempt (text "otel.span_start") (span_entered start ∷ []) t in
          if returns t.calls (span_entered start)
          then (some t.next_handle, record entered { next_handle = suc t.next_handle })
          else (none, entered))
      else (none, t)

  unfoldable pub error_calls : ℕ → Option Failure → Bool → ObservabilityConfig → List ApiCall
  error_calls span none failed config = if failed then status_set span ∷ [] else []
  error_calls span (some error) failed config =
      let details = error_fields error config in
      event_added span (
        (text "exception.type", field (text "error.type") details)
        ∷ (text "exception.message", field (text "error.message") details)
        ∷ (text "exception.stacktrace", field (text "error.stack") details)
        ∷ (text "exception.escaped", Value.bool false)
        ∷ [])
      ∷ status_set span
      ∷ []

  unfoldable pub end_span : Option ℕ → Option Failure → Bool → Tracing → Tracing
  end_span none error failed t = t
  end_span (some span) error failed t =
      attempt (text "otel.span_end")
        (error_calls span error failed t.config ++ span_exited span error ∷ []) t

  -- `recording` says whether there is a current span that records.
  unfoldable pub set_span_attributes : Bool → Dict Value → Tracing → Tracing
  set_span_attributes recording values t =
      if recording
      then attempt (text "otel.span_attribute") (map (λ item. attribute_set item.0 item.1) values) t
      else t

  unfoldable pub safe_metric : Instrument → Amount → Dict Scalar → Tracing → Tracing
  safe_metric instrument value attributes t =
      if has_instrument instrument t.instruments
      then attempt (text "otel.metric_record") (recorded instrument value attributes ∷ []) t
      else t

  unfoldable pub record_request : Float → Dict Value → Tracing → Tracing
  record_request duration_seconds attributes t =
      let bounded = metric_attributes lower attributes t.config in
      safe_metric request_duration (seconds duration_seconds) bounded
        (safe_metric request_count (whole 1) bounded t)

  unfoldable pub record_operation : Float → Dict Value → Tracing → Tracing
  record_operation duration_seconds attributes t =
      let bounded = metric_attributes lower attributes t.config in
      safe_metric operation_duration (seconds duration_seconds) bounded
        (safe_metric operation_count (whole 1) bounded t)

  unfoldable pub record_error : Dict Value → Tracing → Tracing
  record_error attributes t =
      safe_metric error_count (whole 1) (metric_attributes lower attributes t.config) t

  abbrev pub of_kind : Text → Dict Scalar
  of_kind kind = (text "operation.kind", Scalar.str kind) ∷ []

  unfoldable pub record_dropped : Text → ℕ → Tracing → Tracing
  record_dropped kind count t = safe_metric dropped_count (whole count) (of_kind kind) t

  unfoldable pub record_exporter_failure : Text → ℕ → Tracing → Tracing
  record_exporter_failure kind count t =
      safe_metric exporter_failure_count (whole count) (of_kind kind) t

-- The measurements that the runtime asks for.
pub data Measurement : Type 0 where
  of_request : Float → Dict Value → Measurement
  of_operation : Float → Dict Value → Measurement
  of_error : Dict Value → Measurement
  of_dropped : Text → ℕ → Measurement
  of_exporter_failure : Text → ℕ → Measurement

module _ (returns : List ApiCall → ApiCall → Bool) (lower : Text → Text) where
  unfoldable pub measure : Measurement → Tracing → Tracing
  measure (of_request duration attributes) t = record_request returns lower duration attributes t
  measure (of_operation duration attributes) t =
      record_operation returns lower duration attributes t
  measure (of_error attributes) t = record_error returns lower attributes t
  measure (of_dropped kind count) t = record_dropped returns lower kind count t
  measure (of_exporter_failure kind count) t = record_exporter_failure returns lower kind count t

  unfoldable pub measure_each : List Measurement → Tracing → Tracing
  measure_each [] t = t
  measure_each (m ∷ ms) t = measure_each ms (measure m t)
