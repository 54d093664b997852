-- ===== src/Otel/Spans/Points.antt =====
-- Which attributes the measurements have.
use policyengine_observabili.Base.{
  Text, text, Dict, Bool, Bool-cases, inl, inr, All, All-append, ◌≡◌, ◌⊎◌, refl, subst, sym, some,
  List, [], ◌∷◌,
}
use policyengine_observabili.Value.{Value}
use policyengine_observabili.Config.{ObservabilityConfig}
use policyengine_observabili.Schema.{Scalar, metric_attributes}
use policyengine_observabili.Schema.Attributes.{IsSafe, normalize_attributes-IsSafe}
use policyengine_observabili.Otel.Spans.{
  Instrument, request_count, request_duration, operation_count, operation_duration, error_count,
  dropped_count, exporter_failure_count, Amount, whole, seconds, ApiCall, recorded, Tracing,
  has_instrument, attempt, safe_metric, record_request, record_operation, record_error, of_kind,
  record_dropped, record_exporter_failure, Measurement, of_request, of_operation, of_error,
  of_dropped, of_exporter_failure, measure, measure_each,
}

module _ (returns : List ApiCall → ApiCall → Bool) (lower : Text → Text)
    (config : ObservabilityConfig) where
  -- An attribute that the configuration admits to metrics, or the kind of a loss.
  abbrev pub IsAdmitted : Text × Scalar → Type 0
  IsAdmitted attribute =
      IsSafe lower config (some config.metric_attribute_keys) attribute
      ⊎ (attribute.0 ≡ text "operation.kind")

  -- A point has only such attributes.
  abbrev pub IsPoint : ApiCall → Type 0
  IsPoint (recorded instrument value attributes) = All IsAdmitted attributes
  IsPoint _ = Unit

  abbrev Measured : Tracing → Type 0
  Measured t = (t.config ≡ config) × All IsPoint t.calls

  admitted :
      (attributes : Dict Scalar)
      → All (IsSafe lower config (some config.metric_attribute_keys)) attributes
      → All IsAdmitted attributes
  admitted [] h = tt
  admitted (a ∷ attributes) h = (inl h.0, admitted attributes h.1)

  bounded-IsAdmitted :
      (attributes : Dict Value) (t : Tracing)
      → t.config ≡ config
      → All IsAdmitted (metric_attributes lower attributes t.config)
  unfolding metric_attributes
  bounded-IsAdmitted attributes t e =
      subst (λ c. All IsAdmitted (metric_attributes lower attributes c)) (sym e)
        (admitted (metric_attributes lower attributes config)
          (normalize_attributes-IsSafe lower config (some config.metric_attribute_keys) attributes))

  safe_metric-Measured :
      (instrument : Instrument) (value : Amount) (attributes : Dict Scalar) (t : Tracing)
      → All IsAdmitted attributes
      → Measured t
      → Measured (safe_metric returns lower instrument value attributes t)
  unfolding safe_metric attempt
  safe_metric-Measured instrument value attributes t a h =
      let more =
        All-append IsPoint t.calls (recorded instrument value attributes ∷ []) h.1 (a, tt) in
      elim (Bool-cases (has_instrument instrument t.instruments)) [
        | inr e ↦ rw e h
        | inl e ↦ elim (Bool-cases (returns t.calls (recorded instrument value attributes))) [
          | inl f ↦ rw e (rw f (h.0, more))
          | inr f ↦ rw e (rw f (h.0, more))
        ]
      ]

  measure-Measured :
      (m : Measurement) (t : Tracing) → Measured t → Measured (measure returns lower m t)
  unfolding measure record_request record_operation record_error record_dropped
      record_exporter_failure
  measure-Measured (of_request d attributes) t h =
      let b = bounded-IsAdmitted attributes t h.0 in
      safe_metric-Measured request_duration (seconds d) _ _ b
        (safe_metric-Measured request_count (whole 1) _ t b h)
  measure-Measured (of_operation d attributes) t h =
      let b = bounded-IsAdmitted attributes t h.0 in
      safe_metric-Measured operation_duration (seconds d) _ _ b
        (safe_metric-Measured operation_count (whole 1) _ t b h)
  measure-Measured (of_error attributes) t h =
      safe_metric-Measured error_count (whole 1) _ t (bounded-IsAdmitted attributes t h.0) h
  measure-Measured (of_dropped kind n) t h =
      safe_metric-Measured dropped_count (whole n) (of_kind returns lower kind) t (inr refl, tt) h
  measure-Measured (of_exporter_failure kind n) t h =
      safe_metric-Measured exporter_failure_count (whole n) (of_kind returns lower kind) t
        (inr refl, tt) h

  -- Whatever is measured, and whether the calls of OpenTelemetry return or raise, a point has no
  -- attribute but "operation.kind" and those whose key is not empty, has no prohibited part and is
  -- one of the metric keys, with a value within the limits, if the points before it have none.
  pub measure_each-IsPoint :
      (ms : List Measurement) (t : Tracing)
      → t.config ≡ config
      → All IsPoint t.calls
      → All IsPoint (measure_each returns lower ms t).calls
  unfolding measure_each
  measure_each-IsPoint [] t e h = h
  measure_each-IsPoint (m ∷ ms) t e h =
      let next = measure-Measured m t (e, h) in
      measure_each-IsPoint ms (measure returns lower m t) next.0 next.1
