-- ===== src/Runtime/Capture.antt =====
-- policyengine_observability/runtime.py: the context that is captured for another process.
pub mod Handover
use policyengine_observabili.Base.{
  ℕ, Text, text, Dict, keep, lookup, insert, take, not, ◌||◌, is_some, is_empty, if◌then◌else◌,
  Option, none, some, List, [], ◌∷◌,
}
use policyengine_observabili.Schema.{Scalar}
use policyengine_observabili.Runtime.State.{Runtime, active_request, active_operation, carried}
use policyengine_observabili.Runtime.Outside.{Outside}
use policyengine_observabili.Runtime.Requests.{carried_id}
use policyengine_observabili.Runtime.Operations.{is_trace_header}

module _ (w : Outside) where
  -- `str(value)` of the values that `capture_context` takes.
  unfoldable pub captured_text : Scalar → Option Text
  captured_text (Scalar.str t) = some t
  captured_text (Scalar.int n) = some (w.decimal n)
  captured_text (Scalar.bool b) = some (if b then text "True" else text "False")
  captured_text (Scalar.float x) = none

  unfoldable pub capture_keys : ℕ → List Text → Dict Scalar → Dict Text → Dict Text
  capture_keys limit [] source captured = captured
  capture_keys limit (key ∷ keys) source captured =
      capture_keys limit keys source (elim (lookup key source) [
        | none ↦ captured
        | some value ↦ elim (captured_text value) [
          | none ↦ captured
          | some t ↦ insert key (take limit t) captured
        ]
      ])

  -- `moment` is the time of the clock in the format of ISO 8601.
  unfoldable pub capture_context : Text → Runtime → Dict Text
  capture_context moment r =
      let stamped =
        insert (text "captured_at") moment
          (keep (λ item. is_trace_header w item.0) (w.inject r.effects [])) in
      let identified : Dict Text = elim (carried_id r) [
        | none ↦ stamped
        | some id ↦
            if is_some (active_request r) || not (is_empty id)
            then insert (text "request_id") id stamped
            else stamped
      ] in
      capture_keys r.config.limits.max_string_length r.config.dispatch_attribute_keys
        (carried (active_request r) (active_operation r)) identified
