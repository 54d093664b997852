-- ===== src/Runtime/Operations.antt =====
-- policyengine_observability/runtime.py: operations and child spans, and the scopes that start and
-- finish them, with the context of another process or without.
pub mod Kept
use policyengine_observabili.Base.{
  ℕ, Text, text, ◌++◌, Dict, lookup, update, pos, Float, finite, max_float, Bool, true, false, not,
  ◌&&◌, ◌||◌, ◌==◌, is_some, is_empty, if◌then◌else◌, Option, none, some, List, [], ◌∷◌, length,
  nat_eq,
}
use policyengine_observabili.Value.{Value, Failure}
use policyengine_observabili.Config.{ObservabilityConfig, local_attribute_keys}
use policyengine_observabili.Schema.{Scalar, RecordInput, normalize_attributes}
use policyengine_observabili.Otel.{captured_at_is_recent}
use policyengine_observabili.Runtime.Rules.{valid_request_id, traceparent_header}
use policyengine_observabili.Runtime.State.{
  OperationState, SpanStart, operation_recorded, error_recorded, span_started, span_ended, reported,
  Runtime, read, active_request, ask, store_operation, count_omitted, values_of, optional_text,
  select, active_dispatch_attributes, metric_base, emit_record,
}
use policyengine_observabili.Runtime.Outside.{Outside}

abbrev pub tracestate_header : Text
tracestate_header = text "tracestate"

-- The arguments of `operation` and `span`; `remote_context` is empty where it is `None`.
pub record Scope : Type 0 where
  pub is_operation : Bool
  pub name : Text
  pub attributes : Dict Value
  pub remote_context : Dict Value
  pub independent_retry : Bool
  pub aggregate : Bool

-- `_ChildSpanState`
pub record ChildSpanState : Type 0 where
  pub name : Text
  pub start_time : Float
  pub span : Option ℕ

-- The state that a scope manager holds.
pub data Held : Type 0 where
  held_operation : Option ℕ → Held
  held_span : ChildSpanState → Held

-- What the remote context makes of a new operation.
pub record Origin : Type 0 where
  pub request_id : Option Text
  pub parent_context : Option ℕ
  pub links : List ℕ
  pub safe : Dict Scalar
  pub consumer : Bool

abbrev pub local_origin : Dict Scalar → Origin
local_origin safe = record {
  request_id = none;
  parent_context = none;
  links = [];
  safe = safe;
  consumer = false;
}

abbrev pub optional_value : Option Value → Value
optional_value none = Value.null
optional_value (some v) = v

module _ (w : Outside) where
  -- `key.lower() in {TRACEPARENT_HEADER, TRACESTATE_HEADER}`
  abbrev pub is_trace_header : Text → Bool
  is_trace_header key = w.lower key == traceparent_header || w.lower key == tracestate_header

  -- The trace headers with `str` of their values, if it does not raise.
  unfoldable pub carrier_of : Dict Value → Option (Dict Text)
  carrier_of [] = some []
  carrier_of ((key, value) ∷ remote) =
      let rest = carrier_of remote in
      if is_trace_header key
      then elim (w.printed value) [
        | none ↦ none
        | some t ↦ elim rest [ none ↦ none | some carrier ↦ some ((key, t) ∷ carrier) ]
      ]
      else rest

  -- A recent caller is the parent, unless the scope retries on its own or gathers several callers.
  unfoldable pub is_direct : Scope → Runtime → Bool
  is_direct scope r =
      not scope.independent_retry
      && (not scope.aggregate
          && captured_at_is_recent (w.from_iso r.effects)
              (optional_value (lookup (text "captured_at") scope.remote_context))
              r.config.limits.async_parent_max_age_seconds)

  unfoldable pub remote_attributes : Dict Value → ObservabilityConfig → Dict Scalar × ℕ
  remote_attributes remote config =
      normalize_attributes w.lower (select config.dispatch_attribute_keys remote) config
        (some config.dispatch_attribute_keys)

  unfoldable pub origin_from : Scope → Dict Text → Dict Scalar → Runtime → Origin
  origin_from scope carrier safe r =
      let direct = is_direct scope r in
      record {
        request_id =
            valid_request_id (optional_value (lookup (text "request_id") scope.remote_context));
        parent_context = if direct then w.extract carrier else w.empty_context;
        links = if direct then [] else elim (w.link carrier) [ none ↦ [] | some link ↦ link ∷ [] ];
        safe = safe;
        consumer = true;
      }

  -- The end of `_start_operation`: the span is started, and the new state is made the active one.
  unfoldable pub open_operation : Float → Text → Origin → Runtime → Option ℕ × Runtime
  open_operation now name origin r =
      let safe = update origin.safe (active_dispatch_attributes r) in
      let opening : SpanStart = record {
        name = name;
        consumer = origin.consumer;
        attributes =
            update
              ((text "operation.name", Value.str name)
                ∷ (text "operation.kind", Value.str (text "operation"))
                ∷ [])
              (values_of safe);
        parent_context = origin.parent_context;
        links = origin.links;
      } in
      (
        some (length r.operations),
        record r {
          operations =
              r.operations
              ++ record {
                name = name;
                kind = text "operation";
                request_id = elim origin.request_id [
                  | some id ↦ some id
                  | none ↦ elim (active_request r) [ none ↦ none | some s ↦ some s.request_id ]
                ];
                start_time = now;
                span = w.start_span r.effects opening;
                token = some (record { context = r.here; previous = r.operation });
                attributes = safe;
                error = none;
                completed = false;
              }
                ∷ [];
          operation = some (length r.operations);
          effects = r.effects ++ span_started opening ∷ [];
        },
      )

  -- No state is returned where an exception leaves it.
  unfoldable pub start_operation : Float → Scope → Runtime → Option ℕ × Runtime
  start_operation now scope r =
      let own =
        normalize_attributes w.lower scope.attributes r.config (local_attribute_keys r.config) in
      let counted = count_omitted own.1 r in
      if is_empty scope.remote_context
      then open_operation now scope.name (local_origin own.0) counted
      else let far = remote_attributes scope.remote_context r.config in
        let counted_far = count_omitted far.1 counted in
        elim (carrier_of scope.remote_context) [
          | none ↦ (none, counted_far)
          | some carrier ↦
              open_operation now scope.name
                (origin_from scope carrier (update far.0 own.0) counted_far) counted_far
        ]

  -- `_operation_state.reset` raises in another context than the token's.
  unfoldable pub reset_operation : OperationState → Runtime → Runtime
  reset_operation s r = elim s.token [
    | none ↦ r
    | some token ↦
        if nat_eq token.context r.here
        then record r { operation = token.previous }
        else ask (reported (text "operation.context_reset")) r
  ]

  abbrev pub operation_outcome : OperationState → Text
  operation_outcome s = if is_some s.error then text "error" else text "success"

  unfoldable pub operation_context : Float → OperationState → Runtime → Dict Value
  operation_context took s r =
      update
        ((text "operation.name", Value.str s.name)
          ∷ (text "operation.kind", Value.str s.kind)
          ∷ (text "request.id", optional_text s.request_id)
          ∷ (text "duration_ms", Value.float (w.milliseconds took))
          ∷ (text "outcome", Value.str (operation_outcome s))
          ∷ [])
        (w.correlation r.effects)

  abbrev pub operation_input : Float → OperationState → Runtime → RecordInput
  operation_input took s r = record {
    severity = if is_some s.error then text "ERROR" else text "INFO";
    event_name = some (text "operation.completed");
    message = none;
    context = operation_context took s r;
    attributes = values_of s.attributes;
    error = s.error;
  }

  unfoldable pub operation_metrics : OperationState → Runtime → Dict Value
  operation_metrics s r = update (metric_base r) (
      (text "operation.name", Value.str s.name)
      ∷ (text "operation.kind", Value.str s.kind)
      ∷ (text "outcome", Value.str (operation_outcome s))
      ∷ [])

  -- `_finish_operation` after its test, on the state that it has completed.
  unfoldable pub conclude_operation : Option ℕ → OperationState → Runtime → Runtime
  conclude_operation o s r =
      let took = max_float (finite (pos 0) 0) (w.since r.effects s.start_time) in
      let stored = store_operation o s r in
      let emitted_ = emit_record (operation_input took s stored) stored in
      let metrics = operation_metrics s r in
      let measured = ask (operation_recorded took metrics) emitted_ in
      let counted = if is_some s.error then ask (error_recorded metrics) measured else measured in
      reset_operation s (ask (span_ended s.span s.error false) counted)

  -- `error or state.error`; an exception is true.
  unfoldable pub finished_state : Option Failure → OperationState → OperationState
  finished_state error s = record s {
    completed = true;
    error = elim error [ none ↦ s.error | some e ↦ some e ];
  }

  unfoldable pub finish_operation : Option ℕ → Option Failure → Runtime → Runtime
  finish_operation o error r = elim (read o r.operations) [
    | none ↦ r
    | some s ↦ if s.completed then r else conclude_operation o (finished_state error s) r
  ]

  unfoldable pub start_child_span : Float → Scope → Runtime → ChildSpanState × Runtime
  start_child_span now scope r =
      let own =
        normalize_attributes w.lower scope.attributes r.config (local_attribute_keys r.config) in
      let counted = count_omitted own.1 r in
      let opening : SpanStart = record {
        name = scope.name;
        consumer = false;
        attributes = values_of (update own.0 (active_dispatch_attributes counted));
        parent_context = none;
        links = [];
      } in
      (
        record { name = scope.name; start_time = now; span = w.start_span counted.effects opening },
        ask (span_started opening) counted,
      )

  unfoldable pub finish_child_span : ChildSpanState → Option Failure → Runtime → Runtime
  finish_child_span s error r = ask (span_ended s.span error false) r

  -- `__enter__`: what was started, and the report of a start that raised.
  unfoldable pub enter : Float → Scope → Runtime → Held × Runtime
  enter now scope r =
      let operation = start_operation now scope r in
      let child = start_child_span now scope r in
      if scope.is_operation
      then (
        held_operation operation.0,
        elim operation.0 [
          | none ↦ ask (reported (text "operation.start")) operation.1
          | some o ↦ operation.1
        ],
      )
      else (held_span child.0, child.1)

  -- `__exit__`, which lets the exception go on.
  unfoldable pub exit : Held → Option Failure → Runtime → Runtime
  exit (held_operation o) error r = finish_operation o error r
  exit (held_span s) error r = finish_child_span s error r
