-- ===== src/Runtime/Calls.antt =====
-- policyengine_observability/runtime.py: the calls that add context and that record events,
-- messages and exceptions, whether a request or an operation is active or not.
pub mod Kept
pub mod Counts
use policyengine_observabili.Base.{
  ℕ, Text, text, Dict, lookup, insert, update, ℤ, Bool, is_some, is_empty, if◌then◌else◌, Option,
  none, some, [], ◌∷◌,
}
use policyengine_observabili.Value.{Value, Failure}
use policyengine_observabili.Config.{local_attribute_keys}
use policyengine_observabili.Schema.{Scalar, normalize_attributes}
use policyengine_observabili.Runtime.Rules.{request_id}
use policyengine_observabili.Runtime.State.{
  RequestState, OperationState, count_omitted, span_attributes, error_recorded, reported, Runtime,
  write, active_request, active_operation, ask, store_request, values_of, metric_base, emit_record,
}
use policyengine_observabili.Runtime.Outside.{Outside, Reading, unreadable, matched}
use policyengine_observabili.Runtime.Requests.{
  either, update_request_route, update_request_status, set_request_route_reader,
}

-- The writes of `record_exception` to the active states.
unfoldable pub note_on_request : Failure → Option ℤ → Runtime → Runtime
note_on_request error status r = elim (active_request r) [
  | none ↦ r
  | some s ↦
      store_request (record s { error = some error; status_code = either status s.status_code }) r
]

unfoldable pub note_on_operation : Failure → Runtime → Runtime
note_on_operation error r = elim (active_operation r) [
  | none ↦ r
  | some s ↦ record r {
    operations = write r.operation (record s { error = some error }) r.operations;
  }
]

unfoldable pub note_exception : Failure → Option ℤ → Runtime → Runtime
note_exception error status r = note_on_operation error (note_on_request error status r)

-- `set_context`: the operation's attributes where there is one, else the request's.
unfoldable pub add_attributes : Dict Scalar → Runtime → Runtime
add_attributes safe r = elim (active_operation r) [
  | some s ↦ record r {
    operations =
        write r.operation (record s { attributes = update s.attributes safe }) r.operations;
  }
  | none ↦ elim (active_request r) [
    | some s ↦ store_request (record s { attributes = update s.attributes safe }) r
    | none ↦ r
  ]
]

-- The route of the request, unless the reader finds another, and the context after the reading.
unfoldable pub route_read : Reading → RequestState → Runtime → Text × Runtime
route_read unreadable s r = (s.route, ask (reported (text "request.route_read")) r)
route_read (matched none) s r = (s.route, r)
route_read (matched (some route)) s r = (if is_empty route then s.route else route, r)

module _ (w : Outside) where
  unfoldable pub current_request_route : RequestState → Runtime → Text × Runtime
  current_request_route s r = elim s.route_reader [
    | none ↦ (s.route, r)
    | some reader ↦ route_read (w.read_route r.effects reader) s r
  ]

  unfoldable pub request_fields : Runtime → Dict Value × Runtime
  request_fields r = elim (active_request r) [
    | none ↦ ([], r)
    | some s ↦
        (let route = current_request_route s r in
          (
            (text "request.id", Value.str s.request_id)
                ∷ (text "http.request.method", Value.str s.method)
                ∷ (text "http.route", Value.str route.0)
                ∷ [],
            route.1,
          ))
  ]

  unfoldable pub operation_fields : Option OperationState → Dict Value → Dict Value
  operation_fields none fields = fields
  operation_fields (some s) fields =
      let named = update fields (
        (text "operation.name", Value.str s.name)
        ∷ (text "operation.kind", Value.str s.kind)
        ∷ []) in
      elim s.request_id [
        | none ↦ named
        | some id ↦
            if is_empty id
            then named
            else if is_some (lookup (text "request.id") named)
            then named
            else insert (text "request.id") (Value.str id) named
      ]

  -- The fields, and the context after the route was read.
  unfoldable pub active_context_fields : Runtime → Dict Value × Runtime
  active_context_fields r =
      let read = request_fields r in
      (update (operation_fields (active_operation r) read.0) (w.correlation read.1.effects), read.1)

  unfoldable pub record_exception : Failure → Bool → Option ℤ → Runtime → Runtime
  record_exception error handled status r =
      let active = active_context_fields (note_exception error status r) in
      let noted = active.1 in
      let fields = insert (text "error.handled") (Value.bool handled) active.0 in
      let context : Dict Value = elim status [
        | none ↦ fields
        | some code ↦ insert (text "http.response.status_code") (Value.int code) fields
      ] in
      ask
        (error_recorded (
          update (metric_base r) (
            (
              text "operation.kind",
              Value.str (if handled then text "handled" else text "unhandled"),
            )
            ∷ (text "outcome", Value.str (text "error"))
            ∷ [])))
        (emit_record
          (record {
            severity = text "ERROR";
            event_name = some (text "exception.recorded");
            message = none;
            context = context;
            attributes = [];
            error = some error;
          })
          noted)

  unfoldable pub event : Text → Text → Dict Value → Runtime → Runtime
  event name severity attributes r =
      let active = active_context_fields r in
      emit_record
        (record {
          severity = severity;
          event_name = some name;
          message = none;
          context = active.0;
          attributes = attributes;
          error = none;
        })
        active.1

  unfoldable pub log : Text → Text → Dict Value → Option Failure → Runtime → Runtime
  log message severity attributes error r =
      let active = active_context_fields r in
      emit_record
        (record {
          severity = severity;
          event_name = none;
          message = some message;
          context = active.0;
          attributes = attributes;
          error = error;
        })
        active.1

  unfoldable pub set_context : Dict Value → Runtime → Runtime
  set_context attributes r =
      let normal =
        normalize_attributes w.lower attributes r.config (local_attribute_keys r.config) in
      let added = add_attributes normal.0 r in
      count_omitted normal.1
        (if is_empty normal.0 then added else ask (span_attributes (values_of normal.0)) added)

-- The calls on the request and the operation that are active.
pub data Call : Type 0 where
  route : Text → Call
  route_reader : ℕ → Call
  status : ℤ → Call
  exception : Failure → Bool → Option ℤ → Call
  context : Dict Value → Call
  event_named : Text → Text → Dict Value → Call
  message : Text → Text → Dict Value → Option Failure → Call

unfoldable pub apply : Outside → Call → Runtime → Runtime
apply w (Call.route t) r = update_request_route t r
apply w (Call.route_reader reader) r = set_request_route_reader reader r
apply w (Call.status code) r = update_request_status code r
apply w (Call.exception error handled code) r = record_exception w error handled code r
apply w (Call.context attributes) r = set_context w attributes r
apply w (Call.event_named name severity attributes) r = event w name severity attributes r
apply w (Call.message t severity attributes error) r = log w t severity attributes error r
