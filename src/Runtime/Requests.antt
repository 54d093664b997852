-- ===== src/Runtime/Requests.antt =====
-- policyengine_observability/runtime.py: the calls that begin, change and end the request of a
-- context, and the headers that the request contributes.
pub mod Nesting
pub mod Counts
pub mod Propagation
use policyengine_observabili.Base.{
  ℕ, Text, text, ◌++◌, Dict, lookup, insert, update, ℤ, pos, Float, finite, max_float, true, false,
  ◌==◌, is_some, is_empty, if◌then◌else◌, Option, none, some, or_else, [], ◌∷◌, length, nat_eq,
}
use policyengine_observabili.Value.{Value, Failure}
use policyengine_observabili.Schema.{RecordInput}
use policyengine_observabili.Runtime.Rules.{
  outcome, status_class, request_id, header_value, header, request_id_header, traceparent_header,
}
use policyengine_observabili.Runtime.Outside.{Outside}
use policyengine_observabili.Runtime.State.{
  RequestState, span_attributes, request_recorded, error_recorded, span_ended, reported, Runtime,
  active_request, active_operation, ask, store_request, values_of, optional_int, metric_base,
  emit_record,
}

-- What starting the request's span gives: a handle, or an exception on the way.
pub data Started : Type 0 where
  started : Option ℕ → Started
  start_failed : Started

module _ (lower upper : Text → Text) where
  -- `now` is the clock's reading; the identifier is returned whether the request begins or not.
  unfoldable pub begin_request :
      Text → Float → Started → Dict Text → Text → Text → Runtime → Text × Runtime
  begin_request uuid now (started span) headers method route r =
      let id = request_id uuid (header (header_value lower headers request_id_header)) in
      (
        id,
        record r {
          requests =
              r.requests
              ++ record {
                request_id = id;
                method = upper method;
                route = route;
                start_time = now;
                span = span;
                token = some (record { context = r.here; previous = r.request });
                status_code = none;
                attributes = [];
                error = none;
                completed = false;
                route_reader = none;
              }
                ∷ [];
          request = some (length r.requests);
        },
      )
  begin_request uuid now start_failed headers method route r = (
    request_id uuid (header (header_value lower headers request_id_header)),
    ask (reported (text "request.begin")) r,
  )

-- The identifier that an outgoing call carries: the request's, or else the operation's.
unfoldable pub carried_id : Runtime → Option Text
carried_id r = elim (active_request r) [
  | some s ↦ some s.request_id
  | none ↦ elim (active_operation r) [ some s ↦ s.request_id | none ↦ none ]
]

-- `inject` is what the providers' propagator adds to the headers.
unfoldable pub inject_http_headers : (Dict Text → Dict Text) → Dict Text → Runtime → Dict Text
inject_http_headers inject headers r =
    let injected = inject headers in
    if is_some (lookup request_id_header injected) then injected else elim (carried_id r) [
      | none ↦ injected
      | some id ↦ if is_empty id then injected else insert request_id_header id injected
    ]

unfoldable pub update_request_route : Text → Runtime → Runtime
update_request_route route r = elim (active_request r) [
  | none ↦ r
  | some s ↦
      if s.completed
      then r
      else ask (span_attributes ((text "http.route", Value.str route) ∷ []))
          (store_request (record s { route = route }) r)
]

unfoldable pub update_request_status : ℤ → Runtime → Runtime
update_request_status status r = elim (active_request r) [
  | none ↦ r
  | some s ↦ if s.completed then r else store_request (record s { status_code = some status }) r
]

unfoldable pub set_request_route_reader : ℕ → Runtime → Runtime
set_request_route_reader reader r = elim (active_request r) [
  | none ↦ r
  | some s ↦ if s.completed then r else store_request (record s { route_reader = some reader }) r
]

-- `inject` is what the propagator adds to an empty carrier.
unfoldable pub response_headers : (Dict Text → Dict Text) → Runtime → Dict Text
response_headers inject r = elim (active_request r) [
  | none ↦ []
  | some s ↦
      (let own : Dict Text = (request_id_header, s.request_id) ∷ [] in
        elim (lookup traceparent_header (inject [])) [
          | none ↦ own
          | some parent ↦ insert traceparent_header parent own
        ])
]

-- `ContextVar.reset` raises in another context than the one where the token was made.
unfoldable pub reset_request : RequestState → Runtime → Runtime
reset_request s r = elim s.token [
  | none ↦ r
  | some token ↦
      if nat_eq token.context r.here
      then record r { request = token.previous }
      else ask (reported (text "request.context_reset")) r
]

-- `status_code if status_code is not None else state.status_code`
abbrev pub either {ℓ} : {A : Type ℓ} → Option A → Option A → Option A
either none b = b
either (some a) b = some a

-- The state that `end_request` leaves: completed, with its code and its exception.
unfoldable pub completed_state : Option ℤ → Option Failure → RequestState → RequestState
completed_state status error s =
    let resolved = either status s.status_code in
    record s {
      completed = true;
      status_code = resolved;
      error =
          if is_some error
          then error
          else if outcome resolved none == text "error"
          then s.error
          else none;
    }

module _ (w : Outside) where
  abbrev pub duration : Runtime → RequestState → Float
  duration r s = max_float (finite (pos 0) 0) (w.since r.effects s.start_time)

  -- The fields of the record `request.completed`.
  unfoldable pub completed_context : Text → Float → RequestState → Runtime → Dict Value
  completed_context result took s r =
      update
        ((text "request.id", Value.str s.request_id)
          ∷ (text "http.request.method", Value.str s.method)
          ∷ (text "http.route", Value.str s.route)
          ∷ (text "http.response.status_code", optional_int s.status_code)
          ∷ (text "duration_ms", Value.float (w.milliseconds took))
          ∷ (text "outcome", Value.str result)
          ∷ [])
        (w.correlation r.effects)

  unfoldable pub request_metrics : Text → RequestState → Runtime → Dict Value
  request_metrics result s r = update (metric_base r) (
      (text "http.route", Value.str s.route)
      ∷ (text "http.request.method", Value.str s.method)
      ∷ (text "http.response.status_code_class", Value.str (status_class s.status_code))
      ∷ (text "operation.kind", Value.str (text "request"))
      ∷ (text "outcome", Value.str result)
      ∷ [])

  abbrev pub ended_span_attributes : Text → RequestState → Dict Value
  ended_span_attributes result s =
      (text "http.route", Value.str s.route)
      ∷ (text "http.response.status_code", Value.int (or_else s.status_code (pos 0)))
      ∷ (text "policyengine.request.id", Value.str s.request_id)
      ∷ (text "policyengine.outcome", Value.str result)
      ∷ []

  abbrev pub completed_input : Text → Float → RequestState → Runtime → RecordInput
  completed_input result took s r = record {
    severity = if result == text "error" then text "ERROR" else text "INFO";
    event_name = some (text "request.completed");
    message = none;
    context = completed_context result took s r;
    attributes = values_of s.attributes;
    error = s.error;
  }

  -- `end_request` after its test, on the state that it has completed.
  unfoldable pub conclude : Text → RequestState → Runtime → Runtime
  conclude result s r =
      let took = duration r s in
      let stored = store_request s r in
      let described = ask (span_attributes (ended_span_attributes result s)) stored in
      let emitted_ = emit_record (completed_input result took s described) described in
      let metrics = request_metrics result s r in
      let measured = ask (request_recorded took metrics) emitted_ in
      let counted =
        if result == text "error" then ask (error_recorded metrics) measured else measured in
      reset_request s (ask (span_ended s.span s.error (result == text "error")) counted)

  unfoldable pub end_request : Option ℤ → Option Failure → Runtime → Runtime
  end_request status error r = elim (active_request r) [
    | none ↦ r
    | some s ↦
        if s.completed
        then r
        else conclude (outcome (either status s.status_code) error) (completed_state status error s)
            r
  ]
