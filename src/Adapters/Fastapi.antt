-- ===== src/Adapters/Fastapi.antt =====
-- policyengine_observability/adapters/fastapi.py: the middleware that begins and ends the request of
-- an exchange. `scope` is what the server passes; bytes are read by `latin-1`, one code point each.
-- An application is the steps that it takes until it returns or raises; `send` is the server's, and
-- may raise too.
pub mod Served
pub mod Headers
use policyengine_observabili.Base.{
  ℕ, zero, Text, text, ◌++◌, ◌==◌, member, keep, not, Dict, lookup, insert, map, ℤ, pos, Float,
  Bool, true, false, is_some, is_empty, if◌then◌else◌, Option, none, some, or_else, List, [], ◌∷◌,
}
use policyengine_observabili.Value.{Failure}
use policyengine_observabili.Runtime.State.{Runtime}
use policyengine_observabili.Runtime.Outside.{Outside}
use policyengine_observabili.Runtime.Requests.{
  response_headers, set_request_route_reader, update_request_route, end_request,
}
use policyengine_observabili.Runtime.Calls.{Call, apply}
use policyengine_observabili.Runtime.Requests.Nesting
use policyengine_observabili.Runtime.Requests.Nesting.{Body, Request, begin}

-- A header of the scope, each part `none` where it is no bytes. `path` is the path of the route that
-- the framework has matched, where there is one.
pub record AsgiScope : Type 0 where
  pub type : Option Text
  pub method : Option Text
  pub headers : List (Option Text × Option Text)
  pub path : Option Text

pub data Message : Type 0 where
  response_start : ℤ → List (Text × Text) → Message
  response_body : Bool → Message
  other_message : Message

-- What the application does next, in the context of the exchange: the framework matches a route, a call
-- is made, requests and scopes of the application are opened and closed with what is done in them, or
-- a message is sent outside of these, with whether the server's `send` returns.
pub data Step : Type 0 where
  matches : Text → Step
  calls : Call → Step
  runs : Body → Step
  sends : Message → Bool → Step

-- The state of one exchange; `sent` is what the server has got.
pub record Exchange : Type 0 where
  pub runtime : Runtime
  pub path : Option Text
  pub status_code : Option ℤ
  pub completed : Bool
  pub sent : List Message

module _ (lower : Text → Text) where
  unfoldable pub add_header : Option Text × Option Text → Dict Text → Dict Text
  add_header (some raw_key, some value) headers =
      let key = lower raw_key in
      elim (lookup key headers) [
        | none ↦ insert key value headers
        | some before ↦ insert key (before ++ text "," ++ value) headers
      ]
  add_header _ headers = headers

  unfoldable pub add_headers : List (Option Text × Option Text) → Dict Text → Dict Text
  add_headers [] headers = headers
  add_headers (raw ∷ rest) headers = add_headers rest (add_header raw headers)

  abbrev pub headers_from_scope : AsgiScope → Dict Text
  headers_from_scope scope = add_headers scope.headers []

  unfoldable pub merge_headers : List (Text × Text) → Dict Text → List (Text × Text)
  merge_headers existing values =
      let replacements = map (λ value. lower value.0) values in
      keep (λ header. not (member (lower header.0) replacements)) existing ++ values

-- A path that is empty is no route.
unfoldable pub route_from_scope : Option Text → Option Text
route_from_scope none = none
route_from_scope (some path) = if is_empty path then none else some path

-- `status_code or (500 if error else None)`; zero is false.
unfoldable pub final_status : Option ℤ → Option Failure → Option ℤ
final_status none error = if is_some error then some (pos 500) else none
final_status (some (pos zero)) error = if is_some error then some (pos 500) else none
final_status (some code) error = some code

abbrev pub is_http : AsgiScope → Bool
is_http scope = elim scope.type [ none ↦ false | some type ↦ type == text "http" ]

abbrev pub route_to : Option Text → Runtime → Runtime
route_to none r = r
route_to (some route) r = update_request_route route r

module _ (w : Outside) where
  abbrev pub update_route : Exchange → Exchange
  update_route x = record x { runtime = route_to (route_from_scope x.path) x.runtime }

  -- The message with the runtime's headers.
  unfoldable pub observed : Message → Exchange → Message
  observed (response_start status headers) x =
      response_start status
        (merge_headers w.lower headers (response_headers (w.inject (x.runtime).effects) x.runtime))
  observed m x = m

  unfoldable pub before_send : Message → Exchange → Exchange
  before_send (response_start status headers) x =
      update_route (record x { status_code = some status })
  before_send _ x = x

  unfoldable pub after_send : Message → Exchange → Exchange
  after_send (response_body false) x =
      let routed = update_route x in
      record routed { runtime = end_request w x.status_code none routed.runtime; completed = true }
  after_send _ x = x

  -- `send_observed`; what follows `send` is not done where it raises.
  unfoldable pub send_observed : Message → Bool → Exchange → Exchange
  send_observed m delivered x =
      let started = before_send m x in
      if delivered
      then after_send m (record started { sent = x.sent ++ observed m started ∷ [] })
      else started

  unfoldable pub step : Step → Exchange → Exchange
  step (matches path) x = record x { path = some path }
  step (calls c) x = record x { runtime = apply w c x.runtime }
  step (runs body) x = record x { runtime = Nesting.run w body x.runtime }
  step (sends m delivered) x = send_observed m delivered x

  unfoldable pub steps : List Step → Exchange → Exchange
  steps [] x = x
  steps (s ∷ rest) x = steps rest (step s x)

  -- The `finally` of the middleware, with the exception that left the application.
  unfoldable pub finish_exchange : Option Failure → Exchange → Exchange
  finish_exchange error x =
      if x.completed
      then x
      else let routed = update_route x in
        record routed {
          runtime = end_request w (final_status x.status_code error) error routed.runtime;
        }

  -- The arguments of `begin_request`, with what it is given from outside.
  unfoldable pub request_of : Text → Float → Option ℕ → AsgiScope → Request
  request_of uuid now span scope = record {
    uuid = uuid;
    now = now;
    span = span;
    headers = headers_from_scope w.lower scope;
    method = or_else scope.method [];
    route = or_else (route_from_scope scope.path) (text "<unmatched>");
    status = none;
    error = none;
  }

  -- The reader of the scope's route has the handle `reader`.
  unfoldable pub begin_exchange : Request → ℕ → AsgiScope → Runtime → Exchange
  begin_exchange q reader scope r = record {
    runtime = set_request_route_reader reader (begin w q r);
    path = scope.path;
    status_code = none;
    completed = false;
    sent = [];
  }

  -- An exchange of another type is left to the application.
  unfoldable pub pass_on : List Step → Exchange → Exchange
  pass_on [] x = x
  pass_on (matches path ∷ rest) x = pass_on rest (record x { path = some path })
  pass_on (calls c ∷ rest) x = pass_on rest (record x { runtime = apply w c x.runtime })
  pass_on (runs body ∷ rest) x = pass_on rest (record x { runtime = Nesting.run w body x.runtime })
  pass_on (sends m delivered ∷ rest) x =
      pass_on rest (if delivered then record x { sent = x.sent ++ m ∷ [] } else x)

  unfoldable pub serve :
      Text → Float → Option ℕ → ℕ → AsgiScope → List Step → Option Failure → Runtime → Exchange
  serve uuid now span reader scope app error r =
      if is_http scope
      then finish_exchange error
          (steps app (begin_exchange (request_of uuid now span scope) reader scope r))
      else pass_on app (record {
        runtime = r;
        path = scope.path;
        status_code = none;
        completed = false;
        sent = [];
      })
