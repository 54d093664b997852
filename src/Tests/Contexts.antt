-- ===== src/Tests/Contexts.antt =====
-- Contexts, and what is outside of them, at concrete values.
use policyengine_observabili.Base.{
  Text, text, Dict, pos, finite, false, Option, none, some, [], ◌∷◌, length,
}
use policyengine_observabili.Value.{Value}
use policyengine_observabili.Otel.{aged}
use policyengine_observabili.Runtime.State.{Runtime, RequestState}
use policyengine_observabili.Runtime.Outside.{Outside, unreadable}
use policyengine_observabili.Tests.Records.{config, same}

abbrev pub uuid : Text
uuid = text "123e4567-e89b-12d3-a456-426614174000"

abbrev pub headers : Dict Text
headers = (text "traceparent", text "00") ∷ []

abbrev pub runtime : Runtime
runtime = record {
  config = config;
  requests = [];
  operations = [];
  here = 0;
  request = none;
  operation = none;
  effects = [];
}

abbrev pub active : RequestState
active = record {
  request_id = text "abc-1";
  method = text "GET";
  route = text "/";
  start_time = finite (pos 0) 0;
  span = none;
  token = none;
  status_code = none;
  attributes = [];
  error = none;
  completed = false;
  route_reader = none;
}

abbrev pub caller : Runtime
caller = record runtime { requests = active ∷ []; request = some 0 }

-- `str` raises on a value that is not a text, and every reader of routes raises.
abbrev pub printed : Value → Option Text
printed (Value.str t) = some t
printed _ = none

abbrev pub outside : Outside
outside = record {
  lower = same;
  upper = same;
  decimal = λ n. text "1";
  printed = printed;
  from_iso = λ es t. some (aged (finite (pos 1) 0));
  since = λ es x. x;
  milliseconds = λ x. x;
  read_route = λ es reader. unreadable;
  correlation = λ es. [];
  inject = λ es carrier. (text "traceparent", text "00") ∷ carrier;
  extract = λ carrier. some 1;
  link = λ carrier. some 2;
  empty_context = some 0;
  start_span = λ es start. some (length es);
}
