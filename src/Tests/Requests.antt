-- ===== src/Tests/Requests.antt =====
-- Requests nested in one context, and the functions on identifiers and codes, at concrete values.
use policyengine_observabili.Base.{
  ◌+◌, text, ◌≡◌, refl, Dict, ℤ, pos, finite, true, false, none, some, Option, [], ◌∷◌,
}
use policyengine_observabili.Value.{Value, Failure}
use policyengine_observabili.Runtime.State.{active_request, read, get}
use policyengine_observabili.Runtime.State.Keeps.{Keeps}
use policyengine_observabili.Runtime.Rules.{
  matches_request_id, request_id, header_value, request_id_header,
}
use policyengine_observabili.Runtime.Rules.Facts.{request_id-IsMatch}
use policyengine_observabili.Runtime.Requests.{begin_request, started, inject_http_headers}
use policyengine_observabili.Runtime.Calls.{Call}
use policyengine_observabili.Runtime.Calls.Counts.{completions, of_operation}
use policyengine_observabili.Runtime.Operations.{Scope, start_operation}
use policyengine_observabili.Runtime.Capture.{capture_context}
use policyengine_observabili.Runtime.Capture.Handover.{as_values, StartsWith, capture-start}
use policyengine_observabili.Runtime.Requests.Propagation.{begin-inject}
use policyengine_observabili.Runtime.Requests.Nesting.{
  Request, Body, done, call, within, scoped, run, run-Keeps,
}
use policyengine_observabili.Runtime.Requests.Counts.{marks_in, run-completions}
use policyengine_observabili.Tests.Records.{same, failure}
use policyengine_observabili.Tests.Contexts.{uuid, headers, runtime, active, caller, outside}

uuid-matches : matches_request_id uuid ≡ true
unfolding matches_request_id
uuid-matches = refl

request_id-IsMatch_example : matches_request_id (request_id uuid (Value.str (text "bad id"))) ≡ true
request_id-IsMatch_example = request_id-IsMatch uuid (Value.str (text "bad id")) uuid-matches

absent : header_value same headers request_id_header ≡ none
unfolding header_value
absent = refl

abbrev served : ℤ → Option Failure → Request
served code error = record {
  uuid = uuid;
  now = finite (pos 0) 0;
  span = some 1;
  headers = headers;
  method = text "GET";
  route = text "/";
  status = some code;
  error = error;
}

abbrev job : Dict Value → Scope
job remote_context = record {
  is_operation = true;
  name = text "job";
  attributes = [];
  remote_context = remote_context;
  independent_retry = false;
  aggregate = false;
}

-- An operation that cannot start stands within one that an exception leaves.
abbrev body : Body
body =
    within (served (pos 500) none)
      (call (Call.exception failure true (some (pos 500))) (
        scoped (finite (pos 1) 0) (job [])
          (scoped (finite (pos 2) 0) (job ((text "traceparent", Value.null) ∷ []))
            (call (Call.event_named (text "operation.completed") (text "INFO") []) done) none done)
          (some failure)
          (within (served (pos 200) none) (call (Call.route (text "/a")) done)
            (call (Call.status (pos 404)) done))))
      (within (served (pos 200) (some failure)) done done)

run-Keeps_example : Keeps runtime (run outside body runtime)
run-Keeps_example = run-Keeps outside body runtime

run-completions_example :
    completions of_operation (run outside body runtime).effects
    ≡ marks_in of_operation body + completions of_operation runtime.effects
run-completions_example = run-completions of_operation outside body runtime

caller-active : active_request caller ≡ some active
unfolding read get
caller-active = refl

caller-matches : matches_request_id active.request_id ≡ true
unfolding matches_request_id
caller-matches = refl

begin-inject_example :
    (begin_request same same uuid
      (finite (pos 0) 0)
      (started none)
      (inject_http_headers (λ h. h) headers caller)
      (text "GET")
      (text "/")
      runtime).0
    ≡ active.request_id
begin-inject_example =
    begin-inject same same uuid (finite (pos 0) 0) (started none) (text "GET") (text "/") (λ h. h)
      headers caller active runtime caller-active caller-matches absent

capture-start_example : StartsWith outside (some active.request_id) (
    start_operation outside
      (finite (pos 0) 0)
      (record (job []) { remote_context = as_values (capture_context outside (text "now") caller) })
      runtime)
capture-start_example =
    capture-start outside (text "now") caller runtime active (finite (pos 0) 0) true (text "job") []
      false false caller-active caller-matches refl (λ t. refl)
