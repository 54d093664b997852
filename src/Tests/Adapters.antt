-- ===== src/Tests/Adapters.antt =====
-- Exchanges of an adapter and its installation, at concrete values.
use policyengine_observabili.Base.{
  ℕ, ◌+◌, ◌++◌, Text, text, Dict, pos, finite, Bool, true, false, member, if◌then◌else◌, ◌≡◌, ◌⊎◌,
  refl, or_else, none, some, List, [], ◌∷◌,
}
use policyengine_observabili.Runtime.State.Keeps.{Keeps}
use policyengine_observabili.Runtime.Calls.{Call}
use policyengine_observabili.Runtime.Calls.Counts.{completions, of_request}
use policyengine_observabili.Adapters.Fastapi.{
  AsgiScope, response_start, response_body, Step, matches, calls, sends, serve, merge_headers,
}
use policyengine_observabili.Adapters.Fastapi.Served.{events_of, serve-completions}
use policyengine_observabili.Adapters.Fastapi.Headers.{named, names, named-merge_headers}
use policyengine_observabili.Adapters.Flask.{Registry, App, Callbacks, instrument_flask}
use policyengine_observabili.Adapters.Flask.Installed.{
  Registers, SameApp, IsInstalled, instrument_flask-whole,
}
use policyengine_observabili.Tests.Records.{same, failure}
use policyengine_observabili.Tests.Contexts.{uuid, runtime, outside}

abbrev scope : AsgiScope
scope = record {
  type = some (text "http");
  method = some (text "GET");
  headers = (some (text "x"), some (text "1")) ∷ (none, none) ∷ [];
  path = none;
}

-- The application sends its last message twice, and then raises.
abbrev app : List Step
app =
    matches (text "/a")
    ∷ sends (response_start (pos 200) []) true
    ∷ calls (Call.exception failure true none)
    ∷ sends (response_body true) true
    ∷ sends (response_body false) true
    ∷ sends (response_body false) true
    ∷ []

serve-completions_example :
    Keeps runtime
      (serve outside uuid (finite (pos 0) 0) (some 1) 4 scope app (some failure) runtime).runtime
    × (completions of_request
          (serve outside uuid
            (finite (pos 0) 0)
            (some 1)
            4
            scope
            app
            (some failure)
            runtime).runtime.effects
        ≡ 1 + events_of app + completions of_request runtime.effects)
serve-completions_example =
    serve-completions outside uuid (finite (pos 0) 0) (some 1) 4 scope app (some failure) runtime
      refl refl

abbrev given : List (Text × Text)
given = (text "a", text "1") ∷ (text "b", text "2") ∷ (text "a", text "3") ∷ []

abbrev added : Dict Text
added = (text "b", text "4") ∷ []

named-merge_headers_example : named same (text "a") (merge_headers same given added) ≡ (
    if member (text "a") (names same (text "a") added)
    then named same (text "a") added
    else named same (text "a") given)
named-merge_headers_example = named-merge_headers same (text "a") given added

abbrev register : ℕ → Registry → Registry × Bool
register callback registry =
    (record registry { own = some (or_else registry.own [] ++ callback ∷ []) }, true)

register-Registers : Registers register
register-Registers callback registry h = refl

abbrev empty : Registry
empty = record { own = none; blueprints = [] }

abbrev flask_app : App
flask_app = record {
  before_request_funcs = record { own = some (7 ∷ []); blueprints = [] };
  after_request_funcs = empty;
  teardown_request_funcs = empty;
  extension = none;
  reports = [];
}

abbrev callbacks : Callbacks
callbacks = record { begin_observed = 1; finish_observed = 2; close_observed = 3 }

instrument_flask-whole_example :
    SameApp (instrument_flask register callbacks false 5 flask_app).1 flask_app
    ⊎ IsInstalled register callbacks 5 flask_app
        (instrument_flask register callbacks false 5 flask_app).1
instrument_flask-whole_example =
    instrument_flask-whole register callbacks false 5 flask_app register-Registers refl refl refl
