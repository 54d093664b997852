-- ===== src/Adapters/Httpx.antt =====
-- policyengine_observability/integrations/httpx.py: the hook that adds the correlation headers to the
-- requests of a client. A hook is the runtime that it injects the headers of.
use policyengine_observabili.Base.{
  ℕ, Text, text, Dict, update, Bool, nat_eq, if◌then◌else◌, Option, none, some, List, [], ◌∷◌, ◌++◌,
}
use policyengine_observabili.Runtime.State.{Runtime}
use policyengine_observabili.Runtime.Outside.{Outside}
use policyengine_observabili.Runtime.Requests.{inject_http_headers}

-- `is_client` says whether the object is an `httpx.Client` or `httpx.AsyncClient`.
pub record HttpClient : Type 0 where
  pub is_client : Bool
  pub runtime : Option ℕ
  pub request_hooks : List ℕ
  pub reports : List Text

-- `stores` says whether the client takes the attribute.
unfoldable pub add_hook : Bool → ℕ → HttpClient → HttpClient
add_hook stores me client =
    let hooked = record client { request_hooks = client.request_hooks ++ me ∷ [] } in
    if client.is_client
    then (if stores
        then record hooked { runtime = some me }
        else record hooked { reports = client.reports ++ text "httpx.instrument" ∷ [] })
    else record client { reports = client.reports ++ text "httpx.instrument" ∷ [] }

unfoldable pub instrument_with_runtime : Option ℕ → Bool → ℕ → HttpClient → HttpClient
instrument_with_runtime none stores me client = add_hook stores me client
instrument_with_runtime (some existing) stores me client =
    if nat_eq existing me
    then client
    else record client { reports = client.reports ++ text "httpx.already_instrumented" ∷ [] }

abbrev pub instrument_httpx : Bool → ℕ → HttpClient → HttpClient
instrument_httpx stores me client = instrument_with_runtime client.runtime stores me client

-- The headers of a request after the hook of a runtime.
unfoldable pub inject_request : Outside → Dict Text → Runtime → Dict Text
inject_request w headers r = update headers (inject_http_headers (w.inject r.effects) [] r)
