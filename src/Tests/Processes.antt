-- ===== src/Tests/Processes.antt =====
-- The identities of processes at two processes and two services, and the endpoint of a signal.
use policyengine_observabili.Base
use policyengine_observabili.Base.{
  ℕ, true, ends_with, Text, text, ◌≡◌, refl, none, some, List, ◌++◌, [], ◌∷◌,
}
use policyengine_observabili.Identity
use policyengine_observabili.Otel.{http_signal_endpoint, signal_path}
use policyengine_observabili.Otel.Endpoint.{http_signal_endpoint_lem}
use policyengine_observabili.Identity.{Call, Table, process_instance_id, run}
use policyengine_observabili.Identity.Stable.{process_instance_id-run}

abbrev decimal : ℕ → Text
decimal n = n ∷ []

abbrev given : Text × Table
given = (
  text "rev:" ++ decimal 7 ++ text ":aa",
  (
    record { process_id = 7; service = text "api"; platform_id = text "rev" },
    text "rev:" ++ decimal 7 ++ text ":aa",
  )
      ∷ [],
)

first_call :
    process_instance_id decimal 7 (text "aa") (text " api ") (some (text "rev")) [] ≡ some given
unfolding process_instance_id Identity.identify Identity.find Identity.set_default
    Identity.platform_of Base.strip
first_call = refl

abbrev later_calls : List Call
later_calls =
    record {
      process_id = 7;
      uuid = text "bb";
      service_name = text "worker";
      platform_instance_id = none;
    }
    ∷ record {
      process_id = 8;
      uuid = text "cc";
      service_name = text "api";
      platform_instance_id = none;
    }
    ∷ []

process_instance_id-run_example :
    process_instance_id decimal 7
      (text "dd")
      (text " api ")
      (some (text "rev"))
      (run decimal later_calls given.1)
    ≡ some (given.0, run decimal later_calls given.1)
process_instance_id-run_example =
    process_instance_id-run decimal 7 (text "aa") (text "dd") (text " api ") (some (text "rev")) []
      given later_calls first_call

abbrev traces : Text
traces = text "traces"

http_signal_endpoint_lem_example :
    (ends_with (signal_path traces) (http_signal_endpoint (text "http://c:4318//") traces) ≡ true)
    × (http_signal_endpoint (http_signal_endpoint (text "http://c:4318//") traces) traces
        ≡ http_signal_endpoint (text "http://c:4318//") traces)
http_signal_endpoint_lem_example = http_signal_endpoint_lem (text "http://c:4318//") traces refl

endpoint_run : http_signal_endpoint (text "http://c:4318//") traces ≡ text "http://c:4318/v1/traces"
unfolding http_signal_endpoint
endpoint_run = refl
