-- ===== src/Tests/Reports.antt =====
-- The local diagnostics at a run of five calls, with a second of ten ticks and one sensitive value.
use policyengine_observabili.Base.{
  true, false, ◌*◌, max, Text, text, ◌≡◌, refl, some, Option, none, List, [], ◌∷◌, All,
}
use policyengine_observabili.Value.{Value}
use policyengine_observabili.Diagnostics.{
  Call, increments, reports, restarts, listens, Report, create, run, count, line_body,
}
use policyengine_observabili.Diagnostics.Counts.{tally, count-run}
use policyengine_observabili.Diagnostics.Rate.{IsSpaced, lines-IsSpaced}
use policyengine_observabili.Diagnostics.Redaction.{line_body-clean}
use policyengine_observabili.Schema.Redaction.{IsCleanValue}
use policyengine_observabili.Tests.Records.{secret, secret-IsMaskable}

abbrev printed : Value → Option Text
printed v = none

abbrev export_report : Report
export_report = record {
  operation = text "logging.export";
  error_type = text "OSError";
  error_message = some (text "no hunter2");
  fields = (text "name", Value.str (text "hunter2")) ∷ [];
}

abbrev calls : List Call
calls =
    listens 1
    ∷ reports export_report 5 (text "t0") true
    ∷ restarts
    ∷ increments (text "logs.export_failure") 2
    ∷ reports export_report 9 (text "t1") false
    ∷ []

count-run_example :
    count (text "logs.export_failure") (run printed calls (create 10 60 (secret ∷ [])))
    ≡ tally
        (text "logs.export_failure")
        (count (text "logs.export_failure") (create 10 60 (secret ∷ [])))
        calls
count-run_example =
    count-run printed (text "logs.export_failure") calls (create 10 60 (secret ∷ []))

lines-IsSpaced_example :
    IsSpaced (max 10 (60 * 10)) (run printed calls (create 10 60 (secret ∷ []))).lines
lines-IsSpaced_example = lines-IsSpaced printed 10 60 (secret ∷ []) calls

line_body-clean_example :
    All (λ p. IsCleanValue secret p.1) (line_body printed export_report (text "t0") (secret ∷ []))
line_body-clean_example =
    line_body-clean secret (secret ∷ []) secret-IsMaskable refl refl printed export_report
      (text "t0") refl refl refl refl refl refl
