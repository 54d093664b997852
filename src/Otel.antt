-- ===== src/Otel.antt =====
-- policyengine_observability/otel.py: the endpoint of a signal over HTTP, and the age of a captured
-- context; in the children spans, metrics, exporters and providers.
pub mod Endpoint
pub mod Spans
pub mod Exporters
pub mod Providers
pub mod Setup
use policyengine_observabili.Base.{
  nat_eq, Text, text, rstrip, ends_with, replace, ◌++◌, Bool, false, ◌&&◌, if◌then◌else◌, Option,
  none, some, pos, Float, finite, leb_float,
}
use policyengine_observabili.Value.{Value}

abbrev pub signal_path : Text → Text
signal_path signal = text "/v1/" ++ signal

-- `endpoint.rstrip("/")`
abbrev pub without_slashes : Text → Text
without_slashes endpoint = rstrip (nat_eq b'/') endpoint

unfoldable pub http_signal_endpoint : Text → Text → Text
http_signal_endpoint endpoint signal =
    let value = without_slashes endpoint in
    if ends_with (signal_path signal) value then value else value ++ signal_path signal

-- A time that `datetime.fromisoformat` reads: without a zone, or with its age in seconds.
pub data Moment : Type 0 where
  naive : Moment
  aged : Float → Moment

-- `from_iso` is `none` where `fromisoformat` raises.
unfoldable pub captured_at_is_recent : (Text → Option Moment) → Value → Float → Bool
captured_at_is_recent from_iso (Value.str t) max_age_seconds =
    elim (from_iso (replace (text "Z") (text "+00:00") t)) [
      | none ↦ false
      | some naive ↦ false
      | some (aged age) ↦ leb_float (finite (pos 0) 0) age && leb_float age max_age_seconds
    ]
captured_at_is_recent from_iso _ max_age_seconds = false
