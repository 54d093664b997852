-- ===== src/Runtime/Outside.antt =====
-- What policyengine_observability/runtime.py is given from outside: Python's conversions and its
-- clock, the readers of routes that an adapter sets, and the OpenTelemetry providers. Their answers
-- may depend on what was asked of them before.
use policyengine_observabili.Base.{ℕ, Text, Dict, ℤ, Float, Option, List}
use policyengine_observabili.Value.{Value}
use policyengine_observabili.Otel.{Moment}
use policyengine_observabili.Runtime.State.{Effect, SpanStart}

-- What a reader of routes does: it raises, or it returns a route or `None`.
pub data Reading : Type 0 where
  unreadable : Reading
  matched : Option Text → Reading

-- `lower` and `upper` are methods of `str`, `decimal` is `str` of an integer, `printed` is `str` of
-- any value, `none` where that raises. `from_iso` is `datetime.fromisoformat` with the age of the
-- time, `since` the time since a reading of the clock and `milliseconds` `round(d * 1_000, 3)`.
-- `correlation` is what the current span contributes, `inject` what the propagator adds, `extract`
-- the context and `link` the link that a carrier gives.
pub record Outside : Type 0 where
  pub lower : Text → Text
  pub upper : Text → Text
  pub decimal : ℤ → Text
  pub printed : Value → Option Text
  pub from_iso : List Effect → Text → Option Moment
  pub since : List Effect → Float → Float
  pub milliseconds : Float → Float
  pub read_route : List Effect → ℕ → Reading
  pub correlation : List Effect → Dict Value
  pub inject : List Effect → Dict Text → Dict Text
  pub extract : Dict Text → Option ℕ
  pub link : Dict Text → Option ℕ
  pub empty_context : Option ℕ
  pub start_span : List Effect → SpanStart → Option ℕ
