-- ===== src/Runtime/Construction.antt =====
-- policyengine_observability/runtime.py: the constructor and `restart_after_snapshot`. `stdout` is the
-- strategy `StdoutLogDestination()`, `add` is `Logger.addHandler`, and `returns` says which calls of
-- the OpenTelemetry SDK return. `OTelRuntime` lets no exception out, so what `_new_otel` does with
-- one is left out.
pub mod Ready
use policyengine_observabili.Base.{
  ℕ, Text, text, ◌++◌, contains, ends_with, Bool, true, false, ◌||◌, if◌then◌else◌, Option, none,
  some, List, [], ◌∷◌, map,
}
use policyengine_observabili.Config.{ObservabilityConfig, config_warnings}
use policyengine_observabili.Config.Validation.{Outcome, passes, raises, ConfigError}
use policyengine_observabili.Diagnostics.{Diagnostics, add_listener}
use policyengine_observabili.Diagnostics
use policyengine_observabili.Delivery.Queued.{reported}
use policyengine_observabili.Delivery.Manager.{Strategy, Manager, is_silent}
use policyengine_observabili.Delivery.Manager
use policyengine_observabili.Otel.Setup.{Setup, SetupStep}
use policyengine_observabili.Otel.Setup
use policyengine_observabili.Otel.Spans.{Measurement, of_dropped, of_exporter_failure}
use policyengine_observabili.Runtime.Logging.{Handler, Logging, instrument_logging}

-- `ObservabilityRuntime`. `reports` are those that the delivery and the OpenTelemetry runtime do not
-- make themselves.
pub record Standing (R E : Type 0) : Type 0 where
  pub closed : Bool
  pub diagnostics : Diagnostics
  pub delivery : Manager R E
  pub otel : Setup
  pub request : Option ℕ
  pub operation : Option ℕ
  pub logging : Logging
  pub reports : List Text

-- The settings that the constructor reads of `config` and `config.logging`.
pub record Settings (R E : Type 0) : Type 0 where
  pub config : ObservabilityConfig
  pub destinations : List (Strategy R E)
  pub capture_standard_library : Bool
  pub replace_existing_handlers : Bool

-- A runtime, the errors of the configuration, or an exception of the last attempt at a delivery.
pub data Constructed (R E : Type 0) : Type 0 where
  built : Standing R E → Constructed R E
  refused : List ConfigError → Constructed R E
  undelivered : Constructed R E

-- `_record_diagnostic_metric`
unfoldable pub diagnostic_metric : Text → ℕ → List Measurement
diagnostic_metric name value =
    if contains (text "dropped") name || ends_with (text "queue_full") name
    then of_dropped name value ∷ []
    else if contains (text "export_failure") name
    then of_exporter_failure name value ∷ []
    else []

abbrev pub warning_reports : List Text → List Text
warning_reports warnings = map (λ w. text "configuration") warnings

module _ {R E : Type 0} (stdout : Strategy R E) where
  -- A delivery that is made has a destination: the last statement of its constructor raises where
  -- standard output, the last resort, is not built.
  abbrev pub made : Manager R E → Option (Manager R E)
  made m = if is_silent m then none else some m

  abbrev pub noted : Manager R E → Manager R E → Manager R E
  noted before m = record m {
    notes = before.notes ++ (reported (text "delivery.configure") ∷ m.notes);
  }

  -- `_new_delivery`
  unfoldable pub new_delivery : List (Strategy R E) → E → Option (Manager R E)
  new_delivery strategies e =
      let first = Manager.configure stdout strategies e in
      elim (made first) [
        | some m ↦ some m
        | none ↦ made (noted first (Manager.configure stdout (stdout ∷ []) first.world))
      ]

module _ {R E : Type 0} (stdout : Strategy R E) (add : Handler → List Handler → List Handler × Bool)
    (returns : SetupStep → Bool) (me : ℕ) where
  -- The end of the constructor; the root logger is the first.
  unfoldable pub capture_logging : Bool → Bool → Standing R E → Standing R E
  capture_logging false replace r = r
  capture_logging true replace r =
      let (handler, logging) = instrument_logging add me 0 replace r.logging in
      record r {
        logging = logging;
        reports =
            r.reports
            ++ (elim handler [ some h ↦ [] | none ↦ text "logging.handler_install" ∷ [] ]);
      }

  -- The attributes that the constructor sets, and the reports of the configuration's warnings.
  abbrev pub started : Diagnostics → Settings R E → Logging → Manager R E → Standing R E
  started diagnostics settings logging delivery = record {
    closed = false;
    diagnostics = add_listener me diagnostics;
    delivery = delivery;
    otel = Setup.configure returns settings.config;
    request = none;
    operation = none;
    logging = record logging { registered = [] };
    reports = warning_reports (config_warnings settings.config);
  }

  -- `diagnostics` is `Diagnostics(...)`, and the `Outcome` is how `config.validate()` ends.
  unfoldable pub construct : Diagnostics → Outcome → Settings R E → Logging → E → Constructed R E
  construct diagnostics (raises errors) settings logging e = refused errors
  construct diagnostics passes settings logging e =
      elim (new_delivery stdout settings.destinations e) [
        | none ↦ undelivered
        | some delivery ↦ built (
            capture_logging settings.capture_standard_library settings.replace_existing_handlers
              (started diagnostics settings logging delivery))
      ]

  -- The loop over the handlers; `locks` says whether `createLock` returns.
  unfoldable pub lock_reports : (Handler → Bool) → List (ℕ × Handler) → List Text
  lock_reports locks [] = []
  lock_reports locks ((logger, handler) ∷ rest) =
      (if locks handler then [] else text "process.logging_handler_lock" ∷ [])
      ++ lock_reports locks rest

  -- The statements of `restart_after_snapshot` before and after its call of `_new_delivery`.
  abbrev pub cleared : (Handler → Bool) → Standing R E → Standing R E
  cleared locks r = record r {
    diagnostics = Diagnostics.restart_after_process_duplication r.diagnostics;
    request = none;
    operation = none;
    reports = r.reports ++ lock_reports locks r.logging.registered;
  }

  abbrev pub reopened : Settings R E → Manager R E → Standing R E → Standing R E
  reopened settings delivery r = record r {
    closed = false;
    delivery = delivery;
    otel = Setup.configure returns settings.config;
  }

  -- `false` is an exception.
  unfoldable pub restart_after_snapshot :
      (Handler → Bool) → Settings R E → Standing R E → Bool × Standing R E
  restart_after_snapshot locks settings r =
      elim (new_delivery stdout settings.destinations r.delivery.world) [
        | none ↦ (false, cleared locks r)
        | some delivery ↦ (true, reopened settings delivery (cleared locks r))
      ]
