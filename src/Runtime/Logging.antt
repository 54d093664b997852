-- ===== src/Runtime/Logging.antt =====
-- policyengine_observability/runtime.py: the handler that brings the records of Python's logging in,
-- and its installation at a logger and removal. A logger is the list of its handlers. `add` and
-- `remove` are `Logger.addHandler` and `Logger.removeHandler` on that list, with whether they return
-- rather than raise.
pub mod Installed
use policyengine_observabili.Base.{
  ℕ, suc, Text, text, any, starts_with, Dict, Bool, false, if◌then◌else◌, nat_eq, Option, none,
  some, List, [], ◌∷◌, ◌++◌,
}
use policyengine_observabili.Value.{Value, Failure}
use policyengine_observabili.Runtime.State.{reported, Runtime, ask, get, set_at}
use policyengine_observabili.Runtime.Outside.{Outside}
use policyengine_observabili.Runtime.Calls.{log}

-- `logging.LogRecord`: `message` is `none` where `getMessage` raises, and `attributes` is empty
-- where "policyengine_attributes" is no mapping.
pub record LogRecord : Type 0 where
  pub name : Text
  pub levelname : Text
  pub message : Option Text
  pub attributes : Dict Value
  pub error : Option Failure

abbrev pub ignored_prefixes : List Text
ignored_prefixes =
    text "google." ∷ text "grpc" ∷ text "opentelemetry." ∷ text "policyengine_observability." ∷ []

-- `ObservabilityLogHandler.emit`
unfoldable pub handle : Outside → LogRecord → Runtime → Runtime
handle w entry r =
    if any (λ prefix. starts_with prefix entry.name) ignored_prefixes
    then r
    else elim entry.message [
      | none ↦ ask (reported (text "logging.handler_emit")) r
      | some message ↦ log w message entry.levelname entry.attributes entry.error r
    ]

-- A handler, with the runtime that it brings records to if it is one of this package.
pub record Handler : Type 0 where
  pub id : ℕ
  pub runtime : Option ℕ

-- `registered` is the runtime's `_logging_handlers`; `fresh` is the next identity of an object.
pub record Logging : Type 0 where
  pub loggers : List (List Handler)
  pub registered : List (ℕ × Handler)
  pub fresh : ℕ
  pub reports : List Text

abbrev pub is_of : ℕ → Handler → Bool
is_of me h = elim h.runtime [ none ↦ false | some runtime ↦ nat_eq runtime me ]

unfoldable pub installed : ℕ → List Handler → Option Handler
installed me [] = none
installed me (h ∷ handlers) = if is_of me h then some h else installed me handlers

unfoldable pub handlers_of : ℕ → Logging → List Handler
handlers_of logger l = elim (get l.loggers logger) [ none ↦ [] | some handlers ↦ handlers ]

module _ (add : Handler → List Handler → List Handler × Bool) where
  unfoldable pub install : ℕ → ℕ → Bool → Logging → Option Handler × Logging
  install me logger replace l =
      let handler : Handler = record { id = l.fresh; runtime = some me } in
      let previous = handlers_of logger l in
      let added = add handler (if replace then [] else previous) in
      if added.1
      then (
        some handler,
        record l {
          loggers = set_at logger added.0 l.loggers;
          registered = l.registered ++ (logger, handler) ∷ [];
          fresh = suc l.fresh;
        },
      )
      else (
        none,
        record l {
          loggers = set_at logger (if replace then previous else added.0) l.loggers;
          fresh = suc l.fresh;
        },
      )

  -- The handler that is returned, unless an exception leaves the call.
  unfoldable pub instrument_logging : ℕ → ℕ → Bool → Logging → Option Handler × Logging
  instrument_logging me logger replace l = elim (installed me (handlers_of logger l)) [
    | some handler ↦ (some handler, l)
    | none ↦ install me logger replace l
  ]

module _ (remove : Handler → List Handler → List Handler × Bool) where
  unfoldable pub remove_each : List (ℕ × Handler) → Logging → Logging
  remove_each [] l = l
  remove_each ((logger, handler) ∷ rest) l =
      let removed = remove handler (handlers_of logger l) in
      let left = record l { loggers = set_at logger removed.0 l.loggers } in
      remove_each rest (
        if removed.1
        then left
        else record left { reports = l.reports ++ text "logging.handler_remove" ∷ [] })

  unfoldable pub remove_logging_handlers : Logging → Logging
  remove_logging_handlers l = record (remove_each l.registered l) { registered = [] }
