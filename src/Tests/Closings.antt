-- ===== src/Tests/Closings.antt =====
-- Shutting a runtime down, and its handler at a logger, at concrete values.
use policyengine_observabili.Base.{
  keep, not, nat_eq, any, arith, ℕ, ◌++◌, Bool, true, false, nan, inf, ◌≡◌, refl, none, some, List,
  [], ◌∷◌, All,
}
use policyengine_observabili.Config.Validation.{passes}
use policyengine_observabili.Diagnostics.{Diagnostics}
use policyengine_observabili.Diagnostics
use policyengine_observabili.Delivery.Manager
use policyengine_observabili.Otel.Setup.{SetupStep, new_setup}
use policyengine_observabili.Runtime.Construction.{
  Standing, Settings, built, construct, restart_after_snapshot,
}
use policyengine_observabili.Runtime.Construction.Ready.{IsReady, construct-IsReady}
use policyengine_observabili.Tests.Records.{config}
use policyengine_observabili.Tests.Destinations.{stdout, broken}
use policyengine_observabili.Runtime.State.{get}
use policyengine_observabili.Runtime.Logging.{
  Handler, Logging, handlers_of, installed, install, instrument_logging,
}
use policyengine_observabili.Runtime.Logging.Installed.{
  Appends, instrument-again, instrument-raised,
}
use policyengine_observabili.Runtime.Shutdown.{
  Closure, Process, Closing, AsksBoth, IsGone, is_same, late, returned, shutdown, shutdowns,
  IsWithinMinute, shutdown-once,
}

abbrev root : Handler
root = record { id = 0; runtime = none }

abbrev logging : Logging
logging = record { loggers = (root ∷ []) ∷ []; registered = []; fresh = 1; reports = [] }

abbrev append : Handler → List Handler → List Handler × Bool
append h handlers = (handlers ++ h ∷ [], true)

abbrev refuse : Handler → List Handler → List Handler × Bool
refuse h handlers = (handlers, false)

append-Appends : Appends append
append-Appends h handlers e = refl

there : get logging.loggers 0 ≡ some (root ∷ [])
unfolding get
there = refl

first : (instrument_logging append 5 0 true logging).0 ≡ some (record { id = 1; runtime = some 5 })
unfolding instrument_logging installed handlers_of get install
first = refl

instrument-again_example :
    instrument_logging append 5 0 false (instrument_logging append 5 0 true logging).1
    ≡ (some (record { id = 1; runtime = some 5 }), (instrument_logging append 5 0 true logging).1)
instrument-again_example =
    instrument-again append 5 0 true false logging (root ∷ []) (record { id = 1; runtime = some 5 })
      append-Appends there first

refused : (instrument_logging refuse 5 0 true logging).0 ≡ none
unfolding instrument_logging installed handlers_of get install
refused = refl

instrument-raised_example :
    ((instrument_logging refuse 5 0 true logging).1.loggers ≡ logging.loggers)
    × ((instrument_logging refuse 5 0 true logging).1.registered ≡ logging.registered)
instrument-raised_example = instrument-raised refuse 5 0 logging (root ∷ []) there refused

abbrev slow : Closure
slow = record {
  logging_seconds = some nan;
  otel_seconds = some inf;
  delivery_raises = true;
  otel_finish = late;
}

abbrev quick : Closure
quick = record {
  logging_seconds = none;
  otel_seconds = none;
  delivery_raises = false;
  otel_finish = returned;
}

-- `removeHandler` on the list of a logger's handlers.
abbrev take_out : Handler → List Handler → List Handler × Bool
take_out h handlers = (keep (λ g. not (nat_eq g.id h.id)) handlers, true)

kept_out :
    (h g : Handler) (handlers : List Handler)
    → (any (is_same h) (take_out h handlers).0 ≡ false)
      × (any (is_same g) handlers ≡ false → any (is_same g) (take_out h handlers).0 ≡ false)
kept_out h g [] = (refl, λ e. refl)
kept_out h g (x ∷ handlers) = ground (arith, kept_out h g handlers)

abbrev process : Process
process = record {
  closed = false;
  logging = (instrument_logging append 5 0 true logging).1;
  closings = [];
}

shutdown-once_example :
    let q = shutdowns take_out (slow ∷ quick ∷ []) process in
    (q ≡ shutdown take_out slow process)
    × ((asked : List Closing) × (q.closings ≡ [] ++ asked)
        × AsksBoth slow asked
        × All IsWithinMinute asked)
    × All (IsGone take_out q.logging) process.logging.registered
    × (q.logging.registered ≡ [])
shutdown-once_example = shutdown-once take_out kept_out slow (quick ∷ []) process refl

abbrev settings : Settings ℕ (List ℕ)
settings = record {
  config = config;
  destinations = broken ∷ [];
  capture_standard_library = true;
  replace_existing_handlers = true;
}

abbrev diagnostics : Diagnostics
diagnostics = Diagnostics.create 1000 60 []

-- A runtime that was shut down while a request was active.
abbrev stopped : Standing ℕ (List ℕ)
stopped = record {
  closed = true;
  diagnostics = diagnostics;
  delivery = Manager.configure stdout (stdout ∷ []) [];
  otel = new_setup;
  request = some 0;
  operation = none;
  logging = logging;
  reports = [];
}

abbrev refuses_all : SetupStep → Bool
refuses_all step = false

construct-IsReady_example :
    ((r : Standing ℕ (List ℕ)) × (construct stdout refuse refuses_all 5 diagnostics passes settings
          logging []
        ≡ built r)
      × IsReady r)
    × ((r : Standing ℕ (List ℕ)) × (restart_after_snapshot stdout refuse refuses_all 5
            (λ h. false)
            settings
            stopped
          ≡ (true, r))
        × IsReady r
        × (r.logging ≡ logging))
construct-IsReady_example =
    construct-IsReady stdout (λ e. refl) refl refuse refuses_all 5 diagnostics settings logging []
      (λ h. false) stopped
