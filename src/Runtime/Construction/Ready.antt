-- ===== src/Runtime/Construction/Ready.antt =====
-- What a runtime is after its construction and after a restart.
use policyengine_observabili.Base.{ℕ, text, Bool, true, false, none, some, List, ◌≡◌, refl}
use policyengine_observabili.Config.Validation.{passes}
use policyengine_observabili.Diagnostics.{Diagnostics}
use policyengine_observabili.Delivery.Manager.{Strategy, Manager, is_silent}
use policyengine_observabili.Delivery.Manager
use policyengine_observabili.Delivery.Manager.Fallback.{is_silent-configure}
use policyengine_observabili.Otel.Setup.{SetupStep}
use policyengine_observabili.Runtime.Logging.{Handler, Logging}
use policyengine_observabili.Runtime.Construction.{
  Standing, Settings, built, new_delivery, capture_logging, construct, restart_after_snapshot,
  started, cleared, reopened,
}

-- Open, heard by a destination, and with nothing active.
abbrev pub IsReady : {R E : Type 0} → Standing R E → Type 0
IsReady r =
    (r.closed ≡ false) × (is_silent r.delivery ≡ false) × (r.request ≡ none) × (r.operation ≡ none)

module _ {R E : Type 0} (stdout : Strategy R E)
    (builds : (e : E) → (stdout.writer.build e).0 ≡ true) (inline : stdout.delivery ≡ text "inline")
    (add : Handler → List Handler → List Handler × Bool) (returns : SetupStep → Bool) (me : ℕ) where
  new_delivery-made :
      (strategies : List (Strategy R E)) (e : E)
      → new_delivery stdout strategies e ≡ some (Manager.configure stdout strategies e)
  unfolding new_delivery
  new_delivery-made strategies e =
      rw (is_silent-configure stdout builds inline strategies e, new_delivery) refl

  capture-IsReady :
      (capture replace : Bool) (r : Standing R E)
      → IsReady r
      → IsReady (capture_logging stdout add returns me capture replace r)
  unfolding capture_logging
  capture-IsReady false replace r h = h
  capture-IsReady true replace r h = h

  -- If standard output can be built, then with a configuration that passes the constructor returns a
  -- runtime, whatever destinations, calls of the SDK and handlers fail, and every runtime can be
  -- restarted: both are open, with a destination and with no request or operation active, and a
  -- restart keeps the handlers.
  pub construct-IsReady :
      (diagnostics : Diagnostics) (settings : Settings R E) (logging : Logging) (e : E)
      (locks : Handler → Bool) (old : Standing R E)
      → ((r : Standing R E) × (construct stdout add returns me diagnostics passes settings logging e
            ≡ built r)
          × IsReady r)
        × ((r : Standing R E) × (restart_after_snapshot stdout add returns me locks settings old
              ≡ (true, r))
            × IsReady r
            × (r.logging ≡ old.logging))
  unfolding construct restart_after_snapshot
  construct-IsReady diagnostics settings logging e locks old =
      let first = Manager.configure stdout settings.destinations e in
      let second = Manager.configure stdout settings.destinations old.delivery.world in
      let heard = is_silent-configure stdout builds inline settings.destinations in
      let r = started stdout add returns me diagnostics settings logging first in
      (
        (
          capture_logging stdout add returns me settings.capture_standard_library
              settings.replace_existing_handlers r,
          rw (new_delivery-made settings.destinations e, construct) refl,
          capture-IsReady settings.capture_standard_library settings.replace_existing_handlers r
              (refl, heard e, refl, refl),
        ),
        (
          reopened stdout add returns me settings second (cleared stdout add returns me locks old),
          rw (new_delivery-made settings.destinations old.delivery.world, restart_after_snapshot)
              refl,
          (refl, heard old.delivery.world, refl, refl),
          refl,
        ),
      )
