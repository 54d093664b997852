-- ===== src/Delivery/Manager/Isolation.antt =====
-- A record reaches every queued destination, whatever the inline destinations do.
use policyengine_observabili.Base.{◌≡◌, refl, ◌∙◌, ap, Bool, List, [], ◌∷◌, arith}
use policyengine_observabili.Delivery.Manager.{
  Strategy, Inline, Manager, start_writer_cleanup, fall_back, is_silent, disable_inline,
  disable_each, emit, enqueue_each,
}

module _ {R E : Type 0} where
  module _ (stdout : Strategy R E) (starts : E → Bool) where
    queued-disable_inline :
        (d : Inline R E) (m : Manager R E) → (disable_inline stdout starts d m).queued ≡ m.queued
    unfolding disable_inline fall_back start_writer_cleanup is_silent
    queued-disable_inline d m = ground arith

    queued-disable_each :
        (ds : List (Inline R E)) (m : Manager R E)
        → (disable_each stdout starts ds m).queued ≡ m.queued
    unfolding disable_each
    queued-disable_each [] m = refl
    queued-disable_each (d ∷ ds) m =
        queued-disable_each ds (disable_inline stdout starts d m) ∙ queued-disable_inline d m

    -- `emit` enqueues the record at every queued destination and changes nothing else there, whatever
    -- the inline writers do and whichever of them it disables.
    queued-emit :
        (r : R) (m : Manager R E) → (emit stdout starts r m).queued ≡ enqueue_each r m.queued
    unfolding emit
    queued-emit r m = ap (enqueue_each r) (queued-disable_each _ _)
