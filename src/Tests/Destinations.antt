-- ===== src/Tests/Destinations.antt =====
-- A delivery manager with two inline destinations, one of which has failed twice and fails again,
-- and one queued destination.
use policyengine_observabili.Base.{
  none, ℕ, ◌<◌, ◌∷◌, [], List, ◌≡◌, ◌&&◌, refl, arith, text, pos, true, false, not, any, keep, All,
  Bool,
}
use policyengine_observabili.Delivery.Queued
use policyengine_observabili.Delivery.Manager.{
  Strategy, Manager, destination_failure_limit, is_silent, is_disabled, write_inlines, emit,
}
use policyengine_observabili.Delivery.Manager.Close.{close}
use policyengine_observabili.Delivery.Manager.Closed.{close-closed}
use policyengine_observabili.Delivery.Queued.{works}
use policyengine_observabili.Delivery.Manager.Failures.{has_ident, inline-emit, failures-emit}
use policyengine_observabili.Delivery.Manager.Fallback.{is_silent-emit}
use policyengine_observabili.Tests.Queues.{writer}

abbrev pub stdout : Strategy ℕ (List ℕ)
stdout = record {
  name = text "stdout";
  delivery = text "inline";
  queue_capacity = pos 2048;
  writer = writer;
}

abbrev pub broken : Strategy ℕ (List ℕ)
broken = record stdout { delivery = text "none" }

abbrev starts : List ℕ → Bool
starts e = true

abbrev manager : Manager ℕ (List ℕ)
manager = record {
  inline =
      record { ident = 0; name = text "a"; writer = writer; failures = 2 }
      ∷ record {
        ident = 1;
        name = text "b";
        writer = record writer { write = λ r e. (true, e) };
        failures = 1;
      }
      ∷ [];
  queued = record { name = text "q"; writer = writer; state = Queued.create (pos 2) [] } ∷ [];
  cleanup_tasks = [];
  next = 2;
  world = [];
  notes = [];
}

manager_is_heard : is_silent manager ≡ false
unfolding is_silent
manager_is_heard = refl

inline-emit_example :
    let written = (write_inlines 9 manager.inline manager.world).0 in
    any (has_ident 0) (emit stdout starts 9 manager).inline
    ≡ (any (has_ident 0) written && not (any (has_ident 0) (keep is_disabled written)))
inline-emit_example = inline-emit stdout starts 0 9 manager (omega arith)

failures-emit_example :
    All (λ x. x.failures < destination_failure_limit) (emit stdout starts 9 manager).inline
failures-emit_example = failures-emit stdout starts 9 manager

is_silent-emit_example : is_silent (emit stdout starts 9 manager) ≡ false
is_silent-emit_example = is_silent-emit stdout starts (λ e. refl) 9 manager manager_is_heard

close-closed_example :
    ((close starts (λ i. works none ∷ []) (λ i. true) manager).inline ≡ [])
    × All
        (λ d. d.state.closed ≡ true)
        (close starts (λ i. works none ∷ []) (λ i. true) manager).queued
close-closed_example = close-closed starts (λ i. works none ∷ []) (λ i. true) manager
