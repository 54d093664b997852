-- ===== src/Otel/Setup/Owned.antt =====
-- Which providers a shutdown closes.
use policyengine_observabili.Base.{
  ℤ, pos_part, ◌++◌, Bool, true, false, ◌&&◌, ◌||◌, Bool-cases, if◌then◌else◌, any, List, [], ◌∷◌,
  ◌≡◌, refl, inl, inr, arith, ◌∙◌,
}
use policyengine_observabili.Config.{ObservabilityConfig}
use policyengine_observabili.Otel.Setup.{
  SetupStep, import_api, import_sdk, get_tracer_provider, get_meter_provider, create_resource,
  create_reader, add_span_processor, get_tracer, get_meter, create_instrument, create_gauge,
  create_meter_provider, create_tracer_provider, ProviderCall, tracer_shut, meter_shut, Setup,
  new_setup, perform, configure_steps, perform_each, configure, shutdown,
}

-- The steps before the first that raises.
abbrev pub performed : (SetupStep → Bool) → List SetupStep → List SetupStep
performed returns [] = []
performed returns (step ∷ steps) =
    let rest = performed returns steps in if returns step then step ∷ rest else []

abbrev pub is_tracer_creation : SetupStep → Bool
is_tracer_creation create_tracer_provider = true
is_tracer_creation _ = false

abbrev pub is_meter_creation : SetupStep → Bool
is_meter_creation create_meter_provider = true
is_meter_creation _ = false

abbrev pub when {ℓ} : {A : Type ℓ} → Bool → A → List A
when true x = x ∷ []
when false x = []

-- An owned provider is there.
abbrev IsOwner : Setup → Type 0
IsOwner s =
    ((s.owns_tracer_provider && s.tracer_provider) ≡ s.owns_tracer_provider)
    × ((s.owns_meter_provider && s.meter_provider) ≡ s.owns_meter_provider)

-- What a setup owns after `steps` is what it owned and what these create; it has called nothing.
abbrev IsAfter : List SetupStep → Setup → Setup → Type 0
IsAfter steps s s' =
    (s'.owns_tracer_provider ≡ (s.owns_tracer_provider || any is_tracer_creation steps))
    × (s'.owns_meter_provider ≡ (s.owns_meter_provider || any is_meter_creation steps))
    × (s'.calls ≡ s.calls)
    × IsOwner s'

perform-IsAfter :
    (step : SetupStep) (s : Setup) → IsOwner s → IsAfter (step ∷ []) s (perform step s)
perform-IsAfter import_api s h = ground (arith, h)
perform-IsAfter import_sdk s h = ground (arith, h)
perform-IsAfter get_tracer_provider s h = ground (arith, h)
perform-IsAfter get_meter_provider s h = ground (arith, h)
perform-IsAfter create_resource s h = ground (arith, h)
perform-IsAfter create_reader s h = ground (arith, h)
perform-IsAfter create_meter_provider s h = ground (arith, h)
perform-IsAfter create_tracer_provider s h = ground (arith, h)
perform-IsAfter add_span_processor s h = ground (arith, h)
perform-IsAfter get_tracer s h = ground (arith, h)
perform-IsAfter get_meter s h = ground (arith, h)
perform-IsAfter (create_instrument i) s h = ground (arith, h)
perform-IsAfter create_gauge s h = ground (arith, h)

IsAfter-append :
    (step : SetupStep) (steps : List SetupStep) (s s1 s2 : Setup)
    → IsAfter (step ∷ []) s s1
    → IsAfter steps s1 s2
    → IsAfter (step ∷ steps) s s2
IsAfter-append step steps s s1 s2 h k = ground (arith, h, k)

perform_each-IsAfter :
    (returns : SetupStep → Bool) (steps : List SetupStep) (s : Setup)
    → IsOwner s
    → IsAfter (performed returns steps) s (perform_each returns steps s)
unfolding perform_each
perform_each-IsAfter returns [] s h = ground (arith, h)
perform_each-IsAfter returns (step ∷ steps) s h = elim (Bool-cases (returns step)) [
  | inr e ↦ rw e (ground (arith, h))
  | inl e ↦
      let first = perform-IsAfter step s h in
      let (tracer, meter, calls, owner) = first in
      let rest = perform_each-IsAfter returns steps (perform step s) owner in
      rw e (
        IsAfter-append step (performed returns steps) s (perform step s)
          (perform_each returns steps (perform step s)) first rest)
]

shutdown-owned :
    (answers : ProviderCall → Bool) (milliseconds : ℤ) (s : Setup) (traces meters : Bool)
    → s.owns_tracer_provider ≡ traces
    → s.owns_meter_provider ≡ meters
    → s.calls ≡ []
    → IsOwner s
    → (shutdown answers milliseconds s).calls
      ≡ when traces tracer_shut ++ when meters (meter_shut (pos_part milliseconds))
unfolding shutdown
shutdown-owned answers milliseconds s true true t m c h =
    rw (h.0 ∙ t, shutdown) (rw (h.1 ∙ m, shutdown) (rw c refl))
shutdown-owned answers milliseconds s true false t m c h =
    rw (h.0 ∙ t, shutdown) (rw (h.1 ∙ m, shutdown) (rw c refl))
shutdown-owned answers milliseconds s false true t m c h =
    rw (h.0 ∙ t, shutdown) (rw (h.1 ∙ m, shutdown) (rw c refl))
shutdown-owned answers milliseconds s false false t m c h =
    rw (h.0 ∙ t, shutdown) (rw (h.1 ∙ m, shutdown) (rw c refl))

-- Whichever calls of the SDK raise, the calls of providers that the start and a shutdown make are the
-- shutdowns of exactly the providers that the package created, also where a later step of the start
-- raised: the tracer provider first, and the meter provider with the timeout.
pub shutdown-configure :
    (returns : SetupStep → Bool) (answers : ProviderCall → Bool) (config : ObservabilityConfig)
    (milliseconds : ℤ)
    → let steps = performed returns (configure_steps config) in
      (shutdown answers milliseconds (configure returns config)).calls
      ≡ when (any is_tracer_creation steps) tracer_shut
        ++ when (any is_meter_creation steps) (meter_shut (pos_part milliseconds))
unfolding configure
shutdown-configure returns answers config milliseconds =
    let steps = configure_steps config in
    let (tracer, meter, calls, owner) = perform_each-IsAfter returns steps new_setup (refl, refl) in
    shutdown-owned answers milliseconds _ _ _ tracer meter calls owner
