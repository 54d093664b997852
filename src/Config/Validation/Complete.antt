-- ===== src/Config/Validation/Complete.antt =====
-- `validation_errors` finds nothing exactly on the configurations whose fields are all as declared.
use policyengine_observabili.Base.{
  some_injective, ◌≡◌, ◌↔◌, refl, sym, ◌∙◌, if◌then◌else◌, Option-cases, ap, text, List, [], ◌∷◌,
  some, arith, All, All-append, inl, inr, is_empty,
}
use policyengine_observabili.Config.Validation.{
  Unchecked, ConfigError, identity_checks, otel_checks, exporter_errors, validation_errors,
  validate, passes, raises, each_destination,
}
use policyengine_observabili.Config.Validation.Fields.{
  IsSilent, all_checks_iff, All-append_inv, IsIdentityWellFormed, identity_checks_iff,
  IsOtelWellFormed, otel_checks_iff, IsLimitWellFormed, limit_checks_iff, IsExporterWellFormed,
  IsAbsentOr, exporter_errors_iff,
}
use policyengine_observabili.Config.Validation.Destinations.{
  IsDestinationWellFormed, each_destination_iff,
}

pub record IsWellFormed (c : Unchecked) : Type 0 where
  pub identity : IsIdentityWellFormed c
  pub destinations : All IsDestinationWellFormed c.destinations
  pub otel : IsOtelWellFormed c
  pub traces : IsAbsentOr IsExporterWellFormed c.traces
  pub metrics : IsAbsentOr IsExporterWellFormed c.metrics
  pub limits : IsLimitWellFormed c

-- The checks find no error exactly if every field of the configuration has a value of its declared
-- type and range; in particular no exception leaves them on a well-formed configuration.
pub validation_errors_lem : (c : Unchecked) → (validation_errors c ≡ some []) ↔ IsWellFormed c
unfolding validation_errors
validation_errors_lem c = (
  (λ h.
      let p = All-append_inv (identity_checks c) _ ((all_checks_iff _).0 h) in
      let q = All-append_inv (each_destination c.destinations) _ p.1 in
      let r = All-append_inv (otel_checks c) _ q.1 in
      let s = All-append_inv (exporter_errors (text "traces") c.traces) _ r.1 in
      let t = All-append_inv (exporter_errors (text "metrics") c.metrics) _ s.1 in
      record {
        identity = (identity_checks_iff c).0 p.0;
        destinations = (each_destination_iff c.destinations).0 q.0;
        otel = (otel_checks_iff c).0 r.0;
        traces = (exporter_errors_iff _ c.traces).0 s.0;
        metrics = (exporter_errors_iff _ c.metrics).0 t.0;
        limits = (limit_checks_iff c).0 t.1;
      }),
  λ h. (all_checks_iff _).1 (
      All-append IsSilent (identity_checks c) _ ((identity_checks_iff c).1 h.identity) (
        All-append IsSilent (each_destination c.destinations) _
          ((each_destination_iff c.destinations).1 h.destinations)
          (All-append IsSilent (otel_checks c) _ ((otel_checks_iff c).1 h.otel) (
            All-append IsSilent (exporter_errors (text "traces") c.traces) _
              ((exporter_errors_iff _ c.traces).1 h.traces)
              (All-append IsSilent (exporter_errors (text "metrics") c.metrics) _
                ((exporter_errors_iff _ c.metrics).1 h.metrics)
                ((limit_checks_iff c).1 h.limits)))))),
)

empty_passes :
    (errors : List ConfigError)
    → some (if is_empty errors then passes else raises errors) ≡ some passes
    → errors ≡ []
empty_passes [] h = refl
empty_passes (e ∷ errors) h = absurd (ground (arith, h))

-- `validate` passes exactly if every field that it checks has a value of its declared type and range; in particular it neither raises nor lets an exception through on such a configuration.
pub validate_lem : (c : Unchecked) → (validate c ≡ some passes) ↔ IsWellFormed c
unfolding validate
validate_lem c = elim (Option-cases (validation_errors c)) [
  | inl e ↦
      rw (e, validate)
        (
          (λ h. absurd (ground (arith, h))),
          λ h. absurd (ground (arith, (validation_errors_lem c).1 h, e)),
        )
  | inr (errors, e) ↦
      rw (e, validate)
        (
          (λ h. (validation_errors_lem c).0 (e ∙ ap some (empty_passes errors h))),
          λ h. rw (some_injective (sym e ∙ (validation_errors_lem c).1 h)) refl,
        )
]
