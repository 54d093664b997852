-- ===== src/Otel/Providers/Bounds.antt =====
-- The arguments that the SDK is given are in the ranges that it accepts.
use policyengine_observabili.Base.{
  ℕ, ◌≤◌, Text, Dict, Float, nan, inf, minus_inf, finite, pos, leb_float, max_float, min_float,
  true, inl, inr, ◌≡◌, ◌⊎◌, refl, is_some, Option-cases, if◌then◌else◌, Option, none, some, arith,
}
use policyengine_observabili.Config.{
  OTelConfig, OtlpExporterConfig, OtlpProtocol, OtlpEndpointMode, grpc, http_protobuf, base, signal,
  OtlpAuthentication,
}
use policyengine_observabili.Otel.Providers.{
  tenth, AuthArguments, ExporterArguments, exporter_kwargs, build_exporter, span_processor,
}

clamp-bounds :
    (t : Float)
    → (leb_float tenth (max_float tenth (min_float t (finite (pos 60) 0))) ≡ true)
      × (leb_float (max_float tenth (min_float t (finite (pos 60) 0))) (finite (pos 60) 0) ≡ true)
clamp-bounds nan = (refl, refl)
clamp-bounds inf = (refl, refl)
clamp-bounds minus_inf = (refl, refl)
clamp-bounds (finite n k) = ground arith

abbrev pub IsUsable : ExporterArguments → Type 0
IsUsable x =
    (leb_float tenth x.timeout ≡ true)
    × (leb_float x.timeout (finite (pos 60) 0) ≡ true)
    × ((x.session ≡ none) ⊎ (x.headers ≡ none))

protocol-cases : (p : OtlpProtocol) → (p ≡ grpc) ⊎ (p ≡ http_protobuf)
protocol-cases grpc = inl refl
protocol-cases http_protobuf = inr refl

mode-cases : (m : OtlpEndpointMode) → (m ≡ base) ⊎ (m ≡ signal)
mode-cases base = inl refl
mode-cases signal = inr refl

module _ (authenticate : OtlpAuthentication → OtlpProtocol → Dict Text → AuthArguments)
    (untimed : (auth : OtlpAuthentication) (protocol : OtlpProtocol) (headers : Dict Text)
      → (authenticate auth protocol headers).timeout ≡ none) where
  session-cases :
      (given : Option ℕ) (headers : Dict Text)
      → (given ≡ none) ⊎ ((if is_some given then none else some headers) ≡ none)
  session-cases none headers = inl refl
  session-cases (some s) headers = inr refl

  kwargs-IsUsable : (config : OtlpExporterConfig) → IsUsable (exporter_kwargs authenticate config)
  unfolding exporter_kwargs
  kwargs-IsUsable config =
      let c = clamp-bounds config.timeout_seconds in
      elim (Option-cases config.auth) [
        | inl e ↦ rw (e, exporter_kwargs) (c.0, c.1, inl refl)
        | inr (auth, e) ↦
            rw (e, exporter_kwargs)
              (rw (untimed auth config.protocol config.headers) (c.0, c.1, session-cases _ _))
      ]

  build-IsUsable :
      (signal_name : Text) (config : OtlpExporterConfig)
      → IsUsable (build_exporter authenticate signal_name config)
  unfolding build_exporter
  build-IsUsable signal_name config = elim (protocol-cases config.protocol) [
    | inl e ↦ rw (e, build_exporter) (kwargs-IsUsable config)
    | inr e ↦ elim (mode-cases config.endpoint_mode) [
      | inl f ↦ rw (e, build_exporter) (rw f (kwargs-IsUsable config))
      | inr f ↦ rw (e, build_exporter) (rw f (kwargs-IsUsable config))
    ]
  ]

  -- Whatever is configured, if the authentication sets no timeout of its own, the exporter of a signal
  -- has a timeout from 0.1 to 60 seconds; it never has both headers and a session of its own, and the processor of spans has a batch of at least one
  -- span that fits its queue.
  pub exporter-IsUsable :
      (thousandfold : Float → Float) (signal_name : Text) (otel : OTelConfig)
      (config : OtlpExporterConfig)
      → IsUsable (build_exporter authenticate signal_name config)
        × (1 ≤ (span_processor thousandfold otel config).max_export_batch_size)
        × ((span_processor thousandfold otel config).max_export_batch_size
            ≤ (span_processor thousandfold otel config).max_queue_size)
  unfolding span_processor
  exporter-IsUsable thousandfold signal_name otel config =
      (build-IsUsable signal_name config, omega arith, omega arith)
