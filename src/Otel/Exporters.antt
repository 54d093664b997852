-- ===== src/Otel/Exporters.antt =====
-- policyengine_observability/otel.py: the exporters that are made when they are first used, of spans
-- and of metrics, which differ in the names that they report under. An exporter acts on a world
-- outside; each of its calls, and the factory, returns or raises.
pub mod Made
use policyengine_observabili.Base.{
  ℕ, Text, text, ◌++◌, Bool, true, false, if◌then◌else◌, Option, none, some, List, [], ◌∷◌,
}

-- `factory` makes the delegate; `none` is a raise. `force_flush` gives `bool` of what is returned.
pub record Exporter (X E R : Type 0) : Type 0 where
  pub factory : E → Bool × E
  pub export : X → E → Option R × E
  pub force_flush : ℕ → E → Option Bool × E
  pub shutdown : ℕ → E → Bool × E

-- The names of the reports and of the counter.
pub record Names : Type 0 where
  pub export_failure : Text
  pub export : Text
  pub flush : Text
  pub shutdown : Text

abbrev pub span_names : Names
span_names = record {
  export_failure = text "spans.export_failure";
  export = text "otel.span_export";
  flush = text "otel.span_flush";
  shutdown = text "otel.span_exporter_shutdown";
}

abbrev pub metric_names : Names
metric_names = record {
  export_failure = text "metrics.export_failure";
  export = text "otel.metric_export";
  flush = text "otel.metric_flush";
  shutdown = text "otel.metric_exporter_shutdown";
}

-- What an observer sees: the factory succeeded, a counter was incremented, or something was reported.
pub data Trace : Type 0 where
  made : Trace
  failure_counted : Text → Trace
  problem_reported : Text → Trace

pub record Lazy (E : Type 0) : Type 0 where
  pub has_delegate : Bool
  pub world : E
  pub traces : List Trace

abbrev pub create : {E : Type 0} → E → Lazy E
create e = record { has_delegate = false; world = e; traces = [] }

-- How `export` ends: with what the delegate returned, which may be `FAILURE` too, or in the handler of
-- an exception.
pub data Result (R : Type 0) : Type 0 where
  exported : R → Result R
  rescued : Result R

-- What `export` returns, where `failure` is the SDK's `FAILURE`.
abbrev pub returned : {R : Type 0} → R → Result R → R
returned failure (exported result) = result
returned failure rescued = failure

module _ {X E R : Type 0} (names : Names) (d : Exporter X E R) where
  -- `_get`, and whether it returns.
  unfoldable pub get_delegate : Lazy E → Bool × Lazy E
  get_delegate l =
      let new = d.factory l.world in
      if l.has_delegate
      then (true, l)
      else if new.0
      then (true, record l { has_delegate = true; world = new.1; traces = l.traces ++ made ∷ [] })
      else (false, record l { world = new.1 })

  unfoldable pub fail_export : Lazy E → Result R × Lazy E
  fail_export l = (
    rescued,
    record l {
      traces =
          l.traces ++ failure_counted names.export_failure ∷ problem_reported names.export ∷ [];
    },
  )

  unfoldable pub call_export : Option R → Lazy E → Result R × Lazy E
  call_export (some result) l = (exported result, l)
  call_export none l = fail_export l

  unfoldable pub export : X → Lazy E → Result R × Lazy E
  export batch l =
      let got = get_delegate l in
      let sent = d.export batch (got.1).world in
      if got.0 then call_export sent.0 (record got.1 { world = sent.1 }) else fail_export got.1

  unfoldable pub flushed : Option Bool → Lazy E → Bool × Lazy E
  flushed (some done) l = (done, l)
  flushed none l = (false, record l { traces = l.traces ++ problem_reported names.flush ∷ [] })

  unfoldable pub force_flush : ℕ → Lazy E → Bool × Lazy E
  force_flush timeout_millis l =
      let flush = d.force_flush timeout_millis l.world in
      if l.has_delegate then flushed flush.0 (record l { world = flush.1 }) else (true, l)

  unfoldable pub shutdown : ℕ → Lazy E → Lazy E
  shutdown timeout_millis l =
      let closed = d.shutdown timeout_millis l.world in
      let after = record l { world = closed.1 } in
      if l.has_delegate
      then (if closed.0
          then after
          else record after { traces = l.traces ++ problem_reported names.shutdown ∷ [] })
      else l

-- The calls that the SDK makes, and the results of its exports.
pub data Use (X : Type 0) : Type 0 where
  exports : X → Use X
  flushes : ℕ → Use X
  shuts_down : ℕ → Use X

module _ {X E R : Type 0} (names : Names) (d : Exporter X E R) where
  unfoldable pub use_exporter : Use X → Lazy E → List (Result R) × Lazy E
  use_exporter (exports batch) l = let done = export names d batch l in (done.0 ∷ [], done.1)
  use_exporter (flushes timeout) l = ([], (force_flush names d timeout l).1)
  use_exporter (shuts_down timeout) l = ([], shutdown names d timeout l)

  unfoldable pub use_each : List (Use X) → Lazy E → List (Result R) × Lazy E
  use_each [] l = ([], l)
  use_each (u ∷ us) l =
      let one = use_exporter u l in let rest = use_each us one.1 in (one.0 ++ rest.0, rest.1)
