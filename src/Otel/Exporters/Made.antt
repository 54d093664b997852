-- ===== src/Otel/Exporters/Made.antt =====
-- At most one exporter is made, and every export that raises is counted once.
use policyengine_observabili.Base.{ℕ, suc, ◌+◌, Bool, List, [], ◌∷◌, ◌≡◌, if◌then◌else◌}
use policyengine_observabili.Otel.Exporters.{
  Trace, made, failure_counted, Lazy, Result, exported, rescued,
}

abbrev pub delegates_made : List Trace → ℕ
delegates_made [] = 0
delegates_made (made ∷ traces) = suc (delegates_made traces)
delegates_made (_ ∷ traces) = delegates_made traces

abbrev pub failures_counted : List Trace → ℕ
failures_counted [] = 0
failures_counted (failure_counted name ∷ traces) = suc (failures_counted traces)
failures_counted (_ ∷ traces) = failures_counted traces

-- The exports in which the factory or the delegate raised.
abbrev pub failures : {R : Type 0} → List (Result R) → ℕ
failures [] = 0
failures (rescued ∷ results) = suc (failures results)
failures (exported r ∷ results) = failures results

-- One exporter was made exactly if there is a delegate.
abbrev held : Bool → ℕ
held b = if b then 1 else 0

abbrev IsCounted : {E : Type 0} → Lazy E → Type 0
IsCounted l = delegates_made l.traces ≡ held l.has_delegate

-- `m` has counted `n` failures more than `l`.
abbrev Counts : {E : Type 0} → ℕ → Lazy E → Lazy E → Type 0
Counts n l m = IsCounted m × (failures_counted m.traces ≡ n + failures_counted l.traces)
