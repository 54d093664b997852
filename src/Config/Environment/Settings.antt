-- ===== src/Config/Environment/Settings.antt =====
-- What the settings read from the environment are worth, where reading them succeeds.
use policyengine_observabili.Base.{
  ℕ, ◌≤◌, ℤ, pos, negsuc, pos_part, ◌≤ℤ◌, leb_ℤ, leb→le, subst, Float, finite, is_finite, leb_float,
  Text, ◌≡◌, refl, Bool, true, false, ◌&&◌, Option, none, some, arith, Bool-cases, inl, inr,
}
use policyengine_observabili.Config.{OTelConfig}
use policyengine_observabili.Config.Environment.{
  Conversions, Result, ok, err, ◌>>=◌, float_in_range, env_float, int_in_range, env_int,
  otel_from_env,
}

-- What a setting satisfies where reading it succeeds.
abbrev Ensures : {A : Type 0} → (A → Type 0) → Result A → Type 0
Ensures P (ok a) = P a
Ensures P (err e) = Unit

Ensures-bind :
    {A B : Type 0} (P : B → Type 0) (m : Result A) (f : A → Result B)
    → ((a : A) → m ≡ ok a → Ensures P (f a))
    → Ensures P (m >>= f)
unfolding ◌>>=◌
Ensures-bind P (ok a) f h = h a refl
Ensures-bind P (err e) f h = tt

abbrev pub IsFloatIn : Float → Float → Float → Type 0
IsFloatIn minimum maximum x =
    (is_finite x ≡ true) × (leb_float minimum x ≡ true) × (leb_float x maximum ≡ true)

and_parts : (a b : Bool) → (a && b) ≡ true → (a ≡ true) × (b ≡ true)
and_parts true b h = (refl, h)
and_parts false b h = absurd (cc h)

float_in_range-Ensures :
    (name : Text) (minimum maximum : Float) (o : Option Float)
    → Ensures (IsFloatIn minimum maximum) (float_in_range name minimum maximum o)
unfolding float_in_range
float_in_range-Ensures name minimum maximum none = tt
float_in_range-Ensures name minimum maximum (some x) =
    elim (Bool-cases (is_finite x && (leb_float minimum x && leb_float x maximum))) [
      | inl e ↦ (let p = and_parts _ _ e in let q = and_parts _ _ p.1 in rw e (p.0, q.0, q.1))
      | inr e ↦ rw e tt
    ]

abbrev IsIntegerBetween : ℤ → ℤ → ℤ → Type 0
IsIntegerBetween minimum maximum n = (minimum ≤ℤ n) × (n ≤ℤ maximum)

int_in_range-Ensures :
    (name : Text) (minimum maximum : ℤ) (o : Option ℤ)
    → Ensures (IsIntegerBetween minimum maximum) (int_in_range name minimum maximum o)
unfolding int_in_range
int_in_range-Ensures name minimum maximum none = tt
int_in_range-Ensures name minimum maximum (some n) =
    elim (Bool-cases (leb_ℤ minimum n && leb_ℤ n maximum)) [
      | inl e ↦ (let p = and_parts _ _ e in rw e (leb→le _ _ p.0, leb→le _ _ p.1))
      | inr e ↦ rw e tt
    ]

module _ (c : Conversions) (name : Text) (value : Option Text) where
  ranged_float :
      (default minimum maximum x : Float)
      → env_float c name value default minimum maximum ≡ ok x
      → IsFloatIn minimum maximum x
  unfolding env_float
  ranged_float default minimum maximum x h =
      subst (Ensures (IsFloatIn minimum maximum)) h (float_in_range-Ensures name minimum maximum _)

  ranged_int :
      (default minimum maximum n : ℤ)
      → env_int c name value default minimum maximum ≡ ok n
      → IsIntegerBetween minimum maximum n
  unfolding env_int
  ranged_int default minimum maximum n h =
      subst (Ensures (IsIntegerBetween minimum maximum)) h
        (int_in_range-Ensures name minimum maximum _)

natural :
    (n : ℤ) (least most : ℕ)
    → 1 ≤ least
    → IsIntegerBetween (pos least) (pos most) n
    → (least ≤ pos_part n) × (pos_part n ≤ most)
natural (pos n) least most l h = (omega (arith, h), omega (arith, h))
natural (negsuc n) least most l h = absurd (omega (arith, h, l))

-- The ranges that the SDK's processors rely on.
pub record IsUsable (o : OTelConfig) : Type 0 where
  pub ratio : IsFloatIn (finite (pos 0) 0) (finite (pos 1) 0) o.sampling_ratio
  pub queue_least : 1 ≤ o.span_queue_capacity
  pub queue_most : o.span_queue_capacity ≤ 100000
  pub batch_least : 1 ≤ o.span_batch_size
  pub batch_most : o.span_batch_size ≤ 10000

module _ (c : Conversions) (getenv : Text → Option Text) where
  otel_from_env-Ensures : Ensures IsUsable (otel_from_env c getenv)
  unfolding otel_from_env
  otel_from_env-Ensures = Ensures-bind IsUsable _ _ λ protocol _.
      Ensures-bind IsUsable _ _ λ traces_on _. Ensures-bind IsUsable _ _ λ traces _.
        Ensures-bind IsUsable _ _ λ metrics_on _. Ensures-bind IsUsable _ _ λ metrics _.
          Ensures-bind IsUsable _ _ λ disabled _. Ensures-bind IsUsable _ _ λ mode _.
            Ensures-bind IsUsable _ _ λ ratio r. Ensures-bind IsUsable _ _ λ queue q.
              Ensures-bind IsUsable _ _ λ batch b. Ensures-bind IsUsable _ _ λ delay _.
                Ensures-bind IsUsable _ _ λ interval _.
                  let good_ratio = ranged_float c _ _ _ _ _ ratio r in
                  let good_queue =
                    natural queue 1 100000 (omega arith) (ranged_int c _ _ _ _ _ queue q) in
                  let good_batch =
                    natural batch 1 10000 (omega arith) (ranged_int c _ _ _ _ _ batch b) in
                  record {
                    ratio = good_ratio;
                    queue_least = good_queue.0;
                    queue_most = good_queue.1;
                    batch_least = good_batch.0;
                    batch_most = good_batch.1;
                  }

  -- Whatever the environment holds, settings that are read without an error have a sampling ratio
  -- from 0 to 1, a queue of 1 to 100000 spans and batches of 1 to 10000.
  pub otel_from_env-IsUsable : (o : OTelConfig) → otel_from_env c getenv ≡ ok o → IsUsable o
  otel_from_env-IsUsable o h = subst (Ensures IsUsable) h otel_from_env-Ensures
