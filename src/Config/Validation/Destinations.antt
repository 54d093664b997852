-- ===== src/Config/Validation/Destinations.antt =====
-- The checks on log destinations find nothing exactly where each strategy is in order.
use policyengine_observabili.Base.{
  ℕ, ◌++◌, ◌≡◌, ◌↔◌, refl, ap, Text, text, Bool, true, false, List, [], ◌∷◌, Option, none, some,
  All, is_some,
}
use policyengine_observabili.Value.{Value}
use policyengine_observabili.Config.Validation.{
  Destination, Diagnosis, lacking, raising, returning, Check, ConfigError, deliveries,
  each_destination, destination_errors, named_destination_errors, with_attribute, diagnosis_errors,
  found_by, choice_error, integer_error, Field, of_destination, expect, maybe_named_errors,
}
use policyengine_observabili.Config.Validation.Checks.{
  IsChoice, IsIntegerIn, choice_error_iff, integer_error_iff,
}
use policyengine_observabili.Config.Validation.Fields.{IsSilent}

append-eq-nil : (xs ys : List ConfigError) → (xs ++ ys ≡ []) ↔ ((xs ≡ []) × (ys ≡ []))
append-eq-nil [] ys = ((λ h. (refl, h)), λ h. h.1)
append-eq-nil (x ∷ xs) ys = ((λ h. absurd (cc h)), λ h. absurd (cc (h.0)))

abbrev IsGiven : (Value → Type 0) → Option Value → Type 0
IsGiven P none = ⊥
IsGiven P (some v) = P v

with_attribute_iff :
    (o : Option Value) (check : Value → List ConfigError)
    (next : List ConfigError → List ConfigError) (Q : Type 0)
    → ((xs : List ConfigError) → (next xs ≡ []) ↔ ((xs ≡ []) × Q))
    → (found : List ConfigError)
    → (with_attribute o check found next ≡ [])
      ↔ ((found ≡ []) × (IsGiven (λ v. check v ≡ []) o × Q))
unfolding with_attribute
with_attribute_iff none check next Q f found =
    ((λ h. absurd (cc (((append-eq-nil found _).0 h).1))), λ h. elim (h.1.0) [ ])
with_attribute_iff (some v) check next Q f found = (
  (λ h.
      let parts = (f (found ++ check v)).0 h in
      let both = (append-eq-nil found (check v)).0 parts.0 in (both.0, (both.1, parts.1))),
  λ h. (f (found ++ check v)).1 ((append-eq-nil found (check v)).1 (h.0, h.1.0), h.1.1),
)

abbrev pub IsQuiet : Diagnosis → Type 0
IsQuiet lacking = Unit
IsQuiet raising = ⊥
IsQuiet (returning messages) = messages ≡ []

diagnosis_errors_iff : (d : Diagnosis) → (diagnosis_errors d ≡ []) ↔ IsQuiet d
unfolding diagnosis_errors
diagnosis_errors_iff lacking = ((λ _. tt), λ _. refl)
diagnosis_errors_iff raising = ((λ h. absurd (cc h)), λ h. elim h [ ])
diagnosis_errors_iff (returning []) = ((λ _. refl), λ _. refl)
diagnosis_errors_iff (returning (m ∷ ms)) = ((λ h. absurd (cc h)), λ h. absurd (cc h))

abbrev IsNamed : Option Text → Type 0
IsNamed none = ⊥
IsNamed (some name) = Unit

-- A strategy whose attributes can be read and are in range, and which reports nothing itself.
pub record IsDestinationWellFormed (d : Destination) : Type 0 where
  pub named : IsNamed d.name
  pub delivery : IsGiven (IsChoice deliveries) d.delivery
  pub queue_capacity : IsGiven (IsIntegerIn 1 100000) d.queue_capacity
  pub batch_size : IsGiven (IsIntegerIn 1 10000) d.batch_size
  pub diagnostics : IsQuiet d.diagnostics

IsGiven-map :
    (P Q : Value → Type 0) (o : Option Value)
    → ((v : Value) → P v → Q v)
    → IsGiven P o
    → IsGiven Q o
IsGiven-map P Q none f h = h
IsGiven-map P Q (some v) f h = f v h

found_by_iff : (check : Check) → is_some check ≡ true → (found_by check ≡ []) ↔ IsSilent check
found_by_iff none h = absurd (cc h)
found_by_iff (some e) h = ((λ k. ap some k), λ k. cc k)

iff_trans : {A B C : Type 0} → A ↔ B → B ↔ C → A ↔ C
iff_trans e f = ((λ a. f.0 (e.0 a)), λ c. e.1 (f.1 c))

is_some-expect : (b : Bool) (e : ConfigError) → is_some (expect b e) ≡ true
is_some-expect true e = refl
is_some-expect false e = refl

choice_found_iff :
    (name : Field) (choices : List Text) (v : Value)
    → (found_by (choice_error name v choices) ≡ []) ↔ IsChoice choices v
choice_found_iff name choices v =
    iff_trans
      (found_by_iff (choice_error name v choices) (unfold choice_error in is_some-expect _ _))
      (choice_error_iff name v choices)

is_some-integer_error :
    (name : Field) (a m : ℕ) (v : Value) → is_some (integer_error name v a m) ≡ true
unfolding integer_error
is_some-integer_error name a m (Value.int n) = is_some-expect _ _
is_some-integer_error name a m v = refl

integer_found_iff :
    (name : Field) (a m : ℕ) (v : Value)
    → (found_by (integer_error name v a m) ≡ []) ↔ IsIntegerIn a m v
integer_found_iff name a m v =
    iff_trans (found_by_iff (integer_error name v a m) (is_some-integer_error name a m v))
      (integer_error_iff name v a m)

abbrev Attributes : (Value → Type 0) → (Value → Type 0) → (Value → Type 0) → Destination → Type 0
Attributes P Q R d =
    IsGiven P d.delivery
    × (IsGiven Q d.queue_capacity × (IsGiven R d.batch_size × IsQuiet d.diagnostics))

named_destination_errors_iff :
    (name : Text) (d : Destination)
    → (named_destination_errors name d ≡ [])
      ↔ Attributes (IsChoice deliveries) (IsIntegerIn 1 100000) (IsIntegerIn 1 10000) d
unfolding named_destination_errors
named_destination_errors_iff name d = (
  (λ h.
      let p = raw.0 h in
      (
        IsGiven-map _ _ d.delivery (λ v. (choice_found_iff _ deliveries v).0) p.1.0,
        (
          IsGiven-map _ _ d.queue_capacity (λ v. (integer_found_iff _ 1 100000 v).0) p.1.1.0,
          (
            IsGiven-map _ _ d.batch_size (λ v. (integer_found_iff _ 1 10000 v).0) p.1.1.1.0,
            p.1.1.1.1,
          ),
        ),
      )),
  λ h. raw.1 (
    refl,
    (
      IsGiven-map _ _ d.delivery (λ v. (choice_found_iff _ deliveries v).1) h.0,
      (
        IsGiven-map _ _ d.queue_capacity (λ v. (integer_found_iff _ 1 100000 v).1) h.1.0,
        (IsGiven-map _ _ d.batch_size (λ v. (integer_found_iff _ 1 10000 v).1) h.1.1.0, h.1.1.1),
      ),
    ),
  ),
)
  where
    choice_check : Value → List ConfigError
    choice_check v = found_by (choice_error (of_destination name (text "delivery")) v deliveries)

    capacity_check : Value → List ConfigError
    capacity_check v =
        found_by (integer_error (of_destination name (text "queue_capacity")) v 1 100000)

    batch_check : Value → List ConfigError
    batch_check v = found_by (integer_error (of_destination name (text "batch_size")) v 1 10000)

    raw : (named_destination_errors name d ≡ []) ↔ (
        ◌≡◌ {A = List ConfigError} [] []
        × Attributes
            (λ v. choice_check v ≡ [])
            (λ v. capacity_check v ≡ [])
            (λ v. batch_check v ≡ [])
            d)
    raw =
        with_attribute_iff d.delivery choice_check _ _
          (λ e1.
            with_attribute_iff d.queue_capacity capacity_check _ _
              (λ e2.
                with_attribute_iff d.batch_size batch_check _ _
                  (λ e3.
                    let parts = append-eq-nil e3 (diagnosis_errors d.diagnostics) in
                    (
                      (λ h. ((parts.0 h).0, (diagnosis_errors_iff d.diagnostics).0 (parts.0 h).1)),
                      λ h. parts.1 (h.0, (diagnosis_errors_iff d.diagnostics).1 h.1),
                    ))
                  e2)
              e1)
          []

maybe_named_errors_iff :
    (o : Option Text) (d : Destination)
    → IsSilent (maybe_named_errors o d) ↔ (
        IsNamed o × Attributes (IsChoice deliveries) (IsIntegerIn 1 100000) (IsIntegerIn 1 10000) d)
unfolding maybe_named_errors
maybe_named_errors_iff none d = ((λ h. absurd (cc h)), λ h. elim (h.0) [ ])
maybe_named_errors_iff (some name) d = (
  (λ h. (tt, (named_destination_errors_iff name d).0 (cc h))),
  λ h. ap some ((named_destination_errors_iff name d).1 h.1),
)

pub each_destination_iff :
    (ds : List Destination) → All IsSilent (each_destination ds) ↔ All IsDestinationWellFormed ds
unfolding each_destination destination_errors
each_destination_iff [] = ((λ _. tt), λ _. tt)
each_destination_iff (d ∷ ds) = (
  (λ h.
      let p = (maybe_named_errors_iff d.name d).0 h.0 in
      (
        record {
          named = p.0;
          delivery = p.1.0;
          queue_capacity = p.1.1.0;
          batch_size = p.1.1.1.0;
          diagnostics = p.1.1.1.1;
        },
        (each_destination_iff ds).0 h.1,
      )),
  λ h. (
    (maybe_named_errors_iff d.name d).1
        (h.0.named, (h.0.delivery, (h.0.queue_capacity, (h.0.batch_size, h.0.diagnostics)))),
    (each_destination_iff ds).1 h.1,
  ),
)
