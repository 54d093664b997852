-- ===== src/Schema/Attributes.antt =====
-- Which attributes `normalize_attributes` keeps, with which values, and how many it counts out.
use policyengine_observabili.Base.{
  ℕ, ◌+◌, ◌≤◌, Text, strip, lookup, insert, lookup-insert, Dict, All, All-insert, length,
  length-take, is_finite, is_empty, ◌==◌, true, false, ◌≡◌, refl, subst, sym, Option, none, some,
  List, [], ◌∷◌, inl, inr, Bool-cases, Option-cases, arith, if◌then◌else◌,
}
use policyengine_observabili.Value.{Value}
use policyengine_observabili.Config.{ObservabilityConfig}
use policyengine_observabili.Schema.{
  Scalar, normalize_plain, normalize_scalar, normalize_item, normalize_items, normalize_attributes,
  omits_key, prohibited_key, is_allowed, redact,
}

-- The attribute that an item becomes, if it becomes one.
pub admitted :
    (Text → Text) → ObservabilityConfig → Option (List Text) → Text × Value → Option (Text × Scalar)
admitted lower config allowed_keys (raw_key, value) =
    if omits_key lower allowed_keys (strip raw_key)
    then none
    else elim (normalize_scalar value config) [
      | none ↦ none
      | some scalar ↦ some (strip raw_key, scalar)
    ]

-- `normalize_item` by way of `admitted`.
abbrev account : Option (Text × Scalar) → Dict Scalar × ℕ → Dict Scalar × ℕ
account none (d, n) = (d, n + 1)
account (some (k, s)) (d, n) = (insert k s d, n)

module _ (lower : Text → Text) (config : ObservabilityConfig)
    (allowed_keys : Option (List Text)) where
  normalize_item-eq-account :
      (item : Text × Value) (acc : Dict Scalar × ℕ)
      → normalize_item lower config allowed_keys item acc
        ≡ account (admitted lower config allowed_keys item) acc
  unfolding normalize_item admitted
  normalize_item-eq-account (raw_key, v) (d, n) = ground arith

  -- What each attribute that comes from an item has, each kept attribute has.
  module _ (P : Text × Scalar → Type 0)
      (step : (raw_key : Text) (v : Value) (s : Scalar)
        → omits_key lower allowed_keys (strip raw_key) ≡ false
        → normalize_scalar v config ≡ some s
        → P (strip raw_key, s)) where
    All-normalize_item :
        (item : Text × Value) (acc : Dict Scalar × ℕ)
        → All P acc.0
        → All P (normalize_item lower config allowed_keys item acc).0
    unfolding normalize_item
    All-normalize_item (raw_key, v) (d, n) c =
        elim (Bool-cases (omits_key lower allowed_keys (strip raw_key))) [
          | inl e ↦ rw e c
          | inr e ↦ elim (Option-cases (normalize_scalar v config)) [
            | inl o ↦ rw (e, o) c
            | inr (s, o) ↦
                rw (e, o)
                  (All-insert P (strip raw_key) s d
                    (λ j q. subst (λ k. P (k, s)) (sym q) (step raw_key v s e o)) c)
          ]
        ]

    All-normalize_items :
        (items : Dict Value) (acc : Dict Scalar × ℕ)
        → All P acc.0
        → All P (normalize_items lower config allowed_keys items acc).0
    unfolding normalize_items
    All-normalize_items [] acc c = c
    All-normalize_items (item ∷ items) acc c =
        All-normalize_items items _ (All-normalize_item item acc c)

    pub All-normalize_attributes :
        (values : Dict Value) → All P (normalize_attributes lower values config allowed_keys).0
    unfolding normalize_attributes
    All-normalize_attributes values = All-normalize_items values ([], 0) tt

-- A value within the limits that the configuration sets.
abbrev pub IsBounded : ObservabilityConfig → Scalar → Type 0
IsBounded config (Scalar.str t) = length t ≤ config.limits.max_string_length
IsBounded config (Scalar.float x) = is_finite x ≡ true
IsBounded config _ = Unit

module _ (lower : Text → Text) (config : ObservabilityConfig)
    (allowed_keys : Option (List Text)) where
  pub record IsSafe (attribute : Text × Scalar) : Type 0 where
    pub named : is_empty attribute.0 ≡ false
    pub permitted : prohibited_key lower attribute.0 ≡ false
    pub allowed : is_allowed allowed_keys attribute.0 ≡ true
    pub bounded : IsBounded config attribute.1

normalize_plain-IsBounded :
    (config : ObservabilityConfig) (v : Value) (s : Scalar)
    → normalize_plain v config ≡ some s
    → IsBounded config s
unfolding normalize_plain
normalize_plain-IsBounded config (Value.str t) (Scalar.str s) e =
    ground (arith, length-take config.limits.max_string_length (redact t config))
normalize_plain-IsBounded config (Value.float x) (Scalar.float y) e = ground arith
normalize_plain-IsBounded config v (Scalar.bool b) e = tt
normalize_plain-IsBounded config v (Scalar.int n) e = tt
normalize_plain-IsBounded config v s e = ground arith

normalize_scalar-IsBounded :
    (config : ObservabilityConfig) (v : Value) (s : Scalar)
    → normalize_scalar v config ≡ some s
    → IsBounded config s
unfolding normalize_scalar
normalize_scalar-IsBounded config (Value.enum v) s e = normalize_plain-IsBounded config v s e
normalize_scalar-IsBounded config v s e = normalize_plain-IsBounded config v s e

module _ (lower : Text → Text) (config : ObservabilityConfig)
    (allowed_keys : Option (List Text)) where
  -- Every attribute that is kept has a key that is not empty, has no prohibited part and is
  -- allowed, and a value that is a Boolean, an integer, a finite float or a text within the limit.
  pub normalize_attributes-IsSafe :
      (values : Dict Value)
      → All
          (IsSafe lower config allowed_keys)
          (normalize_attributes lower values config allowed_keys).0
  normalize_attributes-IsSafe =
      All-normalize_attributes lower config allowed_keys (IsSafe lower config allowed_keys)
        λ raw_key v s kept e. record {
          named = unfold omits_key in ground arith;
          permitted = unfold omits_key in ground arith;
          allowed = unfold omits_key in ground arith;
          bounded = normalize_scalar-IsBounded config v s e;
        }

  -- The last admitted value of a key, and the number of items that are not admitted.
  pub last_admitted : Text → Dict Value → Option Scalar
  last_admitted k [] = none
  last_admitted k (item ∷ items) = elim (last_admitted k items) [
    | some s ↦ some s
    | none ↦ elim (admitted lower config allowed_keys item) [
      | none ↦ none
      | some (j, s) ↦ if j == k then some s else none
    ]
  ]

  pub count_refused : Dict Value → ℕ
  count_refused [] = 0
  count_refused (item ∷ items) =
      (elim (admitted lower config allowed_keys item) [ none ↦ 1 | some _ ↦ 0 ])
      + count_refused items

  abbrev over : Option Scalar → Option Scalar → Option Scalar
  over (some s) o = some s
  over none o = o

  lookup-account :
      (k : Text) (o : Option (Text × Scalar)) (acc : Dict Scalar × ℕ)
      → lookup k (account o acc).0
        ≡ over
            (elim o [ none ↦ none | some (j, s) ↦ if j == k then some s else none ])
            (lookup k acc.0)
  lookup-account k none (d, n) = refl
  lookup-account k (some (j, s)) (d, n) = ground (arith, lookup-insert j k s d)

  lookup-normalize_items :
      (k : Text) (items : Dict Value) (acc : Dict Scalar × ℕ)
      → lookup k (normalize_items lower config allowed_keys items acc).0
        ≡ over (last_admitted k items) (lookup k acc.0)
  unfolding normalize_items last_admitted
  lookup-normalize_items k [] acc = refl
  lookup-normalize_items k (item ∷ items) acc = ground (
    arith,
    normalize_item-eq-account lower config allowed_keys item acc,
    lookup-account k (admitted lower config allowed_keys item) acc,
    lookup-normalize_items k items (normalize_item lower config allowed_keys item acc),
  )

  count-normalize_items :
      (items : Dict Value) (acc : Dict Scalar × ℕ)
      → (normalize_items lower config allowed_keys items acc).1 ≡ acc.1 + count_refused items
  unfolding normalize_items count_refused
  count-normalize_items [] acc = omega arith
  count-normalize_items (item ∷ items) (d, n) = ground (
    arith,
    normalize_item-eq-account lower config allowed_keys item (d, n),
    count-normalize_items items (normalize_item lower config allowed_keys item (d, n)),
  )

  -- A key has the last value that an item admits for it, or is absent if no item admits one; and the
  -- omitted count is the number of items that are not admitted.
  pub normalize_attributes_lem :
      (k : Text) (values : Dict Value)
      → (lookup k (normalize_attributes lower values config allowed_keys).0
          ≡ last_admitted k values)
        × ((normalize_attributes lower values config allowed_keys).1 ≡ count_refused values)
  unfolding normalize_attributes lookup
  normalize_attributes_lem k values = (
    ground (arith, lookup-normalize_items k values ([], 0)),
    omega (arith, count-normalize_items values ([], 0)),
  )
