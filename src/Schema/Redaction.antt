-- ===== src/Schema/Redaction.antt =====
-- What `_redact` and the slices after it leave of the sensitive values.
use policyengine_observabili.Base.{
  ℕ, Text, text, contains, member, take, is_empty, List, [], ◌∷◌, ◌≡◌, sym, ◌==◌, ◌⊎◌, inl, inr,
  true, false, Option, some, arith, ==_iff, Bool-cases, if◌then◌else◌, replace, All, Dict,
}
use policyengine_observabili.Base.Replace.{IsForeign, contains-replace, contains-take, contains-nil}
use policyengine_observabili.Value.{Value}
use policyengine_observabili.Config.{ObservabilityConfig}
use policyengine_observabili.Schema.Attributes.{All-normalize_attributes}
use policyengine_observabili.Schema.{
  Scalar, Entry, redact, redact_each, redacted_mark, normalize_plain, normalize_scalar,
  normalize_attributes,
}

-- `u` can be told from the mark: it is not empty, has no bracket and is no part of REDACTED.
abbrev pub IsMaskable : Text → Type 0
IsMaskable u = IsForeign (text "REDACTED") u

redact_one :
    (u s t : Text)
    → IsMaskable u
    → (u ≡ s) ⊎ (contains u t ≡ false)
    → contains u (if is_empty s then t else replace s redacted_mark t) ≡ false
redact_one u [] t f (inl e) = absurd (ground (arith, f, contains-nil (text "REDACTED"), e))
redact_one u [] t f (inr n) = n
redact_one u (c ∷ s) t f h = contains-replace (text "REDACTED") (c ∷ s) u t f h

pub contains-redact_each :
    (u : Text) (values : List Text) (t : Text)
    → IsMaskable u
    → (member u values ≡ true) ⊎ (contains u t ≡ false)
    → contains u (redact_each values t) ≡ false
unfolding redact_each
contains-redact_each u [] t f (inl h) = ground arith
contains-redact_each u [] t f (inr h) = h
contains-redact_each u (s ∷ rest) t f (inr h) =
    contains-redact_each u rest _ f (inr (redact_one u s t f (inr h)))
contains-redact_each u (s ∷ rest) t f (inl h) = elim (Bool-cases (s == u)) [
  | inl e ↦
      contains-redact_each u rest _ f (inr (redact_one u s t f (inl (sym ((==_iff s u).0 e)))))
  | inr e ↦ contains-redact_each u rest _ f (inl (ground (arith, h, e)))
]

-- A sensitive value that can be told from the mark does not stand in a redacted text, wherever it
-- stood and whatever the other sensitive values are.
pub contains-redact :
    (config : ObservabilityConfig) (u t : Text)
    → IsMaskable u
    → member u config.sensitive_values ≡ true
    → contains u (redact t config) ≡ false
unfolding redact
contains-redact config u t f h = contains-redact_each u config.sensitive_values t f (inl h)

abbrev pub IsCleanValue : Text → Value → Type 0
IsCleanValue u (Value.str t) = contains u t ≡ false
IsCleanValue u _ = Unit

abbrev pub IsCleanScalar : Text → Scalar → Type 0
IsCleanScalar u (Scalar.str t) = contains u t ≡ false
IsCleanScalar u _ = Unit

abbrev pub IsCleanEntry : Text → Text × Entry → Type 0
IsCleanEntry u (k, Entry.one v) = IsCleanValue u v
IsCleanEntry u (k, Entry.attributes d) = All (λ p. IsCleanScalar u p.1) d

module _ (config : ObservabilityConfig) (u : Text) (f : IsMaskable u)
    (h : member u config.sensitive_values ≡ true) where
  pub contains-take-redact : (n : ℕ) (t : Text) → contains u (take n (redact t config)) ≡ false
  contains-take-redact n t = contains-take n u (redact t config) (contains-redact config u t f h)

  normalize_plain-clean :
      (v : Value) (s : Scalar) → normalize_plain v config ≡ some s → IsCleanScalar u s
  unfolding normalize_plain
  normalize_plain-clean (Value.str t) (Scalar.str s) e =
      ground (arith, contains-take-redact config.limits.max_string_length t)
  normalize_plain-clean v (Scalar.bool b) e = tt
  normalize_plain-clean v (Scalar.int n) e = tt
  normalize_plain-clean v (Scalar.float x) e = tt
  normalize_plain-clean v s e = ground arith

  normalize_scalar-clean :
      (v : Value) (s : Scalar) → normalize_scalar v config ≡ some s → IsCleanScalar u s
  unfolding normalize_scalar
  normalize_scalar-clean (Value.enum v) s e = normalize_plain-clean v s e
  normalize_scalar-clean v s e = normalize_plain-clean v s e

  pub normalize_attributes-clean :
      (lower : Text → Text) (values : Dict Value) (allowed_keys : Option (List Text))
      → All (λ p. IsCleanScalar u p.1) (normalize_attributes lower values config allowed_keys).0
  normalize_attributes-clean lower values allowed_keys =
      All-normalize_attributes lower config allowed_keys (λ p. IsCleanScalar u p.1)
        (λ raw_key v s _ e. normalize_scalar-clean v s e) values
