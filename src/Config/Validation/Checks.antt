-- ===== src/Config/Validation/Checks.antt =====
-- Each check of `validation_errors` is silent exactly on the values that its field may have.
use native.Mathlib.Nat.{one-le-pow}
use policyengine_observabili.Base.{
  ℕ, ◌+◌, ◌*◌, ◌^◌, ◌≤◌, ◌<◌, pos, negsuc, finite, Text, strip, member, ◌≡◌, ◌≢◌, ◌↔◌, ap, true,
  List, [], ◌∷◌, Option, none, some, arith, All, Bool-cases, inl, inr,
}
use policyengine_observabili.Value.{Value}
use policyengine_observabili.Config.Validation.{
  Collection, tuple, frozenset, Field, is_nonblank, is_choice, choice_error, number_error,
  integer_error, string_error, severity_error, sensitive_entries, sensitive_error, key_entries,
  attribute_key_errors, optional_key_errors, whole,
}

-- A text with a character that is not white space.
abbrev pub IsNonBlank : Value → Type 0
IsNonBlank (Value.str t) = strip t ≢ []
IsNonBlank _ = ⊥

abbrev pub IsChoice : List Text → Value → Type 0
IsChoice choices (Value.str t) = member t choices ≡ true
IsChoice choices _ = ⊥

-- A number, and no Boolean, from a / 2 ^ j to m.
abbrev pub IsNumberIn : ℕ → ℕ → ℕ → Value → Type 0
IsNumberIn a j m (Value.int (pos n)) = (a ≤ n * 2 ^ j) × (n ≤ m)
IsNumberIn a j m (Value.float (finite (pos n) k)) = (a * 2 ^ k ≤ n * 2 ^ j) × (n ≤ m * 2 ^ k)
IsNumberIn a j m _ = ⊥

abbrev pub IsIntegerIn : ℕ → ℕ → Value → Type 0
IsIntegerIn a m (Value.int (pos n)) = (a ≤ n) × (n ≤ m)
IsIntegerIn a m _ = ⊥

abbrev pub IsInteger : Value → Type 0
IsInteger (Value.int n) = Unit
IsInteger _ = ⊥

abbrev pub IsTuple : Collection → Type 0
IsTuple (tuple values) = All IsNonBlank values
IsTuple _ = ⊥

abbrev pub IsFrozenset : Collection → Type 0
IsFrozenset (frozenset values) = All IsNonBlank values
IsFrozenset _ = ⊥

abbrev pub IsOptional : Option Collection → Type 0
IsOptional none = Unit
IsOptional (some values) = IsFrozenset values

is_nonblank_iff : (v : Value) → (is_nonblank v ≡ true) ↔ IsNonBlank v
unfolding is_nonblank
is_nonblank_iff (Value.str t) = ground arith
is_nonblank_iff (Value.int n) = ground arith
is_nonblank_iff _ = ground arith

pub string_error_iff : (name : Text) (v : Value) → (string_error name v ≡ some []) ↔ IsNonBlank v
unfolding string_error
string_error_iff name v =
    ((λ h. (is_nonblank_iff v).0 (ground (arith, h))), λ h. ground (arith, (is_nonblank_iff v).1 h))

pub choice_error_iff :
    (name : Field) (v : Value) (choices : List Text)
    → (choice_error name v choices ≡ some []) ↔ IsChoice choices v
unfolding choice_error is_choice
choice_error_iff name (Value.str t) choices = ground arith
choice_error_iff name _ choices = ground arith

pow_pos : (k : ℕ) → 1 ≤ 2 ^ k
pow_pos k = one-le-pow k 2 (omega arith)

pub integer_error_iff :
    (name : Field) (v : Value) (a m : ℕ) → (integer_error name v a m ≡ some []) ↔ IsIntegerIn a m v
unfolding integer_error
integer_error_iff name (Value.int (pos n)) a m = ground arith
integer_error_iff name (Value.int (negsuc n)) a m = ground arith
integer_error_iff name _ a m = ground arith

pub number_error_iff :
    (name : Field) (v : Value) (a j m : ℕ)
    → m < 100000
    → (number_error name v (finite (pos a) j) (whole m) ≡ some []) ↔ IsNumberIn a j m v
unfolding number_error
number_error_iff name (Value.int (pos n)) a j m h = ground arith
number_error_iff name (Value.int (negsuc n)) a j m h = ground (arith, pow_pos j)
number_error_iff name (Value.float (finite (pos n) k)) a j m h = ground arith
number_error_iff name (Value.float (finite (negsuc n) k)) a j m h = ground (arith, pow_pos j)
number_error_iff name _ a j m h = ground arith

pub severity_error_iff : (v : Value) → (severity_error v ≡ some []) ↔ IsInteger v
unfolding severity_error
severity_error_iff (Value.int n) = ground arith
severity_error_iff _ = ground arith

sensitive_entries_iff :
    (index : ℕ) (values : List Value)
    → (sensitive_entries index values ≡ []) ↔ All IsNonBlank values
unfolding sensitive_entries
sensitive_entries_iff index [] = ground arith
sensitive_entries_iff index (v ∷ values) = elim (Bool-cases (is_nonblank v)) [
  | inl full ↦ rw full (
    (λ h. ((is_nonblank_iff v).0 full, (sensitive_entries_iff (index + 1) values).0 h)),
    λ h. (sensitive_entries_iff (index + 1) values).1 h.1,
  )
  | inr blank ↦
      rw blank
        ((λ h. absurd (cc h)), λ h. absurd (ground (arith, blank, (is_nonblank_iff v).1 h.0)))
]

key_entries_iff :
    (name : Text) (values : List Value) → (key_entries name values ≡ []) ↔ All IsNonBlank values
unfolding key_entries
key_entries_iff name [] = ground arith
key_entries_iff name (v ∷ values) = elim (Bool-cases (is_nonblank v)) [
  | inl full ↦ rw full (
    (λ h. ((is_nonblank_iff v).0 full, (key_entries_iff name values).0 h)),
    λ h. (key_entries_iff name values).1 h.1,
  )
  | inr blank ↦
      rw blank
        ((λ h. absurd (cc h)), λ h. absurd (ground (arith, blank, (is_nonblank_iff v).1 h.0)))
]

pub sensitive_error_iff : (c : Collection) → (sensitive_error c ≡ some []) ↔ IsTuple c
unfolding sensitive_error
sensitive_error_iff (tuple values) = (
  (λ h. (sensitive_entries_iff 0 values).0 (cc h)),
  λ h. ap some ((sensitive_entries_iff 0 values).1 h),
)
sensitive_error_iff _ = ground arith

pub attribute_key_errors_iff :
    (name : Text) (c : Collection) → (attribute_key_errors name c ≡ some []) ↔ IsFrozenset c
unfolding attribute_key_errors
attribute_key_errors_iff name (frozenset values) = (
  (λ h. (key_entries_iff name values).0 (cc h)),
  λ h. ap some ((key_entries_iff name values).1 h),
)
attribute_key_errors_iff name _ = ground arith

pub optional_key_errors_iff :
    (name : Text) (o : Option Collection) → (optional_key_errors name o ≡ some []) ↔ IsOptional o
unfolding optional_key_errors
optional_key_errors_iff name none = ground arith
optional_key_errors_iff name (some c) = attribute_key_errors_iff name c
