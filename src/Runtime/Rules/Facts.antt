-- ===== src/Runtime/Rules/Facts.antt =====
-- What the functions on identifiers, status codes and deadlines return.
use policyengine_observabili.Base.{
  Text, text, Dict, insert, ◌==◌, ==_iff, ==_refl, nan, inf, minus_inf, ℤ, pos, Float, finite,
  leb_float, Bool-cases, ◌≡◌, refl, true, Option, none, some, inl, inr, ◌↔◌, arith, [], ◌∷◌,
  is_some, ◌⊎◌,
}
use policyengine_observabili.Value.{Value, Failure}
use policyengine_observabili.Runtime.Rules.{
  matches_request_id, valid_request_id, request_id, header_value, reaches, outcome,
  bounded_shutdown_timeout,
}

-- Whatever a caller sends, a request has an identifier of the pattern, when a UUID has one.
pub request_id-IsMatch :
    (uuid : Text) (value : Value)
    → matches_request_id uuid ≡ true
    → matches_request_id (request_id uuid value) ≡ true
unfolding request_id valid_request_id
request_id-IsMatch uuid (Value.str t) h = elim (Bool-cases (matches_request_id t)) [
  | inl e ↦ rw e e
  | inr e ↦ rw e h
]
request_id-IsMatch uuid Value.null h = h
request_id-IsMatch uuid (Value.bool b) h = h
request_id-IsMatch uuid (Value.int n) h = h
request_id-IsMatch uuid (Value.float x) h = h
request_id-IsMatch uuid (Value.enum v) h = h
request_id-IsMatch uuid (Value.object n) h = h

-- If no header matches a name in any case, a value that is set under the name is read back.
pub header_value-insert :
    (lower : Text → Text) (headers : Dict Text) (name value : Text)
    → header_value lower headers name ≡ none
    → header_value lower (insert name value headers) name ≡ some value
unfolding header_value insert
header_value-insert lower [] name value h = rw (==_refl (lower name)) refl
header_value-insert lower ((key, w) ∷ headers) name value h =
    elim (Bool-cases (lower key == lower name)) [
      | inl e ↦ absurd (ground (arith, h, e))
      | inr e ↦ elim (Bool-cases (key == name)) [
        | inl same ↦ rw same (rw ((==_iff key name).0 same) (rw (==_refl (lower name)) refl))
        | inr other ↦
            rw other (rw e (header_value-insert lower headers name value (ground (arith, h, e))))
      ]
    ]

-- An outcome is an error exactly if there is an exception or the code is 500 or more.
outcome-error :
    (status : Option ℤ) (error : Option Failure)
    → (outcome status error ≡ text "error")
      ↔ ((is_some error ≡ true) ⊎ (reaches (pos 500) status ≡ true))
unfolding outcome
outcome-error status error = ground arith

-- A deadline is from 0 to 60 seconds whatever was configured, when the default is.
pub bounded_shutdown_timeout_lem :
    (parsed : Option Float) (default : Float)
    → (leb_float (finite (pos 0) 0) default ≡ true) × (leb_float default (finite (pos 60) 0) ≡ true)
    → (leb_float (finite (pos 0) 0) (bounded_shutdown_timeout parsed default) ≡ true)
      × (leb_float (bounded_shutdown_timeout parsed default) (finite (pos 60) 0) ≡ true)
unfolding bounded_shutdown_timeout
bounded_shutdown_timeout_lem none default h = h
bounded_shutdown_timeout_lem (some nan) default h = h
bounded_shutdown_timeout_lem (some inf) default h = h
bounded_shutdown_timeout_lem (some minus_inf) default h = h
bounded_shutdown_timeout_lem (some (finite n k)) default h = ground arith
