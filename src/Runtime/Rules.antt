-- ===== src/Runtime/Rules.antt =====
-- policyengine_observability/runtime.py: the functions on identifiers, headers, status codes and
-- deadlines below the classes. `uuid` is a new UUID's text, `lower` is `str.lower`.
pub mod Facts
use policyengine_observabili.Base.{
  ℕ, ◌+◌, ◌/◌, leb, any, all, length, Text, text, ◌==◌, Dict, ℤ, pos, leb_ℤ, Float, finite,
  is_finite, max_float, min_float, is_some, Bool, false, ◌&&◌, ◌||◌, if◌then◌else◌, Option, none,
  some, or_else, [], ◌∷◌, nat_eq, pos_part,
}
use policyengine_observabili.Value.{Value, Failure}

abbrev pub request_id_header : Text
request_id_header = text "X-PolicyEngine-Request-Id"

abbrev pub traceparent_header : Text
traceparent_header = text "traceparent"

-- The class of characters of `_REQUEST_ID_PATTERN`.
abbrev pub is_id_char : ℕ → Bool
is_id_char c =
    (leb b'A' c && leb c b'Z')
    || ((leb b'a' c && leb c b'z')
        || ((leb b'0' c && leb c b'9') || any (nat_eq c) (b'.' ∷ b'_' ∷ b':' ∷ b'-' ∷ [])))

-- A full match of `_REQUEST_ID_PATTERN`.
unfoldable pub matches_request_id : Text → Bool
matches_request_id t = all is_id_char t && (leb 1 (length t) && leb (length t) 128)

unfoldable pub valid_request_id : Value → Option Text
valid_request_id (Value.str t) = if matches_request_id t then some t else none
valid_request_id _ = none

unfoldable pub request_id : Text → Value → Text
request_id uuid value = or_else (valid_request_id value) uuid

-- A header that is missing is read as `None`.
abbrev pub header : Option Text → Value
header none = Value.null
header (some t) = Value.str t

unfoldable pub header_value : (Text → Text) → Dict Text → Text → Option Text
header_value lower [] name = none
header_value lower ((key, value) ∷ headers) name =
    if lower key == lower name then some value else header_value lower headers name

-- `f"{status_code // 100}xx"` of a code from 100 to 599, whose hundreds are one digit.
unfoldable pub status_class : Option ℤ → Text
status_class none = text "unknown"
status_class (some code) =
    if leb_ℤ (pos 100) code && leb_ℤ code (pos 599)
    then (b'0' + (pos_part code / 100)) ∷ text "xx"
    else text "unknown"

-- `status_code is not None and status_code >= bound`
abbrev pub reaches : ℤ → Option ℤ → Bool
reaches bound none = false
reaches bound (some code) = leb_ℤ bound code

unfoldable pub outcome : Option ℤ → Option Failure → Text
outcome status error =
    if is_some error || reaches (pos 500) status
    then text "error"
    else if reaches (pos 400) status
    then text "client_error"
    else text "success"

-- `parsed` is what `float(value)` returns, if it does not raise.
unfoldable pub bounded_shutdown_timeout : Option Float → Float → Float
bounded_shutdown_timeout none default = default
bounded_shutdown_timeout (some parsed) default =
    if is_finite parsed
    then min_float (max_float parsed (finite (pos 0) 0)) (finite (pos 60) 0)
    else default
