-- ===== src/Schema.antt =====
-- policyengine_observability/schema.py: what may stand in a log record or on a metric.
-- `lower` is Python's `str.lower`, `upper` its `str.upper`; the clock is read by the caller.
pub mod Redaction
pub mod Attributes
pub mod Records
use policyengine_observabili.Base.{
  ℕ, ◌+◌, Text, text, strip, contains, replace, member, take, any, is_empty, Dict, insert,
  is_finite, nat_eq, pos, Bool, true, not, ◌||◌, if◌then◌else◌, ℤ, Float, List, [], ◌∷◌, Option,
  none, some, or_else,
}
use policyengine_observabili.Value.{Value, Failure}
use policyengine_observabili.Config.{ObservabilityConfig, local_attribute_keys}

abbrev pub schema_version : Text
schema_version = text "policyengine.observability.v2"

abbrev pub prohibited_key_parts : List Text
prohibited_key_parts =
    text "authorization"
    ∷ text "cookie"
    ∷ text "credential"
    ∷ text "password"
    ∷ text "secret"
    ∷ text "token"
    ∷ text "request_body"
    ∷ text "response_body"
    ∷ text "household"
    ∷ text "person"
    ∷ text "reform"
    ∷ text "payload"
    ∷ text "raw_ip"
    ∷ text "client_ip"
    ∷ text "prompt"
    ∷ text "model_response"
    ∷ []

-- The values that an attribute may have.
pub data Scalar : Type 0 where
  bool : Bool → Scalar
  int : ℤ → Scalar
  float : Float → Scalar
  str : Text → Scalar

-- What a record holds under a key.
pub data Entry : Type 0 where
  one : Value → Entry
  attributes : Dict Scalar → Entry

abbrev pub redacted_mark : Text
redacted_mark = text "[REDACTED]"

-- The loop of `_redact` over the sensitive values.
unfoldable pub redact_each : List Text → Text → Text
redact_each [] t = t
redact_each (s ∷ rest) t = redact_each rest (if is_empty s then t else replace s redacted_mark t)

unfoldable pub redact : Text → ObservabilityConfig → Text
redact value config = redact_each config.sensitive_values value

unfoldable pub limit : Text → ObservabilityConfig → Text
limit value config = take config.limits.max_string_length value

-- `_normalize_scalar` below its `Enum` test.
unfoldable pub normalize_plain : Value → ObservabilityConfig → Option Scalar
normalize_plain (Value.bool b) config = some (Scalar.bool b)
normalize_plain (Value.int n) config = some (Scalar.int n)
normalize_plain (Value.float x) config = if is_finite x then some (Scalar.float x) else none
normalize_plain (Value.str t) config =
    some (Scalar.str (take config.limits.max_string_length (redact t config)))
normalize_plain _ config = none

unfoldable pub normalize_scalar : Value → ObservabilityConfig → Option Scalar
unfolding normalize_plain
normalize_scalar (Value.enum v) config = normalize_plain v config
normalize_scalar v config = normalize_plain v config

unfoldable pub error_fields : Failure → ObservabilityConfig → Dict Value
error_fields error config =
    (text "error.type", Value.str error.type_name)
    ∷ (
      text "error.message",
      Value.str (
          take config.limits.max_error_message_length
            (redact (or_else error.message (text "<unprintable>")) config)),
    )
    ∷ (
      text "error.stack",
      Value.str (take config.limits.max_stack_length (redact (or_else error.stack []) config)),
    )
    ∷ []

-- `allowed_keys is None or key in allowed_keys`
unfoldable pub is_allowed : Option (List Text) → Text → Bool
is_allowed none key = true
is_allowed (some keys) key = member key keys

module _ (lower : Text → Text) where
  unfoldable pub prohibited_key : Text → Bool
  prohibited_key key = any (λ part. contains part (lower key)) prohibited_key_parts

  -- The test that omits a key whatever its value is.
  unfoldable pub omits_key : Option (List Text) → Text → Bool
  omits_key allowed_keys key =
      is_empty key || (prohibited_key key || not (is_allowed allowed_keys key))

  -- One round of the loop of `normalize_attributes`.
  unfoldable pub normalize_item :
      ObservabilityConfig → Option (List Text) → Text × Value → Dict Scalar × ℕ → Dict Scalar × ℕ
  normalize_item config allowed_keys (raw_key, value) (normalized, omitted) =
      let key = strip raw_key in
      if omits_key allowed_keys key
      then (normalized, omitted + 1)
      else elim (normalize_scalar value config) [
        | none ↦ (normalized, omitted + 1)
        | some scalar ↦ (insert key scalar normalized, omitted)
      ]

  unfoldable pub normalize_items :
      ObservabilityConfig → Option (List Text) → Dict Value → Dict Scalar × ℕ → Dict Scalar × ℕ
  normalize_items config allowed_keys [] acc = acc
  normalize_items config allowed_keys (item ∷ items) acc =
      normalize_items config allowed_keys items (normalize_item config allowed_keys item acc)

  -- `values or {}` is the empty dict for `None`.
  unfoldable pub normalize_attributes :
      Dict Value → ObservabilityConfig → Option (List Text) → Dict Scalar × ℕ
  normalize_attributes values config allowed_keys =
      normalize_items config allowed_keys values ([], 0)

  unfoldable pub metric_attributes : Dict Value → ObservabilityConfig → Dict Scalar
  metric_attributes values config =
      (normalize_attributes values config (some config.metric_attribute_keys)).0

-- The keyword arguments of `build_record`; `context or {}` and `attributes or {}` are the empty
-- dict for `None`.
pub record RecordInput : Type 0 where
  pub severity : Text
  pub event_name : Option Text
  pub message : Option Text
  pub context : Dict Value
  pub attributes : Dict Value
  pub error : Option Failure

abbrev pub Record : Type 0
Record = Dict Entry

abbrev pub put_text : Text → Text → Record → Record
put_text key value record_ = insert key (Entry.one (Value.str value)) record_

-- `if value: record[key] = f(value)`: neither `None` nor the empty text.
unfoldable pub put_nonempty : Text → (Text → Text) → Option Text → Record → Record
put_nonempty key f none record_ = record_
put_nonempty key f (some value) record_ =
    if is_empty value then record_ else put_text key (f value) record_

-- `if value is not None: record[str(key)] = value`
unfoldable pub put_value : Text → Value → Record → Record
put_value key Value.null record_ = record_
put_value key value record_ = insert key (Entry.one value) record_

unfoldable pub put_context : Dict Value → Record → Record
put_context [] record_ = record_
put_context ((key, value) ∷ context) record_ = put_context context (put_value key value record_)

unfoldable pub put_attributes : Dict Scalar × ℕ → Record → Record
put_attributes (safe, omitted) record_ =
    let with_safe =
      if is_empty safe
      then record_
      else insert (text "attributes") (Entry.attributes safe) record_ in
    if nat_eq omitted 0
    then with_safe
    else insert (text "attributes.omitted_count") (Entry.one (Value.int (pos omitted))) with_safe

-- `record.update(error_fields(error, config))`
unfoldable pub put_fields : Dict Value → Record → Record
put_fields [] record_ = record_
put_fields ((key, value) ∷ fields) record_ =
    put_fields fields (insert key (Entry.one value) record_)

unfoldable pub put_error : Option Failure → ObservabilityConfig → Record → Record
put_error none config record_ = record_
put_error (some error) config record_ = put_fields (error_fields error config) record_

-- The dict that `build_record` begins with.
unfoldable pub identity_record : (Text → Text) → ObservabilityConfig → Text → Text → Record
identity_record upper config timestamp severity =
    (text "schema_version", Entry.one (Value.str schema_version))
    ∷ (text "timestamp", Entry.one (Value.str timestamp))
    ∷ (text "severity", Entry.one (Value.str (upper severity)))
    ∷ (text "service.name", Entry.one (Value.str (limit config.service.name config)))
    ∷ (text "service.namespace", Entry.one (Value.str (limit config.service.namespace config)))
    ∷ (text "service.version", Entry.one (Value.str (limit config.service.version config)))
    ∷ (text "service.role", Entry.one (Value.str (limit config.service.role config)))
    ∷ (
      text "deployment.environment.name",
      Entry.one (Value.str (limit config.deployment.environment config)),
    )
    ∷ (text "cloud.platform", Entry.one (Value.str config.deployment.platform))
    ∷ []

module _ (lower upper : Text → Text) where
  unfoldable pub build_record : ObservabilityConfig → Text → RecordInput → Record
  unfolding local_attribute_keys
  build_record config timestamp input =
      let r0 = identity_record upper config timestamp input.severity in
      let r1 =
        put_nonempty (text "cloud.region") (λ t. limit t config) config.deployment.region r0 in
      let r2 =
        put_nonempty (text "service.instance.id") (λ t. limit t config)
          config.deployment.instance_id r1 in
      let r3 = put_nonempty (text "event.name") (λ t. limit t config) input.event_name r2 in
      let r4 =
        put_nonempty (text "message") (λ t. take config.limits.max_string_length (redact t config))
          input.message r3 in
      let r5 = put_context input.context r4 in
      let r6 =
        put_attributes
          (normalize_attributes lower input.attributes config (local_attribute_keys config)) r5 in
      put_error input.error config r6
