-- ===== src/Runtime/State.antt =====
-- policyengine_observability/runtime.py: the requests and operations that a context carries.
-- A context variable holds an index into the store of the states that were created, which every
-- context shares; a token is the context where a variable was set with its previous value. What a
-- call makes the destinations and the providers do is listed in the order of the calls. The handle
-- of a span, what an extraction finds and the correlation fields come from the providers.
pub mod Store
pub mod Keeps
use policyengine_observabili.Base.{
  ℕ, zero, suc, Text, text, ◌++◌, Dict, lookup, update, ℤ, Float, Bool, Option, none, some, List,
  nat_eq, if◌then◌else◌, [], ◌∷◌, map,
}
use policyengine_observabili.Value.{Value, Failure}
use policyengine_observabili.Config.{ObservabilityConfig}
use policyengine_observabili.Schema.{Scalar, RecordInput}
use policyengine_observabili.Runtime.Rules.{request_id}

-- The context and the value that a reset gives back.
pub record Token : Type 0 where
  pub context : ℕ
  pub previous : Option ℕ

pub record RequestState : Type 0 where
  pub request_id : Text
  pub method : Text
  pub route : Text
  pub start_time : Float
  pub span : Option ℕ
  pub token : Option Token
  pub status_code : Option ℤ
  pub attributes : Dict Scalar
  pub error : Option Failure
  pub completed : Bool
  pub route_reader : Option ℕ

pub record OperationState : Type 0 where
  pub name : Text
  pub kind : Text
  pub request_id : Option Text
  pub start_time : Float
  pub span : Option ℕ
  pub token : Option Token
  pub attributes : Dict Scalar
  pub error : Option Failure
  pub completed : Bool

-- The arguments of `start_span`; a context and a link are handles of the providers.
pub record SpanStart : Type 0 where
  pub name : Text
  pub consumer : Bool
  pub attributes : Dict Value
  pub parent_context : Option ℕ
  pub links : List ℕ

-- What a call asks of the delivery, of the providers and of the diagnostics.
pub data Effect : Type 0 where
  emitted : RecordInput → Effect
  span_attributes : Dict Value → Effect
  request_recorded : Float → Dict Value → Effect
  operation_recorded : Float → Dict Value → Effect
  error_recorded : Dict Value → Effect
  span_started : SpanStart → Effect
  span_ended : Option ℕ → Option Failure → Bool → Effect
  omitted : ℕ → Effect
  reported : Text → Effect

-- The stores, and the variables of the context `here` that runs.
pub record Runtime : Type 0 where
  pub config : ObservabilityConfig
  pub requests : List RequestState
  pub operations : List OperationState
  pub here : ℕ
  pub request : Option ℕ
  pub operation : Option ℕ
  pub effects : List Effect

unfoldable pub get {ℓ} : {A : Type ℓ} → List A → ℕ → Option A
get [] i = none
get (x ∷ xs) zero = some x
get (x ∷ xs) (suc i) = get xs i

unfoldable pub set_at {ℓ} : {A : Type ℓ} → ℕ → A → List A → List A
set_at i y [] = []
set_at zero y (x ∷ xs) = y ∷ xs
set_at (suc i) y (x ∷ xs) = x ∷ set_at i y xs

-- The object that a variable refers to.
unfoldable pub read {ℓ} : {A : Type ℓ} → Option ℕ → List A → Option A
read none xs = none
read (some i) xs = get xs i

unfoldable pub write {ℓ} : {A : Type ℓ} → Option ℕ → A → List A → List A
write none y xs = xs
write (some i) y xs = set_at i y xs

abbrev pub active_request : Runtime → Option RequestState
active_request r = read r.request r.requests

abbrev pub active_operation : Runtime → Option OperationState
active_operation r = read r.operation r.operations

abbrev pub ask : Effect → Runtime → Runtime
ask e r = record r { effects = r.effects ++ e ∷ [] }

abbrev pub store_request : RequestState → Runtime → Runtime
store_request s r = record r { requests = write r.request s r.requests }

unfoldable pub value_of : Scalar → Value
value_of (Scalar.bool b) = Value.bool b
value_of (Scalar.int n) = Value.int n
value_of (Scalar.float x) = Value.float x
value_of (Scalar.str t) = Value.str t

abbrev pub values_of : Dict Scalar → Dict Value
values_of d = map (λ p. (p.0, value_of p.1)) d

abbrev pub store_operation : Option ℕ → OperationState → Runtime → Runtime
store_operation o s r = record r { operations = write o s r.operations }

-- Omitted attributes are counted when there are any.
unfoldable pub count_omitted : ℕ → Runtime → Runtime
count_omitted n r = if nat_eq n 0 then r else ask (omitted n) r

abbrev pub optional_text : Option Text → Value
optional_text none = Value.null
optional_text (some t) = Value.str t

abbrev pub optional_int : Option ℤ → Value
optional_int none = Value.null
optional_int (some n) = Value.int n

-- The attributes of the request and then of the operation.
unfoldable pub carried : Option RequestState → Option OperationState → Dict Scalar
carried request operation =
    let from_request : Dict Scalar = elim request [ none ↦ [] | some s ↦ s.attributes ] in
    elim operation [ none ↦ from_request | some s ↦ update from_request s.attributes ]

-- `{key: attributes[key] for key in keys if key in attributes}`
unfoldable pub select {ℓ} : {A : Type ℓ} → List Text → Dict A → Dict A
select [] attributes = []
select (key ∷ keys) attributes =
    let rest = select keys attributes in
    elim (lookup key attributes) [ none ↦ rest | some value ↦ (key, value) ∷ rest ]

unfoldable pub active_dispatch_attributes : Runtime → Dict Scalar
active_dispatch_attributes r =
    select r.config.dispatch_attribute_keys (carried (active_request r) (active_operation r))

unfoldable pub metric_base : Runtime → Dict Value
metric_base r =
    (text "service.name", Value.str r.config.service.name)
    ∷ (text "service.role", Value.str r.config.service.role)
    ∷ (text "deployment.environment.name", Value.str r.config.deployment.environment)
    ∷ (text "cloud.platform", Value.str r.config.deployment.platform)
    ∷ []

unfoldable pub emit_record : RecordInput → Runtime → Runtime
emit_record input r =
    ask
      (emitted (record input {
        attributes = update input.attributes (values_of (active_dispatch_attributes r));
      }))
      r
