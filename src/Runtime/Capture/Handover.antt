-- ===== src/Runtime/Capture/Handover.antt =====
-- The identifier of a request goes with the context that is captured for another process.
use policyengine_observabili.Base.{
  ℕ, Text, text, Dict, lookup, insert, lookup-insert, update, member, take, ◌==◌, Float, map,
  is_some, is_empty, ◌≡◌, refl, ◌∙◌, Bool, true, false, Bool-cases, Option-cases, inl, inr, Option,
  some, List, [], ◌∷◌, arith,
}
use policyengine_observabili.Value.{Value}
use policyengine_observabili.Config.{local_attribute_keys}
use policyengine_observabili.Schema.{Scalar, normalize_attributes}
use policyengine_observabili.Runtime.Rules.{matches_request_id, valid_request_id}
use policyengine_observabili.Runtime.State.{
  Runtime, RequestState, OperationState, active_request, read, count_omitted,
}
use policyengine_observabili.Runtime.State.Store.{get-last}
use policyengine_observabili.Runtime.Outside.{Outside}
use policyengine_observabili.Runtime.Requests.{carried_id}
use policyengine_observabili.Runtime.Operations.{
  Scope, Origin, carrier_of, origin_from, remote_attributes, open_operation, start_operation,
  is_trace_header,
}
use policyengine_observabili.Runtime.Capture.{captured_text, capture_keys, capture_context}

-- A captured context as the values that the other process is given.
abbrev pub as_values : Dict Text → Dict Value
as_values d = map (λ item. (item.0, Value.str item.1)) d

lookup-as_values :
    (k : Text) (d : Dict Text) (t : Text)
    → lookup k d ≡ some t
    → lookup k (as_values d) ≡ some (Value.str t)
unfolding lookup
lookup-as_values k [] t h = absurd (ground (arith, h))
lookup-as_values k ((j, v) ∷ d) t h = elim (Bool-cases (j == k)) [
  | inl e ↦ rw e (ground (arith, h, e))
  | inr e ↦ rw e (lookup-as_values k d t (ground (arith, h, e)))
]

has_items : {A : Type 0} (k : Text) (d : Dict A) (x : A) → lookup k d ≡ some x → is_empty d ≡ false
unfolding lookup
has_items k [] x h = absurd (ground (arith, h))
has_items k (item ∷ d) x h = refl

module _ (w : Outside) where
  lookup-capture_keys :
      (k : Text) (limit : ℕ) (keys : List Text) (source : Dict Scalar) (captured : Dict Text)
      → member k keys ≡ false
      → lookup k (capture_keys w limit keys source captured) ≡ lookup k captured
  unfolding capture_keys
  lookup-capture_keys k limit [] source captured h = refl
  lookup-capture_keys k limit (key ∷ keys) source captured h =
      let other : (key == k) ≡ false = ground (arith, h) in
      let rest : member k keys ≡ false = ground (arith, h) in
      elim (Option-cases (lookup key source)) [
        | inl e ↦ rw e (lookup-capture_keys k limit keys source captured rest)
        | inr (value, e) ↦ elim (Option-cases (captured_text w value)) [
          | inl f ↦ rw e (rw f (lookup-capture_keys k limit keys source captured rest))
          | inr (t, f) ↦ rw e (
              rw f (
                lookup-capture_keys k limit keys source (insert key (take limit t) captured) rest
                ∙ lookup-insert key k (take limit t) captured
                ∙ rw other refl))
        ]
      ]

  lookup-capture_context :
      (moment : Text) (r : Runtime) (s : RequestState)
      → active_request r ≡ some s
      → member (text "request_id") r.config.dispatch_attribute_keys ≡ false
      → lookup (text "request_id") (capture_context w moment r) ≡ some s.request_id
  unfolding capture_context carried_id
  lookup-capture_context moment r s a h =
      rw (a, capture_context, carried_id)
        (rw a (
          lookup-capture_keys (text "request_id") r.config.limits.max_string_length
            r.config.dispatch_attribute_keys _ _ h
          ∙ lookup-insert (text "request_id") (text "request_id") s.request_id _))

  carrier-as_values :
      (d : Dict Text)
      → ((t : Text) → w.printed (Value.str t) ≡ some t)
      → is_some (carrier_of w (as_values d)) ≡ true
  unfolding carrier_of
  carrier-as_values [] h = refl
  carrier-as_values ((k, t) ∷ d) h = elim (Bool-cases (is_trace_header w k)) [
    | inl e ↦ elim (Option-cases (carrier_of w (as_values d))) [
      | inl f ↦ absurd (ground (arith, f, carrier-as_values d h))
      | inr (c, f) ↦ rw (e, h t, f) refl
    ]
    | inr e ↦ rw e (carrier-as_values d h)
  ]

  -- The active operation of the context that starting left.
  abbrev pub StartsWith : Option Text → Option ℕ × Runtime → Type 0
  StartsWith id x = (o : OperationState) × (read x.0 x.1.operations ≡ some o) × (o.request_id ≡ id)

  open-StartsWith :
      (now : Float) (name id : Text) (origin : Origin) (q : Runtime)
      → origin.request_id ≡ some id
      → StartsWith (some id) (open_operation w now name origin q)
  unfolding open_operation read
  open-StartsWith now name id origin q h = (_, get-last q.operations _, rw h refl)

  origin-request_id :
      (scope : Scope) (carrier : Dict Text) (safe : Dict Scalar) (q : Runtime) (id : Text)
      → lookup (text "request_id") scope.remote_context ≡ some (Value.str id)
      → matches_request_id id ≡ true
      → (origin_from w scope carrier safe q).request_id ≡ some id
  unfolding origin_from valid_request_id
  origin-request_id scope carrier safe q id h m = rw h (rw m refl)

  start-received :
      (now : Float) (scope : Scope) (q : Runtime) (carrier : Dict Text)
      → is_empty scope.remote_context ≡ false
      → carrier_of w scope.remote_context ≡ some carrier
      → (safe : Dict Scalar) × (p : Runtime) × (start_operation w now scope q
          ≡ open_operation w now scope.name (origin_from w scope carrier safe p) p)
  unfolding start_operation
  start-received now scope q carrier e f =
      let own =
        normalize_attributes w.lower scope.attributes q.config (local_attribute_keys q.config) in
      let far = remote_attributes w scope.remote_context q.config in
      (
        update far.0 own.0,
        count_omitted far.1 (count_omitted own.1 q),
        rw (e, start_operation) (rw f refl),
      )

  -- If a request is active whose identifier matches the pattern, "request_id" is no dispatch
  -- attribute, and `str` of a text is the text, then an operation that is started elsewhere with the
  -- context captured here has the identifier of the request, whatever its name, its attributes and
  -- its options are.
  pub capture-start :
      (moment : Text) (caller callee : Runtime) (s : RequestState) (now : Float)
      (is_operation : Bool) (name : Text) (attributes : Dict Value)
      (independent_retry aggregate : Bool)
      → active_request caller ≡ some s
      → matches_request_id s.request_id ≡ true
      → member (text "request_id") caller.config.dispatch_attribute_keys ≡ false
      → ((t : Text) → w.printed (Value.str t) ≡ some t)
      → StartsWith (some s.request_id) (
          start_operation w now
            (record {
              is_operation = is_operation;
              name = name;
              attributes = attributes;
              remote_context = as_values (capture_context w moment caller);
              independent_retry = independent_retry;
              aggregate = aggregate;
            })
            callee)
  capture-start moment caller callee s now is_operation name attributes independent_retry aggregate
        a m k p =
      let sent = capture_context w moment caller in
      let scope : Scope = record {
        is_operation = is_operation;
        name = name;
        attributes = attributes;
        remote_context = as_values sent;
        independent_retry = independent_retry;
        aggregate = aggregate;
      } in
      let received =
        lookup-as_values (text "request_id") sent s.request_id
          (lookup-capture_context moment caller s a k) in
      elim (Option-cases (carrier_of w (as_values sent))) [
        | inl f ↦ absurd (ground (arith, f, carrier-as_values sent p))
        | inr (carrier, f) ↦
            (let started =
                start-received now scope callee carrier
                  (has_items (text "request_id") (as_values sent) _ received) f in
              rw started.2 (
                open-StartsWith now name s.request_id
                  (origin_from w scope carrier started.0 started.1) started.1
                  (origin-request_id scope carrier started.0 started.1 s.request_id received m)))
      ]
