-- ===== src/Runtime/Calls/Counts.antt =====
-- How many records of completed requests or operations the calls make.
use policyengine_observabili.Base.{
  ℕ, ◌+◌, Text, text, ◌==◌, is_empty, ◌++◌, Dict, ℤ, nat_eq, ◌≡◌, refl, ap, ◌∙◌, Bool, false,
  Bool-cases, Option-cases, inl, inr, Option, none, some, List, [], ◌∷◌, arith, if◌then◌else◌,
}
use policyengine_observabili.Value.{Value, Failure}
use policyengine_observabili.Schema.{Scalar, normalize_attributes}
use policyengine_observabili.Config.{local_attribute_keys}
use policyengine_observabili.Runtime.State.{
  Effect, Runtime, active_request, active_operation, emit_record, count_omitted, ask, reported,
  span_attributes, values_of,
}
use policyengine_observabili.Runtime.Outside.{Outside}
use policyengine_observabili.Runtime.Requests.{
  update_request_route, update_request_status, set_request_route_reader,
}
use policyengine_observabili.Runtime.Calls.{
  Call, apply, note_on_request, note_on_operation, note_exception, record_exception, add_attributes,
  set_context, active_context_fields, event, log,
}
use policyengine_observabili.Runtime.Calls.Kept.{fields-cases}

-- What is counted: requests by their records, and operations by their records and by the reports of
-- those that cannot be started.
pub data Mark : Type 0 where
  of_request : Mark
  of_operation : Mark

abbrev pub mark_event : Mark → Text
mark_event of_request = text "request.completed"
mark_event of_operation = text "operation.completed"

abbrev pub is_marked : Mark → Text → Bool
is_marked k name = name == mark_event k

abbrev pub is_missed : Mark → Text → Bool
is_missed of_request operation = false
is_missed of_operation operation = operation == text "operation.start"

abbrev pub named : Mark → Option Text → ℕ
named k none = 0
named k (some name) = if is_marked k name then 1 else 0

abbrev pub weight : Mark → Effect → ℕ
weight k (Effect.emitted input) = named k input.event_name
weight k (Effect.reported operation) = if is_missed k operation then 1 else 0
weight k _ = 0

unfoldable pub completions : Mark → List Effect → ℕ
completions k [] = 0
completions k (e ∷ es) = weight k e + completions k es

-- An event of that name that the application records is a record too.
abbrev pub events_in : Mark → Call → ℕ
events_in k (Call.event_named name severity attributes) = if is_marked k name then 1 else 0
events_in k _ = 0

pub unmissed :
    (k : Mark) (t : Text) → (t == text "operation.start") ≡ false → weight k (reported t) ≡ 0
unmissed of_request t h = refl
unmissed of_operation t h = rw h refl

unmarked :
    (k : Mark) (t : Text)
    → (t == text "request.completed") ≡ false
    → (t == text "operation.completed") ≡ false
    → is_marked k t ≡ false
unmarked of_request t h g = h
unmarked of_operation t h g = g

request-effects :
    (error : Failure) (code : Option ℤ) (r : Runtime)
    → (note_on_request error code r).effects ≡ r.effects
unfolding note_on_request
request-effects error code r = elim (Option-cases (active_request r)) [
  | inl e ↦ rw (e, note_on_request) refl
  | inr (s, e) ↦ rw (e, note_on_request) refl
]

operation-effects :
    (error : Failure) (r : Runtime) → (note_on_operation error r).effects ≡ r.effects
unfolding note_on_operation
operation-effects error r = elim (Option-cases (active_operation r)) [
  | inl e ↦ rw (e, note_on_operation) refl
  | inr (s, e) ↦ rw (e, note_on_operation) refl
]

note-effects :
    (error : Failure) (code : Option ℤ) (r : Runtime)
    → (note_exception error code r).effects ≡ r.effects
unfolding note_exception
note-effects error code r =
    operation-effects error (note_on_request error code r) ∙ request-effects error code r

module _ (k : Mark) where
  pub completions-one :
      (xs : List Effect) (e : Effect) → completions k (xs ++ e ∷ []) ≡ weight k e + completions k xs
  unfolding completions
  completions-one [] e = refl
  completions-one (x ∷ xs) e = omega (arith, completions-one xs e)

  abbrev pub Quiet : Runtime → Runtime → Type 0
  Quiet r q = completions k q.effects ≡ completions k r.effects

  -- One more effect, of no weight.
  pub still :
      (fs : List Effect) (e : Effect) (n : ℕ)
      → completions k fs ≡ n
      → weight k e ≡ 0
      → completions k (fs ++ e ∷ []) ≡ n
  still fs e n h g = omega (arith, completions-one fs e, h, g)

  fields-Quiet : (w : Outside) (r : Runtime) → Quiet r (active_context_fields w r).1
  fields-Quiet w r = elim (fields-cases w r) [
    | inl e ↦ rw e refl
    | inr e ↦ rw e (still r.effects _ _ refl (unmissed k (text "request.route_read") refl))
  ]

  pub route-Quiet : (t : Text) (r : Runtime) → Quiet r (update_request_route t r)
  unfolding update_request_route
  route-Quiet t r = elim (Option-cases (active_request r)) [
    | inl e ↦ rw (e, update_request_route) refl
    | inr (s, e) ↦
        rw (e, update_request_route)
          (elim (Bool-cases s.completed) [
            | inl c ↦ rw c refl
            | inr c ↦ rw c (still r.effects _ _ refl refl)
          ])
  ]

  pub reader-Quiet : (reader : ℕ) (r : Runtime) → Quiet r (set_request_route_reader reader r)
  unfolding set_request_route_reader
  reader-Quiet reader r = elim (Option-cases (active_request r)) [
    | inl e ↦ rw (e, set_request_route_reader) refl
    | inr (s, e) ↦
        rw (e, set_request_route_reader)
          (elim (Bool-cases s.completed) [ inl c ↦ rw c refl | inr c ↦ rw c refl ])
  ]

  status-Quiet : (code : ℤ) (r : Runtime) → Quiet r (update_request_status code r)
  unfolding update_request_status
  status-Quiet code r = elim (Option-cases (active_request r)) [
    | inl e ↦ rw (e, update_request_status) refl
    | inr (s, e) ↦
        rw (e, update_request_status)
          (elim (Bool-cases s.completed) [ inl c ↦ rw c refl | inr c ↦ rw c refl ])
  ]

  note-Quiet :
      (error : Failure) (code : Option ℤ) (r : Runtime) → Quiet r (note_exception error code r)
  note-Quiet error code r = ap (completions k) (note-effects error code r)

  add-Quiet : (safe : Dict Scalar) (r : Runtime) → Quiet r (add_attributes safe r)
  unfolding add_attributes
  add-Quiet safe r = elim (Option-cases (active_operation r)) [
    | inl f ↦ elim (Option-cases (active_request r)) [
      | inl e ↦ rw (f, e, add_attributes) refl
      | inr (s, e) ↦ rw (f, e, add_attributes) refl
    ]
    | inr (o, f) ↦ rw (f, add_attributes) refl
  ]

  pub omitted-Quiet : (n : ℕ) (r : Runtime) → Quiet r (count_omitted n r)
  unfolding count_omitted
  omitted-Quiet n r = elim (Bool-cases (nat_eq n 0)) [
    | inl e ↦ rw (e, count_omitted) refl
    | inr e ↦ rw (e, count_omitted) (still r.effects _ _ refl refl)
  ]

  context-Quiet :
      (w : Outside) (attributes : Dict Value) (r : Runtime) → Quiet r (set_context w attributes r)
  unfolding set_context
  context-Quiet w attributes r =
      let normal =
        normalize_attributes w.lower attributes r.config (local_attribute_keys r.config) in
      let added = add_attributes normal.0 r in
      let quiet = add-Quiet normal.0 r in
      elim (Bool-cases (is_empty normal.0)) [
        | inl a ↦ rw (a, set_context) (omitted-Quiet normal.1 added ∙ quiet)
        | inr a ↦
            rw (a, set_context)
              (omitted-Quiet normal.1 (ask (span_attributes (values_of normal.0)) added)
                ∙ still added.effects _ _ quiet refl)
      ]

  exception-Quiet :
      (w : Outside) (error : Failure) (handled : Bool) (code : Option ℤ) (r : Runtime)
      → Quiet r (record_exception w error handled code r)
  unfolding record_exception emit_record
  exception-Quiet w error handled code r =
      let noted = note_exception error code r in
      let read = fields-Quiet w noted ∙ note-Quiet error code r in
      still _ _ _
        (still (active_context_fields w noted).1.effects _ _ read
          (rw (unmarked k (text "exception.recorded") refl refl) refl))
        refl

  -- A call makes the records of its own name that it asks for.
  pub apply-counts :
      (w : Outside) (c : Call) (r : Runtime)
      → completions k (apply w c r).effects ≡ events_in k c + completions k r.effects
  unfolding apply event log emit_record
  apply-counts w (Call.route t) r = omega (arith, route-Quiet t r)
  apply-counts w (Call.route_reader reader) r = omega (arith, reader-Quiet reader r)
  apply-counts w (Call.status code) r = omega (arith, status-Quiet code r)
  apply-counts w (Call.exception error handled code) r =
      omega (arith, exception-Quiet w error handled code r)
  apply-counts w (Call.context attributes) r = omega (arith, context-Quiet w attributes r)
  apply-counts w (Call.event_named name severity attributes) r =
      completions-one (active_context_fields w r).1.effects _
      ∙ ap (λ n. events_in k (Call.event_named name severity attributes) + n) (fields-Quiet w r)
  apply-counts w (Call.message t severity attributes error) r =
      completions-one (active_context_fields w r).1.effects _ ∙ ap (λ n. 0 + n) (fields-Quiet w r)
