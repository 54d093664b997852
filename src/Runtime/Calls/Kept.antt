-- ===== src/Runtime/Calls/Kept.antt =====
-- What the calls leave of the context that they are made in.
use policyengine_observabili.Base.{
  ℕ, is_empty, Text, text, ◌⊎◌, ◌≡◌, Dict, ℤ, nat_eq, refl, sym, Bool, if◌then◌else◌, Bool-cases,
  Option-cases, inl, inr, Option, none, some,
}
use policyengine_observabili.Value.{Value, Failure}
use policyengine_observabili.Schema.{Scalar, normalize_attributes}
use policyengine_observabili.Config.{local_attribute_keys}
use policyengine_observabili.Runtime.State.{
  RequestState, Runtime, active_request, active_operation, emit_record, count_omitted, ask,
  reported, span_attributes, values_of,
}
use policyengine_observabili.Runtime.State.Keeps.{
  Keeps, Keeps-refl, Keeps-trans, store-Keeps, store_operation-Keeps,
}
use policyengine_observabili.Runtime.Outside.{Outside, Reading, unreadable, matched}
use policyengine_observabili.Runtime.Requests.{
  update_request_route, update_request_status, set_request_route_reader,
}
use policyengine_observabili.Runtime.Calls.{
  note_on_request, note_on_operation, note_exception, record_exception, add_attributes, set_context,
  current_request_route, route_read, request_fields, active_context_fields, event, log, Call, apply,
}

pub route-Keeps : (route : Text) (r : Runtime) → Keeps r (update_request_route route r)
unfolding update_request_route
route-Keeps route r = elim (Option-cases (active_request r)) [
  | inl e ↦ rw (e, update_request_route) (Keeps-refl r)
  | inr (s, e) ↦
      rw (e, update_request_route)
        (elim (Bool-cases s.completed) [
          | inl c ↦ rw (c, update_request_route) (Keeps-refl r)
          | inr c ↦ rw (c, update_request_route) (store-Keeps r s _ e (refl, refl, sym c))
        ])
]

status-Keeps : (status : ℤ) (r : Runtime) → Keeps r (update_request_status status r)
unfolding update_request_status
status-Keeps status r = elim (Option-cases (active_request r)) [
  | inl e ↦ rw (e, update_request_status) (Keeps-refl r)
  | inr (s, e) ↦
      rw (e, update_request_status)
        (elim (Bool-cases s.completed) [
          | inl c ↦ rw (c, update_request_status) (Keeps-refl r)
          | inr c ↦ rw (c, update_request_status) (store-Keeps r s _ e (refl, refl, sym c))
        ])
]

pub reader-Keeps : (reader : ℕ) (r : Runtime) → Keeps r (set_request_route_reader reader r)
unfolding set_request_route_reader
reader-Keeps reader r = elim (Option-cases (active_request r)) [
  | inl e ↦ rw (e, set_request_route_reader) (Keeps-refl r)
  | inr (s, e) ↦
      rw (e, set_request_route_reader)
        (elim (Bool-cases s.completed) [
          | inl c ↦ rw (c, set_request_route_reader) (Keeps-refl r)
          | inr c ↦ rw (c, set_request_route_reader) (store-Keeps r s _ e (refl, refl, sym c))
        ])
]

note_on_request-Keeps :
    (error : Failure) (status : Option ℤ) (r : Runtime) → Keeps r (note_on_request error status r)
unfolding note_on_request
note_on_request-Keeps error status r = elim (Option-cases (active_request r)) [
  | inl e ↦ rw (e, note_on_request) (Keeps-refl r)
  | inr (s, e) ↦ rw (e, note_on_request) (store-Keeps r s _ e (refl, refl, refl))
]

note_on_operation-Keeps : (error : Failure) (r : Runtime) → Keeps r (note_on_operation error r)
unfolding note_on_operation
note_on_operation-Keeps error r = elim (Option-cases (active_operation r)) [
  | inl e ↦ rw (e, note_on_operation) (Keeps-refl r)
  | inr (s, e) ↦
      rw (e, note_on_operation) (store_operation-Keeps r.operation r s _ e (refl, refl, refl, refl))
]

note-Keeps :
    (error : Failure) (status : Option ℤ) (r : Runtime) → Keeps r (note_exception error status r)
unfolding note_exception
note-Keeps error status r =
    Keeps-trans r (note_on_request error status r) (note_exception error status r)
      (note_on_request-Keeps error status r)
      (note_on_operation-Keeps error (note_on_request error status r))

add-Keeps : (safe : Dict Scalar) (r : Runtime) → Keeps r (add_attributes safe r)
unfolding add_attributes
add-Keeps safe r = elim (Option-cases (active_operation r)) [
  | inl f ↦ elim (Option-cases (active_request r)) [
    | inl e ↦ rw (f, e, add_attributes) (Keeps-refl r)
    | inr (s, e) ↦ rw (f, e, add_attributes) (store-Keeps r s _ e (refl, refl, refl))
  ]
  | inr (s, f) ↦
      rw (f, add_attributes) (store_operation-Keeps r.operation r s _ f (refl, refl, refl, refl))
]

pub omitted-Keeps : (n : ℕ) (r : Runtime) → Keeps r (count_omitted n r)
unfolding count_omitted
omitted-Keeps n r = elim (Bool-cases (nat_eq n 0)) [
  | inl e ↦ rw (e, count_omitted) (Keeps-refl r)
  | inr e ↦ rw (e, count_omitted) (Keeps-refl r)
]

reading-cases :
    (reading : Reading) (s : RequestState) (r : Runtime)
    → ((route_read reading s r).1 ≡ r)
      ⊎ ((route_read reading s r).1 ≡ ask (reported (text "request.route_read")) r)
unfolding route_read
reading-cases unreadable s r = inr refl
reading-cases (matched none) s r = inl refl
reading-cases (matched (some route)) s r = inl refl

module _ (w : Outside) where
  route-cases :
      (s : RequestState) (r : Runtime)
      → ((current_request_route w s r).1 ≡ r)
        ⊎ ((current_request_route w s r).1 ≡ ask (reported (text "request.route_read")) r)
  unfolding current_request_route
  route-cases s r = elim (Option-cases s.route_reader) [
    | inl e ↦ rw (e, current_request_route) (inl refl)
    | inr (reader, e) ↦
        rw (e, current_request_route) (reading-cases (w.read_route r.effects reader) s r)
  ]

  -- The fields are read with at most a report.
  pub fields-cases :
      (r : Runtime)
      → ((active_context_fields w r).1 ≡ r)
        ⊎ ((active_context_fields w r).1 ≡ ask (reported (text "request.route_read")) r)
  unfolding active_context_fields request_fields
  fields-cases r = elim (Option-cases (active_request r)) [
    | inl e ↦ rw (e, request_fields) (inl refl)
    | inr (s, e) ↦ rw (e, request_fields) (route-cases s r)
  ]

  fields-Keeps : (r : Runtime) → Keeps r (active_context_fields w r).1
  fields-Keeps r = elim (fields-cases r) [
    | inl e ↦ rw e (Keeps-refl r)
    | inr e ↦ rw e (Keeps-refl r)
  ]

  set_context-Keeps : (attributes : Dict Value) (r : Runtime) → Keeps r (set_context w attributes r)
  unfolding set_context
  set_context-Keeps attributes r =
      let normal =
        normalize_attributes w.lower attributes r.config (local_attribute_keys r.config) in
      let added = add_attributes normal.0 r in
      let described =
        if is_empty normal.0 then added else ask (span_attributes (values_of normal.0)) added in
      let shown : Keeps r described = elim (Bool-cases (is_empty normal.0)) [
        | inl a ↦ rw a (add-Keeps normal.0 r)
        | inr a ↦ rw a (add-Keeps normal.0 r)
      ] in
      Keeps-trans r described (count_omitted normal.1 described) shown
        (omitted-Keeps normal.1 described)

  record_exception-Keeps :
      (error : Failure) (handled : Bool) (status : Option ℤ) (r : Runtime)
      → Keeps r (record_exception w error handled status r)
  unfolding record_exception emit_record
  record_exception-Keeps error handled status r =
      let noted = note_exception error status r in
      Keeps-trans r noted (active_context_fields w noted).1 (note-Keeps error status r)
        (fields-Keeps noted)

  pub apply-Keeps : (c : Call) (r : Runtime) → Keeps r (apply w c r)
  unfolding apply event log emit_record
  apply-Keeps (Call.route t) r = route-Keeps t r
  apply-Keeps (Call.route_reader reader) r = reader-Keeps reader r
  apply-Keeps (Call.status code) r = status-Keeps code r
  apply-Keeps (Call.exception error handled code) r = record_exception-Keeps error handled code r
  apply-Keeps (Call.context attributes) r = set_context-Keeps attributes r
  apply-Keeps (Call.event_named name severity attributes) r = fields-Keeps r
  apply-Keeps (Call.message t severity attributes error) r = fields-Keeps r
