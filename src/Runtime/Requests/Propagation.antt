-- ===== src/Runtime/Requests/Propagation.antt =====
-- The identifier of a request goes with its outgoing calls.
use policyengine_observabili.Base.{
  Text, Dict, lookup, insert, ◌==◌, ==_iff, ==_refl, Float, is_empty, ◌≡◌, refl, ◌∙◌, ap, true,
  false, Bool-cases, inl, inr, none, some, [], ◌∷◌, arith,
}
use policyengine_observabili.Runtime.Rules.{
  matches_request_id, valid_request_id, request_id, request_id_header, header_value, header,
}
use policyengine_observabili.Runtime.Rules.Facts.{header_value-insert}
use policyengine_observabili.Runtime.State.{Runtime, RequestState, active_request}
use policyengine_observabili.Runtime.Requests.{
  Started, started, start_failed, begin_request, carried_id, inject_http_headers,
}

-- A name that no header has in any case is no key.
lookup-header_value :
    (lower : Text → Text) (headers : Dict Text) (name : Text)
    → header_value lower headers name ≡ none
    → lookup name headers ≡ none
unfolding header_value lookup
lookup-header_value lower [] name h = refl
lookup-header_value lower ((key, value) ∷ headers) name h =
    elim (Bool-cases (lower key == lower name)) [
      | inl e ↦ absurd (ground (arith, h, e))
      | inr e ↦ elim (Bool-cases (key == name)) [
        | inl same ↦ absurd (
            ground (
              arith,
              e,
              ==_refl (lower name),
              ap (λ t. lower t == lower name) ((==_iff key name).0 same),
            ))
        | inr other ↦ rw other (lookup-header_value lower headers name (ground (arith, h, e)))
      ]
    ]

is_empty-matches : (t : Text) → matches_request_id t ≡ true → is_empty t ≡ false
unfolding matches_request_id
is_empty-matches [] h = absurd (ground (arith, h))
is_empty-matches (c ∷ t) h = refl

request_id-valid :
    (uuid t : Text) → matches_request_id t ≡ true → request_id uuid (header (some t)) ≡ t
unfolding request_id valid_request_id
request_id-valid uuid t h = rw h refl

inject-carried :
    (inject : Dict Text → Dict Text) (headers : Dict Text) (r : Runtime) (s : RequestState)
    → active_request r ≡ some s
    → lookup request_id_header (inject headers) ≡ none
    → is_empty s.request_id ≡ false
    → inject_http_headers inject headers r ≡ insert request_id_header s.request_id (inject headers)
unfolding inject_http_headers
inject-carried inject headers r s a l n =
    let id : carried_id r ≡ some s.request_id = unfold carried_id in rw (a, carried_id) refl in
    rw l (rw (id, inject_http_headers) (rw n refl))

begun_id :
    (lower upper : Text → Text) (uuid : Text) (now : Float) (outcome : Started)
    (headers : Dict Text) (method route : Text) (r : Runtime)
    → (begin_request lower upper uuid now outcome headers method route r).0
      ≡ request_id uuid (header (header_value lower headers request_id_header))
unfolding begin_request
begun_id lower upper uuid now (started span) headers method route r = refl
begun_id lower upper uuid now start_failed headers method route r = refl

-- If a request is active, its identifier matches the pattern, and the headers with what the
-- providers inject have no identifier of a request, then a service that begins a request with the
-- outgoing headers gives it the same identifier, whether or not its span can be started.
pub begin-inject :
    (lower upper : Text → Text) (uuid : Text) (now : Float) (outcome : Started)
    (method route : Text) (inject : Dict Text → Dict Text) (headers : Dict Text) (caller : Runtime)
    (s : RequestState) (callee : Runtime)
    → active_request caller ≡ some s
    → matches_request_id s.request_id ≡ true
    → header_value lower (inject headers) request_id_header ≡ none
    → (begin_request lower upper uuid now outcome
        (inject_http_headers inject headers caller)
        method
        route
        callee).0
      ≡ s.request_id
begin-inject lower upper uuid now outcome method route inject headers caller s callee a m h =
    let sent =
      inject-carried inject headers caller s a
        (lookup-header_value lower (inject headers) request_id_header h)
        (is_empty-matches s.request_id m) in
    begun_id lower upper uuid now outcome (inject_http_headers inject headers caller) method route
      callee
    ∙ ap (λ x. request_id uuid (header (header_value lower x request_id_header))) sent
    ∙ ap (λ x. request_id uuid (header x))
        (header_value-insert lower (inject headers) request_id_header s.request_id h)
    ∙ request_id-valid uuid s.request_id m
