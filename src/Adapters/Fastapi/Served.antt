-- ===== src/Adapters/Fastapi/Served.antt =====
-- A served exchange makes one record of a completed request, and gives the context back.
use policyengine_observabili.Base.{
  ℕ, ◌+◌, subst, Text, ℤ, Float, ◌≡◌, ◌⊎◌, refl, ap, ◌∙◌, Bool, true, false, Bool-cases, inl, inr,
  Option, none, some, List, [], ◌∷◌, arith,
}
use policyengine_observabili.Value.{Failure}
use policyengine_observabili.Runtime.Rules.{outcome}
use policyengine_observabili.Runtime.State.{Runtime, active_request, read}
use policyengine_observabili.Runtime.State.Keeps.{Keeps, Keeps-trans}
use policyengine_observabili.Runtime.Outside.{Outside}
use policyengine_observabili.Runtime.Requests.{
  end_request, completed_state, either, update_request_route,
}
use policyengine_observabili.Runtime.Calls.{apply}
use policyengine_observabili.Runtime.Calls.Kept.{apply-Keeps, route-Keeps, reader-Keeps}
use policyengine_observabili.Runtime.Calls.Counts.{
  of_request, completions, events_in, apply-counts, route-Quiet, reader-Quiet,
}
use policyengine_observabili.Runtime.Requests.Nesting
use policyengine_observabili.Runtime.Requests.Nesting.{
  Request, begin, opened, end-active, within-Keeps, run-Keeps,
}
use policyengine_observabili.Runtime.Requests.Counts.{
  conclude-counts, begin-Quiet, marks_in, run-completions,
}
use policyengine_observabili.Adapters.Fastapi.{
  Exchange, Step, Message, response_start, response_body, other_message, matches, calls, runs,
  sends, AsgiScope, is_http, update_route, route_to, before_send, after_send, send_observed, step,
  steps, finish_exchange, final_status, request_of, begin_exchange, serve, route_from_scope,
}

-- The records of completed requests that the application asks for itself, and those of its requests.
abbrev pub events_of : List Step → ℕ
events_of [] = 0
events_of (calls c ∷ rest) = events_in of_request c + events_of rest
events_of (runs body ∷ rest) = marks_in of_request body + events_of rest
events_of (_ ∷ rest) = events_of rest

abbrev record_count : Runtime → ℕ
record_count r = completions of_request r.effects

module _ (w : Outside) (q : Request) (r : Runtime) where
  -- The request is open, or it was ended once.
  abbrev IsServed : ℕ → Exchange → Type 0
  IsServed n x =
      ((x.completed ≡ false)
        × Keeps (begin w q r) x.runtime
        × (record_count x.runtime ≡ n + record_count r))
      ⊎ ((x.completed ≡ true)
          × Keeps r x.runtime
          × (record_count x.runtime ≡ 1 + n + record_count r))

  IsServed-at : (m n : ℕ) (x : Exchange) → m ≡ n → IsServed m x → IsServed n x
  IsServed-at m n x e h = subst (λ k. IsServed k x) e h

  -- A change of the runtime that keeps what was there and makes `m` records.
  IsServed-change :
      (n m : ℕ) (x y : Exchange)
      → y.completed ≡ x.completed
      → Keeps x.runtime y.runtime
      → record_count y.runtime ≡ m + record_count x.runtime
      → IsServed n x
      → IsServed (m + n) y
  IsServed-change n m x y e k c (inl (o, h, l)) =
      inl (e ∙ o, Keeps-trans (begin w q r) x.runtime y.runtime h k, omega (arith, c, l))
  IsServed-change n m x y e k c (inr (o, h, l)) =
      inr (e ∙ o, Keeps-trans r x.runtime y.runtime h k, omega (arith, c, l))

  end-open :
      (status : Option ℤ) (error : Option Failure) (n : ℕ) (m : Runtime)
      → Keeps (begin w q r) m
      → record_count m ≡ n + record_count r
      → Keeps r (end_request w status error m)
        × (record_count (end_request w status error m) ≡ 1 + n + record_count r)
  end-open status error n m k l =
      let p : Request = record q { status = status; error = error } in
      let o = opened w p r m k in
      let one =
        ap record_count (end-active w status error m o.0 o.1 o.3)
        ∙ conclude-counts of_request w (outcome (either status (o.0).status_code) error)
            (completed_state status error o.0) m in
      (within-Keeps w p r m k, omega (arith, one, l))

  end-none :
      (status : Option ℤ) (error : Option Failure) (m : Runtime)
      → r.request ≡ none
      → Keeps r m
      → end_request w status error m ≡ m
  unfolding end_request read
  end-none status error m h k =
      let none_active : active_request m ≡ none = ap (λ o. read o m.requests) (k.1 ∙ h) in
      rw (none_active, end_request) refl

  -- An exchange of which the record is made, or is not yet.
  ended :
      (status : Option ℤ) (error : Option Failure) (n : ℕ) (x : Exchange)
      → r.request ≡ none
      → IsServed n x
      → Keeps r (end_request w status error x.runtime)
        × (record_count (end_request w status error x.runtime) ≡ 1 + n + record_count r)
  ended status error n x h (inl (o, k, l)) = end-open status error n x.runtime k l
  ended status error n x h (inr (o, k, l)) = rw (end-none status error x.runtime h k) (k, l)

  route_to-IsServed :
      (o : Option Text) (n : ℕ) (x : Exchange)
      → IsServed n x
      → IsServed n (record x { runtime = route_to o x.runtime })
  route_to-IsServed none n x h = h
  route_to-IsServed (some route) n x h =
      IsServed-at (0 + n) n (record x { runtime = update_request_route route x.runtime })
        (omega arith)
        (IsServed-change n 0 x (record x { runtime = update_request_route route x.runtime }) refl
          (route-Keeps route x.runtime) (omega (arith, route-Quiet of_request route x.runtime)) h)

  routed-IsServed : (n : ℕ) (x : Exchange) → IsServed n x → IsServed n (update_route w x)
  routed-IsServed n x h = route_to-IsServed (route_from_scope x.path) n x h

  before-IsServed :
      (m : Message) (n : ℕ) (x : Exchange) → IsServed n x → IsServed n (before_send w m x)
  unfolding before_send
  before-IsServed (response_start status headers) n x h =
      routed-IsServed n (record x { status_code = some status }) h
  before-IsServed (response_body more) n x h = h
  before-IsServed other_message n x h = h

  after-IsServed :
      (m : Message) (n : ℕ) (x : Exchange)
      → r.request ≡ none
      → IsServed n x
      → IsServed n (after_send w m x)
  unfolding after_send
  after-IsServed (response_start status headers) n x e h = h
  after-IsServed (response_body true) n x e h = h
  after-IsServed (response_body false) n x e h =
      let done = ended x.status_code none n (update_route w x) e (routed-IsServed n x h) in
      inr (refl, done.0, done.1)
  after-IsServed other_message n x e h = h

  send-IsServed :
      (m : Message) (delivered : Bool) (n : ℕ) (x : Exchange)
      → r.request ≡ none
      → IsServed n x
      → IsServed n (send_observed w m delivered x)
  unfolding send_observed
  send-IsServed m true n x e h = after-IsServed m n _ e (before-IsServed m n x h)
  send-IsServed m false n x e h = before-IsServed m n x h

  steps-IsServed :
      (app : List Step) (n : ℕ) (x : Exchange)
      → r.request ≡ none
      → IsServed n x
      → IsServed (events_of app + n) (steps w app x)
  unfolding steps step
  steps-IsServed [] n x e h = IsServed-at n (0 + n) x (omega arith) h
  steps-IsServed (matches path ∷ rest) n x e h =
      steps-IsServed rest n (record x { path = some path }) e h
  steps-IsServed (calls c ∷ rest) n x e h =
      let y : Exchange = record x { runtime = apply w c x.runtime } in
      IsServed-at (events_of rest + (events_in of_request c + n))
        (events_in of_request c + events_of rest + n) (steps w rest y) (omega arith)
        (steps-IsServed rest (events_in of_request c + n) y e (
          IsServed-change n (events_in of_request c) x y refl (apply-Keeps w c x.runtime)
            (apply-counts of_request w c x.runtime) h))
  steps-IsServed (runs body ∷ rest) n x e h =
      let y : Exchange = record x { runtime = Nesting.run w body x.runtime } in
      IsServed-at (events_of rest + (marks_in of_request body + n))
        (marks_in of_request body + events_of rest + n) (steps w rest y) (omega arith)
        (steps-IsServed rest (marks_in of_request body + n) y e (
          IsServed-change n (marks_in of_request body) x y refl (run-Keeps w body x.runtime)
            (run-completions of_request w body x.runtime) h))
  steps-IsServed (sends m delivered ∷ rest) n x e h =
      steps-IsServed rest n (send_observed w m delivered x) e (send-IsServed m delivered n x e h)

  finish-done :
      (error : Option Failure) (x : Exchange)
      → x.completed ≡ true
      → (finish_exchange w error x).runtime ≡ x.runtime
  unfolding finish_exchange
  finish-done error x c = rw c refl

  finish-open :
      (error : Option Failure) (x : Exchange)
      → x.completed ≡ false
      → (finish_exchange w error x).runtime
        ≡ end_request w (final_status x.status_code error) error (update_route w x).runtime
  unfolding finish_exchange
  finish-open error x c = rw c refl

  finish-IsServed :
      (error : Option Failure) (n : ℕ) (x : Exchange)
      → r.request ≡ none
      → IsServed n x
      → Keeps r (finish_exchange w error x).runtime
        × (record_count (finish_exchange w error x).runtime ≡ 1 + n + record_count r)
  finish-IsServed error n x e h = elim (Bool-cases x.completed) [
    | inl c ↦ elim h [
      | inl (o, k, l) ↦ absurd (ground (arith, c, o))
      | inr (o, k, l) ↦ rw (finish-done error x c) (k, l)
    ]
    | inr c ↦ rw (finish-open error x c) (
        ended (final_status x.status_code error) error n (update_route w x) e
          (routed-IsServed n x h))
  ]

  begun-IsServed : (reader : ℕ) (scope : AsgiScope) → IsServed 0 (begin_exchange w q reader scope r)
  unfolding begin_exchange
  begun-IsServed reader scope =
      let opening = begin w q r in
      inl (
        refl,
        reader-Keeps reader opening,
        omega (arith, reader-Quiet of_request reader opening, begin-Quiet of_request w q r),
      )

module _ (w : Outside) where
  -- If an exchange over HTTP is served whose span can be started, in a context that carries no
  -- request, and the application does all in that context and sends outside of the scopes and requests
  -- that it opens itself, then whatever it calls, opens and sends and in whatever order, whether it
  -- completes the response, sends again after it, is cut off by the server or raises, one record of a
  -- completed request is made besides those of its own requests and events, and the context carries
  -- what it carried before.
  pub serve-completions :
      (uuid : Text) (now : Float) (span : Option ℕ) (reader : ℕ) (scope : AsgiScope)
      (app : List Step) (error : Option Failure) (r : Runtime)
      → r.request ≡ none
      → is_http scope ≡ true
      → Keeps r (serve w uuid now span reader scope app error r).runtime
        × (completions of_request (serve w uuid now span reader scope app error r).runtime.effects
            ≡ 1 + events_of app + completions of_request r.effects)
  unfolding serve
  serve-completions uuid now span reader scope app error r h k =
      let q = request_of w uuid now span scope in
      let result =
        finish-IsServed w q r error (events_of app + 0)
          (steps w app (begin_exchange w q reader scope r)) h
          (steps-IsServed w q r app 0 (begin_exchange w q reader scope r) h
            (begun-IsServed w q r reader scope)) in
      rw (k, serve) (result.0, omega (arith, result.1))
