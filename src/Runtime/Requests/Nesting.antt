-- ===== src/Runtime/Requests/Nesting.antt =====
-- Requests and scopes begun and ended within one another in one context, with calls between: the
-- context is given back as it was.
use policyengine_observabili.Base.{
  ℕ, Text, text, ◌==◌, Dict, ℤ, Float, length, nat_eq_iff, ◌≡◌, refl, ap, ◌∙◌, false, Bool-cases,
  inl, inr, Option, some,
}
use policyengine_observabili.Value.{Failure}
use policyengine_observabili.Runtime.Rules.{outcome}
use policyengine_observabili.Runtime.State.{
  Token, RequestState, Runtime, read, write, active_request, emit_record,
}
use policyengine_observabili.Runtime.State.Store.{get-append, get-last, Kept-later}
use policyengine_observabili.Runtime.State.Keeps.{
  Keeps, Keeps-refl, Keeps-trans, SameRequest, request_refl, request_trans,
}
use policyengine_observabili.Runtime.Outside.{Outside}
use policyengine_observabili.Runtime.Requests.{
  started, begin_request, reset_request, completed_state, conclude, end_request, either,
}
use policyengine_observabili.Runtime.Calls.{Call, apply}
use policyengine_observabili.Runtime.Calls.Kept.{apply-Keeps}
use policyengine_observabili.Runtime.Operations.{Scope, enter, exit}
use policyengine_observabili.Runtime.Operations.Kept.{enter-Entered, scope-Keeps}

-- The arguments of `begin_request` with what it is given from outside, and those of `end_request`.
pub record Request : Type 0 where
  pub uuid : Text
  pub now : Float
  pub span : Option ℕ
  pub headers : Dict Text
  pub method : Text
  pub route : Text
  pub status : Option ℤ
  pub error : Option Failure

-- Calls in their order; `within` is a request with the calls made in it, and those after it, and
-- `scoped` a `with` block entered at a time, with the exception that leaves it, to be caught there.
pub data Body : Type 0 where
  done : Body
  call : Call → Body → Body
  within : Request → Body → Body → Body
  scoped : Float → Scope → Body → Option Failure → Body → Body

module _ (w : Outside) where
  abbrev pub begin : Request → Runtime → Runtime
  begin q r =
      (begin_request w.lower w.upper q.uuid q.now (started q.span) q.headers q.method q.route r).1

  abbrev pub end : Request → Runtime → Runtime
  end q r = end_request w q.status q.error r

  unfoldable pub run : Body → Runtime → Runtime
  run done r = r
  run (call c rest) r = run rest (apply w c r)
  run (within q inner rest) r = run rest (end q (run inner (begin q r)))
  run (scoped now scope inner error rest) r =
      let entered = enter w now scope r in run rest (exit w entered.0 error (run inner entered.1))

  -- The state that `begin` creates, found again after calls that keep what was there.
  pub opened :
      (q : Request) (r m : Runtime)
      → Keeps (begin q r) m
      → (s : RequestState) × (active_request m ≡ some s)
        × (s.token ≡ some (record { context = r.here; previous = r.request }))
        × (s.completed ≡ false)
  unfolding begin_request read
  opened q r m k =
      let t = k.3 (length r.requests) _ (get-last r.requests _) in
      (t.0, ap (λ o. read o m.requests) k.1 ∙ t.1, t.2.1, t.2.2)

  -- What concluding a request leaves, in the context where it was begun.
  abbrev Closes : RequestState → Option ℕ → Runtime → Runtime → Type 0
  Closes s p m q =
      (q.here ≡ m.here)
      × (q.request ≡ p)
      × (q.operation ≡ m.operation)
      × (q.requests ≡ write m.request s m.requests)
      × (q.operations ≡ m.operations)

  reset-Closes :
      (s : RequestState) (p : Option ℕ) (r : Runtime)
      → s.token ≡ some (record { context = r.here; previous = p })
      → reset_request s r ≡ record r { request = p }
  unfolding reset_request
  reset-Closes s p r h = rw h (rw ((nat_eq_iff r.here r.here).1 refl) refl)

  reset-keeps :
      (s : RequestState) (p : Option ℕ) (m r : Runtime)
      → s.token ≡ some (record { context = r.here; previous = p })
      → r.here ≡ m.here
      → (r.operation ≡ m.operation)
        × (r.requests ≡ write m.request s m.requests)
        × (r.operations ≡ m.operations)
      → Closes s p m (reset_request s r)
  reset-keeps s p m r h a b = rw (reset-Closes s p r h) (a, refl, b.0, b.1, b.2)

  conclude-Closes :
      (result : Text) (s : RequestState) (p : Option ℕ) (m : Runtime)
      → s.token ≡ some (record { context = m.here; previous = p })
      → Closes s p m (conclude w result s m)
  unfolding conclude emit_record
  conclude-Closes result s p m h = elim (Bool-cases (result == text "error")) [
    | inl e ↦ rw e (reset-keeps s p m _ h refl (refl, refl, refl))
    | inr e ↦ rw e (reset-keeps s p m _ h refl (refl, refl, refl))
  ]

  pub end-active :
      (status : Option ℤ) (error : Option Failure) (m : Runtime) (s : RequestState)
      → active_request m ≡ some s
      → s.completed ≡ false
      → end_request w status error m
        ≡ conclude w
            (outcome (either status s.status_code) error)
            (completed_state status error s)
            m
  unfolding end_request
  end-active status error m s e c = rw (e, end_request) (rw c refl)

  pub completed_state-token :
      (status : Option ℤ) (error : Option Failure) (s : RequestState)
      → (completed_state status error s).token ≡ s.token
  unfolding completed_state
  completed_state-token status error s = refl

  same_token :
      {t : Option Token} {a b : ℕ} {p : Option ℕ}
      → t ≡ some (record { context = b; previous = p })
      → a ≡ b
      → t ≡ some (record { context = a; previous = p })
  same_token h e = rw e h

  pub within-Keeps : (q : Request) (r m : Runtime) → Keeps (begin q r) m → Keeps r (end q m)
  unfolding begin_request
  within-Keeps q r m k =
      let o = opened q r m k in
      let s = o.0 in
      let here : m.here ≡ r.here = k.0 in
      let closed = completed_state q.status q.error s in
      let result = outcome (either q.status s.status_code) q.error in
      let token : closed.token ≡ some (record { context = m.here; previous = r.request }) =
        same_token (completed_state-token q.status q.error s ∙ o.2) here in
      let c = conclude-Closes result closed r.request m token in
      rw (end-active q.status q.error m s o.1 o.3) (
        c.0 ∙ here,
        c.1,
        c.2 ∙ k.2,
        rw c.3 (
            Kept-later SameRequest request_refl request_trans r.requests m.requests closed m.request
              (λ i u h. k.3 i u (get-append r.requests _ i u h)) k.1),
        rw c.4 k.4,
      )

  -- However requests whose spans can be started and scopes are nested, and whatever exceptions leave
  -- the scopes, a context carries after them the request and the operation that it carried before;
  -- each request that was there before has its identifier, its token and its completion as they were,
  -- and each operation its name, its identifier, its token and its completion.
  pub run-Keeps : (b : Body) (r : Runtime) → Keeps r (run b r)
  unfolding run
  run-Keeps done r = Keeps-refl r
  run-Keeps (call c rest) r =
      Keeps-trans r (apply w c r) (run rest (apply w c r)) (apply-Keeps w c r)
        (run-Keeps rest (apply w c r))
  run-Keeps (within q inner rest) r =
      let body = run inner (begin q r) in
      Keeps-trans r (end q body) (run rest (end q body))
        (within-Keeps q r body (run-Keeps inner (begin q r))) (run-Keeps rest (end q body))
  run-Keeps (scoped now scope inner error rest) r =
      let entered = enter w now scope r in
      let body = run inner entered.1 in
      let left = exit w entered.0 error body in
      Keeps-trans r left (run rest left)
        (scope-Keeps w r body scope.is_operation entered error (enter-Entered w now scope r)
          (run-Keeps inner entered.1))
        (run-Keeps rest left)
