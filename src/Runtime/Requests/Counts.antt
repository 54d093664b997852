-- ===== src/Runtime/Requests/Counts.antt =====
-- How many records say that a request or an operation is completed.
use policyengine_observabili.Base.{
  ℕ, ◌+◌, Text, text, ◌==◌, ◌++◌, nat_eq, ◌≡◌, refl, ap, ◌∙◌, length, Bool, true, false, is_some,
  Bool-cases, Option-cases, inl, inr, Option, some, List, [], ◌∷◌, arith, if◌then◌else◌,
}
use policyengine_observabili.Value.{Failure}
use policyengine_observabili.Runtime.Rules.{outcome}
use policyengine_observabili.Runtime.State.{
  Effect, Runtime, read, RequestState, OperationState, emit_record, reported,
}
use policyengine_observabili.Runtime.State.Keeps.{Keeps}
use policyengine_observabili.Runtime.Outside.{Outside}
use policyengine_observabili.Runtime.Requests.{
  begin_request, reset_request, completed_state, conclude, either,
}
use policyengine_observabili.Runtime.Calls.{apply}
use policyengine_observabili.Runtime.Calls.Counts.{
  is_marked, Mark, of_request, of_operation, weight, completions, events_in, Quiet, still,
  completions-one, unmissed, apply-counts,
}
use policyengine_observabili.Runtime.Operations.{
  Held, reset_operation, conclude_operation, finished_state, open_operation, finish_operation,
  finish_child_span, enter, exit,
}
use policyengine_observabili.Runtime.Operations.Kept.{
  Counted, same, counting, Entered, operating, missed, child, enter-Entered, finish-active,
  opened_state,
}
use policyengine_observabili.Runtime.Requests.Nesting.{
  Request, Body, done, call, within, scoped, begin, end, run, opened, run-Keeps, end-active,
}

abbrev begun : Mark → ℕ
begun of_request = 1
begun of_operation = 0

abbrev started_in : Mark → Bool → ℕ
started_in of_request is_operation = 0
started_in of_operation is_operation = if is_operation then 1 else 0

-- The requests, or the operations, of a body, with the events that are named like their records.
abbrev pub marks_in : Mark → Body → ℕ
marks_in k done = 0
marks_in k (call c rest) = events_in k c + marks_in k rest
marks_in k (within q inner rest) = begun k + (marks_in k inner + marks_in k rest)
marks_in k (scoped now scope inner error rest) =
    started_in k scope.is_operation + (marks_in k inner + marks_in k rest)

begun_weight : (k : Mark) → (if is_marked k (text "request.completed") then 1 else 0) ≡ begun k
begun_weight of_request = refl
begun_weight of_operation = refl

ended_weight :
    (k : Mark) → (if is_marked k (text "operation.completed") then 1 else 0) ≡ started_in k true
ended_weight of_request = refl
ended_weight of_operation = refl

missed_weight : (k : Mark) → weight k (reported (text "operation.start")) ≡ started_in k true
missed_weight of_request = refl
missed_weight of_operation = refl

child_weight : (k : Mark) → started_in k false ≡ 0
child_weight of_request = refl
child_weight of_operation = refl

module _ (k : Mark) where
  reset-Quiet : (s : RequestState) (r : Runtime) → Quiet k r (reset_request s r)
  unfolding reset_request
  reset-Quiet s r = elim (Option-cases s.token) [
    | inl e ↦ rw (e, reset_request) refl
    | inr (token, e) ↦
        rw (e, reset_request)
          (elim (Bool-cases (nat_eq token.context r.here)) [
            | inl c ↦ rw c refl
            | inr c ↦
                rw c (still k r.effects _ _ refl (unmissed k (text "request.context_reset") refl))
          ])
  ]

  request_record :
      (es : List Effect) (fs : List Effect) (e : Effect)
      → completions k fs ≡ completions k es
      → weight k e ≡ begun k
      → completions k (fs ++ e ∷ []) ≡ begun k + completions k es
  request_record es fs e h g = omega (arith, completions-one k fs e, h, g)

  pub conclude-counts :
      (w : Outside) (result : Text) (s : RequestState) (r : Runtime)
      → completions k (conclude w result s r).effects ≡ begun k + completions k r.effects
  unfolding conclude emit_record
  conclude-counts w result s r =
      let n = begun k + completions k r.effects in
      elim (Bool-cases (result == text "error")) [
        | inl e ↦ rw e (
            reset-Quiet s _
            ∙ still k _ _ n
                (still k _ _ n
                  (still k _ _ n
                    (request_record r.effects _ _ (still k r.effects _ _ refl refl)
                      (begun_weight k))
                    refl)
                  refl)
                refl)
        | inr e ↦ rw e (
            reset-Quiet s _
            ∙ still k _ _ n
                (still k _ _ n
                  (request_record r.effects _ _ (still k r.effects _ _ refl refl) (begun_weight k))
                  refl)
                refl)
      ]

  pub begin-Quiet : (w : Outside) (q : Request) (r : Runtime) → Quiet k r (begin w q r)
  unfolding begin_request
  begin-Quiet w q r = refl

  reset_operation-Quiet :
      (w : Outside) (s : OperationState) (r : Runtime) → Quiet k r (reset_operation w s r)
  unfolding reset_operation
  reset_operation-Quiet w s r = elim (Option-cases s.token) [
    | inl e ↦ rw (e, reset_operation) refl
    | inr (token, e) ↦
        rw (e, reset_operation)
          (elim (Bool-cases (nat_eq token.context r.here)) [
            | inl c ↦ rw c refl
            | inr c ↦
                rw c (still k r.effects _ _ refl (unmissed k (text "operation.context_reset") refl))
          ])
  ]

  Counted-Quiet : (r q : Runtime) → Counted r q → Quiet k r q
  Counted-Quiet r q same = refl
  Counted-Quiet r q (counting {q = m} c n) = still k m.effects _ _ (Counted-Quiet r m c) refl

  finish_record :
      (es fs : List Effect) (e : Effect)
      → completions k fs ≡ completions k es
      → weight k e ≡ started_in k true
      → completions k (fs ++ e ∷ []) ≡ started_in k true + completions k es
  finish_record es fs e h g = omega (arith, completions-one k fs e, h, g)

  finish-counts :
      (w : Outside) (o : Option ℕ) (s : OperationState) (r : Runtime)
      → completions k (conclude_operation w o s r).effects
        ≡ started_in k true + completions k r.effects
  unfolding conclude_operation emit_record
  finish-counts w o s r =
      let n = started_in k true + completions k r.effects in
      elim (Bool-cases (is_some s.error)) [
        | inl e ↦ rw e (
            reset_operation-Quiet w s _
            ∙ still k _ _ n
                (still k _ _ n
                  (still k _ _ n (finish_record r.effects r.effects _ refl (ended_weight k)) refl)
                  refl)
                refl)
        | inr e ↦ rw e (
            reset_operation-Quiet w s _
            ∙ still k _ _ n
                (still k _ _ n (finish_record r.effects r.effects _ refl (ended_weight k)) refl)
                refl)
      ]

  -- A scope makes one mark, besides those of the calls in it.
  scope-counts :
      (w : Outside) (r m : Runtime) (kind : Bool) (x : Held × Runtime) (error : Option Failure)
      (c : ℕ)
      → Entered w r kind x
      → Keeps x.1 m
      → completions k m.effects ≡ c + completions k (x.1).effects
      → completions k (exit w x.0 error m).effects
        ≡ started_in k kind + (c + completions k r.effects)
  unfolding exit finish_child_span finish_operation read open_operation
  scope-counts w r m kind x error c (operating {q = q} d now name origin) keeps h =
      let s = opened_state w now name origin q m keeps in
      let o = some (length q.operations) in
      let active = finish-active w o error m s.0 s.1 s.3 in
      let start = still k q.effects _ _ (Counted-Quiet r q d) refl in
      ap (λ (x : Runtime). completions k x.effects) active
      ∙ finish-counts w o (finished_state w error s.0) m
      ∙ ap (λ n. started_in k true + n) (h ∙ ap (λ n. c + n) start)
  scope-counts w r m kind x error c (missed {q = q} d) keeps h = omega (
    arith,
    h,
    finish_record r.effects q.effects (reported (text "operation.start")) (Counted-Quiet r q d)
        (missed_weight k),
  )
  scope-counts w r m kind x error c (child {q = q} d s start) keeps h =
      let n = c + completions k r.effects in
      let quiet =
        still k m.effects (Effect.span_ended s.span error false) n
          (h
            ∙ ap (λ n. c + n)
                (still k q.effects (Effect.span_started start) _ (Counted-Quiet r q d) refl))
          refl in
      omega (arith, quiet, child_weight k)

  -- However requests whose spans can be started and scopes are nested in a context, and whatever is
  -- called between, there is one record of a completed request for each request, and for each
  -- operation one record of a completed operation or one report that it could not be started;
  -- an event that the application itself records under such a name counts as a record.
  pub run-completions :
      (w : Outside) (b : Body) (r : Runtime)
      → completions k (run w b r).effects ≡ marks_in k b + completions k r.effects
  unfolding run
  run-completions w done r = omega arith
  run-completions w (call c rest) r =
      omega (arith, run-completions w rest (apply w c r), apply-counts k w c r)
  run-completions w (within q inner rest) r =
      let opening = begin w q r in
      let body = run w inner opening in
      let o = opened w q r body (run-Keeps w inner opening) in
      let active = end-active w q.status q.error body o.0 o.1 o.3 in
      let one =
        ap (λ x. completions k x.effects) active
        ∙ conclude-counts w (outcome (either q.status (o.0).status_code) q.error)
            (completed_state q.status q.error o.0) body in
      omega (
        arith,
        run-completions w rest (end w q body),
        one,
        run-completions w inner opening,
        begin-Quiet w q r,
      )
  run-completions w (scoped now scope inner error rest) r =
      let x = enter w now scope r in
      let body = run w inner x.1 in
      let left =
        scope-counts w r body scope.is_operation x error (marks_in k inner)
          (enter-Entered w now scope r) (run-Keeps w inner x.1) (run-completions w inner x.1) in
      omega (arith, run-completions w rest (exit w x.0 error body), left)
