-- ===== src/Runtime/Operations/Kept.antt =====
-- Entering a scope makes the new operation the active one; leaving it, after calls that keep what
-- was there, gives the context back the operation that it had.
use policyengine_observabili.Base.{
  ℕ, ◌++◌, Text, text, Float, length, update, nat_eq, nat_eq_iff, ◌≡◌, refl, ap, ◌∙◌, Bool, true,
  false, is_some, is_empty, Bool-cases, Option-cases, inl, inr, Option, none, some, ◌∷◌, [],
}
use policyengine_observabili.Value.{Failure}
use policyengine_observabili.Schema.{normalize_attributes}
use policyengine_observabili.Config.{local_attribute_keys}
use policyengine_observabili.Runtime.State.{
  OperationState, SpanStart, Runtime, omitted, reported, span_started, read, write, ask,
  count_omitted, emit_record,
}
use policyengine_observabili.Runtime.State.Store.{get-last, get-append, Kept-later}
use policyengine_observabili.Runtime.State.Keeps.{
  Keeps, Keeps-refl, Keeps-trans, SameOperation, operation_refl, operation_trans,
}
use policyengine_observabili.Runtime.Outside.{Outside}
use policyengine_observabili.Runtime.Operations.{
  Scope, ChildSpanState, local_origin, Held, held_operation, held_span, Origin, open_operation,
  start_operation, carrier_of, remote_attributes, origin_from, reset_operation, conclude_operation,
  finished_state, finish_operation, start_child_span, finish_child_span, enter, exit,
}

-- A context where at most attributes were counted out.
pub data Counted (r : Runtime) : Runtime → Type 0 where
  same : Counted r r
  counting : {q : Runtime} → Counted r q → (n : ℕ) → Counted r (ask (omitted n) q)

pub Counted-effects : (r q : Runtime) → Counted r q → q ≡ record r { effects = q.effects }
Counted-effects r q same = refl
Counted-effects r q (counting {q = m} c n) =
    ap (λ (x : Runtime). record x { effects = m.effects ++ omitted n ∷ [] }) (Counted-effects r m c)

Counted-count : (r q : Runtime) (n : ℕ) → Counted r q → Counted r (count_omitted n q)
unfolding count_omitted
Counted-count r q n c = elim (Bool-cases (nat_eq n 0)) [
  | inl e ↦ rw (e, count_omitted) c
  | inr e ↦ rw (e, count_omitted) (counting c n)
]

-- What comes of the start of an operation: it is open, or an exception left the start.
pub data Opening (w : Outside) (r : Runtime) : Option ℕ × Runtime → Type 0 where
  opening :
      {q : Runtime}
      → Counted r q
      → (now : Float) (name : Text) (origin : Origin)
      → Opening w r (open_operation w now name origin q)
  failing : {q : Runtime} → Counted r q → Opening w r (none, q)

-- What comes of entering a scope, of an operation or of a child span.
pub data Entered (w : Outside) (r : Runtime) : Bool → Held × Runtime → Type 0 where
  operating :
      {q : Runtime}
      → Counted r q
      → (now : Float) (name : Text) (origin : Origin)
      → Entered w r true
          (held_operation (some (length q.operations)), (open_operation w now name origin q).1)
  missed :
      {q : Runtime}
      → Counted r q
      → Entered w r true (held_operation none, ask (reported (text "operation.start")) q)
  child :
      {q : Runtime}
      → Counted r q
      → (s : ChildSpanState) (start : SpanStart)
      → Entered w r false (held_span s, ask (span_started start) q)

module _ (w : Outside) where
  start-Opening :
      (now : Float) (scope : Scope) (r : Runtime) → Opening w r (start_operation w now scope r)
  unfolding start_operation
  start-Opening now scope r =
      let own =
        normalize_attributes w.lower scope.attributes r.config (local_attribute_keys r.config) in
      let counted = count_omitted own.1 r in
      let near = Counted-count r r own.1 same in
      let far = remote_attributes w scope.remote_context r.config in
      elim (Bool-cases (is_empty scope.remote_context)) [
        | inl e ↦ rw (e, start_operation) (opening near now scope.name (local_origin own.0))
        | inr e ↦ elim (Option-cases (carrier_of w scope.remote_context)) [
          | inl f ↦
              rw (e, start_operation)
                (rw (f, start_operation) (failing (Counted-count r counted far.1 near)))
          | inr (carrier, f) ↦
              rw (e, start_operation)
                (rw (f, start_operation)
                  (opening (Counted-count r counted far.1 near) now scope.name (
                    origin_from w scope carrier (update far.0 own.0)
                      (count_omitted far.1 counted))))
        ]
      ]

  child-Entered :
      (now : Float) (scope : Scope) (r : Runtime)
      → Entered w r false
          (held_span (start_child_span w now scope r).0, (start_child_span w now scope r).1)
  unfolding start_child_span
  child-Entered now scope r =
      let own =
        normalize_attributes w.lower scope.attributes r.config (local_attribute_keys r.config) in
      child (Counted-count r r own.1 same) _ _

  operation-Entered :
      (r : Runtime) (x : Option ℕ × Runtime)
      → Opening w r x
      → Entered w r true (
        held_operation x.0,
        elim x.0 [ none ↦ ask (reported (text "operation.start")) x.1 | some o ↦ x.1 ],
      )
  operation-Entered r x (opening c now name origin) =
      unfold open_operation in operating c now name origin
  operation-Entered r x (failing c) = missed c

  pub enter-Entered :
      (now : Float) (scope : Scope) (r : Runtime)
      → Entered w r scope.is_operation (enter w now scope r)
  unfolding enter
  enter-Entered now scope r = elim (Bool-cases scope.is_operation) [
    | inl e ↦ simp (e, enter) (operation-Entered r _ (start-Opening now scope r))
    | inr e ↦ simp (e, enter) (child-Entered now scope r)
  ]

  counted-Keeps : (r q : Runtime) → Counted r q → Keeps r q
  counted-Keeps r q same = Keeps-refl r
  counted-Keeps r q (counting {q = m} c n) = counted-Keeps r m c

  -- What concluding an operation leaves, in the context where it was started.
  abbrev Closes : Option ℕ → OperationState → Option ℕ → Runtime → Runtime → Type 0
  Closes o s p m q =
      (q.here ≡ m.here)
      × (q.request ≡ m.request)
      × (q.operation ≡ p)
      × (q.requests ≡ m.requests)
      × (q.operations ≡ write o s m.operations)

  reset_here :
      (s : OperationState) (p : Option ℕ) (r : Runtime)
      → s.token ≡ some (record { context = r.here; previous = p })
      → reset_operation w s r ≡ record r { operation = p }
  unfolding reset_operation
  reset_here s p r h = rw h (rw ((nat_eq_iff r.here r.here).1 refl) refl)

  reset-Closes :
      (o : Option ℕ) (s : OperationState) (p : Option ℕ) (m r : Runtime)
      → s.token ≡ some (record { context = m.here; previous = p })
      → (r.here ≡ m.here)
        × (r.request ≡ m.request)
        × (r.requests ≡ m.requests)
        × (r.operations ≡ write o s m.operations)
      → Closes o s p m (reset_operation w s r)
  reset-Closes o s p m r h e = rw (reset_here s p r (rw e.0 h)) (e.0, e.1, refl, e.2, e.3)

  conclude-Closes :
      (o : Option ℕ) (s : OperationState) (p : Option ℕ) (m : Runtime)
      → s.token ≡ some (record { context = m.here; previous = p })
      → Closes o s p m (conclude_operation w o s m)
  unfolding conclude_operation emit_record
  conclude-Closes o s p m h = elim (Bool-cases (is_some s.error)) [
    | inl e ↦ rw e (reset-Closes o s p m _ h (refl, refl, refl, refl))
    | inr e ↦ rw e (reset-Closes o s p m _ h (refl, refl, refl, refl))
  ]

  pub finish-active :
      (o : Option ℕ) (error : Option Failure) (m : Runtime) (s : OperationState)
      → read o m.operations ≡ some s
      → s.completed ≡ false
      → finish_operation w o error m ≡ conclude_operation w o (finished_state w error s) m
  unfolding finish_operation
  finish-active o error m s e c = rw (e, finish_operation) (rw c refl)

  -- The state that was opened, found again after calls that keep what was there.
  pub opened_state :
      (now : Float) (name : Text) (origin : Origin) (q m : Runtime)
      → Keeps (open_operation w now name origin q).1 m
      → (s : OperationState) × (read (some (length q.operations)) m.operations ≡ some s)
        × (s.token ≡ some (record { context = q.here; previous = q.operation }))
        × (s.completed ≡ false)
  unfolding open_operation read
  opened_state now name origin q m k =
      let t = k.4 (length q.operations) _ (get-last q.operations _) in (t.0, t.1, t.2.2, t.2.3)

  finish-Keeps :
      (now : Float) (name : Text) (origin : Origin) (q m : Runtime) (error : Option Failure)
      → Keeps (open_operation w now name origin q).1 m
      → Keeps q (finish_operation w (some (length q.operations)) error m)
  unfolding open_operation
  finish-Keeps now name origin q m error k =
      let t = opened_state now name origin q m k in
      let s = finished_state w error t.0 in
      let here : m.here ≡ q.here = k.0 in
      let token : s.token ≡ some (record { context = m.here; previous = q.operation }) =
        unfold finished_state in rw here t.2 in
      let c = conclude-Closes (some (length q.operations)) s q.operation m token in
      rw (finish-active (some (length q.operations)) error m t.0 t.1 t.3) (
        c.0 ∙ here,
        c.1 ∙ k.1,
        c.2,
        rw c.3 k.3,
        rw c.4 (
            Kept-later SameOperation operation_refl operation_trans q.operations m.operations s
              (some (length q.operations)) (λ i u h. k.4 i u (get-append q.operations _ i u h))
              refl),
      )

  -- Leaving a scope gives back what there was before it.
  pub scope-Keeps :
      (r m : Runtime) (kind : Bool) (x : Held × Runtime) (error : Option Failure)
      → Entered w r kind x
      → Keeps x.1 m
      → Keeps r (exit w x.0 error m)
  unfolding exit finish_child_span finish_operation read
  scope-Keeps r m kind x error (operating {q = q} c now name origin) k =
      Keeps-trans r q (finish_operation w (some (length q.operations)) error m)
        (counted-Keeps r q c) (finish-Keeps now name origin q m error k)
  scope-Keeps r m kind x error (missed {q = q} c) k = Keeps-trans r q m (counted-Keeps r q c) k
  scope-Keeps r m kind x error (child {q = q} c s start) k =
      Keeps-trans r q m (counted-Keeps r q c) k
