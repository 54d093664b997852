-- ===== src/Runtime/Shutdown.antt =====
-- policyengine_observability/runtime.py: `shutdown`. What the delivery and the providers do when they
-- are closed is given: whether the delivery raises, and how the thread of the providers' shutdown
-- ends.
use policyengine_observabili.Base.{
  ℕ, zero, suc, nat_eq, any, none, some, ◌⊎◌, ap, ◌∙◌, Text, text, ◌++◌, pos, Float, finite,
  leb_float, Bool, true, false, if◌then◌else◌, ◌≡◌, refl, Option, List, [], ◌∷◌, All, Bool-cases,
  inl, inr,
}
use policyengine_observabili.Runtime.Rules.{bounded_shutdown_timeout}
use policyengine_observabili.Runtime.Rules.Facts.{bounded_shutdown_timeout_lem}
use policyengine_observabili.Runtime.State.{get, set_at}
use policyengine_observabili.Runtime.Logging.{
  Handler, Logging, handlers_of, remove_each, remove_logging_handlers,
}

-- What a shutdown asks of the parts, with the deadline of each, and of the diagnostics.
pub data Closing : Type 0 where
  delivery_closed : Float → Closing
  otel_closed : Float → Closing
  failed : Text → Closing
  counted : Text → Closing

-- A thread is not started, raises, outlives the deadline, or returns before it.
pub data Finish : Type 0 where
  unstarted : Finish
  raised : Finish
  late : Finish
  returned : Finish

-- What is outside: the configured deadlines as `float` reads them, and how the parts close.
pub record Closure : Type 0 where
  pub logging_seconds : Option Float
  pub otel_seconds : Option Float
  pub delivery_raises : Bool
  pub otel_finish : Finish

pub record Process : Type 0 where
  pub closed : Bool
  pub logging : Logging
  pub closings : List Closing

-- `_run_bounded` on the shutdown of the providers, with the handler of what it raises itself.
unfoldable pub run_bounded : Float → Finish → List Closing
run_bounded timeout unstarted = failed (text "otel.shutdown") ∷ []
run_bounded timeout raised = otel_closed timeout ∷ failed (text "otel.shutdown_deadline") ∷ []
run_bounded timeout late =
    otel_closed timeout
    ∷ counted (text "shutdown.timeout")
    ∷ failed (text "otel.shutdown_deadline")
    ∷ []
run_bounded timeout returned = otel_closed timeout ∷ []

unfoldable pub closings_of : Closure → List Closing
closings_of c =
    let logging_timeout = bounded_shutdown_timeout c.logging_seconds (finite (pos 2) 0) in
    let otel_timeout = bounded_shutdown_timeout c.otel_seconds (finite (pos 3) 0) in
    delivery_closed logging_timeout
    ∷ ((if c.delivery_raises then failed (text "logging.shutdown") ∷ [] else [])
        ++ run_bounded otel_timeout c.otel_finish)

abbrev pub IsWithinMinute : Closing → Type 0
IsWithinMinute (delivery_closed t) =
    (leb_float (finite (pos 0) 0) t ≡ true) × (leb_float t (finite (pos 60) 0) ≡ true)
IsWithinMinute (otel_closed t) =
    (leb_float (finite (pos 0) 0) t ≡ true) × (leb_float t (finite (pos 60) 0) ≡ true)
IsWithinMinute _ = Unit

run_bounded-IsWithinMinute :
    (t : Float) (f : Finish) → IsWithinMinute (otel_closed t) → All IsWithinMinute (run_bounded t f)
unfolding run_bounded
run_bounded-IsWithinMinute t unstarted h = (tt, tt)
run_bounded-IsWithinMinute t raised h = (h, (tt, tt))
run_bounded-IsWithinMinute t late h = (h, (tt, (tt, tt)))
run_bounded-IsWithinMinute t returned h = (h, tt)

closings-IsWithinMinute : (c : Closure) → All IsWithinMinute (closings_of c)
unfolding closings_of
closings-IsWithinMinute c =
    let d = bounded_shutdown_timeout_lem c.logging_seconds (finite (pos 2) 0) (refl, refl) in
    let o =
      run_bounded-IsWithinMinute _ c.otel_finish
        (bounded_shutdown_timeout_lem c.otel_seconds (finite (pos 3) 0) (refl, refl)) in
    elim (Bool-cases c.delivery_raises) [ inl e ↦ rw e (d, (tt, o)) | inr e ↦ rw e (d, o) ]

-- The providers are asked to close.
abbrev pub is_otel_closing : Closing → Bool
is_otel_closing (otel_closed t) = true
is_otel_closing _ = false

abbrev pub is_started : Finish → Bool
is_started unstarted = false
is_started _ = true

-- The delivery is asked to close first, and then the providers, unless their thread cannot start.
abbrev pub AsksBoth : Closure → List Closing → Type 0
AsksBoth c [] = ⊥
AsksBoth c (delivery_closed t ∷ rest) = any is_otel_closing rest ≡ is_started c.otel_finish
AsksBoth c (_ ∷ rest) = ⊥

any-otel : (f : Finish) (t : Float) → any is_otel_closing (run_bounded t f) ≡ is_started f
unfolding run_bounded
any-otel unstarted t = refl
any-otel raised t = refl
any-otel late t = refl
any-otel returned t = refl

closings-AsksBoth : (c : Closure) → AsksBoth c (closings_of c)
unfolding closings_of
closings-AsksBoth c = elim (Bool-cases c.delivery_raises) [
  | inl e ↦ rw e (any-otel c.otel_finish _)
  | inr e ↦ rw e (any-otel c.otel_finish _)
]

abbrev pub is_same : Handler → Handler → Bool
is_same h g = nat_eq g.id h.id

abbrev at : ℕ → List (List Handler) → List Handler
at i loggers = elim (get loggers i) [ none ↦ [] | some handlers ↦ handlers ]

at-set_at :
    (k i : ℕ) (ys : List Handler) (xs : List (List Handler))
    → ((k ≡ i) × (at i (set_at k ys xs) ≡ ys)) ⊎ (at i (set_at k ys xs) ≡ at i xs)
unfolding get set_at
at-set_at k i ys [] = inr refl
at-set_at zero zero ys (x ∷ xs) = inl (refl, refl)
at-set_at zero (suc i) ys (x ∷ xs) = inr refl
at-set_at (suc k) zero ys (x ∷ xs) = inr refl
at-set_at (suc k) (suc i) ys (x ∷ xs) = elim (at-set_at k i ys xs) [
  | inl (e, f) ↦ inl (ap (λ n. suc n) e, f)
  | inr f ↦ inr f
]

at-set_at_same :
    (i : ℕ) (ys : List Handler) (xs : List (List Handler))
    → (at i (set_at i ys xs) ≡ ys) ⊎ (at i (set_at i ys xs) ≡ [])
unfolding get set_at
at-set_at_same i ys [] = inr refl
at-set_at_same zero ys (x ∷ xs) = inl refl
at-set_at_same (suc i) ys (x ∷ xs) = at-set_at_same i ys xs

module _ (remove : Handler → List Handler → List Handler × Bool) where
  -- `Logger.removeHandler` takes the handler out, and puts no other in.
  abbrev pub Removes : Type 0
  Removes =
      (h g : Handler) (handlers : List Handler)
      → (any (is_same h) (remove h handlers).0 ≡ false)
        × (any (is_same g) handlers ≡ false → any (is_same g) (remove h handlers).0 ≡ false)

  abbrev pub IsGone : Logging → ℕ × Handler → Type 0
  IsGone l (logger, h) = any (is_same h) (handlers_of logger l) ≡ false

  abbrev left : ℕ → Handler → Logging → List Text → Logging
  left logger h l reports = record l {
    loggers = set_at logger (remove h (handlers_of logger l)).0 l.loggers;
    reports = reports;
  }

  left-IsGone :
      (rs : Removes) (logger : ℕ) (h : Handler) (l : Logging) (reports : List Text)
      → IsGone (left logger h l reports) (logger, h)
  unfolding handlers_of
  left-IsGone rs logger h l reports =
      elim (at-set_at_same logger (remove h (handlers_of logger l)).0 l.loggers) [
        | inl e ↦ ap (any (is_same h)) e ∙ (rs h h (handlers_of logger l)).0
        | inr e ↦ ap (any (is_same h)) e
      ]

  left-still :
      (rs : Removes) (logger : ℕ) (h : Handler) (l : Logging) (reports : List Text)
      (p : ℕ × Handler)
      → IsGone l p
      → IsGone (left logger h l reports) p
  unfolding handlers_of
  left-still rs logger h l reports (i, g) gone =
      elim (at-set_at logger i (remove h (handlers_of logger l)).0 l.loggers) [
        | inl (e, f) ↦
            ap (any (is_same g)) f
            ∙ (rs h g (handlers_of logger l)).1
                (ap (λ k. any (is_same g) (handlers_of k l)) e ∙ gone)
        | inr f ↦ ap (any (is_same g)) f ∙ gone
      ]

  remove_each-still :
      (rs : Removes) (registered : List (ℕ × Handler)) (l : Logging) (p : ℕ × Handler)
      → IsGone l p
      → IsGone (remove_each remove registered l) p
  unfolding remove_each
  remove_each-still rs [] l p gone = gone
  remove_each-still rs ((logger, h) ∷ rest) l p gone =
      elim (Bool-cases (remove h (handlers_of logger l)).1) [
        | inl e ↦ rw e (remove_each-still rs rest _ p (left-still rs logger h l l.reports p gone))
        | inr e ↦ rw e (remove_each-still rs rest _ p (left-still rs logger h l _ p gone))
      ]

  remove_each-IsGone :
      (rs : Removes) (registered : List (ℕ × Handler)) (l : Logging)
      → All (IsGone (remove_each remove registered l)) registered
  unfolding remove_each
  remove_each-IsGone rs [] l = tt
  remove_each-IsGone rs ((logger, h) ∷ rest) l =
      elim (Bool-cases (remove h (handlers_of logger l)).1) [
        | inl e ↦ rw e (
          remove_each-still rs rest _ (logger, h) (left-IsGone rs logger h l l.reports),
          remove_each-IsGone rs rest _,
        )
        | inr e ↦ rw e (
          remove_each-still rs rest _ (logger, h) (left-IsGone rs logger h l _),
          remove_each-IsGone rs rest _,
        )
      ]

  unfoldable pub shutdown : Closure → Process → Process
  shutdown c p = if p.closed then p else record {
    closed = true;
    logging = remove_logging_handlers remove p.logging;
    closings = p.closings ++ closings_of c;
  }

  -- Calls in their order; the lock lets one run at a time.
  unfoldable pub shutdowns : List Closure → Process → Process
  shutdowns [] p = p
  shutdowns (c ∷ calls) p = shutdowns calls (shutdown c p)

  shutdown-closed : (c : Closure) (p : Process) → (shutdown c p).closed ≡ true
  unfolding shutdown
  shutdown-closed c p = elim (Bool-cases p.closed) [
    | inl e ↦ simp (e, shutdown) refl
    | inr e ↦ rw (e, shutdown) refl
  ]

  shutdowns-closed : (calls : List Closure) (p : Process) → p.closed ≡ true → shutdowns calls p ≡ p
  unfolding shutdowns shutdown
  shutdowns-closed [] p h = refl
  shutdowns-closed (c ∷ calls) p h = simp h (shutdowns-closed calls p h)

  -- Of the calls of `shutdown` on a runtime that is not closed, the first alone does anything: it
  -- asks the delivery to close, and then the providers, unless their thread cannot start, each with a
  -- deadline from 0 to 60 seconds, whatever is configured and however they fail; and it takes every
  -- handler that was registered out of its logger, if `removeHandler` does, and registers none.
  pub shutdown-once :
      (rs : Removes) (c : Closure) (calls : List Closure) (p : Process)
      → p.closed ≡ false
      → let q = shutdowns (c ∷ calls) p in
        (q ≡ shutdown c p)
        × ((asked : List Closing) × (q.closings ≡ p.closings ++ asked)
            × AsksBoth c asked
            × All IsWithinMinute asked)
        × All (IsGone q.logging) p.logging.registered
        × (q.logging.registered ≡ [])
  unfolding shutdowns
  shutdown-once rs c calls p h =
      let same = shutdowns-closed calls (shutdown c p) (shutdown-closed c p) in
      (
        same,
        (
          closings_of c,
          rw same (unfold shutdown in simp h refl),
          closings-AsksBoth c,
          closings-IsWithinMinute c,
        ),
        rw same (
            unfold shutdown remove_logging_handlers handlers_of in
            simp h (remove_each-IsGone rs p.logging.registered p.logging)),
        rw same (unfold shutdown remove_logging_handlers in simp h refl),
      )
