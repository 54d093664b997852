-- ===== src/Diagnostics/Rate.antt =====
-- The rate limit: a report is let through to `print` unless one of its operation was too recently.
use policyengine_observabili.Base.{
  ℕ, ◌+◌, ◌*◌, max, ◌≤◌, ltb, nat_eq, Text, text, ◌==◌, ==_iff, Dict, lookup, insert, lookup-insert,
  ◌++◌, List, [], ◌∷◌, ◌≡◌, refl, sym, subst, ◌∙◌, ==_refl, Option, some, arith, Bool-cases, inl,
  inr, All, All-append, any, ◌&&◌, ◌||◌, Bool, true, false,
}
use policyengine_observabili.Value.{Value}
use policyengine_observabili.Diagnostics.{
  Diagnostics, Line, Report, report_line, Call, increments, listens, reports, restarts,
  restart_after_process_duplication, increment, add_listener, report, is_held_back, print_line,
  apply, run, create,
}

-- `t` is the time of the last line of the operation, if it has one.
abbrev IsKnown : Dict ℕ → Line → Type 0
IsKnown last l = (t : ℕ) × (lookup l.operation last ≡ some t) × (l.at ≤ t)

abbrev printed_at : Text → ℕ → Line → Bool
printed_at operation t l = l.operation == operation && nat_eq l.at t

-- Two lines of one operation are an interval apart.
abbrev pub IsApart : ℕ → Line → Line → Type 0
IsApart interval l m = l.operation ≡ m.operation → l.at + interval ≤ m.at

abbrev pub IsSpaced : ℕ → List Line → Type 0
IsSpaced interval [] = Unit
IsSpaced interval (l ∷ lines) = All (IsApart interval l) lines × IsSpaced interval lines

record IsConsistent (d : Diagnostics) : Type 0 where
  known : All (IsKnown d.last_report) d.lines
  witnessed :
      (operation : Text) (t : ℕ)
      → lookup operation d.last_report ≡ some t
      → any (printed_at operation t) d.lines ≡ true
  spaced : IsSpaced d.interval d.lines

IsSpaced-append :
    (interval : ℕ) (lines : List Line) (m : Line)
    → IsSpaced interval lines
    → All (λ l. IsApart interval l m) lines
    → IsSpaced interval (lines ++ (m ∷ []))
IsSpaced-append interval [] m s h = (tt, tt)
IsSpaced-append interval (l ∷ lines) m s h = (
  All-append (IsApart interval l) lines (m ∷ []) s.0 (h.0, tt),
  IsSpaced-append interval lines m s.1 h.1,
)

any-append {ℓ} :
    {A : Type ℓ} (p : A → Bool) (xs ys : List A) → any p (xs ++ ys) ≡ (any p xs || any p ys)
any-append p [] ys = refl
any-append p (x ∷ xs) ys = ground (arith, any-append p xs ys)

module _ (printed : Value → Option Text) (r : Report) (now : ℕ) (timestamp : Text) (returns : Bool)
    (d : Diagnostics) (due : is_held_back r.operation now d ≡ false) where
  apart_from_line :
      (l : Line) → IsKnown d.last_report l → l.operation ≡ r.operation → l.at + d.interval ≤ now
  unfolding is_held_back
  apart_from_line l k e =
      let found : lookup r.operation d.last_report ≡ some k.0 =
        subst (λ o. lookup o d.last_report ≡ some k.0) e k.1 in
      ground (arith, found, k.2, due)

  spaced_from :
      (m : Line)
      → m.operation ≡ r.operation
      → m.at ≡ now
      → (lines : List Line) → All (IsKnown d.last_report) lines
      → All (λ l. IsApart d.interval l m) lines
  spaced_from m e t [] k = tt
  spaced_from m e t (l ∷ lines) k =
      ((λ q. rw t (apart_from_line l k.0 (q ∙ e))), spaced_from m e t lines k.1)

  still-IsKnown :
      (lines : List Line)
      → All (IsKnown d.last_report) lines
      → All (IsKnown (insert r.operation now d.last_report)) lines
  still-IsKnown [] k = tt
  still-IsKnown (l ∷ lines) k = (
    elim (Bool-cases (r.operation == l.operation)) [
      | inl same ↦ (
        now,
        rw (lookup-insert r.operation l.operation now d.last_report, same),
        omega (arith, apart_from_line l k.0 (sym ((==_iff r.operation l.operation).0 same))),
      )
      | inr other ↦
          (k.0.0, rw (lookup-insert r.operation l.operation now d.last_report, other) k.0.1, k.0.2)
    ],
    still-IsKnown lines k.1,
  )

  print_line-IsConsistent :
      IsConsistent d → IsConsistent (print_line printed r now timestamp returns d)
  unfolding print_line
  print_line-IsConsistent c = record {
    known =
        All-append (IsKnown (insert r.operation now d.last_report)) d.lines _
          (still-IsKnown d.lines c.known)
          (
            (
              now,
              rw (lookup-insert r.operation r.operation now d.last_report, ==_refl r.operation),
              omega arith,
            ),
            tt,
          );
    witnessed = λ operation t e. rw (any-append (printed_at operation t) d.lines _) (
        ground (
          arith,
          e,
          ==_iff r.operation operation,
          c.witnessed operation t,
          lookup-insert r.operation operation now d.last_report,
        ));
    spaced =
        IsSpaced-append d.interval d.lines _ c.spaced
          (spaced_from (report_line printed r now timestamp returns d) refl refl d.lines c.known);
  }

module _ (printed : Value → Option Text) where
  increment-IsConsistent :
      (n : Text) (value : ℕ) (d : Diagnostics) → IsConsistent d → IsConsistent (increment n value d)
  unfolding increment
  increment-IsConsistent n value d c = record {
    known = c.known;
    witnessed = c.witnessed;
    spaced = c.spaced;
  }

  apply-IsConsistent :
      (call : Call) (d : Diagnostics) → IsConsistent d → IsConsistent (apply printed call d)
  unfolding apply
  apply-IsConsistent (increments n value) d c = increment-IsConsistent n value d c
  apply-IsConsistent (listens l) d c =
      unfold add_listener in record { known = c.known; witnessed = c.witnessed; spaced = c.spaced }
  apply-IsConsistent (reports r now timestamp returns) d c =
      unfold report in
      let counted = increment (text "failure." ++ r.operation) 1 d in
      let still : IsConsistent counted =
        increment-IsConsistent (text "failure." ++ r.operation) 1 d c in
      elim (Bool-cases (is_held_back r.operation now counted)) [
        | inl e ↦ rw e still
        | inr e ↦ rw e (print_line-IsConsistent printed r now timestamp returns counted e still)
      ]
  apply-IsConsistent restarts d c =
      unfold restart_after_process_duplication lookup in
      record { known = tt; witnessed = λ operation t e. cc; spaced = tt }

  run-IsConsistent :
      (calls : List Call) (d : Diagnostics) → IsConsistent d → IsConsistent (run printed calls d)
  unfolding run
  run-IsConsistent [] d c = c
  run-IsConsistent (call ∷ calls) d c =
      run-IsConsistent calls (apply printed call d) (apply-IsConsistent call d c)

  interval-apply : (call : Call) (d : Diagnostics) → (apply printed call d).interval ≡ d.interval
  unfolding apply increment add_listener report print_line
  interval-apply (increments n value) d = refl
  interval-apply (listens l) d = refl
  interval-apply (reports r now timestamp returns) d = ground arith
  interval-apply restarts d = unfold restart_after_process_duplication in refl

  interval-run : (calls : List Call) (d : Diagnostics) → (run printed calls d).interval ≡ d.interval
  unfolding run
  interval-run [] d = refl
  interval-run (call ∷ calls) d = interval-run calls (apply printed call d) ∙ interval-apply call d

create-IsConsistent :
    (second seconds : ℕ) (vs : List Text) → IsConsistent (create second seconds vs)
unfolding create lookup
create-IsConsistent second seconds vs = record {
  known = tt;
  witnessed = λ operation t e. cc;
  spaced = tt;
}

-- A line of the operation that is less than an interval old.
abbrev pub is_recent : Text → ℕ → ℕ → Line → Bool
is_recent operation interval now l = l.operation == operation && ltb now (l.at + interval)

module _ (printed : Value → Option Text) (second seconds : ℕ) (sensitive_values : List Text) where
  -- After any calls, two lines of one operation since the creation or the last
  -- `restart_after_process_duplication`, printed or lost by a `print` that raised, are at least an
  -- interval apart.
  pub lines-IsSpaced :
      (calls : List Call)
      → IsSpaced
          (max second (seconds * second))
          (run printed calls (create second seconds sensitive_values)).lines
  lines-IsSpaced calls =
      let d0 = create second seconds sensitive_values in
      let e : (run printed calls d0).interval ≡ max second (seconds * second) =
        unfold create in interval-run printed calls d0 in
      subst (λ i. IsSpaced i (run printed calls d0).lines) e
        (run-IsConsistent printed calls d0
          (create-IsConsistent second seconds sensitive_values)).spaced
