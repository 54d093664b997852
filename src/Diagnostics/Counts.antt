-- ===== src/Diagnostics/Counts.antt =====
-- The counters: no increment and no report is lost, printed or held back.
use policyengine_observabili.Base.{
  refl, ap, ◌∙◌, ℕ, ◌+◌, Text, text, ◌==◌, ==_iff, lookup, lookup-insert, or_else, if◌then◌else◌,
  ◌++◌, List, [], ◌∷◌, ◌≡◌, Option, arith, Bool-cases, inl, inr,
}
use policyengine_observabili.Value.{Value}
use policyengine_observabili.Diagnostics.{
  Diagnostics, Call, increments, listens, reports, restarts, restart_after_process_duplication,
  count, increment, add_listener, report, is_held_back, print_line, apply, run,
}

-- What a call adds to a counter; a restart adds nothing, and empties the counters.
pub added : Text → Call → ℕ
added name (increments n value) = if n == name then value else 0
added name (listens l) = 0
added name restarts = 0
added name (reports r now timestamp returns) =
    if text "failure." ++ r.operation == name then 1 else 0

-- A counter of `n` after calls.
pub tally : Text → ℕ → List Call → ℕ
tally name n [] = n
tally name n (restarts ∷ calls) = tally name 0 calls
tally name n (call ∷ calls) = tally name (n + added name call) calls

count-increment :
    (name n : Text) (value : ℕ) (d : Diagnostics)
    → count name (increment n value d) ≡ count name d + (if n == name then value else 0)
unfolding count increment
count-increment name n value d =
    ground
      (arith, ==_iff n name, lookup-insert n name (or_else (lookup n d.counts) 0 + value) d.counts)

module _ (printed : Value → Option Text) where
  count-apply :
      (name : Text) (call : Call) (d : Diagnostics)
      → count name (apply printed call d) ≡ tally name (count name d) (call ∷ [])
  unfolding tally apply added
  count-apply name (increments n value) d = count-increment name n value d
  count-apply name (listens l) d = unfold add_listener count in omega arith
  count-apply name (reports r now timestamp returns) d =
      unfold report in
      elim (Bool-cases
        (is_held_back r.operation now (increment (text "failure." ++ r.operation) 1 d))) [
          | inl e ↦ rw e (count-increment name (text "failure." ++ r.operation) 1 d)
          | inr e ↦ rw e (
              unfold print_line count in
              unfold count in count-increment name (text "failure." ++ r.operation) 1 d)
        ]
  count-apply name restarts d = unfold restart_after_process_duplication count lookup in refl

  -- After any calls a counter is what it was, or zero from the last
  -- `restart_after_process_duplication` on, and all that was added under its name since, where a
  -- report adds one under `failure.` with its operation, held back or not.
  pub count-run :
      (name : Text) (calls : List Call) (d : Diagnostics)
      → count name (run printed calls d) ≡ tally name (count name d) calls
  unfolding run tally
  count-run name [] d = refl
  count-run name (increments n value ∷ calls) d =
      count-run name calls (apply printed (increments n value) d)
      ∙ ap (λ m. tally name m calls) (count-apply name (increments n value) d)
  count-run name (listens l ∷ calls) d =
      count-run name calls (apply printed (listens l) d)
      ∙ ap (λ m. tally name m calls) (count-apply name (listens l) d)
  count-run name (reports r now timestamp returns ∷ calls) d =
      count-run name calls (apply printed (reports r now timestamp returns) d)
      ∙ ap (λ m. tally name m calls) (count-apply name (reports r now timestamp returns) d)
  count-run name (restarts ∷ calls) d =
      count-run name calls (apply printed restarts d)
      ∙ ap (λ m. tally name m calls) (count-apply name restarts d)
