-- ===== src/Delivery/Queued/Fifo.antt =====
-- Every record that the queue accepts is taken to the writer once and in order, or is still there; and
-- what the calls of the writer are.
use mathlib.Core.List.{append_assoc, append-nil}
use policyengine_observabili.Base.{
  zero, suc, ◌-◌, ℤ, ℕ, ◌≡◌, refl, sym, ap, ◌∙◌, length, Bool, true, false, List, [], ◌∷◌, ◌++◌,
  Option, none, some, arith, leb, Bool-cases, inl, inr,
}
use policyengine_observabili.Delivery.Writer.{Writer}
use policyengine_observabili.Delivery.Queued.{
  Queued, Item, job, stop, Phase, idle, expired, finished, died, collecting, Event, accepted,
  handed, unbuilt, released, written, record_of, work_expired, begin_round, set_closed, Action,
  enqueues, puts, closes, sets, puts_stop, joins, works, put, is_full, begin_enqueue,
  finish_enqueue, begin_close, put_stop, is_alive, after_join, leave, export, end_round, add_item,
  work_idle, work_next, work_phase, work, puts_picked, pick, act, run,
}
use policyengine_observabili.Delivery.Queued.Bounds.{batch_of}

module _ {R : Type 0} where
  abbrev pub jobs : List (Item R) → List R
  jobs [] = []
  jobs (job r ∷ items) = r ∷ jobs items
  jobs (stop ∷ items) = jobs items

  abbrev pub accepted_of : List (Event R) → List R
  accepted_of [] = []
  accepted_of (accepted r ∷ events) = r ∷ accepted_of events
  accepted_of (_ ∷ events) = accepted_of events

  -- The records of the batches that were written, or given up where no writer was built.
  abbrev pub taken_of : List (Event R) → List R
  taken_of [] = []
  taken_of (accepted r ∷ events) = taken_of events
  taken_of (handed batch ∷ events) = batch ++ taken_of events
  taken_of (unbuilt batch ∷ events) = batch ++ taken_of events
  taken_of (released ∷ events) = taken_of events

  jobs-cons :
      (item : Item R) (rest : List (Item R)) → jobs (item ∷ rest) ≡ record_of item ++ jobs rest
  jobs-cons (job r) rest = refl
  jobs-cons stop rest = refl

  pub jobs-append : (xs ys : List (Item R)) → jobs (xs ++ ys) ≡ jobs xs ++ jobs ys
  jobs-append [] ys = refl
  jobs-append (job r ∷ xs) ys = rw (jobs-append xs ys)
  jobs-append (stop ∷ xs) ys = jobs-append xs ys

  pub accepted_of-written :
      (b : Bool) (batch : List R) (events : List (Event R))
      → accepted_of (written b batch ∷ events) ≡ accepted_of events
  accepted_of-written true batch events = refl
  accepted_of-written false batch events = refl

  taken_of-written :
      (b : Bool) (batch : List R) (events : List (Event R))
      → taken_of (written b batch ∷ events) ≡ batch ++ taken_of events
  taken_of-written true batch events = refl
  taken_of-written false batch events = refl

  pub accepted_of-append :
      (xs ys : List (Event R)) → accepted_of (xs ++ ys) ≡ accepted_of xs ++ accepted_of ys
  accepted_of-append [] ys = refl
  accepted_of-append (accepted r ∷ xs) ys = rw (accepted_of-append xs ys)
  accepted_of-append (handed batch ∷ xs) ys = accepted_of-append xs ys
  accepted_of-append (unbuilt batch ∷ xs) ys = accepted_of-append xs ys
  accepted_of-append (released ∷ xs) ys = accepted_of-append xs ys

  taken_of-append : (xs ys : List (Event R)) → taken_of (xs ++ ys) ≡ taken_of xs ++ taken_of ys
  taken_of-append [] ys = refl
  taken_of-append (accepted r ∷ xs) ys = taken_of-append xs ys
  taken_of-append (handed batch ∷ xs) ys = rw (taken_of-append xs ys) (sym (append_assoc batch _ _))
  taken_of-append (unbuilt batch ∷ xs) ys =
      rw (taken_of-append xs ys) (sym (append_assoc batch _ _))
  taken_of-append (released ∷ xs) ys = taken_of-append xs ys

-- The records that the worker holds, and then those in the queue.
abbrev pub pending : {R E : Type 0} → Queued R E → List R
pending q = batch_of q.phase ++ jobs q.queue

-- What a step accepts goes to the end of the pending records; what it takes to the writer is their beginning.
abbrev pub Conserves : {R E : Type 0} → Queued R E → Queued R E × List (Event R) → Type 0
Conserves q (q', events) = pending q ++ accepted_of events ≡ taken_of events ++ pending q'

module _ {R E : Type 0} (w : Writer R E) where
  pub leave-Conserves :
      (p : Phase R) (q : Queued R E)
      → (accepted_of (leave w p q).1 ≡ [])
        × (taken_of (leave w p q).1 ≡ [])
        × (pending (leave w p q).0 ≡ batch_of p ++ jobs q.queue)
  unfolding leave
  leave-Conserves p q = elim (Bool-cases q.built) [
    | inl e ↦ simp e (refl, refl, refl)
    | inr e ↦ simp e (refl, refl, refl)
  ]

  end_round-Conserves :
      (batch : List R) (n : ℕ) (s : Bool) (q : Queued R E)
      → batch_of q.phase ≡ batch
      → Conserves q (end_round w batch n s q)
  unfolding end_round
  end_round-Conserves [] n s q e =
      let (a, t, l) = leave-Conserves finished (record q { unfinished = q.unfinished - n }) in
      rw (e, a, t, l, append-nil) refl
  end_round-Conserves (r ∷ rs) n true q e =
      let q' = export w (r ∷ rs) n q in
      let (a, t, l) = leave-Conserves finished q' in
      rw (e, accepted_of-written q'.built (r ∷ rs), taken_of-written q'.built (r ∷ rs))
        (rw (a, t, l, append-nil, append-nil) (unfold export in refl))
  end_round-Conserves (r ∷ rs) n false q e =
      let q' = export w (r ∷ rs) n q in
      rw (e, accepted_of-written q'.built (r ∷ rs), taken_of-written q'.built (r ∷ rs))
        (rw (append-nil, append-nil) (unfold export in refl))

  begin_round-Conserves :
      (size : Option ℤ) (item : Item R) (rest : List (Item R)) (q : Queued R E)
      → q.queue ≡ item ∷ rest
      → batch_of q.phase ≡ []
      → Conserves q (begin_round w size item (record q { queue = rest }))
  unfolding begin_round add_item
  begin_round-Conserves none item rest q e f =
      let (a, t, l) = leave-Conserves (died (record_of item) 1) (record q { queue = rest }) in
      rw (e, f, a, t, l, append-nil) (jobs-cons item rest)
  begin_round-Conserves (some n) (job r) rest q e f = rw (e, f, append-nil)
  begin_round-Conserves (some n) stop rest q e f = rw (e, f, append-nil)

  work_idle-Conserves :
      (size : Option ℤ) (items : List (Item R)) (q : Queued R E)
      → q.queue ≡ items
      → batch_of q.phase ≡ []
      → Conserves q (work_idle w size items q)
  unfolding work_idle
  work_idle-Conserves size [] q e f = rw (f, append-nil)
  work_idle-Conserves size (item ∷ rest) q e f = begin_round-Conserves size item rest q e f

  work_expired-Conserves :
      (b : Bool) (q : Queued R E) → batch_of q.phase ≡ [] → Conserves q (work_expired w b q)
  unfolding work_expired
  work_expired-Conserves true q f =
      let (a, t, l) = leave-Conserves finished q in rw (a, t, l, f, append-nil) refl
  work_expired-Conserves false q f = rw (f, append-nil)

  work_next-Conserves :
      (items : List (Item R)) (batch : List R) (n : ℕ) (q : Queued R E)
      → q.queue ≡ items
      → batch_of q.phase ≡ batch
      → Conserves q (work_next w items batch n q)
  unfolding work_next add_item
  work_next-Conserves [] batch n q e f = end_round-Conserves batch n false q f
  work_next-Conserves (job r ∷ rest) batch n q e f =
      rw (e, f, append-nil) (sym (append_assoc batch _ _))
  work_next-Conserves (stop ∷ rest) batch n q e f = rw (e, f, append-nil)

  work_phase-Conserves :
      (size : Option ℤ) (p : Phase R) (q : Queued R E)
      → q.phase ≡ p
      → Conserves q (work_phase w size p q)
  unfolding work_phase
  work_phase-Conserves size idle q e =
      work_idle-Conserves size q.queue q refl (ap (batch_of {R = R}) e)
  work_phase-Conserves size expired q e =
      work_expired-Conserves q.closed q (ap (batch_of {R = R}) e)
  work_phase-Conserves size finished q e = append-nil (pending q)
  work_phase-Conserves size (died batch n) q e = append-nil (pending q)
  work_phase-Conserves size (collecting batch n true) q e =
      end_round-Conserves batch n true q (ap (batch_of {R = R}) e)
  work_phase-Conserves size (collecting batch n false) q e =
      elim (Bool-cases (leb q.batch_size (length batch))) [
        | inl full ↦ rw full (end_round-Conserves batch n false q (ap (batch_of {R = R}) e))
        | inr free ↦ rw free (work_next-Conserves q.queue batch n q refl (ap (batch_of {R = R}) e))
      ]

  puts_picked-Conserves :
      (o : Option (R × List R)) (q : Queued R E) → Conserves q (puts_picked w o q)
  unfolding puts_picked finish_enqueue put
  puts_picked-Conserves none q = append-nil (pending q)
  puts_picked-Conserves (some (r, rest)) q =
      elim (Bool-cases (is_full (record q { in_flight = rest }))) [
        | inl full ↦ rw full (append-nil (pending q))
        | inr free ↦ rw (free, jobs-append) (append_assoc (batch_of q.phase) _ _)
      ]

  pub set_closed-pending : (n : ℕ) (q : Queued R E) → pending (set_closed n q) ≡ pending q
  unfolding set_closed
  set_closed-pending zero q = refl
  set_closed-pending (suc n) q = refl

  pub put_stop-pending : (n : ℕ) (q : Queued R E) → pending (put_stop n q) ≡ pending q
  unfolding put_stop put is_full
  put_stop-pending zero q = refl
  put_stop-pending (suc n) q =
      ground (arith, jobs-append q.queue (stop ∷ []), append-nil (jobs q.queue))

  pub act-Conserves : (a : Action R) (q : Queued R E) → Conserves q (act w a q)
  unfolding act
  act-Conserves (enqueues r) q = rw append-nil (unfold begin_enqueue in ground arith)
  act-Conserves (puts n) q = puts_picked-Conserves (pick n q.in_flight) q
  act-Conserves closes q = rw append-nil (unfold begin_close in ground arith)
  act-Conserves sets q = rw (append-nil, set_closed-pending)
  act-Conserves puts_stop q = rw (append-nil, put_stop-pending)
  act-Conserves joins q = rw append-nil (unfold after_join is_alive in ground arith)
  act-Conserves (works size) q = unfold work in work_phase-Conserves size q.phase q refl

  pub run-Conserves : (actions : List (Action R)) (q : Queued R E) → Conserves q (run w actions q)
  unfolding run
  run-Conserves [] q = append-nil (pending q)
  run-Conserves (a ∷ actions) q =
      let q' = (act w a q).0 in
      let here = act-Conserves a q in
      let there = run-Conserves actions q' in
      rw (accepted_of-append, taken_of-append)
        (sym (append_assoc (pending q) _ _)
          ∙ ap (λ x. x ++ accepted_of (run w actions q').1) here
          ∙ append_assoc (taken_of (act w a q).1) _ _
          ∙ ap (λ x. taken_of (act w a q).1 ++ x) there
          ∙ sym (append_assoc (taken_of (act w a q).1) _ _))
