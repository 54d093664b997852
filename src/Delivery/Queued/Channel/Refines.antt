-- ===== src/Delivery/Queued/Channel/Refines.antt =====
-- Each piece of code of the queued writer is a move of the channel.
use mathlib.Core.List.{append_assoc, append-nil}
use policyengine_observabili.Base.{
  zero, suc, ℤ, ℕ, ◌-◌, ◌≤◌, subst, ◌≡◌, ◌⊎◌, refl, sym, ap, ◌∙◌, length, length-append, Bool, true,
  false, List, [], ◌∷◌, ◌++◌, Option, none, some, arith, leb, leb→le, Bool-cases, Option-cases, inl,
  inr, ◌||◌,
}
use policyengine_observabili.Delivery.Writer.{Writer}
use policyengine_observabili.Delivery.Queued.{
  Queued, Item, job, stop, Phase, idle, expired, finished, died, collecting, Event, accepted,
  handed, unbuilt, released, written, record_of, work_expired, begin_round, set_closed, Action,
  enqueues, puts, closes, sets, puts_stop, joins, works, put, is_full, begin_enqueue,
  finish_enqueue, begin_close, put_stop, is_alive, after_join, leave, export, end_round, work_idle,
  work_next, work_phase, work, puts_picked, pick, act, run,
}
use policyengine_observabili.Delivery.Queued.Bounds.{batch_of}
use policyengine_observabili.Delivery.Queued.Fifo.{
  jobs, jobs-append, pending, accepted_of, taken_of, Conserves, act-Conserves, put_stop-pending,
}
use policyengine_observabili.Delivery.Queued.Replay.{Replays, run-Replays}
use policyengine_observabili.Delivery.Queued.Channel.{
  Channel, Signal, enters, takes, signals, Move, stays, offers, accepts, drops, shuts, delivers,
  Moves, rests, moves, view, IsStopped,
}

-- What the worker leaves: all but the phase, the queue's beginning and what the writer changes.
abbrev Frame : {R E : Type 0} → Queued R E → Queued R E → Type 0
Frame q p =
    (p.capacity ≡ q.capacity)
    × (p.closed ≡ q.closed)
    × (p.stopping ≡ q.stopping)
    × (p.in_flight ≡ q.in_flight)

record Worked {R E : Type 0} (q : Queued R E) (x : Queued R E × List (Event R)) : Type 0 where
  frame : Frame q x.0
  got : (x.0.queue ≡ q.queue) ⊎ ((item : Item R) × (q.queue ≡ item ∷ x.0.queue))
  shown : (signals x.1 ≡ []) ⊎ ((batch : List R) × (signals x.1 ≡ takes batch ∷ []))

module _ {R E : Type 0} (w : Writer R E) where
  leave-Frame :
      (p : Phase R) (q : Queued R E)
      → Frame q (leave w p q).0 × ((leave w p q).0.queue ≡ q.queue) × (signals (leave w p q).1 ≡ [])
  unfolding leave
  leave-Frame p q = elim (Bool-cases q.built) [
    | inl e ↦ simp (e, leave) ((refl, refl, refl, refl), refl, refl)
    | inr e ↦ simp (e, leave) ((refl, refl, refl, refl), refl, refl)
  ]

  leave-Worked : (p : Phase R) (q : Queued R E) → Worked q (leave w p q)
  leave-Worked p q =
      let (f, queue, quiet) = leave-Frame p q in
      record { frame = f; got = inl queue; shown = inl quiet }

  signals-written :
      (b : Bool) (batch : List R) (events : List (Event R))
      → signals (written b batch ∷ events) ≡ takes batch ∷ signals events
  signals-written true batch events = refl
  signals-written false batch events = refl

  end_round-Worked :
      (batch : List R) (n : ℕ) (s : Bool) (q : Queued R E) → Worked q (end_round w batch n s q)
  unfolding end_round export
  end_round-Worked [] n s q =
      let (f, queue, quiet) = leave-Frame finished (record q { unfinished = q.unfinished - n }) in
      record { frame = f; got = inl queue; shown = inl quiet }
  end_round-Worked (r ∷ rs) n true q =
      let q' = export w (r ∷ rs) n q in
      let (f, queue, quiet) = leave-Frame finished q' in
      record {
        frame = f;
        got = inl queue;
        shown =
            inr
              (r ∷ rs, signals-written q'.built (r ∷ rs) _ ∙ ap (λ ss. takes (r ∷ rs) ∷ ss) quiet);
      }
  end_round-Worked (r ∷ rs) n false q = record {
    frame = (refl, refl, refl, refl);
    got = inl refl;
    shown = inr (r ∷ rs, signals-written (export w (r ∷ rs) n q).built (r ∷ rs) []);
  }

  work_idle-Worked :
      (size : Option ℤ) (items : List (Item R)) (q : Queued R E)
      → q.queue ≡ items
      → Worked q (work_idle w size items q)
  unfolding work_idle begin_round
  work_idle-Worked size [] q e = record {
    frame = (refl, refl, refl, refl);
    got = inl refl;
    shown = inl refl;
  }
  work_idle-Worked none (item ∷ rest) q e =
      let (f, queue, quiet) = leave-Frame (died (record_of item) 1) (record q { queue = rest }) in
      record {
        frame = f;
        got = inr (item, e ∙ ap (λ items. item ∷ items) (sym queue));
        shown = inl quiet;
      }
  work_idle-Worked (some n) (item ∷ rest) q e = record {
    frame = (refl, refl, refl, refl);
    got = inr (item, e);
    shown = inl refl;
  }

  work_expired-Worked : (b : Bool) (q : Queued R E) → Worked q (work_expired w b q)
  unfolding work_expired
  work_expired-Worked true q = leave-Worked finished q
  work_expired-Worked false q = record {
    frame = (refl, refl, refl, refl);
    got = inl refl;
    shown = inl refl;
  }

  work_next-Worked :
      (items : List (Item R)) (batch : List R) (n : ℕ) (q : Queued R E)
      → q.queue ≡ items
      → Worked q (work_next w items batch n q)
  unfolding work_next
  work_next-Worked [] batch n q e = end_round-Worked batch n false q
  work_next-Worked (item ∷ rest) batch n q e = record {
    frame = (refl, refl, refl, refl);
    got = inr (item, e);
    shown = inl refl;
  }

  still-Worked : (q : Queued R E) → Worked q (q, [])
  still-Worked q = record { frame = (refl, refl, refl, refl); got = inl refl; shown = inl refl }

  work_phase-Worked :
      (size : Option ℤ) (p : Phase R) (q : Queued R E) → Worked q (work_phase w size p q)
  unfolding work_phase
  work_phase-Worked size idle q = work_idle-Worked size q.queue q refl
  work_phase-Worked size expired q = work_expired-Worked q.closed q
  work_phase-Worked size finished q = still-Worked q
  work_phase-Worked size (died batch n) q = still-Worked q
  work_phase-Worked size (collecting batch n s) q =
      elim (Bool-cases (s || leb q.batch_size (length batch))) [
        | inl e ↦ rw e (end_round-Worked batch n s q)
        | inr e ↦ rw e (work_next-Worked q.queue batch n q refl)
      ]

  work-Worked : (size : Option ℤ) (q : Queued R E) → Worked q (work w size q)
  unfolding work
  work-Worked size q = work_phase-Worked size q.phase q

abbrev channel : {R : Type 0} → ℕ → Bool → List R → List R → Channel R
channel n b xs us = record { capacity = n; closed = b; offered = xs; line = us }

same_view :
    {R : Type 0} {m n : ℕ} {a b : Bool} {xs ys us vs : List R}
    → m ≡ n
    → a ≡ b
    → xs ≡ ys
    → us ≡ vs
    → channel m a xs us ≡ channel n b ys vs
same_view e f g h = rw (e, f, g, h) refl

module _ {R : Type 0} where
  length-jobs : (items : List (Item R)) → length (jobs items) ≤ length items
  length-jobs [] = omega arith
  length-jobs (job r ∷ items) = omega (arith, length-jobs items)
  length-jobs (stop ∷ items) = omega (arith, length-jobs items)

  abbrev entered : List (Signal R) → List R
  entered [] = []
  entered (enters r ∷ ss) = r ∷ entered ss
  entered (takes batch ∷ ss) = entered ss

  abbrev taken : List (Signal R) → List R
  taken [] = []
  taken (enters r ∷ ss) = taken ss
  taken (takes batch ∷ ss) = batch ++ taken ss

  accepted_of-entered : (events : List (Event R)) → accepted_of events ≡ entered (signals events)
  accepted_of-entered [] = refl
  accepted_of-entered (accepted r ∷ events) = ap (λ rs. r ∷ rs) (accepted_of-entered events)
  accepted_of-entered (handed batch ∷ events) = accepted_of-entered events
  accepted_of-entered (unbuilt batch ∷ events) = accepted_of-entered events
  accepted_of-entered (released ∷ events) = accepted_of-entered events

  taken_of-taken : (events : List (Event R)) → taken_of events ≡ taken (signals events)
  taken_of-taken [] = refl
  taken_of-taken (accepted r ∷ events) = taken_of-taken events
  taken_of-taken (handed batch ∷ events) = ap (λ rs. batch ++ rs) (taken_of-taken events)
  taken_of-taken (unbuilt batch ∷ events) = ap (λ rs. batch ++ rs) (taken_of-taken events)
  taken_of-taken (released ∷ events) = taken_of-taken events

  accepted-signals :
      (events : List (Event R)) (ss : List (Signal R))
      → signals events ≡ ss
      → accepted_of events ≡ entered ss
  accepted-signals events ss e = accepted_of-entered events ∙ ap (entered) e

  taken-signals :
      (events : List (Event R)) (ss : List (Signal R))
      → signals events ≡ ss
      → taken_of events ≡ taken ss
  taken-signals events ss e = taken_of-taken events ∙ ap (taken) e

  jobs-tail :
      (item : Item R) (items : List (Item R))
      → length (jobs (item ∷ items)) ≡ length (item ∷ items)
      → length (jobs items) ≡ length items
  jobs-tail (job r) items h = omega (arith, h)
  jobs-tail stop items h = omega (arith, h, length-jobs items)

module _ {R E : Type 0} where
  Worked-Move :
      (q p : Queued R E) (events : List (Event R))
      → Worked q (p, events)
      → Conserves q (p, events)
      → Move (view q) (signals events) (view p)
  Worked-Move q p events k c = elim k.shown [
    | inl e ↦
        (let same : pending p ≡ pending q =
            ap (λ rs. rs ++ pending p) (sym (taken-signals events [] e))
            ∙ sym c
            ∙ ap (λ rs. pending q ++ rs) (accepted-signals events [] e)
            ∙ append-nil (pending q) in
          rw (e, same_view k.frame.0 k.frame.1 k.frame.3 same) (stays (view q)))
    | inr (batch, e) ↦
        (let split : pending q ≡ batch ++ pending p =
            sym (append-nil (pending q))
            ∙ ap (λ rs. pending q ++ rs) (sym (accepted-signals events (takes batch ∷ []) e))
            ∙ c
            ∙ ap (λ rs. rs ++ pending p)
                (taken-signals events (takes batch ∷ []) e ∙ append-nil batch) in
          rw (e, same_view {us = pending p} k.frame.0 k.frame.1 k.frame.3 refl)
            (delivers (view q) batch (pending p) split))
  ]

  Worked-IsStopped :
      (q p : Queued R E) (events : List (Event R))
      → Worked q (p, events)
      → IsStopped q
      → IsStopped p
  Worked-IsStopped q p events k (inl h) = inl (k.frame.1 ∙ h)
  Worked-IsStopped q p events k (inr (h, l)) = elim k.got [
    | inl e ↦ inr (k.frame.2 ∙ h, rw e l)
    | inr (item, e) ↦ inr (
      k.frame.2 ∙ h,
      jobs-tail item p.queue (subst (λ items. length (jobs items) ≡ length items) e l),
    )
  ]

  full-line :
      (q : Queued R E)
      → IsStopped q
      → is_full q ≡ true
      → (q.closed ≡ true) ⊎ (q.capacity ≤ length (pending q))
  unfolding is_full
  full-line q (inl h) f = inl h
  full-line q (inr (h, l)) f = inr (
      omega (
        arith,
        l,
        leb→le q.capacity (length q.queue) f,
        length-append (batch_of q.phase) (jobs q.queue),
      ))

module _ {R E : Type 0} (w : Writer R E) where
  puts-Move :
      (n : ℕ) (q : Queued R E)
      → IsStopped q
      → Move (view q) (signals (act w (puts n) q).1) (view (act w (puts n) q).0)
  unfolding act puts_picked finish_enqueue put
  puts-Move n q h = elim (Option-cases (pick n q.in_flight)) [
    | inl e ↦ rw (e, puts_picked) (stays (view q))
    | inr ((r, rest), e) ↦ elim (Bool-cases (is_full (record q { in_flight = rest }))) [
      | inl f ↦
          rw (e, puts_picked)
            (rw f (drops (view q) n r rest e (full-line (record q { in_flight = rest }) h f)))
      | inr f ↦
          (let waiting : pending (put (job r) (record q { in_flight = rest }))
                ≡ pending q ++ r ∷ [] =
              unfold put in
              ap (λ items. batch_of q.phase ++ items) (jobs-append q.queue (job r ∷ []))
              ∙ sym (append_assoc (batch_of q.phase) _ _) in
            rw (e, puts_picked)
              (rw f (
                rw (same_view {m = q.capacity} {a = q.closed} {xs = rest} refl refl refl waiting)
                  (accepts (view q) n r rest e))))
    ]
  ]

  put_stop-view : (n : ℕ) (q : Queued R E) → view (put_stop n q) ≡ view q
  unfolding put_stop put
  put_stop-view zero q = refl
  put_stop-view (suc n) q =
      let line = put_stop-pending w (suc n) q in
      elim (Bool-cases (is_full q)) [
        | inl f ↦ simp f refl
        | inr f ↦ same_view (simp f refl) (simp f refl) (simp f refl) line
      ]

  sets-Move : (n : ℕ) (q : Queued R E) → Move (view q) [] (view (set_closed n q))
  unfolding set_closed
  sets-Move zero q = stays (view q)
  sets-Move (suc n) q = shuts (view q)

  act-Move :
      (a : Action R) (q : Queued R E)
      → IsStopped q
      → Move (view q) (signals (act w a q).1) (view (act w a q).0)
  unfolding act
  act-Move (enqueues r) q h =
      unfold begin_enqueue in
      elim (Bool-cases q.closed) [ inl e ↦ rw e (stays _) | inr e ↦ rw e (offers _ r refl) ]
  act-Move (puts n) q h = puts-Move n q h
  act-Move closes q h =
      unfold begin_close in
      elim (Bool-cases q.closed) [
        | inl e ↦ simp (e, begin_close) (stays _)
        | inr e ↦ simp (e, begin_close) (stays _)
      ]
  act-Move sets q h = sets-Move q.closing q
  act-Move puts_stop q h = rw (put_stop-view q.stopping q) (stays (view q))
  act-Move joins q h =
      unfold after_join is_alive in
      elim (Bool-cases (is_alive q)) [
        | inl e ↦ rw (e, after_join) (stays (view q))
        | inr e ↦ rw (e, after_join) (stays (view q))
      ]
  act-Move (works size) q h =
      Worked-Move q _ _ (work-Worked w size q) (act-Conserves w (works size) q)

  puts-IsStopped :
      (o : Option (R × List R)) (q : Queued R E) → IsStopped q → IsStopped (puts_picked w o q).0
  unfolding puts_picked finish_enqueue put
  puts-IsStopped none q h = h
  puts-IsStopped (some (r, rest)) q h =
      elim (Bool-cases (is_full (record q { in_flight = rest }))) [
        | inl f ↦ rw f h
        | inr f ↦ rw f (elim h [
          | inl c ↦ inl c
          | inr (g, l) ↦ inr (
            g,
            omega (
              arith,
              l,
              ap (length {A = R}) (jobs-append q.queue (job r ∷ [])),
              length-append (jobs q.queue) (r ∷ []),
              length-append q.queue (job r ∷ []),
            ),
          )
        ])
      ]

  put_stop-IsStopped :
      (n : ℕ) (q : Queued R E) → q.stopping ≡ n → IsStopped q → IsStopped (put_stop n q)
  unfolding put_stop put
  put_stop-IsStopped zero q e h = h
  put_stop-IsStopped (suc n) q e (inl c) = elim (Bool-cases (is_full q)) [
    | inl f ↦ inl (simp f c)
    | inr f ↦ inl (simp f c)
  ]
  put_stop-IsStopped (suc n) q e (inr (g, l)) = absurd (omega (arith, g, e))

  set_closed-IsStopped : (n : ℕ) (q : Queued R E) → IsStopped q → IsStopped (set_closed n q)
  unfolding set_closed
  set_closed-IsStopped zero q h = h
  set_closed-IsStopped (suc n) q h = inl refl

  act-IsStopped : (a : Action R) (q : Queued R E) → IsStopped q → IsStopped (act w a q).0
  unfolding act
  act-IsStopped (enqueues r) q h =
      unfold begin_enqueue in
      elim (Bool-cases q.closed) [
        | inl e ↦ inl (simp (e, begin_enqueue) refl)
        | inr e ↦ elim h [
          | inl c ↦ absurd (ground (arith, c, e))
          | inr x ↦ simp (e, begin_enqueue) (inr x)
        ]
      ]
  act-IsStopped (puts n) q h = puts-IsStopped (pick n q.in_flight) q h
  act-IsStopped closes q h =
      unfold begin_close in
      elim (Bool-cases q.closed) [
        | inl e ↦ inl (simp (e, begin_close) refl)
        | inr e ↦ elim h [
          | inl c ↦ absurd (ground (arith, c, e))
          | inr x ↦ simp (e, begin_close) (inr x)
        ]
      ]
  act-IsStopped sets q h = set_closed-IsStopped q.closing q h
  act-IsStopped puts_stop q h = put_stop-IsStopped q.stopping q refl h
  act-IsStopped joins q h =
      unfold after_join is_alive in
      elim (Bool-cases (is_alive q)) [ inl e ↦ rw (e, after_join) h | inr e ↦ rw (e, after_join) h ]
  act-IsStopped (works size) q h = Worked-IsStopped q _ _ (work-Worked w size q) h

  signals-append : (xs ys : List (Event R)) → signals (xs ++ ys) ≡ signals xs ++ signals ys
  signals-append [] ys = refl
  signals-append (accepted r ∷ xs) ys = ap (λ ss. enters r ∷ ss) (signals-append xs ys)
  signals-append (handed batch ∷ xs) ys = ap (λ ss. takes batch ∷ ss) (signals-append xs ys)
  signals-append (unbuilt batch ∷ xs) ys = ap (λ ss. takes batch ∷ ss) (signals-append xs ys)
  signals-append (released ∷ xs) ys = signals-append xs ys

  Moves-signals :
      (actions : List (Action R)) (q : Queued R E)
      → IsStopped q
      → Moves (view q) (signals (run w actions q).1) (view (run w actions q).0)
  unfolding run
  Moves-signals [] q h = rests (view q)
  Moves-signals (a ∷ actions) q h =
      rw (signals-append (act w a q).1 (run w actions (act w a q).0).1)
        (moves (act-Move a q h) (Moves-signals actions (act w a q).0 (act-IsStopped a q h)))

  -- Every run of producers, worker and shutdown, from a state where `_STOP` is in the queue only if
  -- `close` was called, is a run of the channel with the same records accepted and taken: records are
  -- taken in the order of their line, and one that was let in is dropped only when the channel is
  -- closed or its line has the queue's capacity. Taking a batch is a call of `write_many`, or of
  -- `write` record by record, or is giving it up because no writer can be built; and these calls, with
  -- the closing of the writer, are all that the run does to the world.
  pub run-Moves :
      (actions : List (Action R)) (q : Queued R E)
      → IsStopped q
      → Moves (view q) (signals (run w actions q).1) (view (run w actions q).0)
        × Replays w q (run w actions q)
  run-Moves actions q h = (Moves-signals actions q h, run-Replays w actions q)
