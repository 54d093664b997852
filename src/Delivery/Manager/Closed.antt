-- ===== src/Delivery/Manager/Closed.antt =====
-- What `close` leaves: no inline destination, and queued destinations that take no more records.
use policyengine_observabili.Base.{
  zero, suc, ℤ, ℕ, ◌+◌, ◌≡◌, refl, Bool, true, false, Bool-cases, inl, inr, Option, none, some,
  List, [], ◌∷◌, All, arith,
}
use policyengine_observabili.Delivery.Writer.{Writer}
use policyengine_observabili.Delivery.Queued.{
  Queued, Item, Phase, idle, expired, finished, died, collecting, Action, enqueues, puts, closes,
  sets, puts_stop, joins, works, record_of, work_expired, begin_round, set_closed, begin_enqueue,
  finish_enqueue, begin_close, put_stop, put, is_full, is_alive, after_join, leave, export,
  end_round, work_idle, work_next, work_phase, work, puts_picked, pick, act, run,
}
use policyengine_observabili.Delivery.Manager.{
  Inline, QueuedDestination, Manager, start_writer_cleanup,
}
use policyengine_observabili.Delivery.Manager.Close.{
  close, close_queued, close_queued_each, start_cleanups,
}

module _ {R E : Type 0} (w : Writer R E) where
  leave-closed : (p : Phase R) (q : Queued R E) → q.closed ≡ true → (leave w p q).0.closed ≡ true
  unfolding leave
  leave-closed p q h = ground (arith, h)

  end_round-closed :
      (batch : List R) (n : ℕ) (s : Bool) (q : Queued R E)
      → q.closed ≡ true
      → (end_round w batch n s q).0.closed ≡ true
  unfolding end_round
  end_round-closed [] n s q h = leave-closed finished _ h
  end_round-closed (r ∷ rs) n true q h =
      leave-closed finished (export w (r ∷ rs) n q) (unfold export in h)
  end_round-closed (r ∷ rs) n false q h = unfold export in h

  work_idle-closed :
      (size : Option ℤ) (items : List (Item R)) (q : Queued R E)
      → q.closed ≡ true
      → (work_idle w size items q).0.closed ≡ true
  unfolding work_idle begin_round
  work_idle-closed size [] q h = h
  work_idle-closed none (item ∷ rest) q h = leave-closed (died (record_of item) 1) _ h
  work_idle-closed (some n) (item ∷ rest) q h = h

  work_next-closed :
      (items : List (Item R)) (batch : List R) (n : ℕ) (q : Queued R E)
      → q.closed ≡ true
      → (work_next w items batch n q).0.closed ≡ true
  unfolding work_next
  work_next-closed [] batch n q h = end_round-closed batch n false q h
  work_next-closed (item ∷ rest) batch n q h = h

  work_phase-closed :
      (size : Option ℤ) (p : Phase R) (q : Queued R E)
      → q.closed ≡ true
      → (work_phase w size p q).0.closed ≡ true
  unfolding work_phase work_expired
  work_phase-closed size finished q h = h
  work_phase-closed size (died batch n) q h = h
  work_phase-closed size idle q h = work_idle-closed size q.queue q h
  work_phase-closed size expired q h = ground (arith, h, leave-closed finished q h)
  work_phase-closed size (collecting batch n s) q h =
      ground (arith, h, end_round-closed batch n s q h, work_next-closed q.queue batch n q h)

  puts_picked-closed :
      (o : Option (R × List R)) (q : Queued R E)
      → q.closed ≡ true
      → (puts_picked w o q).0.closed ≡ true
  unfolding puts_picked finish_enqueue
  puts_picked-closed none q h = h
  puts_picked-closed (some (r, rest)) q h = unfold is_full put in ground (arith, h)

  set_closed-closed : (n : ℕ) (q : Queued R E) → q.closed ≡ true → (set_closed n q).closed ≡ true
  unfolding set_closed
  set_closed-closed zero q h = h
  set_closed-closed (suc n) q h = refl

  put_stop-closed : (n : ℕ) (q : Queued R E) → q.closed ≡ true → (put_stop n q).closed ≡ true
  unfolding put_stop is_full put
  put_stop-closed zero q h = h
  put_stop-closed (suc n) q h = ground (arith, h)

  act-closed : (a : Action R) (q : Queued R E) → q.closed ≡ true → (act w a q).0.closed ≡ true
  unfolding act
  act-closed (enqueues r) q h = unfold begin_enqueue in ground (arith, h)
  act-closed (puts n) q h = puts_picked-closed (pick n q.in_flight) q h
  act-closed closes q h = unfold begin_close in ground (arith, h)
  act-closed sets q h = set_closed-closed q.closing q h
  act-closed puts_stop q h = put_stop-closed q.stopping q h
  act-closed joins q h = unfold after_join is_alive in ground (arith, h)
  act-closed (works size) q h = unfold work in work_phase-closed size q.phase q h

  run-closed :
      (actions : List (Action R)) (q : Queued R E)
      → q.closed ≡ true
      → (run w actions q).0.closed ≡ true
  unfolding run
  run-closed [] q h = h
  run-closed (a ∷ actions) q h = run-closed actions (act w a q).0 (act-closed a q h)

  run-begins :
      (actions : List (Action R)) (q : Queued R E)
      → q.closed ≡ false
      → (run w (closes ∷ sets ∷ actions) q).0.closed ≡ true
  unfolding run act begin_close set_closed
  run-begins actions q h = simp h (run-closed actions _ refl)

module _ {R E : Type 0} where
  close_queued-closed :
      (meanwhile : List (Action R)) (d : QueuedDestination R E)
      → (close_queued meanwhile d).state.closed ≡ true
  unfolding close_queued
  close_queued-closed meanwhile d = elim (Bool-cases d.state.closed) [
    | inl e ↦ rw e refl
    | inr e ↦ simp e (run-begins d.writer _ d.state e)
  ]

  close_queued_each-closed :
      (meanwhile : ℕ → List (Action R)) (i : ℕ) (ds : List (QueuedDestination R E))
      → All (λ d. d.state.closed ≡ true) (close_queued_each meanwhile i ds)
  unfolding close_queued_each
  close_queued_each-closed meanwhile i [] = tt
  close_queued_each-closed meanwhile i (d ∷ ds) =
      (close_queued-closed (meanwhile i) d, close_queued_each-closed meanwhile (i + 1) ds)

  module _ (starts : E → Bool) where
    start-empty :
        (d : Inline R E) (m : Manager R E)
        → m.inline ≡ []
        → (start_writer_cleanup starts d m).inline ≡ []
    unfolding start_writer_cleanup
    start-empty d m h = ground (arith, h)

    start_cleanups-empty :
        (ds : List (Inline R E)) (m : Manager R E)
        → m.inline ≡ []
        → (start_cleanups starts ds m).inline ≡ []
    unfolding start_cleanups
    start_cleanups-empty [] m h = h
    start_cleanups-empty (d ∷ ds) m h =
        start_cleanups-empty ds (start_writer_cleanup starts d m) (start-empty d m h)

    -- After a `close` during which no other thread is inside `emit` with an inline destination, there
    -- is no inline destination and every queue is closed, whatever the producers and the workers of
    -- the queues do while it joins them, and whichever cleanup threads end in time.
    pub close-closed :
        (meanwhile : ℕ → List (Action R)) (ended : ℕ → Bool) (m : Manager R E)
        → ((close starts meanwhile ended m).inline ≡ [])
          × All (λ d. d.state.closed ≡ true) (close starts meanwhile ended m).queued
    unfolding close
    close-closed meanwhile ended m =
        (start_cleanups-empty m.inline _ refl, close_queued_each-closed meanwhile 0 _)
