-- ===== src/Delivery/Queued/Replay.antt =====
-- What reaches the writer: the events of a run are exactly the calls that the worker makes of it.
use policyengine_observabili.Base.{
  ℕ, ℤ, zero, suc, ◌-◌, ◌≡◌, refl, sym, subst, length, Bool, true, false, List, [], ◌∷◌, ◌++◌,
  Option, none, some, arith, leb, Bool-cases, inl, inr,
}
use policyengine_observabili.Delivery.Writer.{Writer, write_batch, close_writer}
use policyengine_observabili.Delivery.Queued.{
  Queued, Item, Phase, idle, expired, finished, died, collecting, Event, accepted, handed, unbuilt,
  released, written, record_of, work_expired, begin_round, set_closed, Action, enqueues, puts,
  closes, sets, puts_stop, joins, works, deliver, put, is_full, begin_enqueue, finish_enqueue,
  begin_close, put_stop, is_alive, after_join, leave, export, end_round, work_idle, work_next,
  work_phase, work, puts_picked, pick, act, run,
}
use policyengine_observabili.Delivery.Queued.Fifo.{Conserves, run-Conserves}

module _ {R E : Type 0} (w : Writer R E) where
  -- From a worker that has a writer or not, in a world: a written batch is given to `write_many`, or
  -- to `write` record by record, of the writer that is there or is built for it; a batch is given up
  -- only if there is no writer and none is built; only a writer that is there is closed. What they do
  -- to the world is all that the run does to it.
  abbrev pub IsReplay : List (Event R) → Bool → E → Bool → E → Type 0
  IsReplay [] b e b' e' = (b ≡ b') × (e ≡ e')
  IsReplay (accepted r ∷ events) b e b' e' = IsReplay events b e b' e'
  IsReplay (handed batch ∷ events) true e b' e' =
      IsReplay events true (write_batch w batch e).1 b' e'
  IsReplay (handed batch ∷ events) false e b' e' =
      ((w.build e).0 ≡ true) × IsReplay events true (write_batch w batch (w.build e).1).1 b' e'
  IsReplay (unbuilt batch ∷ events) true e b' e' = ⊥
  IsReplay (unbuilt batch ∷ events) false e b' e' =
      ((w.build e).0 ≡ false) × IsReplay events false (w.build e).1 b' e'
  IsReplay (released ∷ events) true e b' e' = IsReplay events true (close_writer w e).1 b' e'
  IsReplay (released ∷ events) false e b' e' = ⊥

  -- The events between two states.
  abbrev pub Replays : Queued R E → Queued R E × List (Event R) → Type 0
  Replays q (q', events) = IsReplay events q.built q.world q'.built q'.world

  IsReplay-append :
      (xs ys : List (Event R)) (a b c : Bool) (d e f : E)
      → IsReplay xs a d b e
      → IsReplay ys b e c f
      → IsReplay (xs ++ ys) a d c f
  IsReplay-append [] ys a b c d e f (h, k) l =
      subst (λ x. IsReplay ys x d c f) (sym h) (subst (λ x. IsReplay ys b x c f) (sym k) l)
  IsReplay-append (accepted r ∷ xs) ys a b c d e f h l = IsReplay-append xs ys a b c d e f h l
  IsReplay-append (handed batch ∷ xs) ys true b c d e f h l =
      IsReplay-append xs ys true b c (write_batch w batch d).1 e f h l
  IsReplay-append (handed batch ∷ xs) ys false b c d e f (g, h) l =
      (g, IsReplay-append xs ys true b c (write_batch w batch (w.build d).1).1 e f h l)
  IsReplay-append (unbuilt batch ∷ xs) ys true b c d e f h l = elim h [ ]
  IsReplay-append (unbuilt batch ∷ xs) ys false b c d e f (g, h) l =
      (g, IsReplay-append xs ys false b c (w.build d).1 e f h l)
  IsReplay-append (released ∷ xs) ys true b c d e f h l =
      IsReplay-append xs ys true b c (close_writer w d).1 e f h l
  IsReplay-append (released ∷ xs) ys false b c d e f h l = elim h [ ]

  leave-Replays : (p : Phase R) (q : Queued R E) → Replays q (leave w p q)
  unfolding leave
  leave-Replays p q = elim (Bool-cases q.built) [
    | inl e ↦ simp (e, leave) (refl, refl)
    | inr e ↦ simp (e, leave) (refl, refl)
  ]

  -- One batch.
  deliver-IsReplay :
      (batch : List R) (built : Bool) (e : E)
      → let (done, built', e') = deliver w batch built e in
        IsReplay (written built' batch ∷ []) built e built' e'
  unfolding deliver
  deliver-IsReplay batch true e = (refl, refl)
  deliver-IsReplay batch false e = elim (Bool-cases (w.build e).0) [
    | inl h ↦ rw (h, deliver) (h, (refl, refl))
    | inr h ↦ rw (h, deliver) (h, (refl, refl))
  ]

  export-Replays :
      (batch : List R) (n : ℕ) (q : Queued R E)
      → IsReplay
          (written (export w batch n q).built batch ∷ [])
          q.built
          q.world
          (export w batch n q).built
          (export w batch n q).world
  unfolding export
  export-Replays batch n q = deliver-IsReplay batch q.built q.world

  end_round-Replays :
      (batch : List R) (n : ℕ) (s : Bool) (q : Queued R E) → Replays q (end_round w batch n s q)
  unfolding end_round
  end_round-Replays [] n s q = leave-Replays finished (record q { unfinished = q.unfinished - n })
  end_round-Replays (r ∷ rs) n false q = export-Replays (r ∷ rs) n q
  end_round-Replays (r ∷ rs) n true q =
      let q' = export w (r ∷ rs) n q in
      let (left, events) = leave w finished q' in
      IsReplay-append (written q'.built (r ∷ rs) ∷ []) events q.built q'.built left.built q.world
        q'.world left.world (export-Replays (r ∷ rs) n q) (leave-Replays finished q')

  work_idle-Replays :
      (size : Option ℤ) (items : List (Item R)) (q : Queued R E)
      → Replays q (work_idle w size items q)
  unfolding work_idle begin_round
  work_idle-Replays size [] q = (refl, refl)
  work_idle-Replays none (item ∷ rest) q =
      leave-Replays (died (record_of item) 1) (record q { queue = rest })
  work_idle-Replays (some n) (item ∷ rest) q = (refl, refl)

  work_expired-Replays : (b : Bool) (q : Queued R E) → Replays q (work_expired w b q)
  unfolding work_expired
  work_expired-Replays true q = leave-Replays finished q
  work_expired-Replays false q = (refl, refl)

  work_next-Replays :
      (items : List (Item R)) (batch : List R) (n : ℕ) (q : Queued R E)
      → Replays q (work_next w items batch n q)
  unfolding work_next
  work_next-Replays [] batch n q = end_round-Replays batch n false q
  work_next-Replays (item ∷ rest) batch n q = (refl, refl)

  work_phase-Replays :
      (size : Option ℤ) (p : Phase R) (q : Queued R E) → Replays q (work_phase w size p q)
  unfolding work_phase
  work_phase-Replays size idle q = work_idle-Replays size q.queue q
  work_phase-Replays size expired q = work_expired-Replays q.closed q
  work_phase-Replays size finished q = (refl, refl)
  work_phase-Replays size (died batch n) q = (refl, refl)
  work_phase-Replays size (collecting batch n true) q = end_round-Replays batch n true q
  work_phase-Replays size (collecting batch n false) q =
      elim (Bool-cases (leb q.batch_size (length batch))) [
        | inl full ↦ rw full (end_round-Replays batch n false q)
        | inr free ↦ rw free (work_next-Replays q.queue batch n q)
      ]

  puts_picked-Replays : (o : Option (R × List R)) (q : Queued R E) → Replays q (puts_picked w o q)
  unfolding puts_picked finish_enqueue put
  puts_picked-Replays none q = (refl, refl)
  puts_picked-Replays (some (r, rest)) q =
      elim (Bool-cases (is_full (record q { in_flight = rest }))) [
        | inl full ↦ rw full (refl, refl)
        | inr free ↦ rw free (refl, refl)
      ]

  set_closed-Replays : (n : ℕ) (q : Queued R E) → Replays q (set_closed n q, [])
  unfolding set_closed
  set_closed-Replays zero q = (refl, refl)
  set_closed-Replays (suc n) q = (refl, refl)

  put_stop-Replays : (n : ℕ) (q : Queued R E) → Replays q (put_stop n q, [])
  unfolding put_stop put is_full
  put_stop-Replays zero q = (refl, refl)
  put_stop-Replays (suc n) q = ground arith

  act-Replays : (a : Action R) (q : Queued R E) → Replays q (act w a q)
  unfolding act
  act-Replays (enqueues r) q = unfold begin_enqueue in ground arith
  act-Replays (puts n) q = puts_picked-Replays (pick n q.in_flight) q
  act-Replays closes q = unfold begin_close in ground arith
  act-Replays sets q = set_closed-Replays q.closing q
  act-Replays puts_stop q = put_stop-Replays q.stopping q
  act-Replays joins q = unfold after_join is_alive in ground arith
  act-Replays (works size) q = unfold work in work_phase-Replays size q.phase q

  pub run-Replays : (actions : List (Action R)) (q : Queued R E) → Replays q (run w actions q)
  unfolding run
  run-Replays [] q = (refl, refl)
  run-Replays (a ∷ actions) q =
      let (q', events) = act w a q in
      let (q'', events') = run w actions q' in
      IsReplay-append events events' q.built q'.built q''.built q.world q'.world q''.world
        (act-Replays a q) (run-Replays actions q')

  -- Whatever the schedule, the batch sizes and the writer do, the records that were pending, with
  -- those that the queue accepted after them, are those of the batches taken to the writer, with
  -- those still in the queue or with the worker after them: none is lost before it is taken,
  -- repeated or moved. A batch is taken by `write_many`, or by `write` record by record up to the
  -- first that raises, or is given up because no writer can be built; and these calls, with the
  -- closing of the writer, are all that the run does to the world.
  pub queue_is_fifo :
      (actions : List (Action R)) (q : Queued R E)
      → Conserves q (run w actions q) × Replays q (run w actions q)
  queue_is_fifo actions q = (run-Conserves w actions q, run-Replays actions q)
