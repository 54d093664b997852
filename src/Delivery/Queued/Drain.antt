-- ===== src/Delivery/Queued/Drain.antt =====
-- Shutdown: once `_closed` is set the worker returns, having taken what was accepted to the writer.
use mathlib.Core.List.{append-nil}
use policyengine_observabili.Base.{
  ℤ, some, ℕ, zero, suc, ◌-◌, is_empty, ◌+◌, ◌*◌, ◌≤◌, ◌≡◌, refl, sym, ap, ◌∙◌, length,
  length-append, Bool, true, false, List, [], ◌∷◌, ◌++◌, arith, leb, Bool-cases, inl, inr,
}
use policyengine_observabili.Delivery.Writer.{Writer}
use policyengine_observabili.Delivery.Queued.{
  Queued, Item, job, stop, Phase, idle, expired, finished, died, collecting, Action, works, closes,
  sets, puts_stop, put, set_closed, begin_round, work_expired, is_full, begin_close, put_stop,
  leave, export, end_round, add_item, work_idle, work_next, work_phase, work, act, run,
}
use policyengine_observabili.Delivery.Queued.Bounds.{batch_of}
use policyengine_observabili.Delivery.Queued.Fifo.{
  jobs, taken_of, accepted_of, accepted_of-append, accepted_of-written, leave-Conserves,
  set_closed-pending, put_stop-pending, pending, run-Conserves,
}
use policyengine_observabili.Delivery.Queued.Replay.{Replays, run-Replays}

-- A bound on the pieces of `_run` that are left once `_closed` is set.
abbrev pub steps_of : {R : Type 0} → Phase R → List (Item R) → ℕ
steps_of idle items = 2 * length items + 2
steps_of expired items = 1
steps_of (collecting batch n s) items = 2 * length items + 3
steps_of finished items = 0
steps_of (died batch n) items = 1

abbrev pub steps_left : {R E : Type 0} → Queued R E → ℕ
steps_left q = steps_of q.phase q.queue

-- No record stands behind `_STOP`, and a batch that `_STOP` does not end is not empty.
abbrev StopsLast : {R : Type 0} → List (Item R) → Type 0
StopsLast [] = Unit
StopsLast (job r ∷ items) = StopsLast items
StopsLast (stop ∷ items) = jobs items ≡ []

abbrev pub IsOrderlyAt : {R : Type 0} → Phase R → List (Item R) → Type 0
IsOrderlyAt idle items = StopsLast items
IsOrderlyAt expired items = jobs items ≡ []
IsOrderlyAt finished items = jobs items ≡ []
IsOrderlyAt (died batch n) items = ⊥
IsOrderlyAt (collecting batch n true) items = jobs items ≡ []
IsOrderlyAt (collecting batch n false) items = (is_empty batch ≡ false) × StopsLast items

abbrev HasNoStop : {R : Type 0} → List (Item R) → Type 0
HasNoStop [] = Unit
HasNoStop (job r ∷ items) = HasNoStop items
HasNoStop (stop ∷ items) = ⊥

abbrev pub RunsAt : {R : Type 0} → Phase R → List (Item R) → Type 0
RunsAt idle items = HasNoStop items
RunsAt expired items = items ≡ []
RunsAt finished items = ⊥
RunsAt (died batch n) items = ⊥
RunsAt (collecting batch n true) items = ⊥
RunsAt (collecting batch n false) items = (is_empty batch ≡ false) × HasNoStop items

-- What a piece of the worker does after `_closed`: the bound falls, and the order is kept.
record Progresses {R E : Type 0} (steps : ℕ) (q : Queued R E) : Type 0 where
  fewer : steps_left q ≤ steps - 1
  still_closed : q.closed ≡ true
  orderly : IsOrderlyAt q.phase q.queue

module _ {R E : Type 0} (w : Writer R E) where
  leave-Progresses :
      (steps : ℕ) (q : Queued R E)
      → q.closed ≡ true
      → jobs q.queue ≡ []
      → Progresses steps (leave w finished q).0
  unfolding leave
  leave-Progresses steps q c j = elim (Bool-cases q.built) [
    | inl b ↦ rw b (record { fewer = omega arith; still_closed = c; orderly = j })
    | inr b ↦ rw b (record { fewer = omega arith; still_closed = c; orderly = j })
  ]

  end_round-Progresses :
      (batch : List R) (n : ℕ) (s : Bool) (items : List (Item R)) (q : Queued R E)
      → q.closed ≡ true
      → q.queue ≡ items
      → IsOrderlyAt (collecting batch n s) items
      → Progresses (steps_of (collecting batch n s) items) (end_round w batch n s q).0
  unfolding end_round export
  end_round-Progresses [] n true items q c e o =
      leave-Progresses (steps_of {R = R} (collecting [] n true) items)
        (record q { unfinished = q.unfinished - n }) c (rw e o)
  end_round-Progresses [] n false items q c e o = absurd (cc (o.0))
  end_round-Progresses (r ∷ rs) n true items q c e o =
      leave-Progresses (steps_of (collecting (r ∷ rs) n true) items) _ c (rw e o)
  end_round-Progresses (r ∷ rs) n false items q c e o = record {
    fewer = omega (arith, ap (length {A = Item R}) e);
    still_closed = c;
    orderly = rw e (o.1);
  }

  work_idle-Progresses :
      (size : ℤ) (items : List (Item R)) (q : Queued R E)
      → q.closed ≡ true
      → q.queue ≡ items
      → StopsLast items
      → Progresses (steps_of {R = R} idle items) (work_idle w (some size) items q).0
  unfolding work_idle begin_round add_item
  work_idle-Progresses size [] q c e o = record {
    fewer = omega arith;
    still_closed = c;
    orderly = rw e refl;
  }
  work_idle-Progresses size (job r ∷ rest) q c e o = record {
    fewer = omega arith;
    still_closed = c;
    orderly = (refl, o);
  }
  work_idle-Progresses size (stop ∷ rest) q c e o = record {
    fewer = omega arith;
    still_closed = c;
    orderly = o;
  }

  work_expired-Progresses :
      (b : Bool) (q : Queued R E)
      → b ≡ true
      → q.closed ≡ true
      → jobs q.queue ≡ []
      → Progresses 1 (work_expired w b q).0
  unfolding work_expired
  work_expired-Progresses true q h c o = leave-Progresses 1 q c o
  work_expired-Progresses false q h c o = absurd (ground (arith, h))

  is_empty-append : (xs : List R) (r : R) → is_empty (xs ++ (r ∷ [])) ≡ false
  is_empty-append [] r = refl
  is_empty-append (x ∷ xs) r = refl

  work_next-Progresses :
      (items : List (Item R)) (batch : List R) (n : ℕ) (q : Queued R E)
      → q.closed ≡ true
      → q.queue ≡ items
      → IsOrderlyAt (collecting batch n false) items
      → Progresses (steps_of (collecting batch n false) items) (work_next w items batch n q).0
  unfolding work_next add_item
  work_next-Progresses [] batch n q c e o = end_round-Progresses batch n false [] q c e o
  work_next-Progresses (job r ∷ rest) batch n q c e o = record {
    fewer = omega arith;
    still_closed = c;
    orderly = (is_empty-append batch r, o.1);
  }
  work_next-Progresses (stop ∷ rest) batch n q c e o = record {
    fewer = omega arith;
    still_closed = c;
    orderly = o.1;
  }

  work_phase-Progresses :
      (size : ℤ) (p : Phase R) (q : Queued R E)
      → q.closed ≡ true
      → q.phase ≡ p
      → IsOrderlyAt p q.queue
      → Progresses (steps_of p q.queue) (work_phase w (some size) p q).0
  unfolding work_phase
  work_phase-Progresses size idle q c e o = work_idle-Progresses size q.queue q c refl o
  work_phase-Progresses size expired q c e o = work_expired-Progresses q.closed q c c o
  work_phase-Progresses size (died batch n) q c e o = elim o [ ]
  work_phase-Progresses size finished q c e o = record {
    fewer = rw e (omega arith);
    still_closed = c;
    orderly = rw e o;
  }
  work_phase-Progresses size (collecting batch n true) q c e o =
      end_round-Progresses batch n true q.queue q c refl o
  work_phase-Progresses size (collecting batch n false) q c e o =
      elim (Bool-cases (leb q.batch_size (length batch))) [
        | inl full ↦ rw full (end_round-Progresses batch n false q.queue q c refl o)
        | inr free ↦ rw free (work_next-Progresses q.queue batch n q c refl o)
      ]

  -- The worker alone, for `n` pieces, whatever the batch sizes.
  abbrev pub works_for : (ℕ → ℤ) → ℕ → List (Action R)
  works_for sizes zero = []
  works_for sizes (suc n) = works (some (sizes n)) ∷ works_for sizes n

  none_left :
      (p : Phase R) (items : List (Item R))
      → steps_of p items ≤ 0
      → IsOrderlyAt p items
      → (p ≡ finished) × (batch_of p ++ jobs items ≡ [])
  none_left idle items h o = absurd (omega arith)
  none_left finished items h o = (refl, o)
  none_left expired items h o = absurd (omega arith)
  none_left (died batch n) items h o = elim o [ ]
  none_left (collecting batch n s) items h o = absurd (omega arith)

  works_for-Progresses :
      (sizes : ℕ → ℤ) (n : ℕ) (q : Queued R E)
      → q.closed ≡ true
      → IsOrderlyAt q.phase q.queue
      → steps_left q ≤ n
      → ((run w (works_for sizes n) q).0.phase ≡ finished)
        × (pending (run w (works_for sizes n) q).0 ≡ [])
  unfolding run
  works_for-Progresses sizes zero q c o h = none_left q.phase q.queue h o
  works_for-Progresses sizes (suc n) q c o h =
      let size = sizes n in
      let p : Progresses (steps_left q) (act w (works (some size)) q).0 =
        unfold act work in work_phase-Progresses size q.phase q c refl o in
      works_for-Progresses sizes n (act w (works (some size)) q).0 p.still_closed p.orderly
        (omega (arith, p.fewer))

  -- No `_STOP` is queued, the worker has not ended nor holds a batch that one has ended, and it does
  -- not stand between `queue.Empty` and its test of `_closed` with an item in the queue.
  pub record IsRunning (q : Queued R E) : Type 0 where
    pub open_ : q.closed ≡ false
    pub queue_runs : RunsAt q.phase q.queue

  StopsLast-stop : (items : List (Item R)) → HasNoStop items → StopsLast (items ++ (stop ∷ []))
  StopsLast-stop [] h = refl
  StopsLast-stop (job r ∷ items) h = StopsLast-stop items h
  StopsLast-stop (stop ∷ items) h = elim h [ ]

  StopsLast-none : (items : List (Item R)) → HasNoStop items → StopsLast items
  StopsLast-none [] h = tt
  StopsLast-none (job r ∷ items) h = StopsLast-none items h
  StopsLast-none (stop ∷ items) h = elim h [ ]

  stop-IsOrderlyAt :
      (p : Phase R) (items : List (Item R))
      → RunsAt p items
      → IsOrderlyAt p items × IsOrderlyAt p (items ++ (stop ∷ []))
  stop-IsOrderlyAt idle items h = (StopsLast-none items h, StopsLast-stop items h)
  stop-IsOrderlyAt expired items h = (rw h refl, rw h refl)
  stop-IsOrderlyAt finished items h = elim h [ ]
  stop-IsOrderlyAt (died batch n) items h = elim h [ ]
  stop-IsOrderlyAt (collecting batch n true) items h = elim h [ ]
  stop-IsOrderlyAt (collecting batch n false) items h =
      ((h.0, StopsLast-none items h.1), (h.0, StopsLast-stop items h.1))

  steps-stop :
      (p : Phase R) (items : List (Item R))
      → (steps_of p (items ++ (stop ∷ [])) ≤ 2 * length items + 5)
        × (steps_of p items ≤ 2 * length items + 5)
  steps-stop idle items = omega (arith, length-append items (stop ∷ []))
  steps-stop finished items = omega arith
  steps-stop expired items = omega arith
  steps-stop (died batch n) items = omega arith
  steps-stop (collecting batch n s) items = omega (arith, length-append items (stop ∷ []))

  -- One call of `close`, up to its `join`.
  abbrev shut : Queued R E → Queued R E
  shut q =
      let begun = begin_close q in
      let marked = set_closed begun.closing begun in put_stop marked.stopping marked

  shut-IsOrderly :
      (q : Queued R E)
      → IsRunning q
      → ((shut q).closed ≡ true)
        × IsOrderlyAt (shut q).phase (shut q).queue
        × (steps_left (shut q) ≤ 2 * length q.queue + 5)
  unfolding begin_close set_closed put_stop put is_full
  shut-IsOrderly q h = rw h.open_ (elim (Bool-cases (leb q.capacity (length q.queue))) [
    | inl full ↦
        rw full
          (refl, (stop-IsOrderlyAt q.phase q.queue h.queue_runs).0, (steps-stop q.phase q.queue).1)
    | inr free ↦
        rw free
          (refl, (stop-IsOrderlyAt q.phase q.queue h.queue_runs).1, (steps-stop q.phase q.queue).0)
  ])

  end_round-accepts_none :
      (batch : List R) (n : ℕ) (s : Bool) (q : Queued R E)
      → accepted_of (end_round w batch n s q).1 ≡ []
  unfolding end_round
  end_round-accepts_none [] n s q = (leave-Conserves w finished _).0
  end_round-accepts_none (r ∷ rs) n true q =
      accepted_of-written (export w (r ∷ rs) n q).built (r ∷ rs) _
      ∙ (leave-Conserves w finished (export w (r ∷ rs) n q)).0
  end_round-accepts_none (r ∷ rs) n false q =
      accepted_of-written (export w (r ∷ rs) n q).built (r ∷ rs) []

  work_next-accepts_none :
      (items : List (Item R)) (batch : List R) (n : ℕ) (q : Queued R E)
      → accepted_of (work_next w items batch n q).1 ≡ []
  unfolding work_next
  work_next-accepts_none [] batch n q = end_round-accepts_none batch n false q
  work_next-accepts_none (item ∷ rest) batch n q = refl

  work_idle-accepts_none :
      (size : ℤ) (items : List (Item R)) (q : Queued R E)
      → accepted_of (work_idle w (some size) items q).1 ≡ []
  unfolding work_idle begin_round
  work_idle-accepts_none size [] q = refl
  work_idle-accepts_none size (item ∷ rest) q = refl

  work_expired-accepts_none : (b : Bool) (q : Queued R E) → accepted_of (work_expired w b q).1 ≡ []
  unfolding work_expired
  work_expired-accepts_none true q = (leave-Conserves w finished q).0
  work_expired-accepts_none false q = refl

  work_phase-accepts_none :
      (size : ℤ) (p : Phase R) (q : Queued R E) → accepted_of (work_phase w (some size) p q).1 ≡ []
  unfolding work_phase
  work_phase-accepts_none size idle q = work_idle-accepts_none size q.queue q
  work_phase-accepts_none size expired q = work_expired-accepts_none q.closed q
  work_phase-accepts_none size finished q = refl
  work_phase-accepts_none size (died batch n) q = refl
  work_phase-accepts_none size (collecting batch n s) q =
      ground (arith, end_round-accepts_none batch n s q, work_next-accepts_none q.queue batch n q)

  accepted_of-works_for :
      (sizes : ℕ → ℤ) (n : ℕ) (q : Queued R E) → accepted_of (run w (works_for sizes n) q).1 ≡ []
  unfolding run
  accepted_of-works_for sizes zero q = refl
  accepted_of-works_for sizes (suc n) q =
      let size = sizes n in
      let here : accepted_of (act w (works (some size)) q).1 ≡ [] =
        unfold act work in work_phase-accepts_none size q.phase q in
      rw accepted_of-append
        (rw here (accepted_of-works_for sizes n (act w (works (some size)) q).0))

  shut-pending : (q : Queued R E) → pending (shut q) ≡ pending q
  unfolding begin_close
  shut-pending q =
      let begun = begin_close q in
      let same : pending begun ≡ pending q = unfold begin_close in ground arith in
      put_stop-pending w (set_closed begun.closing begun).stopping (set_closed begun.closing begun)
      ∙ set_closed-pending w begun.closing begun
      ∙ same

  -- If a writer that is running is closed and its worker is then left alone for at least
  -- 2 * (length of the queue) + 5 pieces, whatever the batch sizes, the worker has returned, having
  -- taken every record that was pending to the writer, in order, whether or not the queue had room
  -- for `_STOP`; and the calls of the writer that this stands for, with its closing, are all that
  -- was done to the world.
  pub close_drains :
      (q : Queued R E) (sizes : ℕ → ℤ) (n : ℕ)
      → IsRunning q
      → 2 * length q.queue + 5 ≤ n
      → let end = run w (closes ∷ sets ∷ puts_stop ∷ works_for sizes n) q in
        (end.0.phase ≡ finished) × (taken_of end.1 ≡ pending q) × Replays w q end
  close_drains q sizes n h enough =
      let all = run-Replays w (closes ∷ sets ∷ puts_stop ∷ works_for sizes n) q in
      let q' = shut q in
      let ready = shut-IsOrderly q h in
      let ended = works_for-Progresses sizes n q' ready.0 ready.1 (omega (arith, ready.2)) in
      let kept = run-Conserves w (works_for sizes n) q' in
      (
        unfold run act in ended.0,
        unfold run act in
            sym (append-nil _)
            ∙ ap (λ x. taken_of (run w (works_for sizes n) q').1 ++ x) (sym ended.1)
            ∙ sym kept
            ∙ ap (λ x. pending q' ++ x) (accepted_of-works_for sizes n q')
            ∙ append-nil _
            ∙ shut-pending q,
        all,
      )
