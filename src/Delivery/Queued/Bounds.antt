-- ===== src/Delivery/Queued/Bounds.antt =====
-- The queue, the batch and the count of unfinished items, under every schedule.
use policyengine_observabili.Base.{
  zero, suc, ℕ, ◌+◌, ◌-◌, ◌≤◌, ◌≡◌, ◌∙◌, refl, ap, Bool-cases, leb, subst, ℤ, length, length-append,
  Bool, true, false, List, [], ◌∷◌, Option, none, some, arith, inl, inr,
}
use policyengine_observabili.Delivery.Writer.{Writer}
use policyengine_observabili.Delivery.Queued.{
  Queued, Item, job, stop, Phase, idle, expired, finished, died, collecting, Action, enqueues, puts,
  closes, sets, puts_stop, joins, works, record_of, work_expired, begin_round, set_closed, create,
  bounded_size, put, is_full, begin_enqueue, finish_enqueue, begin_close, put_stop, is_alive,
  after_join, leave, export, end_round, add_item, work_idle, work_next, work_phase, work,
  puts_picked, pick, act, run,
}

-- The items that the worker has taken and not yet acknowledged, and the records among them.
abbrev pub consumed_by : {R : Type 0} → Phase R → ℕ
consumed_by (collecting batch consumed s) = consumed
consumed_by (died batch consumed) = consumed
consumed_by _ = 0

abbrev pub batch_of : {R : Type 0} → Phase R → List R
batch_of (collecting batch consumed s) = batch
batch_of (died batch consumed) = batch
batch_of _ = []

pub record IsBounded {R E : Type 0} (q : Queued R E) : Type 0 where
  pub fits : length q.queue ≤ q.capacity
  pub room : 1 ≤ q.batch_size
  pub batch_fits : length (batch_of q.phase) ≤ q.batch_size
  pub counted : q.unfinished ≡ length q.queue + consumed_by q.phase

module _ {R E : Type 0} where
  create-IsBounded : (n : ℤ) (e : E) → IsBounded (create {R = R} n e)
  unfolding create bounded_size
  create-IsBounded n e = ground arith

  seen :
      (q : Queued R E) (items : List (Item R)) (p : Phase R)
      → q.queue ≡ items
      → q.phase ≡ p
      → IsBounded q
      → (q.unfinished ≡ length items + consumed_by p)
        × (length items ≤ q.capacity)
        × (length (batch_of p) ≤ q.batch_size)
        × (1 ≤ q.batch_size)
  seen q items p e f c = omega (
    arith,
    c,
    ap (length {A = Item R}) e,
    ap (consumed_by {R = R}) f,
    ap (λ x. length (batch_of x)) f,
  )

  put-IsBounded :
      (item : Item R) (q : Queued R E) → is_full q ≡ false → IsBounded q → IsBounded (put item q)
  unfolding put is_full
  put-IsBounded item q h c = ground (arith, length-append q.queue (item ∷ []))

  module _ (w : Writer R E) where
    leave-IsBounded :
        (p : Phase R) (q : Queued R E)
        → length q.queue ≤ q.capacity
        → 1 ≤ q.batch_size
        → length (batch_of p) ≤ q.batch_size
        → q.unfinished ≡ length q.queue + consumed_by p
        → IsBounded (leave w p q).0
    unfolding leave
    leave-IsBounded p q a b c d = ground arith

    export-IsBounded :
        (batch : List R) (n : ℕ) (q : Queued R E)
        → (length (export w batch n q).queue ≡ length q.queue)
          × ((export w batch n q).capacity ≡ q.capacity)
          × ((export w batch n q).batch_size ≡ q.batch_size)
          × ((export w batch n q).unfinished ≡ q.unfinished - n)
    unfolding export
    export-IsBounded batch n q = (refl, refl, refl, refl)

    end_round-IsBounded :
        (batch : List R) (n : ℕ) (s : Bool) (q : Queued R E)
        → q.phase ≡ collecting batch n s
        → IsBounded q
        → (s' : Bool) → IsBounded (end_round w batch n s' q).0
    unfolding end_round
    end_round-IsBounded [] n s q e c s' =
        let left : q.unfinished ≡ length q.queue + n =
          subst (λ p. q.unfinished ≡ length q.queue + consumed_by p) e c.counted in
        leave-IsBounded finished (record q { unfinished = q.unfinished - n }) c.fits c.room
          (omega arith) (omega arith)
    end_round-IsBounded (r ∷ rs) n s q e c true =
        let left : q.unfinished ≡ length q.queue + n =
          subst (λ p. q.unfinished ≡ length q.queue + consumed_by p) e c.counted in
        unfold export in
        leave-IsBounded finished (export w (r ∷ rs) n q) c.fits c.room (omega arith) (omega arith)
    end_round-IsBounded (r ∷ rs) n s q e c false =
        let left : q.unfinished ≡ length q.queue + n =
          subst (λ p. q.unfinished ≡ length q.queue + consumed_by p) e c.counted in
        unfold export in
        record { fits = c.fits; room = c.room; batch_fits = omega arith; counted = omega arith }

    begin_round-IsBounded :
        (size : Option ℤ) (item : Item R) (rest : List (Item R)) (q : Queued R E)
        → q.queue ≡ item ∷ rest
        → q.phase ≡ idle
        → IsBounded q
        → IsBounded (begin_round w size item (record q { queue = rest })).0
    unfolding begin_round
    begin_round-IsBounded none (job r) rest q e p c =
        let at = seen q (job r ∷ rest) idle e p c in
        leave-IsBounded (died (r ∷ []) 1) (record q { queue = rest }) (omega (arith, at)) c.room
          c.room (omega (arith, at))
    begin_round-IsBounded none stop rest q e p c =
        let at = seen q (stop ∷ rest) idle e p c in
        leave-IsBounded (died [] 1) (record q { queue = rest }) (omega (arith, at)) c.room
          (omega arith) (omega (arith, at))
    begin_round-IsBounded (some n) (job r) rest q e p c =
        unfold add_item bounded_size in ground (arith, seen q (job r ∷ rest) idle e p c)
    begin_round-IsBounded (some n) stop rest q e p c =
        unfold add_item bounded_size in ground (arith, seen q (stop ∷ rest) idle e p c)

    work_idle-IsBounded :
        (size : Option ℤ) (items : List (Item R)) (q : Queued R E)
        → q.queue ≡ items
        → q.phase ≡ idle
        → IsBounded q
        → IsBounded (work_idle w size items q).0
    unfolding work_idle
    work_idle-IsBounded size [] q e p c = ground (arith, seen q [] idle e p c)
    work_idle-IsBounded size (item ∷ rest) q e p c = begin_round-IsBounded size item rest q e p c

    work_next-IsBounded :
        (items : List (Item R)) (batch : List R) (n : ℕ) (s : Bool) (q : Queued R E)
        → q.queue ≡ items
        → q.phase ≡ collecting batch n s
        → length batch + 1 ≤ q.batch_size
        → IsBounded q
        → IsBounded (work_next w items batch n q).0
    unfolding work_next add_item
    work_next-IsBounded [] batch n s q e p room c = end_round-IsBounded batch n s q p c false
    work_next-IsBounded (job r ∷ rest) batch n s q e p room c =
        ground
          (arith, seen q (job r ∷ rest) (collecting batch n s) e p c, length-append batch (r ∷ []))
    work_next-IsBounded (stop ∷ rest) batch n s q e p room c =
        ground (arith, seen q (stop ∷ rest) (collecting batch n s) e p c)

    work_expired-IsBounded :
        (closed : Bool) (q : Queued R E)
        → IsBounded q
        → q.unfinished ≡ length q.queue + 0
        → IsBounded (work_expired w closed q).0
    unfolding work_expired
    work_expired-IsBounded true q c h = leave-IsBounded finished q c.fits c.room (omega arith) h
    work_expired-IsBounded false q c h = ground (arith, c, h)

    work_phase-IsBounded :
        (size : Option ℤ) (p : Phase R) (q : Queued R E)
        → q.phase ≡ p
        → IsBounded q
        → IsBounded (work_phase w size p q).0
    unfolding work_phase
    work_phase-IsBounded size idle q e c = work_idle-IsBounded size q.queue q refl e c
    work_phase-IsBounded size expired q e c =
        let at = seen q q.queue expired refl e c in
        work_expired-IsBounded q.closed q c (omega (arith, at))
    work_phase-IsBounded size finished q e c = c
    work_phase-IsBounded size (died batch n) q e c = c
    work_phase-IsBounded size (collecting batch n true) q e c =
        end_round-IsBounded batch n true q e c true
    work_phase-IsBounded size (collecting batch n false) q e c =
        elim (Bool-cases (leb q.batch_size (length batch))) [
          | inl full ↦ rw full (end_round-IsBounded batch n false q e c false)
          | inr free ↦
              rw free (work_next-IsBounded q.queue batch n false q refl e (ground (arith, free)) c)
        ]

    puts_picked-IsBounded :
        (o : Option (R × List R)) (q : Queued R E) → IsBounded q → IsBounded (puts_picked w o q).0
    unfolding puts_picked finish_enqueue
    puts_picked-IsBounded none q c = c
    puts_picked-IsBounded (some (r, rest)) q c =
        unfold is_full put in ground (arith, length-append q.queue (job r ∷ []))

    set_closed-IsBounded : (n : ℕ) (q : Queued R E) → IsBounded q → IsBounded (set_closed n q)
    unfolding set_closed
    set_closed-IsBounded zero q c = c
    set_closed-IsBounded (suc n) q c = ground arith

    put_stop-IsBounded : (n : ℕ) (q : Queued R E) → IsBounded q → IsBounded (put_stop n q)
    unfolding put_stop is_full put
    put_stop-IsBounded zero q c = c
    put_stop-IsBounded (suc n) q c = ground (arith, length-append q.queue (stop ∷ []))

    act-IsBounded : (a : Action R) (q : Queued R E) → IsBounded q → IsBounded (act w a q).0
    unfolding act
    act-IsBounded (enqueues r) q c = unfold begin_enqueue in ground arith
    act-IsBounded (puts n) q c = puts_picked-IsBounded (pick n q.in_flight) q c
    act-IsBounded closes q c = unfold begin_close in ground arith
    act-IsBounded sets q c = set_closed-IsBounded q.closing q c
    act-IsBounded puts_stop q c = put_stop-IsBounded q.stopping q c
    act-IsBounded joins q c = unfold after_join is_alive in ground arith
    act-IsBounded (works size) q c = unfold work in work_phase-IsBounded size q.phase q refl c

    pub run-IsBounded :
        (actions : List (Action R)) (q : Queued R E) → IsBounded q → IsBounded (run w actions q).0
    unfolding run
    run-IsBounded [] q c = c
    run-IsBounded (a ∷ actions) q c = run-IsBounded actions (act w a q).0 (act-IsBounded a q c)

    create-capacity : (n : ℤ) (e : E) → (create {R = R} n e).capacity ≡ bounded_size 100000 n
    unfolding create
    create-capacity n e = refl

    export-capacity :
        (batch : List R) (n : ℕ) (q : Queued R E) → (export w batch n q).capacity ≡ q.capacity
    unfolding export
    export-capacity batch n q = refl

    leave-capacity : (p : Phase R) (q : Queued R E) → (leave w p q).0.capacity ≡ q.capacity
    unfolding leave
    leave-capacity p q = ground arith

    end_round-capacity :
        (batch : List R) (n : ℕ) (s : Bool) (q : Queued R E)
        → (end_round w batch n s q).0.capacity ≡ q.capacity
    unfolding end_round
    end_round-capacity [] n s q = leave-capacity finished _
    end_round-capacity (r ∷ rs) n true q =
        leave-capacity finished (export w (r ∷ rs) n q) ∙ export-capacity (r ∷ rs) n q
    end_round-capacity (r ∷ rs) n false q = export-capacity (r ∷ rs) n q

    work_idle-capacity :
        (size : Option ℤ) (items : List (Item R)) (q : Queued R E)
        → (work_idle w size items q).0.capacity ≡ q.capacity
    unfolding work_idle begin_round
    work_idle-capacity size [] q = refl
    work_idle-capacity none (item ∷ rest) q = leave-capacity (died (record_of item) 1) _
    work_idle-capacity (some n) (item ∷ rest) q = refl

    work_next-capacity :
        (items : List (Item R)) (batch : List R) (n : ℕ) (q : Queued R E)
        → (work_next w items batch n q).0.capacity ≡ q.capacity
    unfolding work_next
    work_next-capacity [] batch n q = end_round-capacity batch n false q
    work_next-capacity (item ∷ rest) batch n q = refl

    work_phase-capacity :
        (size : Option ℤ) (p : Phase R) (q : Queued R E)
        → (work_phase w size p q).0.capacity ≡ q.capacity
    unfolding work_phase
    work_phase-capacity size finished q = refl
    work_phase-capacity size (died batch n) q = refl
    work_phase-capacity size idle q = work_idle-capacity size q.queue q
    work_phase-capacity size expired q =
        unfold work_expired in ground (arith, leave-capacity finished q)
    work_phase-capacity size (collecting batch n s) q =
        ground (arith, end_round-capacity batch n s q, work_next-capacity q.queue batch n q)

    set_closed-capacity : (n : ℕ) (q : Queued R E) → (set_closed n q).capacity ≡ q.capacity
    unfolding set_closed
    set_closed-capacity zero q = refl
    set_closed-capacity (suc n) q = refl

    put_stop-capacity : (n : ℕ) (q : Queued R E) → (put_stop n q).capacity ≡ q.capacity
    unfolding put_stop is_full put
    put_stop-capacity zero q = refl
    put_stop-capacity (suc n) q = ground arith

    puts_picked-capacity :
        (o : Option (R × List R)) (q : Queued R E) → (puts_picked w o q).0.capacity ≡ q.capacity
    unfolding puts_picked finish_enqueue
    puts_picked-capacity none q = refl
    puts_picked-capacity (some (r, rest)) q = unfold is_full put in ground arith

    act-capacity : (a : Action R) (q : Queued R E) → (act w a q).0.capacity ≡ q.capacity
    unfolding act
    act-capacity (enqueues r) q = unfold begin_enqueue in ground arith
    act-capacity (puts n) q = puts_picked-capacity (pick n q.in_flight) q
    act-capacity closes q = unfold begin_close in ground arith
    act-capacity sets q = set_closed-capacity q.closing q
    act-capacity puts_stop q = put_stop-capacity q.stopping q
    act-capacity joins q = unfold after_join is_alive in ground arith
    act-capacity (works size) q = unfold work in work_phase-capacity size q.phase q

    run-capacity :
        (actions : List (Action R)) (q : Queued R E) → (run w actions q).0.capacity ≡ q.capacity
    unfolding run
    run-capacity [] q = refl
    run-capacity (a ∷ actions) q = run-capacity actions (act w a q).0 ∙ act-capacity a q

    -- Under every schedule from a new writer the queue holds at most as many items as the capacity
    -- asked for, put between 1 and 100000; the batch holds at most as many records
    -- as the worker's round allows, and the unfinished items are those queued and those taken by the
    -- worker, also where the strategy's batch size raised and ended it.
    pub queue-IsBounded :
        (n : ℤ) (e : E) (actions : List (Action R))
        → (length (run w actions (create n e)).0.queue ≤ bounded_size 100000 n)
          × IsBounded (run w actions (create n e)).0
    queue-IsBounded n e actions =
        let bounded = run-IsBounded actions (create n e) (create-IsBounded n e) in
        let same : (run w actions (create n e)).0.capacity ≡ bounded_size 100000 n =
          run-capacity actions (create n e) ∙ create-capacity n e in
        (omega (arith, bounded.fits, same), bounded)
