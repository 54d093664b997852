-- ===== src/Delivery/Queued.antt =====
-- `_QueuedWriter` of policyengine_observability/delivery.py: a bounded queue, the producers that
-- put records, the worker thread that writes them in batches, and the shutdown. The threads meet
-- only at the calls of `queue.Queue` and of the event `_closed`, which are atomic, so a run is a
-- sequence of the pieces of code between them, in any order.
pub mod Bounds
pub mod Fifo
pub mod Replay
pub mod Drain
pub mod Channel
use policyengine_observabili.Base.{
  ℕ, zero, suc, ◌+◌, ◌-◌, min, max, ℤ, pos_part, Text, text, Bool, true, false, ◌||◌, if◌then◌else◌,
  List, [], ◌∷◌, ◌++◌, Option, none, some, length, leb,
}
use policyengine_observabili.Delivery.Writer.{Writer, write_batch, close_writer}

-- What stands in the queue: a record, or `_STOP`.
pub data Item (R : Type 0) : Type 0 where
  job : R → Item R
  stop : Item R

-- Where the worker stands in `_run`: at `get(timeout=0.2)`; between `queue.Empty` and the test of
-- `_closed`; filling a batch, with the number of items consumed for it and `stop_after_batch`;
-- returned; or ended by an exception of the batch size, with the record and the item it had taken.
pub data Phase (R : Type 0) : Type 0 where
  idle expired finished : Phase R
  collecting : List R → ℕ → Bool → Phase R
  died : List R → ℕ → Phase R

-- A call of the diagnostics, by its counter or its operation.
pub data Note : Type 0 where
  incremented reported : Text → Note

-- `in_flight` holds the records whose `enqueue` has passed its test of `_closed`. Of the calls of
-- `close`, `closing` have passed their test of `_closed` and `stopping` have set it and not yet put
-- `_STOP`. `batch_size` is that of the worker's round, and `built` is `_writer is not None`.
pub record Queued (R E : Type 0) : Type 0 where
  pub capacity : ℕ
  pub batch_size : ℕ
  pub queue : List (Item R)
  pub unfinished : ℕ
  pub closed : Bool
  pub closing : ℕ
  pub stopping : ℕ
  pub in_flight : List R
  pub phase : Phase R
  pub built : Bool
  pub world : E
  pub notes : List Note

-- `max(1, min(int(n), most))`
unfoldable pub bounded_size : ℕ → ℤ → ℕ
bounded_size most n = max 1 (min (pos_part n) most)

-- What happens outside: a record enters the queue; a batch is written, or given up where no writer is
-- built; the writer is closed.
pub data Event (R : Type 0) : Type 0 where
  accepted : R → Event R
  handed unbuilt : List R → Event R
  released : Event R

module _ {R : Type 0} where
  -- The `n`-th of the waiting producers, and the others.
  abbrev pub pick : ℕ → List R → Option (R × List R)
  pick n [] = none
  pick zero (r ∷ rs) = some (r, rs)
  pick (suc n) (r ∷ rs) = elim (pick n rs) [ none ↦ none | some p ↦ some (p.0, r ∷ p.1) ]

  -- An item that was got from the queue joins the batch or ends it.
  unfoldable pub add_item : Item R → List R → ℕ → Phase R
  add_item (job r) batch consumed = collecting (batch ++ (r ∷ [])) (consumed + 1) false
  add_item stop batch consumed = collecting batch (consumed + 1) true

  abbrev pub record_of : Item R → List R
  record_of (job r) = r ∷ []
  record_of stop = []

  abbrev pub written : Bool → List R → Event R
  written true batch = handed batch
  written false batch = unbuilt batch

module _ {R E : Type 0} where
  unfoldable pub create : ℤ → E → Queued R E
  unfolding bounded_size
  create queue_capacity world = record {
    capacity = bounded_size 100000 queue_capacity;
    batch_size = 1;
    queue = [];
    unfinished = 0;
    closed = false;
    closing = 0;
    stopping = 0;
    in_flight = [];
    phase = idle;
    built = false;
    world = world;
    notes = [];
  }

  -- `put_nowait`, where the queue is not full.
  unfoldable pub put : Item R → Queued R E → Queued R E
  put item q = record q { queue = q.queue ++ (item ∷ []); unfinished = q.unfinished + 1 }

  unfoldable pub is_full : Queued R E → Bool
  is_full q = leb q.capacity (length q.queue)

  -- `enqueue` up to its test of `_closed`.
  unfoldable pub begin_enqueue : R → Queued R E → Queued R E
  begin_enqueue r q =
      if q.closed
      then record q { notes = q.notes ++ (incremented (text "logs.dropped.closed") ∷ []) }
      else record q { in_flight = q.in_flight ++ (r ∷ []) }

  -- `enqueue` from its `put_nowait` on.
  unfoldable pub finish_enqueue : R → Queued R E → Queued R E × List (Event R)
  unfolding put is_full
  finish_enqueue r q =
      if is_full q
      then (
        record q {
          notes =
              q.notes
              ++ (incremented (text "logs.dropped.queue_full")
                  ∷ reported (text "logging.queue_full")
                  ∷ []);
        },
        [],
      )
      else (put (job r) q, accepted r ∷ [])

  -- `close` up to its test of `_closed`.
  unfoldable pub begin_close : Queued R E → Queued R E
  begin_close q = if q.closed then q else record q { closing = suc q.closing }

  -- A call of `close` at its `_closed.set()`.
  unfoldable pub set_closed : ℕ → Queued R E → Queued R E
  set_closed zero q = q
  set_closed (suc n) q = record q { closing = n; closed = true; stopping = suc q.stopping }

  -- A call of `close` at its `put_nowait(_STOP)`; a full queue is passed over.
  unfoldable pub put_stop : ℕ → Queued R E → Queued R E
  unfolding put is_full
  put_stop zero q = q
  put_stop (suc n) q =
      if is_full q then record q { stopping = n } else put stop (record q { stopping = n })

  unfoldable pub is_alive : Queued R E → Bool
  is_alive q = elim q.phase [ finished ↦ false | died batch n ↦ false | _ ↦ true ]

  -- `close` after `join` has returned or reached its deadline.
  unfoldable pub after_join : Queued R E → Queued R E
  unfolding is_alive
  after_join q =
      if is_alive q
      then record q {
        notes =
            q.notes
            ++ (incremented (text "logs.shutdown_timeout")
                ∷ reported (text "logging.shutdown_timeout")
                ∷ []);
      }
      else q

  module _ (w : Writer R E) where
    -- The end of `_run` in phase `p`, with its `finally`: a writer that was built is closed.
    unfoldable pub leave : Phase R → Queued R E → Queued R E × List (Event R)
    leave p q =
        if q.built
        then (let (done, e) = close_writer w q.world in
            (
              record q {
                phase = p;
                world = e;
                notes =
                    if done
                    then q.notes
                    else q.notes ++ (reported (text "logging.writer_close") ∷ []);
              },
              released ∷ [],
            ))
        else (record q { phase = p }, [])

    -- The writer is built if there is none, and the batch is written: whether nothing raised, whether
    -- there is a writer now, and the world.
    unfoldable pub deliver : List R → Bool → E → Bool × Bool × E
    deliver batch built e =
        let (made, e') = (if built then (true, e) else w.build e) in
        if made
        then (let (done, e'') = write_batch w batch e' in (done, true, e''))
        else (false, false, e')

    -- The `try` with the write, its `except` and its `finally`, which acknowledges what was consumed.
    unfoldable pub export : List R → ℕ → Queued R E → Queued R E
    export batch consumed q =
        let (done, built, e) = deliver batch q.built q.world in
        record q {
          unfinished = q.unfinished - consumed;
          built = built;
          world = e;
          notes =
              if done
              then q.notes
              else q.notes
                ++ (incremented (text "logs.export_failure")
                    ∷ reported (text "logging.export")
                    ∷ []);
        }

    -- The rest of a round once its batch is filled.
    unfoldable pub end_round : List R → ℕ → Bool → Queued R E → Queued R E × List (Event R)
    end_round [] consumed stop_after_batch q =
        leave finished (record q { unfinished = q.unfinished - consumed })
    end_round (r ∷ rs) consumed stop_after_batch q =
        let q' = export (r ∷ rs) consumed q in
        let (left, events) = leave finished q' in
        let shown = written q'.built (r ∷ rs) in
        if stop_after_batch
        then (left, shown ∷ events)
        else (record q' { phase = idle }, shown ∷ [])

    -- An item that was got is the first of a round, and `size` is `int(strategy.batch_size)`, `none`
    -- where that raises: then nothing acknowledges the item.
    unfoldable pub begin_round : Option ℤ → Item R → Queued R E → Queued R E × List (Event R)
    unfolding bounded_size
    begin_round none item q = leave (died (record_of item) 1) q
    begin_round (some size) item q =
        (record q { batch_size = bounded_size 10000 size; phase = add_item item [] 0 }, [])

    -- One piece of `_run`: a `get` with what follows it, the test of `_closed` after `queue.Empty`, or
    -- the end of a round.
    unfoldable pub work_idle : Option ℤ → List (Item R) → Queued R E → Queued R E × List (Event R)
    work_idle size [] q = (record q { phase = expired }, [])
    work_idle size (item ∷ rest) q = begin_round size item (record q { queue = rest })

    unfoldable pub work_next : List (Item R) → List R → ℕ → Queued R E → Queued R E × List (Event R)
    work_next [] batch consumed q = end_round batch consumed false q
    work_next (item ∷ rest) batch consumed q =
        (record q { queue = rest; phase = add_item item batch consumed }, [])

    -- `closed` is `_closed.is_set()`.
    unfoldable pub work_expired : Bool → Queued R E → Queued R E × List (Event R)
    work_expired closed q = if closed then leave finished q else (record q { phase = idle }, [])

    unfoldable pub work_phase : Option ℤ → Phase R → Queued R E → Queued R E × List (Event R)
    work_phase size idle q = work_idle size q.queue q
    work_phase size expired q = work_expired q.closed q
    work_phase size finished q = (q, [])
    work_phase size (died batch consumed) q = (q, [])
    work_phase size (collecting batch consumed stop_after_batch) q =
        if stop_after_batch || leb q.batch_size (length batch)
        then end_round batch consumed stop_after_batch q
        else work_next q.queue batch consumed q

    unfoldable pub work : Option ℤ → Queued R E → Queued R E × List (Event R)
    work size q = work_phase size q.phase q

-- The pieces of code that a scheduler may choose from; `puts n` lets the `n`-th producer go on, and
-- `works size` is a piece of the worker, to which the strategy would answer `size` for its batches.
pub data Action (R : Type 0) : Type 0 where
  enqueues : R → Action R
  puts : ℕ → Action R
  closes sets puts_stop joins : Action R
  works : Option ℤ → Action R

module _ {R E : Type 0} (w : Writer R E) where
  unfoldable pub puts_picked : Option (R × List R) → Queued R E → Queued R E × List (Event R)
  puts_picked none q = (q, [])
  puts_picked (some (r, rest)) q = finish_enqueue r (record q { in_flight = rest })

  unfoldable pub act : Action R → Queued R E → Queued R E × List (Event R)
  act (enqueues r) q = (begin_enqueue r q, [])
  act (puts n) q = puts_picked (pick n q.in_flight) q
  act closes q = (begin_close q, [])
  act sets q = (set_closed q.closing q, [])
  act puts_stop q = (put_stop q.stopping q, [])
  act joins q = (after_join q, [])
  act (works size) q = work w size q

  unfoldable pub run : List (Action R) → Queued R E → Queued R E × List (Event R)
  run [] q = (q, [])
  run (a ∷ actions) q =
      let (q', events) = act a q in let (q'', events') = run actions q' in (q'', events ++ events')
