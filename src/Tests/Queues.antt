-- ===== src/Tests/Queues.antt =====
-- The queued writer with a writer that appends what it is given to a list, and fails on 9.
use policyengine_observabili.Base.{
  ℤ, some, ℕ, ◌≤◌, pos, nat_eq, not, ◌≡◌, refl, arith, true, false, none, List, [], ◌∷◌, ◌++◌,
  length, inr,
}
use policyengine_observabili.Delivery.Writer.{Writer}
use policyengine_observabili.Delivery.Queued
use policyengine_observabili.Delivery.Queued.{
  Queued, job, idle, finished, Action, enqueues, puts, closes, sets, puts_stop, works, create, run,
  bounded_size,
}
use policyengine_observabili.Delivery.Queued.Bounds.{IsBounded, queue-IsBounded}
use policyengine_observabili.Delivery.Queued.Fifo.{Conserves, pending, taken_of}
use policyengine_observabili.Delivery.Queued.Replay.{Replays, queue_is_fifo}
use policyengine_observabili.Delivery.Queued.Channel.{IsStopped, Moves, view, signals}
use policyengine_observabili.Delivery.Queued.Channel.Refines.{run-Moves}
use policyengine_observabili.Delivery.Queued.Drain.{IsRunning, works_for, close_drains}

abbrev pub writer : Writer ℕ (List ℕ)
writer = record {
  build = λ e. (true, e);
  write = λ r e. (not (nat_eq r 9), e ++ r ∷ []);
  write_many = none;
  close = none;
}

abbrev schedule : List (Action ℕ)
schedule =
    enqueues 1 ∷ enqueues 2 ∷ puts 1 ∷ works (some (pos 1)) ∷ puts 0 ∷ works none ∷ works none ∷ []

queue_is_fifo_example :
    Conserves (create (pos 2) []) (run writer schedule (create (pos 2) []))
    × Replays writer (create (pos 2) []) (run writer schedule (create (pos 2) []))
queue_is_fifo_example = queue_is_fifo writer schedule (create (pos 2) [])

queue-IsBounded_example :
    (length (run writer schedule (create (pos 2) [])).0.queue ≤ bounded_size 100000 (pos 2))
    × IsBounded (run writer schedule (create (pos 2) [])).0
queue-IsBounded_example = queue-IsBounded writer (pos 2) [] schedule

abbrev running : Queued ℕ (List ℕ)
running = record {
  capacity = 2;
  batch_size = 1;
  queue = job 9 ∷ job 5 ∷ [];
  unfinished = 2;
  closed = false;
  closing = 0;
  stopping = 0;
  in_flight = [];
  phase = idle;
  built = false;
  world = [];
  notes = [];
}

running-IsRunning : IsRunning writer running
running-IsRunning = record { open_ = refl; queue_runs = tt }

abbrev ones : ℕ → ℤ
ones n = pos 1

close_drains_example :
    let end = run writer (closes ∷ sets ∷ puts_stop ∷ works_for writer ones 9) running in
    (end.0.phase ≡ finished) × (taken_of end.1 ≡ pending running) × Replays writer running end
close_drains_example = close_drains writer running ones 9 running-IsRunning (omega arith)

-- A producer that has passed its test of `_closed` puts its record behind `_STOP`: the worker
-- returns, and the record stays in the queue, neither taken nor counted as dropped.
abbrev late : List (Action ℕ)
late = enqueues 7 ∷ closes ∷ sets ∷ puts_stop ∷ puts 0 ∷ works_for writer ones 9

late_record_is_stranded :
    let end = run writer late (create (pos 4) []) in
    (end.0.phase ≡ finished)
    × ((pending end.0 ≡ 7 ∷ []) × ((taken_of end.1 ≡ []) × (end.0.notes ≡ [])))
unfolding run Queued.act Queued.begin_enqueue Queued.begin_close Queued.set_closed Queued.put_stop
    Queued.put Queued.is_full Queued.puts_picked Queued.finish_enqueue Queued.work Queued.work_phase
    Queued.work_idle Queued.work_next Queued.end_round Queued.leave Queued.add_item
    Queued.begin_round Queued.work_expired create bounded_size
late_record_is_stranded = (refl, (refl, (refl, refl)))

-- A record that is accepted, and a call of `close`, between the worker's `queue.Empty` and its test
-- of `_closed`: the worker returns with the record in the queue.
abbrev between : List (Action ℕ)
between = works none ∷ enqueues 7 ∷ puts 0 ∷ closes ∷ sets ∷ puts_stop ∷ works_for writer ones 9

record_between_is_stranded :
    let end = run writer between (create (pos 4) []) in
    (end.0.phase ≡ finished)
    × ((pending end.0 ≡ 7 ∷ []) × ((taken_of end.1 ≡ []) × (end.0.notes ≡ [])))
unfolding run Queued.act Queued.begin_enqueue Queued.begin_close Queued.set_closed Queued.put_stop
    Queued.put Queued.is_full Queued.puts_picked Queued.finish_enqueue Queued.work Queued.work_phase
    Queued.work_idle Queued.work_next Queued.end_round Queued.leave Queued.add_item
    Queued.begin_round Queued.work_expired create bounded_size
record_between_is_stranded = (refl, (refl, (refl, refl)))

abbrev fresh : Queued ℕ (List ℕ)
fresh = create (pos 2) []

fresh-IsStopped : IsStopped fresh
unfolding create
fresh-IsStopped = inr (refl, refl)

run-Moves_example :
    Moves (view fresh) (signals (run writer schedule fresh).1) (view (run writer schedule fresh).0)
    × Replays writer fresh (run writer schedule fresh)
run-Moves_example = run-Moves writer schedule fresh fresh-IsStopped
