-- ===== src/Delivery/Manager/Close.antt =====
-- The shutdown of `DeliveryManager`: `close` and what it calls, where no other thread is inside `emit`
-- meanwhile: an `emit` that is disabling a destination could still add standard output after `close`
-- has emptied the list.
use policyengine_observabili.Base.{
  ℕ, ◌+◌, pos, Float, finite, min_float, max_float, text, Bool, true, false, not, ◌&&◌,
  if◌then◌else◌, List, [], ◌∷◌, ◌++◌, Option, or_else,
}
use policyengine_observabili.Delivery.Writer.{close_writer}
use policyengine_observabili.Delivery.Queued
use policyengine_observabili.Delivery.Queued.{
  Note, incremented, reported, Action, closes, sets, puts_stop, joins,
}
use policyengine_observabili.Delivery.Manager.{
  Inline, Cleanup, QueuedDestination, Manager, start_writer_cleanup,
}

-- `min(max(float(timeout), 0.0), 30.0)`, for the argument or else the configured timeout.
unfoldable pub close_timeout : Option Float → Float → Float
close_timeout timeout_seconds configured =
    min_float (max_float (or_else timeout_seconds configured) (finite (pos 0) 0))
      (finite (pos 30) 0)

module _ {R E : Type 0} where
  -- `close` of a queued writer, with what the producers and the worker do while it joins the worker.
  unfoldable pub close_queued : List (Action R) → QueuedDestination R E → QueuedDestination R E
  close_queued meanwhile d = if d.state.closed then d else record d {
    state = (Queued.run d.writer (closes ∷ sets ∷ puts_stop ∷ meanwhile ++ (joins ∷ [])) d.state).0;
  }

  unfoldable pub close_queued_each :
      (ℕ → List (Action R)) → ℕ → List (QueuedDestination R E) → List (QueuedDestination R E)
  close_queued_each meanwhile i [] = []
  close_queued_each meanwhile i (d ∷ rest) =
      close_queued (meanwhile i) d ∷ close_queued_each meanwhile (i + 1) rest

  -- The end of a cleanup thread: `close` returns or raises.
  unfoldable pub run_cleanup : Cleanup R E → E → Cleanup R E × List Note × E
  run_cleanup task e =
      let (done, e') = close_writer task.writer e in
      (
        record task { alive = false },
        if done then [] else reported (text "logging.writer_close") ∷ [],
        e',
      )

  -- The last loop of `close`: a task whose thread did not end before its deadline is reported once.
  -- `ended i` says whether the thread of the `i`-th task has ended when its join returns.
  unfoldable pub join_tasks :
      (ℕ → Bool) → ℕ → List (Cleanup R E) → E → List (Cleanup R E) × List Note × E
  unfolding run_cleanup
  join_tasks ended i [] e = ([], [], e)
  join_tasks ended i (task ∷ rest) e =
      let (task', notes, e') =
        (if task.alive && ended i then run_cleanup task e else (task, [], e)) in
      let (rest', notes', e'') = join_tasks ended (i + 1) rest e' in
      if task'.alive && not task'.timeout_reported
      then (
        record task' { timeout_reported = true } ∷ rest',
        notes
            ++ (incremented (text "logs.shutdown_timeout")
                ∷ reported (text "logging.shutdown_timeout")
                ∷ notes'),
        e'',
      )
      else (task' ∷ rest', notes ++ notes', e'')

module _ {R E : Type 0} (starts : E → Bool) where
  unfoldable pub start_cleanups : List (Inline R E) → Manager R E → Manager R E
  start_cleanups [] m = m
  start_cleanups (d ∷ rest) m = start_cleanups rest (start_writer_cleanup starts d m)

  unfoldable pub close : (ℕ → List (Action R)) → (ℕ → Bool) → Manager R E → Manager R E
  close meanwhile ended m =
      let m1 = start_cleanups m.inline (record m { inline = [] }) in
      let m2 = record m1 { queued = close_queued_each meanwhile 0 m1.queued } in
      let (tasks, notes, e) = join_tasks ended 0 m2.cleanup_tasks m2.world in
      record m2 { cleanup_tasks = tasks; world = e; notes = m2.notes ++ notes }
