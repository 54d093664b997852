-- ===== src/Delivery/Manager.antt =====
-- `DeliveryManager` of policyengine_observability/delivery.py: inline destinations, which are
-- written at once and disabled after repeated failures, and queued ones. A record is a value, so the
-- deep copy that each destination receives is the record itself.
pub mod Close
pub mod Closed
pub mod Isolation
pub mod Failures
pub mod Fallback
use policyengine_observabili.Base.{
  ℕ, ◌+◌, ℤ, nat_eq, leb, Text, text, ◌==◌, Bool, true, false, not, if◌then◌else◌, List, [], ◌∷◌,
  ◌++◌, is_some, is_empty, keep, any, length, ◌&&◌,
}
use policyengine_observabili.Delivery.Writer.{Writer}
use policyengine_observabili.Delivery.Queued
use policyengine_observabili.Delivery.Queued.{Queued, Note, incremented, reported}

abbrev pub destination_failure_limit : ℕ
destination_failure_limit = 3

-- `LogDestinationStrategy`: its properties, and the writer that `build_writer` makes. Its batch size
-- is read anew in each round of a queued writer, and is part of what the worker does.
pub record Strategy (R E : Type 0) : Type 0 where
  pub name : Text
  pub delivery : Text
  pub queue_capacity : ℤ
  pub writer : Writer R E

-- `_InlineDestination`; `ident` tells the objects apart.
pub record Inline (R E : Type 0) : Type 0 where
  pub ident : ℕ
  pub name : Text
  pub writer : Writer R E
  pub failures : ℕ

-- `_WriterCleanup`: a thread that closes a writer.
pub record Cleanup (R E : Type 0) : Type 0 where
  pub name : Text
  pub writer : Writer R E
  pub alive : Bool
  pub timeout_reported : Bool

-- A `_QueuedWriter` with its strategy.
pub record QueuedDestination (R E : Type 0) : Type 0 where
  pub name : Text
  pub writer : Writer R E
  pub state : Queued R E

-- `next` is the identity of the next inline destination.
pub record Manager (R E : Type 0) : Type 0 where
  pub inline : List (Inline R E)
  pub queued : List (QueuedDestination R E)
  pub cleanup_tasks : List (Cleanup R E)
  pub next : ℕ
  pub world : E
  pub notes : List Note

abbrev pub export_notes : Bool → List Note
export_notes true = []
export_notes false =
    incremented (text "logs.export_failure") ∷ reported (text "logging.export") ∷ []

module _ {R E : Type 0} where
  abbrev pub note : List Note → Manager R E → Manager R E
  note new m = record m { notes = m.notes ++ new }

  abbrev pub add_inline : Strategy R E → E → Manager R E → Manager R E
  add_inline s e m = record m {
    inline =
        m.inline
        ++ (record { ident = m.next; name = s.name; writer = s.writer; failures = 0 } ∷ []);
    next = m.next + 1;
    world = e;
  }

  -- `_add_strategy`; `false` is an exception.
  unfoldable pub add_strategy : Strategy R E → Manager R E → Bool × Manager R E
  add_strategy s m =
      if s.delivery == text "inline"
      then (let (made, e) = s.writer.build m.world in
          if made then (true, add_inline s e m) else (false, record m { world = e }))
      else if s.delivery == text "queued"
      then (
        true,
        record m {
          queued =
              m.queued
              ++ (record {
                name = s.name;
                writer = s.writer;
                state = Queued.create s.queue_capacity m.world;
              }
                  ∷ []);
        },
      )
      else (false, m)

  unfoldable pub is_silent : Manager R E → Bool
  is_silent m = is_empty m.inline && is_empty m.queued

  abbrev pub is_other : Inline R E → Inline R E → Bool
  is_other d x = not (nat_eq x.ident d.ident)

  -- One `try` of the loop of `emit`: the destination with its count, and the world.
  unfoldable pub write_inline : R → Inline R E → E → Inline R E × Bool × E
  write_inline r d e =
      let (done, e') = d.writer.write r e in
      (record d { failures = if done then 0 else d.failures + 1 }, done, e')

  unfoldable pub write_inlines : R → List (Inline R E) → E → List (Inline R E) × List Note × E
  unfolding write_inline
  write_inlines r [] e = ([], [], e)
  write_inlines r (d ∷ rest) e =
      let (d', done, e') = write_inline r d e in
      let (rest', notes, e'') = write_inlines r rest e' in
      (d' ∷ rest', export_notes done ++ notes, e'')

  -- The destinations that `emit` collects in `disabled`: a write that succeeded has reset its count.
  abbrev pub is_disabled : Inline R E → Bool
  is_disabled d = leb destination_failure_limit d.failures

  -- `enqueue`, with no other thread between its test of `_closed` and its put.
  unfoldable pub enqueue : R → Queued R E → Queued R E
  enqueue r q = if q.closed then Queued.begin_enqueue r q else (Queued.finish_enqueue r q).0

  unfoldable pub enqueue_each : R → List (QueuedDestination R E) → List (QueuedDestination R E)
  enqueue_each r [] = []
  enqueue_each r (d ∷ rest) = record d { state = enqueue r d.state } ∷ enqueue_each r rest

  unfoldable pub remote_enabled : Manager R E → Bool
  remote_enabled m = not (is_empty m.queued)

  unfoldable pub queue_depth : List (QueuedDestination R E) → ℕ
  queue_depth [] = 0
  queue_depth (d ∷ rest) = length d.state.queue + queue_depth rest

-- `starts` says whether the system lets a thread start.
module _ {R E : Type 0} (starts : E → Bool) where
  -- `_start_writer_cleanup`
  unfoldable pub start_writer_cleanup : Inline R E → Manager R E → Manager R E
  start_writer_cleanup d m =
      if not (is_some d.writer.close)
      then m
      else if starts m.world
      then record m {
        cleanup_tasks =
            m.cleanup_tasks
            ++ (record { name = d.name; writer = d.writer; alive = true; timeout_reported = false }
                ∷ []);
      }
      else note (reported (text "logging.writer_close") ∷ []) m

-- `stdout` is the strategy `StdoutLogDestination()`.
module _ {R E : Type 0} (stdout : Strategy R E) where
  -- The loop of `_configure`, with its `except`.
  unfoldable pub add_strategies : List (Strategy R E) → Manager R E → Manager R E
  add_strategies [] m = m
  add_strategies (s ∷ rest) m =
      let (added, m') = add_strategy s m in
      add_strategies rest
        (if added then m' else note (reported (text "logging.destination_config") ∷ []) m')

  -- The end of `_configure`.
  unfoldable pub ensure_destination : Manager R E → Manager R E
  unfolding is_silent
  ensure_destination m = if is_silent m then (add_strategy stdout m).1 else m

  unfoldable pub configure : List (Strategy R E) → E → Manager R E
  configure strategies e =
      let m0 : Manager R E = record {
        inline = [];
        queued = [];
        cleanup_tasks = [];
        next = 0;
        world = e;
        notes =
            if is_empty strategies then reported (text "logging.destination_config") ∷ [] else [];
      } in
      ensure_destination
        (add_strategies (if is_empty strategies then stdout ∷ [] else strategies) m0)

  -- The end of `_disable_inline`: standard output where no destination is left.
  unfoldable pub fall_back : Manager R E → Manager R E
  unfolding is_silent
  fall_back m =
      if is_silent m
      then (let (made, e) = stdout.writer.build m.world in
          if made
          then add_inline stdout e m
          else note (reported (text "logging.stdout_fallback") ∷ []) (record m { world = e }))
      else m

module _ {R E : Type 0} (stdout : Strategy R E) (starts : E → Bool) where
  -- `_disable_inline`; a destination that is not in the list any more is passed over.
  unfoldable pub disable_inline : Inline R E → Manager R E → Manager R E
  disable_inline d m =
      if any (λ x. nat_eq x.ident d.ident) m.inline
      then fall_back stdout (
          note (reported (text "logging.destination_disabled") ∷ [])
            (start_writer_cleanup starts d (record m { inline = keep (is_other d) m.inline })))
      else m

  unfoldable pub disable_each : List (Inline R E) → Manager R E → Manager R E
  disable_each [] m = m
  disable_each (d ∷ rest) m = disable_each rest (disable_inline d m)

  unfoldable pub emit : R → Manager R E → Manager R E
  emit r m =
      let (written, notes, e) = write_inlines r m.inline m.world in
      let m1 = record m { inline = written; world = e; notes = m.notes ++ notes } in
      let m2 = disable_each (keep is_disabled written) m1 in
      record m2 { queued = enqueue_each r m2.queued }
