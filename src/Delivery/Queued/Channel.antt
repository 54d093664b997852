-- ===== src/Delivery/Queued/Channel.antt =====
-- What `_QueuedWriter` promises to the manager: a channel that takes records to its writer in their
-- order and drops one only if it is closed or its line is full.
pub mod Refines
use policyengine_observabili.Base.{
  ℕ, ◌≤◌, ◌≡◌, ◌⊎◌, length, Bool, true, false, List, [], ◌∷◌, ◌++◌, some,
}
use policyengine_observabili.Delivery.Queued.{
  Queued, Event, accepted, handed, unbuilt, released, pick,
}
use policyengine_observabili.Delivery.Queued.Fifo.{jobs, pending}

-- `offered` are the records of producers that were let in; `line` those that wait to be taken.
pub record Channel (R : Type 0) : Type 0 where
  pub capacity : ℕ
  pub closed : Bool
  pub offered : List R
  pub line : List R

-- What the channel shows: a record is let into the line, or its first records are taken.
pub data Signal (R : Type 0) : Type 0 where
  enters : R → Signal R
  takes : List R → Signal R

-- A batch is taken whether it is written or given up because no writer is built.
abbrev pub signals : {R : Type 0} → List (Event R) → List (Signal R)
signals [] = []
signals (accepted r ∷ events) = enters r ∷ signals events
signals (handed batch ∷ events) = takes batch ∷ signals events
signals (unbuilt batch ∷ events) = takes batch ∷ signals events
signals (released ∷ events) = signals events

pub data Move {R : Type 0} : Channel R → List (Signal R) → Channel R → Type 0 where
  stays : (c : Channel R) → Move c [] c
  offers :
      (c : Channel R) (r : R)
      → c.closed ≡ false
      → Move c [] (record c { offered = c.offered ++ r ∷ [] })
  accepts :
      (c : Channel R) (n : ℕ) (r : R) (rest : List R)
      → pick n c.offered ≡ some (r, rest)
      → Move c (enters r ∷ []) (record c { offered = rest; line = c.line ++ r ∷ [] })
  drops :
      (c : Channel R) (n : ℕ) (r : R) (rest : List R)
      → pick n c.offered ≡ some (r, rest)
      → (c.closed ≡ true) ⊎ (c.capacity ≤ length c.line)
      → Move c [] (record c { offered = rest })
  shuts : (c : Channel R) → Move c [] (record c { closed = true })
  delivers :
      (c : Channel R) (batch rest : List R)
      → c.line ≡ batch ++ rest
      → Move c (takes batch ∷ []) (record c { line = rest })

-- Moves one after another, with what they make visible.
pub data Moves {R : Type 0} : Channel R → List (Signal R) → Channel R → Type 0 where
  rests : (c : Channel R) → Moves c [] c
  moves :
      {a b c : Channel R} {xs ys : List (Signal R)}
      → Move a xs b
      → Moves b ys c
      → Moves a (xs ++ ys) c

abbrev pub view : {R E : Type 0} → Queued R E → Channel R
view q = record {
  capacity = q.capacity;
  closed = q.closed;
  offered = q.in_flight;
  line = pending q;
}

-- `_STOP` is in the queue only after `close`.
abbrev pub IsStopped : {R E : Type 0} → Queued R E → Type 0
IsStopped q = (q.closed ≡ true) ⊎ ((q.stopping ≡ 0) × (length (jobs q.queue) ≡ length q.queue))
