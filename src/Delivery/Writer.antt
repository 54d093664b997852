-- ===== src/Delivery/Writer.antt =====
-- What the package asks of a log writer (`RecordWriter` of destinations/base.py), which the
-- application or another package implements: its calls act on a world outside, and each returns
-- or raises.
use policyengine_observabili.Base.{Bool, true, List, [], ◌∷◌, Option, none, some, if◌then◌else◌}

-- `true` is a normal return. `write_many` and `close` are methods that a writer may lack.
pub record Writer (R E : Type 0) : Type 0 where
  pub build : E → Bool × E
  pub write : R → E → Bool × E
  pub write_many : Option (List R → E → Bool × E)
  pub close : Option (E → Bool × E)

module _ {R E : Type 0} where
  -- `for record in batch: writer.write(record)`, up to the first that raises.
  unfoldable pub write_each : Writer R E → List R → E → Bool × E
  write_each w [] e = (true, e)
  write_each w (r ∷ rs) e =
      let rest = write_each w rs (w.write r e).1 in if (w.write r e).0 then rest else w.write r e

  -- `write_many` where the writer has it.
  unfoldable pub write_batch : Writer R E → List R → E → Bool × E
  write_batch w batch e = elim w.write_many [ some f ↦ f batch e | none ↦ write_each w batch e ]

  -- `close` where the writer has it.
  unfoldable pub close_writer : Writer R E → E → Bool × E
  close_writer w e = elim w.close [ some f ↦ f e | none ↦ (true, e) ]
