-- ===== src/Delivery/Formatting.antt =====
-- policyengine_observability/destinations/base.py and stdout.py: the writers of the package around a
-- formatter and a writer of the application. A formatter is given a copy of the record and returns
-- its result or raises; `none` is no formatter.
pub mod Equal
use policyengine_observabili.Base.{
  Text, text, Bool, true, false, is_empty, strip, if◌then◌else◌, Option, none, some, List, [], ◌∷◌,
  ◌++◌,
}
use policyengine_observabili.Delivery.Writer.{Writer, write_batch, close_writer}

module _ {R : Type 0} where
  -- `_format`, `none` where the formatter raises.
  unfoldable pub format : Option (R → Option R) → R → Option R
  format none r = some r
  format (some formatter) r = formatter r

  -- `[self._format(record) for record in records]`
  unfoldable pub format_each : Option (R → Option R) → List R → Option (List R)
  format_each formatter [] = some []
  format_each formatter (r ∷ rs) =
      let rest = format_each formatter rs in
      elim (format formatter r) [
        | none ↦ none
        | some x ↦ elim rest [ none ↦ none | some xs ↦ some (x ∷ xs) ]
      ]

abbrev pub print_text : {E : Type 0} → (Text → E → Bool × E) → Option Text → E → Bool × E
print_text print none e = (false, e)
print_text print (some line) e = print line e

module _ {R E : Type 0} where
  abbrev pub write_formatted : Writer R E → Option R → E → Bool × E
  write_formatted w none e = (false, e)
  write_formatted w (some r) e = w.write r e

  abbrev pub write_all_formatted : Writer R E → Option (List R) → E → Bool × E
  write_all_formatted w none e = (false, e)
  write_all_formatted w (some rs) e = write_batch w rs e

  -- `_FormattingWriter`, which the factory builds around the application's writer.
  unfoldable pub formatting_writer : Option (R → Option R) → Writer R E → Writer R E
  formatting_writer formatter w = record {
    build = w.build;
    write = λ r e. write_formatted w (format formatter r) e;
    write_many = some (λ rs e. write_all_formatted w (format_each formatter rs) e);
    close = some (λ e. close_writer w e);
  }

  -- `_StdoutWriter`: `dumps` is `json.dumps` with sorted keys, and `print` prints a line and flushes.
  unfoldable pub stdout_writer :
      (R → Option Text) → (Text → E → Bool × E) → Option (R → Option R) → Writer R E
  stdout_writer dumps print formatter = record {
    build = λ e. (true, e);
    write = λ r e. elim (format formatter r) [
      | none ↦ (false, e)
      | some value ↦ print_text print (dumps value) e
    ];
    write_many = none;
    close = none;
  }

-- Whether an object that may be missing can be called.
unfoldable pub is_usable : Option Bool → Bool
is_usable none = true
is_usable (some callable) = callable

-- `StdoutLogDestination.diagnostics`
unfoldable pub stdout_diagnostics : Option Bool → List Text
stdout_diagnostics formatter =
    if is_usable formatter then [] else text "Standard-output formatter must be callable." ∷ []

-- `CustomLogDestination.diagnostics`
unfoldable pub custom_diagnostics : Text → Bool → Option Bool → List Text
custom_diagnostics name factory formatter =
    (if is_empty (strip name)
      then text "Custom log destination name must be non-empty." ∷ []
      else [])
    ++ ((if factory
          then []
          else text "Custom log destination writer_factory must be callable." ∷ [])
        ++ (if is_usable formatter
            then []
            else text "Custom log destination formatter must be callable." ∷ []))
