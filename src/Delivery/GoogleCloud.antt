-- ===== src/Delivery/GoogleCloud.antt =====
-- policyengine_observability/destinations/google_cloud.py: the formatter that adds the fields of
-- Cloud Logging to a record, and the destination with the entries that its writer makes. `printed` is
-- `str` of a value, and the client of Cloud Logging is outside.
pub mod Correlated
use policyengine_observabili.Base.{
  zero, Text, text, lookup, insert, ℤ, pos, Float, finite, leb_float, max_float, min_float, Bool,
  true, false, not, ◌||◌, ◌&&◌, is_empty, strip, if◌then◌else◌, Option, none, some, List, [], ◌∷◌,
  ◌++◌, map,
}
use policyengine_observabili.Value.{Value}
use policyengine_observabili.Schema.{Entry, Record}
use policyengine_observabili.Otel.Providers.{tenth}

abbrev pub google_trace_key : Text
google_trace_key = text "logging.googleapis.com/trace"

abbrev pub google_span_id_key : Text
google_span_id_key = text "logging.googleapis.com/spanId"

abbrev pub google_trace_sampled_key : Text
google_trace_sampled_key = text "logging.googleapis.com/trace_sampled"

-- Python's truth of a value.
unfoldable pub is_true : Value → Bool
is_true Value.null = false
is_true (Value.bool b) = b
is_true (Value.int (pos zero)) = false
is_true (Value.float (finite (pos zero) k)) = false
is_true (Value.str t) = not (is_empty t)
is_true _ = true

-- The dictionary of attributes is true unless it is empty.
unfoldable pub is_true_entry : Option Entry → Bool
is_true_entry none = false
is_true_entry (some (Entry.one v)) = is_true v
is_true_entry (some (Entry.attributes d)) = not (is_empty d)

-- `printed` is what an f-string or `str` makes of an entry.
module _ (printed : Option Entry → Text) where
  abbrev pub trace_name : Text → Option Entry → Text
  trace_name project_id trace_id =
      text "projects/" ++ project_id ++ text "/traces/" ++ printed trace_id

  unfoldable pub format_record : Text → Record → Record
  format_record project_id record_ =
      let trace_id = lookup (text "trace_id") record_ in
      let span_id = lookup (text "span_id") record_ in
      let sampled = is_true_entry (lookup (text "trace_sampled") record_) in
      let traced =
        if is_true_entry trace_id && not (is_empty (strip project_id))
        then insert google_trace_sampled_key (Entry.one (Value.bool sampled)) (
            insert google_trace_key (Entry.one (Value.str (trace_name project_id trace_id)))
              record_)
        else record_ in
      if is_true_entry span_id
      then insert google_span_id_key (Entry.one (Value.str (printed span_id))) traced
      else traced

  -- The keyword arguments of an entry of the batch.
  pub record EntryArguments : Type 0 where
    pub severity : Entry
    pub trace : Option Text
    pub span_id : Option Text
    pub trace_sampled : Bool

  unfoldable pub entry_kwargs : Text → Record → EntryArguments
  entry_kwargs project_id record_ =
      let trace_id = lookup (text "trace_id") record_ in
      let span_id = lookup (text "span_id") record_ in
      record {
        severity = elim (lookup (text "severity") record_) [
          | none ↦ Entry.one (Value.str (text "DEFAULT"))
          | some severity ↦ severity
        ];
        trace = if is_true_entry trace_id then some (trace_name project_id trace_id) else none;
        span_id = if is_true_entry span_id then some (printed span_id) else none;
        trace_sampled = is_true_entry (lookup (text "trace_sampled") record_);
      }

  -- `write_many`: a batch with one entry for each record, and its commit.
  unfoldable pub write_entries :
      {E : Type 0}
      → (List (Record × EntryArguments) → E → Bool × E)
      → Text
      → List Record
      → E
      → Bool × E
  write_entries commit project_id records e =
      commit (map (λ record_. (record_, entry_kwargs project_id record_)) records) e

-- A timeout as the field may hold it: a number that is no Boolean, or anything else.
unfoldable pub is_timeout : Value → Bool
is_timeout (Value.int n) =
    leb_float tenth (finite n 0) && leb_float (finite n 0) (finite (pos 60) 0)
is_timeout (Value.float x) = leb_float tenth x && leb_float x (finite (pos 60) 0)
is_timeout _ = false

-- `GoogleCloudLogDestination`
pub record GoogleCloudLogDestination : Type 0 where
  pub project_id : Text
  pub log_name : Text
  pub queue_capacity : ℤ
  pub batch_size : ℤ
  pub write_timeout_seconds : Value

unfoldable pub google_diagnostics : GoogleCloudLogDestination → List Text
google_diagnostics d =
    (if is_empty (strip d.project_id)
      then text "Google Cloud logging requires project_id." ∷ []
      else [])
    ++ ((if is_empty (strip d.log_name)
          then text "Google Cloud logging requires log_name." ∷ []
          else [])
        ++ (if is_timeout d.write_timeout_seconds
            then []
            else text "Google Cloud logging write_timeout_seconds must be between 0.1 and 60."
              ∷ []))

-- Whether `build_writer` goes on to the client, rather than raises `ValueError`.
unfoldable pub can_build : GoogleCloudLogDestination → Bool
can_build d = not (is_empty (strip d.project_id) || is_empty (strip d.log_name))

-- The deadline of a write, from `float(config.write_timeout_seconds)`.
unfoldable pub write_timeout : Float → Float
write_timeout seconds = max_float tenth (min_float seconds (finite (pos 60) 0))
