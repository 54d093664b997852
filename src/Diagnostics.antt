-- ===== src/Diagnostics.antt =====
-- policyengine_observability/diagnostics.py: counters, listeners and rate-limited local reports.
-- The lock makes each method atomic, so a method is a function on the state. A reading of the
-- monotonic clock is a number of ticks, and an interval is measured in the same ticks.
pub mod Redaction
pub mod Counts
pub mod Rate
use policyengine_observabili.Base.{
  ℕ, ◌+◌, ◌*◌, max, Text, text, replace, take, is_empty, ltb, Dict, lookup, insert, update, Bool,
  false, if◌then◌else◌, List, [], ◌∷◌, ◌++◌, Option, none, some, or_else,
}
use policyengine_observabili.Value.{Value}
use policyengine_observabili.Schema.{redacted_mark}

-- A line for standard error: the record that is to be printed as JSON, with its operation, the
-- reading of the monotonic clock at the report, and whether the printing returned rather than raised.
pub record Line : Type 0 where
  pub operation : Text
  pub at : ℕ
  pub printed : Bool
  pub body : Dict Value

-- `lines` are those of this process: a copied process begins with none. `listeners` are named by numbers; `calls` are the calls made of them so far, the last at the end.
-- A listener that raises changes nothing here, since `increment` goes on to the next.
pub record Diagnostics : Type 0 where
  pub interval : ℕ
  pub sensitive_values : List Text
  pub last_report : Dict ℕ
  pub counts : Dict ℕ
  pub listeners : List ℕ
  pub calls : List (ℕ × Text × ℕ)
  pub lines : List Line

-- `__init__`; `second` is the number of ticks in a second.
unfoldable pub create : ℕ → ℕ → List Text → Diagnostics
create second interval_seconds sensitive_values = record {
  interval = max second (interval_seconds * second);
  sensitive_values = sensitive_values;
  last_report = [];
  counts = [];
  listeners = [];
  calls = [];
  lines = [];
}

-- `Counter.__getitem__`
unfoldable pub count : Text → Diagnostics → ℕ
count name d = or_else (lookup name d.counts) 0

abbrev pub notify : Text → ℕ → List ℕ → List (ℕ × Text × ℕ)
notify name value [] = []
notify name value (l ∷ listeners) = (l, name, value) ∷ notify name value listeners

unfoldable pub increment : Text → ℕ → Diagnostics → Diagnostics
unfolding count
increment name value d = record d {
  counts = insert name (count name d + value) d.counts;
  calls = d.calls ++ notify name value d.listeners;
}

unfoldable pub add_listener : ℕ → Diagnostics → Diagnostics
add_listener listener d = record d { listeners = d.listeners ++ (listener ∷ []) }

unfoldable pub snapshot : Diagnostics → Dict ℕ
snapshot d = d.counts

unfoldable pub restart_after_process_duplication : Diagnostics → Diagnostics
restart_after_process_duplication d = record d { last_report = []; counts = []; lines = [] }

-- The loop of `_safe_text`.
unfoldable pub mask_each : List Text → Text → Text
mask_each [] t = t
mask_each (s ∷ rest) t = mask_each rest (if is_empty s then t else replace s redacted_mark t)

-- `none` is a value whose `str` raises.
unfoldable pub safe_text : Option Text → List Text → Text
safe_text none sensitive_values = text "<unprintable>"
safe_text (some t) sensitive_values = take 2048 (mask_each sensitive_values t)

-- `_safe_scalar`; `printed` is `str` of a value that is neither a text, a number nor `None`.
unfoldable pub safe_scalar : (Value → Option Text) → Value → List Text → Value
safe_scalar printed (Value.str t) vs = Value.str (safe_text (some t) vs)
safe_scalar printed Value.null vs = Value.null
safe_scalar printed (Value.bool b) vs = Value.bool b
safe_scalar printed (Value.int n) vs = Value.int n
safe_scalar printed (Value.float x) vs = Value.float x
safe_scalar printed v vs = Value.str (safe_text (printed v) vs)

unfoldable pub safe_fields : (Value → Option Text) → Dict Value → List Text → Dict Value
safe_fields printed [] vs = []
safe_fields printed ((k, v) ∷ fields) vs =
    (k, safe_scalar printed v vs) ∷ safe_fields printed fields vs

-- The error of a report: a text, or an exception with its type's name and its message.
pub record Report : Type 0 where
  pub operation : Text
  pub error_type : Text
  pub error_message : Option Text
  pub fields : Dict Value

-- The record that a report prints; the report's own fields come last.
unfoldable pub line_body : (Value → Option Text) → Report → Text → List Text → Dict Value
line_body printed r timestamp sensitive_values =
    update
      ((text "schema_version", Value.str (text "policyengine.observability.internal.v1"))
        ∷ (text "timestamp", Value.str timestamp)
        ∷ (text "severity", Value.str (text "ERROR"))
        ∷ (text "event.name", Value.str (text "observability.internal_failure"))
        ∷ (text "operation", Value.str r.operation)
        ∷ (text "error.type", Value.str r.error_type)
        ∷ (text "error.message", Value.str (safe_text r.error_message sensitive_values))
        ∷ [])
      (safe_fields printed r.fields sensitive_values)

-- Whether a report at `now` is held back.
unfoldable pub is_held_back : Text → ℕ → Diagnostics → Bool
is_held_back operation now d = elim (lookup operation d.last_report) [
  | none ↦ false
  | some previous ↦ ltb now (previous + d.interval)
]

module _ (printed : Value → Option Text) where
  abbrev pub report_line : Report → ℕ → Text → Bool → Diagnostics → Line
  report_line r now timestamp returns d = record {
    operation = r.operation;
    at = now;
    printed = returns;
    body = line_body printed r timestamp d.sensitive_values;
  }

  -- `returns` says whether the `try` with `json.dumps` and `print` returns; its handler does nothing.
  unfoldable pub print_line : Report → ℕ → Text → Bool → Diagnostics → Diagnostics
  print_line r now timestamp returns d = record d {
    last_report = insert r.operation now d.last_report;
    lines = d.lines ++ (report_line r now timestamp returns d ∷ []);
  }

  unfoldable pub report : Report → ℕ → Text → Bool → Diagnostics → Diagnostics
  report r now timestamp returns d =
      let counted = increment (text "failure." ++ r.operation) 1 d in
      if is_held_back r.operation now counted
      then counted
      else print_line r now timestamp returns counted

-- The calls that other components make of a `Diagnostics`.
pub data Call : Type 0 where
  increments : Text → ℕ → Call
  listens : ℕ → Call
  reports : Report → ℕ → Text → Bool → Call
  restarts : Call

pub apply : (Value → Option Text) → Call → Diagnostics → Diagnostics
apply printed (increments name value) d = increment name value d
apply printed (listens listener) d = add_listener listener d
apply printed (reports r now timestamp returns) d = report printed r now timestamp returns d
apply printed restarts d = restart_after_process_duplication d

pub run : (Value → Option Text) → List Call → Diagnostics → Diagnostics
run printed [] d = d
run printed (call ∷ calls) d = run printed calls (apply printed call d)
