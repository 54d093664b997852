-- ===== src/Lib.antt =====
-- Verification of policyengine-observability, the logging and telemetry package of PolicyEngine's
-- services. An application builds a configuration (policyengine_observability/config.py), which is
-- validated, and a runtime (runtime.py). The runtime opens and closes requests, builds a record for
-- each (schema.py), and gives it to the delivery (delivery.py), which writes it to inline
-- destinations at once and to queued destinations through a bounded queue and a worker thread.
-- Failures of any part go to the local diagnostics (diagnostics.py).
--
-- Base and its children: Boolean tests, lists, texts as code points, dictionaries in the order of
--   insertion, and Python's integers and floats.
-- Value: the Python values that come in untyped, and exceptions as the code looks at them.
-- Config: the typed configuration. Config/Validation is `validation_errors` and `validate` over
--   fields of any value; Checks, Fields, Destinations and Complete are its theorems, from the
--   single checks to the whole. Config/Environment is the reading of the OTel variables by
--   `from_env`, with Headers and Settings its theorems.
-- Schema: `normalize_attributes`, `build_record` and what they call; Attributes, Redaction and
--   Records are its theorems.
-- Diagnostics: the class of that name; Counts, Rate and Redaction are its theorems.
-- Delivery: Writer is what the package asks of a log writer, Queued is `_QueuedWriter`, and Manager
--   is `DeliveryManager`. Bounds, Fifo and Drain are theorems on the queue, and Replay relates a run to the calls of the writer; Failures, Fallback and
--   Isolation are theorems on `emit`; Manager/Close is the shutdown, with Closed its theorem.
--   Queued/Channel is the abstract channel that the queued writer refines. Formatting and GoogleCloud
--   are the writers and formatters of the destinations (destinations/).
-- Runtime: Rules is the functions below the classes of runtime.py, with Facts its theorems; State is
--   the store of requests and operations, the context variables, and the effects that a call asks
--   for, and Outside is what is given from outside. Requests is the calls on requests, Calls those
--   that add context or record something, Operations the operations and child spans with their
--   scopes, and Capture what goes to another process; Kept, Counts, Nesting, Propagation and
--   Handover are their theorems. Logging is the handler of Python's logging with its installation,
--   Shutdown is `shutdown`, and Construction the constructor and `restart_after_snapshot`.
-- Identity: the identities of processes (identity.py), with Stable its theorem.
-- Otel: the endpoint of a signal and the age of a captured context (otel.py); Spans is the calls on
--   spans and instruments, Exporters the exporters that are made at their first use, and Providers
--   the arguments of what the package configures; Setup is the start of `OTelRuntime`, its flush and
--   its shutdown.
-- Adapters: the FastAPI middleware, the Flask callbacks and the httpx hook (adapters and
--   integrations), around the operations of Runtime.
-- Google: the choice of credentials (google_credentials.py, google_auth.py).
-- Release: the next version of the package (.github/bump_version.py); Newer is its theorem.
-- Tests: concrete runs.
--
-- A method that changes an object is a function from its state to its new state. What is outside
-- (writers, the clock, `str.lower`, the conversions of `float` and `int`, `os.getenv`, the
-- OpenTelemetry providers) is a parameter; a writer acts on a world and says whether it raised.
-- Threads are modelled by the sequences in which their atomic pieces of code may run: the worker's
-- pieces end at the calls of the queue and at the test of `_closed` after `queue.Empty`, those of the
-- producers and the closers after each test, `set` and put.
-- Time is a number of ticks. A float is n / 2 ^ k, infinite or not a number, and only its
-- comparisons are modelled. There is no fuel: loops are structural, and the worker's loop is run for
-- as many pieces as the schedule has, with 2 * (length of the queue) + 5 shown to be enough.
--
-- A context variable holds an index into a store of states, so that what shares an object sees its
-- changes; what a call asks of the delivery, of the providers and of the diagnostics is listed as
-- effects in their order, and the answers of the providers may depend on that list.
--
-- Not modelled: the second attempt of `_new_otel`, which no exception reaches, and the calls of the
-- listener of the diagnostics during the other operations; an `emit` that another thread makes during
-- `close`; a response that is sent from a copied context; the identity variables of config.py; the
-- OpenTelemetry SDK, Google's libraries, the frameworks and the clients, which the code only calls;
-- and what the release scripts read and write of files.
pub mod Base
pub mod Value
pub mod Config
pub mod Schema
pub mod Diagnostics
pub mod Delivery
pub mod Runtime
pub mod Identity
pub mod Otel
pub mod Adapters
pub mod Google
pub mod Release
pub mod Tests
