-- ===== src/Runtime.antt =====
-- policyengine_observability/runtime.py: identifiers and outcomes, the requests and the operations
-- that a context carries, and what goes from one process to the next.
pub mod Rules
pub mod State
pub mod Outside
pub mod Requests
pub mod Calls
pub mod Operations
pub mod Capture
pub mod Logging
pub mod Shutdown
pub mod Construction
