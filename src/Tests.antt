-- ===== src/Tests.antt =====
-- Concrete runs of the modelled code, and the theorems at concrete inputs.
mod Records
mod Reports
mod Settings
mod Queues
mod Destinations
mod Contexts
mod Requests
mod Processes
mod Closings
mod Adapters
mod Exports
mod Releases
