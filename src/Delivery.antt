-- ===== src/Delivery.antt =====
-- policyengine_observability/delivery.py: the fan-out of records to isolated destinations.
-- `Writer` is the interface that a destination's writer implements, `Queued` the queue with its
-- worker, and `Manager` the class `DeliveryManager`; `Formatting` and `GoogleCloud` are the writers and
-- formatters of the destinations.
pub mod Writer
pub mod Formatting
pub mod GoogleCloud
pub mod Queued
pub mod Manager
