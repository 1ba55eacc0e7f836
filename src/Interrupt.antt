-- ===== src/Interrupt.antt =====
-- The interrupt library (src/grevir/interrupt): event identities, binding plans, the start sequence,
-- handlers, demands, the probe record, the host tool that reads it, the deferred context,
-- the event catalog and the whole plan.
pub mod Catalog
pub mod Sort
pub mod Binding
pub mod Start
pub mod Handler
pub mod Demand
pub mod Probe
pub mod Decode
pub mod Deferred
pub mod Events
pub mod Plan
pub mod Host
mod Samples
mod Tests
