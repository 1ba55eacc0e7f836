-- ===== src/Event.antt =====
-- The event library (src/grevir/event): routes, the main-loop queue, the names of policies and the
-- capacity check.
pub mod Route
pub mod Mailbox
pub mod Policy
pub mod Queue
pub mod Dispatch
mod Tests
