-- ===== src/Core.antt =====
-- The core library (src/grevir/core): the allocation search, resource claims and their checks, the
-- lifecycle order, modules and their instances, applications, what they are allocated, and resource
-- graphs.
pub mod Search
pub mod Pairs
pub mod Claims
pub mod Checks
pub mod Joined
pub mod Allocated
pub mod TypeLists
pub mod Lifecycle
pub mod Module
pub mod Application
pub mod Instance
pub mod Graph
mod Samples
mod Tests
