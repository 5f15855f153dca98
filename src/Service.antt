-- ===== src/Service.antt =====
-- The mission service: the Python package src/shiftzero.
pub mod Status
pub mod Domain
pub mod Lookup
pub mod Approval
pub mod Safety
pub mod Proof
pub mod Deadlock
pub mod SafeRoute
pub mod Sealed
pub mod Planner
pub mod World
