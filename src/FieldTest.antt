-- ===== src/FieldTest.antt =====
-- The A06/A07 Digital Twin lab: apps/web/components/field-test-simulator.tsx.
pub mod Schedule
pub mod Timeline
pub mod Session
pub mod Motion
pub mod View
pub mod Clicks
pub mod Verdicts
pub mod Blockage
pub mod Lifecycle
pub mod Completion
pub mod Export
pub mod Download
pub mod Evidence
pub mod Position
