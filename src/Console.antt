-- ===== src/Console.antt =====
-- The Judge Mode console: apps/web/components/mission-console.tsx.
pub mod Documents
pub mod Loading
pub mod Timeline
pub mod Replay
pub mod Timer
pub mod Run
pub mod Arrival
pub mod View
pub mod Clicks
pub mod Verdicts
