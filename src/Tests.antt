-- ===== src/Tests.antt =====
-- Runs at concrete inputs: the lab, the console, the mission service, and the parameters that they take.
pub mod Instances
mod Lab
mod Replay
mod Service
