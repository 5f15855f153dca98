-- ===== src/Service/Planner.antt =====
-- The planner of src/shiftzero/simulator.py.
pub mod Search
mod Least
pub mod Walks
pub mod Ties
pub mod Fuel
mod Weights
pub mod Rounds
pub mod Order
mod Distances
mod Ahead
mod Expand
pub mod Shortest
mod Reached
pub mod Frontier
pub mod Route
pub mod Plan
pub mod Chosen
pub mod Clear
pub mod Fresh
