-- ===== src/Examples.antt =====
-- Runs of the modelled code at concrete inputs: the parts of the program at work on one small world.
pub mod Fixtures
mod Holds
mod Obligations
mod Kills
mod Verdicts
mod Calls
mod Batches
mod FanOuts
mod Counts
mod Sweeps
mod Conditions
pub mod GateWorld
mod Gating
mod Matching
mod Dispatches
