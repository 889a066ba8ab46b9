-- ===== src/Tests.antt =====
-- Runs of the model on a file system in memory and a toy cipher, and the theorems at concrete inputs.
pub mod Values
mod Stores
mod Watchers
mod Managers
mod Sessions
mod Runs
mod Power
mod Restores
mod Tools
mod Events
mod Retrieving
mod Files
mod Parts
