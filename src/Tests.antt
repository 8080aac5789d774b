-- ===== src/Tests.antt =====
-- The library at concrete inputs.
mod Turns
mod Chain
mod Builds
mod Commands
mod Memory
mod Exports
mod Stages
mod Gate
mod Stores
mod Switches
mod Recorded
mod Results
