-- ===== src/Tests.antt =====
-- Concrete runs of the definitions, and the theorems at concrete inputs.
mod Appends
mod Faults
mod Fleets
mod Files
mod Groups
mod Images
mod Logs
mod Maps
mod Rebuilds
mod Stores
mod Writes
