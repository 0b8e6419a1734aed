-- ===== src/Wal/Handles.antt =====
-- Several handles of src/wal.rs on one log in a MemoryStore of src/store.rs: their attempts, refreshes and whatever else
-- happens to the store, interleaved in any order.
pub mod Apart
pub mod Sees
pub mod Tracks
pub mod Refreshes
pub mod Attempts
pub mod Appending
pub mod Runs
pub mod Linear
