-- ===== src/Lib.antt =====
-- waltier: a write-ahead log in one object of an object store. The log is an image: an optional
-- reference to a snapshot, which folds a prefix of the entries, and the entries behind it. A writer
-- appends by a PUT that is conditional on the validator (etag) that it last saw; readers and losing
-- writers refresh; a compactor publishes snapshots, which the writer folds in with its next PUT.
--
-- Files, and the code that they model:
--   Base            shared types and lemmas: lists, bytes, fixed-width words, text, fallible results.
--   Error           src/error.rs: StoreError, WalError, WriteError and the outcome of a mutation.
--   Image           src/image.rs: WalImage, its sequence numbers (first_lsn, next_lsn, entries_from),
--                   encode_view and encode in Image/Encode, Reader and decode in Image/Reader and
--                   Image/Decode. The other children hold the theorems on them.
--   Store           src/store.rs: the trait ObjectStore as a record of operations on a state `W` of the
--                   world, cas_matches, and MemoryStore in Store/Memory. Store/Directory is FsStore, over
--                   FileSystem, an interface to files, locks and random bytes.
--   App             src/lib.rs: the trait WalApp as a record, and the default reconcile_batch.
--   Cache           src/cache.rs: the framed and checksummed files, over the interface Cache/Files of
--                   the file system; write_atomic is an operation of it, and is modelled over single file
--                   operations in Cache/Atomic, with enough fuel for its loop. Cache/Checksum has
--                   the streaming checksum; its children, Cache/Framed and Cache/RoundTrip hold theorems.
--   Wal             src/wal.rs: options, Core and what it shares. Wal/Opening is Core::open, Wal/Refresh
--                   Core::refresh, Wal/Compactor run_compaction and publish_snapshot, Wal/Replica the
--                   follower, Wal/Writer the state of WalTier and one CAS attempt, Wal/Writer/Append
--                   write and write_batch, Wal/Writer/Maintenance compaction, garbage and flush,
--                   Wal/Writer/Lifecycle open, close and compaction_status. Theorems stand in
--                   Wal/Refresh/History, Sound and Keeps, Wal/Writer/Folds, Closing,
--                   Garbage and Keeps, and Wal/Writer/Append/Committed, Applies, Returns, Kept,
--                   Ranges and Failed.
--   Wal/Handles     many handles of src/wal.rs on one log in a MemoryStore: what they know (Tracks), refreshes
--                   (Sees, Refreshes), lost and won attempts (Attempts, Appending), and every interleaving (Runs, Linear).
--   S3              src/s3.rs: configuration, errors and uploads of S3Store; S3/Requests its operations.
--                   The signing crate, the transport and the clock are the parameters Crates and Network.
--   Sim             src/sim.rs: Rng, faults, latency and counters, over the parameter Machine for floating
--                   point, durations and sleep; Sim/Store is SimStore over any object store.
--   GroupCommit     examples/group_commit.rs: its bounded queue, submitters and writer thread; the steps of
--                   the program in GroupCommit/Steps, and theorems on every interleaving in the other children.
--   Kv              examples/kv.rs: a map of strings as an application; its snapshots in Kv/Snapshots and
--                   its commands in Kv/Commands.
--   Tests           runs on concrete inputs.
--
-- How state and operations correspond: every operation takes the state of its object and the world `W`
-- and returns a result, the new state and the new world. The store, the disk and the application
-- are parameters of every operation that calls them. A result that is an Option is `none` where the
-- source panics in a release build, also in run_compaction and spawn_compaction. `u64` and `usize` are natural numbers with their wrap-around or checks written out;
-- a String or a byte slice is a list of bytes.
--
-- Loops: `for _ in 0..MAX_RACES` and the attempts of append and flush are recursions on the number of
-- rounds, which the source bounds by the same constants, so there is no other fuel but in Cache/Atomic, where the
-- loop ends at the first temporary name that is free. A round of a loop
-- returns a Step: an answer, or the next round.
--
-- The compactor thread: spawn_compaction hands the job to the host, and the channel of a running
-- task holds what the thread has sent so far; a step of the environment may run run_compaction on the job
-- and fill the channel. Random identifiers and thread creation are operations of Host.
--
-- Many handles: a Fleet of Wal/Handles/Runs is a MemoryStore and a handle for each number. An attempt with the
-- commit behind it, and a refresh, is one step; what else happens is any step that leaves the log object alone.
-- An attempt touches the store once, by its conditional PUT.
--
-- The threads of examples/group_commit.rs: Step is a relation on Group, the queue with the flag, the answers
-- and the place of the writer; a run is any sequence of steps of submitters, writer and the world
-- outside. A receipt is a number, and a submission that blocks is a step only when there is room.
--
-- Not modelled: the main functions of the examples with the threads of the producers, examples/batch.rs and
-- the benchmarks. S3Store.get has a result `none` for the unreachable! of the source. The debug_assert! in
-- try_install is left out, as are panics of the application's callbacks.
pub mod App
pub mod Base
pub mod Cache
pub mod Error
pub mod GroupCommit
pub mod Image
pub mod Kv
pub mod S3
pub mod Sim
pub mod Store
pub mod Tests
pub mod Wal
