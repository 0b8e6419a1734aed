-- ===== src/Wal/Handles/Runs.antt =====
-- The program around src/wal.rs: any number of handles on one log in a MemoryStore, whose attempts and refreshes
-- interleave with each other and with whatever else leaves the log object alone.
use waltier.Base.{
  ℕ, ◌+◌, ◌<◌, ◌≤◌, ◌^◌, ◌≡◌, true, some, List, [], ◌∷◌, ◌++◌, ◌==◌, if◌then◌else◌, Result, ok, err,
}
use waltier.Base.Bytes.{Bytes}
use waltier.Base.Assoc.{lookup}
use waltier.Image.{Lsn, next_lsn}
use waltier.Store.Memory.{MemoryStore, memory_store}
use waltier.Store.Memory.Versions.{IsFresh}
use waltier.App.{WalApp}
use waltier.Cache.Files.{Disk}
use waltier.Wal.{Options, Core, Refreshed, wal_key}
use waltier.Wal.Refresh.{refresh}
use waltier.Wal.Compactor.{Host}
use waltier.Wal.Writer.{WalTier, Attempt, pending_fold, try_install}
use waltier.Wal.Writer.Folds.{FoldFits}
use waltier.Wal.Writer.Append.{commit}
use waltier.Error.{WalError}

pub record Fleet (S : Type 0) : Type 0 where
  pub world : MemoryStore
  pub handle : ℕ → WalTier S

-- The batches that were acknowledged, each with the LSN of its first entry.
abbrev pub Batches : Type 0
Batches = List (Lsn × List Bytes)

abbrev pub entries_in : Batches → List Bytes
entries_in [] = []
entries_in ((first, entries) ∷ bs) = entries ++ entries_in bs

module _ {S : Type 0} where
  abbrev pub put_handle : ℕ → WalTier S → MemoryStore → Fleet S → Fleet S
  put_handle i t w s = record { world = w; handle = λ j. if i == j then t else s.handle j }

  -- The entries of a won attempt are applied.
  abbrev pub settled :
      (app : WalApp S) (disk : Disk MemoryStore) (host : Host MemoryStore)
      → ℕ
      → List Bytes
      → Lsn
      → Attempt app memory_store disk
      → Fleet S
      → Fleet S
  settled app disk host i entries first (some (ok true), t, w) s =
      put_handle i (commit app memory_store disk host t first entries) w s
  settled app disk host i entries first (r, t, w) s = put_handle i t w s

  abbrev pub batch_of :
      (app : WalApp S) (disk : Disk MemoryStore)
      → List Bytes
      → Lsn
      → Attempt app memory_store disk
      → Batches
  batch_of app disk entries first (some (ok true), t, w) = (first, entries) ∷ []
  batch_of app disk entries first (r, t, w) = []

  -- A refresh that fails leaves the core as it was.
  abbrev pub refreshed : ℕ → Result WalError (Refreshed × Core S) × MemoryStore → Fleet S → Fleet S
  refreshed i (ok (report, c), w) s = put_handle i (record (s.handle i) { core = c }) w s
  refreshed i (err e, w) s = record s { world = w }

module _ {S : Type 0} (app : WalApp S) (disk : Disk MemoryStore) (host : Host MemoryStore)
    (opts : Options) where
  pub data Step (s : Fleet S) : Fleet S → Type 0 where
    -- one attempt of `append`, `flush` or the compaction, with the entries that it carries
    attempting :
        (i : ℕ) (entries : List Bytes)
        → FoldFits (s.handle i).core.image (pending_fold (s.handle i).compaction)
        → s.world.next_etag + 1 < 2 ^ 64
        → Step s (
            settled app disk host i entries
              (next_lsn (s.handle i).core.image)
              (try_install app memory_store disk (s.handle i) entries s.world)
              s)
    refreshing :
        (i : ℕ) → Step s (refreshed i (refresh app memory_store disk (s.handle i).core s.world) s)
    -- the compaction, the garbage or the state of a handle
    maintaining :
        (i : ℕ) (t : WalTier S)
        → t.core.opts ≡ (s.handle i).core.opts
        → t.core.etag ≡ (s.handle i).core.etag
        → t.core.image ≡ (s.handle i).core.image
        → Step s (put_handle i t s.world s)
    -- snapshots that are published, read and deleted, and objects that have nothing to do with the log
    elsewhere :
        (w : MemoryStore)
        → lookup (wal_key opts) w.objects ≡ lookup (wal_key opts) s.world.objects
        → s.world.next_etag ≤ w.next_etag
        → IsFresh w
        → Step s (record s { world = w })

  pub data Run (s : Fleet S) : Fleet S → Type 0 where
    here : Run s s
    next : {r u : Fleet S} → Run s r → Step r u → Run s u

  abbrev pub batches_of : {s u : Fleet S} → Step s u → Batches
  batches_of {s} (Step.attempting i entries fits room) =
      batch_of app disk entries (next_lsn (s.handle i).core.image)
        (try_install app memory_store disk (s.handle i) entries s.world)
  batches_of _ = []

  abbrev pub acknowledged : {s u : Fleet S} → Run s u → Batches
  acknowledged Run.here = []
  acknowledged (Run.next run step) = acknowledged run ++ batches_of step
