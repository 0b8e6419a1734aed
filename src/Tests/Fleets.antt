-- ===== src/Tests/Fleets.antt =====
-- Two handles of src/wal.rs on one log: the first wins an attempt with a fold, and the second refreshes.
use waltier.Base.{◌≡◌, refl, sym, ap, true, Option, none, some, List, [], ◌∷◌, ◌++◌, ok, arith}
use waltier.Base.Bytes.{Bytes}
use waltier.Base.Text.{Str, text, str_eq, decimal}
use waltier.Base.Assoc.{lookup, insert, remove}
use waltier.Store.{cas_matches}
use waltier.Store.Memory
use waltier.Store.Memory.{MemoryStore, memory_store, etag_of}
use waltier.Store.Memory.Versions.{IsFresh, stored_next, stored_next-IsFresh}
use waltier.Wal.{default_options, wal_key}
use waltier.Wal.Refresh.{refresh}
use waltier.Image.{next_lsn, first_lsn, check_limit, check_lsn}
use waltier.Image.Encode.{
  live_count, snapshot_size, entries_size, put_snapshot, put_entries, put_image, encode_view,
}
use waltier.Wal.Writer.{Attempt, candidate, put_answered, try_install}
use waltier.Wal.Handles.Apart.{IsApart}
use waltier.Wal.Handles.Tracks.{IsLog, Tracks, found_next}
use waltier.Wal.Handles.Appending.{Appends, try_install-Appends}
use waltier.Wal.Handles.Runs.{Fleet, settled, refreshed, entries_in, Step, Run, acknowledged}
use waltier.Wal.Handles.Linear.{IsLinear, Consecutive, Run-IsLinear}
use waltier.Tests.Logs.{
  collect, no_disk, host, a, b, two, version, version_run, two-Represents, writer, writer-FoldFits,
}

pub no_disk-IsApart : IsApart no_disk
no_disk-IsApart = record { writes = λ p x w. refl; removes = λ p w. refl }

abbrev empty : MemoryStore
empty = record { objects = []; next_etag = 0; namespace = none }

empty-IsFresh : IsFresh empty
unfolding IsFresh lookup
empty-IsFresh k o found = cc

abbrev shared : MemoryStore
shared = stored_next (wal_key default_options) version.body empty

shared-IsFresh : IsFresh shared
shared-IsFresh =
    stored_next-IsFresh (wal_key default_options) version.body empty (omega arith) empty-IsFresh

shared-IsLog : IsLog default_options (a ∷ b ∷ []) shared
shared-IsLog = record {
  object = record { body = version.body; etag = etag_of 0 };
  found = found_next (wal_key default_options) version.body empty;
  image = two;
  decodes = version_run;
  represents = two-Represents;
}

writer-Tracks : Tracks default_options (a ∷ b ∷ []) shared writer.core
writer-Tracks = record {
  options = refl;
  issued = λ e h. (0, omega arith, ap etag_or (sym h));
  current = λ o found h. two-Represents;
}
  where
    etag_or : Option Str → Str
    etag_or none = []
    etag_or (some e) = e

-- Every handle has read the log.
abbrev fleet : Fleet (List Bytes)
fleet = record { world = shared; handle = λ i. writer }

abbrev attempt : Attempt collect memory_store no_disk
attempt = try_install collect memory_store no_disk writer (a ∷ []) shared

abbrev appended : Fleet (List Bytes)
appended = settled collect no_disk host 0 (a ∷ []) (next_lsn two) attempt fleet

abbrev caught_up : Fleet (List Bytes)
caught_up =
    refreshed 1 (refresh collect memory_store no_disk (appended.handle 1).core appended.world)
      appended

race : Run collect no_disk host default_options fleet caught_up
race =
    Run.next (Run.next Run.here (Step.attempting 0 (a ∷ []) writer-FoldFits (omega arith)))
      (Step.refreshing 1)

Run-IsLinear_example :
    IsLinear default_options
      ((a ∷ b ∷ []) ++ entries_in (acknowledged collect no_disk host default_options race))
      caught_up
    × Consecutive 2 (acknowledged collect no_disk host default_options race)
Run-IsLinear_example =
    Run-IsLinear collect no_disk host no_disk-IsApart default_options (a ∷ b ∷ []) race
      (record { log = shared-IsLog; fresh = shared-IsFresh; tracks = λ i. writer-Tracks })

attempt_run : attempt.0 ≡ some (ok true)
unfolding first_lsn text try_install candidate encode_view live_count check_limit check_lsn
    snapshot_size entries_size put_image put_snapshot put_entries put_answered memory_store
    Memory.put_if_match cas_matches lookup insert remove str_eq decimal
attempt_run = refl

try_install-Appends_example :
    Appends collect no_disk host default_options
      (a ∷ b ∷ [])
      (a ∷ [])
      shared
      attempt.2
      writer
      attempt.1
try_install-Appends_example =
    try_install-Appends collect no_disk host no_disk-IsApart default_options (a ∷ b ∷ []) (a ∷ [])
      shared attempt.2 writer attempt.1 shared-IsLog shared-IsFresh (omega arith) writer-Tracks
      writer-FoldFits (ap (λ o. (o, attempt.1, attempt.2)) attempt_run)
