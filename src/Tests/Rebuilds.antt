-- ===== src/Tests/Rebuilds.antt =====
-- A refresh of src/wal.rs that rebuilds: a reader that has nothing yet, a log in a MemoryStore whose first entry is folded
-- into a snapshot, and that snapshot.
use waltier.Base.{
  ◌≡◌, refl, sym, ap, ◌∙◌, Option, none, some, List, [], ◌∷◌, take, Result, ok, err, arith,
}
use waltier.Base.Bytes.{Bytes}
use waltier.Base.Text.{Str, text, str_eq, is_utf8, from_utf8}
use waltier.Base.Assoc.{lookup, insert, remove}
use waltier.Error.{WalError}
use waltier.Image.{
  SnapshotRef, WalImage, check_limit, check_lsn, first_lsn, next_lsn, numbered, entries_from,
}
use waltier.Image.Reader.{advance as reader_advance, read, read_u8, read_u32, read_u64}
use waltier.Image.Decode.{read_reference, read_snapshot, read_entries, decode}
use waltier.Store.{compare_etag, default_get_if_changed}
use waltier.Store.Memory
use waltier.Store.Memory.{MemoryStore, memory_store, etag_of}
use waltier.Store.Memory.Versions.{stored_next}
use waltier.Cache
use waltier.Wal.{
  default_options, Core, limits, wal_key, fetch_snapshot, accept_snapshot, record_image_put, races,
  apply_all,
}
use waltier.Wal.Refresh
use waltier.Wal.Refresh.{superseded_ref, adopt, advance, rebuild, refresh_found, refresh_round}
use waltier.Wal.Refresh.History.{replay, Represents, Follows, Restores}
use waltier.Wal.Handles.Tracks.{IsLog, found_next}
use waltier.Wal.Handles.Refreshes.{Current, refresh-Current}
use waltier.Tests.Logs.{collect, no_disk, a, b, core_of, moved}
use waltier.Tests.Fleets.{no_disk-IsApart}

abbrev snap_key : Str
snap_key = b'k' ∷ []

abbrev body : Bytes
body =
    0x57 ∷ 0x54 ∷ 0x4c ∷ 0x31 ∷ 1 ∷ 0 ∷ 0 ∷ 0 ∷ 0 ∷ 0 ∷ 0 ∷ 0 ∷ 0 ∷ 1 ∷ 0 ∷ 0 ∷ 0 ∷ b'k' ∷ 1 ∷ 0 ∷ 0
    ∷ 0 ∷ 1 ∷ 0 ∷ 0 ∷ 0 ∷ b'b' ∷ []

abbrev folded : WalImage
folded = record { snapshot = some (record { key = snap_key; lsn = 0 }); entries = b ∷ [] }

abbrev snapshots : MemoryStore
snapshots = stored_next snap_key a (record { objects = []; next_etag = 0; namespace = none })

abbrev world : MemoryStore
world = stored_next (wal_key default_options) body snapshots

body_run : decode body (limits default_options) ≡ ok folded
unfolding decode check_limit check_lsn read reader_advance read_snapshot read_u8 read_reference
    read_u64 read_u32 from_utf8 read_entries str_eq is_utf8
body_run = refl

folded-Represents : Represents (a ∷ b ∷ []) folded
unfolding first_lsn check_lsn is_utf8
folded-Represents = record {
  valid = record { reference = (refl, omega arith); fits = (2, refl) };
  starts = omega arith;
  live = refl;
}

abbrev reader : Core (List Bytes)
reader = core_of none [] (record { snapshot = none; entries = [] })

abbrev logged : IsLog reader.opts (a ∷ b ∷ []) world
logged = record {
  object = record { body = body; etag = etag_of 1 };
  found = found_next (wal_key default_options) body snapshots;
  image = folded;
  decodes = body_run;
  represents = folded-Represents;
}

reader-Follows : Follows collect memory_store no_disk (a ∷ b ∷ []) reader
unfolding replay next_lsn first_lsn
reader-Follows = record { state = refl }

fetch_run :
    fetch_snapshot memory_store no_disk reader.cache snap_key reader.opts.max_snapshot_bytes world
    ≡ (ok (some a), world)
unfolding fetch_snapshot accept_snapshot Cache.load_snapshot Cache.load Cache.save_snapshot
    Cache.save memory_store Memory.get lookup insert remove str_eq text check_limit
fetch_run = refl

first_replay : replay collect (take 1 (a ∷ b ∷ [])) ≡ a ∷ []
unfolding replay
first_replay = refl

first_run : first_lsn folded ≡ 1
unfolding first_lsn
first_run = refl

reader-Restores : Restores collect memory_store no_disk (a ∷ b ∷ []) reader folded world
reader-Restores sr bytes base w' is fetched restored =
    let key : snap_key ≡ sr.key = ap key_of is in
    let same : a ≡ bytes = ap fetched_or (
      sym fetch_run
      ∙ ap
          (λ k.
            fetch_snapshot memory_store no_disk reader.cache k reader.opts.max_snapshot_bytes world)
          key
      ∙ fetched) in
    let state : bytes ∷ [] ≡ base = ap state_or restored in
    sym state
    ∙ ap (λ s. s ∷ []) (sym same)
    ∙ sym first_replay
    ∙ ap (λ n. replay collect (take n (a ∷ b ∷ []))) (sym first_run)
  where
    key_of : Option SnapshotRef → Str
    key_of none = []
    key_of (some s) = s.key

    fetched_or : Result WalError (Option Bytes) × MemoryStore → Bytes
    fetched_or (ok (some x), w) = x
    fetched_or _ = []

    state_or : Result WalError (List Bytes) → List Bytes
    state_or (ok s) = s
    state_or (err e) = []

abbrev rebuilt : Core (List Bytes)
rebuilt = record (core_of (some (etag_of 1)) (a ∷ b ∷ []) folded) { image_len = 27 }

refresh_run :
    Refresh.refresh collect memory_store no_disk reader world ≡ (ok (moved, rebuilt), world)
unfolding Refresh.refresh races refresh_round refresh_found memory_store Memory.get
    default_get_if_changed compare_etag advance rebuild adopt record_image_put first_lsn next_lsn
    entries_from apply_all numbered superseded_ref Cache.enabled fetch_snapshot accept_snapshot
    Cache.load_snapshot Cache.load Cache.save_snapshot Cache.save lookup insert remove str_eq text
    check_limit decode check_lsn read reader_advance read_snapshot read_u8 read_reference read_u64
    read_u32 from_utf8 read_entries is_utf8
refresh_run = refl

refresh-Current_example : Current collect no_disk reader logged (moved, rebuilt)
refresh-Current_example =
    refresh-Current collect no_disk reader logged rebuilt world moved no_disk-IsApart reader-Follows
      reader-Restores refresh_run
