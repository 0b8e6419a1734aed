-- ===== src/Tests/Logs.antt =====
-- The log of src/wal.rs: an application that collects its entries, over a store in memory and a disk
-- that keeps nothing, and the theorems on refreshes, attempts and appends at it.
use waltier.Base.{
  ◌≡◌, refl, sym, ap, Bool, true, false, Option, none, some, List, [], ◌∷◌, ◌++◌, Result, ok, err,
  arith,
}
use waltier.Base.Bytes.{Bytes}
use waltier.Base.Text.{Str, text, is_utf8, str_eq, from_utf8, decimal}
use waltier.Base.Assoc.{lookup}
use waltier.Error.{StoreError, WalError}
use waltier.Image.{
  SnapshotRef, WalImage, IsValid, check_limit, check_lsn, first_lsn, next_lsn, numbered,
  entries_from,
}
use waltier.Image.Encode.{
  live_count, snapshot_size, entries_size, put_snapshot, put_entries, put_image, encode_view,
}
use waltier.Image.Reader.{advance as reader_advance, read, read_u8, read_u32, read_u64}
use waltier.Image.Decode.{read_reference, read_snapshot, read_entries, decode}
use waltier.Store.{Stored, CondGet, cas_matches, ObjectStore}
use waltier.Store.Memory
use waltier.Store.Memory.{MemoryStore, memory_store, etag_of, fresh_etag}
use waltier.App.{WalApp, ReconcileBatch}
use waltier.Cache
use waltier.Cache.Files.{Disk}
use waltier.Wal.{
  Fold, default_options, Core, applies_to, Compaction, limits, done, Refreshed, record_image_put,
  apply_all,
}
use waltier.Wal.Refresh.{superseded_ref, adopt, advance}
use waltier.Wal.Refresh.History.{replay, Represents, Follows, Restores, Synced, advance-Synced}
use waltier.Wal.Compactor.{Host}
use waltier.Wal.Writer.{
  contains, install_pending_fold, discard_superseded_fold, WalTier, InstallError, pending_fold,
  candidate, put_answered, try_install,
}
use waltier.Wal.Writer.Folds.{FoldFits, CasWon, try_install-CasWon}
use waltier.Wal.Writer.Garbage.{IsSafe, folds-IsSafe}
use waltier.Wal.Writer.Append.{commit}
use waltier.Wal.Writer.Append.Committed.{commit-Represents}

abbrev pub collect : WalApp (List Bytes)
collect = record {
  init = [];
  apply = λ state lsn entry. state ++ entry ∷ [];
  restore = λ bytes. ok (bytes ∷ []);
  compact = λ base entries. ok [];
  should_compact = λ stats. false;
  reconcile_batch = λ state entries. ReconcileBatch.retry;
}

abbrev pub no_disk : Disk MemoryStore
no_disk = record {
  create_dir_all = λ d w. (true, w);
  read_file = λ p w. none;
  write_atomic = λ p b w. (true, w);
  remove_file = λ p w. (true, w);
  read_dir = λ p w. none;
}

abbrev pub host : Host MemoryStore
host = record { random_bytes = λ w. (ok (1 ∷ []), w); spawn = λ w. (ok tt, w) }

abbrev pub a : Bytes
a = b'a' ∷ []

abbrev pub b : Bytes
b = b'b' ∷ []

abbrev pub two : WalImage
two = record { snapshot = none; entries = a ∷ b ∷ [] }

two-IsValid : IsValid two
unfolding check_lsn
two-IsValid = record { reference = tt; fits = (2, refl) }

pub two-Represents : Represents (a ∷ b ∷ []) two
unfolding first_lsn
two-Represents = record { valid = two-IsValid; starts = omega arith; live = refl }

abbrev pub core_of : Option Str → List Bytes → WalImage → Core (List Bytes)
core_of etag state image = record {
  opts = default_options;
  cache = record { dir = []; identity = none };
  state = state;
  image = image;
  etag = etag;
  image_len = 9;
  cache_dirty = false;
}

-- The handle has two entries and a fold of the first is ready; the store holds its version.
abbrev pub writer : WalTier (List Bytes)
writer = record {
  core = core_of (some (etag_of 0)) (a ∷ b ∷ []) two;
  compaction = Compaction.ready (record { key = b's' ∷ []; lsn = 0 });
  garbage = [];
  garbage_overflowed = 0;
  garbage_error = none;
}

abbrev pub world : MemoryStore
world = record {
  objects = (b'w' ∷ b'a' ∷ b'l' ∷ [], record { body = []; etag = etag_of 0 }) ∷ [];
  next_etag = 1;
  namespace = none;
}

try_install_run :
    (try_install collect memory_store no_disk writer (a ∷ []) world).0 ≡ some (ok true)
unfolding first_lsn text try_install candidate encode_view live_count check_limit check_lsn
    snapshot_size entries_size put_image put_snapshot put_entries put_answered memory_store
    Memory.put_if_match cas_matches lookup str_eq decimal
try_install_run = refl

abbrev attempt : Option (Result InstallError Bool) × WalTier (List Bytes) × MemoryStore
attempt = try_install collect memory_store no_disk writer (a ∷ []) world

attempt_eq :
    try_install collect memory_store no_disk writer (a ∷ []) world
    ≡ (some (ok true), attempt.1, attempt.2)
attempt_eq = ap (λ o. (o, attempt.1, attempt.2)) try_install_run

pub writer-FoldFits : FoldFits two (pending_fold writer.compaction)
unfolding applies_to is_utf8 first_lsn next_lsn
writer-FoldFits = record { applies = refl; utf8 = refl }

try_install-CasWon_example : CasWon collect memory_store no_disk writer attempt.1 (a ∷ []) world
try_install-CasWon_example =
    try_install-CasWon collect memory_store no_disk writer attempt.1 (a ∷ []) world attempt.2
      two-IsValid writer-FoldFits attempt_eq

commit-Represents_example :
    let now = (commit collect memory_store no_disk host attempt.1 (next_lsn two) (a ∷ [])).core in
    Represents (a ∷ b ∷ a ∷ []) now.image
    × (now.state ≡ replay collect (a ∷ b ∷ a ∷ []))
    × (next_lsn two ≡ 2)
unfolding replay
commit-Represents_example =
    commit-Represents collect memory_store no_disk host (a ∷ b ∷ []) (a ∷ []) writer attempt.1 world
      attempt.2 two-Represents refl writer-FoldFits (omega arith) attempt_eq

-- A store that serves one version of the log, of two entries, whatever its state.
abbrev pub version : Stored
version = record {
  body =
      0x57 ∷ 0x54 ∷ 0x4c ∷ 0x31 ∷ 0 ∷ 2 ∷ 0 ∷ 0 ∷ 0 ∷ 1 ∷ 0 ∷ 0 ∷ 0 ∷ b'a' ∷ 1 ∷ 0 ∷ 0 ∷ 0 ∷ b'b'
      ∷ [];
  etag = etag_of 1;
}

abbrev serving : ObjectStore MemoryStore
serving = record memory_store { get_if_changed = λ key etag w. (ok (CondGet.changed version), w) }

-- A reader that has the first entry.
abbrev behind : Core (List Bytes)
behind = core_of (some (etag_of 0)) (a ∷ []) (record { snapshot = none; entries = a ∷ [] })

behind-Follows : Follows collect serving no_disk (a ∷ b ∷ []) behind
unfolding replay next_lsn first_lsn
behind-Follows = record { state = refl }

pub version_run : decode version.body (limits default_options) ≡ ok two
unfolding decode check_limit check_lsn read reader_advance read_snapshot read_u8 read_reference
    read_u64 read_u32 from_utf8 read_entries str_eq
version_run = refl

two-Restores : (w : MemoryStore) → Restores collect serving no_disk (a ∷ b ∷ []) behind two w
two-Restores w sr bytes base w' is fetched restored = cc

abbrev stored_of : Result StoreError CondGet → Stored
stored_of (ok (CondGet.changed s)) = s
stored_of _ = version

abbrev image_of : Result WalError WalImage → WalImage
image_of (ok i) = i
image_of (err e) = two

-- What the reader becomes.
abbrev caught_up : Core (List Bytes)
caught_up = record (core_of (some (etag_of 1)) (a ∷ b ∷ []) two) { image_len = 19 }

abbrev pub moved : Refreshed
moved = record { changed = true; superseded = none }

advance_run :
    advance collect serving no_disk behind two version none world
    ≡ (done (ok (moved, caught_up)), world)
unfolding advance adopt record_image_put first_lsn next_lsn entries_from apply_all numbered
    superseded_ref Cache.enabled
advance_run = refl

advance-Synced_example : Synced collect (a ∷ b ∷ []) two version caught_up × (moved.changed ≡ true)
advance-Synced_example =
    advance-Synced collect serving no_disk (a ∷ b ∷ []) behind caught_up two version none world
      world moved two-Represents behind-Follows (two-Restores world) advance_run

-- The log references a snapshot, a second one is ready, and a third is queued.
abbrev busy : WalTier (List Bytes)
busy = record writer {
  core =
      core_of (some (etag_of 0)) (a ∷ b ∷ [])
        (record { snapshot = some (record { key = b'o' ∷ []; lsn = 7 }); entries = a ∷ b ∷ [] });
  compaction = Compaction.ready (record { key = b's' ∷ []; lsn = 8 });
  garbage = (b'q' ∷ []) ∷ [];
}

abbrev ref_key : Option SnapshotRef → Str
ref_key none = []
ref_key (some s) = s.key

abbrev fold_key : Option Fold → Str
fold_key none = []
fold_key (some f) = f.key

busy-IsSafe : IsSafe busy
unfolding str_eq
busy-IsSafe = record {
  live = λ s e. ap (λ o. contains (ref_key o) busy.garbage) (sym e);
  ready = λ f e. ap (λ o. contains (fold_key o) busy.garbage) (sym e);
  bounded = omega arith;
}

folds-IsSafe_example :
    IsSafe (install_pending_fold collect memory_store no_disk busy world).0
    × IsSafe (discard_superseded_fold collect memory_store no_disk busy world).0
folds-IsSafe_example = folds-IsSafe collect memory_store no_disk busy world busy-IsSafe
