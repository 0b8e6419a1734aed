-- ===== src/Wal.antt =====
-- src/wal.rs: the parts that the writer and the replica share: the options, the maintenance states,
-- the fetch of a snapshot, and the core state. The children hold the operations.
pub mod Opening
pub mod Refresh
pub mod Compactor
pub mod Writer
pub mod Replica
pub mod Handles
use waltier.Base.{
  ℕ, zero, suc, ◌+◌, ◌≡◌, ◌≤◌, ◌<◌, Bool, true, false, not, ◌&&◌, ◌||◌, Option, none, some, is_some,
  List, [], ◌∷◌, ◌++◌, length, ltb, leb, ◌==◌, if◌then◌else◌, Result, ok, err, min,
}
use waltier.Base.Words.{u32_max, isize_max}
use waltier.Base.Bytes.{Bytes}
use waltier.Base.Text.{Str, text, str_eq}
use waltier.Error.{StoreError, StoreOperation, WalError, corrupt, contention, invalid_options}
use waltier.Error.StoreErrors
use waltier.Image.{
  Lsn, ImageLimits, SnapshotRef, WalImage, check_limit, first_lsn, next_lsn, tip, entry_bytes,
}
use waltier.Store.{Stored, ObjectStore}
use waltier.Image.Encode.{encode}
use waltier.App.{Entry, WalStats, WalApp}
use waltier.Cache.Files.{Disk}
use waltier.Cache
use waltier.Cache.{Cache}

abbrev pub max_races : ℕ
max_races = 8

pub data CachePolicy : Type 0 where
  disabled every_commit on_flush : CachePolicy

abbrev pub is_every_commit : CachePolicy → Bool
is_every_commit CachePolicy.every_commit = true
is_every_commit _ = false

abbrev pub is_on_flush : CachePolicy → Bool
is_on_flush CachePolicy.on_flush = true
is_on_flush _ = false

abbrev pub is_disabled : CachePolicy → Bool
is_disabled CachePolicy.disabled = true
is_disabled _ = false

pub record Options : Type 0 where
  pub cache_dir : Str
  pub cache_policy : CachePolicy
  pub max_pending_deletes : ℕ
  pub prefix : Str
  pub max_write_attempts : ℕ
  pub max_image_bytes : ℕ
  pub max_live_entries : ℕ
  pub max_snapshot_bytes : ℕ

abbrev pub default_options : Options
default_options = record {
  cache_dir = [];
  cache_policy = CachePolicy.disabled;
  max_pending_deletes = 128;
  prefix = [];
  max_write_attempts = 8;
  max_image_bytes = 67_108_864;
  max_live_entries = 1_000_000;
  max_snapshot_bytes = 268_435_456;
}

unfoldable pub with_cache_dir : Str → Options
with_cache_dir dir = record default_options {
  cache_dir = dir;
  cache_policy = CachePolicy.every_commit;
}

abbrev pub limits : Options → ImageLimits
limits opts = record { bytes = opts.max_image_bytes; entries = opts.max_live_entries }

abbrev pub wal_key : Options → Str
wal_key opts = opts.prefix ++ text "wal"

-- The budgets capped to what the store can hold.
unfoldable pub capped : Options → Option ℕ → Options
capped opts none = opts
capped opts (some limit) = record opts {
  max_image_bytes = min opts.max_image_bytes limit;
  max_snapshot_bytes = min opts.max_snapshot_bytes limit;
}

abbrev pub has_bad_budget : Options → Bool
has_bad_budget o =
    o.max_write_attempts == 0
    || (ltb o.max_image_bytes 9
        || (o.max_live_entries == 0
            || (ltb u32_max o.max_live_entries
                || (o.max_snapshot_bytes == 0
                    || (ltb isize_max o.max_image_bytes || ltb isize_max o.max_snapshot_bytes)))))

unfoldable pub validate : Options → Option ℕ → Result WalError Options
unfolding capped
validate opts store_limit =
    let o = capped opts store_limit in
    if has_bad_budget o
    then err (
        invalid_options (
          text
            "positive retry/count/snapshot budgets and an image budget of at least 9 bytes are required; counts must fit u32 and byte budgets must fit isize"))
    else ok o

-- A completed compaction that waits for the writer's next PUT.
pub record Fold : Type 0 where
  pub key : Str
  pub lsn : Lsn

unfoldable pub applies_to : Fold → WalImage → Bool
applies_to f image = leb (first_lsn image) f.lsn && ltb f.lsn (next_lsn image)

pub data CompactOutcome : Type 0 where
  done : Fold → CompactOutcome
  failed : Str → CompactOutcome

-- What the compactor thread was started with, what its channel holds, and whether it will have
-- panicked when it is joined.
pub record CompactionJob : Type 0 where
  pub base_key : Option Str
  pub entries : List Entry
  pub snap_prefix : Str
  pub max_snapshot_bytes : ℕ

pub data Channel : Type 0 where
  empty disconnected : Channel
  sent : CompactOutcome → Channel

pub record CompactionTask : Type 0 where
  pub job : CompactionJob
  pub rx : Channel
  pub panicked : Bool

pub data Compaction : Type 0 where
  idle : Compaction
  running : CompactionTask → Compaction
  ready : Fold → Compaction
  installed superseded : Compaction
  failed : Str → Compaction

pub data CompactionStatus : Type 0 where
  idle running ready installed superseded : CompactionStatus

-- What a refresh did: whether the image advanced, and the reference that it stopped pointing at.
pub record Refreshed : Type 0 where
  pub changed : Bool
  pub superseded : Option SnapshotRef

-- The state that the writer and the replica share. The application, the store and the disk are
-- parameters of the operations.
pub record Core (S : Type 0) : Type 0 where
  pub opts : Options
  pub cache : Cache
  pub state : S
  pub image : WalImage
  pub etag : Option Str
  pub image_len : ℕ
  pub cache_dirty : Bool

-- The versions of the log at which a snapshot was found missing: its validator and the key.
abbrev pub Missing : Type 0
Missing = Option (Str × Str)

abbrev same_missing : Missing → Str → Str → Bool
same_missing none etag key = false
same_missing (some (old_etag, old_key)) etag key = str_eq old_etag etag && str_eq old_key key

unfoldable pub record_missing_snapshot : Missing → Str → Str → Result WalError Missing
record_missing_snapshot previous etag key =
    if same_missing previous etag key
    then err (corrupt (text "WAL references missing snapshot " ++ key))
    else ok (some (etag, key))

abbrev pub lift_store {ℓ} : {A : Type ℓ} → Result StoreError A → Result WalError A
lift_store (ok a) = ok a
lift_store (err e) = err (WalError.store e)

unfoldable pub stats_of : {S : Type 0} → Core S → WalStats
stats_of c = record {
  tip = tip c.image;
  snapshot_lsn = elim c.image.snapshot [ none ↦ none | some s ↦ some s.lsn ];
  live_entries = length c.image.entries;
  live_entry_bytes = entry_bytes c.image;
  image_bytes = c.image_len;
}

-- One round of a loop over `MAX_RACES`: it returns, or it continues.
pub data Step (A : Type 0) : Type 0 where
  done : Result WalError A → Step A
  again : Missing → Step A

abbrev pub continue_with :
    {W A : Type 0} → (Missing → W → Result WalError A × W) → Step A → W → Result WalError A × W
continue_with next (done r) w = (r, w)
continue_with next (again m) w = next m w

-- The loop itself: `rounds` rounds, then an error that names the operation.
unfoldable pub races :
    {W A : Type 0} → ℕ → Str → (Missing → W → Step A × W) → Missing → W → Result WalError A × W
races zero operation round missing w = (err (contention operation max_races), w)
races (suc rounds) operation round missing w =
    let (step, w') = round missing w in continue_with (races rounds operation round) step w'

-- A missing snapshot: an error if it is the second sight of the same version, else another round.
unfoldable pub retry_missing : {A : Type 0} → Missing → Str → Str → Step A
unfolding record_missing_snapshot
retry_missing missing etag key = elim (record_missing_snapshot missing etag key) [
  | err e ↦ done (err e)
  | ok m ↦ again m
]

abbrev pub snapshot_key : WalImage → Option Str
snapshot_key image = elim image.snapshot [ none ↦ none | some s ↦ some s.key ]

-- `for (lsn, entry) in …: app.apply(&mut state, lsn, entry)`
unfoldable pub apply_all : {S : Type 0} → WalApp S → S → List (Lsn × Bytes) → S
apply_all app state [] = state
apply_all app state ((lsn, entry) ∷ rest) = apply_all app (app.apply state lsn entry) rest

-- A GET that answers NotModified although it named no validator.
abbrev pub unconditional_not_modified : Str → WalError
unconditional_not_modified key = WalError.store (
    StoreErrors.not_applied (
      StoreErrors.with_context (StoreErrors.new (text "unconditional GET returned NotModified"))
        StoreOperation.get key none))

module _ {W : Type 0} (store : ObjectStore W) (disk : Disk W) where
  -- What the store answered for a snapshot: the bytes within the limit are cached.
  unfoldable pub accept_snapshot :
      Cache → Str → ℕ → Result StoreError (Option Stored) → W → Result WalError (Option Bytes) × W
  accept_snapshot cache key max_bytes (err e) w = (err (WalError.store e), w)
  accept_snapshot cache key max_bytes (ok none) w = (ok none, w)
  accept_snapshot cache key max_bytes (ok (some s)) w =
      elim (check_limit (text "snapshot bytes") (length s.body) max_bytes) [
        | err e ↦ (err e, w)
        | ok _ ↦ (ok (some s.body), Cache.save_snapshot disk cache key s.body w)
      ]

  unfoldable pub fetch_snapshot : Cache → Str → ℕ → W → Result WalError (Option Bytes) × W
  unfolding accept_snapshot
  fetch_snapshot cache key max_bytes w = elim (Cache.load_snapshot disk cache key max_bytes w) [
    | some bytes ↦ elim (check_limit (text "snapshot bytes") (length bytes) max_bytes) [
      | err e ↦ (err e, w)
      | ok _ ↦ (ok (some bytes), w)
    ]
    | none ↦ let (found, w') = store.get key w in accept_snapshot cache key max_bytes found w'
  ]

  -- The one place where an accepted image version is recorded.
  unfoldable pub record_image_put : {S : Type 0} → Core S → Str → Bytes → W → Core S × W
  record_image_put c etag body w = (
    record c {
      etag = some etag;
      image_len = length body;
      cache_dirty = is_on_flush c.opts.cache_policy && Cache.enabled c.cache;
    },
    if is_every_commit c.opts.cache_policy then Cache.save_wal disk c.cache etag body w else w,
  )

  unfoldable pub checkpoint_cache : {S : Type 0} → Core S → W → Core S × W
  checkpoint_cache c w = if not c.cache_dirty then (c, w) else elim c.etag [
    | none ↦ (c, w)
    | some etag ↦ elim (encode c.image (limits c.opts)) [
      | err _ ↦ (c, w)
      | ok body ↦ (record c { cache_dirty = false }, Cache.save_wal disk c.cache etag body w)
    ]
  ]
