-- ===== src/Wal/Opening.antt =====
-- `Core::open` of src/wal.rs.
use waltier.Base.{Bool, true, false, Option, none, some, if◌then◌else◌, Result, ok, err}
use waltier.Base.Bytes.{Bytes}
use waltier.Base.Text.{Str, text}
use waltier.Error.{StoreError, WalError}
use waltier.Image.{SnapshotRef, WalImage, empty, first_lsn, entries_from}
use waltier.Image.Encode.{encode}
use waltier.Image.Decode.{decode}
use waltier.Store.{Stored, CondGet, CondPut, ObjectStore}
use waltier.App.{WalApp}
use waltier.Cache.Files.{Disk}
use waltier.Cache
use waltier.Cache.{Cache}
use waltier.Wal.{
  Options, is_disabled, Core, Missing, Step, done, again, races, max_races, retry_missing, limits,
  wal_key, validate, fetch_snapshot, record_image_put, snapshot_key, apply_all,
  unconditional_not_modified,
}

module _ {S W : Type 0} (app : WalApp S) (store : ObjectStore W) (disk : Disk W) where
  unfoldable pub open_cache : Options → W → Cache × W
  open_cache opts w =
      if is_disabled opts.cache_policy
      then (Cache.disabled, w)
      else Cache.new disk opts.cache_dir (store.cache_namespace w) (wal_key opts) w

  -- A cached image that no longer decodes is not offered.
  abbrev decodable : Options → Option (Str × Bytes) → Option (Str × Bytes)
  decodable opts none = none
  decodable opts (some (etag, body)) = elim (decode body (limits opts)) [
    | ok _ ↦ some (etag, body)
    | err _ ↦ none
  ]

  unfoldable pub load_cached : Options → Cache → W → Option (Str × Bytes)
  load_cached opts cache w = decodable opts (Cache.load_wal disk cache opts.max_image_bytes w)

  -- The state is at hand: apply the entries, sweep the cache, record the version.
  unfoldable pub finish_open : Options → Cache → WalImage → Stored → S → W → Step (Core S) × W
  finish_open opts cache image stored base w =
      let state = apply_all app base (entries_from image (first_lsn image)) in
      let core : Core S = record {
        opts = opts;
        cache = cache;
        state = state;
        image = image;
        etag = none;
        image_len = 0;
        cache_dirty = false;
      } in
      let w' = Cache.retain_snapshot disk cache (snapshot_key image) w in
      let (core', w'') = record_image_put store disk core stored.etag stored.body w' in
      (done (ok core'), w'')

  unfoldable pub restore_open :
      Options
      → Cache
      → WalImage
      → Stored
      → SnapshotRef
      → Missing
      → Result WalError (Option Bytes)
      → W
      → Step (Core S) × W
  unfolding finish_open
  restore_open opts cache image stored sr missing (err e) w = (done (err e), w)
  restore_open opts cache image stored sr missing (ok none) w =
      (retry_missing missing stored.etag sr.key, w)
  restore_open opts cache image stored sr missing (ok (some bytes)) w = elim (app.restore bytes) [
    | err e ↦ (done (err e), w)
    | ok state ↦ finish_open opts cache image stored state w
  ]

  -- A version of the image is at hand: decode it and rebuild the state.
  unfoldable pub open_image : Options → Cache → Stored → Missing → W → Step (Core S) × W
  unfolding restore_open
  open_image opts cache stored missing w = elim (decode stored.body (limits opts)) [
    | err e ↦ (done (err e), w)
    | ok image ↦ elim image.snapshot [
      | none ↦ finish_open opts cache image stored app.init w
      | some sr ↦
          let (fetched, w') = fetch_snapshot store disk cache sr.key opts.max_snapshot_bytes w in
          restore_open opts cache image stored sr missing fetched w'
    ]
  ]

  -- The creation of a missing log.
  unfoldable pub create_wal : Options → Cache → Missing → W → Step (Core S) × W
  unfolding open_image
  create_wal opts cache missing w = elim (encode empty (limits opts)) [
    | err e ↦ (done (err e), w)
    | ok body ↦
        let (put, w') = store.put_if_match (wal_key opts) none body w in
        elim put [
          | err e ↦ (done (err (WalError.store e)), w')
          | ok (CondPut.accepted etag) ↦
              open_image opts cache (record { body = body; etag = etag }) missing w'
          | ok CondPut.precondition_failed ↦ (again missing, w')
        ]
  ]

  -- A replica that is opened before the log exists.
  unfoldable pub open_absent : Options → Cache → W → Step (Core S) × W
  open_absent opts cache w =
      let core : Core S = record {
        opts = opts;
        cache = cache;
        state = app.init;
        image = empty;
        etag = none;
        image_len = 0;
        cache_dirty = false;
      } in
      (done (ok core), Cache.retain_snapshot disk cache none w)

  abbrev cached_etag : Option (Str × Bytes) → Option Str
  cached_etag none = none
  cached_etag (some (etag, body)) = some etag

  unfoldable pub open_found :
      Options
      → Cache
      → Option (Str × Bytes)
      → Bool
      → Missing
      → Result StoreError CondGet
      → W
      → Step (Core S) × W
  unfolding create_wal open_absent
  open_found opts cache cached create missing (err e) w = (done (err (WalError.store e)), w)
  open_found opts cache none create missing (ok CondGet.not_modified) w =
      (done (err (unconditional_not_modified (wal_key opts))), w)
  open_found opts cache (some (etag, body)) create missing (ok CondGet.not_modified) w =
      open_image opts cache (record { body = body; etag = etag }) missing w
  open_found opts cache cached create missing (ok (CondGet.changed s)) w =
      open_image opts cache s missing w
  open_found opts cache cached true missing (ok CondGet.missing) w = create_wal opts cache missing w
  open_found opts cache cached false missing (ok CondGet.missing) w = open_absent opts cache w

  unfoldable pub open_round :
      Options → Cache → Option (Str × Bytes) → Bool → Missing → W → Step (Core S) × W
  unfolding open_found
  open_round opts cache cached create missing w =
      let (got, w') = store.get_if_changed (wal_key opts) (cached_etag cached) w in
      open_found opts cache cached create missing got w'

  unfoldable pub open_core : Options → Bool → W → Result WalError (Core S) × W
  unfolding open_round open_cache load_cached
  open_core opts create w = elim (validate opts (store.max_object_bytes w)) [
    | err e ↦ (err e, w)
    | ok valid ↦
        let (cache, w') = open_cache valid w in
        let cached = load_cached valid cache w' in
        races max_races (text "open") (open_round valid cache cached create) none w'
  ]
