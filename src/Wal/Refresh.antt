-- ===== src/Wal/Refresh.antt =====
-- `Core::refresh` of src/wal.rs.
pub mod History
pub mod Sound
pub mod Keeps
use waltier.Base.{
  ℕ, ◌+◌, ◌≡◌, Bool, true, false, not, Option, none, some, List, [], ◌∷◌, length, leb,
  if◌then◌else◌, Result, ok, err,
}
use waltier.Base.Words.{wrapping_add}
use waltier.Base.Bytes.{Bytes}
use waltier.Base.Text.{Str, text, str_eq}
use waltier.Error.{StoreError, WalError, corrupt}
use waltier.Image.{SnapshotRef, WalImage, first_lsn, next_lsn, entries_from}
use waltier.Image.Decode.{decode}
use waltier.Store.{Stored, CondGet, ObjectStore}
use waltier.App.{WalApp}
use waltier.Cache.Files.{Disk}
use waltier.Cache
use waltier.Wal.{
  Options, Core, Missing, Step, done, races, max_races, retry_missing, limits, wal_key, Refreshed,
  fetch_snapshot, record_image_put, apply_all, unconditional_not_modified,
}

-- The reference that the old image held and the new one does not.
unfoldable pub superseded_ref : Option SnapshotRef → Option SnapshotRef → Option SnapshotRef
superseded_ref none new = none
superseded_ref (some old) none = some old
superseded_ref (some old) (some new) = if str_eq new.key old.key then none else some old

module _ {S W : Type 0} (app : WalApp S) (store : ObjectStore W) (disk : Disk W) where
  abbrev pub Outcome : Type 0
  Outcome = Refreshed × Core S

  abbrev pub drop_cached : Core S → Option SnapshotRef → W → W
  drop_cached c none w = w
  drop_cached c (some old) w = Cache.remove_snapshot disk c.cache old.key w

  -- The new state is at hand: the image is replaced and its version recorded.
  unfoldable pub adopt : Core S → WalImage → Stored → S → W → Step Outcome × W
  unfolding superseded_ref
  adopt c remote stored state w =
      let superseded = superseded_ref c.image.snapshot remote.snapshot in
      let w' = drop_cached c superseded w in
      let (c', w'') =
        record_image_put store disk (record c { state = state; image = remote }) stored.etag
          stored.body w' in
      (done (ok (record { changed = true; superseded = superseded }, c')), w'')

  unfoldable pub rebuild :
      Core S
      → WalImage
      → Stored
      → SnapshotRef
      → Missing
      → Result WalError (Option Bytes)
      → W
      → Step Outcome × W
  unfolding adopt
  rebuild c remote stored sr missing (err e) w = (done (err e), w)
  rebuild c remote stored sr missing (ok none) w = (retry_missing missing stored.etag sr.key, w)
  rebuild c remote stored sr missing (ok (some bytes)) w = elim (app.restore bytes) [
    | err e ↦ (done (err e), w)
    | ok base ↦
        adopt c remote stored (apply_all app base (entries_from remote (wrapping_add sr.lsn 1))) w
  ]

  -- The entries that the state lacks are all live, or the state is rebuilt from the snapshot.
  unfoldable pub advance : Core S → WalImage → Stored → Missing → W → Step Outcome × W
  unfolding rebuild
  advance c remote stored missing w =
      let my_next = next_lsn c.image in
      if leb (first_lsn remote) my_next
      then adopt c remote stored (apply_all app c.state (entries_from remote my_next)) w
      else elim remote.snapshot [
        | none ↦ (done (err (corrupt (text "entries start past lsn 0 with no snapshot"))), w)
        | some sr ↦
            let (fetched, w') =
              fetch_snapshot store disk c.cache sr.key c.opts.max_snapshot_bytes w in
            rebuild c remote stored sr missing fetched w'
      ]

  abbrev pub unchanged : Core S → Outcome
  unchanged c = (record { changed = false; superseded = none }, c)

  unfoldable pub refresh_found :
      Core S → Option Str → Missing → Result StoreError CondGet → W → Step Outcome × W
  unfolding advance
  refresh_found c etag missing (err e) w = (done (err (WalError.store e)), w)
  refresh_found c (some _) missing (ok CondGet.not_modified) w = (done (ok (unchanged c)), w)
  refresh_found c none missing (ok CondGet.not_modified) w =
      (done (err (unconditional_not_modified (wal_key c.opts))), w)
  refresh_found c (some _) missing (ok CondGet.missing) w =
      (done (err (corrupt (text "wal object disappeared"))), w)
  refresh_found c none missing (ok CondGet.missing) w = (done (ok (unchanged c)), w)
  refresh_found c etag missing (ok (CondGet.changed s)) w = elim (decode s.body (limits c.opts)) [
    | err e ↦ (done (err e), w)
    | ok remote ↦ advance c remote s missing w
  ]

  unfoldable pub refresh_round : Core S → Missing → W → Step Outcome × W
  unfolding refresh_found
  refresh_round c missing w =
      let (got, w') = store.get_if_changed (wal_key c.opts) c.etag w in
      refresh_found c c.etag missing got w'

  -- On an error the core is as it was.
  unfoldable pub refresh : Core S → W → Result WalError Outcome × W
  unfolding refresh_round
  refresh c w = races max_races (text "refresh") (refresh_round c) none w
