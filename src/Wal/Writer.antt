-- ===== src/Wal/Writer.antt =====
-- `WalTier` of src/wal.rs: its state, the pending fold, the queue of obsolete snapshots, and one CAS
-- attempt. A result `none` stands for a panic of the source.
pub mod Append
pub mod Maintenance
pub mod Folds
pub mod Lifecycle
pub mod Closing
pub mod Garbage
pub mod Keeps
use waltier.Base.{
  ℕ, ◌+◌, ◌-◌, ◌≡◌, Bool, true, false, not, ◌&&◌, ◌||◌, Option, none, some, List, [], ◌∷◌, ◌++◌,
  length, drop, ltb, leb, ◌==◌, if◌then◌else◌, Result, ok, err,
}
use waltier.Base.Words.{wrapping_add, wrapping_sub, saturating_add}
use waltier.Base.Bytes.{Bytes}
use waltier.Base.Text.{Str, text, str_eq}
use waltier.Error.{StoreError, MutationOutcome, WalError}
use waltier.Image.{Lsn, SnapshotRef, WalImage, first_lsn, next_lsn}
use waltier.Image.Encode.{encode_view}
use waltier.Store.{CondPut, ObjectStore}
use waltier.App.{WalApp}
use waltier.Cache.Files.{Disk}
use waltier.Cache
use waltier.Wal.{
  Options, Core, Fold, applies_to, Compaction, limits, wal_key, Refreshed, record_image_put,
}
use waltier.Wal.Refresh.{refresh}

pub record WalTier (S : Type 0) : Type 0 where
  pub core : Core S
  pub compaction : Compaction
  pub garbage : List Str
  pub garbage_overflowed : ℕ
  pub garbage_error : Option Str

-- An error before or during a CAS; only the PUT itself may leave its outcome unknown.
pub record InstallError : Type 0 where
  pub source : WalError
  pub outcome : MutationOutcome

unfoldable pub from_wal_error : WalError → InstallError
from_wal_error e = record { source = e; outcome = MutationOutcome.not_applied }

abbrev pub contains : Str → List Str → Bool
contains key [] = false
contains key (k ∷ ks) = str_eq k key || contains key ks

abbrev pub pending_fold : Compaction → Option Fold
pending_fold (Compaction.ready f) = some f
pending_fold _ = none

abbrev pub references : WalImage → Str → Bool
references image key = elim image.snapshot [ none ↦ false | some s ↦ str_eq s.key key ]

module _ {S : Type 0} where
  unfoldable pub queue_obsolete : WalTier S → Str → WalTier S
  queue_obsolete t key =
      if contains key t.garbage
      then t
      else if length t.garbage == t.core.opts.max_pending_deletes
      then record t { garbage_overflowed = saturating_add t.garbage_overflowed 1 }
      else record t { garbage = t.garbage ++ key ∷ [] }

  unfoldable pub queue_superseded : WalTier S → Option SnapshotRef → WalTier S
  unfolding queue_obsolete
  queue_superseded t none = t
  queue_superseded t (some sr) = queue_obsolete t sr.key

  abbrev set_image : WalTier S → WalImage → WalTier S
  set_image t image = record t { core = record (t.core) { image = image } }

  -- The bytes of the next PUT: the pending fold applied, if there is one, and `extra` appended.
  unfoldable pub candidate : WalTier S → List Bytes → Result WalError Bytes
  candidate t extra = elim (pending_fold t.compaction) [
    | none ↦ encode_view t.core.image none 0 extra (limits t.core.opts)
    | some f ↦
        encode_view t.core.image (some (record { key = f.key; lsn = f.lsn }))
          (wrapping_sub (wrapping_add f.lsn 1) (first_lsn t.core.image)) extra (limits t.core.opts)
  ]

module _ {S W : Type 0} (app : WalApp S) (store : ObjectStore W) (disk : Disk W) where
  -- Drop a fold that the image has moved past; our own, if the image references its key.
  unfoldable pub discard_fold : WalTier S → Fold → W → WalTier S × W
  unfolding applies_to queue_obsolete
  discard_fold t f w =
      if applies_to f t.core.image
      then (t, w)
      else if references t.core.image f.key
      then (record t { compaction = Compaction.installed }, w)
      else (
        queue_obsolete (record t { compaction = Compaction.superseded }) f.key,
        Cache.remove_snapshot disk t.core.cache f.key w,
      )

  unfoldable pub discard_superseded_fold : WalTier S → W → WalTier S × W
  unfolding discard_fold
  discard_superseded_fold t w = elim (pending_fold t.compaction) [
    | none ↦ (t, w)
    | some f ↦ discard_fold t f w
  ]

  -- The reference that the fold replaces, dropped from the cache and queued for deletion.
  unfoldable pub retire : WalTier S → Option SnapshotRef → Str → W → WalTier S × W
  unfolding queue_obsolete
  retire t none key w = (t, w)
  retire t (some old) key w =
      if str_eq old.key key
      then (t, w)
      else (queue_obsolete t old.key, Cache.remove_snapshot disk t.core.cache old.key w)

  unfoldable pub install_fold : WalTier S → Fold → W → WalTier S × W
  unfolding retire
  install_fold t f w =
      let image = t.core.image in
      let folded : WalImage = record {
        snapshot = some (record { key = f.key; lsn = f.lsn });
        entries = drop (wrapping_sub f.lsn (first_lsn image) + 1) image.entries;
      } in
      retire (record (set_image t folded) { compaction = Compaction.installed }) image.snapshot
        f.key w

  unfoldable pub install_pending_fold : WalTier S → W → WalTier S × W
  unfolding install_fold
  install_pending_fold t w = elim (pending_fold t.compaction) [
    | none ↦ (t, w)
    | some f ↦ install_fold t f w
  ]

  abbrev pub Attempt : Type 0
  Attempt = Option (Result InstallError Bool) × WalTier S × W

  -- A lost CAS: the state is refreshed and the pending fold checked again.
  unfoldable pub lost_install : WalTier S → W → Attempt
  unfolding from_wal_error discard_superseded_fold queue_superseded
  lost_install t w =
      let (refreshed, w1) = refresh app store disk t.core w in
      elim refreshed [
        | err e ↦ (some (err (from_wal_error e)), t, w1)
        | ok (report, core) ↦
            let (t2, w2) = discard_superseded_fold (record t { core = core }) w1 in
            (some (ok false), queue_superseded t2 report.superseded, w2)
      ]

  unfoldable pub put_answered : WalTier S → Bytes → Result StoreError CondPut → W → Attempt
  unfolding lost_install install_pending_fold
  put_answered t body (err e) w =
      (some (err (record { source = WalError.store e; outcome = e.mutation_outcome })), t, w)
  put_answered t body (ok (CondPut.accepted etag)) w =
      let (core, w1) = record_image_put store disk t.core etag body w in
      let (t2, w2) = install_pending_fold (record t { core = core }) w1 in (some (ok true), t2, w2)
  put_answered t body (ok CondPut.precondition_failed) w = lost_install t w

  unfoldable pub try_install : WalTier S → List Bytes → W → Attempt
  unfolding candidate put_answered
  try_install t extra w = elim (candidate t extra) [
    | err e ↦ (some (err (from_wal_error e)), t, w)
    | ok body ↦ elim t.core.etag [
      | none ↦ (none, t, w)
      | some etag ↦
          let (put, w') = store.put_if_match (wal_key t.core.opts) (some etag) body w in
          put_answered t body put w'
    ]
  ]
