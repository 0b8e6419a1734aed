-- ===== src/Wal/Compactor.antt =====
-- The compactor thread of src/wal.rs: `run_compaction` and `publish_snapshot`.
use waltier.Base.{
  ℕ, zero, suc, Option, none, some, or_else, List, [], ◌∷◌, ◌++◌, length, Result, ok, err,
}
use waltier.Base.Bytes.{Bytes}
use waltier.Base.Text.{Str, text}
use waltier.Error.{StoreError, StoreOperation, WalError, display}
use waltier.Error.StoreErrors
use waltier.Image.{Lsn, check_limit}
use waltier.Store.{CondPut, ObjectStore}
use waltier.App.{Entry, WalApp}
use waltier.Cache.Files.{Disk}
use waltier.Cache
use waltier.Cache.{Cache}
use waltier.Wal.{CompactOutcome, CompactionJob, max_races, fetch_snapshot}

-- What the standard library and the operating system give: sixteen random bytes, and a new thread.
pub record Host (W : Type 0) : Type 0 where
  pub random_bytes : W → Result Str Bytes × W
  pub spawn : W → Result Str (Unit {0}) × W

abbrev last_lsn : List Entry → Option Lsn
last_lsn [] = none
last_lsn (e ∷ []) = some e.lsn
last_lsn (e ∷ rest) = last_lsn rest

abbrev base_gone : Str → Str
base_gone key =
    text "base snapshot " ++ (key ++ text " is gone; refresh and explicitly restart compaction")

-- An upload that failed may have landed: the error names the key.
unfoldable pub upload_error : Str → StoreError → StoreError
upload_error key e = record e {
  message =
      text "snapshot upload "
      ++ (key ++ (text " failed (possible orphan retained): " ++ e.message));
  operation = or_else e.operation (some StoreOperation.put);
  key = or_else e.key (some key);
}

module _ {W : Type 0} (store : ObjectStore W) (host : Host W) where
  -- `unique_id` behind the prefix
  unfoldable pub next_key : Str → W → Result Str Str × W
  next_key snap_prefix w =
      let (got, w') = host.random_bytes w in
      elim got [ err m ↦ (err m, w') | ok bytes ↦ (ok (snap_prefix ++ Cache.hex bytes), w') ]

  unfoldable pub publish_loop : ℕ → Str → Bytes → W → Result StoreError Str × W
  unfolding next_key upload_error
  publish_loop zero snap_prefix snapshot w =
      (err (StoreErrors.new (text "snapshot key collision budget exhausted")), w)
  publish_loop (suc n) snap_prefix snapshot w =
      let (named, w1) = next_key snap_prefix w in
      elim named [
        | err m ↦ (err (StoreErrors.new (text "snapshot ID: " ++ m)), w1)
        | ok key ↦
            let (put, w2) = store.put_if_match key none snapshot w1 in
            elim put [
              | err e ↦ (err (upload_error key e), w2)
              | ok (CondPut.accepted _) ↦ (ok key, w2)
              | ok CondPut.precondition_failed ↦ publish_loop n snap_prefix snapshot w2
            ]
      ]

  unfoldable pub publish_snapshot : Str → Bytes → W → Result StoreError Str × W
  unfolding publish_loop
  publish_snapshot snap_prefix snapshot w = publish_loop max_races snap_prefix snapshot w

module _ {S W : Type 0} (app : WalApp S) (store : ObjectStore W) (disk : Disk W)
    (host : Host W) where
  -- The snapshot is made: check its size, publish it, cache it.
  unfoldable pub publish_fold :
      Cache → CompactionJob → Lsn → Result WalError Bytes → W → CompactOutcome × W
  unfolding publish_snapshot
  publish_fold cache job fold_lsn (err e) w = (CompactOutcome.failed (display e), w)
  publish_fold cache job fold_lsn (ok snapshot) w =
      elim (check_limit (text "snapshot bytes") (length snapshot) job.max_snapshot_bytes) [
        | err e ↦ (CompactOutcome.failed (display e), w)
        | ok _ ↦
            let (published, w') = publish_snapshot store host job.snap_prefix snapshot w in
            elim published [
              | err e ↦ (CompactOutcome.failed e.message, w')
              | ok key ↦ (
                CompactOutcome.done (record { key = key; lsn = fold_lsn }),
                Cache.save_snapshot disk cache key snapshot w',
              )
            ]
      ]

  unfoldable pub compact_base :
      Cache → CompactionJob → Lsn → Str → Result WalError (Option Bytes) → W → CompactOutcome × W
  unfolding publish_fold
  compact_base cache job fold_lsn key (err e) w = (CompactOutcome.failed (display e), w)
  compact_base cache job fold_lsn key (ok none) w = (CompactOutcome.failed (base_gone key), w)
  compact_base cache job fold_lsn key (ok (some bytes)) w =
      publish_fold cache job fold_lsn (app.compact (some bytes) job.entries) w

  -- A result `none` is the panic of the thread on a job without entries.
  unfoldable pub run_compaction : Cache → CompactionJob → W → Option CompactOutcome × W
  unfolding compact_base
  run_compaction cache job w = elim (last_lsn job.entries) [
    | none ↦ (none, w)
    | some fold_lsn ↦ elim job.base_key [
      | none ↦
          let (outcome, w') = publish_fold cache job fold_lsn (app.compact none job.entries) w in
          (some outcome, w')
      | some key ↦
          let (fetched, w1) = fetch_snapshot store disk cache key job.max_snapshot_bytes w in
          let (outcome, w2) = compact_base cache job fold_lsn key fetched w1 in (some outcome, w2)
    ]
  ]
