-- ===== src/Wal/Writer/Lifecycle.antt =====
-- How a `WalTier` of src/wal.rs is opened and closed.
use waltier.Base.{Option, none, [], true, Result, ok, err}
use waltier.Error.{WalError}
use waltier.Store.{ObjectStore}
use waltier.App.{WalApp}
use waltier.Cache.Files.{Disk}
use waltier.Wal.{Options, Compaction, CompactionStatus}
use waltier.Wal
use waltier.Wal.Opening.{open_core}
use waltier.Wal.Compactor.{Host}
use waltier.Wal.Writer.{WalTier}
use waltier.Wal.Writer.Maintenance.{
  MaintenanceStatus, current_compaction_status, sync_compaction, flush,
}

module _ {S W : Type 0} (app : WalApp S) (store : ObjectStore W) (disk : Disk W)
    (host : Host W) where
  -- The log is created if it is missing.
  unfoldable pub open_tier : Options → W → Result WalError (WalTier S) × W
  open_tier opts w =
      let (opened, w') = open_core app store disk opts true w in
      elim opened [
        | err e ↦ (err e, w')
        | ok core ↦
            let tier : WalTier S = record {
              core = core;
              compaction = Compaction.idle;
              garbage = [];
              garbage_overflowed = 0;
              garbage_error = none;
            } in
            (ok tier, w')
      ]

  -- The handle is consumed, also on an error.
  unfoldable pub close : WalTier S → W → Option (Result WalError MaintenanceStatus) × W
  unfolding flush
  close t w = let (report, t', w') = flush app store disk host t w in (report, w')

  unfoldable pub checkpoint_cache : WalTier S → W → WalTier S × W
  checkpoint_cache t w =
      let (core, w') = Wal.checkpoint_cache store disk t.core w in (record t { core = core }, w')

  unfoldable pub compaction_status :
      WalTier S → W → Result WalError CompactionStatus × WalTier S × W
  unfolding sync_compaction current_compaction_status
  compaction_status t w =
      let (t', w') = sync_compaction app store disk host t w in
      (current_compaction_status t'.compaction, t', w')
