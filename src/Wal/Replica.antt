-- ===== src/Wal/Replica.antt =====
-- `Replica` of src/wal.rs: a follower that never writes.
use waltier.Base.{Bool, false, Result, ok, err}
use waltier.Error.{WalError}
use waltier.Store.{ObjectStore}
use waltier.App.{WalApp}
use waltier.Cache.Files.{Disk}
use waltier.Wal.{Options, Core}
use waltier.Wal
use waltier.Wal.Opening.{open_core}
use waltier.Wal.Refresh

pub record Replica (S : Type 0) : Type 0 where
  pub core : Core S

module _ {S W : Type 0} (app : WalApp S) (store : ObjectStore W) (disk : Disk W) where
  -- A missing log is left missing.
  unfoldable pub open_replica : Options → W → Result WalError (Replica S) × W
  open_replica opts w =
      let (opened, w') = open_core app store disk opts false w in
      elim opened [
        | err e ↦ (err e, w')
        | ok core ↦ let replica : Replica S = record { core = core } in (ok replica, w')
      ]

  -- Whether the log has changed; on an error the replica is as it was.
  unfoldable pub refresh : Replica S → W → Result WalError Bool × Replica S × W
  refresh r w =
      let (refreshed, w') = Refresh.refresh app store disk r.core w in
      elim refreshed [
        | err e ↦ (err e, r, w')
        | ok (report, core) ↦ (ok report.changed, record { core = core }, w')
      ]

  unfoldable pub checkpoint_cache : Replica S → W → Replica S × W
  checkpoint_cache r w =
      let (core, w') = Wal.checkpoint_cache store disk r.core w in (record { core = core }, w')
