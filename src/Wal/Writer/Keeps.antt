-- ===== src/Wal/Writer/Keeps.antt =====
-- What the operations of `WalTier` in src/wal.rs leave alone of its core: the settlement of folds all of
-- it, an attempt the options and the fact that a validator is held.
use waltier.Base.{
  ◌≡◌, refl, sym, ap, ◌∙◌, Option, none, some, List, Result, ok, err, inl, inr, Bool-cases,
  Option-cases, Result-cases,
}
use mathlib.Core.Path.{subst}
use waltier.Base.Bytes.{Bytes}
use waltier.Error.{StoreError}
use waltier.Image.{SnapshotRef}
use waltier.Store.{CondPut, ObjectStore}
use waltier.App.{WalApp}
use waltier.Cache.Files.{Disk}
use waltier.Wal.{
  Core, Fold, applies_to, Compaction, CompactionTask, CompactOutcome, Channel, record_image_put,
}
use waltier.Wal.Refresh.{refresh}
use waltier.Wal.Refresh.Keeps.{Keeps, Keeps-refl, Keeps-trans, refresh-Keeps}
use waltier.Wal.Compactor.{Host}
use waltier.Wal.Writer.{
  WalTier, Attempt, pending_fold, references, queue_superseded, candidate, discard_fold,
  discard_superseded_fold, lost_install, put_answered, try_install,
}
use waltier.Wal.Writer.Folds.{core-queue_obsolete, core-install_pending_fold}
use waltier.Wal.Writer.Maintenance.{
  lost_thread, finish_compaction, integrate_task, integrate, sync_compaction,
}

pub core-queue_superseded :
    {S : Type 0} (t : WalTier S) (o : Option SnapshotRef) → (queue_superseded t o).core ≡ t.core
unfolding queue_superseded
core-queue_superseded t none = refl
core-queue_superseded t (some sr) = core-queue_obsolete t sr.key

module _ {S W : Type 0} (app : WalApp S) (store : ObjectStore W) (disk : Disk W) where
  core-discard_fold :
      (t : WalTier S) (f : Fold) (w : W) → (discard_fold app store disk t f w).0.core ≡ t.core
  unfolding discard_fold
  core-discard_fold t f w = elim (Bool-cases (applies_to f t.core.image)) [
    | inl applies ↦ rw applies refl
    | inr stale ↦ elim (Bool-cases (references t.core.image f.key)) [
      | inl own ↦ rw (stale, own) refl
      | inr orphan ↦ rw (stale, orphan) (core-queue_obsolete _ f.key)
    ]
  ]

  pub core-discard_superseded_fold :
      (t : WalTier S) (w : W) → (discard_superseded_fold app store disk t w).0.core ≡ t.core
  unfolding discard_superseded_fold
  core-discard_superseded_fold t w = elim (Option-cases (pending_fold t.compaction)) [
    | inl absent ↦ rw (absent, discard_superseded_fold) refl
    | inr (f, is) ↦ rw (is, discard_superseded_fold) (core-discard_fold t f w)
  ]

  -- The handle that an attempt answers with, for the core that it was given.
  abbrev pub Kept : Core S → Attempt app store disk → Type 0
  Kept c (r, t, w) = Keeps c t.core

  lost_install-Kept : (t : WalTier S) (w : W) → Kept t.core (lost_install app store disk t w)
  unfolding lost_install
  lost_install-Kept t w = elim (Result-cases (refresh app store disk t.core w).0) [
    | inr (x, e) ↦ rw (e, lost_install) (Keeps-refl t.core)
    | inl ((report, core), e) ↦
        rw (e, lost_install)
          (let same =
              core-queue_superseded _ report.superseded
              ∙ core-discard_superseded_fold (record t { core = core }) _ in
            subst (Keeps t.core) (sym same) (
              refresh-Keeps app store disk t.core core w _ report
                (ap (λ r. (r, (refresh app store disk t.core w).1)) e)))
  ]

  put_answered-Kept :
      (t : WalTier S) (body : Bytes) (put : Result StoreError CondPut) (w : W)
      → Kept t.core (put_answered app store disk t body put w)
  unfolding put_answered record_image_put
  put_answered-Kept t body (err x) w = Keeps-refl t.core
  put_answered-Kept t body (ok (CondPut.accepted given)) w =
      let (c, w1) = record_image_put store disk t.core given body w in
      subst (Keeps t.core)
        (sym (core-install_pending_fold app store disk (record t { core = c }) w1))
        (record { opts = refl; etag = λ h. refl })
  put_answered-Kept t body (ok CondPut.precondition_failed) w = lost_install-Kept t w

  try_install-Kept_from :
      (c : Core S) (t : WalTier S) (extra : List Bytes) (w : W)
      → Keeps c t.core
      → Kept c (try_install app store disk t extra w)
  unfolding try_install
  try_install-Kept_from c t extra w keeps = elim (Result-cases (candidate t extra)) [
    | inr (x, e) ↦ rw (e, try_install) keeps
    | inl (body, e) ↦ elim (Option-cases t.core.etag) [
      | inl absent ↦ rw (e, absent, try_install) keeps
      | inr (held, is) ↦ rw (e, is, try_install) (Keeps-trans keeps (put_answered-Kept t body _ _))
    ]
  ]

  pub try_install-Kept :
      (t : WalTier S) (extra : List Bytes) (w : W)
      → Kept t.core (try_install app store disk t extra w)
  try_install-Kept t extra w = try_install-Kept_from t.core t extra w (Keeps-refl t.core)

module _ {S W : Type 0} (app : WalApp S) (store : ObjectStore W) (disk : Disk W)
    (host : Host W) where
  pub core-finish_compaction :
      (t : WalTier S) (task : CompactionTask) (outcome : CompactOutcome) (w : W)
      → (finish_compaction app store disk host t task outcome w).0.core ≡ t.core
  unfolding finish_compaction
  core-finish_compaction t task outcome w = core-discard_superseded_fold app store disk _ w

  core-integrate_task :
      (t : WalTier S) (task : CompactionTask) (rx : Channel) (w : W)
      → (integrate_task app store disk host t task rx w).0.core ≡ t.core
  unfolding integrate_task
  core-integrate_task t task Channel.empty w = refl
  core-integrate_task t task (Channel.sent outcome) w = core-finish_compaction t task outcome w
  core-integrate_task t task Channel.disconnected w = core-finish_compaction t task lost_thread w

  core-integrate :
      (t : WalTier S) (c : Compaction) (w : W)
      → (integrate app store disk host t c w).0.core ≡ t.core
  unfolding integrate
  core-integrate t Compaction.idle w = refl
  core-integrate t (Compaction.running task) w = core-integrate_task t task task.rx w
  core-integrate t _ w = refl

  pub core-sync_compaction :
      (t : WalTier S) (w : W) → (sync_compaction app store disk host t w).0.core ≡ t.core
  unfolding sync_compaction
  core-sync_compaction t w =
      core-discard_superseded_fold app store disk _ _ ∙ core-integrate t t.compaction w
