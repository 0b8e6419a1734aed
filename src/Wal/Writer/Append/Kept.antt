-- ===== src/Wal/Writer/Append/Kept.antt =====
-- What `append` of src/wal.rs leaves alone of the core: the options, and that a validator is held.
use waltier.Base.{
  ℕ, zero, suc, ◌+◌, ◌≡◌, refl, sym, ◌∙◌, Bool, true, false, not, ◌&&◌, Option, none, some, List,
  [], ◌∷◌, length, ◌==◌, Result, ok, err, inl, inr, Bool-cases, if_both, Result-cases, Option-cases,
}
use mathlib.Core.Path.{subst}
use waltier.Base.Bytes.{Bytes}
use waltier.Image.{Lsn}
use waltier.Store.{ObjectStore}
use waltier.App.{WalApp, ReconcileBatch-cases}
use waltier.Cache.Files.{Disk}
use waltier.Wal.{Core}
use waltier.Wal.Refresh.Keeps.{Keeps, Keeps-refl, Keeps-trans}
use waltier.Wal.Compactor.{Host}
use waltier.Wal.Writer.{WalTier, InstallError, try_install}
use waltier.Wal.Writer.Keeps.{try_install-Kept, core-sync_compaction}
use waltier.Wal.Writer.Maintenance.{
  job_of, sync_compaction, spawn_compaction, compact_now, maybe_trigger_compaction,
}
use waltier.Wal.Writer.Append.{Appended, commit, reconcile_with, attempted, append_loop, append}

module _ {S W : Type 0} (app : WalApp S) (store : ObjectStore W) (disk : Disk W)
    (host : Host W) where
  core-spawn_compaction :
      (t : WalTier S) (w : W) → (spawn_compaction app store disk host t w).1.core ≡ t.core
  unfolding spawn_compaction
  core-spawn_compaction t w = elim (Option-cases (job_of t.core)) [
    | inl bare ↦ rw (bare, spawn_compaction) refl
    | inr (job, is) ↦ elim (Result-cases (host.spawn w).0) [
      | inl (u, e) ↦ rw (is, e, spawn_compaction) refl
      | inr (m, e) ↦ rw (is, e, spawn_compaction) refl
    ]
  ]

  core-compact_now : (t : WalTier S) (w : W) → (compact_now app store disk host t w).1.core ≡ t.core
  unfolding compact_now
  core-compact_now t w =
      let synced = sync_compaction app store disk host t w in
      let same = core-sync_compaction app store disk host t w in
      if_both (λ (r : Option Bool × WalTier S × W). r.1.core ≡ t.core) _
        (some false, synced.0, synced.1) (spawn_compaction app store disk host synced.0 synced.1)
        same (core-spawn_compaction synced.0 synced.1 ∙ same)

  core-maybe_trigger_compaction :
      (t : WalTier S) (w : W) → (maybe_trigger_compaction app store disk host t w).1.core ≡ t.core
  unfolding maybe_trigger_compaction
  core-maybe_trigger_compaction t w =
      if_both (λ (r : Option Bool × WalTier S × W). r.1.core ≡ t.core) _
        (compact_now app store disk host t w) (some false, t, w) (core-compact_now t w) refl

  abbrev KeptBy : Core S → Appended app store disk host → Type 0
  KeptBy c (r, t, w) = Keeps c t.core

  reconcile_with-Kept :
      (next : List Bytes → Appended app store disk host) (c : Core S) (t : WalTier S)
      (entries : List Bytes) (single : Bool) (w : W)
      → Keeps c t.core
      → ((es : List Bytes) → KeptBy c (next es))
      → KeptBy c (reconcile_with app store disk host next t entries single w)
  unfolding reconcile_with
  reconcile_with-Kept next c t entries single w k h =
      elim (ReconcileBatch-cases (app.reconcile_batch t.core.state entries)) [
        | inl e ↦ rw (e, reconcile_with) (h entries)
        | inr (inl e) ↦ rw (e, reconcile_with) k
        | inr (inr (es, e)) ↦ elim (Bool-cases (single && not (length es == 1))) [
          | inl bad ↦ rw (e, bad, reconcile_with) k
          | inr good ↦ rw (e, good, reconcile_with) (h es)
        ]
      ]

  attempted-Kept :
      (next : List Bytes → WalTier S → W → Appended app store disk host) (c : Core S) (first : Lsn)
      (attempt : ℕ) (entries : List Bytes) (single : Bool)
      (installed : Option (Result InstallError Bool)) (t : WalTier S) (w : W)
      → Keeps c t.core
      → ((es : List Bytes) → KeptBy c (next es t w))
      → KeptBy c (attempted app store disk host next first attempt entries single installed t w)
  unfolding attempted commit
  attempted-Kept next c first attempt entries single none t w k h = k
  attempted-Kept next c first attempt entries single (some (err e)) t w k h = k
  attempted-Kept next c first attempt entries single (some (ok true)) t w k h =
      subst (Keeps c)
        (sym (core-maybe_trigger_compaction (commit app store disk host t first entries) w))
        (record { opts = k.opts; etag = k.etag })
  attempted-Kept next c first attempt entries single (some (ok false)) t w k h =
      elim (Bool-cases (attempt == t.core.opts.max_write_attempts)) [
        | inl last ↦ rw last k
        | inr more ↦ rw more (reconcile_with-Kept (λ es. next es t w) c t entries single w k h)
      ]

  append_loop-Kept :
      (n attempt : ℕ) (single : Bool) (entries : List Bytes) (c : Core S) (t : WalTier S) (w : W)
      → Keeps c t.core
      → KeptBy c (append_loop app store disk host n attempt single entries t w)
  unfolding append_loop
  append_loop-Kept zero attempt single entries c t w k = k
  append_loop-Kept (suc n) attempt single [] c t w k = k
  append_loop-Kept (suc n) attempt single (x ∷ xs) c t w k =
      let tried = try_install app store disk t (x ∷ xs) w in
      let kept = Keeps-trans k (try_install-Kept app store disk t (x ∷ xs) w) in
      attempted-Kept (append_loop app store disk host n (attempt + 1) single) c _ attempt (x ∷ xs)
        single tried.0 tried.1 tried.2 kept
        (λ es. append_loop-Kept n (attempt + 1) single es c tried.1 tried.2 kept)

  pub append-Kept :
      (entries : List Bytes) (single : Bool) (t : WalTier S) (w : W)
      → Keeps t.core (append app store disk host entries single t w).1.core
  unfolding append
  append-Kept entries single t w =
      let synced = sync_compaction app store disk host t w in
      append_loop-Kept synced.0.core.opts.max_write_attempts 1 single entries t.core synced.0
        synced.1
        (subst (Keeps t.core) (sym (core-sync_compaction app store disk host t w))
          (Keeps-refl t.core))
