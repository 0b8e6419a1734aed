-- ===== src/Wal/Writer/Append/Ranges.antt =====
-- The LSNs that `append` of src/wal.rs hands out: one for each entry, if the application never replaces a
-- batch.
use waltier.Base.{
  [], ap, ℕ, zero, suc, ◌+◌, ◌^◌, ◌<◌, ◌≡◌, refl, Bool, true, false, Option, none, some, List, ◌∷◌,
  length, ◌==◌, Result, ok, err, arith, inl, inr, Bool-cases,
}
use waltier.Base.Bytes.{Bytes}
use waltier.Error.{WriteError}
use waltier.Image.{Lsn, next_lsn}
use waltier.Store.{ObjectStore}
use waltier.App.{WalApp, ReconcileBatch}
use waltier.Cache.Files.{Disk}
use waltier.Wal.Compactor.{Host}
use waltier.Wal.Writer.{WalTier, InstallError, try_install}
use waltier.Wal.Writer.Maintenance.{sync_compaction, maybe_trigger_compaction}
use waltier.Wal.Writer.Append.Applies.{
  Applies, next_lsn-lt, try_install-Applies, try_install-Ranged, sync_compaction-Applies,
}
use waltier.Wal.Writer.Append.{
  Range, Appended, commit, reconcile_with, attempted, append_loop, append,
}

-- A range of `n` LSNs of 64 bits.
abbrev pub IsWhole : ℕ → Option (Result WriteError Range) → Type 0
IsWhole n (some (ok (first, end))) = (first + n < 2 ^ 64) × (end ≡ first + n)
IsWhole n _ = Unit

module _ {S W : Type 0} (app : WalApp S) (store : ObjectStore W) (disk : Disk W)
    (host : Host W) where
  abbrev pub Retries : Type 0
  Retries =
      (state : S) (entries : List Bytes) → app.reconcile_batch state entries ≡ ReconcileBatch.retry

  committed-IsWhole :
      (next : List Bytes → WalTier S → W → Appended app store disk host) (first : Lsn) (attempt : ℕ)
      (entries : List Bytes) (single : Bool) (t : WalTier S) (w : W) (triggered : Option Bool)
      → first + length entries < 2 ^ 64
      → (maybe_trigger_compaction app store disk host
          (commit app store disk host t first entries)
          w).0
        ≡ triggered
      → IsWhole
          (length entries)
          (attempted app store disk host next first attempt entries single (some (ok true)) t w).0
  unfolding attempted
  committed-IsWhole next first attempt entries single t w none room is = rw (is, attempted) tt
  committed-IsWhole next first attempt entries single t w (some b) room is =
      rw (is, attempted) (room, omega (arith, room))

  attempted-IsWhole :
      (next : List Bytes → WalTier S → W → Appended app store disk host) (first : Lsn) (attempt : ℕ)
      (entries : List Bytes) (single : Bool) (installed : Option (Result InstallError Bool))
      (t : WalTier S) (w : W)
      → Retries
      → (installed ≡ some (ok true) → first + length entries < 2 ^ 64)
      → IsWhole (length entries) (next entries t w).0
      → IsWhole
          (length entries)
          (attempted app store disk host next first attempt entries single installed t w).0
  unfolding attempted reconcile_with
  attempted-IsWhole next first attempt entries single none t w retries room h = tt
  attempted-IsWhole next first attempt entries single (some (err e)) t w retries room h = tt
  attempted-IsWhole next first attempt entries single (some (ok true)) t w retries room h =
      committed-IsWhole next first attempt entries single t w _ (room refl) refl
  attempted-IsWhole next first attempt entries single (some (ok false)) t w retries room h =
      elim (Bool-cases (attempt == t.core.opts.max_write_attempts)) [
        | inl last ↦ rw last tt
        | inr more ↦ rw (more, reconcile_with, retries t.core.state entries) h
      ]

  append_loop-IsWhole :
      (n attempt : ℕ) (single : Bool) (entries : List Bytes) (t : WalTier S) (w : W)
      → Retries
      → Applies t
      → IsWhole (length entries) (append_loop app store disk host n attempt single entries t w).0
  unfolding append_loop
  append_loop-IsWhole zero attempt single entries t w retries fits = tt
  append_loop-IsWhole (suc n) attempt single [] t w retries fits =
      (omega (arith, next_lsn-lt t.core.image), omega arith)
  append_loop-IsWhole (suc n) attempt single (x ∷ xs) t w retries fits =
      let tried = try_install app store disk t (x ∷ xs) w in
      attempted-IsWhole (append_loop app store disk host n (attempt + 1) single)
        (next_lsn t.core.image) attempt (x ∷ xs) single tried.0 tried.1 tried.2 retries
        (λ won.
          (try_install-Ranged app store disk t tried.1 (x ∷ xs) w tried.2 fits
            (ap (λ r. (r, tried.1, tried.2)) won)).0)
        (append_loop-IsWhole n (attempt + 1) single (x ∷ xs) tried.1 tried.2 retries
          (try_install-Applies app store disk t (x ∷ xs) w fits))

  pub append-IsWhole :
      (entries : List Bytes) (single : Bool) (t : WalTier S) (w : W)
      → Retries
      → IsWhole (length entries) (append app store disk host entries single t w).0
  unfolding append
  append-IsWhole entries single t w retries =
      let synced = sync_compaction app store disk host t w in
      append_loop-IsWhole synced.0.core.opts.max_write_attempts 1 single entries synced.0 synced.1
        retries (sync_compaction-Applies app store disk host t w)
