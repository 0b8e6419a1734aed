-- ===== src/Wal/Writer/Closing.antt =====
-- That `flush` and `close` of src/wal.rs return.
use waltier.Base.{
  ℕ, zero, suc, ◌+◌, ◌≡◌, refl, ap, ◌∙◌, Bool, true, not, ◌&&◌, Option, none, some, is_some, [],
  ◌==◌, Result, ok, err, inl, inr, Bool-cases,
}
use waltier.Error.{WalError}
use waltier.Store.{ObjectStore}
use waltier.App.{WalApp}
use waltier.Cache.Files.{Disk}
use waltier.Wal.{Core, Compaction, CompactionStatus}
use waltier.Wal.Compactor.{Host}
use waltier.Wal.Writer.{WalTier, InstallError, try_install}
use waltier.Wal.Writer.Keeps.{
  try_install-Kept, core-discard_superseded_fold, core-finish_compaction,
}
use waltier.Wal.Writer.Maintenance.{
  has_pending, received, wait_running, wait_for_compaction, install_loop, flush,
}
use waltier.Wal.Writer.Append.Returns.{try_install-returns}
use waltier.Wal.Writer.Lifecycle.{close}

module _ {S W : Type 0} (app : WalApp S) (store : ObjectStore W) (disk : Disk W)
    (host : Host W) where
  core-wait_running :
      (t : WalTier S) (c : Compaction) (w : W)
      → (wait_running app store disk host t c w).0.core ≡ t.core
  unfolding wait_running
  core-wait_running t Compaction.idle w = refl
  core-wait_running t (Compaction.running task) w =
      let (task', outcome, w1) = received app store disk host t task task.rx w in
      core-finish_compaction app store disk host t task' outcome w1
  core-wait_running t _ w = refl

  core-wait_for_compaction :
      (t : WalTier S) (w : W) → (wait_for_compaction app store disk host t w).1.core ≡ t.core
  unfolding wait_for_compaction
  core-wait_for_compaction t w =
      core-discard_superseded_fold app store disk _ _ ∙ core-wait_running t t.compaction w

  -- The answer of an attempt, and the rounds behind it.
  installed-returns :
      (n attempt : ℕ) (t : WalTier S) (w : W) (installed : Option (Result InstallError Bool))
      → (try_install app store disk t [] w).0 ≡ installed
      → is_some installed ≡ true
      → is_some
          (install_loop app store disk host n
            (attempt + 1)
            (try_install app store disk t [] w).1
            (try_install app store disk t [] w).2).0
        ≡ true
      → is_some (install_loop app store disk host (suc n) attempt t w).0 ≡ true
  unfolding install_loop
  installed-returns n attempt t w none is there rest = cc
  installed-returns n attempt t w (some (err e)) is there rest =
      elim (Bool-cases (not (has_pending t.compaction))) [
        | inl bare ↦ rw (bare, install_loop) refl
        | inr more ↦ rw (more, is, install_loop) refl
      ]
  installed-returns n attempt t w (some (ok b)) is there rest =
      let t1 = (try_install app store disk t [] w).1 in
      elim (Bool-cases (not (has_pending t.compaction))) [
        | inl bare ↦ rw (bare, install_loop) refl
        | inr more ↦
            elim (Bool-cases
              (has_pending t1.compaction && (attempt == t1.core.opts.max_write_attempts))) [
                | inl last ↦ rw (more, is, last, install_loop) refl
                | inr again ↦ rw (more, is, again, install_loop) rest
              ]
      ]

  install_loop-returns :
      (n attempt : ℕ) (t : WalTier S) (w : W)
      → is_some t.core.etag ≡ true
      → is_some (install_loop app store disk host n attempt t w).0 ≡ true
  unfolding install_loop
  install_loop-returns zero attempt t w has = refl
  install_loop-returns (suc n) attempt t w has =
      let tried = try_install app store disk t [] w in
      installed-returns n attempt t w tried.0 refl (try_install-returns app store disk t [] w has) (
        install_loop-returns n (attempt + 1) tried.1 tried.2
          ((try_install-Kept app store disk t [] w).etag has))

  looped-returns :
      (t : WalTier S) (w : W) (waited : Result WalError CompactionStatus)
      (looped : Option (Option WalError))
      → (wait_for_compaction app store disk host t w).0 ≡ waited
      → (install_loop app store disk host
          (wait_for_compaction app store disk host t w).1.core.opts.max_write_attempts
          1
          (wait_for_compaction app store disk host t w).1
          (wait_for_compaction app store disk host t w).2).0
        ≡ looped
      → is_some looped ≡ true
      → is_some (flush app store disk host t w).0 ≡ true
  unfolding flush
  looped-returns t w (err e) looped is run there = rw (is, flush) refl
  looped-returns t w (ok s) none is run there = cc
  looped-returns t w (ok s) (some none) is run there = rw (is, run, flush) refl
  looped-returns t w (ok s) (some (some e)) is run there = rw (is, run, flush) refl

  -- While a validator is held, `close` does not panic.
  pub close-returns :
      (t : WalTier S) (w : W)
      → is_some t.core.etag ≡ true
      → is_some (close app store disk host t w).0 ≡ true
  unfolding close
  close-returns t w has =
      let waited = wait_for_compaction app store disk host t w in
      looped-returns t w waited.0 _ refl refl (
        install_loop-returns waited.1.core.opts.max_write_attempts 1 waited.1 waited.2
          (ap (λ (c : Core S). is_some c.etag) (core-wait_for_compaction t w) ∙ has))
