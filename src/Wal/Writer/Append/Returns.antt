-- ===== src/Wal/Writer/Append/Returns.antt =====
-- That `append` of src/wal.rs returns, and where its errors come from.
use waltier.Base.{
  ℕ, zero, suc, ◌+◌, ◌≤◌, ◌≡◌, refl, sym, ap, ◌∙◌, Bool, true, false, not, ◌&&◌, Option, none, some,
  is_some, List, [], ◌∷◌, length, ◌==◌, Result, ok, err, arith, inl, inr, Bool-cases, Option-cases,
  Result-cases, if_both, le→ltb,
}
use mathlib.Core.Path.{subst}
use waltier.Base.Bytes.{Bytes}
use waltier.Base.Text.{Str}
use waltier.Error.{StoreError}
use waltier.Image.{Lsn, WalImage, next_lsn, tip}
use waltier.Store.{CondPut, ObjectStore}
use waltier.App.{WalApp, ReconcileBatch-cases}
use waltier.Cache.Files.{Disk}
use waltier.Wal.{Core}
use waltier.Wal.Refresh.{refresh}
use waltier.Wal.Compactor.{Host}
use waltier.Wal.Writer.{WalTier, InstallError, candidate, lost_install, put_answered, try_install}
use waltier.Wal.Writer.Keeps.{try_install-Kept, core-sync_compaction}
use waltier.Wal.Writer.Maintenance.{
  job_of, sync_compaction, spawn_compaction, compact_now, maybe_trigger_compaction,
}
use waltier.Wal.Writer.Folds.{with_entries}
use waltier.Wal.Writer.Append.Applies.{
  Applies, Ranged, try_install-Applies, try_install-Ranged, sync_compaction-Applies,
}
use waltier.Wal.Writer.Append.{Appended, commit, reconcile_with, attempted, append_loop, append}

abbrev pub returns {ℓ} : {A B : Type ℓ} → Option A × B → Bool
returns (r, s) = is_some r

module _ {S W : Type 0} (app : WalApp S) (store : ObjectStore W) (disk : Disk W) where
  lost_install-returns :
      (t : WalTier S) (w : W) → is_some (lost_install app store disk t w).0 ≡ true
  unfolding lost_install
  lost_install-returns t w = elim (Result-cases (refresh app store disk t.core w).0) [
    | inl (a, e) ↦ rw (e, lost_install) refl
    | inr (x, e) ↦ rw (e, lost_install) refl
  ]

  put_answered-returns :
      (t : WalTier S) (body : Bytes) (put : Result StoreError CondPut) (w : W)
      → is_some (put_answered app store disk t body put w).0 ≡ true
  unfolding put_answered
  put_answered-returns t body (err x) w = refl
  put_answered-returns t body (ok (CondPut.accepted given)) w = refl
  put_answered-returns t body (ok CondPut.precondition_failed) w = lost_install-returns t w

  pub try_install-returns :
      (t : WalTier S) (extra : List Bytes) (w : W)
      → is_some t.core.etag ≡ true
      → is_some (try_install app store disk t extra w).0 ≡ true
  unfolding try_install
  try_install-returns t extra w has = elim (Result-cases (candidate t extra)) [
    | inr (x, e) ↦ rw (e, try_install) refl
    | inl (body, e) ↦ elim (Option-cases t.core.etag) [
      | inl absent ↦ let bad : is_some {A = Str} none ≡ true = rw absent at has in cc
      | inr (held, is) ↦ rw (e, is, try_install) (put_answered-returns t body _ _)
    ]
  ]

module _ {S W : Type 0} (app : WalApp S) (store : ObjectStore W) (disk : Disk W)
    (host : Host W) where
  reconcile_with-returns :
      (next : List Bytes → Appended app store disk host) (t : WalTier S) (entries : List Bytes)
      (single : Bool) (w : W)
      → ((es : List Bytes) → is_some (next es).0 ≡ true)
      → is_some (reconcile_with app store disk host next t entries single w).0 ≡ true
  unfolding reconcile_with
  reconcile_with-returns next t entries single w h =
      elim (ReconcileBatch-cases (app.reconcile_batch t.core.state entries)) [
        | inl e ↦ rw (e, reconcile_with) (h entries)
        | inr (inl e) ↦ rw (e, reconcile_with) refl
        | inr (inr (es, e)) ↦ elim (Bool-cases (single && not (length es == 1))) [
          | inl bad ↦ rw (e, bad, reconcile_with) refl
          | inr good ↦ rw (e, good, reconcile_with) (h es)
        ]
      ]

  spawn_compaction-returns :
      (t : WalTier S) (w : W)
      → is_some (tip t.core.image) ≡ true
      → is_some (spawn_compaction app store disk host t w).0 ≡ true
  unfolding spawn_compaction job_of
  spawn_compaction-returns t w there = elim (Option-cases (tip t.core.image)) [
    | inl absent ↦ let never : false ≡ true = ap is_some (sym absent) ∙ there in cc
    | inr (lsn, is) ↦ elim (Result-cases (host.spawn w).0) [
      | inl (u, e) ↦ rw (is, e, spawn_compaction, job_of) refl
      | inr (m, e) ↦ rw (is, e, spawn_compaction, job_of) refl
    ]
  ]

  compact_now-returns :
      (t : WalTier S) (w : W)
      → is_some (tip t.core.image) ≡ true
      → is_some (compact_now app store disk host t w).0 ≡ true
  unfolding compact_now
  compact_now-returns t w there =
      let synced = sync_compaction app store disk host t w in
      if_both (λ (r : Option Bool × WalTier S × W). is_some r.0 ≡ true) _
        (some false, synced.0, synced.1) (spawn_compaction app store disk host synced.0 synced.1)
        refl
        (spawn_compaction-returns synced.0 synced.1 (
          ap (λ (c : Core S). is_some (tip c.image)) (core-sync_compaction app store disk host t w)
          ∙ there))

  maybe_trigger_compaction-returns :
      (t : WalTier S) (w : W)
      → is_some (tip t.core.image) ≡ true
      → is_some (maybe_trigger_compaction app store disk host t w).0 ≡ true
  unfolding maybe_trigger_compaction
  maybe_trigger_compaction-returns t w there =
      if_both (λ (r : Option Bool × WalTier S × W). is_some r.0 ≡ true) _
        (compact_now app store disk host t w) (some false, t, w) (compact_now-returns t w there)
        refl

  committed-returns :
      (first : Lsn) (entries : List Bytes) (t : WalTier S) (w : W)
      (next : List Bytes → WalTier S → W → Appended app store disk host) (attempt : ℕ)
      (single : Bool) (triggered : Option Bool)
      → (maybe_trigger_compaction app store disk host
          (commit app store disk host t first entries)
          w).0
        ≡ triggered
      → is_some triggered ≡ true
      → is_some
          (attempted app store disk host next first attempt entries single (some (ok true)) t w).0
        ≡ true
  unfolding attempted
  committed-returns first entries t w next attempt single none is there = cc
  committed-returns first entries t w next attempt single (some b) is there =
      rw (is, attempted) refl

  attempted-returns :
      (next : List Bytes → WalTier S → W → Appended app store disk host) (first : Lsn) (attempt : ℕ)
      (entries : List Bytes) (single : Bool) (installed : Option (Result InstallError Bool))
      (t : WalTier S) (w : W)
      → is_some installed ≡ true
      → (installed ≡ some (ok true) → is_some (tip (with_entries t.core.image entries)) ≡ true)
      → (attempt == t.core.opts.max_write_attempts ≡ false
          → (es : List Bytes) → is_some (next es t w).0 ≡ true)
      → is_some (attempted app store disk host next first attempt entries single installed t w).0
        ≡ true
  unfolding attempted commit
  attempted-returns next first attempt entries single none t w some_ tips h = cc
  attempted-returns next first attempt entries single (some (err e)) t w some_ tips h = refl
  attempted-returns next first attempt entries single (some (ok true)) t w some_ tips h =
      committed-returns first entries t w next attempt single
        (maybe_trigger_compaction app store disk host (commit app store disk host t first entries)
          w).0
        refl
        (maybe_trigger_compaction-returns (commit app store disk host t first entries) w
          (tips refl))
  attempted-returns next first attempt entries single (some (ok false)) t w some_ tips h =
      elim (Bool-cases (attempt == t.core.opts.max_write_attempts)) [
        | inl last ↦ rw last refl
        | inr more ↦
            rw more (reconcile_with-returns (λ es. next es t w) t entries single w (h more))
      ]

  -- The image behind a PUT that added an entry has a tip.
  Ranged-tip :
      (image image' : WalImage) (n : ℕ) → Ranged image image' (suc n) → is_some (tip image') ≡ true
  unfolding tip
  Ranged-tip image image' n (room, next) =
      rw (le→ltb (next_lsn image') 1 (omega (arith, next))) refl

  -- The attempts that are left reach to the last one.
  append_loop-returns :
      (n attempt : ℕ) (single : Bool) (entries : List Bytes) (t : WalTier S) (w : W)
      → Applies t
      → is_some t.core.etag ≡ true
      → n + attempt ≡ t.core.opts.max_write_attempts + 1
      → attempt ≤ t.core.opts.max_write_attempts
      → is_some (append_loop app store disk host n attempt single entries t w).0 ≡ true
  unfolding append_loop
  append_loop-returns zero attempt single entries t w fits has sum le = absurd (omega arith)
  append_loop-returns (suc n) attempt single [] t w fits has sum le = refl
  append_loop-returns (suc n) attempt single (x ∷ xs) t w fits has sum le =
      let tried = try_install app store disk t (x ∷ xs) w in
      let kept = try_install-Kept app store disk t (x ∷ xs) w in
      let same = ap (λ o. o.max_write_attempts) kept.opts in
      attempted-returns (append_loop app store disk host n (attempt + 1) single) _ attempt (x ∷ xs)
        single tried.0 tried.1 tried.2 (try_install-returns app store disk t (x ∷ xs) w has)
        (λ won. Ranged-tip t.core.image (with_entries tried.1.core.image (x ∷ xs)) (length xs) (
          try_install-Ranged app store disk t tried.1 (x ∷ xs) w tried.2 fits
            (ap (λ r. (r, tried.1, tried.2)) won)))
        (λ more es.
          append_loop-returns n (attempt + 1) single es tried.1 tried.2
            (try_install-Applies app store disk t (x ∷ xs) w fits) (kept.etag has)
            (omega (arith, same, sum)) (ground (arith, more, same, le)))

  pub append-returns :
      (entries : List Bytes) (single : Bool) (t : WalTier S) (w : W)
      → is_some t.core.etag ≡ true
      → 1 ≤ t.core.opts.max_write_attempts
      → is_some (append app store disk host entries single t w).0 ≡ true
  unfolding append
  append-returns entries single t w has positive =
      let synced = sync_compaction app store disk host t w in
      let same = core-sync_compaction app store disk host t w in
      append_loop-returns synced.0.core.opts.max_write_attempts 1 single entries synced.0 synced.1
        (sync_compaction-Applies app store disk host t w)
        (ap (λ (c : Core S). is_some c.etag) same ∙ has) refl
        (subst (λ (c : Core S). 1 ≤ c.opts.max_write_attempts) (sym same) positive)
