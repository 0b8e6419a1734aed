-- ===== src/Wal/Refresh/Keeps.antt =====
-- What a refresh of src/wal.rs leaves alone: the options, and that a validator is held.
use waltier.Base.{
  ◌≡◌, refl, ◌∙◌, true, Option, none, some, is_some, leb, Result, ok, err, inl, inr, Bool-cases,
  Option-cases, Result-cases,
}
use mathlib.Core.Path.{subst}
use waltier.Base.Bytes.{Bytes}
use waltier.Base.Text.{Str}
use waltier.Error.{StoreError, WalError}
use waltier.Image.{SnapshotRef, WalImage, first_lsn, next_lsn}
use waltier.Image.Decode.{decode}
use waltier.Store.{Stored, CondGet, ObjectStore}
use waltier.App.{WalApp}
use waltier.Cache.Files.{Disk}
use waltier.Wal.{
  Core, Missing, Step, done, max_races, limits, Refreshed, record_image_put, retry_missing,
  record_missing_snapshot,
}
use waltier.Wal.Refresh.{adopt, rebuild, advance, refresh_found, refresh_round, refresh}
use waltier.Wal.Refresh.Sound.{races_inv}

pub record Keeps {S : Type 0} (c c' : Core S) : Type 0 where
  pub opts : c'.opts ≡ c.opts
  pub etag : is_some c.etag ≡ true → is_some c'.etag ≡ true

module _ {S : Type 0} where
  pub Keeps-refl : (c : Core S) → Keeps c c
  Keeps-refl c = record { opts = refl; etag = λ h. h }

  pub Keeps-trans : {c d e : Core S} → Keeps c d → Keeps d e → Keeps c e
  Keeps-trans p q = record { opts = q.opts ∙ p.opts; etag = λ h. q.etag (p.etag h) }

  -- Every answer of a round keeps `c`.
  abbrev StepKeeps : Core S → Step (Refreshed × Core S) → Type 0
  StepKeeps c (done (ok (report, c'))) = Keeps c c'
  StepKeeps c _ = Unit

  StepKeeps-retry :
      (c : Core S) (m : Missing) (etag key : Str) → StepKeeps c (retry_missing m etag key)
  unfolding retry_missing
  StepKeeps-retry c m etag key = elim (Result-cases (record_missing_snapshot m etag key)) [
    | inl (m', e) ↦ rw (e, retry_missing) tt
    | inr (x, e) ↦ rw (e, retry_missing) tt
  ]

module _ {S W : Type 0} (app : WalApp S) (store : ObjectStore W) (disk : Disk W) where
  adopt-StepKeeps :
      (c : Core S) (remote : WalImage) (stored : Stored) (state : S) (w : W)
      → StepKeeps c (adopt app store disk c remote stored state w).0
  unfolding adopt record_image_put
  adopt-StepKeeps c remote stored state w = record { opts = refl; etag = λ h. refl }

  rebuild-StepKeeps :
      (c : Core S) (remote : WalImage) (stored : Stored) (sr : SnapshotRef) (m : Missing)
      (fetched : Result WalError (Option Bytes)) (w : W)
      → StepKeeps c (rebuild app store disk c remote stored sr m fetched w).0
  unfolding rebuild
  rebuild-StepKeeps c remote stored sr m (err e) w = tt
  rebuild-StepKeeps c remote stored sr m (ok none) w = StepKeeps-retry c m stored.etag sr.key
  rebuild-StepKeeps c remote stored sr m (ok (some bytes)) w =
      elim (Result-cases (app.restore bytes)) [
        | inl (base, e) ↦ rw (e, rebuild) (adopt-StepKeeps c remote stored _ w)
        | inr (x, e) ↦ rw (e, rebuild) tt
      ]

  advance-StepKeeps :
      (c : Core S) (remote : WalImage) (stored : Stored) (m : Missing) (w : W)
      → StepKeeps c (advance app store disk c remote stored m w).0
  unfolding advance
  advance-StepKeeps c remote stored m w =
      elim (Bool-cases (leb (first_lsn remote) (next_lsn c.image))) [
        | inl live ↦ rw live (adopt-StepKeeps c remote stored _ w)
        | inr folded ↦ elim (Option-cases remote.snapshot) [
          | inl absent ↦ rw (folded, absent) tt
          | inr (sr, is) ↦ rw (folded, is) (rebuild-StepKeeps c remote stored sr m _ _)
        ]
      ]

  found-StepKeeps :
      (c : Core S) (etag : Option Str) (m : Missing) (got : Result StoreError CondGet) (w : W)
      → StepKeeps c (refresh_found app store disk c etag m got w).0
  unfolding refresh_found
  found-StepKeeps c etag m (err e) w = tt
  found-StepKeeps c (some _) m (ok CondGet.not_modified) w = Keeps-refl c
  found-StepKeeps c none m (ok CondGet.not_modified) w = tt
  found-StepKeeps c (some _) m (ok CondGet.missing) w = tt
  found-StepKeeps c none m (ok CondGet.missing) w = Keeps-refl c
  found-StepKeeps c etag m (ok (CondGet.changed s)) w =
      elim (Result-cases (decode s.body (limits c.opts))) [
        | inl (remote, e) ↦ rw (e, refresh_found) (advance-StepKeeps c remote s m w)
        | inr (x, e) ↦ rw (e, refresh_found) tt
      ]

  pub refresh-Keeps :
      (c c' : Core S) (w w' : W) (report : Refreshed)
      → refresh app store disk c w ≡ (ok (report, c'), w')
      → Keeps c c'
  unfolding refresh refresh_round
  refresh-Keeps c c' w w' report e =
      races_inv (λ a. Keeps c a.1) (refresh_round app store disk c) _
        (λ m w0 a w2 q. subst (λ t. StepKeeps c t.0) q (found-StepKeeps c c.etag m _ _)) max_races
        none w w' (report, c') e
