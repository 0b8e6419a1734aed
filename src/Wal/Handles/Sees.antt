-- ===== src/Wal/Handles/Sees.antt =====
-- What a refresh of src/wal.rs sees in a MemoryStore: the core that it returns is the old one, or that of
-- the object in the store, and the store is as it was.
use waltier.Base.{
  ℕ, zero, suc, ◌≡◌, refl, sym, ◌∙◌, ◌⊎◌, Option, none, some, leb, Result, ok, err, inl, inr,
  Bool-cases, Option-cases, Result-cases,
}
use mathlib.Core.Path.{subst}
use waltier.Base.Bytes.{Bytes}
use waltier.Base.Text.{Str, text, str_eq}
use waltier.Base.Assoc.{lookup}
use waltier.Error.{WalError}
use waltier.Image.{SnapshotRef, WalImage, first_lsn, next_lsn}
use waltier.Image.Decode.{decode}
use waltier.Store.{Stored, default_get_if_changed, compare_etag}
use waltier.Store.Memory
use waltier.Store.Memory.{MemoryStore, memory_store}
use waltier.App.{WalApp}
use waltier.Cache.Files.{Disk}
use waltier.Wal.{
  Core, Missing, Step, done, again, max_races, races, limits, wal_key, Refreshed, record_image_put,
  retry_missing, record_missing_snapshot, continue_with,
}
use waltier.Wal.Refresh.{
  superseded_ref, drop_cached, adopt, rebuild, advance, refresh_found, refresh_round, refresh,
}
use waltier.Wal.Handles.Apart.{
  IsApart, remove_snapshot-same, record_image_put-same, fetch_snapshot-same,
}

-- The log object that the store holds for a core.
abbrev pub Holds : {S : Type 0} → MemoryStore → Core S → Stored → Type 0
Holds w c o = lookup (wal_key c.opts) w.objects ≡ some o

-- A core that was read from the object in the store.
pub record Read {S : Type 0} (w : MemoryStore) (c c' : Core S) : Type 0 where
  pub object : Stored
  pub holds : Holds w c object
  pub decodes : decode object.body (limits c.opts) ≡ ok c'.image
  pub etag : c'.etag ≡ some object.etag

-- The version of the log that a core knows is still the old one, or that of the store.
pub record Sees {S : Type 0} (w : MemoryStore) (c c' : Core S) : Type 0 where
  pub opts : c'.opts ≡ c.opts
  pub version : ((c'.etag ≡ c.etag) × (c'.image ≡ c.image)) ⊎ Read w c c'

module _ {S : Type 0} (app : WalApp S) (disk : Disk MemoryStore) (apart : IsApart disk) where
  -- A round leaves the store alone, and its answer is what the store holds.
  abbrev pub RoundSees : MemoryStore → Core S → Step (Refreshed × Core S) × MemoryStore → Type 0
  RoundSees w c (done (ok (report, c')), w') = Sees w c c' × (w' ≡ w)
  RoundSees w c (_, w') = Unit × (w' ≡ w)

  drop_cached-same :
      (c : Core S) (o : Option SnapshotRef) (w : MemoryStore)
      → drop_cached app memory_store disk c o w ≡ w
  drop_cached-same c none w = refl
  drop_cached-same c (some old) w = remove_snapshot-same disk apart c.cache old.key w

  adopt-RoundSees :
      (c : Core S) (remote : WalImage) (stored : Stored) (state : S) (w w0 : MemoryStore)
      → Holds w c stored
      → decode stored.body (limits c.opts) ≡ ok remote
      → w0 ≡ w
      → RoundSees w c (adopt app memory_store disk c remote stored state w0)
  unfolding adopt record_image_put
  adopt-RoundSees c remote stored state w w0 holds good same = (
    record {
      opts = refl;
      version = inr (record { object = stored; holds = holds; decodes = good; etag = refl });
    },
    record_image_put-same disk apart (record c { state = state; image = remote }) stored.etag
          stored.body
          (drop_cached app memory_store disk c (superseded_ref c.image.snapshot remote.snapshot) w0)
        ∙ drop_cached-same c (superseded_ref c.image.snapshot remote.snapshot) w0
        ∙ same,
  )

  retry-RoundSees :
      (c : Core S) (m : Missing) (etag key : Str) (w w0 : MemoryStore)
      → w0 ≡ w
      → RoundSees w c (retry_missing m etag key, w0)
  unfolding retry_missing
  retry-RoundSees c m etag key w w0 same =
      elim (Result-cases (record_missing_snapshot m etag key)) [
        | inl (m', e) ↦ rw (e, retry_missing) (tt, same)
        | inr (x, e) ↦ rw (e, retry_missing) (tt, same)
      ]

  rebuild-RoundSees :
      (c : Core S) (remote : WalImage) (stored : Stored) (sr : SnapshotRef) (m : Missing)
      (fetched : Result WalError (Option Bytes)) (w w0 : MemoryStore)
      → Holds w c stored
      → decode stored.body (limits c.opts) ≡ ok remote
      → w0 ≡ w
      → RoundSees w c (rebuild app memory_store disk c remote stored sr m fetched w0)
  unfolding rebuild
  rebuild-RoundSees c remote stored sr m (err e) w w0 holds good same = (tt, same)
  rebuild-RoundSees c remote stored sr m (ok none) w w0 holds good same =
      retry-RoundSees c m stored.etag sr.key w w0 same
  rebuild-RoundSees c remote stored sr m (ok (some bytes)) w w0 holds good same =
      elim (Result-cases (app.restore bytes)) [
        | inl (base, e) ↦ rw (e, rebuild) (adopt-RoundSees c remote stored _ w w0 holds good same)
        | inr (x, e) ↦ rw (e, rebuild) (tt, same)
      ]

  advance-RoundSees :
      (c : Core S) (remote : WalImage) (stored : Stored) (m : Missing) (w : MemoryStore)
      → Holds w c stored
      → decode stored.body (limits c.opts) ≡ ok remote
      → RoundSees w c (advance app memory_store disk c remote stored m w)
  unfolding advance
  advance-RoundSees c remote stored m w holds good =
      elim (Bool-cases (leb (first_lsn remote) (next_lsn c.image))) [
        | inl live ↦ rw live (adopt-RoundSees c remote stored _ w w holds good refl)
        | inr folded ↦ elim (Option-cases remote.snapshot) [
          | inl absent ↦ rw (folded, absent) (tt, refl)
          | inr (sr, is) ↦
              rw (folded, is)
                (rebuild-RoundSees c remote stored sr m _ w _ holds good
                  (fetch_snapshot-same disk apart c.cache sr.key c.opts.max_snapshot_bytes w))
        ]
      ]

  found-RoundSees :
      (c : Core S) (etag : Option Str) (m : Missing) (found : Option Stored) (w : MemoryStore)
      → lookup (wal_key c.opts) w.objects ≡ found
      → RoundSees w c
          (refresh_found app memory_store disk c etag m (ok (compare_etag found etag)) w)
  unfolding refresh_found compare_etag
  found-RoundSees c none m none w is = (record { opts = refl; version = inl (refl, refl) }, refl)
  found-RoundSees c (some x) m none w is = (tt, refl)
  found-RoundSees c none m (some s) w is = elim (Result-cases (decode s.body (limits c.opts))) [
    | inl (remote, e) ↦ rw (e, refresh_found) (advance-RoundSees c remote s m w is e)
    | inr (x, e) ↦ rw (e, refresh_found) (tt, refl)
  ]
  found-RoundSees c (some x) m (some s) w is = elim (Bool-cases (str_eq s.etag x)) [
    | inl same ↦ rw (same, refresh_found) (record { opts = refl; version = inl (refl, refl) }, refl)
    | inr other ↦ elim (Result-cases (decode s.body (limits c.opts))) [
      | inl (remote, e) ↦ rw (other, e, refresh_found) (advance-RoundSees c remote s m w is e)
      | inr (x, e) ↦ rw (other, e, refresh_found) (tt, refl)
    ]
  ]

  pub round-RoundSees :
      (c : Core S) (m : Missing) (w : MemoryStore)
      → RoundSees w c (refresh_round app memory_store disk c m w)
  unfolding refresh_round memory_store default_get_if_changed Memory.get
  round-RoundSees c m w = found-RoundSees c c.etag m (lookup (wal_key c.opts) w.objects) w refl

  -- The loop over rounds, each of which sees the same store.
  abbrev pub AnswerSees :
      MemoryStore → Core S → Result WalError (Refreshed × Core S) × MemoryStore → Type 0
  AnswerSees w c (ok (report, c'), w') = Sees w c c' × (w' ≡ w)
  AnswerSees w c (err e, w') = Unit × (w' ≡ w)

  after_round :
      (next : Missing → MemoryStore → Result WalError (Refreshed × Core S) × MemoryStore)
      (c : Core S) (w : MemoryStore) (step : Step (Refreshed × Core S)) (w0 : MemoryStore)
      → ((m : Missing) → AnswerSees w c (next m w))
      → RoundSees w c (step, w0)
      → AnswerSees w c (continue_with next step w0)
  after_round next c w (done (ok (report, c'))) w0 each r = r
  after_round next c w (done (err e)) w0 each r = r
  after_round next c w (again m) w0 each r =
      subst (λ v. AnswerSees w c (next m v)) (sym r.1) (each m)

  races-AnswerSees :
      (n : ℕ) (operation : Str) (c : Core S) (m : Missing) (w : MemoryStore)
      → AnswerSees w c (races n operation (refresh_round app memory_store disk c) m w)
  unfolding races
  races-AnswerSees zero operation c m w = (tt, refl)
  races-AnswerSees (suc n) operation c m w =
      after_round (races n operation (refresh_round app memory_store disk c)) c w
        (refresh_round app memory_store disk c m w).0 (refresh_round app memory_store disk c m w).1
        (λ m'. races-AnswerSees n operation c m' w) (round-RoundSees c m w)

  pub refresh-AnswerSees :
      (c : Core S) (w : MemoryStore) → AnswerSees w c (refresh app memory_store disk c w)
  unfolding refresh
  refresh-AnswerSees c w = races-AnswerSees max_races (text "refresh") c none w
