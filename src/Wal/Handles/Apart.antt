-- ===== src/Wal/Handles/Apart.antt =====
-- The cache files of src/cache.rs beside a MemoryStore: what the log keeps on the disk does not touch the store.
use waltier.Base.{
  ℕ, ◌≡◌, refl, Option, none, some, List, [], ◌∷◌, map, length, ltb, ◌-◌, Result, ok, err, inl, inr,
  Option-cases, Result-cases, if_both,
}
use waltier.Base.Words.{checked_add}
use waltier.Base.Bytes.{Bytes, le_bytes}
use waltier.Base.Text.{Str, text}
use waltier.Base.Assoc.{lookup}
use waltier.Error.{StoreError}
use waltier.Image.{check_limit}
use waltier.Store.{Stored}
use waltier.Store.Memory
use waltier.Store.Memory.{MemoryStore, memory_store}
use waltier.Cache.Files.{Disk}
use waltier.Cache
use waltier.Cache.{Cache}
use waltier.Cache.Frame.{header, sum_checked}
use waltier.Wal.{Core, is_every_commit, record_image_put, fetch_snapshot, accept_snapshot}

-- The files of the cache are not in the store.
pub record IsApart (disk : Disk MemoryStore) : Type 0 where
  pub writes :
      (path : Str) (bytes : Bytes) (w : MemoryStore) → (disk.write_atomic path bytes w).1 ≡ w
  pub removes : (path : Str) (w : MemoryStore) → (disk.remove_file path w).1 ≡ w

module _ (disk : Disk MemoryStore) (apart : IsApart disk) where
  save-same :
      (c : Cache) (path key : Str) (fields : List Bytes) (body : Bytes) (w : MemoryStore)
      → Cache.save disk c path key fields body w ≡ w
  unfolding Cache.save
  save-same c path key fields body w = elim (Option-cases c.identity) [
    | inl absent ↦ rw (absent, Cache.save) refl
    | inr (identity, is) ↦
        elim (Option-cases
          (sum_checked (header ∷ length identity ∷ 8 ∷ length key ∷ map length fields) 0)) [
            | inl over ↦ rw (is, over, Cache.save) refl
            | inr (prefix_len, fits) ↦
                elim (Option-cases (checked_add (prefix_len - header) (length body))) [
                  | inl over ↦ rw (is, fits, over, Cache.save) refl
                  | inr (payload_len, room) ↦
                      rw (is, fits, room, Cache.save) (apart.writes path _ w)
                ]
          ]
  ]

  save_wal-same :
      (c : Cache) (etag : Str) (image : Bytes) (w : MemoryStore)
      → Cache.save_wal disk c etag image w ≡ w
  unfolding Cache.save_wal
  save_wal-same c etag image w =
      if_both (λ v. v ≡ w) (ltb 65535 (length etag)) _ _ refl
        (save-same c (Cache.wal_path c) (text "wal") (le_bytes 2 (length etag) ∷ etag ∷ []) image w)

  pub remove_snapshot-same :
      (c : Cache) (key : Str) (w : MemoryStore) → Cache.remove_snapshot disk c key w ≡ w
  unfolding Cache.remove_snapshot
  remove_snapshot-same c key w = if_both (λ v. v ≡ w) (Cache.enabled c) _ _ (apart.removes _ w) refl

  pub record_image_put-same :
      {S : Type 0} (c : Core S) (etag : Str) (body : Bytes) (w : MemoryStore)
      → (record_image_put memory_store disk c etag body w).1 ≡ w
  unfolding record_image_put
  record_image_put-same c etag body w =
      if_both (λ v. v ≡ w) (is_every_commit c.opts.cache_policy) _ _
        (save_wal-same c.cache etag body w) refl

  accept_snapshot-same :
      (c : Cache) (key : Str) (n : ℕ) (found : Result StoreError (Option Stored)) (w : MemoryStore)
      → (accept_snapshot memory_store disk c key n found w).1 ≡ w
  unfolding accept_snapshot Cache.save_snapshot
  accept_snapshot-same c key n (err e) w = refl
  accept_snapshot-same c key n (ok none) w = refl
  accept_snapshot-same c key n (ok (some s)) w =
      elim (Result-cases (check_limit (text "snapshot bytes") (length s.body) n)) [
        | inl (u, e) ↦ rw (e, accept_snapshot) (save-same c _ key [] s.body w)
        | inr (x, e) ↦ rw (e, accept_snapshot) refl
      ]

  pub fetch_snapshot-same :
      (c : Cache) (key : Str) (n : ℕ) (w : MemoryStore)
      → (fetch_snapshot memory_store disk c key n w).1 ≡ w
  unfolding fetch_snapshot memory_store Memory.get
  fetch_snapshot-same c key n w = elim (Option-cases (Cache.load_snapshot disk c key n w)) [
    | inl absent ↦
        rw (absent, fetch_snapshot) (accept_snapshot-same c key n (ok (lookup key w.objects)) w)
    | inr (bytes, is) ↦ elim (Result-cases (check_limit (text "snapshot bytes") (length bytes) n)) [
      | inl (u, e) ↦ rw (is, e, fetch_snapshot) refl
      | inr (x, e) ↦ rw (is, e, fetch_snapshot) refl
    ]
  ]
