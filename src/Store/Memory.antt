-- ===== src/Store/Memory.antt =====
-- `MemoryStore` of src/store.rs: a map of objects and a counter for validators.
pub mod Versions
use waltier.Base.{
  ℕ, ◌+◌, ◌≡◌, Option, none, some, List, [], ◌∷◌, ◌++◌, map, if◌then◌else◌, Result, ok, err,
}
use waltier.Base.Words.{wrapping_add}
use waltier.Base.Bytes.{Bytes}
use waltier.Base.Text.{Str, text, decimal}
use waltier.Base.Assoc.{lookup, insert, remove}
use waltier.Error.{StoreError}
use waltier.Store.{
  Stored, CondPut, accepted, precondition_failed, cas_matches, ObjectStore, default_get_if_changed,
}

pub record MemoryStore : Type 0 where
  pub objects : List (Str × Stored)
  pub next_etag : ℕ
  pub namespace : Option Str

-- `MemoryStore::default`, where `id` is the identifier that `unique_id` returned, if it did.
unfoldable pub new : Option Str → MemoryStore
new id = record {
  objects = [];
  next_etag = 0;
  namespace = elim id [ none ↦ none | some i ↦ some (text "memory:" ++ i) ];
}

-- The validator with number `n`: the number in quotation marks.
abbrev pub etag_of : ℕ → Str
etag_of n = b'"' ∷ (decimal n ++ b'"' ∷ [])

-- `fresh_etag`: `fetch_add` wraps around.
unfoldable pub fresh_etag : MemoryStore → Str × MemoryStore
fresh_etag s = (etag_of s.next_etag, record s { next_etag = wrapping_add s.next_etag 1 })

unfoldable pub get : Str → MemoryStore → Result StoreError (Option Stored) × MemoryStore
get key s = (ok (lookup key s.objects), s)

abbrev pub etag_at : Str → MemoryStore → Option Str
etag_at key s = elim (lookup key s.objects) [ none ↦ none | some o ↦ some o.etag ]

unfoldable pub put : Str → Bytes → MemoryStore → Result StoreError Str × MemoryStore
unfolding fresh_etag
put key body s =
    let (etag, s') = fresh_etag s in
    (ok etag, record s' { objects = insert key (record { body = body; etag = etag }) s'.objects })

unfoldable pub put_if_match :
    Str → Option Str → Bytes → MemoryStore → Result StoreError CondPut × MemoryStore
unfolding fresh_etag
put_if_match key etag body s =
    let (new_etag, s') = fresh_etag s in
    if cas_matches (etag_at key s) etag
    then (
      ok (accepted new_etag),
      record s' { objects = insert key (record { body = body; etag = new_etag }) s'.objects },
    )
    else (ok precondition_failed, s)

unfoldable pub delete : Str → MemoryStore → Result StoreError (Unit {0}) × MemoryStore
delete key s = (ok tt, record s { objects = remove key s.objects })

unfoldable pub memory_store : ObjectStore MemoryStore
unfolding get put put_if_match delete default_get_if_changed
memory_store = record {
  cache_namespace = λ s. s.namespace;
  max_object_bytes = λ s. none;
  get = get;
  get_if_changed = default_get_if_changed get;
  put_if_match = put_if_match;
  put = put;
  delete = delete;
}
