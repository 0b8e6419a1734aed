-- ===== src/Store.antt =====
-- src/store.rs: objects with validators, and the interface that every object store implements. `W` is
-- the state of the world that the operations read and change: the objects, and whatever else other
-- clients and faults bring about between calls.
pub mod Memory
pub mod Directory
use waltier.Base.{
  ℕ, ◌≡◌, Bool, true, false, Option, none, some, List, if◌then◌else◌, Result, ok, err,
}
use waltier.Base.Bytes.{Bytes}
use waltier.Base.Text.{Str, str_eq}
use waltier.Error.{StoreError, not_applied}

pub record Stored : Type 0 where
  pub body : Bytes
  pub etag : Str

pub data CondGet : Type 0 where
  changed : Stored → CondGet
  not_modified missing : CondGet

pub data CondPut : Type 0 where
  accepted : Str → CondPut
  precondition_failed : CondPut

-- The CAS predicate: no expected validator means that the object must be absent.
unfoldable pub cas_matches : Option Str → Option Str → Bool
cas_matches none none = true
cas_matches (some c) (some e) = str_eq c e
cas_matches none (some e) = false
cas_matches (some c) none = false

pub record ObjectStore (W : Type 0) : Type 0 where
  pub cache_namespace : W → Option Str
  pub max_object_bytes : W → Option ℕ
  pub get : Str → W → Result StoreError (Option Stored) × W
  pub get_if_changed : Str → Option Str → W → Result StoreError CondGet × W
  pub put_if_match : Str → Option Str → Bytes → W → Result StoreError CondPut × W
  pub put : Str → Bytes → W → Result StoreError Str × W
  pub delete : Str → W → Result StoreError (Unit {0}) × W

-- The default `get_if_changed` of the trait, from what `get` found.
unfoldable pub compare_etag : Option Stored → Option Str → CondGet
compare_etag none etag = CondGet.missing
compare_etag (some s) none = CondGet.changed s
compare_etag (some s) (some e) = if str_eq s.etag e then CondGet.not_modified else CondGet.changed s

abbrev pub map_ok {ℓ κ} : {E : Type 0} {A : Type ℓ} {B : Type κ} → (A → B) → Result E A → Result E B
map_ok f (ok a) = ok (f a)
map_ok f (err e) = err e

unfoldable pub default_get_if_changed :
    {W : Type 0}
    → (Str → W → Result StoreError (Option Stored) × W)
    → Str
    → Option Str
    → W
    → Result StoreError CondGet × W
unfolding compare_etag
default_get_if_changed get key etag w =
    let (found, w') = get key w in (map_ok (λ s. compare_etag s etag) found, w')

-- An error that claims that a mutation was not applied has changed nothing of what `view` shows.
abbrev pub Honest {ℓ} :
    {A : Type ℓ} {W V : Type 0} → (W → V) → (W → Result StoreError A × W) → Type ℓ
Honest {A} {W} view run =
    (w w' : W) (e : StoreError)
    → ◌≡◌ {A = Result StoreError A × W} (run w) (err e, w')
    → e.mutation_outcome ≡ not_applied
    → view w' ≡ view w
