-- ===== src/Wal/Writer/Append/Failed.antt =====
-- Where the errors of `append` in src/wal.rs come from, and what they say of the batch.
use waltier.Base.{ℕ, ◌≡◌, Bool, false, Option, some, List, length, Result, ok, err, ◌⊎◌}
use waltier.Base.Bytes.{Bytes}
use waltier.Base.Text.{Str, text}
use waltier.Error.{StoreError, not_applied, WalError, WriteError, contention}
use waltier.Store.{CondPut, ObjectStore}
use waltier.App.{WalApp}
use waltier.Cache.Files.{Disk}
use waltier.Wal.{Core, wal_key}
use waltier.Wal.Refresh.{refresh}
use waltier.Wal.Writer.{WalTier, InstallError, candidate}
use waltier.Wal.Writer.Append.{Range, write_error, reconcile_aborted, invalid_replacement}

module _ {S W : Type 0} (app : WalApp S) (store : ObjectStore W) (disk : Disk W) where
  -- A PUT of these entries under the validator that the handle held, and what the store answered.
  pub record Put (entries : List Bytes) (answer : Result StoreError CondPut) : Type 0 where
    pub at : WalTier S
    pub held : Str
    pub body : Bytes
    pub before : W
    pub after : W
    pub etag : at.core.etag ≡ some held
    pub carried : candidate at entries ≡ ok body
    pub put : store.put_if_match (wal_key at.core.opts) (some held) body before ≡ (answer, after)

  -- A PUT that the store failed: it carried exactly the entries of the error, and the error passes its cause
  -- and its outcome on.
  pub record PutFailed (e : WriteError) : Type 0 where
    pub cause : StoreError
    pub sent : Put e.entries (err cause)
    pub source : e.source ≡ WalError.store cause
    pub outcome : e.outcome ≡ cause.mutation_outcome

  abbrev pub Lost : List Bytes → Type 0
  Lost entries = Put entries (ok CondPut.precondition_failed)

  -- Why a batch was not applied: it was never sent, or its PUT was lost to another writer, and then the
  -- refresh failed, the attempts were used up, or the application gave up or replaced a single entry by several.
  pub data Unapplied (e : WriteError) : Type 0 where
    unencodable : (t : WalTier S) → candidate t e.entries ≡ err e.source → Unapplied e
    unrefreshed :
        (c : Core S) (w w' : W)
        → Lost e.entries
        → refresh app store disk c w ≡ (err e.source, w')
        → Unapplied e
    contended :
        (attempts : ℕ)
        → Lost e.entries
        → e.source ≡ contention (text "write") attempts
        → Unapplied e
    aborted : Lost e.entries → e.source ≡ reconcile_aborted → Unapplied e
    misreplaced :
        (old : List Bytes)
        → Lost old
        → e.source ≡ invalid_replacement (length e.entries)
        → Unapplied e

  abbrev pub FailsWith : WriteError → Type 0
  FailsWith e = ((e.outcome ≡ not_applied) × Unapplied e) ⊎ PutFailed e

  abbrev pub Origin : Option (Result WriteError Range) → Type 0
  Origin (some (err e)) = FailsWith e
  Origin _ = Unit

  abbrev TryOrigin : List Bytes → Option (Result InstallError Bool) → Type 0
  TryOrigin extra (some (err e)) = FailsWith (write_error extra e.source e.outcome)
  TryOrigin extra (some (ok false)) = Lost extra
  TryOrigin extra _ = Unit
