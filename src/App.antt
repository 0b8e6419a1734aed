-- ===== src/App.antt =====
-- src/lib.rs: the application half of the log, and the counters that it is shown.
pub mod Reconciling
use waltier.Base.{
  ◌≡◌, refl, ◌⊎◌, inl, inr, ℕ, zero, suc, ◌+◌, Bool, Option, none, some, List, [], ◌∷◌, Result, ok,
  err,
}
use waltier.Base.Bytes.{Bytes}
use waltier.Error.{WalError}
use waltier.Image.{Lsn}

pub record Entry : Type 0 where
  pub lsn : Lsn
  pub body : Bytes

pub record WalStats : Type 0 where
  pub tip : Option Lsn
  pub snapshot_lsn : Option Lsn
  pub live_entries : ℕ
  pub live_entry_bytes : ℕ
  pub image_bytes : ℕ

pub data Reconcile : Type 0 where
  retry : Reconcile
  replace : Bytes → Reconcile
  abort : Reconcile

pub data ReconcileBatch : Type 0 where
  retry : ReconcileBatch
  replace : List Bytes → ReconcileBatch
  abort : ReconcileBatch

pub record WalApp (S : Type 0) : Type 0 where
  pub init : S
  pub apply : S → Lsn → Bytes → S
  pub restore : Bytes → Result WalError S
  pub compact : Option Bytes → List Entry → Result WalError Bytes
  pub should_compact : WalStats → Bool
  pub reconcile_batch : S → List Bytes → ReconcileBatch

pub ReconcileBatch-cases :
    (d : ReconcileBatch)
    → (d ≡ ReconcileBatch.retry)
      ⊎ ((d ≡ ReconcileBatch.abort) ⊎ ((es : List Bytes) × (d ≡ ReconcileBatch.replace es)))
ReconcileBatch-cases ReconcileBatch.retry = inl refl
ReconcileBatch-cases ReconcileBatch.abort = inr (inl refl)
ReconcileBatch-cases (ReconcileBatch.replace es) = inr (inr (es, refl))
