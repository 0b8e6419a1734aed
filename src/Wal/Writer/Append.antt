-- ===== src/Wal/Writer/Append.antt =====
-- `append`, `write` and `write_batch` of src/wal.rs. A result `none` stands for a panic of the source.
pub mod Committed
pub mod Returns
pub mod Failed
pub mod Applies
pub mod Kept
pub mod Ranges
use waltier.Base.{
  ℕ, zero, suc, ◌+◌, ◌≡◌, Bool, true, false, not, ◌&&◌, Option, none, some, List, [], ◌∷◌, ◌++◌,
  length, ◌==◌, if◌then◌else◌, Result, ok, err,
}
use waltier.Base.Words.{wrapping_add}
use waltier.Base.Bytes.{Bytes}
use waltier.Base.Text.{Str, text}
use waltier.Error.{
  MutationOutcome, WalError, WriteError, contention, reconcile_aborted, invalid_replacement,
}
use waltier.Image.{Lsn, WalImage, next_lsn, numbered}
use waltier.Store.{ObjectStore}
use waltier.App.{WalApp, ReconcileBatch}
use waltier.Cache.Files.{Disk}
use waltier.Wal.{Options, Core, apply_all}
use waltier.Wal.Compactor.{Host}
use waltier.Wal.Writer.{WalTier, InstallError, try_install}
use waltier.Wal.Writer.Maintenance.{sync_compaction, maybe_trigger_compaction}

abbrev pub Range : Type 0
Range = Lsn × Lsn

abbrev pub write_error : List Bytes → WalError → MutationOutcome → WriteError
write_error entries source outcome = record {
  entries = entries;
  source = source;
  outcome = outcome;
}

abbrev pub rejected : List Bytes → WalError → Option (Result WriteError Range)
rejected entries source = some (err (write_error entries source MutationOutcome.not_applied))

module _ {S W : Type 0} (app : WalApp S) (store : ObjectStore W) (disk : Disk W)
    (host : Host W) where
  -- The PUT was accepted: apply the entries and append them to the image.
  unfoldable pub commit : WalTier S → Lsn → List Bytes → WalTier S
  commit t first entries =
      let image : WalImage = record (t.core.image) { entries = t.core.image.entries ++ entries } in
      let state = apply_all app t.core.state (numbered first entries) in
      record t { core = record (t.core) { state = state; image = image } }

  abbrev pub Appended : Type 0
  Appended = Option (Result WriteError Range) × WalTier S × W

  -- After a lost CAS that was not the last attempt: what the application decides. The next attempt
  -- is handed in.
  unfoldable pub reconcile_with :
      (List Bytes → Appended) → WalTier S → List Bytes → Bool → W → Appended
  reconcile_with next t entries single w = elim (app.reconcile_batch t.core.state entries) [
    | ReconcileBatch.retry ↦ next entries
    | ReconcileBatch.replace replacement ↦
        if single && not (length replacement == 1)
        then (rejected replacement (invalid_replacement (length replacement)), t, w)
        else next replacement
    | ReconcileBatch.abort ↦ (rejected entries reconcile_aborted, t, w)
  ]

  -- What the loop does with the answer of one attempt at the LSN `first`.
  unfoldable pub attempted :
      (List Bytes → WalTier S → W → Appended)
      → Lsn
      → ℕ
      → List Bytes
      → Bool
      → Option (Result InstallError Bool)
      → WalTier S
      → W
      → Appended
  unfolding commit reconcile_with
  attempted next first attempt entries single none t w = (none, t, w)
  attempted next first attempt entries single (some (err e)) t w =
      (some (err (write_error entries e.source e.outcome)), t, w)
  attempted next first attempt entries single (some (ok true)) t w =
      let (triggered, t', w') =
        maybe_trigger_compaction app store disk host (commit t first entries) w in
      (
        elim triggered [
          | none ↦ none
          | some started ↦ some (ok (first, wrapping_add first (length entries)))
        ],
        t',
        w',
      )
  attempted next first attempt entries single (some (ok false)) t w =
      if attempt == t.core.opts.max_write_attempts
      then (rejected entries (contention (text "write") attempt), t, w)
      else reconcile_with (λ entries'. next entries' t w) t entries single w

  abbrev is_empty : List Bytes → Bool
  is_empty [] = true
  is_empty (e ∷ es) = false

  -- `n` attempts are left; behind the last stands `unreachable!`.
  unfoldable pub append_loop : ℕ → ℕ → Bool → List Bytes → WalTier S → W → Appended
  unfolding attempted
  append_loop zero attempt single entries t w = (none, t, w)
  append_loop (suc n) attempt single entries t w =
      let first = next_lsn t.core.image in
      if is_empty entries
      then (some (ok (first, first)), t, w)
      else (let (installed, t1, w1) = try_install app store disk t entries w in
          attempted (append_loop n (attempt + 1) single) first attempt entries single installed t1
            w1)

  unfoldable pub append : List Bytes → Bool → WalTier S → W → Appended
  unfolding append_loop
  append entries single t w =
      let (t1, w1) = sync_compaction app store disk host t w in
      append_loop t1.core.opts.max_write_attempts 1 single entries t1 w1

  abbrev start_of : Option (Result WriteError Range) → Option (Result WriteError Lsn)
  start_of none = none
  start_of (some (err e)) = some (err e)
  start_of (some (ok (start, end))) = some (ok start)

  unfoldable pub write : Bytes → WalTier S → W → Option (Result WriteError Lsn) × WalTier S × W
  unfolding append
  write entry t w =
      let (appended, t', w') = append (entry ∷ []) true t w in (start_of appended, t', w')

  unfoldable pub write_batch : List Bytes → WalTier S → W → Appended
  unfolding append
  write_batch entries t w = append entries false t w
