-- ===== src/Error.antt =====
-- src/error.rs: the errors of the store and of the log, and what they say of a failed mutation.
pub mod StoreErrors
use waltier.Base.{ℕ, List, ◌++◌, Option, none, some}
use waltier.Base.Text.{Str, text, decimal}

pub data StoreOperation : Type 0 where
  get put delete : StoreOperation

pub data MutationOutcome : Type 0 where
  not_applied unknown : MutationOutcome

pub record StoreError : Type 0 where
  pub message : Str
  pub operation : Option StoreOperation
  pub key : Option Str
  pub status : Option ℕ
  pub mutation_outcome : MutationOutcome

pub data WalError : Type 0 where
  -- the resource, its limit and the actual size
  limit_exceeded : Str → ℕ → ℕ → WalError
  invalid_options : Str → WalError
  lsn_exhausted : WalError
  reconcile_aborted : WalError
  contention : Str → ℕ → WalError
  invalid_replacement : ℕ → WalError
  compaction : Str → WalError
  store : StoreError → WalError
  io : Str → WalError
  corrupt : Str → WalError
  app : Str → WalError

-- The `Display` that the `#[error]` attributes derive.
unfoldable pub display : WalError → Str
display (limit_exceeded resource limit actual) =
    resource ++ (text " limit exceeded: " ++ (decimal actual ++ (text " > " ++ decimal limit)))
display (invalid_options m) = text "invalid options: " ++ m
display lsn_exhausted = text "LSN space exhausted"
display reconcile_aborted = text "application aborted batch reconciliation"
display (contention operation attempts) =
    operation
    ++ (text " contention budget exhausted after " ++ (decimal attempts ++ text " attempts"))
display (invalid_replacement actual) =
    text "write requires exactly one replacement entry, got " ++ decimal actual
display (compaction m) = text "compaction: " ++ m
display (store e) = text "storage: " ++ e.message
display (io m) = text "io: " ++ m
display (corrupt m) = text "corrupt wal: " ++ m
display (app m) = text "app: " ++ m

-- A failed append: the batch last attempted, the cause, and whether it may have landed.
pub record WriteError : Type 0 where
  pub entries : List (List ℕ)
  pub source : WalError
  pub outcome : MutationOutcome
