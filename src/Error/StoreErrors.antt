-- ===== src/Error/StoreErrors.antt =====
-- The constructor and the builders of `StoreError` in src/error.rs.
use waltier.Base.{ℕ, Option, none, some}
use waltier.Base.Text.{Str}
use waltier.Error.{StoreOperation, MutationOutcome, StoreError}

-- A new error never implies that a mutation did not land.
unfoldable pub new : Str → StoreError
new message = record {
  message = message;
  operation = none;
  key = none;
  status = none;
  mutation_outcome = MutationOutcome.unknown;
}

unfoldable pub not_applied : StoreError → StoreError
not_applied e = record e { mutation_outcome = MutationOutcome.not_applied }

unfoldable pub with_context : StoreError → StoreOperation → Str → Option ℕ → StoreError
with_context e op key status = record e { operation = some op; key = some key; status = status }
