-- ===== src/Tests/Appends.antt =====
-- Whole appends of src/wal.rs: that they return, and the error of one whose PUT fails.
use waltier.Base.{false, Option, none, List, [], ◌∷◌, Result, err}
use waltier.Base.Bytes.{Bytes}
use waltier.Error.{StoreError, WalError, WriteError, unknown}
use waltier.Store.{ObjectStore}
use waltier.Store.Memory.{MemoryStore, memory_store}
use waltier.Wal.Writer.{WalTier}
use waltier.Wal.Writer.Append.{Range, append, write_error}
use waltier.Tests.Logs.{collect, no_disk, host, writer, world}

abbrev batch : List Bytes
batch = (b'c' ∷ []) ∷ (b'd' ∷ []) ∷ []

-- A store whose conditional PUTs fail with an unknown outcome.
abbrev lost : StoreError
lost = record {
  message = b'x' ∷ [];
  mutation_outcome = unknown;
  operation = none;
  key = none;
  status = none;
}

abbrev failing : ObjectStore MemoryStore
failing = record memory_store { put_if_match = λ key etag body w. (err lost, w) }

abbrev error : WriteError
error = write_error batch (WalError.store lost) unknown

abbrev failed : Option (Result WriteError Range) × WalTier (List Bytes) × MemoryStore
failed = append collect failing no_disk host batch false writer world
