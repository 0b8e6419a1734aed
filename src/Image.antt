-- ===== src/Image.antt =====
-- src/image.rs: the byte format of the WAL object. Here are the data and the queries on log
-- sequence numbers; the children hold the encoder, the reader and the decoder, and the proofs.
pub mod Encode
pub mod Reader
pub mod Reads
pub mod Decode
pub mod Parts
pub mod RoundTrip
pub mod Canonical
pub mod Accepted
pub mod Lsns
use waltier.Base.{
  ℕ, zero, suc, ◌+◌, ◌-◌, ◌≡◌, ◌<◌, Option, none, some, List, [], ◌∷◌, length, drop, ltb, true,
  if◌then◌else◌, Result, ok, err,
}
use waltier.Base.Words.{u64_mod, wrapping_add, checked_add, checked_sub}
use waltier.Base.Bytes.{Bytes}
use waltier.Base.Text.{Str, is_utf8}
use waltier.Error.{WalError, limit_exceeded}

abbrev pub Lsn : Type 0
Lsn = ℕ

pub record ImageLimits : Type 0 where
  pub bytes : ℕ
  pub entries : ℕ

unfoldable pub check_limit : Str → ℕ → ℕ → Result WalError (Unit {0})
check_limit resource actual limit =
    if ltb limit actual then err (limit_exceeded resource limit actual) else ok tt

pub record SnapshotRef : Type 0 where
  pub key : Str
  pub lsn : Lsn

pub record WalImage : Type 0 where
  pub snapshot : Option SnapshotRef
  pub entries : List Bytes

-- The LSN behind the last of `count` entries, if it fits 64 bits.
unfoldable pub check_lsn : Option SnapshotRef → ℕ → Option Lsn
check_lsn none count = checked_add 0 count
check_lsn (some s) count = elim (checked_add s.lsn 1) [
  | none ↦ none
  | some first ↦ checked_add first count
]

abbrev pub empty : WalImage
empty = record { snapshot = none; entries = [] }

abbrev pub first_of : Option SnapshotRef → Lsn
first_of none = 0
first_of (some s) = wrapping_add s.lsn 1

unfoldable pub first_lsn : WalImage → Lsn
first_lsn image = first_of image.snapshot

unfoldable pub next_lsn : WalImage → Lsn
unfolding first_lsn
next_lsn image = wrapping_add (first_lsn image) (length image.entries)

unfoldable pub tip : WalImage → Option Lsn
unfolding next_lsn
tip image = checked_sub (next_lsn image) 1

abbrev sum_lengths : List Bytes → ℕ
sum_lengths [] = 0
sum_lengths (e ∷ es) = length e + sum_lengths es

unfoldable pub entry_bytes : WalImage → ℕ
entry_bytes image = sum_lengths image.entries

-- The entries from index `i` on with their LSNs, where the list starts at LSN `lsn`.
unfoldable pub numbered : Lsn → List Bytes → List (Lsn × Bytes)
numbered lsn [] = []
numbered lsn (e ∷ es) = (lsn, e) ∷ numbered (wrapping_add lsn 1) es

-- Entries with LSN at least `lsn`, in order: skip by the distance from the first.
unfoldable pub entries_from : WalImage → Lsn → List (Lsn × Bytes)
unfolding first_lsn numbered
entries_from image lsn = drop (lsn - first_lsn image) (numbered (first_lsn image) image.entries)

-- What `from_utf8` guarantees of a snapshot's key, and `u64` of its LSN.
abbrev pub IsRef : Option SnapshotRef → Type 0
IsRef none = Unit
IsRef (some s) = (is_utf8 s.key ≡ true) × (s.lsn < u64_mod)

-- No LSN of the image, nor the one behind its last entry, leaves 64 bits.
pub record IsValid (image : WalImage) : Type 0 where
  pub reference : IsRef image.snapshot
  pub fits : (next : Lsn) × (check_lsn image.snapshot (length image.entries) ≡ some next)
