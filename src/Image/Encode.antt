-- ===== src/Image/Encode.antt =====
-- `WalImage::encode_view` and `WalImage::encode` of src/image.rs.
use waltier.Base.{
  ℕ, Option, none, some, List, [], ◌∷◌, ◌++◌, length, drop, min, or_else, Result, ok, err, ◌>>=◌,
  ◌>>◌,
}
use waltier.Base.Words.{u32_max, checked_add, checked_sub, as_u32}
use waltier.Base.Bytes.{Bytes, le_bytes}
use waltier.Base.Text.{text}
use waltier.Error.{WalError, lsn_exhausted}
use waltier.Image.{ImageLimits, SnapshotRef, WalImage, check_limit, check_lsn}

-- b"WTL1"
abbrev pub magic : Bytes
magic = 0x57 ∷ 0x54 ∷ 0x4c ∷ 0x31 ∷ []

-- `let Some(n) = … else { return Err(WalError::LsnExhausted) }`
abbrev pub or_exhausted {ℓ} : {A : Type ℓ} → Option A → Result WalError A
or_exhausted none = err lsn_exhausted
or_exhausted (some a) = ok a

-- `a.checked_add(b).and_then(|n| n.checked_add(c))`
abbrev pub checked_add_two : ℕ → ℕ → ℕ → Option ℕ
checked_add_two a b c = elim (checked_add a b) [ none ↦ none | some n ↦ checked_add n c ]

unfoldable pub live_count : ℕ → ℕ → ℕ → Option ℕ
live_count total skip more = elim (checked_sub total skip) [
  | none ↦ none
  | some kept ↦ checked_add kept more
]

unfoldable pub snapshot_size : Option SnapshotRef → ℕ → Result WalError ℕ
snapshot_size none size = ok size
snapshot_size (some s) size = do
  check_limit (text "snapshot key bytes") (length s.key) u32_max
  or_exhausted (checked_add_two size 12 (length s.key))

unfoldable pub entries_size : List Bytes → ℕ → Result WalError ℕ
entries_size [] size = ok size
entries_size (e ∷ es) size = do
  check_limit (text "entry bytes") (length e) u32_max
  next_size ← or_exhausted (checked_add_two size 4 (length e))
  entries_size es next_size

unfoldable pub put_snapshot : Option SnapshotRef → Bytes
put_snapshot none = 0 ∷ []
put_snapshot (some s) = 1 ∷ (le_bytes 8 s.lsn ++ (le_bytes 4 (as_u32 (length s.key)) ++ s.key))

unfoldable pub put_entries : List Bytes → Bytes
put_entries [] = []
put_entries (e ∷ es) = le_bytes 4 (as_u32 (length e)) ++ (e ++ put_entries es)

unfoldable pub put_image : Option SnapshotRef → ℕ → List Bytes → Bytes
put_image snapshot count entries =
    magic ++ (put_snapshot snapshot ++ (le_bytes 4 (as_u32 count) ++ put_entries entries))

-- The image with `snapshot` in place of its own, `skip` entries dropped and `extra` appended.
unfoldable pub encode_view :
    WalImage → Option SnapshotRef → ℕ → List Bytes → ImageLimits → Result WalError Bytes
encode_view image snapshot skip extra limits = do
  let chosen = or_else snapshot image.snapshot
  count ← or_exhausted (live_count (length image.entries) skip (length extra))
  check_limit (text "live entries") count (min limits.entries u32_max)
  _ ← or_exhausted (check_lsn chosen count)
  size ← snapshot_size chosen 9
  let entries = drop skip image.entries ++ extra
  total ← entries_size entries size
  check_limit (text "WAL image bytes") total limits.bytes
  ok (put_image chosen count entries)

unfoldable pub encode : WalImage → ImageLimits → Result WalError Bytes
encode image limits = encode_view image none 0 [] limits
