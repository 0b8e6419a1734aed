-- ===== src/Image/Decode.antt =====
-- `WalImage::decode` of src/image.rs.
use waltier.Base.{
  ℕ, zero, suc, ◌/◌, Bool, true, false, Option, none, some, List, [], ◌∷◌, length, ltb, ◌==◌,
  if◌then◌else◌, Result, ok, err, ◌>>=◌, ◌>>◌,
}
use waltier.Base.Bytes.{Bytes}
use waltier.Base.Text.{Str, text, str_eq, from_utf8}
use waltier.Error.{WalError, corrupt}
use waltier.Image.{ImageLimits, SnapshotRef, WalImage, check_limit, check_lsn}
use waltier.Image.Encode.{magic}
use waltier.Image.Reader.{Reader, Parsed, remaining, read, read_u8, read_u32, read_u64}

-- `if bad { return Err(Corrupt(message)) }`
abbrev pub reject_if : Bool → Str → Result WalError (Unit {0})
reject_if true message = err (corrupt message)
reject_if false message = ok tt

abbrev pub ok_or_corrupt {ℓ} : {A : Type ℓ} → Option A → Str → Result WalError A
ok_or_corrupt none message = err (corrupt message)
ok_or_corrupt (some a) message = ok a

unfoldable pub read_reference : Reader → Parsed (Option SnapshotRef)
read_reference r = do
  (lsn, r1) ← read_u64 r
  (key_len, r2) ← read_u32 r1
  (raw, r3) ← read r2 key_len
  key ← ok_or_corrupt (from_utf8 raw) (text "snapshot key is not utf8")
  ok (some (record { key = key; lsn = lsn }), r3)

unfoldable pub read_snapshot : Reader → Parsed (Option SnapshotRef)
read_snapshot r = do
  (flag, r1) ← read_u8 r
  if flag == 0
      then ok (none, r1)
      else if flag == 1
      then read_reference r1
      else err (corrupt (text "bad snapshot flag"))

unfoldable pub read_entries : ℕ → Reader → Parsed (List Bytes)
read_entries zero r = ok ([], r)
read_entries (suc count) r = do
  (len, r1) ← read_u32 r
  (entry, r2) ← read r1 len
  (entries, r3) ← read_entries count r2
  ok (entry ∷ entries, r3)

-- All that follows the magic bytes.
unfoldable pub decode_parts : Reader → ImageLimits → Result WalError WalImage
decode_parts r1 limits = do
  (snapshot, r2) ← read_snapshot r1
  (count, r3) ← read_u32 r2
  _ ← ok_or_corrupt (check_lsn snapshot count) (text "snapshot/entry LSN overflow")
  reject_if (ltb (remaining r3 / 4) count) (text "entry count exceeds remaining body")
  check_limit (text "live entries") count limits.entries
  (entries, r4) ← read_entries count r3
  reject_if (ltb 0 (remaining r4)) (text "trailing bytes")
  ok (record { snapshot = snapshot; entries = entries })

unfoldable pub decode : Bytes → ImageLimits → Result WalError WalImage
unfolding decode_parts
decode bytes limits = do
  check_limit (text "WAL image bytes") (length bytes) limits.bytes
  (mark, r1) ← read (record { bytes = bytes; pos = 0 }) 4
  if str_eq mark magic then decode_parts r1 limits else err (corrupt (text "bad magic"))
