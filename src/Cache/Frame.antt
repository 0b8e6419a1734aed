-- ===== src/Cache/Frame.antt =====
-- The framing of the files of src/cache.rs: magic, checksum, payload length, payload.
use waltier.Base.{
  ℕ, not, ◌||◌, Option, none, some, List, [], ◌∷◌, ◌++◌, length, take, drop, ltb, ◌==◌,
  if◌then◌else◌,
}
use waltier.Base.Words.{checked_add}
use waltier.Base.Bytes.{Bytes, le_bytes, from_le_bytes}
use waltier.Base.Text.{Str, str_eq}
use waltier.Cache.Files.{Disk}
use waltier.Cache.Checksum.{checksum, checksum_parts}

-- b"WTC2"
abbrev pub magic : Bytes
magic = 0x57 ∷ 0x54 ∷ 0x43 ∷ 0x32 ∷ []

abbrev pub header : ℕ
header = 20

-- `strip_prefix`
unfoldable pub strip_prefix : Bytes → Bytes → Option Bytes
strip_prefix [] bytes = some bytes
strip_prefix (p ∷ ps) [] = none
strip_prefix (p ∷ ps) (b ∷ bs) = if p == b then strip_prefix ps bs else none

-- What the framing says of a file's contents.
unfoldable pub check_frame : Bytes → ℕ → Option Bytes
check_frame file limit =
    let sum = from_le_bytes (take 8 (drop 4 file)) in
    let len = from_le_bytes (take 8 (drop 12 file)) in
    let payload = drop header file in
    if ltb limit (length file)
    then none
    else if ltb (length file) header || not (str_eq (take 4 file) magic)
    then none
    else if not (length payload == len) || not (checksum payload == sum)
    then none
    else some payload

unfoldable pub read_checked : {W : Type 0} → Disk W → Str → ℕ → W → Option Bytes
unfolding check_frame
read_checked disk path max_payload w = elim (checked_add max_payload header) [
  | none ↦ none
  | some limit ↦ elim (disk.read_file path w) [ none ↦ none | some file ↦ check_frame file limit ]
]

-- `try_fold(0, checked_add)`
unfoldable pub sum_checked : List ℕ → ℕ → Option ℕ
sum_checked [] total = some total
sum_checked (n ∷ ns) total = elim (checked_add total n) [
  | none ↦ none
  | some next ↦ sum_checked ns next
]

-- The bytes of a file: the header, the metadata, the body.
unfoldable pub frame : Bytes → Bytes → ℕ → Bytes
frame metadata body payload_len =
    magic
    ++ (le_bytes 8 (checksum_parts payload_len (metadata ∷ body ∷ []))
        ++ (le_bytes 8 payload_len ++ (metadata ++ body)))
