-- ===== src/Tests/Images.antt =====
-- Images of src/image.rs: runs on small inputs, and the theorems at them.
use waltier.Base.{
  ◌+◌, ◌-◌, ◌^◌, ◌≤◌, ◌<◌, ◌≡◌, refl, none, some, [], ◌∷◌, length, leb, if◌then◌else◌, ok, arith,
}
use waltier.Base.Bytes.{Bytes}
use waltier.Base.Text.{text, is_utf8, str_eq, from_utf8}
use waltier.Image.{
  ImageLimits, SnapshotRef, WalImage, IsValid, check_limit, check_lsn, first_lsn, next_lsn, tip,
  entries_from,
}
use waltier.Image.Encode.{
  live_count, snapshot_size, entries_size, put_snapshot, put_entries, put_image, encode_view,
  encode,
}
use waltier.Image.Reader.{advance, read, read_u8, read_u32, read_u64}
use waltier.Image.Decode.{read_reference, read_snapshot, read_entries, decode}
use waltier.Image.RoundTrip.{decode-encode_view}
use waltier.Image.Accepted.{encode-decode, decode-IsValid}
use waltier.Image.Lsns.{enumerate_from, at_least, next_lsn_exact, entries_from-at_least}

abbrev small : ImageLimits
small = record { bytes = 4096; entries = 100 }

abbrev folded : WalImage
folded = record {
  snapshot = some (record { key = text "snap/x"; lsn = 41 });
  entries = (b'o' ∷ b'n' ∷ []) ∷ [] ∷ (b't' ∷ []) ∷ [];
}

abbrev plain : WalImage
plain = record { snapshot = none; entries = (b'a' ∷ []) ∷ (b'b' ∷ []) ∷ (b'c' ∷ []) ∷ [] }

abbrev fold : SnapshotRef
fold = record { key = 115 ∷ []; lsn = 1 }

-- The fold of two entries, with one more entry behind.
abbrev folded_bytes : Bytes
folded_bytes =
    0x57 ∷ 0x54 ∷ 0x4c ∷ 0x31 ∷ 1 ∷ 1 ∷ 0 ∷ 0 ∷ 0 ∷ 0 ∷ 0 ∷ 0 ∷ 0 ∷ 1 ∷ 0 ∷ 0 ∷ 0 ∷ 115 ∷ 2 ∷ 0 ∷ 0
    ∷ 0 ∷ 1 ∷ 0 ∷ 0 ∷ 0 ∷ b'c' ∷ 2 ∷ 0 ∷ 0 ∷ 0 ∷ b'd' ∷ b'e' ∷ []

encode_view_run : encode_view plain (some fold) 2 ((b'd' ∷ b'e' ∷ []) ∷ []) small ≡ ok folded_bytes
unfolding encode_view live_count check_limit check_lsn snapshot_size entries_size put_image
    put_snapshot put_entries
encode_view_run = refl

decode_run :
    decode folded_bytes small
    ≡ ok (record { snapshot = some fold; entries = (b'c' ∷ []) ∷ (b'd' ∷ b'e' ∷ []) ∷ [] })
unfolding decode check_limit check_lsn read advance read_snapshot read_u8 read_reference read_u64
    read_u32 from_utf8 read_entries str_eq
decode_run = refl

decode-encode_view_example :
    decode folded_bytes small
    ≡ ok (record { snapshot = some fold; entries = (b'c' ∷ []) ∷ (b'd' ∷ b'e' ∷ []) ∷ [] })
unfolding is_utf8
decode-encode_view_example =
    decode-encode_view plain (some fold) 2 ((b'd' ∷ b'e' ∷ []) ∷ []) small folded_bytes
      (refl, omega arith) encode_view_run

abbrev decoded : WalImage
decoded = record { snapshot = some fold; entries = (b'c' ∷ []) ∷ (b'd' ∷ b'e' ∷ []) ∷ [] }

encode-decode_example : encode decoded small ≡ ok folded_bytes
encode-decode_example =
    encode-decode folded_bytes small decoded (omega arith) (omega arith) decode_run

decode-IsValid_example :
    IsValid decoded × (length decoded.entries ≤ small.entries) × (length folded_bytes ≤ small.bytes)
decode-IsValid_example = decode-IsValid folded_bytes small decoded (omega arith) decode_run

folded-IsValid : IsValid folded
unfolding is_utf8 check_lsn text
folded-IsValid = record { reference = (refl, omega arith); fits = (45, refl) }

next_lsn_exact_example :
    (next_lsn folded ≡ first_lsn folded + 3)
    × (next_lsn folded < 2 ^ 64)
    × (tip folded ≡ (if leb 1 (next_lsn folded) then some (next_lsn folded - 1) else none))
next_lsn_exact_example = next_lsn_exact folded folded-IsValid

entries_from_run : entries_from folded 43 ≡ (43, []) ∷ (44, b't' ∷ []) ∷ []
unfolding entries_from
entries_from_run = refl

entries_from-at_least_example :
    entries_from folded 43 ≡ at_least 43 (enumerate_from (first_lsn folded) folded.entries)
entries_from-at_least_example = entries_from-at_least folded 43 folded-IsValid
