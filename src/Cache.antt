-- ===== src/Cache.antt =====
-- src/cache.rs: the warm-start cache of the WAL image and of one snapshot, in checksummed files.
pub mod Files
pub mod Checksum
pub mod Frame
pub mod Atomic
pub mod Framed
pub mod RoundTrip
use mathlib.Core.List.{reverse, flatten}
use waltier.Base.{
  ℕ, ◌+◌, ◌-◌, ◌/◌, ◌%◌, ◌≡◌, Bool, true, false, not, ◌&&◌, Option, none, some, is_some, List, [],
  ◌∷◌, ◌++◌, length, take, drop, map, ltb, ◌==◌, if◌then◌else◌,
}
use waltier.Base.Words.{checked_add}
use waltier.Base.Bytes.{Bytes, le_bytes, from_le_bytes}
use waltier.Base.Text.{Str, text, decimal, str_eq, from_utf8}
use waltier.Cache.Files.{Disk, join}
use waltier.Cache.Checksum.{checksum}
use waltier.Cache.Frame.{header, read_checked, frame, strip_prefix, sum_checked}

pub record Cache : Type 0 where
  pub dir : Str
  pub identity : Option Bytes

unfoldable pub disabled : Cache
disabled = record { dir = []; identity = none }

-- The identity of a log: each part behind its length.
unfoldable pub identity_of : Str → Str → Bytes
identity_of ns wal_key =
    decimal (length ns) ++ (b':' ∷ (ns ++ (decimal (length wal_key) ++ (b':' ∷ wal_key))))

unfoldable pub enabled : Cache → Bool
enabled c = is_some c.identity

unfoldable pub wal_path : Cache → Str
wal_path c = join c.dir (text "wal.cache")

unfoldable pub hex_digit : ℕ → ℕ
hex_digit n = if ltb n 10 then 48 + n else 87 + n

-- `hex`: two lower-case digits for each byte.
unfoldable pub hex : Bytes → Str
unfolding hex_digit
hex [] = []
hex (b ∷ bs) = hex_digit (b / 16) ∷ (hex_digit (b % 16) ∷ hex bs)

-- The name of a snapshot's file is a lookup hint only: the record inside holds the whole key.
unfoldable pub snap_path : Cache → Str → Str
unfolding hex
snap_path c key = join c.dir (text "snap-" ++ hex (reverse (le_bytes 8 (checksum key))))

-- What a payload says of its identity and its key; what is behind them.
unfoldable pub payload_body : Bytes → Bytes → Bytes → Option Bytes
unfolding strip_prefix
payload_body identity key payload = elim (strip_prefix identity payload) [
  | none ↦ none
  | some rest ↦
      if ltb (length rest) 8
      then none
      else if from_le_bytes (take 8 rest) == length key
      then strip_prefix key (drop 8 rest)
      else none
]

abbrev pub metadata : Bytes → Bytes → List Bytes → Bytes
metadata identity key fields = identity ++ (le_bytes 8 (length key) ++ (key ++ flatten fields))

-- The etag of a cached image stands behind its length, in two bytes.
unfoldable pub split_etag : Bytes → ℕ → Option (Str × Bytes)
split_etag body max_bytes =
    let n = from_le_bytes (take 2 body) in
    let image = drop (2 + n) body in
    if ltb (length body) (2 + n) then none else elim (from_utf8 (take n (drop 2 body))) [
      | none ↦ none
      | some etag ↦ if ltb max_bytes (length image) then none else some (etag, image)
    ]

module _ {W : Type 0} (disk : Disk W) where
  -- An unknown namespace, or a directory that cannot be prepared, gives the disabled cache.
  unfoldable pub new : Str → Option Str → Str → W → Cache × W
  unfolding disabled identity_of
  new dir none wal_key w = (disabled, w)
  new dir (some ns) wal_key w =
      let (created, w') = disk.create_dir_all dir w in
      if created
      then (record { dir = dir; identity = some (identity_of ns wal_key) }, w')
      else (disabled, w')

  unfoldable pub load : Cache → Str → Bytes → ℕ → W → Option Bytes
  unfolding payload_body read_checked sum_checked
  load c path key max_data w = elim c.identity [
    | none ↦ none
    | some identity ↦ elim (sum_checked (8 ∷ length key ∷ max_data ∷ []) (length identity)) [
      | none ↦ none
      | some max_payload ↦ elim (read_checked disk path max_payload w) [
        | none ↦ none
        | some payload ↦ payload_body identity key payload
      ]
    ]
  ]

  unfoldable pub save : Cache → Str → Bytes → List Bytes → Bytes → W → W
  unfolding frame sum_checked
  save c path key fields body w = elim c.identity [
    | none ↦ w
    | some identity ↦
        elim (sum_checked (header ∷ length identity ∷ 8 ∷ length key ∷ map length fields) 0) [
          | none ↦ w
          | some prefix_len ↦ elim (checked_add (prefix_len - header) (length body)) [
            | none ↦ w
            | some payload_len ↦
                (disk.write_atomic path (frame (metadata identity key fields) body payload_len) w).1
          ]
        ]
  ]

  unfoldable pub load_wal : Cache → ℕ → W → Option (Str × Bytes)
  unfolding load split_etag wal_path
  load_wal c max_bytes w = elim (checked_add max_bytes (2 + 65535)) [
    | none ↦ none
    | some max_data ↦ elim (load c (wal_path c) (text "wal") max_data w) [
      | none ↦ none
      | some body ↦ split_etag body max_bytes
    ]
  ]

  unfoldable pub save_wal : Cache → Str → Bytes → W → W
  unfolding save wal_path
  save_wal c etag image w =
      if ltb 65535 (length etag)
      then w
      else save c (wal_path c) (text "wal") (le_bytes 2 (length etag) ∷ etag ∷ []) image w

  unfoldable pub load_snapshot : Cache → Str → ℕ → W → Option Bytes
  unfolding load snap_path
  load_snapshot c key max_bytes w = load c (snap_path c key) key max_bytes w

  unfoldable pub save_snapshot : Cache → Str → Bytes → W → W
  unfolding save snap_path
  save_snapshot c key body w = save c (snap_path c key) key [] body w

  unfoldable pub remove_snapshot : Cache → Str → W → W
  unfolding enabled snap_path
  remove_snapshot c key w = if enabled c then (disk.remove_file (snap_path c key) w).1 else w

  -- The files of other snapshots in the directory are removed, one after the other.
  unfoldable pub remove_stale : Cache → Option Str → List Str → W → W
  unfolding strip_prefix
  remove_stale c keep [] w = w
  remove_stale c keep (name ∷ names) w =
      let kept : Bool = elim keep [ none ↦ false | some path ↦ str_eq (join c.dir name) path ] in
      remove_stale c keep names (
        if is_some (strip_prefix (text "snap-") name) && not kept
        then (disk.remove_file (join c.dir name) w).1
        else w)

  unfoldable pub retain_snapshot : Cache → Option Str → W → W
  unfolding enabled snap_path remove_stale
  retain_snapshot c keep w =
      let path : Option Str = elim keep [ none ↦ none | some key ↦ some (snap_path c key) ] in
      if enabled c
      then elim (disk.read_dir c.dir w) [ none ↦ w | some names ↦ remove_stale c path names w ]
      else w
