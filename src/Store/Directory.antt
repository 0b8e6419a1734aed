-- ===== src/Store/Directory.antt =====
-- `FsStore` of src/store.rs: each object is one file that holds its validator and its data. The file
-- system, the lock of the root and the random bytes are operations on the world.
pub mod Paths
pub mod Objects
pub mod Identity
use mathlib.Core.List.{flatten}
use waltier.Base.{
  ℕ, ◌-◌, ◌/◌, ◌%◌, zero, suc, Bool, true, false, not, ◌&&◌, ◌||◌, Option, none, some, List, [],
  ◌∷◌, ◌++◌, length, take, drop, ltb, leb, ◌==◌, if◌then◌else◌, Result, ok, err,
}
use waltier.Base.Bytes.{Bytes, le_bytes, from_le_bytes}
use waltier.Base.Text.{Str, text, str_eq, from_utf8}
use waltier.Error.{StoreError}
use waltier.Error.StoreErrors
use waltier.Store.{
  Stored, CondPut, accepted, precondition_failed, cas_matches, ObjectStore, default_get_if_changed,
}
use waltier.Cache.{hex}
use waltier.Cache.Files.{join}
use waltier.Cache.Frame.{strip_prefix}

-- What reading or removing a file gives.
pub data Reading : Type 0 where
  contents : Bytes → Reading
  not_found : Reading
  read_failed : Str → Reading

pub data Removal : Type 0 where
  removed was_absent : Removal
  removal_failed : Str → Removal

pub record FileSystem (W : Type 0) : Type 0 where
  pub random_bytes : W → Result Str Bytes × W
  pub read : Str → W → Reading
  pub create_dir_all : Str → W → Result Str (Unit {0}) × W
  pub canonicalize : Str → W → Result Str Str
  -- the marker of a root: opened (and created), locked, read, overwritten
  pub open_marker : Str → W → Result Str (Unit {0}) × W
  pub try_lock : Str → W → Result Str (Unit {0}) × W
  pub read_marker : Str → W → Result Str Str
  pub write_marker : Str → Bytes → W → Result Str (Unit {0}) × W
  -- the names in a directory, `none` for an entry that cannot be read
  pub read_dir : Str → W → Result Str (List (Option Str))
  -- the complete new contents, published under the name at once, or not at all
  pub write_atomic : Str → Bytes → W → Result Str (Unit {0}) × W
  pub remove_file : Str → W → Removal × W

pub record FsStore : Type 0 where
  pub root : Str
  pub namespace : Str

abbrev pub marker_name : Str
marker_name = text ".waltier-store"

-- Whether a directory holds anything but the marker.
unfoldable pub has_other_entry : List (Option Str) → Bool
has_other_entry [] = false
has_other_entry (none ∷ es) = true
has_other_entry (some name ∷ es) = not (str_eq name marker_name) || has_other_entry es

abbrev pub is_hex_digit : ℕ → Bool
is_hex_digit b = (leb 48 b && leb b 57) || ((leb 65 b && leb b 70) || (leb 97 b && leb b 102))

unfoldable pub all_hex : Str → Bool
all_hex [] = true
all_hex (b ∷ s) = is_hex_digit b && all_hex s

abbrev pub is_identity : Option Str → Bool
is_identity none = false
is_identity (some id) = length id == 32 && all_hex id

-- The rest of a path behind `root/objects`: a component of 64 bytes in hex for each chunk of the key, and the
-- leaf. `room` bytes still go into the component at hand.
unfoldable pub object_path : ℕ → Str → Str
unfolding hex
object_path room [] = text "/object"
object_path zero (b ∷ key) = b'/' ∷ (hex (b ∷ []) ++ object_path 63 key)
object_path (suc room) (b ∷ key) = hex (b ∷ []) ++ object_path room key

-- The parent of an object's file.
unfoldable pub parent_path : ℕ → Str → Str
unfolding hex
parent_path room [] = []
parent_path zero (b ∷ key) = b'/' ∷ (hex (b ∷ []) ++ parent_path 63 key)
parent_path (suc room) (b ∷ key) = hex (b ∷ []) ++ parent_path room key

unfoldable pub path : FsStore → Str → Str
unfolding object_path
path s key = join s.root (text "objects") ++ object_path 0 key

unfoldable pub parent : FsStore → Str → Str
unfolding parent_path
parent s key = join s.root (text "objects") ++ parent_path 0 key

abbrev pub is_malformed : Bytes → Bool
is_malformed bytes =
    ltb (length bytes) 44
    || (not (str_eq (take 4 bytes) (text "WFS2"))
        || not (from_le_bytes (take 8 (drop 36 bytes)) == length bytes - 44))

-- WFS2, a validator of 32 bytes, the length of the data in 8 bytes, the data.
unfoldable pub object_file : Str → Bytes → Bytes
object_file etag body = flatten (text "WFS2" ∷ etag ∷ le_bytes 8 (length body) ∷ body ∷ [])

unfoldable pub parse_object : Str → Bytes → Result StoreError (Option Stored)
parse_object key bytes =
    if is_malformed bytes
    then err (StoreErrors.new (text "invalid FsStore object: " ++ key))
    else elim (from_utf8 (take 32 (drop 4 bytes))) [
      | none ↦ err (StoreErrors.new (text "invalid FsStore validator: " ++ key))
      | some etag ↦ ok (some (record { body = drop 44 bytes; etag = etag }))
    ]

-- `format!("{what} {key}: {e}")`
abbrev io_error : Str → Str → Str → StoreError
io_error what key e = StoreErrors.new (what ++ (text " " ++ (key ++ (text ": " ++ e))))

unfoldable pub read_answer : Str → Reading → Result StoreError (Option Stored)
unfolding parse_object
read_answer key (contents bytes) = parse_object key bytes
read_answer key not_found = ok none
read_answer key (read_failed e) = err (io_error (text "read") key e)

unfoldable pub deleted : Str → Removal → Result StoreError (Unit {0})
deleted key (removal_failed e) = err (io_error (text "delete") key e)
deleted key _ = ok tt

abbrev etag_in : Option Stored → Option Str
etag_in none = none
etag_in (some s) = some s.etag

abbrev put_answer : Result StoreError Str → Result StoreError CondPut
put_answer (err e) = err e
put_answer (ok etag) = ok (accepted etag)

module _ {W : Type 0} (fs : FileSystem W) where
  unfoldable pub unique_id : W → Result Str Str × W
  unfolding hex
  unique_id w =
      let (got, w') = fs.random_bytes w in
      (elim got [ err e ↦ err e | ok bytes ↦ ok (hex bytes) ], w')

  unfoldable pub read_object : FsStore → Str → W → Result StoreError (Option Stored)
  unfolding path read_answer
  read_object s key w = read_answer key (fs.read (path s key) w)

  unfoldable pub write_object : FsStore → Str → Bytes → W → Result StoreError Str × W
  unfolding unique_id path parent object_file
  write_object s key body w =
      let (named, w1) = unique_id w in
      elim named [
        | err e ↦ (err (StoreErrors.new (text "create validator: " ++ e)), w1)
        | ok etag ↦
            let (made, w2) = fs.create_dir_all (parent s key) w1 in
            elim made [
              | err e ↦ (err (io_error (text "prepare") key e), w2)
              | ok u ↦
                  let (written, w3) = fs.write_atomic (path s key) (object_file etag body) w2 in
                  elim written [
                    | err e ↦ (err (io_error (text "write") key e), w3)
                    | ok v ↦ (ok etag, w3)
                  ]
            ]
      ]

  unfoldable pub get : FsStore → Str → W → Result StoreError (Option Stored) × W
  unfolding read_object
  get s key w = (read_object s key w, w)

  unfoldable pub put_if_match :
      FsStore → Str → Option Str → Bytes → W → Result StoreError CondPut × W
  unfolding read_object write_object
  put_if_match s key etag body w = elim (read_object s key w) [
    | err e ↦ (err e, w)
    | ok found ↦
        let (written, w') = write_object s key body w in
        if cas_matches (etag_in found) etag
        then (put_answer written, w')
        else (ok precondition_failed, w)
  ]

  unfoldable pub delete : FsStore → Str → W → Result StoreError (Unit {0}) × W
  unfolding path deleted
  delete s key w = let (removal, w') = fs.remove_file (path s key) w in (deleted key removal, w')

  unfoldable pub fs_store : FsStore → ObjectStore W
  unfolding get put_if_match write_object delete default_get_if_changed
  fs_store s = record {
    cache_namespace = λ w. some s.namespace;
    max_object_bytes = λ w. none;
    get = get s;
    get_if_changed = default_get_if_changed (get s);
    put_if_match = put_if_match s;
    put = write_object s;
    delete = delete s;
  }

  -- The identity in the marker of a root: a fresh one for an empty root.
  unfoldable pub root_identity : Str → W → Result Str Str × W
  unfolding has_other_entry unique_id all_hex
  root_identity root w =
      let marker = join root marker_name in
      elim (fs.read_marker marker w) [
        | err e ↦ (err e, w)
        | ok [] ↦ elim (fs.read_dir root w) [
          | err e ↦ (err e, w)
          | ok names ↦
              let (named, w1) = unique_id w in
              if has_other_entry names
              then (err (text "unrecognized/legacy FsStore directory; use a fresh root"), w)
              else elim named [
                | err e ↦ (err e, w1)
                | ok id ↦
                    let identity = text "waltier-fs-v2:" ++ id in
                    let (written, w2) = fs.write_marker marker identity w1 in
                    (elim written [ err e ↦ err e | ok u ↦ ok identity ], w2)
              ]
        ]
        | ok (b ∷ held) ↦
            if is_identity (strip_prefix (text "waltier-fs-v2:") (b ∷ held))
            then (ok (b ∷ held), w)
            else (err (text "invalid FsStore identity"), w)
      ]

  unfoldable pub new : Str → W → Result Str FsStore × W
  unfolding root_identity hex
  new dir w =
      let (made, w1) = fs.create_dir_all dir w in
      elim made [
        | err e ↦ (err e, w1)
        | ok u ↦ elim (fs.canonicalize dir w1) [
          | err e ↦ (err e, w1)
          | ok root ↦
              let (opened, w2) = fs.open_marker (join root marker_name) w1 in
              elim opened [
                | err e ↦ (err e, w2)
                | ok v ↦
                    let (locked, w3) = fs.try_lock (join root marker_name) w2 in
                    elim locked [
                      | err e ↦ (err e, w3)
                      | ok l ↦
                          let (named, w4) = root_identity root w3 in
                          (
                            elim named [
                              | err e ↦ err e
                              | ok id ↦
                                  ok (record { root = root; namespace = id ++ (b':' ∷ hex root) })
                            ],
                            w4,
                          )
                    ]
              ]
        ]
      ]
