-- ===== src/Tests/Files.antt =====
-- FsStore of src/store.rs over a file system of one file.
use waltier.Base.{◌≡◌, refl, sym, ap, true, Option, none, some, [], ◌∷◌, ok, arith}
use waltier.Base.Bytes.{Bytes, le_bytes, le_bytes-IsByte}
use waltier.Base.Text.{Str, str_eq, is_utf8, text}
use waltier.Store.Directory
use waltier.Store.Directory.{Reading, Removal, FileSystem, FsStore, write_object, root_identity}
use waltier.Store.Directory.Identity.{root_identity_kept}
use waltier.Store.Directory.Paths.{path-injective}
use waltier.Store.Directory.Objects.{get-put, SwapAnswer, put_if_match-SwapAnswer}

abbrev reading : Option Bytes → Reading
reading none = Reading.not_found
reading (some b) = Reading.contents b

abbrev id_bytes : Bytes
id_bytes = le_bytes 16 0x100f_0e0d_0c0b_0a09_0807_0605_0403_0201

abbrev files : FileSystem (Option Bytes)
files = record {
  random_bytes = λ w. (ok id_bytes, w);
  read = λ p w. reading w;
  create_dir_all = λ p w. (ok tt, w);
  canonicalize = λ p w. ok p;
  open_marker = λ p w. (ok tt, w);
  try_lock = λ p w. (ok tt, w);
  read_marker = λ p w. ok [];
  write_marker = λ p b w. (ok tt, w);
  read_dir = λ p w. ok [];
  write_atomic = λ p b w. (ok tt, some b);
  remove_file = λ p w. (Removal.removed, none);
}

abbrev store : FsStore
store = record { root = b'/' ∷ []; namespace = [] }

abbrev key : Str
key = b'k' ∷ []

abbrev body : Bytes
body = 7 ∷ 8 ∷ []

abbrev id : Str
id = text "0102030405060708090a0b0c0d0e0f10"

abbrev after : Option Bytes
after = (write_object files store key body none).1

put_run : write_object files store key body none ≡ (ok id, after)
unfolding write_object Directory.unique_id text
put_run = refl

id-is_utf8 : is_utf8 id ≡ true
unfolding is_utf8 text
id-is_utf8 = refl

get-put_example :
    Directory.get files store key after ≡ (ok (some (record { body = body; etag = id })), after)
unfolding text
get-put_example =
    get-put files store key id body none after (λ p bytes v v' e. sym (ap (λ r. reading r.1) e))
      refl id-is_utf8 (omega arith) put_run

put_if_match-SwapAnswer_example :
    SwapAnswer files store key none body none
      (Directory.put_if_match files store key none body none)
put_if_match-SwapAnswer_example = put_if_match-SwapAnswer files store key none body none

path-injective_example : key ≡ key
path-injective_example = path-injective store key key (omega arith, tt) (omega arith, tt) refl

-- A file system whose world is the marker of one root.
abbrev roots : FileSystem Bytes
roots = record {
  random_bytes = λ w. (ok id_bytes, w);
  read = λ p w. Reading.contents w;
  create_dir_all = λ p w. (ok tt, w);
  canonicalize = λ p w. ok p;
  open_marker = λ p w. (ok tt, w);
  try_lock = λ p w. (ok tt, w);
  read_marker = λ p w. ok w;
  write_marker = λ p b w. (ok tt, b);
  read_dir = λ p w. ok (some (text ".waltier-store") ∷ []);
  write_atomic = λ p b w. (ok tt, w);
  remove_file = λ p w. (Removal.removed, w);
}

abbrev identity : Str
identity = text "waltier-fs-v2:0102030405060708090a0b0c0d0e0f10"

root_run : root_identity roots (b'/' ∷ []) [] ≡ (ok identity, identity)
unfolding root_identity Directory.has_other_entry Directory.unique_id text str_eq
root_run = refl

root_identity_kept_example : root_identity roots (b'/' ∷ []) identity ≡ (ok identity, identity)
root_identity_kept_example =
    root_identity_kept roots (b'/' ∷ []) identity id_bytes [] identity
      (λ written v v' e. sym (ap (λ r. ok r.1) e)) refl refl refl
      (le_bytes-IsByte 16 0x100f_0e0d_0c0b_0a09_0807_0605_0403_0201) root_run
