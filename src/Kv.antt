-- ===== src/Kv.antt =====
-- examples/kv.rs: a last-write-wins map of strings as an application of the log, with its snapshot format.
-- A BTreeMap is its list of pairs in the order of the keys.
pub mod Snapshots
pub mod Commands
use waltier.Base.{
  ℕ, ◌≡◌, Bool, true, false, Option, none, some, List, [], ◌∷◌, ◌++◌, map, ltb, leb, ◌==◌,
  if◌then◌else◌, Result, ok, err,
}
use waltier.Base.Bytes.{Bytes}
use waltier.Base.Text.{Str, text, str_eq, from_utf8}
use waltier.Base.Text.Lossy.{from_utf8_lossy}
use waltier.Error.{WalError}
use waltier.App.{WalApp, Entry, Reconcile}
use waltier.App.Reconciling.{reconcile_batch}
use waltier.Cache.Frame.{strip_prefix}

abbrev pub Map : Type 0
Map = List (Str × Str)

-- The order of `str`: byte by byte.
unfoldable pub str_lt : Str → Str → Bool
str_lt [] [] = false
str_lt [] (b ∷ t) = true
str_lt (a ∷ s) [] = false
str_lt (a ∷ s) (b ∷ t) =
    let rest = str_lt s t in if ltb a b then true else if a == b then rest else false

unfoldable pub insert : Str → Str → Map → Map
unfolding str_lt
insert k v [] = (k, v) ∷ []
insert k v ((j, u) ∷ m) =
    let rest = insert k v m in
    if str_lt k j then (k, v) ∷ ((j, u) ∷ m) else if str_eq k j then (k, v) ∷ m else (j, u) ∷ rest

unfoldable pub remove : Str → Map → Map
remove k [] = []
remove k ((j, u) ∷ m) = let rest = remove k m in if str_eq k j then m else (j, u) ∷ rest

abbrev pub line : Str → Str → Str
line k v = k ++ b'\t' ∷ v

unfoldable pub encode_map : Map → Bytes
encode_map [] = []
encode_map ((k, v) ∷ m) = line k v ++ b'\n' ∷ encode_map m

-- The carriage return in front of a line feed goes with it.
unfoldable pub strip_cr : Str → Str
strip_cr [] = []
strip_cr (b ∷ []) = if b == b'\r' then [] else b ∷ []
strip_cr (b ∷ c ∷ s) = b ∷ strip_cr (c ∷ s)

-- `str::lines`; `held` has begun.
unfoldable pub lines_from : Str → Str → List Str
unfolding strip_cr
lines_from [] [] = []
lines_from (h ∷ held) [] = (h ∷ held) ∷ []
lines_from held (b ∷ s) = elim (b == b'\n') [
  | true ↦ strip_cr held ∷ lines_from [] s
  | false ↦ lines_from (held ++ b ∷ []) s
]

unfoldable pub split_once : ℕ → Str → Option (Str × Str)
split_once d [] = none
split_once d (b ∷ s) =
    let rest = split_once d s in
    if b == d then some ([], s) else elim rest [ none ↦ none | some (l, r) ↦ some (b ∷ l, r) ]

unfoldable pub decode_lines : List Str → Map → Result WalError Map
unfolding insert split_once
decode_lines [] m = ok m
decode_lines (l ∷ ls) m = elim (split_once b'\t' l) [
  | none ↦ err (WalError.app (text "bad snapshot line: " ++ l))
  | some (k, v) ↦ decode_lines ls (insert k v m)
]

unfoldable pub decode_map : Bytes → Result WalError Map
unfolding decode_lines lines_from
decode_map bytes = elim (from_utf8 bytes) [
  | none ↦ err (WalError.app (text "snapshot is not utf8"))
  | some s ↦ decode_lines (lines_from [] s) []
]

abbrev set_prefix : Str
set_prefix = b's' ∷ b'e' ∷ b't' ∷ b' ' ∷ []

abbrev del_prefix : Str
del_prefix = b'd' ∷ b'e' ∷ b'l' ∷ b' ' ∷ []

unfoldable pub apply_text : Map → Str → Map
unfolding insert remove split_once strip_prefix
apply_text m s = elim (strip_prefix set_prefix s) [
  | some rest ↦ elim (split_once b' ' rest) [ none ↦ m | some (k, v) ↦ insert k v m ]
  | none ↦ elim (strip_prefix del_prefix s) [ none ↦ m | some k ↦ remove k m ]
]

unfoldable pub apply : Map → Bytes → Map
unfolding apply_text from_utf8_lossy
apply m entry = apply_text m (from_utf8_lossy entry)

unfoldable pub apply_entries : Map → List Entry → Map
unfolding apply
apply_entries m [] = m
apply_entries m (e ∷ es) = apply_entries (apply m e.body) es

-- `base.map(decode_map).transpose()?.unwrap_or_default()`
unfoldable pub base_map : Option Bytes → Result WalError Map
unfolding decode_map
base_map none = ok []
base_map (some bytes) = decode_map bytes

unfoldable pub compact : Option Bytes → List Entry → Result WalError Bytes
unfolding base_map apply_entries encode_map
compact base entries = elim (base_map base) [
  | err e ↦ err e
  | ok m ↦ ok (encode_map (apply_entries m entries))
]

-- `impl WalApp for Kv`
unfoldable pub kv : WalApp Map
unfolding apply decode_map compact reconcile_batch
kv = record {
  init = [];
  apply = λ m lsn entry. apply m entry;
  restore = decode_map;
  compact = compact;
  should_compact = λ stats. leb 4 stats.live_entries;
  reconcile_batch = reconcile_batch (λ m entry. Reconcile.retry);
}
