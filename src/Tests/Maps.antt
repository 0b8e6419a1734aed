-- ===== src/Tests/Maps.antt =====
-- The map of examples/kv.rs: a log of a few commands, its snapshot, and one that cannot be restored.
use waltier.Base.{◌≡◌, refl, true, Option, none, some, List, [], ◌∷◌, ◌++◌, ok, err}
use waltier.Base.Bytes.{Bytes}
use waltier.Base.Text.{Str, text, is_utf8, utf8_run, utf8_step, utf8_lead, str_eq, from_utf8}
use waltier.Base.Text.Lossy.{lossy_from, from_utf8_lossy}
use waltier.Image.Lsns.{enumerate_from}
use waltier.Wal.{apply_all}
use waltier.Cache.Frame.{strip_prefix}
use waltier.Error.{WalError}
use waltier.App.{Entry}
use waltier.Wal.Refresh.History.{replay}
use waltier.Kv.{
  Map, insert, remove, strip_cr, encode_map, decode_map, base_map, kv, str_lt, apply, apply_text,
  split_once, decode_lines, lines_from,
}
use waltier.Kv.Snapshots.{IsPlain, decode_map-encode_map}
use waltier.Kv.Commands.{Command, text_of, texts, kv-restores, compact-spoiled}

abbrev x : Str
x = b'x' ∷ []

abbrev y : Str
y = b'y' ∷ []

x-IsPlain : IsPlain x y
unfolding is_utf8 utf8_run utf8_step utf8_lead
x-IsPlain = record {
  key_tab = (refl, tt);
  key_line = (refl, tt);
  value_line = (refl, tt);
  value_end = refl;
  key_utf8 = refl;
  value_utf8 = refl;
}

x_utf8 : is_utf8 x ≡ true
unfolding is_utf8 utf8_run utf8_step utf8_lead
x_utf8 = refl

spoiled_utf8 : is_utf8 (y ++ b'\n' ∷ x) ≡ true
unfolding is_utf8 utf8_run utf8_step utf8_lead
spoiled_utf8 = refl

y-IsPlain : IsPlain y x
unfolding is_utf8 utf8_run utf8_step utf8_lead
y-IsPlain = record {
  key_tab = (refl, tt);
  key_line = (refl, tt);
  value_line = (refl, tt);
  value_end = refl;
  key_utf8 = refl;
  value_utf8 = refl;
}

abbrev pairs : Map
pairs = (x, y) ∷ (y, x) ∷ []

pairs_run : insert x y (insert y x (insert x x [])) ≡ pairs
unfolding insert str_lt str_eq
pairs_run = refl

below : str_lt x y ≡ true
unfolding str_lt
below = refl

decode_map-encode_map_example : decode_map (encode_map pairs) ≡ ok pairs
decode_map-encode_map_example =
    decode_map-encode_map pairs ((below, tt), (tt, tt)) (x-IsPlain, (y-IsPlain, tt))

-- The first command is in the snapshot; the others are folded into it.
abbrev past : List Command
past = Command.set x y ∷ []

abbrev more : List Command
more = Command.set y x ∷ Command.del x ∷ []

abbrev snapshot : Option Bytes
snapshot = some (encode_map ((x, y) ∷ []))

abbrev entries : List Entry
entries =
    record { lsn = 1; body = text_of (Command.set y x) }
    ∷ record { lsn = 2; body = text_of (Command.del x) }
    ∷ []

replay_run : replay kv (texts (past ++ more)) ≡ (y, x) ∷ []
unfolding replay kv apply apply_text from_utf8_lossy lossy_from strip_prefix split_once insert
    remove str_lt str_eq utf8_step utf8_lead apply_all enumerate_from
replay_run = refl

snapshot_run : base_map snapshot ≡ ok (replay kv (texts past))
unfolding replay kv apply apply_text from_utf8_lossy lossy_from strip_prefix split_once insert
    str_lt str_eq utf8_step utf8_lead utf8_run is_utf8 from_utf8 apply_all enumerate_from base_map
    decode_map decode_lines lines_from strip_cr encode_map
snapshot_run = refl

kv-restores_example :
    (out : Bytes) × (kv.compact snapshot entries ≡ ok out)
    × (kv.restore out ≡ ok (replay kv (texts (past ++ more))))
kv-restores_example =
    kv-restores past more snapshot entries ((x-IsPlain, (refl, tt)), tt)
      ((y-IsPlain, (refl, tt)), (x_utf8, tt)) snapshot_run refl

compact-spoiled_example :
    (out : Bytes) × (kv.compact none
        (record { lsn = 0; body = text_of (Command.set x (y ++ b'\n' ∷ x)) } ∷ [])
      ≡ ok out)
    × (kv.restore out ≡ err (WalError.app (text "bad snapshot line: " ++ strip_cr x)))
compact-spoiled_example =
    compact-spoiled x y x 0 x-IsPlain (refl, tt) (refl, tt) (refl, tt) spoiled_utf8
