-- ===== src/Kv/Commands.antt =====
-- The commands of examples/kv.rs, what applying and compacting them does, and the contract of `restore`.
use waltier.Base.{
  ℕ, suc, ◌≡◌, refl, sym, ap, ◌∙◌, true, false, Option, none, List, [], ◌∷◌, ◌++◌, map, ok, err,
  arith, All, All-append, Bool-cases, inl, inr,
}
use mathlib.Core.Path.{subst}
use waltier.Base.Bytes.{Bytes}
use waltier.Base.Text.{Str, text, str_eq, str_eq_iff, is_utf8, utf8_run, utf8_step, utf8_lead}
use waltier.Base.Text.Lossy.{from_utf8_lossy, from_utf8_lossy-valid, is_utf8-append}
use waltier.Image.Lsns.{enumerate_from}
use waltier.Cache.Frame.{strip_prefix}
use waltier.Error.{WalError}
use waltier.App.{Entry}
use waltier.Wal.{apply_all}
use waltier.Wal.Refresh.History.{replay}
use waltier.Kv.{
  Map, str_lt, insert, remove, encode_map, strip_cr, apply_text, apply, apply_entries, base_map,
  compact, set_prefix, del_prefix, kv,
}
use waltier.Kv.Snapshots.{
  Lacks, IsPlain, Plain, IsSorted, Below, split_once-append, decode_map-encode_map,
  decode_map-spoiled,
}

pub data Command : Type 0 where
  set : Str → Str → Command
  del : Str → Command

abbrev pub text_of : Command → Bytes
text_of (Command.set k v) = set_prefix ++ (k ++ b' ' ∷ v)
text_of (Command.del k) = del_prefix ++ k

abbrev pub run : Command → Map → Map
run (Command.set k v) m = insert k v m
run (Command.del k) m = remove k m

-- Neither the command nor the snapshot can mistake one string for another.
abbrev pub IsSafe : Command → Type 0
IsSafe (Command.set k v) = IsPlain k v × Lacks b' ' k
IsSafe (Command.del k) = is_utf8 k ≡ true

is_utf8-set :
    (k v : Str) → is_utf8 k ≡ true → is_utf8 v ≡ true → is_utf8 (text_of (Command.set k v)) ≡ true
unfolding is_utf8 utf8_run utf8_step utf8_lead
is_utf8-set k v e f = is_utf8-append k (b' ' ∷ v) e f

is_utf8-text_of : (c : Command) → IsSafe c → is_utf8 (text_of c) ≡ true
unfolding is_utf8 utf8_run utf8_step utf8_lead
is_utf8-text_of (Command.set k v) (plain, lacks) = is_utf8-set k v plain.key_utf8 plain.value_utf8
is_utf8-text_of (Command.del k) e = e

apply_text-set :
    (k v : Str) (m : Map) → Lacks b' ' k → apply_text m (text_of (Command.set k v)) ≡ insert k v m
unfolding apply_text strip_prefix
apply_text-set k v m space = rw (split_once-append b' ' k v space, apply_text) refl

apply-run : (c : Command) (m : Map) → IsSafe c → apply m (text_of c) ≡ run c m
unfolding apply apply_text strip_prefix
apply-run (Command.set k v) m safe =
    ap (apply_text m)
      (from_utf8_lossy-valid (text_of (Command.set k v)) (is_utf8-text_of (Command.set k v) safe))
    ∙ apply_text-set k v m safe.1
apply-run (Command.del k) m safe =
    ap (apply_text m)
      (from_utf8_lossy-valid (text_of (Command.del k)) (is_utf8-text_of (Command.del k) safe))

str_lt_trans : (s t u : Str) → str_lt s t ≡ true → str_lt t u ≡ true → str_lt s u ≡ true
unfolding str_lt
str_lt_trans [] [] u e f = cc
str_lt_trans [] (b ∷ t) [] e f = cc
str_lt_trans [] (b ∷ t) (c ∷ u) e f = refl
str_lt_trans (a ∷ s) [] u e f = cc
str_lt_trans (a ∷ s) (b ∷ t) [] e f = cc
str_lt_trans (a ∷ s) (b ∷ t) (c ∷ u) e f = ground (arith, str_lt_trans s t u)

str_lt_total : (s t : Str) → str_lt s t ≡ false → str_eq s t ≡ false → str_lt t s ≡ true
unfolding str_lt str_eq
str_lt_total [] [] e f = cc
str_lt_total [] (b ∷ t) e f = cc
str_lt_total (a ∷ s) [] e f = refl
str_lt_total (a ∷ s) (b ∷ t) e f = ground (arith, str_lt_total s t)

All-insert :
    (P : Str × Str → Type 0) (k v : Str) (m : Map) → P (k, v) → All P m → All P (insert k v m)
unfolding insert
All-insert P k v [] p ps = (p, tt)
All-insert P k v ((j, u) ∷ m) p ps = elim (Bool-cases (str_lt k j)) [
  | inl below ↦ rw below (p, ps)
  | inr not_below ↦ elim (Bool-cases (str_eq k j)) [
    | inl same ↦ rw (not_below, same) (p, ps.1)
    | inr other ↦ rw (not_below, other) (ps.0, All-insert P k v m p ps.1)
  ]
]

All-remove : (P : Str × Str → Type 0) (k : Str) (m : Map) → All P m → All P (remove k m)
unfolding remove
All-remove P k [] ps = tt
All-remove P k ((j, u) ∷ m) ps = elim (Bool-cases (str_eq k j)) [
  | inl same ↦ rw same ps.1
  | inr other ↦ rw other (ps.0, All-remove P k m ps.1)
]

All-Below-trans : (k j : Str) (m : Map) → str_lt k j ≡ true → All (Below j) m → All (Below k) m
All-Below-trans k j [] e ps = tt
All-Below-trans k j ((i, u) ∷ m) e ps = (str_lt_trans k j i e ps.0, All-Below-trans k j m e ps.1)

insert-IsSorted : (k v : Str) (m : Map) → IsSorted m → IsSorted (insert k v m)
unfolding insert
insert-IsSorted k v [] o = (tt, tt)
insert-IsSorted k v ((j, u) ∷ m) o = elim (Bool-cases (str_lt k j)) [
  | inl below ↦ rw below ((below, All-Below-trans k j m below o.0), o)
  | inr not_below ↦ elim (Bool-cases (str_eq k j)) [
    | inl same ↦
        rw (not_below, same) (subst (λ i. All (Below i) m) (sym ((str_eq_iff k j).0 same)) o.0, o.1)
    | inr other ↦
        rw (not_below, other)
          (
            All-insert (Below j) k v m (str_lt_total k j not_below other) o.0,
            insert-IsSorted k v m o.1,
          )
  ]
]

remove-IsSorted : (k : Str) (m : Map) → IsSorted m → IsSorted (remove k m)
unfolding remove
remove-IsSorted k [] o = tt
remove-IsSorted k ((j, u) ∷ m) o = elim (Bool-cases (str_eq k j)) [
  | inl same ↦ rw same o.1
  | inr other ↦ rw other (All-remove (Below j) k m o.0, remove-IsSorted k m o.1)
]

abbrev pub run_all : List Command → Map → Map
run_all [] m = m
run_all (c ∷ cs) m = run_all cs (run c m)

run_all-append : (cs ds : List Command) (m : Map) → run_all (cs ++ ds) m ≡ run_all ds (run_all cs m)
run_all-append [] ds m = refl
run_all-append (c ∷ cs) ds m = run_all-append cs ds (run c m)

run_all-Kept :
    (cs : List Command) (m : Map)
    → All IsSafe cs
    → IsSorted m × All Plain m
    → IsSorted (run_all cs m) × All Plain (run_all cs m)
run_all-Kept [] m safe kept = kept
run_all-Kept (Command.set k v ∷ cs) m safe kept =
    let plain : IsPlain k v = safe.0.0 in
    run_all-Kept cs (insert k v m) safe.1
      (insert-IsSorted k v m kept.0, All-insert Plain k v m plain kept.1)
run_all-Kept (Command.del k ∷ cs) m safe kept =
    run_all-Kept cs (remove k m) safe.1 (remove-IsSorted k m kept.0, All-remove Plain k m kept.1)

abbrev pub texts : List Command → List Bytes
texts = map text_of

apply_all-run_all :
    (n : ℕ) (cs : List Command) (m : Map)
    → All IsSafe cs
    → apply_all kv m (enumerate_from n (texts cs)) ≡ run_all cs m
unfolding apply_all enumerate_from kv
apply_all-run_all n [] m safe = refl
apply_all-run_all n (c ∷ cs) m safe =
    ap (λ s. apply_all kv s (enumerate_from (suc n) (texts cs))) (apply-run c m safe.0)
    ∙ apply_all-run_all (suc n) cs (run c m) safe.1

-- Replaying the log of some commands runs them on the empty map.
replay-run_all : (cs : List Command) → All IsSafe cs → replay kv (texts cs) ≡ run_all cs []
unfolding replay kv
replay-run_all cs safe = apply_all-run_all 0 cs [] safe

apply_entries-run_all :
    (entries : List Entry) (cs : List Command) (m : Map)
    → All IsSafe cs
    → map (λ (e : Entry). e.body) entries ≡ texts cs
    → apply_entries m entries ≡ run_all cs m
unfolding apply_entries
apply_entries-run_all [] [] m safe e = refl
apply_entries-run_all [] (c ∷ cs) m safe e = cc
apply_entries-run_all (x ∷ xs) [] m safe e = cc
apply_entries-run_all (x ∷ xs) (c ∷ cs) m safe e =
    ap (λ s. apply_entries s xs) (ap (apply m) (head_eq e) ∙ apply-run c m safe.0)
    ∙ apply_entries-run_all xs cs (run c m) safe.1 (tail_eq e)
  where
    head_or : Bytes → List Bytes → Bytes
    head_or d [] = d
    head_or d (y ∷ ys) = y

    rest : List Bytes → List Bytes
    rest [] = []
    rest (y ∷ ys) = ys

    head_eq : {a b : Bytes} {s t : List Bytes} → ◌≡◌ {A = List Bytes} (a ∷ s) (b ∷ t) → a ≡ b
    head_eq {a} q = ap (head_or a) q

    tail_eq : {a b : Bytes} {s t : List Bytes} → ◌≡◌ {A = List Bytes} (a ∷ s) (b ∷ t) → s ≡ t
    tail_eq q = ap rest q

-- Compaction keeps what `restore` promises: a snapshot that restores to the replay of some commands, folded
-- with the entries of further ones, is compacted, and the result restores to the replay of them all. No
-- snapshot stands for no commands. The strings of the commands hold no separators.
pub kv-restores :
    (past more : List Command) (base : Option Bytes) (entries : List Entry)
    → All IsSafe past
    → All IsSafe more
    → base_map base ≡ ok (replay kv (texts past))
    → map (λ (e : Entry). e.body) entries ≡ texts more
    → (out : Bytes) × (kv.compact base entries ≡ ok out)
      × (kv.restore out ≡ ok (replay kv (texts (past ++ more))))
unfolding kv compact
kv-restores past more base entries safe safe' restored new =
    let kept = run_all-Kept (past ++ more) [] (All-append IsSafe past more safe safe') (tt, tt) in
    let folded = run_all (past ++ more) [] in
    let all : apply_entries (replay kv (texts past)) entries ≡ folded =
      apply_entries-run_all entries more (replay kv (texts past)) safe' new
      ∙ ap (run_all more) (replay-run_all past safe)
      ∙ sym (run_all-append past more []) in
    (
      encode_map folded,
      rw (restored, compact) (ap (λ m. ok (encode_map m)) all),
      decode_map-encode_map folded kept.0 kept.1
          ∙ ap ok (sym (replay-run_all (past ++ more) (All-append IsSafe past more safe safe'))),
    )

-- A `set` whose value goes on behind a line feed, with no tab there, is applied and compacted without an
-- error, and the snapshot that comes out cannot be restored. The strings are UTF-8 and hold no other separators.
pub compact-spoiled :
    (k v w : Str) (lsn : ℕ)
    → IsPlain k v
    → Lacks b' ' k
    → Lacks b'\t' w
    → Lacks b'\n' w
    → is_utf8 (v ++ b'\n' ∷ w) ≡ true
    → (out : Bytes) × (kv.compact none
          (record { lsn = lsn; body = text_of (Command.set k (v ++ b'\n' ∷ w)) } ∷ [])
        ≡ ok out)
      × (kv.restore out ≡ err (WalError.app (text "bad snapshot line: " ++ strip_cr w)))
unfolding kv compact base_map apply_entries insert apply
compact-spoiled k v w lsn plain space wt wl utf8 =
    let value = v ++ b'\n' ∷ w in
    let read : from_utf8_lossy (text_of (Command.set k value)) ≡ text_of (Command.set k value) =
      from_utf8_lossy-valid (text_of (Command.set k value))
        (is_utf8-set k value plain.key_utf8 utf8) in
    (
      encode_map ((k, value) ∷ []),
      ap (λ m. ok (encode_map m)) (ap (apply_text []) read ∙ apply_text-set k value [] space),
      decode_map-spoiled k v w plain.key_tab plain.key_line plain.value_line wt wl plain.value_end
          plain.key_utf8 utf8,
    )
