-- ===== src/Kv/Snapshots.antt =====
-- The snapshot format of examples/kv.rs: a map whose strings hold no separator is read back, and a value
-- with a line feed is not.
use waltier.Base.{
  ℕ, ◌≡◌, refl, sym, ap, ◌∙◌, Bool, true, false, none, some, List, [], ◌∷◌, ◌++◌, ◌==◌, ok, err,
  arith, All, All-append, append_assoc, append-nil, Bool-cases, inl, inr, ==_iff,
}
use waltier.Base.Bytes.{Bytes}
use waltier.Base.Text.{Str, text, str_eq, is_utf8, from_utf8, utf8_run, utf8_step, utf8_lead}
use waltier.Base.Text.Lossy.{is_utf8-append}
use waltier.Error.{WalError}
use waltier.Kv.{
  Map, str_lt, insert, line, encode_map, strip_cr, lines_from, split_once, decode_lines, decode_map,
}

-- No byte of a string is `d`.
abbrev pub Lacks : ℕ → Str → Type 0
Lacks d = All (λ b. (b == d) ≡ false)

abbrev pub ends_cr : Str → Bool
ends_cr [] = false
ends_cr (b ∷ []) = b == b'\r'
ends_cr (b ∷ c ∷ s) = ends_cr (c ∷ s)

strip_cr-keeps : (s : Str) → ends_cr s ≡ false → strip_cr s ≡ s
unfolding strip_cr
strip_cr-keeps [] e = refl
strip_cr-keeps (b ∷ []) e = rw e refl
strip_cr-keeps (b ∷ c ∷ s) e = ap (λ t. b ∷ t) (strip_cr-keeps (c ∷ s) e)

lines_from-held :
    (held l rest : Str)
    → Lacks b'\n' l
    → lines_from held (l ++ b'\n' ∷ rest) ≡ strip_cr (held ++ l) ∷ lines_from [] rest
unfolding lines_from
lines_from-held [] [] rest p = refl
lines_from-held (h ∷ held) [] rest p =
    ap (λ t. strip_cr t ∷ lines_from [] rest) (sym (append-nil (h ∷ held)))
lines_from-held [] (b ∷ l) rest p = rw (p.0, lines_from) (lines_from-held (b ∷ []) l rest p.1)
lines_from-held (h ∷ held) (b ∷ l) rest p =
    rw (p.0, lines_from)
      (lines_from-held ((h ∷ held) ++ b ∷ []) l rest p.1
        ∙ ap (λ t. strip_cr t ∷ lines_from [] rest) (append_assoc (h ∷ held) (b ∷ []) l))

pub split_once-append : (d : ℕ) (l r : Str) → Lacks d l → split_once d (l ++ d ∷ r) ≡ some (l, r)
unfolding split_once
split_once-append d [] r p = rw ((==_iff d d).1 refl) refl
split_once-append d (b ∷ l) r p = rw (p.0, split_once, split_once-append d l r p.1) refl

-- A pair that the format keeps apart from its neighbours.
pub record IsPlain (k v : Str) : Type 0 where
  pub key_tab : Lacks b'\t' k
  pub key_line : Lacks b'\n' k
  pub value_line : Lacks b'\n' v
  pub value_end : ends_cr v ≡ false
  pub key_utf8 : is_utf8 k ≡ true
  pub value_utf8 : is_utf8 v ≡ true

abbrev pub Plain : Str × Str → Type 0
Plain (k, v) = IsPlain k v

abbrev pub Below : Str → Str × Str → Type 0
Below k (j, u) = str_lt k j ≡ true

-- The keys are in increasing order.
abbrev pub IsSorted : Map → Type 0
IsSorted [] = Unit
IsSorted ((k, v) ∷ m) = All (Below k) m × IsSorted m

abbrev Above : Str → Str × Str → Type 0
Above k (j, u) = str_lt j k ≡ true

str_lt_asym : (s t : Str) → str_lt s t ≡ true → (str_lt t s ≡ false) × (str_eq t s ≡ false)
unfolding str_lt str_eq
str_lt_asym [] [] e = cc
str_lt_asym [] (b ∷ t) e = (refl, refl)
str_lt_asym (a ∷ s) [] e = cc
str_lt_asym (a ∷ s) (b ∷ t) e = ground (arith, str_lt_asym s t)

insert-last : (k v : Str) (m : Map) → All (Above k) m → insert k v m ≡ m ++ (k, v) ∷ []
unfolding insert
insert-last k v [] p = refl
insert-last k v ((j, u) ∷ m) p =
    let (not_lt, not_eq) = str_lt_asym j k p.0 in rw (not_lt, not_eq, insert-last k v m p.1) refl

ends_cr-line : (k v : Str) → ends_cr v ≡ false → ends_cr (line k v) ≡ false
ends_cr-line [] [] e = ground arith
ends_cr-line [] (b ∷ v) e = e
ends_cr-line (a ∷ []) v e = ends_cr-line [] v e
ends_cr-line (a ∷ b ∷ k) v e = ends_cr-line (b ∷ k) v e

-- Everything that is read stands above what was read before.
abbrev pub Follow : Map → Map → Type 0
Follow acc [] = Unit
Follow acc ((k, v) ∷ m) = All (Above k) acc × Follow (acc ++ (k, v) ∷ []) m

decode_lines-line :
    (k v : Str) (ls : List Str) (acc : Map)
    → Lacks b'\t' k
    → decode_lines (line k v ∷ ls) acc ≡ decode_lines ls (insert k v acc)
unfolding decode_lines
decode_lines-line k v ls acc p = rw (split_once-append b'\t' k v p, decode_lines) refl

lines_from-line :
    (k v rest : Str)
    → Lacks b'\n' k
    → Lacks b'\n' v
    → lines_from [] (line k v ++ b'\n' ∷ rest) ≡ strip_cr (line k v) ∷ lines_from [] rest
lines_from-line k v rest p q =
    lines_from-held [] (line k v) rest
      (All-append (λ b. (b == b'\n') ≡ false) k (b'\t' ∷ v) p (refl, q))

decode_lines-encode :
    (m acc : Map)
    → All Plain m
    → Follow acc m
    → decode_lines (lines_from [] (encode_map m)) acc ≡ ok (acc ++ m)
unfolding encode_map decode_lines lines_from
decode_lines-encode [] acc p f = ap ok (sym (append-nil acc))
decode_lines-encode ((k, v) ∷ m) acc p f =
    let plain : IsPlain k v = p.0 in
    let rest = lines_from [] (encode_map m) in
    ap (λ ls. decode_lines ls acc)
      (lines_from-line k v (encode_map m) plain.key_line plain.value_line
        ∙ ap (λ l. l ∷ rest) (strip_cr-keeps (line k v) (ends_cr-line k v plain.value_end)))
    ∙ decode_lines-line k v rest acc plain.key_tab
    ∙ ap (decode_lines rest) (insert-last k v acc f.0)
    ∙ decode_lines-encode m (acc ++ (k, v) ∷ []) p.1 f.1
    ∙ ap ok (append_assoc acc ((k, v) ∷ []) m)

abbrev Tops : Map → Str × Str → Type 0
Tops acc (k, v) = All (Above k) acc

Tops-snoc :
    (acc : Map) (k v : Str) (m : Map)
    → All (Tops acc) m
    → All (Below k) m
    → All (Tops (acc ++ (k, v) ∷ [])) m
Tops-snoc acc k v [] p q = tt
Tops-snoc acc k v ((j, u) ∷ m) p q =
    (All-append (Above j) acc ((k, v) ∷ []) p.0 (q.0, tt), Tops-snoc acc k v m p.1 q.1)

sorted-Follow : (m acc : Map) → IsSorted m → All (Tops acc) m → Follow acc m
sorted-Follow [] acc o t = tt
sorted-Follow ((k, v) ∷ m) acc o t =
    (t.0, sorted-Follow m (acc ++ (k, v) ∷ []) o.1 (Tops-snoc acc k v m t.1 o.0))

Tops-nil : (m : Map) → All (Tops []) m
Tops-nil [] = tt
Tops-nil (x ∷ m) = (tt, Tops-nil m)

is_utf8-tab : (s : Str) → is_utf8 (b'\t' ∷ s) ≡ is_utf8 s
unfolding is_utf8 utf8_run utf8_step utf8_lead
is_utf8-tab s = refl

is_utf8-newline : (s : Str) → is_utf8 (b'\n' ∷ s) ≡ is_utf8 s
unfolding is_utf8 utf8_run utf8_step utf8_lead
is_utf8-newline s = refl

is_utf8-encode_line :
    (k v rest : Str)
    → is_utf8 k ≡ true
    → is_utf8 v ≡ true
    → is_utf8 rest ≡ true
    → is_utf8 (line k v ++ b'\n' ∷ rest) ≡ true
is_utf8-encode_line k v rest p q r =
    is_utf8-append (line k v) (b'\n' ∷ rest) (is_utf8-append k (b'\t' ∷ v) p (is_utf8-tab v ∙ q))
      (is_utf8-newline rest ∙ r)

is_utf8-encode_map : (m : Map) → All Plain m → is_utf8 (encode_map m) ≡ true
unfolding encode_map is_utf8 utf8_run
is_utf8-encode_map [] p = refl
is_utf8-encode_map ((k, v) ∷ m) p =
    let plain : IsPlain k v = p.0 in
    is_utf8-encode_line k v (encode_map m) plain.key_utf8 plain.value_utf8
      (is_utf8-encode_map m p.1)

decode_map-utf8 :
    (bytes : Bytes)
    → is_utf8 bytes ≡ true
    → decode_map bytes ≡ decode_lines (lines_from [] bytes) []
unfolding decode_map from_utf8
decode_map-utf8 bytes e = rw (decode_map, from_utf8, e) refl

-- Decoding the encoding of a map gives it back, if its keys are in order and no string in it holds a
-- separator: no tab or line feed in a key, no line feed in a value or carriage return at its end.
pub decode_map-encode_map : (m : Map) → IsSorted m → All Plain m → decode_map (encode_map m) ≡ ok m
decode_map-encode_map m o p =
    decode_map-utf8 (encode_map m) (is_utf8-encode_map m p)
    ∙ decode_lines-encode m [] p (sorted-Follow m [] o (Tops-nil m))

split_once-Lacks : (d : ℕ) (s : Str) → Lacks d s → split_once d s ≡ none
unfolding split_once
split_once-Lacks d [] p = refl
split_once-Lacks d (b ∷ s) p = rw (p.0, split_once-Lacks d s p.1) refl

strip_cr-Lacks : (d : ℕ) (s : Str) → Lacks d s → Lacks d (strip_cr s)
unfolding strip_cr
strip_cr-Lacks d [] p = tt
strip_cr-Lacks d (b ∷ []) p = elim (Bool-cases (b == b'\r')) [ inl e ↦ rw e tt | inr e ↦ rw e p ]
strip_cr-Lacks d (b ∷ c ∷ s) p = (p.0, strip_cr-Lacks d (c ∷ s) p.1)

-- A line without a tab ends the reading.
decode_lines-bad :
    (l : Str) (ls : List Str) (acc : Map)
    → Lacks b'\t' l
    → decode_lines (l ∷ ls) acc ≡ err (WalError.app (text "bad snapshot line: " ++ l))
unfolding decode_lines
decode_lines-bad l ls acc p = rw (split_once-Lacks b'\t' l p, decode_lines) refl

-- A pair whose value goes on behind a line feed, with no tab there, spoils the snapshot.
pub decode_map-spoiled :
    (k v w : Str)
    → Lacks b'\t' k
    → Lacks b'\n' k
    → Lacks b'\n' v
    → Lacks b'\t' w
    → Lacks b'\n' w
    → ends_cr v ≡ false
    → is_utf8 k ≡ true
    → is_utf8 (v ++ b'\n' ∷ w) ≡ true
    → decode_map (encode_map ((k, v ++ b'\n' ∷ w) ∷ []))
      ≡ err (WalError.app (text "bad snapshot line: " ++ strip_cr w))
unfolding encode_map lines_from
decode_map-spoiled k v w kt kl vl wt wl end ku vu =
    let value = v ++ b'\n' ∷ w in
    decode_map-utf8 (line k value ++ b'\n' ∷ [])
      (is_utf8-encode_line k value [] ku vu (unfold is_utf8 utf8_run in refl))
    ∙ ap (λ bytes. decode_lines (lines_from [] bytes) [])
        (ap (λ l. l ++ b'\n' ∷ []) (sym (append_assoc k (b'\t' ∷ v) (b'\n' ∷ w)))
          ∙ append_assoc (line k v) (b'\n' ∷ w) (b'\n' ∷ []))
    ∙ ap (λ ls. decode_lines ls [])
        (lines_from-line k v (w ++ b'\n' ∷ []) kl vl
          ∙ ap (λ ls. strip_cr (line k v) ∷ ls) (lines_from-held [] w [] wl)
          ∙ ap (λ l. l ∷ (strip_cr w ∷ [])) (strip_cr-keeps (line k v) (ends_cr-line k v end)))
    ∙ decode_lines-line k v (strip_cr w ∷ []) [] kt
    ∙ decode_lines-bad (strip_cr w) [] (insert k v []) (strip_cr-Lacks b'\t' w wt)
