-- ===== src/Store/Directory/Objects.antt =====
-- What FsStore of src/store.rs reads back, what a lost PUT leaves, and what its errors say.
use mathlib.Core.List.{flatten}
use mathlib.Core.Path.{subst}
use waltier.Base.{
  ◌+◌, ◌-◌, ◌^◌, ◌<◌, ◌≡◌, refl, sym, ap, ◌∙◌, true, false, Option, some, ◌++◌, length, take, drop,
  ltb, ◌==◌, Result, ok, err, arith, inl, inr, ==_iff, Bool-cases, Option-cases, Result-cases,
  length-append, append_assoc, append-nil, take-append_of_length, drop-append_of_length, le→ltb,
}
use waltier.Base.Bytes.{Bytes, le_bytes, from_le_bytes, length-le_bytes, from_le_bytes-le_bytes}
use waltier.Base.Text.{Str, text, str_eq, is_utf8, from_utf8}
use waltier.Error.{StoreError, unknown}
use waltier.Error.StoreErrors
use waltier.Store.{Stored, CondPut, accepted, precondition_failed, cas_matches}
use waltier.Store.Directory.{
  Reading, contents, FileSystem, FsStore, path, parent, object_file, is_malformed, parse_object,
  read_answer, read_object, write_object, unique_id, get, put_if_match, etag_in,
}

parse_object-parts :
    (key etag n body : Bytes)
    → length etag ≡ 32
    → length n ≡ 8
    → is_utf8 etag ≡ true
    → from_le_bytes n ≡ length body
    → parse_object key (text "WFS2" ++ (etag ++ (n ++ body)))
      ≡ ok (some (record { body = body; etag = etag }))
unfolding parse_object from_utf8 str_eq text
parse_object-parts key etag n body size eight utf8 counts =
    rw (long, counted, exact, named, utf8, rest) refl
  where
    whole : length (text "WFS2" ++ (etag ++ (n ++ body))) ≡ 44 + length body
    whole = omega (arith, length-append etag (n ++ body), length-append n body)

    long : ltb (length (text "WFS2" ++ (etag ++ (n ++ body)))) 44 ≡ false
    long = le→ltb (length (text "WFS2" ++ (etag ++ (n ++ body)))) 44 (omega (arith, whole))

    counted : from_le_bytes (take 8 (drop 32 (etag ++ (n ++ body)))) ≡ length body
    counted =
        ap (λ t. from_le_bytes (take 8 t)) (drop-append_of_length 32 etag (n ++ body) size)
        ∙ ap from_le_bytes (take-append_of_length 8 n body eight)
        ∙ counts

    exact : (length body == length (text "WFS2" ++ (etag ++ (n ++ body))) - 44) ≡ true
    exact =
        (==_iff (length body) (length (text "WFS2" ++ (etag ++ (n ++ body))) - 44)).1
          (omega (arith, whole))

    named : take 32 (etag ++ (n ++ body)) ≡ etag
    named = take-append_of_length 32 etag (n ++ body) size

    rest : drop 40 (etag ++ (n ++ body)) ≡ body
    rest =
        ap (drop 40) (sym (append_assoc etag n body))
        ∙ drop-append_of_length 40 (etag ++ n) body (omega (arith, length-append etag n))

parse_object-object_file :
    (key etag : Str) (body : Bytes)
    → length etag ≡ 32
    → is_utf8 etag ≡ true
    → length body < 2 ^ 64
    → parse_object key (object_file etag body) ≡ ok (some (record { body = body; etag = etag }))
unfolding object_file flatten
parse_object-object_file key etag body size utf8 small =
    ap (λ t. parse_object key (text "WFS2" ++ (etag ++ (le_bytes 8 (length body) ++ t))))
      (append-nil body)
    ∙ parse_object-parts key etag (le_bytes 8 (length body)) body size
        (length-le_bytes 8 (length body)) utf8 (from_le_bytes-le_bytes 8 (length body) small)

abbrev Unsure : Result StoreError (Option Stored) → Type 0
Unsure (err e) = e.mutation_outcome ≡ unknown
Unsure (ok found) = Unit

parse_object-Unsure : (key : Str) (bytes : Bytes) → Unsure (parse_object key bytes)
unfolding parse_object StoreErrors.new
parse_object-Unsure key bytes = elim (Bool-cases (is_malformed bytes)) [
  | inl bad ↦ rw (bad, parse_object) refl
  | inr good ↦ elim (Option-cases (from_utf8 (take 32 (drop 4 bytes)))) [
    | inl none_there ↦ rw (good, none_there, parse_object) refl
    | inr (etag, valid) ↦ rw (good, valid, parse_object) tt
  ]
]

read_answer-Unsure : (key : Str) (r : Reading) → Unsure (read_answer key r)
unfolding read_answer StoreErrors.new
read_answer-Unsure key (contents bytes) = parse_object-Unsure key bytes
read_answer-Unsure key Reading.not_found = tt
read_answer-Unsure key (Reading.read_failed e) = refl

module _ {W : Type 0} (fs : FileSystem W) (s : FsStore) where
  abbrev Wrote : Str → Bytes → Result StoreError Str × W → Type 0
  Wrote key body (err e, w') = e.mutation_outcome ≡ unknown
  Wrote key body (ok etag, w') =
      (v : W) × (fs.write_atomic (path s key) (object_file etag body) v ≡ (ok tt, w'))

  write_object-Wrote :
      (key : Str) (body : Bytes) (w : W) → Wrote key body (write_object fs s key body w)
  unfolding write_object StoreErrors.new
  write_object-Wrote key body w = elim (Result-cases (unique_id fs w).0) [
    | inr (e, bad) ↦ rw (bad, write_object) refl
    | inl (etag, named) ↦
        let w1 = (unique_id fs w).1 in
        elim (Result-cases (fs.create_dir_all (parent s key) w1).0) [
          | inr (e, bad) ↦ rw (named, bad, write_object) refl
          | inl (u, made) ↦
              let w2 = (fs.create_dir_all (parent s key) w1).1 in
              elim (Result-cases (fs.write_atomic (path s key) (object_file etag body) w2).0) [
                | inr (e, bad) ↦ rw (named, made, bad, write_object) refl
                | inl (v, done) ↦
                    rw (named, made, done, write_object)
                      (
                        w2,
                        ap (λ r. (r, (fs.write_atomic (path s key) (object_file etag body) w2).1))
                            done,
                      )
              ]
        ]
  ]

  -- What was put is read again: when the file system reads back what it has written atomically, a put that
  -- answers with a validator of 32 bytes of UTF-8 leaves just that version of the object, if the length of the
  -- body is a machine word.
  pub get-put :
      (key etag : Str) (body : Bytes) (w w' : W)
      → ((p : Str) (bytes : Bytes) (v v' : W)
          → fs.write_atomic p bytes v ≡ (ok tt, v')
          → fs.read p v' ≡ contents bytes)
      → length etag ≡ 32
      → is_utf8 etag ≡ true
      → length body < 2 ^ 64
      → write_object fs s key body w ≡ (ok etag, w')
      → get fs s key w' ≡ (ok (some (record { body = body; etag = etag })), w')
  unfolding get read_object read_answer
  get-put key etag body w w' keeps size utf8 small put =
      let (v, done) = subst (Wrote key body) put (write_object-Wrote key body w) in
      ap (λ r. (read_answer key r, w')) (keeps (path s key) (object_file etag body) v w' done)
      ∙ ap (λ r. (r, w')) (parse_object-object_file key etag body size utf8 small)

  abbrev pub SwapAnswer : Str → Option Str → Bytes → W → Result StoreError CondPut × W → Type 0
  SwapAnswer key etag body w (err e, w') = e.mutation_outcome ≡ unknown
  SwapAnswer key etag body w (ok precondition_failed, w') =
      (w' ≡ w)
      × ((found : Option Stored) × (read_object fs s key w ≡ ok found)
          × (cas_matches (etag_in found) etag ≡ false))
  SwapAnswer key etag body w (ok (accepted new_etag), w') =
      ((v : W) × (fs.write_atomic (path s key) (object_file new_etag body) v ≡ (ok tt, w')))
      × ((found : Option Stored) × (read_object fs s key w ≡ ok found)
          × (cas_matches (etag_in found) etag ≡ true))

  -- A conditional put of the directory store, on every branch: it is lost only to an object that does not match the
  -- expected validator, and then changes nothing; it is accepted only if the object matched, and has then
  -- replaced the file of the key at once by one that holds the body under the new validator; and an error leaves
  -- its outcome open.
  pub put_if_match-SwapAnswer :
      (key : Str) (etag : Option Str) (body : Bytes) (w : W)
      → SwapAnswer key etag body w (put_if_match fs s key etag body w)
  unfolding put_if_match read_object
  put_if_match-SwapAnswer key etag body w = elim (Result-cases (read_object fs s key w)) [
    | inr (e, bad) ↦
        rw (bad, put_if_match) (subst Unsure bad (read_answer-Unsure key (fs.read (path s key) w)))
    | inl (found, good) ↦ elim (Bool-cases (cas_matches (etag_in found) etag)) [
      | inr lost ↦ rw (good, lost, put_if_match) (refl, (found, good, lost))
      | inl won ↦ elim (Result-cases (write_object fs s key body w).0) [
        | inr (e, bad) ↦
            rw (good, won, bad, put_if_match)
              (subst (λ r. Wrote key body (r, (write_object fs s key body w).1)) bad
                (write_object-Wrote key body w))
        | inl (t, fine) ↦
            rw (good, won, fine, put_if_match)
              (
                subst (λ r. Wrote key body (r, (write_object fs s key body w).1)) fine
                    (write_object-Wrote key body w),
                (found, good, won),
              )
      ]
    ]
  ]
