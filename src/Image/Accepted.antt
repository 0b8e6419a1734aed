-- ===== src/Image/Accepted.antt =====
-- What `WalImage::decode` of src/image.rs accepts is canonical: encoding the image again gives the
-- same bytes, and the image satisfies the invariant on sequence numbers.
use waltier.Base.{
  ℕ, ◌+◌, ◌/◌, ◌^◌, ◌≤◌, ◌<◌, ◌≡◌, refl, sym, ap, ◌∙◌, nil_of_length, Bool, true, false, min,
  Option, none, some, List, [], ◌∷◌, ◌++◌, length, ltb, ok, >>=-eq-ok, ok-injective, not-ok_err,
  arith, append-nil, length-append, ltb→le, Bool-cases, inl, inr, All,
}
use mathlib.Core.Path.{subst}
use waltier.Base.Words.{u32_max, u64_mod, as_u32}
use waltier.Base.Bytes.{Bytes, IsByte, le_bytes, length-le_bytes}
use waltier.Base.Text.{Str, text, str_eq, str_eq_iff}
use waltier.Image.{ImageLimits, SnapshotRef, WalImage, IsRef, IsValid, check_limit, check_lsn}
use waltier.Image.Encode.{
  magic, checked_add_two, live_count, snapshot_size, entries_size, put_snapshot, put_entries,
  put_image, encode_view, encode,
}
use waltier.Image.Reader.{Reader, remaining, read, read_u32, rest, remaining-rest}
use waltier.Image.Reads.{Took, Took-append, read-Took, read_u32_inv}
use waltier.Image.Decode.{
  ok_or_corrupt, reject_if, read_snapshot, read_entries, decode_parts, decode,
}
use waltier.Image.Parts.{check_limit_inv, check_limit_pass, IsShortKey, AreShort}
use waltier.Image.RoundTrip.{Encoded, length-put_image}
use waltier.Image.Canonical.{snapshot_inv, entries_inv}

checked_add_two_pass : (a b c : ℕ) → a + b + c < u64_mod → checked_add_two a b c ≡ some (a + b + c)
checked_add_two_pass a b c h = ground arith

snapshot_size_pass :
    (o : Option SnapshotRef) (size : ℕ)
    → IsShortKey o
    → size + length (put_snapshot o) ≤ u64_mod
    → (n : ℕ) × (snapshot_size o size ≡ ok n) × (n + 1 ≡ size + length (put_snapshot o))
unfolding snapshot_size put_snapshot
snapshot_size_pass none size short room = (size, refl, omega arith)
snapshot_size_pass (some s) size short room =
    let sized : length (put_snapshot (some s)) ≡ 13 + length s.key = omega (
      arith,
      length-append (le_bytes 8 s.lsn) (le_bytes 4 (as_u32 (length s.key)) ++ s.key),
      length-append (le_bytes 4 (as_u32 (length s.key))) s.key,
      length-le_bytes 8 s.lsn,
      length-le_bytes 4 (as_u32 (length s.key)),
    ) in
    (
      size + 12 + length s.key,
      rw (
        check_limit_pass (text "snapshot key bytes") (length s.key) u32_max (omega arith),
        checked_add_two_pass size 12 (length s.key) (omega arith),
      ),
      omega arith,
    )

entries_size_pass :
    (es : List Bytes) (size : ℕ)
    → AreShort es
    → size + length (put_entries es) < u64_mod
    → entries_size es size ≡ ok (size + length (put_entries es))
unfolding entries_size put_entries
entries_size_pass [] size shorts room = ap ok (omega arith)
entries_size_pass (x ∷ es) size (short, shorts) room =
    let sized : length (put_entries (x ∷ es)) ≡ 4 + length x + length (put_entries es) = omega (
      arith,
      length-append (le_bytes 4 (as_u32 (length x))) (x ++ put_entries es),
      length-append x (put_entries es),
      length-le_bytes 4 (as_u32 (length x)),
    ) in
    rw
      (
        check_limit_pass (text "entry bytes") (length x) u32_max (omega arith),
        checked_add_two_pass size 4 (length x) (omega arith),
        entries_size_pass es (size + 4 + length x) shorts (omega arith),
      )
      (ap ok (omega arith))

-- The checks of the encoder pass on what satisfies them, below 2 ^ 64 bytes.
Encoded-encode :
    (image : WalImage) (limits : ImageLimits) (bytes : Bytes)
    → Encoded image.snapshot image.entries limits bytes
    → length bytes < u64_mod
    → encode image limits ≡ ok bytes
unfolding encode encode_view live_count
Encoded-encode image limits bytes w room =
    let o = image.snapshot in
    let es = image.entries in
    let sized : length bytes ≡ 8 + length (put_snapshot o) + length (put_entries es) =
      ap length w.written ∙ length-put_image o (length es) es in
    let (n, e1, size_eq) = snapshot_size_pass o 9 w.short_key (omega arith) in
    let total = entries_size_pass es n w.shorts (omega arith) in
    let counted : live_count (length es) 0 0 ≡ some (length es) = ground (arith, w.count_le) in
    rw
      (
        counted,
        check_limit_pass (text "live entries") (length es) (min limits.entries u32_max) w.count_le,
        w.lsns.1,
        e1,
        append-nil es,
        total,
        check_limit_pass (text "WAL image bytes") (n + length (put_entries es)) limits.bytes
            (omega (arith, w.size_le)),
      )
      (ap ok (sym w.written))

reject_if_inv : (b : Bool) (m : Str) {u : Unit {0}} → reject_if b m ≡ ok u → b ≡ false
reject_if_inv true m e = absurd (not-ok_err e)
reject_if_inv false m e = refl

ok_or_corrupt_inv {ℓ} :
    {A : Type ℓ} (o : Option A) (m : Str) {a : A} → ok_or_corrupt o m ≡ ok a → o ≡ some a
ok_or_corrupt_inv none m e = absurd (not-ok_err e)
ok_or_corrupt_inv (some b) m e = ap some (ok-injective e)

-- The parts between the start of the bytes and their end, put together.
whole_image :
    (bytes : Bytes) (r1 r2 r3 r4 : Reader) (mark : Bytes) (o : Option SnapshotRef) (count : ℕ)
    (es : List Bytes)
    → Took (record { bytes = bytes; pos = 0 }) r1 mark
    → mark ≡ magic
    → Took r1 r2 (put_snapshot o)
    → Took r2 r3 (le_bytes 4 count)
    → count < 2 ^ 32
    → Took r3 r4 (put_entries es)
    → length es ≡ count
    → remaining r4 ≡ 0
    → bytes ≡ put_image o (length es) es
unfolding put_image rest
whole_image bytes r1 r2 r3 r4 mark o count es t0 marked t1 t2 small t3 counted done =
    let r0 : Reader = record { bytes = bytes; pos = 0 } in
    let numbers = le_bytes 4 (as_u32 (length es)) in
    let tail = put_snapshot o ++ (numbers ++ put_entries es) in
    let t0' = subst (λ m. Took r0 r1 m) marked t0 in
    let t2' =
      subst (λ c. Took r2 r3 (le_bytes 4 c)) {x = count} {y = as_u32 (length es)} (omega arith)
        t2 in
    let all : Took r0 r4 (magic ++ tail) = Took-append r0 r1 r4 magic tail t0' (
      Took-append r1 r2 r4 (put_snapshot o) (numbers ++ put_entries es) t1
        (Took-append r2 r3 r4 numbers (put_entries es) t2' t3)) in
    let none_left : rest r4 ≡ [] = nil_of_length (rest r4) (sym (remaining-rest r4) ∙ done) in
    all.0 ∙ ap (λ t. (magic ++ tail) ++ t) none_left ∙ append-nil (magic ++ tail)

-- What the decoder has found of an image that it accepts.
decode_parts_inv :
    (bytes mark : Bytes) (r1 : Reader) (limits : ImageLimits) (image : WalImage)
    → Took (record { bytes = bytes; pos = 0 }) r1 mark
    → mark ≡ magic
    → length bytes ≤ limits.bytes
    → decode_parts r1 limits ≡ ok image
    → Encoded image.snapshot image.entries limits bytes × IsRef image.snapshot
unfolding decode_parts
decode_parts_inv bytes mark r1 limits image t0 marked within e =
    let ((o, r2), e1, f1) = >>=-eq-ok (read_snapshot r1) _ e in
    let ((count, r3), e2, f2) = >>=-eq-ok (read_u32 r2) _ f1 in
    let (next, e3, f3) = >>=-eq-ok (ok_or_corrupt (check_lsn o count) _) _ f2 in
    let (u1, e4, f4) = >>=-eq-ok (reject_if (ltb (remaining r3 / 4) count) _) _ f3 in
    let (u2, e5, f5) = >>=-eq-ok (check_limit _ count limits.entries) _ f4 in
    let ((es, r4), e6, f6) = >>=-eq-ok (read_entries count r3) _ f5 in
    let (u3, e7, f7) = >>=-eq-ok (reject_if (ltb 0 (remaining r4)) _) _ f6 in
    let p = snapshot_inv r1 r2 o t0.1 e1 in
    let (t2, small) = read_u32_inv r2 r3 count p.took.1 e2 in
    let (t3, shorts, counted) = entries_inv count r3 r4 es t2.1 e6 in
    let done : remaining r4 ≡ 0 = omega (arith, ltb→le 0 (remaining r4) (reject_if_inv _ _ e7)) in
    subst (λ (i : WalImage). Encoded i.snapshot i.entries limits bytes × IsRef i.snapshot)
      (ok-injective f7)
      (
        record {
          count_le = omega (arith, check_limit_inv _ count limits.entries e5);
          lsns = (next, rw counted (ok_or_corrupt_inv _ _ e3));
          short_key = p.short_key;
          shorts = shorts;
          size_le = within;
          written =
              whole_image bytes r1 r2 r3 r4 mark o count es t0 marked p.took t2 small t3 counted
                done;
        },
        p.reference,
      )

pub decode_inv :
    (bytes : Bytes) (limits : ImageLimits) (image : WalImage)
    → All IsByte bytes
    → decode bytes limits ≡ ok image
    → Encoded image.snapshot image.entries limits bytes × IsRef image.snapshot
unfolding decode
decode_inv bytes limits image is_bytes e =
    let (u, e0, f0) = >>=-eq-ok (check_limit _ (length bytes) limits.bytes) _ e in
    let ((mark, r1), e1, f1) = >>=-eq-ok (read r0 4) _ f0 in
    let (t0, four) = read-Took r0 r1 mark 4 (unfold rest in is_bytes) e1 in
    elim (Bool-cases (str_eq mark magic)) [
      | inl same ↦
          decode_parts_inv bytes mark r1 limits image t0 ((str_eq_iff mark magic).0 same)
            (check_limit_inv _ (length bytes) limits.bytes e0) (rw same at f1)
      | inr other ↦ absurd (not-ok_err (rw other at f1))
    ]
  where
    r0 : Reader
    r0 = record { bytes = bytes; pos = 0 }

-- Encoding an image that was decoded gives back the very bytes, for any input of bytes below
-- 2 ^ 64 in length.
pub encode-decode :
    (bytes : Bytes) (limits : ImageLimits) (image : WalImage)
    → All IsByte bytes
    → length bytes < 2 ^ 64
    → decode bytes limits ≡ ok image
    → encode image limits ≡ ok bytes
encode-decode bytes limits image is_bytes fits e =
    Encoded-encode image limits bytes (decode_inv bytes limits image is_bytes e).0 fits

-- The image that is decoded from bytes holds a UTF-8 key and a 64-bit snapshot LSN, and no LSN in it overflows; it is
-- within both limits.
pub decode-IsValid :
    (bytes : Bytes) (limits : ImageLimits) (image : WalImage)
    → All IsByte bytes
    → decode bytes limits ≡ ok image
    → IsValid image × (length image.entries ≤ limits.entries) × (length bytes ≤ limits.bytes)
decode-IsValid bytes limits image is_bytes e =
    let (w, reference) = decode_inv bytes limits image is_bytes e in
    (record { reference = reference; fits = w.lsns }, omega (arith, w.count_le), w.size_le)
