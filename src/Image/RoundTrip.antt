-- ===== src/Image/RoundTrip.antt =====
-- Decoding what `encode_view` of src/image.rs wrote.
use waltier.Base.{
  ℕ, ◌+◌, ◌/◌, ◌≤◌, ◌≡◌, refl, sym, ap, ◌∙◌, min, Option, some, List, [], ◌++◌, length, drop,
  or_else, ok, >>=-eq-ok, ok-injective, arith, append-nil, length-append, length-drop, le→ltb,
}
use waltier.Base.Words.{u32_max, as_u32}
use waltier.Base.Bytes.{Bytes, le_bytes, length-le_bytes}
use waltier.Base.Text.{text, str_eq_refl}
use waltier.Image.{ImageLimits, SnapshotRef, WalImage, IsRef, check_limit, check_lsn}
use waltier.Image.Encode.{
  magic, or_exhausted, live_count, snapshot_size, entries_size, put_snapshot, put_entries,
  put_image, encode_view,
}
use waltier.Image.Reader.{Reader, remaining, rest, remaining-rest}
use waltier.Image.Reads.{Reads-read, Reads-read_u32}
use waltier.Image.Decode.{decode}
use waltier.Image.Parts.{
  check_limit_pass, check_limit_inv, IsShortKey, AreShort, Reads-snapshot, Reads-entries,
  length-put_entries_le, or_exhausted_inv, snapshot_size_inv, entries_size_inv, live_count_inv,
}

pub length-put_image :
    (o : Option SnapshotRef) (count : ℕ) (es : List Bytes)
    → length (put_image o count es) ≡ 8 + length (put_snapshot o) + length (put_entries es)
unfolding put_image
length-put_image o count es = omega (
  arith,
  length-append (put_snapshot o) (le_bytes 4 (as_u32 count) ++ put_entries es),
  length-append (le_bytes 4 (as_u32 count)) (put_entries es),
  length-le_bytes 4 (as_u32 count),
)

-- What a successful `encode_view` has checked, and what it returns.
pub record Encoded (chosen : Option SnapshotRef) (entries : List Bytes) (limits : ImageLimits)
    (bytes : Bytes) : Type 0 where
  pub count_le : length entries ≤ min limits.entries u32_max
  pub lsns : (next : ℕ) × (check_lsn chosen (length entries) ≡ some next)
  pub short_key : IsShortKey chosen
  pub shorts : AreShort entries
  pub size_le : length bytes ≤ limits.bytes
  pub written : bytes ≡ put_image chosen (length entries) entries

pub encode_view-Encoded :
    (image : WalImage) (snapshot : Option SnapshotRef) (skip : ℕ) (extra : List Bytes)
    (limits : ImageLimits) (bytes : Bytes)
    → encode_view image snapshot skip extra limits ≡ ok bytes
    → (skip ≤ length image.entries)
      × Encoded (or_else snapshot image.snapshot) (drop skip image.entries ++ extra) limits bytes
unfolding encode_view
encode_view-Encoded image snapshot skip extra limits bytes e =
    let chosen = or_else snapshot image.snapshot in
    let es = drop skip image.entries ++ extra in
    let (count, e1, f1) =
      >>=-eq-ok (or_exhausted (live_count (length image.entries) skip (length extra))) _ e in
    let (u, e2, f2) = >>=-eq-ok (check_limit _ count (min limits.entries u32_max)) _ f1 in
    let (next, e3, f3) = >>=-eq-ok (or_exhausted (check_lsn chosen count)) _ f2 in
    let (size, e4, f4) = >>=-eq-ok (snapshot_size chosen 9) _ f3 in
    let (total, e5, f5) = >>=-eq-ok (entries_size es size) _ f4 in
    let (u', e6, f6) = >>=-eq-ok (check_limit _ total limits.bytes) _ f5 in
    let (room, kept) =
      live_count_inv (length image.entries) skip (length extra) count (or_exhausted_inv _ e1) in
    let counted : length es ≡ count =
      omega
        (arith, length-append (drop skip image.entries) extra, length-drop skip image.entries) in
    let (short_key, size_eq) = snapshot_size_inv chosen 9 size e4 in
    let (shorts, total_eq) = entries_size_inv es size total e5 in
    let written : bytes ≡ put_image chosen (length es) es = rw counted (sym (ok-injective f6)) in
    (
      room,
      record {
        count_le = rw counted (check_limit_inv _ count (min limits.entries u32_max) e2);
        lsns = (next, rw counted (or_exhausted_inv _ e3));
        short_key = short_key;
        shorts = shorts;
        size_le = omega (
          arith,
          check_limit_inv _ total limits.bytes e6,
          ap length written,
          length-put_image chosen (length es) es,
          total_eq,
          size_eq,
        );
        written = written;
      },
    )

decode-Encoded :
    (chosen : Option SnapshotRef) (entries : List Bytes) (limits : ImageLimits) (bytes : Bytes)
    → IsRef chosen
    → Encoded chosen entries limits bytes
    → decode bytes limits ≡ ok (record { snapshot = chosen; entries = entries })
unfolding decode
decode-Encoded chosen entries limits bytes valid w =
    let r0 : Reader = record { bytes = bytes; pos = 0 } in
    let count = length entries in
    let behind = put_snapshot chosen ++ (le_bytes 4 (as_u32 count) ++ put_entries entries) in
    let (r1, e1, f1) = Reads-read 4 magic refl r0 behind (unfold rest put_image in w.written) in
    let (r2, e2, f2) =
      Reads-snapshot chosen valid w.short_key r1 (le_bytes 4 (as_u32 count) ++ put_entries entries)
        f1 in
    let (r3, e3, f3) = Reads-read_u32 (as_u32 count) (omega arith) r2 (put_entries entries) f2 in
    let (r4, e4, f4) =
      Reads-entries entries w.shorts r3 [] (f3 ∙ sym (append-nil (put_entries entries))) in
    let small : as_u32 count ≡ count = omega (arith, w.count_le) in
    let counted = rw small at e3 in
    let room : count ≤ remaining r3 / 4 =
      omega (arith, remaining-rest r3, ap length f3, length-put_entries_le entries) in
    let done : remaining r4 ≤ 0 = omega (arith, remaining-rest r4, ap length f4) in
    rw (
      check_limit_pass (text "WAL image bytes") (length bytes) limits.bytes w.size_le,
      e1,
      str_eq_refl magic,
      e2,
      counted,
      w.lsns.1,
      le→ltb (remaining r3 / 4) count room,
      check_limit_pass (text "live entries") count limits.entries (omega (arith, w.count_le)),
      e4,
      le→ltb 0 (remaining r4) done,
    )

-- Decoding what `encode_view` wrote gives the snapshot reference that it chose and the entries
-- that it kept, with the new ones behind them, whenever the chosen reference holds a UTF-8 key and a
-- 64-bit LSN.
pub decode-encode_view :
    (image : WalImage) (snapshot : Option SnapshotRef) (skip : ℕ) (extra : List Bytes)
    (limits : ImageLimits) (bytes : Bytes)
    → IsRef (or_else snapshot image.snapshot)
    → encode_view image snapshot skip extra limits ≡ ok bytes
    → decode bytes limits
      ≡ ok (record {
        snapshot = or_else snapshot image.snapshot;
        entries = drop skip image.entries ++ extra;
      })
decode-encode_view image snapshot skip extra limits bytes valid e =
    decode-Encoded (or_else snapshot image.snapshot) (drop skip image.entries ++ extra) limits bytes
      valid (encode_view-Encoded image snapshot skip extra limits bytes e).1
