-- ===== src/Image/Canonical.antt =====
-- Each part that the decoder of src/image.rs accepts is what the encoder writes for it.
use waltier.Base.{
  ℕ, zero, suc, ◌^◌, ◌<◌, ◌≡◌, refl, ap, true, Option, none, some, List, [], ◌∷◌, ◌++◌, length,
  ◌==◌, ok, err, >>=-eq-ok, ok-injective, not-ok_err, arith, if◌then◌else◌, Bool-cases, inl, inr,
  All,
}
use mathlib.Core.Path.{subst}
use waltier.Base.Words.{u64_mod, as_u32}
use waltier.Base.Bytes.{Bytes, IsByte, le_bytes}
use waltier.Base.Text.{Str, text, is_utf8, from_utf8}
use waltier.Error.{corrupt}
use waltier.Image.{SnapshotRef, IsRef}
use waltier.Image.Encode.{put_snapshot, put_entries}
use waltier.Image.Reader.{Reader, read, read_u8, read_u32, read_u64, rest}
use waltier.Image.Reads.{Took, Took-append, read-Took, read_u8_inv, read_u32_inv, read_u64_inv}
use waltier.Image.Decode.{ok_or_corrupt, read_reference, read_snapshot, read_entries}
use waltier.Image.Parts.{IsShortKey, AreShort}

from_utf8_inv :
    (raw key : Str) (m : Str)
    → ok_or_corrupt (from_utf8 raw) m ≡ ok key
    → (raw ≡ key) × (is_utf8 key ≡ true)
unfolding from_utf8
from_utf8_inv raw key m e = elim (Bool-cases (is_utf8 raw)) [
  | inl good ↦ let same : raw ≡ key = ok-injective (rw good at e) in (same, rw (← same) good)
  | inr bad ↦ absurd (not-ok_err (rw bad at e))
]

-- What a reader that holds bytes tells of a parsed part: its bytes, and that it is in range.
pub record Parts (r r' : Reader) (o : Option SnapshotRef) : Type 0 where
  pub took : Took r r' (put_snapshot o)
  pub reference : IsRef o
  pub short_key : IsShortKey o

reference-Took :
    (r0 r r1 r2 r3 : Reader) (lsn len : ℕ) (raw key : Str)
    → Took r0 r (1 ∷ [])
    → Took r r1 (le_bytes 8 lsn)
    → lsn < u64_mod
    → Took r1 r2 (le_bytes 4 len)
    → len < 2 ^ 32
    → Took r2 r3 raw
    → length raw ≡ len
    → (raw ≡ key) × (is_utf8 key ≡ true)
    → Parts r0 r3 (some (record { key = key; lsn = lsn }))
unfolding put_snapshot
reference-Took r0 r r1 r2 r3 lsn len raw key t0 t1 lsn_lt t2 len_lt t3 sized (same, utf8) =
    let counted : len ≡ as_u32 (length key) = omega (arith, ap length same) in
    let t3' : Took r2 r3 key = rw (← same) t3 in
    let t2' : Took r1 r2 (le_bytes 4 (as_u32 (length key))) = rw (← counted) t2 in
    record {
      took =
          Took-append r0 r r3 (1 ∷ []) (le_bytes 8 lsn ++ (le_bytes 4 (as_u32 (length key)) ++ key))
            t0
            (Took-append r r1 r3 (le_bytes 8 lsn) (le_bytes 4 (as_u32 (length key)) ++ key) t1
              (Took-append r1 r2 r3 (le_bytes 4 (as_u32 (length key))) key t2' t3'));
      reference = (utf8, lsn_lt);
      short_key = omega (arith, ap length same);
    }

reference_inv :
    (r0 r r' : Reader) (o : Option SnapshotRef)
    → Took r0 r (1 ∷ [])
    → read_reference r ≡ ok (o, r')
    → Parts r0 r' o
unfolding read_reference
reference_inv r0 r r' o before e =
    let ((lsn, r1), e1, f1) = >>=-eq-ok (read_u64 r) _ e in
    let ((len, r2), e2, f2) = >>=-eq-ok (read_u32 r1) _ f1 in
    let ((raw, r3), e3, f3) = >>=-eq-ok (read r2 len) _ f2 in
    let (key, e4, f4) =
      >>=-eq-ok (ok_or_corrupt (from_utf8 raw) (text "snapshot key is not utf8")) _ f3 in
    let (t1, lsn_lt) = read_u64_inv r r1 lsn before.1 e1 in
    let (t2, len_lt) = read_u32_inv r1 r2 len t1.1 e2 in
    let (t3, sized) = read-Took r2 r3 raw len t2.1 e3 in
    subst (λ (t : Option SnapshotRef × Reader). Parts r0 t.1 t.0) (ok-injective f4)
      (reference-Took r0 r r1 r2 r3 lsn len raw key before t1 lsn_lt t2 len_lt t3 sized
        (from_utf8_inv raw key _ e4))

pub snapshot_inv :
    (r r' : Reader) (o : Option SnapshotRef)
    → All IsByte (rest r)
    → read_snapshot r ≡ ok (o, r')
    → Parts r r' o
unfolding read_snapshot
snapshot_inv r r' o bytes e =
    let ((flag, r1), e1, f1) = >>=-eq-ok (read_u8 r) _ e in
    branch flag r1 (read_u8_inv r r1 flag bytes e1) f1
  where
    branch :
        (flag : ℕ) (r1 : Reader)
        → Took r r1 (flag ∷ [])
        → (if flag == 0
            then ok (none, r1)
            else if flag == 1
            then read_reference r1
            else err (corrupt (text "bad snapshot flag")))
          ≡ ok (o, r')
        → Parts r r' o
    branch zero r1 t f =
        subst (λ (t : Option SnapshotRef × Reader). Parts r t.1 t.0) (ok-injective f)
          (record { took = unfold put_snapshot in t; reference = tt; short_key = tt })
    branch (suc zero) r1 t f = reference_inv r r1 r' o t f
    branch (suc (suc n)) r1 t f = absurd (ground arith)

pub entries_inv :
    (count : ℕ) (r r' : Reader) (es : List Bytes)
    → All IsByte (rest r)
    → read_entries count r ≡ ok (es, r')
    → Took r r' (put_entries es) × AreShort es × (length es ≡ count)
unfolding read_entries put_entries
entries_inv zero r r' es bytes e =
    subst
      (λ (t : List Bytes × Reader). Took r t.1 (put_entries t.0) × AreShort t.0 × (length t.0 ≡ 0))
      (ok-injective e) ((refl, bytes), tt, refl)
entries_inv (suc count) r r' es bytes e =
    let ((len, r1), e1, f1) = >>=-eq-ok (read_u32 r) _ e in
    let ((x, r2), e2, f2) = >>=-eq-ok (read r1 len) _ f1 in
    let ((xs, r3), e3, f3) = >>=-eq-ok (read_entries count r2) _ f2 in
    let (t1, len_lt) = read_u32_inv r r1 len bytes e1 in
    let (t2, sized) = read-Took r1 r2 x len t1.1 e2 in
    let (t3, shorts, counted) = entries_inv count r2 r3 xs t2.1 e3 in
    subst
      (λ (t : List Bytes × Reader).
        Took r t.1 (put_entries t.0) × AreShort t.0 × (length t.0 ≡ suc count))
      (ok-injective f3)
      (joined r1 r2 r3 len x xs t1 len_lt t2 sized t3, (omega arith, shorts), ap suc counted)
  where
    joined :
        (r1 r2 r3 : Reader) (len : ℕ) (x : Bytes) (xs : List Bytes)
        → Took r r1 (le_bytes 4 len)
        → len < 2 ^ 32
        → Took r1 r2 x
        → length x ≡ len
        → Took r2 r3 (put_entries xs)
        → Took r r3 (le_bytes 4 (as_u32 (length x)) ++ (x ++ put_entries xs))
    joined r1 r2 r3 len x xs t1 len_lt t2 sized t3 =
        let counted : len ≡ as_u32 (length x) = omega arith in
        let t1' : Took r r1 (le_bytes 4 (as_u32 (length x))) = rw (← counted) t1 in
        Took-append r r1 r3 (le_bytes 4 (as_u32 (length x))) (x ++ put_entries xs) t1'
          (Took-append r1 r2 r3 x (put_entries xs) t2 t3)
