-- ===== src/Image/Parts.antt =====
-- The parts of an image in src/image.rs: what their sizes are, and how each is read back.
use waltier.Base.{
  ℕ, ◌+◌, ◌-◌, ◌*◌, ◌^◌, ◌≤◌, ◌<◌, ◌≡◌, refl, ap, ◌∙◌, Option, none, some, List, [], ◌∷◌, ◌++◌,
  length, ltb, ok, >>=-eq-ok, ok-injective, arith, append_assoc, length-append, Bool-cases, inl,
  inr, not-ok_err, ltb→le, le→ltb,
}
use waltier.Base.Words.{u32_max, u64_mod, as_u32}
use waltier.Base.Bytes.{Bytes, le_bytes, length-le_bytes}
use waltier.Base.Text.{Str, from_utf8}
use waltier.Image.{SnapshotRef, IsRef, check_limit}
use waltier.Image.Encode.{
  or_exhausted, live_count, checked_add_two, snapshot_size, entries_size, put_snapshot, put_entries,
}
use waltier.Image.Reads.{Reads, Reads-read, Reads-read_u8, Reads-read_u32, Reads-read_u64}
use waltier.Image.Decode.{read_reference, read_snapshot, read_entries}

pub check_limit_pass :
    (resource : Str) (actual limit : ℕ) → actual ≤ limit → check_limit resource actual limit ≡ ok tt
unfolding check_limit
check_limit_pass resource actual limit h = rw (le→ltb limit actual h)

pub check_limit_inv :
    (resource : Str) (actual limit : ℕ) {u : Unit {0}}
    → check_limit resource actual limit ≡ ok u
    → actual ≤ limit
unfolding check_limit
check_limit_inv resource actual limit e = elim (Bool-cases (ltb limit actual)) [
  | inl over ↦ absurd (not-ok_err (rw over at e))
  | inr within ↦ ltb→le limit actual within
]

-- What the size checks of the encoder establish of the parts.
abbrev pub IsShortKey : Option SnapshotRef → Type 0
IsShortKey none = Unit
IsShortKey (some s) = length s.key < 2 ^ 32

abbrev pub AreShort : List Bytes → Type 0
AreShort [] = Unit
AreShort (e ∷ es) = (length e < 2 ^ 32) × AreShort es

pub Reads-reference :
    (s : SnapshotRef)
    → IsRef (some s)
    → IsShortKey (some s)
    → Reads read_reference
        (le_bytes 8 s.lsn ++ (le_bytes 4 (as_u32 (length s.key)) ++ s.key))
        (some s)
unfolding read_reference from_utf8
Reads-reference s (utf8, fits) short r ys e =
    let (r1, e1, f1) =
      Reads-read_u64 s.lsn fits r _
        (e ∙ append_assoc (le_bytes 8 s.lsn) (le_bytes 4 (as_u32 (length s.key)) ++ s.key) ys) in
    let (r2, e2, f2) =
      Reads-read_u32 (as_u32 (length s.key)) (omega arith) r1 _
        (f1 ∙ append_assoc (le_bytes 4 (as_u32 (length s.key))) s.key ys) in
    let (r3, e3, f3) = Reads-read (as_u32 (length s.key)) s.key (omega arith) r2 ys f2 in
    (r3, rw (e1, e2, e3, utf8), f3)

pub Reads-snapshot :
    (o : Option SnapshotRef) → IsRef o → IsShortKey o → Reads read_snapshot (put_snapshot o) o
unfolding read_snapshot put_snapshot
Reads-snapshot none h short r ys e = let (r1, e1, f1) = Reads-read_u8 0 r ys e in (r1, rw e1, f1)
Reads-snapshot (some s) h short r ys e =
    let (r1, e1, f1) = Reads-read_u8 1 r _ e in
    let (r2, e2, f2) = Reads-reference s h short r1 ys f1 in (r2, rw e1 e2, f2)

pub Reads-entries :
    (es : List Bytes) → AreShort es → Reads (read_entries (length es)) (put_entries es) es
unfolding read_entries put_entries
Reads-entries [] h r ys e = (r, refl, e)
Reads-entries (x ∷ es) (short, h) r ys e =
    let (r1, e1, f1) =
      Reads-read_u32 (as_u32 (length x)) (omega arith) r _
        (e ∙ append_assoc (le_bytes 4 (as_u32 (length x))) (x ++ put_entries es) ys) in
    let (r2, e2, f2) =
      Reads-read (as_u32 (length x)) x (omega arith) r1 _
        (f1 ∙ append_assoc x (put_entries es) ys) in
    let (r3, e3, f3) = Reads-entries es h r2 ys f2 in (r3, rw (e1, e2, e3), f3)

pub length-put_entries_le : (es : List Bytes) → 4 * length es ≤ length (put_entries es)
unfolding put_entries
length-put_entries_le [] = omega arith
length-put_entries_le (x ∷ es) = omega (
  arith,
  length-append (le_bytes 4 (as_u32 (length x))) (x ++ put_entries es),
  length-append x (put_entries es),
  length-le_bytes 4 (as_u32 (length x)),
  length-put_entries_le es,
)

pub or_exhausted_inv {ℓ} : {A : Type ℓ} (o : Option A) {a : A} → or_exhausted o ≡ ok a → o ≡ some a
or_exhausted_inv none e = absurd (not-ok_err e)
or_exhausted_inv (some b) e = ap some (ok-injective e)

checked_add_two_inv :
    (a b c n : ℕ) → checked_add_two a b c ≡ some n → (n ≡ a + b + c) × (n < u64_mod)
checked_add_two_inv a b c n e = ground arith

pub snapshot_size_inv :
    (o : Option SnapshotRef) (size n : ℕ)
    → snapshot_size o size ≡ ok n
    → IsShortKey o × (n + 1 ≡ size + length (put_snapshot o))
unfolding snapshot_size put_snapshot
snapshot_size_inv none size n e = (tt, omega (arith, ok-injective e))
snapshot_size_inv (some s) size n e =
    let (u, short, e1) = >>=-eq-ok (check_limit _ (length s.key) u32_max) _ e in
    let (sum, fits) = checked_add_two_inv size 12 (length s.key) n (or_exhausted_inv _ e1) in
    (
      omega (arith, check_limit_inv _ (length s.key) u32_max short),
      omega (
        arith,
        sum,
        length-append (le_bytes 8 s.lsn) (le_bytes 4 (as_u32 (length s.key)) ++ s.key),
        length-append (le_bytes 4 (as_u32 (length s.key))) s.key,
        length-le_bytes 8 s.lsn,
        length-le_bytes 4 (as_u32 (length s.key)),
      ),
    )

pub entries_size_inv :
    (es : List Bytes) (size n : ℕ)
    → entries_size es size ≡ ok n
    → AreShort es × (n ≡ size + length (put_entries es))
unfolding entries_size put_entries
entries_size_inv [] size n e = (tt, omega (arith, ok-injective e))
entries_size_inv (x ∷ es) size n e =
    let (u, short, e1) = >>=-eq-ok (check_limit _ (length x) u32_max) _ e in
    let (m, e2, e3) = >>=-eq-ok (or_exhausted (checked_add_two size 4 (length x))) _ e1 in
    let (sum, fits) = checked_add_two_inv size 4 (length x) m (or_exhausted_inv _ e2) in
    let (shorts, total) = entries_size_inv es m n e3 in
    (
      (omega (arith, check_limit_inv _ (length x) u32_max short), shorts),
      omega (
        arith,
        sum,
        total,
        length-append (le_bytes 4 (as_u32 (length x))) (x ++ put_entries es),
        length-append x (put_entries es),
        length-le_bytes 4 (as_u32 (length x)),
      ),
    )

pub live_count_inv :
    (total skip more n : ℕ)
    → live_count total skip more ≡ some n
    → (skip ≤ total) × (n ≡ total - skip + more)
unfolding live_count
live_count_inv total skip more n e = ground arith
