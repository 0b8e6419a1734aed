-- ===== src/Image/Reads.antt =====
-- What the reads of src/image.rs take off the front of a reader, in both directions.
use waltier.Base.{
  ℕ, ◌^◌, ◌<◌, ◌≡◌, refl, sym, ap, ◌∙◌, [], ◌∷◌, ◌++◌, length, ok, ◌>>=◌, >>=-eq-ok, ok-injective,
  arith, All, All-split, append_assoc,
}
use waltier.Base.Bytes.{
  Bytes, IsByte, from_le_bytes, le_bytes, length-le_bytes, from_le_bytes-le_bytes,
  le_bytes-from_le_bytes, from_le_bytes-lt,
}
use waltier.Image.Reader.{
  Reader, Parsed, advance, read, head_or_zero, read_u8, read_u32, read_u64, rest, read-append,
  read_inv,
}

-- `p` reads `xs` off the front of any reader as the value `a`, and leaves what follows.
abbrev pub Reads : {A : Type 0} → (Reader → Parsed A) → Bytes → A → Type 0
Reads p xs a =
    (r : Reader) (ys : Bytes)
    → rest r ≡ xs ++ ys
    → (r' : Reader) × (p r ≡ ok (a, r')) × (rest r' ≡ ys)

pub Reads-pure : {A : Type 0} (a : A) → Reads (λ r. ok (a, r)) [] a
Reads-pure a r ys e = (r, refl, e)

pub Reads-bind :
    {A B : Type 0} (p : Reader → Parsed A) (q : A → Reader → Parsed B) (xs ys : Bytes) (a : A)
    (b : B)
    → Reads p xs a
    → Reads (q a) ys b
    → Reads (λ r. p r >>= λ t. q t.0 t.1) (xs ++ ys) b
Reads-bind p q xs ys a b hp hq r zs e =
    let (r1, e1, f1) = hp r (ys ++ zs) (e ∙ append_assoc xs ys zs) in
    let (r2, e2, f2) = hq r1 zs f1 in (r2, rw e1 e2, f2)

pub Reads-read : (n : ℕ) (xs : Bytes) → length xs ≡ n → Reads (λ r. read r n) xs xs
Reads-read n xs l r ys e =
    let (whole, behind) = read-append r xs ys n e l in (advance r n, whole, behind)

pub Reads-read_u8 : (b : ℕ) → Reads read_u8 (b ∷ []) b
unfolding read_u8
Reads-read_u8 b r ys e =
    let (r', got, behind) = Reads-read 1 (b ∷ []) refl r ys e in (r', rw got, behind)

pub Reads-read_u32 : (v : ℕ) → v < 2 ^ 32 → Reads read_u32 (le_bytes 4 v) v
unfolding read_u32
Reads-read_u32 v h r ys e =
    let (r', got, behind) = Reads-read 4 (le_bytes 4 v) (length-le_bytes 4 v) r ys e in
    (r', rw got (ap (λ t. ok (t, r')) (from_le_bytes-le_bytes 4 v (omega arith))), behind)

pub Reads-read_u64 : (v : ℕ) → v < 2 ^ 64 → Reads read_u64 (le_bytes 8 v) v
unfolding read_u64
Reads-read_u64 v h r ys e =
    let (r', got, behind) = Reads-read 8 (le_bytes 8 v) (length-le_bytes 8 v) r ys e in
    (r', rw got (ap (λ t. ok (t, r')) (from_le_bytes-le_bytes 8 v (omega arith))), behind)

-- The other direction: what a successful read took, where the reader holds bytes.
abbrev pub Took : Reader → Reader → Bytes → Type 0
Took r r' xs = (rest r ≡ xs ++ rest r') × All IsByte (rest r')

pub Took-append :
    (r r1 r2 : Reader) (xs ys : Bytes) → Took r r1 xs → Took r1 r2 ys → Took r r2 (xs ++ ys)
Took-append r r1 r2 xs ys (e, _) (f, left) =
    (e ∙ ap (λ t. xs ++ t) f ∙ sym (append_assoc xs ys (rest r2)), left)

pub read-Took :
    (r r' : Reader) (xs : Bytes) (n : ℕ)
    → All IsByte (rest r)
    → read r n ≡ ok (xs, r')
    → Took r r' xs × (length xs ≡ n)
read-Took r r' xs n bytes e =
    let (split, len) = read_inv r r' xs n e in
    ((split, (All-split IsByte xs (rest r') (rw split at bytes)).1), len)

module _ (r r' : Reader) (v : ℕ) (bytes : All IsByte (rest r)) where
  pub read_u8_inv : read_u8 r ≡ ok (v, r') → Took r r' (v ∷ [])
  unfolding read_u8
  read_u8_inv e =
      let ((out, r1), got, e1) = >>=-eq-ok (read r 1) _ e in
      let (split, len) = read_inv r r1 out 1 got in one out r1 split len (ok-injective e1)
    where
      one :
          (out : Bytes) (r1 : Reader)
          → rest r ≡ out ++ rest r1
          → length out ≡ 1
          → ◌≡◌ {A = ℕ × Reader} (head_or_zero out, r1) (v, r')
          → Took r r' (v ∷ [])
      one [] r1 split len e2 = absurd (omega arith)
      one (b ∷ (c ∷ bs)) r1 split len e2 = absurd (omega arith)
      one (b ∷ []) r1 split len e2 =
          let eb : b ≡ v = ap (λ t. t.0) e2 in
          let er : r1 ≡ r' = ap (λ t. t.1) e2 in
          let now : rest r ≡ v ∷ rest r' = rw (← eb, ← er) split in (now, (rw now at bytes).1)

  word_inv :
      (n : ℕ)
      → ◌≡◌ {A = Parsed ℕ} (read r n >>= λ t. ok (from_le_bytes t.0, t.1)) (ok (v, r'))
      → Took r r' (le_bytes n v) × (v < 256 ^ n)
  word_inv n e =
      let ((out, r1), got, e1) = >>=-eq-ok (read r n) _ e in
      let (split, len) = read_inv r r1 out n got in
      let ev : from_le_bytes out ≡ v = ap (λ t. t.0) (ok-injective e1) in
      let er : r1 ≡ r' = ap (λ t. t.1) (ok-injective e1) in
      let (low, high) = All-split IsByte out (rest r1) (rw split at bytes) in
      let same : le_bytes n v ≡ out = rw (← ev) (le_bytes-from_le_bytes out n len low) in
      let bound : from_le_bytes out < 256 ^ length out = from_le_bytes-lt out low in
      ((rw (same, ← er) split, rw (← er) high), rw (← ev, ← len) bound)

  pub read_u32_inv : read_u32 r ≡ ok (v, r') → Took r r' (le_bytes 4 v) × (v < 2 ^ 32)
  unfolding read_u32
  read_u32_inv e = word_inv 4 e

  pub read_u64_inv : read_u64 r ≡ ok (v, r') → Took r r' (le_bytes 8 v) × (v < 2 ^ 64)
  unfolding read_u64
  read_u64_inv e = word_inv 8 e
