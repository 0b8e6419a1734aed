-- ===== src/Image/Reader.antt =====
-- `Reader` of src/image.rs: a cursor over the bytes of an image, with one lemma for each read.
use waltier.Base.{
  ℕ, ◌+◌, ◌-◌, ◌≤◌, ◌≡◌, refl, sym, ap, ◌∙◌, [], ◌∷◌, ◌++◌, length, take, drop, ltb, if◌then◌else◌,
  Result, ok, err, ◌>>=◌, arith, length-drop, length-append, Bool-cases, inl, inr, not-ok_err,
  ok-injective, drop-add, drop-append_self, take-append_self, take-append-drop, length-take_of_le,
  le→ltb, ltb→le,
}
use waltier.Base.Bytes.{Bytes, from_le_bytes}
use waltier.Base.Text.{text}
use waltier.Error.{WalError, corrupt}

pub record Reader : Type 0 where
  pub bytes : Bytes
  pub pos : ℕ

-- What a parser returns: a value and the reader behind it.
abbrev pub Parsed : Type 0 → Type 0
Parsed A = Result WalError (A × Reader)

unfoldable pub remaining : Reader → ℕ
remaining r = length r.bytes - r.pos

unfoldable pub advance : Reader → ℕ → Reader
advance r n = record r { pos = r.pos + n }

unfoldable pub read : Reader → ℕ → Result WalError (Bytes × Reader)
unfolding remaining
read r n =
    if ltb (remaining r) n
    then err (corrupt (text "truncated"))
    else ok (take n (drop r.pos r.bytes), advance r n)

-- The first byte of what was read; `take(1)` returns one byte exactly.
abbrev pub head_or_zero : Bytes → ℕ
head_or_zero [] = 0
head_or_zero (b ∷ bs) = b

unfoldable pub read_u8 : Reader → Result WalError (ℕ × Reader)
read_u8 r = do (out, r') ← read r 1; ok (head_or_zero out, r')

unfoldable pub read_u32 : Reader → Result WalError (ℕ × Reader)
read_u32 r = do (out, r') ← read r 4; ok (from_le_bytes out, r')

unfoldable pub read_u64 : Reader → Result WalError (ℕ × Reader)
read_u64 r = do (out, r') ← read r 8; ok (from_le_bytes out, r')

-- The bytes that are still to be read.
unfoldable pub rest : Reader → Bytes
rest r = drop r.pos r.bytes

pub remaining-rest : (r : Reader) → remaining r ≡ length (rest r)
unfolding remaining rest
remaining-rest r = sym (length-drop r.pos r.bytes)

rest-advance : (r : Reader) (n : ℕ) → rest (advance r n) ≡ drop n (rest r)
unfolding rest advance
rest-advance r n = sym (drop-add r.pos n (r.pos + n) r.bytes refl)

-- Reading the front of what is left.
pub read-append :
    (r : Reader) (xs ys : Bytes) (n : ℕ)
    → rest r ≡ xs ++ ys
    → length xs ≡ n
    → (read r n ≡ ok (xs, advance r n)) × (rest (advance r n) ≡ ys)
unfolding read rest
read-append r xs ys n e l = (whole, behind)
  where
    enough : n ≤ length r.bytes - r.pos
    enough = omega (arith, length-drop r.pos r.bytes, ap length e, length-append xs ys)

    front : take n (drop r.pos r.bytes) ≡ xs
    front = rw e (rw (← l) (take-append_self xs ys))

    whole : read r n ≡ ok (xs, advance r n)
    whole =
        rw (le→ltb (length r.bytes - r.pos) n enough, read) (ap (λ t. ok (t, advance r n)) front)

    behind : rest (advance r n) ≡ ys
    behind = rest-advance r n ∙ rw e (rw (← l) (drop-append_self xs ys))

-- A read that succeeds takes `n` bytes off the front of what is left.
pub read_inv :
    (r r' : Reader) (xs : Bytes) (n : ℕ)
    → read r n ≡ ok (xs, r')
    → (rest r ≡ xs ++ rest r') × (length xs ≡ n)
unfolding read rest
read_inv r r' xs n e = elim (Bool-cases (ltb (remaining r) n)) [
  | inl short ↦ absurd (not-ok_err (rw short at e))
  | inr enough ↦ finish (ok-injective (rw enough at e)) (ltb→le _ _ enough)
]
  where
    finish :
        ◌≡◌ {A = Bytes × Reader} (take n (drop r.pos r.bytes), advance r n) (xs, r')
        → n ≤ length r.bytes - r.pos
        → (rest r ≡ xs ++ rest r') × (length xs ≡ n)
    finish h room =
        let got : take n (drop r.pos r.bytes) ≡ xs = ap (λ t. t.0) h in
        let left : rest r' ≡ drop n (rest r) = ap (λ t. rest t.1) (sym h) ∙ rest-advance r n in
        (
          rw (left, ← got) (sym (take-append-drop n (drop r.pos r.bytes))),
          rw (← got)
              (length-take_of_le n (drop r.pos r.bytes) (omega (arith, length-drop r.pos r.bytes))),
        )
