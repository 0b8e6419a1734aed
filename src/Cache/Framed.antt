-- ===== src/Cache/Framed.antt =====
-- The frame of src/cache.rs passes its check and gives its payload back.
use mathlib.Core.List.{flatten}
use waltier.Base.{
  ℕ, ◌+◌, ◌^◌, ◌<◌, ◌≤◌, ◌≡◌, refl, sym, ap, ◌∙◌, false, some, [], ◌∷◌, ◌++◌, length, take, drop,
  ltb, arith, ==_iff, length-append, append_assoc, append-nil, take-append_of_length,
  drop-append_of_length, le→ltb,
}
use waltier.Base.Bytes.{Bytes, le_bytes, from_le_bytes, length-le_bytes, from_le_bytes-le_bytes}
use waltier.Base.Text.{str_eq}
use waltier.Cache.Checksum.Bounds.{checksum_parts-lt}
use waltier.Cache.Checksum.{checksum, checksum_parts}
use waltier.Cache.Checksum.Streaming.{checksum_parts-flatten}
use waltier.Cache.Frame.{magic, header, check_frame, frame}

check_frame-parts :
    (s l payload : Bytes) (limit : ℕ)
    → length s ≡ 8
    → length l ≡ 8
    → from_le_bytes s ≡ checksum payload
    → from_le_bytes l ≡ length payload
    → header + length payload ≤ limit
    → check_frame (magic ++ (s ++ (l ++ payload))) limit ≡ some payload
unfolding check_frame str_eq
check_frame-parts s l payload limit es el sum len fits =
    rw
      (
        first,
        second,
        third,
        ltb_le,
        short,
        sum,
        len,
        (==_iff (length payload) (length payload)).1 refl,
        (==_iff (checksum payload) (checksum payload)).1 refl,
      )
      refl
  where
    first : take 8 (s ++ (l ++ payload)) ≡ s
    first = take-append_of_length 8 s (l ++ payload) es

    second : take 8 (drop 8 (s ++ (l ++ payload))) ≡ l
    second =
        ap (take 8) (drop-append_of_length 8 s (l ++ payload) es)
        ∙ take-append_of_length 8 l payload el

    third : drop 16 (s ++ (l ++ payload)) ≡ payload
    third =
        ap (drop 16) (sym (append_assoc s l payload))
        ∙ drop-append_of_length 16 (s ++ l) payload (omega (arith, length-append s l))

    size : length (magic ++ (s ++ (l ++ payload))) ≡ header + length payload
    size = omega (arith, length-append s (l ++ payload), length-append l payload)

    ltb_le : ltb limit (length (magic ++ (s ++ (l ++ payload)))) ≡ false
    ltb_le = le→ltb limit (length (magic ++ (s ++ (l ++ payload)))) (omega (arith, size))

    short : ltb (length (magic ++ (s ++ (l ++ payload)))) header ≡ false
    short = le→ltb (length (magic ++ (s ++ (l ++ payload)))) header (omega (arith, size))

-- A file that was framed passes the check of the frame, up to the limit, and gives its payload back.
pub check_frame-frame :
    (metadata body : Bytes) (n limit : ℕ)
    → n ≡ length (metadata ++ body)
    → n < 2 ^ 64
    → n + header ≤ limit
    → check_frame (frame metadata body n) limit ≡ some (metadata ++ body)
unfolding checksum frame flatten
check_frame-frame metadata body n limit size small fits =
    check_frame-parts (le_bytes 8 (checksum_parts n (metadata ∷ body ∷ []))) (le_bytes 8 n)
      (metadata ++ body) limit (length-le_bytes 8 (checksum_parts n (metadata ∷ body ∷ [])))
      (length-le_bytes 8 n)
      (from_le_bytes-le_bytes 8 (checksum_parts n (metadata ∷ body ∷ []))
          (checksum_parts-lt n (metadata ∷ body ∷ []))
        ∙ same)
      (from_le_bytes-le_bytes 8 n small ∙ size) (omega (arith, size))
  where
    same : checksum_parts n (metadata ∷ body ∷ []) ≡ checksum (metadata ++ body)
    same =
        checksum_parts-flatten n (metadata ∷ body ∷ [])
        ∙ ap (λ bytes. checksum_parts n (bytes ∷ []))
            (ap (λ bytes. metadata ++ bytes) (append-nil body))
        ∙ ap (λ m. checksum_parts m ((metadata ++ body) ∷ [])) size
