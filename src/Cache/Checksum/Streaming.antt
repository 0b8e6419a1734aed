-- ===== src/Cache/Checksum/Streaming.antt =====
-- `checksum_parts` of src/cache.rs carries bytes across the bounds of its parts: it is the checksum of
-- their concatenation.
use mathlib.Core.List.{flatten}
use waltier.Base.{
  ℕ, suc, ◌+◌, ◌-◌, ◌<◌, ◌≡◌, refl, sym, ap, ◌∙◌, true, List, [], ◌∷◌, ◌++◌, length, take, drop,
  min, ltb, ◌==◌, arith, inl, inr, ==_iff, lt→ltb, Bool-cases, length-append, take-append-drop,
  append_assoc, append-nil, length-take_of_le, drop_all,
}
use waltier.Base.Bytes.{Bytes}
use waltier.Cache.Checksum.{
  seed, word, chunks, last_bytes, Progress, fill_tail, absorb, absorb_all, checksum_parts,
}

chunks-short : (h : ℕ) (xs : Bytes) → length xs < 8 → chunks h xs ≡ (h, xs)
unfolding chunks
chunks-short h [] s = refl
chunks-short h (_ ∷ []) s = refl
chunks-short h (_ ∷ _ ∷ []) s = refl
chunks-short h (_ ∷ _ ∷ _ ∷ []) s = refl
chunks-short h (_ ∷ _ ∷ _ ∷ _ ∷ []) s = refl
chunks-short h (_ ∷ _ ∷ _ ∷ _ ∷ _ ∷ []) s = refl
chunks-short h (_ ∷ _ ∷ _ ∷ _ ∷ _ ∷ _ ∷ []) s = refl
chunks-short h (_ ∷ _ ∷ _ ∷ _ ∷ _ ∷ _ ∷ _ ∷ []) s = refl
chunks-short h (_ ∷ _ ∷ _ ∷ _ ∷ _ ∷ _ ∷ _ ∷ _ ∷ xs) s = absurd (omega arith)

chunks-word : (h : ℕ) (xs ys : Bytes) → length xs ≡ 8 → chunks h (xs ++ ys) ≡ chunks (word h xs) ys
unfolding chunks
chunks-word h [] ys s = absurd (omega arith)
chunks-word h (_ ∷ []) ys s = absurd (omega arith)
chunks-word h (_ ∷ _ ∷ []) ys s = absurd (omega arith)
chunks-word h (_ ∷ _ ∷ _ ∷ []) ys s = absurd (omega arith)
chunks-word h (_ ∷ _ ∷ _ ∷ _ ∷ []) ys s = absurd (omega arith)
chunks-word h (_ ∷ _ ∷ _ ∷ _ ∷ _ ∷ []) ys s = absurd (omega arith)
chunks-word h (_ ∷ _ ∷ _ ∷ _ ∷ _ ∷ _ ∷ []) ys s = absurd (omega arith)
chunks-word h (_ ∷ _ ∷ _ ∷ _ ∷ _ ∷ _ ∷ _ ∷ []) ys s = absurd (omega arith)
chunks-word h (_ ∷ _ ∷ _ ∷ _ ∷ _ ∷ _ ∷ _ ∷ _ ∷ []) ys s = refl
chunks-word h (_ ∷ _ ∷ _ ∷ _ ∷ _ ∷ _ ∷ _ ∷ _ ∷ _ ∷ xs) ys s = absurd (omega arith)

-- What is left behind the words is short, and more bytes go on behind it.
chunks_rest :
    (h : ℕ) (xs ys : Bytes)
    → (length (chunks h xs).1 < 8)
      × (chunks h (xs ++ ys) ≡ chunks (chunks h xs).0 ((chunks h xs).1 ++ ys))
unfolding chunks
chunks_rest h [] ys = (omega arith, refl)
chunks_rest h (_ ∷ []) ys = (omega arith, refl)
chunks_rest h (_ ∷ _ ∷ []) ys = (omega arith, refl)
chunks_rest h (_ ∷ _ ∷ _ ∷ []) ys = (omega arith, refl)
chunks_rest h (_ ∷ _ ∷ _ ∷ _ ∷ []) ys = (omega arith, refl)
chunks_rest h (_ ∷ _ ∷ _ ∷ _ ∷ _ ∷ []) ys = (omega arith, refl)
chunks_rest h (_ ∷ _ ∷ _ ∷ _ ∷ _ ∷ _ ∷ []) ys = (omega arith, refl)
chunks_rest h (_ ∷ _ ∷ _ ∷ _ ∷ _ ∷ _ ∷ _ ∷ []) ys = (omega arith, refl)
chunks_rest h (b0 ∷ b1 ∷ b2 ∷ b3 ∷ b4 ∷ b5 ∷ b6 ∷ b7 ∷ xs) ys =
    chunks_rest (word h (b0 ∷ b1 ∷ b2 ∷ b3 ∷ b4 ∷ b5 ∷ b6 ∷ b7 ∷ [])) xs ys

abbrev of_chunks : ℕ × Bytes → Progress
of_chunks (h, tail) = record { h = h; tail = tail }

abbrev after_fill : Progress × Bytes → Progress
after_fill (q, remaining) = record {
  h = (chunks q.h remaining).0;
  tail = q.tail ++ (chunks q.h remaining).1;
}

absorb_tail :
    (h : ℕ) (tail part : Bytes)
    → length tail < 8
    → absorb (record { h = h; tail = tail }) part ≡ of_chunks (chunks h (tail ++ part))
unfolding absorb
absorb_tail h [] part short = refl
absorb_tail h (x ∷ xs) part short = elim (Bool-cases (length (tail ++ taken) == 8)) [
  | inl full ↦
      ap after_fill {x = fill_tail (record { h = h; tail = tail }) part}
        {y = (record { h = word h (tail ++ taken); tail = [] }, left)} (rw (there, full) refl)
      ∙ ap of_chunks
          (sym (chunks-word h (tail ++ taken) left ((==_iff _ 8).0 full)) ∙ ap (chunks h) whole)
  | inr not_full ↦
      let spent : left ≡ [] = drop_all count part (ground (arith, size, not_full, short)) in
      let all : taken ≡ part =
        sym (append-nil taken) ∙ ap (λ t. taken ++ t) (sym spent) ∙ take-append-drop count part in
      ap after_fill {x = fill_tail (record { h = h; tail = tail }) part}
        {y = (record { h = h; tail = tail ++ taken }, left)} (rw (there, not_full) refl)
      ∙ ap (λ t. after_fill (record { h = h; tail = tail ++ taken }, t)) spent
      ∙ ap (λ t. record { h = h; tail = t }) (append-nil (tail ++ taken) ∙ ap (λ t. tail ++ t) all)
      ∙ ap of_chunks (
          sym (
            chunks-short h (tail ++ part)
              (ground (arith, size, not_full, short, length-append tail part))))
]
  where
    tail : Bytes
    tail = x ∷ xs

    count : ℕ
    count = min (8 - length tail) (length part)

    taken : Bytes
    taken = take count part

    left : Bytes
    left = drop count part

    there : ltb 0 (suc (length xs)) ≡ true
    there = lt→ltb 0 (suc (length xs)) (omega arith)

    size : length (tail ++ taken) ≡ length tail + count
    size =
        length-append tail taken
        ∙ ap (λ n. length tail + n) (length-take_of_le count part (omega arith))

    whole : (tail ++ taken) ++ left ≡ tail ++ part
    whole = append_assoc tail taken left ∙ ap (λ t. tail ++ t) (take-append-drop count part)

-- The progress after a part is that of the words of the tail and the part.
absorb-chunks :
    (p : Progress) (part : Bytes)
    → length p.tail < 8
    → absorb p part ≡ of_chunks (chunks p.h (p.tail ++ part))
absorb-chunks p part short = absorb_tail p.h p.tail part short

absorb_all-chunks :
    (p : Progress) (parts : List Bytes)
    → length p.tail < 8
    → absorb_all p parts ≡ of_chunks (chunks p.h (p.tail ++ flatten parts))
unfolding absorb_all flatten
absorb_all-chunks p [] short =
    sym (ap of_chunks (ap (chunks p.h) (append-nil p.tail) ∙ chunks-short p.h p.tail short))
absorb_all-chunks p (part ∷ parts) short =
    let (rest, more) = chunks_rest p.h (p.tail ++ part) (flatten parts) in
    ap (λ r. absorb_all r parts) (absorb-chunks p part short)
    ∙ absorb_all-chunks (of_chunks (chunks p.h (p.tail ++ part))) parts rest
    ∙ ap of_chunks (sym more ∙ ap (chunks p.h) (append_assoc p.tail part (flatten parts)))

pub checksum_parts-chunks :
    (total : ℕ) (parts : List Bytes)
    → checksum_parts total parts
      ≡ last_bytes (chunks (seed total) (flatten parts)).0 (chunks (seed total) (flatten parts)).1
unfolding checksum_parts
checksum_parts-chunks total parts =
    ap (λ (p : Progress). last_bytes p.h p.tail)
      (absorb_all-chunks (record { h = seed total; tail = [] }) parts (omega arith))

-- The checksum of the parts, with bytes carried over their bounds, is that of their concatenation as
-- one part, however it is cut.
pub checksum_parts-flatten :
    (total : ℕ) (parts : List Bytes)
    → checksum_parts total parts ≡ checksum_parts total (flatten parts ∷ [])
unfolding flatten
checksum_parts-flatten total parts =
    checksum_parts-chunks total parts
    ∙ ap (λ bytes. last_bytes (chunks (seed total) bytes).0 (chunks (seed total) bytes).1)
        (sym (append-nil (flatten parts)))
    ∙ sym (checksum_parts-chunks total (flatten parts ∷ []))
