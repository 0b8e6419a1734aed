-- ===== src/Cache/Checksum.antt =====
-- `checksum` and `checksum_parts` of src/cache.rs, on 64-bit words.
pub mod Streaming
pub mod Bounds
use Prim.Native.Nat.{bit_xor}
use waltier.Base.{
  ℕ, ◌-◌, ◌/◌, ◌%◌, ◌^◌, List, [], ◌∷◌, ◌++◌, length, take, drop, min, ltb, ◌==◌, if◌then◌else◌,
}
use waltier.Base.Words.{wrapping_mul}
use waltier.Base.Bytes.{Bytes, from_le_bytes}

abbrev pub prime : ℕ
prime = 0x0000_0100_0000_01B3

abbrev pub seed : ℕ → ℕ
seed total = bit_xor 0xcbf2_9ce4_8422_2325 (total % 2 ^ 64)

-- One full word of eight bytes.
unfoldable pub word : ℕ → Bytes → ℕ
word h bytes =
    let h' = wrapping_mul (bit_xor h (from_le_bytes bytes)) prime in bit_xor h' (h' / 2 ^ 29)

-- `for chunk in chunks`: what is left is shorter than a word.
unfoldable pub chunks : ℕ → Bytes → ℕ × Bytes
unfolding word
chunks h (b0 ∷ b1 ∷ b2 ∷ b3 ∷ b4 ∷ b5 ∷ b6 ∷ b7 ∷ rest) =
    chunks (word h (b0 ∷ b1 ∷ b2 ∷ b3 ∷ b4 ∷ b5 ∷ b6 ∷ b7 ∷ [])) rest
chunks h rest = (h, rest)

-- `for &byte in &tail[..used]`
unfoldable pub last_bytes : ℕ → Bytes → ℕ
last_bytes h [] = h
last_bytes h (b ∷ bs) = last_bytes (wrapping_mul (bit_xor h b) prime) bs

-- The running hash and the bytes carried over.
pub record Progress : Type 0 where
  pub h : ℕ
  pub tail : Bytes

-- The bytes of a part that fill up the tail, and the rest of the part.
unfoldable pub fill_tail : Progress → Bytes → Progress × Bytes
fill_tail p part =
    if ltb 0 (length p.tail)
    then (let count = min (8 - length p.tail) (length part) in
        let tail = p.tail ++ take count part in
        let remaining = drop count part in
        if length tail == 8
        then (record { h = word p.h tail; tail = [] }, remaining)
        else (record { h = p.h; tail = tail }, remaining))
    else (p, part)

unfoldable pub absorb : Progress → Bytes → Progress
unfolding fill_tail chunks
absorb p part =
    let (q, remaining) = fill_tail p part in
    let (h, remainder) = chunks q.h remaining in record { h = h; tail = q.tail ++ remainder }

unfoldable pub absorb_all : Progress → List Bytes → Progress
unfolding absorb
absorb_all p [] = p
absorb_all p (part ∷ parts) = absorb_all (absorb p part) parts

unfoldable pub checksum_parts : ℕ → List Bytes → ℕ
unfolding absorb_all last_bytes
checksum_parts total parts =
    let p = absorb_all (record { h = seed total; tail = [] }) parts in last_bytes p.h p.tail

unfoldable pub checksum : Bytes → ℕ
unfolding checksum_parts
checksum bytes = checksum_parts (length bytes) (bytes ∷ [])
