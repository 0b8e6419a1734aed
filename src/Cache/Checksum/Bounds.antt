-- ===== src/Cache/Checksum/Bounds.antt =====
-- The checksum of src/cache.rs is a machine word.
use Prim.Native.Nat.{bit_xor, bit_xor-bitwise, digits, differ}
use mathlib.Core.List.{flatten}
use native.Mathlib.Nat.{pow-suc}
use mathlib.Core.Path.{subst}
use waltier.Base.{ℕ, zero, suc, ◌/◌, ◌%◌, ◌^◌, ◌<◌, sym, List, [], ◌∷◌, arith}
use waltier.Base.Words.{wrapping_mul}
use waltier.Base.Bytes.{Bytes, from_le_bytes}
use waltier.Cache.Checksum.{prime, seed, word, chunks, last_bytes, checksum_parts}
use waltier.Cache.Checksum.Streaming.{checksum_parts-chunks}

differ-lt : (a b : ℕ) → a < 2 → b < 2 → differ a b < 2
differ-lt zero b p q = q
differ-lt (suc zero) zero p q = p
differ-lt (suc zero) (suc zero) p q = omega arith
differ-lt (suc zero) (suc (suc b)) p q = absurd (omega arith)
differ-lt (suc (suc a)) b p q = absurd (omega arith)

digits-lt : (k n a b : ℕ) → a < 2 ^ k → b < 2 ^ k → digits (λ b. b) differ n a b < 2 ^ k
digits-lt k zero a b p q = q
digits-lt k (suc n) zero b p q = q
digits-lt zero (suc n) (suc a) b p q = absurd (omega arith)
digits-lt (suc k) (suc n) (suc a) b p q =
    let rest =
      digits-lt k n (suc a / 2) (b / 2) (omega (arith, pow-suc 2 k)) (omega (arith, pow-suc 2 k)) in
    let digit = differ-lt (suc a % 2) (b % 2) (omega arith) (omega arith) in
    omega (arith, pow-suc 2 k)

bit_xor-lt : (k a b : ℕ) → a < 2 ^ k → b < 2 ^ k → bit_xor a b < 2 ^ k
bit_xor-lt k a b p q =
    subst (λ n. n < 2 ^ k) (sym (λ i. bit_xor-bitwise a b i)) (digits-lt k a a b p q)

word-lt : (h : ℕ) (bytes : Bytes) → word h bytes < 2 ^ 64
unfolding word
word-lt h bytes =
    let h' = wrapping_mul (bit_xor h (from_le_bytes bytes)) prime in
    bit_xor-lt 64 h' (h' / 2 ^ 29) (omega arith) (omega arith)

chunks-lt : (h : ℕ) (xs : Bytes) → h < 2 ^ 64 → (chunks h xs).0 < 2 ^ 64
unfolding chunks
chunks-lt h [] p = p
chunks-lt h (_ ∷ []) p = p
chunks-lt h (_ ∷ _ ∷ []) p = p
chunks-lt h (_ ∷ _ ∷ _ ∷ []) p = p
chunks-lt h (_ ∷ _ ∷ _ ∷ _ ∷ []) p = p
chunks-lt h (_ ∷ _ ∷ _ ∷ _ ∷ _ ∷ []) p = p
chunks-lt h (_ ∷ _ ∷ _ ∷ _ ∷ _ ∷ _ ∷ []) p = p
chunks-lt h (_ ∷ _ ∷ _ ∷ _ ∷ _ ∷ _ ∷ _ ∷ []) p = p
chunks-lt h (b0 ∷ b1 ∷ b2 ∷ b3 ∷ b4 ∷ b5 ∷ b6 ∷ b7 ∷ xs) p =
    chunks-lt (word h (b0 ∷ b1 ∷ b2 ∷ b3 ∷ b4 ∷ b5 ∷ b6 ∷ b7 ∷ [])) xs
      (word-lt h (b0 ∷ b1 ∷ b2 ∷ b3 ∷ b4 ∷ b5 ∷ b6 ∷ b7 ∷ []))

last_bytes-lt : (h : ℕ) (bs : Bytes) → h < 2 ^ 64 → last_bytes h bs < 2 ^ 64
unfolding last_bytes
last_bytes-lt h [] p = p
last_bytes-lt h (b ∷ bs) p = last_bytes-lt (wrapping_mul (bit_xor h b) prime) bs (omega arith)

seed-lt : (n : ℕ) → seed n < 2 ^ 64
seed-lt n = bit_xor-lt 64 0xcbf2_9ce4_8422_2325 (n % 2 ^ 64) (omega arith) (omega arith)

pub checksum_parts-lt : (n : ℕ) (parts : List Bytes) → checksum_parts n parts < 2 ^ 64
checksum_parts-lt n parts =
    subst (λ c. c < 2 ^ 64) (sym (checksum_parts-chunks n parts))
      (last_bytes-lt (chunks (seed n) (flatten parts)).0 (chunks (seed n) (flatten parts)).1
        (chunks-lt (seed n) (flatten parts) (seed-lt n)))
