-- ===== src/Base/Bytes.antt =====
-- Bytes, `to_le_bytes` and `from_le_bytes`.
use waltier.Base.Lists.{length, All}
use Prim.Native.Nat.{ℕ, zero, suc, ◌+◌, ◌*◌, ◌/◌, ◌%◌, ◌^◌, ◌<◌}
use mathlib.Core.Path.{◌≡◌, refl, ap}
use mathlib.Core.List.{List, [], ◌∷◌}
use native.Mathlib.Omega.{arith}
use native.Mathlib.Nat.{pow-suc}

abbrev pub Bytes : Type 0
Bytes = List ℕ

abbrev pub IsByte : ℕ → Type 0
IsByte b = b < 256

-- The `k` low bytes of a number, lowest first.
abbrev pub le_bytes : ℕ → ℕ → Bytes
le_bytes zero v = []
le_bytes (suc k) v = (v % 256) ∷ le_bytes k (v / 256)

abbrev pub from_le_bytes : Bytes → ℕ
from_le_bytes [] = 0
from_le_bytes (b ∷ bs) = b + 256 * from_le_bytes bs

pub length-le_bytes : (k v : ℕ) → length (le_bytes k v) ≡ k
length-le_bytes zero v = refl
length-le_bytes (suc k) v = ap suc (length-le_bytes k (v / 256))

pub le_bytes-IsByte : (k v : ℕ) → All IsByte (le_bytes k v)
le_bytes-IsByte zero v = tt
le_bytes-IsByte (suc k) v = (omega arith, le_bytes-IsByte k (v / 256))

pub from_le_bytes-le_bytes : (k v : ℕ) → v < 256 ^ k → from_le_bytes (le_bytes k v) ≡ v
from_le_bytes-le_bytes zero v h = omega arith
from_le_bytes-le_bytes (suc k) v h =
    omega (arith, from_le_bytes-le_bytes k (v / 256) (omega (arith, pow-suc 256 k)))

pub le_bytes-from_le_bytes :
    (bs : Bytes) (k : ℕ) → length bs ≡ k → All IsByte bs → le_bytes k (from_le_bytes bs) ≡ bs
le_bytes-from_le_bytes [] zero e h = refl
le_bytes-from_le_bytes [] (suc k) e h = absurd (omega arith)
le_bytes-from_le_bytes (b ∷ bs) zero e h = absurd (omega arith)
le_bytes-from_le_bytes (b ∷ bs) (suc k) e h =
    ground (arith, le_bytes-from_le_bytes bs k (omega arith) h.1, ap (λ t. le_bytes k t) hi)
  where
    hi : (b + 256 * from_le_bytes bs) / 256 ≡ from_le_bytes bs
    hi = omega (arith, h.0)

pub from_le_bytes-lt : (bs : Bytes) → All IsByte bs → from_le_bytes bs < 256 ^ length bs
from_le_bytes-lt [] h = omega arith
from_le_bytes-lt (b ∷ bs) h = omega (arith, h.0, from_le_bytes-lt bs h.1, pow-suc 256 (length bs))
