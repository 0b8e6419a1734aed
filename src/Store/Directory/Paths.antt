-- ===== src/Store/Directory/Paths.antt =====
-- The paths of the objects of FsStore in src/store.rs: hex and the chunks keep keys apart.
use waltier.Base.{
  ℕ, ◌/◌, ◌%◌, zero, suc, ◌≡◌, ◌<◌, ◌≤◌, refl, sym, ap, ◌∙◌, List, [], ◌∷◌, ◌++◌, arith, All,
}
use waltier.Base.Bytes.{IsByte}
use waltier.Base.Text.{Str, text}
use waltier.Cache.{hex_digit, hex}
use waltier.Cache.Files.{join}
use waltier.Store.Directory.{FsStore, object_path, path}

abbrev head_of : ℕ → List ℕ → ℕ
head_of d [] = d
head_of d (x ∷ xs) = x

abbrev tail_of : List ℕ → List ℕ
tail_of [] = []
tail_of (x ∷ xs) = xs

append-cancel : (p a b : List ℕ) → p ++ a ≡ p ++ b → a ≡ b
append-cancel [] a b e = e
append-cancel (x ∷ p) a b e = append-cancel p a b (ap tail_of e)

hex_digit-lt : (n : ℕ) → n < 16 → (48 ≤ hex_digit n) × (hex_digit n ≤ 102)
unfolding hex_digit
hex_digit-lt n small = (ground arith, ground arith)

hex_digit-injective : (a b : ℕ) → a < 16 → b < 16 → hex_digit a ≡ hex_digit b → a ≡ b
unfolding hex_digit
hex_digit-injective a b p q e = ground arith

abbrev second_of : List ℕ → ℕ
second_of xs = head_of 0 (tail_of xs)

byte-digits :
    (a b : ℕ)
    → IsByte a
    → IsByte b
    → hex_digit (a / 16) ≡ hex_digit (b / 16)
    → hex_digit (a % 16) ≡ hex_digit (b % 16)
    → a ≡ b
byte-digits a b p q high low =
    let same_high = hex_digit-injective (a / 16) (b / 16) (omega arith) (omega arith) high in
    let same_low = hex_digit-injective (a % 16) (b % 16) (omega arith) (omega arith) low in
    omega (arith, same_high, same_low)

cons-eq : {x y : ℕ} {xs ys : List ℕ} → x ≡ y → xs ≡ ys → x ∷ xs ≡ y ∷ ys
cons-eq {y} {xs} p q = ap (λ z. z ∷ xs) p ∙ ap (λ zs. y ∷ zs) q

-- The leaf stands apart from every further component or byte.
leaf-apart :
    (room : ℕ) (b : ℕ) (key : Str) → IsByte b → object_path room [] ≡ object_path room (b ∷ key) → ⊥
unfolding object_path hex text
leaf-apart zero b key p e =
    let same : 111 ≡ hex_digit (b / 16) = ap second_of e in
    let (low, high) = hex_digit-lt (b / 16) (omega arith) in omega arith
leaf-apart (suc room) b key p e =
    let same : 47 ≡ hex_digit (b / 16) = ap (head_of 0) e in
    let (low, high) = hex_digit-lt (b / 16) (omega arith) in omega arith

object_path-injective :
    (room : ℕ) (key other : Str)
    → All IsByte key
    → All IsByte other
    → object_path room key ≡ object_path room other
    → key ≡ other
unfolding object_path hex
object_path-injective room [] [] p q e = refl
object_path-injective room [] (b ∷ other) p q e = absurd (leaf-apart room b other q.0 e)
object_path-injective room (a ∷ key) [] p q e = absurd (leaf-apart room a key p.0 (sym e))
object_path-injective zero (a ∷ key) (b ∷ other) p q e =
    cons-eq
      (byte-digits a b p.0 q.0 (ap (λ t. head_of 0 (tail_of t)) e)
        (ap (λ t. head_of 0 (tail_of (tail_of t))) e))
      (object_path-injective 63 key other p.1 q.1 (ap (λ t. tail_of (tail_of (tail_of t))) e))
object_path-injective (suc room) (a ∷ key) (b ∷ other) p q e =
    cons-eq (byte-digits a b p.0 q.0 (ap (head_of 0) e) (ap (λ t. head_of 0 (tail_of t)) e))
      (object_path-injective room key other p.1 q.1 (ap (λ t. tail_of (tail_of t)) e))

-- Different keys of bytes have different files.
pub path-injective :
    (s : FsStore) (key other : Str)
    → All IsByte key
    → All IsByte other
    → path s key ≡ path s other
    → key ≡ other
unfolding path
path-injective s key other p q e =
    object_path-injective 0 key other p q
      (append-cancel (join s.root (text "objects")) (object_path 0 key) (object_path 0 other) e)
