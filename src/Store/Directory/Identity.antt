-- ===== src/Store/Directory/Identity.antt =====
-- The identity of a root of FsStore in src/store.rs.
use waltier.Base.{
  ℕ, ◌*◌, ◌/◌, ◌%◌, ◌≡◌, ◌<◌, refl, ap, ◌∙◌, true, [], ◌∷◌, ◌++◌, length, arith, All, ok,
  Result-cases, Bool-cases, inl, inr, not-ok_err, ok-injective, ==_iff,
}
use mathlib.Core.Path.{subst}
use waltier.Base.Bytes.{Bytes, IsByte}
use waltier.Base.Text.{Str, text}
use waltier.Cache.{hex_digit, hex}
use waltier.Cache.Files.{join}
use waltier.Cache.Frame.{strip_prefix}
use waltier.Cache.RoundTrip.{strip_prefix-append}
use waltier.Store.Directory.{
  FileSystem, all_hex, is_hex_digit, is_identity, marker_name, has_other_entry, unique_id,
  root_identity,
}

hex_digit-is_hex : (n : ℕ) → n < 16 → is_hex_digit (hex_digit n) ≡ true
unfolding hex_digit
hex_digit-is_hex n small = ground arith

all_hex-hex : (bytes : Bytes) → All IsByte bytes → all_hex (hex bytes) ≡ true
unfolding all_hex hex
all_hex-hex [] p = refl
all_hex-hex (b ∷ bytes) p =
    rw (hex_digit-is_hex (b / 16) (omega (arith, p.0)), hex_digit-is_hex (b % 16) (omega arith))
      (all_hex-hex bytes p.1)

length-hex : (bytes : Bytes) → length (hex bytes) ≡ 2 * length bytes
unfolding hex
length-hex [] = refl
length-hex (b ∷ bytes) = omega (arith, length-hex bytes)

prefix : Str
prefix = text "waltier-fs-v2:"

identity-accepted :
    (bytes : Bytes)
    → length bytes ≡ 16
    → All IsByte bytes
    → is_identity (strip_prefix prefix (prefix ++ hex bytes)) ≡ true
identity-accepted bytes size p =
    rw
      (
        strip_prefix-append prefix (hex bytes),
        (==_iff (length (hex bytes)) 32).1 (omega (arith, size, length-hex bytes)),
        all_hex-hex bytes p,
      )
      refl

module _ {W : Type 0} (fs : FileSystem W) where
  reopened :
      (root : Str) (bytes : Bytes) (w : W)
      → length bytes ≡ 16
      → All IsByte bytes
      → fs.read_marker (join root marker_name) w ≡ ok (prefix ++ hex bytes)
      → root_identity fs root w ≡ (ok (prefix ++ hex bytes), w)
  unfolding root_identity prefix text
  reopened root bytes w size p held = rw (held, root_identity, identity-accepted bytes size p) refl

  -- A root keeps its identity: the one that a fresh root was given, from 16 random bytes, is the one that
  -- a later opening of it finds, when the file system reads back the marker that it has written.
  pub root_identity_kept :
      (root id : Str) (bytes : Bytes) (w w' : W)
      → ((written : Bytes) (v v' : W)
          → fs.write_marker (join root marker_name) written v ≡ (ok tt, v')
          → fs.read_marker (join root marker_name) v' ≡ ok written)
      → fs.read_marker (join root marker_name) w ≡ ok []
      → (fs.random_bytes w).0 ≡ ok bytes
      → length bytes ≡ 16
      → All IsByte bytes
      → root_identity fs root w ≡ (ok id, w')
      → root_identity fs root w' ≡ (ok id, w')
  unfolding root_identity unique_id prefix
  root_identity_kept root id bytes w w' keeps fresh random size p e =
      elim (Result-cases (fs.read_dir root w)) [
        | inr (x, bad) ↦ absurd (not-ok_err (ap (λ r. r.0) (rw (fresh, bad, root_identity) at e)))
        | inl (names, listed) ↦ elim (Bool-cases (has_other_entry names)) [
          | inl other ↦
              absurd (not-ok_err (ap (λ r. r.0) (rw (fresh, listed, other, root_identity) at e)))
          | inr empty ↦
              let marker = join root marker_name in
              let w1 = (fs.random_bytes w).1 in
              elim (Result-cases (fs.write_marker marker (prefix ++ hex bytes) w1).0) [
                | inr (x, bad) ↦ absurd (
                    not-ok_err
                      (ap (λ r. r.0) (rw (fresh, listed, empty, random, bad, root_identity) at e)))
                | inl (u, done) ↦
                    let made = rw (fresh, listed, empty, random, done, root_identity) at e in
                    let same : prefix ++ hex bytes ≡ id = ok-injective (ap (λ r. r.0) made) in
                    let after : (fs.write_marker marker (prefix ++ hex bytes) w1).1 ≡ w' =
                      ap (λ r. r.1) made in
                    let held = keeps (prefix ++ hex bytes) w1 w' (
                      ap (λ r. (r, (fs.write_marker marker (prefix ++ hex bytes) w1).1)) done
                      ∙ ap (λ v. (ok tt, v)) after) in
                    subst (λ i. root_identity fs root w' ≡ (ok i, w')) same
                      (reopened root bytes w' size p held)
              ]
        ]
      ]
