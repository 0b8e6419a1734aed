-- ===== src/Base/Text/Lossy.antt =====
-- `String::from_utf8_lossy`: every maximal piece that is not UTF-8 becomes U+FFFD; and UTF-8 under `++`.
use Prim.Native.Nat.{ℕ}
use mathlib.Core.Path.{◌≡◌, refl, ap, sym, ◌∙◌, subst}
use mathlib.Core.Logic.{◌⊎◌, inl, inr}
use mathlib.Core.Bool.{Bool, true, false}
use mathlib.Core.Option.{none, some}
use mathlib.Core.List.{[], ◌∷◌, ◌++◌, append_assoc}
use waltier.Base.Tests.{if◌then◌else◌, Bool-cases, Option-cases}
use waltier.Base.Bytes.{Bytes}
use waltier.Base.Text.{
  Str, Utf8, start, tail1, tail2, tail3, after_e0, after_ed, after_f0, after_f4, utf8_step,
  utf8_run, is_utf8,
}

abbrev replacement : Str
replacement = 0xef ∷ 0xbf ∷ 0xbd ∷ []

abbrev at_start : Utf8 → Bool
at_start start = true
at_start _ = false

-- `held` is the character that has begun and is not complete.
unfoldable pub lossy_from : Utf8 → Str → Bytes → Str
lossy_from s held [] = if at_start s then [] else replacement
lossy_from s held (b ∷ bs) = elim (utf8_step s b) [
  | some next ↦ elim (at_start next) [
    | true ↦ held ++ b ∷ lossy_from start [] bs
    | false ↦ lossy_from next (held ++ b ∷ []) bs
  ]
  | none ↦ elim (utf8_step start b) [
    | none ↦ (if at_start s then [] else replacement) ++ (replacement ++ lossy_from start [] bs)
    | some next ↦ elim (at_start next) [
      | true ↦ replacement ++ b ∷ lossy_from start [] bs
      | false ↦ replacement ++ lossy_from next (b ∷ []) bs
    ]
  ]
]

unfoldable pub from_utf8_lossy : Bytes → Str
unfolding lossy_from
from_utf8_lossy bs = lossy_from start [] bs

run-cons :
    (s : Utf8) (b : ℕ) (bs : Bytes)
    → utf8_run s (b ∷ bs) ≡ elim (utf8_step s b) [ none ↦ false | some next ↦ utf8_run next bs ]
unfolding utf8_run
run-cons start b bs = refl
run-cons tail1 b bs = refl
run-cons tail2 b bs = refl
run-cons tail3 b bs = refl
run-cons after_e0 b bs = refl
run-cons after_ed b bs = refl
run-cons after_f0 b bs = refl
run-cons after_f4 b bs = refl

run-nil : (s : Utf8) → utf8_run s [] ≡ at_start s
unfolding utf8_run
run-nil start = refl
run-nil tail1 = refl
run-nil tail2 = refl
run-nil tail3 = refl
run-nil after_e0 = refl
run-nil after_ed = refl
run-nil after_f0 = refl
run-nil after_f4 = refl

at_start_iff : (s : Utf8) → at_start s ≡ true → s ≡ start
at_start_iff start e = refl
at_start_iff tail1 e = cc
at_start_iff tail2 e = cc
at_start_iff tail3 e = cc
at_start_iff after_e0 e = cc
at_start_iff after_ed e = cc
at_start_iff after_f0 e = cc
at_start_iff after_f4 e = cc

-- A valid beginning can be read off.
run-append :
    (s : Utf8) (xs ys : Bytes) → utf8_run s xs ≡ true → utf8_run s (xs ++ ys) ≡ utf8_run start ys
run-append s [] ys e = ap (λ t. utf8_run t ys) (at_start_iff s (sym (run-nil s) ∙ e))
run-append s (b ∷ xs) ys e = elim (Option-cases (utf8_step s b)) [
  | inl bad ↦ let stuck : false ≡ true = rw bad at (sym (run-cons s b xs) ∙ e) in cc
  | inr (next, good) ↦
      run-cons s b (xs ++ ys)
      ∙ rw good (run-append next xs ys (rw good at (sym (run-cons s b xs) ∙ e)))
]

pub is_utf8-append :
    (xs ys : Bytes) → is_utf8 xs ≡ true → is_utf8 ys ≡ true → is_utf8 (xs ++ ys) ≡ true
unfolding is_utf8
is_utf8-append xs ys e f = run-append start xs ys e ∙ f

lossy_from-valid :
    (s : Utf8) (held : Str) (bs : Bytes)
    → utf8_run s bs ≡ true
    → (at_start s ≡ false) ⊎ (held ≡ [])
    → lossy_from s held bs ≡ held ++ bs
unfolding lossy_from
lossy_from-valid s held [] e (inl inside) =
    let bad : true ≡ false = sym e ∙ run-nil s ∙ inside in cc
lossy_from-valid s held [] e (inr empty) = rw (sym (run-nil s) ∙ e, empty) refl
lossy_from-valid s held (b ∷ bs) e h = elim (Option-cases (utf8_step s b)) [
  | inl bad ↦ let stuck : false ≡ true = rw bad at (sym (run-cons s b bs) ∙ e) in cc
  | inr (next, good) ↦
      let run : utf8_run next bs ≡ true = rw good at (sym (run-cons s b bs) ∙ e) in
      elim (Bool-cases (at_start next)) [
        | inl done ↦
            rw (good, done, lossy_from)
              (ap (λ t. held ++ b ∷ t)
                (lossy_from-valid start [] bs
                  (subst (λ t. utf8_run t bs ≡ true) (at_start_iff next done) run) (inr refl)))
        | inr more ↦
            rw (good, more, lossy_from)
              (lossy_from-valid next (held ++ b ∷ []) bs run (inl more)
                ∙ append_assoc held (b ∷ []) bs)
      ]
]

pub from_utf8_lossy-valid : (bs : Bytes) → is_utf8 bs ≡ true → from_utf8_lossy bs ≡ bs
unfolding from_utf8_lossy is_utf8
from_utf8_lossy-valid bs e = lossy_from-valid start [] bs e (inr refl)
