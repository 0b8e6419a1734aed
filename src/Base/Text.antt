-- ===== src/Base/Text.antt =====
-- Rust strings as the bytes of their UTF-8: comparison, the validity test of `String::from_utf8`,
-- and the decimal form that `format!` prints.
pub mod Lossy
use Prim.Native.Nat.{ℕ, zero, suc, ◌+◌, ◌-◌, ◌*◌, ◌/◌, ◌%◌, ◌<◌}
use Prim.Native.Char.{code}
use Prim.Native.String.{String}
use mathlib.Core.Path.{◌≡◌, refl, ap, sym, ◌∙◌}
use mathlib.Core.Logic.{◌↔◌, inl, inr}
use mathlib.Core.Bool.{Bool, true, false, ◌&&◌}
use mathlib.Core.Option.{Option, none, some}
use mathlib.Core.List.{[], ◌∷◌, ◌++◌, foldl, foldl-append}
use native.Mathlib.Omega.{arith}
use waltier.Base.Tests.{ltb, leb, ◌==◌, if◌then◌else◌, Bool-cases}
use waltier.Base.Bytes.{Bytes}

abbrev pub Str : Type 0
Str = Bytes

-- A literal: every literal of the program is ASCII, so its code points are its bytes.
unfoldable pub text : String → Str
text String.[] = []
text (String.◌∷◌ c s) = code c ∷ text s

unfoldable pub str_eq : Str → Str → Bool
str_eq [] [] = true
str_eq [] (b ∷ t) = false
str_eq (a ∷ s) [] = false
str_eq (a ∷ s) (b ∷ t) = (a == b) && str_eq s t

pub str_eq_iff : (s t : Str) → (str_eq s t ≡ true) ↔ (s ≡ t)
unfolding str_eq
str_eq_iff [] [] = (λ _. refl, λ _. refl)
str_eq_iff [] (b ∷ t) = (λ h. cc, λ h. cc)
str_eq_iff (a ∷ s) [] = (λ h. cc, λ h. cc)
str_eq_iff (a ∷ s) (b ∷ t) =
    (λ h. ground (arith, (str_eq_iff s t).0), λ h. ground (arith, (str_eq_iff s t).1))

pub str_eq_refl : (s : Str) → str_eq s s ≡ true
str_eq_refl s = (str_eq_iff s s).1 refl

-- The states of a UTF-8 reader: what the next byte may be.
pub data Utf8 : Type 0 where
  start tail1 tail2 tail3 after_e0 after_ed after_f0 after_f4 : Utf8

abbrev in_range : ℕ → ℕ → ℕ → Bool
in_range lo hi b = leb lo b && leb b hi

unfoldable pub utf8_lead : ℕ → Option Utf8
utf8_lead b =
    if leb b 0x7f
    then some start
    else if in_range 0xc2 0xdf b
    then some tail1
    else if b == 0xe0
    then some after_e0
    else if b == 0xed
    then some after_ed
    else if in_range 0xe1 0xef b
    then some tail2
    else if b == 0xf0
    then some after_f0
    else if in_range 0xf1 0xf3 b
    then some tail3
    else if b == 0xf4
    then some after_f4
    else none

unfoldable pub utf8_step : Utf8 → ℕ → Option Utf8
unfolding utf8_lead
utf8_step start b = utf8_lead b
utf8_step tail1 b = if in_range 0x80 0xbf b then some start else none
utf8_step tail2 b = if in_range 0x80 0xbf b then some tail1 else none
utf8_step tail3 b = if in_range 0x80 0xbf b then some tail2 else none
utf8_step after_e0 b = if in_range 0xa0 0xbf b then some tail1 else none
utf8_step after_ed b = if in_range 0x80 0x9f b then some tail1 else none
utf8_step after_f0 b = if in_range 0x90 0xbf b then some tail2 else none
utf8_step after_f4 b = if in_range 0x80 0x8f b then some tail2 else none

unfoldable pub utf8_run : Utf8 → Bytes → Bool
unfolding utf8_step
utf8_run start [] = true
utf8_run _ [] = false
utf8_run s (b ∷ bs) = elim (utf8_step s b) [ none ↦ false | some s' ↦ utf8_run s' bs ]

-- Well-formed UTF-8, as `String::from_utf8` accepts it.
unfoldable pub is_utf8 : Bytes → Bool
unfolding utf8_run
is_utf8 bs = utf8_run start bs

unfoldable pub from_utf8 : Bytes → Option Str
unfolding is_utf8
from_utf8 bs = if is_utf8 bs then some bs else none

-- The decimal digits of a number; each round drops a digit, so `n` rounds are enough.
digits_below : ℕ → ℕ → Str
digits_below zero n = []
digits_below (suc fuel) n =
    let rest = digits_below fuel (n / 10) ++ (48 + n % 10) ∷ [] in
    if ltb n 10 then (48 + n) ∷ [] else rest

unfoldable pub decimal : ℕ → Str
unfolding digits_below
decimal n = digits_below (suc n) n

abbrev read_digit : ℕ → ℕ → ℕ
read_digit acc d = acc * 10 + (d - 48)

abbrev read_decimal : Str → ℕ
read_decimal s = foldl read_digit 0 s

read-digits_below : (fuel n : ℕ) → n < fuel → read_decimal (digits_below fuel n) ≡ n
unfolding digits_below
read-digits_below zero n h = absurd (omega arith)
read-digits_below (suc fuel) n h = elim (Bool-cases (ltb n 10)) [
  | inl small ↦ rw small (omega arith)
  | inr large ↦
      rw large (rw foldl-append (rw (read-digits_below fuel (n / 10) (ground arith)) (omega arith)))
]

-- Different numbers print differently.
pub decimal-injective : (m n : ℕ) → decimal m ≡ decimal n → m ≡ n
unfolding decimal
decimal-injective m n e =
    sym (read-digits_below (suc m) m (omega arith))
    ∙ ap read_decimal e
    ∙ read-digits_below (suc n) n (omega arith)
