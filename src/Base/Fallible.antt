-- ===== src/Base/Fallible.antt =====
-- Rust's `Result`, with `?` as bind.
use mathlib.Core.Path.{◌≡◌, refl, ap}
use mathlib.Core.Logic.{◌⊎◌, inl, inr}

pub data Result {ℓ} (E : Type 0) (A : Type ℓ) : Type ℓ where
  ok : A → Result E A
  err : E → Result E A

infixl 5 ◌>>=◌ ◌>>◌
abbrev pub ◌>>=◌ {ℓ κ} :
    {E : Type 0} {A : Type ℓ} {B : Type κ} → Result E A → (A → Result E B) → Result E B
ok a >>= f = f a
err e >>= f = err e

abbrev pub ◌>>◌ {ℓ} : {E : Type 0} {B : Type ℓ} → Result E (Unit {0}) → Result E B → Result E B
m >> k = m >>= λ _. k

abbrev pub or_default {ℓ} : {E : Type 0} {A : Type ℓ} → A → Result E A → A
or_default d (ok a) = a
or_default d (err e) = d

pub Result-cases {ℓ} :
    {E : Type 0} {A : Type ℓ} (r : Result E A) → ((a : A) × (r ≡ ok a)) ⊎ ((e : E) × (r ≡ err e))
Result-cases (ok a) = inl (a, refl)
Result-cases (err e) = inr (e, refl)

-- A chain that ends well has passed through a good intermediate value.
pub >>=-eq-ok {ℓ κ} :
    {E : Type 0} {A : Type ℓ} {B : Type κ} {last : B} (first : Result E A) (next : A → Result E B)
    → ◌≡◌ {A = Result E B} (first >>= next) (ok last)
    → (mid : A) × ◌≡◌ {A = Result E A} first (ok mid) × ◌≡◌ {A = Result E B} (next mid) (ok last)
>>=-eq-ok (err why) next chain = cc
>>=-eq-ok (ok mid) next chain = (mid, refl, chain)

pub ok-injective {ℓ} :
    {E : Type 0} {A : Type ℓ} {a b : A} → ◌≡◌ {A = Result E A} (ok a) (ok b) → a ≡ b
ok-injective {a = a} e = ap (or_default a) e

pub not-ok_err {ℓ} :
    {E : Type 0} {A : Type ℓ} {a : A} {e : E} → ¬ ◌≡◌ {A = Result E A} (err e) (ok a)
not-ok_err h = cc
