-- ===== src/Wal/Refresh/Sound.antt =====
-- The loop over `MAX_RACES` rounds in src/wal.rs: what its answers inherit from its rounds.
use waltier.Base.{ℕ, zero, suc, ◌≡◌, ap, Result, ok, not-ok_err}
use waltier.Base.Text.{Str}
use waltier.Error.{WalError}
use waltier.Wal.{Missing, Step, done, again, continue_with, races}

after_round :
    {W A : Type 0} (P : A → Type 0) (next : Missing → W → Result WalError A × W) (step : Step A)
    (w1 w' : W) (a : A)
    → ((w2 : W) → ◌≡◌ {A = Step A × W} (step, w1) (done (ok a), w2) → P a)
    → ((m : Missing) → next m w1 ≡ (ok a, w') → P a)
    → continue_with next step w1 ≡ (ok a, w')
    → P a
after_round P next (done r) w1 w' a each rest e = each w1 (ap (λ t. (done t.0, w1)) e)
after_round P next (again m) w1 w' a each rest e = rest m e

-- What every round establishes of its answer holds of the answer of the loop, if every round keeps what it
-- needs of the world.
pub races_good :
    {W A : Type 0} (Good : W → Type 0) (P : A → Type 0) (round : Missing → W → Step A × W)
    (operation : Str)
    → ((m : Missing) (w : W) → Good w → Good (round m w).1)
    → ((m : Missing) (w : W) (a : A) (w' : W) → Good w → round m w ≡ (done (ok a), w') → P a)
    → (n : ℕ) (m : Missing) (w w' : W) (a : A) → Good w
    → races n operation round m w ≡ (ok a, w')
    → P a
unfolding races
races_good Good P round operation kept each zero m w w' a good e =
    absurd (not-ok_err (ap (λ t. t.0) e))
races_good Good P round operation kept each (suc n) m w w' a good e =
    after_round P (races n operation round) (round m w).0 (round m w).1 w' a
      (λ w2 f. each m w a w2 good f)
      (λ m' f.
        races_good Good P round operation kept each n m' (round m w).1 w' a (kept m w good) f)
      e

pub races_inv :
    {W A : Type 0} (P : A → Type 0) (round : Missing → W → Step A × W) (operation : Str)
    → ((m : Missing) (w : W) (a : A) (w' : W) → round m w ≡ (done (ok a), w') → P a)
    → (n : ℕ) (m : Missing) (w w' : W) (a : A) → races n operation round m w ≡ (ok a, w')
    → P a
races_inv P round operation each n m w w' a e =
    races_good (λ v. Unit {0}) P round operation (λ m' v u. tt) (λ m' v b v' u f. each m' v b v' f)
      n m w w' a tt e
