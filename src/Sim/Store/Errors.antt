-- ===== src/Sim/Store/Errors.antt =====
-- What the errors of the simulated store of src/sim.rs say is true, if that holds of the wrapped store.
use waltier.Base.{
  ℕ, ◌≡◌, refl, sym, ap, ◌∙◌, Option, length, Result, ok, err, arith, inl, inr, Bool-cases,
  Result-cases,
}
use mathlib.Core.Path.{subst}
use waltier.Base.Bytes.{Bytes}
use waltier.Base.Text.{Str, text}
use waltier.Error.{StoreError, not_applied, unknown}
use waltier.Error.StoreErrors.{new}
use waltier.Store.{CondPut, accepted, precondition_failed, ObjectStore, Honest}
use waltier.Sim.{Machine}
use waltier.Sim.Store.{
  World, ambiguous, paused, roll_clean_fault, roll_ambiguous_fault, unless_clean, forward,
  unless_ambiguous, put_matched, was_put, was_deleted, sim_store,
}

-- What fails in the end of an operation leaves its outcome open.
abbrev Doubts {ℓ} : {A : Type ℓ} → Result StoreError A → Type 0
Doubts (err e) = e.mutation_outcome ≡ unknown
Doubts (ok a) = Unit

module _ {F D T W : Type 0} (m : Machine F D T) where
  paused-inner : (n : ℕ) (w : World F D T W) → (paused m n w).inner ≡ w.inner
  unfolding paused
  paused-inner n w = refl

  roll_clean_fault-inner : (w : World F D T W) → (roll_clean_fault m w).1.inner ≡ w.inner
  unfolding roll_clean_fault
  roll_clean_fault-inner w = ground arith

  abbrev HonestAnswer {ℓ} : {A : Type ℓ} → W → Result StoreError A × World F D T W → Type 0
  HonestAnswer v (err e, w') = e.mutation_outcome ≡ not_applied → w'.inner ≡ v
  HonestAnswer v (ok a, w') = Unit

  unless_ambiguous-Doubts {ℓ} :
      {A : Type ℓ} (what key : Str) (a : A) (w : World F D T W)
      → Doubts (unless_ambiguous m what key a w).0
  unfolding unless_ambiguous ambiguous new
  unless_ambiguous-Doubts what key a w = elim (Bool-cases (roll_ambiguous_fault m key w).0) [
    | inl fails ↦ rw (fails, unless_ambiguous) refl
    | inr fine ↦ rw (fine, unless_ambiguous) tt
  ]

  put_matched-Doubts :
      (key : Str) (bytes : ℕ) (a : CondPut) (w : World F D T W)
      → Doubts (put_matched m key bytes a w).0
  unfolding put_matched
  put_matched-Doubts key bytes (accepted etag) w =
      unless_ambiguous-Doubts (text "put") key (accepted etag) _
  put_matched-Doubts key bytes precondition_failed w = tt

  Doubts-HonestAnswer {ℓ} :
      {A : Type ℓ} (v : W) (r : Result StoreError A) (w : World F D T W)
      → Doubts r
      → HonestAnswer v (r, w)
  Doubts-HonestAnswer v (ok a) w d = tt
  Doubts-HonestAnswer v (err e) w d = λ n. cc

  forward-HonestAnswer {ℓ κ} :
      {A : Type ℓ} {B : Type κ} (run : W → Result StoreError A × W)
      (finish : A → World F D T W → Result StoreError B × World F D T W) (w : World F D T W)
      → Honest (λ (v : W). v) run
      → ((a : A) (w1 : World F D T W) → Doubts (finish a w1).0)
      → HonestAnswer w.inner (forward m run finish w)
  unfolding forward
  forward-HonestAnswer run finish w honest doubts = elim (Result-cases (run w.inner).0) [
    | inl (a, e) ↦ rw (e, forward) (Doubts-HonestAnswer w.inner _ _ (doubts a _))
    | inr (x, e) ↦
        rw (e, forward) (honest w.inner (run w.inner).1 x (ap (λ r. (r, (run w.inner).1)) e))
  ]

  unless_clean-Honest {ℓ κ} :
      {A : Type ℓ} {B : Type κ} (what key : Str) (run : W → Result StoreError A × W)
      (finish : A → World F D T W → Result StoreError B × World F D T W)
      → Honest (λ (v : W). v) run
      → ((a : A) (w1 : World F D T W) → Doubts (finish a w1).0)
      → Honest (λ (v : World F D T W). v.inner) (unless_clean m what key (forward m run finish))
  unfolding unless_clean
  unless_clean-Honest what key run finish honest doubts w w' e q says =
      let here = roll_clean_fault-inner w in
      elim (Bool-cases (roll_clean_fault m w).0) [
        | inl fails ↦ ap (λ r. r.1.inner) (sym (rw (fails, unless_clean) at q)) ∙ here
        | inr fine ↦
            subst (HonestAnswer (roll_clean_fault m w).1.inner) (rw (fine, unless_clean) at q)
              (forward-HonestAnswer run finish (roll_clean_fault m w).1 honest doubts) says
            ∙ here
      ]

  -- An error of a mutation of the simulated store that claims that nothing was applied is true of the
  -- wrapped world, if that holds of the wrapped store.
  pub sim_store-Honest :
      (store : ObjectStore W) (key : Str) (etag : Option Str) (body : Bytes)
      → Honest (λ (v : W). v) (store.put_if_match key etag body)
      → Honest (λ (v : W). v) (store.put key body)
      → Honest (λ (v : W). v) (store.delete key)
      → let sim = sim_store m store in
        let view = λ (v : World F D T W). v.inner in
        Honest view (sim.put_if_match key etag body)
        × Honest view (sim.put key body)
        × Honest view (sim.delete key)
  unfolding sim_store was_put was_deleted
  sim_store-Honest store key etag body swap write remove = (
    unless_clean-Honest (text "put") key (store.put_if_match key etag body)
        (put_matched m key (length body)) swap (put_matched-Doubts key (length body)),
    unless_clean-Honest (text "put") key (store.put key body) (was_put m key (length body)) write
        (λ a w. unless_ambiguous-Doubts (text "put") key a _),
    unless_clean-Honest (text "delete") key (store.delete key) (was_deleted m key) remove
        (λ a w. unless_ambiguous-Doubts (text "delete") key a _),
  )
