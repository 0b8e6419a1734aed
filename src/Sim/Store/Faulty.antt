-- ===== src/Sim/Store/Faulty.antt =====
-- Without faults the simulated store of src/sim.rs is the store that it wraps.
use waltier.Base.{ℕ, ◌≡◌, refl, ap, ◌∙◌, false, Option, none, length, Result, ok, err, arith}
use waltier.Base.Bytes.{Bytes}
use waltier.Base.Text.{Str, text}
use waltier.Error.{StoreError}
use waltier.Store.{CondGet, accepted, precondition_failed, ObjectStore}
use waltier.Sim.{Machine, Faults, Sim, SimStats, chance, pause}
use waltier.Sim.Store.{
  World, paused, roll_clean_fault, roll_ambiguous_fault, unless_clean, forward, unless_ambiguous,
  got, got_if_changed, put_matched, was_put, was_deleted, sim_store,
}

pause-keeps :
    {F D T : Type 0} (m : Machine F D T) (s : Sim F D) (time : T) (n : ℕ)
    → ((pause m s time n).0.faults ≡ s.faults) × ((pause m s time n).0.targeted ≡ s.targeted)
unfolding pause
pause-keeps m s time n = (ground arith, ground arith)

module _ {F D T W : Type 0} (m : Machine F D T) where
  -- No fault is due.
  pub record IsQuiet (w : World F D T W) : Type 0 where
    pub clean : m.lt m.zero w.sim.faults.fail_clean ≡ false
    pub after : m.lt m.zero w.sim.faults.fail_ambiguous ≡ false
    pub targeted : w.sim.targeted ≡ none

  roll_clean_fault-quiet : (w : World F D T W) → IsQuiet w → roll_clean_fault m w ≡ (false, w)
  unfolding roll_clean_fault chance
  roll_clean_fault-quiet w q = rw (q.clean) refl

  roll_ambiguous_fault-quiet :
      (key : Str) (w : World F D T W) → IsQuiet w → roll_ambiguous_fault m key w ≡ (false, w)
  unfolding roll_ambiguous_fault chance
  roll_ambiguous_fault-quiet key w q = rw (q.after, q.targeted) refl

  paused-IsQuiet : (n : ℕ) (w : World F D T W) → IsQuiet w → IsQuiet (paused m n w)
  unfolding paused
  paused-IsQuiet n w q =
      let (faults, targeted) = pause-keeps m w.sim w.time n in
      record {
        clean = ap (λ (f : Faults F). m.lt m.zero f.fail_clean) faults ∙ q.clean;
        after = ap (λ (f : Faults F). m.lt m.zero f.fail_ambiguous) faults ∙ q.after;
        targeted = targeted ∙ q.targeted;
      }

  -- The answer of the wrapped operation and its effect, and no fault is due afterwards.
  abbrev pub Passes {ℓ} :
      {A : Type ℓ}
      → (W → Result StoreError A × W)
      → (World F D T W → Result StoreError A × World F D T W)
      → World F D T W
      → Type ℓ
  Passes run sim_run w =
      ((sim_run w).0 ≡ (run w.inner).0)
      × ((sim_run w).1.inner ≡ (run w.inner).1)
      × IsQuiet (sim_run w).1

  abbrev Finishes {ℓ} :
      {A : Type ℓ} → (A → World F D T W → Result StoreError A × World F D T W) → Type ℓ
  Finishes {A} finish =
      (a : A) (w : World F D T W)
      → IsQuiet w
      → ((finish a w).0 ≡ ok a) × ((finish a w).1.inner ≡ w.inner) × IsQuiet (finish a w).1

  forward-Passes {ℓ} :
      {A : Type ℓ} (run : W → Result StoreError A × W)
      (finish : A → World F D T W → Result StoreError A × World F D T W)
      (answer : Result StoreError A) (w : World F D T W)
      → (run w.inner).0 ≡ answer
      → Finishes finish
      → IsQuiet w
      → Passes run (forward m run finish) w
  unfolding forward
  forward-Passes run finish (ok a) w e fin q =
      rw (e, forward)
        (fin a (record w { inner = (run w.inner).1 })
          (record { clean = q.clean; after = q.after; targeted = q.targeted }))
  forward-Passes run finish (err x) w e fin q =
      rw (e, forward)
        (refl, refl, record { clean = q.clean; after = q.after; targeted = q.targeted })

  unless_clean-Passes {ℓ} :
      {A : Type ℓ} (what key : Str) (run : W → Result StoreError A × W)
      (finish : A → World F D T W → Result StoreError A × World F D T W) (w : World F D T W)
      → Finishes finish
      → IsQuiet w
      → Passes run (unless_clean m what key (forward m run finish)) w
  unfolding unless_clean
  unless_clean-Passes what key run finish w fin q =
      rw (roll_clean_fault-quiet w q, unless_clean) (forward-Passes run finish _ w refl fin q)

  unless_ambiguous-Finishes {ℓ} :
      {A : Type ℓ} (what key : Str) (a : A) (w : World F D T W)
      → IsQuiet w
      → ((unless_ambiguous m what key a w).0 ≡ ok a)
        × ((unless_ambiguous m what key a w).1.inner ≡ w.inner)
        × IsQuiet (unless_ambiguous m what key a w).1
  unfolding unless_ambiguous
  unless_ambiguous-Finishes what key a w q =
      rw (roll_ambiguous_fault-quiet key w q, unless_ambiguous) (refl, refl, q)

  -- The counters do not matter to the faults.
  bumped :
      (w : World F D T W) (c : SimStats)
      → IsQuiet w
      → IsQuiet (record w { sim = record (w.sim) { counters = c } })
  bumped w c q = record { clean = q.clean; after = q.after; targeted = q.targeted }

  got-Finishes : Finishes (got m)
  unfolding got
  got-Finishes found w q = (refl, refl, paused-IsQuiet _ _ (bumped w _ q))

  got_if_changed-Finishes : Finishes (got_if_changed m)
  unfolding got_if_changed
  got_if_changed-Finishes (CondGet.changed s) w q = (refl, refl, paused-IsQuiet _ _ (bumped w _ q))
  got_if_changed-Finishes CondGet.not_modified w q = (refl, refl, paused-IsQuiet _ _ (bumped w _ q))
  got_if_changed-Finishes CondGet.missing w q = (refl, refl, paused-IsQuiet _ _ (bumped w _ q))

  put_matched-Finishes : (key : Str) (bytes : ℕ) → Finishes (put_matched m key bytes)
  unfolding put_matched
  put_matched-Finishes key bytes (accepted etag) w q =
      let end = bumped (paused m bytes w) _ (paused-IsQuiet bytes w q) in
      unless_ambiguous-Finishes (text "put") key (accepted etag) _ end
  put_matched-Finishes key bytes precondition_failed w q =
      (refl, refl, bumped (paused m bytes w) _ (paused-IsQuiet bytes w q))

  was_put-Finishes : (key : Str) (bytes : ℕ) → Finishes (was_put m key bytes)
  unfolding was_put
  was_put-Finishes key bytes etag w q =
      let end = paused-IsQuiet bytes _ (bumped w _ q) in
      unless_ambiguous-Finishes (text "put") key etag _ end

  was_deleted-Finishes : (key : Str) → Finishes (was_deleted m key)
  unfolding was_deleted
  was_deleted-Finishes key u w q =
      let end = paused-IsQuiet 0 _ (bumped w _ q) in
      unless_ambiguous-Finishes (text "delete") key u _ end

  -- While neither fault has a positive probability and no fault is armed, every operation of the
  -- simulated store answers as the wrapped one and has its effect on the wrapped world, whatever
  -- the latency, and leaves no fault due.
  pub sim_store-Passes :
      (store : ObjectStore W) (key : Str) (etag : Option Str) (body : Bytes) (w : World F D T W)
      → IsQuiet w
      → let sim = sim_store m store in
        Passes (store.get key) (sim.get key) w
        × Passes (store.get_if_changed key etag) (sim.get_if_changed key etag) w
        × Passes (store.put_if_match key etag body) (sim.put_if_match key etag body) w
        × Passes (store.put key body) (sim.put key body) w
        × Passes (store.delete key) (sim.delete key) w
  unfolding sim_store
  sim_store-Passes store key etag body w q = (
    unless_clean-Passes (text "get") key (store.get key) (got m) w got-Finishes q,
    unless_clean-Passes (text "get") key (store.get_if_changed key etag) (got_if_changed m) w
        got_if_changed-Finishes q,
    unless_clean-Passes (text "put") key (store.put_if_match key etag body)
        (put_matched m key (length body)) w (put_matched-Finishes key (length body)) q,
    unless_clean-Passes (text "put") key (store.put key body) (was_put m key (length body)) w
        (was_put-Finishes key (length body)) q,
    unless_clean-Passes (text "delete") key (store.delete key) (was_deleted m key) w
        (was_deleted-Finishes key) q,
  )
