-- ===== src/Sim/Store.antt =====
-- `SimStore` of src/sim.rs as an object store: faults before and after each operation of the wrapped
-- store, its latency and its counters.
pub mod Faulty
pub mod Errors
use waltier.Base.{
  ℕ, Bool, true, false, ◌||◌, Option, none, some, is_some, List, [], ◌∷◌, ◌++◌, length,
  if◌then◌else◌, Result, ok, err,
}
use waltier.Base.Words.{wrapping_add}
use waltier.Base.Bytes.{Bytes}
use waltier.Base.Text.{Str, text}
use waltier.Error.{StoreError}
use waltier.Error.StoreErrors
use waltier.Store.{Stored, CondGet, CondPut, accepted, precondition_failed, ObjectStore}
use waltier.Cache.Frame.{strip_prefix}
use waltier.Sim.{Machine, Faults, SimStats, Sim, chance, pause, count_fault}

-- `str::contains`
unfoldable pub has_part : Str → Str → Bool
unfolding strip_prefix
has_part part [] = is_some (strip_prefix part [])
has_part part (b ∷ s) = is_some (strip_prefix part (b ∷ s)) || has_part part s

-- The world behind a simulated store: the store's own fields, the time, the wrapped store's world.
pub record World (F D T W : Type 0) : Type 0 where
  pub sim : Sim F D
  pub time : T
  pub inner : W

unfoldable pub clean_failure : Str → Str → StoreError
clean_failure what key =
    StoreErrors.not_applied
      (StoreErrors.new (text "simulated clean failure: " ++ (what ++ (text " " ++ key))))

unfoldable pub ambiguous : Str → Str → StoreError
ambiguous what key =
    StoreErrors.new (
      text "simulated ambiguous failure: "
      ++ (what ++ (text " " ++ (key ++ text " (op executed)"))))

abbrev is_target : Option Str → Str → Bool
is_target none key = false
is_target (some part) key = has_part part key

abbrev downloaded : ℕ → SimStats → SimStats
downloaded bytes c = record c { bytes_downloaded = wrapping_add c.bytes_downloaded bytes }

abbrev count_get : SimStats → SimStats
count_get c = record c { gets = wrapping_add c.gets 1 }

abbrev count_not_modified : SimStats → SimStats
count_not_modified c = record c { not_modified = wrapping_add c.not_modified 1 }

abbrev count_put : ℕ → SimStats → SimStats
count_put bytes c = record c {
  puts = wrapping_add c.puts 1;
  bytes_uploaded = wrapping_add c.bytes_uploaded bytes;
}

abbrev count_cas_failure : SimStats → SimStats
count_cas_failure c = record c { cas_failures = wrapping_add c.cas_failures 1 }

abbrev count_delete : SimStats → SimStats
count_delete c = record c { deletes = wrapping_add c.deletes 1 }

abbrev found_bytes : Option Stored → ℕ
found_bytes none = 0
found_bytes (some s) = length s.body

module _ {F D T W : Type 0} (m : Machine F D T) where
  -- `self.pause(bytes)`
  unfoldable pub paused : ℕ → World F D T W → World F D T W
  paused bytes w = let (s, time) = pause m w.sim w.time bytes in record w { sim = s; time = time }

  abbrev set_sim : World F D T W → Sim F D → World F D T W
  set_sim w s = record w { sim = s }

  abbrev counted : (SimStats → SimStats) → World F D T W → World F D T W
  counted bump w = set_sim w (record (w.sim) { counters = bump w.sim.counters })

  -- Whether a clean fault is injected.
  unfoldable pub roll_clean_fault : World F D T W → Bool × World F D T W
  unfolding paused count_fault
  roll_clean_fault w =
      let (fails, rng) = chance m w.sim.faults.fail_clean w.sim.rng in
      let w1 = set_sim w (record (w.sim) { rng = rng }) in
      if fails then (true, paused 0 (set_sim w1 (count_fault w1.sim))) else (false, w1)

  -- Whether a mutation that has just executed is to report failure anyway.
  unfoldable pub roll_ambiguous_fault : Str → World F D T W → Bool × World F D T W
  unfolding count_fault
  roll_ambiguous_fault key w =
      let (fails, rng) = chance m w.sim.faults.fail_ambiguous w.sim.rng in
      let w1 = set_sim w (record (w.sim) { rng = rng }) in
      if is_target w.sim.targeted key
      then (true, set_sim w (count_fault (record (w.sim) { targeted = none })))
      else if fails
      then (true, set_sim w1 (count_fault w1.sim))
      else (false, w1)

  -- `self.roll_clean_fault(what, key)?`, and the operation behind it.
  unfoldable pub unless_clean {ℓ} :
      {A : Type ℓ}
      → Str
      → Str
      → (World F D T W → Result StoreError A × World F D T W)
      → World F D T W
      → Result StoreError A × World F D T W
  unfolding roll_clean_fault clean_failure
  unless_clean what key run w =
      let (fails, w1) = roll_clean_fault w in
      if fails then (err (clean_failure what key), w1) else run w1

  -- An operation of the wrapped store, whose error is passed on, and what is done with its answer.
  unfoldable pub forward {ℓ κ} :
      {A : Type ℓ} {B : Type κ}
      → (W → Result StoreError A × W)
      → (A → World F D T W → Result StoreError B × World F D T W)
      → World F D T W
      → Result StoreError B × World F D T W
  forward run finish w =
      let (answer, inner) = run w.inner in
      let w1 : World F D T W = record w { inner = inner } in
      elim answer [ err e ↦ (err e, w1) | ok a ↦ finish a w1 ]

  -- The end of a mutation: its answer, or the report that it failed.
  unfoldable pub unless_ambiguous {ℓ} :
      {A : Type ℓ} → Str → Str → A → World F D T W → Result StoreError A × World F D T W
  unfolding roll_ambiguous_fault ambiguous
  unless_ambiguous what key a w =
      let (fails, w1) = roll_ambiguous_fault key w in
      if fails then (err (ambiguous what key), w1) else (ok a, w1)

  unfoldable pub got :
      Option Stored → World F D T W → Result StoreError (Option Stored) × World F D T W
  unfolding paused
  got found w = (
    ok found,
    paused (found_bytes found) (counted (λ c. downloaded (found_bytes found) (count_get c)) w),
  )

  unfoldable pub got_if_changed :
      CondGet → World F D T W → Result StoreError CondGet × World F D T W
  unfolding paused
  got_if_changed (CondGet.changed s) w = (
    ok (CondGet.changed s),
    paused (length s.body) (counted (λ c. downloaded (length s.body) (count_get c)) w),
  )
  got_if_changed CondGet.not_modified w =
      (ok CondGet.not_modified, paused 0 (counted (λ c. downloaded 0 (count_not_modified c)) w))
  got_if_changed CondGet.missing w =
      (ok CondGet.missing, paused 0 (counted (λ c. downloaded 0 (count_get c)) w))

  -- The pause stands before the counters here, and behind them in `put`.
  unfoldable pub put_matched :
      Str → ℕ → CondPut → World F D T W → Result StoreError CondPut × World F D T W
  unfolding unless_ambiguous paused
  put_matched key bytes (accepted etag) w =
      unless_ambiguous (text "put") key (accepted etag) (counted (count_put bytes) (paused bytes w))
  put_matched key bytes precondition_failed w =
      (ok precondition_failed, counted count_cas_failure (paused bytes w))

  unfoldable pub was_put : Str → ℕ → Str → World F D T W → Result StoreError Str × World F D T W
  unfolding unless_ambiguous paused
  was_put key bytes etag w =
      unless_ambiguous (text "put") key etag (paused bytes (counted (count_put bytes) w))

  unfoldable pub was_deleted :
      Str → Unit {0} → World F D T W → Result StoreError (Unit {0}) × World F D T W
  unfolding unless_ambiguous paused
  was_deleted key u w = unless_ambiguous (text "delete") key u (paused 0 (counted count_delete w))

  unfoldable pub sim_store : ObjectStore W → ObjectStore (World F D T W)
  unfolding unless_clean forward got got_if_changed put_matched was_put was_deleted
  sim_store store = record {
    cache_namespace = λ w. store.cache_namespace w.inner;
    max_object_bytes = λ w. store.max_object_bytes w.inner;
    get = λ key. unless_clean (text "get") key (forward (store.get key) got);
    get_if_changed = λ key etag.
        unless_clean (text "get") key (forward (store.get_if_changed key etag) got_if_changed);
    put_if_match = λ key etag body.
        unless_clean (text "put") key
          (forward (store.put_if_match key etag body) (put_matched key (length body)));
    put = λ key body.
        unless_clean (text "put") key (forward (store.put key body) (was_put key (length body)));
    delete = λ key. unless_clean (text "delete") key (forward (store.delete key) (was_deleted key));
  }
