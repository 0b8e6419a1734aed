-- ===== src/Sim.antt =====
-- src/sim.rs: the random numbers, the faults and the latency of the simulated store. Floating point and
-- sleeping are parameters: `F` is f64, `D` is Duration, `T` is the time that passes.
pub mod Store
use Prim.Native.Nat.{bit_xor}
use waltier.Base.{
  ℕ, ◌+◌, ◌-◌, ◌*◌, ◌/◌, ◌%◌, ◌^◌, Bool, true, false, ◌&&◌, ◌||◌, Option, none, some, ◌==◌, ltb,
  if◌then◌else◌,
}
use waltier.Base.Words.{wrapping_add, wrapping_mul, u64_mod}
use waltier.Base.Text.{Str}

-- What the program uses of `f64`, `Duration` and `thread::sleep`.
pub record Machine (F D T : Type 0) : Type 0 where
  pub zero : F
  pub one : F
  pub fifth : F
  pub lt : F → F → Bool
  pub add : F → F → F
  pub mul : F → F → F
  -- the quotient of two integers
  pub ratio : ℕ → ℕ → F
  pub no_time : D
  pub is_no_time : D → Bool
  pub millis : ℕ → D
  pub seconds : F → D
  pub add_time : D → D → D
  pub mul_time : D → F → D
  pub sleep : D → T → T

-- SplitMix64: the state, a `u64`.
pub record Rng : Type 0 where
  pub state : ℕ

unfoldable pub rng_new : ℕ → Rng
rng_new seed = record { state = seed }

-- `(z ^ (z >> k)).wrapping_mul(m)`
unfoldable pub mix : ℕ → ℕ → ℕ → ℕ
mix z k m = wrapping_mul (bit_xor z (z / 2 ^ k)) m

unfoldable pub next_u64 : Rng → ℕ × Rng
unfolding mix
next_u64 r =
    let s = wrapping_add r.state 0x9E37_79B9_7F4A_7C15 in
    let z = mix (mix s 30 0xBF58_476D_1CE4_E5B9) 27 0x94D0_49BB_1331_11EB in
    (bit_xor z (z / 2 ^ 31), record { state = s })

-- The remainder is by a positive `n`; the source panics at 0.
unfoldable pub below : ℕ → Rng → Option ℕ × Rng
below n r = let (x, r') = next_u64 r in (if n == 0 then none else some (x % n), r')

pub record Faults (F : Type 0) : Type 0 where
  pub fail_clean : F
  pub fail_ambiguous : F

pub record Latency (F D : Type 0) : Type 0 where
  pub rtt : D
  pub bytes_per_sec : ℕ
  pub jitter : F

pub record SimStats : Type 0 where
  pub gets : ℕ
  pub not_modified : ℕ
  pub puts : ℕ
  pub cas_failures : ℕ
  pub deletes : ℕ
  pub bytes_uploaded : ℕ
  pub bytes_downloaded : ℕ
  pub faults_injected : ℕ

abbrev pub no_stats : SimStats
no_stats = record {
  gets = 0;
  not_modified = 0;
  puts = 0;
  cas_failures = 0;
  deletes = 0;
  bytes_uploaded = 0;
  bytes_downloaded = 0;
  faults_injected = 0;
}

-- The fields of `SimStore` but for the wrapped store.
pub record Sim (F D : Type 0) : Type 0 where
  pub rng : Rng
  pub faults : Faults F
  pub targeted : Option Str
  pub latency : Latency F D
  pub counters : SimStats

module _ {F D T : Type 0} (m : Machine F D T) where
  -- Uniform in [0, 1): the upper 53 bits.
  unfoldable pub float : Rng → F × Rng
  float r = let (x, r') = next_u64 r in (m.ratio (x / 2 ^ 11) (2 ^ 53), r')

  -- No number is drawn for a probability that is not positive.
  unfoldable pub chance : F → Rng → Bool × Rng
  unfolding float
  chance p r = if m.lt m.zero p then (let (x, r') = float r in (m.lt x p, r')) else (false, r)

  unfoldable pub no_faults : Faults F
  no_faults = record { fail_clean = m.zero; fail_ambiguous = m.zero }

  unfoldable pub no_latency : Latency F D
  no_latency = record { rtt = m.no_time; bytes_per_sec = 0; jitter = m.zero }

  unfoldable pub s3_like : ℕ → ℕ → Latency F D
  s3_like rtt_ms mbps = record {
    rtt = m.millis rtt_ms;
    bytes_per_sec = wrapping_mul mbps 1_000_000;
    jitter = m.fifth;
  }

  unfoldable pub sim_new : Sim F D
  unfolding rng_new no_faults no_latency
  sim_new = record {
    rng = rng_new 0;
    faults = no_faults;
    targeted = none;
    latency = no_latency;
    counters = no_stats;
  }

  -- The delay of a transfer, before the jitter.
  unfoldable pub base_delay : Latency F D → ℕ → D
  base_delay l bytes =
      if ltb 0 l.bytes_per_sec
      then m.add_time l.rtt (m.seconds (m.ratio bytes l.bytes_per_sec))
      else l.rtt

  -- Jitter draws a number, which later draws depend on.
  unfoldable pub pause : Sim F D → T → ℕ → Sim F D × T
  unfolding base_delay float
  pause s time bytes =
      let l = s.latency in
      let d = base_delay l bytes in
      if m.is_no_time l.rtt && (l.bytes_per_sec == 0 || bytes == 0)
      then (s, time)
      else if m.lt m.zero l.jitter
      then (let (x, rng) = float s.rng in
          (record s { rng = rng }, m.sleep (m.mul_time d (m.add m.one (m.mul x l.jitter))) time))
      else (s, m.sleep d time)

module _ {F D : Type 0} where
  unfoldable pub with_faults : ℕ → Faults F → Sim F D → Sim F D
  unfolding rng_new
  with_faults seed faults s = record s { rng = rng_new seed; faults = faults }

  unfoldable pub with_latency : Latency F D → Sim F D → Sim F D
  with_latency latency s = record s { latency = latency }

  unfoldable pub set_faults : Faults F → Sim F D → Sim F D
  set_faults faults s = record s { faults = faults }

  unfoldable pub fail_next_mutation_ambiguously : Str → Sim F D → Sim F D
  fail_next_mutation_ambiguously part s = record s { targeted = some part }

  unfoldable pub stats : Sim F D → SimStats
  stats s = s.counters

  -- `self.count(|c| c.faults_injected += 1)`
  unfoldable pub count_fault : Sim F D → Sim F D
  count_fault s = record s {
    counters = record (s.counters) { faults_injected = wrapping_add s.counters.faults_injected 1 };
  }
