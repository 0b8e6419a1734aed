-- ===== src/Tests/Faults.antt =====
-- The stores of src/sim.rs and src/s3.rs and the files of src/cache.rs at concrete inputs.
use waltier.Base.{
  ℕ, ◌+◌, ◌*◌, ◌/◌, ◌≡◌, ◌≤◌, refl, sym, ap, true, false, none, some, is_some, List, [], ◌∷◌, ◌++◌,
  length, ltb, ◌==◌, ok, arith, not-ok_err, Bool-cases, inl, inr,
}
use mathlib.Core.List.{flatten}
use waltier.Base.Bytes.{Bytes}
use waltier.Base.Text.{Str}
use waltier.Store.{cas_matches, accepted, Honest}
use waltier.Store.Memory
use waltier.Store.Memory.{MemoryStore, memory_store}
use waltier.Cache.{Cache, load, save}
use waltier.Cache.Files.{Disk}
use waltier.Cache.Checksum.{checksum_parts}
use waltier.Cache.Checksum.Streaming.{checksum_parts-flatten}
use waltier.Cache.RoundTrip.{load-save}
use waltier.Sim.{Machine, sim_new, no_faults}
use waltier.Sim.Store.{World, sim_store}
use waltier.Sim.Store.Faulty.{IsQuiet, Passes, sim_store-Passes}
use waltier.Sim.Store.Errors.{sim_store-Honest}
use waltier.S3
use waltier.S3.{Agent, Response, Reply, response, Network, S3Store, Upload, read_upload}
use waltier.S3.Requests
use waltier.S3.Requests.Sound.{GetAnswer, get_if_changed-GetAnswer}
use waltier.S3.Requests.Puts.{
  mutations-Honest, Answered, sent_with, precondition, put_if_match-Answered,
}
use waltier.S3.Chunks.{read_calls, read_calls_delivers}
use waltier.Tests.Logs.{world}

-- Whole numbers in place of floating point and of durations.
abbrev machine : Machine ℕ ℕ ℕ
machine = record {
  zero = 0;
  one = 1;
  fifth = 0;
  lt = ltb;
  add = λ a b. a + b;
  mul = λ a b. a * b;
  ratio = λ a b. a / b;
  no_time = 0;
  is_no_time = λ d. d == 0;
  millis = λ n. n;
  seconds = λ n. n;
  add_time = λ a b. a + b;
  mul_time = λ a b. a * b;
  sleep = λ d t. d + t;
}

abbrev quiet : World ℕ ℕ ℕ MemoryStore
quiet = record { sim = sim_new machine; time = 0; inner = world }

quiet-IsQuiet : IsQuiet machine quiet
unfolding sim_new no_faults
quiet-IsQuiet = record { clean = refl; after = refl; targeted = refl }

abbrev key : Str
key = b'k' ∷ []

abbrev bytes : Bytes
bytes = b'v' ∷ []

sim_store-Passes_example :
    let sim = sim_store machine memory_store in
    Passes machine (memory_store.get key) (sim.get key) quiet
    × Passes machine (memory_store.get_if_changed key none) (sim.get_if_changed key none) quiet
    × Passes machine
        (memory_store.put_if_match key none bytes)
        (sim.put_if_match key none bytes)
        quiet
    × Passes machine (memory_store.put key bytes) (sim.put key bytes) quiet
    × Passes machine (memory_store.delete key) (sim.delete key) quiet
sim_store-Passes_example = sim_store-Passes machine memory_store key none bytes quiet quiet-IsQuiet

swap-Honest : Honest (λ (v : MemoryStore). v) (memory_store.put_if_match key none bytes)
unfolding memory_store Memory.put_if_match
swap-Honest w w' e q says = elim (Bool-cases (cas_matches (Memory.etag_at key w) none)) [
  | inl m ↦ absurd (not-ok_err (sym (ap (λ r. r.0) (rw m at q))))
  | inr m ↦ absurd (not-ok_err (sym (ap (λ r. r.0) (rw m at q))))
]

put-Honest : Honest (λ (v : MemoryStore). v) (memory_store.put key bytes)
unfolding memory_store Memory.put
put-Honest w w' e q says = absurd (not-ok_err (sym (ap (λ r. r.0) q)))

delete-Honest : Honest (λ (v : MemoryStore). v) (memory_store.delete key)
unfolding memory_store Memory.delete
delete-Honest w w' e q says = absurd (not-ok_err (sym (ap (λ r. r.0) q)))

sim_store-Honest_example :
    let sim = sim_store machine memory_store in
    let view = λ (v : World ℕ ℕ ℕ MemoryStore). v.inner in
    Honest view (sim.put_if_match key none bytes)
    × Honest view (sim.put key bytes)
    × Honest view (sim.delete key)
sim_store-Honest_example =
    sim_store-Honest machine memory_store key none bytes swap-Honest put-Honest delete-Honest

-- A service that answers every request with one version.
abbrev reply : Response
reply = record { status = 200; header = λ name. some (b'e' ∷ []); read = λ n. ok bytes }

abbrev network : Network (Unit {0}) ℕ
network = record {
  sign = λ op bucket access secret key ttl. key;
  call = λ agent op url headers w. (response reply, w + 1);
  send = λ agent url headers upload w. (response reply, w + 1);
  now = λ w. w;
}

abbrev s3 : S3Store (Unit {0})
s3 = record {
  bucket = tt;
  access_key = [];
  secret_key = [];
  agent = record { timeout_connect = 1; timeout = 1; redirects = 0 };
  namespace = [];
  opts = S3.default_options;
}

get_if_changed-GetAnswer_example :
    GetAnswer s3.opts.max_object_bytes key false (Requests.get_if_changed network s3 key none 0).0
    × (is_some (Requests.get network s3 key 0).0 ≡ true)
get_if_changed-GetAnswer_example = get_if_changed-GetAnswer network s3 key none 0

mutations-Honest_example :
    Honest (λ (v : ℕ). v) (Requests.put_if_match network s3 key none bytes)
    × Honest (λ (v : ℕ). v) (Requests.put network s3 key bytes)
    × Honest (λ (v : ℕ). v) (Requests.delete network s3 key)
mutations-Honest_example = mutations-Honest network s3 key none bytes

put_run : Requests.put_if_match network s3 key none bytes 0 ≡ (ok (accepted (b'e' ∷ [])), 1)
unfolding Requests.put_if_match Requests.send_put Requests.put_matched Requests.etag_of
    S3.default_options
put_run = refl

put_if_match-Answered_example :
    (length bytes ≤ s3.opts.max_object_bytes)
    × ((sent_with network s3 (precondition none ∷ []) key bytes 0).1 ≡ 1)
    × ((r : Response) × (Requests.put_reply key
            (sent_with network s3 (precondition none ∷ []) key bytes 0).0
          ≡ ok r)
        × Answered (ok (accepted (b'e' ∷ []))) r)
put_if_match-Answered_example =
    put_if_match-Answered network s3 key none bytes 0 1 (accepted (b'e' ∷ [])) put_run

-- The third call is at the end of the body.
abbrev calls : List (ℕ × ℕ)
calls = (1, 2) ∷ (2, 5) ∷ (4, 1) ∷ []

read_calls_delivers_example :
    read_calls calls (record { remaining = 1 ∷ 2 ∷ 3 ∷ []; deadline = 9 })
    ≡ some (1 ∷ 2 ∷ 3 ∷ [], record { remaining = []; deadline = 9 })
read_calls_delivers_example =
    read_calls_delivers calls (1 ∷ 2 ∷ 3 ∷ []) 9
      ((omega arith, omega arith), ((omega arith, omega arith), ((omega arith, omega arith), tt)))
      (omega arith)

abbrev parts : List Bytes
parts = (1 ∷ 2 ∷ 3 ∷ []) ∷ (4 ∷ 5 ∷ 6 ∷ 7 ∷ 8 ∷ 9 ∷ []) ∷ []

checksum_parts-flatten_example : checksum_parts 9 parts ≡ checksum_parts 9 (flatten parts ∷ [])
checksum_parts-flatten_example = checksum_parts-flatten 9 parts

-- A disk of one file.
abbrev one_file : Disk Bytes
one_file = record {
  create_dir_all = λ d w. (true, w);
  read_file = λ p w. some w;
  write_atomic = λ p b w. (true, b);
  remove_file = λ p w. (true, w);
  read_dir = λ p w. none;
}

abbrev cache : Cache
cache = record { dir = []; identity = some (b'i' ∷ []) }

load-save_example :
    load one_file cache key key 100 (save one_file cache key key (bytes ∷ bytes ∷ []) bytes [])
    ≡ some (flatten (bytes ∷ bytes ∷ []) ++ bytes)
unfolding flatten
load-save_example =
    load-save one_file cache key (b'i' ∷ []) key (bytes ∷ bytes ∷ []) bytes 100 [] refl (λ b. refl)
      (omega arith) (omega arith)
