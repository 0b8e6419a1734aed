-- ===== src/GroupCommit.antt =====
-- examples/group_commit.rs: producers submit entries to a bounded queue, and one writer thread commits
-- them in batches and answers each receipt. A channel of the standard library is its queue; a receipt
-- is a number, and what is sent to it stands in `answers`, `none` for a sender that was dropped.
pub mod Steps
pub mod Receipts
pub mod Stopping
pub mod Ranges
pub mod Draining
use waltier.Base.{
  ℕ, zero, suc, ◌+◌, ◌-◌, ◌≡◌, Bool, true, false, Option, none, some, List, [], ◌∷◌, ◌++◌, map,
  length, ltb, ◌==◌, if◌then◌else◌, Result, ok, err,
}
use waltier.Base.Words.{wrapping_add, wrapping_sub}
use waltier.Base.Bytes.{Bytes}
use waltier.Base.Text.{Str, text}
use waltier.Error.{MutationOutcome, WalError, WriteError}
use waltier.Image.{Lsn}
use waltier.Store.{ObjectStore}
use waltier.App.{WalApp, Reconcile}
use waltier.App.Reconciling.{reconcile_batch}
use waltier.Cache.Files.{Disk}
use waltier.Wal.Compactor.{Host}
use waltier.Wal.Writer.{WalTier}
use waltier.Wal.Writer.Append.{Range, write_error, write_batch}
use waltier.Wal.Writer.Lifecycle.{close}

-- `impl WalApp for Count`, with the defaults of the trait.
unfoldable pub count : WalApp ℕ
unfolding reconcile_batch
count = record {
  init = 0;
  apply = λ state lsn entry. wrapping_add state 1;
  restore = λ bytes. err (WalError.app (text "restore is not implemented for this WalApp"));
  compact = λ base entries. err (WalError.app (text "compact is not implemented for this WalApp"));
  should_compact = λ stats. false;
  reconcile_batch = reconcile_batch (λ state entry. Reconcile.retry);
}

pub record Request : Type 0 where
  pub entry : Bytes
  pub receipt : ℕ

pub record SubmissionError : Type 0 where
  pub entry : Bytes
  pub reason : Str

pub record Report : Type 0 where
  pub acknowledged : ℕ
  pub commits : ℕ
  pub failed : ℕ

-- Where the writer thread stands: in front of `recv`, in the inner loop with a batch, or behind its
-- last line, with what it returned; or it has panicked.
pub data Phase : Type 0 where
  waiting : Phase
  gathering : List Request → Phase
  finished : Option (Result WalError Report) → Phase
  panicked : Phase

abbrev pub Answer : Type 0
Answer = Result WriteError Lsn

-- The writer thread, the queue, the flag `stopped`, whether a submitter lives, and the receipts that were handed out and answered.
pub record Group (W : Type 0) : Type 0 where
  pub wal : WalTier ℕ
  pub world : W
  pub queue : List Request
  pub stopped : Bool
  pub submitters : Bool
  pub receipts : ℕ
  pub answers : List (ℕ × Option Answer)
  pub report : Report
  pub phase : Phase

-- The arguments of `queue`, which asserts that both are positive, and `max_batch`.
pub record Bounds : Type 0 where
  pub capacity : ℕ
  pub max_entry_bytes : ℕ
  pub max_batch : ℕ

-- `queue`, and the locals that `run_writer` starts with.
unfoldable pub start : {W : Type 0} → WalTier ℕ → W → Group W
start wal w = record {
  wal = wal;
  world = w;
  queue = [];
  stopped = false;
  submitters = true;
  receipts = 0;
  answers = [];
  report = record { acknowledged = 0; commits = 0; failed = 0 };
  phase = Phase.waiting;
}

-- Whether the receiver of the queue still lives.
abbrev pub is_live : Phase → Bool
is_live Phase.waiting = true
is_live (Phase.gathering b) = true
is_live _ = false

-- `Submitter::prepare`, with the value of `stopped` that it loads.
unfoldable pub prepare : Bounds → Bool → Bytes → Result SubmissionError (Unit {0})
prepare bounds stopped entry =
    if ltb bounds.max_entry_bytes (length entry)
    then err (record { entry = entry; reason = text "entry too large" })
    else if stopped
    then err (record { entry = entry; reason = text "writer stopped" })
    else ok tt

module _ {W : Type 0} where
  -- The entry of a new receipt goes to the end of the queue.
  unfoldable pub enqueue : Bytes → Group W → Group W
  enqueue entry g = record g {
    queue = g.queue ++ record { entry = entry; receipt = g.receipts } ∷ [];
    receipts = g.receipts + 1;
  }

  -- `Submitter::submit`, which blocks while the queue is full: that is the result `none`. `seen` is the value
  -- of the flag when `prepare` loaded it.
  unfoldable pub submit :
      Bounds → Bool → Bytes → Group W → Option (Result SubmissionError ℕ × Group W)
  unfolding prepare enqueue
  submit bounds seen entry g = elim (prepare bounds seen entry) [
    | err e ↦ some (err e, g)
    | ok u ↦
        if is_live g.phase
        then (if ltb (length g.queue) bounds.capacity
            then some (ok g.receipts, enqueue entry g)
            else none)
        else some (err (record { entry = entry; reason = text "writer stopped" }), g)
  ]

  -- `Submitter::try_submit`
  unfoldable pub try_submit : Bounds → Bool → Bytes → Group W → Result SubmissionError ℕ × Group W
  unfolding prepare enqueue
  try_submit bounds seen entry g = elim (prepare bounds seen entry) [
    | err e ↦ (err e, g)
    | ok u ↦
        if is_live g.phase
        then (if ltb (length g.queue) bounds.capacity
            then (ok g.receipts, enqueue entry g)
            else (err (record { entry = entry; reason = text "queue full" }), g))
        else (err (record { entry = entry; reason = text "writer stopped" }), g)
  ]

abbrev pub receipts_of : List Request → List ℕ
receipts_of = map (λ (r : Request). r.receipt)

abbrev pub entries_of : List Request → List Bytes
entries_of = map (λ (r : Request). r.entry)

-- `range.zip(receipts)`: LSN by LSN; a receipt behind the end of the range is dropped.
unfoldable pub acknowledge : ℕ → Lsn → List ℕ → List (ℕ × Option Answer)
acknowledge n lsn [] = []
acknowledge zero lsn (r ∷ rs) = (r, none) ∷ acknowledge zero lsn rs
acknowledge (suc n) lsn (r ∷ rs) = (r, some (ok lsn)) ∷ acknowledge n (lsn + 1) rs

unfoldable pub reject : WriteError → List ℕ → List (ℕ × Option Answer)
reject e [] = []
reject e (r ∷ rs) = (r, some (err e)) ∷ reject e rs

unfoldable pub dropped : List ℕ → List (ℕ × Option Answer)
dropped [] = []
dropped (r ∷ rs) = (r, none) ∷ dropped rs

abbrev pub stopped_error : List Bytes → WriteError
stopped_error entries =
    write_error entries (WalError.app (text "group writer stopped after an earlier append failure"))
      MutationOutcome.not_applied

module _ {W : Type 0} where
  -- A panic unwinds the thread: the senders of the batch and the receiver with its queue are dropped.
  unfoldable pub panic : List Request → Group W → Group W
  unfolding dropped
  panic batch g = record g {
    answers = g.answers ++ (dropped (receipts_of batch) ++ dropped (receipts_of g.queue));
    queue = [];
    phase = Phase.panicked;
  }

  -- What becomes of the batch, by the result of its append: the two arms of `match result`.
  unfoldable pub settle : List Request → Option (Result WriteError Range) → Group W → Group W
  unfolding acknowledge reject panic
  settle batch none g = panic batch g
  settle batch (some (ok (first, end))) g =
      if wrapping_sub end first == length batch
      then record g {
        answers = g.answers ++ acknowledge (end - first) first (receipts_of batch);
        report = record (g.report) {
          acknowledged = wrapping_add g.report.acknowledged (length batch);
        };
        phase = Phase.waiting;
      }
      else panic batch g
  settle batch (some (err e)) g = record g {
    answers = g.answers ++ reject e (receipts_of batch);
    report = record (g.report) { failed = wrapping_add g.report.failed (length batch) };
    stopped = true;
    phase = Phase.waiting;
  }

  -- `rx.recv()` and `rx.try_recv()` with a request in the queue
  unfoldable pub received : List Request → Request → List Request → Group W → Group W
  received batch r rest g = record g { queue = rest; phase = Phase.gathering (batch ++ r ∷ []) }

module _ {W : Type 0} (store : ObjectStore W) (disk : Disk W) (host : Host W) where
  -- `report.commits += 1; wal.write_batch(entries)`
  unfoldable pub append_batch : List Request → Group W → Option (Result WriteError Range) × Group W
  unfolding write_batch
  append_batch batch g =
      let (result, wal, w) = write_batch count store disk host (entries_of batch) g.wal g.world in
      let report = record (g.report) { commits = wrapping_add g.report.commits 1 } in
      (result, record g { wal = wal; world = w; report = report })

  -- The rest of the body of the loop, with a whole batch.
  unfoldable pub serve : List Request → Group W → Group W
  unfolding settle append_batch
  serve batch g =
      let (result, appended) = append_batch batch g in
      if g.stopped
      then settle batch (some (err (stopped_error (entries_of batch)))) g
      else settle batch result appended

  -- `wal.close()?; Ok(report)`
  unfoldable pub finish : Group W → Group W
  unfolding close
  finish g =
      let (closed, w) = close count store disk host g.wal g.world in
      let result : Option (Result WalError Report) = elim closed [
        | none ↦ none
        | some (err e) ↦ some (err e)
        | some (ok status) ↦ some (ok g.report)
      ] in
      record g { world = w; phase = Phase.finished result }
