-- ===== src/Tests/Groups.antt =====
-- The writer of examples/group_commit.rs over a store in memory: a submission, its batch, and the
-- theorems on the runs of the program at it.
use waltier.Base.{All, inr, ℕ, ◌≡◌, refl, true, false, none, some, [], ◌∷◌, arith, length}
use waltier.Base.Bytes.{Bytes}
use waltier.Store.Memory.{MemoryStore, memory_store, etag_of}
use waltier.Wal.{default_options, Compaction}
use waltier.Wal.Writer.{WalTier}
use waltier.GroupCommit.{
  Request, Group, Bounds, Phase, start, try_submit, prepare, enqueue, received, serve,
}
use waltier.GroupCommit.Steps.{Step, Run, Reach}
use waltier.GroupCommit.Receipts.{up_to, settled, IsOrderly, Reach-IsOrderly}
use waltier.GroupCommit.Stopping.{Halted, Run-Halted}
use waltier.GroupCommit.Ranges.{IsAnswered, CanAppend}
use waltier.GroupCommit.Draining.{is_finished, Reach-Drained}
use waltier.Tests.Logs.{no_disk, host, world}

abbrev bounds : Bounds
bounds = record { capacity = 4; max_entry_bytes = 8; max_batch = 2 }

abbrev entry : Bytes
entry = b'a' ∷ []

abbrev wal : WalTier ℕ
wal = record {
  core = record {
    opts = default_options;
    cache = record { dir = []; identity = none };
    state = 0;
    image = record { snapshot = none; entries = [] };
    etag = some (etag_of 0);
    image_len = 9;
    cache_dirty = false;
  };
  compaction = Compaction.idle;
  garbage = [];
  garbage_overflowed = 0;
  garbage_error = none;
}

wal-CanAppend : CanAppend wal
wal-CanAppend = record { etag = refl; attempts = omega arith }

-- One entry is queued.
abbrev queued : Group MemoryStore
queued = (try_submit bounds false entry (start wal world)).1

abbrev request : Request
request = record { entry = entry; receipt = 0 }

queued_run : queued.queue ≡ request ∷ []
unfolding try_submit prepare enqueue start
queued_run = refl

queued_phase : queued.phase ≡ Phase.waiting
unfolding try_submit prepare enqueue start
queued_phase = refl

-- A second entry is turned away when the queue holds four.
abbrev full : Group MemoryStore
full = record (start wal world) { queue = request ∷ request ∷ request ∷ request ∷ [] }

full_run : length (try_submit bounds false entry full).1.queue ≡ 4
unfolding try_submit prepare enqueue start
full_run = refl

abbrev taken : Group MemoryStore
taken = received [] request [] queued

taken_phase : taken.phase ≡ Phase.gathering (request ∷ [])
unfolding received
taken_phase = refl

taken_queue : taken.queue ≡ []
unfolding received
taken_queue = refl

to_queued : Reach memory_store no_disk host bounds wal world queued
unfolding start
to_queued = Run.next Run.here (Step.trying false entry refl)

to_taken : Reach memory_store no_disk host bounds wal world taken
to_taken = Run.next to_queued (Step.receiving request [] queued_phase queued_run)

reach-IsOrderly_example : IsOrderly bounds (serve memory_store no_disk host (request ∷ []) taken)
reach-IsOrderly_example =
    Reach-IsOrderly memory_store no_disk host wal world (omega arith)
      (Run.next to_taken (Step.serving (request ∷ []) taken_phase (inr taken_queue)))

-- The last submitter leaves with an entry in the queue.
abbrev left : Group MemoryStore
left = record queued { submitters = false }

reach-Drained_example :
    (end : Group MemoryStore) × Run memory_store no_disk host bounds left end
    × (is_finished end.phase ≡ true)
    × (settled end.answers ≡ up_to end.receipts)
    × All IsAnswered end.answers
reach-Drained_example =
    Reach-Drained memory_store no_disk host bounds wal world wal-CanAppend (omega arith)
      (Run.next to_queued Step.dropping) queued_phase refl

-- The writer has stopped, and takes the queued entry.
abbrev stopped : Group MemoryStore
stopped = record taken { stopped = true }

run-Halted_example : Halted stopped (serve memory_store no_disk host (request ∷ []) stopped)
run-Halted_example =
    Run-Halted memory_store no_disk host {bounds = bounds} refl
      (Run.next Run.here (Step.serving (request ∷ []) taken_phase (inr taken_queue)))
