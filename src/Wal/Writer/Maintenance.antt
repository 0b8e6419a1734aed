-- ===== src/Wal/Writer/Maintenance.antt =====
-- Compaction and cleanup of the writer in src/wal.rs: observing the compactor, starting it, `flush`,
-- and the deletion of obsolete snapshots. A result `none` stands for a panic of the source.
use waltier.Base.{
  ℕ, zero, suc, ◌+◌, ◌-◌, Bool, true, false, not, ◌&&◌, ◌||◌, Option, none, some, is_some, List, [],
  ◌∷◌, ◌++◌, length, ◌==◌, if◌then◌else◌, map, Result, ok, err,
}
use waltier.Base.Bytes.{Bytes}
use waltier.Base.Text.{Str, text, decimal}
use waltier.Error.{StoreError, WalError, contention, compaction}
use waltier.Image.{Lsn, first_lsn, tip, numbered}
use waltier.Store.{ObjectStore}
use waltier.App.{Entry, WalApp}
use waltier.Cache.Files.{Disk}
use waltier.Wal.{
  Core, Channel, CompactOutcome, CompactionJob, CompactionTask, Compaction, CompactionStatus,
  checkpoint_cache, snapshot_key, stats_of,
}
use waltier.Wal.Compactor.{Host, run_compaction}
use waltier.Wal.Refresh.{refresh}
use waltier.Wal.Writer.{
  WalTier, pending_fold, discard_superseded_fold, queue_superseded, try_install,
}

pub record GarbageStatus : Type 0 where
  pub pending : ℕ
  pub overflowed : ℕ
  pub last_error : Option Str

pub record MaintenanceStatus : Type 0 where
  pub compaction : CompactionStatus
  pub garbage : GarbageStatus

abbrev pub is_running : Compaction → Bool
is_running (Compaction.running _) = true
is_running _ = false

abbrev pub is_failed : Compaction → Bool
is_failed (Compaction.failed _) = true
is_failed _ = false

abbrev pub has_pending : Compaction → Bool
has_pending c = is_some (pending_fold c)

unfoldable pub current_compaction_status : Compaction → Result WalError CompactionStatus
current_compaction_status Compaction.idle = ok CompactionStatus.idle
current_compaction_status (Compaction.running _) = ok CompactionStatus.running
current_compaction_status (Compaction.ready _) = ok CompactionStatus.ready
current_compaction_status Compaction.installed = ok CompactionStatus.installed
current_compaction_status Compaction.superseded = ok CompactionStatus.superseded
current_compaction_status (Compaction.failed m) = err (compaction m)

abbrev pub lost_thread : CompactOutcome
lost_thread = CompactOutcome.failed (text "compaction thread panicked or disconnected")

-- What becomes of the state when the task is joined with this outcome.
unfoldable pub joined : CompactionTask → CompactOutcome → Compaction
joined task outcome =
    if task.panicked then Compaction.failed (text "compaction thread panicked") else elim outcome [
      | CompactOutcome.done fold ↦ Compaction.ready fold
      | CompactOutcome.failed m ↦ Compaction.failed m
    ]

-- `{:020}`: at least twenty digits.
abbrev zeros : ℕ → Str
zeros zero = []
zeros (suc n) = 48 ∷ zeros n

unfoldable pub padded : Lsn → Str
padded lsn = zeros (20 - length (decimal lsn)) ++ decimal lsn

abbrev to_entry : Lsn × Bytes → Entry
to_entry (lsn, body) = record { lsn = lsn; body = body }

-- What the compactor is given: the base, the live entries with their LSNs, the prefix of its key. Without
-- a tip the source panics.
unfoldable pub job_of : {S : Type 0} → Core S → Option CompactionJob
unfolding padded
job_of c = elim (tip c.image) [
  | none ↦ none
  | some fold_lsn ↦ some (record {
    base_key = snapshot_key c.image;
    entries = map to_entry (numbered (first_lsn c.image) c.image.entries);
    snap_prefix = c.opts.prefix ++ (text "snap/" ++ (padded fold_lsn ++ text "-"));
    max_snapshot_bytes = c.opts.max_snapshot_bytes;
  })
]

unfoldable pub garbage_status : {S : Type 0} → WalTier S → GarbageStatus
garbage_status t = record {
  pending = length t.garbage;
  overflowed = t.garbage_overflowed;
  last_error = t.garbage_error;
}

abbrev is_empty {ℓ} : {A : Type ℓ} → List A → Bool
is_empty [] = true
is_empty (x ∷ xs) = false

module _ {S W : Type 0} (app : WalApp S) (store : ObjectStore W) (disk : Disk W)
    (host : Host W) where
  unfoldable pub finish_compaction : WalTier S → CompactionTask → CompactOutcome → W → WalTier S × W
  unfolding joined
  finish_compaction t task outcome w =
      discard_superseded_fold app store disk (record t { compaction = joined task outcome }) w

  -- What `try_recv` finds in the channel of the task.
  unfoldable pub integrate_task : WalTier S → CompactionTask → Channel → W → WalTier S × W
  unfolding finish_compaction
  integrate_task t task Channel.empty w = (t, w)
  integrate_task t task (Channel.sent outcome) w = finish_compaction t task outcome w
  integrate_task t task Channel.disconnected w = finish_compaction t task lost_thread w

  unfoldable pub integrate : WalTier S → Compaction → W → WalTier S × W
  unfolding integrate_task
  integrate t (Compaction.running task) w = integrate_task t task task.rx w
  integrate t _ w = (t, w)

  unfoldable pub sync_compaction : WalTier S → W → WalTier S × W
  unfolding integrate
  sync_compaction t w =
      let (t1, w1) = integrate t t.compaction w in discard_superseded_fold app store disk t1 w1

  -- `recv` waits for a thread that has not answered: it runs to its end, or panics.
  unfoldable pub received :
      WalTier S → CompactionTask → Channel → W → CompactionTask × CompactOutcome × W
  received t task Channel.empty w =
      let (answer, w') = run_compaction app store disk host t.core.cache task.job w in
      elim answer [
        | none ↦ (record task { panicked = true }, lost_thread, w')
        | some outcome ↦ (task, outcome, w')
      ]
  received t task (Channel.sent outcome) w = (task, outcome, w)
  received t task Channel.disconnected w = (task, lost_thread, w)

  unfoldable pub wait_running : WalTier S → Compaction → W → WalTier S × W
  unfolding received finish_compaction
  wait_running t (Compaction.running task) w =
      let (task', outcome, w1) = received t task task.rx w in finish_compaction t task' outcome w1
  wait_running t _ w = (t, w)

  unfoldable pub wait_for_compaction :
      WalTier S → W → Result WalError CompactionStatus × WalTier S × W
  unfolding wait_running current_compaction_status
  wait_for_compaction t w =
      let (t1, w1) = wait_running t t.compaction w in
      let (t2, w2) = discard_superseded_fold app store disk t1 w1 in
      (current_compaction_status t2.compaction, t2, w2)

  unfoldable pub spawn_compaction : WalTier S → W → Option Bool × WalTier S × W
  unfolding job_of
  spawn_compaction t w = elim (job_of t.core) [
    | none ↦ (none, t, w)
    | some job ↦
        let (started, w') = host.spawn w in
        elim started [
          | ok _ ↦
              let task : CompactionTask = record {
                job = job;
                rx = Channel.empty;
                panicked = false;
              } in
              (some true, record t { compaction = Compaction.running task }, w')
          | err m ↦ (
            some false,
            record t { compaction = Compaction.failed (text "start compactor: " ++ m) },
            w',
          )
        ]
  ]

  unfoldable pub compact_now : WalTier S → W → Option Bool × WalTier S × W
  unfolding sync_compaction spawn_compaction
  compact_now t w =
      let (t1, w1) = sync_compaction t w in
      if is_running t1.compaction || (has_pending t1.compaction || is_empty t1.core.image.entries)
      then (some false, t1, w1)
      else spawn_compaction t1 w1

  unfoldable pub maybe_trigger_compaction : WalTier S → W → Option Bool × WalTier S × W
  unfolding compact_now
  maybe_trigger_compaction t w =
      if not (is_running t.compaction)
        && (not (has_pending t.compaction)
            && (not (is_failed t.compaction)
                && (not (is_empty t.core.image.entries) && app.should_compact (stats_of t.core))))
      then compact_now t w
      else (some false, t, w)

  -- `WalTier::refresh`
  unfoldable pub refresh_writer : WalTier S → W → Result WalError Bool × WalTier S × W
  unfolding sync_compaction
  refresh_writer t w =
      let (t1, w1) = sync_compaction t w in
      let (refreshed, w2) = refresh app store disk t1.core w1 in
      elim refreshed [
        | err e ↦ (err e, t1, w2)
        | ok (report, core) ↦
            let (t3, w3) = discard_superseded_fold app store disk (record t1 { core = core }) w2 in
            (ok report.changed, queue_superseded t3 report.superseded, w3)
      ]

  -- Delete the queued snapshots in order; the first failure stops the loop and keeps its key.
  unfoldable pub delete_all : List Str → W → Option StoreError × List Str × W
  delete_all [] w = (none, [], w)
  delete_all (key ∷ keys) w =
      let (deleted, w') = store.delete key w in
      let rest = delete_all keys w' in
      elim deleted [ err e ↦ (some e, key ∷ keys, w') | ok _ ↦ rest ]

  unfoldable pub collect_garbage : WalTier S → W → Result StoreError GarbageStatus × WalTier S × W
  unfolding delete_all garbage_status
  collect_garbage t w =
      let (failure, left, w') = delete_all t.garbage w in
      elim failure [
        | none ↦
            let t' : WalTier S = record t { garbage = left; garbage_error = none } in
            (ok (garbage_status t'), t', w')
        | some e ↦ (err e, record t { garbage = left; garbage_error = some e.message }, w')
      ]

  -- The loop of `flush`: `none` in the result is a panic, `some (some e)` an error.
  unfoldable pub install_loop : ℕ → ℕ → WalTier S → W → Option (Option WalError) × WalTier S × W
  install_loop zero attempt t w = (some none, t, w)
  install_loop (suc n) attempt t w =
      if not (has_pending t.compaction)
      then (some none, t, w)
      else (let (installed, t1, w1) = try_install app store disk t [] w in
          elim installed [
            | none ↦ (none, t1, w1)
            | some (err e) ↦ (some (some e.source), t1, w1)
            | some (ok _) ↦
                elim (has_pending t1.compaction && (attempt == t1.core.opts.max_write_attempts)) [
                  | true ↦ (some (some (contention (text "flush") attempt)), t1, w1)
                  | false ↦ install_loop n (attempt + 1) t1 w1
                ]
          ])

  -- Behind the loop: checkpoint the cache, collect the garbage, report.
  unfoldable pub finish_flush : WalTier S → W → Result WalError MaintenanceStatus × WalTier S × W
  unfolding collect_garbage current_compaction_status
  finish_flush t w =
      let (core, w1) = checkpoint_cache store disk t.core w in
      let (collected, t2, w2) = collect_garbage (record t { core = core }) w1 in
      elim collected [
        | err e ↦ (err (WalError.store e), t2, w2)
        | ok garbage ↦ elim (current_compaction_status t2.compaction) [
          | err e ↦ (err e, t2, w2)
          | ok status ↦ (ok (record { compaction = status; garbage = garbage }), t2, w2)
        ]
      ]

  unfoldable pub flush : WalTier S → W → Option (Result WalError MaintenanceStatus) × WalTier S × W
  unfolding wait_for_compaction install_loop finish_flush
  flush t w =
      let (waited, t1, w1) = wait_for_compaction t w in
      elim waited [
        | err e ↦ (some (err e), t1, w1)
        | ok _ ↦
            let (looped, t2, w2) = install_loop t1.core.opts.max_write_attempts 1 t1 w1 in
            elim looped [
              | none ↦ (none, t2, w2)
              | some (some e) ↦ (some (err e), t2, w2)
              | some none ↦ let (report, t3, w3) = finish_flush t2 w2 in (some report, t3, w3)
            ]
      ]

  unfoldable pub take_compaction_error : WalTier S → W → Option Str × WalTier S × W
  unfolding integrate
  take_compaction_error t w =
      let (t1, w1) = integrate t t.compaction w in
      elim t1.compaction [
        | Compaction.failed m ↦ (some m, record t1 { compaction = Compaction.idle }, w1)
        | _ ↦ (none, t1, w1)
      ]
