-- ===== src/GroupCommit/Draining.antt =====
-- Dropping all submitters drains the accepted work of examples/group_commit.rs: the writer can go on to
-- its end, and has then settled every receipt.
use waltier.Base.{
  All, is_some, none, err, Result, ok, Option, some, ℕ, zero, suc, ◌≤◌, ◌<◌, ◌≡◌, refl, sym, ap,
  ◌∙◌, ◌⊎◌, Bool, true, false, List, [], ◌∷◌, ◌++◌, length, arith, append-nil, inl, inr, ltb,
  ltb→lt, ltb→le, Bool-cases, length-append,
}
use mathlib.Core.Path.{subst}
use waltier.Base.Bytes.{Bytes}
use waltier.Store.{ObjectStore}
use waltier.Cache.Files.{Disk}
use waltier.Wal.Compactor.{Host}
use waltier.Wal.Writer.{WalTier}
use waltier.Wal.Writer.Maintenance.{MaintenanceStatus}
use waltier.Wal.Writer.Lifecycle.{close}
use waltier.Wal.Writer.Closing.{close-returns}
use waltier.Error.{WalError}
use waltier.GroupCommit.{
  count, Request, Phase, Group, Bounds, start, receipts_of, prepare, enqueue, try_submit, received,
  serve, finish,
}
use waltier.GroupCommit.Steps.{Step, Run, Reach}
use waltier.GroupCommit.Receipts.{submit_lem, up_to, batch_of, settled, Reach-IsOrderly}
use waltier.GroupCommit.Ranges.{IsAnswered, CanAppend, serve-IsServed}

-- The writer is behind its last line, and has returned.
abbrev pub is_finished : Phase → Bool
is_finished (Phase.finished r) = is_some r
is_finished _ = false

finished-batch : (p : Phase) → is_finished p ≡ true → batch_of p ≡ []
finished-batch Phase.waiting e = refl
finished-batch (Phase.gathering b) e = cc
finished-batch (Phase.finished r) e = refl
finished-batch Phase.panicked e = refl

-- The writer has dropped no receipt, and can go on appending.
pub record IsSound {W : Type 0} (g : Group W) : Type 0 where
  pub wal : CanAppend g.wal
  pub answers : All IsAnswered g.answers

try_submit-IsSound :
    {W : Type 0} (bounds : Bounds) (seen : Bool) (entry : Bytes) (g : Group W)
    → IsSound g
    → IsSound (try_submit bounds seen entry g).1
unfolding try_submit prepare enqueue
try_submit-IsSound bounds seen entry g sound =
    let wal : (try_submit bounds seen entry g).1.wal ≡ g.wal = ground arith in
    let answers : (try_submit bounds seen entry g).1.answers ≡ g.answers = ground arith in
    record {
      wal = subst CanAppend (sym wal) sound.wal;
      answers = subst (All IsAnswered) (sym answers) sound.answers;
    }

module _ {W : Type 0} (store : ObjectStore W) (disk : Disk W) (host : Host W)
    (bounds : Bounds) where
  abbrev Goes : Group W → Group W → Type 0
  Goes = Run store disk host bounds

  run-trans : {g h k : Group W} → Goes g h → Goes h k → Goes g k
  run-trans run Run.here = run
  run-trans run (Run.next more step) = Run.next (run-trans run more) step

  -- The writer is back in front of `recv`, with no more in the queue than before.
  record Emptied (g : Group W) (n : ℕ) : Type 0 where
    after : Group W
    run : Goes g after
    phase : after.phase ≡ Phase.waiting
    queue : length after.queue ≤ n
    submitters : after.submitters ≡ false
    sound : IsSound after

  serve-Emptied :
      (g : Group W) (r : Request) (rs : List Request)
      → IsSound g
      → g.submitters ≡ false
      → g.phase ≡ Phase.gathering (r ∷ rs)
      → (bounds.max_batch ≤ length (r ∷ rs)) ⊎ (g.queue ≡ [])
      → Emptied g (length g.queue)
  serve-Emptied g r rs sound gone is full =
      let served = serve-IsServed store disk host (r ∷ rs) g sound.wal sound.answers in
      record {
        after = serve store disk host (r ∷ rs) g;
        run = Run.next Run.here (Step.serving (r ∷ rs) is full);
        phase = served.phase;
        queue = omega (arith, ap length served.queue);
        submitters = served.submitters ∙ gone;
        sound = record { wal = served.wal; answers = served.answers };
      }

  -- The inner loop, and the batch that it has gathered.
  gather-Emptied :
      (queue : List Request) (g : Group W) (r : Request) (rs : List Request)
      → IsSound g
      → g.submitters ≡ false
      → g.phase ≡ Phase.gathering (r ∷ rs)
      → g.queue ≡ queue
      → length (r ∷ rs) ≤ bounds.max_batch
      → Emptied g (length queue)
  unfolding received
  gather-Emptied [] g r rs sound gone is q le =
      subst (λ q. Emptied g (length q)) q (serve-Emptied g r rs sound gone is (inr q))
  gather-Emptied (x ∷ xs) g r rs sound gone is q le =
      elim (Bool-cases (ltb (length (r ∷ rs)) bounds.max_batch)) [
        | inr full ↦
            subst (λ q. Emptied g (length q)) q
              (serve-Emptied g r rs sound gone is
                (inl (ltb→le (length (r ∷ rs)) bounds.max_batch full)))
        | inl room ↦
            let step =
              Step.gathering (r ∷ rs) x xs is (ltb→lt (length (r ∷ rs)) bounds.max_batch room) q in
            let rest =
              gather-Emptied xs (received (r ∷ rs) x xs g) r (rs ++ x ∷ [])
                (record { wal = sound.wal; answers = sound.answers }) gone refl refl
                (ground (arith, room, length-append rs (x ∷ []))) in
            record {
              after = rest.after;
              run = run-trans (Run.next Run.here step) rest.run;
              phase = rest.phase;
              queue = omega (arith, rest.queue);
              submitters = rest.submitters;
              sound = rest.sound;
            }
      ]

  closed-returns :
      (g : Group W) (closed : Option (Result WalError MaintenanceStatus))
      → (close count store disk host g.wal g.world).0 ≡ closed
      → is_some closed ≡ true
      → is_finished (finish store disk host g).phase ≡ true
  unfolding finish
  closed-returns g none is there = cc
  closed-returns g (some (err e)) is there = rw (is, finish) refl
  closed-returns g (some (ok status)) is there = rw (is, finish) refl

  record Drained (g : Group W) : Type 0 where
    after : Group W
    run : Goes g after
    phase : is_finished after.phase ≡ true
    queue : after.queue ≡ []

  -- Each round takes a request off the queue at least.
  drain :
      (n : ℕ) (queue : List Request) (g : Group W)
      → g.queue ≡ queue
      → length queue ≤ n
      → IsSound g
      → g.submitters ≡ false
      → g.phase ≡ Phase.waiting
      → 0 < bounds.max_batch
      → Drained g
  unfolding finish received
  drain n [] g q le sound gone is positive = record {
    after = finish store disk host g;
    run = Run.next Run.here (Step.finishing is q gone);
    phase =
        closed-returns g (close count store disk host g.wal g.world).0 refl
          (close-returns count store disk host g.wal g.world sound.wal.etag);
    queue = q;
  }
  drain zero (r ∷ rest) g q le sound gone is positive = absurd (omega arith)
  drain (suc n) (r ∷ rest) g q le sound gone is positive =
      let step = Step.receiving r rest is q in
      let round =
        gather-Emptied rest (received [] r rest g) r []
          (record { wal = sound.wal; answers = sound.answers }) gone refl refl (omega arith) in
      let end =
        drain n round.after.queue round.after refl (omega (arith, round.queue)) round.sound
          round.submitters round.phase positive in
      record {
        after = end.after;
        run = run-trans (Run.next Run.here step) (run-trans round.run end.run);
        phase = end.phase;
        queue = end.queue;
      }

  step-IsSound : {g g' : Group W} → Step store disk host bounds g g' → IsSound g → IsSound g'
  unfolding finish received
  step-IsSound {g} (Step.elsewhere w) sound = record { wal = sound.wal; answers = sound.answers }
  step-IsSound {g} (Step.submitting seen entry answer g' live s) sound =
      subst IsSound (submit_lem bounds g g' seen entry answer s)
        (try_submit-IsSound bounds seen entry g sound)
  step-IsSound {g} (Step.trying seen entry live) sound =
      try_submit-IsSound bounds seen entry g sound
  step-IsSound {g} Step.dropping sound = record { wal = sound.wal; answers = sound.answers }
  step-IsSound {g} (Step.receiving r rest is q) sound = record {
    wal = sound.wal;
    answers = sound.answers;
  }
  step-IsSound {g} (Step.gathering batch r rest is room q) sound = record {
    wal = sound.wal;
    answers = sound.answers;
  }
  step-IsSound {g} (Step.serving batch is full) sound =
      let served = serve-IsServed store disk host batch g sound.wal sound.answers in
      record { wal = served.wal; answers = served.answers }
  step-IsSound {g} (Step.finishing is empty gone) sound = record {
    wal = sound.wal;
    answers = sound.answers;
  }

  Reach-IsSound :
      (wal : WalTier ℕ) (w : W) {g : Group W}
      → CanAppend wal
      → Reach store disk host bounds wal w g
      → IsSound g
  unfolding start
  Reach-IsSound wal w can Run.here = record { wal = can; answers = tt }
  Reach-IsSound wal w can (Run.next run step) = step-IsSound step (Reach-IsSound wal w can run)

  -- Once the last submitter is gone, the writer can go on from wherever it waits to its end, whatever the store
  -- answers: it returns without a panic, and every receipt that was handed out has been sent an LSN or an
  -- error, each once and in the order of submission. The handle holds a validator and may make an attempt, and
  -- a batch has a positive bound.
  pub Reach-Drained :
      (wal : WalTier ℕ) (w : W) {g : Group W}
      → CanAppend wal
      → 0 < bounds.max_batch
      → Reach store disk host bounds wal w g
      → g.phase ≡ Phase.waiting
      → g.submitters ≡ false
      → (end : Group W) × Goes g end
        × (is_finished end.phase ≡ true)
        × (settled end.answers ≡ up_to end.receipts)
        × All IsAnswered end.answers
  Reach-Drained wal w {g} can positive run is gone =
      let d =
        drain (length g.queue) g.queue g refl (omega arith) (Reach-IsSound wal w can run) gone is
          positive in
      let all = run-trans run d.run in
      let o = Reach-IsOrderly store disk host wal w positive all in
      (
        d.after,
        d.run,
        d.phase,
        sym (
              ap (λ b. settled d.after.answers ++ (receipts_of b ++ receipts_of d.after.queue))
                (finished-batch d.after.phase d.phase)
              ∙ ap (λ q. settled d.after.answers ++ receipts_of q) d.queue
              ∙ append-nil (settled d.after.answers))
            ∙ o.order,
        (Reach-IsSound wal w can all).answers,
      )
