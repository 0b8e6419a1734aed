-- ===== src/GroupCommit/Steps.antt =====
-- The steps of examples/group_commit.rs: producers, the writer thread and the world outside, interleaved
-- in any order.
use waltier.Base.{
  ℕ, ◌≤◌, ◌<◌, ◌≡◌, ◌⊎◌, Bool, true, false, some, List, [], ◌∷◌, length, Result, err, ap,
  if◌then◌else◌,
}
use waltier.Base.Bytes.{Bytes}
use waltier.Store.{ObjectStore}
use waltier.Cache.Files.{Disk}
use waltier.Wal.Compactor.{Host}
use waltier.Wal.Writer.{WalTier}
use waltier.GroupCommit.{
  Request, SubmissionError, Phase, Group, Bounds, start, submit, try_submit, received,
  stopped_error, entries_of, settle, append_batch, serve, finish,
}

module _ {W : Type 0} (store : ObjectStore W) (disk : Disk W) (host : Host W) where
  pub serve_runs :
      (batch : List Request) (g : Group W)
      → g.stopped ≡ false
      → serve store disk host batch g
        ≡ settle batch
            (append_batch store disk host batch g).0
            (append_batch store disk host batch g).1
  unfolding serve
  serve_runs batch g e =
      ap
        (λ b.
          if b
          then settle batch (some (err (stopped_error (entries_of batch)))) g
          else settle batch (append_batch store disk host batch g).0
              (append_batch store disk host batch g).1)
        e

  pub serve_stopped :
      (batch : List Request) (g : Group W)
      → g.stopped ≡ true
      → serve store disk host batch g
        ≡ settle batch (some (err (stopped_error (entries_of batch)))) g
  unfolding serve
  serve_stopped batch g e =
      ap
        (λ b.
          if b
          then settle batch (some (err (stopped_error (entries_of batch)))) g
          else settle batch (append_batch store disk host batch g).0
              (append_batch store disk host batch g).1)
        e

module _ {W : Type 0} (store : ObjectStore W) (disk : Disk W) (host : Host W)
    (bounds : Bounds) where
  pub data Step (g : Group W) : Group W → Type 0 where
    -- other handles on the log, and whatever else changes the world
    elsewhere : (w : W) → Step g (record g { world = w })
    submitting :
        (seen : Bool) (entry : Bytes) (answer : Result SubmissionError ℕ) (g' : Group W)
        → g.submitters ≡ true
        → submit bounds seen entry g ≡ some (answer, g')
        → Step g g'
    trying :
        (seen : Bool) (entry : Bytes)
        → g.submitters ≡ true
        → Step g (try_submit bounds seen entry g).1
    dropping : Step g (record g { submitters = false })
    -- `rx.recv()`
    receiving :
        (r : Request) (rest : List Request)
        → g.phase ≡ Phase.waiting
        → g.queue ≡ r ∷ rest
        → Step g (received [] r rest g)
    -- `rx.try_recv()`
    gathering :
        (batch : List Request) (r : Request) (rest : List Request)
        → g.phase ≡ Phase.gathering batch
        → length batch < bounds.max_batch
        → g.queue ≡ r ∷ rest
        → Step g (received batch r rest g)
    serving :
        (batch : List Request)
        → g.phase ≡ Phase.gathering batch
        → (bounds.max_batch ≤ length batch) ⊎ (g.queue ≡ [])
        → Step g (serve store disk host batch g)
    -- behind the last submitter, with an empty queue
    finishing :
        g.phase ≡ Phase.waiting
        → g.queue ≡ []
        → g.submitters ≡ false
        → Step g (finish store disk host g)

  -- From one state on.
  pub data Run (g : Group W) : Group W → Type 0 where
    here : Run g g
    next : {h k : Group W} → Run g h → Step h k → Run g k

  abbrev pub Reach : WalTier ℕ → W → Group W → Type 0
  Reach wal w = Run (start wal w)
