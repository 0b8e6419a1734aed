-- ===== src/GroupCommit/Stopping.antt =====
-- What examples/group_commit.rs does behind the first failed append: nothing more is written, and whatever
-- is still queued is answered as not applied.
use waltier.Base.{
  ℕ, ◌≡◌, refl, sym, ap, ◌∙◌, Bool, true, Option, some, List, [], ◌∷◌, ◌++◌, err, arith, All,
  All-append, append_assoc, append-nil,
}
use mathlib.Core.Path.{subst}
use waltier.Base.Bytes.{Bytes}
use waltier.Error.{MutationOutcome}
use waltier.Store.{ObjectStore}
use waltier.Cache.Files.{Disk}
use waltier.Wal.Compactor.{Host}
use waltier.GroupCommit.{
  Request, Answer, Group, Bounds, prepare, enqueue, try_submit, receipts_of, entries_of, reject,
  stopped_error, settle, received, serve, finish,
}
use waltier.GroupCommit.Steps.{serve_stopped, Step, Run}
use waltier.GroupCommit.Receipts.{submit_lem}

-- An answer that says that its entry was not applied.
abbrev pub IsRefused : ℕ × Option Answer → Type 0
IsRefused (r, some (err e)) = e.outcome ≡ MutationOutcome.not_applied
IsRefused (r, _) = ⊥

pub record Halted {W : Type 0} (g g' : Group W) : Type 0 where
  pub stopped : g'.stopped ≡ true
  pub wal : g'.wal ≡ g.wal
  pub commits : g'.report.commits ≡ g.report.commits
  pub later : List (ℕ × Option Answer)
  pub answers : g'.answers ≡ g.answers ++ later
  pub refused : All IsRefused later

reject-IsRefused :
    (entries : List Bytes) (rs : List ℕ) → All IsRefused (reject (stopped_error entries) rs)
unfolding reject
reject-IsRefused entries [] = tt
reject-IsRefused entries (r ∷ rs) = (refl, reject-IsRefused entries rs)

module _ {W : Type 0} where
  -- A step that leaves the log and the answers alone.
  same-Halted :
      (g g' : Group W)
      → g.stopped ≡ true
      → g'.stopped ≡ g.stopped
      → g'.wal ≡ g.wal
      → g'.report ≡ g.report
      → g'.answers ≡ g.answers
      → Halted g g'
  same-Halted g g' e stopped wal report answers = record {
    stopped = stopped ∙ e;
    wal = wal;
    commits = ap (λ r. r.commits) report;
    later = [];
    answers = answers ∙ sym (append-nil g.answers);
    refused = tt;
  }

  Halted-trans : (g h k : Group W) → Halted g h → Halted h k → Halted g k
  Halted-trans g h k a b = record {
    stopped = b.stopped;
    wal = b.wal ∙ a.wal;
    commits = b.commits ∙ a.commits;
    later = a.later ++ b.later;
    answers = b.answers ∙ ap (λ l. l ++ b.later) a.answers ∙ append_assoc g.answers a.later b.later;
    refused = All-append IsRefused a.later b.later a.refused b.refused;
  }

  try_submit-Halted :
      (bounds : Bounds) (seen : Bool) (entry : Bytes) (g : Group W)
      → g.stopped ≡ true
      → Halted g (try_submit bounds seen entry g).1
  unfolding try_submit prepare enqueue
  try_submit-Halted bounds seen entry g e =
      same-Halted g (try_submit bounds seen entry g).1 e (ground arith) (ground arith)
        (ground arith) (ground arith)

module _ {W : Type 0} (store : ObjectStore W) (disk : Disk W) (host : Host W) where
  serve-Halted :
      (batch : List Request) (g : Group W)
      → g.stopped ≡ true
      → Halted g (serve store disk host batch g)
  unfolding settle
  serve-Halted batch g e =
      subst (Halted g) (sym (serve_stopped store disk host batch g e)) (record {
        stopped = refl;
        wal = refl;
        commits = refl;
        later = reject (stopped_error (entries_of batch)) (receipts_of batch);
        answers = refl;
        refused = reject-IsRefused (entries_of batch) (receipts_of batch);
      })

module _ {W : Type 0} (store : ObjectStore W) (disk : Disk W) (host : Host W)
    {bounds : Bounds} where
  step-Halted : {g g' : Group W} → g.stopped ≡ true → Step store disk host bounds g g' → Halted g g'
  unfolding received finish
  step-Halted {g} e (Step.elsewhere w) = same-Halted g _ e refl refl refl refl
  step-Halted {g} e (Step.submitting seen entry answer g' live s) =
      subst (Halted g) (submit_lem bounds g g' seen entry answer s)
        (try_submit-Halted bounds seen entry g e)
  step-Halted {g} e (Step.trying seen entry live) = try_submit-Halted bounds seen entry g e
  step-Halted {g} e Step.dropping = same-Halted g _ e refl refl refl refl
  step-Halted {g} e (Step.receiving r rest is q) = same-Halted g _ e refl refl refl refl
  step-Halted {g} e (Step.gathering batch r rest is room q) = same-Halted g _ e refl refl refl refl
  step-Halted {g} e (Step.serving batch is full) = serve-Halted store disk host batch g e
  step-Halted {g} e (Step.finishing is empty gone) = same-Halted g _ e refl refl refl refl

  -- Once the writer has stopped, it stays so, its handle on the log is never used for another append, and every
  -- answer from then on says that the entry was not applied, whatever the producers and the world do.
  pub Run-Halted :
      {g g' : Group W} → g.stopped ≡ true → Run store disk host bounds g g' → Halted g g'
  Run-Halted {g} e Run.here = same-Halted g g e refl refl refl refl
  Run-Halted {g} e (Run.next run step) =
      let before = Run-Halted e run in Halted-trans g _ _ before (step-Halted before.stopped step)
