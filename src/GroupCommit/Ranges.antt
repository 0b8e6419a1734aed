-- ===== src/GroupCommit/Ranges.antt =====
-- The batches of examples/group_commit.rs: the assertion on the LSNs of a batch holds, so that serving a
-- batch does not panic.
use waltier.Base.{
  ℕ, zero, suc, ◌+◌, ◌-◌, All, All-append, ◌≤◌, ◌≡◌, refl, sym, ap, ◌∙◌, true, false, Option, none,
  some, is_some, List, [], ◌∷◌, length, ◌==◌, Result, ok, err, arith, Bool-cases, inl, inr, ==_iff,
}
use mathlib.Core.Path.{subst}
use waltier.Base.Words.{wrapping_sub}
use waltier.Error.{WriteError}
use waltier.Store.{ObjectStore}
use waltier.App.Reconciling.{reconcile_batch-retry}
use waltier.Cache.Files.{Disk}
use waltier.Wal.Compactor.{Host}
use waltier.Wal.Writer.{WalTier}
use waltier.Wal.Writer.Append.{Range, append, write_batch}
use waltier.Wal.Writer.Append.Returns.{append-returns}
use waltier.Wal.Writer.Append.Ranges.{IsWhole, Retries, append-IsWhole}
use waltier.Wal.Writer.Append.Kept.{append-Kept}
use waltier.GroupCommit.{
  count, Request, Phase, Answer, receipts_of, acknowledge, reject, Group, entries_of, stopped_error,
  settle, append_batch, serve,
}
use waltier.GroupCommit.Steps.{serve_runs, serve_stopped}

-- The handle holds a validator and may make an attempt.
pub record CanAppend (wal : WalTier ℕ) : Type 0 where
  pub etag : is_some wal.core.etag ≡ true
  pub attempts : 1 ≤ wal.core.opts.max_write_attempts

-- The sender of a receipt was not dropped.
abbrev pub IsAnswered : ℕ × Option Answer → Type 0
IsAnswered (r, answer) = is_some answer ≡ true

-- A whole batch was served.
pub record IsServed {W : Type 0} (g g' : Group W) : Type 0 where
  pub phase : g'.phase ≡ Phase.waiting
  pub queue : g'.queue ≡ g.queue
  pub submitters : g'.submitters ≡ g.submitters
  pub wal : CanAppend g'.wal
  pub answers : All IsAnswered g'.answers

count-Retries :
    {W : Type 0} (store : ObjectStore W) (disk : Disk W) (host : Host W)
    → Retries count store disk host
unfolding count
count-Retries store disk host state entries =
    reconcile_batch-retry (λ s e. _) state entries (λ e. refl)

acknowledge-IsAnswered :
    (n lsn : ℕ) (rs : List ℕ) → length rs ≡ n → All IsAnswered (acknowledge n lsn rs)
unfolding acknowledge
acknowledge-IsAnswered n lsn [] e = tt
acknowledge-IsAnswered zero lsn (r ∷ rs) e = absurd (omega (arith, e))
acknowledge-IsAnswered (suc n) lsn (r ∷ rs) e =
    (refl, acknowledge-IsAnswered n (lsn + 1) rs (omega (arith, e)))

reject-IsAnswered : (e : WriteError) (rs : List ℕ) → All IsAnswered (reject e rs)
unfolding reject
reject-IsAnswered e [] = tt
reject-IsAnswered e (r ∷ rs) = (refl, reject-IsAnswered e rs)

length-receipts_of : (batch : List Request) → length (receipts_of batch) ≡ length batch
length-receipts_of [] = refl
length-receipts_of (r ∷ rs) = ap suc (length-receipts_of rs)

settle-IsServed :
    {W : Type 0} (batch : List Request) (result : Option (Result WriteError Range)) (g : Group W)
    → CanAppend g.wal
    → All IsAnswered g.answers
    → is_some result ≡ true
    → IsWhole (length batch) result
    → IsServed g (settle batch result g)
unfolding settle
settle-IsServed batch none g can old some_ whole = cc
settle-IsServed batch (some (err e)) g can old some_ whole = record {
  phase = refl;
  queue = refl;
  submitters = refl;
  wal = can;
  answers =
      All-append IsAnswered g.answers (reject e (receipts_of batch)) old
        (reject-IsAnswered e (receipts_of batch));
}
settle-IsServed batch (some (ok (first, end))) g can old some_ whole =
    let fits : (wrapping_sub end first == length batch) ≡ true =
      (==_iff (wrapping_sub end first) (length batch)).1 (omega (arith, whole.0, whole.1)) in
    let all : length (receipts_of batch) ≡ end - first =
      omega (arith, whole.1, length-receipts_of batch) in
    rw fits (record {
      phase = refl;
      queue = refl;
      submitters = refl;
      wal = can;
      answers =
          All-append IsAnswered g.answers (acknowledge (end - first) first (receipts_of batch)) old
            (acknowledge-IsAnswered (end - first) first (receipts_of batch) all);
    })

length-entries_of : (batch : List Request) → length (entries_of batch) ≡ length batch
length-entries_of [] = refl
length-entries_of (r ∷ rs) = ap suc (length-entries_of rs)

module _ {W : Type 0} (store : ObjectStore W) (disk : Disk W) (host : Host W) where
  append_batch-CanAppend :
      (batch : List Request) (g : Group W)
      → CanAppend g.wal
      → CanAppend (append_batch store disk host batch g).1.wal
        × (is_some (append_batch store disk host batch g).0 ≡ true)
  unfolding append_batch write_batch
  append_batch-CanAppend batch g can =
      let kept = append-Kept count store disk host (entries_of batch) false g.wal g.world in
      (
        record {
          etag = kept.etag can.etag;
          attempts = omega (arith, can.attempts, ap (λ o. o.max_write_attempts) kept.opts);
        },
        append-returns count store disk host (entries_of batch) false g.wal g.world can.etag
            can.attempts,
      )

  append_batch-IsWhole :
      (batch : List Request) (g : Group W)
      → IsWhole (length batch) (append_batch store disk host batch g).0
  unfolding append_batch write_batch
  append_batch-IsWhole batch g =
      subst (λ n. IsWhole n (append count store disk host (entries_of batch) false g.wal g.world).0)
        (length-entries_of batch)
        (append-IsWhole count store disk host (entries_of batch) false g.wal g.world
          (count-Retries store disk host))

  -- Serving a batch does not panic, and answers each of its receipts.
  pub serve-IsServed :
      (batch : List Request) (g : Group W)
      → CanAppend g.wal
      → All IsAnswered g.answers
      → IsServed g (serve store disk host batch g)
  serve-IsServed batch g can old = elim (Bool-cases g.stopped) [
    | inl stopped ↦
        subst (IsServed g) (sym (serve_stopped store disk host batch g stopped))
          (settle-IsServed batch (some (err (stopped_error (entries_of batch)))) g can old refl tt)
    | inr runs ↦
        let (result, appended) = append_batch store disk host batch g in
        let (can', returns) = append_batch-CanAppend batch g can in
        let served =
          settle-IsServed batch result appended can' (unfold append_batch in old) returns
            (append_batch-IsWhole batch g) in
        subst (IsServed g) (sym (serve_runs store disk host batch g runs)) (record {
          phase = served.phase;
          queue = served.queue ∙ (unfold append_batch in refl);
          submitters = served.submitters ∙ (unfold append_batch in refl);
          wal = served.wal;
          answers = served.answers;
        })
  ]
