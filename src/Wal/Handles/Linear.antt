-- ===== src/Wal/Handles/Linear.antt =====
-- Every interleaving of handles of src/wal.rs on one log: the object stands for what was acknowledged, in order.
use waltier.Base.{
  ℕ, ◌+◌, ◌<◌, ◌^◌, ◌≡◌, refl, sym, ap, ◌∙◌, true, false, none, some, List, [], ◌∷◌, ◌++◌, length,
  ◌==◌, Result, ok, err, arith, append_assoc, append-nil, length-append, if_both,
}
use mathlib.Core.Path.{subst}
use waltier.Base.Bytes.{Bytes}
use waltier.Image.{next_lsn}
use waltier.Store.Memory.{MemoryStore, memory_store}
use waltier.Store.Memory.Versions.{IsFresh}
use waltier.App.{WalApp}
use waltier.Cache.Files.{Disk}
use waltier.Error.{WalError}
use waltier.Wal.{Core, Options, Refreshed}
use waltier.Wal.Compactor.{Host}
use waltier.Wal.Refresh.History.{Represents}
use waltier.Wal.Writer.{WalTier, Attempt, pending_fold, try_install}
use waltier.Wal.Writer.Folds.{FoldFits}
use waltier.Wal.Handles.Apart.{IsApart}
use waltier.Wal.Handles.Sees.{AnswerSees, refresh-AnswerSees}
use waltier.Wal.Handles.Tracks.{IsLog, Tracks, Sees-Tracks}
use waltier.Wal.Handles.Attempts.{Unchanged, try_install-Unchanged}
use waltier.Wal.Handles.Appending.{try_install-Appends}
use waltier.Wal.Handles.Runs.{
  Fleet, Batches, entries_in, put_handle, settled, batch_of, refreshed, Step, Run, batches_of,
  acknowledged,
}

-- The log stands for a history, and every handle follows it.
pub record IsLinear {S : Type 0} (opts : Options) (history : List Bytes) (s : Fleet S)
    : Type 0 where
  pub log : IsLog opts history s.world
  pub fresh : IsFresh s.world
  pub tracks : (i : ℕ) → Tracks opts history s.world (s.handle i).core

-- Each batch has the LSN behind the batches before it.
abbrev pub Consecutive : ℕ → Batches → Type 0
Consecutive n [] = Unit
Consecutive n ((first, entries) ∷ bs) = (first ≡ n) × Consecutive (n + length entries) bs

entries_in-append : (olds bs : Batches) → entries_in (olds ++ bs) ≡ entries_in olds ++ entries_in bs
entries_in-append [] bs = refl
entries_in-append ((first, entries) ∷ olds) bs =
    ap (λ l. entries ++ l) (entries_in-append olds bs)
    ∙ sym (append_assoc entries (entries_in olds) (entries_in bs))

Consecutive-append :
    (n m : ℕ) (olds bs : Batches)
    → n + length (entries_in olds) ≡ m
    → Consecutive n olds
    → Consecutive m bs
    → Consecutive n (olds ++ bs)
Consecutive-append n m [] bs e a b =
    subst (λ k. Consecutive k bs) {x = m} {y = n} (omega (arith, e)) b
Consecutive-append n m ((first, entries) ∷ olds) bs e a b = (
  a.0,
  Consecutive-append (n + length entries) m olds bs
      (omega (arith, e, length-append entries (entries_in olds))) a.1 b,
)

module _ {S : Type 0} (app : WalApp S) (disk : Disk MemoryStore) (host : Host MemoryStore)
    (apart : IsApart disk) (opts : Options) where
  put_handle-IsLinear :
      (history : List Bytes) (i : ℕ) (t : WalTier S) (w : MemoryStore) (s : Fleet S)
      → IsLog opts history w
      → IsFresh w
      → Tracks opts history w t.core
      → ((j : ℕ) → Tracks opts history w (s.handle j).core)
      → IsLinear opts history (put_handle i t w s)
  put_handle-IsLinear history i t w s log fresh known others = record {
    log = log;
    fresh = fresh;
    tracks = λ j.
        if_both (λ (u : WalTier S). Tracks opts history w u.core) (i == j) t (s.handle j) known
          (others j);
  }

  passed-IsLinear :
      (history : List Bytes) (i : ℕ) (t : WalTier S) (w : MemoryStore) (s : Fleet S)
      → IsLinear opts history s
      → w ≡ s.world
      → Tracks opts history s.world t.core
      → IsLinear opts history (put_handle i t w s)
  passed-IsLinear history i t w s linear same known =
      subst (λ v. IsLinear opts history (put_handle i t v s)) (sym same)
        (put_handle-IsLinear history i t s.world s linear.log linear.fresh known linear.tracks)

  abbrev Advances : List Bytes → Batches → Fleet S → Type 0
  Advances history batches s =
      IsLinear opts (history ++ entries_in batches) s × Consecutive (length history) batches

  unchanged-Advances :
      (history : List Bytes) (s : Fleet S) → IsLinear opts history s → Advances history [] s
  unchanged-Advances history s linear =
      (subst (λ h. IsLinear opts h s) (sym (append-nil history)) linear, tt)

  attempted-Advances :
      (history : List Bytes) (i : ℕ) (entries : List Bytes) (s : Fleet S)
      (a : Attempt app memory_store disk)
      → IsLinear opts history s
      → FoldFits (s.handle i).core.image (pending_fold (s.handle i).compaction)
      → s.world.next_etag + 1 < 2 ^ 64
      → try_install app memory_store disk (s.handle i) entries s.world ≡ a
      → Unchanged app disk apart opts history s.world a
      → Advances history
          (batch_of app disk entries (next_lsn (s.handle i).core.image) a)
          (settled app disk host i entries (next_lsn (s.handle i).core.image) a s)
  attempted-Advances history i entries s (some (ok true), t, w) linear fits room e same =
      let won =
        try_install-Appends app disk host apart opts history entries s.world w (s.handle i) t
          linear.log linear.fresh room (linear.tracks i) fits e in
      (
        subst
            (λ h. IsLinear opts h (
              settled app disk host i entries (next_lsn (s.handle i).core.image)
                (some (ok true), t, w) s))
            (ap (λ l. history ++ l) (sym (append-nil entries)))
            (put_handle-IsLinear (history ++ entries) i _ w s won.log won.fresh won.handle
              (λ j. won.others (s.handle j).core (linear.tracks j))),
        (won.first, tt),
      )
  attempted-Advances history i entries s (some (ok false), t, w) linear fits room e same =
      unchanged-Advances history _ (passed-IsLinear history i t w s linear same.0 same.1)
  attempted-Advances history i entries s (some (err x), t, w) linear fits room e same =
      unchanged-Advances history _ (passed-IsLinear history i t w s linear same.0 same.1)
  attempted-Advances history i entries s (none, t, w) linear fits room e same =
      unchanged-Advances history _ (passed-IsLinear history i t w s linear same.0 same.1)

  refreshed-IsLinear :
      (history : List Bytes) (i : ℕ) (s : Fleet S)
      (a : Result WalError (Refreshed × Core S) × MemoryStore)
      → IsLinear opts history s
      → AnswerSees app disk apart s.world (s.handle i).core a
      → IsLinear opts history (refreshed i a s)
  refreshed-IsLinear history i s (ok (report, c), w) linear sees =
      passed-IsLinear history i (record (s.handle i) { core = c }) w s linear sees.1
        (Sees-Tracks (s.handle i).core c linear.log linear.fresh (linear.tracks i) sees.0)
  refreshed-IsLinear history i s (err e, w) linear sees =
      subst (λ v. IsLinear opts history (record s { world = v })) (sym sees.1) linear

  step-Advances :
      {s u : Fleet S} (history : List Bytes) (step : Step app disk host opts s u)
      → IsLinear opts history s
      → Advances history (batches_of app disk host opts step) u
  step-Advances {s} history (Step.attempting i entries fits room) linear =
      attempted-Advances history i entries s
        (try_install app memory_store disk (s.handle i) entries s.world) linear fits room refl
        (try_install-Unchanged app disk apart opts history entries s.world (s.handle i) linear.log
          linear.fresh (linear.tracks i))
  step-Advances {s} history (Step.refreshing i) linear = unchanged-Advances history _ (
      refreshed-IsLinear history i s _ linear
        (refresh-AnswerSees app disk apart (s.handle i).core s.world))
  step-Advances {s} history (Step.maintaining i t options etag image) linear =
      let known = linear.tracks i in
      unchanged-Advances history _ (
        passed-IsLinear history i t s.world s linear refl (record {
          options = options ∙ known.options;
          issued = λ e h. known.issued e (sym etag ∙ h);
          current = λ o found h.
              subst (Represents history) (sym image) (known.current o found (sym etag ∙ h));
        }))
  step-Advances {s} history (Step.elsewhere w same more fresh) linear =
      let log = linear.log in
      unchanged-Advances history _ (record {
        log = record {
          object = log.object;
          found = same ∙ log.found;
          image = log.image;
          decodes = log.decodes;
          represents = log.represents;
        };
        fresh = fresh;
        tracks = λ i.
            let known = linear.tracks i in
            record {
              options = known.options;
              issued =
                  λ e h. let (n, lt, is) = known.issued e h in (n, omega (arith, lt, more), is);
              current = λ o found h. known.current o (sym same ∙ found) h;
            };
      })

  -- On a MemoryStore, whose operations never fail, and however the attempts and refreshes of any handles interleave,
  -- with each other and with steps that leave the log object, the order of its validators and their freshness
  -- alone: the object stands for the old history followed by exactly the acknowledged batches, in the order
  -- of their attempts, the first entry of each batch has the LSN that it was acknowledged with, and every
  -- handle whose validator is current has the image of that history. At each attempt the pending fold covers a
  -- prefix of the live entries under a UTF-8 key and the counter of validators is not about to wrap around; the
  -- files of the cache are not in the store.
  pub Run-IsLinear :
      {s u : Fleet S} (history : List Bytes) (run : Run app disk host opts s u)
      → IsLinear opts history s
      → IsLinear opts (history ++ entries_in (acknowledged app disk host opts run)) u
        × Consecutive (length history) (acknowledged app disk host opts run)
  Run-IsLinear history Run.here linear = unchanged-Advances history _ linear
  Run-IsLinear {s} {u} history (Run.next run step) linear =
      let (before, first) = Run-IsLinear history run linear in
      let old = acknowledged app disk host opts run in
      let now = step-Advances (history ++ entries_in old) step before in
      (
        subst (λ h. IsLinear opts h u)
            (append_assoc history (entries_in old) (entries_in (batches_of app disk host opts step))
              ∙ ap (λ l. history ++ l)
                  (sym (entries_in-append old (batches_of app disk host opts step))))
            now.0,
        Consecutive-append (length history) (length (history ++ entries_in old)) old
            (batches_of app disk host opts step)
            (omega (arith, length-append history (entries_in old))) first now.1,
      )
