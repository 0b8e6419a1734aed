-- ===== src/Wal/Handles/Refreshes.antt =====
-- `Core::refresh` of src/wal.rs on the log in a MemoryStore: each way in which it can succeed, over all rounds of its loop.
use waltier.Base.{
  ◌≡◌, refl, sym, ap, ◌∙◌, ◌⊎◌, true, Option, none, some, List, ok, err, inl, inr, Bool-cases,
}
use mathlib.Core.Path.{subst}
use waltier.Base.Bytes.{Bytes}
use waltier.Base.Text.{Str, text, str_eq, str_eq_iff}
use waltier.Error.{WalError}
use waltier.Store.{CondGet, compare_etag, default_get_if_changed}
use waltier.Store.Memory
use waltier.Store.Memory.{MemoryStore, memory_store}
use waltier.App.{WalApp}
use waltier.Cache.Files.{Disk}
use waltier.Wal.{Core, Missing, Step, done, again, max_races, Refreshed}
use waltier.Wal.Refresh.{Outcome, unchanged, refresh_found, refresh_round, refresh}
use waltier.Wal.Refresh.History.{Follows, Restores, Synced, advance-Synced}
use waltier.Wal.Refresh.Sound.{races_good}
use waltier.Wal.Handles.Apart.{IsApart}
use waltier.Wal.Handles.Sees.{RoundSees, round-RoundSees}
use waltier.Wal.Handles.Tracks.{IsLog}

abbrev answer_or : {A : Type 0} → A → Step A → A
answer_or d (done (ok a)) = a
answer_or d _ = d

module _ {S : Type 0} (app : WalApp S) (disk : Disk MemoryStore) where
  -- The core is as it was, which is still the version in the store; or it has moved to that version.
  abbrev pub Current :
      {w : MemoryStore} {history : List Bytes} (c : Core S)
      → IsLog c.opts history w
      → Outcome app memory_store disk
      → Type 0
  Current {history = history} c log (report, c') =
      (◌≡◌ {A = Outcome app memory_store disk} (report, c') (unchanged app memory_store disk c)
        × (c.etag ≡ some log.object.etag))
      ⊎ (Synced app history log.image log.object c' × (report.changed ≡ true))

  stopped : {A : Type 0} {e : WalError} {a : A} → ◌≡◌ {A = Step A} (done (err e)) (done (ok a)) → ⊥
  stopped h = cc

  same : {A : Type 0} {a b : A} → ◌≡◌ {A = Step A} (done (ok a)) (done (ok b)) → b ≡ a
  same {a = a} h = sym (ap (answer_or a) h)

  module _ {history : List Bytes} {w : MemoryStore} (c : Core S)
      (log : IsLog c.opts history w) where
    moved-Current :
        (m : Missing) (a : Outcome app memory_store disk) (w2 : MemoryStore) (etag : Option Str)
        → Follows app memory_store disk history c
        → Restores app memory_store disk history c log.image w
        → refresh_found app memory_store disk c etag m (ok (CondGet.changed log.object)) w
          ≡ (done (ok a), w2)
        → Current c log a
    unfolding refresh_found
    moved-Current m a w2 etag follows restores q = inr (
        advance-Synced app memory_store disk history c a.1 log.image log.object m w w2 a.0
          log.represents follows restores (rw (log.decodes, refresh_found) at q))

    compared-Current :
        (m : Missing) (a : Outcome app memory_store disk) (w2 : MemoryStore) (etag : Option Str)
        → c.etag ≡ etag
        → Follows app memory_store disk history c
        → Restores app memory_store disk history c log.image w
        → refresh_found app memory_store disk c etag m (ok (compare_etag (some log.object) etag)) w
          ≡ (done (ok a), w2)
        → Current c log a
    unfolding compare_etag refresh_found
    compared-Current m a w2 none is follows restores q =
        moved-Current m a w2 none follows restores q
    compared-Current m a w2 (some x) is follows restores q =
        elim (Bool-cases (str_eq log.object.etag x)) [
          | inl kept ↦ inl (
            same (ap (λ t. t.0) (rw (kept, refresh_found) at q)),
            is ∙ ap some (sym ((str_eq_iff log.object.etag x).0 kept)),
          )
          | inr other ↦ moved-Current m a w2 (some x) follows restores (rw other at q)
        ]

    world-RoundSees :
        (apart : IsApart disk) (r : Step (Refreshed × Core S) × MemoryStore)
        → RoundSees app disk apart w c r
        → r.1 ≡ w
    world-RoundSees apart (done (ok (report, c')), w') sees = sees.1
    world-RoundSees apart (done (err e), w') sees = sees.1
    world-RoundSees apart (again m, w') sees = sees.1

    -- A refresh of the log in a MemoryStore that succeeds, in whichever round of its loop, leaves the core at the
    -- version that the store holds: it reports no change and the core, which already had that version's
    -- validator, is as it was; or it reports a change, and the core holds the replay of the whole history of
    -- the log with its image and its validator, whether it was caught up or rebuilt from the snapshot. The
    -- core has replayed a beginning of the history, the snapshot that the log names restores the entries that
    -- it folds, and the files of the cache are not in the store.
    pub refresh-Current :
        (c' : Core S) (w' : MemoryStore) (report : Refreshed)
        → IsApart disk
        → Follows app memory_store disk history c
        → Restores app memory_store disk history c log.image w
        → refresh app memory_store disk c w ≡ (ok (report, c'), w')
        → Current c log (report, c')
    unfolding refresh refresh_round memory_store default_get_if_changed Memory.get
    refresh-Current c' w' report apart follows restores e =
        races_good (λ v. v ≡ w) (Current c log) (refresh_round app memory_store disk c)
          (text "refresh")
          (λ m v is.
            subst (λ u. (refresh_round app memory_store disk c m u).1 ≡ w) (sym is)
              (world-RoundSees apart (refresh_round app memory_store disk c m w)
                (round-RoundSees app disk apart c m w)))
          (λ m v a w2 is q. compared-Current m a w2 c.etag refl follows restores (
            ap (λ o. refresh_found app memory_store disk c c.etag m (ok (compare_etag o c.etag)) w)
              (sym log.found)
            ∙ subst (λ u. refresh_round app memory_store disk c m u ≡ (done (ok a), w2)) is q))
          max_races none w w' (report, c') refl e
