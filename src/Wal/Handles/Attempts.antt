-- ===== src/Wal/Handles/Attempts.antt =====
-- A CAS attempt of src/wal.rs on the log in a MemoryStore that does not win: it changes nothing.
use waltier.Base.{
  ◌≡◌, refl, sym, ◌∙◌, true, false, Option, none, some, List, Result, ok, err, inl, inr, Bool-cases,
  Option-cases, Result-cases,
}
use mathlib.Core.Path.{subst}
use waltier.Base.Bytes.{Bytes}
use waltier.Base.Text.{Str, str_eq}
use waltier.Error.{WalError}
use waltier.Image.{SnapshotRef}
use waltier.Store.{CondPut, cas_matches}
use waltier.Store.Memory
use waltier.Store.Memory.{MemoryStore, memory_store, etag_of, etag_at}
use waltier.Store.Memory.Versions.{IsFresh, stored_next}
use waltier.App.{WalApp}
use waltier.Cache.Files.{Disk}
use waltier.Wal.{Options, Core, applies_to, wal_key, Refreshed}
use waltier.Wal.Refresh.{refresh}
use waltier.Wal.Writer.{
  WalTier, Attempt, pending_fold, references, candidate, discard_fold, discard_superseded_fold,
  retire, install_fold, install_pending_fold, lost_install, put_answered, try_install,
}
use waltier.Wal.Writer.Keeps.{core-discard_superseded_fold, core-queue_superseded}
use waltier.Wal.Handles.Apart.{IsApart, remove_snapshot-same}
use waltier.Wal.Handles.Sees.{AnswerSees, refresh-AnswerSees}
use waltier.Wal.Handles.Tracks.{IsLog, Tracks, Sees-Tracks}

module _ {S : Type 0} (app : WalApp S) (disk : Disk MemoryStore) (apart : IsApart disk) where
  discard-same :
      (t : WalTier S) (w : MemoryStore) → (discard_superseded_fold app memory_store disk t w).1 ≡ w
  unfolding discard_superseded_fold discard_fold
  discard-same t w = elim (Option-cases (pending_fold t.compaction)) [
    | inl absent ↦ rw (absent, discard_superseded_fold) refl
    | inr (f, is) ↦
        rw (is, discard_superseded_fold)
          (elim (Bool-cases (applies_to f t.core.image)) [
            | inl applies ↦ rw applies refl
            | inr stale ↦ elim (Bool-cases (references t.core.image f.key)) [
              | inl own ↦ rw (stale, own) refl
              | inr orphan ↦
                  rw (stale, orphan) (remove_snapshot-same disk apart t.core.cache f.key w)
            ]
          ])
  ]

  retire-same :
      (t : WalTier S) (o : Option SnapshotRef) (key : Str) (w : MemoryStore)
      → (retire app memory_store disk t o key w).1 ≡ w
  unfolding retire
  retire-same t none key w = refl
  retire-same t (some old) key w = elim (Bool-cases (str_eq old.key key)) [
    | inl same ↦ rw same refl
    | inr other ↦ rw other (remove_snapshot-same disk apart t.core.cache old.key w)
  ]

  pub install-same :
      (t : WalTier S) (w : MemoryStore) → (install_pending_fold app memory_store disk t w).1 ≡ w
  unfolding install_pending_fold install_fold
  install-same t w = elim (Option-cases (pending_fold t.compaction)) [
    | inl absent ↦ rw (absent, install_pending_fold) refl
    | inr (f, is) ↦ rw (is, install_pending_fold) (retire-same _ t.core.image.snapshot f.key w)
  ]

pub put_wins :
    (key : Str) (etag : Option Str) (body : Bytes) (w : MemoryStore)
    → cas_matches (etag_at key w) etag ≡ true
    → memory_store.put_if_match key etag body w
      ≡ (ok (CondPut.accepted (etag_of w.next_etag)), stored_next key body w)
unfolding memory_store Memory.put_if_match
put_wins key etag body w wins = rw wins refl

pub put_loses :
    (key : Str) (etag : Option Str) (body : Bytes) (w : MemoryStore)
    → cas_matches (etag_at key w) etag ≡ false
    → memory_store.put_if_match key etag body w ≡ (ok CondPut.precondition_failed, w)
unfolding memory_store Memory.put_if_match
put_loses key etag body w loses = rw loses refl

module _ {S : Type 0} (app : WalApp S) (disk : Disk MemoryStore) (apart : IsApart disk) where
  -- An attempt that does not win leaves the store as it was.
  abbrev pub Unchanged : Options → List Bytes → MemoryStore → Attempt app memory_store disk → Type 0
  Unchanged opts history w (some (ok true), t', w') = Unit
  Unchanged opts history w (_, t', w') = (w' ≡ w) × Tracks opts history w t'.core

  lost_install-Unchanged :
      (opts : Options) (history : List Bytes) (w : MemoryStore) (t : WalTier S)
      (refreshed : Result WalError (Refreshed × Core S))
      → IsLog opts history w
      → IsFresh w
      → Tracks opts history w t.core
      → (refresh app memory_store disk t.core w).0 ≡ refreshed
      → AnswerSees app disk apart w t.core (refreshed, (refresh app memory_store disk t.core w).1)
      → Unchanged opts history w (lost_install app memory_store disk t w)
  unfolding lost_install
  lost_install-Unchanged opts history w t (err e) log fresh tracks is sees =
      rw (is, lost_install) (sees.1, tracks)
  lost_install-Unchanged opts history w t (ok (report, c)) log fresh tracks is sees =
      let w0 = (refresh app memory_store disk t.core w).1 in
      let t1 : WalTier S = record t { core = c } in
      let t2 = (discard_superseded_fold app memory_store disk t1 w0).0 in
      rw (is, lost_install)
        (
          discard-same app disk apart t1 w0 ∙ sees.1,
          subst (Tracks opts history w)
              (sym (
                core-queue_superseded t2 report.superseded
                ∙ core-discard_superseded_fold app memory_store disk t1 w0))
              (Sees-Tracks t.core c log fresh tracks sees.0),
        )

  -- An attempt that does not report success has left the store as it was, and what the handle knows of the
  -- log is what the store holds or an older version.
  pub try_install-Unchanged :
      (opts : Options) (history extra : List Bytes) (w : MemoryStore) (t : WalTier S)
      → IsLog opts history w
      → IsFresh w
      → Tracks opts history w t.core
      → Unchanged opts history w (try_install app memory_store disk t extra w)
  unfolding try_install put_answered
  try_install-Unchanged opts history extra w t log fresh tracks =
      elim (Result-cases (candidate t extra)) [
        | inr (x, bad) ↦ rw (bad, try_install) (refl, tracks)
        | inl (body, encoded) ↦ elim (Option-cases t.core.etag) [
          | inl absent ↦ rw (encoded, absent, try_install) (refl, tracks)
          | inr (held, is) ↦
              elim (Bool-cases (cas_matches (etag_at (wal_key t.core.opts) w) (some held))) [
                | inr loses ↦
                    rw
                      (
                        encoded,
                        is,
                        put_loses (wal_key t.core.opts) (some held) body w loses,
                        try_install,
                      )
                      (lost_install-Unchanged opts history w t
                        (refresh app memory_store disk t.core w).0 log fresh tracks refl
                        (refresh-AnswerSees app disk apart t.core w))
                | inl wins ↦
                    rw
                      (
                        encoded,
                        is,
                        put_wins (wal_key t.core.opts) (some held) body w wins,
                        try_install,
                      )
                      tt
              ]
        ]
      ]
