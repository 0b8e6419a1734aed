-- ===== src/Wal/Writer/Garbage.antt =====
-- The queue of obsolete snapshots of `WalTier` in src/wal.rs, and what may stand in it.
use waltier.Base.{
  ◌≤◌, ◌≡◌, refl, sym, ap, ◌∙◌, false, ◌||◌, Option, none, some, List, [], ◌∷◌, ◌++◌, length, inl,
  inr, arith, Bool-cases, Option-cases, length-append,
}
use waltier.Base.Text.{Str, str_eq}
use waltier.Image.{SnapshotRef}
use waltier.Store.{ObjectStore}
use waltier.App.{WalApp}
use waltier.Cache.Files.{Disk}
use waltier.Wal.{Core, Fold, Compaction, applies_to}
use waltier.Wal.Writer.{
  WalTier, contains, pending_fold, references, queue_obsolete, discard_fold,
  discard_superseded_fold, retire, install_fold, install_pending_fold,
}
use waltier.Wal.Writer.Folds.{core-queue_obsolete}

-- Nothing that the log references or is about to reference is queued for deletion, and the queue is
-- within its bound.
pub record IsSafe {S : Type 0} (t : WalTier S) : Type 0 where
  pub live : (s : SnapshotRef) → t.core.image.snapshot ≡ some s → contains s.key t.garbage ≡ false
  pub ready : (f : Fold) → pending_fold t.compaction ≡ some f → contains f.key t.garbage ≡ false
  pub bounded : length t.garbage ≤ t.core.opts.max_pending_deletes

str_eq_sym : (s t : Str) → str_eq s t ≡ str_eq t s
unfolding str_eq
str_eq_sym [] [] = refl
str_eq_sym [] (b ∷ t) = refl
str_eq_sym (a ∷ s) [] = refl
str_eq_sym (a ∷ s) (b ∷ t) = ground (arith, str_eq_sym s t)

contains-append :
    (k key : Str) (ks : List Str) → contains k (ks ++ key ∷ []) ≡ (contains k ks || str_eq key k)
contains-append k key [] = ground arith
contains-append k key (x ∷ ks) = rw (contains-append k key ks) (ground arith)

module _ {S : Type 0} where
  queue_obsolete-keeps :
      (t : WalTier S) (key k : Str)
      → str_eq key k ≡ false
      → contains k t.garbage ≡ false
      → contains k (queue_obsolete t key).garbage ≡ false
  unfolding queue_obsolete
  queue_obsolete-keeps t key k other out =
      ground (arith, contains-append k key t.garbage, other, out)

  queue_obsolete-bounded :
      (t : WalTier S) (key : Str)
      → length t.garbage ≤ t.core.opts.max_pending_deletes
      → length (queue_obsolete t key).garbage ≤ t.core.opts.max_pending_deletes
  unfolding queue_obsolete
  queue_obsolete-bounded t key h = ground (arith, length-append t.garbage (key ∷ []))

  compaction-queue_obsolete :
      (t : WalTier S) (key : Str) → (queue_obsolete t key).compaction ≡ t.compaction
  unfolding queue_obsolete
  compaction-queue_obsolete t key = ground arith

  -- Queueing a key that is neither referenced nor pending is safe.
  queue_obsolete-IsSafe :
      (t : WalTier S) (key : Str)
      → ((s : SnapshotRef) → t.core.image.snapshot ≡ some s → str_eq key s.key ≡ false)
      → ((f : Fold) → pending_fold t.compaction ≡ some f → str_eq key f.key ≡ false)
      → IsSafe t
      → IsSafe (queue_obsolete t key)
  queue_obsolete-IsSafe t key dead idle safe =
      let core = core-queue_obsolete t key in
      let compaction = compaction-queue_obsolete t key in
      record {
        live = λ s is.
            let is' = ap (λ (c : Core S). c.image.snapshot) (sym core) ∙ is in
            queue_obsolete-keeps t key s.key (dead s is') (safe.live s is');
        ready = λ f is.
            let is' = ap pending_fold (sym compaction) ∙ is in
            queue_obsolete-keeps t key f.key (idle f is') (safe.ready f is');
        bounded = rw core (queue_obsolete-bounded t key safe.bounded);
      }

  -- The handle whose pending fold is settled in the same queue.
  settled-IsSafe :
      (t : WalTier S) (c : Compaction)
      → pending_fold c ≡ none
      → IsSafe t
      → IsSafe (record t { compaction = c })
  settled-IsSafe t c settled safe = record {
    live = safe.live;
    ready = λ f is. cc;
    bounded = safe.bounded;
  }

module _ {S W : Type 0} (app : WalApp S) (store : ObjectStore W) (disk : Disk W) where
  discard_fold-IsSafe :
      (t : WalTier S) (f : Fold) (w : W) → IsSafe t → IsSafe (discard_fold app store disk t f w).0
  unfolding discard_fold
  discard_fold-IsSafe t f w safe = elim (Bool-cases (applies_to f t.core.image)) [
    | inl applies ↦ rw applies safe
    | inr stale ↦ elim (Bool-cases (references t.core.image f.key)) [
      | inl own ↦ rw (stale, own) (settled-IsSafe t Compaction.installed refl safe)
      | inr orphan ↦
          rw (stale, orphan)
            (queue_obsolete-IsSafe (record t { compaction = Compaction.superseded }) f.key
              (λ s is. str_eq_sym f.key s.key ∙ (rw is at orphan)) (λ g is. cc)
              (settled-IsSafe t Compaction.superseded refl safe))
    ]
  ]

  retire-IsSafe :
      (t : WalTier S) (o : Option SnapshotRef) (key : Str) (w : W)
      → ((s : SnapshotRef) → t.core.image.snapshot ≡ some s → s.key ≡ key)
      → pending_fold t.compaction ≡ none
      → IsSafe t
      → IsSafe (retire app store disk t o key w).0
  unfolding retire
  retire-IsSafe t none key w now settled safe = safe
  retire-IsSafe t (some old) key w now settled safe = elim (Bool-cases (str_eq old.key key)) [
    | inl same ↦ rw same safe
    | inr other ↦ rw other (
        queue_obsolete-IsSafe t old.key (λ s is. ap (str_eq old.key) (now s is) ∙ other)
          (λ g is. cc) safe)
  ]

  install_fold-IsSafe :
      (t : WalTier S) (f : Fold) (w : W)
      → pending_fold t.compaction ≡ some f
      → IsSafe t
      → IsSafe (install_fold app store disk t f w).0
  unfolding install_fold
  install_fold-IsSafe t f w is safe =
      retire-IsSafe _ t.core.image.snapshot f.key w (λ s e. key_is s e) refl
        (record {
          live = λ s e. ap (λ k. contains k t.garbage) (key_is s e) ∙ safe.ready f is;
          ready = λ g e. cc;
          bounded = safe.bounded;
        })
    where
      key_is :
          (s : SnapshotRef) → some (record { key = f.key; lsn = f.lsn }) ≡ some s → s.key ≡ f.key
      key_is s e = cc

  -- Neither the installation of a pending fold nor its disposal queues a snapshot for deletion that the
  -- log references then, or one that is still to be installed, and both keep the queue within
  -- its bound, if that held before.
  pub folds-IsSafe :
      (t : WalTier S) (w : W)
      → IsSafe t
      → IsSafe (install_pending_fold app store disk t w).0
        × IsSafe (discard_superseded_fold app store disk t w).0
  unfolding install_pending_fold discard_superseded_fold
  folds-IsSafe t w safe = elim (Option-cases (pending_fold t.compaction)) [
    | inl absent ↦
        (rw (absent, install_pending_fold) safe, rw (absent, discard_superseded_fold) safe)
    | inr (f, is) ↦ (
      rw (is, install_pending_fold) (install_fold-IsSafe t f w is safe),
      rw (is, discard_superseded_fold) (discard_fold-IsSafe t f w safe),
    )
  ]
