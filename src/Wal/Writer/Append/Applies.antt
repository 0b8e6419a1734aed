-- ===== src/Wal/Writer/Append/Applies.antt =====
-- The pending fold of src/wal.rs while `append` runs: it covers a prefix of the live entries, so that the LSNs of a
-- PUT that is accepted are those of the handle, and none wraps around.
use waltier.Base.{
  ℕ, ◌+◌, ◌-◌, ◌≤◌, ◌<◌, ◌^◌, ◌≡◌, refl, sym, ap, ◌∙◌, Bool, true, Option, none, some, List, ◌++◌,
  length, drop, Result, ok, err, arith, inl, inr, Bool-cases, Option-cases, Result-cases,
  length-append, length-drop,
}
use mathlib.Core.Path.{subst}
use waltier.Base.Words.{wrapping_add, wrapping_sub}
use waltier.Base.Bytes.{Bytes}
use waltier.Base.Text.{Str, str_eq}
use waltier.Error.{StoreError}
use waltier.Image.{SnapshotRef, WalImage, first_lsn, next_lsn}
use waltier.Image.RoundTrip.{encode_view-Encoded}
use waltier.Image.Lsns.{check_lsn_exact}
use waltier.Store.{CondPut, ObjectStore}
use waltier.App.{WalApp}
use waltier.Cache.Files.{Disk}
use waltier.Wal.{Core, Fold, applies_to, Compaction, limits, wal_key, record_image_put}
use waltier.Wal.Refresh.{refresh}
use waltier.Wal.Compactor.{Host}
use waltier.Wal.Writer.{
  WalTier, InstallError, pending_fold, references, queue_obsolete, queue_superseded, candidate,
  discard_fold, discard_superseded_fold, retire, install_fold, install_pending_fold, lost_install,
  put_answered, try_install,
}
use waltier.Wal.Writer.Folds.{folded_image, with_entries, put_answered-Advanced}
use waltier.Wal.Writer.Keeps.{core-queue_superseded}
use waltier.Wal.Writer.Maintenance.{sync_compaction, integrate}

-- The pending fold, if there is one, covers a prefix of the live entries.
abbrev pub Applies : {S : Type 0} → WalTier S → Type 0
Applies t = (f : Fold) → pending_fold t.compaction ≡ some f → applies_to f t.core.image ≡ true

fold_or : Fold → Option Fold → Fold
fold_or d none = d
fold_or d (some f) = f

pub none-Applies : {S : Type 0} (t : WalTier S) → pending_fold t.compaction ≡ none → Applies t
none-Applies t e f is = let never : ◌≡◌ {A = Option Fold} none (some f) = sym e ∙ is in cc

compaction-queue_obsolete :
    {S : Type 0} (t : WalTier S) (key : Str) → (queue_obsolete t key).compaction ≡ t.compaction
unfolding queue_obsolete
compaction-queue_obsolete t key = ground arith

compaction-queue_superseded :
    {S : Type 0} (t : WalTier S) (o : Option SnapshotRef)
    → (queue_superseded t o).compaction ≡ t.compaction
unfolding queue_superseded
compaction-queue_superseded t none = refl
compaction-queue_superseded t (some sr) = compaction-queue_obsolete t sr.key

module _ {S W : Type 0} (app : WalApp S) (store : ObjectStore W) (disk : Disk W) where
  pub discard_superseded_fold-Applies :
      (t : WalTier S) (w : W) → Applies (discard_superseded_fold app store disk t w).0
  unfolding discard_superseded_fold discard_fold fold_or
  discard_superseded_fold-Applies t w = elim (Option-cases (pending_fold t.compaction)) [
    | inl absent ↦ rw (absent, discard_superseded_fold) (none-Applies t absent)
    | inr (f, is) ↦
        rw (is, discard_superseded_fold)
          (elim (Bool-cases (applies_to f t.core.image)) [
            | inl applies ↦ rw applies (λ g here.
                subst (λ h. applies_to h t.core.image ≡ true) (ap (fold_or f) (sym is ∙ here))
                  applies)
            | inr stale ↦ elim (Bool-cases (references t.core.image f.key)) [
              | inl own ↦
                  rw (stale, own)
                    (none-Applies (record t { compaction = Compaction.installed }) refl)
              | inr orphan ↦
                  rw (stale, orphan)
                    (none-Applies
                      (queue_obsolete (record t { compaction = Compaction.superseded }) f.key)
                      (ap pending_fold (
                        compaction-queue_obsolete (record t { compaction = Compaction.superseded })
                          f.key)))
            ]
          ])
  ]

  compaction-retire :
      (t : WalTier S) (o : Option SnapshotRef) (key : Str) (w : W)
      → (retire app store disk t o key w).0.compaction ≡ t.compaction
  unfolding retire
  compaction-retire t none key w = refl
  compaction-retire t (some old) key w = elim (Bool-cases (str_eq old.key key)) [
    | inl same ↦ rw same refl
    | inr other ↦ rw other (compaction-queue_obsolete t old.key)
  ]

  -- Installing the pending fold leaves none.
  pub pending-install_pending_fold :
      (t : WalTier S) (w : W)
      → pending_fold (install_pending_fold app store disk t w).0.compaction ≡ none
  unfolding install_pending_fold install_fold
  pending-install_pending_fold t w = elim (Option-cases (pending_fold t.compaction)) [
    | inl absent ↦ rw (absent, install_pending_fold) absent
    | inr (f, is) ↦
        rw (is, install_pending_fold)
          (ap pending_fold (compaction-retire _ t.core.image.snapshot f.key w))
  ]

  lost_install-Applies :
      (t : WalTier S) (w : W) → Applies t → Applies (lost_install app store disk t w).1
  unfolding lost_install
  lost_install-Applies t w old = elim (Result-cases (refresh app store disk t.core w).0) [
    | inr (x, e) ↦ rw (e, lost_install) old
    | inl ((report, core), e) ↦
        let w1 = (refresh app store disk t.core w).1 in
        let t1 = (discard_superseded_fold app store disk (record t { core = core }) w1).0 in
        rw (e, lost_install)
          (λ f is.
            ap (λ (c : Core S). applies_to f c.image) (core-queue_superseded t1 report.superseded)
            ∙ discard_superseded_fold-Applies (record t { core = core }) w1 f
                (sym (ap pending_fold (compaction-queue_superseded t1 report.superseded)) ∙ is))
  ]

  put_answered-Applies :
      (t : WalTier S) (body : Bytes) (put : Result StoreError CondPut) (w : W)
      → Applies t
      → Applies (put_answered app store disk t body put w).1
  unfolding put_answered
  put_answered-Applies t body (err x) w old = old
  put_answered-Applies t body (ok (CondPut.accepted given)) w old =
      let (c, w1) = record_image_put store disk t.core given body w in
      none-Applies (install_pending_fold app store disk (record t { core = c }) w1).0
        (pending-install_pending_fold (record t { core = c }) w1)
  put_answered-Applies t body (ok CondPut.precondition_failed) w old = lost_install-Applies t w old

  -- An attempt leaves a fold that still fits, or none.
  pub try_install-Applies :
      (t : WalTier S) (extra : List Bytes) (w : W)
      → Applies t
      → Applies (try_install app store disk t extra w).1
  unfolding try_install
  try_install-Applies t extra w old = elim (Result-cases (candidate t extra)) [
    | inr (x, e) ↦ rw (e, try_install) old
    | inl (body, e) ↦ elim (Option-cases t.core.etag) [
      | inl absent ↦ rw (e, absent, try_install) old
      | inr (held, is) ↦ rw (e, is, try_install) (put_answered-Applies t body _ _ old)
    ]
  ]

pub next_lsn-lt : (image : WalImage) → next_lsn image < 2 ^ 64
unfolding next_lsn
next_lsn-lt image = omega arith

-- The LSNs of the entries that a PUT adds.
abbrev pub Ranged : WalImage → WalImage → ℕ → Type 0
Ranged image image' n = (next_lsn image + n < 2 ^ 64) × (next_lsn image' ≡ next_lsn image + n)

candidate-Ranged :
    {S : Type 0} (t : WalTier S) (o : Option Fold) (extra : List Bytes) (body : Bytes)
    → Applies t
    → pending_fold t.compaction ≡ o
    → candidate t extra ≡ ok body
    → Ranged t.core.image (with_entries (folded_image t.core.image o) extra) (length extra)
unfolding candidate
candidate-Ranged t none extra body fits is e =
    let image = t.core.image in
    let (room, encoded) =
      encode_view-Encoded image none 0 extra (limits t.core.opts) body (rw (is, candidate) at e) in
    let (small, sum, first) = check_lsn_exact image.snapshot _ _ encoded.lsns.1 in
    let size = length-append image.entries extra in
    (
      unfold next_lsn first_lsn in omega (arith, small, sum, size),
      unfold next_lsn first_lsn in omega (arith, small, sum, size),
    )
candidate-Ranged t (some f) extra body fits is e =
    let image = t.core.image in
    let (room, encoded) =
      encode_view-Encoded image (some (record { key = f.key; lsn = f.lsn }))
        (wrapping_sub (wrapping_add f.lsn 1) (first_lsn image)) extra (limits t.core.opts) body
        (rw (is, candidate) at e) in
    let (small, sum, first) =
      check_lsn_exact (some (record { key = f.key; lsn = f.lsn })) _ _ encoded.lsns.1 in
    let below = next_lsn-lt image in
    let covers : (first_lsn image ≤ f.lsn) × (f.lsn < next_lsn image) =
      unfold applies_to in ground (arith, fits f is) in
    let skip : wrapping_sub (wrapping_add f.lsn 1) (first_lsn image) ≡ f.lsn + 1 - first_lsn image =
      omega (arith, covers, below) in
    let skip' : wrapping_sub f.lsn (first_lsn image) + 1 ≡ f.lsn + 1 - first_lsn image =
      omega (arith, covers, below) in
    let size =
      length-append (drop (wrapping_sub (wrapping_add f.lsn 1) (first_lsn image)) image.entries)
        extra in
    let kept = length-drop (wrapping_sub (wrapping_add f.lsn 1) (first_lsn image)) image.entries in
    let size' =
      length-append (drop (wrapping_sub f.lsn (first_lsn image) + 1) image.entries) extra in
    let kept' = length-drop (wrapping_sub f.lsn (first_lsn image) + 1) image.entries in
    let next : next_lsn image ≡ wrapping_add (first_lsn image) (length image.entries) =
      unfold next_lsn in refl in
    let exact : next_lsn image ≡ first_lsn image + length image.entries =
      omega (arith, next, small, sum, size, kept, skip, covers, below, room) in
    let new : next_lsn (with_entries (folded_image image (some f)) extra)
        ≡ wrapping_add (wrapping_add f.lsn 1)
            (length (drop (wrapping_sub f.lsn (first_lsn image) + 1) image.entries ++ extra)) =
      unfold next_lsn first_lsn in refl in
    (
      omega (arith, exact, small, sum, size, kept, skip, covers, below, room),
      omega (
        arith, new, exact, small, sum, size', kept', skip', size, kept, skip, covers, below, room,
      ),
    )

module _ {S W : Type 0} (app : WalApp S) (store : ObjectStore W) (disk : Disk W) where
  -- An attempt that wins has room for the LSNs of its entries, and leaves no fold.
  pub try_install-Ranged :
      (t t' : WalTier S) (extra : List Bytes) (w w' : W)
      → Applies t
      → try_install app store disk t extra w ≡ (some (ok true), t', w')
      → Ranged t.core.image (with_entries t'.core.image extra) (length extra)
  unfolding try_install
  try_install-Ranged t t' extra w w' fits e = elim (Result-cases (candidate t extra)) [
    | inr (x, bad) ↦
        let never : ◌≡◌ {A = Option (Result InstallError Bool)} _ (some (ok true)) =
          ap (λ r. r.0) (rw (bad, try_install) at e) in
        cc
    | inl (body, encoded) ↦ elim (Option-cases t.core.etag) [
      | inl absent ↦
          let never : ◌≡◌ {A = Option (Result InstallError Bool)} none (some (ok true)) =
            ap (λ r. r.0) (rw (encoded, absent, try_install) at e) in
          cc
      | inr (held, is) ↦
          let (given, accepted, (image, etag, state)) =
            put_answered-Advanced app store disk t t' body
              (store.put_if_match (wal_key t.core.opts) (some held) body w).0
              (store.put_if_match (wal_key t.core.opts) (some held) body w).1 w'
              (rw (encoded, is, try_install) at e) in
          subst (λ i. Ranged t.core.image (with_entries i extra) (length extra)) (sym image)
            (candidate-Ranged t (pending_fold t.compaction) extra body fits refl encoded)
    ]
  ]

module _ {S W : Type 0} (app : WalApp S) (store : ObjectStore W) (disk : Disk W)
    (host : Host W) where
  pub sync_compaction-Applies :
      (t : WalTier S) (w : W) → Applies (sync_compaction app store disk host t w).0
  unfolding sync_compaction
  sync_compaction-Applies t w =
      let (t1, w1) = integrate app store disk host t t.compaction w in
      discard_superseded_fold-Applies app store disk t1 w1
