-- ===== src/Wal/Writer/Append/Committed.antt =====
-- What a successful append of src/wal.rs leaves in the handle: one attempt of `append` that wins its
-- CAS, with the entries applied and appended.
use waltier.Base.{
  ℕ, suc, ◌+◌, ◌≤◌, ◌<◌, ◌≡◌, sym, ap, ◌∙◌, true, Option, none, some, List, [], ◌∷◌, ◌++◌, length,
  drop, ok, arith, length-append, length-drop, drop-append_of_le, drop-add,
}
use mathlib.Core.Path.{subst}
use waltier.Base.Words.{wrapping_sub, wrapping_add, u64_mod}
use waltier.Base.Bytes.{Bytes}
use waltier.Image.{SnapshotRef, WalImage, IsRef, check_lsn, first_of, first_lsn, next_lsn, numbered}
use waltier.Image.Lsns.{enumerate_from, next_lsn_exact, numbered-enumerate}
use waltier.Store.{ObjectStore}
use waltier.App.{WalApp}
use waltier.Cache.Files.{Disk}
use waltier.Wal.{Fold, applies_to, apply_all}
use waltier.Wal.Refresh.History.{replay, apply_all-append, Represents}
use waltier.Wal.Compactor.{Host}
use waltier.Wal.Writer.{WalTier, pending_fold, try_install}
use waltier.Wal.Writer.Folds.{FoldFits, folded_image, try_install-CasWon}
use waltier.Wal.Writer.Append.{commit}

-- The entry behind a reference has an LSN.
abbrev pub RefFits : Option SnapshotRef → Type 0
RefFits none = Unit
RefFits (some s) = s.lsn + 1 < u64_mod

check_lsn_fits :
    (o : Option SnapshotRef) (count : ℕ)
    → RefFits o
    → first_of o + count < u64_mod
    → check_lsn o count ≡ some (first_of o + count)
unfolding check_lsn
check_lsn_fits none count r h = ground arith
check_lsn_fits (some s) count r h = ground arith

check_lsn-RefFits :
    (o : Option SnapshotRef) (count next : ℕ) → check_lsn o count ≡ some next → RefFits o
unfolding check_lsn
check_lsn-RefFits none count next e = tt
check_lsn-RefFits (some s) count next e = ground arith

pub next_lsn-Represents :
    (history : List Bytes) (image : WalImage)
    → Represents history image
    → next_lsn image ≡ length history
next_lsn-Represents history image r =
    let (exact, small, _) = next_lsn_exact image r.valid in
    let count = ap length r.live ∙ length-drop (first_lsn image) history in
    omega (arith, exact, count, r.starts)

-- Installing a fold that fits does not change what the image stands for.
pub folded_image-live :
    (history : List Bytes) (image : WalImage) (o : Option Fold)
    → Represents history image
    → FoldFits image o
    → (first_lsn (folded_image image o) ≤ length history)
      × ((folded_image image o).entries ≡ drop (first_lsn (folded_image image o)) history)
      × IsRef (folded_image image o).snapshot
      × RefFits (folded_image image o).snapshot
folded_image-live history image none r fits = (
  r.starts,
  r.live,
  r.valid.reference,
  check_lsn-RefFits image.snapshot _ r.valid.fits.0 r.valid.fits.1,
)
folded_image-live history image (some f) r fits =
    let (exact, small, _) = next_lsn_exact image r.valid in
    let tip = next_lsn-Represents history image r in
    let covers : (first_lsn image ≤ f.lsn) × (f.lsn < next_lsn image) =
      unfold applies_to in ground (arith, fits.applies) in
    let first : wrapping_add f.lsn 1 ≡ f.lsn + 1 = omega (arith, covers, small) in
    let skip : first_lsn image + (wrapping_sub f.lsn (first_lsn image) + 1) ≡ wrapping_add f.lsn 1 =
      omega (arith, covers, exact, small) in
    (
      unfold first_lsn in omega (arith, first, covers, tip),
      unfold first_lsn in
          ap (drop (wrapping_sub f.lsn (first_lsn image) + 1)) r.live
          ∙ drop-add (first_lsn image) (wrapping_sub f.lsn (first_lsn image) + 1) _ history skip,
      (fits.utf8, omega (arith, covers, small)),
      omega (arith, covers, small),
    )

enumerate_from-append :
    (n m : ℕ) (xs ys : List Bytes)
    → n + length xs ≡ m
    → enumerate_from n (xs ++ ys) ≡ enumerate_from n xs ++ enumerate_from m ys
unfolding enumerate_from
enumerate_from-append n m [] ys e = ap (λ k. enumerate_from k ys) (omega arith)
enumerate_from-append n m (x ∷ xs) ys e =
    ap (λ ps. (n, x) ∷ ps) (enumerate_from-append (suc n) m xs ys (omega arith))

replay-append :
    {S : Type 0} (app : WalApp S) (history entries : List Bytes)
    → length history + length entries < u64_mod
    → apply_all app (replay app history) (numbered (length history) entries)
      ≡ replay app (history ++ entries)
unfolding replay
replay-append app history entries h =
    ap (apply_all app (replay app history)) (numbered-enumerate (length history) entries h)
    ∙ sym (
        apply_all-append app app.init (enumerate_from 0 history)
          (enumerate_from (length history) entries))
    ∙ ap (apply_all app app.init)
        (sym (enumerate_from-append 0 (length history) history entries (omega arith)))

pub Represents-append :
    (history entries : List Bytes) (image : WalImage) (o : Option Fold)
    → Represents history image
    → FoldFits image o
    → length history + length entries < u64_mod
    → Represents
        (history ++ entries)
        (record (folded_image image o) { entries = (folded_image image o).entries ++ entries })
unfolding first_lsn
Represents-append history entries image o r fits h =
    let folded = folded_image image o in
    let (starts, live, reference, ref_fits) = folded_image-live history image o r fits in
    let size = length-append folded.entries entries in
    let live_size = ap length live ∙ length-drop (first_lsn folded) history in
    record {
      valid = record {
        reference = reference;
        fits = (
          _,
          check_lsn_fits folded.snapshot _ ref_fits omega (arith, size, live_size, starts, h),
        );
      };
      starts = omega (arith, length-append history entries, starts);
      live =
          ap (λ es. es ++ entries) live
          ∙ sym (drop-append_of_le (first_lsn folded) history entries starts);
    }

module _ {S W : Type 0} (app : WalApp S) (store : ObjectStore W) (disk : Disk W)
    (host : Host W) where
  -- An append whose attempt wins, by a handle that has replayed a history its image stands for, leaves
  -- the replay of the history with the new entries at its end, and an image that stands for that; the
  -- first new LSN is the length of the history. The pending fold covers a prefix of the live
  -- entries under a UTF-8 key, and all entries together have LSNs of 64 bits.
  pub commit-Represents :
      (history entries : List Bytes) (t t' : WalTier S) (w w' : W)
      → Represents history t.core.image
      → t.core.state ≡ replay app history
      → FoldFits t.core.image (pending_fold t.compaction)
      → length history + length entries < u64_mod
      → try_install app store disk t entries w ≡ (some (ok true), t', w')
      → let now = (commit app store disk host t' (next_lsn t.core.image) entries).core in
        Represents (history ++ entries) now.image
        × (now.state ≡ replay app (history ++ entries))
        × (next_lsn t.core.image ≡ length history)
  unfolding commit
  commit-Represents history entries t t' w w' r state fits h e =
      let won = try_install-CasWon app store disk t t' entries w w' r.valid fits e in
      let tip = next_lsn-Represents history t.core.image r in
      (
        subst (λ i. Represents (history ++ entries) (record i { entries = i.entries ++ entries }))
            (sym won.image)
            (Represents-append history entries t.core.image (pending_fold t.compaction) r fits h),
        ap (λ s. apply_all app s (numbered (next_lsn t.core.image) entries)) (won.state ∙ state)
            ∙ ap (λ n. apply_all app (replay app history) (numbered n entries)) tip
            ∙ replay-append app history entries h,
        tip,
      )
