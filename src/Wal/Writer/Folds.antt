-- ===== src/Wal/Writer/Folds.antt =====
-- One CAS attempt of src/wal.rs: what the store then holds is what the handle believes, with and
-- without a pending fold.
use waltier.Base.{
  ◌+◌, ◌≤◌, ◌<◌, ◌≡◌, refl, sym, ap, ◌∙◌, Bool, true, false, Option, none, some, List, ◌++◌, drop,
  length, Result, ok, err, inl, inr, arith, Bool-cases, Option-cases, Result-cases,
}
use mathlib.Core.Bool.{false≢true}
use mathlib.Core.Path.{subst}
use waltier.Base.Words.{u64_mod, wrapping_add, wrapping_sub}
use waltier.Base.Bytes.{Bytes}
use waltier.Base.Text.{Str, str_eq, is_utf8}
use waltier.Error.{StoreError}
use waltier.Image.{Lsn, check_lsn, SnapshotRef, WalImage, IsValid, first_lsn, next_lsn}
use waltier.Image.Decode.{decode}
use waltier.Image.RoundTrip.{decode-encode_view, encode_view-Encoded}
use waltier.Image.Lsns.{next_lsn_exact}
use waltier.Store.{CondPut, ObjectStore}
use waltier.App.{WalApp}
use waltier.Cache.Files.{Disk}
use waltier.Wal.{Fold, applies_to, limits, wal_key, record_image_put}
use waltier.Wal.Refresh.{refresh}
use waltier.Wal.Writer.{
  WalTier, InstallError, pending_fold, queue_obsolete, install_fold, install_pending_fold, retire,
  candidate, lost_install, put_answered, try_install,
}

-- A fold that can be installed: it covers a prefix of the live entries and its key is a string.
pub record IsInstallable (image : WalImage) (f : Fold) : Type 0 where
  pub applies : applies_to f image ≡ true
  pub utf8 : is_utf8 f.key ≡ true

abbrev pub FoldFits : WalImage → Option Fold → Type 0
FoldFits image none = Unit
FoldFits image (some f) = IsInstallable image f

-- The image of the handle once its pending fold, if any, is installed.
abbrev pub folded_image : WalImage → Option Fold → WalImage
folded_image image none = image
folded_image image (some f) = record {
  snapshot = some (record { key = f.key; lsn = f.lsn });
  entries = drop (wrapping_sub f.lsn (first_lsn image) + 1) image.entries;
}

abbrev pub with_entries : WalImage → List Bytes → WalImage
with_entries image extra = record image { entries = image.entries ++ extra }

-- The entries that the fold replaces, as the encoder counts them.
fold_skip :
    (image : WalImage) (f : Fold)
    → IsValid image
    → applies_to f image ≡ true
    → (wrapping_sub (wrapping_add f.lsn 1) (first_lsn image)
        ≡ wrapping_sub f.lsn (first_lsn image) + 1)
      × (f.lsn + 1 < u64_mod)
fold_skip image f valid applies =
    let (exact, small, _) = next_lsn_exact image valid in
    let covers : (first_lsn image ≤ f.lsn) × (f.lsn < next_lsn image) =
      unfold applies_to in ground (arith, applies) in
    (omega (arith, covers, exact, small), omega (arith, covers, small))

module _ {S : Type 0} where
  pub candidate-decodes :
      (t : WalTier S) (o : Option Fold) (extra : List Bytes) (body : Bytes)
      → IsValid t.core.image
      → FoldFits t.core.image o
      → pending_fold t.compaction ≡ o
      → candidate t extra ≡ ok body
      → decode body (limits t.core.opts) ≡ ok (with_entries (folded_image t.core.image o) extra)
  unfolding candidate
  candidate-decodes t none extra body valid fits is e =
      decode-encode_view t.core.image none 0 extra (limits t.core.opts) body valid.reference
        (rw (is, candidate) at e)
  candidate-decodes t (some f) extra body valid fits is e =
      let (skip, small) = fold_skip t.core.image f valid fits.applies in
      decode-encode_view t.core.image (some (record { key = f.key; lsn = f.lsn })) _ extra
        (limits t.core.opts) body (fits.utf8, omega (arith, small)) (rw (is, candidate) at e)
      ∙ ap
          (λ k. ok (record {
            snapshot = some (record { key = f.key; lsn = f.lsn });
            entries = drop k t.core.image.entries ++ extra;
          }))
          skip

  -- The image of the next PUT has LSNs of 64 bits.
  pub candidate-IsValid :
      (t : WalTier S) (o : Option Fold) (extra : List Bytes) (body : Bytes)
      → IsValid t.core.image
      → FoldFits t.core.image o
      → pending_fold t.compaction ≡ o
      → candidate t extra ≡ ok body
      → IsValid (with_entries (folded_image t.core.image o) extra)
  unfolding candidate
  candidate-IsValid t none extra body valid fits is e =
      let encoded =
        encode_view-Encoded t.core.image none 0 extra (limits t.core.opts) body
          (rw (is, candidate) at e) in
      record { reference = valid.reference; fits = encoded.1.lsns }
  candidate-IsValid t (some f) extra body valid fits is e =
      let (skip, small) = fold_skip t.core.image f valid fits.applies in
      let encoded =
        encode_view-Encoded t.core.image (some (record { key = f.key; lsn = f.lsn }))
          (wrapping_sub (wrapping_add f.lsn 1) (first_lsn t.core.image)) extra (limits t.core.opts)
          body (rw (is, candidate) at e) in
      record {
        reference = (fits.utf8, omega (arith, small));
        fits =
            subst
              (λ k.
                (next : Lsn) × (check_lsn (some (record { key = f.key; lsn = f.lsn }))
                    (length (drop k t.core.image.entries ++ extra))
                  ≡ some next))
              skip encoded.1.lsns;
      }

pub core-queue_obsolete :
    {S : Type 0} (t : WalTier S) (key : Str) → (queue_obsolete t key).core ≡ t.core
unfolding queue_obsolete
core-queue_obsolete t key = ground arith

module _ {S W : Type 0} (app : WalApp S) (store : ObjectStore W) (disk : Disk W) where
  core-retire :
      (t : WalTier S) (o : Option SnapshotRef) (key : Str) (w : W)
      → (retire app store disk t o key w).0.core ≡ t.core
  unfolding retire
  core-retire t none key w = refl
  core-retire t (some old) key w = elim (Bool-cases (str_eq old.key key)) [
    | inl same ↦ rw same refl
    | inr other ↦ rw other (core-queue_obsolete t old.key)
  ]

  -- Installing the pending fold changes the image alone in the core.
  pub core-install_pending_fold :
      (t : WalTier S) (w : W)
      → (install_pending_fold app store disk t w).0.core
        ≡ record (t.core) { image = folded_image t.core.image (pending_fold t.compaction) }
  unfolding install_pending_fold
  core-install_pending_fold t w = elim (Option-cases (pending_fold t.compaction)) [
    | inl absent ↦ rw (absent, install_pending_fold) refl
    | inr (f, is) ↦
        rw (is, install_pending_fold)
          (unfold install_fold in core-retire _ t.core.image.snapshot f.key w)
  ]

  -- A CAS that was won: the bytes that the store accepted in exchange for the validator that the handle
  -- held, under which validator, and what the handle holds now.
  pub record CasWon (t t' : WalTier S) (extra : List Bytes) (w : W) : Type 0 where
    pub held : Str
    pub body : Bytes
    pub given : Str
    pub after : W
    pub held_etag : t.core.etag ≡ some held
    pub put :
        store.put_if_match (wal_key t.core.opts) (some held) body w
        ≡ (ok (CondPut.accepted given), after)
    pub decodes : decode body (limits t.core.opts) ≡ ok (with_entries t'.core.image extra)
    pub image : t'.core.image ≡ folded_image t.core.image (pending_fold t.compaction)
    pub etag : t'.core.etag ≡ some given
    pub state : t'.core.state ≡ t.core.state

  won : Option (Result InstallError Bool) → Bool
  won (some (ok b)) = b
  won _ = false

  lost_install-not_won : (t : WalTier S) (w : W) → won (lost_install app store disk t w).0 ≡ false
  unfolding won lost_install
  lost_install-not_won t w = elim (Result-cases (refresh app store disk t.core w).0) [
    | inl (a, e) ↦ rw (e, lost_install)
    | inr (x, e) ↦ rw (e, lost_install)
  ]

  abbrev pub Advanced : WalTier S → Str → WalTier S → Type 0
  Advanced t given t' =
      (t'.core.image ≡ folded_image t.core.image (pending_fold t.compaction))
      × (t'.core.etag ≡ some given)
      × (t'.core.state ≡ t.core.state)

  pub put_answered-Advanced :
      (t t' : WalTier S) (body : Bytes) (put : Result StoreError CondPut) (w w' : W)
      → put_answered app store disk t body put w ≡ (some (ok true), t', w')
      → (given : Str) × (put ≡ ok (CondPut.accepted given)) × Advanced t given t'
  unfolding put_answered record_image_put won
  put_answered-Advanced t t' body (err x) w w' e = absurd (false≢true (ap (λ r. won r.0) e))
  put_answered-Advanced t t' body (ok (CondPut.accepted given)) w w' e =
      let (c, w1) = record_image_put store disk t.core given body w in
      let now = core-install_pending_fold (record t { core = c }) w1 in
      let core_eq = sym (ap (λ r. r.1.core) e) ∙ now in
      (
        given,
        refl,
        (ap (λ c. c.image) core_eq, ap (λ c. c.etag) core_eq, ap (λ c. c.state) core_eq),
      )
  put_answered-Advanced t t' body (ok CondPut.precondition_failed) w w' e =
      absurd (false≢true (sym (lost_install-not_won t w) ∙ ap (λ r. won r.0) e))

  -- An attempt that reports success has made an accepted PUT, conditional on the validator
  -- that the handle held, and its bytes decode to the handle's new image followed by the new entries;
  -- the pending fold is applied, and the state is still that before the entries. This holds for any
  -- store and disk, if the image is valid and the pending fold covers a prefix of its live entries
  -- and has a UTF-8 key.
  pub try_install-CasWon :
      (t t' : WalTier S) (extra : List Bytes) (w w' : W)
      → IsValid t.core.image
      → FoldFits t.core.image (pending_fold t.compaction)
      → try_install app store disk t extra w ≡ (some (ok true), t', w')
      → CasWon t t' extra w
  unfolding try_install won
  try_install-CasWon t t' extra w w' valid fits e = elim (Result-cases (candidate t extra)) [
    | inr (x, bad) ↦ absurd (false≢true (ap (λ r. won r.0) (rw (bad, try_install) at e)))
    | inl (body, encoded) ↦ elim (Option-cases t.core.etag) [
      | inl absent ↦
          absurd (false≢true (ap (λ r. won r.0) (rw (encoded, absent, try_install) at e)))
      | inr (held, is) ↦
          let (given, accepted, (image, etag, state)) =
            put_answered-Advanced t t' body
              (store.put_if_match (wal_key t.core.opts) (some held) body w).0
              (store.put_if_match (wal_key t.core.opts) (some held) body w).1 w'
              (rw (encoded, is, try_install) at e) in
          record {
            held = held;
            body = body;
            given = given;
            after = (store.put_if_match (wal_key t.core.opts) (some held) body w).1;
            held_etag = is;
            put =
                ap (λ r. (r, (store.put_if_match (wal_key t.core.opts) (some held) body w).1))
                  accepted;
            decodes =
                candidate-decodes t (pending_fold t.compaction) extra body valid fits refl encoded
                ∙ ap (λ i. ok (with_entries i extra)) (sym image);
            image = image;
            etag = etag;
            state = state;
          }
    ]
  ]
