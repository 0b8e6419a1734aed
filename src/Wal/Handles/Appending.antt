-- ===== src/Wal/Handles/Appending.antt =====
-- A CAS attempt of src/wal.rs on the log in a MemoryStore that wins, whoever else writes to it: it appends its
-- entries to the history behind the log.
use waltier.Base.{
  ◌+◌, ◌<◌, ◌^◌, ◌≡◌, refl, sym, ap, ◌∙◌, Bool, true, Option, none, some, List, ◌++◌, length,
  Result, ok, arith, inl, inr, Bool-cases, Option-cases, Result-cases, length-append, length-drop,
}
use mathlib.Core.Path.{subst}
use waltier.Base.Bytes.{Bytes}
use waltier.Base.Text.{Str}
use waltier.Error.{StoreError}
use waltier.Image.{first_lsn, next_lsn}
use waltier.Image.Lsns.{next_lsn_exact}
use waltier.Store.{CondPut, cas_matches}
use waltier.Store.Memory.{MemoryStore, memory_store, etag_of, etag_at}
use waltier.Store.Memory.Versions.{IsFresh, stored_next, stored_next-IsFresh}
use waltier.App.{WalApp}
use waltier.Cache.Files.{Disk}
use waltier.Wal.{Options, Core, wal_key, record_image_put}
use waltier.Wal.Refresh.History.{Represents}
use waltier.Wal.Compactor.{Host}
use waltier.Wal.Writer.{WalTier, InstallError, pending_fold, candidate, put_answered, try_install}
use waltier.Wal.Writer.Folds.{
  FoldFits, folded_image, with_entries, candidate-IsValid, candidate-decodes, put_answered-Advanced,
}
use waltier.Wal.Writer.Keeps.{Kept, try_install-Kept}
use waltier.Wal.Writer.Append.{commit}
use waltier.Wal.Writer.Append.Committed.{next_lsn-Represents, folded_image-live, Represents-append}
use waltier.Wal.Handles.Apart.{IsApart, record_image_put-same}
use waltier.Wal.Handles.Tracks.{IsLog, Tracks, found_next, stored_next-Tracks, matched-Represents}
use waltier.Wal.Handles.Attempts.{install-same, put_wins, put_loses}

module _ {S : Type 0} (app : WalApp S) (disk : Disk MemoryStore) (host : Host MemoryStore) where
  -- An attempt that wins, and the handle once the entries are applied.
  pub record Appends (opts : Options) (history extra : List Bytes) (w w' : MemoryStore)
      (t t' : WalTier S) : Type 0 where
    pub log : IsLog opts (history ++ extra) w'
    pub fresh : IsFresh w'
    pub first : next_lsn t.core.image ≡ length history
    pub handle :
        Tracks opts
          (history ++ extra)
          w'
          (commit app memory_store disk host t' (next_lsn t.core.image) extra).core
    pub others : (c : Core S) → Tracks opts history w c → Tracks opts (history ++ extra) w' c

  module _ (apart : IsApart disk) where
    str_or : Str → Option Str → Str
    str_or d none = d
    str_or d (some o) = o

    given_or : Str → Result StoreError CondPut → Str
    given_or d (ok (CondPut.accepted g)) = g
    given_or d _ = d

    -- Behind an accepted PUT only the disk is touched.
    world-accepted :
        (t t' : WalTier S) (body : Bytes) (given : Str) (w w' : MemoryStore)
        → put_answered app memory_store disk t body (ok (CondPut.accepted given)) w
          ≡ (some (ok true), t', w')
        → w' ≡ w
    unfolding put_answered
    world-accepted t t' body given w w' e =
        let (c, w1) = record_image_put memory_store disk t.core given body w in
        sym (ap (λ a. a.2) e)
        ∙ install-same app disk apart (record t { core = c }) w1
        ∙ record_image_put-same disk apart t.core given body w

    accepted-Appends :
        (history extra : List Bytes) (w w' : MemoryStore) (t t' : WalTier S) (body : Bytes)
        → IsFresh w
        → w.next_etag + 1 < 2 ^ 64
        → Tracks t.core.opts history w t.core
        → Represents history t.core.image
        → FoldFits t.core.image (pending_fold t.compaction)
        → candidate t extra ≡ ok body
        → t'.core.opts ≡ t.core.opts
        → put_answered app memory_store disk t body
            (ok (CondPut.accepted (etag_of w.next_etag)))
            (stored_next (wal_key t.core.opts) body w)
          ≡ (some (ok true), t', w')
        → Appends t.core.opts history extra w w' t t'
    unfolding given_or str_or commit
    accepted-Appends history extra w w' t t' body fresh room tracks r fits encoded same_opts e =
        let opts = t.core.opts in
        let o = pending_fold t.compaction in
        let folded = folded_image t.core.image o in
        let w1 = stored_next (wal_key opts) body w in
        let valid = candidate-IsValid t o extra body r.valid fits refl encoded in
        let (exact, small, _) = next_lsn_exact (with_entries folded extra) valid in
        let (starts, live, _, _) = folded_image-live history t.core.image o r fits in
        let size = length-append folded.entries extra in
        let count = ap length live ∙ length-drop (first_lsn folded) history in
        let start : first_lsn (with_entries folded extra) ≡ first_lsn folded =
          unfold first_lsn in refl in
        let room' : length history + length extra < 2 ^ 64 =
          omega (arith, exact, small, size, count, start, starts) in
        let new = Represents-append history extra t.core.image o r fits room' in
        let (given, is, (image, etag, state)) =
          put_answered-Advanced app memory_store disk t t' body
            (ok (CondPut.accepted (etag_of w.next_etag))) w1 w' e in
        let here : etag_of w.next_etag ≡ given = ap (given_or given) is in
        let after = sym (world-accepted t t' body (etag_of w.next_etag) w1 w' e) in
        subst (λ v. Appends opts history extra w v t t') after
          (record {
            log = record {
              object = record { body = body; etag = etag_of w.next_etag };
              found = found_next (wal_key opts) body w;
              image = with_entries folded extra;
              decodes = candidate-decodes t o extra body r.valid fits refl encoded;
              represents = new;
            };
            fresh = stored_next-IsFresh (wal_key opts) body w room fresh;
            first = next_lsn-Represents history t.core.image r;
            handle = record {
              options = same_opts;
              issued = λ x h.
                  (w.next_etag, omega (arith, room), ap (str_or x) (sym h ∙ etag) ∙ sym here);
              current = λ s found h.
                  subst (λ i. Represents (history ++ extra) (with_entries i extra)) (sym image) new;
            };
            others =
                λ c known. stored_next-Tracks opts history (history ++ extra) body w c room known;
          })

    put-Appends :
        (history extra : List Bytes) (w w' : MemoryStore) (t t' : WalTier S) (body : Bytes)
        (held : Str)
        → IsFresh w
        → w.next_etag + 1 < 2 ^ 64
        → Tracks t.core.opts history w t.core
        → FoldFits t.core.image (pending_fold t.compaction)
        → candidate t extra ≡ ok body
        → t.core.etag ≡ some held
        → t'.core.opts ≡ t.core.opts
        → put_answered app memory_store disk t body
            (memory_store.put_if_match (wal_key t.core.opts) (some held) body w).0
            (memory_store.put_if_match (wal_key t.core.opts) (some held) body w).1
          ≡ (some (ok true), t', w')
        → Appends t.core.opts history extra w w' t t'
    put-Appends history extra w w' t t' body held fresh room tracks fits encoded is same_opts e =
        let key = wal_key t.core.opts in
        let answered = λ (p : Result StoreError CondPut × MemoryStore).
          put_answered app memory_store disk t body p.0 p.1 in
        elim (Bool-cases (cas_matches (etag_at key w) (some held))) [
          | inr loses ↦
              let (given, never, _) =
                put_answered-Advanced app memory_store disk t t' body
                  (ok CondPut.precondition_failed) w w'
                  (sym (ap answered (put_loses key (some held) body w loses)) ∙ e) in
              cc
          | inl wins ↦
              accepted-Appends history extra w w' t t' body fresh room tracks
                (matched-Represents t.core.opts history w t.core held tracks is wins) fits encoded
                same_opts (sym (ap answered (put_wins key (some held) body w wins)) ∙ e)
        ]

    -- An attempt that reports success, by a handle that follows the log among others, has appended its entries to the
    -- history that the object in the store stands for; the first of them has the length of the history as its LSN. The
    -- handle follows the new history once it has applied them, and so does, with its old version, everyone else
    -- who followed the old one. The pending fold covers a prefix of the live entries under a UTF-8 key, the
    -- counter of validators does not wrap around, and the files of the cache are not in the store.
    pub try_install-Appends :
        (opts : Options) (history extra : List Bytes) (w w' : MemoryStore) (t t' : WalTier S)
        → IsLog opts history w
        → IsFresh w
        → w.next_etag + 1 < 2 ^ 64
        → Tracks opts history w t.core
        → FoldFits t.core.image (pending_fold t.compaction)
        → try_install app memory_store disk t extra w ≡ (some (ok true), t', w')
        → Appends opts history extra w w' t t'
    unfolding try_install
    try_install-Appends opts history extra w w' t t' log fresh room tracks fits e =
        elim (Result-cases (candidate t extra)) [
          | inr (x, bad) ↦
              let no : ◌≡◌ {A = Option (Result InstallError Bool)} _ (some (ok true)) =
                ap (λ r. r.0) (rw (bad, try_install) at e) in
              cc
          | inl (body, encoded) ↦ elim (Option-cases t.core.etag) [
            | inl absent ↦
                let no : ◌≡◌ {A = Option (Result InstallError Bool)} none (some (ok true)) =
                  ap (λ r. r.0) (rw (encoded, absent, try_install) at e) in
                cc
            | inr (held, is) ↦
                subst
                  (λ o.
                    IsLog o history w
                    → Tracks o history w t.core
                    → Appends o history extra w w' t t')
                  tracks.options
                  (λ l known.
                    put-Appends history extra w w' t t' body held fresh room known fits encoded is
                      (subst (Kept app memory_store disk t.core) e
                        (try_install-Kept app memory_store disk t extra w)).opts
                      (rw (encoded, is, try_install) at e))
                  log tracks
          ]
        ]
