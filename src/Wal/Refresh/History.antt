-- ===== src/Wal/Refresh/History.antt =====
-- What a refresh in src/wal.rs achieves: the state is the replay of the whole history that the WAL
-- object stands for, whether it was caught up or rebuilt from the snapshot.
use waltier.Base.{
  ℕ, zero, suc, ◌+◌, ◌-◌, ◌≤◌, ◌≡◌, refl, sym, ap, ◌∙◌, true, Option, none, some, List, [], ◌∷◌,
  ◌++◌, length, take, drop, leb, Result, ok, err, inl, inr, arith, Bool-cases, Option-cases,
  Result-cases, drop-add,
}
use waltier.Base.Words.{wrapping_add}
use waltier.Base.Bytes.{Bytes}
use waltier.Base.Text.{Str}
use waltier.Error.{WalError}
use waltier.Image.{Lsn, SnapshotRef, WalImage, IsValid, first_of, first_lsn, next_lsn, entries_from}
use waltier.Image.Lsns.{enumerate_from, at_least-drop, entries_from-at_least}
use waltier.Store.{Stored, ObjectStore}
use waltier.App.{WalApp}
use waltier.Cache.Files.{Disk}
use waltier.Wal.{
  Core, Missing, Step, done, again, Refreshed, fetch_snapshot, record_image_put, retry_missing,
  record_missing_snapshot, apply_all,
}
use waltier.Wal.Refresh.{adopt, rebuild, advance}

-- The state after a history, from the empty state, one entry at a time.
unfoldable pub replay : {S : Type 0} → WalApp S → List Bytes → S
unfolding apply_all enumerate_from
replay app history = apply_all app app.init (enumerate_from 0 history)

-- An image stands for a history: its live entries are the end of the history, from its first LSN on.
pub record Represents (history : List Bytes) (image : WalImage) : Type 0 where
  pub valid : IsValid image
  pub starts : first_lsn image ≤ length history
  pub live : image.entries ≡ drop (first_lsn image) history

drop-enumerate :
    (n k m : ℕ) (h : List Bytes)
    → n + k ≡ m
    → drop k (enumerate_from n h) ≡ enumerate_from m (drop k h)
unfolding enumerate_from
drop-enumerate n zero m h e = ap (λ j. enumerate_from j h) (omega arith)
drop-enumerate n (suc k) m [] e = refl
drop-enumerate n (suc k) m (x ∷ h) e = drop-enumerate (suc n) k m h (omega arith)

enumerate-split :
    (n k : ℕ) (h : List Bytes)
    → enumerate_from n (take k h) ++ drop k (enumerate_from n h) ≡ enumerate_from n h
unfolding enumerate_from
enumerate-split n zero h = refl
enumerate-split n (suc k) [] = refl
enumerate-split n (suc k) (x ∷ h) = ap (λ t. (n, x) ∷ t) (enumerate-split (suc n) k h)

pub apply_all-append :
    {S : Type 0} (app : WalApp S) (state : S) (ps qs : List (Lsn × Bytes))
    → apply_all app state (ps ++ qs) ≡ apply_all app (apply_all app state ps) qs
unfolding apply_all
apply_all-append app state [] qs = refl
apply_all-append app state ((l, e) ∷ ps) qs = apply_all-append app (app.apply state l e) ps qs

-- The entries from `n` on are what a replay of the first `n` entries lacks.
pub apply_rest :
    {S : Type 0} (app : WalApp S) (history : List Bytes) (image : WalImage) (n : ℕ)
    → Represents history image
    → first_lsn image ≤ n
    → apply_all app (replay app (take n history)) (entries_from image n) ≡ replay app history
unfolding replay
apply_rest app history image n r le =
    let first = first_lsn image in
    let lacking : entries_from image n ≡ drop n (enumerate_from 0 history) =
      entries_from-at_least image n r.valid
      ∙ at_least-drop n first (n - first) image.entries refl
      ∙ ap (λ es. drop (n - first) (enumerate_from first es)) r.live
      ∙ ap (drop (n - first)) (sym (drop-enumerate 0 first first history (omega arith)))
      ∙ drop-add first (n - first) n (enumerate_from 0 history) (omega arith) in
    ap (apply_all app (apply_all app app.init (enumerate_from 0 (take n history)))) lacking
    ∙ sym (
        apply_all-append app app.init (enumerate_from 0 (take n history))
          (drop n (enumerate_from 0 history)))
    ∙ ap (apply_all app app.init) (enumerate-split 0 n history)

-- Beside the state, what a refresh leaves in the core.
pub record Synced {S : Type 0} (app : WalApp S) (history : List Bytes) (remote : WalImage)
    (stored : Stored) (c : Core S) : Type 0 where
  pub state : c.state ≡ replay app history
  pub image : c.image ≡ remote
  pub etag : c.etag ≡ some stored.etag
  pub size : c.image_len ≡ length stored.body

abbrev outcome_or : {A : Type 0} → A → Step A → A
outcome_or d (done (ok a)) = a
outcome_or d _ = d

module _ {S W : Type 0} (app : WalApp S) (store : ObjectStore W) (disk : Disk W) where
  -- What the core must know of a history for a refresh to catch up with it.
  pub record Follows (history : List Bytes) (c : Core S) : Type 0 where
    pub state : c.state ≡ replay app (take (next_lsn c.image) history)

  -- A fetched snapshot restores to the replay of the entries that it folds.
  abbrev pub Restores : List Bytes → Core S → WalImage → W → Type 0
  Restores history c remote w =
      (sr : SnapshotRef) (bytes : Bytes) (base : S) (w' : W)
      → remote.snapshot ≡ some sr
      → fetch_snapshot store disk c.cache sr.key c.opts.max_snapshot_bytes w ≡ (ok (some bytes), w')
      → app.restore bytes ≡ ok base
      → base ≡ replay app (take (first_lsn remote) history)

  adopt-Synced :
      (history : List Bytes) (c c' : Core S) (remote : WalImage) (stored : Stored) (state : S)
      (w w' : W) (report : Refreshed)
      → state ≡ replay app history
      → adopt app store disk c remote stored state w ≡ (done (ok (report, c')), w')
      → Synced app history remote stored c' × (report.changed ≡ true)
  unfolding adopt record_image_put
  adopt-Synced history c c' remote stored state w w' report e q =
      let got = ap (λ t. outcome_or (report, c') t.0) q in
      let core = ap (λ t. t.1) got in
      (
        record {
          state = ap (λ (k : Core S). k.state) (sym core) ∙ e;
          image = ap (λ (k : Core S). k.image) (sym core);
          etag = ap (λ (k : Core S). k.etag) (sym core);
          size = ap (λ (k : Core S). k.image_len) (sym core);
        },
        ap (λ (k : Refreshed). k.changed) (sym (ap (λ t. t.0) got)),
      )

  not_done : {A : Type 0} (e : WalError) (a : A) → ◌≡◌ {A = Step A} (done (err e)) (done (ok a)) → ⊥
  not_done e a h = cc

  retry_not_done :
      {A : Type 0} (missing : Missing) (etag key : Str) (a : A)
      → ◌≡◌ {A = Step A} (retry_missing missing etag key) (done (ok a))
      → ⊥
  unfolding retry_missing
  retry_not_done missing etag key a h =
      elim (Result-cases (record_missing_snapshot missing etag key)) [
        | inl (m, e) ↦ let bad : again m ≡ done (ok a) = rw (e, retry_missing) at h in cc
        | inr (x, e) ↦ let bad : done (err x) ≡ done (ok a) = rw (e, retry_missing) at h in cc
      ]

  rebuild-Synced :
      (history : List Bytes) (c c' : Core S) (remote : WalImage) (stored : Stored)
      (sr : SnapshotRef) (missing : Missing) (fetched : Result WalError (Option Bytes))
      (w0 w w' : W) (report : Refreshed)
      → Represents history remote
      → remote.snapshot ≡ some sr
      → fetch_snapshot store disk c.cache sr.key c.opts.max_snapshot_bytes w0 ≡ (fetched, w)
      → Restores history c remote w0
      → rebuild app store disk c remote stored sr missing fetched w ≡ (done (ok (report, c')), w')
      → Synced app history remote stored c' × (report.changed ≡ true)
  unfolding rebuild
  rebuild-Synced history c c' remote stored sr missing (err e) w0 w w' report r is f restores q =
      absurd (not_done e (report, c') (ap (λ t. t.0) q))
  rebuild-Synced history c c' remote stored sr missing (ok none) w0 w w' report r is f restores q =
      absurd (retry_not_done missing stored.etag sr.key (report, c') (ap (λ t. t.0) q))
  rebuild-Synced history c c' remote stored sr missing (ok (some bytes)) w0 w w' report r is f
        restores q =
      elim (Result-cases (app.restore bytes)) [
        | inr (e, failed) ↦
            absurd (not_done e (report, c') (ap (λ t. t.0) (rw (failed, rebuild) at q)))
        | inl (base, restored) ↦
            let from : first_lsn remote ≡ wrapping_add sr.lsn 1 =
              unfold first_lsn in ap first_of is in
            let replayed =
              ap (λ s. apply_all app s (entries_from remote (wrapping_add sr.lsn 1)))
                (restores sr bytes base w is f restored)
              ∙ ap
                  (λ n.
                    apply_all app (replay app (take (first_lsn remote) history))
                      (entries_from remote n))
                  (sym from)
              ∙ apply_rest app history remote (first_lsn remote) r (omega arith) in
            adopt-Synced history c c' remote stored _ w w' report replayed
              (rw (restored, rebuild) at q)
      ]

  -- Taking in a version of the log that stands for `history`, by a core that follows it, leaves the
  -- replay of the whole history as state, and that version as image and validator, whichever of the
  -- two ways is taken, provided that the snapshot it may fetch restores what it folds.
  pub advance-Synced :
      (history : List Bytes) (c c' : Core S) (remote : WalImage) (stored : Stored)
      (missing : Missing) (w w' : W) (report : Refreshed)
      → Represents history remote
      → Follows history c
      → Restores history c remote w
      → advance app store disk c remote stored missing w ≡ (done (ok (report, c')), w')
      → Synced app history remote stored c' × (report.changed ≡ true)
  unfolding advance
  advance-Synced history c c' remote stored missing w w' report r follows restores q =
      elim (Bool-cases (leb (first_lsn remote) (next_lsn c.image))) [
        | inl live ↦
            let caught =
              ap (λ s. apply_all app s (entries_from remote (next_lsn c.image))) follows.state
              ∙ apply_rest app history remote (next_lsn c.image) r (ground (arith, live)) in
            adopt-Synced history c c' remote stored _ w w' report caught (rw live at q)
        | inr folded ↦ elim (Option-cases remote.snapshot) [
          | inl absent ↦ absurd (not_done _ (report, c') (ap (λ t. t.0) (rw (folded, absent) at q)))
          | inr (sr, is) ↦
              rebuild-Synced history c c' remote stored sr missing
                (fetch_snapshot store disk c.cache sr.key c.opts.max_snapshot_bytes w).0 w
                (fetch_snapshot store disk c.cache sr.key c.opts.max_snapshot_bytes w).1 w' report r
                is refl restores (rw (folded, is) at q)
        ]
      ]
