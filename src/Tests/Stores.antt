-- ===== src/Tests/Stores.antt =====
-- Stores of src/store.rs and the default reconciliation of src/lib.rs: runs and the theorems at them.
use waltier.Base.{◌≡◌, refl, Bool, true, none, [], ◌∷◌, ◌==◌, ok, arith, if◌then◌else◌}
use waltier.Base.Bytes.{Bytes}
use waltier.Base.Assoc.{lookup}
use waltier.Store.{accepted, precondition_failed, cas_matches}
use waltier.Store.Memory.{MemoryStore, new, etag_of, put, put_if_match, delete}
use waltier.Store.Memory.Versions.{IsFresh, operations-IsFresh, put_if_match_fenced}
use waltier.App.{Reconcile}
use waltier.App.Reconciling.{reconcile_batch, batch_decision, reconcile_batch-decision}

abbrev blank : MemoryStore
blank = new none

blank-IsFresh : IsFresh blank
unfolding IsFresh new lookup
blank-IsFresh = λ k o e. cc

abbrev key : Bytes
key = b'w' ∷ []

operations-IsFresh_example :
    IsFresh (put key (1 ∷ []) blank).1
    × IsFresh (put_if_match key none (1 ∷ []) blank).1
    × IsFresh (delete key blank).1
unfolding new
operations-IsFresh_example = operations-IsFresh key none (1 ∷ []) blank (omega arith) blank-IsFresh

abbrev created : MemoryStore
created = (put_if_match key none (1 ∷ []) blank).1

created_run : put_if_match key none (1 ∷ []) blank ≡ (ok (accepted (etag_of 0)), created)
unfolding put_if_match new lookup cas_matches
created_run = refl

put_if_match_fenced_example :
    put_if_match key none (2 ∷ []) created ≡ (ok precondition_failed, created)
put_if_match_fenced_example =
    put_if_match_fenced key none (1 ∷ []) (2 ∷ []) blank created (etag_of 0) blank-IsFresh
      created_run

abbrev keep_or_tag : Bool → Bytes → Reconcile
keep_or_tag state [] = Reconcile.abort
keep_or_tag state (b ∷ bs) = if b == 7 then Reconcile.replace (b ∷ b ∷ bs) else Reconcile.retry

reconcile_batch-decision_example :
    reconcile_batch keep_or_tag true ((7 ∷ []) ∷ (1 ∷ []) ∷ [])
    ≡ batch_decision keep_or_tag true ((7 ∷ []) ∷ (1 ∷ []) ∷ [])
reconcile_batch-decision_example =
    reconcile_batch-decision keep_or_tag true ((7 ∷ []) ∷ (1 ∷ []) ∷ [])
