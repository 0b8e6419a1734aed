-- ===== src/App/Reconciling.antt =====
-- The default `reconcile_batch` of src/lib.rs against its description: an abort of any entry aborts
-- the batch; otherwise all rewrites stick.
use waltier.Base.{
  ℕ, zero, suc, ◌+◌, ◌≡◌, refl, sym, ap, ◌∙◌, Bool, true, false, ◌||◌, Option, none, some, List, [],
  ◌∷◌, ◌++◌, length, if◌then◌else◌, map, arith, inl, inr, append_assoc, length-append, ◌⊎◌,
}
use waltier.Base.Bytes.{Bytes}
use waltier.App.{Reconcile, ReconcileBatch}

abbrev set_elem : List Bytes → ℕ → Bytes → List Bytes
set_elem [] i v = []
set_elem (x ∷ xs) zero v = v ∷ xs
set_elem (x ∷ xs) (suc i) v = x ∷ set_elem xs i v

-- `replacement.get_or_insert_with(|| pending.to_vec())`
abbrev get_or_insert : Option (List Bytes) → List Bytes → List Bytes
get_or_insert none pending = pending
get_or_insert (some l) pending = l

set_elem_middle :
    (done : List Bytes) (x : Bytes) (rest : List Bytes) (i : ℕ) (v : Bytes)
    → i ≡ length done
    → set_elem (done ++ x ∷ rest) i v ≡ (done ++ v ∷ []) ++ rest
set_elem_middle [] x rest zero v e = refl
set_elem_middle [] x rest (suc i) v e = absurd (omega arith)
set_elem_middle (y ∷ done) x rest zero v e = absurd (omega arith)
set_elem_middle (y ∷ done) x rest (suc i) v e =
    ap (λ t. y ∷ t) (set_elem_middle done x rest i v (omega arith))

Reconcile-cases :
    (d : Reconcile)
    → (d ≡ Reconcile.retry) ⊎ ((d ≡ Reconcile.abort) ⊎ ((b : Bytes) × (d ≡ Reconcile.replace b)))
Reconcile-cases Reconcile.retry = inl refl
Reconcile-cases Reconcile.abort = inr (inl refl)
Reconcile-cases (Reconcile.replace b) = inr (inr (b, refl))

module _ {S : Type 0} (reconcile : S → Bytes → Reconcile) (state : S) where
  -- The loop over `pending.iter().enumerate()`, and the match behind it.
  reconcile_loop : List Bytes → ℕ → List Bytes → Option (List Bytes) → ReconcileBatch
  reconcile_loop pending index [] none = ReconcileBatch.retry
  reconcile_loop pending index [] (some entries) = ReconcileBatch.replace entries
  reconcile_loop pending index (entry ∷ rest) replacement = elim (reconcile state entry) [
    | Reconcile.retry ↦ reconcile_loop pending (index + 1) rest replacement
    | Reconcile.replace bytes ↦
        reconcile_loop pending (index + 1) rest
          (some (set_elem (get_or_insert replacement pending) index bytes))
    | Reconcile.abort ↦ ReconcileBatch.abort
  ]

  unfoldable pub reconcile_batch : List Bytes → ReconcileBatch
  unfolding reconcile_loop
  reconcile_batch pending = reconcile_loop pending 0 pending none

  reconcile_loop-retry :
      (pending : List Bytes) (index : ℕ) (rest : List Bytes)
      → ((entry : Bytes) → reconcile state entry ≡ Reconcile.retry)
      → reconcile_loop pending index rest none ≡ ReconcileBatch.retry
  unfolding reconcile_loop
  reconcile_loop-retry pending index [] h = refl
  reconcile_loop-retry pending index (entry ∷ rest) h =
      rw (h entry, reconcile_loop) (reconcile_loop-retry pending (index + 1) rest h)

  pub reconcile_batch-retry :
      (pending : List Bytes)
      → ((entry : Bytes) → reconcile state entry ≡ Reconcile.retry)
      → reconcile_batch pending ≡ ReconcileBatch.retry
  unfolding reconcile_batch
  reconcile_batch-retry pending h = reconcile_loop-retry pending 0 pending h

  -- The description: what becomes of one entry, and whether any entry is rewritten or aborted.
  pub rewritten : Bytes → Bytes
  rewritten entry = elim (reconcile state entry) [ Reconcile.replace bytes ↦ bytes | _ ↦ entry ]

  is_replaced : Bytes → Bool
  is_replaced entry = elim (reconcile state entry) [ Reconcile.replace bytes ↦ true | _ ↦ false ]

  is_aborted : Bytes → Bool
  is_aborted entry = elim (reconcile state entry) [ Reconcile.abort ↦ true | _ ↦ false ]

  any : (Bytes → Bool) → List Bytes → Bool
  any p [] = false
  any p (x ∷ xs) = p x || any p xs

  unfoldable pub batch_decision : List Bytes → ReconcileBatch
  unfolding any is_aborted is_replaced rewritten
  batch_decision pending =
      if any is_aborted pending
      then ReconcileBatch.abort
      else if any is_replaced pending
      then ReconcileBatch.replace (map rewritten pending)
      else ReconcileBatch.retry

  map_unchanged :
      (rest : List Bytes)
      → any is_replaced rest ≡ false
      → any is_aborted rest ≡ false
      → map rewritten rest ≡ rest
  unfolding any is_replaced is_aborted rewritten
  map_unchanged [] h g = refl
  map_unchanged (x ∷ rest) h g = ground (arith, map_unchanged rest)

  loop-decision :
      (done rest : List Bytes) (pending : List Bytes) (replacement : Option (List Bytes))
      (index : ℕ)
      → index ≡ length done
      → get_or_insert replacement pending ≡ done ++ rest
      → reconcile_loop pending index rest replacement ≡ (
          if any is_aborted rest
          then ReconcileBatch.abort
          else if any is_replaced rest
          then ReconcileBatch.replace (done ++ map rewritten rest)
          else (elim replacement [
            | none ↦ ReconcileBatch.retry
            | some l ↦ ReconcileBatch.replace l
          ]))
  unfolding reconcile_loop any is_aborted is_replaced rewritten
  loop-decision done [] pending none index i e = refl
  loop-decision done [] pending (some l) index i e = ap ReconcileBatch.replace refl
  loop-decision done (entry ∷ rest) pending replacement index i e =
      elim (Reconcile-cases (reconcile state entry)) [
        | inl kept ↦ ground (
          arith,
          append_assoc done (entry ∷ []) (map rewritten rest),
          loop-decision (done ++ entry ∷ []) rest pending replacement (index + 1) (counted entry)
              (e ∙ sym (append_assoc done (entry ∷ []) rest)),
        )
        | inr (inl aborted) ↦ ground arith
        | inr (inr (bytes, replaced)) ↦ ground (
          arith,
          append_assoc done (bytes ∷ []) (map rewritten rest),
          map_unchanged rest,
          loop-decision (done ++ bytes ∷ []) rest pending
              (some (set_elem (get_or_insert replacement pending) index bytes)) (index + 1)
              (counted bytes)
              (ap (λ l. set_elem l index bytes) e ∙ set_elem_middle done entry rest index bytes i),
          ap (λ l. set_elem l index bytes) e ∙ set_elem_middle done entry rest index bytes i,
        )
      ]
    where
      counted : (x : Bytes) → index + 1 ≡ length (done ++ x ∷ [])
      counted x = omega (arith, i, length-append done (x ∷ []))

  -- The default `reconcile_batch`, with its batch that is copied at the first replacement and its writes by
  -- index, decides as the specification does: it aborts if the decision on any entry is to abort,
  -- else it replaces the batch by the entries with their replacements if there is any, else it retries.
  pub reconcile_batch-decision :
      (pending : List Bytes) → reconcile_batch pending ≡ batch_decision pending
  unfolding reconcile_batch batch_decision
  reconcile_batch-decision pending = loop-decision [] pending pending none 0 refl refl
