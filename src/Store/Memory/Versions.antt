-- ===== src/Store/Memory/Versions.antt =====
-- Validators of `MemoryStore` in src/store.rs: each is used once, so a CAS wins at most once.
use waltier.Base.{
  ℕ, ◌+◌, ◌^◌, ◌<◌, ◌≡◌, sym, ap, ◌∙◌, true, false, Option, none, some, Option-cases, [], ◌∷◌,
  arith, Bool-cases, inl, inr, Result, ok, snoc-injective,
}
use mathlib.Core.Bool.{false≢true}
use waltier.Base.Words.{wrapping_add}
use waltier.Base.Bytes.{Bytes}
use waltier.Base.Text.{Str, str_eq, str_eq_iff, str_eq_refl, decimal, decimal-injective}
use waltier.Base.Assoc.{lookup, insert, remove, lookup-insert, lookup-remove}
use waltier.Error.{StoreError}
use waltier.Store.{Stored, CondPut, accepted, precondition_failed, cas_matches}
use waltier.Store.Memory.{MemoryStore, etag_of, etag_at, put, put_if_match, delete}

pub etag_of-injective : (m n : ℕ) → etag_of m ≡ etag_of n → m ≡ n
etag_of-injective m n e =
    decimal-injective m n (snoc-injective (decimal m) (decimal n) b'"' (ap tail_of e))
  where
    tail_of : Str → Str
    tail_of [] = []
    tail_of (x ∷ xs) = xs

-- Every validator in the store was handed out by its counter, which has not wrapped around.
unfoldable pub IsFresh : MemoryStore → Type 0
IsFresh s =
    (k : Str) (o : Stored)
    → lookup k s.objects ≡ some o
    → (n : ℕ) × (n < s.next_etag) × (o.etag ≡ etag_of n)

-- Storing under the next validator, whatever the operation.
abbrev pub stored_next : Str → Bytes → MemoryStore → MemoryStore
stored_next key body s = record s {
  objects = insert key (record { body = body; etag = etag_of s.next_etag }) s.objects;
  next_etag = wrapping_add s.next_etag 1;
}

pub stored_next-IsFresh :
    (key : Str) (body : Bytes) (s : MemoryStore)
    → s.next_etag + 1 < 2 ^ 64
    → IsFresh s
    → IsFresh (stored_next key body s)
unfolding IsFresh
stored_next-IsFresh key body s room fresh k o found = elim (Bool-cases (str_eq key k)) [
  | inl same ↦
      let here : some (record { body = body; etag = etag_of s.next_etag }) ≡ some o =
        rw (lookup-insert, same) at found in
      (s.next_etag, omega arith, ground (arith, here))
  | inr other ↦
      let (n, lt, e) = fresh k o (rw (lookup-insert, other) at found) in (n, omega (arith, lt), e)
]

-- `put`, `put_if_match` and `delete` keep every validator one that the store has handed out, so that
-- the next one is new, as long as the counter does not wrap around.
pub operations-IsFresh :
    (key : Str) (etag : Option Str) (body : Bytes) (s : MemoryStore)
    → s.next_etag + 1 < 2 ^ 64
    → IsFresh s
    → IsFresh (put key body s).1
      × IsFresh (put_if_match key etag body s).1
      × IsFresh (delete key s).1
unfolding put put_if_match
operations-IsFresh key etag body s room fresh = (
  stored_next-IsFresh key body s room fresh,
  elim (Bool-cases (cas_matches (etag_at key s) etag)) [
    | inl wins ↦ rw wins (stored_next-IsFresh key body s room fresh)
    | inr loses ↦ rw loses fresh
  ],
  unfold IsFresh delete in λ k o found. removed k o found,
)
  where
    removed :
        (k : Str) (o : Stored)
        → lookup k (remove key s.objects) ≡ some o
        → (n : ℕ) × (n < s.next_etag) × (o.etag ≡ etag_of n)
    removed k o found = elim (Bool-cases (str_eq key k)) [
      | inl same ↦ absurd (gone (rw (lookup-remove, same) at found))
      | inr other ↦ unfold IsFresh in fresh k o (rw (lookup-remove, other) at found)
    ]
      where
        gone : ◌≡◌ {A = Option Stored} none (some o) → ⊥
        gone e = cc

-- The next validator differs from any validator that matched before.
matched_before :
    (key : Str) (s : MemoryStore) (x : Str)
    → IsFresh s
    → cas_matches (etag_at key s) (some x) ≡ true
    → str_eq (etag_of s.next_etag) x ≡ false
unfolding IsFresh cas_matches
matched_before key s x fresh m = elim (Option-cases (lookup key s.objects)) [
  | inl absent ↦ absurd (false≢true (rw (absent, cas_matches) at m))
  | inr (o, found) ↦
      let (n, lt, e) = fresh key o found in
      let same : o.etag ≡ x = (str_eq_iff o.etag x).0 (rw (found, cas_matches) at m) in
      elim (Bool-cases (str_eq (etag_of s.next_etag) x)) [
        | inl clash ↦
            let twice = (str_eq_iff (etag_of s.next_etag) x).0 clash ∙ sym same ∙ e in
            absurd (omega (arith, lt, etag_of-injective s.next_etag n twice))
        | inr differ ↦ differ
      ]
]

loses_next :
    (key : Str) (etag : Option Str) (body : Bytes) (s : MemoryStore)
    → IsFresh s
    → cas_matches (etag_at key s) etag ≡ true
    → cas_matches (etag_at key (stored_next key body s)) etag ≡ false
unfolding cas_matches
loses_next key none body s fresh m = rw (lookup-insert, str_eq_refl, cas_matches)
loses_next key (some x) body s fresh m =
    rw (lookup-insert, str_eq_refl, cas_matches) (matched_before key s x fresh m)

-- A CAS that succeeds stores the object under the next validator, in exchange for the one that matched.
pub put_if_match_won :
    (key : Str) (etag : Option Str) (body : Bytes) (s s' : MemoryStore) (e : Str)
    → put_if_match key etag body s ≡ (ok (accepted e), s')
    → (cas_matches (etag_at key s) etag ≡ true)
      × (etag_of s.next_etag ≡ e)
      × (stored_next key body s ≡ s')
unfolding put_if_match
put_if_match_won key etag body s s' e won = elim (Bool-cases (cas_matches (etag_at key s) etag)) [
  | inl wins ↦
      let done : ◌≡◌ {A = Result StoreError CondPut × MemoryStore}
          (ok (accepted (etag_of s.next_etag)), stored_next key body s) (ok (accepted e), s') =
        rw wins at won in
      (wins, ap (λ r. given_or e r.0) done, ap (λ r. r.1) done)
  | inr loses ↦ absurd (lost (ap (λ t. t.0) (rw loses at won)))
]
  where
    given_or : Str → Result StoreError CondPut → Str
    given_or d (ok (accepted g)) = g
    given_or d _ = d

    lost : ◌≡◌ {A = Result StoreError CondPut} (ok precondition_failed) (ok (accepted e)) → ⊥
    lost h = cc

-- If every object has a validator that the store has handed out, a CAS that succeeds makes the next CAS
-- on that key with the validator that it expected fail, whatever it writes: of two writers that
-- observed one version of an object, at most one can replace it.
pub put_if_match_fenced :
    (key : Str) (etag : Option Str) (body other : Bytes) (s s' : MemoryStore) (e : Str)
    → IsFresh s
    → put_if_match key etag body s ≡ (ok (accepted e), s')
    → put_if_match key etag other s' ≡ (ok precondition_failed, s')
unfolding put_if_match IsFresh
put_if_match_fenced key etag body other s s' e fresh won =
    let (wins, given, after) = put_if_match_won key etag body s s' e won in
    rw (← after) (rw (loses_next key etag body s fresh wins))
