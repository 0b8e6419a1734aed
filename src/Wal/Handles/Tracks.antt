-- ===== src/Wal/Handles/Tracks.antt =====
-- What a MemoryStore of src/store.rs holds of the log of src/wal.rs, and what a handle knows of it.
use waltier.Base.{
  ℕ, ◌+◌, ◌<◌, ◌^◌, ◌≡◌, refl, sym, ap, ◌∙◌, true, Option, none, some, List, Result, ok, err, arith,
  inl, inr, Option-cases,
}
use mathlib.Core.Bool.{false≢true}
use mathlib.Core.Path.{subst}
use waltier.Base.Bytes.{Bytes}
use waltier.Base.Text.{Str, str_eq_iff, str_eq_refl}
use waltier.Base.Assoc.{lookup, lookup-insert}
use waltier.Image.{WalImage}
use waltier.Image.Decode.{decode}
use waltier.Store.{Stored, cas_matches}
use waltier.Store.Memory.{MemoryStore, etag_of, etag_at}
use waltier.Store.Memory.Versions.{IsFresh, etag_of-injective, stored_next}
use waltier.Wal.{Options, Core, limits, wal_key}
use waltier.Wal.Refresh.History.{Represents}
use waltier.Wal.Handles.Sees.{Sees}

-- The log object stands for a history.
pub record IsLog (opts : Options) (history : List Bytes) (w : MemoryStore) : Type 0 where
  pub object : Stored
  pub found : lookup (wal_key opts) w.objects ≡ some object
  pub image : WalImage
  pub decodes : decode object.body (limits opts) ≡ ok image
  pub represents : Represents history image

-- A core holds a validator that the store handed out, if any, and if that is still the one of the log, its
-- image stands for the history.
pub record Tracks {S : Type 0} (opts : Options) (history : List Bytes) (w : MemoryStore)
    (c : Core S) : Type 0 where
  pub options : c.opts ≡ opts
  pub issued : (e : Str) → c.etag ≡ some e → (n : ℕ) × (n < w.next_etag) × (e ≡ etag_of n)
  pub current :
      (o : Stored)
      → lookup (wal_key opts) w.objects ≡ some o
      → c.etag ≡ some o.etag
      → Represents history c.image

image_or : {A E : Type 0} → A → Result E A → A
image_or d (ok a) = a
image_or d (err e) = d

-- What was read from the log stands for its history.
pub Sees-Tracks :
    {S : Type 0} {opts : Options} {history : List Bytes} {w : MemoryStore} (c c' : Core S)
    → IsLog opts history w
    → IsFresh w
    → Tracks opts history w c
    → Sees w c c'
    → Tracks opts history w c'
unfolding image_or IsFresh
Sees-Tracks {S} {opts} {history} {w} c c' log fresh t sees = elim sees.version [
  | inl (etag, image) ↦ record {
    options = sees.opts ∙ t.options;
    issued = λ e h. t.issued e (sym etag ∙ h);
    current =
        λ o found h. subst (Represents history) (sym image) (t.current o found (sym etag ∙ h));
  }
  | inr read ↦
      let holds : lookup (wal_key opts) w.objects ≡ some read.object =
        ap (λ o. lookup (wal_key o) w.objects) (sym t.options) ∙ read.holds in
      let body : log.object.body ≡ read.object.body =
        ap (λ o. body_or log.object.body o) (sym log.found ∙ holds) in
      let same : log.image ≡ c'.image = ap (image_or log.image) (
        sym log.decodes
        ∙ ap (λ b. decode b (limits opts)) body
        ∙ ap (λ o. decode read.object.body (limits o)) (sym t.options)
        ∙ read.decodes) in
      record {
        options = sees.opts ∙ t.options;
        issued = λ e h.
            let (n, lt, is) = fresh (wal_key opts) read.object holds in
            (n, lt, ap (λ o. str_or e o) (sym h ∙ read.etag) ∙ is);
        current = λ o found h. subst (Represents history) same log.represents;
      }
]
  where
    body_or : Bytes → Option Stored → Bytes
    body_or d none = d
    body_or d (some o) = o.body

    str_or : Str → Option Str → Str
    str_or d none = d
    str_or d (some o) = o

stored_or : Stored → Option Stored → Stored
stored_or d none = d
stored_or d (some o) = o

-- The log object under the next validator.
pub found_next :
    (key : Str) (body : Bytes) (w : MemoryStore)
    → lookup key (stored_next key body w).objects
      ≡ some (record { body = body; etag = etag_of w.next_etag })
found_next key body w = rw (lookup-insert, str_eq_refl) refl

-- A new version of the log is not one that any core has known.
pub stored_next-Tracks :
    {S : Type 0} (opts : Options) (history history' : List Bytes) (body : Bytes) (w : MemoryStore)
    (c : Core S)
    → w.next_etag + 1 < 2 ^ 64
    → Tracks opts history w c
    → Tracks opts history' (stored_next (wal_key opts) body w) c
unfolding stored_or
stored_next-Tracks opts history history' body w c room t = record {
  options = t.options;
  issued = λ e h. let (n, lt, is) = t.issued e h in (n, omega (arith, lt, room), is);
  current = λ o found h.
      let same : etag_of w.next_etag ≡ o.etag =
        ap (λ x. (stored_or o x).etag) (sym (found_next (wal_key opts) body w) ∙ found) in
      let (n, lt, is) = t.issued o.etag h in
      absurd (omega (arith, lt, etag_of-injective w.next_etag n (same ∙ is)));
}

-- Who held the validator of the log knew its history.
pub matched-Represents :
    {S : Type 0} (opts : Options) (history : List Bytes) (w : MemoryStore) (c : Core S) (held : Str)
    → Tracks opts history w c
    → c.etag ≡ some held
    → cas_matches (etag_at (wal_key opts) w) (some held) ≡ true
    → Represents history c.image
unfolding cas_matches
matched-Represents opts history w c held t is wins =
    elim (Option-cases (lookup (wal_key opts) w.objects)) [
      | inl absent ↦ absurd (false≢true (rw (absent, cas_matches) at wins))
      | inr (o, found) ↦
          t.current o found
            (is ∙ ap some (sym ((str_eq_iff o.etag held).0 (rw (found, cas_matches) at wins))))
    ]
