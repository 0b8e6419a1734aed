-- ===== src/Image/Lsns.antt =====
-- Sequence numbers of a valid image of src/image.rs: nothing wraps, and `entries_from` is a filter.
use waltier.Base.{
  ℕ, zero, suc, ◌+◌, ◌-◌, ◌^◌, ◌≤◌, ◌<◌, ◌≡◌, refl, sym, ap, ◌∙◌, Option, none, some, List, [], ◌∷◌,
  length, drop, leb, if◌then◌else◌, arith,
}
use waltier.Base.Words.{u64_mod, wrapping_add}
use waltier.Base.Bytes.{Bytes}
use waltier.Image.{
  Lsn, SnapshotRef, WalImage, IsValid, check_lsn, first_lsn, next_lsn, tip, numbered, entries_from,
  first_of,
}

-- The LSNs of a list of entries, with no wrap-around.
unfoldable pub enumerate_from : Lsn → List Bytes → List (Lsn × Bytes)
enumerate_from lsn [] = []
enumerate_from lsn (e ∷ es) = (lsn, e) ∷ enumerate_from (suc lsn) es

-- The pairs whose LSN is at least `lsn`, in order.
pub at_least : Lsn → List (Lsn × Bytes) → List (Lsn × Bytes)
at_least lsn [] = []
at_least lsn ((l, e) ∷ ps) = if leb lsn l then (l, e) ∷ at_least lsn ps else at_least lsn ps

pub check_lsn_exact :
    (o : Option SnapshotRef) (count next : ℕ)
    → check_lsn o count ≡ some next
    → (next < u64_mod) × (first_of o + count ≡ next) × (first_of o < u64_mod)
unfolding check_lsn
check_lsn_exact none count next e = ground arith
check_lsn_exact (some s) count next e = ground arith

-- In a valid image the first LSN plus the number of entries is the next one, below 2 ^ 64, and the
-- tip is the LSN just before it, if there is any.
pub next_lsn_exact :
    (image : WalImage)
    → IsValid image
    → (next_lsn image ≡ first_lsn image + length image.entries)
      × (next_lsn image < 2 ^ 64)
      × (tip image ≡ (if leb 1 (next_lsn image) then some (next_lsn image - 1) else none))
unfolding next_lsn first_lsn tip
next_lsn_exact image v =
    let (fits, sum, small) =
      check_lsn_exact image.snapshot (length image.entries) v.fits.0 v.fits.1 in
    (ground arith, ground arith, ground arith)

pub numbered-enumerate :
    (lsn : Lsn) (es : List Bytes)
    → lsn + length es < u64_mod
    → numbered lsn es ≡ enumerate_from lsn es
unfolding numbered enumerate_from
numbered-enumerate lsn [] h = refl
numbered-enumerate lsn (e ∷ es) h =
    let step : wrapping_add lsn 1 ≡ suc lsn = omega arith in
    rw step (ap (λ t. (lsn, e) ∷ t) (numbered-enumerate (suc lsn) es (omega arith)))

at_least_all :
    (lsn first : Lsn) (es : List Bytes)
    → lsn ≤ first
    → at_least lsn (enumerate_from first es) ≡ enumerate_from first es
unfolding at_least enumerate_from
at_least_all lsn first [] h = refl
at_least_all lsn first (e ∷ es) h = ground (arith, at_least_all lsn (suc first) es)

pub at_least-drop :
    (lsn first : Lsn) (k : ℕ) (es : List Bytes)
    → k ≡ lsn - first
    → at_least lsn (enumerate_from first es) ≡ drop k (enumerate_from first es)
unfolding at_least enumerate_from
at_least-drop lsn first zero es h = at_least_all lsn first es (omega arith)
at_least-drop lsn first (suc k) [] h = refl
at_least-drop lsn first (suc k) (e ∷ es) h = ground (arith, at_least-drop lsn (suc first) k es)

-- Of a valid image, `entries_from` gives exactly the entries whose LSN is at least the given one,
-- each with its LSN, in order.
pub entries_from-at_least :
    (image : WalImage) (lsn : Lsn)
    → IsValid image
    → entries_from image lsn ≡ at_least lsn (enumerate_from (first_lsn image) image.entries)
unfolding entries_from
entries_from-at_least image lsn v =
    let (exact, fits, _) = next_lsn_exact image v in
    let same = numbered-enumerate (first_lsn image) image.entries (omega arith) in
    ap (drop (lsn - first_lsn image)) same
    ∙ sym (at_least-drop lsn (first_lsn image) (lsn - first_lsn image) image.entries refl)
