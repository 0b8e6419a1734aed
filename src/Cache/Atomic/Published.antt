-- ===== src/Cache/Atomic/Published.antt =====
-- What `write_atomic` of src/cache.rs leaves: the whole new contents under the name, or the old ones.
use waltier.Base.{
  ℕ, zero, suc, ◌<◌, true, false, is_some, ◌⊎◌, Option-cases, inl, inr, arith, ◌≡◌, refl, sym, ap,
  ◌∙◌, Option, none, some, List, [], ◌∷◌, ◌++◌, Result, ok, err, append_assoc, append-nil,
}
use mathlib.Core.List.{flatten}
use mathlib.Core.Path.{subst}
use waltier.Base.Words.{wrapping_add}
use waltier.Base.Bytes.{Bytes}
use waltier.Base.Text.{Str}
use waltier.Cache.Atomic.{Creation, Filing, temp_name, write_parts, create, publish, write_atomic}

module _ {W : Type 0} (files : Filing W) (contents : Str → W → Option Bytes) where
  -- Files other than one have the same contents.
  abbrev pub Elsewhere : Str → W → W → Type 0
  Elsewhere p w w' = (q : Str) → ¬ (q ≡ p) → contents q w' ≡ contents q w

  abbrev pub Same : W → W → Type 0
  Same w w' = (q : Str) → contents q w' ≡ contents q w

  abbrev pub Creates : Str → W → Creation × W → Type 0
  Creates p w (Creation.created, w') =
      (contents p w ≡ none) × (contents p w' ≡ some []) × Elsewhere p w w'
  Creates p w (Creation.exists, w') = (is_some (contents p w) ≡ true) × Same w w'
  Creates p w (Creation.failed e, w') = Same w w'

  -- An error may leave any part of the bytes behind.
  abbrev pub Writes : Str → Bytes → W → Result Str (Unit {0}) × W → Type 0
  Writes p b w (ok u, w') =
      ((old : Bytes) → contents p w ≡ some old → contents p w' ≡ some (old ++ b)) × Elsewhere p w w'
  Writes p b w (err e, w') = Elsewhere p w w'

  abbrev pub Renames : Str → Str → W → Result Str (Unit {0}) × W → Type 0
  Renames p q w (ok u, w') =
      (contents q w' ≡ contents p w)
      × ((r : Str) → ¬ (r ≡ p) → ¬ (r ≡ q) → contents r w' ≡ contents r w)
  Renames p q w (err e, w') = Same w w'

  -- What the operations on files do to their contents.
  pub record IsFiling : Type 0 where
    pub creates : (p : Str) (w : W) → Creates p w (files.create_new p w)
    pub writes : (p : Str) (b : Bytes) (w : W) → Writes p b w (files.write_all p b w)
    pub renames : (p q : Str) (w : W) → ¬ (p ≡ q) → Renames p q w (files.rename p q w)
    pub removes : (p : Str) (w : W) → Elsewhere p w (files.remove_file p w)

  -- What the temporary file holds behind the parts.
  abbrev Holding : Str → Bytes → List Bytes → W → Result Str (Unit {0}) × W → Type 0
  Holding tmp old parts w (ok u, w') =
      (contents tmp w' ≡ some (old ++ flatten parts)) × Elsewhere tmp w w'
  Holding tmp old parts w (err e, w') = Elsewhere tmp w w'

  Elsewhere-trans : (p : Str) {u v w : W} → Elsewhere p u v → Elsewhere p v w → Elsewhere p u w
  Elsewhere-trans p a b q other = b q other ∙ a q other

  -- An answer of the rest, behind one part.
  Holding-after :
      (tmp : Str) (old part : Bytes) (parts : List Bytes) (w v : W) (r : Result Str (Unit {0}) × W)
      → Elsewhere tmp w v
      → Holding tmp (old ++ part) parts v r
      → Holding tmp old (part ∷ parts) w r
  unfolding flatten
  Holding-after tmp old part parts w v (ok u, w') away h =
      (h.0 ∙ ap some (append_assoc old part (flatten parts)), Elsewhere-trans tmp away h.1)
  Holding-after tmp old part parts w v (err e, w') away h = Elsewhere-trans tmp away h

  module _ (laws : IsFiling) where
    write_parts-Holding :
        (tmp : Str) (old : Bytes) (parts : List Bytes) (w : W)
        → contents tmp w ≡ some old
        → Holding tmp old parts w (write_parts files tmp parts w)
    unfolding write_parts flatten
    write_parts-Holding tmp old [] w is = (is ∙ ap some (sym (append-nil old)), λ q other. refl)
    write_parts-Holding tmp old (part ∷ parts) w is =
        let w1 = (files.write_all tmp part w).1 in
        part_written tmp old part parts w (files.write_all tmp part w).0 refl
          (laws.writes tmp part w) is (λ held. write_parts-Holding tmp (old ++ part) parts w1 held)
      where
        part_written :
            (tmp : Str) (old part : Bytes) (parts : List Bytes) (w : W) (r : Result Str (Unit {0}))
            → (files.write_all tmp part w).0 ≡ r
            → Writes tmp part w (r, (files.write_all tmp part w).1)
            → contents tmp w ≡ some old
            → (contents tmp (files.write_all tmp part w).1 ≡ some (old ++ part)
                → Holding tmp
                    (old ++ part)
                    parts
                    (files.write_all tmp part w).1
                    (write_parts files tmp parts (files.write_all tmp part w).1))
            → Holding tmp old (part ∷ parts) w (write_parts files tmp (part ∷ parts) w)
        part_written tmp old part parts w (err e) is law held rest = rw (is, write_parts) law
        part_written tmp old part parts w (ok u) is law held rest =
            rw (is, write_parts)
              (Holding-after tmp old part parts w _ _ law.1 (rest (law.0 old held)))

    -- The new contents under the name, or the old ones, and every other file that there was.
    abbrev pub Published : Str → Bytes → W → Result Str (Unit {0}) × W → Type 0
    Published path new w (r, w') =
        (contents path w' ≡ elim r [ err e ↦ contents path w | ok u ↦ some new ])
        × ((q : Str) (x : Bytes) → ¬ (q ≡ path) → contents q w ≡ some x → contents q w' ≡ some x)

    absent-other :
        (tmp q : Str) (x : Bytes) (w : W)
        → contents tmp w ≡ none
        → contents q w ≡ some x
        → ¬ (q ≡ tmp)
    absent-other tmp q x w gone is same =
        let never : ◌≡◌ {A = Option Bytes} none (some x) =
          sym gone ∙ ap (λ p. contents p w) (sym same) ∙ is in
        cc

    -- The temporary file was made in `w1` and holds the parts in `w2`.
    renamed-Published :
        (tmp path : Str) (parts : List Bytes) (w w1 w2 : W) (u : Unit {0})
        (r : Result Str (Unit {0}))
        → ¬ (tmp ≡ path)
        → contents tmp w ≡ none
        → Elsewhere tmp w w1
        → Holding tmp [] parts w1 (ok u, w2)
        → (files.rename tmp path w2).0 ≡ r
        → Renames tmp path w2 (r, (files.rename tmp path w2).1)
        → Published path (flatten parts) w (publish files tmp path (ok u, w2))
    unfolding publish
    renamed-Published tmp path parts w w1 w2 u (err e) differ gone away h is law =
        let w3 = (files.rename tmp path w2).1 in
        let kept = Elsewhere-trans tmp (Elsewhere-trans tmp away h.1) (λ q other. law q) in
        let all = Elsewhere-trans tmp kept (laws.removes tmp w3) in
        rw (is, publish)
          (
            all path (λ same. differ (sym same)),
            λ q x other was. all q (absent-other tmp q x w gone was) ∙ was,
          )
    renamed-Published tmp path parts w w1 w2 u (ok v) differ gone away h is law =
        let kept = Elsewhere-trans tmp away h.1 in
        rw (is, publish)
          (
            law.0 ∙ h.0,
            λ q x other was.
                let new = absent-other tmp q x w gone was in law.1 q new other ∙ kept q new ∙ was,
          )

    publish-Published :
        (tmp path : Str) (parts : List Bytes) (w w1 : W) (r : Result Str (Unit {0}) × W)
        → ¬ (tmp ≡ path)
        → contents tmp w ≡ none
        → Elsewhere tmp w w1
        → Holding tmp [] parts w1 r
        → Published path (flatten parts) w (publish files tmp path r)
    unfolding publish
    publish-Published tmp path parts w w1 (err e, w2) differ gone away h =
        let all = Elsewhere-trans tmp (Elsewhere-trans tmp away h) (laws.removes tmp w2) in
        (
          all path (λ same. differ (sym same)),
          λ q x other was. all q (absent-other tmp q x w gone was) ∙ was,
        )
    publish-Published tmp path parts w w1 (ok u, w2) differ gone away h =
        renamed-Published tmp path parts w w1 w2 u (files.rename tmp path w2).0 differ gone away h
          refl (laws.renames tmp path w2 differ)

    -- A file that was made is new, under one of the temporary names.
    abbrev Made : Str → W → Option (Result Str Str × ℕ × W) → Type 0
    Made parent w none = Unit
    Made parent w (some (err e, seq, w')) = Same w w'
    Made parent w (some (ok tmp, seq, w')) =
        ((n : Option ℕ) × (tmp ≡ temp_name parent files.pid n))
        × (contents tmp w ≡ none)
        × (contents tmp w' ≡ some [])
        × Elsewhere tmp w w'

    Made-after :
        (parent : Str) (w v : W) (r : Option (Result Str Str × ℕ × W))
        → Same w v
        → Made parent v r
        → Made parent w r
    Made-after parent w v none same m = tt
    Made-after parent w v (some (err e, seq, w')) same m = λ q. m q ∙ same q
    Made-after parent w v (some (ok tmp, seq, w')) same (named, gone, new, away) =
        (named, sym (same tmp) ∙ gone, new, λ q other. away q other ∙ same q)

    created-Made :
        (fuel : ℕ) (parent : Str) (seq : ℕ) (n : Option ℕ) (w : W) (c : Creation)
        → (files.create_new (temp_name parent files.pid n) w).0 ≡ c
        → Creates
            (temp_name parent files.pid n)
            w
            (c, (files.create_new (temp_name parent files.pid n) w).1)
        → ((v : W)
            → Made parent v (
                create files fuel parent
                  (wrapping_add seq 1)
                  (temp_name parent files.pid (some seq))
                  v))
        → Made parent w (create files (suc fuel) parent seq (temp_name parent files.pid n) w)
    unfolding create
    created-Made fuel parent seq n w Creation.created is (gone, new, away) rest =
        rw (is, create) ((n, refl), gone, new, away)
    created-Made fuel parent seq n w Creation.exists is (taken, same) rest =
        rw (is, create) (Made-after parent w _ _ same (rest _))
    created-Made fuel parent seq n w (Creation.failed e) is same rest = rw (is, create) same

    create-Made :
        (fuel : ℕ) (parent : Str) (seq : ℕ) (n : Option ℕ) (w : W)
        → Made parent w (create files fuel parent seq (temp_name parent files.pid n) w)
    unfolding create
    create-Made zero parent seq n w = tt
    create-Made (suc fuel) parent seq n w =
        let tmp = temp_name parent files.pid n in
        created-Made fuel parent seq n w (files.create_new tmp w).0 refl (laws.creates tmp w)
          (λ v. create-Made fuel parent (wrapping_add seq 1) (some seq) v)

    -- The answer of `write_atomic`, when there is one.
    abbrev pub PublishedBy : Str → Bytes → W → Option (Result Str (Unit {0}) × ℕ × W) → Type 0
    PublishedBy path new w none = Unit
    PublishedBy path new w (some (r, seq, w')) = Published path new w (r, w')

    written-PublishedBy :
        (parent path : Str) (parts : List Bytes) (w : W) (fuel seq : ℕ)
        (made : Option (Result Str Str × ℕ × W))
        → ((n : Option ℕ) → ¬ (temp_name parent files.pid n ≡ path))
        → create files fuel parent seq (temp_name parent files.pid none) w ≡ made
        → Made parent w made
        → PublishedBy path (flatten parts) w (write_atomic files fuel parent path parts seq w)
    unfolding write_atomic
    written-PublishedBy parent path parts w fuel seq none other is m = rw (is, write_atomic) tt
    written-PublishedBy parent path parts w fuel seq (some (err e, seq', w1)) other is m =
        rw (is, write_atomic) (m path, λ q x differ was. m q ∙ was)
    written-PublishedBy parent path parts w fuel seq (some (ok tmp, seq', w1)) other is
          ((n, named), gone, new, away) =
        rw (is, write_atomic)
          (publish-Published tmp path parts w w1 (write_parts files tmp parts w1)
            (λ same. other n (sym named ∙ same)) gone away
            (write_parts-Holding tmp [] parts w1 new))

    -- The number in the `k`-th name that is tried.
    abbrev pub tried : Option ℕ → ℕ → ℕ → Option ℕ
    tried n seq zero = n
    tried n seq (suc k) = tried (some seq) (wrapping_add seq 1) k

    created-returns :
        (fuel : ℕ) (parent : Str) (seq : ℕ) (n : Option ℕ) (w : W) (c : Creation)
        → (files.create_new (temp_name parent files.pid n) w).0 ≡ c
        → Creates
            (temp_name parent files.pid n)
            w
            (c, (files.create_new (temp_name parent files.pid n) w).1)
        → (contents (temp_name parent files.pid n) w ≡ none)
          ⊎ ((v : W)
              → Same w v
              → is_some (
                  create files fuel parent
                    (wrapping_add seq 1)
                    (temp_name parent files.pid (some seq))
                    v)
                ≡ true)
        → is_some (create files (suc fuel) parent seq (temp_name parent files.pid n) w) ≡ true
    unfolding create
    created-returns fuel parent seq n w Creation.created is law rest = rw (is, create) refl
    created-returns fuel parent seq n w (Creation.failed e) is law rest = rw (is, create) refl
    created-returns fuel parent seq n w Creation.exists is (taken, same) (inl free) =
        let never : false ≡ true = ap is_some (sym free) ∙ taken in cc
    created-returns fuel parent seq n w Creation.exists is (taken, same) (inr rest) =
        rw (is, create) (rest (files.create_new (temp_name parent files.pid n) w).1 same)

    create-returns :
        (k fuel : ℕ) (parent : Str) (seq : ℕ) (n : Option ℕ) (w : W)
        → k < fuel
        → contents (temp_name parent files.pid (tried n seq k)) w ≡ none
        → is_some (create files fuel parent seq (temp_name parent files.pid n) w) ≡ true
    create-returns k zero parent seq n w le free = absurd (omega (arith, le))
    create-returns zero (suc fuel) parent seq n w le free =
        created-returns fuel parent seq n w (files.create_new (temp_name parent files.pid n) w).0
          refl (laws.creates (temp_name parent files.pid n) w) (inl free)
    create-returns (suc k) (suc fuel) parent seq n w le free =
        created-returns fuel parent seq n w (files.create_new (temp_name parent files.pid n) w).0
          refl (laws.creates (temp_name parent files.pid n) w)
          (inr (λ v same.
            create-returns k fuel parent (wrapping_add seq 1) (some seq) v (omega (arith, le))
              (same _ ∙ free)))

    write_atomic-returns :
        (parent path : Str) (parts : List Bytes) (w : W) (fuel seq : ℕ)
        (made : Option (Result Str Str × ℕ × W))
        → create files fuel parent seq (temp_name parent files.pid none) w ≡ made
        → is_some made ≡ true
        → is_some (write_atomic files fuel parent path parts seq w) ≡ true
    unfolding write_atomic
    write_atomic-returns parent path parts w fuel seq none is there = cc
    write_atomic-returns parent path parts w fuel seq (some (err e, seq', w1)) is there =
        rw (is, write_atomic) refl
    write_atomic-returns parent path parts w fuel seq (some (ok tmp, seq', w1)) is there =
        rw (is, write_atomic) refl

    -- If one of the first `fuel` temporary names is free, writing a file returns: with success, and the file holds
    -- all the parts, or with an error, and it holds what it held before. Every other file that there was is as it
    -- was. The path is none of the temporary names, and the operations on files do what they say.
    pub write_atomic-Published :
        (fuel k seq : ℕ) (parent path : Str) (parts : List Bytes) (w : W)
        → k < fuel
        → contents (temp_name parent files.pid (tried none seq k)) w ≡ none
        → ((n : Option ℕ) → ¬ (temp_name parent files.pid n ≡ path))
        → (answer : Result Str (Unit {0}) × ℕ × W) × (write_atomic files fuel parent path parts seq
              w
            ≡ some answer)
          × Published path (flatten parts) w (answer.0, answer.2)
    write_atomic-Published fuel k seq parent path parts w le free other =
        let tmp = temp_name parent files.pid none in
        let published =
          written-PublishedBy parent path parts w fuel seq (create files fuel parent seq tmp w)
            other refl (create-Made fuel parent seq none w) in
        let returns =
          write_atomic-returns parent path parts w fuel seq (create files fuel parent seq tmp w)
            refl (create-returns k fuel parent seq none w le free) in
        elim (Option-cases (write_atomic files fuel parent path parts seq w)) [
          | inl absent ↦ let never : false ≡ true = ap is_some (sym absent) ∙ returns in cc
          | inr (answer, is) ↦ (answer, is, subst (PublishedBy path (flatten parts) w) is published)
        ]
