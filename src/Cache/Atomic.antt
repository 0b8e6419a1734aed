-- ===== src/Cache/Atomic.antt =====
-- `write_atomic` of src/cache.rs: the parts go to a new temporary file in the directory, which is then renamed.
pub mod Published
use waltier.Base.{ℕ, zero, suc, ◌≡◌, Bool, Option, none, some, List, [], ◌∷◌, ◌++◌, Result, ok, err}
use waltier.Base.Words.{wrapping_add}
use waltier.Base.Bytes.{Bytes}
use waltier.Base.Text.{Str, text, decimal}
use waltier.Cache.Files.{join}

-- `OpenOptions::create_new`: the new file, an `AlreadyExists` error, or another one.
pub data Creation : Type 0 where
  created exists : Creation
  failed : Str → Creation

-- The operations of the standard library on files.
pub record Filing (W : Type 0) : Type 0 where
  pub pid : ℕ
  pub create_new : Str → W → Creation × W
  pub write_all : Str → Bytes → W → Result Str (Unit {0}) × W
  pub rename : Str → Str → W → Result Str (Unit {0}) × W
  pub remove_file : Str → W → W

-- The first name that is tried, and those with a number.
unfoldable pub temp_name : Str → ℕ → Option ℕ → Str
temp_name parent pid none = join parent (text ".waltier-" ++ (decimal pid ++ text ".tmp"))
temp_name parent pid (some seq) =
    join parent (text ".waltier-" ++ (decimal pid ++ (b'-' ∷ (decimal seq ++ text ".tmp"))))

module _ {W : Type 0} (files : Filing W) where
  unfoldable pub write_parts : Str → List Bytes → W → Result Str (Unit {0}) × W
  write_parts tmp [] w = (ok tt, w)
  write_parts tmp (part ∷ parts) w =
      let (written, w') = files.write_all tmp part w in
      let rest = write_parts tmp parts w' in elim written [ err e ↦ (err e, w') | ok u ↦ rest ]

  -- The loop that creates the file, with the counter `NEXT`; `none` when it has run out of fuel.
  unfoldable pub create : ℕ → Str → ℕ → Str → W → Option (Result Str Str × ℕ × W)
  unfolding temp_name
  create zero parent seq tmp w = none
  create (suc fuel) parent seq tmp w =
      let (creation, w') = files.create_new tmp w in
      let rest =
        create fuel parent (wrapping_add seq 1) (temp_name parent files.pid (some seq)) w' in
      elim creation [
        | Creation.created ↦ some (ok tmp, seq, w')
        | Creation.exists ↦ rest
        | Creation.failed e ↦ some (err e, seq, w')
      ]

  -- The contents are complete: publish them.
  unfoldable pub publish : Str → Str → Result Str (Unit {0}) × W → Result Str (Unit {0}) × W
  publish tmp path (err e, w) = (err e, files.remove_file tmp w)
  publish tmp path (ok u, w) =
      let (renamed, w') = files.rename tmp path w in
      elim renamed [ err e ↦ (err e, files.remove_file tmp w') | ok v ↦ (ok tt, w') ]

  -- `parent` is the directory of `path`.
  unfoldable pub write_atomic :
      ℕ → Str → Str → List Bytes → ℕ → W → Option (Result Str (Unit {0}) × ℕ × W)
  unfolding create write_parts publish
  write_atomic fuel parent path parts seq w =
      elim (create fuel parent seq (temp_name parent files.pid none) w) [
        | none ↦ none
        | some (err e, seq', w') ↦ some (err e, seq', w')
        | some (ok tmp, seq', w') ↦
            let (result, w'') = publish tmp path (write_parts tmp parts w') in
            some (result, seq', w'')
      ]
