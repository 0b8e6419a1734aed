-- ===== src/Cache/Files.antt =====
-- The file operations of the standard library that src/cache.rs uses, on a world `W`. Each mutation
-- says whether it succeeded; a failed one may leave any trace in the world.
use waltier.Base.{Bool, Option, List, ◌++◌, ◌∷◌}
use waltier.Base.Bytes.{Bytes}
use waltier.Base.Text.{Str}

pub record Disk (W : Type 0) : Type 0 where
  pub create_dir_all : Str → W → Bool × W
  -- the contents of a file, if it can be opened and read
  pub read_file : Str → W → Option Bytes
  -- the complete new contents, published under the name at once, or not at all
  pub write_atomic : Str → Bytes → W → Bool × W
  pub remove_file : Str → W → Bool × W
  -- the names in a directory, if it can be read
  pub read_dir : Str → W → Option (List Str)

-- `Path::join`
abbrev pub join : Str → Str → Str
join dir name = dir ++ (b'/' ∷ name)
