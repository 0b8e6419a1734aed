-- ===== src/Cache/RoundTrip.antt =====
-- What src/cache.rs reads back of what it has written: the frame of a file, its identity, its key and
-- its body.
use mathlib.Core.List.{flatten}
use waltier.Base.{
  ℕ, ◌+◌, ◌-◌, ◌^◌, ◌<◌, ◌≤◌, ◌≡◌, refl, sym, ap, ◌∙◌, false, some, List, [], ◌∷◌, ◌++◌, length,
  take, drop, ltb, map, arith, ==_iff, length-append, append_assoc, take-append_of_length,
  drop-append_of_length, le→ltb, lt→ltb,
}
use waltier.Base.Bytes.{Bytes, le_bytes, from_le_bytes, length-le_bytes, from_le_bytes-le_bytes}
use waltier.Base.Text.{Str}
use waltier.Cache.Framed.{check_frame-frame}
use waltier.Cache.Frame.{header, read_checked, sum_checked, frame, strip_prefix}
use waltier.Cache.{Cache, payload_body, load, save, metadata}
use waltier.Cache.Files.{Disk}

pub strip_prefix-append : (p rest : Bytes) → strip_prefix p (p ++ rest) ≡ some rest
unfolding strip_prefix
strip_prefix-append [] rest = refl
strip_prefix-append (b ∷ p) rest = rw ((==_iff b b).1 refl) (strip_prefix-append p rest)

-- The payload of a file names its identity and its key, and gives what was saved behind them.
payload_body-metadata :
    (identity key rest : Bytes)
    → length key < 2 ^ 64
    → payload_body identity key (identity ++ (le_bytes 8 (length key) ++ (key ++ rest))) ≡ some rest
unfolding payload_body
payload_body-metadata identity key rest small =
    rw
      (
        payload_body,
        strip_prefix-append identity (n ++ (key ++ rest)),
        long,
        named,
        (==_iff (length key) (length key)).1 refl,
        behind,
      )
      (strip_prefix-append key rest)
  where
    n : Bytes
    n = le_bytes 8 (length key)

    eight : length n ≡ 8
    eight = length-le_bytes 8 (length key)

    long : ltb (length (n ++ (key ++ rest))) 8 ≡ false
    long = le→ltb (length (n ++ (key ++ rest))) 8 (omega (arith, length-append n (key ++ rest)))

    named : from_le_bytes (take 8 (n ++ (key ++ rest))) ≡ length key
    named =
        ap from_le_bytes (take-append_of_length 8 n (key ++ rest) eight)
        ∙ from_le_bytes-le_bytes 8 (length key) small

    behind : drop 8 (n ++ (key ++ rest)) ≡ key ++ rest
    behind = drop-append_of_length 8 n (key ++ rest) eight

sum_checked-step :
    (n : ℕ) (ns : List ℕ) (total : ℕ)
    → total + n < 2 ^ 64
    → sum_checked (n ∷ ns) total ≡ sum_checked ns (total + n)
unfolding sum_checked
sum_checked-step n ns total small = rw (sum_checked, lt→ltb (total + n) (2 ^ 64) small) refl

sum_checked-flatten :
    (fields : List Bytes) (total : ℕ)
    → total + length (flatten fields) < 2 ^ 64
    → sum_checked (map length fields) total ≡ some (total + length (flatten fields))
unfolding sum_checked flatten
sum_checked-flatten [] total small = ap some (omega arith)
sum_checked-flatten (f ∷ fs) total small =
    let size = length-append f (flatten fs) in
    sum_checked-step (length f) (map length fs) total (omega arith)
    ∙ sum_checked-flatten fs (total + length f) (omega arith)
    ∙ ap some (omega arith)

prefix_len :
    (identity key : Bytes) (fields : List Bytes)
    → header + length identity + 8 + length key + length (flatten fields) < 2 ^ 64
    → sum_checked (header ∷ length identity ∷ 8 ∷ length key ∷ map length fields) 0
      ≡ some (header + length identity + 8 + length key + length (flatten fields))
prefix_len identity key fields small =
    sum_checked-step header (length identity ∷ 8 ∷ length key ∷ map length fields) 0 (omega arith)
    ∙ sum_checked-step (length identity) (8 ∷ length key ∷ map length fields) header (omega arith)
    ∙ sum_checked-step 8 (length key ∷ map length fields) (header + length identity) (omega arith)
    ∙ sum_checked-step (length key) (map length fields) (header + length identity + 8) (omega arith)
    ∙ sum_checked-flatten fields (header + length identity + 8 + length key) (omega arith)

max_payload :
    (identity key : Bytes) (max_data : ℕ)
    → length identity + 8 + length key + max_data < 2 ^ 64
    → sum_checked (8 ∷ length key ∷ max_data ∷ []) (length identity)
      ≡ some (length identity + 8 + length key + max_data)
unfolding sum_checked
max_payload identity key max_data small =
    sum_checked-step 8 (length key ∷ max_data ∷ []) (length identity) (omega arith)
    ∙ sum_checked-step (length key) (max_data ∷ []) (length identity + 8) (omega arith)
    ∙ sum_checked-step max_data [] (length identity + 8 + length key) (omega arith)

length-metadata :
    (identity key : Bytes) (fields : List Bytes) (body : Bytes)
    → length (metadata identity key fields ++ body)
      ≡ length identity + 8 + length key + length (flatten fields) + length body
length-metadata identity key fields body = omega (
  arith,
  length-append (metadata identity key fields) body,
  length-append identity (le_bytes 8 (length key) ++ (key ++ flatten fields)),
  length-append (le_bytes 8 (length key)) (key ++ flatten fields),
  length-le_bytes 8 (length key),
  length-append key (flatten fields),
)

module _ {W : Type 0} (disk : Disk W) where
  -- An enabled cache whose sizes fit the machine word writes the frame.
  save_lem :
      (c : Cache) (path : Str) (identity key : Bytes) (fields : List Bytes) (body : Bytes) (w : W)
      → c.identity ≡ some identity
      → header + length identity + 8 + length key + length (flatten fields) + length body < 2 ^ 64
      → save disk c path key fields body w
        ≡ (disk.write_atomic path
            (frame
              (metadata identity key fields)
              body
              (length (metadata identity key fields ++ body)))
            w).1
  unfolding save
  save_lem c path identity key fields body w on small =
      rw
        (
          save,
          on,
          prefix_len identity key fields (omega arith),
          plen,
          lt→ltb n (2 ^ 64) (omega arith),
        )
        (ap (λ m. (disk.write_atomic path (frame (metadata identity key fields) body m) w).1)
          (sym (length-metadata identity key fields body)))
    where
      n : ℕ
      n = length identity + 8 + length key + length (flatten fields) + length body

      plen :
          header + length identity + 8 + length key + length (flatten fields) - header + length body
          ≡ n
      plen = omega arith

  -- A frame of the identity and the key is loaded from the disk.
  load_lem :
      (c : Cache) (path : Str) (identity key : Bytes) (fields : List Bytes) (body : Bytes)
      (max_data : ℕ) (w : W)
      → c.identity ≡ some identity
      → disk.read_file path w
        ≡ some (
            frame
              (metadata identity key fields)
              body
              (length (metadata identity key fields ++ body)))
      → length (flatten fields ++ body) ≤ max_data
      → length identity + 8 + length key + max_data + header < 2 ^ 64
      → load disk c path key max_data w ≡ some (flatten fields ++ body)
  unfolding load read_checked
  load_lem c path identity key fields body max_data w on found fits small =
      rw
        (
          load,
          on,
          max_payload identity key max_data (omega arith),
          read_checked,
          lt→ltb (length identity + 8 + length key + max_data + header) (2 ^ 64) (omega arith),
          found,
          check_frame-frame meta body (length (meta ++ body))
              (length identity + 8 + length key + max_data + header) refl
              (omega (arith, parts, size)) (omega (arith, parts, size)),
          whole,
        )
        (payload_body-metadata identity key (flatten fields ++ body) (omega arith))
    where
      meta : Bytes
      meta = metadata identity key fields

      parts : length (flatten fields ++ body) ≡ length (flatten fields) + length body
      parts = length-append (flatten fields) body

      size :
          length (meta ++ body)
          ≡ length identity + 8 + length key + length (flatten fields) + length body
      size = length-metadata identity key fields body

      whole :
          meta ++ body ≡ identity ++ (le_bytes 8 (length key) ++ (key ++ (flatten fields ++ body)))
      whole =
          append_assoc identity (le_bytes 8 (length key) ++ (key ++ flatten fields)) body
          ∙ ap (λ t. identity ++ (le_bytes 8 (length key) ++ t))
              (append_assoc key (flatten fields) body)

  -- What was saved is loaded again: when the disk reads back what it writes at the path, an enabled
  -- cache gives the fields and the body of what it saved there under the same key, if they are within
  -- the limit and the sizes fit the machine word.
  pub load-save :
      (c : Cache) (path : Str) (identity key : Bytes) (fields : List Bytes) (body : Bytes)
      (max_data : ℕ) (w : W)
      → c.identity ≡ some identity
      → ((bytes : Bytes) → disk.read_file path (disk.write_atomic path bytes w).1 ≡ some bytes)
      → length (flatten fields ++ body) ≤ max_data
      → length identity + 8 + length key + max_data + header < 2 ^ 64
      → load disk c path key max_data (save disk c path key fields body w)
        ≡ some (flatten fields ++ body)
  load-save c path identity key fields body max_data w on keeps fits small =
      load_lem c path identity key fields body max_data (save disk c path key fields body w) on
        (ap (disk.read_file path) (
            save_lem c path identity key fields body w on
              (omega (arith, length-append (flatten fields) body)))
          ∙ keeps (
              frame (metadata identity key fields) body
                (length (metadata identity key fields ++ body))))
        fits small
