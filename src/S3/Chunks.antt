-- ===== src/S3/Chunks.antt =====
-- The reads of an upload in src/s3.rs.
use waltier.Base.{
  ℕ, ◌<◌, ◌≤◌, ◌≡◌, ap, refl, false, Option, none, some, List, [], ◌∷◌, ◌++◌, length, drop, min,
  leb, arith, All, take-append-drop, length-drop,
}
use waltier.Base.Bytes.{Bytes}
use waltier.S3.{Upload, read_upload}

-- What a transport has read after some calls, each with its time and the room in its buffer; `none` once a call
-- has failed.
unfoldable pub read_calls : List (ℕ × ℕ) → Upload → Option (Bytes × Upload)
unfolding read_upload
read_calls [] u = some ([], u)
read_calls ((now, room) ∷ calls) u = elim (read_upload now room u) [
  | none ↦ none
  | some (chunk, u') ↦ elim (read_calls calls u') [
    | none ↦ none
    | some (sent, u'') ↦ some (chunk ++ sent, u'')
  ]
]

-- A call before the deadline, with some room.
abbrev pub InTime : ℕ → ℕ × ℕ → Type 0
InTime deadline (now, room) = (now < deadline) × (0 < room)

early_lem : (deadline now : ℕ) → now < deadline → leb deadline now ≡ false
early_lem deadline now lt = ground (arith, lt)

-- Whatever buffers a transport reads an upload with, it gets exactly the body and then its end, if all its calls
-- are before the deadline, every buffer has some room, and there is a call for each byte.
pub read_calls_delivers :
    (calls : List (ℕ × ℕ)) (body : Bytes) (deadline : ℕ)
    → All (InTime deadline) calls
    → length body ≤ length calls
    → read_calls calls (record { remaining = body; deadline = deadline })
      ≡ some (body, record { remaining = []; deadline = deadline })
unfolding read_upload read_calls
read_calls_delivers [] [] deadline times enough = refl
read_calls_delivers [] (b ∷ body) deadline times enough = absurd (omega (arith, enough))
read_calls_delivers ((now, room) ∷ calls) body deadline times enough =
    let count = min (min room (length body)) 8192 in
    let rest : length (drop count body) ≤ length calls =
      omega (arith, length-drop count body, enough, times.0.1) in
    rw
      (
        early_lem deadline now times.0.0,
        read_calls_delivers calls (drop count body) deadline times.1 rest,
        read_calls,
        read_upload,
      )
      (ap (λ s. some (s, record { remaining = []; deadline = deadline }))
        (take-append-drop count body))
