-- ===== src/S3/Requests.antt =====
-- `ObjectStore for S3Store` of src/s3.rs: what becomes of the responses.
pub mod Sound
pub mod Puts
use waltier.Base.{
  ℕ, ◌+◌, ◌-◌, ◌*◌, ◌^◌, ◌≡◌, Bool, true, false, ◌&&◌, ◌||◌, Option, none, some, is_some, List, [],
  ◌∷◌, ◌++◌, length, ltb, leb, ◌==◌, if◌then◌else◌, Result, ok, err,
}
use waltier.Base.Words.{u64_mod, wrapping_add}
use waltier.Base.Bytes.{Bytes}
use waltier.Base.Text.{Str, text, decimal}
use waltier.Error.{StoreOperation, StoreError}
use waltier.Error.StoreErrors
use waltier.Store.{Stored, CondGet, CondPut, accepted, precondition_failed}
use waltier.S3.{
  Agent, Response, Reply, response, failed_status, transport, Upload, Network, S3Store, sign_ttl,
  store_error,
}

-- `parse::<u64>`: digits, with a plus sign at most, of a number that fits.
abbrev add_digit : Option ℕ → ℕ → Option ℕ
add_digit none b = none
add_digit (some n) b =
    if leb 48 b && leb b 57 && ltb (n * 10 + (b - 48)) u64_mod
    then some (n * 10 + (b - 48))
    else none

parse_digits : Option ℕ → Str → Option ℕ
parse_digits n [] = n
parse_digits n (b ∷ s) = parse_digits (add_digit n b) s

unfoldable pub parse_u64 : Str → Option ℕ
unfolding parse_digits
parse_u64 [] = none
parse_u64 (b ∷ []) = parse_digits (some 0) (b ∷ [])
parse_u64 (b ∷ c ∷ s) =
    if b == 43 then parse_digits (some 0) (c ∷ s) else parse_digits (some 0) (b ∷ c ∷ s)

abbrev over : ℕ → Option ℕ → Bool
over limit none = false
over limit (some n) = ltb limit n

abbrev declared : Option Str → Option ℕ
declared none = none
declared (some s) = parse_u64 s

unfoldable pub unexpected : ℕ → Str
unexpected status = text "unexpected HTTP status " ++ decimal status

-- A non-empty `etag` header.
unfoldable pub etag_of : StoreOperation → Str → Response → Result StoreError Str
etag_of op key r =
    let missing = store_error op key (some r.status) (text "response is missing an ETag header") in
    elim (r.header (text "etag")) [
      | none ↦ err missing
      | some [] ↦ err missing
      | some (b ∷ s) ↦ ok (b ∷ s)
    ]

-- The body, if neither its declared nor its real length is over the limit.
unfoldable pub read_body : ℕ → Str → Response → Result StoreError Bytes
unfolding parse_u64
read_body limit key r =
    let too_long =
      store_error StoreOperation.get key (some r.status) (text "body exceeds byte limit") in
    if over limit (declared (r.header (text "Content-Length")))
    then err too_long
    else elim (r.read (wrapping_add limit 1)) [
      | err m ↦ err (store_error StoreOperation.get key (some r.status) m)
      | ok body ↦ if ltb limit (length body) then err too_long else ok body
    ]

abbrev received : Str → Result StoreError Str → Result StoreError Bytes → Result StoreError CondGet
received key (err e) body = err e
received key (ok etag) (err e) = err e
received key (ok etag) (ok body) = ok (CondGet.changed (record { body = body; etag = etag }))

-- What a GET makes of the status, where `conditional` says whether a validator was sent.
unfoldable pub get_response : ℕ → Str → Bool → Response → Result StoreError CondGet
unfolding etag_of read_body unexpected
get_response limit key conditional r =
    if r.status == 304
    then (if conditional
        then ok CondGet.not_modified
        else err (
            store_error StoreOperation.get key (some 304)
              (text "unexpected 304 to unconditional GET")))
    else if r.status == 404
    then ok CondGet.missing
    else if r.status == 200
    then received key (etag_of StoreOperation.get key r) (read_body limit key r)
    else err (store_error StoreOperation.get key (some r.status) (unexpected r.status))

unfoldable pub get_reply : ℕ → Str → Bool → Reply → Result StoreError CondGet
unfolding get_response
get_reply limit key conditional (response r) = get_response limit key conditional r
get_reply limit key conditional (failed_status r) = get_response limit key conditional r
get_reply limit key conditional (transport m) = err (store_error StoreOperation.get key none m)

-- What a conditional PUT makes of the status: both 409 and 412 reject this attempt.
unfoldable pub put_matched : Str → Response → Result StoreError CondPut
unfolding etag_of unexpected
put_matched key r =
    if r.status == 200
    then elim (etag_of StoreOperation.put key r) [ err e ↦ err e | ok etag ↦ ok (accepted etag) ]
    else if r.status == 409 || r.status == 412
    then ok precondition_failed
    else err (store_error StoreOperation.put key (some r.status) (unexpected r.status))

unfoldable pub was_put : Str → Response → Result StoreError Str
unfolding etag_of unexpected
was_put key r =
    if r.status == 200
    then etag_of StoreOperation.put key r
    else err (store_error StoreOperation.put key (some r.status) (unexpected r.status))

unfoldable pub delete_reply : Str → Reply → Result StoreError (Unit {0})
unfolding unexpected
delete_reply key (response r) =
    if leb 200 r.status && ltb r.status 300
    then ok tt
    else err (store_error StoreOperation.delete key (some r.status) (unexpected r.status))
delete_reply key (failed_status r) =
    if r.status == 404
    then ok tt
    else err (store_error StoreOperation.delete key (some r.status) (unexpected r.status))
delete_reply key (transport m) = err (store_error StoreOperation.delete key none m)

-- The condition of a PUT: none, that the object is absent, or a validator.
abbrev pub condition_headers : Option (Option Str) → List (Str × Str)
condition_headers none = []
condition_headers (some none) = (text "If-None-Match", text "*") ∷ []
condition_headers (some (some etag)) = (text "If-Match", etag) ∷ []

abbrev pub match_headers : Option Str → List (Str × Str)
match_headers none = []
match_headers (some etag) = (text "If-None-Match", etag) ∷ []

abbrev pub put_reply : Str → Reply → Result StoreError Response
put_reply key (response r) = ok r
put_reply key (failed_status r) = ok r
put_reply key (transport m) = err (store_error StoreOperation.put key none m)

-- `none` is the `unreachable!` of the source.
abbrev found : Result StoreError CondGet → Option (Result StoreError (Option Stored))
found (err e) = some (err e)
found (ok (CondGet.changed o)) = some (ok (some o))
found (ok CondGet.missing) = some (ok none)
found (ok CondGet.not_modified) = none

abbrev pub answered {ℓ} :
    {A : Type ℓ}
    → (Response → Result StoreError A)
    → Result StoreError Response
    → Result StoreError A
answered read (err e) = err e
answered read (ok r) = read r

module _ {B W : Type 0} (net : Network B W) (s : S3Store B) where
  abbrev pub signed : StoreOperation → Str → Str
  signed op key = net.sign op s.bucket s.access_key s.secret_key key sign_ttl

  -- A body over the limit is not sent.
  unfoldable pub send_put : Str → Option (Option Str) → Bytes → W → Result StoreError Response × W
  send_put key condition body w =
      if ltb s.opts.max_object_bytes (length body)
      then (
        err (
            StoreErrors.not_applied
              (store_error StoreOperation.put key none (text "body exceeds byte limit"))),
        w,
      )
      else (let headers =
            (text "Content-Length", decimal (length body)) ∷ condition_headers condition in
          let upload : Upload = record {
            remaining = body;
            deadline = net.now w + s.opts.request_timeout;
          } in
          let (reply, w') = net.send s.agent (signed StoreOperation.put key) headers upload w in
          (put_reply key reply, w'))

  unfoldable pub get_if_changed : Str → Option Str → W → Result StoreError CondGet × W
  unfolding get_reply
  get_if_changed key etag w =
      let (reply, w') =
        net.call s.agent StoreOperation.get (signed StoreOperation.get key) (match_headers etag)
          w in
      (get_reply s.opts.max_object_bytes key (is_some etag) reply, w')

  unfoldable pub get : Str → W → Option (Result StoreError (Option Stored)) × W
  unfolding get_if_changed
  get key w = let (got, w') = get_if_changed key none w in (found got, w')

  unfoldable pub put_if_match : Str → Option Str → Bytes → W → Result StoreError CondPut × W
  unfolding send_put put_matched
  put_if_match key etag body w =
      let (sent, w') = send_put key (some etag) body w in (answered (put_matched key) sent, w')

  unfoldable pub put : Str → Bytes → W → Result StoreError Str × W
  unfolding send_put was_put
  put key body w = let (sent, w') = send_put key none body w in (answered (was_put key) sent, w')

  unfoldable pub delete : Str → W → Result StoreError (Unit {0}) × W
  unfolding delete_reply
  delete key w =
      let (reply, w') =
        net.call s.agent StoreOperation.delete (signed StoreOperation.delete key) [] w in
      (delete_reply key reply, w')

  unfoldable pub cache_namespace : W → Option Str
  cache_namespace w = some s.namespace

  unfoldable pub max_object_bytes : W → Option ℕ
  max_object_bytes w = some s.opts.max_object_bytes
