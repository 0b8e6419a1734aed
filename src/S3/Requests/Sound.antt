-- ===== src/S3/Requests/Sound.antt =====
-- What the answers of the S3 store of src/s3.rs say of the requests behind them.
use waltier.Base.{
  ℕ, ◌≤◌, ◌<◌, ◌≡◌, refl, Bool, true, false, Option, none, some, is_some, [], ◌∷◌, length, ltb,
  ◌==◌, Result, ok, err, arith, inl, inr, Bool-cases, Result-cases,
}
use waltier.Base.Words.{wrapping_add}
use waltier.Base.Bytes.{Bytes}
use waltier.Base.Text.{Str, text}
use waltier.Error.{StoreOperation, StoreError, not_applied}
use waltier.Error.StoreErrors
use waltier.Store.{CondGet}
use waltier.S3.{Response, Reply, response, failed_status, transport, Network, S3Store, store_error}
use waltier.S3.Requests
use waltier.S3.Requests.{
  etag_of, read_body, received, get_response, get_reply, put_matched, was_put, delete_reply,
  put_reply, condition_headers, send_put, get_if_changed, put_if_match, put, delete, declared, over,
  unexpected,
}

-- A failed GET has changed nothing, and names its key.
pub record GetFailed (key : Str) (e : StoreError) : Type 0 where
  pub outcome : e.mutation_outcome ≡ not_applied
  pub operation : e.operation ≡ some StoreOperation.get
  pub at : e.key ≡ some key

abbrev pub GetAnswer : ℕ → Str → Bool → Result StoreError CondGet → Type 0
GetAnswer limit key conditional (err e) = GetFailed key e
GetAnswer limit key conditional (ok (CondGet.changed s)) =
    (length s.body ≤ limit) × (0 < length s.etag)
GetAnswer limit key conditional (ok CondGet.not_modified) = conditional ≡ true
GetAnswer limit key conditional (ok CondGet.missing) = Unit

get_error :
    (key : Str) (status : Option ℕ) (m : Str)
    → GetFailed key (store_error StoreOperation.get key status m)
unfolding store_error StoreErrors.new StoreErrors.with_context StoreErrors.not_applied
get_error key status m = record { outcome = refl; operation = refl; at = refl }

abbrev EtagAnswer : Str → Result StoreError Str → Type 0
EtagAnswer key (err e) = GetFailed key e
EtagAnswer key (ok etag) = 0 < length etag

abbrev BodyAnswer : ℕ → Str → Result StoreError Bytes → Type 0
BodyAnswer limit key (err e) = GetFailed key e
BodyAnswer limit key (ok body) = length body ≤ limit

etag_of-EtagAnswer : (key : Str) (r : Response) → EtagAnswer key (etag_of StoreOperation.get key r)
unfolding etag_of
etag_of-EtagAnswer key r = header_case (r.header (text "etag")) refl
  where
    header_case :
        (h : Option Str)
        → r.header (text "etag") ≡ h
        → EtagAnswer key (etag_of StoreOperation.get key r)
    header_case none e = rw (e, etag_of) (get_error key _ _)
    header_case (some []) e = rw (e, etag_of) (get_error key _ _)
    header_case (some (b ∷ s)) e = rw (e, etag_of) (omega arith)

read_body-BodyAnswer :
    (limit : ℕ) (key : Str) (r : Response) → BodyAnswer limit key (read_body limit key r)
unfolding read_body
read_body-BodyAnswer limit key r =
    elim (Bool-cases (over limit (declared (r.header (text "Content-Length"))))) [
      | inl long ↦ rw (long, read_body) (get_error key _ _)
      | inr short ↦ elim (Result-cases (r.read (wrapping_add limit 1))) [
        | inr (m, e) ↦ rw (short, e, read_body) (get_error key _ _)
        | inl (bytes, e) ↦ elim (Bool-cases (ltb limit (length bytes))) [
          | inl long ↦ rw (short, e, long, read_body) (get_error key _ _)
          | inr fits ↦ rw (short, e, fits, read_body) (ground (arith, fits))
        ]
      ]
    ]

received-GetAnswer :
    (limit : ℕ) (key : Str) (conditional : Bool) (etag : Result StoreError Str)
    (body : Result StoreError Bytes)
    → EtagAnswer key etag
    → BodyAnswer limit key body
    → GetAnswer limit key conditional (received key etag body)
received-GetAnswer limit key conditional (err e) body p q = p
received-GetAnswer limit key conditional (ok etag) (err e) p q = q
received-GetAnswer limit key conditional (ok etag) (ok body) p q = (q, p)

get_response-GetAnswer :
    (limit : ℕ) (key : Str) (conditional : Bool) (r : Response)
    → GetAnswer limit key conditional (get_response limit key conditional r)
unfolding get_response
get_response-GetAnswer limit key conditional r = elim (Bool-cases (r.status == 304)) [
  | inl same ↦ elim (Bool-cases conditional) [
    | inl sent ↦ rw (same, sent, get_response) refl
    | inr plain ↦ rw (same, plain, get_response) (get_error key _ _)
  ]
  | inr other ↦ elim (Bool-cases (r.status == 404)) [
    | inl gone ↦ rw (other, gone, get_response) tt
    | inr there ↦ elim (Bool-cases (r.status == 200)) [
      | inl fine ↦
          rw (other, there, fine, get_response)
            (received-GetAnswer limit key conditional _ _ (etag_of-EtagAnswer key r)
              (read_body-BodyAnswer limit key r))
      | inr strange ↦ rw (other, there, strange, get_response) (get_error key _ _)
    ]
  ]
]

get_reply-GetAnswer :
    (limit : ℕ) (key : Str) (conditional : Bool) (reply : Reply)
    → GetAnswer limit key conditional (get_reply limit key conditional reply)
unfolding get_reply
get_reply-GetAnswer limit key conditional (response r) =
    get_response-GetAnswer limit key conditional r
get_reply-GetAnswer limit key conditional (failed_status r) =
    get_response-GetAnswer limit key conditional r
get_reply-GetAnswer limit key conditional (transport m) = get_error key none m

found-returns :
    (limit : ℕ) (key : Str) (got : Result StoreError CondGet)
    → GetAnswer limit key false got
    → is_some (Requests.found got) ≡ true
found-returns limit key (err e) a = refl
found-returns limit key (ok (CondGet.changed o)) a = refl
found-returns limit key (ok CondGet.not_modified) a = cc
found-returns limit key (ok CondGet.missing) a = refl

module _ {B W : Type 0} (net : Network B W) (s : S3Store B) where
  -- Whatever the server answers to a GET: an error says that nothing was applied and names the operation
  -- and the key; a body is within the limit and has a non-empty validator; and NotModified is answered only
  -- to a request that named a validator, so that the unconditional `get` never panics.
  pub get_if_changed-GetAnswer :
      (key : Str) (etag : Option Str) (w : W)
      → GetAnswer s.opts.max_object_bytes key (is_some etag) (get_if_changed net s key etag w).0
        × (is_some (Requests.get net s key w).0 ≡ true)
  unfolding get_if_changed Requests.get
  get_if_changed-GetAnswer key etag w = (
    get_reply-GetAnswer s.opts.max_object_bytes key (is_some etag) (reply_to etag),
    found-returns s.opts.max_object_bytes key _
        (get_reply-GetAnswer s.opts.max_object_bytes key false (reply_to none)),
  )
    where
      reply_to : Option Str → Reply
      reply_to e =
          (net.call s.agent StoreOperation.get (Requests.signed net s StoreOperation.get key)
            (Requests.match_headers e) w).0
