-- ===== src/S3.antt =====
-- src/s3.rs: the configuration of the S3 store, its errors, and the upload of a body. `U` is a parsed
-- URL and `B` a bucket of the crate that signs requests; a duration is a number of nanoseconds.
pub mod Requests
pub mod Chunks
use waltier.Base.{
  ℕ, zero, suc, ◌+◌, ◌*◌, ◌^◌, Bool, true, false, ◌&&◌, ◌||◌, Option, none, some, List, [], ◌∷◌,
  ◌++◌, length, take, drop, min, ltb, leb, ◌==◌, if◌then◌else◌, Result, ok, err,
}
use waltier.Base.Words.{isize_max}
use waltier.Base.Bytes.{Bytes}
use waltier.Base.Text.{Str, text, decimal}
use waltier.Error.{StoreOperation, StoreError}
use waltier.Error.StoreErrors

abbrev pub secs : ℕ → ℕ
secs n = n * 1_000_000_000

abbrev pub sign_ttl : ℕ
sign_ttl = secs 300

pub record S3Config : Type 0 where
  pub endpoint : Str
  pub region : Str
  pub bucket : Str
  pub access_key : Str
  pub secret_key : Str
  pub path_style : Bool

pub record S3Options : Type 0 where
  pub connect_timeout : ℕ
  pub request_timeout : ℕ
  pub max_object_bytes : ℕ

unfoldable pub default_options : S3Options
default_options = record {
  connect_timeout = secs 10;
  request_timeout = secs 60;
  max_object_bytes = 2 ^ 30;
}

-- What an agent is built with: the two timeouts, and how many redirects it follows.
pub record Agent : Type 0 where
  pub timeout_connect : ℕ
  pub timeout : ℕ
  pub redirects : ℕ

-- A response: the status, the headers, and what a reader of at most so many bytes of the body gives.
pub record Response : Type 0 where
  pub status : ℕ
  pub header : Str → Option Str
  pub read : ℕ → Result Str Bytes

-- What a call answers: a response, an error that carries one (by its status), or a transport error.
pub data Reply : Type 0 where
  response failed_status : Response → Reply
  transport : Str → Reply

-- A body on its way, and when it must have been read.
pub record Upload : Type 0 where
  pub remaining : Bytes
  pub deadline : ℕ

-- The URL parser and the signing crate: the text of a URL, and buckets.
pub record Crates (U B : Type 0) : Type 0 where
  pub parse_url : Str → Result Str U
  pub url_text : U → Str
  pub bucket : U → Bool → Str → Str → Result Str B

-- The signed URL of a request, the transport, and the clock.
pub record Network (B W : Type 0) : Type 0 where
  pub sign : StoreOperation → B → Str → Str → Str → ℕ → Str
  pub call : Agent → StoreOperation → Str → List (Str × Str) → W → Reply × W
  pub send : Agent → Str → List (Str × Str) → Upload → W → Reply × W
  pub now : W → ℕ

pub record S3Store (B : Type 0) : Type 0 where
  pub bucket : B
  pub access_key : Str
  pub secret_key : Str
  pub agent : Agent
  pub namespace : Str
  pub opts : S3Options

abbrev pub has_bad_options : S3Options → Bool
has_bad_options o =
    o.connect_timeout == 0
    || (o.request_timeout == 0
        || (leb sign_ttl o.request_timeout
            || (o.max_object_bytes == 0 || ltb isize_max o.max_object_bytes)))

abbrev bool_text : Bool → Str
bool_text true = text "true"
bool_text false = text "false"

abbrev sized : Str → Str
sized s = decimal (length s) ++ (b':' ∷ s)

-- The identity of the backing bucket, for the cache.
unfoldable pub namespace_of : Str → S3Config → Str
namespace_of endpoint cfg =
    text "s3:"
    ++ (sized endpoint
        ++ (b':'
            ∷ (sized cfg.bucket
                ++ (b':'
                    ∷ (sized cfg.access_key
                        ++ (b':' ∷ (cfg.region ++ (b':' ∷ bool_text cfg.path_style))))))))

unfoldable pub config_error : Str → StoreError
config_error message = StoreErrors.not_applied (StoreErrors.new message)

module _ {U B : Type 0} (crates : Crates U B) where
  unfoldable pub new_with_options : S3Config → S3Options → Result StoreError (S3Store B)
  unfolding config_error namespace_of
  new_with_options cfg opts =
      if has_bad_options opts
      then err (
          config_error (
            text
              "S3 timeouts/body budget must be positive; request timeout must be below 300 seconds and body budget must fit isize"))
      else elim (crates.parse_url cfg.endpoint) [
        | err m ↦ err (config_error (text "bad endpoint: " ++ m))
        | ok endpoint ↦ elim (crates.bucket endpoint cfg.path_style cfg.bucket cfg.region) [
          | err m ↦ err (config_error (text "bad bucket config: " ++ m))
          | ok bucket ↦
              let agent : Agent = record {
                timeout_connect = min opts.connect_timeout opts.request_timeout;
                timeout = opts.request_timeout;
                redirects = 0;
              } in
              ok (record {
                bucket = bucket;
                access_key = cfg.access_key;
                secret_key = cfg.secret_key;
                agent = agent;
                namespace = namespace_of (crates.url_text endpoint) cfg;
                opts = opts;
              })
        ]
      ]

  unfoldable pub new : S3Config → Result StoreError (S3Store B)
  unfolding new_with_options default_options
  new cfg = new_with_options cfg default_options

-- `Read for Upload`: a chunk of at most 8192 bytes, unless the deadline has passed.
unfoldable pub read_upload : ℕ → ℕ → Upload → Option (Bytes × Upload)
read_upload now room u =
    let count = min (min room (length u.remaining)) 8192 in
    if leb u.deadline now
    then none
    else some (take count u.remaining, record u { remaining = drop count u.remaining })

-- `{op:?}`
abbrev op_text : StoreOperation → Str
op_text StoreOperation.get = text "Get"
op_text StoreOperation.put = text "Put"
op_text StoreOperation.delete = text "Delete"

abbrev is_get : StoreOperation → Bool
is_get StoreOperation.get = true
is_get _ = false

-- The error of a request: a failed GET has changed nothing.
unfoldable pub store_error : StoreOperation → Str → Option ℕ → Str → StoreError
store_error op key status message =
    let error =
      StoreErrors.with_context
        (StoreErrors.new (op_text op ++ (text " " ++ (key ++ (text ": " ++ message))))) op key
        status in
    if is_get op then StoreErrors.not_applied error else error
