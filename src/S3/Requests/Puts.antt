-- ===== src/S3/Requests/Puts.antt =====
-- What an answer of the S3 store of src/s3.rs to a mutation says of the request behind it.
use waltier.Base.{
  ℕ, ◌+◌, ◌≤◌, ◌<◌, ◌≡◌, refl, sym, ap, ◌∙◌, false, ◌||◌, ◌&&◌, Option, none, some, List, [], ◌∷◌,
  length, ltb, leb, ◌==◌, Result, ok, err, arith, ◌⊎◌, inl, inr, Bool-cases, Result-cases,
  not-ok_err, ok-injective, ==_iff,
}
use mathlib.Core.Path.{subst}
use waltier.Base.Bytes.{Bytes}
use waltier.Base.Text.{Str, text, decimal}
use waltier.Error.{StoreOperation, StoreError, unknown}
use waltier.Error.StoreErrors
use waltier.Store.{CondPut, accepted, precondition_failed, Honest}
use waltier.S3.{
  Response, Reply, response, failed_status, transport, Network, S3Store, is_get, store_error,
}
use waltier.S3.Requests.{
  etag_of, put_matched, was_put, delete_reply, put_reply, condition_headers, answered, signed,
  send_put, put_if_match, put, delete,
}

-- Every error but that of an unsent body leaves the outcome open.
abbrev pub Open {ℓ} : {A : Type ℓ} → Result StoreError A → Type 0
Open (err e) = e.mutation_outcome ≡ unknown
Open (ok a) = Unit

open_error :
    (op : StoreOperation) (key : Str) (status : Option ℕ) (m : Str)
    → is_get op ≡ false
    → (store_error op key status m).mutation_outcome ≡ unknown
unfolding store_error StoreErrors.new StoreErrors.with_context StoreErrors.not_applied
open_error StoreOperation.get key status m h = cc
open_error StoreOperation.put key status m h = refl
open_error StoreOperation.delete key status m h = refl

etag_of-Open : (key : Str) (r : Response) → Open (etag_of StoreOperation.put key r)
unfolding etag_of
etag_of-Open key r = header_case (r.header (text "etag")) refl
  where
    header_case :
        (h : Option Str) → r.header (text "etag") ≡ h → Open (etag_of StoreOperation.put key r)
    header_case none e = rw (e, etag_of) (open_error StoreOperation.put key _ _ refl)
    header_case (some []) e = rw (e, etag_of) (open_error StoreOperation.put key _ _ refl)
    header_case (some (b ∷ s)) e = rw (e, etag_of) tt

put_matched-Open : (key : Str) (r : Response) → Open (put_matched key r)
unfolding put_matched
put_matched-Open key r = elim (Bool-cases (r.status == 200)) [
  | inl fine ↦ elim (Result-cases (etag_of StoreOperation.put key r)) [
    | inl (etag, e) ↦ rw (fine, e, put_matched) tt
    | inr (x, e) ↦ rw (fine, e, put_matched) (subst Open e (etag_of-Open key r))
  ]
  | inr other ↦ elim (Bool-cases (r.status == 409 || r.status == 412)) [
    | inl lost ↦ rw (other, lost, put_matched) tt
    | inr strange ↦ rw (other, strange, put_matched) (open_error StoreOperation.put key _ _ refl)
  ]
]

was_put-Open : (key : Str) (r : Response) → Open (was_put key r)
unfolding was_put
was_put-Open key r = elim (Bool-cases (r.status == 200)) [
  | inl fine ↦ rw (fine, was_put) (etag_of-Open key r)
  | inr other ↦ rw (other, was_put) (open_error StoreOperation.put key _ _ refl)
]

delete_reply-Open : (key : Str) (reply : Reply) → Open (delete_reply key reply)
unfolding delete_reply
delete_reply-Open key (response r) = elim (Bool-cases (leb 200 r.status && ltb r.status 300)) [
  | inl fine ↦ rw (fine, delete_reply) tt
  | inr other ↦ rw (other, delete_reply) (open_error StoreOperation.delete key _ _ refl)
]
delete_reply-Open key (failed_status r) = elim (Bool-cases (r.status == 404)) [
  | inl gone ↦ rw (gone, delete_reply) tt
  | inr other ↦ rw (other, delete_reply) (open_error StoreOperation.delete key _ _ refl)
]
delete_reply-Open key (transport m) = open_error StoreOperation.delete key none m refl

put_reply-Open : (key : Str) (reply : Reply) → Open (put_reply key reply)
put_reply-Open key (response r) = tt
put_reply-Open key (failed_status r) = tt
put_reply-Open key (transport m) = open_error StoreOperation.put key none m refl

answered-Open {ℓ} :
    {A : Type ℓ} (read : Response → Result StoreError A) (sent : Result StoreError Response)
    → ((r : Response) → Open (read r))
    → Open sent
    → Open (answered read sent)
answered-Open read (err e) h o = o
answered-Open read (ok r) h o = h r

-- What an accepted PUT, or one that lost, has seen: the response of the server to the request.
pub record Answered (op_answer : Result StoreError CondPut) (r : Response) : Type 0 where
  pub accepts :
      (etag : Str)
      → op_answer ≡ ok (accepted etag)
      → (r.status ≡ 200) × ((r.header (text "etag") ≡ some etag) × (0 < length etag))
  pub rejects : op_answer ≡ ok precondition_failed → (r.status ≡ 409) ⊎ (r.status ≡ 412)

etag_of-header :
    (key : Str) (r : Response) (etag : Str)
    → etag_of StoreOperation.put key r ≡ ok etag
    → (r.header (text "etag") ≡ some etag) × (0 < length etag)
unfolding etag_of
etag_of-header key r etag e = header_case (r.header (text "etag")) refl e
  where
    header_case :
        (h : Option Str)
        → r.header (text "etag") ≡ h
        → etag_of StoreOperation.put key r ≡ ok etag
        → (r.header (text "etag") ≡ some etag) × (0 < length etag)
    header_case none h q = absurd (not-ok_err (rw (h, etag_of) at q))
    header_case (some []) h q = absurd (not-ok_err (rw (h, etag_of) at q))
    header_case (some (b ∷ s)) h q =
        let same : b ∷ s ≡ etag = ok-injective (rw (h, etag_of) at q) in
        (h ∙ ap some same, subst (λ t. 0 < length t) same (omega arith))

abbrev etag_in : Result StoreError CondPut → Str
etag_in (ok (accepted etag)) = etag
etag_in _ = []

put_matched-Answered : (key : Str) (r : Response) → Answered (put_matched key r) r
unfolding put_matched
put_matched-Answered key r = elim (Bool-cases (r.status == 200)) [
  | inl fine ↦ elim (Result-cases (etag_of StoreOperation.put key r)) [
    | inl (given, good) ↦
        rw (fine, good, put_matched)
          (record {
            accepts = λ etag e. (
              (==_iff r.status 200).0 fine,
              etag_of-header key r etag (good ∙ ap ok (ap etag_in e)),
            );
            rejects = λ e. cc;
          })
    | inr (x, bad) ↦
        rw (fine, bad, put_matched)
          (record {
            accepts = λ etag e. absurd (not-ok_err e);
            rejects = λ e. absurd (not-ok_err e);
          })
  ]
  | inr other ↦ elim (Bool-cases (r.status == 409 || r.status == 412)) [
    | inl lost ↦
        rw (other, lost, put_matched)
          (record { accepts = λ etag e. cc; rejects = λ e. ground (arith, lost) })
    | inr strange ↦
        rw (other, strange, put_matched)
          (record {
            accepts = λ etag e. absurd (not-ok_err e);
            rejects = λ e. absurd (not-ok_err e);
          })
  ]
]

-- What HTTP asks for an update of a version, or for a creation.
abbrev pub precondition : Option Str → Str × Str
precondition none = (text "If-None-Match", text "*")
precondition (some etag) = (text "If-Match", etag)

precondition_lem : (etag : Option Str) → condition_headers (some etag) ≡ precondition etag ∷ []
precondition_lem none = refl
precondition_lem (some etag) = refl

module _ {B W : Type 0} (net : Network B W) (s : S3Store B) where
  send_put-cases :
      (key : Str) (condition : Option (Option Str)) (body : Bytes) (w : W)
      → ((send_put net s key condition body w).1 ≡ w) ⊎ Open (send_put net s key condition body w).0
  unfolding send_put
  send_put-cases key condition body w =
      elim (Bool-cases (ltb s.opts.max_object_bytes (length body))) [
        | inl long ↦ inl (rw (long, send_put) refl)
        | inr short ↦ inr (rw (short, send_put) (put_reply-Open key _))
      ]

  sent-Honest {ℓ} :
      {A : Type ℓ} (key : Str) (condition : Option (Option Str)) (body : Bytes)
      (read : Response → Result StoreError A)
      → ((r : Response) → Open (read r))
      → Honest
          (λ (v : W). v)
          (λ w. (
            answered read (send_put net s key condition body w).0,
            (send_put net s key condition body w).1,
          ))
  sent-Honest key condition body read h w w' e q says = elim (send_put-cases key condition body w) [
    | inl same ↦ ap (λ r. r.1) (sym q) ∙ same
    | inr o ↦
        let unsure : e.mutation_outcome ≡ unknown =
          subst Open (ap (λ r. r.0) q) (answered-Open read _ h o) in
        cc
  ]

  -- An error of a mutation of the S3 store that claims that nothing was applied is true: the world is as it
  -- was before.
  pub mutations-Honest :
      (key : Str) (etag : Option Str) (body : Bytes)
      → Honest (λ (v : W). v) (put_if_match net s key etag body)
        × Honest (λ (v : W). v) (put net s key body)
        × Honest (λ (v : W). v) (delete net s key)
  unfolding put_if_match put delete
  mutations-Honest key etag body = (
    sent-Honest key (some etag) body (put_matched key) (put_matched-Open key),
    sent-Honest key none body (was_put key) (was_put-Open key),
    λ w w' e q says.
        let unsure : e.mutation_outcome ≡ unknown = subst Open (ap (λ r. r.0) q) (
          delete_reply-Open key
            (net.call s.agent StoreOperation.delete (signed net s StoreOperation.delete key) []
              w).0) in
        cc,
  )

  -- The request of a PUT with these headers behind its length, and what the transport answers to it.
  abbrev pub sent_with : List (Str × Str) → Str → Bytes → W → Reply × W
  sent_with conditions key body w =
      let headers = (text "Content-Length", decimal (length body)) ∷ conditions in
      net.send s.agent (signed net s StoreOperation.put key) headers
        (record { remaining = body; deadline = net.now w + s.opts.request_timeout }) w

  abbrev SentWith : List (Str × Str) → Str → Bytes → W → W → CondPut → Type 0
  SentWith conditions key body w w' answer =
      (length body ≤ s.opts.max_object_bytes)
      × ((sent_with conditions key body w).1 ≡ w')
      × ((r : Response) × (put_reply key (sent_with conditions key body w).0 ≡ ok r)
          × Answered (ok answer) r)

  put_if_match-SentWith :
      (key : Str) (etag : Option Str) (body : Bytes) (w w' : W) (answer : CondPut)
      → put_if_match net s key etag body w ≡ (ok answer, w')
      → SentWith (condition_headers (some etag)) key body w w' answer
  unfolding put_if_match send_put
  put_if_match-SentWith key etag body w w' answer e =
      let conditions = condition_headers (some etag) in
      elim (Bool-cases (ltb s.opts.max_object_bytes (length body))) [
        | inl long ↦ absurd (not-ok_err (ap (λ r. r.0) (rw (long, send_put) at e)))
        | inr short ↦
            let sent = rw (short, send_put) at e in
            elim (Result-cases (put_reply key (sent_with conditions key body w).0)) [
              | inr (x, bad) ↦ absurd (not-ok_err (rw (bad, answered) at (ap (λ r. r.0) sent)))
              | inl (r, good) ↦ (
                ground (arith, short),
                ap (λ p. p.1) sent,
                (
                  r,
                  good,
                  subst (λ a. Answered a r) (rw (good, answered) at (ap (λ p. p.0) sent))
                      (put_matched-Answered key r),
                ),
              )
            ]
      ]

  -- A conditional PUT that is accepted or lost has sent a body within the limit, under one condition: `If-Match`
  -- with the expected validator, or `If-None-Match: *` without one. It got a response: accepted only with the
  -- status 200 and that non-empty validator, and lost only with the status 409 or 412.
  pub put_if_match-Answered :
      (key : Str) (etag : Option Str) (body : Bytes) (w w' : W) (answer : CondPut)
      → put_if_match net s key etag body w ≡ (ok answer, w')
      → (length body ≤ s.opts.max_object_bytes)
        × ((sent_with (precondition etag ∷ []) key body w).1 ≡ w')
        × ((r : Response) × (put_reply key (sent_with (precondition etag ∷ []) key body w).0 ≡ ok r)
            × Answered (ok answer) r)
  put_if_match-Answered key etag body w w' answer e =
      subst (λ conditions. SentWith conditions key body w w' answer) (precondition_lem etag)
        (put_if_match-SentWith key etag body w w' answer e)
