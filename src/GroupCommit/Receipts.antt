-- ===== src/GroupCommit/Receipts.antt =====
-- Every receipt of examples/group_commit.rs is settled once, in the order of submission, and the memory of
-- the queue and of the batch is bounded.
use waltier.Base.{
  ℕ, zero, suc, ◌+◌, ◌-◌, ◌≤◌, ◌<◌, ◌≡◌, refl, sym, ap, ◌∙◌, inl, inr, Bool, Option, none, some,
  List, [], ◌∷◌, ◌++◌, map, length, ltb, ◌==◌, Result, ok, err, arith, All, All-append, All-split,
  append_assoc, append-nil, length-append, Bool-cases, ltb→le, ltb→lt,
}
use mathlib.Core.Path.{subst}
use waltier.Base.Words.{wrapping_sub}
use waltier.Base.Bytes.{Bytes}
use waltier.Error.{WriteError}
use waltier.Store.{ObjectStore}
use waltier.Cache.Files.{Disk}
use waltier.Wal.Compactor.{Host}
use waltier.Wal.Writer.{WalTier}
use waltier.Wal.Writer.Append.{Range}
use waltier.GroupCommit.{
  Request, SubmissionError, Phase, is_live, Answer, Group, Bounds, start, prepare, enqueue, submit,
  try_submit, receipts_of, acknowledge, reject, dropped, panic, settle, stopped_error, entries_of,
  received, append_batch, serve, finish,
}
use waltier.GroupCommit.Steps.{serve_runs, Step, Run, Reach}

-- The receipts below a number.
unfoldable pub up_to : ℕ → List ℕ
up_to zero = []
up_to (suc n) = up_to n ++ n ∷ []

abbrev pub batch_of : Phase → List Request
batch_of (Phase.gathering batch) = batch
batch_of _ = []

abbrev pub first : ℕ × Option Answer → ℕ
first (receipt, answer) = receipt

abbrev pub settled : List (ℕ × Option Answer) → List ℕ
settled = map first

map-append {ℓ κ} :
    {A : Type ℓ} {B : Type κ} (f : A → B) (xs ys : List A) → map f (xs ++ ys) ≡ map f xs ++ map f ys
map-append f [] ys = refl
map-append f (x ∷ xs) ys = ap (λ t. f x ∷ t) (map-append f xs ys)

settled-acknowledge : (n lsn : ℕ) (rs : List ℕ) → settled (acknowledge n lsn rs) ≡ rs
unfolding acknowledge
settled-acknowledge n lsn [] = refl
settled-acknowledge zero lsn (r ∷ rs) = ap (λ t. r ∷ t) (settled-acknowledge zero lsn rs)
settled-acknowledge (suc n) lsn (r ∷ rs) = ap (λ t. r ∷ t) (settled-acknowledge n (lsn + 1) rs)

settled-reject : (e : WriteError) (rs : List ℕ) → settled (reject e rs) ≡ rs
unfolding reject
settled-reject e [] = refl
settled-reject e (r ∷ rs) = ap (λ t. r ∷ t) (settled-reject e rs)

settled-dropped : (rs : List ℕ) → settled (dropped rs) ≡ rs
unfolding dropped
settled-dropped [] = refl
settled-dropped (r ∷ rs) = ap (λ t. r ∷ t) (settled-dropped rs)

abbrev Fits : Bounds → Request → Type 0
Fits bounds r = length r.entry ≤ bounds.max_entry_bytes

-- What is settled, then the batch, then the queue are all the receipts handed out, in order.
pub record IsOrderly {W : Type 0} (bounds : Bounds) (g : Group W) : Type 0 where
  pub order :
      settled g.answers ++ (receipts_of (batch_of g.phase) ++ receipts_of g.queue)
      ≡ up_to g.receipts
  pub queue : length g.queue ≤ bounds.capacity
  pub batch : length (batch_of g.phase) ≤ bounds.max_batch
  pub entries : All (Fits bounds) (batch_of g.phase ++ g.queue)

abbrev group_or : {W : Type 0} → Group W → Option (Result SubmissionError ℕ × Group W) → Group W
group_or d none = d
group_or d (some (a, g)) = g

-- A submission that does not block leaves what an immediate one leaves.
pub submit_lem :
    {W : Type 0} (bounds : Bounds) (g g' : Group W) (seen : Bool) (entry : Bytes)
    (answer : Result SubmissionError ℕ)
    → submit bounds seen entry g ≡ some (answer, g')
    → (try_submit bounds seen entry g).1 ≡ g'
unfolding submit try_submit prepare
submit_lem {W} bounds g g' seen entry answer e =
    elim (Bool-cases (ltb bounds.max_entry_bytes (length entry))) [
      | inl large ↦ rw (large, try_submit) (group_of (rw (large, submit) at e))
      | inr fits ↦ elim (Bool-cases seen) [
        | inl late ↦ rw (fits, late, try_submit) (group_of (rw (fits, late, submit) at e))
        | inr soon ↦ elim (Bool-cases (is_live g.phase)) [
          | inr dead ↦
              rw (fits, soon, dead, try_submit) (group_of (rw (fits, soon, dead, submit) at e))
          | inl live ↦ elim (Bool-cases (ltb (length g.queue) bounds.capacity)) [
            | inr full ↦
                let blocked : ◌≡◌ {A = Option (Result SubmissionError ℕ × Group W)} none
                    (some (answer, g')) =
                  rw (fits, soon, live, full, submit) at e in
                cc
            | inl room ↦
                rw (fits, soon, live, room, try_submit)
                  (group_of (rw (fits, soon, live, room, submit) at e))
          ]
        ]
      ]
    ]
  where
    group_of :
        {a b : Result SubmissionError ℕ} {h k : Group W}
        → ◌≡◌ {A = Option (Result SubmissionError ℕ × Group W)} (some (a, h)) (some (b, k))
        → h ≡ k
    group_of {h} q = ap (group_or h) q

module _ {W : Type 0} {bounds : Bounds} where
  start-IsOrderly : (wal : WalTier ℕ) (w : W) → IsOrderly bounds (start wal w)
  unfolding start up_to
  start-IsOrderly wal w = record {
    order = refl;
    queue = omega arith;
    batch = omega arith;
    entries = tt;
  }

  enqueue-IsOrderly :
      (g : Group W) (entry : Bytes)
      → IsOrderly bounds g
      → length entry ≤ bounds.max_entry_bytes
      → length g.queue < bounds.capacity
      → IsOrderly bounds (enqueue entry g)
  unfolding enqueue up_to
  enqueue-IsOrderly g entry o fits room =
      let r : Request = record { entry = entry; receipt = g.receipts } in
      let b = receipts_of (batch_of g.phase) in
      record {
        order =
            ap (λ q. settled g.answers ++ (b ++ q))
              (map-append (λ (r : Request). r.receipt) g.queue (r ∷ []))
            ∙ ap (λ q. settled g.answers ++ q)
                (sym (append_assoc b (receipts_of g.queue) (g.receipts ∷ [])))
            ∙ sym (append_assoc (settled g.answers) (b ++ receipts_of g.queue) (g.receipts ∷ []))
            ∙ ap (λ l. l ++ g.receipts ∷ []) o.order
            ∙ ap up_to {x = suc g.receipts} {y = g.receipts + 1} (omega arith);
        queue = omega (arith, length-append g.queue (r ∷ []));
        batch = o.batch;
        entries =
            subst (All (Fits bounds)) (append_assoc (batch_of g.phase) g.queue (r ∷ [])) (
              All-append (Fits bounds) (batch_of g.phase ++ g.queue) (r ∷ []) o.entries (fits, tt));
      }

  received-IsOrderly :
      (g : Group W) (batch : List Request) (r : Request) (rest : List Request)
      → IsOrderly bounds g
      → batch_of g.phase ≡ batch
      → length batch < bounds.max_batch
      → g.queue ≡ r ∷ rest
      → IsOrderly bounds (received batch r rest g)
  unfolding received
  received-IsOrderly g batch r rest o is room q = record {
    order =
        ap (λ l. settled g.answers ++ l)
          (ap (λ l. l ++ receipts_of rest) (map-append (λ (r : Request). r.receipt) batch (r ∷ []))
            ∙ append_assoc (receipts_of batch) (r.receipt ∷ []) (receipts_of rest)
            ∙ ap (λ b. receipts_of b ++ r.receipt ∷ receipts_of rest) (sym is)
            ∙ ap (λ l. receipts_of (batch_of g.phase) ++ receipts_of l) (sym q))
        ∙ o.order;
    queue = omega (arith, ap length q, o.queue);
    batch = omega (arith, length-append batch (r ∷ []));
    entries =
        subst (All (Fits bounds))
          (ap (λ b. b ++ g.queue) is
            ∙ ap (λ l. batch ++ l) q
            ∙ sym (append_assoc batch (r ∷ []) rest))
          o.entries;
  }

  panic-IsOrderly :
      (g : Group W) (batch : List Request)
      → IsOrderly bounds g
      → batch_of g.phase ≡ batch
      → IsOrderly bounds (panic batch g)
  unfolding panic
  panic-IsOrderly g batch o is = record {
    order =
        append-nil
          (settled (g.answers ++ (dropped (receipts_of batch) ++ dropped (receipts_of g.queue))))
        ∙ map-append first g.answers (dropped (receipts_of batch) ++ dropped (receipts_of g.queue))
        ∙ ap (λ l. settled g.answers ++ l)
            (map-append first (dropped (receipts_of batch)) (dropped (receipts_of g.queue))
              ∙ ap (λ l. l ++ settled (dropped (receipts_of g.queue)))
                  (settled-dropped (receipts_of batch))
              ∙ ap (λ l. receipts_of batch ++ l) (settled-dropped (receipts_of g.queue))
              ∙ ap (λ b. receipts_of b ++ receipts_of g.queue) (sym is))
        ∙ o.order;
    queue = omega arith;
    batch = omega arith;
    entries = tt;
  }

  -- The end of a batch, with an answer for each of its receipts.
  answered-IsOrderly :
      (g g' : Group W) (batch : List Request) (more : List (ℕ × Option Answer))
      → IsOrderly bounds g
      → batch_of g.phase ≡ batch
      → settled more ≡ receipts_of batch
      → g'.answers ≡ g.answers ++ more
      → g'.queue ≡ g.queue
      → g'.receipts ≡ g.receipts
      → g'.phase ≡ Phase.waiting
      → IsOrderly bounds g'
  answered-IsOrderly g g' batch more o is all answers queue receipts phase = record {
    order =
        ap (λ p. settled g'.answers ++ (receipts_of (batch_of p) ++ receipts_of g'.queue)) phase
        ∙ ap (λ a. settled a ++ receipts_of g'.queue) answers
        ∙ ap (λ q. settled (g.answers ++ more) ++ receipts_of q) queue
        ∙ ap (λ l. l ++ receipts_of g.queue) (map-append first g.answers more)
        ∙ append_assoc (settled g.answers) (settled more) (receipts_of g.queue)
        ∙ ap (λ m. settled g.answers ++ (m ++ receipts_of g.queue)) (all ∙ ap receipts_of (sym is))
        ∙ o.order
        ∙ ap up_to (sym receipts);
    queue = subst (λ q. length q ≤ bounds.capacity) (sym queue) o.queue;
    batch = omega (arith, ap (λ p. length (batch_of p)) phase);
    entries =
        subst (λ p. All (Fits bounds) (batch_of p ++ g'.queue)) (sym phase)
          (subst (All (Fits bounds)) (sym queue)
            (All-split (Fits bounds) (batch_of g.phase) g.queue o.entries).1);
  }

  settle-IsOrderly :
      (g : Group W) (batch : List Request) (result : Option (Result WriteError Range))
      → IsOrderly bounds g
      → batch_of g.phase ≡ batch
      → IsOrderly bounds (settle batch result g)
  unfolding settle
  settle-IsOrderly g batch none o is = panic-IsOrderly g batch o is
  settle-IsOrderly g batch (some (ok (first, end))) o is =
      elim (Bool-cases (wrapping_sub end first == length batch)) [
        | inl whole ↦ rw whole (
            answered-IsOrderly g _ batch (acknowledge (end - first) first (receipts_of batch)) o is
              (settled-acknowledge (end - first) first (receipts_of batch)) refl refl refl refl)
        | inr broken ↦ rw broken (panic-IsOrderly g batch o is)
      ]
  settle-IsOrderly g batch (some (err e)) o is =
      answered-IsOrderly g _ batch (reject e (receipts_of batch)) o is
        (settled-reject e (receipts_of batch)) refl refl refl refl

  try_submit-IsOrderly :
      (g : Group W) (seen : Bool) (entry : Bytes)
      → IsOrderly bounds g
      → IsOrderly bounds (try_submit bounds seen entry g).1
  unfolding try_submit prepare
  try_submit-IsOrderly g seen entry o =
      elim (Bool-cases (ltb bounds.max_entry_bytes (length entry))) [
        | inl large ↦ rw (large, try_submit) o
        | inr fits ↦ elim (Bool-cases seen) [
          | inl late ↦ rw (fits, late, try_submit) o
          | inr soon ↦ elim (Bool-cases (is_live g.phase)) [
            | inr dead ↦ rw (fits, soon, dead, try_submit) o
            | inl live ↦ elim (Bool-cases (ltb (length g.queue) bounds.capacity)) [
              | inr full ↦ rw (fits, soon, live, full, try_submit) o
              | inl room ↦
                  rw (fits, soon, live, room, try_submit)
                    (enqueue-IsOrderly g entry o (ltb→le bounds.max_entry_bytes (length entry) fits)
                      (ltb→lt (length g.queue) bounds.capacity room))
            ]
          ]
        ]
      ]

module _ {W : Type 0} (store : ObjectStore W) (disk : Disk W) (host : Host W)
    {bounds : Bounds} where
  append_batch-IsOrderly :
      (g : Group W) (batch : List Request)
      → IsOrderly bounds g
      → IsOrderly bounds (append_batch store disk host batch g).1
  unfolding append_batch
  append_batch-IsOrderly g batch o = record {
    order = o.order;
    queue = o.queue;
    batch = o.batch;
    entries = o.entries;
  }

  serve-IsOrderly :
      (g : Group W) (batch : List Request)
      → IsOrderly bounds g
      → batch_of g.phase ≡ batch
      → IsOrderly bounds (serve store disk host batch g)
  unfolding serve
  serve-IsOrderly g batch o is =
      let (result, appended) = append_batch store disk host batch g in
      elim (Bool-cases g.stopped) [
        | inl stopped ↦
            rw (stopped, serve)
              (settle-IsOrderly g batch (some (err (stopped_error (entries_of batch)))) o is)
        | inr runs ↦ subst (IsOrderly bounds) (sym (serve_runs store disk host batch g runs)) (
            settle-IsOrderly appended batch result (append_batch-IsOrderly g batch o)
              (unfold append_batch in is))
      ]

  step-IsOrderly :
      {g g' : Group W}
      → 0 < bounds.max_batch
      → Step store disk host bounds g g'
      → IsOrderly bounds g
      → IsOrderly bounds g'
  unfolding finish
  step-IsOrderly positive (Step.elsewhere w) o = record {
    order = o.order;
    queue = o.queue;
    batch = o.batch;
    entries = o.entries;
  }
  step-IsOrderly positive (Step.submitting seen entry answer g' live e) o =
      subst (IsOrderly bounds) (submit_lem bounds _ g' seen entry answer e)
        (try_submit-IsOrderly _ seen entry o)
  step-IsOrderly positive (Step.trying seen entry live) o = try_submit-IsOrderly _ seen entry o
  step-IsOrderly positive Step.dropping o = record {
    order = o.order;
    queue = o.queue;
    batch = o.batch;
    entries = o.entries;
  }
  step-IsOrderly positive (Step.receiving r rest is q) o =
      received-IsOrderly _ [] r rest o (ap batch_of is) positive q
  step-IsOrderly positive (Step.gathering batch r rest is room q) o =
      received-IsOrderly _ batch r rest o (ap batch_of is) room q
  step-IsOrderly positive (Step.serving batch is full) o =
      serve-IsOrderly _ batch o (ap batch_of is)
  step-IsOrderly {g} positive (Step.finishing is empty gone) o = record {
    order =
        ap (λ p. settled g.answers ++ (receipts_of (batch_of p) ++ receipts_of g.queue)) (sym is)
        ∙ o.order;
    queue = o.queue;
    batch = omega arith;
    entries = subst (λ p. All (Fits bounds) (batch_of p ++ g.queue)) is o.entries;
  }

  -- In every state that the program reaches, the receipts that are settled, then those of the batch, then those
  -- of the queue are all that were handed out, each once and in the order of submission; the queue and
  -- the batch are no longer than their bounds, and neither is any entry in them. A batch has a positive bound.
  pub Reach-IsOrderly :
      (wal : WalTier ℕ) (w : W) {g : Group W}
      → 0 < bounds.max_batch
      → Reach store disk host bounds wal w g
      → IsOrderly bounds g
  Reach-IsOrderly wal w positive Run.here = start-IsOrderly wal w
  Reach-IsOrderly wal w positive (Run.next run step) =
      step-IsOrderly positive step (Reach-IsOrderly wal w positive run)
