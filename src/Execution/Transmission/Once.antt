-- ===== src/Execution/Transmission/Once.antt =====
-- The invariant of the system: each request that may have left, and each worker that may still send or
-- take back its attempt, is covered by an attempt marked as sent, and a proposal has at most one of these.
use stock_brain.Prelude.{
  ℕ, ◌+◌, ◌≤◌, ◌≡◌, refl, List, [], ◌∷◌, ◌++◌, Option, some, none, Bool, true, false, arith,
  Bool-cases, inl, inr, if◌then◌else◌, ◌==◌, ◌&&◌, All,
}
use stock_brain.Store.{Store}
use stock_brain.Execution.Run.{Answer}
use stock_brain.Execution.Effects.{marks}
use stock_brain.Execution.Transmission.{Worker, System, may_have_left}
use stock_brain.Execution.Transmission.Tally.{tally, tally-append}
use stock_brain.Execution.Transmission.Retraction.{
  sent, sent_same, sent_added, Owner, owners, IsRetracted,
}

-- A worker that has not sent yet, or whose request has not left and that has to take its attempt back.
abbrev pub holds : Option Answer → Bool
holds none = true
holds (some answer) = elim answer [ Answer.not_sent ↦ true | _ ↦ false ]

abbrev pub holds_for : ℕ → Worker → Bool
holds_for p w = w.proposal_id == p && holds w.answer

abbrev pub in_flight : ℕ → List Worker → ℕ
in_flight p workers = tally (holds_for p) workers

-- How many requests for a proposal may have reached the broker.
abbrev pub transmissions : ℕ → List ℕ → ℕ
transmissions p received = tally (λ q. q == p) received

-- The attempt of a worker is its proposal's.
abbrev pub Owns : List Owner → Worker → Type 0
Owns table w = All (λ o. (o.id == w.attempt_id) ≡ true → o.proposal_id ≡ w.proposal_id) table

pub record IsOnce (s : System) : Type 0 where
  pub one : (p : ℕ) → sent p s.store ≤ 1
  pub covered : (p : ℕ) → in_flight p s.workers + transmissions p s.received ≤ sent p s.store
  pub owned : All (Owns (owners s.store)) s.workers

-- A transaction that leaves the marks leaves the invariant.
pub kept-IsOnce :
    (s : System) (next : Store)
    → marks next ≡ marks s.store
    → IsOnce s
    → IsOnce (record s { store = next })
kept-IsOnce s next same h = record {
  one = λ p. rw (sent_same p s.store next same) (h.one p);
  covered = λ p. rw (sent_same p s.store next same) (h.covered p);
  owned = rw same h.owned;
}

-- A worker in the middle of the list.
in_flight_split :
    (p : ℕ) (before after : List Worker) (w : Worker)
    → in_flight p (before ++ (w ∷ after))
      ≡ (if holds_for p w then 1 else 0) + in_flight p (before ++ after)
in_flight_split p before after w =
    omega (
      arith,
      tally-append (holds_for p) before (w ∷ after),
      tally-append (holds_for p) before after,
    )

All-split :
    (P : Worker → Type 0) (before after : List Worker) (w : Worker)
    → All P (before ++ (w ∷ after))
    → P w × All P (before ++ after)
All-split P [] after w h = h
All-split P (b ∷ before) after w h =
    let rest = All-split P before after w h.1 in (rest.0, (h.0, rest.1))

All-insert :
    (P : Worker → Type 0) (before after : List Worker) (w : Worker)
    → P w
    → All P (before ++ after)
    → All P (before ++ (w ∷ after))
All-insert P [] after w here rest = (here, rest)
All-insert P (b ∷ before) after w here rest = (rest.0, All-insert P before after w here rest.1)

-- The attempt of a worker in the list is its proposal's.
pub worker_owned :
    (s : System) (before after : List Worker) (w : Worker)
    → s.workers ≡ before ++ (w ∷ after)
    → IsOnce s
    → Owns (owners s.store) w
worker_owned s before after w e h =
    (All-split (Owns (owners s.store)) before after w (rw e at h.owned)).0

-- A worker that stops leaves less to cover.
pub stopped-IsOnce :
    (s : System) (before after : List Worker) (w : Worker)
    → s.workers ≡ before ++ (w ∷ after)
    → IsOnce s
    → IsOnce (record s { workers = before ++ after })
stopped-IsOnce s before after w e h = record {
  one = h.one;
  covered = λ p.
      let before_stop : in_flight p (before ++ (w ∷ after)) + transmissions p s.received
          ≤ sent p s.store =
        (rw e at (h.covered p)) in
      omega (arith, before_stop, in_flight_split p before after w);
  owned = (All-split (Owns (owners s.store)) before after w (rw e at h.owned)).1;
}

-- An answer turns the worker's cover into that of a request that may have left.
answer_weight :
    (p : ℕ) (w : Worker) (answer : Answer) (received : List ℕ)
    → w.answer ≡ none
    → (if holds_for p (record w { answer = some answer }) then 1 else 0)
        + transmissions p (if may_have_left answer then w.proposal_id ∷ received else received)
      ≡ (if holds_for p w then 1 else 0) + transmissions p received
answer_weight p w (Answer.acknowledged order http_status) received e =
    rw (e, holds_for) (ground arith)
answer_weight p w _ received e = rw (e, holds_for) (ground arith)

pub submitted-IsOnce :
    (s : System) (before after : List Worker) (w : Worker) (answer : Answer)
    → s.workers ≡ before ++ (w ∷ after)
    → w.answer ≡ none
    → IsOnce s
    → IsOnce (record s {
      workers = before ++ (record w { answer = some answer } ∷ after);
      received = if may_have_left answer then w.proposal_id ∷ s.received else s.received;
    })
submitted-IsOnce s before after w answer e unsent h = record {
  one = h.one;
  covered = λ p.
      let before_send : in_flight p (before ++ (w ∷ after)) + transmissions p s.received
          ≤ sent p s.store =
        (rw e at (h.covered p)) in
      omega (
        arith,
        before_send,
        in_flight_split p before after w,
        in_flight_split p before after (record w { answer = some answer }),
        answer_weight p w answer s.received unsent,
      );
  owned =
      let parts = All-split (Owns (owners s.store)) before after w (rw e at h.owned) in
      All-insert (Owns (owners s.store)) before after (record w { answer = some answer }) parts.0
        parts.1;
}

-- A worker that takes its attempt back frees the proposal that only it covered.
pub retracted-IsOnce :
    (s : System) (before after : List Worker) (w : Worker) (next : Store)
    → s.workers ≡ before ++ (w ∷ after)
    → holds w.answer ≡ true
    → IsRetracted w.proposal_id s.store next
    → IsOnce s
    → IsOnce (record s { store = next; workers = before ++ after })
retracted-IsOnce s before after w next e holding change h = record {
  one = λ p. omega (arith, change.fewer p, h.one p);
  covered = λ p.
      let before_stop : in_flight p (before ++ (w ∷ after)) + transmissions p s.received
          ≤ sent p s.store =
        (rw e at (h.covered p)) in
      elim (Bool-cases (w.proposal_id == p)) [
        | inl mine ↦
            let full : ◌≡◌ {A = ℕ} (if holds_for p w then 1 else 0) 1 = (rw (mine, holding) refl) in
            omega (arith, before_stop, in_flight_split p before after w, full, h.one p)
        | inr other ↦
            omega (arith, before_stop, in_flight_split p before after w, change.others p other)
      ];
  owned =
      rw change.same_owners (All-split (Owns (owners s.store)) before after w (rw e at h.owned)).1;
}

-- An attempt that is added without the mark belongs to no worker.
pub added_owned :
    (fresh proposal_id : ℕ) (table : List Owner) (workers : List Worker)
    → All (λ w. (fresh == w.attempt_id) ≡ false) workers
    → All (Owns table) workers
    → All (Owns (record { id = fresh; proposal_id = proposal_id } ∷ table)) workers
added_owned fresh proposal_id table [] apart h = tt
added_owned fresh proposal_id table (w ∷ workers) apart h = (
  (λ same. absurd (cc (same, apart.0)), h.0),
  added_owned fresh proposal_id table workers apart.1 h.1,
)

pub refused-IsOnce :
    (s : System) (fresh proposal_id : ℕ) (next : Store)
    → All (λ w. (fresh == w.attempt_id) ≡ false) s.workers
    → marks next ≡ record { id = fresh; proposal_id = proposal_id; sent = false } ∷ marks s.store
    → IsOnce s
    → IsOnce (record s { store = next })
refused-IsOnce s fresh proposal_id next apart added h = record {
  one = λ p. ground (arith, sent_added p fresh proposal_id false s.store next added, h.one p);
  covered =
      λ p. ground (arith, sent_added p fresh proposal_id false s.store next added, h.covered p);
  owned = rw added (added_owned fresh proposal_id (owners s.store) s.workers apart h.owned);
}
