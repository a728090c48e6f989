-- ===== src/Execution/Transmission.antt =====
-- Workers of backend/stockbrain/execution/service.py in parallel, as a step relation: each transaction is
-- one step, and a worker may stop between any two of them. `received` lists the proposals of the
-- requests that may have reached the broker, once for each request.
pub mod Tally
pub mod Retraction
pub mod Once
pub mod Histories
use stock_brain.Prelude.{
  ℕ, ◌≡◌, List, ◌∷◌, ◌++◌, Option, none, some, Bool, true, false, ◌&&◌, ◌==◌, All, if◌then◌else◌,
}
use stock_brain.Enums.{ExecutionFailure}
use stock_brain.Control.{ControlSnapshot}
use stock_brain.Store.{RequestPayload, Store, attempt_key}
use stock_brain.Store.Moves.{Moves}
use stock_brain.Execution.Preflight.{PreflightRefusal}
use stock_brain.Execution.Service.{record_ambiguous}
use stock_brain.Execution.Sending.{Claim, claim_and_mark_sent, record_refusal}
use stock_brain.Execution.Run.{Answer, record_answer}
use stock_brain.Execution.Reconciliation.{Conclusion}
use stock_brain.Execution.Reconciliation.Recording.{record_conclusion}

-- A worker that has claimed an attempt, with the answer of `submit` once it has one.
pub record Worker : Type 0 where
  pub attempt_id : ℕ
  pub proposal_id : ℕ
  pub answer : Option Answer

pub record System : Type 0 where
  pub store : Store
  pub workers : List Worker
  pub received : List ℕ

-- After a failure before the send nothing has left; after any other answer the request may have.
abbrev pub may_have_left : Answer → Bool
may_have_left Answer.not_sent = false
may_have_left _ = true

-- The identifier is drawn anew: no row has it, and no worker does.
abbrev pub IsFresh : ℕ → System → Type 0
IsFresh fresh s =
    All (λ row. (attempt_key row == fresh) ≡ false) s.store.attempts
    × All (λ w. (fresh == w.attempt_id) ≡ false) s.workers

pub data Step : System → System → Type 0 where
  claimed :
      {s : System} (control : ControlSnapshot) (fresh proposal_id : ℕ) (command : RequestPayload)
      (observed_version now : ℕ) (next : Store)
      → IsFresh fresh s
      → claim_and_mark_sent control fresh proposal_id command observed_version now s.store
        ≡ Claim.claimed next
      → Step s (record s {
        store = next;
        workers =
            record { attempt_id = fresh; proposal_id = proposal_id; answer = none } ∷ s.workers;
      })
  submitted :
      {s : System} (before after : List Worker) (w : Worker) (answer : Answer)
      → s.workers ≡ before ++ (w ∷ after)
      → w.answer ≡ none
      → Step s (record s {
        workers = before ++ (record w { answer = some answer } ∷ after);
        received = if may_have_left answer then w.proposal_id ∷ s.received else s.received;
      })
  recorded :
      {s : System} (before after : List Worker) (w : Worker) (answer : Answer) (now : ℕ)
      (next : Store)
      → s.workers ≡ before ++ (w ∷ after)
      → w.answer ≡ some answer
      → record_answer w.attempt_id w.proposal_id answer now s.store ≡ some next
      → Step s (record s { store = next; workers = before ++ after })
  stopped :
      {s : System} (before after : List Worker) (w : Worker)
      → s.workers ≡ before ++ (w ∷ after)
      → Step s (record s { workers = before ++ after })
  refused :
      {s : System} (fresh proposal_id : ℕ) (command : RequestPayload) (refusal : PreflightRefusal)
      (category : ExecutionFailure) (now : ℕ) (next : Store)
      → IsFresh fresh s
      → record_refusal fresh proposal_id command refusal category now s.store ≡ some next
      → Step s (record s { store = next })
  recovered :
      {s : System} (attempt_id proposal_id : ℕ) (category : ExecutionFailure) (now : ℕ)
      (next : Store)
      → record_ambiguous attempt_id proposal_id category now s.store ≡ some next
      → Step s (record s { store = next })
  reconciled :
      {s : System} (attempt_id proposal_id : ℕ) (conclusion : Conclusion) (now : ℕ) (next : Store)
      → record_conclusion attempt_id proposal_id conclusion now s.store ≡ some next
      → Step s (record s { store = next })
  -- Any other part of the program: it moves proposals, and leaves the attempts alone.
  elsewhere :
      {s : System} (next : Store)
      → next.attempts ≡ s.store.attempts
      → Moves s.store.proposals next.proposals
      → Step s (record s { store = next })

pub data Reachable (start : System) : System → Type 0 where
  here : Reachable start start
  next : {s t : System} → Reachable start s → Step s t → Reachable start t
