-- ===== src/Execution/Effects.antt =====
-- What the operations of the execution service change: where the proposals may go, and which attempts
-- are marked as sent.
pub mod Rejection
pub mod Claims
use mathlib.Core.Path.{subst}
use stock_brain.Prelude.{
  ℕ, ◌≡◌, refl, List, [], ◌∷◌, Option, some, none, Option-cases, Bool-cases, inl, inr, Bool, true,
  false, map, arith, if◌then◌else◌, ap,
}
use stock_brain.Enums.{ProposalStatus, ExecutionFailure, ExecutionOutcome, status_eq, status_in}
use stock_brain.Tables.{find_row, put_row}
use stock_brain.Tables.Laws.{put_row-map, find_row_again}
use stock_brain.Proposals.StateMachine.{
  can_transition, assert_transition, presend_recovery_target, executable_statuses,
}
use stock_brain.Store.{
  TradeProposal, ExecutionAttempt, Store, proposal_key, attempt_key, find_proposal, find_attempt,
  save_attempt, set_status, touch, RequestPayload,
}
use stock_brain.Store.Moves.{Moves, Moves-refl, Moves-trans, put_same, put_next}
use stock_brain.Execution.Preflight.{PreflightRefusal}
use stock_brain.Execution.Provider.{
  BrokerOrderView, upper_or_empty, is_filled_status, is_dead_status,
}
use stock_brain.Execution.Service.{
  asserting, with_rows, record_success, record_ambiguous, retract_unsent,
}

-- What the one-send rule reads of an attempt.
pub record Mark : Type 0 where
  pub id : ℕ
  pub proposal_id : ℕ
  pub sent : Bool

abbrev pub mark_of : ExecutionAttempt → Mark
mark_of a = record { id = a.id; proposal_id = a.proposal_id; sent = a.sent_to_broker }

abbrev pub marks : Store → List Mark
marks store = map mark_of store.attempts

-- The proposals follow the transition table, and the marks stay.
abbrev pub Kept : Store → Store → Type 0
Kept store next = Moves store.proposals next.proposals × (marks next ≡ marks store)

-- A property of the tables after a transaction that was not rolled back.
abbrev pub After : (Store → Type 0) → Option Store → Type 0
After P none = Unit
After P (some next) = P next

-- A case for each way that a transaction on an attempt and its proposal begins.
pub After-with_rows :
    (P : Store → Type 0) (attempt_id proposal_id : ℕ) (store : Store)
    (body : ExecutionAttempt → TradeProposal → Option Store)
    → P store
    → ((a : ExecutionAttempt) (p : TradeProposal)
        → find_attempt attempt_id store ≡ some a
        → find_proposal proposal_id store ≡ some p
        → After P (body a p))
    → After P (with_rows attempt_id proposal_id store body)
After-with_rows P attempt_id proposal_id store body same change =
    elim (Option-cases (find_attempt attempt_id store)) [
      | inl missing ↦ rw (missing, After) same
      | inr (a, e) ↦ elim (Option-cases (find_proposal proposal_id store)) [
        | inl missing ↦ rw (e, missing, After) same
        | inr (p, q) ↦ rw (e, q, After) (change a p e q)
      ]
    ]

pub After-asserting :
    (P : Store → Type 0) (current target : ProposalStatus) (next : Store)
    → (can_transition current target ≡ true → P next)
    → After P (asserting current target next)
unfolding assert_transition
After-asserting P current target next change = elim (Bool-cases (can_transition current target)) [
  | inl legal ↦ rw (legal, After) (change legal)
  | inr illegal ↦ rw (illegal, After) tt
]

-- An attempt that is written back with its own mark.
pub marks_kept :
    (attempt_id : ℕ) (store : Store) (a new : ExecutionAttempt)
    → find_attempt attempt_id store ≡ some a
    → mark_of new ≡ mark_of a
    → map mark_of (put_row attempt_key new store.attempts) ≡ marks store
marks_kept attempt_id store a new found same =
    put_row-map attempt_key mark_of store.attempts a new
      (rw (ap (λ (m : Mark). m.id) same)
        (find_row_again attempt_key attempt_id store.attempts a found))
      same

pub record_ambiguous-Kept :
    (attempt_id proposal_id : ℕ) (category : ExecutionFailure) (now : ℕ) (store : Store)
    → After (Kept store) (record_ambiguous attempt_id proposal_id category now store)
unfolding record_ambiguous
record_ambiguous-Kept attempt_id proposal_id category now store =
    After-with_rows (Kept store) attempt_id proposal_id store _ (Moves-refl store.proposals, refl)
      λ a p found row. elim (Bool-cases (status_eq p.status ProposalStatus.execution_ambiguous)) [
        | inl already ↦
            rw (already, After)
              (
                put_same proposal_id store.proposals p _ row refl refl,
                marks_kept attempt_id store a _ found refl,
              )
        | inr other ↦
            rw (other, After)
              (After-asserting (Kept store) p.status ProposalStatus.execution_ambiguous _ λ step. (
                put_next proposal_id store.proposals p _ row refl step,
                marks_kept attempt_id store a _ found refl,
              ))
      ]

pub record_success-Kept :
    (attempt_id proposal_id : ℕ) (order : BrokerOrderView) (http_status now : ℕ) (store : Store)
    → After (Kept store) (record_success attempt_id proposal_id order http_status now store)
unfolding record_success
record_success-Kept attempt_id proposal_id order http_status now store =
    After-with_rows (Kept store) attempt_id proposal_id store _ (Moves-refl store.proposals, refl)
      λ a p found row.
        let kept = marks_kept attempt_id store a _ found refl in
        elim (Bool-cases (is_filled_status (upper_or_empty order.status))) [
          | inl filled ↦
              rw (filled, After)
                (After-asserting (Kept store) p.status ProposalStatus.executed _
                  λ step. (put_next proposal_id store.proposals p _ row refl step, kept))
          | inr open_ ↦ elim (Bool-cases (is_dead_status (upper_or_empty order.status))) [
            | inl dead ↦
                rw (open_, dead, After)
                  (After-asserting (Kept store) p.status ProposalStatus.failed _
                    λ step. (put_next proposal_id store.proposals p _ row refl step, kept))
            | inr working ↦
                rw (open_, working, After)
                  (put_same proposal_id store.proposals p _ row refl refl, kept)
          ]
        ]

-- A retraction leaves the proposals on the transition table.
pub retract_unsent-Moves :
    (attempt_id proposal_id now : ℕ) (store : Store)
    → After
        (λ next. Moves store.proposals next.proposals)
        (retract_unsent attempt_id proposal_id now store)
unfolding retract_unsent
retract_unsent-Moves attempt_id proposal_id now store =
    After-with_rows (λ next. Moves store.proposals next.proposals) attempt_id proposal_id store _
      (Moves-refl store.proposals)
      λ a p found row.
        After-asserting (λ next. Moves store.proposals next.proposals) p.status
          presend_recovery_target _ λ step. put_next proposal_id store.proposals p _ row refl step
