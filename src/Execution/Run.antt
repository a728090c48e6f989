-- ===== src/Execution/Run.antt =====
-- backend/stockbrain/execution/service.py: `ExecutionService.execute` up to the transmission, what is done
-- with the broker's answer, and the recovery of attempts that a crash left behind.
pub mod Sends
use stock_brain.Prelude.{
  ℕ, ◌+◌, ◌*◌, Bool, true, false, not, ◌&&◌, List, [], ◌∷◌, Option, none, some, Text, codes, ltb,
  if◌then◌else◌, filter, contains,
}
use stock_brain.Enums.{ExecutionFailure, ExecutionOutcome, status_in}
use stock_brain.Control.{ControlSnapshot}
use stock_brain.Proposals.StateMachine.{executable_statuses}
use stock_brain.Store.{TradeProposal, ExecutionAttempt, RequestPayload, Store, find_proposal}
use stock_brain.Execution.Settings.{Settings}
use stock_brain.Execution.Preflight.{Revalidation, Reason, PreflightRefusal, run}
use stock_brain.Execution.Provider.{BrokerOrderView, PendingOrderCount, command_from}
use stock_brain.Execution.Service.{record_success, retract_unsent, record_ambiguous}
use stock_brain.Execution.Rejection.{BrokerRejection, record_rejection}
use stock_brain.Execution.Sending.{
  PendingLimits, Claim, sent_attempt, record_refusal, pending_order_refusal, passing,
  claim_and_mark_sent,
}

-- What the outside says while a proposal is executed: the flags before and in the send transaction,
-- the fresh evaluation, the broker's pending orders, and whether the rate limiter gave a slot.
pub record Surroundings : Type 0 where
  pub settings : Settings
  pub limits : PendingLimits
  pub provider_environment : Text
  pub control : ControlSnapshot
  pub control_at_send : ControlSnapshot
  pub revalidate : ℕ → Option Revalidation
  pub pending : PendingOrderCount
  pub slot : Bool

-- Nothing is transmitted (`none` where the transaction raised), or the claimed attempt is.
pub data Execution : Type 0 where
  finished : Option Store → Execution
  transmit : ℕ → RequestPayload → Store → Execution

-- `_recover_sent_attempt`
unfoldable pub recover_sent_attempt : ExecutionAttempt → ℕ → ℕ → Store → Option Store
recover_sent_attempt attempt proposal_id now store = elim attempt.outcome [
  | ExecutionOutcome.pending ↦
      record_ambiguous attempt.id proposal_id ExecutionFailure.crash_recovery now store
  | _ ↦ some store
]

abbrev pub after_claim : ℕ → RequestPayload → Store → Claim → Execution
after_claim fresh command store Claim.lost = Execution.finished (some store)
after_claim fresh command store Claim.raised = Execution.finished none
after_claim fresh command store (Claim.claimed next) = Execution.transmit fresh command next

-- The checks in their order, and the claim.
unfoldable pub send : Surroundings → ℕ → TradeProposal → RequestPayload → ℕ → Store → Execution
send s fresh p command now store =
    let refused = λ (refusal : PreflightRefusal) (category : ExecutionFailure).
      Execution.finished (record_refusal fresh p.id command refusal category now store) in
    elim (run s.settings s.provider_environment s.control s.revalidate p now false).refusal [
      | some refusal ↦ refused refusal ExecutionFailure.preflight_refused
      | none ↦
          elim (pending_order_refusal s.settings s.limits s.pending command.broker_ticker store) [
            | some refusal ↦ refused refusal ExecutionFailure.pending_order_limit
            | none ↦
                if not s.slot
                then refused (passing Reason.no_slot) ExecutionFailure.rate_limited_locally
                else after_claim fresh command store
                    (claim_and_mark_sent s.control_at_send fresh p.id command p.version now store)
          ]
    ]

-- `execute`
unfoldable pub execute : Surroundings → ℕ → ℕ → ℕ → Store → Execution
unfolding send
execute s fresh proposal_id now store = elim (find_proposal proposal_id store) [
  | none ↦ Execution.finished (some store)
  | some p ↦ elim (sent_attempt proposal_id store.attempts) [
    | some attempt ↦ Execution.finished (recover_sent_attempt attempt proposal_id now store)
    | none ↦
        if not (status_in p.status executable_statuses)
        then Execution.finished (some store)
        else elim (command_from p) [
          | none ↦ Execution.finished none
          | some command ↦ send s fresh p command now store
        ]
  ]
]

-- How `submit` ends: an acknowledgement with its HTTP status, a refusal by the broker, a failure after
-- the request may have left, any other exception, or a failure before it could leave.
pub data Answer : Type 0 where
  acknowledged : BrokerOrderView → ℕ → Answer
  rejected : BrokerRejection → Answer
  ambiguous_failure : Text → Answer
  unexpected_failure : Answer
  not_sent : Answer

-- `_ambiguous_category`
unfoldable pub ambiguous_category : Text → ExecutionFailure
ambiguous_category text =
    if contains (codes "UNREADABLE_SUCCESS") text
    then ExecutionFailure.unreadable_success
    else if contains (codes "BROKER_TIMEOUT") text
    then ExecutionFailure.broker_timeout
    else if contains (codes "BROKER_RATE_LIMITED") text
    then ExecutionFailure.broker_rate_limited
    else if contains (codes "UNEXPECTED_STATUS") text
    then ExecutionFailure.unexpected_status
    else if contains (codes "could not be parsed") text
    then ExecutionFailure.unreadable_success
    else ExecutionFailure.transport_ambiguous

-- What `execute` does with the answer.
unfoldable pub record_answer : ℕ → ℕ → Answer → ℕ → Store → Option Store
unfolding ambiguous_category
record_answer attempt_id proposal_id (Answer.acknowledged order http_status) now store =
    record_success attempt_id proposal_id order http_status now store
record_answer attempt_id proposal_id (Answer.rejected exc) now store =
    record_rejection attempt_id proposal_id exc now store
record_answer attempt_id proposal_id (Answer.ambiguous_failure text) now store =
    record_ambiguous attempt_id proposal_id (ambiguous_category text) now store
record_answer attempt_id proposal_id Answer.unexpected_failure now store =
    record_ambiguous attempt_id proposal_id ExecutionFailure.transport_ambiguous now store
record_answer attempt_id proposal_id Answer.not_sent now store =
    retract_unsent attempt_id proposal_id now store

-- An attempt that was sent before the cutoff and has no outcome.
abbrev pub is_stranded : ℕ → ℕ → ExecutionAttempt → Bool
is_stranded timeout now attempt =
    let old : Bool = elim attempt.sent_at [ none ↦ false | some t ↦ ltb (t + timeout * 2) now ] in
    let pending : Bool = elim attempt.outcome [ ExecutionOutcome.pending ↦ true | _ ↦ false ] in
    attempt.sent_to_broker && (pending && old)

-- The loop over the attempts: a transaction that raises ends it.
unfoldable pub mark_stranded : List ExecutionAttempt → ℕ → Store → Store
mark_stranded [] now store = store
mark_stranded (attempt ∷ attempts) now store =
    elim (record_ambiguous attempt.id attempt.proposal_id ExecutionFailure.crash_recovery now
      store) [ none ↦ store | some next ↦ mark_stranded attempts now next ]

-- `recover_incomplete`
unfoldable pub recover_incomplete : ℕ → ℕ → Store → Store
unfolding mark_stranded
recover_incomplete timeout now store =
    mark_stranded (filter (is_stranded timeout now) store.attempts) now store
