-- ===== src/Execution/Sending.antt =====
-- backend/stockbrain/execution/service.py: the road of a proposal to its transmission: the refusals that
-- are recorded, the limit on pending orders, and the transaction that records a send before it happens.

use stock_brain.Prelude.{
  ℕ, suc, ◌+◌, ◌-◌, Bool, true, false, not, ◌&&◌, ◌||◌, List, [], ◌∷◌, Option, none, some, Text,
  text_eq, ltb, leb, ◌==◌, if◌then◌else◌, present, any, filter, length,
}
use stock_brain.Enums.{
  ProposalStatus, ExecutionOutcome, ExecutionFailure, NotificationEvent, status_in,
}
use stock_brain.Control.{ControlSnapshot, trading_halted}
use stock_brain.Proposals.StateMachine.{executable_statuses}
use stock_brain.Store.{
  TradeProposal, ExecutionAttempt, RequestPayload, Store, find_proposal, save_proposal, log_action,
  set_status,
}
use stock_brain.Execution.Settings.{Settings, environment_name}
use stock_brain.Execution.Preflight.{PreflightRefusal, Reason}
use stock_brain.Execution.Provider.{PendingOrderCount}
use stock_brain.Execution.Service.{asserting, notify_of}

abbrev pub is_sent_for : ℕ → ExecutionAttempt → Bool
is_sent_for proposal_id attempt = attempt.proposal_id == proposal_id && attempt.sent_to_broker

-- `_sent_attempt`: the first of the rows.
unfoldable pub sent_attempt : ℕ → List ExecutionAttempt → Option ExecutionAttempt
sent_attempt proposal_id [] = none
sent_attempt proposal_id (attempt ∷ attempts) =
    let later = sent_attempt proposal_id attempts in
    if is_sent_for proposal_id attempt then some attempt else later

-- `_next_attempt_number`: one more than the highest.
unfoldable pub next_attempt_number : ℕ → List ExecutionAttempt → ℕ
next_attempt_number proposal_id [] = 1
next_attempt_number proposal_id (attempt ∷ attempts) =
    let later = next_attempt_number proposal_id attempts in
    if attempt.proposal_id == proposal_id && leb later attempt.attempt_number
    then suc attempt.attempt_number
    else later

-- `_record_refusal`: the attempt gets the identifier `fresh`.
unfoldable pub record_refusal :
    ℕ → ℕ → RequestPayload → PreflightRefusal → ExecutionFailure → ℕ → Store → Option Store
unfolding next_attempt_number
record_refusal fresh proposal_id command refusal category now store =
    elim (find_proposal proposal_id store) [
      | none ↦ some store
      | some proposal ↦
          let attempt : ExecutionAttempt = record {
            id = fresh;
            proposal_id = proposal_id;
            attempt_number = next_attempt_number proposal_id store.attempts;
            broker_environment = proposal.broker_environment;
            request_payload = command;
            started_at = now;
            completed_at = some now;
            sent_to_broker = false;
            sent_at = none;
            http_status = none;
            broker_order_id = none;
            outcome = ExecutionOutcome.failed_before_send;
            ambiguous = false;
            error_category = some category;
            actor_identifier = none;
            reconciled_at = none;
            reconciliation_result = none;
            reconciliation_attempts = 0;
          } in
          let logged =
            log_action "execution.refused" proposal_id
              (record store { attempts = attempt ∷ store.attempts }) in
          let announced = λ (s : Store).
            if refusal.invalidates
            then notify_of proposal_id NotificationEvent.proposal_invalidated s
            else s in
          if refusal.invalidates && status_in proposal.status executable_statuses
          then asserting proposal.status ProposalStatus.invalidated (
              announced (
                save_proposal
                  (record (set_status ProposalStatus.invalidated now proposal) {
                    invalidated_at = some now;
                  })
                  logged))
          else some (announced logged)
    ]

-- `_UNRESOLVED_OUTCOMES`
abbrev pub is_unresolved : ExecutionOutcome → Bool
is_unresolved ExecutionOutcome.pending = true
is_unresolved ExecutionOutcome.ambiguous = true
is_unresolved _ = false

abbrev pub is_for_ticker : Text → List TradeProposal → ExecutionAttempt → Bool
is_for_ticker broker_ticker proposals attempt =
    any
      (λ (p : TradeProposal). p.id == attempt.proposal_id && text_eq p.broker_ticker broker_ticker)
      proposals

-- `_unresolved_sent_for_ticker`
unfoldable pub unresolved_sent_for_ticker : Settings → Text → Store → ℕ
unresolved_sent_for_ticker settings broker_ticker store = length (
    filter
      (λ (a : ExecutionAttempt).
        a.sent_to_broker
        && (is_unresolved a.outcome
            && (text_eq a.broker_environment (environment_name settings.t212_env)
                && is_for_ticker broker_ticker store.proposals a)))
      store.attempts)

-- `t212_max_pending_orders_per_ticker` and `t212_pending_order_headroom`
pub record PendingLimits : Type 0 where
  pub max_pending_orders : ℕ
  pub headroom : ℕ

abbrev pub larger : ℕ → ℕ → ℕ
larger a b = if leb a b then b else a

abbrev pub passing : Reason → PreflightRefusal
passing reason = record { reasons = reason ∷ []; invalidates = false; refused_rule_ids = [] }

-- `_pending_order_refusal`; `max(0, limit - headroom)` is the subtraction of natural numbers.
unfoldable pub pending_order_refusal :
    Settings → PendingLimits → PendingOrderCount → Text → Store → Option PreflightRefusal
unfolding unresolved_sent_for_ticker
pending_order_refusal settings limits broker_count broker_ticker store =
    let ceiling = limits.max_pending_orders - limits.headroom in
    let observed =
      larger broker_count.pending (unresolved_sent_for_ticker settings broker_ticker store) in
    if not broker_count.read_ok
    then some (passing Reason.pending_unreadable)
    else if ltb ceiling (observed + 1)
    then some (passing Reason.pending_full)
    else none

abbrev pub pending_attempt :
    ℕ → ℕ → RequestPayload → TradeProposal → ℕ → List ExecutionAttempt → ExecutionAttempt
pending_attempt fresh proposal_id command p now attempts = record {
  id = fresh;
  proposal_id = proposal_id;
  attempt_number = next_attempt_number proposal_id attempts;
  broker_environment = p.broker_environment;
  request_payload = command;
  started_at = now;
  completed_at = none;
  sent_to_broker = true;
  sent_at = some now;
  http_status = none;
  broker_order_id = none;
  outcome = ExecutionOutcome.pending;
  ambiguous = false;
  error_category = none;
  actor_identifier = p.approved_by;
  reconciled_at = none;
  reconciliation_result = none;
  reconciliation_attempts = 0;
}

-- The answer of the send transaction: a lost claim, one that raised, or the tables with the attempt.
pub data Claim : Type 0 where
  lost raised : Claim
  claimed : Store → Claim

abbrev pub claim_of : Option Store → Claim
claim_of none = Claim.raised
claim_of (some store) = Claim.claimed store

-- `_claim_and_mark_sent`. `control` is read in the transaction.
unfoldable pub claim_and_mark_sent :
    ControlSnapshot → ℕ → ℕ → RequestPayload → ℕ → ℕ → Store → Claim
unfolding sent_attempt next_attempt_number
claim_and_mark_sent control fresh proposal_id command observed_version now store =
    elim (find_proposal proposal_id store) [
      | none ↦ Claim.lost
      | some p ↦
          if not (p.version == observed_version)
          then Claim.lost
          else if not (status_in p.status executable_statuses) || leb p.expires_at now
          then Claim.lost
          else if present (sent_attempt proposal_id store.attempts)
          then Claim.lost
          else if trading_halted control
          then Claim.lost
          else claim_of (
              asserting p.status ProposalStatus.executing (
                log_action "execution.transmitting" proposal_id (
                  save_proposal (set_status ProposalStatus.executing now p) (record store {
                    attempts =
                        pending_attempt fresh proposal_id command p now store.attempts
                        ∷ store.attempts;
                  }))))
    ]
