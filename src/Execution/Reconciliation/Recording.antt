-- ===== src/Execution/Reconciliation/Recording.antt =====
-- backend/stockbrain/execution/reconciliation.py: what a pass writes, and the pass as a whole.
use stock_brain.Prelude.{
  ℕ, suc, true, false, not, ◌&&◌, List, [], Option, none, some, Text, text_eq, if◌then◌else◌,
}
use stock_brain.Enums.{
  ProposalStatus, ExecutionOutcome, ReconciliationResult, NotificationEvent, status_eq,
}
use stock_brain.Proposals.StateMachine.{can_transition}
use stock_brain.Store.{
  TradeProposal, ExecutionAttempt, BrokerOrder, Store, find_attempt, find_proposal, save_attempt,
  save_proposal, log_action, touch, set_status,
}
use stock_brain.Execution.Service.{mirror_order, notify_of, with_rows}
use stock_brain.Execution.Provider.{
  BrokerOrderView, upper_or_empty, is_filled_status, is_dead_status, find_candidates,
}
use stock_brain.Execution.Reconciliation.{
  AttemptFacts, facts_of, needs_reconciliation, window_start, window_end, Conclusion,
  search_for_order, reconcile_known_order,
}

-- `_advance_for_order`
unfoldable pub advance_for_order : TradeProposal → BrokerOrderView → ℕ → TradeProposal
advance_for_order proposal order now =
    let status = upper_or_empty order.status in
    if is_filled_status status && can_transition proposal.status ProposalStatus.executed
    then record (set_status ProposalStatus.executed now proposal) {
      executed_at = elim order.created_at [ none ↦ some now | some t ↦ some t ];
    }
    else if is_dead_status status && can_transition proposal.status ProposalStatus.failed
    then set_status ProposalStatus.failed now proposal
    else touch now proposal

abbrev pub fail_if_allowed : TradeProposal → ℕ → TradeProposal
fail_if_allowed proposal now =
    if can_transition proposal.status ProposalStatus.failed
    then set_status ProposalStatus.failed now proposal
    else proposal

-- The columns that every pass writes.
abbrev pub looked_at : ReconciliationResult → ℕ → ExecutionAttempt → ExecutionAttempt
looked_at result now attempt = record attempt {
  reconciled_at = some now;
  reconciliation_result = some result;
  reconciliation_attempts = suc attempt.reconciliation_attempts;
}

abbrev pub found_attempt : BrokerOrderView → ℕ → ExecutionAttempt → ExecutionAttempt
found_attempt order now attempt = record (looked_at ReconciliationResult.order_found now attempt) {
  broker_order_id = some order.broker_order_id;
  outcome =
      if is_filled_status (upper_or_empty order.status)
      then ExecutionOutcome.reconciled_filled
      else ExecutionOutcome.submitted;
  ambiguous = false;
}

abbrev pub absent_attempt : ℕ → ExecutionAttempt → ExecutionAttempt
absent_attempt now attempt = record (looked_at ReconciliationResult.order_not_placed now attempt) {
  outcome = ExecutionOutcome.reconciled_not_placed;
  ambiguous = false;
}

abbrev pub confirm : TradeProposal → ℕ → Store → Store
confirm p proposal_id store =
    if status_eq p.status ProposalStatus.executed
    then notify_of proposal_id NotificationEvent.execution_confirmed store
    else store

abbrev pub announce : ℕ → Store → Store
announce proposal_id store = notify_of proposal_id NotificationEvent.execution_reconciled store

-- The transaction of `_record` on the two rows.
unfoldable pub record_on : ℕ → ℕ → Conclusion → ℕ → Store → ExecutionAttempt → TradeProposal → Store
unfolding advance_for_order
record_on attempt_id proposal_id conclusion now store attempt proposal =
    let logged = λ (s : Store). log_action "execution.reconciled" attempt_id s in
    let passed =
      confirm proposal proposal_id
        (logged (save_attempt (looked_at conclusion.result now attempt) store)) in
    elim conclusion.result [
      | ReconciliationResult.order_found ↦ elim conclusion.order [
        | none ↦ confirm proposal proposal_id (
            announce proposal_id
              (logged (save_attempt (looked_at conclusion.result now attempt) store)))
        | some order ↦
            let moved = advance_for_order proposal order now in
            confirm moved proposal_id (
              announce proposal_id (
                logged (
                  save_proposal moved (
                    mirror_order true proposal attempt.id order now
                      (save_attempt (found_attempt order now attempt) store)))))
      ]
      | ReconciliationResult.order_not_placed ↦
          let failed = fail_if_allowed proposal now in
          confirm failed proposal_id (
            announce proposal_id
              (logged (save_proposal failed (save_attempt (absent_attempt now attempt) store))))
      | _ ↦ passed
    ]

-- `_record`
unfoldable pub record_conclusion : ℕ → ℕ → Conclusion → ℕ → Store → Option Store
unfolding record_on
record_conclusion attempt_id proposal_id conclusion now store =
    with_rows attempt_id proposal_id store λ attempt proposal.
      some (record_on attempt_id proposal_id conclusion now store attempt proposal)

-- What the broker's client reads in a pass: the order by its identifier, the pending orders and the
-- history of the listing.
pub record BrokerReads : Type 0 where
  pub fetched : Option (Option BrokerOrderView)
  pub pending : Option (List BrokerOrderView)
  pub history : Option (List BrokerOrderView)

-- `execution_reconcile_window_seconds` and `execution_reconcile_min_age_seconds`, in microseconds.
pub record ReconcileSettings : Type 0 where
  pub window : ℕ
  pub min_age : ℕ

unfoldable pub conclude :
    ReconcileSettings → BrokerReads → ℕ → ℕ → AttemptFacts → List BrokerOrder → Conclusion
unfolding reconcile_known_order search_for_order find_candidates
conclude settings reads utcnow now facts orders =
    let search =
      find_candidates reads.pending reads.history facts.broker_ticker
        (window_start settings.window utcnow facts) (window_end settings.window now facts) in
    elim facts.broker_order_id [
      | some [] ↦ search_for_order facts orders search settings.min_age now
      | some id ↦ reconcile_known_order id reads.fetched search
      | none ↦ search_for_order facts orders search settings.min_age now
    ]

-- `reconcile`: an attempt that is resolved, or of another environment, is left alone.
unfoldable pub reconcile : ReconcileSettings → BrokerReads → Text → ℕ → ℕ → ℕ → Store → Option Store
unfolding conclude record_conclusion
reconcile settings reads environment attempt_id utcnow now store =
    elim (find_attempt attempt_id store) [
      | none ↦ some store
      | some attempt ↦ elim (find_proposal attempt.proposal_id store) [
        | none ↦ some store
        | some proposal ↦
            let facts = facts_of attempt proposal in
            if not (needs_reconciliation facts.outcome)
            then some store
            else if not (text_eq facts.broker_environment environment)
            then some store
            else record_conclusion facts.attempt_id facts.proposal_id
                (conclude settings reads utcnow now facts store.orders) now store
      ]
    ]
