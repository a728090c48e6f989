-- ===== src/Execution/Service.antt =====
-- backend/stockbrain/execution/service.py: what `ExecutionService` records of an attempt, on the tables of
-- Store. An operation is one transaction; `none` is one that raises `InvalidProposalTransition` and is
-- rolled back.
use stock_brain.Prelude.{
  ℕ, Bool, true, false, List, [], ◌∷◌, Option, none, some, text_eq, if◌then◌else◌,
}
use stock_brain.Decimal.{abs_dec}
use stock_brain.Enums.{
  ProposalStatus, ExecutionOutcome, ExecutionFailure, NotificationEvent, status_eq,
}
use stock_brain.Proposals.StateMachine.{assert_transition, Transition, presend_recovery_target}
use stock_brain.Store.{
  TradeProposal, ExecutionAttempt, BrokerOrder, Message, Store, find_proposal, find_attempt,
  save_proposal, save_attempt, log_action, post, touch, set_status,
}
use stock_brain.Execution.Provider.{
  BrokerOrderView, upper_or_empty, is_filled_status, is_dead_status, order_is_terminal,
}

-- `assert_transition(current, target)` before the rest of the transaction.
abbrev pub asserting : ProposalStatus → ProposalStatus → Store → Option Store
asserting current target next = elim (assert_transition current target) [
  | Transition.legal ↦ some next
  | Transition.invalid_transition _ _ ↦ none
]

-- `_lock_attempt` and `_lock_proposal_row`: without both rows nothing is written.
abbrev pub with_rows :
    ℕ → ℕ → Store → (ExecutionAttempt → TradeProposal → Option Store) → Option Store
with_rows attempt_id proposal_id store body = elim (find_attempt attempt_id store) [
  | none ↦ some store
  | some attempt ↦ elim (find_proposal proposal_id store) [
    | none ↦ some store
    | some proposal ↦ body attempt proposal
  ]
]

abbrev pub notify_of : ℕ → NotificationEvent → Store → Store
notify_of proposal_id event store = post (Message.send_notification proposal_id event) store

-- The columns that every mirrored order is given.
abbrev pub mirrored : TradeProposal → ℕ → BrokerOrderView → ℕ → BrokerOrder → BrokerOrder
mirrored proposal attempt_id order now row = record row {
  proposal_id = some proposal.id;
  execution_attempt_id = some attempt_id;
  filled_quantity = order.filled_quantity;
  filled_value = order.filled_value;
  currency = order.currency;
  broker_status = order.status;
  broker_environment = proposal.broker_environment;
  initiated_from = order.initiated_from;
  is_terminal = order_is_terminal order;
  submitted_at = elim order.created_at [ none ↦ now | some t ↦ t ];
  last_synced_at = now;
}

-- A row that the mirror did not hold; an empty ticker counts as a missing one.
abbrev pub new_order : Bool → TradeProposal → BrokerOrderView → ℕ → BrokerOrder
new_order discovered proposal order now = record {
  broker_order_id = order.broker_order_id;
  proposal_id = none;
  execution_attempt_id = none;
  broker_ticker = elim order.broker_ticker [
    | none ↦ proposal.broker_ticker
    | some [] ↦ proposal.broker_ticker
    | some ticker ↦ ticker
  ];
  side = proposal.side;
  quantity = elim order.signed_quantity [ none ↦ proposal.proposed_quantity | some q ↦ abs_dec q ];
  filled_quantity = none;
  filled_value = none;
  currency = none;
  broker_status = none;
  broker_environment = [];
  initiated_from = none;
  is_terminal = false;
  discovered_by_reconciliation = discovered;
  submitted_at = now;
  last_synced_at = now;
}

-- `_mirror_order`; reconciliation marks the rows that it adds.
unfoldable pub mirror_into :
    Bool → TradeProposal → ℕ → BrokerOrderView → ℕ → List BrokerOrder → List BrokerOrder
mirror_into discovered proposal attempt_id order now [] =
    mirrored proposal attempt_id order now (new_order discovered proposal order now) ∷ []
mirror_into discovered proposal attempt_id order now (row ∷ rows) =
    let later = mirror_into discovered proposal attempt_id order now rows in
    if text_eq row.broker_order_id order.broker_order_id
    then mirrored proposal attempt_id order now row ∷ rows
    else row ∷ later

abbrev pub mirror_order : Bool → TradeProposal → ℕ → BrokerOrderView → ℕ → Store → Store
mirror_order discovered proposal attempt_id order now store = record store {
  orders = mirror_into discovered proposal attempt_id order now store.orders;
}

abbrev pub submitted_attempt : BrokerOrderView → ℕ → ℕ → ExecutionAttempt → ExecutionAttempt
submitted_attempt order http_status now attempt = record attempt {
  outcome = ExecutionOutcome.submitted;
  ambiguous = false;
  http_status = some http_status;
  broker_order_id = some order.broker_order_id;
  completed_at = some now;
  error_category = none;
}

-- `_record_success`
unfoldable pub record_success : ℕ → ℕ → BrokerOrderView → ℕ → ℕ → Store → Option Store
unfolding mirror_into
record_success attempt_id proposal_id order http_status now store =
    with_rows attempt_id proposal_id store λ attempt proposal.
      let status = upper_or_empty order.status in
      let recorded =
        mirror_order false proposal attempt.id order now
          (save_attempt (submitted_attempt order http_status now attempt) store) in
      let announced = λ (p : TradeProposal).
        notify_of proposal_id NotificationEvent.execution_submitted
          (log_action "execution.submitted" proposal_id (save_proposal p recorded)) in
      if is_filled_status status
      then asserting proposal.status ProposalStatus.executed (
          announced
            (record (set_status ProposalStatus.executed now proposal) { executed_at = some now }))
      else if is_dead_status status
      then asserting proposal.status ProposalStatus.failed
          (announced (set_status ProposalStatus.failed now proposal))
      else some (post (Message.reconcile_execution attempt_id) (announced (touch now proposal)))

-- `_retract_unsent`
unfoldable pub retract_unsent : ℕ → ℕ → ℕ → Store → Option Store
retract_unsent attempt_id proposal_id now store =
    with_rows attempt_id proposal_id store λ attempt proposal.
      let retracted : ExecutionAttempt = record attempt {
        sent_to_broker = false;
        sent_at = none;
        outcome = ExecutionOutcome.failed_before_send;
        ambiguous = false;
        error_category = some ExecutionFailure.connect_failed;
        completed_at = some now;
      } in
      asserting proposal.status presend_recovery_target (
        notify_of proposal_id NotificationEvent.execution_failed (
          log_action "execution.retracted_unsent" proposal_id (
            save_proposal (set_status presend_recovery_target now proposal)
              (save_attempt retracted store))))

-- `_record_ambiguous`
unfoldable pub record_ambiguous : ℕ → ℕ → ExecutionFailure → ℕ → Store → Option Store
record_ambiguous attempt_id proposal_id category now store =
    with_rows attempt_id proposal_id store λ attempt proposal.
      let unknown : ExecutionAttempt = record attempt {
        outcome = ExecutionOutcome.ambiguous;
        ambiguous = true;
        error_category = some category;
        completed_at = some now;
      } in
      let recorded = λ (p : TradeProposal).
        notify_of proposal_id NotificationEvent.execution_ambiguous (
          post (Message.reconcile_execution attempt_id) (
            log_action "execution.ambiguous" proposal_id
              (save_proposal p (save_attempt unknown store)))) in
      if status_eq proposal.status ProposalStatus.execution_ambiguous
      then some (recorded (touch now proposal))
      else asserting proposal.status ProposalStatus.execution_ambiguous
          (recorded (set_status ProposalStatus.execution_ambiguous now proposal))
