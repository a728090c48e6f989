-- ===== src/Execution/Reconciliation.antt =====
-- backend/stockbrain/execution/reconciliation.py: `ReconciliationService` over what the broker's client
-- read. A read of the client is `none` where it raised; the pending list serves both `fetch_order`, which
-- looks an order up by its identifier, and the search.
pub mod Recording
pub mod Conclusions
pub mod Effects
use stock_brain.Prelude.{
  ℕ, suc, ◌+◌, ◌-◌, Bool, true, false, not, ◌&&◌, ◌||◌, List, [], ◌∷◌, Option, none, some, Text,
  codes, text_eq, ltb, ◌==◌, if◌then◌else◌, filter, any,
}
use stock_brain.Decimal.{eqb_dec, Decimal}
use stock_brain.Enums.{
  ProposalStatus, ExecutionOutcome, ReconciliationResult, NotificationEvent, status_eq,
}
use stock_brain.Proposals.StateMachine.{can_transition}
use stock_brain.Store.{
  TradeProposal, ExecutionAttempt, BrokerOrder, RequestPayload, Store, find_attempt, find_proposal,
  save_attempt, save_proposal, log_action, touch, set_status,
}
use stock_brain.Execution.Service.{mirror_order, notify_of, with_rows}
use stock_brain.Execution.Provider.{
  BrokerOrderView, CandidateSearch, complete, text_is, upper_or_empty, placed_by_api,
  is_filled_status, is_dead_status, find_candidates,
}

-- `_AttemptFacts`
pub record AttemptFacts : Type 0 where
  pub attempt_id : ℕ
  pub proposal_id : ℕ
  pub outcome : ExecutionOutcome
  pub broker_order_id : Option Text
  pub broker_environment : Text
  pub broker_ticker : Text
  pub signed_quantity : Decimal
  pub sent_at : Option ℕ

-- `_AttemptFacts.of`
abbrev pub facts_of : ExecutionAttempt → TradeProposal → AttemptFacts
facts_of attempt proposal = record {
  attempt_id = attempt.id;
  proposal_id = attempt.proposal_id;
  outcome = attempt.outcome;
  broker_order_id = attempt.broker_order_id;
  broker_environment = attempt.broker_environment;
  broker_ticker = elim attempt.request_payload.broker_ticker [
    | [] ↦ proposal.broker_ticker
    | ticker ↦ ticker
  ];
  signed_quantity = attempt.request_payload.signed_quantity;
  sent_at = attempt.sent_at;
}

-- `_AttemptFacts.needs_reconciliation`
abbrev pub needs_reconciliation : ExecutionOutcome → Bool
needs_reconciliation ExecutionOutcome.pending = true
needs_reconciliation ExecutionOutcome.ambiguous = true
needs_reconciliation ExecutionOutcome.submitted = true
needs_reconciliation _ = false

-- `window_start` and `window_end`; the application's clock stands in for a missing instant.
abbrev pub window_start : ℕ → ℕ → AttemptFacts → ℕ
window_start window utcnow facts = (elim facts.sent_at [ none ↦ utcnow | some t ↦ t ]) - window

abbrev pub window_end : ℕ → ℕ → AttemptFacts → ℕ
window_end window now facts = (elim facts.sent_at [ none ↦ now | some t ↦ t ]) + window

-- `_matches`
unfoldable pub matches : AttemptFacts → BrokerOrderView → Bool
matches facts order =
    let same_quantity : Bool = elim order.signed_quantity [
      | none ↦ false
      | some q ↦ eqb_dec q facts.signed_quantity
    ] in
    placed_by_api order
    && (text_is order.broker_ticker facts.broker_ticker
        && (text_eq (upper_or_empty order.order_type) (codes "MARKET") && same_quantity))

abbrev pub is_claimed_row : ℕ → BrokerOrderView → BrokerOrder → Bool
is_claimed_row attempt_id order row =
    let others : Bool = elim row.execution_attempt_id [
      | none ↦ true
      | some id ↦ not (id == attempt_id)
    ] in
    text_eq row.broker_order_id order.broker_order_id && others

-- `order.broker_order_id in claimed`, of the identifiers that `_claimed_order_ids` reads.
abbrev pub is_claimed : ℕ → List BrokerOrder → BrokerOrderView → Bool
is_claimed attempt_id orders order = any (is_claimed_row attempt_id order) orders

-- The orders that may be the one of the attempt.
abbrev pub matching : AttemptFacts → List BrokerOrder → List BrokerOrderView → List BrokerOrderView
matching facts orders candidates =
    filter
      (λ (order : BrokerOrderView).
        matches facts order && not (is_claimed facts.attempt_id orders order))
      candidates

-- What a pass concludes, with the order that it found.
pub record Conclusion : Type 0 where
  pub result : ReconciliationResult
  pub order : Option BrokerOrderView

abbrev pub without_order : ReconciliationResult → Conclusion
without_order result = record { result = result; order = none }

-- `sent_at is not None and now - sent_at < settle`
abbrev pub is_young : Option ℕ → ℕ → ℕ → Bool
is_young none settle now = false
is_young (some t) settle now = ltb now (t + settle)

-- `_search_for_order`
unfoldable pub search_for_order :
    AttemptFacts → List BrokerOrder → CandidateSearch → ℕ → ℕ → Conclusion
search_for_order facts orders search settle now = elim (matching facts orders search.candidates) [
  | order ∷ [] ↦ record { result = ReconciliationResult.order_found; order = some order }
  | _ ∷ (_ ∷ _) ↦ without_order ReconciliationResult.multiple_candidates
  | [] ↦
      if not (complete search)
      then without_order ReconciliationResult.broker_unavailable
      else if is_young facts.sent_at settle now
      then without_order ReconciliationResult.inconclusive
      else without_order ReconciliationResult.order_not_placed
]

-- `next(candidate for candidate in candidates if candidate.broker_order_id == id)`
unfoldable pub order_with_id : Text → List BrokerOrderView → Option BrokerOrderView
order_with_id id [] = none
order_with_id id (order ∷ orders) =
    let later = order_with_id id orders in
    if text_eq order.broker_order_id id then some order else later

abbrev pub known_order : Option BrokerOrderView → Conclusion
known_order none = without_order ReconciliationResult.inconclusive
known_order (some order) = record { result = ReconciliationResult.order_found; order = some order }

-- `_reconcile_known_order`: `fetched` is the answer of `fetch_order`, `none` where it raised.
unfoldable pub reconcile_known_order :
    Text → Option (Option BrokerOrderView) → CandidateSearch → Conclusion
unfolding order_with_id
reconcile_known_order id none history = without_order ReconciliationResult.broker_unavailable
reconcile_known_order id (some (some order)) history = known_order (some order)
reconcile_known_order id (some none) history = known_order (order_with_id id history.candidates)
