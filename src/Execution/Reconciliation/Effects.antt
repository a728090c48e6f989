-- ===== src/Execution/Reconciliation/Effects.antt =====
-- A pass of reconciliation keeps the marks of the attempts and the transition table.
use stock_brain.Prelude.{ℕ, ◌≡◌, refl, Option, some, none, Bool-cases, inl, inr, ◌&&◌, arith}
use stock_brain.Enums.{ProposalStatus, ReconciliationResult}
use stock_brain.Tables.{put_row}
use stock_brain.Proposals.StateMachine.{can_transition}
use stock_brain.Store.{
  TradeProposal, ExecutionAttempt, Store, proposal_key, find_proposal, find_attempt,
}
use stock_brain.Store.Moves.{Moves, Moves-refl, put_same, put_next}
use stock_brain.Execution.Provider.{
  BrokerOrderView, upper_or_empty, is_filled_status, is_dead_status,
}
use stock_brain.Execution.Reconciliation.{Conclusion}
use stock_brain.Execution.Reconciliation.Recording.{
  advance_for_order, fail_if_allowed, record_on, record_conclusion, confirm,
}
use stock_brain.Execution.Effects.{marks_kept, Kept, After, After-with_rows}

advance_for_order-Moves :
    (proposal_id : ℕ) (store : Store) (p : TradeProposal) (order : BrokerOrderView) (now : ℕ)
    → find_proposal proposal_id store ≡ some p
    → Moves store.proposals (put_row proposal_key (advance_for_order p order now) store.proposals)
unfolding advance_for_order
advance_for_order-Moves proposal_id store p order now row =
    let status = upper_or_empty order.status in
    let fills = is_filled_status status && can_transition p.status ProposalStatus.executed in
    let dies = is_dead_status status && can_transition p.status ProposalStatus.failed in
    elim (Bool-cases fills) [
      | inl filled ↦
          rw filled (put_next proposal_id store.proposals p _ row refl (ground (arith, filled)))
      | inr open_ ↦ elim (Bool-cases dies) [
        | inl dead ↦
            rw (open_, dead)
              (put_next proposal_id store.proposals p _ row refl (ground (arith, dead)))
        | inr working ↦ rw (open_, working) (put_same proposal_id store.proposals p _ row refl refl)
      ]
    ]

fail_if_allowed-Moves :
    (proposal_id : ℕ) (store : Store) (p : TradeProposal) (now : ℕ)
    → find_proposal proposal_id store ≡ some p
    → Moves store.proposals (put_row proposal_key (fail_if_allowed p now) store.proposals)
fail_if_allowed-Moves proposal_id store p now row =
    elim (Bool-cases (can_transition p.status ProposalStatus.failed)) [
      | inl legal ↦ rw legal (put_next proposal_id store.proposals p _ row refl legal)
      | inr illegal ↦ rw illegal (put_same proposal_id store.proposals p _ row refl refl)
    ]

-- A confirmation only adds a message.
confirm-Kept :
    (before store : Store) (p : TradeProposal) (proposal_id : ℕ)
    → Kept before store
    → Kept before (confirm p proposal_id store)
confirm-Kept before store p proposal_id h = ground (arith, h)

module _ (attempt_id proposal_id now : ℕ) (store : Store) (a : ExecutionAttempt) (p : TradeProposal)
    (found : find_attempt attempt_id store ≡ some a)
    (row : find_proposal proposal_id store ≡ some p) where
  found_order-Kept :
      (order : Option BrokerOrderView)
      → Kept store (
          record_on attempt_id proposal_id
            (record { result = ReconciliationResult.order_found; order = order })
            now
            store
            a
            p)
  unfolding record_on
  found_order-Kept none =
      confirm-Kept store _ p proposal_id
        (Moves-refl store.proposals, marks_kept attempt_id store a _ found refl)
  found_order-Kept (some order) = confirm-Kept store _ (advance_for_order p order now) proposal_id (
    advance_for_order-Moves proposal_id store p order now row,
    marks_kept attempt_id store a _ found refl,
  )

  record_on-Kept :
      (result : ReconciliationResult) (order : Option BrokerOrderView)
      → Kept store (
          record_on attempt_id proposal_id
            (record { result = result; order = order })
            now
            store
            a
            p)
  unfolding record_on
  record_on-Kept ReconciliationResult.order_found order = found_order-Kept order
  record_on-Kept ReconciliationResult.order_not_placed order =
      confirm-Kept store _ (fail_if_allowed p now) proposal_id (
        fail_if_allowed-Moves proposal_id store p now row,
        marks_kept attempt_id store a _ found refl,
      )
  record_on-Kept _ order =
      confirm-Kept store _ p proposal_id
        (Moves-refl store.proposals, marks_kept attempt_id store a _ found refl)

pub record_conclusion-Kept :
    (attempt_id proposal_id : ℕ) (conclusion : Conclusion) (now : ℕ) (store : Store)
    → After (Kept store) (record_conclusion attempt_id proposal_id conclusion now store)
unfolding record_conclusion
record_conclusion-Kept attempt_id proposal_id conclusion now store =
    After-with_rows (Kept store) attempt_id proposal_id store _ (Moves-refl store.proposals, refl)
      λ a p found row.
        record_on-Kept attempt_id proposal_id now store a p found row conclusion.result
          conclusion.order
