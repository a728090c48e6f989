-- ===== src/Proposals/Lifecycle.antt =====
-- backend/stockbrain/proposals/lifecycle.py: what ends a proposal's life before an order is sent, on the
-- tables of Store. What the outside says (the account, the listings' quotes and rates, the theses, the
-- rows that other transactions hold) is an argument.
pub mod Standing
pub mod Sweep
pub mod Swept
pub mod Moves
pub mod Endings
mod Tests
use stock_brain.Prelude.{
  ℕ, zero, suc, ◌+◌, Bool, true, false, not, ◌&&◌, ◌||◌, List, [], ◌∷◌, ◌++◌, Option, none, some,
  Text, text_eq, leb, ltb, ◌==◌, if◌then◌else◌, present, any, filter, map, length,
}
use stock_brain.Decimal.{Decimal, ltb_dec, max_dec, zero_dec}
use stock_brain.Enums.{
  ProposalStatus, OrderSide, NotificationEvent, RuleOutcome, is_block, status_in,
}
use stock_brain.Tables.{find_row, put_row}
use stock_brain.Proposals.StateMachine.{can_transition, active_statuses}
use stock_brain.Risk.Config.{RiskConfig}
use stock_brain.Risk.Models.{AccountState, QuoteSnapshot, FxSnapshot, RuleResult, position, usable}
use stock_brain.Risk.Gates.{available_quantity}
use stock_brain.Risk.Spread.{is_ok}
use stock_brain.Risk.Factors.{reference_price_drift, fx_rate_drift}
use stock_brain.Store.{
  TradeProposal, ApprovalAction, BrokerInstrument, Message, Store, find_proposal, save_proposal,
  log_action, post, set_status, instrument_key, proposal_key,
}

-- `_SWEEPABLE_STATUSES`
abbrev pub sweepable_statuses : List ProposalStatus
sweepable_statuses =
    ProposalStatus.draft ∷ ProposalStatus.ready ∷ ProposalStatus.notified
    ∷ ProposalStatus.approval_pending ∷ []

-- `notify`
abbrev pub notify : ℕ → NotificationEvent → Store → Store
notify proposal_id event store = post (Message.send_notification proposal_id event) store

-- `retire_approval_actions`
abbrev pub retire_action : List ℕ → ℕ → ApprovalAction → ApprovalAction
retire_action proposal_ids now action =
    if any (λ id. id == action.proposal_id) proposal_ids && not (present action.consumed_at)
    then record action { consumed_at = some now }
    else action

abbrev pub retire_approval_actions : List ℕ → ℕ → Store → Store
retire_approval_actions proposal_ids now store = record store {
  actions = map (retire_action proposal_ids now) store.actions;
}

-- How a proposal is ended by an operator.
pub data Termination : Type 0 where
  rejection cancellation : Termination

abbrev pub target_of : Termination → ProposalStatus
target_of Termination.rejection = ProposalStatus.rejected
target_of Termination.cancellation = ProposalStatus.cancelled

abbrev pub terminated : Termination → Text → ℕ → TradeProposal → TradeProposal
terminated Termination.rejection actor now p = record (set_status ProposalStatus.rejected now p) {
  rejected_at = some now;
  rejected_by = some actor;
}
terminated Termination.cancellation actor now p = set_status ProposalStatus.cancelled now p

abbrev pub announced : Termination → ℕ → Store → Store
announced Termination.rejection id store =
    log_action "proposal.rejected" id (notify id NotificationEvent.proposal_rejected store)
announced Termination.cancellation id store = log_action "proposal.cancelled" id store

-- `_terminate`: `none` where it raises `ProposalAlreadyConsumed`.
unfoldable pub terminate : Termination → ℕ → Text → ℕ → Store → Option Store
terminate how proposal_id actor now store = elim (find_proposal proposal_id store) [
  | none ↦ none
  | some p ↦
      if not (can_transition p.status (target_of how))
      then none
      else some (
          announced how p.id (
            retire_approval_actions (p.id ∷ []) now
              (save_proposal (terminated how actor now p) store)))
]

-- `reject` and `cancel`
abbrev pub reject : ℕ → Text → ℕ → Store → Option Store
reject = terminate Termination.rejection

abbrev pub cancel : ℕ → Text → ℕ → Store → Option Store
cancel = terminate Termination.cancellation

-- The rows that `_expire` takes.
abbrev pub lapses : ℕ → TradeProposal → Bool
lapses now p = status_in p.status sweepable_statuses && leb p.expires_at now

abbrev pub expire_row : ℕ → TradeProposal → TradeProposal
expire_row now p = if lapses now p then set_status ProposalStatus.expired now p else p

abbrev pub notify_each : List ℕ → NotificationEvent → Store → Store
notify_each [] event store = store
notify_each (id ∷ ids) event store = notify_each ids event (notify id event store)

abbrev pub expired_store : List ℕ → ℕ → Store → Store
expired_store ids now store =
    retire_approval_actions ids now
      (record store { proposals = map (expire_row now) store.proposals })

-- `_expire`: how many proposals expired. The statement does not ask the transition table.
unfoldable pub expire : ℕ → Store → ℕ × Store
expire now store =
    let ids = map proposal_key (filter (lapses now) store.proposals) in
    (length ids, notify_each ids NotificationEvent.proposal_expired (expired_store ids now store))

-- `_invalidate`, where the table allows it.
abbrev pub invalidate : ℕ → TradeProposal → TradeProposal
invalidate now p = record (set_status ProposalStatus.invalidated now p) {
  invalidated_at = some now;
}

-- The transaction that retires an invalid proposal.
abbrev pub invalidated_store : ℕ → TradeProposal → Store → Store
invalidated_store now p store = log_action "proposal.invalidated" p.id (
    notify p.id NotificationEvent.proposal_invalidated
      (retire_approval_actions (p.id ∷ []) now (save_proposal (invalidate now p) store)))
