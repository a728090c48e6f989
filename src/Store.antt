-- ===== src/Store.antt =====
-- The tables that the proposal and the execution services share, as lists of rows:
-- `TradeProposal`, `ApprovalAction` and `ExecutionAttempt` of backend/stockbrain/db/models/proposals.py,
-- `BrokerOrder` of portfolio.py, `BrokerInstrument` of companies.py and the audit log of system.py, each
-- with the columns that decide something in the modelled operations. Sentences, the columns that only
-- record where a price or a rate came from, and the links of an evaluation are left out. A message is
-- a job that an operation puts on the queue in its transaction.
pub mod Moves
use stock_brain.Prelude.{ℕ, suc, ◌++◌, Bool, List, [], ◌∷◌, Option, none, some, Text, codes, String}
use stock_brain.Prelude.Int.{ℤ}
use stock_brain.Decimal.{Decimal}
use stock_brain.Enums.{
  ProposalStatus, AuthorizationSource, ExecutionPolicy, OrderSide, ExecutionOutcome,
  ExecutionFailure, ReconciliationResult, NotificationEvent,
}
use stock_brain.Tables.{find_row, put_row}

pub record TradeProposal : Type 0 where
  pub id : ℕ
  pub thesis_id : Option ℕ
  pub company_id : Option ℕ
  pub broker_instrument_id : Option ℕ
  pub research_run_id : Option ℕ
  pub broker_environment : Text
  pub broker_ticker : Text
  pub side : OrderSide
  pub proposed_quantity : Decimal
  pub max_quantity : Decimal
  pub reference_price : Decimal
  pub estimated_notional : Decimal
  pub estimated_notional_account_currency : Option Decimal
  pub fx_required : Bool
  pub fx_rate : Option Decimal
  pub risk_policy_version : Option Text
  pub execution_policy : ExecutionPolicy
  pub authorization_source : Option AuthorizationSource
  pub approved_at : Option ℕ
  pub approved_by : Option Text
  pub status : ProposalStatus
  pub created_at : ℕ
  pub updated_at : ℕ
  pub expires_at : ℕ
  pub invalidated_at : Option ℕ
  pub rejected_at : Option ℕ
  pub rejected_by : Option Text
  pub executed_at : Option ℕ
  pub dedupe_key : Option Text
  pub version : ℕ

-- `consumed_at` is empty while the token can still be used.
pub record ApprovalAction : Type 0 where
  pub proposal_id : ℕ
  pub consumed_at : Option ℕ

pub record BrokerInstrument : Type 0 where
  pub id : ℕ
  pub broker_ticker : Text
  pub company_id : Option ℕ
  pub is_active : Bool
  pub quantity_precision : Option ℕ

-- The request that an attempt records: `ExecutionCommand.as_dict`.
pub record RequestPayload : Type 0 where
  pub broker_ticker : Text
  pub side : OrderSide
  pub signed_quantity : Decimal

pub record ExecutionAttempt : Type 0 where
  pub id : ℕ
  pub proposal_id : ℕ
  pub attempt_number : ℕ
  pub broker_environment : Text
  pub request_payload : RequestPayload
  pub started_at : ℕ
  pub completed_at : Option ℕ
  pub sent_to_broker : Bool
  pub sent_at : Option ℕ
  pub http_status : Option ℕ
  pub broker_order_id : Option Text
  pub outcome : ExecutionOutcome
  pub ambiguous : Bool
  pub error_category : Option ExecutionFailure
  pub actor_identifier : Option Text
  pub reconciled_at : Option ℕ
  pub reconciliation_result : Option ReconciliationResult
  pub reconciliation_attempts : ℕ

-- The local mirror of an order that the broker has.
pub record BrokerOrder : Type 0 where
  pub broker_order_id : Text
  pub proposal_id : Option ℕ
  pub execution_attempt_id : Option ℕ
  pub broker_ticker : Text
  pub side : OrderSide
  pub quantity : Decimal
  pub filled_quantity : Option Decimal
  pub filled_value : Option Decimal
  pub currency : Option Text
  pub broker_status : Option Text
  pub broker_environment : Text
  pub initiated_from : Option Text
  pub is_terminal : Bool
  pub discovered_by_reconciliation : Bool
  pub submitted_at : ℕ
  pub last_synced_at : ℕ

-- A job for the queue: a notification of a proposal, the reconciliation of an attempt, or the
-- generation of a proposal for the thesis of a research run.
pub data Message : Type 0 where
  send_notification : ℕ → NotificationEvent → Message
  reconcile_execution : ℕ → Message
  generate_for_run : ℕ → Message

-- An entry of the audit log: the action and the row that it is about.
pub record AuditRow : Type 0 where
  pub action : String
  pub entity_id : ℕ

pub record Store : Type 0 where
  pub proposals : List TradeProposal
  pub actions : List ApprovalAction
  pub instruments : List BrokerInstrument
  pub attempts : List ExecutionAttempt
  pub orders : List BrokerOrder
  pub outbox : List Message
  pub audit : List AuditRow

abbrev pub proposal_key : TradeProposal → ℕ
proposal_key p = p.id

abbrev pub attempt_key : ExecutionAttempt → ℕ
attempt_key a = a.id

abbrev pub instrument_key : BrokerInstrument → ℕ
instrument_key i = i.id

abbrev pub find_proposal : ℕ → Store → Option TradeProposal
find_proposal id store = find_row proposal_key id store.proposals

abbrev pub find_attempt : ℕ → Store → Option ExecutionAttempt
find_attempt id store = find_row attempt_key id store.attempts

abbrev pub save_proposal : TradeProposal → Store → Store
save_proposal p store = record store { proposals = put_row proposal_key p store.proposals }

abbrev pub save_attempt : ExecutionAttempt → Store → Store
save_attempt a store = record store { attempts = put_row attempt_key a store.attempts }

-- `session.add(AuditLog(…))`
abbrev pub log_action : String → ℕ → Store → Store
log_action action entity_id store = record store {
  audit = record { action = action; entity_id = entity_id } ∷ store.audit;
}

-- A job put on the queue.
abbrev pub post : Message → Store → Store
post message store = record store { outbox = message ∷ store.outbox }

-- A row that is written sets `updated_at`, and the optimistic lock counts the version.
abbrev pub touch : ℕ → TradeProposal → TradeProposal
touch now p = record p { updated_at = now; version = suc p.version }

abbrev pub set_status : ProposalStatus → ℕ → TradeProposal → TradeProposal
set_status target now p = record (touch now p) { status = target }
