-- ===== src/Enums.antt =====
-- The vocabulary of backend/stockbrain/enums.py that the modelled parts use, with the tests that
-- the code makes on it.
use stock_brain.Prelude.{ℕ, Bool, true, false, ◌==◌, List, any}

pub data ThesisAction : Type 0 where
  buy hold reduce sell no_action : ThesisAction

pub data TimeHorizon : Type 0 where
  intraday days weeks months : TimeHorizon

pub data OrderSide : Type 0 where
  buy sell : OrderSide

pub data ProposalStatus : Type 0 where
  draft ready notified approval_pending approved rejected expired : ProposalStatus
  executing executed execution_ambiguous failed cancelled invalidated : ProposalStatus

pub data AuthorizationSource : Type 0 where
  human_web human_telegram system_automatic : AuthorizationSource

pub data ExecutionPolicy : Type 0 where
  manual automatic : ExecutionPolicy

pub data RiskOutcome : Type 0 where
  allow reduce_size block : RiskOutcome

pub data RuleOutcome : Type 0 where
  pass warn reduce block : RuleOutcome

pub data SpreadStatus : Type 0 where
  ok missing non_positive one_sided crossed locked excessive : SpreadStatus

pub data JobStatus : Type 0 where
  pending running succeeded failed cancelled : JobStatus

pub data ResolutionStatus : Type 0 where
  pending resolved ambiguous not_found unsupported : ResolutionStatus

pub data MarketSession : Type 0 where
  pre_market regular after_hours overnight closed unknown : MarketSession

pub data ExecutionOutcome : Type 0 where
  pending failed_before_send submitted rejected_by_broker ambiguous : ExecutionOutcome
  reconciled_filled reconciled_not_placed : ExecutionOutcome

pub data ExecutionFailure : Type 0 where
  preflight_refused rate_limited_locally connect_failed broker_rejected : ExecutionFailure
  broker_auth_rejected broker_rate_limited broker_timeout transport_ambiguous : ExecutionFailure
  unreadable_success unexpected_status crash_recovery pending_order_limit : ExecutionFailure

pub data ReconciliationResult : Type 0 where
  order_found order_not_placed inconclusive multiple_candidates : ReconciliationResult
  broker_unavailable : ReconciliationResult

pub data NotificationEvent : Type 0 where
  proposal_rejected proposal_invalidated proposal_expired authorization_refused : NotificationEvent
  execution_submitted execution_rejected execution_failed execution_ambiguous : NotificationEvent
  execution_reconciled execution_confirmed : NotificationEvent

abbrev status_tag : ProposalStatus → ℕ
status_tag ProposalStatus.draft = 0
status_tag ProposalStatus.ready = 1
status_tag ProposalStatus.notified = 2
status_tag ProposalStatus.approval_pending = 3
status_tag ProposalStatus.approved = 4
status_tag ProposalStatus.rejected = 5
status_tag ProposalStatus.expired = 6
status_tag ProposalStatus.executing = 7
status_tag ProposalStatus.executed = 8
status_tag ProposalStatus.execution_ambiguous = 9
status_tag ProposalStatus.failed = 10
status_tag ProposalStatus.cancelled = 11
status_tag ProposalStatus.invalidated = 12

-- `a is b` on statuses
abbrev pub status_eq : ProposalStatus → ProposalStatus → Bool
status_eq a b = status_tag a == status_tag b

-- `status in statuses`
abbrev pub status_in : ProposalStatus → List ProposalStatus → Bool
status_in s statuses = any (status_eq s) statuses

abbrev session_tag : MarketSession → ℕ
session_tag MarketSession.pre_market = 0
session_tag MarketSession.regular = 1
session_tag MarketSession.after_hours = 2
session_tag MarketSession.overnight = 3
session_tag MarketSession.closed = 4
session_tag MarketSession.unknown = 5

abbrev pub session_eq : MarketSession → MarketSession → Bool
session_eq a b = session_tag a == session_tag b

abbrev horizon_tag : TimeHorizon → ℕ
horizon_tag TimeHorizon.intraday = 0
horizon_tag TimeHorizon.days = 1
horizon_tag TimeHorizon.weeks = 2
horizon_tag TimeHorizon.months = 3

abbrev pub horizon_eq : TimeHorizon → TimeHorizon → Bool
horizon_eq a b = horizon_tag a == horizon_tag b

-- `outcome is RuleOutcome.BLOCK`
abbrev pub is_block : RuleOutcome → Bool
is_block RuleOutcome.block = true
is_block _ = false

-- `outcome is RuleOutcome.REDUCE`
abbrev pub is_reduce : RuleOutcome → Bool
is_reduce RuleOutcome.reduce = true
is_reduce _ = false

-- `AuthorizationSource.is_human`
unfoldable pub is_human : AuthorizationSource → Bool
is_human AuthorizationSource.system_automatic = false
is_human _ = true

-- `ExecutionOutcome.is_terminal`
unfoldable pub outcome_is_terminal : ExecutionOutcome → Bool
outcome_is_terminal ExecutionOutcome.pending = false
outcome_is_terminal ExecutionOutcome.ambiguous = false
outcome_is_terminal _ = true
