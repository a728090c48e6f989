-- ===== src/Execution/Preflight.antt =====
-- backend/stockbrain/execution/preflight.py: the checks before an order is sent. The control snapshot
-- and the result of `ProposalService.revalidate` are arguments; a refusal lists its reasons by kind,
-- and the snapshot that an outcome carries back is left out.
pub mod Permits
mod Tests
use stock_brain.Prelude.{
  ℕ, Bool, true, false, not, ◌&&◌, ◌||◌, List, [], ◌∷◌, ◌++◌, Option, none, some, if◌then◌else◌,
  leb, any, all, filter, map, non_empty, present, Text, text_eq, String, str_eq,
}
use stock_brain.Decimal.{Decimal, zero_dec, leb_dec, ltb_dec}
use stock_brain.Enums.{
  ProposalStatus, AuthorizationSource, ExecutionPolicy, OrderSide, RuleOutcome, status_in, is_block,
}
use stock_brain.Control.{ControlSnapshot, ControlBlocker, trading_halted, control_blockers}
use stock_brain.Proposals.StateMachine.{executable_statuses}
use stock_brain.Store.{TradeProposal}
use stock_brain.Risk.Models.{RuleResult, AccountState, position}
use stock_brain.Risk.Gates.{available_quantity}
use stock_brain.Execution.Settings.{
  Settings, Gate, environment_name, is_live, order_transmission_blockers,
}

-- `_MISSING_INPUT_RULE_IDS` and `_STALE_INPUT_RULE_IDS`
abbrev pub missing_input_rule_ids : List String
missing_input_rule_ids = "quote_available" ∷ "account_state_available" ∷ "fx_available" ∷ []

abbrev pub stale_input_rule_ids : List String
stale_input_rule_ids = "quote_freshness" ∷ "account_state_freshness" ∷ "fx_freshness" ∷ []

abbrev pub is_one_of : List String → String → Bool
is_one_of ids id = any (str_eq id) ids

-- `_is_transient`
unfoldable pub is_transient : List String → Bool
is_transient blocked =
    if not (non_empty blocked)
    then false
    else if any (is_one_of missing_input_rule_ids) blocked
    then true
    else all (is_one_of stale_input_rule_ids) blocked

-- `Revalidation`, as far as the checks read it.
pub record Revalidation : Type 0 where
  pub rules : List RuleResult
  pub account : Option AccountState

-- `Revalidation.blocked`
abbrev pub blocked_rules : Revalidation → List RuleResult
blocked_rules r = filter (λ (rule : RuleResult). is_block rule.outcome) r.rules

-- `Revalidation.rule_ids`
abbrev pub rule_ids : Revalidation → List String
rule_ids r = map (λ (rule : RuleResult). rule.rule_id) (blocked_rules r)

-- Why an order is not sent.
pub data Reason : Type 0 where
  other_environment other_provider consent_missing policy_consent_missing : Reason
  not_executable no_provenance expired already_sent no_quantity proposal_gone short_position :
      Reason
  pending_unreadable pending_full no_slot : Reason
  gate : Gate → Reason
  halted : ControlBlocker → Reason
  rule_blocked : String → Reason

pub record PreflightRefusal : Type 0 where
  pub reasons : List Reason
  pub invalidates : Bool
  pub refused_rule_ids : List String

pub record PreflightOutcome : Type 0 where
  pub refusal : Option PreflightRefusal
  pub revalidation : Option Revalidation
  pub proposal_version : Option ℕ

-- `PreflightOutcome.permitted`
abbrev pub permitted : PreflightOutcome → Bool
permitted outcome = not (present outcome.refusal)

-- `reasons.append(reason)` under a condition.
abbrev pub when : Bool → Reason → List Reason
when test reason = if test then reason ∷ [] else []

abbrev pub is_automatic_source : Option AuthorizationSource → Bool
is_automatic_source (some AuthorizationSource.system_automatic) = true
is_automatic_source _ = false

abbrev pub is_human_source : Option AuthorizationSource → Bool
is_human_source none = false
is_human_source (some AuthorizationSource.system_automatic) = false
is_human_source (some _) = true

abbrev pub is_automatic_policy : ExecutionPolicy → Bool
is_automatic_policy ExecutionPolicy.automatic = true
is_automatic_policy _ = false

-- `_permission_reasons`
unfoldable pub permission_reasons : Settings → Text → TradeProposal → ControlSnapshot → List Reason
permission_reasons settings provider_environment p control =
    let no_consent =
      is_live settings.t212_env && not settings.t212_automated_trading_consent_confirmed in
    when (not (text_eq p.broker_environment (environment_name settings.t212_env)))
      Reason.other_environment
    ++ (when (not (text_eq p.broker_environment provider_environment)) Reason.other_provider
        ++ (map Reason.gate (order_transmission_blockers settings)
            ++ ((if trading_halted control
                  then map Reason.halted (control_blockers control)
                  else [])
                ++ (when (is_automatic_source p.authorization_source && no_consent)
                      Reason.consent_missing
                    ++ when
                        (is_automatic_policy p.execution_policy
                          && (is_human_source p.authorization_source && no_consent))
                        Reason.policy_consent_missing))))

-- `_state_reasons`
unfoldable pub state_reasons : TradeProposal → ℕ → Bool → List Reason
state_reasons p now sent_attempt_exists =
    when (not (status_in p.status executable_statuses)) Reason.not_executable
    ++ (when (not (present p.authorization_source) || not (present p.approved_at))
          Reason.no_provenance
        ++ (when (leb p.expires_at now) Reason.expired
            ++ (when sent_attempt_exists Reason.already_sent
                ++ when (leb_dec p.proposed_quantity zero_dec) Reason.no_quantity)))

-- `_position_reason`
unfoldable pub position_reason : TradeProposal → Revalidation → List Reason
position_reason p r = elim p.side [
  | OrderSide.buy ↦ []
  | OrderSide.sell ↦ elim r.account [
    | none ↦ []
    | some account ↦
        when (ltb_dec (available_quantity (position account p.broker_ticker)) p.proposed_quantity)
          Reason.short_position
  ]
]

abbrev pub refuse : List Reason → Bool → List String → Option Revalidation → PreflightOutcome
refuse reasons invalidates ids revalidation = record {
  refusal = some (record { reasons = reasons; invalidates = invalidates; refused_rule_ids = ids });
  revalidation = revalidation;
  proposal_version = none;
}

-- The verdict on a fresh evaluation.
unfoldable pub judge : TradeProposal → Revalidation → PreflightOutcome
judge p r =
    let reasons = map Reason.rule_blocked (rule_ids r) ++ position_reason p r in
    if non_empty reasons
    then refuse reasons (not (is_transient (rule_ids r))) (rule_ids r) (some r)
    else record { refusal = none; revalidation = some r; proposal_version = some p.version }

-- `run`: the evaluation is asked for only once the local checks pass.
unfoldable pub run :
    Settings
    → Text
    → ControlSnapshot
    → (ℕ → Option Revalidation)
    → TradeProposal
    → ℕ
    → Bool
    → PreflightOutcome
run settings provider_environment control revalidate p now sent_attempt_exists =
    let blocking =
      permission_reasons settings provider_environment p control
      ++ state_reasons p now sent_attempt_exists in
    let judged : PreflightOutcome = elim (revalidate now) [
      | none ↦ refuse (Reason.proposal_gone ∷ []) false [] none
      | some r ↦ judge p r
    ] in
    if non_empty blocking then refuse blocking false [] none else judged
