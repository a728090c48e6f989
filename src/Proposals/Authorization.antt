-- ===== src/Proposals/Authorization.antt =====
-- The authorization of a proposal: `authorize` of backend/stockbrain/proposals/service.py, with the rules
-- of backend/stockbrain/proposals/evaluation.py that exist only because a proposal does. The decision of
-- the risk engine on the fresh facts is an argument.
pub mod Writes
pub mod Grants
mod Tests
use stock_brain.Prelude.{
  ℕ, Bool, true, false, not, ◌&&◌, ◌||◌, List, [], ◌∷◌, ◌++◌, Option, none, some, Text, text_eq,
  leb, ◌==◌, if◌then◌else◌, non_empty, present, filter, map, String,
}
use stock_brain.Decimal.{Decimal, zero_dec, leb_dec, eqb_dec, mul_dec, quantize_ceiling}
use stock_brain.Enums.{
  ProposalStatus, AuthorizationSource, ExecutionPolicy, OrderSide, NotificationEvent, RuleOutcome,
  RiskOutcome, is_block, status_in, status_eq,
}
use stock_brain.Control.{ControlSnapshot, trading_halted}
use stock_brain.Proposals.StateMachine.{authorizable_statuses}
use stock_brain.Risk.Config.{RiskConfig}
use stock_brain.Risk.Models.{
  AccountState, QuoteSnapshot, FxSnapshot, RuleResult, RiskDecision, usable, to_account_currency,
}
use stock_brain.Risk.Gates.{verdict, pass_if}
use stock_brain.Risk.Factors.{fx_rate_drift, proposal_ttl}
use stock_brain.Store.{TradeProposal, Store, find_proposal, save_proposal, log_action, set_status}
use stock_brain.Execution.Service.{asserting}
use stock_brain.Proposals.Lifecycle.{notify, retire_approval_actions, invalidate}
use stock_brain.Proposals.Lifecycle.Standing.{other_policy}
use stock_brain.Proposals.Lifecycle.Sweep.{price_drift}

-- What the evaluator loaded.
pub record EvaluationFacts : Type 0 where
  pub account : Option AccountState
  pub quote : Option QuoteSnapshot
  pub fx : Option FxSnapshot

abbrev pub side_eq : OrderSide → OrderSide → Bool
side_eq OrderSide.buy OrderSide.buy = true
side_eq OrderSide.sell OrderSide.sell = true
side_eq _ _ = false

abbrev pub is_side : Option OrderSide → OrderSide → Bool
is_side none side = false
is_side (some s) side = side_eq s side

-- `_envelope_still_covers`
unfoldable pub envelope_still_covers : TradeProposal → RiskDecision → RuleResult
envelope_still_covers p decision = elim decision.outcome [
  | RiskOutcome.block ↦ verdict "authorization_envelope" 2 RuleOutcome.warn
  | _ ↦
      if not (is_side decision.sizing.side p.side)
      then verdict "authorization_envelope" 2 RuleOutcome.block
      else verdict "authorization_envelope" 2
          (pass_if (leb_dec p.proposed_quantity decision.sizing.max_quantity))
]

-- `_policy_version_unchanged`
unfoldable pub policy_version_unchanged : TradeProposal → Text → RuleResult
policy_version_unchanged p current =
    verdict "risk_policy_version" 1 (pass_if (not (other_policy current p)))

abbrev pub mid_of : Option QuoteSnapshot → Option Decimal
mid_of none = none
mid_of (some q) = q.mid

-- `_authorization_rules`
unfoldable pub authorization_rules :
    RiskConfig → Decimal → TradeProposal → RiskDecision → EvaluationFacts → ℕ → List RuleResult
unfolding envelope_still_covers policy_version_unchanged
authorization_rules config max_rate_drift p decision facts now =
    proposal_ttl p.expires_at now
    ∷ price_drift config p (mid_of facts.quote)
    ∷ fx_rate_drift p.fx_rate facts.fx max_rate_drift
    ∷ policy_version_unchanged p config.version
    ∷ envelope_still_covers p decision
    ∷ []

-- The rules of `evaluate` for a proposal.
abbrev pub rules_for :
    RiskConfig → Decimal → TradeProposal → RiskDecision → EvaluationFacts → ℕ → List RuleResult
rules_for config max_rate_drift p decision facts now =
    decision.rules ++ authorization_rules config max_rate_drift p decision facts now

abbrev pub blocked_of : List RuleResult → List RuleResult
blocked_of rules = filter (λ (rule : RuleResult). is_block rule.outcome) rules

-- The exceptions that refuse an authorization.
pub data Refusal : Type 0 where
  not_permitted already_consumed expired invalidated : Refusal
  risk_blocked : List String → Refusal

abbrev pub is_automatic : AuthorizationSource → Bool
is_automatic AuthorizationSource.system_automatic = true
is_automatic _ = false

abbrev pub automatic_policy : ExecutionPolicy → Bool
automatic_policy ExecutionPolicy.automatic = true
automatic_policy _ = false

-- `_assert_authorizable`: the exception that it raises.
unfoldable pub assert_authorizable : TradeProposal → AuthorizationSource → ℕ → Option Refusal
assert_authorizable p source now =
    if status_eq p.status ProposalStatus.invalidated
    then some Refusal.invalidated
    else if not (status_in p.status authorizable_statuses)
    then some Refusal.already_consumed
    else if leb p.expires_at now
    then some Refusal.expired
    else if is_automatic source && not (automatic_policy p.execution_policy)
    then some Refusal.not_permitted
    else none

-- `_apply_fx`, as far as the columns decide something.
abbrev pub apply_fx : Option FxSnapshot → TradeProposal → TradeProposal
apply_fx none p = record p { fx_required = false }
apply_fx (some fx) p =
    if fx.same_currency
    then record p { fx_required = false }
    else record p { fx_required = true; fx_rate = fx.rate }

-- `sizing.reference_price or locked.reference_price`
abbrev pub new_reference : RiskDecision → TradeProposal → Decimal
new_reference decision p = elim decision.sizing.reference_price [
  | none ↦ p.reference_price
  | some price ↦ if eqb_dec price zero_dec then p.reference_price else price
]

-- The row with the values that were judged; `converted` is the notional in the account's currency.
abbrev pub judged : RiskDecision → Option FxSnapshot → Decimal → TradeProposal → TradeProposal
judged decision fx converted p = record (apply_fx fx p) {
  reference_price = new_reference decision p;
  estimated_notional = mul_dec p.proposed_quantity (new_reference decision p);
  estimated_notional_account_currency = some (quantize_ceiling 4 converted);
  max_quantity = decision.sizing.max_quantity;
  risk_policy_version = some decision.policy_version;
}

abbrev pub approve : AuthorizationSource → Text → ℕ → TradeProposal → TradeProposal
approve source actor now p = record (set_status ProposalStatus.approved now p) {
  approved_at = some now;
  approved_by = some actor;
  authorization_source = some source;
}

-- The end of an authorization: refused with the tables as they are then, granted, or a failed
-- assertion (or a rate that is not there), which rolls back.
pub data Authorization : Type 0 where
  refused : Refusal → Store → Authorization
  granted : Store → Authorization
  raised : Authorization

abbrev pub or_raised : Option Store → (Store → Authorization) → Authorization
or_raised none _ = Authorization.raised
or_raised (some store) end = end store

-- The refusal of a rule is committed with the invalidation.
unfoldable pub refuse_blocked : List RuleResult → TradeProposal → ℕ → Store → Authorization
refuse_blocked blocked p now store =
    or_raised
      (asserting p.status ProposalStatus.invalidated (
        notify p.id NotificationEvent.authorization_refused (
          retire_approval_actions (p.id ∷ []) now (
            log_action "proposal.authorization_refused" p.id
              (save_proposal (invalidate now p) store)))))
      (Authorization.refused
        (Refusal.risk_blocked (map (λ (rule : RuleResult). rule.rule_id) blocked)))

-- The branch of an authorization that no rule blocks.
unfoldable pub grant :
    RiskDecision
    → EvaluationFacts
    → AuthorizationSource
    → Text
    → ℕ
    → TradeProposal
    → Store
    → Authorization
grant decision facts source actor now p store =
    if not (present facts.quote && present facts.account)
    then Authorization.raised
    else elim facts.fx [
      | none ↦ Authorization.raised
      | some fx ↦
          if not (usable fx)
          then Authorization.raised
          else elim (to_account_currency fx
              (mul_dec p.proposed_quantity (new_reference decision p))) [
                | none ↦ Authorization.raised
                | some converted ↦
                    or_raised
                      (asserting p.status ProposalStatus.approved (
                        retire_approval_actions (p.id ∷ []) now (
                          log_action "proposal.authorized" p.id (
                            save_proposal
                              (approve source actor now (judged decision facts.fx converted p))
                              store))))
                      Authorization.granted
              ]
    ]

-- The transaction of `authorize` on the row that it locked.
unfoldable pub authorize_locked :
    RiskConfig
    → Decimal
    → RiskDecision
    → EvaluationFacts
    → AuthorizationSource
    → Text
    → ℕ
    → TradeProposal
    → Store
    → Authorization
unfolding authorization_rules refuse_blocked grant assert_authorizable
authorize_locked config max_rate_drift decision facts source actor now p store =
    elim (assert_authorizable p source now) [
      | some refusal ↦ Authorization.refused refusal store
      | none ↦
          let blocked = blocked_of (rules_for config max_rate_drift p decision facts now) in
          if non_empty blocked
          then refuse_blocked blocked p now store
          else grant decision facts source actor now p store
    ]

-- `authorize`: `before` are the tables when the proposal is first read, `store` those under the lock.
-- `automation` says whether automatic authorization is permitted.
unfoldable pub authorize :
    ControlSnapshot
    → Bool
    → RiskConfig
    → Decimal
    → RiskDecision
    → EvaluationFacts
    → ℕ
    → AuthorizationSource
    → Text
    → ℕ
    → Store
    → Store
    → Authorization
unfolding authorize_locked
authorize control automation config max_rate_drift decision facts id source actor now before store =
    if trading_halted control || (is_automatic source && not automation)
    then Authorization.refused Refusal.not_permitted store
    else elim (find_proposal id before) [
      | none ↦ Authorization.refused Refusal.already_consumed store
      | some observed ↦ elim (assert_authorizable observed source now) [
        | some refusal ↦ Authorization.refused refusal store
        | none ↦ elim (find_proposal id store) [
          | none ↦ Authorization.refused Refusal.already_consumed store
          | some p ↦
              if not (p.version == observed.version)
              then Authorization.refused Refusal.already_consumed store
              else authorize_locked config max_rate_drift decision facts source actor now p store
        ]
      ]
    ]
