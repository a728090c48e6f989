-- ===== src/Risk/Gates/Listing.antt =====
-- Gates of backend/stockbrain/risk/rules.py on the action, the listing and the account snapshot.
use stock_brain.Prelude.{
  Bool, true, false, not, ◌||◌, [], Option, none, some, Text, text_eq, upper, non_empty, any,
  value_or, present,
}
use stock_brain.Decimal.{leb_dec}
use stock_brain.Enums.{ThesisAction, RuleOutcome, ResolutionStatus}
use stock_brain.Risk.Models.{RiskInputs, RuleResult, age_seconds}
use stock_brain.Risk.Gates.Verdict.{verdict, pass_if}

unfoldable pub action_is_executable : ThesisAction → RuleResult
action_is_executable action =
    let executable : Bool = elim action [
      | ThesisAction.hold ↦ false
      | ThesisAction.no_action ↦ false
      | _ ↦ true
    ] in
    verdict "action_is_executable" 1 (pass_if executable)

-- Whether an optional text is `None` or empty.
abbrev pub missing_text : Option Text → Bool
missing_text t = not (non_empty (value_or t []))

abbrev is_resolved : ResolutionStatus → Bool
is_resolved ResolutionStatus.resolved = true
is_resolved _ = false

unfoldable pub instrument_identity : RiskInputs → RuleResult
instrument_identity inputs =
    let identity = inputs.identity in
    let problems =
      not (is_resolved identity.resolution_status)
      || (not identity.is_active
          || (not (non_empty identity.broker_ticker)
              || (missing_text identity.market_symbol || not (present identity.company_id)))) in
    verdict "instrument_identity" 1 (pass_if (not problems))

unfoldable pub instrument_type_supported : RiskInputs → RuleResult
instrument_type_supported inputs =
    let observed = upper (value_or inputs.identity.instrument_type []) in
    let ok = any (λ item. text_eq observed (upper item)) inputs.config.allowed_instrument_types in
    verdict "instrument_type_supported" 1 (pass_if ok)

unfoldable pub account_state_available : RiskInputs → RuleResult
account_state_available inputs =
    verdict "account_state_available" 1 (pass_if (present inputs.account))

unfoldable pub account_state_freshness : RiskInputs → RuleResult
account_state_freshness inputs = elim inputs.account [
  | none ↦ verdict "account_state_freshness" 1 RuleOutcome.block
  | some account ↦
      let ok =
        leb_dec (age_seconds account inputs.now) inputs.config.max_account_state_age_seconds in
      verdict "account_state_freshness" 1 (pass_if ok)
]
