-- ===== src/Risk/Engine.antt =====
-- backend/stockbrain/risk/engine.py: `RiskEngine.evaluate`. The summary of the inputs that a decision
-- carries for display is not modelled; `none` is a `ValueError` that leaves it.
pub mod Blocks
pub mod Reductions
pub mod Allowed
pub mod Reducing
use stock_brain.Prelude.{
  ℕ, Bool, false, List, [], ◌∷◌, ◌++◌, Option, none, some, if◌then◌else◌, any, filter,
}
use stock_brain.Decimal.{Decimal, zero_dec, whole, mul_dec, min_dec, max_dec}
use stock_brain.Enums.{RiskOutcome, is_block, is_reduce}
use stock_brain.Risk.Models.{RiskInputs, RuleResult, SizingResult, RiskDecision}
use stock_brain.Risk.Gates.{gate_results}
use stock_brain.Risk.Caps.{NotionalCap, notional_caps, cap_rule_results, least_limit}
use stock_brain.Risk.Factors.{target_fill_rule, confidence_size_factor, calibration_size_factor}
use stock_brain.Risk.Sizing.{SizingRequest, size_trade}

-- `if rule is not None: rules.append(rule)`
abbrev pub optional : Option RuleResult → List RuleResult
optional none = []
optional (some rule) = rule ∷ []

-- The rules of a decision, in the order in which they are listed.
unfoldable pub all_rules : RiskInputs → List NotionalCap → List RuleResult
all_rules inputs caps =
    let intended = least_limit (filter (λ (c : NotionalCap). c.defines_intent) caps) in
    gate_results inputs
    ++ (cap_rule_results caps intended
        ++ (optional (target_fill_rule caps inputs.config)
            ++ (optional (confidence_size_factor inputs)
                ++ optional (calibration_size_factor inputs))))

abbrev pub blocks : RuleResult → Bool
blocks rule = is_block rule.outcome

abbrev pub reduces : RuleResult → Bool
reduces rule = is_reduce rule.outcome

-- The loop of `_combined_size_factor`.
unfoldable pub combine : Decimal → List RuleResult → Decimal
combine factor [] = factor
combine factor (rule ∷ rest) =
    combine
      (elim rule.size_factor [
        | none ↦ factor
        | some f ↦ mul_dec factor (min_dec (whole 1) (max_dec zero_dec f))
      ])
      rest

-- `_combined_size_factor`
unfoldable pub combined_size_factor : List RuleResult → Decimal
combined_size_factor rules = combine (whole 1) rules

-- The sizing of a decision that something blocks.
unfoldable pub no_sizing : RiskInputs → SizingResult
no_sizing inputs = record {
  side = none;
  quantity = zero_dec;
  target_notional = zero_dec;
  max_quantity = zero_dec;
  max_notional = zero_dec;
  reference_price = none;
  currency = inputs.identity.currency;
  account_currency = none;
  notional_account_currency = zero_dec;
  max_notional_instrument_currency = zero_dec;
  executable = false;
}

abbrev pub request_of : RiskInputs → List NotionalCap → List RuleResult → SizingRequest
request_of inputs caps rules = record {
  action = inputs.action;
  config = inputs.config;
  identity = inputs.identity;
  quote = inputs.quote;
  account = inputs.account;
  max_notional = least_limit caps;
  size_factor = combined_size_factor rules;
  fx = inputs.fx;
  reduce_fraction = inputs.reduce_fraction;
}

-- `_decide`
abbrev pub decide : RiskInputs → List RuleResult → SizingResult → RiskOutcome → ℕ → RiskDecision
decide inputs rules sizing outcome evaluated_at = record {
  outcome = outcome;
  policy_version = inputs.config.version;
  rules = rules;
  sizing = sizing;
  evaluated_at = evaluated_at;
}

-- The decision on a size.
unfoldable pub conclude_sized :
    RiskInputs → List RuleResult → ℕ → Option SizingResult → Option RiskDecision
conclude_sized inputs rules evaluated_at none = none
conclude_sized inputs rules evaluated_at (some sizing) = some (
    decide inputs rules sizing
      (if any reduces rules then RiskOutcome.reduce_size else RiskOutcome.allow) evaluated_at)

-- The decision from the rules: sizing is not attempted when one of them blocks.
unfoldable pub conclude : RiskInputs → List NotionalCap → List RuleResult → ℕ → Option RiskDecision
conclude inputs caps rules evaluated_at =
    let sized =
      conclude_sized inputs rules evaluated_at (size_trade (request_of inputs caps rules)) in
    if any blocks rules
    then some (decide inputs rules (no_sizing inputs) RiskOutcome.block evaluated_at)
    else sized

-- `RiskEngine.evaluate`, at the instant that stands for `now or utcnow()`.
unfoldable pub evaluate : RiskInputs → ℕ → Option RiskDecision
evaluate inputs evaluated_at = elim (notional_caps inputs) [
  | none ↦ none
  | some caps ↦ conclude inputs caps (all_rules inputs caps) evaluated_at
]
