-- ===== src/Risk/Gates/Verdict.antt =====
-- The kinds of action and the verdicts of backend/stockbrain/risk/rules.py.
use stock_brain.Prelude.{ℕ, Bool, true, false, Option, none, some, if◌then◌else◌, String}
use stock_brain.Enums.{ThesisAction, OrderSide, RuleOutcome}
use stock_brain.Risk.Models.{RuleResult}

-- `action in EXPOSURE_INCREASING_ACTIONS`
abbrev pub is_increasing : ThesisAction → Bool
is_increasing ThesisAction.buy = true
is_increasing _ = false

-- `action in RISK_REDUCING_ACTIONS`
abbrev pub is_reducing : ThesisAction → Bool
is_reducing ThesisAction.sell = true
is_reducing ThesisAction.reduce = true
is_reducing _ = false

-- `ACTION_SIDES`
abbrev pub action_side : ThesisAction → Option OrderSide
action_side ThesisAction.buy = some OrderSide.buy
action_side ThesisAction.sell = some OrderSide.sell
action_side ThesisAction.reduce = some OrderSide.sell
action_side _ = none

-- A verdict that imposes neither a cap nor a reduction.
abbrev pub verdict : String → ℕ → RuleOutcome → RuleResult
verdict rule_id version outcome = record {
  rule_id = rule_id;
  rule_version = version;
  outcome = outcome;
  max_notional = none;
  size_factor = none;
}

-- `RuleOutcome.PASS if ok else RuleOutcome.BLOCK`
abbrev pub pass_if : Bool → RuleOutcome
pass_if ok = if ok then RuleOutcome.pass else RuleOutcome.block

-- `_skipped`
abbrev pub skipped : String → ℕ → RuleResult
skipped rule_id version = verdict rule_id version RuleOutcome.warn
