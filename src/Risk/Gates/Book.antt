-- ===== src/Risk/Gates/Book.antt =====
-- Gates of backend/stockbrain/risk/rules.py on the position, the other proposals and the confidence.
use stock_brain.Prelude.{
  Bool, true, false, not, ◌&&◌, ◌||◌, Option, none, some, non_empty, if◌then◌else◌, filter, ltb,
  present, ◌==◌,
}
use stock_brain.Decimal.{Decimal, zero_dec, leb_dec, ltb_dec}
use stock_brain.Enums.{ThesisAction, OrderSide}
use stock_brain.Risk.Models.{RiskInputs, RuleResult, PositionState, position}
use stock_brain.Risk.Gates.Verdict.{
  is_increasing, is_reducing, action_side, verdict, pass_if, skipped,
}

unfoldable pub reservation_accounting : RiskInputs → RuleResult
reservation_accounting inputs =
    let blocked = is_increasing inputs.action && non_empty inputs.reserved.blockers in
    verdict "reservation_accounting" 1 (pass_if (not blocked))

-- What is held of a listing, and how much of it may be traded: zero without a position.
abbrev pub held_quantity : Option PositionState → Decimal
held_quantity none = zero_dec
held_quantity (some p) = p.quantity

abbrev pub available_quantity : Option PositionState → Decimal
available_quantity none = zero_dec
available_quantity (some p) = p.quantity_available

-- `position is not None and position.market_value is None`
abbrev is_unvalued : Option PositionState → Bool
is_unvalued none = false
is_unvalued (some p) = not (present p.market_value)

unfoldable pub position_verdict : ThesisAction → Option PositionState → RuleResult
position_verdict action held =
    if is_reducing action
    then verdict "current_position" 1 (pass_if (not (leb_dec (available_quantity held) zero_dec)))
    else verdict "current_position" 1
        (pass_if (not (ltb_dec zero_dec (held_quantity held) && is_unvalued held)))

unfoldable pub current_position : RiskInputs → RuleResult
current_position inputs = elim inputs.account [
  | none ↦ skipped "current_position" 1
  | some account ↦ position_verdict inputs.action (position account inputs.identity.broker_ticker)
]

-- `side is not None and item != side.value`
abbrev opposes : ThesisAction → OrderSide → Bool
opposes action item = elim (action_side action) [
  | none ↦ false
  | some OrderSide.buy ↦ elim item [ OrderSide.buy ↦ false | OrderSide.sell ↦ true ]
  | some OrderSide.sell ↦ elim item [ OrderSide.buy ↦ true | OrderSide.sell ↦ false ]
]

unfoldable pub duplicate_or_conflicting_proposal : RiskInputs → RuleResult
duplicate_or_conflicting_proposal inputs =
    let opposing = filter (opposes inputs.action) inputs.reserved.same_instrument_sides in
    let problems = not (inputs.reserved.same_instrument_count == 0) || non_empty opposing in
    verdict "duplicate_or_conflicting_proposal" 1 (pass_if (not problems))

unfoldable pub max_active_proposals : RiskInputs → RuleResult
max_active_proposals inputs =
    if is_reducing inputs.action
    then skipped "max_active_proposals" 2
    else verdict "max_active_proposals" 2
        (pass_if (ltb inputs.reserved.count inputs.config.max_active_proposals))

unfoldable pub research_confidence_floor : RiskInputs → RuleResult
research_confidence_floor inputs =
    if is_reducing inputs.action
    then skipped "research_confidence_floor" 2
    else verdict "research_confidence_floor" 2
        (pass_if (leb_dec inputs.config.min_research_confidence inputs.confidence))
