-- ===== src/Risk/Operations.antt =====
-- Opens every function of the risk engine, for the tests.
use stock_brain.Decimal.{decimal_operations}
use stock_brain.Prelude.{text_eq, upper, lstrip, strip, starts_with, contains}
use stock_brain.Prelude.Int.{◌+ℤ◌, ◌-ℤ◌, ◌*ℤ◌}
use stock_brain.Fx.{normalize_currency, currency_pair}
use stock_brain.Risk.Config.{is_conviction, reduces_wide_spread}
use stock_brain.Risk.Spread.{assess_live, assess_sides, assess_spread}
use stock_brain.Risk.Models.{
  age_seconds, lookup, position, direction_of_pair, direction_for, apply_direction, convert,
  to_instrument_currency, to_account_currency, direction, same_currency_snapshot, allowed,
  block_rule_ids,
}
use stock_brain.Risk.Gates.{
  gate_results, action_is_executable, instrument_identity, instrument_type_supported,
  account_state_available, account_state_freshness, quote_available, price_source_execution_grade,
  quote_freshness, quote_two_sided, spread_verdict, spread_ceiling, market_session,
  currency_alignment, is_stale_reason, fx_available, fx_freshness, reservation_accounting,
  position_verdict, current_position, duplicate_or_conflicting_proposal, max_active_proposals,
  research_confidence_floor,
}
use stock_brain.Risk.Conviction.{
  pct, conviction_weight, weight_sum, shares, subtract_each, fill, conviction_targets, target_of,
}
use stock_brain.Risk.Caps.{
  held_value, number_from, conviction_target, intent_cap, open_limit, broker_limit, with_broker_cap,
  portfolio_caps, account_caps, notional_caps, cap_outcome, cap_rule_results, least_from,
  least_limit,
}
use stock_brain.Risk.Factors.{
  find_target, target_fill_rule, confidence_factor, confidence_size_factor, calibration_factor,
  calibration_size_factor, drift, reference_price_drift, rate_verdict, fx_rate_drift, proposal_ttl,
}
use stock_brain.Risk.Sizing.{
  snapshot_of, size_side, size_converted, size_quoted, size_trade, round_quantity, nothing,
  buy_result, buy_quantity, finish_buy, size_buy_converted, size_buy, sell_quantity, sell_result,
  size_available, available_for, size_sell,
}
use stock_brain.Risk.Engine.{
  all_rules, combine, combined_size_factor, no_sizing, conclude_sized, conclude, evaluate,
}
use stock_brain.Risk.Exits.{
  gain, minutes_held, decay, roi_target_for, volatility_armed, trailing_armed, evaluate_exit,
  terminal_minutes, least, horizon_ends_at, nearest, floors_of, exit_floors,
}

unfoldable pub risk_operations : Unit {0}
unfolding decimal_operations text_eq upper lstrip strip starts_with contains ◌+ℤ◌ ◌-ℤ◌ ◌*ℤ◌
    normalize_currency currency_pair is_conviction reduces_wide_spread assess_live assess_sides
    assess_spread age_seconds lookup position direction_of_pair direction_for apply_direction
    convert to_instrument_currency to_account_currency direction same_currency_snapshot allowed
    block_rule_ids gate_results action_is_executable instrument_identity instrument_type_supported
    account_state_available account_state_freshness quote_available price_source_execution_grade
    quote_freshness quote_two_sided spread_verdict spread_ceiling market_session currency_alignment
    is_stale_reason fx_available fx_freshness reservation_accounting position_verdict
    current_position duplicate_or_conflicting_proposal max_active_proposals
    research_confidence_floor pct conviction_weight weight_sum shares subtract_each fill
    conviction_targets target_of held_value number_from conviction_target intent_cap open_limit
    broker_limit with_broker_cap portfolio_caps account_caps notional_caps cap_outcome
    cap_rule_results least_from least_limit find_target target_fill_rule confidence_factor
    confidence_size_factor calibration_factor calibration_size_factor drift reference_price_drift
    rate_verdict fx_rate_drift proposal_ttl snapshot_of size_side size_converted size_quoted
    size_trade round_quantity nothing buy_result buy_quantity finish_buy size_buy_converted size_buy
    sell_quantity sell_result size_available available_for size_sell all_rules combine
    combined_size_factor no_sizing conclude_sized conclude evaluate gain minutes_held decay
    roi_target_for volatility_armed trailing_armed evaluate_exit terminal_minutes least
    horizon_ends_at nearest floors_of exit_floors
risk_operations = tt
