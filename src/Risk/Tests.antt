-- ===== src/Risk/Tests.antt =====
-- The theorems on decisions and sizes at concrete inputs.
use stock_brain.Prelude.{
  arith, ◌≡◌, ◌<◌, refl, true, false, some, none, any, ◌↔◌, ◌⊎◌, List, [], ◌∷◌, All, codes,
}
use stock_brain.Decimal.{Decimal, zero_dec, whole, places, leb_dec}
use stock_brain.Decimal.Order.{◌<D◌}
use stock_brain.Enums.{RiskOutcome, ThesisAction, OrderSide, RuleOutcome}
use stock_brain.Risk.Config.{default_config}
use stock_brain.Risk.Models.{RuleResult, allowed, convert}
use stock_brain.Risk.Models.Conversion.{convert-IsRated, IsRated, SameCode}
use stock_brain.Risk.Caps.{NotionalCap, notional_caps, cap_of}
use stock_brain.Risk.Engine.{evaluate, blocks, all_rules, combined_size_factor}
use stock_brain.Risk.Engine.Blocks.{evaluate_block, allowed_passes}
use stock_brain.Risk.Engine.Allowed.{IsMeasured, allowed-IsMeasured, IsRoomy, allowed_room}
use stock_brain.Risk.Engine.Reducing.{with_pressure, reducing_unblocked}
use stock_brain.Risk.Engine.Reductions.{IsFactor, combined_size_factor-IsFactor}
use stock_brain.Risk.Sizing.{size_trade, sell_quantity, snapshot_of, two_prices, marketable}
use stock_brain.Risk.Sizing.Bounds.{IsSound}
use stock_brain.Risk.Sizing.Bought.{IsBought}
use stock_brain.Risk.Sizing.Sound.{size_trade-IsSound}
use stock_brain.Risk.Sizing.Holding.{Within, sell_quantity-Within, IsUndirected, size_trade-eq-none}
use stock_brain.Risk.Gates.{gate_results, action_side}
use stock_brain.Risk.Operations.{risk_operations}
use stock_brain.Risk.Samples.{
  buy_inputs, hold_inputs, reduce_inputs, buy_decision, hold_decision, buy_request,
  rateless_request, sample_identity, cable, bought,
}

buy_runs : evaluate buy_inputs 5000000 ≡ some buy_decision
unfolding risk_operations
buy_runs = refl

hold_runs : evaluate hold_inputs 5000000 ≡ some hold_decision
unfolding risk_operations
hold_runs = refl

-- A buy of sixteen shares at the ask.
buy_size :
    (allowed buy_decision ≡ true)
    × (buy_decision.outcome ≡ RiskOutcome.reduce_size)
    × (buy_decision.sizing.quantity ≡ whole 16)
unfolding risk_operations
buy_size = (refl, refl, refl)

evaluate_block_example :
    ((buy_decision.outcome ≡ RiskOutcome.block) ↔ (any blocks buy_decision.rules ≡ true))
    × (buy_decision.outcome ≡ RiskOutcome.block
        → (buy_decision.sizing.side ≡ none)
          × (buy_decision.sizing.quantity ≡ zero_dec)
          × (buy_decision.sizing.executable ≡ false)
          × (allowed buy_decision ≡ false))
evaluate_block_example = evaluate_block buy_inputs 5000000 buy_runs

allowed_passes_example :
    (any blocks buy_decision.rules ≡ false)
    × (any blocks (gate_results buy_inputs) ≡ false)
    × (buy_decision.sizing.executable ≡ true)
allowed_passes_example = allowed_passes buy_inputs 5000000 buy_runs buy_size.0

allowed-IsMeasured_example : IsMeasured buy_inputs
allowed-IsMeasured_example = allowed-IsMeasured buy_inputs 5000000 buy_runs buy_size.0

allowed_room_example :
    (caps : List NotionalCap) × (notional_caps buy_inputs ≡ some caps)
    × All (λ cap. zero_dec <D cap.limit) caps
    × IsRoomy buy_inputs caps buy_decision
allowed_room_example = allowed_room buy_inputs 5000000 refl buy_runs buy_size.0

-- A reduction on little confidence, beside many other proposals whose accounting is broken.
reducing_unblocked_example :
    (notional_caps reduce_inputs ≡ some [])
    × (any blocks (
          all_rules
            (with_pressure reduce_inputs (whole 0) 99 (whole 5000) (codes "unpriced" ∷ []))
            [])
        ≡ any blocks (all_rules reduce_inputs []))
    × (0 < reduce_inputs.reserved.same_instrument_count
        → any blocks (all_rules reduce_inputs []) ≡ true)
reducing_unblocked_example =
    reducing_unblocked reduce_inputs (whole 0) 99 (whole 5000) (codes "unpriced" ∷ []) refl

-- Two factors, one of them above one.
abbrev factor_rules : List RuleResult
factor_rules =
    record {
      rule_id = "a";
      rule_version = 1;
      outcome = RuleOutcome.reduce;
      max_notional = none;
      size_factor = some (places 5 1);
    }
    ∷ record {
      rule_id = "b";
      rule_version = 1;
      outcome = RuleOutcome.pass;
      max_notional = none;
      size_factor = some (whole 3);
    }
    ∷ []

combined_size_factor-IsFactor_example : IsFactor (combined_size_factor factor_rules)
combined_size_factor-IsFactor_example = combined_size_factor-IsFactor factor_rules

abbrev two_caps : List NotionalCap
two_caps =
    cap_of "max_notional_per_trade" 1 (whole 500) true
    ∷ cap_of "min_cash_reserve" 1 (whole 40) false
    ∷ []

size_runs : size_trade buy_request ≡ some bought
unfolding risk_operations
size_runs = refl

size_trade-IsSound_example :
    IsSound default_config bought
    × (buy_request.action ≡ ThesisAction.buy
        → bought.executable ≡ true
        → IsBought buy_request bought)
size_trade-IsSound_example = size_trade-IsSound buy_request bought size_runs

-- Half of five and a quarter shares.
sell_quantity-Within_example :
    Within
      (places 525 2)
      (sell_quantity ThesisAction.reduce default_config sample_identity none (places 525 2))
unfolding risk_operations
sell_quantity-Within_example =
    sell_quantity-Within ThesisAction.reduce default_config sample_identity none (places 525 2)
      (ground arith) refl refl

-- A conversion that is permitted without a rate leaves `size_trade` as an error.
size_trade-eq-none_example : (size_trade rateless_request ≡ none) ↔ (
    (side : OrderSide) × (prices : Decimal × Decimal) × (action_side rateless_request.action
      ≡ some side)
    × (two_prices rateless_request.quote ≡ some prices)
    × (leb_dec (marketable side prices.0 prices.1) zero_dec ≡ false)
    × IsUndirected (snapshot_of rateless_request))
size_trade-eq-none_example = size_trade-eq-none rateless_request

rateless_raises : size_trade rateless_request ≡ none
unfolding risk_operations
rateless_raises = refl

cable_converts : convert cable (whole 100) (codes "GBP") (codes "usd") ≡ some (places 12500 2)
unfolding risk_operations
cable_converts = refl

convert-IsRated_example :
    (SameCode (codes "GBP") (codes "usd") × (places 12500 2 ≡ whole 100))
    ⊎ IsRated cable (codes "GBP") (codes "usd") (whole 100) (places 12500 2)
convert-IsRated_example =
    convert-IsRated cable (whole 100) (codes "GBP") (codes "usd") cable_converts
