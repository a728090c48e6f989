-- ===== src/Proposals/Rebalance/Tests.antt =====
-- The theorems on rebalancing at a book of three holdings.
use stock_brain.Prelude.{◌≡◌, List, [], ◌∷◌, ◌++◌, none, some, All, codes, refl, text_eq, ℕ}
use stock_brain.Decimal.{whole, places, decimal_operations}
use stock_brain.Enums.{ThesisAction}
use stock_brain.Risk.Config.{RiskConfig, default_config, is_conviction}
use stock_brain.Risk.Models.{AccountState, PositionState, position, lookup}
use stock_brain.Risk.Caps.{held_value}
use stock_brain.Proposals.Rebalance.{
  HoldingBelief, LineAction, RebalanceLine, Request, plan, requests, line, line_action, target,
  weight, sort_lines, insert_line,
}
use stock_brain.Proposals.Rebalance.Lines.{
  IsFounded, plan-IsFounded, IsSale, IsPurchase, requests_sales_first,
}

-- Four positions are aimed at, of two thousand each.
abbrev config : RiskConfig
config = record default_config {
  sizing_mode = codes "conviction";
  target_positions = 4;
  conviction_min_weight = places 5 1;
  max_position_pct_of_portfolio = places 25 2;
}

abbrev held : ℕ → PositionState
held n = record { quantity = whole 1; quantity_available = whole 1; market_value = some (whole n) }

abbrev account : AccountState
account = record {
  currency = codes "GBP";
  cash_available = whole 3000;
  total_value = whole 8000;
  captured_at = 90;
  invested_value = whole 5000;
  positions = (codes "A", held 3000) ∷ (codes "B", held 500) ∷ (codes "C", held 1500) ∷ [];
}

abbrev bought : HoldingBelief
bought = record {
  broker_ticker = codes "A";
  origin_thesis_id = some 1;
  thesis_id = some 1;
  action = some ThesisAction.buy;
  confidence = none;
  thesis_at = some 80;
}

abbrev small : HoldingBelief
small = record bought { broker_ticker = codes "B"; thesis_id = some 2 }

abbrev foreign : HoldingBelief
foreign = record bought { broker_ticker = codes "C"; origin_thesis_id = none }

abbrev beliefs : List HoldingBelief
beliefs = small ∷ bought ∷ foreign ∷ []

abbrev lines : List RebalanceLine
lines =
    record {
      broker_ticker = codes "A";
      value = whole 3000;
      target = places 10000 1;
      action = LineAction.trim;
      thesis_id = some 1;
    }
    ∷ record {
      broker_ticker = codes "C";
      value = whole 1500;
      target = places 10000 1;
      action = LineAction.skip;
      thesis_id = some 1;
    }
    ∷ record {
      broker_ticker = codes "B";
      value = whole 500;
      target = places 10000 1;
      action = LineAction.top_up;
      thesis_id = some 2;
    }
    ∷ []

plans : plan config (whole 5) 20 (some account) beliefs 100 ≡ some lines
unfolding plan line line_action target weight sort_lines insert_line position lookup text_eq
    decimal_operations is_conviction held_value
plans = refl

plan-IsFounded_example : All (IsFounded config (whole 5) 20 account beliefs 100) lines
plan-IsFounded_example = plan-IsFounded config (whole 5) 20 account beliefs 100 lines plans

requests_sales_first_example :
    (sold : List Request) × (bought : List Request) × (requests lines ≡ sold ++ bought)
    × All IsSale sold
    × All IsPurchase bought
requests_sales_first_example = requests_sales_first lines
