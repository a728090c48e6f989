-- ===== src/Risk/RuleTests.antt =====
-- The theorems on single rules, on books, on splits and on exits at concrete inputs.
use stock_brain.Prelude.{ℕ, ◌+◌, ◌≡◌, refl, false, some, none, inr, List, [], ◌∷◌, All, length}
use stock_brain.Decimal.{Decimal, whole, places}
use stock_brain.Enums.{ThesisAction, RuleOutcome, TimeHorizon}
use stock_brain.Risk.Config.{default_config}
use stock_brain.Risk.Models.{CalibrationBucket}
use stock_brain.Risk.Conviction.{pct, fill, conviction_targets}
use stock_brain.Risk.Conviction.Fill.{Under, conviction_targets-Under, fill_enough}
use stock_brain.Risk.Exits.{
  roi_target_for, ExitObservation, ExitSignal, FloorsAnswer, evaluate_exit, exit_floors, floors_of,
}
use stock_brain.Risk.Exits.Signals.{IsExit, evaluate_exit-IsExit, horizon_exits}
use stock_brain.Risk.Exits.Floors.{IsShown, exit_floors-IsShown, shown_floor_sells}
use stock_brain.Risk.Operations.{risk_operations}

-- Three holdings, one of which is over the ceiling.
abbrev weights : List (ℕ × Decimal)
weights = (0, whole 5) ∷ (1, places 1 1) ∷ (2, places 1 1) ∷ []

conviction_targets-Under_example :
    All
      (Under (pct (whole 1000) default_config.max_position_pct_of_portfolio))
      (conviction_targets (whole 1000) weights default_config)
conviction_targets-Under_example = conviction_targets-Under (whole 1000) weights default_config

fill_enough_example :
    fill (length weights + 4) (whole 300) (whole 1000) weights
    ≡ fill (length weights) (whole 300) (whole 1000) weights
fill_enough_example = fill_enough 4 (whole 300) (whole 1000) weights

-- Two rounds: the first name is capped, and the two others share the rest.
fill_rounds :
    fill 3 (whole 600) (whole 1000) weights ≡ (0, whole 600) ∷ (1, whole 200) ∷ (2, whole 200) ∷ []
unfolding risk_operations
fill_rounds = refl

abbrev bucket : CalibrationBucket
bucket = record { samples = 20; hit_rate = places 35 2 }

-- A position that ran from ten to fourteen and fell back to twelve.
abbrev trailing : ExitObservation
trailing = record {
  quantity_available = whole 5;
  average_price = whole 10;
  current_price = whole 12;
  peak_price = some (whole 14);
  peak_observations = 4;
  opened_at = 0;
  horizon = TimeHorizon.weeks;
  thesis_superseded = false;
  atr = none;
  atr_as_of = none;
}

-- The same position, flat, four weeks later.
abbrev stale : ExitObservation
stale = record trailing { current_price = whole 10; peak_price = none }

abbrev trailing_signal : ExitSignal
trailing_signal = record {
  rule_id = "trailing_stop";
  action = ThesisAction.sell;
  rule = record {
    rule_id = "trailing_stop";
    rule_version = 1;
    outcome = RuleOutcome.warn;
    max_notional = none;
    size_factor = none;
  };
  fraction = none;
}

trailing_fires : evaluate_exit trailing default_config 60000000 ≡ some trailing_signal
unfolding risk_operations
trailing_fires = refl

evaluate_exit-IsExit_example : IsExit trailing trailing_signal
evaluate_exit-IsExit_example = evaluate_exit-IsExit trailing default_config 60000000 trailing_fires

horizon_exits_example :
    (s : ExitSignal) × (evaluate_exit stale default_config 2419200000000 ≡ some s)
    × (s.action ≡ ThesisAction.sell)
unfolding risk_operations
horizon_exits_example = horizon_exits stale default_config 2419200000000 refl refl

trailing_floors :
    exit_floors trailing default_config 60000000
    ≡ FloorsAnswer.floors (floors_of trailing default_config 60000000 1814400000000)
unfolding risk_operations
trailing_floors = refl

exit_floors-IsShown_example :
    IsShown trailing default_config 60000000
      (floors_of trailing default_config 60000000 1814400000000)
exit_floors-IsShown_example = exit_floors-IsShown trailing default_config 60000000 trailing_floors

shown_floor_sells_example :
    (s : ExitSignal) × (evaluate_exit trailing default_config 60000000 ≡ some s)
    × (s.action ≡ ThesisAction.sell)
unfolding risk_operations
shown_floor_sells_example =
    shown_floor_sells trailing default_config 60000000 trailing_floors (inr refl)

-- A flat position of no great age: the nearest level is the profit target, above the price.
flat_nearest :
    ((floors_of
        (record stale { current_price = whole 10 })
        default_config
        60000000
        1814400000000).nearest_rule
      ≡ "roi_target")
    × ((floors_of
          (record stale { current_price = whole 10 })
          default_config
          60000000
          1814400000000).nearest_floor
        ≡ places 1150 2)
unfolding risk_operations
flat_nearest = (refl, refl)

eight_days : roi_target_for TimeHorizon.weeks 11520 default_config ≡ places 8 2
unfolding risk_operations
eight_days = refl
