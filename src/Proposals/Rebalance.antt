-- ===== src/Proposals/Rebalance.antt =====
-- backend/stockbrain/proposals/rebalance.py: the plan that moves a book toward its conviction targets, and
-- the proposals that it asks for, with `HoldingBelief` of backend/stockbrain/proposals/holdings.py. The
-- beliefs, one for each ticker, and the account are arguments; the answers of `generate_exit` decide
-- nothing here and are left out.
pub mod Lines
mod Tests
use stock_brain.Prelude.{
  ℕ, ◌+◌, Bool, true, false, not, ◌&&◌, ◌||◌, List, [], ◌∷◌, ◌++◌, Option, none, some, Text,
  text_eq, ltb, ◌==◌, if◌then◌else◌, present, filter, map,
}
use stock_brain.Decimal.{
  Decimal, zero_dec, whole, places, leb_dec, ltb_dec, sub_dec, neg_dec, abs_dec, mul_dec, div_dec,
  min_dec,
}
use stock_brain.Enums.{ThesisAction}
use stock_brain.Risk.Config.{RiskConfig, is_conviction}
use stock_brain.Risk.Conviction.{conviction_weight, conviction_targets, target_of}
use stock_brain.Risk.Caps.{held_value}
use stock_brain.Risk.Models.{AccountState, position}

pub record HoldingBelief : Type 0 where
  pub broker_ticker : Text
  pub origin_thesis_id : Option ℕ
  pub thesis_id : Option ℕ
  pub action : Option ThesisAction
  pub confidence : Option Decimal
  pub thesis_at : Option ℕ

-- `HoldingBelief.managed`
abbrev pub managed : HoldingBelief → Bool
managed belief = present belief.origin_thesis_id

abbrev pub says_buy : Option ThesisAction → Bool
says_buy (some ThesisAction.buy) = true
says_buy _ = false

abbrev pub says_hold : Option ThesisAction → Bool
says_hold (some ThesisAction.hold) = true
says_hold _ = false

-- `HoldingBelief.weight`
unfoldable pub weight : RiskConfig → HoldingBelief → Decimal
weight config belief = elim belief.confidence [
  | none ↦ config.conviction_min_weight
  | some confidence ↦
      if says_buy belief.action
      then conviction_weight config confidence
      else config.conviction_min_weight
]

pub data LineAction : Type 0 where
  trim top_up stay review skip : LineAction

pub record RebalanceLine : Type 0 where
  pub broker_ticker : Text
  pub value : Decimal
  pub target : Decimal
  pub action : LineAction
  pub thesis_id : Option ℕ

-- `RebalanceLine.delta`
abbrev pub delta : RebalanceLine → Decimal
delta line = sub_dec line.target line.value

abbrev pub is_stale : ℕ → ℕ → HoldingBelief → Bool
is_stale max_thesis_age now belief = elim belief.thesis_at [
  | none ↦ true
  | some t ↦ ltb (t + max_thesis_age) now
]

-- The branches of `_line`.
unfoldable pub line_action : Decimal → ℕ → ℕ → HoldingBelief → Decimal → LineAction
line_action min_move max_thesis_age now belief change =
    if not (managed belief)
    then LineAction.skip
    else if not (says_buy belief.action || says_hold belief.action)
    then LineAction.skip
    else if is_stale max_thesis_age now belief
    then LineAction.review
    else if ltb_dec (abs_dec change) min_move
    then LineAction.stay
    else if ltb_dec zero_dec change && says_hold belief.action
    then LineAction.stay
    else if ltb_dec zero_dec change
    then LineAction.top_up
    else LineAction.trim

-- `_line`
unfoldable pub line : Decimal → ℕ → ℕ → HoldingBelief → Decimal → Decimal → RebalanceLine
unfolding line_action
line min_move max_thesis_age now belief value target = record {
  broker_ticker = belief.broker_ticker;
  value = value;
  target = target;
  action = line_action min_move max_thesis_age now belief (sub_dec target value);
  thesis_id = belief.thesis_id;
}

-- A target in fixed-count mode: the weight's part of one share, under the cap on a position.
abbrev pub fixed_target : RiskConfig → Decimal → Decimal → Decimal
fixed_target config total w =
    min_dec (mul_dec (div_dec total (whole config.target_positions)) w)
      (mul_dec total config.max_position_pct_of_portfolio)

abbrev pub weights_of : RiskConfig → List HoldingBelief → List (Text × Decimal)
weights_of config beliefs =
    map (λ (belief : HoldingBelief). (belief.broker_ticker, weight config belief)) beliefs

-- `targets[belief.broker_ticker]`
unfoldable pub target : RiskConfig → Decimal → List HoldingBelief → HoldingBelief → Decimal
unfolding weight
target config total beliefs belief =
    if config.target_positions == 0
    then target_of (text_eq belief.broker_ticker)
        (conviction_targets total (weights_of config beliefs) config)
    else fixed_target config total (weight config belief)

-- `position.market_value or Decimal(0)`
abbrev pub value_of : AccountState → Text → Decimal
value_of account ticker = held_value (position account ticker)

-- `lines.sort(key=delta)`, which keeps the order of equal keys
unfoldable pub insert_line :
    (RebalanceLine → RebalanceLine → Bool) → RebalanceLine → List RebalanceLine → List RebalanceLine
insert_line before l [] = l ∷ []
insert_line before l (m ∷ rest) =
    let later = insert_line before l rest in if before l m then l ∷ (m ∷ rest) else m ∷ later

unfoldable pub sort_lines :
    (RebalanceLine → RebalanceLine → Bool) → List RebalanceLine → List RebalanceLine
unfolding insert_line
sort_lines before [] = []
sort_lines before (l ∷ rest) = insert_line before l (sort_lines before rest)

abbrev pub least_first : RebalanceLine → RebalanceLine → Bool
least_first a b = leb_dec (delta a) (delta b)

abbrev pub largest_first : RebalanceLine → RebalanceLine → Bool
largest_first a b = leb_dec (neg_dec (delta a)) (neg_dec (delta b))

-- `plan`: `none` where it is unavailable.
unfoldable pub plan :
    RiskConfig
    → Decimal
    → ℕ
    → Option AccountState
    → List HoldingBelief
    → ℕ
    → Option (List RebalanceLine)
unfolding line target sort_lines
plan config min_move max_thesis_age none beliefs now = none
plan config min_move max_thesis_age (some account) beliefs now =
    if not (is_conviction config)
    then none
    else some (
        sort_lines least_first (
          map
            (λ (belief : HoldingBelief).
              line min_move max_thesis_age now belief (value_of account belief.broker_ticker)
                (target config account.total_value beliefs belief))
            beliefs))

-- What `execute` asks of `generate_exit`: the signal's action and fraction.
pub record Request : Type 0 where
  pub broker_ticker : Text
  pub action : ThesisAction
  pub fraction : Option Decimal
  pub thesis_id : Option ℕ

abbrev pub full_exit_fraction : Decimal
full_exit_fraction = places 98 2

abbrev pub selling : RebalanceLine → ThesisAction → Option Decimal → Request
selling l action fraction = record {
  broker_ticker = l.broker_ticker;
  action = action;
  fraction = fraction;
  thesis_id = none;
}

-- The request of a trim, if there is one.
unfoldable pub trim_request : RebalanceLine → Option Request
trim_request l =
    let fraction = min_dec (whole 1) (div_dec (neg_dec (delta l)) l.value) in
    if not (ltb_dec zero_dec l.value)
    then none
    else if leb_dec fraction zero_dec
    then none
    else if leb_dec full_exit_fraction fraction
    then some (selling l ThesisAction.sell none)
    else some (selling l ThesisAction.reduce (some fraction))

unfoldable pub trim_requests : List RebalanceLine → List Request
unfolding trim_request
trim_requests [] = []
trim_requests (l ∷ rest) = elim (trim_request l) [
  | none ↦ trim_requests rest
  | some request ↦ request ∷ trim_requests rest
]

abbrev pub is_trim : RebalanceLine → Bool
is_trim l = elim l.action [ LineAction.trim ↦ true | _ ↦ false ]

abbrev pub is_top_up : RebalanceLine → Bool
is_top_up l = elim l.action [ LineAction.top_up ↦ true | _ ↦ false ]

abbrev pub top_up_request : RebalanceLine → Request
top_up_request l = record {
  broker_ticker = l.broker_ticker;
  action = ThesisAction.buy;
  fraction = none;
  thesis_id = l.thesis_id;
}

-- `execute` on the lines of a plan: the trims, then the top-ups, the largest first.
unfoldable pub requests : List RebalanceLine → List Request
unfolding trim_requests sort_lines
requests lines =
    trim_requests (filter is_trim lines)
    ++ map top_up_request (sort_lines largest_first (filter is_top_up lines))
