-- ===== src/Risk/Exits.antt =====
-- backend/stockbrain/risk/exits.py: the exit rules of an open position, without their sentences. An
-- instant is a number of microseconds since the epoch, and a date is a number of days.
pub mod Signals
pub mod Floors
pub mod Decay
use stock_brain.Prelude.{
  ℕ, ◌+◌, ◌-◌, ◌*◌, ◌/◌, Bool, true, false, not, ◌&&◌, ◌||◌, List, [], ◌∷◌, Option, none, some,
  if◌then◌else◌, leb, String, filter, map, present,
}
use stock_brain.Prelude.Int.{ℤ, pos, negsuc, ltb_ℤ}
use stock_brain.Decimal.{
  Decimal, zero_dec, whole, leb_dec, ltb_dec, eqb_dec, add_dec, sub_dec, neg_dec, mul_dec, div_dec,
}
use stock_brain.Enums.{ThesisAction, TimeHorizon, RuleOutcome, horizon_eq}
use stock_brain.Risk.Config.{RiskConfig}
use stock_brain.Risk.Models.{RuleResult}
use stock_brain.Risk.Gates.{verdict}

-- `EXIT_PRECEDENCE`
abbrev pub exit_precedence : List String
exit_precedence =
    "hard_stop" ∷ "volatility_stop" ∷ "trailing_stop" ∷ "thesis_superseded" ∷ "roi_target"
    ∷ "horizon_elapsed" ∷ []

pub record ExitObservation : Type 0 where
  pub quantity_available : Decimal
  pub average_price : Decimal
  pub current_price : Decimal
  pub peak_price : Option Decimal
  pub peak_observations : ℕ
  pub opened_at : ℕ
  pub horizon : TimeHorizon
  pub thesis_superseded : Bool
  pub atr : Option Decimal
  pub atr_as_of : Option ℕ

-- `ExitObservation.gain`
unfoldable pub gain : ExitObservation → Decimal
gain o = div_dec (sub_dec o.current_price o.average_price) o.average_price

-- `ExitObservation.minutes_held`: zero before the opening.
unfoldable pub minutes_held : ExitObservation → ℕ → ℕ
minutes_held o now = (now - o.opened_at) / 60000000

pub record ExitSignal : Type 0 where
  pub rule_id : String
  pub action : ThesisAction
  pub rule : RuleResult
  pub fraction : Option Decimal

-- A row of the decay table.
abbrev pub Row : Type 0
Row = TimeHorizon × ℕ × Decimal

-- The loop of `roi_target_for`, with the threshold and the target so far.
unfoldable pub decay : TimeHorizon → ℕ → ℤ → Decimal → List Row → Decimal
decay horizon minutes threshold target [] = target
decay horizon minutes threshold target ((row_horizon, row_minutes, row_target) ∷ rest) =
    let passed = leb row_minutes minutes && ltb_ℤ threshold (pos row_minutes) in
    let taken = decay horizon minutes (pos row_minutes) row_target rest in
    let kept = decay horizon minutes threshold target rest in
    if not (horizon_eq row_horizon horizon) then kept else if passed then taken else kept

-- `roi_target_for`
unfoldable pub roi_target_for : TimeHorizon → ℕ → RiskConfig → Decimal
roi_target_for horizon minutes config =
    decay horizon minutes (negsuc 0) zero_dec config.exit_roi_decay

-- The whole day of an instant.
abbrev pub day_of : ℕ → ℕ
day_of now = now / 86400000000

-- `atr_fresh`
abbrev pub atr_fresh : ExitObservation → RiskConfig → ℕ → Bool
atr_fresh o config now = elim o.atr_as_of [
  | none ↦ false
  | some as_of ↦ leb (day_of now - as_of) config.exit_atr_max_age_days
]

-- `_volatility_armed`
unfoldable pub volatility_armed : ExitObservation → RiskConfig → ℕ → Option Decimal
volatility_armed o config now = elim o.peak_price [
  | none ↦ none
  | some peak ↦ elim o.atr [
    | none ↦ none
    | some atr ↦
        if ltb_dec zero_dec atr
          && (atr_fresh o config now && leb config.exit_min_peak_observations o.peak_observations)
        then some (sub_dec peak (mul_dec config.exit_atr_multiplier atr))
        else none
  ]
]

-- `_trailing_armed`
unfoldable pub trailing_armed : ExitObservation → RiskConfig → Option Decimal
trailing_armed o config = elim o.peak_price [
  | none ↦ none
  | some peak ↦
      let run = div_dec (sub_dec peak o.average_price) o.average_price in
      if leb config.exit_min_peak_observations o.peak_observations
        && leb_dec config.exit_trailing_arm_pct run
      then some (mul_dec peak (sub_dec (whole 1) config.exit_trailing_pct))
      else none
]

-- `floor is not None and price < floor`
abbrev pub below : Decimal → Option Decimal → Bool
below price none = false
below price (some floor) = ltb_dec price floor

-- The signal of a rule, with the verdict of `_fired`.
abbrev pub signal : String → ThesisAction → Option ExitSignal
signal rule_id action = some (record {
  rule_id = rule_id;
  action = action;
  rule = verdict rule_id 1 RuleOutcome.warn;
  fraction = none;
})

-- A position without a usable cost, price or tradable share.
abbrev pub unusable : ExitObservation → Bool
unusable o =
    (leb_dec o.average_price zero_dec || leb_dec o.current_price zero_dec)
    || leb_dec o.quantity_available zero_dec

-- `evaluate_exit`
unfoldable pub evaluate_exit : ExitObservation → RiskConfig → ℕ → Option ExitSignal
evaluate_exit o config now =
    let target = roi_target_for o.horizon (minutes_held o now) config in
    if unusable o
    then none
    else if ltb_dec (gain o) (neg_dec config.exit_hard_stop_pct)
    then signal "hard_stop" ThesisAction.sell
    else if below o.current_price (volatility_armed o config now)
    then signal "volatility_stop" ThesisAction.sell
    else if below o.current_price (trailing_armed o config)
    then signal "trailing_stop" ThesisAction.sell
    else if o.thesis_superseded
    then signal "thesis_superseded" ThesisAction.sell
    else if ltb_dec zero_dec target && leb_dec target (gain o)
    then signal "roi_target" ThesisAction.reduce
    else if eqb_dec target zero_dec
    then signal "horizon_elapsed" ThesisAction.sell
    else none

pub record ExitFloors : Type 0 where
  pub hard_stop : Decimal
  pub volatility_floor : Option Decimal
  pub trailing_floor : Option Decimal
  pub roi_target_price : Option Decimal
  pub horizon_ends_at : ℕ
  pub nearest_floor : Decimal
  pub nearest_rule : String

-- The minutes of the terminal rows of a horizon.
unfoldable pub terminal_minutes : TimeHorizon → List Row → List ℕ
terminal_minutes horizon rows =
    map (λ (row : Row). row.1)
      (filter (λ (row : Row). horizon_eq row.0 horizon && eqb_dec row.2 zero_dec) rows)

unfoldable pub least : ℕ → List ℕ → ℕ
least best [] = best
least best (m ∷ rest) = least (if leb best m then best else m) rest

-- `_horizon_ends_at`; `none` is the `ValueError`.
unfoldable pub horizon_ends_at : ExitObservation → RiskConfig → Option ℕ
horizon_ends_at o config = elim (terminal_minutes o.horizon config.exit_roi_decay) [
  | [] ↦ none
  | m ∷ rest ↦ some (o.opened_at + least m rest * 60000000)
]

-- The loop over the other floors: a higher one takes the place of the nearest.
unfoldable pub nearest : String × Decimal → List (String × Option Decimal) → String × Decimal
nearest best [] = best
nearest best ((rule_id, none) ∷ rest) = nearest best rest
nearest best ((rule_id, some floor) ∷ rest) =
    nearest (if ltb_dec best.1 floor then (rule_id, floor) else best) rest

-- What `exit_floors` does: it answers `None`, raises, or gives the floors.
pub data FloorsAnswer : Type 0 where
  refused raised : FloorsAnswer
  floors : ExitFloors → FloorsAnswer

-- The floors of a usable position whose horizon ends at a given instant.
unfoldable pub floors_of : ExitObservation → RiskConfig → ℕ → ℕ → ExitFloors
floors_of o config now ends =
    let target = roi_target_for o.horizon (minutes_held o now) config in
    let hard_stop = mul_dec o.average_price (sub_dec (whole 1) config.exit_hard_stop_pct) in
    let volatility_floor = volatility_armed o config now in
    let trailing_floor = trailing_armed o config in
    let roi_target_price : Option Decimal =
      if ltb_dec zero_dec target
      then some (mul_dec o.average_price (add_dec (whole 1) target))
      else none in
    let first =
      nearest ("hard_stop", hard_stop)
        (("volatility_stop", volatility_floor)
          ∷ ("trailing_stop", trailing_floor)
          ∷ ("roi_target", roi_target_price)
          ∷ []) in
    record {
      hard_stop = hard_stop;
      volatility_floor = volatility_floor;
      trailing_floor = trailing_floor;
      roi_target_price = roi_target_price;
      horizon_ends_at = ends;
      nearest_floor = first.1;
      nearest_rule = first.0;
    }

-- `exit_floors`
unfoldable pub exit_floors : ExitObservation → RiskConfig → ℕ → FloorsAnswer
exit_floors o config now =
    let answer : FloorsAnswer = elim (horizon_ends_at o config) [
      | none ↦ FloorsAnswer.raised
      | some ends ↦ FloorsAnswer.floors (floors_of o config now ends)
    ] in
    if unusable o then FloorsAnswer.refused else answer
