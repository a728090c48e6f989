-- ===== src/Risk/Exits/Floors.antt =====
-- `exit_floors` and `evaluate_exit` agree, and the decay table is read as a decay.
use stock_brain.Prelude.{
  ℕ, ◌≡◌, refl, ◌⊎◌, inl, inr, true, false, List, [], ◌∷◌, Option, none, some, arith, String,
  Bool-cases, Option-cases, All, if◌then◌else◌,
}
use mathlib.Core.Path.{subst}
use stock_brain.Decimal.{Decimal, zero_dec, whole, ltb_dec, mul_dec, sub_dec, add_dec}
use stock_brain.Decimal.Order.{◌≤D◌, ≤D_refl, ≤D_trans, ≤D_total}
use stock_brain.Enums.{ThesisAction}
use stock_brain.Risk.Config.{RiskConfig}
use stock_brain.Risk.Exits.{
  ExitObservation, ExitSignal, ExitFloors, FloorsAnswer, exit_floors, floors_of, evaluate_exit,
  volatility_armed, trailing_armed, below, unusable, nearest, horizon_ends_at, roi_target_for,
  minutes_held,
}

-- A floor that is there is at most a limit.
abbrev pub AtMost : Decimal → Option Decimal → Type 0
AtMost limit none = Unit
AtMost limit (some floor) = floor ≤D limit

higher_of :
    (rule_id : String) (floor : Decimal) (best : String × Decimal)
    → (best.1 ≤D (if ltb_dec best.1 floor then (rule_id, floor) else best).1)
      × (floor ≤D (if ltb_dec best.1 floor then (rule_id, floor) else best).1)
higher_of rule_id floor best = elim (Bool-cases (ltb_dec best.1 floor)) [
  | inl higher ↦ rw higher (≤D_total floor best.1 (ground (arith, higher)), ≤D_refl floor)
  | inr lower ↦ rw lower (≤D_refl best.1, ground (arith, lower))
]

nearest_bounds :
    (best : String × Decimal) (rest : List (String × Option Decimal))
    → (best.1 ≤D (nearest best rest).1)
      × All (λ (named : String × Option Decimal). AtMost (nearest best rest).1 named.1) rest
unfolding nearest
nearest_bounds best [] = (≤D_refl best.1, tt)
nearest_bounds best ((rule_id, none) ∷ rest) =
    let ih = nearest_bounds best rest in (ih.0, (tt, ih.1))
nearest_bounds best ((rule_id, some floor) ∷ rest) =
    let m : String × Decimal = if ltb_dec best.1 floor then (rule_id, floor) else best in
    let over = higher_of rule_id floor best in
    let ih = nearest_bounds m rest in
    (≤D_trans best.1 m.1 _ over.0 ih.0, (≤D_trans floor m.1 _ over.1 ih.0, ih.1))

-- What holds of the first entry and of every other that is there holds of the choice.
nearest_holds :
    (P : String × Decimal → Type 0) (best : String × Decimal)
    (rest : List (String × Option Decimal))
    → P best
    → All
        (λ (named : String × Option Decimal).
          (floor : Decimal) → named.1 ≡ some floor → P (named.0, floor))
        rest
    → P (nearest best rest)
unfolding nearest
nearest_holds P best [] p h = p
nearest_holds P best ((rule_id, none) ∷ rest) p h = nearest_holds P best rest p h.1
nearest_holds P best ((rule_id, some floor) ∷ rest) p h = elim (Bool-cases (ltb_dec best.1 floor)) [
  | inl higher ↦ rw (nearest, higher) (nearest_holds P (rule_id, floor) rest (h.0 floor refl) h.1)
  | inr lower ↦ rw (nearest, lower) (nearest_holds P best rest p h.1)
]

-- A rule, with the level of it that is shown.
abbrev pub Names : ExitFloors → String × Decimal → Type 0
Names f named =
    ((named.0 ≡ "hard_stop") × (f.hard_stop ≡ named.1))
    ⊎ ((named.0 ≡ "volatility_stop") × (f.volatility_floor ≡ some named.1))
    ⊎ ((named.0 ≡ "trailing_stop") × (f.trailing_floor ≡ some named.1))
    ⊎ ((named.0 ≡ "roi_target") × (f.roi_target_price ≡ some named.1))

-- What the floors of a position say: the volatility and the trailing level are those that the rules
-- act on; the hard stop is the cost less the configured fraction, and the target price is the cost and
-- the target of the minutes held, while that is positive; the nearest is one of them, under its rule,
-- and none is above it.
pub record IsShown (o : ExitObservation) (config : RiskConfig) (now : ℕ) (f : ExitFloors)
    : Type 0 where
  pub usable : unusable o ≡ false
  pub same_volatility : f.volatility_floor ≡ volatility_armed o config now
  pub same_trailing : f.trailing_floor ≡ trailing_armed o config
  pub stop_level :
      f.hard_stop ≡ mul_dec o.average_price (sub_dec (whole 1) config.exit_hard_stop_pct)
  pub target_level :
      ltb_dec zero_dec (roi_target_for o.horizon (minutes_held o now) config) ≡ true
      → f.roi_target_price
        ≡ some (
            mul_dec o.average_price
              (add_dec (whole 1) (roi_target_for o.horizon (minutes_held o now) config)))
  pub no_target :
      ltb_dec zero_dec (roi_target_for o.horizon (minutes_held o now) config) ≡ false
      → f.roi_target_price ≡ none
  pub ends : horizon_ends_at o config ≡ some f.horizon_ends_at
  pub nearest_named : Names f (f.nearest_rule, f.nearest_floor)
  pub stop_under : f.hard_stop ≤D f.nearest_floor
  pub volatility_under : AtMost f.nearest_floor f.volatility_floor
  pub trailing_under : AtMost f.nearest_floor f.trailing_floor
  pub target_under : AtMost f.nearest_floor f.roi_target_price

floors_of-IsShown :
    (o : ExitObservation) (config : RiskConfig) (now ends : ℕ)
    → unusable o ≡ false
    → horizon_ends_at o config ≡ some ends
    → IsShown o config now (floors_of o config now ends)
unfolding floors_of
floors_of-IsShown o config now ends h e =
    let f = floors_of o config now ends in
    let others : List (String × Option Decimal) =
      ("volatility_stop", volatility_armed o config now)
      ∷ ("trailing_stop", trailing_armed o config)
      ∷ ("roi_target", f.roi_target_price)
      ∷ [] in
    let bounds = nearest_bounds ("hard_stop", f.hard_stop) others in
    record {
      usable = h;
      same_volatility = refl;
      same_trailing = refl;
      stop_level = refl;
      target_level = λ positive. rw positive refl;
      no_target = λ gone. rw gone refl;
      ends = e;
      nearest_named =
          nearest_holds (Names f) ("hard_stop", f.hard_stop) others (inl (refl, refl))
            (
              (λ floor there. inr (inl (refl, there))),
              (
                (λ floor there. inr (inr (inl (refl, there)))),
                ((λ floor there. inr (inr (inr (refl, there)))), tt),
              ),
            );
      stop_under = bounds.0;
      volatility_under = bounds.1.0;
      trailing_under = bounds.1.1.0;
      target_under = bounds.1.1.1.0;
    }

exit_floors-eq-floors :
    (o : ExitObservation) (config : RiskConfig) (now : ℕ) {f : ExitFloors}
    → exit_floors o config now ≡ FloorsAnswer.floors f
    → (ends : ℕ) × (unusable o ≡ false)
      × (horizon_ends_at o config ≡ some ends)
      × (floors_of o config now ends ≡ f)
unfolding exit_floors
exit_floors-eq-floors o config now k = elim (Option-cases (horizon_ends_at o config)) [
  | inl raised ↦ absurd (ground (arith, raised, k))
  | inr (ends, e) ↦ (ends, ground (arith, e, k), e, ground (arith, e, k))
]

-- The floors that are shown are those of a usable position: the volatility and the trailing floor are
-- the ones that the rules compare the price with; the hard stop is the cost less the configured
-- fraction of it, and the target price the cost with the target of the minutes held, while that is
-- positive; the nearest floor is one of the four under the name of its rule, and none is above it.
pub exit_floors-IsShown :
    (o : ExitObservation) (config : RiskConfig) (now : ℕ) {f : ExitFloors}
    → exit_floors o config now ≡ FloorsAnswer.floors f
    → IsShown o config now f
exit_floors-IsShown o config now k =
    let (ends, h, e, same) = exit_floors-eq-floors o config now k in
    subst (IsShown o config now) same (floors_of-IsShown o config now ends h e)

-- A price under the volatility or the trailing floor that is shown gives a signal to sell it all.
pub shown_floor_sells :
    (o : ExitObservation) (config : RiskConfig) (now : ℕ) {f : ExitFloors}
    → exit_floors o config now ≡ FloorsAnswer.floors f
    → (below o.current_price f.volatility_floor ≡ true)
      ⊎ (below o.current_price f.trailing_floor ≡ true)
    → (s : ExitSignal) × (evaluate_exit o config now ≡ some s) × (s.action ≡ ThesisAction.sell)
unfolding evaluate_exit
shown_floor_sells o config now k breached =
    let shown = exit_floors-IsShown o config now k in
    let armed : (below o.current_price (volatility_armed o config now) ≡ true)
        ⊎ (below o.current_price (trailing_armed o config) ≡ true) =
      rw (← shown.same_volatility, ← shown.same_trailing) breached in
    elim (Option-cases (evaluate_exit o config now)) [
      | inl silent ↦ absurd (ground (arith, silent, armed, shown.usable))
      | inr (s, e) ↦ (s, e, ground (arith, e, armed, shown.usable))
    ]
