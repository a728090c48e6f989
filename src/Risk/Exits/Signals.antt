-- ===== src/Risk/Exits/Signals.antt =====
-- `evaluate_exit`: the declared precedence, what a signal may propose, and when one must come.
use stock_brain.Prelude.{
  ℕ, ◌≡◌, refl, ◌⊎◌, inl, inr, Bool, true, false, ◌&&◌, List, [], ◌∷◌, Option, none, some, arith,
  String, if◌then◌else◌, Bool-cases, Option-cases, str_eq,
}
use stock_brain.Decimal.{zero_dec, leb_dec, ltb_dec, eqb_dec, neg_dec}
use stock_brain.Decimal.Order.{◌<D◌}
use stock_brain.Enums.{ThesisAction, RuleOutcome}
use stock_brain.Risk.Config.{RiskConfig}
use stock_brain.Risk.Exits.{
  exit_precedence, ExitObservation, ExitSignal, gain, minutes_held, roi_target_for,
  volatility_armed, trailing_armed, below, signal, unusable, evaluate_exit,
}

-- Whether the condition of a rule holds by itself.
pub condition : String → ExitObservation → RiskConfig → ℕ → Bool
condition rule_id o config now =
    let target = roi_target_for o.horizon (minutes_held o now) config in
    if str_eq rule_id "hard_stop"
    then ltb_dec (gain o) (neg_dec config.exit_hard_stop_pct)
    else if str_eq rule_id "volatility_stop"
    then below o.current_price (volatility_armed o config now)
    else if str_eq rule_id "trailing_stop"
    then below o.current_price (trailing_armed o config)
    else if str_eq rule_id "thesis_superseded"
    then o.thesis_superseded
    else if str_eq rule_id "roi_target"
    then ltb_dec zero_dec target && leb_dec target (gain o)
    else eqb_dec target zero_dec

-- The action of a rule: only the profit target leaves something in place.
pub action_of : String → ThesisAction
action_of rule_id = if str_eq rule_id "roi_target" then ThesisAction.reduce else ThesisAction.sell

-- The signal of the first rule of a list whose condition holds.
pub first_signal : List String → ExitObservation → RiskConfig → ℕ → Option ExitSignal
unfolding condition action_of
first_signal [] o config now = none
first_signal (rule_id ∷ rest) o config now =
    let later = first_signal rest o config now in
    if condition rule_id o config now then signal rule_id (action_of rule_id) else later

-- Of a usable position, the signal is that of the first rule, in the declared precedence, whose own
-- condition holds; there is none when no condition holds, and none of an unusable position.
pub evaluate_exit_first :
    (o : ExitObservation) (config : RiskConfig) (now : ℕ)
    → evaluate_exit o config now
      ≡ (if unusable o then none else first_signal exit_precedence o config now)
unfolding evaluate_exit first_signal condition action_of
evaluate_exit_first o config now = refl

-- A proper exit of a usable position: its kind, its verdict, and the position's numbers.
pub record IsExit (o : ExitObservation) (s : ExitSignal) : Type 0 where
  pub reduces :
      ((s.action ≡ ThesisAction.sell) × (str_eq s.rule_id "roi_target" ≡ false))
      ⊎ ((s.action ≡ ThesisAction.reduce) × (str_eq s.rule_id "roi_target" ≡ true))
  pub named : s.rule.rule_id ≡ s.rule_id
  pub warns : s.rule.outcome ≡ RuleOutcome.warn
  pub default_fraction : s.fraction ≡ none
  pub costed : zero_dec <D o.average_price
  pub priced : zero_dec <D o.current_price
  pub tradable : zero_dec <D o.quantity_available

abbrev EachExit : ExitObservation → Option ExitSignal → Type 0
EachExit o none = Unit
EachExit o (some s) = IsExit o s

signal-IsExit :
    (o : ExitObservation) (rule_id : String) (act : ThesisAction)
    → unusable o ≡ false
    → ((act ≡ ThesisAction.sell) × (str_eq rule_id "roi_target" ≡ false))
      ⊎ ((act ≡ ThesisAction.reduce) × (str_eq rule_id "roi_target" ≡ true))
    → EachExit o (signal rule_id act)
signal-IsExit o rule_id act usable kind = record {
  reduces = kind;
  named = refl;
  warns = refl;
  default_fraction = refl;
  costed = ground (arith, usable);
  priced = ground (arith, usable);
  tradable = ground (arith, usable);
}

action_of_kind :
    (rule_id : String)
    → ((action_of rule_id ≡ ThesisAction.sell) × (str_eq rule_id "roi_target" ≡ false))
      ⊎ ((action_of rule_id ≡ ThesisAction.reduce) × (str_eq rule_id "roi_target" ≡ true))
unfolding action_of
action_of_kind rule_id = ground arith

usable-EachExit :
    (ids : List String) (o : ExitObservation) (config : RiskConfig) (now : ℕ)
    → unusable o ≡ false
    → EachExit o (first_signal ids o config now)
unfolding first_signal
usable-EachExit [] o config now h = tt
usable-EachExit (rule_id ∷ rest) o config now h =
    elim (Bool-cases (condition rule_id o config now)) [
      | inl holds ↦
          rw (holds, EachExit)
            (signal-IsExit o rule_id (action_of rule_id) h (action_of_kind rule_id))
      | inr fails ↦ rw (fails, EachExit) (usable-EachExit rest o config now h)
    ]

-- Every signal sells or, at the profit target only, reduces; its verdict is a warning under its own
-- name and it names no fraction. It is given only of a position with a positive cost, a positive price
-- and something to sell.
pub evaluate_exit-IsExit :
    (o : ExitObservation) (config : RiskConfig) (now : ℕ) {s : ExitSignal}
    → evaluate_exit o config now ≡ some s
    → IsExit o s
evaluate_exit-IsExit o config now {s} h = elim (Bool-cases (unusable o)) [
  | inl bad ↦ absurd (ground (arith, h, bad, evaluate_exit_first o config now))
  | inr fine ↦
      let same : first_signal exit_precedence o config now ≡ some s =
        ground (arith, h, fine, evaluate_exit_first o config now) in
      let each = usable-EachExit exit_precedence o config now fine in (rw (same, EachExit) at each)
]

-- A usable position is always closed or reduced once its horizon is over, that is, once its target
-- is zero.
pub horizon_exits :
    (o : ExitObservation) (config : RiskConfig) (now : ℕ)
    → unusable o ≡ false
    → eqb_dec (roi_target_for o.horizon (minutes_held o now) config) zero_dec ≡ true
    → (s : ExitSignal) × (evaluate_exit o config now ≡ some s) × (s.action ≡ ThesisAction.sell)
unfolding evaluate_exit
horizon_exits o config now h k = elim (Option-cases (evaluate_exit o config now)) [
  | inl silent ↦ absurd (ground (arith, silent, h, k))
  | inr (s, e) ↦ (s, e, ground (arith, e, h, k))
]
