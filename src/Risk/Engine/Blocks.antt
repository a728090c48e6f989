-- ===== src/Risk/Engine/Blocks.antt =====
-- A block is absolute: what the outcome says of the rules, and what a blocked decision carries.
use stock_brain.Prelude.{
  ℕ, ◌≡◌, refl, sym, ◌⊎◌, ◌↔◌, true, false, List, none, some, arith, any, any-append, inl, inr,
  Option-cases,
}
use mathlib.Core.Path.{subst}
use stock_brain.Decimal.{zero_dec}
use stock_brain.Enums.{ThesisAction, RiskOutcome}
use stock_brain.Risk.Models.{RiskInputs, RuleResult, RiskDecision, allowed}
use stock_brain.Risk.Gates.{gate_results, action_is_executable}
use stock_brain.Risk.Caps.{NotionalCap, notional_caps}
use stock_brain.Risk.Engine.{
  all_rules, blocks, reduces, no_sizing, conclude, conclude_sized, evaluate,
}

-- A decision comes from the rules that the caps of its inputs give.
pub evaluate-eq-some :
    (inputs : RiskInputs) (t : ℕ) {d : RiskDecision}
    → evaluate inputs t ≡ some d
    → (caps : List NotionalCap) × (notional_caps inputs ≡ some caps)
      × (conclude inputs caps (all_rules inputs caps) t ≡ some d)
unfolding evaluate
evaluate-eq-some inputs t h = elim (Option-cases (notional_caps inputs)) [
  | inl raised ↦ ground (arith, raised)
  | inr (caps, e) ↦ (caps, e, ground (arith, e))
]

-- What a decision on given rules says.
pub record Concludes (inputs : RiskInputs) (rules : List RuleResult) (t : ℕ) (d : RiskDecision)
    : Type 0 where
  pub same_rules : d.rules ≡ rules
  pub blocked : (d.outcome ≡ RiskOutcome.block) ↔ (any blocks rules ≡ true)
  pub reduced :
      (d.outcome ≡ RiskOutcome.reduce_size)
      ↔ ((any blocks rules ≡ false) × (any reduces rules ≡ true))
  pub unsized : any blocks rules ≡ true → d.sizing ≡ no_sizing inputs

pub conclude-Concludes :
    (inputs : RiskInputs) (caps : List NotionalCap) (rules : List RuleResult) (t : ℕ)
    {d : RiskDecision}
    → conclude inputs caps rules t ≡ some d
    → Concludes inputs rules t d
unfolding conclude conclude_sized
conclude-Concludes inputs caps rules t h = ground arith

evaluate-Concludes :
    (inputs : RiskInputs) (t : ℕ) {d : RiskDecision}
    → evaluate inputs t ≡ some d
    → Concludes inputs d.rules t d
evaluate-Concludes inputs t {d} h =
    let (caps, _, e) = evaluate-eq-some inputs t h in
    let c = conclude-Concludes inputs caps (all_rules inputs caps) t e in
    subst (λ rules. Concludes inputs rules t d) (sym c.same_rules) c

-- The outcome is a block exactly when one of the listed rules blocks, and a blocked decision carries
-- no side, no quantity and no permission to send.
pub evaluate_block :
    (inputs : RiskInputs) (t : ℕ) {d : RiskDecision}
    → evaluate inputs t ≡ some d
    → ((d.outcome ≡ RiskOutcome.block) ↔ (any blocks d.rules ≡ true))
      × (d.outcome ≡ RiskOutcome.block
          → (d.sizing.side ≡ none)
            × (d.sizing.quantity ≡ zero_dec)
            × (d.sizing.executable ≡ false)
            × (allowed d ≡ false))
unfolding no_sizing allowed
evaluate_block inputs t h =
    let c = evaluate-Concludes inputs t h in
    (c.blocked, λ e. let s = c.unsized (c.blocked.0 e) in (cc, cc, cc, rw e refl))

-- The gates stand in the rules of every decision.
pub gates_in_rules :
    (inputs : RiskInputs) (caps : List NotionalCap)
    → any blocks (gate_results inputs) ≡ true
    → any blocks (all_rules inputs caps) ≡ true
unfolding all_rules
gates_in_rules inputs caps h = rw (any-append, h) refl

-- A decision that permits a trade passed every gate, and carries an executable size.
pub allowed_passes :
    (inputs : RiskInputs) (t : ℕ) {d : RiskDecision}
    → evaluate inputs t ≡ some d
    → allowed d ≡ true
    → (any blocks d.rules ≡ false)
      × (any blocks (gate_results inputs) ≡ false)
      × (d.sizing.executable ≡ true)
unfolding allowed
allowed_passes inputs t h ok =
    let (caps, _, e) = evaluate-eq-some inputs t h in
    let c = conclude-Concludes inputs caps (all_rules inputs caps) t e in
    let gates = gates_in_rules inputs caps in ground (arith, c.same_rules, c.blocked, gates)

-- An advisory conclusion blocks, whatever the market, the account and the configuration are.
pub advisory_blocks :
    (inputs : RiskInputs) (t : ℕ) {d : RiskDecision}
    → (inputs.action ≡ ThesisAction.hold) ⊎ (inputs.action ≡ ThesisAction.no_action)
    → evaluate inputs t ≡ some d
    → (d.outcome ≡ RiskOutcome.block) × (allowed d ≡ false)
unfolding gate_results action_is_executable
advisory_blocks inputs t advisory h =
    let (caps, _, e) = evaluate-eq-some inputs t h in
    let c = conclude-Concludes inputs caps (all_rules inputs caps) t e in
    let blocked = c.blocked.1 (gates_in_rules inputs caps (ground (arith, advisory))) in
    (blocked, ((evaluate_block inputs t h).1 blocked).3)
