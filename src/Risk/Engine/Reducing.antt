-- ===== src/Risk/Engine/Reducing.antt =====
-- Sales and reductions: limits on new exposure do not hold a position open.
use stock_brain.Prelude.{
  ℕ, ◌≡◌, ◌<◌, refl, ◌∙◌, Bool, true, false, ◌||◌, List, [], ◌++◌, some, arith, any, any-append,
  Text, any-All, Bool-cases, inl, inr,
}
use stock_brain.Decimal.{Decimal}
use stock_brain.Risk.Models.{RiskInputs}
use stock_brain.Risk.Gates.{
  gate_results, is_reducing, reservation_accounting, max_active_proposals,
  research_confidence_floor, instrument_identity, instrument_type_supported,
  account_state_available, account_state_freshness, quote_available, price_source_execution_grade,
  quote_freshness, quote_two_sided, spread_ceiling, market_session, currency_alignment,
  fx_available, fx_freshness, current_position, duplicate_or_conflicting_proposal,
}
use stock_brain.Risk.Caps.{notional_caps, cap_rule_results}
use stock_brain.Risk.Factors.{
  target_fill_rule, find_target, confidence_size_factor, calibration_size_factor,
}
use stock_brain.Risk.Engine.{all_rules, blocks, optional}
use stock_brain.Risk.Engine.Blocks.{gates_in_rules}

-- The same inputs with another confidence, other totals of the active proposals, and other objections
-- to their accounting.
abbrev pub with_pressure : RiskInputs → Decimal → ℕ → Decimal → List Text → RiskInputs
with_pressure inputs confidence count notional blockers = record inputs {
  confidence = confidence;
  reserved = record inputs.reserved { count = count; notional = notional; blockers = blockers };
}

pressure_gates :
    (inputs : RiskInputs)
    → is_reducing inputs.action ≡ true
    → (blocks (max_active_proposals inputs) ≡ false)
      × (blocks (reservation_accounting inputs) ≡ false)
      × (blocks (research_confidence_floor inputs) ≡ false)
unfolding reservation_accounting max_active_proposals research_confidence_floor
pressure_gates inputs h = ground (arith, h)

reducing_gates :
    (inputs : RiskInputs) (confidence : Decimal) (count : ℕ) (notional : Decimal)
    (blockers : List Text)
    → is_reducing inputs.action ≡ true
    → any blocks (gate_results (with_pressure inputs confidence count notional blockers))
      ≡ any blocks (gate_results inputs)
unfolding gate_results instrument_identity instrument_type_supported account_state_available
    account_state_freshness quote_available price_source_execution_grade quote_freshness
    quote_two_sided spread_ceiling market_session currency_alignment fx_available fx_freshness
    current_position duplicate_or_conflicting_proposal
reducing_gates inputs confidence count notional blockers h =
    let (a, b, c) = pressure_gates (with_pressure inputs confidence count notional blockers) h in
    let (d, e, f) = pressure_gates inputs h in rw (a, b, c, d, e, f) refl

scaling_quiet :
    (inputs : RiskInputs)
    → (any blocks (optional (confidence_size_factor inputs)) ≡ false)
      × (any blocks (optional (calibration_size_factor inputs)) ≡ false)
unfolding confidence_size_factor calibration_size_factor
scaling_quiet inputs = ground arith

no_target :
    (inputs : RiskInputs) → any blocks (optional (target_fill_rule [] inputs.config)) ≡ false
unfolding target_fill_rule find_target
no_target inputs = ground arith

or_quiet : (a : Bool) {b : Bool} → b ≡ false → (a || b) ≡ a
or_quiet a {b} h = ground (arith, h)

-- Without caps, only the gates block.
blocked_by_gates :
    (inputs : RiskInputs) → any blocks (all_rules inputs []) ≡ any blocks (gate_results inputs)
unfolding all_rules cap_rule_results
blocked_by_gates inputs =
    let quiet = scaling_quiet inputs in
    let fill = no_target inputs in
    let first =
      any-append blocks (optional (target_fill_rule [] inputs.config))
        (optional (confidence_size_factor inputs) ++ optional (calibration_size_factor inputs)) in
    let second =
      any-append blocks (optional (confidence_size_factor inputs))
        (optional (calibration_size_factor inputs)) in
    any-append blocks (gate_results inputs) _
    ∙ or_quiet (any blocks (gate_results inputs)) (first ∙ rw (fill, second, quiet.0, quiet.1) refl)

-- A live proposal for the listing blocks at its gate.
crowded :
    (inputs : RiskInputs)
    → 0 < inputs.reserved.same_instrument_count
    → blocks (duplicate_or_conflicting_proposal inputs) ≡ true
unfolding duplicate_or_conflicting_proposal
crowded inputs h = ground (arith, h)

-- The gate on other proposals for the listing stands among the gates.
crowded_gates :
    (inputs : RiskInputs)
    → 0 < inputs.reserved.same_instrument_count
    → any blocks (gate_results inputs) ≡ true
unfolding gate_results
crowded_gates inputs h = elim (Bool-cases (any blocks (gate_results inputs))) [
  | inl hit ↦ hit
  | inr quiet ↦
      let gates = any-All blocks (gate_results inputs) quiet in
      let clear : blocks (duplicate_or_conflicting_proposal inputs) ≡ false =
        gates.1.1.1.1.1.1.1.1.1.1.1.1.1.1.1.0 in
      absurd (ground (arith, clear, crowded inputs h))
]

-- A sale or a reduction has no caps. Whether it is blocked depends neither on its confidence nor on the
-- number, the total and the accounting of the active proposals, apart from those for its own listing:
-- one that is live there does block it.
pub reducing_unblocked :
    (inputs : RiskInputs) (confidence : Decimal) (count : ℕ) (notional : Decimal)
    (blockers : List Text)
    → is_reducing inputs.action ≡ true
    → (notional_caps inputs ≡ some [])
      × (any blocks (all_rules (with_pressure inputs confidence count notional blockers) [])
          ≡ any blocks (all_rules inputs []))
      × (0 < inputs.reserved.same_instrument_count → any blocks (all_rules inputs []) ≡ true)
unfolding notional_caps
reducing_unblocked inputs confidence count notional blockers h =
    let pressed = with_pressure inputs confidence count notional blockers in
    (
      ground (arith, h),
      rw (blocked_by_gates pressed, blocked_by_gates inputs)
          (reducing_gates inputs confidence count notional blockers h),
      λ live. gates_in_rules inputs [] (crowded_gates inputs live),
    )
