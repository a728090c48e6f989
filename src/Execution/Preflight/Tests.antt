-- ===== src/Execution/Preflight/Tests.antt =====
-- The theorems on the checks before sending at a concrete proposal.
use stock_brain.Prelude.{◌≡◌, refl, ◌↔◌, true, false, ◌&&◌, [], ◌∷◌, none, some, codes, non_empty}
use stock_brain.Decimal.{decimal_operations}
use stock_brain.Enums.{RuleOutcome}
use stock_brain.Control.{trading_halted}
use stock_brain.Risk.Models.{position, lookup}
use stock_brain.Execution.Settings.{
  order_transmission_blockers, execution_blockers, is_manual_approval, broker_credentials_present,
  is_live,
}
use stock_brain.Execution.Preflight.{
  Revalidation, PreflightRefusal, Reason, run, judge, permission_reasons, state_reasons,
  position_reason, is_transient, rule_ids,
}
use stock_brain.Execution.Preflight.Permits.{
  MaySend, IsSendable, IsBacked, run_permitted, run_retires, transmission_gates,
}
use stock_brain.Prelude.{text_eq}
use stock_brain.Execution.Samples.{demo_settings, running, sale, passed, always}

-- The market moved.
abbrev drifted : Revalidation
drifted = record passed {
  rules =
      (record {
        rule_id = "reference_price_drift";
        rule_version = 1;
        outcome = RuleOutcome.block;
        max_notional = none;
        size_factor = none;
      })
      ∷ [];
}

run_permitted_example :
    MaySend demo_settings (codes "demo") sale running
    × IsSendable sale 50 false
    × ((r : Revalidation) × (always passed 50 ≡ some r) × IsBacked sale r)
unfolding run judge permission_reasons state_reasons position_reason order_transmission_blockers
    execution_blockers trading_halted text_eq position lookup decimal_operations
run_permitted_example =
    run_permitted demo_settings (codes "demo") running (always passed) sale 50 false refl

abbrev retired : PreflightRefusal
retired = record {
  reasons = Reason.rule_blocked "reference_price_drift" ∷ [];
  invalidates = true;
  refused_rule_ids = "reference_price_drift" ∷ [];
}

run_retires_example :
    MaySend demo_settings (codes "demo") sale running
    × IsSendable sale 50 false
    × ((r : Revalidation) × (always drifted 50 ≡ some r) × (is_transient (rule_ids r) ≡ false))
unfolding run judge permission_reasons state_reasons position_reason order_transmission_blockers
    execution_blockers trading_halted text_eq position lookup decimal_operations is_transient
run_retires_example =
    run_retires demo_settings (codes "demo") running (always drifted) sale 50 false retired refl
      refl

transmission_gates_example : (non_empty (order_transmission_blockers demo_settings) ≡ false) ↔ (
    ((demo_settings.t212_execution_enabled && is_manual_approval demo_settings.execution_mode)
      ≡ true)
    × (broker_credentials_present demo_settings ≡ true)
    × (is_live demo_settings.t212_env ≡ true
        → (demo_settings.t212_live_execution_enabled
            && demo_settings.t212_written_consent_confirmed)
          ≡ true))
transmission_gates_example = transmission_gates demo_settings
