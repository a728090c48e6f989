-- ===== src/Execution/Preflight/Permits.antt =====
-- What a permitted order has passed, and which refusals retire a proposal.
use stock_brain.Prelude.{
  ℕ, ◌≡◌, ◌<◌, refl, ◌↔◌, ◌⊎◌, inl, inr, ◌∙◌, sym, Bool, true, false, not, ◌&&◌, List, [], ◌∷◌,
  ◌++◌, Option, none, some, arith, non_empty, non_empty-append-false, non_empty-map, map, present,
  Text, text_eq, Option-cases, Bool-cases, if◌then◌else◌,
}
use stock_brain.Decimal.{zero_dec, ltb_dec}
use stock_brain.Decimal.Order.{◌≤D◌, ◌<D◌}
use stock_brain.Enums.{OrderSide, status_in}
use stock_brain.Control.{ControlSnapshot, trading_halted, control_blockers}
use stock_brain.Control.Halts.{trading_halted-control_blockers}
use stock_brain.Proposals.StateMachine.{executable_statuses}
use stock_brain.Risk.Models.{RuleResult, AccountState, position}
use stock_brain.Risk.Gates.{available_quantity}
use stock_brain.Execution.Settings.{
  Settings, environment_name, is_live, order_transmission_blockers, execution_blockers,
  is_manual_approval, broker_credentials_present,
}
use stock_brain.Store.{TradeProposal}
use stock_brain.Execution.Preflight.{
  Revalidation, blocked_rules, rule_ids, Reason, when, permission_reasons, state_reasons,
  position_reason, permitted, refuse, judge, run, is_transient, is_automatic_source,
  PreflightRefusal,
}

-- The deployment may send, now and in this environment.
pub record MaySend (settings : Settings) (provider : Text) (p : TradeProposal)
    (control : ControlSnapshot) : Type 0 where
  pub own_environment : text_eq p.broker_environment (environment_name settings.t212_env) ≡ true
  pub own_provider : text_eq p.broker_environment provider ≡ true
  pub no_gate : non_empty (order_transmission_blockers settings) ≡ false
  pub not_halted : trading_halted control ≡ false
  pub consented :
      (is_automatic_source p.authorization_source && is_live settings.t212_env) ≡ true
      → settings.t212_automated_trading_consent_confirmed ≡ true

-- The proposal is authorized, alive, unsent and not empty.
pub record IsSendable (p : TradeProposal) (now : ℕ) (sent_attempt_exists : Bool) : Type 0 where
  pub executable : status_in p.status executable_statuses ≡ true
  pub authorized : (present p.authorization_source && present p.approved_at) ≡ true
  pub alive : now < p.expires_at
  pub unsent : sent_attempt_exists ≡ false
  pub some_quantity : zero_dec <D p.proposed_quantity

when_clear : (test : Bool) (reason : Reason) → non_empty (when test reason) ≡ false → test ≡ false
when_clear true reason h = absurd (ground (arith, h))
when_clear false reason h = refl

halted_clear :
    (control : ControlSnapshot)
    → non_empty
        (if trading_halted control then map Reason.halted (control_blockers control) else [])
      ≡ false
    → trading_halted control ≡ false
halted_clear control h = elim (Bool-cases (trading_halted control)) [
  | inr running ↦ running
  | inl stopped ↦
      let listed : non_empty (map Reason.halted (control_blockers control)) ≡ false =
        (rw stopped at h) in
      let none_listed = sym (non_empty-map Reason.halted (control_blockers control)) ∙ listed in
      trading_halted-control_blockers control ∙ none_listed
]

permission_reasons-MaySend :
    (settings : Settings) (provider : Text) (p : TradeProposal) (control : ControlSnapshot)
    → non_empty (permission_reasons settings provider p control) ≡ false
    → MaySend settings provider p control
unfolding permission_reasons
permission_reasons-MaySend settings provider p control h =
    let (a, h1) = non_empty-append-false _ _ h in
    let (b, h2) = non_empty-append-false _ _ h1 in
    let (c, h3) = non_empty-append-false _ _ h2 in
    let (d, h4) = non_empty-append-false _ _ h3 in
    let (e, _) = non_empty-append-false _ _ h4 in
    let no_consent =
      is_live settings.t212_env && not settings.t212_automated_trading_consent_confirmed in
    let source : (is_automatic_source p.authorization_source && no_consent) ≡ false =
      when_clear _ _ e in
    let same : not (text_eq p.broker_environment (environment_name settings.t212_env)) ≡ false =
      when_clear _ _ a in
    let same_provider : not (text_eq p.broker_environment provider) ≡ false = when_clear _ _ b in
    record {
      own_environment = ground (arith, same);
      own_provider = ground (arith, same_provider);
      no_gate = sym (non_empty-map Reason.gate (order_transmission_blockers settings)) ∙ c;
      not_halted = halted_clear control d;
      consented = λ k. ground (arith, source, k);
    }

state_reasons-IsSendable :
    (p : TradeProposal) (now : ℕ) (sent_attempt_exists : Bool)
    → (non_empty (state_reasons p now sent_attempt_exists) ≡ false)
      ↔ IsSendable p now sent_attempt_exists
unfolding state_reasons
state_reasons-IsSendable p now sent_attempt_exists = ground arith

-- A fresh evaluation in which no rule blocks, and whose account holds what a sale would sell.
pub record IsBacked (p : TradeProposal) (r : Revalidation) : Type 0 where
  pub unblocked : non_empty (blocked_rules r) ≡ false
  pub backed :
      (account : AccountState)
      → p.side ≡ OrderSide.sell
      → r.account ≡ some account
      → p.proposed_quantity ≤D available_quantity (position account p.broker_ticker)

position_reason_clear :
    (p : TradeProposal) (r : Revalidation) (account : AccountState)
    → non_empty (position_reason p r) ≡ false
    → p.side ≡ OrderSide.sell
    → r.account ≡ some account
    → p.proposed_quantity ≤D available_quantity (position account p.broker_ticker)
unfolding position_reason
position_reason_clear p r account h side read =
    let clear = (rw (side, read) at h) in
    ground (
      arith,
      when_clear
          (ltb_dec (available_quantity (position account p.broker_ticker)) p.proposed_quantity)
          Reason.short_position clear,
    )

judge-IsBacked :
    (p : TradeProposal) (r : Revalidation) → permitted (judge p r) ≡ true → IsBacked p r
unfolding judge
judge-IsBacked p r h =
    let reasons = map Reason.rule_blocked (rule_ids r) ++ position_reason p r in
    elim (Bool-cases (non_empty reasons)) [
      | inl refused ↦ absurd (ground (arith, h, refused))
      | inr clear ↦
          let (rules, held) =
            non_empty-append-false (map Reason.rule_blocked (rule_ids r)) (position_reason p r)
              clear in
          record {
            unblocked =
                sym (non_empty-map (λ (rule : RuleResult). rule.rule_id) (blocked_rules r))
                ∙ (sym (non_empty-map Reason.rule_blocked (rule_ids r)) ∙ rules);
            backed = λ account side read. position_reason_clear p r account held side read;
          }
    ]

-- The reasons that are found without an evaluation.
abbrev pub local_reasons :
    Settings → Text → ControlSnapshot → TradeProposal → ℕ → Bool → List Reason
local_reasons settings provider control p now sent =
    permission_reasons settings provider p control ++ state_reasons p now sent

run_cases :
    (settings : Settings) (provider : Text) (control : ControlSnapshot)
    (revalidate : ℕ → Option Revalidation) (p : TradeProposal) (now : ℕ) (sent : Bool)
    → ((run settings provider control revalidate p now sent)
        ≡ refuse (local_reasons settings provider control p now sent) false [] none)
      ⊎ ((non_empty (local_reasons settings provider control p now sent) ≡ false)
          × (((revalidate now ≡ none)
                × (run settings provider control revalidate p now sent
                    ≡ refuse (Reason.proposal_gone ∷ []) false [] none))
              ⊎ ((r : Revalidation) × (revalidate now ≡ some r)
                  × (run settings provider control revalidate p now sent ≡ judge p r))))
unfolding run
run_cases settings provider control revalidate p now sent =
    elim (Bool-cases (non_empty (local_reasons settings provider control p now sent))) [
      | inl refused ↦ inl (rw refused refl)
      | inr clear ↦ elim (Option-cases (revalidate now)) [
        | inl gone ↦ inr (clear, inl (gone, rw (clear, gone) refl))
        | inr (r, e) ↦ inr (clear, inr (r, e, rw (clear, e) refl))
      ]
    ]

-- An order is permitted only in the proposal's own environment, with every gate on sending open, with
-- trading not halted and, for an automatic authorization in the live environment, with the consent
-- confirmed; only of a proposal that is approved, authorized, alive, unsent and not empty; and only
-- after a fresh evaluation in which no rule blocked and which holds what a sale would sell.
pub run_permitted :
    (settings : Settings) (provider : Text) (control : ControlSnapshot)
    (revalidate : ℕ → Option Revalidation) (p : TradeProposal) (now : ℕ) (sent : Bool)
    → permitted (run settings provider control revalidate p now sent) ≡ true
    → MaySend settings provider p control
      × IsSendable p now sent
      × ((r : Revalidation) × (revalidate now ≡ some r) × IsBacked p r)
run_permitted settings provider control revalidate p now sent h =
    elim (run_cases settings provider control revalidate p now sent) [
      | inl refused ↦ absurd (ground (arith, h, refused))
      | inr (clear, inl (gone, e)) ↦ absurd (ground (arith, h, e))
      | inr (clear, inr (r, e, judged)) ↦
          let (permission, state) =
            non_empty-append-false (permission_reasons settings provider p control)
              (state_reasons p now sent) clear in
          (
            permission_reasons-MaySend settings provider p control permission,
            (state_reasons-IsSendable p now sent).0 state,
            (r, e, judge-IsBacked p r (rw (← judged) h)),
          )
    ]

judge_retires :
    (p : TradeProposal) (r : Revalidation) (f : PreflightRefusal)
    → (judge p r).refusal ≡ some f
    → f.invalidates ≡ not (is_transient (rule_ids r))
unfolding judge
judge_retires p r f h = ground (arith, h)

-- A refusal retires the proposal only when nothing local stood against sending it and a fresh
-- evaluation refused it for more than a missing or a late input: a halt, a closed gate, an expiry or
-- a proposal that is gone never does.
pub run_retires :
    (settings : Settings) (provider : Text) (control : ControlSnapshot)
    (revalidate : ℕ → Option Revalidation) (p : TradeProposal) (now : ℕ) (sent : Bool)
    (f : PreflightRefusal)
    → (run settings provider control revalidate p now sent).refusal ≡ some f
    → f.invalidates ≡ true
    → MaySend settings provider p control
      × IsSendable p now sent
      × ((r : Revalidation) × (revalidate now ≡ some r) × (is_transient (rule_ids r) ≡ false))
run_retires settings provider control revalidate p now sent f h k =
    elim (run_cases settings provider control revalidate p now sent) [
      | inl refused ↦ absurd (ground (arith, h, k, refused))
      | inr (clear, inl (gone, e)) ↦ absurd (ground (arith, h, k, e))
      | inr (clear, inr (r, e, judged)) ↦
          let (permission, state) =
            non_empty-append-false (permission_reasons settings provider p control)
              (state_reasons p now sent) clear in
          let retired = judge_retires p r f (rw (← judged) h) in
          (
            permission_reasons-MaySend settings provider p control permission,
            (state_reasons-IsSendable p now sent).0 state,
            (r, e, ground (arith, retired, k)),
          )
    ]

-- The gates of the live environment are among those of sending: when none is left closed, execution
-- is switched on, the mode is manual approval, credentials are there and, in the live environment,
-- live execution is switched on and the written consent is confirmed.
pub transmission_gates :
    (s : Settings)
    → (non_empty (order_transmission_blockers s) ≡ false) ↔ (
        ((s.t212_execution_enabled && is_manual_approval s.execution_mode) ≡ true)
        × (broker_credentials_present s ≡ true)
        × (is_live s.t212_env ≡ true
            → (s.t212_live_execution_enabled && s.t212_written_consent_confirmed) ≡ true))
unfolding order_transmission_blockers execution_blockers
transmission_gates s = ground arith
