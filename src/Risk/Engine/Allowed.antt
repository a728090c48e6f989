-- ===== src/Risk/Engine/Allowed.antt =====
-- What a decision that permits a trade has established.
use stock_brain.Prelude.{
  ℕ, ◌≡◌, inl, inr, true, false, List, [], ◌∷◌, some, arith, any, All, any-All, any-append-false,
  filter, Option-cases,
}
use stock_brain.Decimal.{Decimal, zero_dec}
use stock_brain.Decimal.Order.{◌≤D◌, ◌<D◌}
use stock_brain.Risk.Models.{
  RiskInputs, RiskDecision, RuleResult, AccountState, QuoteSnapshot, age_seconds, allowed,
}
use stock_brain.Risk.Gates.{
  gate_results, account_state_available, account_state_freshness, quote_available,
  duplicate_or_conflicting_proposal, price_source_execution_grade,
}
use stock_brain.Risk.Caps.{NotionalCap, notional_caps, cap_rule_results, cap_outcome, least_limit}
use stock_brain.Risk.Sizing.{size_trade, two_prices, snapshot_of}
use stock_brain.Risk.Sizing.Paid.{IsPaid}
use stock_brain.Risk.Sizing.Bought.{size_trade-IsBought}
use stock_brain.Risk.Engine.{
  all_rules, blocks, evaluate, conclude, conclude_sized, request_of, combined_size_factor,
}
use stock_brain.Risk.Engine.Reductions.{least_limit_bounds, least_limit-among}
use mathlib.Core.List.{Mem}
use stock_brain.Enums.{ThesisAction}
use stock_brain.Risk.Engine.Blocks.{evaluate-eq-some, allowed_passes, conclude-Concludes}

-- The state of the account and the quote that an order may be sized against.
pub record IsMeasured (inputs : RiskInputs) : Type 0 where
  pub account : AccountState
  pub account_read : inputs.account ≡ some account
  pub account_fresh : age_seconds account inputs.now ≤D inputs.config.max_account_state_age_seconds
  pub quote : QuoteSnapshot
  pub quote_read : inputs.quote ≡ some quote
  pub execution_grade : quote.provider_blockers ≡ []

account_fresh_lem :
    (inputs : RiskInputs)
    → blocks (account_state_available inputs) ≡ false
    → blocks (account_state_freshness inputs) ≡ false
    → (account : AccountState) × (inputs.account ≡ some account)
      × (age_seconds account inputs.now ≤D inputs.config.max_account_state_age_seconds)
unfolding account_state_available account_state_freshness
account_fresh_lem inputs h k = elim (Option-cases inputs.account) [
  | inl absent ↦ absurd (ground (arith, h, absent))
  | inr (account, e) ↦ (account, e, ground (arith, k, e))
]

quote_graded_lem :
    (inputs : RiskInputs)
    → blocks (quote_available inputs) ≡ false
    → blocks (price_source_execution_grade inputs) ≡ false
    → (quote : QuoteSnapshot) × (inputs.quote ≡ some quote) × (quote.provider_blockers ≡ [])
unfolding quote_available price_source_execution_grade
quote_graded_lem inputs h k = elim (Option-cases inputs.quote) [
  | inl absent ↦ absurd (ground (arith, h, absent))
  | inr (quote, e) ↦ (quote, e, ground (arith, k, e))
]

-- No gate blocks.
abbrev pub AllPass : RiskInputs → Type 0
AllPass inputs = All (λ rule. blocks rule ≡ false) (gate_results inputs)

allowed-AllPass :
    (inputs : RiskInputs) (t : ℕ) {d : RiskDecision}
    → evaluate inputs t ≡ some d
    → allowed d ≡ true
    → AllPass inputs
allowed-AllPass inputs t h ok =
    any-All blocks (gate_results inputs) (allowed_passes inputs t h ok).1

-- A trade is permitted only against a fresh account, and a quote whose provider has no objection.
pub allowed-IsMeasured :
    (inputs : RiskInputs) (t : ℕ) {d : RiskDecision}
    → evaluate inputs t ≡ some d
    → allowed d ≡ true
    → IsMeasured inputs
unfolding gate_results
allowed-IsMeasured inputs t h ok =
    let gates = allowed-AllPass inputs t h ok in
    let (account, read, fresh) = account_fresh_lem inputs gates.1.1.1.0 gates.1.1.1.1.0 in
    let (quote, quoted, graded) = quote_graded_lem inputs gates.1.1.1.1.1.0 gates.1.1.1.1.1.1.0 in
    record {
      account = account;
      account_read = read;
      account_fresh = fresh;
      quote = quote;
      quote_read = quoted;
      execution_grade = graded;
    }

-- A trade is permitted only where no other proposal for the listing is active.
pub allowed_alone :
    (inputs : RiskInputs) (t : ℕ) {d : RiskDecision}
    → evaluate inputs t ≡ some d
    → allowed d ≡ true
    → inputs.reserved.same_instrument_count ≡ 0
unfolding duplicate_or_conflicting_proposal gate_results
allowed_alone inputs t h ok =
    let gates = allowed-AllPass inputs t h ok in
    let alone : blocks (duplicate_or_conflicting_proposal inputs) ≡ false =
      gates.1.1.1.1.1.1.1.1.1.1.1.1.1.1.1.0 in
    ground (arith, alone)

caps_positive :
    (intended : Decimal) (caps : List NotionalCap)
    → any blocks (cap_rule_results caps intended) ≡ false
    → All (λ cap. zero_dec <D cap.limit) caps
unfolding cap_rule_results cap_outcome
caps_positive intended [] h = tt
caps_positive intended (cap ∷ caps) h =
    (ground (arith, h), caps_positive intended caps (ground (arith, h)))

caps_in_rules :
    (inputs : RiskInputs) (caps : List NotionalCap)
    → any blocks (all_rules inputs caps) ≡ false
    → All (λ cap. zero_dec <D cap.limit) caps
unfolding all_rules
caps_in_rules inputs caps h =
    let intended = least_limit (filter (λ (c : NotionalCap). c.defines_intent) caps) in
    let rest = (any-append-false blocks (gate_results inputs) _ h).1 in
    caps_positive intended caps (any-append-false blocks (cap_rule_results caps intended) _ rest).0

-- The least of the caps, and the size that it pays for at the quote and the factor of the rules.
pub record IsRoomy (inputs : RiskInputs) (caps : List NotionalCap) (d : RiskDecision) : Type 0 where
  pub room : Decimal
  pub least : (cap : NotionalCap) × Mem cap caps × (room ≡ cap.limit)
  pub under : All (λ cap. room ≤D cap.limit) caps
  pub bid : Decimal
  pub ask : Decimal
  pub prices : two_prices inputs.quote ≡ some (bid, ask)
  pub paid :
      IsPaid
        (snapshot_of (request_of inputs caps d.rules))
        ask
        room
        (combined_size_factor d.rules)
        d.sizing

sized_from :
    (inputs : RiskInputs) (caps : List NotionalCap) (rules : List RuleResult) (t : ℕ)
    {d : RiskDecision}
    → conclude inputs caps rules t ≡ some d
    → any blocks rules ≡ false
    → size_trade (request_of inputs caps rules) ≡ some d.sizing
unfolding conclude conclude_sized
sized_from inputs caps rules t h quiet =
    elim (Option-cases (size_trade (request_of inputs caps rules))) [
      | inl raised ↦ absurd (ground (arith, h, quiet, raised))
      | inr (sizing, e) ↦ ground (arith, h, quiet, e)
    ]

-- A purchase is permitted only where every cap leaves room, and within that room: the converted limit
-- of the least cap pays at the ask for the quantity of the decision, also once the factor of its rules
-- reduces it.
pub allowed_room :
    (inputs : RiskInputs) (t : ℕ) {d : RiskDecision}
    → inputs.action ≡ ThesisAction.buy
    → evaluate inputs t ≡ some d
    → allowed d ≡ true
    → (caps : List NotionalCap) × (notional_caps inputs ≡ some caps)
      × All (λ cap. zero_dec <D cap.limit) caps
      × IsRoomy inputs caps d
allowed_room inputs t {d} buy h ok =
    let (caps, e, c) = evaluate-eq-some inputs t h in
    let same = (conclude-Concludes inputs caps (all_rules inputs caps) t c).same_rules in
    let (quiet, _, sent) = allowed_passes inputs t h ok in
    let open_caps = caps_in_rules inputs caps (rw (← same) quiet) in
    let sized = sized_from inputs caps (all_rules inputs caps) t c (rw (← same) quiet) in
    let request = request_of inputs caps d.rules in
    let again : size_trade request ≡ some d.sizing = (rw same sized) in
    let (bid, ask, prices, paid) = size_trade-IsBought request d.sizing again buy sent in
    (
      caps,
      e,
      open_caps,
      record {
        room = least_limit caps;
        least = least_limit-among caps paid.limited;
        under = least_limit_bounds caps;
        bid = bid;
        ask = ask;
        prices = prices;
        paid = paid;
      },
    )
