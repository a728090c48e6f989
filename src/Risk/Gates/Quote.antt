-- ===== src/Risk/Gates/Quote.antt =====
-- Gates of backend/stockbrain/risk/rules.py on the quote.
use stock_brain.Prelude.{
  Bool, true, false, not, ◌&&◌, none, some, non_empty, if◌then◌else◌, any, present,
}
use stock_brain.Decimal.{Decimal, whole, zero_dec, leb_dec, ltb_dec, div_dec}
use stock_brain.Prelude.Int.{ℤ}
use stock_brain.Enums.{RuleOutcome, SpreadStatus, MarketSession, session_eq}
use stock_brain.Risk.Config.{RiskConfig, reduces_wide_spread}
use stock_brain.Risk.Spread.{SpreadAssessment, is_ok, is_merely_wide}
use stock_brain.Risk.Models.{RiskInputs, RuleResult}
use stock_brain.Risk.Gates.Verdict.{verdict, pass_if, skipped}

unfoldable pub quote_available : RiskInputs → RuleResult
quote_available inputs = verdict "quote_available" 1 (pass_if (present inputs.quote))

unfoldable pub price_source_execution_grade : RiskInputs → RuleResult
price_source_execution_grade inputs = elim inputs.quote [
  | none ↦ skipped "price_source_execution_grade" 1
  | some quote ↦
      verdict "price_source_execution_grade" 1 (pass_if (not (non_empty quote.provider_blockers)))
]

abbrev integer : ℤ → Decimal
integer n = record { coefficient = n; exponent = ℤ.pos 0 }

unfoldable pub quote_freshness : RiskInputs → RuleResult
quote_freshness inputs = elim inputs.quote [
  | none ↦ skipped "quote_freshness" 1
  | some quote ↦
      let age_seconds = div_dec (integer quote.age_ms) (whole 1000) in
      verdict "quote_freshness" 1
        (pass_if (leb_dec age_seconds inputs.config.max_quote_age_seconds))
]

abbrev is_two_sided : SpreadStatus → Bool
is_two_sided SpreadStatus.missing = false
is_two_sided SpreadStatus.non_positive = false
is_two_sided SpreadStatus.one_sided = false
is_two_sided _ = true

unfoldable pub quote_two_sided : RiskInputs → RuleResult
quote_two_sided inputs = elim inputs.quote [
  | none ↦ skipped "quote_two_sided" 1
  | some quote ↦ verdict "quote_two_sided" 1 (pass_if (is_two_sided quote.spread.status))
]

unfoldable pub spread_verdict : RiskConfig → SpreadAssessment → RuleResult
spread_verdict config assessment =
    let reduce_allowed =
      is_merely_wide assessment
      && (reduces_wide_spread config && ltb_dec zero_dec config.wide_spread_size_factor) in
    if is_ok assessment then verdict "spread_ceiling" 1 RuleOutcome.pass else record {
      rule_id = "spread_ceiling";
      rule_version = 1;
      outcome = if reduce_allowed then RuleOutcome.reduce else RuleOutcome.block;
      max_notional = none;
      size_factor = if reduce_allowed then some config.wide_spread_size_factor else none;
    }

unfoldable pub spread_ceiling : RiskInputs → RuleResult
spread_ceiling inputs = elim inputs.quote [
  | none ↦ skipped "spread_ceiling" 1
  | some quote ↦ spread_verdict inputs.config quote.spread
]

unfoldable pub market_session : RiskInputs → RuleResult
market_session inputs = elim inputs.quote [
  | none ↦ skipped "market_session" 1
  | some quote ↦
      let unknown = session_eq quote.session MarketSession.unknown in
      let ok = any (session_eq quote.session) inputs.config.allowed_sessions in
      if unknown && inputs.config.require_known_session
      then verdict "market_session" 1 RuleOutcome.block
      else verdict "market_session" 1 (pass_if ok)
]
