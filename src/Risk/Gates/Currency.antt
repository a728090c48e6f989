-- ===== src/Risk/Gates/Currency.antt =====
-- Gates of backend/stockbrain/risk/rules.py on currencies and the exchange rate.
use stock_brain.Prelude.{
  Bool, not, ◌&&◌, [], none, some, Text, text_eq, codes, contains, upper, non_empty, if◌then◌else◌,
  filter, value_or, present,
}
use stock_brain.Enums.{RuleOutcome}
use stock_brain.Risk.Models.{RiskInputs, RuleResult}
use stock_brain.Risk.Gates.Verdict.{verdict, pass_if, skipped}

-- The three currency codes in upper case; a missing one is empty.
abbrev pub identity_code : RiskInputs → Text
identity_code inputs = upper (value_or inputs.identity.currency [])

abbrev pub account_code : RiskInputs → Text
account_code inputs = elim inputs.account [ none ↦ [] | some account ↦ upper account.currency ]

abbrev quote_code : RiskInputs → Text
quote_code inputs = elim inputs.quote [ none ↦ [] | some quote ↦ upper quote.currency ]

abbrev pub codes_known : RiskInputs → Bool
codes_known inputs = non_empty (account_code inputs) && non_empty (identity_code inputs)

unfoldable pub currency_alignment : RiskInputs → RuleResult
currency_alignment inputs =
    let identity = identity_code inputs in
    let quote = quote_code inputs in
    if not (codes_known inputs)
    then verdict "currency_alignment" 2 RuleOutcome.block
    else if non_empty quote && not (text_eq quote identity)
    then verdict "currency_alignment" 2 RuleOutcome.block
    else if text_eq identity (account_code inputs)
    then verdict "currency_alignment" 2 RuleOutcome.pass
    else if inputs.config.require_same_currency
    then verdict "currency_alignment" 2 RuleOutcome.block
    else verdict "currency_alignment" 2 RuleOutcome.pass

-- `" old, older than " in reason`
unfoldable pub is_stale_reason : Text → Bool
is_stale_reason reason = contains (codes " old, older than ") reason

unfoldable pub fx_available : RiskInputs → RuleResult
fx_available inputs =
    if not (codes_known inputs)
    then skipped "fx_available" 1
    else if text_eq (account_code inputs) (identity_code inputs)
    then verdict "fx_available" 1 RuleOutcome.pass
    else elim inputs.fx [
      | none ↦ verdict "fx_available" 1 RuleOutcome.block
      | some snapshot ↦
          let structural = filter (λ reason. not (is_stale_reason reason)) snapshot.blockers in
          verdict "fx_available" 1 (pass_if (not (non_empty structural)))
    ]

unfoldable pub fx_freshness : RiskInputs → RuleResult
fx_freshness inputs =
    if not (codes_known inputs)
    then skipped "fx_freshness" 1
    else if text_eq (account_code inputs) (identity_code inputs)
    then verdict "fx_freshness" 1 RuleOutcome.pass
    else elim inputs.fx [
      | none ↦ skipped "fx_freshness" 1
      | some snapshot ↦
          if non_empty (filter is_stale_reason snapshot.blockers)
          then verdict "fx_freshness" 1 RuleOutcome.block
          else if not (present snapshot.age_seconds)
          then skipped "fx_freshness" 1
          else verdict "fx_freshness" 1 RuleOutcome.pass
    ]
