-- ===== src/Risk/Gates.antt =====
-- The gates of backend/stockbrain/risk/rules.py: the yes/no rules of `gate_results`, without their
-- sentences.
mod Verdict
mod Listing
mod Quote
mod Currency
mod Book
unfoldable pub use Verdict.*
unfoldable pub use Listing.*
unfoldable pub use Quote.*
unfoldable pub use Currency.*
unfoldable pub use Book.*
use stock_brain.Prelude.{List, [], ◌∷◌}
use stock_brain.Risk.Models.{RiskInputs, RuleResult}

-- `gate_results`
unfoldable pub gate_results : RiskInputs → List RuleResult
gate_results inputs =
    action_is_executable inputs.action
    ∷ instrument_identity inputs
    ∷ instrument_type_supported inputs
    ∷ account_state_available inputs
    ∷ account_state_freshness inputs
    ∷ quote_available inputs
    ∷ price_source_execution_grade inputs
    ∷ quote_freshness inputs
    ∷ quote_two_sided inputs
    ∷ spread_ceiling inputs
    ∷ market_session inputs
    ∷ currency_alignment inputs
    ∷ fx_available inputs
    ∷ fx_freshness inputs
    ∷ current_position inputs
    ∷ duplicate_or_conflicting_proposal inputs
    ∷ max_active_proposals inputs
    ∷ reservation_accounting inputs
    ∷ research_confidence_floor inputs
    ∷ []
