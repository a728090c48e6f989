-- ===== src/Proposals/Evaluation.antt =====
-- `fx_snapshot` of backend/stockbrain/proposals/evaluation.py: the facts on a rate, assembled from what
-- the FX service resolves. `render` gives the sentence of a blocker.
pub mod Directions
mod Tests
use stock_brain.Prelude.{
  ℕ, Bool, true, false, not, ◌&&◌, List, [], ◌∷◌, Option, none, some, Text, text_eq, non_empty, map,
  if◌then◌else◌,
}
use stock_brain.Fx.{FxRate, FxLimits, FxBlocker, normalize_currency, fx_blockers, rate_age_seconds}
use stock_brain.Risk.Models.{FxSnapshot, same_currency_snapshot}

-- The snapshot of two currencies, with the rate that was found and its blockers. The service
-- normalizes the codes once more.
unfoldable pub rated_snapshot :
    (FxBlocker → Text) → Option FxRate → Text → Text → ℕ → FxLimits → FxSnapshot
rated_snapshot render rate account_currency listing_currency now limits = record {
  account_currency = account_currency;
  instrument_currency = listing_currency;
  same_currency = false;
  blockers = map render (
      fx_blockers rate (normalize_currency (some account_currency))
        (normalize_currency (some listing_currency)) now limits);
  rate = elim rate [ none ↦ none | some r ↦ some r.rate ];
  base_currency = elim rate [ none ↦ none | some r ↦ some r.base_currency ];
  quote_currency = elim rate [ none ↦ none | some r ↦ some r.quote_currency ];
  age_seconds = elim rate [ none ↦ none | some r ↦ some (rate_age_seconds r now) ];
}

-- `fx_snapshot`: `rate` is what the provider returned for the two codes.
unfoldable pub fx_snapshot :
    (FxBlocker → Text)
    → Option FxRate
    → Option Text
    → Option Text
    → ℕ
    → FxLimits
    → Option FxSnapshot
fx_snapshot render rate account_currency instrument_currency now limits =
    let account = normalize_currency account_currency in
    let listing = normalize_currency instrument_currency in
    if not (non_empty account && non_empty listing)
    then none
    else if text_eq account listing
    then some (same_currency_snapshot account)
    else some (rated_snapshot render rate account listing now limits)
