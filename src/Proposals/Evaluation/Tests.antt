-- ===== src/Proposals/Evaluation/Tests.antt =====
-- The theorem on assembled snapshots at a concrete rate.
use stock_brain.Prelude.{◌≡◌, refl, true, some, codes, Text, present}
use stock_brain.Decimal.{whole, places}
use stock_brain.Fx.{FxRate, FxRateGrade, FxLimits, FxBlocker, supports, fx_blockers, rate_blockers}
use stock_brain.Risk.Models.{FxSnapshot}
use stock_brain.Risk.Sizing.{SizingRequest, size_trade}
use stock_brain.Risk.Operations.{risk_operations}
use stock_brain.Risk.Samples.{buy_request}
use stock_brain.Proposals.Evaluation.{fx_snapshot, rated_snapshot}
use stock_brain.Proposals.Evaluation.Directions.{size_trade-fx_snapshot}

-- A dollar is eighty pence, as a reference rate of five seconds ago.
abbrev fixing : FxRate
fixing = record {
  base_currency = codes "USD";
  quote_currency = codes "GBP";
  rate = places 80 2;
  grade = FxRateGrade.reference;
  provider_timestamp = 1000000;
}

abbrev limits : FxLimits
limits = record {
  max_age_seconds = whole 60;
  reference_max_age_seconds = whole 86400;
  allow_reference_grade = true;
}

abbrev sentence : FxBlocker → Text
sentence FxBlocker.too_old = codes "the rate is 9s old, older than the 5s limit"
sentence _ = codes "no rate"

abbrev assembled : FxSnapshot
assembled = rated_snapshot sentence (some fixing) (codes "GBP") (codes "USD") 6000000 limits

abbrev request : SizingRequest
request = record buy_request { fx = some assembled }

size_trade-fx_snapshot_example : present (size_trade request) ≡ true
unfolding risk_operations fx_snapshot rated_snapshot fx_blockers rate_blockers supports
size_trade-fx_snapshot_example =
    size_trade-fx_snapshot sentence (some fixing) (codes "GBP") (codes "USD") 6000000 limits
      assembled request refl refl refl refl
