-- ===== src/Fx.antt =====
-- backend/stockbrain/fx/base.py: currency codes, measured rates, and what keeps a rate from sizing a
-- trade. A blocker is its kind; an instant is a number of microseconds.
use stock_brain.Prelude.{
  ℕ, ◌-◌, Bool, true, false, not, ◌&&◌, ◌||◌, List, [], ◌∷◌, ◌++◌, Option, none, some, Text, upper,
  strip, text_eq, non_empty, value_or, if◌then◌else◌,
}
use stock_brain.Decimal.{Decimal, places, ltb_dec}

pub data FxDirection : Type 0 where
  direct inverted identity : FxDirection

-- `normalize_currency`, with `None` and the empty code alike.
unfoldable pub normalize_currency : Option Text → Text
normalize_currency code = upper (strip (value_or code []))

unfoldable pub currency_pair : Text → Text → Text
currency_pair base quote = normalize_currency (some base) ++ normalize_currency (some quote)

pub data FxRateGrade : Type 0 where
  execution reference : FxRateGrade

abbrev pub is_reference : FxRateGrade → Bool
is_reference FxRateGrade.reference = true
is_reference _ = false

pub record FxRate : Type 0 where
  pub base_currency : Text
  pub quote_currency : Text
  pub rate : Decimal
  pub grade : FxRateGrade
  pub provider_timestamp : ℕ

-- `FxRate.age_seconds`: zero for a timestamp that is ahead.
abbrev pub rate_age_seconds : FxRate → ℕ → Decimal
rate_age_seconds rate now = places (now - rate.provider_timestamp) 6

-- `FxRate.supports`
unfoldable pub supports : FxRate → Text → Text → Bool
supports rate from_currency to_currency =
    let source = normalize_currency (some from_currency) in
    let target = normalize_currency (some to_currency) in
    let base = normalize_currency (some rate.base_currency) in
    let quote = normalize_currency (some rate.quote_currency) in
    (text_eq source base && text_eq target quote) || (text_eq source quote && text_eq target base)

-- The sentences of `fx_blockers`.
pub data FxBlocker : Type 0 where
  unknown_currency no_rate wrong_pair reference_grade too_old : FxBlocker

-- The limits that a caller of `fx_blockers` supplies.
pub record FxLimits : Type 0 where
  pub max_age_seconds : Decimal
  pub reference_max_age_seconds : Decimal
  pub allow_reference_grade : Bool

-- The limit on the age of a rate.
abbrev pub age_limit : FxLimits → FxRate → Decimal
age_limit limits rate =
    if is_reference rate.grade then limits.reference_max_age_seconds else limits.max_age_seconds

-- The blockers of a rate that is there.
unfoldable pub rate_blockers : FxRate → Text → Text → ℕ → FxLimits → List FxBlocker
rate_blockers rate source target now limits =
    if not (supports rate source target)
    then FxBlocker.wrong_pair ∷ []
    else (if is_reference rate.grade && not limits.allow_reference_grade
        then FxBlocker.reference_grade ∷ []
        else [])
      ++ (if ltb_dec (age_limit limits rate) (rate_age_seconds rate now)
          then FxBlocker.too_old ∷ []
          else [])

-- `fx_blockers`
unfoldable pub fx_blockers : Option FxRate → Text → Text → ℕ → FxLimits → List FxBlocker
fx_blockers rate from_currency to_currency now limits =
    let source = normalize_currency (some from_currency) in
    let target = normalize_currency (some to_currency) in
    let blocked : List FxBlocker = elim rate [
      | none ↦ FxBlocker.no_rate ∷ []
      | some r ↦ rate_blockers r source target now limits
    ] in
    if not (non_empty source && non_empty target)
    then FxBlocker.unknown_currency ∷ []
    else if text_eq source target
    then []
    else blocked
