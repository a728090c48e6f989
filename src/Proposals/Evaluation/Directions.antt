-- ===== src/Proposals/Evaluation/Directions.antt =====
-- A snapshot that is assembled and may convert always holds a rate between its two currencies.
use stock_brain.Prelude.{
  ℕ, ◌≡◌, refl, sym, ◌∙◌, ◌⊎◌, inl, inr, true, false, Option, some, Text, text_eq, non_empty, arith,
  non_empty-map, present, Bool-cases, Option-cases,
}
use mathlib.Core.Path.{subst}
use stock_brain.Decimal.{Decimal}
use stock_brain.Decimal.Order.{◌≤D◌}
use stock_brain.Fx.{
  FxRate, FxLimits, FxBlocker, normalize_currency, fx_blockers, rate_blockers, rate_age_seconds,
  supports, is_reference, age_limit,
}
use stock_brain.Risk.Models.{
  FxSnapshot, same_currency_snapshot, usable, direction, direction_for, direction_of_pair,
}
use stock_brain.Risk.Sizing.{SizingRequest, size_trade, snapshot_of}
use stock_brain.Risk.Sizing.Holding.{size_trade-eq-none}
use stock_brain.Proposals.Evaluation.{fx_snapshot, rated_snapshot}

-- A rate that may size a trade between two currencies.
pub record IsPermitted (r : FxRate) (source target : Text) (now : ℕ) (limits : FxLimits)
    : Type 0 where
  pub covers : supports r source target ≡ true
  pub graded : is_reference r.grade ≡ true → limits.allow_reference_grade ≡ true
  pub fresh : rate_age_seconds r now ≤D age_limit limits r

rate_blockers_clear :
    (r : FxRate) (source target : Text) (now : ℕ) (limits : FxLimits)
    → non_empty (rate_blockers r source target now limits) ≡ false
    → IsPermitted r source target now limits
unfolding rate_blockers
rate_blockers_clear r source target now limits h = ground (arith, h)

-- When no blocker is left, the codes are one, or there is a rate that covers them, of a permitted
-- grade and within the limit on its age.
pub fx_blockers_clear :
    (rate : Option FxRate) (a b : Text) (now : ℕ) (limits : FxLimits)
    → non_empty (fx_blockers rate a b now limits) ≡ false
    → (text_eq (normalize_currency (some a)) (normalize_currency (some b)) ≡ true)
      ⊎ ((r : FxRate) × (rate ≡ some r)
          × IsPermitted r (normalize_currency (some a)) (normalize_currency (some b)) now limits)
unfolding fx_blockers
fx_blockers_clear rate a b now limits h =
    elim (Bool-cases (text_eq (normalize_currency (some a)) (normalize_currency (some b)))) [
      | inl same ↦ inl same
      | inr other ↦ elim (Option-cases rate) [
        | inl missing ↦ absurd (ground (arith, h, other, missing))
        | inr (r, e) ↦
            inr (r, e, rate_blockers_clear r _ _ now limits (ground (arith, h, other, e)))
      ]
    ]

covered_direction :
    (r : FxRate) (fx : FxSnapshot) (source target : Text)
    → fx.base_currency ≡ some r.base_currency
    → fx.quote_currency ≡ some r.quote_currency
    → supports r source target ≡ true
    → present
        (direction_of_pair fx (normalize_currency (some source)) (normalize_currency (some target)))
      ≡ true
unfolding supports direction_of_pair
covered_direction r fx source target base quote h = rw (base, quote) (ground (arith, h))

rated_clear :
    (render : FxBlocker → Text) (rate : Option FxRate) (a b : Text) (now : ℕ) (limits : FxLimits)
    → normalize_currency (some a) ≡ a
    → normalize_currency (some b) ≡ b
    → text_eq a b ≡ false
    → usable (rated_snapshot render rate a b now limits) ≡ true
    → (r : FxRate) × (rate ≡ some r) × (supports r a b ≡ true)
unfolding rated_snapshot
rated_clear render rate a b now limits ha hb other ok =
    let blockers =
      fx_blockers rate (normalize_currency (some a)) (normalize_currency (some b)) now limits in
    let none_left : non_empty blockers ≡ false =
      sym (non_empty-map render blockers) ∙ ground (arith, ok) in
    let clear = fx_blockers_clear rate a b now limits (rw (ha, hb) at none_left) in
    elim clear [
      | inl same ↦ absurd (ground (arith, rw (ha, hb) at same, other))
      | inr (r, e, permitted) ↦ let covers = permitted.covers in (r, e, (rw (ha, hb) at covers))
    ]

rated_fields :
    (render : FxBlocker → Text) (r : FxRate) (a b : Text) (now : ℕ) (limits : FxLimits)
    {rate : Option FxRate}
    → rate ≡ some r
    → ((rated_snapshot render rate a b now limits).base_currency ≡ some r.base_currency)
      × ((rated_snapshot render rate a b now limits).quote_currency ≡ some r.quote_currency)
      × ((rated_snapshot render rate a b now limits).rate ≡ some r.rate)
unfolding rated_snapshot
rated_fields render r a b now limits e = rw e (refl, refl, refl)

-- A snapshot that may convert, with a rate for its pair.
directed :
    (fx : FxSnapshot) (v : Decimal)
    → fx.same_currency ≡ false
    → usable fx ≡ true
    → fx.rate ≡ some v
    → present (
        direction_of_pair fx
          (normalize_currency (some fx.account_currency))
          (normalize_currency (some fx.instrument_currency)))
      ≡ true
    → present (direction fx) ≡ true
unfolding direction direction_for
directed fx v other ok measured found = ground (arith, other, ok, measured, found)

rated_directed :
    (render : FxBlocker → Text) (rate : Option FxRate) (a b : Text) (now : ℕ) (limits : FxLimits)
    → normalize_currency (some a) ≡ a
    → normalize_currency (some b) ≡ b
    → text_eq a b ≡ false
    → usable (rated_snapshot render rate a b now limits) ≡ true
    → present (direction (rated_snapshot render rate a b now limits)) ≡ true
unfolding rated_snapshot
rated_directed render rate a b now limits ha hb other ok =
    let (r, e, covers) = rated_clear render rate a b now limits ha hb other ok in
    let fx = rated_snapshot render rate a b now limits in
    let (base, quote, measured) = rated_fields render r a b now limits e in
    directed fx r.rate refl ok measured (covered_direction r fx a b base quote covers)

fx_snapshot_cases :
    (render : FxBlocker → Text) (rate : Option FxRate) (a b : Text) (now : ℕ) (limits : FxLimits)
    {fx : FxSnapshot}
    → normalize_currency (some a) ≡ a
    → normalize_currency (some b) ≡ b
    → fx_snapshot render rate (some a) (some b) now limits ≡ some fx
    → (same_currency_snapshot a ≡ fx)
      ⊎ ((text_eq a b ≡ false) × (rated_snapshot render rate a b now limits ≡ fx))
unfolding fx_snapshot
fx_snapshot_cases render rate a b now limits ha hb h =
    let normal = (rw (fx_snapshot, ha, hb) at h) in ground (arith, normal)

same_currency_directed : (a : Text) → present (direction (same_currency_snapshot a)) ≡ true
unfolding direction same_currency_snapshot
same_currency_directed a = refl

-- Of two codes in normal form, a snapshot that is assembled and may convert has a direction.
fx_snapshot_directed :
    (render : FxBlocker → Text) (rate : Option FxRate) (a b : Text) (now : ℕ) (limits : FxLimits)
    {fx : FxSnapshot}
    → normalize_currency (some a) ≡ a
    → normalize_currency (some b) ≡ b
    → fx_snapshot render rate (some a) (some b) now limits ≡ some fx
    → usable fx ≡ true
    → present (direction fx) ≡ true
fx_snapshot_directed render rate a b now limits ha hb h ok =
    elim (fx_snapshot_cases render rate a b now limits ha hb h) [
      | inl same ↦ subst (λ s. present (direction s) ≡ true) same (same_currency_directed a)
      | inr (other, e) ↦
          subst (λ s. present (direction s) ≡ true) e
            (rated_directed render rate a b now limits ha hb other (rw e ok))
    ]

-- Sizing with a snapshot that is assembled of two codes in normal form never raises, whatever rate the
-- provider returned, and whether or not it may be used.
pub size_trade-fx_snapshot :
    (render : FxBlocker → Text) (rate : Option FxRate) (a b : Text) (now : ℕ) (limits : FxLimits)
    (fx : FxSnapshot) (request : SizingRequest)
    → normalize_currency (some a) ≡ a
    → normalize_currency (some b) ≡ b
    → fx_snapshot render rate (some a) (some b) now limits ≡ some fx
    → request.fx ≡ some fx
    → present (size_trade request) ≡ true
unfolding snapshot_of
size_trade-fx_snapshot render rate a b now limits fx request ha hb h given =
    elim (Option-cases (size_trade request)) [
      | inr (s, e) ↦ rw e refl
      | inl raised ↦
          let u = ((size_trade-eq-none request).0 raised).5 in
          let used : snapshot_of request ≡ fx = rw given refl in
          let ok = u.permitted in
          let none_there = u.no_direction in
          let found = fx_snapshot_directed render rate a b now limits ha hb h (rw used at ok) in
          absurd (ground (arith, found, rw used at none_there))
    ]
