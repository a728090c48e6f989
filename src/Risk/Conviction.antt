-- ===== src/Risk/Conviction.antt =====
-- Conviction sizing of backend/stockbrain/risk/rules.py: the weight of a confidence, and the split of
-- an account across weighted holdings. A dictionary is an association list in insertion order, and
-- the set of open names keeps that order too.
pub mod Fill
use stock_brain.Prelude.{
  ℕ, zero, suc, Bool, not, ◌&&◌, List, [], ◌∷◌, ◌++◌, if◌then◌else◌, filter, map, non_empty, length,
}
use stock_brain.Decimal.{
  Decimal, zero_dec, whole, leb_dec, ltb_dec, add_dec, sub_dec, mul_dec, div_dec, min_dec, max_dec,
}
use stock_brain.Risk.Config.{RiskConfig}

-- `_pct`
unfoldable pub pct : Decimal → Decimal → Decimal
pct total fraction = mul_dec total fraction

-- `conviction_weight`
unfoldable pub conviction_weight : RiskConfig → Decimal → Decimal
conviction_weight config confidence =
    let floor = config.min_research_confidence in
    let span = sub_dec config.conviction_full_confidence floor in
    let progress =
      if leb_dec span zero_dec then whole 1 else div_dec (sub_dec confidence floor) span in
    let clamped = min_dec (whole 1) (max_dec zero_dec progress) in
    let low = config.conviction_min_weight in
    let high = config.conviction_max_weight in add_dec low (mul_dec (sub_dec high low) clamped)

-- A name, its weight, and its share of what remains.
abbrev pub Share : Type 0 → Type 0
Share N = N × Decimal × Decimal

-- A holding of the book: this idea's ticker, or one of the others by its index.
module _ {N : Type 0} where
  -- `sum(…, ZERO)`
  unfoldable pub weight_sum : Decimal → List (N × Decimal) → Decimal
  weight_sum acc [] = acc
  weight_sum acc ((name, w) ∷ rest) = weight_sum (add_dec acc w) rest

  unfoldable pub shares : Decimal → Decimal → List (N × Decimal) → List (Share N)
  shares remaining total [] = []
  shares remaining total ((name, w) ∷ rest) =
      (name, w, div_dec (mul_dec remaining w) total) ∷ shares remaining total rest

  abbrev pub reaches : Decimal → Share N → Bool
  reaches ceiling (_, _, value) = leb_dec ceiling value

  abbrev pub at_value : Share N → N × Decimal
  at_value (name, _, value) = (name, value)

  abbrev pub at_weight : Share N → N × Decimal
  at_weight (name, w, _) = (name, w)

  -- `remaining -= ceiling` for each capped name
  unfoldable pub subtract_each : Decimal → Decimal → List (Share N) → Decimal
  subtract_each remaining ceiling [] = remaining
  subtract_each remaining ceiling (_ ∷ rest) =
      subtract_each (sub_dec remaining ceiling) ceiling rest

  -- The loop: shares at or over the ceiling are fixed there, and what they leave is split again.
  -- A round that goes on closes a name, so the number of names is fuel enough.
  unfoldable pub fill : ℕ → Decimal → Decimal → List (N × Decimal) → List (N × Decimal)
  fill zero ceiling remaining names = []
  fill (suc fuel) ceiling remaining names =
      let share = shares remaining (weight_sum zero_dec names) names in
      let capped = filter (reaches ceiling) share in
      let others = filter (λ s. not (reaches ceiling s)) share in
      let rest =
        fill fuel ceiling (subtract_each remaining ceiling capped) (map at_weight others) in
      if non_empty names && ltb_dec zero_dec remaining
      then (if non_empty capped
          then map (λ (s : Share N). (s.0, ceiling)) capped ++ rest
          else map at_value share)
      else []

  -- `conviction_targets`, without the names that it sets to zero.
  unfoldable pub conviction_targets : Decimal → List (N × Decimal) → RiskConfig → List (N × Decimal)
  conviction_targets total weights config =
      let ceiling = pct total config.max_position_pct_of_portfolio in
      let names = filter (λ (nw : N × Decimal). ltb_dec zero_dec nw.1) weights in
      fill (length names) ceiling total names

  -- `targets[name]`, which `setdefault(name, ZERO)` completes.
  unfoldable pub target_of : (N → Bool) → List (N × Decimal) → Decimal
  target_of is_name [] = zero_dec
  target_of is_name ((name, value) ∷ rest) = if is_name name then value else target_of is_name rest
