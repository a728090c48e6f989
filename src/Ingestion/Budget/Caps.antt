-- ===== src/Ingestion/Budget/Caps.antt =====
-- The ledger of backend/stockbrain/ingestion/provider_budget.py after reservations and closings.
use mathlib.Core.Path.{subst}
use native.Mathlib.Nat.{mul-le-mul_left}
use stock_brain.Prelude.{
  ℕ, ◌+◌, ◌*◌, ◌/◌, ◌≤◌, ◌≡◌, ◌↔◌, if◌then◌else◌, refl, List, [], ◌∷◌, Option, none, some, Bool,
  true, false, not, arith, Option-cases, Bool-cases, inl, inr, All, Text, ◌==◌, leb, map,
}
use stock_brain.Ingestion.Budget.{
  ProviderCall, ProviderCallKind, ProviderCallOutcome, Limits, ProviderBudgetState, Reservation,
  Closing, reserve, or_zero, refusal_for, usage_since, total, state, new_call, is_counted,
  is_search, close, close_row, charge, at_least_one, record_success, record_failure,
  search_exhausted, scrape_exhausted, estimate_firecrawl_search_credits, one_if,
}

-- No cap is passed: the calls of the kind, and the units of the day and of the month.
pub record IsWithin (limits : Limits) (kind : ProviderCallKind) (day_start month_start : ℕ)
    (calls : List ProviderCall) : Type 0 where
  pub searches :
      kind ≡ ProviderCallKind.search
      → (usage_since limits.provider day_start calls).searches ≤ limits.max_searches_per_day
  pub scrapes :
      kind ≡ ProviderCallKind.scrape
      → (usage_since limits.provider day_start calls).scrapes ≤ limits.max_scrapes_per_day
  pub daily : (usage_since limits.provider day_start calls).units ≤ limits.daily_unit_cap
  pub monthly : (usage_since limits.provider month_start calls).units ≤ limits.monthly_unit_cap

-- A row adds at most its amount.
total-one :
    (amount : ProviderCall → ℕ) (provider : Text) (since : ℕ) (call : ProviderCall)
    (calls : List ProviderCall)
    → total amount provider since (call ∷ calls) ≤ amount call + total amount provider since calls
unfolding total
total-one amount provider since call calls = elim (Bool-cases (is_counted provider since call)) [
  | inl counted ↦ rw (counted, total) (omega arith)
  | inr other ↦ rw (other, total) (omega arith)
]

-- The room that a call without a refusal has.
record HasRoom (kind : ProviderCallKind) (s : ProviderBudgetState) (units_needed : ℕ) : Type 0 where
  calls_left :
      (is_search kind ≡ true → s.today.searches + 1 ≤ s.limits.max_searches_per_day)
      × (is_search kind ≡ false → s.today.scrapes + 1 ≤ s.limits.max_scrapes_per_day)
  units_left :
      (s.today.units + units_needed ≤ s.limits.daily_unit_cap)
      × (s.month.units + units_needed ≤ s.limits.monthly_unit_cap)

room :
    (kind : ProviderCallKind) (s : ProviderBudgetState) (units_needed : ℕ)
    → refusal_for kind s units_needed ≡ none
    → HasRoom kind s units_needed
unfolding refusal_for
room kind s units_needed h = record {
  calls_left = (λ e. ground (arith, h, e), λ e. ground (arith, h, e));
  units_left = (ground (arith, h), ground (arith, h));
}

one_if_bound : (b : Bool) → one_if b ≤ 1
one_if_bound true = omega arith
one_if_bound false = omega arith

within :
    (limits : Limits) (kind : ProviderCallKind) (units_needed day_start month_start fresh now : ℕ)
    (calls : List ProviderCall)
    → HasRoom kind (state limits day_start month_start calls) units_needed
    → IsWithin limits kind day_start month_start
        (new_call limits.provider kind units_needed fresh now ∷ calls)
unfolding usage_since
within limits kind units_needed day_start month_start fresh now calls r =
    let call = new_call limits.provider kind units_needed fresh now in
    let added = λ (amount : ProviderCall → ℕ) (since : ℕ).
      total-one amount limits.provider since call calls in
    record {
      searches = λ e. omega (
        arith,
        added (λ c. one_if (is_search c.kind)) day_start,
        one_if_bound (is_search kind),
        r.calls_left.0 (rw e refl),
      );
      scrapes = λ e. omega (
        arith,
        added (λ c. one_if (not (is_search c.kind))) day_start,
        one_if_bound (not (is_search kind)),
        r.calls_left.1 (rw e refl),
      );
      daily = omega (arith, added (λ c. c.units_charged) day_start, r.units_left.0);
      monthly = omega (arith, added (λ c. c.units_charged) month_start, r.units_left.1);
    }

-- The row that a reservation adds to the ledger: it is charged in full.
pub record IsReserved (limits : Limits) (kind : ProviderCallKind) (units_needed fresh now : ℕ)
    (calls after : List ProviderCall) : Type 0 where
  pub row : ProviderCall
  pub added : after ≡ row ∷ calls
  pub own_id : row.id ≡ fresh
  pub own_provider : row.provider ≡ limits.provider
  pub own_kind : row.kind ≡ kind
  pub pending : row.outcome ≡ ProviderCallOutcome.reserved
  pub stamped : row.reserved_at ≡ now
  pub reserved : row.units_reserved ≡ units_needed
  pub charged : row.units_charged ≡ units_needed

new_call-IsReserved :
    (limits : Limits) (kind : ProviderCallKind) (units_needed fresh now : ℕ)
    (calls : List ProviderCall)
    → IsReserved limits kind units_needed fresh now calls
        (new_call limits.provider kind units_needed fresh now ∷ calls)
new_call-IsReserved limits kind units_needed fresh now calls = record {
  row = new_call limits.provider kind units_needed fresh now;
  added = refl;
  own_id = refl;
  own_provider = refl;
  own_kind = refl;
  pending = refl;
  stamped = refl;
  reserved = refl;
  charged = refl;
}

-- A reservation that is granted is of at least one unit, adds one row, which is charged all the units
-- that the call needs, and leaves a ledger in which the calls of its kind on the day and the units of
-- the day and of the month are within the caps.
pub reserve-IsWithin :
    (limits : Limits) (kind : ProviderCallKind) (units_needed day_start month_start fresh now : ℕ)
    (calls after : List ProviderCall)
    → reserve limits kind units_needed day_start month_start fresh now calls
      ≡ Reservation.granted after
    → (1 ≤ units_needed)
      × IsReserved limits kind units_needed fresh now calls after
      × IsWithin limits kind day_start month_start after
unfolding reserve
reserve-IsWithin limits kind units_needed day_start month_start fresh now calls after h =
    elim (Bool-cases limits.enabled) [
      | inr off ↦ cc (rw (off, reserve) at h)
      | inl on ↦ elim (Bool-cases (leb units_needed 0)) [
        | inl empty ↦ cc (rw (on, empty, reserve) at h)
        | inr some_units ↦
            elim (Option-cases
              (refusal_for kind (state limits day_start month_start calls) units_needed)) [
                | inr (why, e) ↦ cc (rw (on, some_units, e, reserve) at h)
                | inl free ↦
                    let call = new_call limits.provider kind units_needed fresh now in
                    let written : Reservation.granted (call ∷ calls) ≡ Reservation.granted after =
                      (rw (on, some_units, free, reserve) at h) in
                    let Granted = λ (ledger : List ProviderCall).
                      (1 ≤ units_needed)
                      × IsReserved limits kind units_needed fresh now calls ledger
                      × IsWithin limits kind day_start month_start ledger in
                    subst Granted (cc written) (
                      ground (arith, some_units),
                      new_call-IsReserved limits kind units_needed fresh now calls,
                      within limits kind units_needed day_start month_start fresh now calls
                          (room kind (state limits day_start month_start calls) units_needed free),
                    )
              ]
      ]
    ]

-- A row whose units are as reserved is charged no more by a closing that charges at most that.
abbrev pub Charged : ℕ → ℕ → List ProviderCall → Type 0
Charged call_id units =
    All (λ (call : ProviderCall). (call.id == call_id) ≡ true → call.units_charged ≡ units)

close_units :
    (call_id units : ℕ) (closing : Closing) (provider : Text) (since : ℕ)
    (calls : List ProviderCall)
    → closing.units_charged ≤ units
    → Charged call_id units calls
    → total (λ (c : ProviderCall). c.units_charged) provider since (close call_id closing calls)
      ≤ total (λ (c : ProviderCall). c.units_charged) provider since calls
unfolding total
close_units call_id units closing provider since [] least h = omega arith
close_units call_id units closing provider since (call ∷ calls) least h =
    let rest = close_units call_id units closing provider since calls least h.1 in
    elim (Bool-cases (call.id == call_id)) [
      | inr other ↦ rw (other, close_row, total, close, map) (omega (arith, rest))
      | inl own ↦
          let charged = h.0 own in
          elim (Bool-cases (is_counted provider since call)) [
            | inl counted ↦
                rw (own, close_row, total, close, map)
                  (ground (arith, rest, charged, least, counted))
            | inr outside ↦ rw (own, close_row, total, close, map) (ground (arith, rest, outside))
          ]
    ]

charge_bound :
    (units : ℕ) (reported : Option ℕ)
    → 1 ≤ units
    → or_zero reported ≤ units
    → charge units reported ≤ units
charge_bound units none least h = omega arith
charge_bound units (some n) least h = ground (arith, least, h)

refund_bound : (units : ℕ) (refund : Bool) → (if refund then 0 else units) ≤ units
refund_bound units true = omega arith
refund_bound units false = omega arith

-- A reservation of at least one unit that is closed, by a success for which the provider reports no
-- more than was reserved, or by a failure with or without a refund, leaves no more units counted than
-- before, since whatever instant.
pub closing_spends_no_more :
    (call_id units : ℕ) (reported results : Option ℕ) (pages : ℕ) (refund : Bool) (provider : Text)
    (since : ℕ) (calls : List ProviderCall)
    → 1 ≤ units
    → or_zero reported ≤ units
    → Charged call_id units calls
    → ((usage_since provider since
          (record_success call_id units reported results pages calls)).units
        ≤ (usage_since provider since calls).units)
      × ((usage_since provider since (record_failure call_id units refund calls)).units
          ≤ (usage_since provider since calls).units)
unfolding usage_since record_success record_failure
closing_spends_no_more call_id units reported results pages refund provider since calls least h
      same =
    (
      close_units call_id units _ provider since calls (charge_bound units reported least h) same,
      close_units call_id units _ provider since calls (refund_bound units refund) same,
    )

-- A call of one unit is refused exactly when the state calls its kind exhausted.
pub refusal_for-exhausted :
    (s : ProviderBudgetState)
    → ((refusal_for ProviderCallKind.search s 1 ≡ none) ↔ (search_exhausted s ≡ false))
      × ((refusal_for ProviderCallKind.scrape s 1 ≡ none) ↔ (scrape_exhausted s ≡ false))
unfolding refusal_for
refusal_for-exhausted s = (
  (λ h. ground (arith, h), λ h. ground (arith, h)),
  (λ h. ground (arith, h), λ h. ground (arith, h)),
)

at_least_one_bound : (n : ℕ) → n ≤ at_least_one n
at_least_one_bound n = ground arith

blocks_cover : (n : ℕ) → n ≤ at_least_one ((n + 9) / 10) * 10
blocks_cover n = ground (arith, at_least_one_bound ((n + 9) / 10))

product_bound : (a b c d : ℕ) → a ≤ c → b ≤ d → a * b ≤ c * d
product_bound a b c d h k = omega (arith, mul-le-mul_left a k, mul-le-mul_left d h)

-- The credits that are estimated for a search pay for every block of ten results that it may return.
pub estimate_covers :
    (result_limit source_count : ℕ)
    → result_limit * source_count * 2
      ≤ estimate_firecrawl_search_credits result_limit source_count * 10
unfolding estimate_firecrawl_search_credits
estimate_covers result_limit source_count =
    let billed = at_least_one result_limit * at_least_one source_count in
    omega (
      arith,
      blocks_cover billed,
      product_bound result_limit source_count (at_least_one result_limit)
          (at_least_one source_count) (at_least_one_bound result_limit)
          (at_least_one_bound source_count),
    )
