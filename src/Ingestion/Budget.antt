-- ===== src/Ingestion/Budget.antt =====
-- backend/stockbrain/ingestion/provider_budget.py: the ledger of paid calls and the caps on it. The lock
-- makes a reservation one step on the rows; the starts of the day and the month are arguments, since the
-- database computes them, and so is the instant that it stamps. Prices in dollars are left out.
pub mod Caps
mod Tests
use stock_brain.Prelude.{
  ℕ, suc, ◌+◌, ◌*◌, ◌-◌, ◌/◌, Bool, true, false, ◌&&◌, ◌||◌, not, List, [], ◌∷◌, ◌++◌, Option, none,
  some, Text, text_eq, leb, ltb, ◌==◌, if◌then◌else◌, filter, length, map, non_empty,
}

pub data ProviderCallKind : Type 0 where
  search scrape : ProviderCallKind

abbrev pub is_search : ProviderCallKind → Bool
is_search ProviderCallKind.search = true
is_search ProviderCallKind.scrape = false

pub data ProviderCallOutcome : Type 0 where
  reserved succeeded failed : ProviderCallOutcome

pub data BudgetRefusal : Type 0 where
  disabled search_limit scrape_limit daily_units monthly_units : BudgetRefusal

abbrev pub at_least_one : ℕ → ℕ
at_least_one n = if leb 1 n then n else 1

-- `estimate_firecrawl_search_credits`: `math.ceil(n / 10)` on natural numbers
unfoldable pub estimate_firecrawl_search_credits : ℕ → ℕ → ℕ
estimate_firecrawl_search_credits result_limit source_count =
    let billed_results = at_least_one result_limit * at_least_one source_count in
    at_least_one ((billed_results + 9) / 10) * 2

-- `estimate_firecrawl_scrape_credits`
abbrev pub estimate_firecrawl_scrape_credits : ℕ → ℕ
estimate_firecrawl_scrape_credits pages = at_least_one pages

-- A row of the ledger: `ProviderCall`
pub record ProviderCall : Type 0 where
  pub id : ℕ
  pub provider : Text
  pub kind : ProviderCallKind
  pub outcome : ProviderCallOutcome
  pub reserved_at : ℕ
  pub units_reserved : ℕ
  pub units_reported : Option ℕ
  pub units_charged : ℕ
  pub results_returned : Option ℕ
  pub pages_scraped : ℕ

pub record ProviderUsage : Type 0 where
  pub searches : ℕ
  pub scrapes : ℕ
  pub units : ℕ
  pub reported_units : ℕ
  pub results_returned : ℕ
  pub pages_scraped : ℕ

abbrev pub or_zero : Option ℕ → ℕ
or_zero none = 0
or_zero (some n) = n

-- `ProviderCall.provider == provider, ProviderCall.reserved_at >= since`
abbrev pub is_counted : Text → ℕ → ProviderCall → Bool
is_counted provider since call = text_eq call.provider provider && leb since call.reserved_at

-- `sum(...)` over the rows that count
unfoldable pub total : (ProviderCall → ℕ) → Text → ℕ → List ProviderCall → ℕ
total amount provider since [] = 0
total amount provider since (call ∷ calls) =
    (if is_counted provider since call then amount call else 0) + total amount provider since calls

abbrev pub one_if : Bool → ℕ
one_if test = if test then 1 else 0

-- `_usage_since`
unfoldable pub usage_since : Text → ℕ → List ProviderCall → ProviderUsage
unfolding total
usage_since provider since calls = record {
  searches = total (λ (call : ProviderCall). one_if (is_search call.kind)) provider since calls;
  scrapes =
      total (λ (call : ProviderCall). one_if (not (is_search call.kind))) provider since calls;
  units = total (λ (call : ProviderCall). call.units_charged) provider since calls;
  reported_units =
      total (λ (call : ProviderCall). or_zero call.units_reported) provider since calls;
  results_returned =
      total (λ (call : ProviderCall). or_zero call.results_returned) provider since calls;
  pages_scraped = total (λ (call : ProviderCall). call.pages_scraped) provider since calls;
}

-- The limits of a provider's budget: the arguments of `ProviderCallBudget`
pub record Limits : Type 0 where
  pub provider : Text
  pub enabled : Bool
  pub max_searches_per_day : ℕ
  pub max_scrapes_per_day : ℕ
  pub daily_unit_cap : ℕ
  pub monthly_unit_cap : ℕ

pub record ProviderBudgetState : Type 0 where
  pub limits : Limits
  pub today : ProviderUsage
  pub month : ProviderUsage

-- `state_in_session`
abbrev pub state : Limits → ℕ → ℕ → List ProviderCall → ProviderBudgetState
state limits day_start month_start calls = record {
  limits = limits;
  today = usage_since limits.provider day_start calls;
  month = usage_since limits.provider month_start calls;
}

-- `exhausted`: whether a cap is at its limit; a limit of zero on calls is not listed.
abbrev pub exhausted : ProviderBudgetState → Bool
exhausted s =
    (leb 1 s.limits.max_searches_per_day && leb s.limits.max_searches_per_day s.today.searches)
    || ((leb 1 s.limits.max_scrapes_per_day && leb s.limits.max_scrapes_per_day s.today.scrapes)
        || (leb s.limits.daily_unit_cap s.today.units
            || leb s.limits.monthly_unit_cap s.month.units))

-- `searches_remaining` and the like; the subtraction of natural numbers stops at zero.
abbrev pub searches_remaining : ProviderBudgetState → ℕ
searches_remaining s = s.limits.max_searches_per_day - s.today.searches

abbrev pub scrapes_remaining : ProviderBudgetState → ℕ
scrapes_remaining s = s.limits.max_scrapes_per_day - s.today.scrapes

abbrev pub daily_units_remaining : ProviderBudgetState → ℕ
daily_units_remaining s = s.limits.daily_unit_cap - s.today.units

abbrev pub monthly_units_remaining : ProviderBudgetState → ℕ
monthly_units_remaining s = s.limits.monthly_unit_cap - s.month.units

-- `search_exhausted` and `scrape_exhausted`
abbrev pub search_exhausted : ProviderBudgetState → Bool
search_exhausted s =
    leb (searches_remaining s) 0
    || (leb (daily_units_remaining s) 0 || leb (monthly_units_remaining s) 0)

abbrev pub scrape_exhausted : ProviderBudgetState → Bool
scrape_exhausted s =
    leb (scrapes_remaining s) 0
    || (leb (daily_units_remaining s) 0 || leb (monthly_units_remaining s) 0)

-- `_refusal_for`
unfoldable pub refusal_for : ProviderCallKind → ProviderBudgetState → ℕ → Option BudgetRefusal
refusal_for kind s units_needed =
    if is_search kind && ltb s.limits.max_searches_per_day (s.today.searches + 1)
    then some BudgetRefusal.search_limit
    else if not (is_search kind) && ltb s.limits.max_scrapes_per_day (s.today.scrapes + 1)
    then some BudgetRefusal.scrape_limit
    else if ltb s.limits.daily_unit_cap (s.today.units + units_needed)
    then some BudgetRefusal.daily_units
    else if ltb s.limits.monthly_unit_cap (s.month.units + units_needed)
    then some BudgetRefusal.monthly_units
    else none

-- The answer of `reserve`; `raised` is its `ValueError`.
pub data Reservation : Type 0 where
  refused : BudgetRefusal → Reservation
  raised : Reservation
  granted : List ProviderCall → Reservation

abbrev pub new_call : Text → ProviderCallKind → ℕ → ℕ → ℕ → ProviderCall
new_call provider kind units_needed fresh now = record {
  id = fresh;
  provider = provider;
  kind = kind;
  outcome = ProviderCallOutcome.reserved;
  reserved_at = now;
  units_reserved = units_needed;
  units_reported = none;
  units_charged = units_needed;
  results_returned = none;
  pages_scraped = 0;
}

-- `reserve`: the row gets the identifier `fresh` and is stamped `now`.
unfoldable pub reserve :
    Limits → ProviderCallKind → ℕ → ℕ → ℕ → ℕ → ℕ → List ProviderCall → Reservation
unfolding refusal_for usage_since
reserve limits kind units_needed day_start month_start fresh now calls =
    if not limits.enabled
    then Reservation.refused BudgetRefusal.disabled
    else if leb units_needed 0
    then Reservation.raised
    else elim (refusal_for kind (state limits day_start month_start calls) units_needed) [
      | some refusal ↦ Reservation.refused refusal
      | none ↦ Reservation.granted (new_call limits.provider kind units_needed fresh now ∷ calls)
    ]

-- `_close`: the update of the row with the identifier.
pub record Closing : Type 0 where
  pub outcome : ProviderCallOutcome
  pub units_reported : Option ℕ
  pub units_charged : ℕ
  pub results_returned : Option ℕ
  pub pages_scraped : ℕ

abbrev pub close_row : ℕ → Closing → ProviderCall → ProviderCall
close_row call_id closing call =
    if call.id == call_id
    then record call {
      outcome = closing.outcome;
      units_reported = closing.units_reported;
      units_charged = closing.units_charged;
      results_returned = closing.results_returned;
      pages_scraped = closing.pages_scraped;
    }
    else call

abbrev pub close : ℕ → Closing → List ProviderCall → List ProviderCall
close call_id closing calls = map (close_row call_id closing) calls

abbrev pub charge : ℕ → Option ℕ → ℕ
charge units_reserved none = units_reserved
charge units_reserved (some n) = at_least_one n

-- `record_success` of a reservation
unfoldable pub record_success :
    ℕ → ℕ → Option ℕ → Option ℕ → ℕ → List ProviderCall → List ProviderCall
record_success call_id units_reserved units_reported results_returned pages_scraped calls =
    close call_id
      (record {
        outcome = ProviderCallOutcome.succeeded;
        units_reported = units_reported;
        units_charged = charge units_reserved units_reported;
        results_returned = results_returned;
        pages_scraped = pages_scraped;
      })
      calls

-- `record_failure` of a reservation
unfoldable pub record_failure : ℕ → ℕ → Bool → List ProviderCall → List ProviderCall
record_failure call_id units_reserved refund calls =
    close call_id
      (record {
        outcome = ProviderCallOutcome.failed;
        units_reported = none;
        units_charged = if refund then 0 else units_reserved;
        results_returned = none;
        pages_scraped = 0;
      })
      calls
