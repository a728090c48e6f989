-- ===== src/Ingestion/Budget/Tests.antt =====
-- The theorems on the budget at a ledger with one finished call and one under way.
use stock_brain.Prelude.{
  ◌≤◌, ◌≡◌, ◌↔◌, refl, true, false, List, [], ◌∷◌, none, some, codes, text_eq, arith,
}
use stock_brain.Ingestion.Budget.{
  ProviderCall, ProviderCallKind, ProviderCallOutcome, Limits, ProviderBudgetState, reserve,
  refusal_for, usage_since, total, new_call, record_success, record_failure, state,
  search_exhausted, scrape_exhausted,
}
use stock_brain.Ingestion.Budget.Caps.{
  IsWithin, IsReserved, reserve-IsWithin, closing_spends_no_more, refusal_for-exhausted,
}

abbrev limits : Limits
limits = record {
  provider = codes "brave";
  enabled = true;
  max_searches_per_day = 3;
  max_scrapes_per_day = 0;
  daily_unit_cap = 5;
  monthly_unit_cap = 40;
}

abbrev finished : ProviderCall
finished = record {
  id = 1;
  provider = codes "brave";
  kind = ProviderCallKind.search;
  outcome = ProviderCallOutcome.succeeded;
  reserved_at = 110;
  units_reserved = 2;
  units_reported = some 1;
  units_charged = 1;
  results_returned = some 8;
  pages_scraped = 0;
}

abbrev calls : List ProviderCall
calls = new_call (codes "brave") ProviderCallKind.search 2 2 120 ∷ finished ∷ []

reserve-IsWithin_example :
    (1 ≤ 2)
    × IsReserved limits ProviderCallKind.search 2 3 130 calls
        (new_call (codes "brave") ProviderCallKind.search 2 3 130 ∷ calls)
    × IsWithin limits ProviderCallKind.search 100 50
        (new_call (codes "brave") ProviderCallKind.search 2 3 130 ∷ calls)
unfolding reserve refusal_for usage_since total text_eq
reserve-IsWithin_example =
    reserve-IsWithin limits ProviderCallKind.search 2 100 50 3 130 calls
      (new_call (codes "brave") ProviderCallKind.search 2 3 130 ∷ calls) refl

closing_spends_no_more_example :
    ((usage_since (codes "brave") 100 (record_success 2 2 (some 1) (some 4) 0 calls)).units
      ≤ (usage_since (codes "brave") 100 calls).units)
    × ((usage_since (codes "brave") 100 (record_failure 2 2 true calls)).units
        ≤ (usage_since (codes "brave") 100 calls).units)
closing_spends_no_more_example =
    closing_spends_no_more 2 2 (some 1) (some 4) 0 true (codes "brave") 100 calls (omega arith)
      (omega arith) ((λ e. refl), ((λ e. absurd (ground (arith, e))), tt))

abbrev budget : ProviderBudgetState
budget = state limits 100 50 calls

refusal_for-exhausted_example :
    ((refusal_for ProviderCallKind.search budget 1 ≡ none) ↔ (search_exhausted budget ≡ false))
    × ((refusal_for ProviderCallKind.scrape budget 1 ≡ none) ↔ (scrape_exhausted budget ≡ false))
refusal_for-exhausted_example = refusal_for-exhausted budget
