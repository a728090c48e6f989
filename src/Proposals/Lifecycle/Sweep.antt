-- ===== src/Proposals/Lifecycle/Sweep.antt =====
-- backend/stockbrain/proposals/lifecycle.py: the sweep, which expires, invalidates and re-prices, with
-- `market_failure` of backend/stockbrain/proposals/evaluation.py.
use stock_brain.Prelude.{
  ℕ, zero, suc, ◌+◌, Bool, false, not, ◌&&◌, ◌||◌, List, [], ◌∷◌, Option, none, some, Text, leb,
  if◌then◌else◌, present, filter,
}
use stock_brain.Decimal.{Decimal, max_dec}
use stock_brain.Enums.{ProposalStatus, OrderSide, is_block, status_in}
use stock_brain.Proposals.StateMachine.{can_transition, active_statuses}
use stock_brain.Risk.Config.{RiskConfig}
use stock_brain.Risk.Models.{AccountState, QuoteSnapshot, FxSnapshot, RuleResult, usable}
use stock_brain.Risk.Spread.{is_ok}
use stock_brain.Risk.Factors.{reference_price_drift, fx_rate_drift}
use stock_brain.Store.{TradeProposal, BrokerInstrument, Store, find_proposal}
use stock_brain.Proposals.Lifecycle.{sweepable_statuses, expire, invalidated_store}
use stock_brain.Proposals.Lifecycle.Standing.{Thesis, find_instrument, precondition_failure}

-- `ORDER BY created_at`
unfoldable pub insert_by_age : TradeProposal → List TradeProposal → List TradeProposal
insert_by_age p [] = p ∷ []
insert_by_age p (q ∷ rows) =
    let later = insert_by_age p rows in
    if leb p.created_at q.created_at then p ∷ (q ∷ rows) else q ∷ later

unfoldable pub by_age : List TradeProposal → List TradeProposal
unfolding insert_by_age
by_age [] = []
by_age (p ∷ rows) = insert_by_age p (by_age rows)

-- One row of a sweep, as the transaction has it: retired if it fails the test.
unfoldable pub visit : (TradeProposal → Bool) → ℕ → ℕ → Store → ℕ × Store
visit fails now id store = elim (find_proposal id store) [
  | none ↦ (0, store)
  | some p ↦ if fails p then (1, invalidated_store now p store) else (0, store)
]

-- The loop over the rows that were read, with how many were retired.
unfoldable pub visit_all :
    (TradeProposal → TradeProposal → Bool) → ℕ → List TradeProposal → Store → ℕ × Store
unfolding visit
visit_all fails now [] store = (0, store)
visit_all fails now (p ∷ rows) store =
    let (n, s) = visit (fails p) now p.id store in
    let (m, t) = visit_all fails now rows s in (n + m, t)

-- What the sweep over preconditions reads.
pub record Preconditions : Type 0 where
  pub version : Text
  pub theses : List Thesis
  pub account : Option AccountState

abbrev pub fails_precondition : Preconditions → List BrokerInstrument → TradeProposal → Bool
fails_precondition known instruments p =
    present (precondition_failure known.version known.theses known.account instruments p)
    && can_transition p.status ProposalStatus.invalidated

-- The active proposals, the oldest first, without those that other transactions hold.
abbrev pub active_rows : (ℕ → Bool) → Store → List TradeProposal
active_rows locked store = by_age (
    filter (λ (p : TradeProposal). status_in p.status active_statuses && not (locked p.id))
      store.proposals)

-- `_invalidate_stale_preconditions`; `locked` are the rows that other transactions hold.
unfoldable pub invalidate_stale_preconditions : Preconditions → (ℕ → Bool) → ℕ → Store → ℕ × Store
unfolding visit_all by_age
invalidate_stale_preconditions known locked now store =
    visit_all (λ _. fails_precondition known store.instruments) now (active_rows locked store) store

-- `_price_drift` of backend/stockbrain/proposals/evaluation.py
abbrev pub price_drift : RiskConfig → TradeProposal → Option Decimal → RuleResult
price_drift config p mid =
    let limit : Decimal = elim p.side [
      | OrderSide.sell ↦
          max_dec config.max_reference_price_drift_pct config.max_exit_price_drift_pct
      | OrderSide.buy ↦ config.max_reference_price_drift_pct
    ] in
    reference_price_drift p.reference_price mid limit

abbrev pub rate_moved : Decimal → TradeProposal → Option FxSnapshot → Bool
rate_moved max_rate_drift p none = false
rate_moved max_rate_drift p (some fx) =
    p.fx_required
    && (usable fx && is_block (fx_rate_drift p.fx_rate (some fx) max_rate_drift).outcome)

-- `market_failure`: whether the market has moved out from under the proposal.
unfoldable pub market_failure :
    RiskConfig → Decimal → TradeProposal → Option QuoteSnapshot → Option FxSnapshot → Bool
market_failure config max_rate_drift p quote fx =
    let quoted : Bool = elim quote [
      | none ↦ false
      | some q ↦ not (is_ok q.spread) || is_block (price_drift config p q.mid).outcome
    ] in
    rate_moved max_rate_drift p fx || quoted

unfoldable pub take : ℕ → List TradeProposal → List TradeProposal
take zero rows = []
take (suc n) [] = []
take (suc n) (p ∷ rows) = p ∷ take n rows

-- What a pass over the market reads of a listing, where the proposal has one.
pub record Market : Type 0 where
  pub config : RiskConfig
  pub max_rate_drift : Decimal
  pub quote : BrokerInstrument → Option QuoteSnapshot
  pub fx : BrokerInstrument → Option FxSnapshot

abbrev pub fails_market : Market → List BrokerInstrument → TradeProposal → TradeProposal → Bool
fails_market market instruments p locked =
    elim (find_instrument p.broker_instrument_id instruments) [
      | none ↦ false
      | some instrument ↦
          let fx : Option FxSnapshot = if p.fx_required then market.fx instrument else none in
          market_failure market.config market.max_rate_drift p (market.quote instrument) fx
          && status_in locked.status sweepable_statuses
    ]

-- The oldest proposals that may still be retired.
abbrev pub oldest_rows : ℕ → Store → List TradeProposal
oldest_rows limit store =
    take limit (
      by_age
        (filter (λ (p : TradeProposal). status_in p.status sweepable_statuses) store.proposals))

-- `_revalidate_market`, of at most `limit` proposals.
unfoldable pub revalidate_market : Market → ℕ → ℕ → Store → ℕ × Store
unfolding visit_all by_age take
revalidate_market market limit now store =
    visit_all (fails_market market store.instruments) now (oldest_rows limit store) store

-- `sweep`: the counts of expired, invalidated and repriced proposals.
unfoldable pub sweep : Preconditions → Market → ℕ → (ℕ → Bool) → ℕ → Store → ℕ × ℕ × ℕ × Store
unfolding expire invalidate_stale_preconditions revalidate_market
sweep known market limit locked now store =
    let (expired, s) = expire now store in
    let (invalidated, t) = invalidate_stale_preconditions known locked now s in
    let (repriced, u) = revalidate_market market limit now t in (expired, invalidated, repriced, u)
