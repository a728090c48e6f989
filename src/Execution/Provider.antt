-- ===== src/Execution/Provider.antt =====
-- backend/stockbrain/execution/base.py: `Trading212ExecutionProvider` over what the broker's client
-- read, with the records of backend/stockbrain/execution/models.py. `none` is a read that raised.

use stock_brain.Prelude.{
  ℕ, Bool, true, false, ◌&&◌, ◌||◌, List, [], ◌∷◌, ◌++◌, Option, none, some, Text, codes, text_eq,
  upper, leb, any, filter, length, present, if◌then◌else◌,
}
use stock_brain.Decimal.{Decimal, zero_dec, leb_dec, neg_dec}
use stock_brain.Enums.{OrderSide}
use stock_brain.Store.{TradeProposal, RequestPayload}

-- One order as the broker reports it, without its raw form and its own word for the side.
pub record BrokerOrderView : Type 0 where
  pub broker_order_id : Text
  pub broker_ticker : Option Text
  pub signed_quantity : Option Decimal
  pub filled_quantity : Option Decimal
  pub filled_value : Option Decimal
  pub status : Option Text
  pub order_type : Option Text
  pub currency : Option Text
  pub created_at : Option ℕ
  pub initiated_from : Option Text

-- `a == b`, where `a` may be `None`
abbrev pub text_is : Option Text → Text → Bool
text_is none text = false
text_is (some t) text = text_eq t text

-- `(value or "").upper()`
abbrev pub upper_or_empty : Option Text → Text
upper_or_empty none = []
upper_or_empty (some t) = upper t

abbrev pub is_filled_status : Text → Bool
is_filled_status status = text_eq status (codes "FILLED")

abbrev pub is_dead_status : Text → Bool
is_dead_status status = text_eq status (codes "CANCELLED") || text_eq status (codes "REJECTED")

-- `BrokerOrderView.placed_by_api`
abbrev pub placed_by_api : BrokerOrderView → Bool
placed_by_api order = text_is order.initiated_from (codes "API")

-- `BrokerOrderView.is_terminal`
abbrev pub order_is_terminal : BrokerOrderView → Bool
order_is_terminal order =
    let status = upper_or_empty order.status in is_filled_status status || is_dead_status status

pub record PendingOrderCount : Type 0 where
  pub pending : ℕ
  pub read_ok : Bool

-- `count_pending`
unfoldable pub count_pending : Option (List BrokerOrderView) → Text → PendingOrderCount
count_pending none broker_ticker = record { pending = 0; read_ok = false }
count_pending (some orders) broker_ticker = record {
  pending =
      length
        (filter (λ (order : BrokerOrderView). text_is order.broker_ticker broker_ticker) orders);
  read_ok = true;
}

pub record CandidateSearch : Type 0 where
  pub candidates : List BrokerOrderView
  pub pending_ok : Bool
  pub history_ok : Bool

-- `CandidateSearch.complete`
abbrev pub complete : CandidateSearch → Bool
complete search = search.pending_ok && search.history_ok

abbrev pub same_order : BrokerOrderView → BrokerOrderView → Bool
same_order a b = text_eq a.broker_order_id b.broker_order_id

-- `found[view.broker_order_id] = view`: a later row takes the place of an earlier one.
unfoldable pub store_view : BrokerOrderView → List BrokerOrderView → List BrokerOrderView
store_view view [] = view ∷ []
store_view view (other ∷ found) =
    let later = store_view view found in
    if same_order other view then view ∷ found else other ∷ later

unfoldable pub store_views : List BrokerOrderView → List BrokerOrderView → List BrokerOrderView
unfolding store_view
store_views [] found = found
store_views (view ∷ views) found = store_views views (store_view view found)

-- `found.setdefault(view.broker_order_id, view)`
unfoldable pub add_missing : List BrokerOrderView → List BrokerOrderView → List BrokerOrderView
add_missing [] found = found
add_missing (view ∷ views) found =
    add_missing views
      (if any (λ other. same_order other view) found then found else found ++ view ∷ [])

-- An order of the listing that was made between the two instants.
abbrev pub in_window : Text → ℕ → ℕ → BrokerOrderView → Bool
in_window broker_ticker since until view =
    let timely : Bool = elim view.created_at [
      | none ↦ false
      | some t ↦ leb since t && leb t until
    ] in
    text_is view.broker_ticker broker_ticker && timely

abbrev pub read_or_empty : Option (List BrokerOrderView) → List BrokerOrderView
read_or_empty none = []
read_or_empty (some orders) = orders

-- `find_candidates`, from the pending orders and the history that the client read.
unfoldable pub find_candidates :
    Option (List BrokerOrderView) → Option (List BrokerOrderView) → Text → ℕ → ℕ → CandidateSearch
unfolding store_views add_missing
find_candidates pending history broker_ticker since until = record {
  candidates =
      filter (in_window broker_ticker since until)
        (add_missing (read_or_empty history) (store_views (read_or_empty pending) []));
  pending_ok = present pending;
  history_ok = present history;
}

-- The checks of `ExecutionCommand.__post_init__`: `none` where it raises. Every proposal is a market
-- order.
unfoldable pub command_from : TradeProposal → Option RequestPayload
command_from p =
    if leb_dec p.proposed_quantity zero_dec
    then none
    else some (record {
      broker_ticker = p.broker_ticker;
      side = p.side;
      signed_quantity = elim p.side [
        | OrderSide.buy ↦ p.proposed_quantity
        | OrderSide.sell ↦ neg_dec p.proposed_quantity
      ];
    })
