-- ===== src/Proposals/Lifecycle/Standing.antt =====
-- backend/stockbrain/proposals/lifecycle.py: `_precondition_failure`, why a proposal no longer stands.
use stock_brain.Prelude.{
  ℕ, Bool, true, false, not, ◌&&◌, List, Option, none, some, Text, text_eq, ◌==◌, if◌then◌else◌,
  any,
}
use stock_brain.Decimal.{ltb_dec}
use stock_brain.Enums.{OrderSide}
use stock_brain.Tables.{find_row}
use stock_brain.Risk.Models.{AccountState, position}
use stock_brain.Risk.Gates.{available_quantity}
use stock_brain.Store.{TradeProposal, BrokerInstrument, instrument_key}

-- The rows of theses that a supersession is read from.
pub record Thesis : Type 0 where
  pub supersedes_thesis_id : Option ℕ
  pub run_succeeded : Bool

abbrev pub supersedes : ℕ → Thesis → Bool
supersedes thesis_id thesis =
    let named : Bool = elim thesis.supersedes_thesis_id [
      | none ↦ false
      | some id ↦ id == thesis_id
    ] in
    named && thesis.run_succeeded

-- `thesis_is_superseded`
abbrev pub thesis_is_superseded : List Thesis → ℕ → Bool
thesis_is_superseded theses thesis_id = any (supersedes thesis_id) theses

-- Why a proposal no longer stands.
pub data Failure : Type 0 where
  policy_changed listing_gone listing_inactive listing_changed company_changed : Failure
  superseded position_short : Failure

abbrev pub first_of : Bool → Failure → Option Failure → Option Failure
first_of test failure rest = if test then some failure else rest

abbrev pub other_policy : Text → TradeProposal → Bool
other_policy version p = elim p.risk_policy_version [
  | none ↦ false
  | some v ↦ not (text_eq v version)
]

abbrev pub other_company : BrokerInstrument → TradeProposal → Bool
other_company instrument p = elim p.company_id [
  | none ↦ false
  | some company ↦ elim instrument.company_id [ none ↦ true | some id ↦ not (id == company) ]
]

abbrev pub buy_superseded : List Thesis → TradeProposal → Bool
buy_superseded theses p = elim p.side [
  | OrderSide.buy ↦ elim p.thesis_id [ none ↦ false | some id ↦ thesis_is_superseded theses id ]
  | OrderSide.sell ↦ false
]

abbrev pub sale_short : Option AccountState → TradeProposal → Bool
sale_short account p = elim p.side [
  | OrderSide.buy ↦ false
  | OrderSide.sell ↦ elim account [
    | none ↦ false
    | some a ↦ ltb_dec (available_quantity (position a p.broker_ticker)) p.proposed_quantity
  ]
]

abbrev pub find_instrument : Option ℕ → List BrokerInstrument → Option BrokerInstrument
find_instrument none instruments = none
find_instrument (some id) instruments = find_row instrument_key id instruments

-- `_precondition_failure`
unfoldable pub precondition_failure :
    Text
    → List Thesis
    → Option AccountState
    → List BrokerInstrument
    → TradeProposal
    → Option Failure
precondition_failure version theses account instruments p =
    first_of (other_policy version p) Failure.policy_changed
      (elim (find_instrument p.broker_instrument_id instruments) [
        | none ↦ some Failure.listing_gone
        | some instrument ↦ first_of (not instrument.is_active) Failure.listing_inactive (
            first_of (not (text_eq instrument.broker_ticker p.broker_ticker))
              Failure.listing_changed
              (first_of (other_company instrument p) Failure.company_changed (
                first_of (buy_superseded theses p) Failure.superseded
                  (first_of (sale_short account p) Failure.position_short none))))
      ])
