-- ===== src/Risk/Sizing/Sound.antt =====
-- The sizes that `size_trade` of backend/stockbrain/risk/sizing.py gives.
use stock_brain.Prelude.{
  ◌≡◌, true, false, Option, none, some, arith, inl, inr, Bool-cases, Option-cases, value_or,
}
use stock_brain.Decimal.{Decimal, zero_dec, mul_dec, leb_dec}
use stock_brain.Enums.{ThesisAction, OrderSide}
use stock_brain.Risk.Config.{RiskConfig}
use stock_brain.Risk.Models.{
  AccountState, InstrumentIdentity, FxSnapshot, SizingResult, to_account_currency,
  to_instrument_currency, conversion_required, usable, direction,
}
use stock_brain.Risk.Gates.{action_side}
use stock_brain.Risk.Sizing.{
  round_quantity, Currencies, size_buy, sell_quantity, sell_result, size_available, available_for,
  size_sell, SizingRequest, size_side, size_converted, size_quoted, size_trade, two_prices,
  currencies_of, snapshot_of, marketable,
}
use stock_brain.Risk.Sizing.Bought.{IsBought, size_trade-IsBought}
use stock_brain.Risk.Sizing.Bounds.{Each, IsSound, nothing-IsSound, size_buy_converted-IsSound}

size_buy-IsSound :
    (config : RiskConfig) (identity : InstrumentIdentity) (codes : Currencies) (fx : FxSnapshot)
    (price max_notional size_factor : Decimal)
    → Each (IsSound config) (size_buy config identity codes fx price max_notional size_factor)
unfolding size_buy
size_buy-IsSound config identity codes fx price max_notional size_factor =
    elim (Bool-cases (leb_dec max_notional zero_dec)) [
      | inl empty ↦ rw (empty, Each) (nothing-IsSound config _ codes zero_dec (some price))
      | inr positive ↦
          rw (positive, Each)
            (elim (Option-cases (to_instrument_currency fx max_notional)) [
              | inl raised ↦ rw (raised, Each) tt
              | inr (cap_instrument, e) ↦
                  rw (e, Each)
                    (size_buy_converted-IsSound config identity codes fx price max_notional
                      size_factor cap_instrument)
            ])
    ]

sold-IsSound :
    (config : RiskConfig) (codes : Currencies)
    (price max_quantity max_instrument max_account quantity account_notional : Decimal)
    → leb_dec quantity zero_dec ≡ false
    → IsSound config (
        sell_result codes price max_quantity max_instrument max_account quantity true
          account_notional)
unfolding sell_result
sold-IsSound config codes price max_quantity max_instrument max_account quantity account_notional
      positive =
    ground arith

unsold-IsSound :
    (config : RiskConfig) (codes : Currencies)
    (price max_quantity max_instrument max_account : Decimal)
    → IsSound config
        (sell_result codes price max_quantity max_instrument max_account zero_dec false zero_dec)
unfolding sell_result
unsold-IsSound config codes price max_quantity max_instrument max_account = ground arith

size_available-IsSound :
    (action : ThesisAction) (config : RiskConfig) (identity : InstrumentIdentity)
    (codes : Currencies) (fx : FxSnapshot) (reduce_fraction : Option Decimal)
    (price available : Decimal)
    → Each
        (IsSound config)
        (size_available action config identity codes fx reduce_fraction price available)
unfolding size_available
size_available-IsSound action config identity codes fx reduce_fraction price available =
    let quantity = sell_quantity action config identity reduce_fraction available in
    let max_quantity = round_quantity available config identity in
    elim (Option-cases (to_account_currency fx (mul_dec max_quantity price))) [
      | inl raised ↦ rw (raised, Each) tt
      | inr (max_account, e) ↦
          rw (e, Each)
            (elim (Bool-cases (leb_dec quantity zero_dec)) [
              | inl empty ↦
                  rw (empty, Each) (unsold-IsSound config codes price max_quantity _ max_account)
              | inr positive ↦
                  rw (positive, Each)
                    (elim (Option-cases (to_account_currency fx (mul_dec quantity price))) [
                      | inl raised ↦ rw (raised, Each) tt
                      | inr (account_notional, f) ↦
                          rw (f, Each)
                            (sold-IsSound config codes price max_quantity _ max_account quantity
                              account_notional positive)
                    ])
            ])
    ]

size_sell-IsSound :
    (action : ThesisAction) (config : RiskConfig) (identity : InstrumentIdentity)
    (account : Option AccountState) (codes : Currencies) (fx : FxSnapshot)
    (reduce_fraction : Option Decimal) (price : Decimal)
    → Each
        (IsSound config)
        (size_sell action config identity account codes fx reduce_fraction price)
unfolding size_sell
size_sell-IsSound action config identity account codes fx reduce_fraction price =
    let available = available_for account identity in
    elim (Bool-cases (leb_dec available zero_dec)) [
      | inl empty ↦ rw (empty, Each) (nothing-IsSound config _ codes zero_dec (some price))
      | inr positive ↦
          rw (positive, Each)
            (size_available-IsSound action config identity codes fx reduce_fraction price available)
    ]

value_or-IsSound :
    (config : RiskConfig) (o : Option SizingResult) (s : SizingResult)
    → Each (IsSound config) o
    → IsSound config s
    → IsSound config (value_or o s)
value_or-IsSound config none s h k = k
value_or-IsSound config (some t) s h k = h

size_side-IsSound :
    (r : SizingRequest) (side : OrderSide) (price : Decimal)
    → IsSound r.config (size_side r side price)
unfolding size_side
size_side-IsSound r OrderSide.buy price =
    value_or-IsSound r.config _ _
      (size_buy-IsSound r.config r.identity (currencies_of r) (snapshot_of r) price r.max_notional
        r.size_factor)
      (nothing-IsSound r.config _ _ _ _)
size_side-IsSound r OrderSide.sell price =
    value_or-IsSound r.config _ _
      (size_sell-IsSound r.action r.config r.identity r.account (currencies_of r) (snapshot_of r)
        r.reduce_fraction price)
      (nothing-IsSound r.config _ _ _ _)

size_converted-IsSound :
    (r : SizingRequest) (side : OrderSide) (price : Decimal)
    → Each (IsSound r.config) (size_converted r side price)
unfolding size_converted
size_converted-IsSound r side price =
    let fx = snapshot_of r in
    let sized = size_side-IsSound r side price in
    elim (Bool-cases (conversion_required fx)) [
      | inr same ↦ rw (same, Each) sized
      | inl other ↦
          rw (other, Each)
            (elim (Bool-cases (usable fx)) [
              | inr refused ↦ rw (refused, Each) (nothing-IsSound r.config _ _ _ _)
              | inl ok ↦
                  rw (ok, Each)
                    (elim (Option-cases (direction fx)) [
                      | inl raised ↦ rw (raised, Each) tt
                      | inr (d, e) ↦ rw (e, Each) sized
                    ])
            ])
    ]

size_quoted-IsSound :
    (r : SizingRequest) (side : OrderSide) (bid ask : Decimal)
    → Each (IsSound r.config) (size_quoted r side bid ask)
unfolding size_quoted
size_quoted-IsSound r side bid ask =
    elim (Bool-cases (leb_dec (marketable side bid ask) zero_dec)) [
      | inl worthless ↦ rw (worthless, Each) (nothing-IsSound r.config _ _ _ _)
      | inr positive ↦ rw (positive, Each) (size_converted-IsSound r side (marketable side bid ask))
    ]

size_trade-Each : (r : SizingRequest) → Each (IsSound r.config) (size_trade r)
unfolding size_trade
size_trade-Each r = elim (Option-cases (action_side r.action)) [
  | inl advisory ↦ rw (advisory, Each) (nothing-IsSound r.config _ _ _ _)
  | inr (side, e) ↦
      rw (e, Each)
        (elim (Option-cases (two_prices r.quote)) [
          | inl unpriced ↦ rw (unpriced, Each) (nothing-IsSound r.config _ _ _ _)
          | inr ((bid, ask), f) ↦ rw (f, Each) (size_quoted-IsSound r side bid ask)
        ])
]

-- Every size that is computed: an executable one has a side and a positive quantity, a refused size
-- has a quantity of zero, and an executable buy reaches the least trade. Its quantity, at the ask of
-- the quote, stays within what the converted limit of the request pays for, and within what that
-- limit pays for once the size factor reduces it; its value in the account's currency is the converted
-- price of that quantity.
pub size_trade-IsSound :
    (r : SizingRequest) (s : SizingResult)
    → size_trade r ≡ some s
    → IsSound r.config s × (r.action ≡ ThesisAction.buy → s.executable ≡ true → IsBought r s)
size_trade-IsSound r s h =
    let sound = size_trade-Each r in ((rw (h, Each) at sound), size_trade-IsBought r s h)
