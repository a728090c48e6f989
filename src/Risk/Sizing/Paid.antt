-- ===== src/Risk/Sizing/Paid.antt =====
-- What an executable buy costs, by the rate, the price and the limit of its request.
use stock_brain.Prelude.{◌≡◌, true, false, Option, some, arith, inl, inr, Bool-cases, Option-cases}
use stock_brain.Decimal.{Decimal, zero_dec, mul_dec, div_dec, leb_dec, ltb_dec}
use stock_brain.Decimal.Order.{◌≤D◌, ◌<D◌, ≤D_refl, ≤D_trans, ≤D_total}
use stock_brain.Enums.{OrderSide}
use stock_brain.Risk.Config.{RiskConfig}
use stock_brain.Risk.Models.{
  InstrumentIdentity, FxSnapshot, SizingResult, to_account_currency, to_instrument_currency,
}
use stock_brain.Risk.Sizing.{
  round_quantity, Currencies, nothing, BuyNumbers, buy_result, buy_quantity, finish_buy,
  size_buy_converted, size_buy,
}
use stock_brain.Risk.Sizing.Bounds.{Each, round_quantity_bounds, buy_quantity_le}

-- A quantity that a limit in the account's currency pays for, at a rate, a price and a factor, and
-- that the result values.
pub record IsPaid (fx : FxSnapshot) (price max_notional size_factor : Decimal) (s : SizingResult)
    : Type 0 where
  pub limited : zero_dec <D max_notional
  pub cap_instrument : Decimal
  pub converted : to_instrument_currency fx max_notional ≡ some cap_instrument
  pub within_cap : s.quantity ≤D div_dec cap_instrument price
  pub within_reduced : s.quantity ≤D div_dec (mul_dec cap_instrument size_factor) price
  pub valued : to_account_currency fx (mul_dec s.quantity price) ≡ some s.notional_account_currency

-- The same of a result that may be sent.
abbrev pub Pays : FxSnapshot → Decimal → Decimal → Decimal → SizingResult → Type 0
Pays fx price max_notional size_factor s =
    s.executable ≡ true → IsPaid fx price max_notional size_factor s

-- A positive quantity under a rounded one is under the number that was rounded.
round_under :
    (quantity raw : Decimal) (config : RiskConfig) (identity : InstrumentIdentity)
    → leb_dec quantity zero_dec ≡ false
    → quantity ≤D round_quantity raw config identity
    → quantity ≤D raw
unfolding round_quantity
round_under quantity raw config identity positive h =
    elim (round_quantity_bounds raw config identity).1 [
      | inl under ↦ ≤D_trans quantity _ raw h under
      | inr low ↦
          let empty : quantity ≤D zero_dec = (rw low at h) in
          absurd (ground (arith, positive, empty))
    ]

buy_quantity_reduced :
    (config : RiskConfig) (identity : InstrumentIdentity) (price max_quantity target : Decimal)
    → buy_quantity config identity price max_quantity target
      ≤D round_quantity (div_dec target price) config identity
unfolding buy_quantity
buy_quantity_reduced config identity price max_quantity target =
    let quantity = round_quantity (div_dec target price) config identity in
    elim (Bool-cases (leb_dec quantity max_quantity)) [
      | inl within ↦ rw within (≤D_refl quantity)
      | inr above ↦ rw above (ground (arith, above, ≤D_total max_quantity quantity))
    ]

finish_buy-Pays :
    (config : RiskConfig) (codes : Currencies) (fx : FxSnapshot) (n : BuyNumbers)
    (price max_notional size_factor cap_instrument quantity target target_account : Decimal)
    → zero_dec <D max_notional
    → to_instrument_currency fx max_notional ≡ some cap_instrument
    → (leb_dec quantity zero_dec ≡ false
        → (quantity ≤D div_dec cap_instrument price)
          × (quantity ≤D div_dec (mul_dec cap_instrument size_factor) price))
    → to_account_currency fx (mul_dec quantity price) ≡ some n.notional_account
    → Pays fx price max_notional size_factor
        (finish_buy config codes n quantity target target_account)
unfolding finish_buy buy_result
finish_buy-Pays config codes fx n price max_notional size_factor cap_instrument quantity target
      target_account limited cap within value =
    elim (Bool-cases (leb_dec quantity zero_dec)) [
      | inl empty ↦ rw empty (λ ok. absurd (ground (arith, ok)))
      | inr positive ↦ elim (Bool-cases (ltb_dec n.notional_account config.min_trade_notional)) [
        | inl little ↦ rw (positive, little) (λ ok. absurd (ground (arith, ok)))
        | inr enough ↦
            rw (positive, enough)
              (λ _. record {
                limited = limited;
                cap_instrument = cap_instrument;
                converted = cap;
                within_cap = (within positive).0;
                within_reduced = (within positive).1;
                valued = value;
              })
      ]
    ]

size_buy_converted-Pays :
    (config : RiskConfig) (identity : InstrumentIdentity) (codes : Currencies) (fx : FxSnapshot)
    (price max_notional size_factor cap_instrument : Decimal)
    → zero_dec <D max_notional
    → to_instrument_currency fx max_notional ≡ some cap_instrument
    → Each
        (Pays fx price max_notional size_factor)
        (size_buy_converted config identity codes fx price max_notional size_factor cap_instrument)
unfolding size_buy_converted
size_buy_converted-Pays config identity codes fx price max_notional size_factor cap_instrument
      limited cap =
    let max_quantity = round_quantity (div_dec cap_instrument price) config identity in
    let target = mul_dec cap_instrument size_factor in
    let quantity = buy_quantity config identity price max_quantity target in
    let capped = buy_quantity_le config identity price max_quantity target in
    let reduced = buy_quantity_reduced config identity price max_quantity target in
    let within : leb_dec quantity zero_dec ≡ false
        → (quantity ≤D div_dec cap_instrument price) × (quantity ≤D div_dec target price) =
      λ positive. (
        round_under quantity (div_dec cap_instrument price) config identity positive capped,
        round_under quantity (div_dec target price) config identity positive reduced,
      ) in
    elim (Option-cases (to_account_currency fx (mul_dec quantity price))) [
      | inl raised ↦ rw (raised, Each) tt
      | inr (amount, e) ↦
          rw (e, Each)
            (elim (Bool-cases (leb_dec quantity zero_dec)) [
              | inr positive ↦
                  rw (positive, Each)
                    (finish_buy-Pays config codes fx _ price max_notional size_factor cap_instrument
                      quantity target zero_dec limited cap within e)
              | inl empty ↦
                  rw (empty, Each)
                    (elim (Option-cases (to_account_currency fx target)) [
                      | inl raised ↦ rw (raised, Each) tt
                      | inr (account, f) ↦
                          rw (f, Each)
                            (finish_buy-Pays config codes fx _ price max_notional size_factor
                              cap_instrument quantity target account limited cap within e)
                    ])
            ])
    ]

pub nothing-Pays :
    (fx : FxSnapshot) (price max_notional size_factor : Decimal) (side : Option OrderSide)
    (codes : Currencies) (limit : Decimal) (reference : Option Decimal)
    → Pays fx price max_notional size_factor (nothing side codes limit reference)
unfolding nothing
nothing-Pays fx price max_notional size_factor side codes limit reference ok =
    absurd (ground (arith, ok))

pub size_buy-Pays :
    (config : RiskConfig) (identity : InstrumentIdentity) (codes : Currencies) (fx : FxSnapshot)
    (price max_notional size_factor : Decimal)
    → Each
        (Pays fx price max_notional size_factor)
        (size_buy config identity codes fx price max_notional size_factor)
unfolding size_buy
size_buy-Pays config identity codes fx price max_notional size_factor =
    elim (Bool-cases (leb_dec max_notional zero_dec)) [
      | inl empty ↦ rw (empty, Each) (nothing-Pays fx price max_notional size_factor _ codes _ _)
      | inr positive ↦
          rw (positive, Each)
            (elim (Option-cases (to_instrument_currency fx max_notional)) [
              | inl raised ↦ rw (raised, Each) tt
              | inr (cap_instrument, e) ↦
                  rw (e, Each)
                    (size_buy_converted-Pays config identity codes fx price max_notional size_factor
                      cap_instrument (ground (arith, positive)) e)
            ])
    ]
