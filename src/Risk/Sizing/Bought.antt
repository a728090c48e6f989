-- ===== src/Risk/Sizing/Bought.antt =====
-- What `size_trade` says of an executable buy, down from the quote of its request.
use stock_brain.Prelude.{
  ◌≡◌, refl, true, Option, none, some, arith, inl, inr, Bool-cases, Option-cases, value_or,
}
use stock_brain.Decimal.{Decimal, zero_dec, leb_dec}
use stock_brain.Enums.{ThesisAction, OrderSide}
use stock_brain.Risk.Models.{SizingResult, conversion_required, usable, direction}
use stock_brain.Risk.Gates.{action_side}
use stock_brain.Risk.Sizing.{
  nothing, SizingRequest, size_side, size_converted, size_quoted, size_trade, two_prices,
  currencies_of, snapshot_of,
}
use stock_brain.Risk.Sizing.Bounds.{Each}
use stock_brain.Risk.Sizing.Paid.{IsPaid, Pays, nothing-Pays, size_buy-Pays}

-- What a request for a buy gives at a price.
abbrev Buys : SizingRequest → Decimal → SizingResult → Type 0
Buys r price = Pays (snapshot_of r) price r.max_notional r.size_factor

none-Buys :
    (r : SizingRequest) (price : Decimal) (side : Option OrderSide) (limit : Decimal)
    (reference : Option Decimal)
    → Buys r price (nothing side (currencies_of r) limit reference)
none-Buys r price side limit reference =
    nothing-Pays (snapshot_of r) price r.max_notional r.size_factor side _ limit reference

value_or-Buys :
    (r : SizingRequest) (price : Decimal) (o : Option SizingResult) (s : SizingResult)
    → Each (Buys r price) o
    → Buys r price s
    → Buys r price (value_or o s)
value_or-Buys r price none s h k = k
value_or-Buys r price (some t) s h k = h

size_side-Buys :
    (r : SizingRequest) (price : Decimal) → Buys r price (size_side r OrderSide.buy price)
unfolding size_side
size_side-Buys r price =
    value_or-Buys r price _ _
      (size_buy-Pays r.config r.identity (currencies_of r) (snapshot_of r) price r.max_notional
        r.size_factor)
      (none-Buys r price _ _ _)

size_converted-Buys :
    (r : SizingRequest) (price : Decimal)
    → Each (Buys r price) (size_converted r OrderSide.buy price)
unfolding size_converted
size_converted-Buys r price =
    let fx = snapshot_of r in
    let sized = size_side-Buys r price in
    elim (Bool-cases (conversion_required fx)) [
      | inr same ↦ rw (same, Each) sized
      | inl other ↦
          rw (other, Each)
            (elim (Bool-cases (usable fx)) [
              | inr refused ↦ rw (refused, Each) (none-Buys r price _ _ _)
              | inl ok ↦
                  rw (ok, Each)
                    (elim (Option-cases (direction fx)) [
                      | inl raised ↦ rw (raised, Each) tt
                      | inr (d, e) ↦ rw (e, Each) sized
                    ])
            ])
    ]

size_quoted-Buys :
    (r : SizingRequest) (bid ask : Decimal)
    → Each (Buys r ask) (size_quoted r OrderSide.buy bid ask)
unfolding size_quoted
size_quoted-Buys r bid ask = elim (Bool-cases (leb_dec ask zero_dec)) [
  | inl worthless ↦ rw (worthless, Each) (none-Buys r ask _ _ _)
  | inr positive ↦ rw (positive, Each) (size_converted-Buys r ask)
]

-- The quote that an executable buy is priced at.
abbrev pub IsBought : SizingRequest → SizingResult → Type 0
IsBought r s =
    (bid : Decimal) × (ask : Decimal) × (two_prices r.quote ≡ some (bid, ask))
    × IsPaid (snapshot_of r) ask r.max_notional r.size_factor s

-- The results at the prices of a quote.
priced :
    (r : SizingRequest) (bid ask : Decimal) (o : Option SizingResult)
    → two_prices r.quote ≡ some (bid, ask)
    → Each (Buys r ask) o
    → Each (λ s. s.executable ≡ true → IsBought r s) o
priced r bid ask none f h = tt
priced r bid ask (some s) f h = λ ok. (bid, ask, f, h ok)

size_trade-Each :
    (r : SizingRequest)
    → r.action ≡ ThesisAction.buy
    → Each (λ s. s.executable ≡ true → IsBought r s) (size_trade r)
unfolding size_trade nothing
size_trade-Each r buy =
    let side : action_side r.action ≡ some OrderSide.buy = (rw buy refl) in
    rw (side, Each)
      (elim (Option-cases (two_prices r.quote)) [
        | inl unpriced ↦ rw (unpriced, Each) (λ ok. absurd (ground (arith, ok)))
        | inr ((bid, ask), f) ↦ rw (f, Each) (priced r bid ask _ f (size_quoted-Buys r bid ask))
      ])

-- An executable buy is priced at the ask, and within what its converted limit pays for.
pub size_trade-IsBought :
    (r : SizingRequest) (s : SizingResult)
    → size_trade r ≡ some s
    → r.action ≡ ThesisAction.buy
    → s.executable ≡ true
    → IsBought r s
size_trade-IsBought r s h buy = let bought = size_trade-Each r buy in (rw (h, Each) at bought)
