-- ===== src/Risk/Models/Conversion.antt =====
-- `FxSnapshot`: what a conversion of backend/stockbrain/risk/models.py rests on.
use stock_brain.Prelude.{
  ◌≡◌, ◌⊎◌, inl, inr, true, false, none, some, Text, text_eq, text_eq_refl, arith, Bool-cases,
  Option-cases,
}
use stock_brain.Decimal.{Decimal, mul_dec, div_dec}
use stock_brain.Fx.{FxDirection, direct, inverted, normalize_currency}
use stock_brain.Risk.Models.{
  FxSnapshot, usable, direction_of_pair, direction_for, apply_direction, convert,
  to_account_currency, to_instrument_currency, same_currency_snapshot,
}

-- Two currency texts name one currency.
abbrev pub SameCode : Text → Text → Type 0
SameCode a b = text_eq (normalize_currency (some a)) (normalize_currency (some b)) ≡ true

-- A snapshot's rate says how many units of its second currency one unit of its first buys, and the two
-- are the given ones.
abbrev pub Measures : FxSnapshot → Text → Text → Type 0
Measures fx base quote =
    (text_eq (normalize_currency (some base)) (normalize_currency fx.base_currency) ≡ true)
    × (text_eq (normalize_currency (some quote)) (normalize_currency fx.quote_currency) ≡ true)

-- A rate that may be used and that measures the pair, one way or the other.
pub record IsRated (fx : FxSnapshot) (source target : Text) (amount v : Decimal) : Type 0 where
  pub rate : Decimal
  pub permitted : usable fx ≡ true
  pub measured : fx.rate ≡ some rate
  pub applied :
      (Measures fx source target × (v ≡ mul_dec amount rate))
      ⊎ (Measures fx target source × (v ≡ div_dec amount rate))

-- What each direction of a pair says of the currencies of the rate.
direct-Measures :
    (fx : FxSnapshot) (source target : Text)
    → direction_of_pair fx (normalize_currency (some source)) (normalize_currency (some target))
      ≡ some direct
    → Measures fx source target
unfolding direction_of_pair
direct-Measures fx source target h = (ground (arith, h), ground (arith, h))

inverted-Measures :
    (fx : FxSnapshot) (source target : Text)
    → direction_of_pair fx (normalize_currency (some source)) (normalize_currency (some target))
      ≡ some inverted
    → Measures fx target source
unfolding direction_of_pair
inverted-Measures fx source target h = (ground (arith, h), ground (arith, h))

direction_of_pair_cases :
    (fx : FxSnapshot) (source target : Text)
    → (direction_of_pair fx source target ≡ none)
      ⊎ (direction_of_pair fx source target ≡ some direct)
      ⊎ (direction_of_pair fx source target ≡ some inverted)
unfolding direction_of_pair
direction_of_pair_cases fx source target = ground arith

direction_for_rated :
    (fx : FxSnapshot) (source target : Text) (d : FxDirection)
    → text_eq (normalize_currency (some source)) (normalize_currency (some target)) ≡ false
    → direction_for fx source target ≡ some d
    → (r : Decimal) × (usable fx ≡ true)
      × (fx.rate ≡ some r)
      × (direction_of_pair fx (normalize_currency (some source)) (normalize_currency (some target))
          ≡ some d)
unfolding direction_for
direction_for_rated fx source target d other h = elim (Option-cases fx.rate) [
  | inl absent ↦ absurd (ground (arith, absent, h, other))
  | inr (r, e) ↦ (r, ground (arith, e, h, other), e, ground (arith, e, h, other))
]

convert_between-IsRated :
    (fx : FxSnapshot) (amount : Decimal) (source target : Text) (d : FxDirection) {v : Decimal}
    → text_eq (normalize_currency (some source)) (normalize_currency (some target)) ≡ false
    → direction_for fx source target ≡ some d
    → apply_direction fx amount d ≡ some v
    → IsRated fx source target amount v
unfolding apply_direction
convert_between-IsRated fx amount source target d {v} other e h =
    let (r, permitted, measured, way) = direction_for_rated fx source target d other e in
    let cases =
      direction_of_pair_cases fx (normalize_currency (some source))
        (normalize_currency (some target)) in
    let to_applied : (Measures fx source target × (v ≡ mul_dec amount r))
        ⊎ (Measures fx target source × (v ≡ div_dec amount r)) =
      elim cases [
        | inl unknown ↦ absurd (cc (way, unknown))
        | inr known ↦ elim known [
          | inl forward ↦
              inl (
                direct-Measures fx source target forward,
                ground (arith, h, way, measured, forward),
              )
          | inr backward ↦ inr (
            inverted-Measures fx source target backward,
            ground (arith, h, way, measured, backward),
          )
        ]
      ] in
    record { rate = r; permitted = permitted; measured = measured; applied = to_applied }

-- A conversion leaves the amount alone only between two texts for one currency. Between two
-- currencies it needs a snapshot without blockers, with a rate whose own two currencies are these two:
-- the amount is multiplied by it where the first of them is the source, and divided where it is the
-- target.
pub convert-IsRated :
    (fx : FxSnapshot) (amount : Decimal) (source target : Text) {v : Decimal}
    → convert fx amount source target ≡ some v
    → (SameCode source target × (v ≡ amount)) ⊎ IsRated fx source target amount v
unfolding convert direction_for apply_direction
convert-IsRated fx amount source target {v} h =
    elim (Bool-cases
      (text_eq (normalize_currency (some source)) (normalize_currency (some target)))) [
        | inl same ↦ inl (same, ground (arith, same, h))
        | inr other ↦ elim (Option-cases (direction_for fx source target)) [
          | inl raised ↦ absurd (ground (arith, raised, h))
          | inr (d, e) ↦
              inr (convert_between-IsRated fx amount source target d other e (ground (arith, e, h)))
        ]
      ]

-- A snapshot of one currency converts every amount to itself, both ways, and is never refused.
pub same_currency_converts :
    (currency : Text) (amount : Decimal)
    → (to_account_currency (same_currency_snapshot currency) amount ≡ some amount)
      × (to_instrument_currency (same_currency_snapshot currency) amount ≡ some amount)
      × (usable (same_currency_snapshot currency) ≡ true)
unfolding to_account_currency to_instrument_currency same_currency_snapshot convert direction_for
    apply_direction
same_currency_converts currency amount =
    let code = normalize_currency (some currency) in
    ground (arith, text_eq_refl (normalize_currency (some code)))
