-- ===== src/Risk/Spread.antt =====
-- backend/stockbrain/risk/spread.py: how a book is classified. The sentences are not modelled.
pub mod Laws
use stock_brain.Prelude.{Bool, true, false, not, ◌&&◌, ◌||◌, Option, none, some, if◌then◌else◌}
use stock_brain.Decimal.{
  Decimal, whole, zero_dec, leb_dec, ltb_dec, eqb_dec, add_dec, sub_dec, mul_dec, div_dec, quantize,
}
use stock_brain.Enums.{SpreadStatus}

pub record SpreadAssessment : Type 0 where
  pub status : SpreadStatus
  pub bid : Option Decimal
  pub ask : Option Decimal
  pub spread : Option Decimal
  pub mid : Option Decimal
  pub spread_pct : Option Decimal
  pub spread_bps : Option Decimal
  pub ceiling_bps : Option Decimal

abbrev pub is_ok : SpreadAssessment → Bool
is_ok a = elim a.status [ SpreadStatus.ok ↦ true | _ ↦ false ]

abbrev pub is_merely_wide : SpreadAssessment → Bool
is_merely_wide a = elim a.status [ SpreadStatus.excessive ↦ true | _ ↦ false ]

-- An assessment that measured no width.
abbrev unmeasured : SpreadStatus → Option Decimal → Option Decimal → Decimal → SpreadAssessment
unmeasured status bid ask ceiling = record {
  status = status;
  bid = bid;
  ask = ask;
  spread = none;
  mid = none;
  spread_pct = none;
  spread_bps = none;
  ceiling_bps = some ceiling;
}

-- Both sides are positive: `spread` and `mid` are measured.
unfoldable pub assess_live : Decimal → Decimal → Decimal → SpreadAssessment
assess_live bid ask ceiling =
    let spread = sub_dec ask bid in
    let mid = div_dec (add_dec bid ask) (whole 2) in
    let spread_pct = quantize 8 (div_dec spread mid) in
    let spread_bps = quantize 4 (mul_dec (div_dec spread mid) (whole 10000)) in
    let measured = λ (status : SpreadStatus) (pct : Option Decimal) (bps : Option Decimal).
      let result : SpreadAssessment = record {
        status = status;
        bid = some bid;
        ask = some ask;
        spread = some spread;
        mid = some mid;
        spread_pct = pct;
        spread_bps = bps;
        ceiling_bps = some ceiling;
      } in
      result in
    if ltb_dec spread zero_dec
    then measured SpreadStatus.crossed none none
    else if eqb_dec spread zero_dec
    then measured SpreadStatus.locked (some zero_dec) (some zero_dec)
    else if ltb_dec (mul_dec ceiling mid) (mul_dec spread (whole 10000))
    then measured SpreadStatus.excessive (some spread_pct) (some spread_bps)
    else measured SpreadStatus.ok (some spread_pct) (some spread_bps)

unfoldable pub assess_sides : Decimal → Decimal → Decimal → SpreadAssessment
assess_sides bid ask ceiling =
    let bid_live = ltb_dec zero_dec bid in
    let ask_live = ltb_dec zero_dec ask in
    if not bid_live && not ask_live
    then unmeasured SpreadStatus.non_positive (some bid) (some ask) ceiling
    else if not (bid_live && ask_live)
    then unmeasured SpreadStatus.one_sided (some bid) (some ask) ceiling
    else assess_live bid ask ceiling

-- `assess_spread`
unfoldable pub assess_spread : Option Decimal → Option Decimal → Decimal → SpreadAssessment
assess_spread (some bid) (some ask) ceiling = assess_sides bid ask ceiling
assess_spread none ask ceiling = unmeasured SpreadStatus.missing none ask ceiling
assess_spread (some bid) none ceiling = unmeasured SpreadStatus.missing (some bid) none ceiling
