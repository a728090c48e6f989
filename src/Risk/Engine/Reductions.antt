-- ===== src/Risk/Engine/Reductions.antt =====
-- Reductions only reduce: the combined factor lies between zero and one, and the effective cap is
-- the least of the caps.
use stock_brain.Prelude.{
  List, [], ◌∷◌, All, inl, inr, Option-cases, Bool-cases, ◌≡◌, refl, ◌∙◌, ◌⊎◌, arith,
}
use mathlib.Core.List.{Mem, mem-cons_self, mem-cons_of_mem}
use stock_brain.Decimal.{Decimal, zero_dec, whole, mul_dec, min_dec, max_dec, ltb_dec}
use stock_brain.Decimal.Order.{◌≤D◌, ◌<D◌, ≤D_refl, ≤D_trans}
use stock_brain.Decimal.Laws.{one_dec, mul_nonneg, mul_le_one, plain_nonneg}
use stock_brain.Decimal.Extremes.{min_bounds, max_bounds, le-min}
use stock_brain.Risk.Models.{RuleResult}
use stock_brain.Risk.Caps.{NotionalCap, least_from, least_limit}
use stock_brain.Risk.Engine.{combine, combined_size_factor}

-- A number between zero and one.
abbrev pub IsFactor : Decimal → Type 0
IsFactor f = (zero_dec ≤D f) × (f ≤D one_dec)

-- The clamp that each rule's factor goes through.
clamp-IsFactor : (f : Decimal) → IsFactor (min_dec (whole 1) (max_dec zero_dec f))
clamp-IsFactor f = (
  le-min zero_dec (whole 1) (max_dec zero_dec f) (plain_nonneg 1 _) (max_bounds zero_dec f).0,
  (min_bounds (whole 1) (max_dec zero_dec f)).0,
)

combine-IsFactor : (f : Decimal) (rules : List RuleResult) → IsFactor f → IsFactor (combine f rules)
unfolding combine
combine-IsFactor f [] h = h
combine-IsFactor f (rule ∷ rules) h = elim (Option-cases rule.size_factor) [
  | inl absent ↦ rw absent (combine-IsFactor f rules h)
  | inr (g, e) ↦
      let c = clamp-IsFactor g in
      rw e (
        combine-IsFactor (mul_dec f (min_dec (whole 1) (max_dec zero_dec g))) rules
          (mul_nonneg f _ h.0 c.0, mul_le_one f _ h.0 c.0 h.1 c.1))
]

-- Whatever factors the rules impose, negative ones and ones above one included, their combination
-- lies between zero and one.
pub combined_size_factor-IsFactor :
    (rules : List RuleResult) → IsFactor (combined_size_factor rules)
unfolding combined_size_factor
combined_size_factor-IsFactor rules =
    combine-IsFactor (whole 1) rules (plain_nonneg 1 _, ≤D_refl (whole 1))

least_from_bounds :
    (best : Decimal) (caps : List NotionalCap)
    → (least_from best caps ≤D best) × All (λ cap. least_from best caps ≤D cap.limit) caps
unfolding least_from
least_from_bounds best [] = (≤D_refl best, tt)
least_from_bounds best (cap ∷ caps) =
    let m = min_dec best cap.limit in
    let b = min_bounds best cap.limit in
    let ih = least_from_bounds m caps in
    (≤D_trans _ m best ih.0 b.0, (≤D_trans _ m cap.limit ih.0 b.1, ih.1))

-- The limit that is sized against is under every cap.
pub least_limit_bounds : (caps : List NotionalCap) → All (λ cap. least_limit caps ≤D cap.limit) caps
unfolding least_limit
least_limit_bounds [] = tt
least_limit_bounds (cap ∷ caps) = least_from_bounds cap.limit caps

-- A limit of the caps, or else the one that the search began with.
least_from_among :
    (best : Decimal) (caps : List NotionalCap)
    → (least_from best caps ≡ best)
      ⊎ ((cap : NotionalCap) × Mem cap caps × (least_from best caps ≡ cap.limit))
unfolding least_from
least_from_among best [] = inl refl
least_from_among best (cap ∷ caps) =
    let m = min_dec best cap.limit in
    elim (least_from_among m caps) [
      | inr (found, there, e) ↦ inr (found, mem-cons_of_mem cap there, e)
      | inl e ↦ elim (Bool-cases (ltb_dec cap.limit best)) [
        | inl less ↦ inr (cap, mem-cons_self, e ∙ rw less refl)
        | inr least ↦ inl (e ∙ rw least refl)
      ]
    ]

-- A positive limit that is sized against is the limit of one of the caps.
pub least_limit-among :
    (caps : List NotionalCap)
    → zero_dec <D least_limit caps
    → (cap : NotionalCap) × Mem cap caps × (least_limit caps ≡ cap.limit)
unfolding least_limit
least_limit-among [] positive =
    let none_there : zero_dec <D zero_dec = positive in
    absurd (ground (arith, ≤D_refl zero_dec, none_there))
least_limit-among (cap ∷ caps) positive = elim (least_from_among cap.limit caps) [
  | inl e ↦ (cap, mem-cons_self, e)
  | inr (found, there, e) ↦ (found, mem-cons_of_mem cap there, e)
]
