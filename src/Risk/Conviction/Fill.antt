-- ===== src/Risk/Conviction/Fill.antt =====
-- `conviction_targets`: no target is over the ceiling, and the fuel is enough.
use stock_brain.Prelude.{
  ℕ, zero, suc, ◌+◌, ◌≤◌, ◌<◌, ◌≡◌, refl, ap, inl, inr, true, false, not, ◌&&◌, List, [], ◌∷◌,
  arith, All, All-append, filter, map, non_empty, length, Bool-cases, length-filter, length-map,
  non_empty-length,
}
use stock_brain.Decimal.{Decimal, zero_dec, leb_dec, ltb_dec}
use stock_brain.Decimal.Order.{◌≤D◌, ≤D_refl, ≤D_total}
use stock_brain.Risk.Config.{RiskConfig}
use stock_brain.Risk.Conviction.{
  pct, Share, weight_sum, shares, reaches, at_value, at_weight, subtract_each, fill,
  conviction_targets,
}

module _ {N : Type 0} where
  abbrev pub Under : Decimal → N × Decimal → Type 0
  Under ceiling target = target.1 ≤D ceiling

  capped-Under :
      (ceiling : Decimal) (xs : List (Share N))
      → All (Under ceiling) (map (λ (s : Share N). (s.0, ceiling)) xs)
  capped-Under ceiling [] = tt
  capped-Under ceiling (x ∷ xs) = (≤D_refl ceiling, capped-Under ceiling xs)

  -- Where no share reaches the ceiling, each is under it.
  open-Under :
      (ceiling : Decimal) (xs : List (Share N))
      → non_empty (filter (reaches ceiling) xs) ≡ false
      → All (Under ceiling) (map at_value xs)
  open-Under ceiling [] h = tt
  open-Under ceiling ((n, w, v) ∷ xs) h = elim (Bool-cases (leb_dec ceiling v)) [
    | inl over ↦ absurd (ground (arith, h, over))
    | inr under ↦ (≤D_total ceiling v under, open-Under ceiling xs (ground (arith, h, under)))
  ]

  fill-Under :
      (fuel : ℕ) (ceiling remaining : Decimal) (names : List (N × Decimal))
      → All (Under ceiling) (fill fuel ceiling remaining names)
  unfolding fill
  fill-Under zero ceiling remaining names = tt
  fill-Under (suc fuel) ceiling remaining names =
      let share = shares remaining (weight_sum zero_dec names) names in
      let capped = filter (reaches ceiling) share in
      let others = filter (λ s. not (reaches ceiling s)) share in
      let rest =
        fill-Under fuel ceiling (subtract_each remaining ceiling capped) (map at_weight others) in
      elim (Bool-cases (non_empty names && ltb_dec zero_dec remaining)) [
        | inr done ↦ rw (done, All) tt
        | inl going ↦
            rw (going, All)
              (elim (Bool-cases (non_empty capped)) [
                | inl some_over ↦
                    rw (some_over, All)
                      (All-append (Under ceiling) (map (λ (s : Share N). (s.0, ceiling)) capped) _
                        (capped-Under ceiling capped) rest)
                | inr none_over ↦ rw (none_over, All) (open-Under ceiling share none_over)
              ])
      ]

  -- The split of an account by weights gives no holding more than the configured share of the account.
  pub conviction_targets-Under :
      (total : Decimal) (weights : List (N × Decimal)) (config : RiskConfig)
      → All
          (Under (pct total config.max_position_pct_of_portfolio))
          (conviction_targets total weights config)
  unfolding conviction_targets
  conviction_targets-Under total weights config =
      fill-Under _ (pct total config.max_position_pct_of_portfolio) total _

  length-shares :
      (remaining total : Decimal) (names : List (N × Decimal))
      → length (shares remaining total names) ≡ length names
  unfolding shares
  length-shares remaining total [] = refl
  length-shares remaining total ((n, w) ∷ rest) = ap suc (length-shares remaining total rest)

  -- A round that caps a name leaves fewer.
  others_shorter :
      (ceiling : Decimal) (share : List (Share N))
      → non_empty (filter (reaches ceiling) share) ≡ true
      → length (map at_weight (filter (λ s. not (reaches ceiling s)) share)) < length share
  others_shorter ceiling share h =
      let one = non_empty-length (filter (reaches ceiling) share) h in
      let parts = length-filter (reaches ceiling) share in
      let kept = length-map at_weight (filter (λ s. not (reaches ceiling s)) share) in
      omega (arith, one, parts, kept)

  fill_same :
      (f g : ℕ) (ceiling remaining : Decimal) (names : List (N × Decimal))
      → length names ≤ f
      → length names ≤ g
      → fill f ceiling remaining names ≡ fill g ceiling remaining names
  unfolding fill
  fill_same zero zero ceiling remaining names hf hg = refl
  fill_same zero (suc g) ceiling remaining [] hf hg = refl
  fill_same zero (suc g) ceiling remaining (x ∷ xs) hf hg = absurd (omega (arith, hf))
  fill_same (suc f) zero ceiling remaining [] hf hg = refl
  fill_same (suc f) zero ceiling remaining (x ∷ xs) hf hg = absurd (omega (arith, hg))
  fill_same (suc f) (suc g) ceiling remaining names hf hg =
      let share = shares remaining (weight_sum zero_dec names) names in
      let capped = filter (reaches ceiling) share in
      let others = filter (λ s. not (reaches ceiling s)) share in
      elim (Bool-cases (non_empty capped)) [
        | inr none_over ↦ rw none_over refl
        | inl some_over ↦
            let fewer = others_shorter ceiling share some_over in
            let same = length-shares remaining (weight_sum zero_dec names) names in
            let rest =
              fill_same f g ceiling (subtract_each remaining ceiling capped) (map at_weight others)
                (omega (arith, fewer, same, hf)) (omega (arith, fewer, same, hg)) in
            rw rest refl
      ]

  -- A round for each name is fuel enough: more of it changes nothing.
  pub fill_enough :
      (extra : ℕ) (ceiling remaining : Decimal) (names : List (N × Decimal))
      → fill (length names + extra) ceiling remaining names
        ≡ fill (length names) ceiling remaining names
  fill_enough extra ceiling remaining names =
      fill_same (length names + extra) (length names) ceiling remaining names (omega arith)
        (omega arith)
