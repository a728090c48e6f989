-- ===== src/Risk/Exits/Decay.antt =====
-- `roi_target_for`: the table is read as a decay.
use stock_brain.Prelude.{
  ℕ, ◌≤◌, ◌≡◌, refl, sym, ◌⊎◌, inl, inr, Bool, true, false, ◌&&◌, List, [], ◌∷◌, arith, All, Any,
  Any-imp, Bool-cases, leb,
}
use mathlib.Core.Path.{subst}
use stock_brain.Prelude.Int.{ℤ, pos, negsuc, ltb_ℤ, leb_ℤ}
use stock_brain.Decimal.{Decimal, zero_dec}
use stock_brain.Enums.{TimeHorizon, horizon_eq}
use stock_brain.Risk.Config.{RiskConfig}
use stock_brain.Risk.Exits.{Row, decay, roi_target_for}

-- A row of the horizon whose minutes have passed.
abbrev pub applies : TimeHorizon → ℕ → Row → Bool
applies horizon minutes row = horizon_eq row.0 horizon && leb row.1 minutes

-- The row that sets the target: it applies, and no row that applies has more minutes.
pub record IsLast (horizon : TimeHorizon) (minutes : ℕ) (rows : List Row) (target : Decimal)
    (row : Row) : Type 0 where
  pub passed : applies horizon minutes row ≡ true
  pub sets : target ≡ row.2
  pub latest : All (λ other. applies horizon minutes other ≡ true → other.1 ≤ row.1) rows

module _ (horizon : TimeHorizon) (minutes : ℕ) where
  -- No row that applies has more minutes than the threshold.
  abbrev Quiet : ℤ → List Row → Type 0
  Quiet threshold rows =
      All (λ (row : Row). applies horizon minutes row ≡ true → leb_ℤ (pos row.1) threshold ≡ true)
        rows

  -- A row that applies, is over the threshold, and is the last of those that apply.
  record Found (threshold : ℤ) (rows : List Row) (target : Decimal) (row : Row) : Type 0 where
    over : ltb_ℤ threshold (pos row.1) ≡ true
    last : IsLast horizon minutes rows target row

  raised_last :
      (h : TimeHorizon) (m : ℕ) (t target : Decimal) (rest : List Row) (threshold : ℤ) (row : Row)
      → (applies horizon minutes (h, m, t) ≡ true → leb_ℤ (pos m) threshold ≡ true)
      → Found threshold rest target row
      → Found threshold ((h, m, t) ∷ rest) target row
  raised_last h m t target rest threshold row head f = record {
    over = f.over;
    last = record {
      passed = f.last.passed;
      sets = f.last.sets;
      latest = (λ e. ground (arith, head e, f.over), f.last.latest);
    };
  }

  -- What the loop may end with.
  abbrev Ends : ℤ → Decimal → List Row → Decimal → Type 0
  Ends threshold target rows v =
      ((v ≡ target) × Quiet threshold rows) ⊎ Any (Found threshold rows v) rows

  Quiet-le :
      (m : ℕ) (rows : List Row)
      → Quiet (pos m) rows
      → All (λ other. applies horizon minutes other ≡ true → other.1 ≤ m) rows
  Quiet-le m [] q = tt
  Quiet-le m (row ∷ rows) q = (λ e. ground (arith, q.0 e), Quiet-le m rows q.1)

  kept-Ends :
      (h : TimeHorizon) (m : ℕ) (t target : Decimal) (rest : List Row) (threshold : ℤ) (v : Decimal)
      → (applies horizon minutes (h, m, t) ≡ true → leb_ℤ (pos m) threshold ≡ true)
      → Ends threshold target rest v
      → Ends threshold target ((h, m, t) ∷ rest) v
  kept-Ends h m t target rest threshold v head (inl (e, quiet)) = inl (e, (head, quiet))
  kept-Ends h m t target rest threshold v head (inr found) =
      inr (inr (Any-imp rest (λ row f. raised_last h m t v rest threshold row head f) found))

  taken-Ends :
      (h : TimeHorizon) (m : ℕ) (t target : Decimal) (rest : List Row) (threshold : ℤ) (v : Decimal)
      → applies horizon minutes (h, m, t) ≡ true
      → ltb_ℤ threshold (pos m) ≡ true
      → Ends (pos m) t rest v
      → Ends threshold target ((h, m, t) ∷ rest) v
  taken-Ends h m t target rest threshold v passed over (inl (e, quiet)) = inr (
      inl (record {
        over = over;
        last = record {
          passed = passed;
          sets = e;
          latest = (λ _. omega arith, Quiet-le m rest quiet);
        };
      }))
  taken-Ends h m t target rest threshold v passed over (inr found) = inr (
      inr (
        Any-imp rest
          (λ row f.
            let higher : Found threshold rest v row = record {
              over = ground (arith, over, f.over);
              last = f.last;
            } in
            record {
              over = higher.over;
              last = record {
                passed = f.last.passed;
                sets = f.last.sets;
                latest = (λ e. ground (arith, f.over), f.last.latest);
              };
            })
          found))

  decay_taken :
      (h : TimeHorizon) (m : ℕ) (t target : Decimal) (rest : List Row) (threshold : ℤ)
      → (applies horizon minutes (h, m, t) && ltb_ℤ threshold (pos m)) ≡ true
      → decay horizon minutes threshold target ((h, m, t) ∷ rest)
        ≡ decay horizon minutes (pos m) t rest
  unfolding decay
  decay_taken h m t target rest threshold e = ground (arith, e)

  decay_kept :
      (h : TimeHorizon) (m : ℕ) (t target : Decimal) (rest : List Row) (threshold : ℤ)
      → (applies horizon minutes (h, m, t) && ltb_ℤ threshold (pos m)) ≡ false
      → decay horizon minutes threshold target ((h, m, t) ∷ rest)
        ≡ decay horizon minutes threshold target rest
  unfolding decay
  decay_kept h m t target rest threshold e = ground (arith, e)

  decay_none :
      (threshold : ℤ) (target : Decimal) → decay horizon minutes threshold target [] ≡ target
  unfolding decay
  decay_none threshold target = refl

  decay-Ends :
      (threshold : ℤ) (target : Decimal) (rows : List Row)
      → Ends threshold target rows (decay horizon minutes threshold target rows)
  decay-Ends threshold target [] = inl (decay_none threshold target, tt)
  decay-Ends threshold target ((h, m, t) ∷ rest) =
      elim (Bool-cases (applies horizon minutes (h, m, t) && ltb_ℤ threshold (pos m))) [
        | inl passed ↦
            subst (Ends threshold target ((h, m, t) ∷ rest))
              (sym (decay_taken h m t target rest threshold passed))
              (taken-Ends h m t target rest threshold _ (ground (arith, passed))
                (ground (arith, passed)) (decay-Ends (pos m) t rest))
        | inr other ↦
            subst (Ends threshold target ((h, m, t) ∷ rest))
              (sym (decay_kept h m t target rest threshold other))
              (kept-Ends h m t target rest threshold _ (λ e. ground (arith, e, other))
                (decay-Ends threshold target rest))
      ]

-- The target is that of a row of the horizon whose minutes have passed, and no such row has more
-- minutes; it is zero when the minutes of no row of the horizon have passed.
pub roi_target_for-IsLast :
    (horizon : TimeHorizon) (minutes : ℕ) (config : RiskConfig)
    → Any
        (IsLast horizon minutes config.exit_roi_decay (roi_target_for horizon minutes config))
        config.exit_roi_decay
      ⊎ ((roi_target_for horizon minutes config ≡ zero_dec)
          × All (λ row. applies horizon minutes row ≡ false) config.exit_roi_decay)
unfolding roi_target_for
roi_target_for-IsLast horizon minutes config =
    elim (decay-Ends horizon minutes (negsuc 0) zero_dec config.exit_roi_decay) [
      | inr found ↦ inl (Any-imp config.exit_roi_decay (λ row f. f.last) found)
      | inl (e, quiet) ↦ inr (e, never horizon minutes config.exit_roi_decay quiet)
    ]
  where
    never :
        (h : TimeHorizon) (m : ℕ) (rows : List Row)
        → All (λ (row : Row). applies h m row ≡ true → leb_ℤ (pos row.1) (negsuc 0) ≡ true) rows
        → All (λ row. applies h m row ≡ false) rows
    never h m [] q = tt
    never h m (row ∷ rows) q = (
      elim (Bool-cases (applies h m row)) [
        | inl yes_it ↦ absurd (ground (arith, q.0 yes_it))
        | inr not_it ↦ not_it
      ],
      never h m rows q.1,
    )
