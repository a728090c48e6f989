-- ===== src/Proposals/Rebalance/Lines.antt =====
-- What a plan rests on, and what its execution asks for.
use mathlib.Core.Path.{subst}
use mathlib.Core.List.{Mem, mem-cons_self, mem-cons_of_mem}
use stock_brain.Prelude.{
  ℕ, ◌≡◌, ◌⊎◌, refl, List, [], ◌∷◌, ◌++◌, some, none, Bool, true, false, ◌||◌, Option-cases,
  Bool-cases, inl, inr, map, filter, arith, All,
}
use stock_brain.Decimal.{
  Decimal, zero_dec, ltb_dec, leb_dec, abs_dec, neg_dec, div_dec, min_dec, whole,
}
use stock_brain.Enums.{ThesisAction}
use stock_brain.Risk.Config.{RiskConfig, is_conviction}
use stock_brain.Risk.Models.{AccountState}
use stock_brain.Proposals.Rebalance.{
  HoldingBelief, LineAction, RebalanceLine, Request, managed, says_buy, says_hold, is_stale, delta,
  line_action, line, target, value_of, insert_line, sort_lines, least_first, plan, trim_request,
  trim_requests, top_up_request, selling, requests, full_exit_fraction, is_trim, is_top_up,
  largest_first,
}

-- A line that resizes: its holding is managed, what research said of it is recent, and the change is
-- not less than the least move. One that adds is of a holding that research says to buy; one that
-- trims is not below its target.
pub record IsJustified (min_move : Decimal) (max_thesis_age now : ℕ) (belief : HoldingBelief)
    (change : Decimal) (action : LineAction) : Type 0 where
  pub adds :
      action ≡ LineAction.top_up
      → (managed belief ≡ true)
        × (is_stale max_thesis_age now belief ≡ false)
        × (ltb_dec (abs_dec change) min_move ≡ false)
        × (says_buy belief.action ≡ true)
        × (ltb_dec zero_dec change ≡ true)
  pub trims :
      action ≡ LineAction.trim
      → (managed belief ≡ true)
        × (is_stale max_thesis_age now belief ≡ false)
        × (ltb_dec (abs_dec change) min_move ≡ false)
        × ((says_buy belief.action || says_hold belief.action) ≡ true)
        × (ltb_dec zero_dec change ≡ false)

idle :
    {min_move : Decimal} {max_thesis_age now : ℕ} {belief : HoldingBelief} {change : Decimal}
    (action : LineAction)
    → (action ≡ LineAction.top_up → ⊥)
    → (action ≡ LineAction.trim → ⊥)
    → IsJustified min_move max_thesis_age now belief change action
idle action not_up not_down = record {
  adds = λ e. absurd (not_up e);
  trims = λ e. absurd (not_down e);
}

justified :
    (min_move : Decimal) (max_thesis_age now : ℕ) (belief : HoldingBelief) (change : Decimal)
    → IsJustified min_move max_thesis_age now belief change
        (line_action min_move max_thesis_age now belief change)
unfolding line_action
justified min_move max_thesis_age now belief change =
    let advice = says_buy belief.action || says_hold belief.action in
    elim (Bool-cases (managed belief)) [
      | inr foreign ↦ rw (line_action, foreign) (idle LineAction.skip (λ e. cc e) (λ e. cc e))
      | inl own ↦ elim (Bool-cases advice) [
        | inr other ↦ rw (line_action, own, other) (idle LineAction.skip (λ e. cc e) (λ e. cc e))
        | inl kept ↦ elim (Bool-cases (is_stale max_thesis_age now belief)) [
          | inl old ↦
              rw (line_action, own, kept, old) (idle LineAction.review (λ e. cc e) (λ e. cc e))
          | inr recent ↦ elim (Bool-cases (ltb_dec (abs_dec change) min_move)) [
            | inl small ↦
                rw (line_action, own, kept, recent, small)
                  (idle LineAction.stay (λ e. cc e) (λ e. cc e))
            | inr large ↦ elim (Bool-cases (ltb_dec zero_dec change)) [
              | inr down ↦
                  rw (line_action, own, kept, recent, large, down)
                    (record {
                      adds = λ e. absurd (cc e);
                      trims = λ e. (own, recent, large, kept, down);
                    })
              | inl up ↦ elim (Bool-cases (says_hold belief.action)) [
                | inl hold ↦
                    rw (line_action, own, kept, recent, large, up, hold)
                      (idle LineAction.stay (λ e. cc e) (λ e. cc e))
                | inr buy ↦
                    rw (line_action, own, kept, recent, large, up, buy)
                      (record {
                        adds = λ e. (own, recent, large, ground (arith, kept, buy), up);
                        trims = λ e. absurd (cc e);
                      })
              ]
            ]
          ]
        ]
      ]
    ]

-- Sorting keeps what holds of every line.
All-insert :
    (P : RebalanceLine → Type 0) (before : RebalanceLine → RebalanceLine → Bool) (l : RebalanceLine)
    (rest : List RebalanceLine)
    → P l
    → All P rest
    → All P (insert_line before l rest)
unfolding insert_line
All-insert P before l [] p h = (p, tt)
All-insert P before l (m ∷ rest) p h = elim (Bool-cases (before l m)) [
  | inl first ↦ rw (insert_line, first) (p, h)
  | inr later ↦ rw (insert_line, later) (h.0, All-insert P before l rest p h.1)
]

All-sort :
    (P : RebalanceLine → Type 0) (before : RebalanceLine → RebalanceLine → Bool)
    (lines : List RebalanceLine)
    → All P lines
    → All P (sort_lines before lines)
unfolding sort_lines
All-sort P before [] h = tt
All-sort P before (l ∷ rest) h = All-insert P before l _ h.0 (All-sort P before rest h.1)

-- A line of a plan: of one of the beliefs, with the value that is held and the target of that belief, and an
-- action that both justify.
pub record IsFounded (config : RiskConfig) (min_move : Decimal) (max_thesis_age : ℕ)
    (account : AccountState) (beliefs : List HoldingBelief) (now : ℕ) (l : RebalanceLine)
    : Type 0 where
  pub belief : HoldingBelief
  pub among : Mem belief beliefs
  pub own_ticker : l.broker_ticker ≡ belief.broker_ticker
  pub own_thesis : l.thesis_id ≡ belief.thesis_id
  pub held : l.value ≡ value_of account belief.broker_ticker
  pub aimed : l.target ≡ target config account.total_value beliefs belief
  pub justified_by : IsJustified min_move max_thesis_age now belief (delta l) l.action

founded :
    (config : RiskConfig) (min_move : Decimal) (max_thesis_age : ℕ) (account : AccountState)
    (beliefs : List HoldingBelief) (now : ℕ) (some_beliefs : List HoldingBelief)
    → ((b : HoldingBelief) → Mem b some_beliefs → Mem b beliefs)
    → All (IsFounded config min_move max_thesis_age account beliefs now) (
        map
          (λ (belief : HoldingBelief).
            line min_move max_thesis_age now belief
              (value_of account belief.broker_ticker)
              (target config account.total_value beliefs belief))
          some_beliefs)
unfolding line
founded config min_move max_thesis_age account beliefs now [] within = tt
founded config min_move max_thesis_age account beliefs now (belief ∷ rest) within = (
  record {
    belief = belief;
    among = within belief mem-cons_self;
    own_ticker = refl;
    own_thesis = refl;
    held = refl;
    aimed = refl;
    justified_by = justified min_move max_thesis_age now belief _;
  },
  founded config min_move max_thesis_age account beliefs now rest
      (λ b m. within b (mem-cons_of_mem belief m)),
)

-- Every line of a plan that is available is of one of the beliefs that were read, with its held value
-- and its target; it adds only to a managed holding that recent research says to buy and that is below
-- its target, it trims only a managed holding that recent research does not tell to sell and that is
-- not below its target, and neither moves less than the least move.
pub plan-IsFounded :
    (config : RiskConfig) (min_move : Decimal) (max_thesis_age : ℕ) (account : AccountState)
    (beliefs : List HoldingBelief) (now : ℕ) (lines : List RebalanceLine)
    → plan config min_move max_thesis_age (some account) beliefs now ≡ some lines
    → All (IsFounded config min_move max_thesis_age account beliefs now) lines
unfolding plan
plan-IsFounded config min_move max_thesis_age account beliefs now lines h =
    elim (Bool-cases (is_conviction config)) [
      | inr other ↦ cc (rw (other, plan) at h)
      | inl conviction ↦
          let made : some _ ≡ some lines = (rw (conviction, plan) at h) in
          subst (All (IsFounded config min_move max_thesis_age account beliefs now)) (cc made) (
            All-sort _ least_first _
              (founded config min_move max_thesis_age account beliefs now beliefs (λ b m. m)))
    ]

-- A request that sells: all of a holding, or a fraction above zero and under the one that counts as all.
abbrev pub IsSale : Request → Type 0
IsSale r =
    ((r.action ≡ ThesisAction.sell) × (r.fraction ≡ none))
    ⊎ ((r.action ≡ ThesisAction.reduce)
        × ((f : Decimal) × (r.fraction ≡ some f)
            × (leb_dec f zero_dec ≡ false)
            × (leb_dec full_exit_fraction f ≡ false)))

abbrev pub IsPurchase : Request → Type 0
IsPurchase r = (r.action ≡ ThesisAction.buy) × (r.fraction ≡ none)

trim_request-IsSale : (l : RebalanceLine) (r : Request) → trim_request l ≡ some r → IsSale r
unfolding trim_request
trim_request-IsSale l r h =
    let fraction = min_dec (whole 1) (div_dec (neg_dec (delta l)) l.value) in
    elim (Bool-cases (ltb_dec zero_dec l.value)) [
      | inr empty ↦ cc (rw (empty, trim_request) at h)
      | inl held ↦ elim (Bool-cases (leb_dec fraction zero_dec)) [
        | inl nothing ↦ cc (rw (held, nothing, trim_request) at h)
        | inr positive ↦ elim (Bool-cases (leb_dec full_exit_fraction fraction)) [
          | inl full ↦
              let made : some (selling l ThesisAction.sell none) ≡ some r =
                (rw (held, positive, full, trim_request) at h) in
              subst IsSale {x = selling l ThesisAction.sell none} {y = r} (cc made)
                (inl (refl, refl))
          | inr part ↦
              let made : some (selling l ThesisAction.reduce (some fraction)) ≡ some r =
                (rw (held, positive, part, trim_request) at h) in
              subst IsSale {x = selling l ThesisAction.reduce (some fraction)} {y = r} (cc made)
                (inr (refl, (fraction, refl, positive, part)))
        ]
      ]
    ]

sales : (lines : List RebalanceLine) → All IsSale (trim_requests lines)
unfolding trim_requests
sales [] = tt
sales (l ∷ rest) = elim (Option-cases (trim_request l)) [
  | inl none_ ↦ rw (trim_requests, none_) (sales rest)
  | inr (r, e) ↦ rw (trim_requests, e) (trim_request-IsSale l r e, sales rest)
]

purchases : (lines : List RebalanceLine) → All IsPurchase (map top_up_request lines)
purchases [] = tt
purchases (l ∷ rest) = ((refl, refl), purchases rest)

-- The execution of a plan asks for its sales before its purchases; a sale is of the whole holding or
-- reduces it by a fraction above zero and under the one that counts as the whole.
pub requests_sales_first :
    (lines : List RebalanceLine)
    → (sold : List Request) × (bought : List Request) × (requests lines ≡ sold ++ bought)
      × All IsSale sold
      × All IsPurchase bought
unfolding requests
requests_sales_first lines =
    let top_ups = sort_lines largest_first (filter is_top_up lines) in
    (
      trim_requests (filter is_trim lines),
      map top_up_request top_ups,
      refl,
      sales (filter is_trim lines),
      purchases top_ups,
    )
