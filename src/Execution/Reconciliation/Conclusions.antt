-- ===== src/Execution/Reconciliation/Conclusions.antt =====
-- What a search of the broker's orders may conclude.
use stock_brain.Prelude.{
  ℕ, ◌≡◌, refl, List, [], ◌∷◌, some, Bool-cases, inl, inr, true, false, ◌&&◌, not, All, arith,
  filter, present,
}
use mathlib.Core.Path.{subst}
use stock_brain.Enums.{ReconciliationResult}
use stock_brain.Store.{BrokerOrder}
use stock_brain.Execution.Provider.{BrokerOrderView, CandidateSearch, complete}
use stock_brain.Execution.Reconciliation.{
  AttemptFacts, Conclusion, matches, matching, is_claimed, search_for_order, is_young,
  without_order,
}

-- An order that may be the one of the attempt: it matches, and no other attempt has it.
abbrev pub MayBe : AttemptFacts → List BrokerOrder → BrokerOrderView → Type 0
MayBe facts orders order =
    (matches facts order ≡ true) × (is_claimed facts.attempt_id orders order ≡ false)

-- No candidate may be.
abbrev pub NoneMayBe : AttemptFacts → List BrokerOrder → List BrokerOrderView → Type 0
NoneMayBe facts orders =
    All (λ order. (matches facts order && not (is_claimed facts.attempt_id orders order)) ≡ false)

-- Exactly one candidate may be, and it is the given one.
pub data OneMayBe (facts : AttemptFacts) (orders : List BrokerOrder) (found : BrokerOrderView)
    : List BrokerOrderView → Type 0 where
  this :
      {rest : List BrokerOrderView}
      → MayBe facts orders found
      → NoneMayBe facts orders rest
      → OneMayBe facts orders found (found ∷ rest)
  later :
      {other : BrokerOrderView} {rest : List BrokerOrderView}
      → (matches facts other && not (is_claimed facts.attempt_id orders other)) ≡ false
      → OneMayBe facts orders found rest
      → OneMayBe facts orders found (other ∷ rest)

-- An empty filter, and one of a single element.
none_matching :
    (facts : AttemptFacts) (orders : List BrokerOrder) (candidates : List BrokerOrderView)
    → matching facts orders candidates ≡ []
    → NoneMayBe facts orders candidates
none_matching facts orders [] h = tt
none_matching facts orders (order ∷ rest) h =
    elim (Bool-cases (matches facts order && not (is_claimed facts.attempt_id orders order))) [
      | inl hit ↦ absurd (cc (rw (hit, matching, filter) at h))
      | inr miss ↦ (miss, none_matching facts orders rest (rw (miss, matching, filter) at h))
    ]

one_matching :
    (facts : AttemptFacts) (orders : List BrokerOrder) (candidates : List BrokerOrderView)
    (found : BrokerOrderView)
    → matching facts orders candidates ≡ found ∷ []
    → OneMayBe facts orders found candidates
one_matching facts orders [] found h = cc
one_matching facts orders (order ∷ rest) found h =
    elim (Bool-cases (matches facts order && not (is_claimed facts.attempt_id orders order))) [
      | inr miss ↦
          OneMayBe.later miss
            (one_matching facts orders rest found (rw (miss, matching, filter) at h))
      | inl hit ↦
          let e : order ∷ matching facts orders rest ≡ found ∷ [] =
            (rw (hit, matching, filter) at h) in
          let none_left : matching facts orders rest ≡ [] = (cc e) in
          subst (λ o. OneMayBe facts orders o (order ∷ rest)) (cc e)
            (OneMayBe.this (ground (arith, hit), ground (arith, hit))
              (none_matching facts orders rest none_left))
    ]

-- What supports a conclusion. An order is found only as the one candidate that may be the attempt's;
-- an absence is concluded only when both reads answered, no candidate may be, and the attempt is older
-- than the time that an order may take to show.
pub record IsSupported (facts : AttemptFacts) (orders : List BrokerOrder) (answer : CandidateSearch)
    (settle now : ℕ) (conclusion : Conclusion) : Type 0 where
  pub found :
      (order : BrokerOrderView)
      → conclusion.order ≡ some order
      → OneMayBe facts orders order answer.candidates
  pub named : conclusion.result ≡ ReconciliationResult.order_found → present conclusion.order ≡ true
  pub absent :
      conclusion.result ≡ ReconciliationResult.order_not_placed
      → (complete answer ≡ true)
        × NoneMayBe facts orders answer.candidates
        × (is_young facts.sent_at settle now ≡ false)

without-IsSupported :
    (facts : AttemptFacts) (orders : List BrokerOrder) (answer : CandidateSearch) (settle now : ℕ)
    (result : ReconciliationResult)
    → (result ≡ ReconciliationResult.order_found → ⊥)
    → (result ≡ ReconciliationResult.order_not_placed → ⊥)
    → IsSupported facts orders answer settle now (without_order result)
without-IsSupported facts orders answer settle now result not_found not_absent = record {
  found = λ order e. absurd (cc e);
  named = λ e. absurd (not_found e);
  absent = λ e. absurd (not_absent e);
}

empty-IsSupported :
    (facts : AttemptFacts) (orders : List BrokerOrder) (answer : CandidateSearch) (settle now : ℕ)
    → matching facts orders answer.candidates ≡ []
    → IsSupported facts orders answer settle now (search_for_order facts orders answer settle now)
unfolding search_for_order
empty-IsSupported facts orders answer settle now e = elim (Bool-cases (complete answer)) [
  | inr partial_ ↦
      rw (search_for_order, e, partial_)
        (without-IsSupported facts orders answer settle now _ (λ h. cc h) (λ h. cc h))
  | inl whole_ ↦ elim (Bool-cases (is_young facts.sent_at settle now)) [
    | inl young ↦
        rw (search_for_order, e, whole_, young)
          (without-IsSupported facts orders answer settle now _ (λ h. cc h) (λ h. cc h))
    | inr old ↦
        rw (search_for_order, e, whole_, old)
          (record {
            found = λ order h. absurd (cc h);
            named = λ h. absurd (cc h);
            absent = λ h. (whole_, none_matching facts orders answer.candidates e, old);
          })
  ]
]

search_cases :
    (facts : AttemptFacts) (orders : List BrokerOrder) (answer : CandidateSearch) (settle now : ℕ)
    (found : List BrokerOrderView)
    → matching facts orders answer.candidates ≡ found
    → IsSupported facts orders answer settle now (search_for_order facts orders answer settle now)
unfolding search_for_order
search_cases facts orders answer settle now [] e =
    empty-IsSupported facts orders answer settle now e
search_cases facts orders answer settle now (order ∷ []) e =
    rw (search_for_order, e)
      (record {
        found = λ o h.
            subst (λ x. OneMayBe facts orders x answer.candidates) (cc h)
              (one_matching facts orders answer.candidates order e);
        named = λ h. refl;
        absent = λ h. absurd (cc h);
      })
search_cases facts orders answer settle now (order ∷ (other ∷ rest)) e =
    rw (search_for_order, e)
      (without-IsSupported facts orders answer settle now _ (λ h. cc h) (λ h. cc h))

-- A search finds an order only if it is the one candidate that matches the attempt and no other
-- attempt has; it proves an absence only if both reads answered, no candidate qualifies, and the
-- attempt is old enough.
pub search-IsSupported :
    (facts : AttemptFacts) (orders : List BrokerOrder) (answer : CandidateSearch) (settle now : ℕ)
    → IsSupported facts orders answer settle now (search_for_order facts orders answer settle now)
search-IsSupported facts orders answer settle now =
    search_cases facts orders answer settle now (matching facts orders answer.candidates) refl
