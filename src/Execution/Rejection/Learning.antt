-- ===== src/Execution/Rejection/Learning.antt =====
-- Which precisions are learned.
use stock_brain.Prelude.{
  ℕ, ◌≡◌, ◌≤◌, Option, none, some, arith, Option-cases, inl, inr, true, Bool-cases,
}
use stock_brain.Execution.Rejection.{
  BrokerRejection, quantity_precision_from, search_precision, is_mismatch, learnable,
  max_learnable_quantity_precision,
}

learnable_bound :
    (found : Option ℕ) (n : ℕ) → learnable found ≡ some n → n ≤ max_learnable_quantity_precision
learnable_bound none n h = cc
learnable_bound (some m) n h = ground (arith, h)

-- A precision is learned only from a refusal of the mismatched kind, and is at most the one that the
-- sizer can round to.
pub quantity_precision_from_bound :
    (exc : BrokerRejection) (n : ℕ)
    → quantity_precision_from exc ≡ some n
    → (is_mismatch exc.payload_type ≡ true) × (n ≤ max_learnable_quantity_precision)
unfolding quantity_precision_from
quantity_precision_from_bound exc n h = elim (Bool-cases (is_mismatch exc.payload_type)) [
  | inr other ↦ cc (rw other at h)
  | inl same ↦ elim (Option-cases exc.detail) [
    | inl silent ↦ cc (rw (same, silent) at h)
    | inr (text, e) ↦ (same, learnable_bound (search_precision text) n (rw (same, e) at h))
  ]
]
