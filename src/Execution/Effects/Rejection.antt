-- ===== src/Execution/Effects/Rejection.antt =====
-- A refusal by the broker: the proposal fails, and what it taught is written with it.
use stock_brain.Prelude.{ℕ, ◌≡◌, ◌∙◌, refl, some, Option-cases, Bool-cases, inl, inr}
use stock_brain.Enums.{ProposalStatus}
use stock_brain.Tables.{find_row}
use stock_brain.Tables.Laws.{find_row_again, find_row-put_row}
use stock_brain.Store.{TradeProposal, Store, proposal_key}
use stock_brain.Store.Moves.{Moves-refl, Moves-trans, put_same, put_next}
use stock_brain.Execution.Rejection.{
  BrokerRejection, is_stored, learn_precision, learn_from, quantity_precision_from,
  record_rejection,
}
use stock_brain.Execution.Effects.{marks_kept, Kept, After, After-with_rows, After-asserting}

-- What is learned is written on the row that failed.
learn_precision-Kept :
    (instrument_id precision : ℕ) (p : TradeProposal) (store : Store)
    → find_row proposal_key p.id store.proposals ≡ some p
    → Kept store (learn_precision instrument_id precision p store)
unfolding learn_precision
learn_precision-Kept instrument_id precision p store found =
    elim (Bool-cases (is_stored instrument_id precision store)) [
      | inl known ↦ rw known (Moves-refl store.proposals, refl)
      | inr unknown ↦ elim (Option-cases p.research_run_id) [
        | inl nobody ↦
            rw (unknown, nobody) (put_same p.id store.proposals p _ found refl refl, refl)
        | inr (run, e) ↦ rw (unknown, e) (put_same p.id store.proposals p _ found refl refl, refl)
      ]
    ]

learn_from-Kept :
    (exc : BrokerRejection) (p : TradeProposal) (store : Store)
    → find_row proposal_key p.id store.proposals ≡ some p
    → Kept store (learn_from exc p store)
unfolding learn_from
learn_from-Kept exc p store found = elim (Option-cases (quantity_precision_from exc)) [
  | inl nothing ↦ rw (nothing, learn_from) (Moves-refl store.proposals, refl)
  | inr (precision, e) ↦ elim (Option-cases p.broker_instrument_id) [
    | inl unlisted ↦ rw (e, unlisted, learn_from) (Moves-refl store.proposals, refl)
    | inr (instrument_id, i) ↦
        rw (e, i, learn_from) (learn_precision-Kept instrument_id precision p store found)
  ]
]

pub record_rejection-Kept :
    (attempt_id proposal_id : ℕ) (exc : BrokerRejection) (now : ℕ) (store : Store)
    → After (Kept store) (record_rejection attempt_id proposal_id exc now store)
unfolding record_rejection
record_rejection-Kept attempt_id proposal_id exc now store =
    After-with_rows (Kept store) attempt_id proposal_id store _ (Moves-refl store.proposals, refl)
      λ a p found row. After-asserting (Kept store) p.status ProposalStatus.failed _ λ step.
        let failed = put_next proposal_id store.proposals p _ row refl step in
        let again = find_row_again proposal_key proposal_id store.proposals p row in
        let learned =
          learn_from-Kept exc _ _ (find_row-put_row proposal_key store.proposals p _ again) in
        (
          Moves-trans store.proposals _ _ failed learned.0,
          learned.1 ∙ marks_kept attempt_id store a _ found refl,
        )
