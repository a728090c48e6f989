-- ===== src/Store/Moves.antt =====
-- Every proposal of a table keeps its identifier, and its status follows the transition table.
use stock_brain.Prelude.{ℕ, ◌≡◌, refl, ◌∙◌, List, some, true}
use stock_brain.Enums.{ProposalStatus}
use stock_brain.Proposals.StateMachine.{can_transition}
use stock_brain.Proposals.StateMachine.Laws.{Reaches, here, next}
use stock_brain.Tables.{find_row, put_row}
use stock_brain.Tables.Laws.{
  Pairwise, Pairwise-refl, Pairwise-trans, put_row-Pairwise, find_row_again,
}
use stock_brain.Store.{TradeProposal, proposal_key}

-- What a row may become: the same proposal, in a status that a history of legal transitions reaches.
abbrev pub Move : TradeProposal → TradeProposal → Type 0
Move p q = (q.id ≡ p.id) × Reaches p.status q.status

pub Reaches-trans : {s t u : ProposalStatus} → Reaches s t → Reaches t u → Reaches s u
Reaches-trans r here = r
Reaches-trans r (next u q step) = next u (Reaches-trans r q) step

pub Move-refl : (p : TradeProposal) → Move p p
Move-refl p = (refl, here)

-- The tables before and after an operation.
abbrev pub Moves : List TradeProposal → List TradeProposal → Type 0
Moves = Pairwise Move

pub Moves-refl : (rows : List TradeProposal) → Moves rows rows
Moves-refl = Pairwise-refl Move Move-refl

pub Moves-trans : (xs ys zs : List TradeProposal) → Moves xs ys → Moves ys zs → Moves xs zs
Moves-trans = Pairwise-trans Move (λ x y z h k. (k.0 ∙ h.0, Reaches-trans h.1 k.1))

-- A row that was read is written with its own status, or with one that the table allows.
pub put_same :
    (id : ℕ) (rows : List TradeProposal) (p new : TradeProposal)
    → find_row proposal_key id rows ≡ some p
    → new.id ≡ p.id
    → new.status ≡ p.status
    → Moves rows (put_row proposal_key new rows)
put_same id rows p new found same_id same_status =
    put_row-Pairwise proposal_key Move Move-refl rows p new
      (rw same_id (find_row_again proposal_key id rows p found)) (same_id, rw same_status here)

pub put_next :
    (id : ℕ) (rows : List TradeProposal) (p new : TradeProposal)
    → find_row proposal_key id rows ≡ some p
    → new.id ≡ p.id
    → can_transition p.status new.status ≡ true
    → Moves rows (put_row proposal_key new rows)
put_next id rows p new found same_id step =
    put_row-Pairwise proposal_key Move Move-refl rows p new
      (rw same_id (find_row_again proposal_key id rows p found))
      (same_id, next new.status here step)
