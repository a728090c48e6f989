-- ===== src/Proposals/Lifecycle/Tests.antt =====
-- The theorems on the end of a proposal at concrete tables.
use stock_brain.Prelude.{All, ◌≡◌, refl, false, [], ◌∷◌, none, some, codes, map, text_eq}
use stock_brain.Decimal.{whole}
use stock_brain.Enums.{ProposalStatus, NotificationEvent}
use stock_brain.Tables.{find_row, put_row}
use stock_brain.Risk.Config.{default_config}
use stock_brain.Proposals.StateMachine.{can_transition}
use stock_brain.Store.{TradeProposal, Store, Message}
use stock_brain.Execution.Samples.{sale}
use stock_brain.Proposals.Lifecycle.{Termination, terminate, expire, expire_row}
use stock_brain.Proposals.Lifecycle.Standing.{precondition_failure}
use stock_brain.Proposals.Lifecycle.Sweep.{
  Preconditions, Market, sweep, visit_all, visit, by_age, insert_by_age, market_failure, take,
  invalidate_stale_preconditions, revalidate_market,
}
use stock_brain.Tables.Laws.{Pairwise}
use stock_brain.Proposals.Lifecycle.Moves.{expire_draft, sweep-IsSwept}
use stock_brain.Proposals.Lifecycle.Swept.{IsSwept, IsCurrent}
use stock_brain.Proposals.Lifecycle.Endings.{IsEnded, terminate-IsEnded}

-- A draft and a ready proposal that are past their time, and one that is authorized.
abbrev draft : TradeProposal
draft = record sale { id = 8; status = ProposalStatus.draft }

abbrev ready : TradeProposal
ready = record sale { id = 9; status = ProposalStatus.ready }

abbrev tables : Store
tables = record {
  proposals = sale ∷ draft ∷ ready ∷ [];
  actions = record { proposal_id = 9; consumed_at = none } ∷ [];
  instruments = [];
  attempts = [];
  orders = [];
  outbox = [];
  audit = [];
}

abbrev ended : Store
ended = record tables {
  proposals =
      sale
      ∷ draft
      ∷ record ready {
        status = ProposalStatus.rejected;
        updated_at = 50;
        version = 3;
        rejected_at = some 50;
        rejected_by = some (codes "ada");
      }
      ∷ [];
  actions = record { proposal_id = 9; consumed_at = some 50 } ∷ [];
  outbox = Message.send_notification 9 NotificationEvent.proposal_rejected ∷ [];
  audit = record { action = "proposal.rejected"; entity_id = 9 } ∷ [];
}

terminate-IsEnded_example : IsEnded Termination.rejection 9 tables ended
unfolding terminate find_row put_row can_transition
terminate-IsEnded_example =
    terminate-IsEnded Termination.rejection 9 (codes "ada") 50 tables ended refl

expire_draft_example :
    ((expire_row 120 draft).status ≡ ProposalStatus.expired)
    × (can_transition draft.status (expire_row 120 draft).status ≡ false)
expire_draft_example = expire_draft 120 draft refl refl

abbrev known : Preconditions
known = record { version = codes "2"; theses = []; account = none }

abbrev market : Market
market = record {
  config = default_config;
  max_rate_drift = whole 2;
  quote = λ _. none;
  fx = λ _. none;
}

-- The policy has changed, so that what has not expired is invalidated.
sweeps :
    map (λ (p : TradeProposal). p.status) (sweep known market 10 (λ _. false) 50 tables).3.proposals
    ≡ ProposalStatus.invalidated ∷ ProposalStatus.invalidated ∷ ProposalStatus.invalidated ∷ []
unfolding sweep expire invalidate_stale_preconditions revalidate_market visit_all visit by_age
    insert_by_age precondition_failure market_failure take find_row put_row can_transition text_eq
sweeps = refl

sweep-IsSwept_example :
    Pairwise
      (IsSwept 50)
      tables.proposals
      (sweep known market 10 (λ _. false) 50 tables).3.proposals
    × All (IsCurrent 50) (sweep known market 10 (λ _. false) 50 tables).3.proposals
sweep-IsSwept_example = sweep-IsSwept known market 10 (λ _. false) 50 tables
