-- ===== src/Proposals/Authorization/Tests.antt =====
-- The theorems on authorization at a proposal of sixteen shares.
use stock_brain.Prelude.{◌≡◌, refl, true, false, [], ◌∷◌, none, some, codes, any}
use stock_brain.Decimal.{whole, places, leb_dec}
use stock_brain.Enums.{ProposalStatus, AuthorizationSource, OrderSide}
use stock_brain.Tables.{find_row, put_row}
use stock_brain.Proposals.StateMachine.{can_transition, assert_transition}
use stock_brain.Risk.Config.{default_config}
use stock_brain.Risk.Models.{FxSnapshot}
use stock_brain.Risk.Engine.{evaluate, blocks}
use stock_brain.Risk.Operations.{risk_operations}
use stock_brain.Risk.Samples.{buy_inputs, buy_decision, sample_quote, sample_account, rateless}
use stock_brain.Store.{TradeProposal, Store, find_proposal}
use stock_brain.Execution.Samples.{sale, running}
use stock_brain.Control.{trading_halted}
use stock_brain.Proposals.Authorization.{
  EvaluationFacts, Authorization, authorize, authorize_locked, assert_authorizable, grant,
  refuse_blocked, authorization_rules, envelope_still_covers, policy_version_unchanged, is_side,
}
use stock_brain.Proposals.Authorization.Grants.{IsGranted, authorize-IsGranted, granted_within}

abbrev purchase : TradeProposal
purchase = record sale {
  side = OrderSide.buy;
  status = ProposalStatus.approval_pending;
  authorization_source = none;
  risk_policy_version = some default_config.version;
  proposed_quantity = whole 16;
  max_quantity = whole 16;
  reference_price = places 1001 2;
  expires_at = 9000000;
}

abbrev tables : Store
tables = record {
  proposals = purchase ∷ [];
  actions = record { proposal_id = 7; consumed_at = none } ∷ [];
  instruments = [];
  attempts = [];
  orders = [];
  outbox = [];
  audit = [];
}

abbrev own_currency : FxSnapshot
own_currency = record rateless {
  account_currency = codes "USD";
  same_currency = true;
  rate = some (whole 1);
}

abbrev facts : EvaluationFacts
facts = record { account = some sample_account; quote = some sample_quote; fx = some own_currency }

-- The tables with the approval: the envelope of the fresh decision is nineteen shares.
abbrev approved : Store
approved = record tables {
  proposals =
      record purchase {
        status = ProposalStatus.approved;
        authorization_source = some AuthorizationSource.human_web;
        approved_by = some (codes "ada");
        approved_at = some 5000000;
        updated_at = 5000000;
        version = 3;
        max_quantity = whole 19;
        estimated_notional = places 16016 2;
        estimated_notional_account_currency = some (places 1601600 4);
      }
      ∷ [];
  actions = record { proposal_id = 7; consumed_at = some 5000000 } ∷ [];
  audit = record { action = "proposal.authorized"; entity_id = 7 } ∷ [];
}

grants :
    authorize running false default_config
      (whole 2)
      buy_decision
      facts
      7
      AuthorizationSource.human_web
      (codes "ada")
      5000000
      tables
      tables
    ≡ Authorization.granted approved
unfolding risk_operations authorize authorize_locked assert_authorizable grant refuse_blocked
    authorization_rules envelope_still_covers policy_version_unchanged find_row put_row
    can_transition assert_transition trading_halted
grants = refl

buy_runs : evaluate buy_inputs 5000000 ≡ some buy_decision
unfolding risk_operations
buy_runs = refl

authorize-IsGranted_example :
    IsGranted running false default_config
      (whole 2)
      buy_decision
      facts
      7
      AuthorizationSource.human_web
      (codes "ada")
      5000000
      tables
      tables
      approved
authorize-IsGranted_example =
    authorize-IsGranted running false default_config (whole 2) buy_decision facts 7
      AuthorizationSource.human_web (codes "ada") 5000000 tables tables approved grants

granted_within_example :
    (p : TradeProposal) × (find_proposal 7 approved ≡ some p)
    × (p.status ≡ ProposalStatus.approved)
    × (any blocks buy_decision.rules ≡ false)
    × (is_side buy_decision.sizing.side p.side ≡ true)
    × (leb_dec p.proposed_quantity buy_decision.sizing.max_quantity ≡ true)
granted_within_example =
    granted_within buy_inputs 5000000 buy_decision running false default_config (whole 2) facts 7
      AuthorizationSource.human_web (codes "ada") 5000000 tables tables approved buy_runs grants
