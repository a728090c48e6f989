-- ===== src/Execution/Tests.antt =====
-- The theorems on sending and reconciliation at concrete tables.
use stock_brain.Prelude.{◌≤◌, refl, true, [], ◌∷◌, none, some, codes, text_eq}
use stock_brain.Decimal.{whole, decimal_operations, neg_dec}
use stock_brain.Enums.{ProposalStatus, ExecutionFailure, ExecutionOutcome, OrderSide}
use stock_brain.Control.{trading_halted}
use stock_brain.Tables.{find_row, put_row}
use stock_brain.Proposals.StateMachine.{assert_transition, can_transition}
use stock_brain.Risk.Models.{position, lookup}
use stock_brain.Store.{RequestPayload, Store}
use stock_brain.Store.Moves.{Moves}
use stock_brain.Execution.Settings.{order_transmission_blockers, execution_blockers}
use stock_brain.Execution.Preflight.{run, judge, permission_reasons, state_reasons, position_reason}
use stock_brain.Execution.Samples.{sale, demo_settings, running, passed, always}
use stock_brain.Execution.Provider.{BrokerOrderView, CandidateSearch, command_from}
use stock_brain.Execution.Sending.{
  pending_attempt, claim_and_mark_sent, sent_attempt, next_attempt_number, pending_order_refusal,
  unresolved_sent_for_ticker,
}
use stock_brain.Execution.Rejection.{BrokerRejection}
use stock_brain.Execution.Run.{Surroundings, Answer, execute, send}
use stock_brain.Execution.Run.Sends.{IsPassed, execute-IsPassed}
use stock_brain.Execution.Reconciliation.{AttemptFacts, search_for_order}
use stock_brain.Execution.Reconciliation.Conclusions.{IsSupported, search-IsSupported}
use stock_brain.Execution.Transmission.{System, Worker, Step, Reachable}
use stock_brain.Execution.Transmission.Once.{transmissions}
use stock_brain.Execution.Transmission.Histories.{transmitted_once, Reachable-Moves}

abbrev tables : Store
tables = record {
  proposals = sale ∷ [];
  actions = [];
  instruments = [];
  attempts = [];
  orders = [];
  outbox = [];
  audit = [];
}

abbrev request : RequestPayload
request = record {
  broker_ticker = codes "ACME_US_EQ";
  side = OrderSide.sell;
  signed_quantity = neg_dec (whole 3);
}

abbrev surroundings : Surroundings
surroundings = record {
  settings = demo_settings;
  limits = record { max_pending_orders = 50; headroom = 5 };
  provider_environment = codes "demo";
  control = running;
  control_at_send = running;
  revalidate = always passed;
  pending = record { pending = 2; read_ok = true };
  slot = true;
}

-- The tables with the attempt that was claimed for the proposal.
abbrev sending : Store
sending = record tables {
  proposals = record sale { status = ProposalStatus.executing; updated_at = 50; version = 3 } ∷ [];
  attempts = pending_attempt 90 7 request sale 50 [] ∷ [];
  audit = record { action = "execution.transmitting"; entity_id = 7 } ∷ [];
}

execute-IsPassed_example : IsPassed surroundings 90 7 50 tables sending request
unfolding execute send run judge permission_reasons state_reasons position_reason
    order_transmission_blockers execution_blockers trading_halted text_eq position lookup
    decimal_operations command_from claim_and_mark_sent sent_attempt next_attempt_number
    pending_order_refusal unresolved_sent_for_ticker find_row put_row assert_transition
    can_transition
execute-IsPassed_example = execute-IsPassed surroundings 90 7 50 tables sending request 90 refl

abbrev idle : System
idle = record { store = tables; workers = []; received = [] }

abbrev worker : Worker
worker = record { attempt_id = 90; proposal_id = 7; answer = none }

abbrev lost_answer : Answer
lost_answer = Answer.ambiguous_failure (codes "BROKER_TIMEOUT")

abbrev answered : Worker
answered = record worker { answer = some lost_answer }

-- A claim, a request without an answer, and a crash of the worker.
crash : Reachable idle (record { store = sending; workers = []; received = 7 ∷ [] })
unfolding claim_and_mark_sent sent_attempt next_attempt_number find_row put_row assert_transition
    can_transition trading_halted
crash =
    Reachable.next {s = record { store = sending; workers = answered ∷ []; received = 7 ∷ [] }}
      (Reachable.next {s = record { store = sending; workers = worker ∷ []; received = [] }}
        (Reachable.next {s = idle} Reachable.here
          (Step.claimed {s = idle} running 90 7 request 2 50 sending (tt, tt) refl))
        (Step.submitted [] [] worker lost_answer refl refl))
      (Step.stopped [] [] answered refl)

transmitted_once_example : transmissions 7 (7 ∷ []) ≤ 1
transmitted_once_example = transmitted_once crash (λ p. refl) refl refl 7

Reachable-Moves_example : Moves (sale ∷ []) sending.proposals
Reachable-Moves_example = Reachable-Moves crash

abbrev facts : AttemptFacts
facts = record {
  attempt_id = 90;
  proposal_id = 7;
  outcome = ExecutionOutcome.ambiguous;
  broker_order_id = none;
  broker_environment = codes "demo";
  broker_ticker = codes "ACME_US_EQ";
  signed_quantity = whole 3;
  sent_at = some 50;
}

-- Another listing's order is no candidate.
abbrev foreign : BrokerOrderView
foreign = record {
  broker_order_id = codes "1";
  broker_ticker = some (codes "OTHER");
  signed_quantity = some (whole 3);
  filled_quantity = none;
  filled_value = none;
  status = some (codes "NEW");
  order_type = some (codes "MARKET");
  currency = none;
  created_at = some 55;
  initiated_from = some (codes "API");
}

abbrev read_both : CandidateSearch
read_both = record { candidates = foreign ∷ []; pending_ok = true; history_ok = true }

search-IsSupported_example :
    IsSupported facts [] read_both 60 200 (search_for_order facts [] read_both 60 200)
search-IsSupported_example = search-IsSupported facts [] read_both 60 200

abbrev mismatch : BrokerRejection
mismatch = record {
  status = 400;
  category = ExecutionFailure.broker_rejected;
  payload_type = some (codes "errors/quantity-precision-mismatch");
  detail = some (codes "allowed precision 2");
}
