-- ===== src/Execution/Rejection.antt =====
-- backend/stockbrain/execution/service.py: a refusal by the broker, and the precision of a quantity that
-- the broker's own sentence teaches. `\d` is a digit of ASCII.
pub mod Learning
use mathlib.Core.List.{reverse}
use stock_brain.Prelude.{
  ℕ, zero, suc, ◌+◌, ◌*◌, ◌-◌, Bool, true, false, not, ◌&&◌, List, [], ◌∷◌, Option, none, some,
  Text, codes, leb, ◌==◌, if◌then◌else◌, starts_with,
}
use stock_brain.Enums.{ProposalStatus, ExecutionOutcome, ExecutionFailure, NotificationEvent}
use stock_brain.Tables.{find_row, put_row}
use stock_brain.Store.{
  TradeProposal, ExecutionAttempt, BrokerInstrument, Message, Store, save_proposal, save_attempt,
  log_action, post, set_status, instrument_key,
}
use stock_brain.Execution.Service.{asserting, with_rows, notify_of}

-- `BrokerRejection`: `payload_type` is the text under `type` in the payload, if it is one.
pub record BrokerRejection : Type 0 where
  pub status : ℕ
  pub category : ExecutionFailure
  pub payload_type : Option Text
  pub detail : Option Text

abbrev pub is_digit : ℕ → Bool
is_digit c = leb b'0' c && leb c b'9'

-- `\d+` at the head of a text, with what was read before it.
unfoldable pub read_digits : ℕ → Text → ℕ
read_digits acc [] = acc
read_digits acc (c ∷ text) =
    let longer = read_digits (acc * 10 + (c - b'0')) text in if is_digit c then longer else acc

abbrev pub starts_with_digit : Text → Bool
starts_with_digit [] = false
starts_with_digit (c ∷ _) = is_digit c

unfoldable pub drop : ℕ → Text → Text
drop zero text = text
drop (suc n) [] = []
drop (suc n) (_ ∷ text) = drop n text

-- `re.search(r"precision (\d+)", detail)`
unfoldable pub search_precision : Text → Option ℕ
unfolding read_digits drop
search_precision [] = none
search_precision (c ∷ text) =
    let later = search_precision text in
    let after = drop 10 (c ∷ text) in
    if starts_with (codes "precision ") (c ∷ text) && starts_with_digit after
    then some (read_digits 0 after)
    else later

abbrev pub ends_with : Text → Text → Bool
ends_with suffix text = starts_with (reverse suffix) (reverse text)

abbrev pub max_learnable_quantity_precision : ℕ
max_learnable_quantity_precision = 8

abbrev pub is_mismatch : Option Text → Bool
is_mismatch none = false
is_mismatch (some t) = ends_with (codes "quantity-precision-mismatch") t

abbrev pub learnable : Option ℕ → Option ℕ
learnable none = none
learnable (some n) = if leb n max_learnable_quantity_precision then some n else none

-- `_quantity_precision_from`
unfoldable pub quantity_precision_from : BrokerRejection → Option ℕ
unfolding search_precision
quantity_precision_from exc =
    if not (is_mismatch exc.payload_type)
    then none
    else elim exc.detail [ none ↦ none | some text ↦ learnable (search_precision text) ]

-- The precision that is stored, compared with a new one.
abbrev pub is_stored : ℕ → ℕ → Store → Bool
is_stored instrument_id precision store =
    elim (find_row instrument_key instrument_id store.instruments) [
      | none ↦ false
      | some row ↦ elim row.quantity_precision [ none ↦ false | some n ↦ n == precision ]
    ]

-- `UPDATE broker_instruments SET quantity_precision = … WHERE id = …`
unfoldable pub set_precision : ℕ → ℕ → List BrokerInstrument → List BrokerInstrument
set_precision instrument_id precision [] = []
set_precision instrument_id precision (row ∷ rows) =
    (if row.id == instrument_id then record row { quantity_precision = some precision } else row)
    ∷ set_precision instrument_id precision rows

-- Learned: the failed proposal gives up its key, and its thesis may generate another. The row is
-- written a second time.
unfoldable pub learn_precision : ℕ → ℕ → TradeProposal → Store → Store
unfolding set_precision
learn_precision instrument_id precision p store =
    let freed =
      save_proposal (record p { dedupe_key = none; version = suc p.version })
        (record store { instruments = set_precision instrument_id precision store.instruments }) in
    if is_stored instrument_id precision store then store else elim p.research_run_id [
      | none ↦ freed
      | some run ↦ post (Message.generate_for_run run) freed
    ]

unfoldable pub learn_from : BrokerRejection → TradeProposal → Store → Store
unfolding learn_precision quantity_precision_from
learn_from exc p store = elim (quantity_precision_from exc) [
  | none ↦ store
  | some precision ↦ elim p.broker_instrument_id [
    | none ↦ store
    | some instrument_id ↦ learn_precision instrument_id precision p store
  ]
]

abbrev pub rejected_attempt : BrokerRejection → ℕ → ExecutionAttempt → ExecutionAttempt
rejected_attempt exc now attempt = record attempt {
  outcome = ExecutionOutcome.rejected_by_broker;
  ambiguous = false;
  http_status = some exc.status;
  error_category = some exc.category;
  completed_at = some now;
}

-- `_record_rejection`
unfoldable pub record_rejection : ℕ → ℕ → BrokerRejection → ℕ → Store → Option Store
unfolding learn_from
record_rejection attempt_id proposal_id exc now store =
    with_rows attempt_id proposal_id store λ attempt proposal.
      let failed = set_status ProposalStatus.failed now proposal in
      asserting proposal.status ProposalStatus.failed (
        learn_from exc failed (
          notify_of proposal_id NotificationEvent.execution_rejected (
            log_action "execution.rejected" proposal_id
              (save_proposal failed (save_attempt (rejected_attempt exc now attempt) store)))))
