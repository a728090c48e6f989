-- ===== src/Execution/Run/Sends.antt =====
-- What has passed when `execute` transmits, and when the send transaction succeeds.
use mathlib.Core.Path.{subst}
use stock_brain.Prelude.{
  ℕ, ◌+◌, ◌-◌, ◌≤◌, ◌≡◌, ◌∙◌, ap, refl, some, none, Option-cases, Bool-cases, inl, inr, true, false,
  ltb, arith,
}
use stock_brain.Enums.{status_in}
use stock_brain.Proposals.StateMachine.{executable_statuses}
use stock_brain.Store.{TradeProposal, RequestPayload, Store, find_proposal}
use stock_brain.Execution.Preflight.{run, permitted}
use stock_brain.Execution.Provider.{command_from}
use stock_brain.Execution.Sending.{
  Claim, sent_attempt, pending_order_refusal, unresolved_sent_for_ticker, larger,
}
use stock_brain.Execution.Run.{Surroundings, Execution, send, execute, after_claim}
use stock_brain.Execution.Effects.Claims.{IsClaimed, claim-IsClaimed}

-- The claim that a transmission rests on.
after_claim_transmits :
    (fresh sent_as : ℕ) (command sent : RequestPayload) (store next : Store) (claim : Claim)
    → after_claim fresh command store claim ≡ Execution.transmit sent_as sent next
    → (claim ≡ Claim.claimed next) × (fresh ≡ sent_as) × (command ≡ sent)
after_claim_transmits fresh sent_as command sent store next Claim.lost h = cc
after_claim_transmits fresh sent_as command sent store next Claim.raised h = cc
after_claim_transmits fresh sent_as command sent store next (Claim.claimed found) h =
    let same : found ≡ next = cc h in
    let id : fresh ≡ sent_as = cc h in
    let request : command ≡ sent = cc h in (ap Claim.claimed same, id, request)

-- The broker's queue for the listing was read, and leaves room for one more order below the ceiling.
pub HasRoom : Surroundings → RequestPayload → Store → Type 0
HasRoom s command store =
    (s.pending.read_ok ≡ true)
    × (larger s.pending.pending (unresolved_sent_for_ticker s.settings command.broker_ticker store)
          + 1
        ≤ s.limits.max_pending_orders - s.limits.headroom)

room_left :
    (s : Surroundings) (command : RequestPayload) (store : Store)
    → pending_order_refusal s.settings s.limits s.pending command.broker_ticker store ≡ none
    → HasRoom s command store
unfolding pending_order_refusal HasRoom
room_left s command store h = elim (Bool-cases s.pending.read_ok) [
  | inr unread ↦ cc (rw (pending_order_refusal, unread) at h)
  | inl read ↦
      let observed =
        larger s.pending.pending
          (unresolved_sent_for_ticker s.settings command.broker_ticker store) in
      let ceiling = s.limits.max_pending_orders - s.limits.headroom in
      elim (Bool-cases (ltb ceiling (observed + 1))) [
        | inl full ↦ cc (rw (pending_order_refusal, read, full) at h)
        | inr room ↦ (read, ground (arith, room))
      ]
]

-- What a transmission has passed: the checks before sending permitted it, the queue of the listing has
-- room, a slot was taken, the request is the proposal's own, and the send transaction succeeded.
pub record IsPassed (s : Surroundings) (fresh proposal_id now : ℕ) (store next : Store)
    (command : RequestPayload) : Type 0 where
  pub row : TradeProposal
  pub found : find_proposal proposal_id store ≡ some row
  pub own_request : command_from row ≡ some command
  pub passed_checks :
      permitted (run s.settings s.provider_environment s.control s.revalidate row now false) ≡ true
  pub room : HasRoom s command store
  pub slot : s.slot ≡ true
  pub claim : IsClaimed s.control_at_send fresh row.id row.version now store next

send-IsPassed :
    (s : Surroundings) (fresh proposal_id now : ℕ) (p : TradeProposal) (store next : Store)
    (command sent : RequestPayload) (sent_as : ℕ)
    → find_proposal proposal_id store ≡ some p
    → command_from p ≡ some command
    → send s fresh p command now store ≡ Execution.transmit sent_as sent next
    → IsPassed s fresh proposal_id now store next sent
unfolding send
send-IsPassed s fresh proposal_id now p store next command sent sent_as row made h =
    let checks = run s.settings s.provider_environment s.control s.revalidate p now false in
    let queue = pending_order_refusal s.settings s.limits s.pending command.broker_ticker store in
    elim (Option-cases checks.refusal) [
      | inr (refusal, e) ↦ cc (rw (e, send) at h)
      | inl permitted_ ↦ elim (Option-cases queue) [
        | inr (refusal, e) ↦ cc (rw (permitted_, e, send) at h)
        | inl open_ ↦ elim (Bool-cases s.slot) [
          | inr no_slot ↦ cc (rw (permitted_, open_, no_slot, send) at h)
          | inl slot ↦
              let parts =
                after_claim_transmits fresh sent_as command sent store next _
                  (rw (permitted_, open_, slot, send) at h) in
              let same = parts.2 in
              record {
                row = p;
                found = row;
                own_request = made ∙ ap some same;
                passed_checks = rw permitted_ refl;
                room = subst (λ c. HasRoom s c store) same (room_left s command store open_);
                slot = slot;
                claim =
                    claim-IsClaimed s.control_at_send fresh p.id command p.version now store next
                      parts.0;
              }
        ]
      ]
    ]

-- An order that `execute` transmits is the request of a proposal of the table that the checks
-- permitted; the broker's queue for its ticker was read and has room, the rate limiter gave a slot, and
-- the claim under the lock found the proposal unchanged, unsent and trading not halted, and recorded
-- the sent attempt in the tables that are left.
pub execute-IsPassed :
    (s : Surroundings) (fresh proposal_id now : ℕ) (store next : Store) (command : RequestPayload)
    (sent_as : ℕ)
    → execute s fresh proposal_id now store ≡ Execution.transmit sent_as command next
    → IsPassed s fresh proposal_id now store next command
unfolding execute
execute-IsPassed s fresh proposal_id now store next command sent_as h =
    elim (Option-cases (find_proposal proposal_id store)) [
      | inl missing ↦ cc (rw (missing, execute) at h)
      | inr (p, row) ↦ elim (Option-cases (sent_attempt proposal_id store.attempts)) [
        | inr (a, e) ↦ cc (rw (row, e, execute) at h)
        | inl unsent ↦ elim (Bool-cases (status_in p.status executable_statuses)) [
          | inr moved ↦ cc (rw (row, unsent, moved, execute) at h)
          | inl approved ↦ elim (Option-cases (command_from p)) [
            | inl bad ↦ cc (rw (row, unsent, approved, bad, execute) at h)
            | inr (made, e) ↦
                send-IsPassed s fresh proposal_id now p store next made command sent_as row e
                  (rw (row, unsent, approved, e, execute) at h)
          ]
        ]
      ]
    ]
