-- ===== src/Execution/Effects/Claims.antt =====
-- The transactions that add an attempt: a refusal, which is not marked as sent, and a claim, which is.
use stock_brain.Prelude.{
  ℕ, ◌≡◌, ◌<◌, ◌⊎◌, refl, ◌∷◌, some, none, Option-cases, Bool-cases, inl, inr, true, false, ◌==◌,
  leb, arith,
}
use stock_brain.Enums.{ProposalStatus, ExecutionFailure, status_in}
use stock_brain.Control.{ControlSnapshot, trading_halted}
use stock_brain.Proposals.StateMachine.{can_transition, executable_statuses, assert_transition}
use stock_brain.Store.{TradeProposal, RequestPayload, Store, find_proposal}
use stock_brain.Store.Moves.{Moves, Moves-refl, put_next}
use stock_brain.Execution.Preflight.{PreflightRefusal}
use stock_brain.Execution.Sending.{
  record_refusal, claim_and_mark_sent, Claim, claim_of, sent_attempt,
}
use stock_brain.Execution.Service.{asserting}
use stock_brain.Execution.Effects.{marks, After, After-asserting}

-- A refusal adds at most one attempt, and not one that is marked as sent.
abbrev pub Refused : ℕ → ℕ → Store → Store → Type 0
Refused fresh proposal_id store next =
    Moves store.proposals next.proposals
    × ((marks next ≡ marks store)
        ⊎ (marks next
            ≡ record { id = fresh; proposal_id = proposal_id; sent = false } ∷ marks store))

pub record_refusal-Refused :
    (fresh proposal_id : ℕ) (command : RequestPayload) (refusal : PreflightRefusal)
    (category : ExecutionFailure) (now : ℕ) (store : Store)
    → After
        (Refused fresh proposal_id store)
        (record_refusal fresh proposal_id command refusal category now store)
unfolding record_refusal
record_refusal-Refused fresh proposal_id command refusal category now store =
    elim (Option-cases (find_proposal proposal_id store)) [
      | inl missing ↦ rw (missing, After) (Moves-refl store.proposals, inl refl)
      | inr (p, row) ↦ elim (Bool-cases refusal.invalidates) [
        | inr passing ↦ rw (row, passing, After) (Moves-refl store.proposals, inr refl)
        | inl final ↦ elim (Bool-cases (status_in p.status executable_statuses)) [
          | inr moved ↦ rw (row, final, moved, After) (Moves-refl store.proposals, inr refl)
          | inl approved ↦
              rw (row, final, approved, After)
                (After-asserting (Refused fresh proposal_id store) p.status
                  ProposalStatus.invalidated _
                  λ step. (put_next proposal_id store.proposals p _ row refl step, inr refl))
        ]
      ]
    ]

-- What a claim has checked, and what it leaves.
pub record IsClaimed (control : ControlSnapshot) (fresh proposal_id observed_version now : ℕ)
    (store next : Store) : Type 0 where
  pub row : TradeProposal
  pub found : find_proposal proposal_id store ≡ some row
  pub unchanged : (row.version == observed_version) ≡ true
  pub executable : status_in row.status executable_statuses ≡ true
  pub alive : now < row.expires_at
  pub unsent : sent_attempt proposal_id store.attempts ≡ none
  pub not_halted : trading_halted control ≡ false
  pub moved : Moves store.proposals next.proposals
  pub marked :
      marks next ≡ record { id = fresh; proposal_id = proposal_id; sent = true } ∷ marks store

claim_of_claimed :
    (current target : ProposalStatus) (written next : Store)
    → claim_of (asserting current target written) ≡ Claim.claimed next
    → (can_transition current target ≡ true) × (written ≡ next)
unfolding assert_transition
claim_of_claimed current target written next h = elim (Bool-cases (can_transition current target)) [
  | inl legal ↦ (legal, claimed_same (rw (legal, claim_of) at h))
  | inr illegal ↦ cc (rw (illegal, claim_of) at h)
]
  where
    claimed_same : Claim.claimed written ≡ Claim.claimed next → written ≡ next
    claimed_same e = cc e

-- A claim that is not lost has found the row as it was observed, approved, alive and unsent, and
-- trading not halted; it adds one attempt, marked as sent, and moves the proposal along the table.
pub claim-IsClaimed :
    (control : ControlSnapshot) (fresh proposal_id : ℕ) (command : RequestPayload)
    (observed_version now : ℕ) (store next : Store)
    → claim_and_mark_sent control fresh proposal_id command observed_version now store
      ≡ Claim.claimed next
    → IsClaimed control fresh proposal_id observed_version now store next
unfolding claim_and_mark_sent
claim-IsClaimed control fresh proposal_id command observed_version now store next h =
    elim (Option-cases (find_proposal proposal_id store)) [
      | inl missing ↦ cc (rw (missing, claim_and_mark_sent) at h)
      | inr (p, row) ↦ elim (Bool-cases (p.version == observed_version)) [
        | inr changed ↦ cc (rw (row, changed, claim_and_mark_sent) at h)
        | inl same ↦ elim (Bool-cases (status_in p.status executable_statuses)) [
          | inr moved ↦ cc (rw (row, same, moved, claim_and_mark_sent) at h)
          | inl approved ↦ elim (Bool-cases (leb p.expires_at now)) [
            | inl expired ↦ cc (rw (row, same, approved, expired, claim_and_mark_sent) at h)
            | inr alive ↦ elim (Option-cases (sent_attempt proposal_id store.attempts)) [
              | inr (a, sent) ↦ cc (rw (row, same, approved, alive, sent, claim_and_mark_sent) at h)
              | inl unsent ↦ elim (Bool-cases (trading_halted control)) [
                | inl halted ↦
                    cc (rw (row, same, approved, alive, unsent, halted, claim_and_mark_sent) at h)
                | inr running ↦
                    let (step, written) =
                      claim_of_claimed p.status ProposalStatus.executing _ next (
                        rw (row, same, approved, alive, unsent, running, claim_and_mark_sent) at
                          h) in
                    record {
                      row = p;
                      found = row;
                      unchanged = same;
                      executable = approved;
                      alive = ground (arith, alive);
                      unsent = unsent;
                      not_halted = running;
                      moved =
                          rw (← written) (put_next proposal_id store.proposals p _ row refl step);
                      marked = rw (← written) refl;
                    }
              ]
            ]
          ]
        ]
      ]
    ]
