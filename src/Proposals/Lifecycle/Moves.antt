-- ===== src/Proposals/Lifecycle/Moves.antt =====
-- What the sweep makes of each proposal.
use stock_brain.Prelude.{
  ℕ, ◌≡◌, refl, ◌⊎◌, List, [], ◌∷◌, Bool, true, false, Option-cases, Bool-cases, inl, inr, map,
  filter, arith, All, leb,
}
use stock_brain.Enums.{ProposalStatus, NotificationEvent, status_in}
use stock_brain.Proposals.StateMachine.{can_transition}
use stock_brain.Tables.Laws.{Pairwise, put_row-Pairwise, find_row_again}
use stock_brain.Store.{proposal_key, TradeProposal, Store, find_proposal, BrokerInstrument}
use stock_brain.Proposals.Lifecycle.{
  sweepable_statuses, expire, expire_row, lapses, notify_each, expired_store, invalidate,
}
use stock_brain.Proposals.Lifecycle.Sweep.{
  visit, visit_all, fails_precondition, fails_market, Preconditions, Market,
  invalidate_stale_preconditions, revalidate_market, sweep, active_rows, oldest_rows,
}
use stock_brain.Proposals.Lifecycle.Swept.{
  IsSwept, lapsed, retired, Sweeps, IsSwept-refl, Sweeps-refl, Sweeps-trans, IsCurrent,
  Sweeps-IsCurrent,
}

-- A test that a row fails only where the table lets it be invalidated.
abbrev Guarded : (TradeProposal → Bool) → Type 0
Guarded fails =
    (p : TradeProposal) → fails p ≡ true → can_transition p.status ProposalStatus.invalidated ≡ true

visit-Sweeps :
    (fails : TradeProposal → Bool) (now id : ℕ) (store : Store)
    → Guarded fails
    → Sweeps now store.proposals (visit fails now id store).1.proposals
unfolding visit
visit-Sweeps fails now id store guarded = elim (Option-cases (find_proposal id store)) [
  | inl missing ↦ rw (missing, visit) (Sweeps-refl now store.proposals)
  | inr (p, row) ↦ elim (Bool-cases (fails p)) [
    | inr good ↦ rw (row, good, visit) (Sweeps-refl now store.proposals)
    | inl bad ↦
        rw (row, bad, visit)
          (put_row-Pairwise proposal_key (IsSwept now) (IsSwept-refl now) store.proposals p
            (invalidate now p) (find_row_again proposal_key id store.proposals p row)
            (retired (record { step = guarded p bad; written = refl })))
  ]
]

visit_all-Sweeps :
    (fails : TradeProposal → TradeProposal → Bool) (now : ℕ) (rows : List TradeProposal)
    (store : Store)
    → ((p : TradeProposal) → Guarded (fails p))
    → Sweeps now store.proposals (visit_all fails now rows store).1.proposals
unfolding visit_all
visit_all-Sweeps fails now [] store guarded = Sweeps-refl now store.proposals
visit_all-Sweeps fails now (p ∷ rows) store guarded =
    let next_store = (visit (fails p) now p.id store).1 in
    Sweeps-trans now store.proposals next_store.proposals _
      (visit-Sweeps (fails p) now p.id store (guarded p))
      (visit_all-Sweeps fails now rows next_store guarded)

sweepable_invalidated :
    (s : ProposalStatus)
    → status_in s sweepable_statuses ≡ true
    → can_transition s ProposalStatus.invalidated ≡ true
unfolding can_transition
sweepable_invalidated ProposalStatus.draft h = refl
sweepable_invalidated _ h = ground (arith, h)

fails_market-Guarded :
    (market : Market) (instruments : List BrokerInstrument) (p : TradeProposal)
    → Guarded (fails_market market instruments p)
fails_market-Guarded market instruments p locked h =
    sweepable_invalidated locked.status (ground (arith, h))

-- The rows of `expire`, one by one.
expiry_step :
    (s : ProposalStatus)
    → status_in s sweepable_statuses ≡ true
    → (s ≡ ProposalStatus.draft) ⊎ (can_transition s ProposalStatus.expired ≡ true)
unfolding can_transition
expiry_step ProposalStatus.draft h = inl refl
expiry_step _ h = inr (ground (arith, h))

expire_row-IsSwept : (now : ℕ) (p : TradeProposal) → IsSwept now p (expire_row now p)
expire_row-IsSwept now p = elim (Bool-cases (lapses now p)) [
  | inr stays ↦ rw (stays, expire_row) (IsSwept-refl now p)
  | inl gone ↦
      let open_row : status_in p.status sweepable_statuses ≡ true = (ground (arith, gone)) in
      rw (gone, expire_row)
        (lapsed (record {
          undecided = open_row;
          past = ground (arith, gone);
          step = expiry_step p.status open_row;
          written = refl;
        }))
]

expire_rows-Sweeps :
    (now : ℕ) (rows : List TradeProposal) → Sweeps now rows (map (expire_row now) rows)
expire_rows-Sweeps now [] = tt
expire_rows-Sweeps now (p ∷ rows) = (expire_row-IsSwept now p, expire_rows-Sweeps now rows)

-- Notifications leave the proposals.
notify_each_proposals :
    (ids : List ℕ) (event : NotificationEvent) (store : Store)
    → (notify_each ids event store).proposals ≡ store.proposals
notify_each_proposals [] event store = refl
notify_each_proposals (id ∷ ids) event store = notify_each_proposals ids event _

expire_rows :
    (now : ℕ) (store : Store)
    → (expire now store).1.proposals ≡ map (expire_row now) store.proposals
unfolding expire
expire_rows now store =
    let ids = map proposal_key (filter (lapses now) store.proposals) in
    notify_each_proposals ids NotificationEvent.proposal_expired (expired_store ids now store)

expire_row-IsCurrent : (now : ℕ) (p : TradeProposal) → IsCurrent now (expire_row now p)
expire_row-IsCurrent now p = elim (Bool-cases (lapses now p)) [
  | inl gone ↦ rw (gone, expire_row) (λ waiting. absurd (ground (arith, waiting)))
  | inr stays ↦ rw (stays, expire_row) (λ waiting. ground (arith, stays, waiting))
]

expired_rows :
    (now : ℕ) (rows : List TradeProposal) → All (IsCurrent now) (map (expire_row now) rows)
expired_rows now [] = tt
expired_rows now (p ∷ rows) = (expire_row-IsCurrent now p, expired_rows now rows)

-- A draft that is past its time is expired, and the transition table has no such step.
pub expire_draft :
    (now : ℕ) (p : TradeProposal)
    → p.status ≡ ProposalStatus.draft
    → leb p.expires_at now ≡ true
    → ((expire_row now p).status ≡ ProposalStatus.expired)
      × (can_transition p.status (expire_row now p).status ≡ false)
unfolding can_transition
expire_draft now p draft past =
    let gone : lapses now p ≡ true = (rw (draft, past) refl) in
    (rw (gone, expire_row) refl, rw (gone, expire_row, draft) refl)

-- The sweep adds and drops no proposal, and takes each one step at most. It expires a proposal that
-- nobody has decided on and whose time has passed, by a step of the table or out of `DRAFT`, or
-- invalidates one by a step of the table, and changes nothing else of the row. Afterwards no proposal
-- that nobody has decided on is past its time.
pub sweep-IsSwept :
    (known : Preconditions) (market : Market) (limit : ℕ) (locked : ℕ → Bool) (now : ℕ)
    (store : Store)
    → Pairwise (IsSwept now) store.proposals (sweep known market limit locked now store).3.proposals
      × All (IsCurrent now) (sweep known market limit locked now store).3.proposals
unfolding sweep invalidate_stale_preconditions revalidate_market
sweep-IsSwept known market limit locked now store =
    let s = (expire now store).1 in
    let t = (invalidate_stale_preconditions known locked now s).1 in
    let first : Sweeps now store.proposals s.proposals =
      (rw (expire_rows now store) (expire_rows-Sweeps now store.proposals)) in
    let second : Sweeps now s.proposals t.proposals =
      visit_all-Sweeps (λ _. fails_precondition known s.instruments) now (active_rows locked s) s
        (λ p q h. ground (arith, h)) in
    let third =
      visit_all-Sweeps (fails_market market t.instruments) now (oldest_rows limit t) t
        (fails_market-Guarded market t.instruments) in
    let later = Sweeps-trans now s.proposals t.proposals _ second third in
    let current : All (IsCurrent now) s.proposals =
      (rw (expire_rows now store) (expired_rows now store.proposals)) in
    (
      Sweeps-trans now store.proposals s.proposals _ first later,
      Sweeps-IsCurrent now s.proposals _ later current,
    )
