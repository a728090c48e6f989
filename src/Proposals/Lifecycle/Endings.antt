-- ===== src/Proposals/Lifecycle/Endings.antt =====
-- Rejection and cancellation.
use mathlib.Core.Path.{subst}
use stock_brain.Prelude.{
  ℕ, ◌≡◌, refl, List, [], ◌∷◌, some, true, Option-cases, Bool-cases, inl, inr, map, arith, All,
  Text, present, ◌==◌,
}
use stock_brain.Tables.Laws.{find_row_again, find_row-put_row, find_row-key}
use stock_brain.Proposals.StateMachine.{can_transition}
use stock_brain.Store.{
  TradeProposal, ApprovalAction, Store, find_proposal, proposal_key, save_proposal,
}
use stock_brain.Store.Moves.{Moves, put_next}
use stock_brain.Proposals.Lifecycle.{
  Termination, terminate, target_of, terminated, announced, retire_action, retire_approval_actions,
}

-- No token of the proposal can be used.
abbrev pub NoToken : ℕ → List ApprovalAction → Type 0
NoToken id actions =
    All (λ (a : ApprovalAction). (id == a.proposal_id) ≡ true → present a.consumed_at ≡ true)
      actions

pub retired :
    (id now : ℕ) (actions : List ApprovalAction)
    → NoToken id (map (retire_action (id ∷ []) now) actions)
retired id now [] = tt
retired id now (a ∷ actions) = (row, retired id now actions)
  where
    row :
        (id == (retire_action (id ∷ []) now a).proposal_id) ≡ true
        → present (retire_action (id ∷ []) now a).consumed_at ≡ true
    row = ground arith

-- What a successful ending leaves: the proposal in the status asked for, which the table allows, and
-- no usable token of it.
pub record IsEnded (how : Termination) (id : ℕ) (store after : Store) : Type 0 where
  pub row : TradeProposal
  pub found : find_proposal id store ≡ some row
  pub legal : can_transition row.status (target_of how) ≡ true
  pub moved : Moves store.proposals after.proposals
  pub ended : TradeProposal
  pub read : find_proposal id after ≡ some ended
  pub status : ended.status ≡ target_of how
  pub no_token : NoToken id after.actions

IsEnded-store :
    (how : Termination) (id : ℕ) (actor : Text) (now : ℕ) (store : Store) (p : TradeProposal)
    → find_proposal id store ≡ some p
    → can_transition p.status (target_of how) ≡ true
    → IsEnded how id store (
        announced how p.id (
          retire_approval_actions
            (p.id ∷ [])
            now
            (save_proposal (terminated how actor now p) store)))
IsEnded-store Termination.rejection id actor now store p row legal =
    let key : p.id ≡ id = find_row-key proposal_key id store.proposals p row in
    let again = find_row_again proposal_key id store.proposals p row in
    record {
      row = p;
      found = row;
      legal = legal;
      moved = put_next id store.proposals p _ row refl legal;
      ended = terminated Termination.rejection actor now p;
      read = rw (← key) (
          find_row-put_row proposal_key store.proposals p
            (terminated Termination.rejection actor now p) again);
      status = refl;
      no_token = rw (← key) (retired p.id now store.actions);
    }
IsEnded-store Termination.cancellation id actor now store p row legal =
    let key : p.id ≡ id = find_row-key proposal_key id store.proposals p row in
    let again = find_row_again proposal_key id store.proposals p row in
    record {
      row = p;
      found = row;
      legal = legal;
      moved = put_next id store.proposals p _ row refl legal;
      ended = terminated Termination.cancellation actor now p;
      read = rw (← key) (
          find_row-put_row proposal_key store.proposals p
            (terminated Termination.cancellation actor now p) again);
      status = refl;
      no_token = rw (← key) (retired p.id now store.actions);
    }

-- A rejection or a cancellation that does not raise found the proposal in a status that the table
-- lets end so, ends it, and retires its tokens.
pub terminate-IsEnded :
    (how : Termination) (id : ℕ) (actor : Text) (now : ℕ) (store after : Store)
    → terminate how id actor now store ≡ some after
    → IsEnded how id store after
unfolding terminate
terminate-IsEnded how id actor now store after h = elim (Option-cases (find_proposal id store)) [
  | inl missing ↦ cc (rw (missing, terminate) at h)
  | inr (p, row) ↦ elim (Bool-cases (can_transition p.status (target_of how))) [
    | inr illegal ↦ cc (rw (row, illegal, terminate) at h)
    | inl legal ↦
        let written : some _ ≡ some after = (rw (row, legal, terminate) at h) in
        subst (IsEnded how id store) (cc written) (IsEnded-store how id actor now store p row legal)
  ]
]
