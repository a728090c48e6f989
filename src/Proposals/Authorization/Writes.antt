-- ===== src/Proposals/Authorization/Writes.antt =====
-- The writes of an authorization: a refusal never grants, and a grant approves the row that it judged.
use mathlib.Core.Path.{subst}
use stock_brain.Prelude.{
  ℕ, ◌≡◌, ◌<◌, refl, sym, ◌∙◌, List, [], ◌∷◌, Option, some, none, true, false, ◌&&◌, Option-cases,
  Bool-cases, inl, inr, map, arith, All, Text, present, filter, non_empty,
}
use stock_brain.Decimal.{Decimal, mul_dec}
use stock_brain.Enums.{ProposalStatus, AuthorizationSource, is_block, status_in}
use stock_brain.Tables.Laws.{find_row-put_row, find_row-key}
use stock_brain.Proposals.StateMachine.{can_transition, authorizable_statuses, assert_transition}
use stock_brain.Risk.Models.{RuleResult, RiskDecision, FxSnapshot, usable, to_account_currency}
use stock_brain.Tables.{find_row, put_row}
use stock_brain.Store.{TradeProposal, Store, find_proposal, proposal_key, save_proposal, log_action}
use stock_brain.Proposals.Lifecycle.{retire_approval_actions, retire_action}
use stock_brain.Store.Moves.{Moves, put_next}
use stock_brain.Execution.Service.{asserting}
use stock_brain.Proposals.Lifecycle.Endings.{NoToken, retired}
use stock_brain.Proposals.Authorization.{
  EvaluationFacts, Authorization, assert_authorizable, grant, refuse_blocked, blocked_of,
  is_automatic, automatic_policy, approve, judged, new_reference, or_raised, Refusal,
}

-- The row may be authorized by this source now.
pub record MayBeAuthorized (p : TradeProposal) (source : AuthorizationSource) (now : ℕ)
    : Type 0 where
  pub authorizable : status_in p.status authorizable_statuses ≡ true
  pub alive : now < p.expires_at
  pub own_policy : is_automatic source ≡ true → automatic_policy p.execution_policy ≡ true

pub assert_authorizable-none :
    (p : TradeProposal) (source : AuthorizationSource) (now : ℕ)
    → assert_authorizable p source now ≡ none
    → MayBeAuthorized p source now
unfolding assert_authorizable
assert_authorizable-none p source now h = record {
  authorizable = ground (arith, h);
  alive = ground (arith, h);
  own_policy = λ automatic. ground (arith, h, automatic);
}

-- Nothing is filtered from rules of which none blocks.
pub none_blocked :
    (rules : List RuleResult)
    → non_empty (blocked_of rules) ≡ false
    → All (λ (r : RuleResult). is_block r.outcome ≡ false) rules
none_blocked [] h = tt
none_blocked (r ∷ rules) h = elim (Bool-cases (is_block r.outcome)) [
  | inl hit ↦ absurd (cc (rw (hit, blocked_of, filter) at h))
  | inr miss ↦ (miss, none_blocked rules (rw (miss, blocked_of, filter) at h))
]

-- The columns that an authorization leaves as they are, and those that it must set.
pub record IsApproved (source : AuthorizationSource) (actor : Text) (now : ℕ) (p q : TradeProposal)
    : Type 0 where
  pub same_id : q.id ≡ p.id
  pub status : q.status ≡ ProposalStatus.approved
  pub by_source : q.authorization_source ≡ some source
  pub by_actor : q.approved_by ≡ some actor
  pub at_time : q.approved_at ≡ some now
  pub same_quantity : q.proposed_quantity ≡ p.proposed_quantity
  pub same_side : q.side ≡ p.side
  pub same_listing : q.broker_ticker ≡ p.broker_ticker

-- What a grant on the row of the transaction leaves.
pub record IsWritten (source : AuthorizationSource) (actor : Text) (now id : ℕ) (p : TradeProposal)
    (store after : Store) : Type 0 where
  pub moved : Moves store.proposals after.proposals
  pub row : TradeProposal
  pub read : find_proposal id after ≡ some row
  pub approved : IsApproved source actor now p row
  pub no_token : NoToken id after.actions

granted_store :
    (o : Option Store) (after : Store)
    → or_raised o Authorization.granted ≡ Authorization.granted after
    → o ≡ some after
granted_store none after h = cc h
granted_store (some s) after h = cc h

refused_not_granted :
    (o : Option Store) (why : Refusal) (after : Store)
    → or_raised o (Authorization.refused why) ≡ Authorization.granted after
    → ⊥
refused_not_granted none why after h = cc h
refused_not_granted (some s) why after h = cc h

pub not_refused :
    (blocked : List RuleResult) (p : TradeProposal) (now : ℕ) (store after : Store)
    → refuse_blocked blocked p now store ≡ Authorization.granted after
    → ⊥
unfolding refuse_blocked
not_refused blocked p now store after h = refused_not_granted _ _ after h

-- The row that is written, from the row of the transaction.
written :
    (decision : RiskDecision) (fx : Option FxSnapshot) (converted : Decimal)
    (source : AuthorizationSource) (actor : Text) (now : ℕ) (p : TradeProposal)
    → IsApproved source actor now p (approve source actor now (judged decision fx converted p))
written decision none converted source actor now p = record {
  same_id = refl;
  status = refl;
  by_source = refl;
  by_actor = refl;
  at_time = refl;
  same_quantity = refl;
  same_side = refl;
  same_listing = refl;
}
written decision (some fx) converted source actor now p = elim (Bool-cases fx.same_currency) [
  | inl same ↦ rw same (ground arith)
  | inr other ↦ rw other (ground arith)
]

asserting_written :
    (current target : ProposalStatus) (store after : Store)
    → asserting current target store ≡ some after
    → (can_transition current target ≡ true) × (store ≡ after)
unfolding assert_transition
asserting_written current target store after h = elim (Bool-cases (can_transition current target)) [
  | inl legal ↦ let e : some store ≡ some after = (rw (legal, asserting) at h) in (legal, cc e)
  | inr illegal ↦ absurd (cc (rw (illegal, asserting) at h))
]

-- The tables with the row, however it was found.
written_store :
    (decision : RiskDecision) (fx : Option FxSnapshot) (converted : Decimal)
    (source : AuthorizationSource) (actor : Text) (now id : ℕ) (p : TradeProposal) (store : Store)
    → find_proposal id store ≡ some p
    → can_transition p.status ProposalStatus.approved ≡ true
    → IsWritten source actor now id p store (
        retire_approval_actions (p.id ∷ []) now (
          log_action "proposal.authorized" p.id
            (save_proposal (approve source actor now (judged decision fx converted p)) store)))
written_store decision fx converted source actor now id p store row step =
    let q = approve source actor now (judged decision fx converted p) in
    let w = written decision fx converted source actor now p in
    let key : p.id ≡ id = find_row-key proposal_key id store.proposals p row in
    let own : find_row proposal_key q.id store.proposals ≡ some p =
      subst (λ k. find_row proposal_key k store.proposals ≡ some p) (sym (w.same_id ∙ key)) row in
    let read : find_row proposal_key q.id (put_row proposal_key q store.proposals) ≡ some q =
      find_row-put_row proposal_key store.proposals p q own in
    record {
      moved = put_next id store.proposals p q row w.same_id step;
      row = q;
      read =
          subst (λ k. find_row proposal_key k (put_row proposal_key q store.proposals) ≡ some q)
            (w.same_id ∙ key) read;
      approved = w;
      no_token =
          subst (λ k. NoToken k (map (retire_action (p.id ∷ []) now) store.actions)) key
            (retired p.id now store.actions);
    }

pub grant-IsWritten :
    (decision : RiskDecision) (facts : EvaluationFacts) (source : AuthorizationSource)
    (actor : Text) (now id : ℕ) (p : TradeProposal) (store after : Store)
    → find_proposal id store ≡ some p
    → grant decision facts source actor now p store ≡ Authorization.granted after
    → IsWritten source actor now id p store after
unfolding grant
grant-IsWritten decision facts source actor now id p store after row h =
    elim (Bool-cases (present facts.quote && present facts.account)) [
      | inr missing ↦ cc (rw (missing, grant) at h)
      | inl there ↦ elim (Option-cases facts.fx) [
        | inl no_rate ↦ cc (rw (there, no_rate, grant) at h)
        | inr (fx, e) ↦ elim (Bool-cases (usable fx)) [
          | inr unusable ↦ cc (rw (there, e, unusable, grant) at h)
          | inl fine ↦
              let notional = mul_dec p.proposed_quantity (new_reference decision p) in
              elim (Option-cases (to_account_currency fx notional)) [
                | inl no_conversion ↦ cc (rw (there, e, fine, no_conversion, grant) at h)
                | inr (converted, c) ↦
                    let end = granted_store _ after (rw (there, e, fine, c, grant) at h) in
                    let (step, same) =
                      asserting_written p.status ProposalStatus.approved _ after end in
                    subst (IsWritten source actor now id p store) same (
                      written_store decision facts.fx converted source actor now id p store row
                        step)
              ]
        ]
      ]
    ]
