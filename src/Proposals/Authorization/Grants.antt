-- ===== src/Proposals/Authorization/Grants.antt =====
-- What an authorization that is granted has passed, and what it leaves.
use stock_brain.Prelude.{
  ℕ, ◌≡◌, ◌⊎◌, refl, List, [], ◌∷◌, ◌++◌, some, Bool, true, false, not, ◌&&◌, ◌||◌, Option-cases,
  Bool-cases, inl, inr, arith, All, Text, ◌==◌, any, non_empty,
}
use stock_brain.Decimal.{Decimal, leb_dec}
use stock_brain.Enums.{ProposalStatus, RiskOutcome, AuthorizationSource, is_block}
use stock_brain.Control.{ControlSnapshot, trading_halted}
use stock_brain.Risk.Config.{RiskConfig}
use stock_brain.Risk.Models.{RuleResult, RiskDecision, RiskInputs}
use stock_brain.Store.{TradeProposal, Store, find_proposal}
use stock_brain.Risk.Engine.{evaluate, blocks}
use stock_brain.Risk.Engine.Blocks.{evaluate_block}
use stock_brain.Proposals.Authorization.{
  EvaluationFacts, Authorization, authorize, authorize_locked, assert_authorizable, blocked_of,
  rules_for, is_automatic, envelope_still_covers, is_side, authorization_rules,
}
use stock_brain.Proposals.Authorization.Writes.{
  MayBeAuthorized, assert_authorizable-none, none_blocked, not_refused, IsWritten, grant-IsWritten,
}

-- What a granted authorization has passed: trading was not halted, the source is one that is permitted,
-- the row under the lock is the version that was first read, alive and in a status that may be
-- authorized, no rule blocks; and what it leaves.
pub record IsGranted (control : ControlSnapshot) (automation : Bool) (config : RiskConfig)
    (max_rate_drift : Decimal) (decision : RiskDecision) (facts : EvaluationFacts) (id : ℕ)
    (source : AuthorizationSource) (actor : Text) (now : ℕ) (before store after : Store)
    : Type 0 where
  pub not_halted : trading_halted control ≡ false
  pub permitted : is_automatic source ≡ true → automation ≡ true
  pub observed : TradeProposal
  pub first_read : find_proposal id before ≡ some observed
  pub row : TradeProposal
  pub found : find_proposal id store ≡ some row
  pub unchanged : (row.version == observed.version) ≡ true
  pub authorizable : MayBeAuthorized row source now
  pub no_block :
      All
        (λ (r : RuleResult). is_block r.outcome ≡ false)
        (rules_for config max_rate_drift row decision facts now)
  pub written : IsWritten source actor now id row store after

-- An authorization that is granted was made while trading was not halted, by a source that is
-- permitted, of a row that the first read and the lock show in the same version, alive and in a status
-- that may be authorized; no rule blocks, and the tables that are left hold that row as approved, with
-- no usable token of it.
pub authorize-IsGranted :
    (control : ControlSnapshot) (automation : Bool) (config : RiskConfig) (max_rate_drift : Decimal)
    (decision : RiskDecision) (facts : EvaluationFacts) (id : ℕ) (source : AuthorizationSource)
    (actor : Text) (now : ℕ) (before store after : Store)
    → authorize control automation config max_rate_drift decision facts id source actor now before
        store
      ≡ Authorization.granted after
    → IsGranted control automation config max_rate_drift decision facts id source actor now before
        store after
unfolding authorize authorize_locked
authorize-IsGranted control automation config max_rate_drift decision facts id source actor now
      before store after h =
    elim (Bool-cases (trading_halted control || (is_automatic source && not automation))) [
      | inl stopped ↦ cc (rw (stopped, authorize) at h)
      | inr open_ ↦ elim (Option-cases (find_proposal id before)) [
        | inl missing ↦ cc (rw (open_, missing, authorize) at h)
        | inr (o, first) ↦ elim (Option-cases (assert_authorizable o source now)) [
          | inr (why, e) ↦ cc (rw (open_, first, e, authorize) at h)
          | inl may ↦ elim (Option-cases (find_proposal id store)) [
            | inl gone ↦ cc (rw (open_, first, may, gone, authorize) at h)
            | inr (p, row) ↦ elim (Bool-cases (p.version == o.version)) [
              | inr changed ↦ cc (rw (open_, first, may, row, changed, authorize) at h)
              | inl same ↦ elim (Option-cases (assert_authorizable p source now)) [
                | inr (why, e) ↦
                    cc (rw (open_, first, may, row, same, e, authorize, authorize_locked) at h)
                | inl still ↦
                    let rules = rules_for config max_rate_drift p decision facts now in
                    elim (Bool-cases (non_empty (blocked_of rules))) [
                      | inl bad ↦ absurd (
                          not_refused (blocked_of rules) p now store after (
                            rw
                              (
                                open_, first, may, row, same, still, bad, authorize,
                                authorize_locked,
                              )
                              at h))
                      | inr clear ↦ record {
                        not_halted = ground (arith, open_);
                        permitted = λ automatic. ground (arith, open_, automatic);
                        observed = o;
                        first_read = first;
                        row = p;
                        found = row;
                        unchanged = same;
                        authorizable = assert_authorizable-none p source now still;
                        no_block = none_blocked rules clear;
                        written =
                            grant-IsWritten decision facts source actor now id p store after row (
                              rw
                                (
                                  open_, first, may, row, same, still, clear, authorize,
                                  authorize_locked,
                                )
                                at h);
                      }
                    ]
              ]
            ]
          ]
        ]
      ]
    ]

-- The rules of the proposal stand behind those of the decision.
All-last :
    (P : RuleResult → Type 0) (xs ys : List RuleResult) → All P (xs ++ ys) → All P xs × All P ys
All-last P [] ys h = (tt, h)
All-last P (x ∷ xs) ys h = let rest = All-last P xs ys h.1 in ((h.0, rest.0), rest.1)

none_of_any :
    (rules : List RuleResult)
    → All (λ (r : RuleResult). is_block r.outcome ≡ false) rules
    → any blocks rules ≡ false
none_of_any [] h = refl
none_of_any (r ∷ rules) h = ground (arith, h.0, none_of_any rules h.1)

outcome_cases :
    (o : RiskOutcome)
    → (o ≡ RiskOutcome.block) ⊎ (o ≡ RiskOutcome.allow) ⊎ (o ≡ RiskOutcome.reduce_size)
outcome_cases RiskOutcome.allow = inr (inl refl)
outcome_cases RiskOutcome.reduce_size = inr (inr refl)
outcome_cases RiskOutcome.block = inl refl

covered :
    (p : TradeProposal) (d : RiskDecision)
    → (d.outcome ≡ RiskOutcome.block → ⊥)
    → is_block (envelope_still_covers p d).outcome ≡ false
    → (is_side d.sizing.side p.side ≡ true)
      × (leb_dec p.proposed_quantity d.sizing.max_quantity ≡ true)
unfolding envelope_still_covers
covered p d open_ h = elim (outcome_cases d.outcome) [
  | inl block ↦ absurd (open_ block)
  | inr other ↦ elim other [ inl e ↦ ground (arith, e, h) | inr e ↦ ground (arith, e, h) ]
]

-- A granted authorization of a decision that the risk engine made on the fresh facts: the decision
-- does not block, it has the side of the proposal, and the quantity that is authorized, which is the
-- one on the row, stays within the quantity that the fresh envelope permits.
pub granted_within :
    (inputs : RiskInputs) (t : ℕ) (decision : RiskDecision) (control : ControlSnapshot)
    (automation : Bool) (config : RiskConfig) (max_rate_drift : Decimal) (facts : EvaluationFacts)
    (id : ℕ) (source : AuthorizationSource) (actor : Text) (now : ℕ) (before store after : Store)
    → evaluate inputs t ≡ some decision
    → authorize control automation config max_rate_drift decision facts id source actor now before
        store
      ≡ Authorization.granted after
    → (p : TradeProposal) × (find_proposal id after ≡ some p)
      × (p.status ≡ ProposalStatus.approved)
      × (any blocks decision.rules ≡ false)
      × (is_side decision.sizing.side p.side ≡ true)
      × (leb_dec p.proposed_quantity decision.sizing.max_quantity ≡ true)
unfolding authorization_rules
granted_within inputs t decision control automation config max_rate_drift facts id source actor now
      before store after made h =
    let g =
      authorize-IsGranted control automation config max_rate_drift decision facts id source actor
        now before store after h in
    let w = g.written in
    let parts =
      All-last (λ (r : RuleResult). is_block r.outcome ≡ false) decision.rules _ g.no_block in
    let open_ = none_of_any decision.rules parts.0 in
    let envelope =
      covered g.row decision (λ e. absurd (cc (open_, ((evaluate_block inputs t made).0).0 e)))
        parts.1.1.1.1.1.0 in
    (
      w.row,
      w.read,
      w.approved.status,
      open_,
      rw w.approved.same_side envelope.0,
      rw w.approved.same_quantity envelope.1,
    )
