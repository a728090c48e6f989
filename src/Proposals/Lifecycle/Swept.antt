-- ===== src/Proposals/Lifecycle/Swept.antt =====
-- What a sweep of backend/stockbrain/proposals/lifecycle.py may make of a proposal, step after step.
use stock_brain.Prelude.{
  ℕ, ◌≡◌, refl, sym, ◌⊎◌, ◌≤◌, ◌<◌, All, some, List, [], ◌∷◌, true, inl, inr, arith,
}
use stock_brain.Enums.{ProposalStatus, status_in}
use stock_brain.Proposals.StateMachine.{can_transition}
use stock_brain.Tables.Laws.{Pairwise, Pairwise-refl, Pairwise-trans}
use mathlib.Core.Path.{subst}
use stock_brain.Store.{TradeProposal, set_status}

-- The row expires: nobody has decided on it, its time has passed, and the table has the step, unless
-- the row is a draft.
pub record IsExpired (now : ℕ) (p q : TradeProposal) : Type 0 where
  pub undecided :
      status_in p.status (
        ProposalStatus.draft ∷ ProposalStatus.ready ∷ ProposalStatus.notified
        ∷ ProposalStatus.approval_pending ∷ [])
      ≡ true
  pub past : p.expires_at ≤ now
  pub step :
      (p.status ≡ ProposalStatus.draft) ⊎ (can_transition p.status ProposalStatus.expired ≡ true)
  pub written : q ≡ set_status ProposalStatus.expired now p

-- The row is invalidated, along the table.
pub record IsInvalidated (now : ℕ) (p q : TradeProposal) : Type 0 where
  pub step : can_transition p.status ProposalStatus.invalidated ≡ true
  pub written :
      q ≡ record (set_status ProposalStatus.invalidated now p) { invalidated_at = some now }

-- What a sweep may make of a row, in one step at most.
pub data IsSwept (now : ℕ) (p q : TradeProposal) : Type 0 where
  kept : q ≡ p → IsSwept now p q
  lapsed : IsExpired now p q → IsSwept now p q
  retired : IsInvalidated now p q → IsSwept now p q

-- The tables before and after a part of the sweep.
abbrev pub Sweeps : ℕ → List TradeProposal → List TradeProposal → Type 0
Sweeps now = Pairwise (IsSwept now)

pub IsSwept-refl : (now : ℕ) (p : TradeProposal) → IsSwept now p p
IsSwept-refl now p = kept refl

-- A row that has ended makes no further step.
ended_stays :
    (now : ℕ) (q r : TradeProposal)
    → (q.status ≡ ProposalStatus.expired) ⊎ (q.status ≡ ProposalStatus.invalidated)
    → IsSwept now q r
    → r ≡ q
unfolding can_transition
ended_stays now q r ended (kept e) = e
ended_stays now q r ended (lapsed e) = absurd (ground (arith, ended, e.undecided))
ended_stays now q r ended (retired e) = absurd (ground (arith, ended, e.step))

IsSwept-trans :
    (now : ℕ) (p q r : TradeProposal) → IsSwept now p q → IsSwept now q r → IsSwept now p r
IsSwept-trans now p q r (kept e) k = subst (λ x. IsSwept now x r) e k
IsSwept-trans now p q r (lapsed e) k =
    let same = ended_stays now q r (inl (rw e.written refl)) k in
    subst (λ x. IsSwept now p x) (sym same) (lapsed e)
IsSwept-trans now p q r (retired e) k =
    let same = ended_stays now q r (inr (rw e.written refl)) k in
    subst (λ x. IsSwept now p x) (sym same) (retired e)

pub Sweeps-refl : (now : ℕ) (rows : List TradeProposal) → Sweeps now rows rows
Sweeps-refl now = Pairwise-refl (IsSwept now) (IsSwept-refl now)

pub Sweeps-trans :
    (now : ℕ) (xs ys zs : List TradeProposal)
    → Sweeps now xs ys
    → Sweeps now ys zs
    → Sweeps now xs zs
Sweeps-trans now = Pairwise-trans (IsSwept now) (IsSwept-trans now)

-- A row that nobody has decided on is not past its time.
abbrev pub IsCurrent : ℕ → TradeProposal → Type 0
IsCurrent now p =
    status_in p.status (
        ProposalStatus.draft ∷ ProposalStatus.ready ∷ ProposalStatus.notified
        ∷ ProposalStatus.approval_pending ∷ [])
      ≡ true
    → now < p.expires_at

IsSwept-IsCurrent :
    (now : ℕ) (p q : TradeProposal) → IsSwept now p q → IsCurrent now p → IsCurrent now q
IsSwept-IsCurrent now p q (kept e) h = subst (IsCurrent now) (sym e) h
IsSwept-IsCurrent now p q (lapsed e) h = λ waiting. absurd (ground (arith, e.written, waiting))
IsSwept-IsCurrent now p q (retired e) h = λ waiting. absurd (ground (arith, e.written, waiting))

-- What a later part of the sweep does leaves the rows current.
pub Sweeps-IsCurrent :
    (now : ℕ) (xs ys : List TradeProposal)
    → Sweeps now xs ys
    → All (IsCurrent now) xs
    → All (IsCurrent now) ys
Sweeps-IsCurrent now [] [] h k = tt
Sweeps-IsCurrent now [] (y ∷ ys) h k = absurd h
Sweeps-IsCurrent now (x ∷ xs) [] h k = absurd h
Sweeps-IsCurrent now (x ∷ xs) (y ∷ ys) h k =
    (IsSwept-IsCurrent now x y h.0 k.0, Sweeps-IsCurrent now xs ys h.1 k.1)
