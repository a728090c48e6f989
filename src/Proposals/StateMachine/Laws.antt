-- ===== src/Proposals/StateMachine/Laws.antt =====
-- What every history under the transition table keeps.
use stock_brain.Prelude.{◌≡◌, refl, true, false, not, ◌||◌, arith, List, [], ◌∷◌}
use stock_brain.Enums.{
  ProposalStatus, approved, executing, executed, execution_ambiguous, status_in, status_eq, draft,
}
use stock_brain.Proposals.StateMachine.{
  can_transition, is_terminal, active_statuses, pre_execution_statuses, authorizable_statuses,
  executable_statuses,
}

-- A history of a proposal: legal transitions one after another.
pub data Reaches (s : ProposalStatus) : ProposalStatus → Type 0 where
  here : Reaches s s
  next :
      {t : ProposalStatus} (u : ProposalStatus)
      → Reaches s t
      → can_transition t u ≡ true
      → Reaches s u

-- The statuses that a history passes, the last one first.
abbrev pub visited : {s t : ProposalStatus} → Reaches s t → List ProposalStatus
visited {s} here = s ∷ []
visited (next u r h) = u ∷ visited r

-- A status is terminal exactly when a proposal in it no longer occupies its instrument.
pub is_terminal-active : (s : ProposalStatus) → is_terminal s ≡ not (status_in s active_statuses)
unfolding is_terminal
is_terminal-active draft = refl
is_terminal-active _ = refl

terminal_step : (s t : ProposalStatus) → is_terminal s ≡ true → can_transition s t ≡ false
unfolding is_terminal can_transition
terminal_step draft t h = cc
terminal_step _ t h = ground arith

-- A history that begins in a terminal status never leaves it.
pub terminal_stays : {s t : ProposalStatus} → Reaches s t → is_terminal s ≡ true → t ≡ s
terminal_stays here h = refl
terminal_stays {s} (next {t = t} u r step) h =
    let same = terminal_stays r h in ground (arith, terminal_step t u, same)

-- The statuses that only a transmission leads to.
abbrev pub sent_statuses : List ProposalStatus
sent_statuses = executing ∷ execution_ambiguous ∷ executed ∷ []

sent_step :
    (t u : ProposalStatus)
    → can_transition t u ≡ true
    → status_in u sent_statuses ≡ true
    → (status_in t sent_statuses || status_eq approved t) ≡ true
unfolding can_transition
sent_step draft u h k = ground arith
sent_step _ u h k = ground arith

last_visited :
    {s t : ProposalStatus} (r : Reaches s t)
    → status_eq approved t ≡ true
    → status_in approved (visited r) ≡ true
last_visited here h = ground (arith, h)
last_visited (next u r step) h = ground (arith, h)

-- No history of a proposal that has not been sent ends with an order that may exist at the broker
-- unless it passes through an authorization.
pub sent_needs_approval :
    {s t : ProposalStatus} (r : Reaches s t)
    → status_in s sent_statuses ≡ false
    → status_in t sent_statuses ≡ true
    → status_in approved (visited r) ≡ true
sent_needs_approval here h k = cc
sent_needs_approval (next {t = t} u r step) h k =
    ground (arith, sent_step t u step k, sent_needs_approval r h, last_visited r)

-- Invalidation is reached from every status before execution and from no other, rejection from the
-- statuses that can be authorized, and expiry from those and from an authorization not yet sent.
pub sweep_targets :
    (t : ProposalStatus)
    → (can_transition t ProposalStatus.invalidated ≡ status_in t pre_execution_statuses)
      × (can_transition t ProposalStatus.rejected ≡ status_in t authorizable_statuses)
      × (can_transition t ProposalStatus.expired
          ≡ (status_in t authorizable_statuses || status_in t executable_statuses))
unfolding can_transition
sweep_targets draft = (refl, refl, refl)
sweep_targets _ = (refl, refl, refl)
