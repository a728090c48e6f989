-- ===== src/Proposals/StateMachine.antt =====
-- backend/stockbrain/proposals/state_machine.py: the transition table and the sets of statuses.
pub mod Laws
mod Tests
use stock_brain.Prelude.{
  ℕ, Bool, true, false, not, ◌++◌, List, [], ◌∷◌, non_empty, if◌then◌else◌, filter, ◌⊎◌,
}
use stock_brain.Enums.{
  ProposalStatus, draft, ready, notified, approval_pending, approved, rejected, expired, executing,
  executed, execution_ambiguous, failed, cancelled, invalidated, status_in,
}

abbrev invalidation_targets : List ProposalStatus
invalidation_targets = invalidated ∷ []

-- `_TRANSITIONS`, one entry of the dictionary for each status.
unfoldable pub allowed_transitions : ProposalStatus → List ProposalStatus
allowed_transitions draft = (ready ∷ cancelled ∷ failed ∷ []) ++ invalidation_targets
allowed_transitions ready =
    (notified ∷ approval_pending ∷ approved ∷ rejected ∷ expired ∷ cancelled ∷ [])
    ++ invalidation_targets
allowed_transitions notified =
    (approval_pending ∷ approved ∷ rejected ∷ expired ∷ cancelled ∷ []) ++ invalidation_targets
allowed_transitions approval_pending =
    (approved ∷ notified ∷ rejected ∷ expired ∷ cancelled ∷ failed ∷ []) ++ invalidation_targets
allowed_transitions approved =
    (executing ∷ expired ∷ cancelled ∷ failed ∷ []) ++ invalidation_targets
allowed_transitions executing = executed ∷ failed ∷ execution_ambiguous ∷ approved ∷ []
allowed_transitions execution_ambiguous = executed ∷ failed ∷ cancelled ∷ []
allowed_transitions executed = []
allowed_transitions rejected = []
allowed_transitions expired = []
allowed_transitions failed = []
allowed_transitions cancelled = []
allowed_transitions invalidated = []

-- The keys of the dictionary, in its order.
abbrev pub all_statuses : List ProposalStatus
all_statuses =
    draft ∷ ready ∷ notified ∷ approval_pending ∷ approved ∷ executing ∷ execution_ambiguous
    ∷ executed ∷ rejected ∷ expired ∷ failed ∷ cancelled ∷ invalidated ∷ []

unfoldable pub terminal_statuses : List ProposalStatus
unfolding allowed_transitions
terminal_statuses = filter (λ s. not (non_empty (allowed_transitions s))) all_statuses

abbrev pub presend_recovery_target : ProposalStatus
presend_recovery_target = approved

abbrev pub executable_statuses : List ProposalStatus
executable_statuses = approved ∷ []

abbrev pub in_flight_statuses : List ProposalStatus
in_flight_statuses = executing ∷ execution_ambiguous ∷ []

abbrev pub pre_execution_statuses : List ProposalStatus
pre_execution_statuses = draft ∷ ready ∷ notified ∷ approval_pending ∷ approved ∷ []

abbrev pub authorizable_statuses : List ProposalStatus
authorizable_statuses = ready ∷ notified ∷ approval_pending ∷ []

abbrev pub active_statuses : List ProposalStatus
active_statuses =
    draft ∷ ready ∷ notified ∷ approval_pending ∷ approved ∷ executing ∷ execution_ambiguous ∷ []

unfoldable pub is_terminal : ProposalStatus → Bool
unfolding terminal_statuses
is_terminal status = status_in status terminal_statuses

unfoldable pub can_transition : ProposalStatus → ProposalStatus → Bool
unfolding allowed_transitions
can_transition current target = status_in target (allowed_transitions current)

-- `InvalidProposalTransition(current, target)`, or nothing.
pub data Transition : Type 0 where
  legal : Transition
  invalid_transition : ProposalStatus → ProposalStatus → Transition

unfoldable pub assert_transition : ProposalStatus → ProposalStatus → Transition
unfolding can_transition
assert_transition current target =
    if can_transition current target then legal else invalid_transition current target
