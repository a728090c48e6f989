-- ===== src/Proposals/StateMachine/Tests.antt =====
-- The theorems on the transition table at concrete histories.
use stock_brain.Prelude.{◌≡◌, refl, true, [], ◌∷◌}
use stock_brain.Enums.{draft, ready, approved, executing, executed, status_in}
use stock_brain.Proposals.StateMachine.{allowed_transitions, can_transition}
use stock_brain.Proposals.StateMachine.Laws.{Reaches, sent_needs_approval}

-- From a draft to an executed order.
abbrev to_executed :
    can_transition draft ready ≡ true
    → can_transition ready approved ≡ true
    → can_transition approved executing ≡ true
    → can_transition executing executed ≡ true
    → Reaches draft executed
to_executed a b c d =
    Reaches.next executed
      (Reaches.next executing (Reaches.next approved (Reaches.next ready Reaches.here a) b) c) d

sent_needs_approval_example :
    status_in approved (executed ∷ executing ∷ approved ∷ ready ∷ draft ∷ []) ≡ true
unfolding can_transition allowed_transitions
sent_needs_approval_example = sent_needs_approval (to_executed refl refl refl refl) refl refl
