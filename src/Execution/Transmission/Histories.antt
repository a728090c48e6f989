-- ===== src/Execution/Transmission/Histories.antt =====
-- A claim keeps the invariant, and so does every history of the system.
use stock_brain.Prelude.{
  ℕ, ◌≤◌, ◌≡◌, refl, sym, List, [], ◌∷◌, ◌++◌, Option, some, none, true, false, map, arith,
  Bool-cases, inl, inr, ◌==◌, All, ◌⊎◌, ap,
}
use mathlib.Core.Path.{subst}
use stock_brain.Control.{ControlSnapshot}
use stock_brain.Store.{Store, ExecutionAttempt}
use stock_brain.Store.Moves.{Moves, Moves-trans, Moves-refl}
use stock_brain.Execution.Sending.{is_sent_for, sent_attempt}
use stock_brain.Execution.Run.{Answer, record_answer}
use stock_brain.Execution.Effects.{
  mark_of, Kept, After, record_ambiguous-Kept, record_success-Kept, retract_unsent-Moves,
}
use stock_brain.Execution.Effects.Rejection.{record_rejection-Kept}
use stock_brain.Execution.Effects.Claims.{IsClaimed, claim-IsClaimed, record_refusal-Refused}
use stock_brain.Execution.Reconciliation.Effects.{record_conclusion-Kept}
use stock_brain.Execution.Transmission.{Worker, System, Step, Reachable, IsFresh, may_have_left}
use stock_brain.Execution.Transmission.Tally.{tally}
use stock_brain.Execution.Transmission.Retraction.{
  sent, sent_added, owner_of, owners, IsRetracted, retract_unsent-IsRetracted,
}
use stock_brain.Execution.Transmission.Once.{
  IsOnce, Owns, transmissions, kept-IsOnce, stopped-IsOnce, submitted-IsOnce, retracted-IsOnce,
  refused-IsOnce, added_owned, worker_owned,
}

no_sent_attempt :
    (p : ℕ) (attempts : List ExecutionAttempt)
    → sent_attempt p attempts ≡ none
    → tally (is_sent_for p) attempts ≡ 0
unfolding sent_attempt
no_sent_attempt p [] h = refl
no_sent_attempt p (a ∷ attempts) h = elim (Bool-cases (is_sent_for p a)) [
  | inl hit ↦ cc (rw (hit, sent_attempt) at h)
  | inr miss ↦
      rw (miss, tally) (omega (arith, no_sent_attempt p attempts (rw (miss, sent_attempt) at h)))
]

fresh_owned :
    (fresh proposal_id : ℕ) (attempts : List ExecutionAttempt)
    → All (λ row. (row.id == fresh) ≡ false) attempts
    → All
        (λ o. (o.id == fresh) ≡ true → o.proposal_id ≡ proposal_id)
        (map owner_of (map mark_of attempts))
fresh_owned fresh proposal_id [] h = tt
fresh_owned fresh proposal_id (a ∷ attempts) h =
    (λ same. absurd (cc (same, h.0)), fresh_owned fresh proposal_id attempts h.1)

pub claimed-IsOnce :
    (s : System) (control : ControlSnapshot) (fresh proposal_id observed_version now : ℕ)
    (next : Store)
    → IsFresh fresh s
    → IsClaimed control fresh proposal_id observed_version now s.store next
    → IsOnce s
    → IsOnce (record s {
      store = next;
      workers = record { attempt_id = fresh; proposal_id = proposal_id; answer = none } ∷ s.workers;
    })
claimed-IsOnce s control fresh proposal_id observed_version now next fresh_id c h =
    let unsent : sent proposal_id s.store ≡ 0 =
      no_sent_attempt proposal_id s.store.attempts c.unsent in
    record {
      one = λ p. elim (Bool-cases (proposal_id == p)) [
        | inl same ↦
            ground (arith, same, sent_added p fresh proposal_id true s.store next c.marked, unsent)
        | inr other ↦
            ground
              (arith, other, sent_added p fresh proposal_id true s.store next c.marked, h.one p)
      ];
      covered = λ p.
          ground (arith, sent_added p fresh proposal_id true s.store next c.marked, h.covered p);
      owned =
          let worker : Worker = record {
            attempt_id = fresh;
            proposal_id = proposal_id;
            answer = none;
          } in
          let table = ap (map owner_of) c.marked in
          subst (λ t. All (Owns t) (worker ∷ s.workers)) (sym table)
            (
              (λ _. refl, fresh_owned fresh proposal_id s.store.attempts fresh_id.0),
              added_owned fresh proposal_id (owners s.store) s.workers fresh_id.1 h.owned,
            );
    }

-- The tables after a transaction that was not rolled back.
after_step :
    (P : Store → Type 0) (result : Option Store) (next : Store)
    → After P result
    → result ≡ some next
    → P next
after_step P result next h e = subst (After P) e h

Kept-step :
    (s : System) (result : Option Store) (next : Store)
    → After (Kept s.store) result
    → result ≡ some next
    → Kept s.store next
Kept-step s = after_step (Kept s.store)

record_answer-Kept :
    (attempt_id proposal_id : ℕ) (answer : Answer) (now : ℕ) (store : Store)
    → may_have_left answer ≡ true
    → After (Kept store) (record_answer attempt_id proposal_id answer now store)
unfolding record_answer
record_answer-Kept attempt_id proposal_id (Answer.acknowledged order http_status) now store h =
    record_success-Kept attempt_id proposal_id order http_status now store
record_answer-Kept attempt_id proposal_id (Answer.rejected exc) now store h =
    record_rejection-Kept attempt_id proposal_id exc now store
record_answer-Kept attempt_id proposal_id (Answer.ambiguous_failure text) now store h =
    record_ambiguous-Kept attempt_id proposal_id _ now store
record_answer-Kept attempt_id proposal_id Answer.unexpected_failure now store h =
    record_ambiguous-Kept attempt_id proposal_id _ now store
record_answer-Kept attempt_id proposal_id Answer.not_sent now store h = cc h

-- The answer after which nothing has left.
left_or_not : (answer : Answer) → (may_have_left answer ≡ true) ⊎ (answer ≡ Answer.not_sent)
left_or_not Answer.not_sent = inr refl
left_or_not _ = inl refl

recorded-IsOnce :
    (s : System) (before after : List Worker) (w : Worker) (answer : Answer) (now : ℕ)
    (next : Store)
    → s.workers ≡ before ++ (w ∷ after)
    → w.answer ≡ some answer
    → record_answer w.attempt_id w.proposal_id answer now s.store ≡ some next
    → IsOnce s
    → IsOnce (record s { store = next; workers = before ++ after })
unfolding record_answer
recorded-IsOnce s before after w answer now next e answered done h = elim (left_or_not answer) [
  | inl left ↦
      let kept =
        Kept-step s _ next (record_answer-Kept w.attempt_id w.proposal_id answer now s.store left)
          done in
      kept-IsOnce (record s { workers = before ++ after }) next kept.1
        (stopped-IsOnce s before after w e h)
  | inr back ↦
      let unsent =
        retract_unsent-IsRetracted w.attempt_id w.proposal_id now s.store
          (worker_owned s before after w e h) in
      let result = after_step (IsRetracted w.proposal_id s.store) _ next unsent (rw back at done) in
      retracted-IsOnce s before after w next e (rw (answered, back) refl) result h
]

Step-IsOnce : {s t : System} → Step s t → IsOnce s → IsOnce t
Step-IsOnce {s} (Step.claimed control fresh proposal_id command version now next new e) h =
    claimed-IsOnce s control fresh proposal_id version now next new
      (claim-IsClaimed control fresh proposal_id command version now s.store next e) h
Step-IsOnce {s} (Step.submitted before after w answer e unsent) h =
    submitted-IsOnce s before after w answer e unsent h
Step-IsOnce {s} (Step.recorded before after w answer now next e answered done) h =
    recorded-IsOnce s before after w answer now next e answered done h
Step-IsOnce {s} (Step.stopped before after w e) h = stopped-IsOnce s before after w e h
Step-IsOnce {s} (Step.refused fresh proposal_id command refusal category now next new done) h =
    let r = record_refusal-Refused fresh proposal_id command refusal category now s.store in
    elim (rw done at r).1 [
      | inl same ↦ kept-IsOnce s next same h
      | inr added ↦ refused-IsOnce s fresh proposal_id next new.1 added h
    ]
Step-IsOnce {s} (Step.recovered attempt_id proposal_id category now next done) h =
    kept-IsOnce s next
      (Kept-step s _ next (record_ambiguous-Kept attempt_id proposal_id category now s.store)
        done).1
      h
Step-IsOnce {s} (Step.reconciled attempt_id proposal_id conclusion now next done) h =
    kept-IsOnce s next
      (Kept-step s _ next (record_conclusion-Kept attempt_id proposal_id conclusion now s.store)
        done).1
      h
Step-IsOnce {s} (Step.elsewhere next same moved) h = kept-IsOnce s next (ap (map mark_of) same) h

Reachable-IsOnce : {start s : System} → Reachable start s → IsOnce start → IsOnce s
Reachable-IsOnce Reachable.here h = h
Reachable-IsOnce (Reachable.next before step) h = Step-IsOnce step (Reachable-IsOnce before h)

-- From tables in which nothing is marked as sent, with no worker under way, every history of claims,
-- requests, answers, crashes, recoveries and reconciliations, by any number of workers, transmits each
-- proposal at most once.
pub transmitted_once :
    {start s : System}
    → Reachable start s
    → ((p : ℕ) → sent p start.store ≡ 0)
    → start.workers ≡ []
    → start.received ≡ []
    → (p : ℕ) → transmissions p s.received ≤ 1
transmitted_once {start} {s} history unsent idle nothing p =
    let from : IsOnce start = record {
      one = λ q. rw (unsent q) (omega arith);
      covered = λ q. rw (idle, nothing) (omega arith);
      owned = rw idle tt;
    } in
    let h = Reachable-IsOnce history from in omega (arith, h.one p, h.covered p)

-- One step moves every proposal along the transition table.
Step-Moves : {s t : System} → Step s t → Moves s.store.proposals t.store.proposals
unfolding record_answer
Step-Moves {s} (Step.claimed control fresh proposal_id command version now next new e) =
    (claim-IsClaimed control fresh proposal_id command version now s.store next e).moved
Step-Moves {s} (Step.submitted before after w answer e unsent) = Moves-refl s.store.proposals
Step-Moves {s} (Step.recorded before after w answer now next e answered done) =
    elim (left_or_not answer) [
      | inl left ↦
          (Kept-step s _ next
            (record_answer-Kept w.attempt_id w.proposal_id answer now s.store left) done).0
      | inr back ↦
          after_step (λ n. Moves s.store.proposals n.proposals) _ next
            (retract_unsent-Moves w.attempt_id w.proposal_id now s.store) (rw back at done)
    ]
Step-Moves {s} (Step.stopped before after w e) = Moves-refl s.store.proposals
Step-Moves {s} (Step.refused fresh proposal_id command refusal category now next new done) =
    let r = record_refusal-Refused fresh proposal_id command refusal category now s.store in
    (rw done at r).0
Step-Moves {s} (Step.recovered attempt_id proposal_id category now next done) =
    (Kept-step s _ next (record_ambiguous-Kept attempt_id proposal_id category now s.store) done).0
Step-Moves {s} (Step.reconciled attempt_id proposal_id conclusion now next done) =
    (Kept-step s _ next (record_conclusion-Kept attempt_id proposal_id conclusion now s.store)
      done).0
Step-Moves {s} (Step.elsewhere next same moved) = moved

-- The system refines the transition table: in every history each proposal keeps its identifier, and
-- its status is one that a history of legal transitions reaches.
pub Reachable-Moves :
    {start s : System} → Reachable start s → Moves start.store.proposals s.store.proposals
Reachable-Moves {start} Reachable.here = Moves-refl start.store.proposals
Reachable-Moves {start} (Reachable.next {s = s} {t = t} before step) =
    Moves-trans start.store.proposals s.store.proposals t.store.proposals (Reachable-Moves before)
      (Step-Moves step)
