-- ===== src/Execution/Transmission/Retraction.antt =====
-- What a retraction and the other transactions do to the attempts that are marked as sent.
use mathlib.Core.Path.{subst}
use stock_brain.Prelude.{
  ℕ, ◌+◌, ◌≤◌, ◌≡◌, refl, sym, ap, ◌∙◌, List, [], ◌∷◌, some, Bool, true, false, map, arith,
  Bool-cases, inl, inr, if◌then◌else◌, ◌==◌, ◌&&◌, All,
}
use stock_brain.Tables.{find_row, put_row}
use stock_brain.Tables.Laws.{find_row_again, find_row-key, put_row-map}
use stock_brain.Proposals.StateMachine.{presend_recovery_target}
use stock_brain.Store.{ExecutionAttempt, Store, attempt_key}
use stock_brain.Execution.Sending.{is_sent_for}
use stock_brain.Execution.Service.{retract_unsent}
use stock_brain.Execution.Effects.{Mark, mark_of, marks, After, After-with_rows, After-asserting}
use stock_brain.Execution.Transmission.Tally.{tally, tally-map, tally-put_row, tally-put_row-false}

-- The attempts of a proposal that are marked as sent.
abbrev pub sent : ℕ → Store → ℕ
sent p store = tally (is_sent_for p) store.attempts

abbrev mark_is_sent_for : ℕ → Mark → Bool
mark_is_sent_for p m = m.proposal_id == p && m.sent

sent-marks : (p : ℕ) (store : Store) → tally (mark_is_sent_for p) (marks store) ≡ sent p store
sent-marks p store = tally-map mark_of (mark_is_sent_for p) store.attempts

pub sent_of_marks :
    (p : ℕ) (store next : Store) (m : List Mark)
    → marks next ≡ m
    → sent p next ≡ tally (mark_is_sent_for p) m
sent_of_marks p store next m e = sym (sent-marks p next) ∙ ap (tally (mark_is_sent_for p)) e

pub sent_same : (p : ℕ) (store next : Store) → marks next ≡ marks store → sent p next ≡ sent p store
sent_same p store next e = sent_of_marks p store next (marks store) e ∙ sent-marks p store

-- One more attempt, marked or not.
pub sent_added :
    (p fresh proposal_id : ℕ) (flag : Bool) (store next : Store)
    → marks next ≡ record { id = fresh; proposal_id = proposal_id; sent = flag } ∷ marks store
    → sent p next ≡ (if proposal_id == p && flag then 1 else 0) + sent p store
sent_added p fresh proposal_id flag store next e =
    rw (sent_of_marks p store next _ e, tally, sent-marks p store) refl

-- The owner of each attempt, which no transaction changes.
pub record Owner : Type 0 where
  pub id : ℕ
  pub proposal_id : ℕ

abbrev pub owner_of : Mark → Owner
owner_of m = record { id = m.id; proposal_id = m.proposal_id }

abbrev pub owners : Store → List Owner
owners store = map owner_of (marks store)

pub owner_of_row :
    (P : Owner → Type 0) (id : ℕ) (rows : List ExecutionAttempt) (a : ExecutionAttempt)
    → All P (map owner_of (map mark_of rows))
    → find_row attempt_key id rows ≡ some a
    → P (record { id = a.id; proposal_id = a.proposal_id })
unfolding find_row
owner_of_row P id [] a all h = cc
owner_of_row P id (row ∷ rows) a all h = elim (Bool-cases (attempt_key row == id)) [
  | inl hit ↦
      let e : some row ≡ some a = (rw hit at h) in
      let same : row ≡ a = (cc e) in
      subst (λ (r : ExecutionAttempt). P (record { id = r.id; proposal_id = r.proposal_id })) same
        all.0
  | inr miss ↦ owner_of_row P id rows a all.1 (rw miss at h)
]

-- A retraction unmarks attempts of the one proposal only.
pub record IsRetracted (proposal_id : ℕ) (store next : Store) : Type 0 where
  pub fewer : (q : ℕ) → sent q next ≤ sent q store
  pub others : (q : ℕ) → (proposal_id == q) ≡ false → sent q next ≡ sent q store
  pub same_owners : owners next ≡ owners store

IsRetracted-refl : (proposal_id : ℕ) (store : Store) → IsRetracted proposal_id store store
IsRetracted-refl proposal_id store = record {
  fewer = λ q. omega arith;
  others = λ q h. refl;
  same_owners = refl;
}

map-map :
    (rows : List ExecutionAttempt)
    → map owner_of (map mark_of rows) ≡ map (λ (a : ExecutionAttempt). owner_of (mark_of a)) rows
map-map [] = refl
map-map (row ∷ rows) = ap (◌∷◌ (owner_of (mark_of row))) (map-map rows)

owners_kept :
    (attempt_id : ℕ) (rows : List ExecutionAttempt) (a new : ExecutionAttempt)
    → find_row attempt_key attempt_id rows ≡ some a
    → new.id ≡ a.id
    → new.proposal_id ≡ a.proposal_id
    → map owner_of (map mark_of (put_row attempt_key new rows)) ≡ map owner_of (map mark_of rows)
owners_kept attempt_id rows a new found same_id same_proposal =
    let again = find_row_again attempt_key attempt_id rows a found in
    map-map (put_row attempt_key new rows)
    ∙ put_row-map attempt_key (λ x. owner_of (mark_of x)) rows a new (rw same_id again)
        (cc (same_id, same_proposal))
    ∙ sym (map-map rows)

pub retract_unsent-IsRetracted :
    (attempt_id proposal_id now : ℕ) (store : Store)
    → All (λ o. (o.id == attempt_id) ≡ true → o.proposal_id ≡ proposal_id) (owners store)
    → After (IsRetracted proposal_id store) (retract_unsent attempt_id proposal_id now store)
unfolding retract_unsent
retract_unsent-IsRetracted attempt_id proposal_id now store owned =
    After-with_rows (IsRetracted proposal_id store) attempt_id proposal_id store _
      (IsRetracted-refl proposal_id store)
      λ a p found row.
        let again = find_row_again attempt_key attempt_id store.attempts a found in
        let key : a.id ≡ attempt_id = find_row-key attempt_key attempt_id store.attempts a found in
        let mine : a.proposal_id ≡ proposal_id =
          owner_of_row (λ o. (o.id == attempt_id) ≡ true → o.proposal_id ≡ proposal_id) attempt_id
            store.attempts a owned found (ground (arith, key)) in
        After-asserting (IsRetracted proposal_id store) p.status presend_recovery_target _ λ step.
          record {
            fewer = λ q.
                tally-put_row-false attempt_key (is_sent_for q) store.attempts _ (ground arith);
            others = λ q other.
                tally-put_row attempt_key (is_sent_for q) store.attempts a _ again
                  (ground (arith, mine, other));
            same_owners = owners_kept attempt_id store.attempts a _ found refl refl;
          }
