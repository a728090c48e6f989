-- ===== src/Jobs/Queue/Invariant.antt =====
-- A row runs at most as often as it may: the steps of the queue and the invariant of its rows.
use stock_brain.Prelude.{
  ℕ, ◌≤◌, ◌<◌, ◌≡◌, refl, sym, inl, inr, Bool, true, false, List, [], ◌∷◌, none, arith, filter, All,
  Any, Bool-cases, Option-cases, present, Text,
}
use mathlib.Core.Path.{subst}
use stock_brain.Enums.{JobStatus}
use stock_brain.Jobs.Queue.{
  Job, claim, next_job, start, update, has_id, complete, unlock, fail_job, fail, has_attempts,
  reclaim_row, bury_row, reclaim_abandoned, is_pending, is_running, get, claimable,
}
use stock_brain.Jobs.Queue.Claims.{next_job-IsNext}

-- A row of the table: a waiting row has attempts left, a running one has used at most all of them,
-- and exactly the running rows are locked.
pub record IsSound (job : Job) : Type 0 where
  pub waiting : is_pending job ≡ true → job.attempts < job.max_attempts
  pub bounded : job.attempts ≤ job.max_attempts
  pub locked : is_running job ≡ present job.locked_at

-- Identifiers are a primary key.
abbrev pub Distinct : List Job → Type 0
Distinct [] = Unit
Distinct (job ∷ rest) = All (λ row. has_id job.id row ≡ false) rest × Distinct rest

module _ (P Q : Job → Type 0) (where_ : Job → Bool) (set : Job → Job) where
  -- An update gives `Q` of every row when it gives it of the rows that it changes, and the others
  -- have it.
  pub update-All :
      (table : List Job)
      → ((job : Job) → where_ job ≡ true → P job → Q (set job))
      → ((job : Job) → P job → Q job)
      → All P table
      → All Q (update where_ set table)
  unfolding update
  update-All [] change keep h = tt
  update-All (job ∷ rest) change keep h =
      let later = update-All rest change keep h.1 in
      elim (Bool-cases (where_ job)) [
        | inl hit ↦ rw (hit, All) (change job hit h.0, later)
        | inr miss ↦ rw (miss, All) (keep job h.0, later)
      ]

-- The row that has the identifier of a row of the table is that row.
same_row :
    (table : List Job) (job : Job)
    → Distinct table
    → Any (λ row. job ≡ row) table
    → All (λ row. has_id job.id row ≡ true → row ≡ job) table
same_row [] job d h = tt
same_row (row ∷ rest) job d (inl e) = (λ _. sym e, others rest d.0)
  where
    others :
        (rows : List Job)
        → All (λ other. has_id row.id other ≡ false) rows
        → All (λ other. has_id job.id other ≡ true → other ≡ job) rows
    others [] apart = tt
    others (other ∷ rows) apart =
        (λ same. absurd (ground (arith, e, same, apart.0)), others rows apart.1)
same_row (row ∷ rest) job d (inr later) =
    (λ same. absurd (clash rest d.0 later same), same_row rest job d.1 later)
  where
    clash :
        (rows : List Job)
        → All (λ other. has_id row.id other ≡ false) rows
        → Any (λ other. job ≡ other) rows
        → has_id job.id row ≡ true
        → ⊥
    clash [] apart found same = found
    clash (other ∷ rows) apart (inl e) same = ground (arith, e, same, apart.0)
    clash (other ∷ rows) apart (inr found) same = clash rows apart.1 found same

All-both :
    (P Q : Job → Type 0) (table : List Job)
    → All P table
    → All Q table
    → All (λ row. P row × Q row) table
All-both P Q [] h k = tt
All-both P Q (job ∷ rest) h k = ((h.0, k.0), All-both P Q rest h.1 k.1)

-- What holds of every row holds of one of them.
All-Any :
    (P : Job → Type 0) (table : List Job) (job : Job)
    → All P table
    → Any (λ row. job ≡ row) table
    → P job
All-Any P [] job h found = absurd found
All-Any P (row ∷ rest) job h (inl e) = subst P (sym e) h.0
All-Any P (row ∷ rest) job h (inr found) = All-Any P rest job h.1 found

start-IsSound :
    (worker : Text) (now : ℕ) (job : Job)
    → job.attempts < job.max_attempts
    → IsSound (start worker now job)
start-IsSound worker now job h = record {
  waiting = λ e. absurd (ground (arith, e));
  bounded = h;
  locked = refl;
}

pub complete-IsSound :
    (table : List Job) (id : ℕ) → All IsSound table → All IsSound (complete id table)
unfolding complete
complete-IsSound table id h =
    update-All IsSound IsSound (has_id id) (unlock JobStatus.succeeded none) table
      (λ job hit s. record {
        waiting = λ e. absurd (ground (arith, e));
        bounded = s.bounded;
        locked = refl;
      })
      (λ job s. s) h

fail_job-IsSound :
    (uniform : ℕ → ℕ → ℕ) (error : Text) (base longest db_now : ℕ) (job : Job)
    → IsSound job
    → IsSound (fail_job uniform error base longest db_now job)
unfolding fail_job
fail_job-IsSound uniform error base longest db_now job s = ground (arith, s.bounded)

pub claim-IsSound :
    (locked : ℕ → Bool) (worker : Text) (db_now now : ℕ) (table : List Job)
    → Distinct table
    → All IsSound table
    → All IsSound (claim locked worker db_now now table).1
unfolding claim
claim-IsSound locked worker db_now now table d h =
    elim (Option-cases (next_job locked db_now table)) [
      | inl empty ↦ rw (empty, All) h
      | inr (job, e) ↦
          let next =
            next_job-IsNext locked db_now table (filter (claimable locked db_now) table) refl e in
          let due =
            (All-Any IsSound table job h next.present_row).waiting (ground (arith, next.may_run)) in
          let only = same_row table job d next.present_row in
          rw (e, All)
            (update-All (λ row. IsSound row × (has_id job.id row ≡ true → row ≡ job)) IsSound
              (has_id job.id) (start worker now) table
              (λ row hit s. rw (s.1 hit) (start-IsSound worker now job due)) (λ row s. s.0)
              (All-both IsSound _ table h only))
    ]

pub fail-IsSound :
    (uniform : ℕ → ℕ → ℕ) (id : ℕ) (error : Text) (base longest db_now : ℕ) (table : List Job)
    → All IsSound table
    → All IsSound (fail uniform id error base longest db_now table).1
unfolding fail
fail-IsSound uniform id error base longest db_now table h = elim (Option-cases (get id table)) [
  | inl missing ↦ rw (missing, All) h
  | inr (job, e) ↦
      rw (e, All)
        (update-All IsSound IsSound (has_id id) (fail_job uniform error base longest db_now) table
          (λ row hit s. fail_job-IsSound uniform error base longest db_now row s) (λ row s. s) h)
]

reclaim_row-IsSound :
    (db_now : ℕ) (job : Job)
    → has_attempts job ≡ true
    → IsSound job
    → IsSound (reclaim_row db_now job)
unfolding reclaim_row
reclaim_row-IsSound db_now job left s = ground (arith, left, s.bounded)

bury_row-IsSound : (job : Job) → IsSound job → IsSound (bury_row job)
unfolding bury_row
bury_row-IsSound job s = ground (arith, s.bounded)

pub reclaim-IsSound :
    (timeout now db_now : ℕ) (table : List Job)
    → All IsSound table
    → All IsSound (reclaim_abandoned timeout now db_now table).1
unfolding reclaim_abandoned
reclaim-IsSound timeout now db_now table h =
    update-All IsSound IsSound _ bury_row _ (λ job hit s. bury_row-IsSound job s) (λ job s. s)
      (update-All IsSound IsSound _ (reclaim_row db_now) table
        (λ job hit s. reclaim_row-IsSound db_now job (ground (arith, hit)) s) (λ job s. s) h)
