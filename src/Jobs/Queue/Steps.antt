-- ===== src/Jobs/Queue/Steps.antt =====
-- The life of a table of jobs as a step relation, and what every reachable table satisfies.
use stock_brain.Prelude.{
  ℕ, ◌<◌, ◌≡◌, refl, inl, inr, Bool, false, List, [], ◌∷◌, arith, All, Bool-cases, Option-cases,
  Text, ◌==◌,
}
use stock_brain.Jobs.Queue.{
  Job, NewJob, enqueue, claim, next_job, start, update, has_id, complete, fail_job, fail,
  reclaim_row, bury_row, reclaim_abandoned, conflicts, get,
}
use stock_brain.Jobs.Queue.Invariant.{
  IsSound, Distinct, complete-IsSound, claim-IsSound, fail-IsSound, reclaim-IsSound,
}

-- One operation of the queue. A new row has a fresh identifier and at least one attempt.
pub data Step : List Job → List Job → Type 0 where
  enqueued :
      (new : NewJob) (id db_now : ℕ) {table : List Job}
      → All (λ row. has_id id row ≡ false) table
      → 0 < new.max_attempts
      → Step table (enqueue new id db_now table).1
  claimed :
      (locked : ℕ → Bool) (worker : Text) (db_now now : ℕ) {table : List Job}
      → Step table (claim locked worker db_now now table).1
  completed : (id : ℕ) {table : List Job} → Step table (complete id table)
  failed :
      (uniform : ℕ → ℕ → ℕ) (id : ℕ) (error : Text) (base longest db_now : ℕ) {table : List Job}
      → Step table (fail uniform id error base longest db_now table).1
  reclaimed :
      (timeout now db_now : ℕ) {table : List Job}
      → Step table (reclaim_abandoned timeout now db_now table).1

-- A table that operations give, from an empty one.
pub data Reachable : List Job → Type 0 where
  empty : Reachable []
  after : {table next : List Job} → Reachable table → Step table next → Reachable next

-- An update that keeps identifiers keeps a fresh one fresh.
apart_update :
    (where_ : Job → Bool) (set : Job → Job) (id : ℕ) (table : List Job)
    → ((job : Job) → (set job).id ≡ job.id)
    → All (λ row. (row.id == id) ≡ false) table
    → All (λ row. (row.id == id) ≡ false) (update where_ set table)
unfolding update
apart_update where_ set id [] keeps h = tt
apart_update where_ set id (job ∷ rest) keeps h =
    let later = apart_update where_ set id rest keeps h.1 in
    elim (Bool-cases (where_ job)) [
      | inl hit ↦ rw (hit, All) (rw (keeps job) h.0, later)
      | inr miss ↦ rw (miss, All) (h.0, later)
    ]

update-Distinct :
    (where_ : Job → Bool) (set : Job → Job) (table : List Job)
    → ((job : Job) → (set job).id ≡ job.id)
    → Distinct table
    → Distinct (update where_ set table)
unfolding update
update-Distinct where_ set [] keeps d = tt
update-Distinct where_ set (job ∷ rest) keeps d =
    let apart = apart_update where_ set job.id rest keeps d.0 in
    let later = update-Distinct where_ set rest keeps d.1 in
    elim (Bool-cases (where_ job)) [
      | inl hit ↦ rw (hit, Distinct) (rw (keeps job) apart, later)
      | inr miss ↦ rw (miss, Distinct) (apart, later)
    ]

enqueue-Distinct :
    (new : NewJob) (id db_now : ℕ) (table : List Job)
    → All (λ row. has_id id row ≡ false) table
    → Distinct table
    → Distinct (enqueue new id db_now table).1
unfolding enqueue
enqueue-Distinct new id db_now table fresh d = elim (Bool-cases (conflicts new.dedupe_key table)) [
  | inl taken ↦ rw (taken, Distinct) d
  | inr free ↦ rw (free, Distinct) (fresh, d)
]

enqueue-IsSound :
    (new : NewJob) (id db_now : ℕ) (table : List Job)
    → 0 < new.max_attempts
    → All IsSound table
    → All IsSound (enqueue new id db_now table).1
unfolding enqueue
enqueue-IsSound new id db_now table some_left h =
    elim (Bool-cases (conflicts new.dedupe_key table)) [
      | inl taken ↦ rw (taken, All) h
      | inr free ↦
          rw (free, All)
            (record { waiting = λ _. some_left; bounded = omega arith; locked = refl }, h)
    ]

fail_job_id :
    (uniform : ℕ → ℕ → ℕ) (error : Text) (base longest db_now : ℕ) (job : Job)
    → (fail_job uniform error base longest db_now job).id ≡ job.id
unfolding fail_job
fail_job_id uniform error base longest db_now job = ground arith

Step-Distinct : {table next : List Job} → Step table next → Distinct table → Distinct next
unfolding claim complete fail reclaim_abandoned reclaim_row bury_row
Step-Distinct {table} (Step.enqueued new id db_now fresh left) d =
    enqueue-Distinct new id db_now table fresh d
Step-Distinct {table} (Step.claimed locked worker db_now now) d =
    elim (Option-cases (next_job locked db_now table)) [
      | inl none_due ↦ rw (none_due, Distinct) d
      | inr (job, e) ↦
          rw (e, Distinct) (update-Distinct (has_id job.id) (start worker now) table (λ _. refl) d)
    ]
Step-Distinct {table} (Step.completed id) d = update-Distinct (has_id id) _ table (λ _. refl) d
Step-Distinct {table} (Step.failed uniform id error base longest db_now) d =
    elim (Option-cases (get id table)) [
      | inl missing ↦ rw (missing, Distinct) d
      | inr (job, e) ↦
          rw (e, Distinct)
            (update-Distinct (has_id id) _ table (fail_job_id uniform error base longest db_now) d)
    ]
Step-Distinct {table} (Step.reclaimed timeout now db_now) d =
    update-Distinct _ bury_row _ (λ _. refl)
      (update-Distinct _ (reclaim_row db_now) table (λ _. refl) d)

Step-IsSound :
    {table next : List Job}
    → Step table next
    → Distinct table
    → All IsSound table
    → All IsSound next
Step-IsSound {table} (Step.enqueued new id db_now fresh left) d h =
    enqueue-IsSound new id db_now table left h
Step-IsSound {table} (Step.claimed locked worker db_now now) d h =
    claim-IsSound locked worker db_now now table d h
Step-IsSound {table} (Step.completed id) d h = complete-IsSound table id h
Step-IsSound {table} (Step.failed uniform id error base longest db_now) d h =
    fail-IsSound uniform id error base longest db_now table h
Step-IsSound {table} (Step.reclaimed timeout now db_now) d h =
    reclaim-IsSound timeout now db_now table h

-- In every table that the operations give, in whatever order and by whichever workers, identifiers
-- are distinct, no row has run more often than it may, a waiting row has an attempt left, and exactly
-- the running rows are locked.
pub Reachable-IsSound : {table : List Job} → Reachable table → Distinct table × All IsSound table
Reachable-IsSound Reachable.empty = (tt, tt)
Reachable-IsSound (Reachable.after before step) =
    let h = Reachable-IsSound before in (Step-Distinct step h.0, Step-IsSound step h.0 h.1)
