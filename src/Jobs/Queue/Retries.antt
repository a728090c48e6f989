-- ===== src/Jobs/Queue/Retries.antt =====
-- `fail` and `reclaim_abandoned`: when a row goes back to the queue, and how late.
use stock_brain.Prelude.{
  ℕ, ◌+◌, ◌/◌, ◌≤◌, ◌≡◌, refl, inl, inr, true, false, List, [], ◌∷◌, none, arith, All, Bool-cases,
  Text, leb,
}
use stock_brain.Enums.{JobStatus}
use stock_brain.Jobs.Queue.{
  Job, update, fail_job, backoff, is_abandoned, has_attempts, reclaim_row, bury_row,
  reclaim_abandoned, pending_count,
}

-- A draw between two bounds, as `random.uniform` documents it.
abbrev pub DrawsBetween : (ℕ → ℕ → ℕ) → Type 0
DrawsBetween uniform =
    (low high : ℕ) → low ≤ high → (low ≤ uniform low high) × (uniform low high ≤ high)

-- What a failure leaves: a row that is retried after a bounded delay, or one that has failed.
pub record IsRetried (base longest db_now : ℕ) (before after : Job) : Type 0 where
  pub again : has_attempts before ≡ true → after.status ≡ JobStatus.pending
  pub dead : has_attempts before ≡ false → after.status ≡ JobStatus.failed
  pub no_sooner :
      has_attempts before ≡ true
      → db_now + backoff base longest before.attempts / 2 ≤ after.run_after
  pub no_later : has_attempts before ≡ true → after.run_after ≤ db_now + longest
  pub released : after.locked_at ≡ none
  pub same_attempts : after.attempts ≡ before.attempts

backoff_le : (base longest attempts : ℕ) → backoff base longest attempts ≤ longest
backoff_le base longest attempts = ground arith

-- A failed row goes back to the queue when it has attempts left, and fails for good when it has none.
-- A retried row waits at least half of its backoff and at most the longest delay, where the draws stay
-- within their bounds. The row is no longer locked, and its attempts are unchanged.
pub fail_job-IsRetried :
    (uniform : ℕ → ℕ → ℕ) (error : Text) (base longest db_now : ℕ) (job : Job)
    → DrawsBetween uniform
    → IsRetried base longest db_now job (fail_job uniform error base longest db_now job)
unfolding fail_job
fail_job-IsRetried uniform error base longest db_now job draws =
    let delay = backoff base longest job.attempts in
    let drawn = draws (delay / 2) delay (omega arith) in
    let short = backoff_le base longest job.attempts in
    elim (Bool-cases (leb job.max_attempts job.attempts)) [
      | inl spent ↦ rw spent (record {
        again = λ e. absurd (ground (arith, e, spent));
        dead = λ e. refl;
        no_sooner = λ e. absurd (ground (arith, e, spent));
        no_later = λ e. absurd (ground (arith, e, spent));
        released = refl;
        same_attempts = refl;
      })
      | inr left ↦ rw left (record {
        again = λ e. refl;
        dead = λ e. absurd (ground (arith, e, left));
        no_sooner = λ e. omega (arith, drawn.0);
        no_later = λ e. omega (arith, drawn.1, short);
        released = refl;
        same_attempts = refl;
      })
    ]

-- No row is left that was locked longer than the timeout.
pub reclaim_leaves_none :
    (timeout now db_now : ℕ) (table : List Job)
    → All
        (λ job. is_abandoned timeout now job ≡ false)
        (reclaim_abandoned timeout now db_now table).1
unfolding reclaim_abandoned update reclaim_row bury_row
reclaim_leaves_none timeout now db_now [] = tt
reclaim_leaves_none timeout now db_now (job ∷ rest) =
    (ground arith, reclaim_leaves_none timeout now db_now rest)

-- The rows that wait grow by exactly the number that is returned.
pub reclaim_counts :
    (timeout now db_now : ℕ) (table : List Job)
    → pending_count (reclaim_abandoned timeout now db_now table).1
      ≡ pending_count table + (reclaim_abandoned timeout now db_now table).0
unfolding reclaim_abandoned update reclaim_row bury_row pending_count
reclaim_counts timeout now db_now [] = refl
reclaim_counts timeout now db_now (job ∷ rest) =
    ground (arith, reclaim_counts timeout now db_now rest)
