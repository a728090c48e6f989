-- ===== src/Jobs/Tests.antt =====
-- The theorems on the queue at a concrete table.
use stock_brain.Prelude.{
  ℕ, ◌+◌, ◌/◌, ◌≡◌, refl, Bool, false, List, [], ◌∷◌, none, some, arith, All, codes,
}
use stock_brain.Prelude.Int.{ℤ}
use stock_brain.Jobs.Queue.{
  Job, NewJob, row_of, claim, start, update, has_id, fail_job, reclaim_abandoned, enqueue, next_job,
  first_of, reclaim_row, bury_row,
}
use stock_brain.Jobs.Queue.Claims.{IsNext, claim_takes}
use stock_brain.Jobs.Queue.Invariant.{IsSound, Distinct}
use stock_brain.Jobs.Queue.Steps.{Step, Reachable, Reachable-IsSound}
use stock_brain.Jobs.Queue.Retries.{DrawsBetween, IsRetried, fail_job-IsRetried}

abbrev refresh : NewJob
refresh = record {
  job_type = codes "refresh";
  priority = ℤ.pos 100;
  run_after = none;
  max_attempts = 3;
  dedupe_key = some (codes "refresh:1");
}

abbrev urgent : NewJob
urgent = record refresh { priority = ℤ.pos 10; dedupe_key = none }

abbrev table : List Job
table = row_of urgent 2 1000 ∷ row_of refresh 1 900 ∷ []

abbrev unlocked : ℕ → Bool
unlocked id = false

claim_runs :
    (claim unlocked (codes "w1") 2000 2000 table).0
    ≡ some (start (codes "w1") 2000 (row_of urgent 2 1000))
unfolding claim next_job first_of
claim_runs = refl

claim_takes_example :
    (job : Job) × IsNext unlocked 2000 table job
    × (start (codes "w1") 2000 (row_of urgent 2 1000) ≡ start (codes "w1") 2000 job)
    × ((claim unlocked (codes "w1") 2000 2000 table).1
        ≡ update (has_id job.id) (start (codes "w1") 2000) table)
claim_takes_example = claim_takes unlocked (codes "w1") 2000 2000 table claim_runs

-- A row is added, claimed, lost by its worker and taken back.
abbrev history :
    Reachable
      (reclaim_abandoned 600 5000 5000
        (claim unlocked (codes "w1") 2000 2000 (enqueue refresh 1 900 []).1).1).1
history =
    Reachable.after
      (Reachable.after
        (Reachable.after Reachable.empty (Step.enqueued refresh 1 900 tt (omega arith)))
        (Step.claimed unlocked (codes "w1") 2000 2000))
      (Step.reclaimed 600 5000 5000)

Reachable-IsSound_example :
    Distinct
      (reclaim_abandoned 600 5000 5000
        (claim unlocked (codes "w1") 2000 2000 (enqueue refresh 1 900 []).1).1).1
    × All IsSound
        (reclaim_abandoned 600 5000 5000
          (claim unlocked (codes "w1") 2000 2000 (enqueue refresh 1 900 []).1).1).1
Reachable-IsSound_example = Reachable-IsSound history

-- The lost row waits again, with one attempt used.
history_result :
    reclaim_abandoned 600 5000 5000
      (claim unlocked (codes "w1") 2000 2000 (enqueue refresh 1 900 []).1).1
    ≡ (
      1,
      record (row_of refresh 1 900) {
        run_after = 5000;
        attempts = 1;
        last_error = some (codes "reclaimed after worker timeout");
      }
          ∷ [],
    )
unfolding reclaim_abandoned claim enqueue next_job first_of update reclaim_row bury_row
history_result = refl

abbrev midpoint : ℕ → ℕ → ℕ
midpoint low high = (low + high) / 2

midpoint_draws : DrawsBetween midpoint
midpoint_draws low high h = (omega (arith, h), omega (arith, h))

fail_job-IsRetried_example :
    IsRetried 5000000 900000000 7000 (start (codes "w1") 2000 (row_of refresh 1 900)) (
      fail_job midpoint
        (codes "boom")
        5000000
        900000000
        7000
        (start (codes "w1") 2000 (row_of refresh 1 900)))
fail_job-IsRetried_example =
    fail_job-IsRetried midpoint (codes "boom") 5000000 900000000 7000
      (start (codes "w1") 2000 (row_of refresh 1 900)) midpoint_draws

abbrev running_table : List Job
running_table = start (codes "w1") 2000 (row_of refresh 1 900) ∷ row_of urgent 2 1000 ∷ []
