-- ===== src/Jobs/Queue.antt =====
-- backend/stockbrain/jobs/queue.py: `JobQueue` over the table of jobs. A list of rows is the table;
-- `none` where a row is missing. An instant is a number of microseconds: `db_now` is the database's
-- clock and `now` the application's. Payloads and `updated_at` are not modelled.
pub mod Claims
pub mod Invariant
pub mod Steps
pub mod Retries
use stock_brain.Prelude.{
  ℕ, zero, suc, ◌+◌, ◌-◌, ◌*◌, ◌/◌, ◌^◌, Bool, true, false, not, ◌&&◌, ◌||◌, List, [], ◌∷◌, ◌++◌,
  Option, none, some, if◌then◌else◌, truncate, ltb, leb, ◌==◌, any, filter, length, present, Text,
  codes, text_eq,
}
use stock_brain.Prelude.Int.{ℤ, ltb_ℤ, leb_ℤ}
use stock_brain.Enums.{JobStatus}

pub record Job : Type 0 where
  pub id : ℕ
  pub job_type : Text
  pub status : JobStatus
  pub priority : ℤ
  pub created_at : ℕ
  pub run_after : ℕ
  pub attempts : ℕ
  pub max_attempts : ℕ
  pub locked_by : Option Text
  pub locked_at : Option ℕ
  pub last_error : Option Text
  pub dedupe_key : Option Text

abbrev pub is_pending : Job → Bool
is_pending job = elim job.status [ JobStatus.pending ↦ true | _ ↦ false ]

abbrev pub is_running : Job → Bool
is_running job = elim job.status [ JobStatus.running ↦ true | _ ↦ false ]

abbrev pub is_failed : Job → Bool
is_failed job = elim job.status [ JobStatus.failed ↦ true | _ ↦ false ]

-- A row that the partial unique index on `dedupe_key` covers, under a given key.
abbrev pub holds_key : Text → Job → Bool
holds_key key job =
    let same : Bool = elim job.dedupe_key [ none ↦ false | some k ↦ text_eq k key ] in
    (is_pending job || is_running job) && same

-- Whether the index refuses a new row with this key.
abbrev pub conflicts : Option Text → List Job → Bool
conflicts none table = false
conflicts (some key) table = any (holds_key key) table

-- What a caller of `enqueue` supplies; the database draws the identifier and reads its clock.
pub record NewJob : Type 0 where
  pub job_type : Text
  pub priority : ℤ
  pub run_after : Option ℕ
  pub max_attempts : ℕ
  pub dedupe_key : Option Text

abbrev pub row_of : NewJob → ℕ → ℕ → Job
row_of new id db_now = record {
  id = id;
  job_type = new.job_type;
  status = JobStatus.pending;
  priority = new.priority;
  created_at = db_now;
  run_after = elim new.run_after [ none ↦ db_now | some t ↦ t ];
  attempts = 0;
  max_attempts = new.max_attempts;
  locked_by = none;
  locked_at = none;
  last_error = none;
  dedupe_key = new.dedupe_key;
}

-- `enqueue`: the identifier, or `none` where the index suppressed the row.
unfoldable pub enqueue : NewJob → ℕ → ℕ → List Job → Option ℕ × List Job
enqueue new id db_now table =
    if conflicts new.dedupe_key table
    then (none, table)
    else (some id, row_of new id db_now ∷ table)

-- The rows that a claim may take: due, and not locked by another transaction.
abbrev pub claimable : (ℕ → Bool) → ℕ → Job → Bool
claimable locked db_now job = is_pending job && (leb job.run_after db_now && not (locked job.id))

-- `ORDER BY priority ASC, created_at ASC`
abbrev pub comes_before : Job → Job → Bool
comes_before a b =
    ltb_ℤ a.priority b.priority || (leb_ℤ a.priority b.priority && ltb a.created_at b.created_at)

-- `LIMIT 1` of the ordered rows.
unfoldable pub first_of : Job → List Job → Job
first_of best [] = best
first_of best (job ∷ rest) = first_of (if comes_before job best then job else best) rest

unfoldable pub next_job : (ℕ → Bool) → ℕ → List Job → Option Job
next_job locked db_now table = elim (filter (claimable locked db_now) table) [
  | [] ↦ none
  | job ∷ rest ↦ some (first_of job rest)
]

-- `UPDATE … WHERE`
unfoldable pub update : (Job → Bool) → (Job → Job) → List Job → List Job
update where_ set [] = []
update where_ set (job ∷ rest) =
    let later = update where_ set rest in (if where_ job then set job else job) ∷ later

abbrev pub has_id : ℕ → Job → Bool
has_id id job = job.id == id

-- `session.get(Job, id)`
unfoldable pub get : ℕ → List Job → Option Job
get id [] = none
get id (job ∷ rest) = let later = get id rest in if has_id id job then some job else later

abbrev pub start : Text → ℕ → Job → Job
start worker now job = record job {
  status = JobStatus.running;
  locked_by = some worker;
  locked_at = some now;
  attempts = suc job.attempts;
}

-- `claim`: the row as it is after the claim. `locked` are the rows that other transactions hold.
unfoldable pub claim : (ℕ → Bool) → Text → ℕ → ℕ → List Job → Option Job × List Job
claim locked worker db_now now table = elim (next_job locked db_now table) [
  | none ↦ (none, table)
  | some job ↦ (some (start worker now job), update (has_id job.id) (start worker now) table)
]

abbrev pub unlock : JobStatus → Option Text → Job → Job
unlock status error job = record job {
  status = status;
  locked_by = none;
  locked_at = none;
  last_error = error;
}

-- `complete`
unfoldable pub complete : ℕ → List Job → List Job
complete id table = update (has_id id) (unlock JobStatus.succeeded none) table

-- `min(retry_max, retry_base * 2 ** (attempts - 1))`, in microseconds; `2 ** -1` halves.
abbrev pub backoff : ℕ → ℕ → ℕ → ℕ
backoff base longest attempts =
    let grown = if attempts == 0 then base / 2 else base * 2 ^ (attempts - 1) in
    if ltb grown longest then grown else longest

-- The row after a failure: retried after a delay that `uniform` draws, or failed for good.
unfoldable pub fail_job : (ℕ → ℕ → ℕ) → Text → ℕ → ℕ → ℕ → Job → Job
fail_job uniform error base longest db_now job =
    let delay = backoff base longest job.attempts in
    if leb job.max_attempts job.attempts
    then unlock JobStatus.failed (some (truncate 2000 error)) job
    else record (unlock JobStatus.pending (some (truncate 2000 error)) job) {
      run_after = db_now + uniform (delay / 2) delay;
    }

-- `fail`: whether the job was scheduled again.
unfoldable pub fail : (ℕ → ℕ → ℕ) → ℕ → Text → ℕ → ℕ → ℕ → List Job → Bool × List Job
fail uniform id error base longest db_now table = elim (get id table) [
  | none ↦ (false, table)
  | some job ↦ (
    ltb job.attempts job.max_attempts,
    update (has_id id) (fail_job uniform error base longest db_now) table,
  )
]

-- `locked_at < now - timeout` of a running row.
abbrev pub is_abandoned : ℕ → ℕ → Job → Bool
is_abandoned timeout now job =
    let old : Bool = elim job.locked_at [ none ↦ false | some t ↦ ltb (t + timeout) now ] in
    is_running job && old

abbrev pub has_attempts : Job → Bool
has_attempts job = ltb job.attempts job.max_attempts

-- The first statement of `reclaim_abandoned`, and the second.
unfoldable pub reclaim_row : ℕ → Job → Job
reclaim_row db_now job =
    record (unlock JobStatus.pending (some (codes "reclaimed after worker timeout")) job) {
      run_after = db_now;
    }

unfoldable pub bury_row : Job → Job
bury_row job =
    unlock JobStatus.failed (some (codes "worker timed out with no attempts remaining")) job

-- `reclaim_abandoned`: how many rows went back to the queue.
unfoldable pub reclaim_abandoned : ℕ → ℕ → ℕ → List Job → ℕ × List Job
reclaim_abandoned timeout now db_now table =
    let revivable = λ (job : Job). is_abandoned timeout now job && has_attempts job in
    let spent = λ (job : Job). is_abandoned timeout now job && not (has_attempts job) in
    (
      length (filter revivable table),
      update spent bury_row (update revivable (reclaim_row db_now) table),
    )

-- `pending_count`
unfoldable pub pending_count : List Job → ℕ
pending_count table = length (filter is_pending table)

-- The numbers of `health`: pending, running, failed, dead and stuck rows.
pub record QueueHealth : Type 0 where
  pub pending : ℕ
  pub running : ℕ
  pub failed : ℕ
  pub dead : ℕ
  pub stuck : ℕ

unfoldable pub health : ℕ → ℕ → List Job → QueueHealth
health stuck_after db_now table = record {
  pending = length (filter is_pending table);
  running = length (filter is_running table);
  failed = length (filter is_failed table);
  dead = length (filter (λ job. is_failed job && not (has_attempts job)) table);
  stuck = length (filter (is_abandoned stuck_after db_now) table);
}
