-- ===== src/Jobs/Queue/Claims.antt =====
-- `claim`: a due row of the least priority and age, counted and locked.
use stock_brain.Prelude.{
  ℕ, ◌≡◌, refl, ◌↔◌, ◌⊎◌, ◌∙◌, inl, inr, Bool, true, false, List, [], ◌∷◌, none, some, arith,
  if◌then◌else◌, filter, All, Any, non_empty, Bool-cases, Option-cases, Text,
}
use mathlib.Core.Path.{subst}
use stock_brain.Jobs.Queue.{
  Job, claimable, comes_before, first_of, next_job, claim, start, update, has_id,
}

comes_before_irrefl : (a : Job) → comes_before a a ≡ false
comes_before_irrefl a = ground arith

comes_before_weak :
    (a b c : Job) → comes_before a b ≡ false → comes_before c b ≡ true → comes_before a c ≡ false
comes_before_weak a b c h k = ground arith

-- Neither a row that does not come before the best so far, nor the next one, comes before the better
-- of the two.
better_least :
    (before best job : Job)
    → comes_before before best ≡ false
    → (comes_before before (if comes_before job best then job else best) ≡ false)
      × (comes_before job (if comes_before job best then job else best) ≡ false)
better_least before best job h = elim (Bool-cases (comes_before job best)) [
  | inl earlier ↦ rw earlier (comes_before_weak before best job h earlier, comes_before_irrefl job)
  | inr later ↦ rw later (h, later)
]

first_of_least :
    (best : Job) (rest : List Job) (before : Job)
    → comes_before before best ≡ false
    → (comes_before before (first_of best rest) ≡ false)
      × All (λ job. comes_before job (first_of best rest) ≡ false) rest
unfolding first_of
first_of_least best [] before h = (h, tt)
first_of_least best (job ∷ rest) before h =
    let m = if comes_before job best then job else best in
    let step = better_least before best job h in
    let own = better_least best best job (comes_before_irrefl best) in
    let earlier = first_of_least m rest before step.0 in
    ((first_of_least m rest before step.0).0, ((first_of_least m rest job own.1).0, earlier.1))

better_among :
    (best job : Job)
    → ((if comes_before job best then job else best) ≡ best)
      ⊎ ((if comes_before job best then job else best) ≡ job)
better_among best job = elim (Bool-cases (comes_before job best)) [
  | inl earlier ↦ inr (rw earlier refl)
  | inr later ↦ inl (rw later refl)
]

first_of_among :
    (best : Job) (rest : List Job)
    → (first_of best rest ≡ best) ⊎ Any (λ job. first_of best rest ≡ job) rest
unfolding first_of
first_of_among best [] = inl refl
first_of_among best (job ∷ rest) =
    elim (first_of_among (if comes_before job best then job else best) rest) [
      | inr later ↦ inr (inr later)
      | inl same ↦ elim (better_among best job) [
        | inl kept ↦ inl (same ∙ kept)
        | inr taken ↦ inr (inl (same ∙ taken))
      ]
    ]

-- A row that a claim may take, and before which none that it may take comes.
pub record IsNext (locked : ℕ → Bool) (db_now : ℕ) (table : List Job) (job : Job) : Type 0 where
  pub may_run : claimable locked db_now job ≡ true
  pub present_row : Any (λ row. job ≡ row) table
  pub is_first :
      All (λ row. claimable locked db_now row ≡ true → comes_before row job ≡ false) table

filtered_first :
    (p : Job → Bool) (job : Job) (table : List Job)
    → All (λ row. comes_before row job ≡ false) (filter p table)
    → All (λ row. p row ≡ true → comes_before row job ≡ false) table
filtered_first p job [] h = tt
filtered_first p job (row ∷ table) h = elim (Bool-cases (p row)) [
  | inl taken ↦
      let kept = (rw (taken, All) at h) in (λ _. kept.0, filtered_first p job table kept.1)
  | inr left ↦
      (λ e. absurd (ground (arith, e, left)), filtered_first p job table (rw (left, All) at h))
]

filtered_among :
    (p : Job → Bool) (job : Job) (table : List Job)
    → Any (λ row. job ≡ row) (filter p table)
    → (p job ≡ true) × Any (λ row. job ≡ row) table
filtered_among p job [] h = absurd h
filtered_among p job (row ∷ table) h = elim (Bool-cases (p row)) [
  | inr left ↦ let rest = filtered_among p job table (rw (left, Any) at h) in (rest.0, inr rest.1)
  | inl taken ↦ elim (rw (taken, Any) at h) [
    | inl same ↦ (rw same taken, inl same)
    | inr later ↦ let rest = filtered_among p job table later in (rest.0, inr rest.1)
  ]
]

-- The row that a claim picks.
pub next_job-IsNext :
    (locked : ℕ → Bool) (db_now : ℕ) (table rows : List Job) {job : Job}
    → filter (claimable locked db_now) table ≡ rows
    → next_job locked db_now table ≡ some job
    → IsNext locked db_now table job
unfolding next_job
next_job-IsNext locked db_now table [] e h = absurd (ground (arith, rw (e, next_job) at h))
next_job-IsNext locked db_now table (best ∷ rest) {job} e h =
    let same : first_of best rest ≡ job = ground (arith, rw (e, next_job) at h) in
    let least = first_of_least best rest best (comes_before_irrefl best) in
    let among : Any (λ row. first_of best rest ≡ row) (best ∷ rest) = first_of_among best rest in
    let found =
      filtered_among (claimable locked db_now) (first_of best rest) table (rw (e, Any) among) in
    let first =
      filtered_first (claimable locked db_now) (first_of best rest) table (rw (e, All) least) in
    subst (IsNext locked db_now table) same
      (record { may_run = found.0; present_row = found.1; is_first = first })

-- A claim that returns a row took one that was due and free, and none that was due and free came
-- before it in priority and age. It returns the row as locked by the worker, running, with one more
-- attempt, and changes no row of another identifier.
pub claim_takes :
    (locked : ℕ → Bool) (worker : Text) (db_now now : ℕ) (table : List Job) {taken : Job}
    → (claim locked worker db_now now table).0 ≡ some taken
    → (job : Job) × IsNext locked db_now table job
      × (taken ≡ start worker now job)
      × ((claim locked worker db_now now table).1 ≡ update (has_id job.id) (start worker now) table)
unfolding claim
claim_takes locked worker db_now now table h = elim (Option-cases (next_job locked db_now table)) [
  | inl empty ↦ absurd (ground (arith, empty, h))
  | inr (job, e) ↦
      (job, next_job-IsNext locked db_now table _ refl e, ground (arith, e, h), ground (arith, e))
]

-- A claim returns nothing exactly when no row is due and free, and then it changes nothing.
pub claim_empty :
    (locked : ℕ → Bool) (worker : Text) (db_now now : ℕ) (table : List Job)
    → ((claim locked worker db_now now table).0 ≡ none)
      ↔ (non_empty (filter (claimable locked db_now) table) ≡ false)
unfolding claim next_job
claim_empty locked worker db_now now table = ground arith
