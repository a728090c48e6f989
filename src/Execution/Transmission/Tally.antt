-- ===== src/Execution/Transmission/Tally.antt =====
-- How many elements of a list pass a test, under the operations on rows.
use stock_brain.Prelude.{
  ℕ, ◌+◌, ◌≤◌, ◌≡◌, refl, List, [], ◌∷◌, ◌++◌, some, Bool, false, map, arith, Bool-cases, inl, inr,
  if◌then◌else◌, ◌==◌,
}
use stock_brain.Tables.{find_row, put_row}

abbrev pub tally {ℓ} : {A : Type ℓ} → (A → Bool) → List A → ℕ
tally f [] = 0
tally f (x ∷ xs) = (if f x then 1 else 0) + tally f xs

pub tally-append {ℓ} :
    {A : Type ℓ} (f : A → Bool) (xs ys : List A) → tally f (xs ++ ys) ≡ tally f xs + tally f ys
tally-append f [] ys = omega arith
tally-append f (x ∷ xs) ys = omega (arith, tally-append f xs ys)

pub tally-map {ℓ κ} :
    {A : Type ℓ} {B : Type κ} (g : A → B) (f : B → Bool) (xs : List A)
    → tally f (map g xs) ≡ tally (λ x. f (g x)) xs
tally-map g f [] = refl
tally-map g f (x ∷ xs) = rw (tally-map g f xs) refl

module _ {ℓ} {A : Type ℓ} (key : A → ℕ) (f : A → Bool) where
  pub tally-put_row :
      (rows : List A) (old new : A)
      → find_row key (key new) rows ≡ some old
      → f new ≡ f old
      → tally f (put_row key new rows) ≡ tally f rows
  unfolding find_row put_row
  tally-put_row [] old new h same = refl
  tally-put_row (r ∷ rows) old new h same = elim (Bool-cases (key r == key new)) [
    | inl hit ↦
        let e : some r ≡ some old = (rw hit at h) in
        let f_same : f new ≡ f r = (cc (same, e)) in rw (hit, tally) (rw f_same refl)
    | inr miss ↦ rw (miss, tally) (omega (arith, tally-put_row rows old new (rw miss at h) same))
  ]

  pub tally-put_row-false :
      (rows : List A) (new : A) → f new ≡ false → tally f (put_row key new rows) ≤ tally f rows
  unfolding put_row
  tally-put_row-false [] new h = omega arith
  tally-put_row-false (r ∷ rows) new h = elim (Bool-cases (key r == key new)) [
    | inl hit ↦ rw (hit, tally) (rw h (omega arith))
    | inr miss ↦ rw (miss, tally) (omega (arith, tally-put_row-false rows new h))
  ]
