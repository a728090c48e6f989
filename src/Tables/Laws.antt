-- ===== src/Tables/Laws.antt =====
-- Reading and writing rows by their key.
use stock_brain.Prelude.{
  ℕ, ◌≡◌, refl, List, [], ◌∷◌, some, map, arith, Bool-cases, inl, inr, ◌==◌, All,
}
use mathlib.Core.Path.{subst}
use stock_brain.Tables.{find_row, put_row}

-- Two lists of one length, related element by element.
abbrev pub Pairwise {ℓ} : {A : Type ℓ} → (A → A → Type 0) → List A → List A → Type 0
Pairwise R [] [] = Unit
Pairwise R [] (y ∷ ys) = ⊥
Pairwise R (x ∷ xs) [] = ⊥
Pairwise R (x ∷ xs) (y ∷ ys) = R x y × Pairwise R xs ys

module _ {ℓ} {A : Type ℓ} where
  pub Pairwise-refl : (R : A → A → Type 0) → ((x : A) → R x x) → (xs : List A) → Pairwise R xs xs
  Pairwise-refl R reflexive [] = tt
  Pairwise-refl R reflexive (x ∷ xs) = (reflexive x, Pairwise-refl R reflexive xs)

  pub Pairwise-trans :
      (R : A → A → Type 0)
      → ((x y z : A) → R x y → R y z → R x z)
      → (xs ys zs : List A) → Pairwise R xs ys
      → Pairwise R ys zs
      → Pairwise R xs zs
  Pairwise-trans R trans [] [] [] h k = tt
  Pairwise-trans R trans [] [] (z ∷ zs) h k = absurd k
  Pairwise-trans R trans [] (y ∷ ys) zs h k = absurd h
  Pairwise-trans R trans (x ∷ xs) [] zs h k = absurd h
  Pairwise-trans R trans (x ∷ xs) (y ∷ ys) [] h k = absurd k
  Pairwise-trans R trans (x ∷ xs) (y ∷ ys) (z ∷ zs) h k =
      (trans x y z h.0 k.0, Pairwise-trans R trans xs ys zs h.1 k.1)

module _ {ℓ} {A : Type ℓ} (key : A → ℕ) where
  -- A row that is read has the key, and satisfies what every row does.
  pub find_row-key :
      (id : ℕ) (rows : List A) (row : A) → find_row key id rows ≡ some row → key row ≡ id
  unfolding find_row
  find_row-key id [] row h = cc
  find_row-key id (r ∷ rows) row h = elim (Bool-cases (key r == id)) [
    | inl hit ↦ let e : some r ≡ some row = (rw hit at h) in ground (arith, hit, e)
    | inr miss ↦ find_row-key id rows row (rw miss at h)
  ]

  -- A row is read again under its own key.
  pub find_row_again :
      (id : ℕ) (rows : List A) (row : A)
      → find_row key id rows ≡ some row
      → find_row key (key row) rows ≡ some row
  find_row_again id rows row h = rw (find_row-key id rows row h) h

  -- A row that was written is read.
  pub find_row-put_row :
      (rows : List A) (old new : A)
      → find_row key (key new) rows ≡ some old
      → find_row key (key new) (put_row key new rows) ≡ some new
  unfolding find_row put_row
  find_row-put_row [] old new h = cc
  find_row-put_row (r ∷ rows) old new h = elim (Bool-cases (key r == key new)) [
    | inl hit ↦ rw hit (ground arith)
    | inr miss ↦ rw (miss, find_row) (rw miss (find_row-put_row rows old new (rw miss at h)))
  ]

  pub find_row-All :
      (P : A → Type 0) (id : ℕ) (rows : List A) (row : A)
      → All P rows
      → find_row key id rows ≡ some row
      → P row
  unfolding find_row
  find_row-All P id [] row all h = cc
  find_row-All P id (r ∷ rows) row all h = elim (Bool-cases (key r == id)) [
    | inl hit ↦ let e : some r ≡ some row = (rw hit at h) in subst P (cc e) all.0
    | inr miss ↦ find_row-All P id rows row all.1 (rw miss at h)
  ]

  -- Writing a row relates the tables as it relates the row to the one that it replaces.
  pub put_row-Pairwise :
      (R : A → A → Type 0) (reflexive : (x : A) → R x x) (rows : List A) (old new : A)
      → find_row key (key new) rows ≡ some old
      → R old new
      → Pairwise R rows (put_row key new rows)
  unfolding find_row put_row
  put_row-Pairwise R reflexive [] old new h change = tt
  put_row-Pairwise R reflexive (r ∷ rows) old new h change = elim (Bool-cases (key r == key new)) [
    | inl hit ↦
        let e : some r ≡ some old = (rw hit at h) in
        rw (hit, Pairwise) (subst (λ x. R x new) (cc e) change, Pairwise-refl R reflexive rows)
    | inr miss ↦
        rw (miss, Pairwise)
          (reflexive r, put_row-Pairwise R reflexive rows old new (rw miss at h) change)
  ]

-- Writing a row leaves a view of the table as it is when it leaves the view of the row.
pub put_row-map {ℓ κ} :
    {A : Type ℓ} {B : Type κ} (key : A → ℕ) (view : A → B) (rows : List A) (old new : A)
    → find_row key (key new) rows ≡ some old
    → view new ≡ view old
    → map view (put_row key new rows) ≡ map view rows
unfolding find_row put_row
put_row-map key view [] old new h same = refl
put_row-map key view (r ∷ rows) old new h same = elim (Bool-cases (key r == key new)) [
  | inl hit ↦ let e : some r ≡ some old = (rw hit at h) in rw hit (cc (same, e))
  | inr miss ↦
      let later = put_row-map key view rows old new (rw miss at h) same in rw miss (cc later)
]
