-- ===== src/Tables.antt =====
-- Tables of rows with a primary key, as lists: a row is read and written by its key.
pub mod Laws
use stock_brain.Prelude.{ℕ, Bool, List, [], ◌∷◌, Option, none, some, ◌==◌, if◌then◌else◌}

module _ {ℓ} {A : Type ℓ} (key : A → ℕ) where
  -- `session.get`, or a select by the key
  unfoldable pub find_row : ℕ → List A → Option A
  find_row id [] = none
  find_row id (row ∷ rows) =
      let later = find_row id rows in if key row == id then some row else later

  -- The row that has the key of the new one is replaced by it.
  unfoldable pub put_row : A → List A → List A
  put_row new [] = []
  put_row new (row ∷ rows) =
      let later = put_row new rows in if key row == key new then new ∷ rows else row ∷ later
