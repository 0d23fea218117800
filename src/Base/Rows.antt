-- ===== src/Base/Rows.antt =====
-- A table as the list of its rows: the queries and updates by a condition, and what an update of
-- the one row of a key does to the table's sums.
use Prim.Native.Nat.{ℕ, ◌+◌}
use mathlib.Core.Bool.{Bool, false, ◌||◌}
use mathlib.Core.List.{List, [], ◌∷◌}
use mathlib.Core.Option.{Option, none, some}
use tradedrift.Base.Tests.{if◌then◌else◌}

module _ {A : Type 0} where
  -- SELECT of the first row of a condition.
  abbrev pub first_row : (A → Bool) → List A → Option A
  first_row p [] = none
  first_row p (x ∷ xs) = if p x then some x else first_row p xs

  -- SELECT EXISTS.
  abbrev pub any_row : (A → Bool) → List A → Bool
  any_row p [] = false
  any_row p (x ∷ xs) = p x || any_row p xs

  abbrev pub set_rows : (A → Bool) → (A → A) → List A → List A
  set_rows p f [] = []
  set_rows p f (x ∷ xs) = (if p x then f x else x) ∷ set_rows p f xs

  -- UPDATE of every row of a condition; `none` if it affects no row.
  unfoldable pub update_rows : (A → Bool) → (A → A) → List A → Option (List A)
  update_rows p f xs = if any_row p xs then some (set_rows p f xs) else none

  -- The sum of a measure over the rows.
  abbrev pub sum_of : (A → ℕ) → List A → ℕ
  sum_of m [] = 0
  sum_of m (x ∷ xs) = m x + sum_of m xs
