-- ===== src/Base/Sort.antt =====
-- ORDER BY: insertion sort by a test that says which row stands first.
use mathlib.Core.Bool.{Bool}
use mathlib.Core.List.{List, [], ◌∷◌}
use agrilink_backend.Base.Tests.{if◌then◌else◌}

module _ {R : Type 0} (before : R → R → Bool) where
  unfoldable pub insert_sorted : R → List R → List R
  insert_sorted r [] = r ∷ []
  insert_sorted r (x ∷ xs) =
      let rest = insert_sorted r xs in if before r x then r ∷ x ∷ xs else x ∷ rest

  unfoldable pub sort_by : List R → List R
  unfolding insert_sorted
  sort_by [] = []
  sort_by (r ∷ rs) = insert_sorted r (sort_by rs)
