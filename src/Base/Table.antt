-- ===== src/Base/Table.antt =====
-- A table as the list of its rows, in the order of insertion.
use Prim.Native.Nat.{ℕ, suc}
use mathlib.Core.Bool.{Bool}
use mathlib.Core.Option.{Option, none, some}
use mathlib.Core.List.{List, [], ◌∷◌}
use agrilink_backend.Base.Tests.{if◌then◌else◌}

module _ {R : Type 0} where
  -- `findOneBy`
  unfoldable pub find_one : (R → Bool) → List R → Option R
  find_one p [] = none
  find_one p (r ∷ rs) = if p r then some r else find_one p rs

  -- `find({ where })`
  unfoldable pub select : (R → Bool) → List R → List R
  select p [] = []
  select p (r ∷ rs) = let rest = select p rs in if p r then r ∷ rest else rest

  -- `UPDATE … SET … WHERE …`
  unfoldable pub update_where : (R → Bool) → (R → R) → List R → List R
  update_where p f [] = []
  update_where p f (r ∷ rs) = (if p r then f r else r) ∷ update_where p f rs

  -- the number of rows that a condition selects: the `affected` of an update
  unfoldable pub count_where : (R → Bool) → List R → ℕ
  count_where p [] = 0
  count_where p (r ∷ rs) = let n = count_where p rs in if p r then suc n else n
