-- ===== src/Base/Paging.antt =====
-- Pages of a list of rows, and the arithmetic of page numbers.
use Prim.Native.Nat.{ℕ, zero, suc, ◌-◌, ◌*◌, ◌≤◌}
use mathlib.Core.Option.{Option, none, some}
use mathlib.Core.List.{List, [], ◌∷◌}
use native.Mathlib.Omega.{arith}
use agrilink_backend.Base.Tests.{ltb, if◌then◌else◌}
use agrilink_backend.Base.Lists.{length}

-- `Math.max` and `Math.min`
abbrev pub max : ℕ → ℕ → ℕ
max a b = if ltb a b then b else a

abbrev pub min : ℕ → ℕ → ℕ
min a b = if ltb a b then a else b

-- `value ?? fallback`
abbrev pub or_else {ℓ} : {A : Type ℓ} → Option A → A → A
or_else none b = b
or_else (some a) b = a

module _ {ℓ} {A : Type ℓ} where
  abbrev pub take : ℕ → List A → List A
  take zero xs = []
  take (suc n) [] = []
  take (suc n) (x ∷ xs) = x ∷ take n xs

  abbrev pub drop : ℕ → List A → List A
  drop zero xs = xs
  drop (suc n) [] = []
  drop (suc n) (x ∷ xs) = drop n xs

  -- `.skip((page - 1) * limit).take(limit)`
  unfoldable pub page_of : ℕ → ℕ → List A → List A
  page_of page limit xs = take limit (drop ((page - 1) * limit) xs)

  pub length-take : (n : ℕ) (xs : List A) → length (take n xs) ≤ n
  length-take zero xs = omega arith
  length-take (suc n) [] = omega arith
  length-take (suc n) (x ∷ xs) = omega (arith, length-take n xs)
