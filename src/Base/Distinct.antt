-- ===== src/Base/Distinct.antt =====
-- Tables in which no two rows are the same under a test: a unique index over several columns.
use mathlib.Core.Path.{◌≡◌, refl, ap, ◌∙◌, fun_ext}
use mathlib.Core.Logic.{inl, inr}
use mathlib.Core.Bool.{Bool, true}
use mathlib.Core.Option.{none}
use mathlib.Core.List.{List, [], ◌∷◌, ◌++◌}
use native.Mathlib.Omega.{arith}
use agrilink_backend.Base.Tests.{Bool-cases}
use agrilink_backend.Base.Table.{find_one, update_where}
use agrilink_backend.Base.TableLaws.{find_one-update_where}
use agrilink_backend.Base.Keyed.{not_found-append}

module _ {R : Type 0} (same : R → R → Bool) where
  abbrev pub IsDistinct : List R → Type 0
  IsDistinct [] = Unit
  IsDistinct (r ∷ rs) = (find_one (same r) rs ≡ none) × IsDistinct rs

  -- A row that no row of a table is the same as, in either order, can be put behind it.
  pub IsDistinct-append :
      (rs : List R) (r : R)
      → ((x y : R) → same x y ≡ same y x)
      → same r r ≡ true
      → IsDistinct rs
      → find_one (same r) rs ≡ none
      → IsDistinct (rs ++ r ∷ [])
  unfolding find_one
  IsDistinct-append [] r turned self u h = (refl, tt)
  IsDistinct-append (x ∷ rs) r turned self (first, u) h = elim (Bool-cases (same r x)) [
    | inl e ↦ absurd (ground (arith, e))
    | inr e ↦ (
      not_found-append (same x) rs r first (turned x r ∙ e),
      IsDistinct-append rs r turned self u (ground (arith, e)),
    )
  ]

  -- An update that does not touch the tested columns keeps them distinct.
  pub IsDistinct-update_where :
      (q : R → Bool) (f : R → R) (rs : List R)
      → ((x y : R) → same (f x) y ≡ same x y)
      → ((x y : R) → same x (f y) ≡ same x y)
      → IsDistinct rs
      → IsDistinct (update_where q f rs)
  unfolding update_where
  IsDistinct-update_where q f [] left right u = tt
  IsDistinct-update_where q f (x ∷ rs) left right (first, u) =
      let rest = IsDistinct-update_where q f rs left right u in
      let clear : find_one (same x) (update_where q f rs) ≡ none =
        find_one-update_where (same x) q f rs (right x) ∙ rw first in
      elim (Bool-cases (q x)) [
        | inl e ↦ rw e (ap (λ p. find_one p (update_where q f rs)) (fun_ext (left x)) ∙ clear, rest)
        | inr e ↦ rw e (clear, rest)
      ]
