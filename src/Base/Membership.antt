-- ===== src/Base/Membership.antt =====
-- Some row of a table has a property, and what counting says of it.
use Prim.Native.Nat.{◌<◌}
use mathlib.Core.Path.{◌≡◌}
use mathlib.Core.Logic.{◌⊎◌, inl, inr}
use mathlib.Core.Bool.{Bool, true}
use mathlib.Core.List.{List, [], ◌∷◌}
use native.Mathlib.Omega.{arith}
use agrilink_backend.Base.Tests.{Bool-cases}
use agrilink_backend.Base.Table.{count_where}

module _ {R : Type 0} where
  abbrev pub Any : (R → Type 0) → List R → Type 0
  Any P [] = ⊥
  Any P (r ∷ rs) = P r ⊎ Any P rs

  pub Any-map : (P Q : R → Type 0) → ((r : R) → P r → Q r) → (rs : List R) → Any P rs → Any Q rs
  Any-map P Q f [] h = elim h [ ]
  Any-map P Q f (r ∷ rs) (inl p) = inl (f r p)
  Any-map P Q f (r ∷ rs) (inr h) = inr (Any-map P Q f rs h)

  pub Any-count : (q : R → Bool) (rs : List R) → Any (λ r. q r ≡ true) rs → 0 < count_where q rs
  unfolding count_where
  Any-count q [] h = elim h [ ]
  Any-count q (r ∷ rs) (inl e) = rw e (omega arith)
  Any-count q (r ∷ rs) (inr h) = ground (arith, Any-count q rs h)

  pub count-Any : (q : R → Bool) (rs : List R) → 0 < count_where q rs → Any (λ r. q r ≡ true) rs
  unfolding count_where
  count-Any q [] h = absurd (omega arith)
  count-Any q (r ∷ rs) h = elim (Bool-cases (q r)) [
    | inl e ↦ inl e
    | inr e ↦ inr (count-Any q rs (ground (arith, e)))
  ]
