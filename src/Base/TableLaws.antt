-- ===== src/Base/TableLaws.antt =====
-- What an update leaves alone, and what a lookup finds after an insertion.
use agrilink_backend.Base.Tests.{if◌then◌else◌}
use mathlib.Core.Path.{◌≡◌, refl, ◌∙◌}
use mathlib.Core.Bool.{Bool, true}
use mathlib.Core.Option.{none, some}
use mathlib.Core.List.{List, [], ◌∷◌, ◌++◌}
use native.Mathlib.Omega.{arith}
use agrilink_backend.Base.Table.{find_one, update_where}

module _ {R : Type 0} where
  -- A row behind a table in which nothing is found is found.
  pub find_one-append_new :
      (p : R → Bool) (rs : List R) (r : R)
      → find_one p rs ≡ none
      → p r ≡ true
      → find_one p (rs ++ r ∷ []) ≡ some r
  unfolding find_one
  find_one-append_new p [] r h e = rw e
  find_one-append_new p (x ∷ rs) r h e = ground (arith, find_one-append_new p rs r)

  -- What is found in front of the last row is found; else the last row is, if it is meant.
  pub find_one-append :
      (p : R → Bool) (rs : List R) (r : R)
      → find_one p (rs ++ r ∷ [])
        ≡ elim (find_one p rs) [ none ↦ if p r then some r else none | some x ↦ some x ]
  unfolding find_one
  find_one-append p [] r = refl
  find_one-append p (x ∷ rs) r = ground (arith, find_one-append p rs r)

  -- What is found satisfies the condition.
  pub find_one_sound : (p : R → Bool) (rs : List R) (r : R) → find_one p rs ≡ some r → p r ≡ true
  unfolding find_one
  find_one_sound p [] r h = cc
  find_one_sound p (x ∷ rs) r h = ground (arith, find_one_sound p rs r)

  -- The first row that a condition `p` finds is found after an update, as it was updated, where
  -- the update does not change what `p` tests.
  pub find_one-update_where :
      (p q : R → Bool) (f : R → R) (rs : List R)
      → ((r : R) → p (f r) ≡ p r)
      → find_one p (update_where q f rs)
        ≡ elim (find_one p rs) [ none ↦ none | some r ↦ some (if q r then f r else r) ]
  unfolding find_one update_where
  find_one-update_where p q f [] same = refl
  find_one-update_where p q f (x ∷ rs) same =
      ground (arith, same x, find_one-update_where p q f rs same)

  -- A row that is found is found after an update too.
  pub found-update_where :
      (p q : R → Bool) (f : R → R) (rs : List R) (r : R)
      → ((r : R) → p (f r) ≡ p r)
      → find_one p rs ≡ some r
      → (r' : R) × (find_one p (update_where q f rs) ≡ some r')
  found-update_where p q f rs r same h =
      ((if q r then f r else r), find_one-update_where p q f rs same ∙ rw h)
