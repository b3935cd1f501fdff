-- ===== src/Base/Versions.antt =====
-- Rows with a version that every update raises: what an update selected by its version is not
-- selected by that version again.
use Prim.Native.Nat.{ℕ, ◌+◌}
use mathlib.Core.Path.{◌≡◌, refl}
use mathlib.Core.Bool.{Bool, true}
use mathlib.Core.Option.{some}
use mathlib.Core.List.{List, [], ◌∷◌}
use native.Mathlib.Omega.{arith}
use agrilink_backend.Base.Tests.{◌==◌, ==_eq}
use agrilink_backend.Base.Lists.{All}
use agrilink_backend.Base.Table.{find_one, update_where, count_where}
use agrilink_backend.Base.TableLaws.{find_one_sound}
use agrilink_backend.Base.Keyed.{
  IsKeyed, All-find_one, found_of_count, selects_found, All-update_one,
}

module _ {R : Type 0} (key version : R → ℕ) where
  -- The rows with the key `k` are past the version `v`.
  abbrev pub IsPast : ℕ → ℕ → List R → Type 0
  IsPast k v rs = All (λ x. (key x == k) ≡ true → version x ≡ v + 1) rs

  pub update_where-IsPast :
      (k v : ℕ) (rs : List R) (r : R) (q : R → Bool) (f : R → R)
      → IsKeyed key rs
      → find_one (λ x. key x == k) rs ≡ some r
      → ((x : R) → q x ≡ true → (key x ≡ key r) × (version x ≡ v))
      → count_where q rs ≡ 1
      → ((x : R) → version (f x) ≡ version x + 1)
      → IsPast k v (update_where q f rs)
  update_where-IsPast k v rs r q f keyed found selects one raises =
      let same : key r ≡ k = ==_eq (key r) k (find_one_sound (λ x. key x == k) rs r found) in
      let selected =
        selects_found key k rs r q keyed found (λ x touched. (selects x touched).0) one in
      All-update_one key (λ x. (key x == k) ≡ (key x == k))
        (λ x. (key x == k) ≡ true → version x ≡ v + 1) k rs r q f keyed found
        (λ x touched. (selects x touched).0) one (λ x other _ mine. absurd (ground (arith, same)))
        (trivial rs) (λ _. omega (arith, raises r, (selects r selected).1))
    where
      trivial : (xs : List R) → All (λ x. (key x == k) ≡ (key x == k)) xs
      trivial [] = tt
      trivial (x ∷ xs) = (refl, trivial xs)

  pub stale_unselected :
      (k v : ℕ) (rs : List R) (q : R → Bool)
      → IsPast k v rs
      → ((x : R) → q x ≡ true → ((key x == k) ≡ true) × (version x ≡ v))
      → ¬ (count_where q rs ≡ 1)
  stale_unselected k v rs q past selects one =
      let (x, found) = found_of_count q rs one in
      let holds = selects x (find_one_sound q rs x found) in
      let raised =
        All-find_one (λ y. (key y == k) ≡ true → version y ≡ v + 1) q rs x past found holds.0 in
      omega (arith, raised, holds.1)
