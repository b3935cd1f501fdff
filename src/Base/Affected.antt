-- ===== src/Base/Affected.antt =====
-- The number of rows that an update of one keyed row affects.
use Prim.Native.Nat.{ℕ}
use mathlib.Core.Path.{◌≡◌, refl, ap}
use mathlib.Core.Logic.{inl, inr}
use mathlib.Core.Bool.{Bool, true, false}
use mathlib.Core.Option.{some}
use mathlib.Core.List.{List, [], ◌∷◌}
use native.Mathlib.Omega.{arith}
use agrilink_backend.Base.Tests.{◌==◌, if◌then◌else◌, Bool-cases, ==_eq}
use agrilink_backend.Base.Lists.{All}
use agrilink_backend.Base.Table.{find_one, update_where, count_where}
use agrilink_backend.Base.Keyed.{IsKeyed, not_found-All, All-map}

module _ {R : Type 0} where
  pub count_where-none :
      (q : R → Bool) (rs : List R) → All (λ r. q r ≡ false) rs → count_where q rs ≡ 0
  unfolding count_where
  count_where-none q [] h = refl
  count_where-none q (r ∷ rs) (left, h) = rw left (count_where-none q rs h)

  pub update_where-none :
      (q : R → Bool) (f : R → R) (rs : List R) → count_where q rs ≡ 0 → update_where q f rs ≡ rs
  unfolding count_where update_where
  update_where-none q f [] h = refl
  update_where-none q f (r ∷ rs) h = elim (Bool-cases (q r)) [
    | inl e ↦ absurd (ground (arith, e))
    | inr e ↦ rw e (ap (λ t. r ∷ t) (update_where-none q f rs (ground (arith, e))))
  ]

  module _ (key : R → ℕ) (q : R → Bool) where
    -- A condition on the key of a row that was found selects that row or none.
    pub count_where-found :
        (k : ℕ) (rs : List R) (r : R)
        → IsKeyed key rs
        → find_one (λ x. key x == k) rs ≡ some r
        → ((x : R) → q x ≡ true → key x ≡ k)
        → count_where q rs ≡ (if q r then 1 else 0)
    unfolding find_one count_where
    count_where-found k [] r u found names = absurd (cc)
    count_where-found k (x ∷ rs) r (first, u) found names = elim (Bool-cases (key x == k)) [
      | inl e ↦
          let same : key x ≡ k = ==_eq (key x) k e in
          let rest : count_where q rs ≡ 0 = count_where-none q rs (
            All-map _ _
              (λ y other. elim (Bool-cases (q y)) [
                | inl chosen ↦ absurd (ground (arith, names y chosen))
                | inr left ↦ left
              ])
              rs (not_found-All key (key x) rs first)) in
          let it : x ≡ r = ground (arith, e) in rw (← it, rest) refl
      | inr e ↦
          let left : q x ≡ false = elim (Bool-cases (q x)) [
            | inl chosen ↦ absurd (ground (arith, names x chosen))
            | inr left ↦ left
          ] in
          rw left (count_where-found k rs r u (ground (arith, e)) names)
    ]

-- Two updates in a row are one update where they are one on every row.
pub update_where-twice :
    {R : Type 0} (p q t : R → Bool) (f g h : R → R) (rs : List R)
    → All
        (λ r.
          (if q (if p r then f r else r)
            then g (if p r then f r else r)
            else (if p r then f r else r))
          ≡ (if t r then h r else r))
        rs
    → update_where q g (update_where p f rs) ≡ update_where t h rs
unfolding update_where
update_where-twice p q t f g h [] same = refl
update_where-twice p q t f g h (r ∷ rs) (e, same) =
    rw e (ap (λ x. (if t r then h r else r) ∷ x) (update_where-twice p q t f g h rs same))
