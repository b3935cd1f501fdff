-- ===== src/Reviews/Stats.antt =====
-- The rating statistics of a product, against counting and summing over its visible reviews.
use agrilink_backend.Base.{
  ℕ, suc, ◌+◌, ◌*◌, Bool, true, false, ◌≡◌, refl, sym, subst, ap, ◌∙◌, inl, inr, Option, none, some,
  List, [], ◌∷◌, arith, length, ◌==◌, if◌then◌else◌, Bool-cases, ==_eq, Option-cases,
}
use agrilink_backend.Base.Table.{select, count_where}
use agrilink_backend.Reviews.Repository.{
  is_rating, is_public_for, bump, group_ratings, set_count, no_ratings, Tally, tally,
  get_rating_stats,
}
use agrilink_backend.Platform.{ReviewRow}

abbrev pub has_rating : ℕ → ReviewRow → Bool
has_rating rating r = r.rating == rating

abbrev pub sum_of : List ReviewRow → ℕ
sum_of [] = 0
sum_of (r ∷ rs) = r.rating + sum_of rs

-- `distribution[rating]`
abbrev pub count_at : ℕ → List (ℕ × ℕ) → Option ℕ
count_at rating [] = none
count_at rating ((k, n) ∷ groups) =
    let rest = count_at rating groups in if k == rating then some n else rest

abbrev or_zero : Option ℕ → ℕ
or_zero none = 0
or_zero (some n) = n

abbrev counts : List (ℕ × ℕ) → ℕ
counts [] = 0
counts ((k, n) ∷ groups) = n + counts groups

abbrev weight : List (ℕ × ℕ) → ℕ
weight [] = 0
weight ((k, n) ∷ groups) = k * n + weight groups

abbrev IsGrouped : List (ℕ × ℕ) → Type 0
IsGrouped [] = Unit
IsGrouped ((k, n) ∷ groups) = (count_at k groups ≡ none) × IsGrouped groups

mul_suc : (k n : ℕ) → k * suc n ≡ k + k * n
mul_suc k n = grind arith

-- Grouping.
bump-counts : (k : ℕ) (groups : List (ℕ × ℕ)) → counts (bump k groups) ≡ 1 + counts groups
bump-counts k [] = refl
bump-counts k ((j, n) ∷ groups) = elim (Bool-cases (j == k)) [
  | inl e ↦ rw e (omega arith)
  | inr e ↦ rw e (omega (arith, bump-counts k groups))
]

bump-weight : (k : ℕ) (groups : List (ℕ × ℕ)) → weight (bump k groups) ≡ k + weight groups
bump-weight k [] = omega arith
bump-weight k ((j, n) ∷ groups) = elim (Bool-cases (j == k)) [
  | inl e ↦ let same : j ≡ k = ==_eq j k e in rw (e, same) (omega (arith, mul_suc k n))
  | inr e ↦ rw e (omega (arith, bump-weight k groups))
]

count_at-bump :
    (q k : ℕ) (groups : List (ℕ × ℕ))
    → count_at q (bump k groups)
      ≡ (if k == q then some (1 + or_zero (count_at q groups)) else count_at q groups)
count_at-bump q k [] = refl
count_at-bump q k ((j, n) ∷ groups) = ground (arith, count_at-bump q k groups)

group_ratings-counts : (rs : List ReviewRow) → counts (group_ratings rs) ≡ length rs
unfolding group_ratings
group_ratings-counts [] = refl
group_ratings-counts (r ∷ rs) =
    omega (arith, bump-counts r.rating (group_ratings rs), group_ratings-counts rs)

group_ratings-weight : (rs : List ReviewRow) → weight (group_ratings rs) ≡ sum_of rs
unfolding group_ratings
group_ratings-weight [] = refl
group_ratings-weight (r ∷ rs) =
    omega (arith, bump-weight r.rating (group_ratings rs), group_ratings-weight rs)

bump-IsGrouped : (k : ℕ) (groups : List (ℕ × ℕ)) → IsGrouped groups → IsGrouped (bump k groups)
bump-IsGrouped k [] u = (refl, tt)
bump-IsGrouped k ((j, n) ∷ groups) (first, u) = elim (Bool-cases (j == k)) [
  | inl e ↦ rw e (first, u)
  | inr e ↦
      let turned : (k == j) ≡ false = ground arith in
      rw e (count_at-bump j k groups ∙ rw turned first, bump-IsGrouped k groups u)
]

group_ratings-IsGrouped : (rs : List ReviewRow) → IsGrouped (group_ratings rs)
unfolding group_ratings
group_ratings-IsGrouped [] = tt
group_ratings-IsGrouped (r ∷ rs) =
    bump-IsGrouped r.rating (group_ratings rs) (group_ratings-IsGrouped rs)

group_ratings-count :
    (q : ℕ) (rs : List ReviewRow)
    → or_zero (count_at q (group_ratings rs)) ≡ count_where (has_rating q) rs
unfolding group_ratings count_where
group_ratings-count q [] = refl
group_ratings-count q (r ∷ rs) =
    let step = count_at-bump q r.rating (group_ratings rs) in
    let rest = group_ratings-count q rs in
    elim (Bool-cases (r.rating == q)) [
      | inl e ↦ rw (step, e) (omega (arith, rest))
      | inr e ↦ rw (step, e) rest
    ]

-- The loop over the groups.
tally-total : (gs : List (ℕ × ℕ)) (t : Tally) → (tally gs t).total ≡ t.total + counts gs
unfolding tally
tally-total [] t = omega arith
tally-total ((k, n) ∷ gs) t = omega (arith, tally-total gs _)

tally-sum : (gs : List (ℕ × ℕ)) (t : Tally) → (tally gs t).sum ≡ t.sum + weight gs
unfolding tally
tally-sum [] t = omega arith
tally-sum ((k, n) ∷ gs) t = omega (arith, tally-sum gs _)

count_at-set_count :
    (q k n : ℕ) (d : List (ℕ × ℕ))
    → count_at q (set_count k n d) ≡ (if k == q then some n else count_at q d)
count_at-set_count q k n [] = refl
count_at-set_count q k n ((j, m) ∷ d) = ground (arith, count_at-set_count q k n d)

count_at-tally :
    (q : ℕ) (gs : List (ℕ × ℕ)) (t : Tally)
    → IsGrouped gs
    → count_at q (tally gs t).distribution
      ≡ elim (count_at q gs) [ none ↦ count_at q t.distribution | some n ↦ some n ]
unfolding tally
count_at-tally q [] t u = refl
count_at-tally q ((k, n) ∷ gs) t (first, u) =
    let t' : Tally = record {
      distribution = set_count k n t.distribution;
      total = t.total + n;
      sum = t.sum + k * n;
    } in
    let rest = count_at-tally q gs t' u in
    let set = count_at-set_count q k n t.distribution in
    elim (Bool-cases (k == q)) [
      | inl e ↦
          let none_left : count_at q gs ≡ none =
            subst (λ j. count_at j gs ≡ none) (==_eq k q e) first in
          rest ∙ rw (none_left, set, e) refl
      | inr e ↦ elim (Option-cases (count_at q gs)) [
        | inl gone ↦ rest ∙ rw (e, gone, set, e) refl
        | inr (m, there) ↦ rest ∙ rw (e, there) refl
      ]
    ]

start : Tally
start = record { distribution = no_ratings; total = 0; sum = 0 }

count_at-no_ratings : (q : ℕ) → is_rating q ≡ true → count_at q no_ratings ≡ some 0
count_at-no_ratings q range = ground arith

tally-count :
    (q : ℕ) (rs : List ReviewRow)
    → is_rating q ≡ true
    → count_at q (tally (group_ratings rs) start).distribution
      ≡ some (count_where (has_rating q) rs)
unfolding start
tally-count q rs range =
    let gs = group_ratings rs in
    let told = count_at-tally q gs start (group_ratings-IsGrouped rs) in
    let counted = group_ratings-count q rs in
    elim (Option-cases (count_at q gs)) [
      | inl gone ↦
          let zero_count : 0 ≡ count_where (has_rating q) rs = ap or_zero (sym gone) ∙ counted in
          told ∙ rw gone (count_at-no_ratings q range ∙ ap some zero_count)
      | inr (n, there) ↦
          let count : n ≡ count_where (has_rating q) rs = ap or_zero (sym there) ∙ counted in
          told ∙ rw there (ap some count)
    ]

module _ (rounded_tenths : ℕ → ℕ → ℕ) (product_id : ℕ) (rows : List ReviewRow) where
  -- The statistics of a product count its visible reviews: in total, and under each rating from one
  -- to five; and the average is the rounded quotient of the sum of their ratings and their number,
  -- or 0 where there is none.
  pub get_rating_stats_lem :
      let visible = select (is_public_for product_id) rows in
      let stats = get_rating_stats rounded_tenths product_id rows in
      (stats.total ≡ length visible)
      × (stats.avg
          ≡ (if length visible == 0 then 0 else rounded_tenths (sum_of visible) (length visible)))
      × ((rating : ℕ)
          → is_rating rating ≡ true
          → count_at rating stats.distribution ≡ some (count_where (has_rating rating) visible))
  unfolding get_rating_stats start
  get_rating_stats_lem =
      let visible = select (is_public_for product_id) rows in
      let gs = group_ratings visible in
      let total : (tally gs start).total ≡ length visible =
        omega (arith, tally-total gs start, group_ratings-counts visible) in
      let sum : (tally gs start).sum ≡ sum_of visible =
        omega (arith, tally-sum gs start, group_ratings-weight visible) in
      (total, rw (total, sum) refl, λ rating range. tally-count rating visible range)
