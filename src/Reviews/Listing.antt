-- ===== src/Reviews/Listing.antt =====
-- What the public list of reviews shows.
use agrilink_backend.Base.{
  ℕ, ◌≤◌, Bool, true, false, ◌≡◌, refl, sym, subst, ap, ◌∙◌, inl, inr, Option, none, some, List, [],
  ◌∷◌, map, ok, arith, length, Bool-cases, All, ==_eq,
}
use agrilink_backend.Base.Keyed.{All-map}
use agrilink_backend.Base.Paging.{page_of, take, drop, length-take}
use agrilink_backend.Base.Sort.{sort_by, insert_sorted}
use agrilink_backend.Base.Table.{select}
use agrilink_backend.Reviews.Models.{
  ReviewModel, PublicReviewListResult, ReviewPagination, to_model,
}
use agrilink_backend.Reviews.Policy.{is_some}
use agrilink_backend.Reviews.ReadModel.{compose, ReviewCompositionOptions}
use agrilink_backend.Reviews.Repository.{
  is_public_for, normalize_pagination, find_page, newer, find_public_by_product,
}
use agrilink_backend.Reviews.UseCases.{list_public_product_reviews}
use agrilink_backend.Platform.{Platform, ReviewRow}

module _ {R : Type 0} (P : R → Type 0) where
  All-drop : (n : ℕ) (rs : List R) → All P rs → All P (drop n rs)
  All-drop ℕ.zero rs h = h
  All-drop (ℕ.suc n) [] h = tt
  All-drop (ℕ.suc n) (r ∷ rs) (p, h) = All-drop n rs h

  All-take : (n : ℕ) (rs : List R) → All P rs → All P (take n rs)
  All-take ℕ.zero rs h = tt
  All-take (ℕ.suc n) [] h = tt
  All-take (ℕ.suc n) (r ∷ rs) (p, h) = (p, All-take n rs h)

  All-insert_sorted :
      (before : R → R → Bool) (r : R) (rs : List R)
      → P r
      → All P rs
      → All P (insert_sorted before r rs)
  unfolding insert_sorted
  All-insert_sorted before r [] p h = (p, tt)
  All-insert_sorted before r (x ∷ rs) p (q, h) = elim (Bool-cases (before r x)) [
    | inl e ↦ rw e (p, (q, h))
    | inr e ↦ rw e (q, All-insert_sorted before r rs p h)
  ]

  All-sort_by : (before : R → R → Bool) (rs : List R) → All P rs → All P (sort_by before rs)
  unfolding sort_by
  All-sort_by before [] h = tt
  All-sort_by before (r ∷ rs) (p, h) =
      All-insert_sorted before r (sort_by before rs) p (All-sort_by before rs h)

selected : {R : Type 0} (q : R → Bool) (rs : List R) → All (λ r. q r ≡ true) (select q rs)
unfolding select
selected q [] = tt
selected q (r ∷ rs) = elim (Bool-cases (q r)) [
  | inl e ↦ rw e (e, selected q rs)
  | inr e ↦ rw e (selected q rs)
]

find_page_sound :
    (q : ReviewRow → Bool) (page limit : ℕ) (rows : List ReviewRow)
    → All (λ r. q r ≡ true) (find_page q page limit rows).0
unfolding find_page page_of
find_page_sound q page limit rows =
    All-take _ limit _ (All-drop _ _ _ (All-sort_by _ newer (select q rows) (selected q rows)))

find_page-length :
    (q : ReviewRow → Bool) (page limit : ℕ) (rows : List ReviewRow)
    → length (find_page q page limit rows).0 ≤ limit
unfolding find_page page_of
find_page-length q page limit rows = length-take limit _

-- A listed review is a visible one of the product.
abbrev pub IsShownFor : ℕ → ReviewModel → Type 0
IsShownFor product_id m = (m.is_hidden ≡ false) × (m.product_id ≡ some product_id)

All-mapped :
    {A B : Type 0} (P : B → Type 0) (f : A → B) (xs : List A)
    → All (λ a. P (f a)) xs
    → All P (map f xs)
All-mapped P f [] h = tt
All-mapped P f (x ∷ xs) (p, h) = (p, All-mapped P f xs h)

length-map : {A B : Type 0} (f : A → B) (xs : List A) → length (map f xs) ≡ length xs
length-map f [] = refl
length-map f (x ∷ xs) = omega (arith, length-map f xs)

public_view : ReviewCompositionOptions
public_view = record { include_reviewer = true; include_product = false; mask_reviewer = true }

compose-length :
    (reviews : List ReviewModel) (options : ReviewCompositionOptions) (s : Platform)
    → length (compose reviews options s) ≡ length reviews
unfolding compose
compose-length reviews options s = length-map _ reviews

is_some_eq : (o : Option ℕ) (k : ℕ) → is_some o k ≡ true → o ≡ some k
is_some_eq none k h = absurd (cc)
is_some_eq (some j) k h = ap some (==_eq j k h)

shown :
    (product_id : ℕ) (r : ReviewRow)
    → is_public_for product_id r ≡ true
    → IsShownFor product_id (to_model r)
shown product_id r h = (ground arith, is_some_eq r.product_id product_id (ground arith))

-- The public list of a product always answers, writes nothing, and shows only visible reviews of
-- that product, no more of them than its limit, which is at most a hundred whatever was asked for.
pub list_public_product_reviews_lem :
    (rounded_tenths : ℕ → ℕ → ℕ) (product_id : ℕ) (pagination : ReviewPagination) (s : Platform)
    → (result : PublicReviewListResult) × (list_public_product_reviews rounded_tenths product_id
          pagination s
        ≡ (ok result, s))
      × All (IsShownFor product_id) result.list.data_
      × (length result.list.data_ ≤ result.list.limit)
      × (result.list.limit ≤ 100)
unfolding public_view list_public_product_reviews find_public_by_product normalize_pagination
    compose
list_public_product_reviews_lem rounded_tenths product_id pagination s =
    let (page, limit) = normalize_pagination pagination 10 in
    let rows = (find_page (is_public_for product_id) page limit s.reviews).0 in
    let sound =
      All-map _ (λ r. IsShownFor product_id (to_model r)) (shown product_id) rows
        (find_page_sound (is_public_for product_id) page limit s.reviews) in
    (
      _,
      refl,
      All-mapped _ _ (map to_model rows) (All-mapped _ to_model rows sound),
      subst (λ n. n ≤ limit)
          (sym (compose-length (map to_model rows) public_view s ∙ length-map to_model rows))
          (find_page-length (is_public_for product_id) page limit s.reviews),
      ground arith,
    )
