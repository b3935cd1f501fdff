-- ===== src/Reviews/ReadModel.antt =====
-- modules/reviews/application/services/review-read-model.service.ts, and the summaries that it
-- reads from modules/users/users.service.ts and from the product repository.
use agrilink_backend.Base.{
  ℕ, Bool, true, false, ◌||◌, ◌++◌, Option, none, some, List, [], ◌∷◌, map, Text, codes, is_empty,
  ◌==◌, if◌then◌else◌,
}
use agrilink_backend.Base.Words.{trim, split_spaces}
use agrilink_backend.Base.Table.{select}
use agrilink_backend.Reviews.Models.{ReviewModel, ReviewUserModel, ReviewProductModel}
use agrilink_backend.Platform.{Platform, UserRow, ProductRow}

pub record ReviewCompositionOptions : Type 0 where
  pub include_reviewer : Bool
  pub include_product : Bool
  pub mask_reviewer : Bool

abbrev pub member : ℕ → List ℕ → Bool
member k [] = false
member k (x ∷ xs) = x == k || member k xs

abbrev pub without : ℕ → List ℕ → List ℕ
without k [] = []
without k (x ∷ xs) = let rest = without k xs in if x == k then rest else x ∷ rest

-- `[...new Set(ids)]`
unfoldable pub unique : List ℕ → List ℕ
unique [] = []
unique (x ∷ xs) = x ∷ without x (unique xs)

-- The product ids that are there.
abbrev pub present : List (Option ℕ) → List ℕ
present [] = []
present (none ∷ ids) = present ids
present (some id ∷ ids) = id ∷ present ids

abbrev pub user_summary : UserRow → ReviewUserModel
user_summary u = record { id = u.id; full_name = u.full_name; avatar_url = u.avatar_url }

abbrev pub product_summary : ProductRow → ReviewProductModel
product_summary p = record { id = p.id; name = p.name }

-- UsersService.findReviewSummariesByIds
unfoldable pub user_summaries : List ℕ → List UserRow → List ReviewUserModel
user_summaries [] users = []
user_summaries (k ∷ ks) users = map user_summary (select (λ u. member u.id (k ∷ ks)) users)

-- TypeOrmProductRepository.findReviewSummariesByIds
unfoldable pub product_summaries : List ℕ → List ProductRow → List ReviewProductModel
product_summaries [] products = []
product_summaries (k ∷ ks) products =
    map product_summary (select (λ p. member p.id (k ∷ ks)) products)

-- `new Map(rows.map((row) => [row.id, row])).get(key)`: the last row with a key is the one kept.
unfoldable pub map_get : {R : Type 0} → (R → ℕ) → ℕ → List R → Option R
map_get key k [] = none
map_get key k (r ∷ rs) = elim (map_get key k rs) [
  | some later ↦ some later
  | none ↦ if key r == k then some r else none
]

abbrev pub first_of : List Text → Text
first_of [] = []
first_of (w ∷ ws) = w

abbrev pub last_of : List Text → Text
last_of [] = []
last_of (w ∷ []) = w
last_of (w ∷ v ∷ ws) = last_of (v ∷ ws)

-- `charAt(0)`
abbrev pub initial : Text → Text
initial [] = []
initial (c ∷ s) = c ∷ []

abbrev pub mask_parts : List Text → Text
mask_parts [] = codes " ***"
mask_parts (w ∷ []) = initial w ++ codes "***"
mask_parts (w ∷ v ∷ ws) = w ++ codes " " ++ initial (last_of (v ∷ ws)) ++ codes "***"

unfoldable pub mask_name : Option Text → Text
unfolding trim split_spaces
mask_name none = codes "Người dùng"
mask_name (some name) =
    if is_empty (trim name) then codes "Người dùng" else mask_parts (split_spaces (trim name))

abbrev pub shown_user : Bool → ReviewUserModel → ReviewUserModel
shown_user true u = record u { full_name = some (mask_name u.full_name) }
shown_user false u = u

abbrev pub map_some {ℓ} : {A B : Type ℓ} → (A → B) → Option A → Option B
map_some f none = none
map_some f (some a) = some (f a)

-- `review.productId ? productById.get(review.productId) : undefined`
abbrev pub product_of : List ReviewProductModel → Option ℕ → Option ReviewProductModel
product_of products none = none
product_of products (some id) = map_get (λ p. p.id) id products

unfoldable pub compose : List ReviewModel → ReviewCompositionOptions → Platform → List ReviewModel
unfolding unique user_summaries product_summaries map_get
compose reviews options s =
    let reviewer_ids =
      if options.include_reviewer then unique (map (λ r. r.reviewer_id) reviews) else [] in
    let product_ids =
      if options.include_product then unique (present (map (λ r. r.product_id) reviews)) else [] in
    let reviewers = user_summaries reviewer_ids s.users in
    let products = product_summaries product_ids s.products in
    map
      (λ (review : ReviewModel). record review {
        reviewer =
            map_some (shown_user options.mask_reviewer)
              (map_get (λ u. u.id) review.reviewer_id reviewers);
        product = product_of products review.product_id;
      })
      reviews

abbrev pub with_reviewer : ReviewCompositionOptions
with_reviewer = record { include_reviewer = true; include_product = true; mask_reviewer = false }

-- `const [composed] = …`: the list has as many elements as the one that was composed.
abbrev pub head_or : ReviewModel → List ReviewModel → ReviewModel
head_or r [] = r
head_or r (c ∷ cs) = c

unfoldable pub compose_one : ReviewModel → Platform → ReviewModel
unfolding compose
compose_one review s = head_or review (compose (review ∷ []) with_reviewer s)
