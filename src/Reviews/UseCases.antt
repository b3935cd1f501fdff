-- ===== src/Reviews/UseCases.antt =====
-- modules/reviews/application/use-cases/reviews.use-cases.ts, and the readers of other modules that
-- it calls: `findReviewContext` of the product repository, `findReviewEligibility` of
-- modules/users/users.service.ts, and `isEligible` of the orders. Whether the reader of purchases is
-- injected is a parameter, since the constructor marks it as optional.
use agrilink_backend.Base.{
  ℕ, Bool, true, false, not, Option, none, some, Text, product_for_review_not_found,
  reviewer_not_eligible, review_already_exists, review_not_found, review_state, ◌==◌, List,
}
use agrilink_backend.Base.Action.{Action, ◌>>=◌, ◌>>◌, pure, gets, lift, or_throw, throw_if}
use agrilink_backend.Base.Table.{find_one}
use agrilink_backend.Base.Words.{trim}
use agrilink_backend.Enums.{is_active}
use agrilink_backend.Orders.Repository.{has_completed_purchase}
use agrilink_backend.Reviews.Policy.{
  assert_can_review_product, assert_can_reply_to_review, assert_can_change_review_visibility,
}
use agrilink_backend.Reviews.Models.{
  ReviewModel, ReviewListResult, PublicReviewListResult, ReviewPagination,
}
use agrilink_backend.Reviews.Repository.{
  create_if_absent, find_by_id, find_public_by_product, find_for_seller, find_for_moderation,
  save_reply_if_unreplied, set_visibility,
}
use agrilink_backend.Reviews.ReadModel.{compose, compose_one}
use agrilink_backend.Platform.{Platform, UserRow, ProductRow}
use agrilink_backend.Store.{Store}

-- What the caller of a creation gives besides the reviewer.
pub record ReviewDetails : Type 0 where
  pub product_id : ℕ
  pub rating : ℕ
  pub comment : Option Text
  pub images : List Text

-- A query of the commerce tables.
abbrev pub of_commerce : {A : Type 0} → Action Store A → Action Platform A
of_commerce m s = ((m s.commerce).0, s)

abbrev pub find_product : ℕ → Platform → Option ProductRow
find_product id s = find_one (λ (p : ProductRow). p.id == id) s.products

abbrev pub find_user : ℕ → Platform → Option UserRow
find_user id s = find_one (λ (u : UserRow). u.id == id) s.users

unfoldable pub is_verified : Bool → ℕ → ℕ → Action Platform Bool
is_verified true reviewer_id product_id =
    of_commerce (has_completed_purchase reviewer_id product_id)
is_verified false reviewer_id product_id = pure false

unfoldable pub create_review : Bool → ℕ → ℕ → ℕ → ReviewDetails → Action Platform ReviewModel
unfolding is_verified
create_review reads_purchases id now reviewer_id input = do
  context ← gets (find_product input.product_id)
  eligibility ← gets (find_user reviewer_id)
  product ← or_throw context product_for_review_not_found
  reviewer ← or_throw eligibility reviewer_not_eligible
  throw_if (not (is_active reviewer.status)) reviewer_not_eligible
  lift (assert_can_review_product reviewer_id product.seller_id)
  verified ← is_verified reads_purchases reviewer_id input.product_id
  review ← create_if_absent id now (record {
    product_id = input.product_id;
    reviewer_id = reviewer_id;
    reviewee_id = product.seller_id;
    rating = input.rating;
    comment = input.comment;
    images = input.images;
    is_verified_purchase = verified;
  })
  or_throw review review_already_exists

unfoldable pub reply_to_review : ℕ → ℕ → ℕ → Text → Action Platform ReviewModel
reply_to_review now id seller_id reply = do
  found ← find_by_id id
  review ← or_throw found review_not_found
  lift (assert_can_reply_to_review review.reviewee_id seller_id review.seller_reply)
  saved ← save_reply_if_unreplied now id seller_id (trim reply) now
  answered ← or_throw saved review_state
  gets (compose_one answered)

unfoldable pub hide_review : ℕ → ℕ → ℕ → Text → Action Platform ReviewModel
hide_review now id admin_id reason = do
  found ← find_by_id id
  review ← or_throw found review_not_found
  lift (assert_can_change_review_visibility review.is_hidden true)
  saved ← set_visibility now id false true (some (trim reason)) (some admin_id) (some now)
  hidden ← or_throw saved review_state
  gets (compose_one hidden)

unfoldable pub unhide_review : ℕ → ℕ → Action Platform ReviewModel
unhide_review now id = do
  found ← find_by_id id
  review ← or_throw found review_not_found
  lift (assert_can_change_review_visibility review.is_hidden false)
  saved ← set_visibility now id true false none none none
  shown ← or_throw saved review_state
  gets (compose_one shown)

module _ (rounded_tenths : ℕ → ℕ → ℕ) where
  unfoldable pub list_public_product_reviews :
      ℕ → ReviewPagination → Action Platform PublicReviewListResult
  list_public_product_reviews product_id pagination = do
    result ← find_public_by_product rounded_tenths product_id pagination
    composed ← gets (
        compose result.list.data_
          (record { include_reviewer = true; include_product = false; mask_reviewer = true }))
    pure (record result { list = record result.list { data_ = composed } })

abbrev pub compose_list : ReviewListResult → Action Platform ReviewListResult
compose_list result = do
  composed ← gets (
      compose result.data_
        (record { include_reviewer = true; include_product = true; mask_reviewer = false }))
  pure (record result { data_ = composed })

unfoldable pub list_seller_reviews :
    ℕ → ReviewPagination → Option Bool → Action Platform ReviewListResult
list_seller_reviews seller_id pagination replied =
    find_for_seller seller_id pagination replied >>= compose_list

unfoldable pub list_reviews_for_moderation :
    ReviewPagination → Option Bool → Action Platform ReviewListResult
list_reviews_for_moderation pagination is_hidden =
    find_for_moderation pagination is_hidden >>= compose_list
