-- ===== src/Reviews/Creation.antt =====
-- When a review is created, what is written, and when it is marked as a verified purchase.
use agrilink_backend.Base.{
  ℕ, Bool, true, false, ◌&&◌, ◌≡◌, ◌≢◌, ◌↔◌, refl, sym, ap, ◌∙◌, ◌⊎◌, inl, inr, none, some, [], ◌∷◌,
  ◌++◌, ok, product_for_review_not_found, reviewer_not_eligible, review_ownership, check_violation,
  review_already_exists, arith, ltb, ◌==◌, if◌then◌else◌, Bool-cases, Option-cases, ==_ne,
  ==_ne_of_false,
}
use agrilink_backend.Base.Table.{find_one, count_where}
use agrilink_backend.Enums.{is_active}
use agrilink_backend.Orders.Repository.{has_completed_purchase, is_purchase}
use agrilink_backend.Orders.Repository.Purchases.{HasBought, counted_iff}
use agrilink_backend.Reviews.Models.{ReviewModel, to_model}
use agrilink_backend.Reviews.Policy.{assert_can_review_product, is_some}
use agrilink_backend.Reviews.Repository.{is_rating, insert_review, create_if_absent}
use agrilink_backend.Reviews.Updates.{named, Refused}
use agrilink_backend.Reviews.UseCases.{
  ReviewDetails, find_product, find_user, is_verified, create_review,
}
use agrilink_backend.Platform.{Platform, ReviewRow, UserRow, ProductRow}

abbrev pub about : ℕ → ℕ → ReviewRow → Bool
about reviewer_id product_id r = reviewer_id == r.reviewer_id && is_some r.product_id product_id

-- What has to be there for a review: a product of another seller, an active reviewer, a rating from
-- one to five, and no earlier review of that product by that reviewer.
pub record CanReview (id reviewer_id : ℕ) (input : ReviewDetails) (s : Platform) : Type 0 where
  pub product : ProductRow
  pub reviewer : UserRow
  pub product_found : find_product input.product_id s ≡ some product
  pub reviewer_found : find_user reviewer_id s ≡ some reviewer
  pub reviewer_active : is_active reviewer.status ≡ true
  pub other_seller : reviewer_id ≢ product.seller_id
  pub in_range : is_rating input.rating ≡ true
  pub fresh : find_one (named id) s.reviews ≡ none
  pub first : find_one (about reviewer_id input.product_id) s.reviews ≡ none

-- What the reader of purchases says of a reviewer and a product, where there is one.
abbrev pub bought : Bool → ℕ → ℕ → Platform → Bool
bought reads reviewer_id product_id s =
    if reads
    then ltb 0
        (count_where (is_purchase reviewer_id product_id s.commerce.order_items) s.commerce.orders)
    else false

abbrev pub created_row : Bool → ℕ → ℕ → ℕ → ReviewDetails → ProductRow → Platform → ReviewRow
created_row reads id now reviewer_id input product s = record {
  id = id;
  reviewer_id = reviewer_id;
  reviewee_id = some product.seller_id;
  product_id = some input.product_id;
  rating = input.rating;
  comment = input.comment;
  images = input.images;
  is_verified_purchase = bought reads reviewer_id input.product_id s;
  seller_reply = none;
  seller_reply_at = none;
  is_hidden = false;
  hidden_reason = none;
  hidden_by = none;
  hidden_at = none;
  created_at = now;
  updated_at = now;
}

is_verified_runs :
    (reads : Bool) (reviewer_id product_id : ℕ) (s : Platform)
    → is_verified reads reviewer_id product_id s ≡ (ok (bought reads reviewer_id product_id s), s)
unfolding is_verified has_completed_purchase
is_verified_runs true reviewer_id product_id s = refl
is_verified_runs false reviewer_id product_id s = refl

bought_iff :
    (reads : Bool) (buyer_id product_id : ℕ) (s : Platform)
    → (bought reads buyer_id product_id s ≡ true)
      ↔ (reads ≡ true) × HasBought buyer_id product_id s.commerce
bought_iff false buyer_id product_id s = (λ h. absurd (cc), λ (h, _). absurd (cc))
bought_iff true buyer_id product_id s =
    let (told, true_told) = counted_iff buyer_id product_id s.commerce in
    (λ h. (refl, told h), λ (_, h). true_told h)

module _ (reads : Bool) (id now reviewer_id : ℕ) (input : ReviewDetails) (s : Platform) where
  abbrev pub Created : CanReview id reviewer_id input s → Type 0
  Created can =
      let row = created_row reads id now reviewer_id input can.product s in
      create_review reads id now reviewer_id input s
      ≡ (ok (to_model row), record s { reviews = s.reviews ++ row ∷ [] })

  inserts : (can : CanReview id reviewer_id input s) → Created can
  unfolding create_review assert_can_review_product create_if_absent insert_review
  inserts can =
      rw
        (
          can.product_found,
          can.reviewer_found,
          can.reviewer_active,
          ==_ne reviewer_id can.product.seller_id can.other_seller,
          is_verified_runs reads reviewer_id input.product_id s,
          can.in_range,
          can.fresh,
          can.first,
        )
        refl

  -- A creation does what its specification says, or is refused.
  pub create_review-cases :
      Refused (create_review reads id now reviewer_id input s) s
      ⊎ (can : CanReview id reviewer_id input s) × Created can
  unfolding create_review assert_can_review_product create_if_absent insert_review
  create_review-cases = elim (Option-cases (find_product input.product_id s)) [
    | inl gone ↦ inl (product_for_review_not_found, rw gone refl)
    | inr (product, found) ↦ elim (Option-cases (find_user reviewer_id s)) [
      | inl gone ↦ inl (reviewer_not_eligible, rw (found, gone) refl)
      | inr (reviewer, known) ↦ elim (Bool-cases (is_active reviewer.status)) [
        | inr idle ↦ inl (reviewer_not_eligible, rw (found, known, idle) refl)
        | inl works ↦ elim (Bool-cases (reviewer_id == product.seller_id)) [
          | inl own ↦ inl (review_ownership, rw (found, known, works, own) refl)
          | inr other ↦
              let verified = is_verified_runs reads reviewer_id input.product_id s in
              elim (Bool-cases (is_rating input.rating)) [
                | inr out ↦
                    inl (check_violation, rw (found, known, works, other, verified, out) refl)
                | inl range ↦ elim (Option-cases (find_one (named id) s.reviews)) [
                  | inr (_, taken) ↦ inl (
                    review_already_exists,
                    rw (found, known, works, other, verified, range, taken) refl,
                  )
                  | inl fresh ↦
                      elim (Option-cases
                        (find_one (about reviewer_id input.product_id) s.reviews)) [
                          | inr (_, twin) ↦ inl (
                            review_already_exists,
                            rw (found, known, works, other, verified, range, fresh, twin) refl,
                          )
                          | inl first ↦
                              let can : CanReview id reviewer_id input s = record {
                                product = product;
                                reviewer = reviewer;
                                product_found = found;
                                reviewer_found = known;
                                reviewer_active = works;
                                other_seller = ==_ne_of_false reviewer_id product.seller_id other;
                                in_range = range;
                                fresh = fresh;
                                first = first;
                              } in
                              inr (can, inserts can)
                        ]
                ]
              ]
        ]
      ]
    ]
  ]

  -- A creation returns a review exactly where the product is there and belongs to someone else than
  -- the reviewer, the reviewer's account is active, the rating is from one to five, the id is new
  -- and the reviewer has not reviewed the product. There it appends one row to the table of reviews,
  -- visible, without a reply, of the product's seller and with what was asked for, changes nothing
  -- else and returns the review of that row. Everywhere else it throws and the platform stays as it
  -- was.
  pub create_review_iff :
      (((m : ReviewModel) × ((create_review reads id now reviewer_id input s).0 ≡ ok m))
        ↔ CanReview id reviewer_id input s)
      × ((can : CanReview id reviewer_id input s)
          → create_review reads id now reviewer_id input s ≡ (
            ok (to_model (created_row reads id now reviewer_id input can.product s)),
            record s {
              reviews = s.reviews ++ created_row reads id now reviewer_id input can.product s ∷ [];
            },
          ))
      × (CanReview id reviewer_id input s
          ⊎ Refused (create_review reads id now reviewer_id input s) s)
  create_review_iff = elim create_review-cases [
    | inl (e, refused) ↦ (
      (
        λ (m, made). absurd (ground (arith, ap (λ t. t.0) refused)),
        λ can. absurd (ground (arith, ap (λ t. t.0) (sym refused ∙ inserts can))),
      ),
      inserts,
      inr (e, refused),
    )
    | inr (can, created) ↦ ((λ _. can, λ _. (_, ap (λ t. t.0) created)), inserts, inl can)
  ]

  -- A review that a creation returns is marked as a verified purchase exactly where the reader of
  -- purchases is there and some delivered order of the reviewer has an item of the product.
  pub verified_purchase_iff :
      (m : ReviewModel)
      → (create_review reads id now reviewer_id input s).0 ≡ ok m
      → (m.is_verified_purchase ≡ true)
        ↔ (reads ≡ true) × HasBought reviewer_id input.product_id s.commerce
  verified_purchase_iff m made = elim create_review-cases [
    | inl (e, refused) ↦ absurd (ground (arith, ap (λ t. t.0) refused))
    | inr (can, created) ↦
        let same : m ≡ to_model (created_row reads id now reviewer_id input can.product s) =
          ground (arith, ap (λ t. t.0) created) in
        rw same (bought_iff reads reviewer_id input.product_id s)
  ]
