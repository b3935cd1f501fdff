-- ===== src/Tests/Reviews.antt =====
-- A product that is bought, reviewed, answered, hidden and shown again.
use agrilink_backend.Base.{
  ℕ, ◌+◌, ◌*◌, ◌/◌, ◌≤◌, ◌≡◌, ◌↔◌, ◌⊎◌, All, refl, true, false, none, some, List, [], ◌∷◌, ◌++◌,
  map, ok, arith, length, codes, if◌then◌else◌, ◌==◌,
}
use agrilink_backend.Base.Table.{find_one, select, update_where, count_where}
use agrilink_backend.Base.Words.{trim, trim_start, trim_end, split_spaces}
use agrilink_backend.Enums.{active, farmer_seller}
use agrilink_backend.Orders.Repository.{has_completed_purchase}
use agrilink_backend.Orders.Repository.Purchases.{HasBought}
use agrilink_backend.Orders.Status.{delivered}
use agrilink_backend.Payments.Payment.{cod}
use agrilink_backend.Products.Status
use agrilink_backend.Reviews.Board.{Entry, Reach, Stays}
use agrilink_backend.Reviews.Book.{IsReviewBook, run_calls-IsReviewBook}
use agrilink_backend.Reviews.Calls
use agrilink_backend.Reviews.Calls.{ReviewCall}
use agrilink_backend.Reviews.Composition.{looked_up, compose_lem}
use agrilink_backend.Reviews.Creation.{
  CanReview, created_row, create_review_iff, verified_purchase_iff,
}
use agrilink_backend.Reviews.Hiding.{unhide_review-hide_review}
use agrilink_backend.Reviews.Listing.{IsShownFor, list_public_product_reviews_lem}
use agrilink_backend.Reviews.Models.{
  ReviewModel, ReviewPagination, PublicReviewListResult, to_model,
}
use agrilink_backend.Reviews.Policy.{assert_can_review_product}
use agrilink_backend.Reviews.ReadModel.{ReviewCompositionOptions, compose, mask_name}
use agrilink_backend.Reviews.Refinement.{act, board, run_calls-Reach, run_calls-Stays}
use agrilink_backend.Reviews.Repository.{
  is_rating, is_public_for, get_rating_stats, create_if_absent, insert_review, touch,
}
use agrilink_backend.Reviews.Stats.{sum_of, count_at, has_rating, get_rating_stats_lem}
use agrilink_backend.Reviews.Updates.{Refused, named}
use agrilink_backend.Reviews.UseCases.{
  ReviewDetails, is_verified, create_review, hide_review, unhide_review,
  list_public_product_reviews,
}
use agrilink_backend.Platform.{Platform, ReviewRow}
use agrilink_backend.Tests.Data.{empty_store, empty_platform}

abbrev shop : Platform
shop = record empty_platform {
  commerce = record empty_store {
    orders =
        record {
          id = 70;
          order_code = 1;
          buyer_id = 1;
          seller_id = 2;
          status = delivered;
          subtotal = codes "40";
          shipping_fee = codes "0";
          platform_fee = codes "0";
          total_amount = codes "40";
          payment_method = cod;
          shipping_address_id = none;
          note = none;
          cancelled_reason = none;
          delivered_at = some 9;
          version = 6;
          created_at = 3;
          updated_at = 9;
        }
        ∷ [];
    order_items =
        record {
          id = 71;
          order_id = 70;
          product_id = 5;
          product_name = codes "rice";
          quantity = codes "2";
          unit_price = codes "20";
          line_total = codes "40";
          created_at = 3;
        }
        ∷ [];
  };
  users =
      record { id = 1; status = active; full_name = some (codes "An Binh"); avatar_url = none }
      ∷ record { id = 2; status = active; full_name = none; avatar_url = none }
      ∷ [];
  products =
      record {
        id = 5;
        seller_id = 2;
        seller_type = farmer_seller;
        name = some (codes "rice");
        description = none;
        price_per_unit = codes "20.00";
        unit = codes "kg";
        available_quantity = 500;
        status = Status.active;
        rejection_reason = none;
      }
      ∷ [];
}

abbrev details : ReviewDetails
details = record { product_id = 5; rating = 4; comment = none; images = [] }

abbrev first_review : ReviewRow
first_review = record {
  id = 30;
  reviewer_id = 1;
  reviewee_id = some 2;
  product_id = some 5;
  rating = 4;
  comment = none;
  images = [];
  is_verified_purchase = true;
  seller_reply = none;
  seller_reply_at = none;
  is_hidden = false;
  hidden_reason = none;
  hidden_by = none;
  hidden_at = none;
  created_at = 10;
  updated_at = 10;
}

abbrev reviewed : Platform
reviewed = record shop { reviews = first_review ∷ [] }

created_once : create_review true 30 10 1 details shop ≡ (ok (to_model first_review), reviewed)
unfolding create_review is_verified has_completed_purchase count_where assert_can_review_product
    create_if_absent insert_review find_one
created_once = refl

masked : mask_name (some (codes " An  Van Binh ")) ≡ codes "An B***"
unfolding mask_name trim split_spaces trim_end trim_start
masked = refl

create_review_iff_example :
    (((m : ReviewModel) × ((create_review true 30 10 1 details shop).0 ≡ ok m))
      ↔ CanReview 30 1 details shop)
    × ((can : CanReview 30 1 details shop)
        → create_review true 30 10 1 details shop ≡ (
          ok (to_model (created_row true 30 10 1 details can.product shop)),
          record shop {
            reviews = shop.reviews ++ created_row true 30 10 1 details can.product shop ∷ [];
          },
        ))
    × (CanReview 30 1 details shop ⊎ Refused (create_review true 30 10 1 details shop) shop)
create_review_iff_example = create_review_iff true 30 10 1 details shop

verified_purchase_iff_example :
    ((to_model first_review).is_verified_purchase ≡ true)
    ↔ (true ≡ true) × HasBought 1 5 shop.commerce
unfolding create_review is_verified has_completed_purchase count_where assert_can_review_product
    create_if_absent insert_review find_one
verified_purchase_iff_example =
    verified_purchase_iff true 30 10 1 details shop (to_model first_review) refl

abbrev calls : List ReviewCall
calls =
    ReviewCall.create 10 30 1 details
    ∷ ReviewCall.reply 11 30 2 (codes " thanks ")
    ∷ ReviewCall.hide 12 30 9 (codes "spam")
    ∷ []

run_calls-IsReviewBook_example : IsReviewBook (Calls.run_calls true calls shop).reviews
run_calls-IsReviewBook_example =
    run_calls-IsReviewBook true calls shop (record { ids = tt; subjects = tt; sound = tt })

run_calls-Reach_example :
    Reach (map act calls) (board []) (board (Calls.run_calls true calls shop).reviews)
run_calls-Reach_example =
    run_calls-Reach true calls shop (record { ids = tt; subjects = tt; sound = tt })

abbrev first_entry : Entry
first_entry = record {
  reviewer = 1;
  seller = some 2;
  product = some 5;
  rating = 4;
  reply = none;
  hidden = false;
}

reviewed-IsReviewBook : IsReviewBook reviewed.reviews
unfolding find_one
reviewed-IsReviewBook = record {
  ids = (refl, tt);
  subjects = (refl, tt);
  sound = (
    record {
      rated = refl;
      foreign = λ seller same mine. absurd (ground arith);
      replied = tt;
      hiding = tt;
    },
    tt,
  );
}

run_calls-Stays_example : Stays first_entry (board (Calls.run_calls true calls reviewed).reviews 30)
unfolding find_one
run_calls-Stays_example =
    run_calls-Stays true calls reviewed 30 first_entry reviewed-IsReviewBook refl

unhide_review-hide_review_example :
    (m : ReviewModel) × (m' : ReviewModel) × ((hide_review 20 30 9 (codes "spam") reviewed).0
      ≡ ok m)
    × (unhide_review 21 30 (hide_review 20 30 9 (codes "spam") reviewed).1 ≡ (
      ok m',
      record reviewed { reviews = update_where (named 30) (touch 21) reviewed.reviews },
    ))
unfolding find_one
unhide_review-hide_review_example =
    unhide_review-hide_review 20 21 30 9 (codes "spam") reviewed first_review reviewed-IsReviewBook
      refl refl

-- Rounding half up.
abbrev half_up : ℕ → ℕ → ℕ
half_up sum total = (20 * sum + total) / (2 * total)

get_rating_stats_lem_example :
    let visible = select (is_public_for 5) reviewed.reviews in
    let stats = get_rating_stats half_up 5 reviewed.reviews in
    (stats.total ≡ length visible)
    × (stats.avg ≡ (if length visible == 0 then 0 else half_up (sum_of visible) (length visible)))
    × ((rating : ℕ)
        → is_rating rating ≡ true
        → count_at rating stats.distribution ≡ some (count_where (has_rating rating) visible))
get_rating_stats_lem_example = get_rating_stats_lem half_up 5 reviewed.reviews

abbrev masking : ReviewCompositionOptions
masking = record { include_reviewer = true; include_product = false; mask_reviewer = true }

compose_lem_example :
    compose (to_model first_review ∷ []) masking reviewed
    ≡ map (looked_up masking reviewed) (to_model first_review ∷ [])
unfolding find_one
compose_lem_example =
    compose_lem (to_model first_review ∷ []) masking reviewed (refl, (refl, tt)) (refl, tt)

abbrev first_page : ReviewPagination
first_page = record { page = none; limit = some 500 }

list_public_product_reviews_lem_example :
    (result : PublicReviewListResult) × (list_public_product_reviews half_up 5 first_page reviewed
      ≡ (ok result, reviewed))
    × All (IsShownFor 5) result.list.data_
    × (length result.list.data_ ≤ result.list.limit)
    × (result.list.limit ≤ 100)
list_public_product_reviews_lem_example =
    list_public_product_reviews_lem half_up 5 first_page reviewed
