-- ===== src/Reviews/Models.antt =====
-- modules/reviews/application/models/review.model.ts.
use agrilink_backend.Base.{ℕ, Bool, Option, none, List, Text}
use agrilink_backend.Platform.{ReviewRow}

pub record ReviewUserModel : Type 0 where
  pub id : ℕ
  pub full_name : Option Text
  pub avatar_url : Option Text

pub record ReviewProductModel : Type 0 where
  pub id : ℕ
  pub name : Option Text

pub record ReviewModel : Type 0 where
  pub id : ℕ
  pub reviewer_id : ℕ
  pub reviewee_id : Option ℕ
  pub product_id : Option ℕ
  pub rating : ℕ
  pub comment : Option Text
  pub images : List Text
  pub is_verified_purchase : Bool
  pub seller_reply : Option Text
  pub seller_reply_at : Option ℕ
  pub is_hidden : Bool
  pub hidden_reason : Option Text
  pub created_at : ℕ
  pub updated_at : ℕ
  pub reviewer : Option ReviewUserModel
  pub product : Option ReviewProductModel

-- The average stands in tenths; the distribution pairs a rating with its count.
pub record RatingStatsModel : Type 0 where
  pub avg : ℕ
  pub total : ℕ
  pub distribution : List (ℕ × ℕ)

pub record ReviewListResult : Type 0 where
  pub data_ : List ReviewModel
  pub total : ℕ
  pub page : ℕ
  pub limit : ℕ

pub record PublicReviewListResult : Type 0 where
  pub list : ReviewListResult
  pub stats : RatingStatsModel

pub record CreateReviewInput : Type 0 where
  pub product_id : ℕ
  pub reviewer_id : ℕ
  pub reviewee_id : ℕ
  pub rating : ℕ
  pub comment : Option Text
  pub images : List Text
  pub is_verified_purchase : Bool

pub record ReviewPagination : Type 0 where
  pub page : Option ℕ
  pub limit : Option ℕ

-- TypeOrmReviewsRepository.toModel
abbrev pub to_model : ReviewRow → ReviewModel
to_model r = record {
  id = r.id;
  reviewer_id = r.reviewer_id;
  reviewee_id = r.reviewee_id;
  product_id = r.product_id;
  rating = r.rating;
  comment = r.comment;
  images = r.images;
  is_verified_purchase = r.is_verified_purchase;
  seller_reply = r.seller_reply;
  seller_reply_at = r.seller_reply_at;
  is_hidden = r.is_hidden;
  hidden_reason = r.hidden_reason;
  created_at = r.created_at;
  updated_at = r.updated_at;
  reviewer = none;
  product = none;
}
