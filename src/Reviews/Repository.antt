-- ===== src/Reviews/Repository.antt =====
-- TypeOrmReviewsRepository
-- (modules/reviews/infrastructure/persistence/repositories/typeorm-reviews.repository.ts). The
-- average is computed in floating point: `Math.round((sum / total) * 10)` is a parameter.
use agrilink_backend.Base.{
  ℕ, suc, ◌+◌, ◌*◌, Bool, true, false, ◌&&◌, not, Option, none, some, List, [], ◌∷◌, ◌++◌, map,
  Error, unique_violation, check_violation, Text, ltb, leb, ◌==◌, if◌then◌else◌, length,
}
use agrilink_backend.Base.Action.{Action, ◌>>=◌, ◌>>◌, pure, throw, gets, throw_if, modify, attempt}
use agrilink_backend.Base.Paging.{max, min, or_else, page_of}
use agrilink_backend.Base.Table.{find_one, select, update_where, count_where}
use agrilink_backend.Base.Sort.{sort_by}
use agrilink_backend.Reviews.Policy.{is_some, same_bool}
use agrilink_backend.Reviews.Models.{
  ReviewModel, RatingStatsModel, ReviewListResult, PublicReviewListResult, CreateReviewInput,
  ReviewPagination, to_model,
}
use agrilink_backend.Platform.{Platform, ReviewRow}

abbrev pub new_review : ℕ → ℕ → CreateReviewInput → ReviewRow
new_review id now input = record {
  id = id;
  reviewer_id = input.reviewer_id;
  reviewee_id = some input.reviewee_id;
  product_id = some input.product_id;
  rating = input.rating;
  comment = input.comment;
  images = input.images;
  is_verified_purchase = input.is_verified_purchase;
  seller_reply = none;
  seller_reply_at = none;
  is_hidden = false;
  hidden_reason = none;
  hidden_by = none;
  hidden_at = none;
  created_at = now;
  updated_at = now;
}

-- The unique index on reviewer and product, where the product is not NULL.
abbrev pub same_subject : ReviewRow → ReviewRow → Bool
same_subject a b = elim a.product_id [
  | none ↦ false
  | some p ↦ a.reviewer_id == b.reviewer_id && is_some b.product_id p
]

-- The check of the table on the rating.
abbrev pub is_rating : ℕ → Bool
is_rating n = leb 1 n && leb n 5

abbrev pub is_found : Option ReviewRow → Bool
is_found none = false
is_found (some r) = true

-- `this.reviews.save(review)` of a new row
unfoldable pub insert_review : ReviewRow → Action Platform ReviewRow
insert_review row = do
  throw_if (not (is_rating row.rating)) check_violation
  primary ← gets (λ s. find_one (λ (r : ReviewRow). r.id == row.id) s.reviews)
  throw_if (is_found primary) unique_violation
  twin ← gets (λ s. find_one (same_subject row) s.reviews)
  throw_if (is_found twin) unique_violation
  modify (λ s. record s { reviews = s.reviews ++ row ∷ [] })
  pure row

abbrev pub is_unique_violation : Error → Bool
is_unique_violation unique_violation = true
is_unique_violation _ = false

unfoldable pub create_if_absent : ℕ → ℕ → CreateReviewInput → Action Platform (Option ReviewModel)
unfolding insert_review
create_if_absent id now input =
    attempt (do row ← insert_review (new_review id now input); pure (some (to_model row)))
      (λ e. if is_unique_violation e then pure none else throw e)

abbrev pub to_model? : Option ReviewRow → Option ReviewModel
to_model? none = none
to_model? (some r) = some (to_model r)

unfoldable pub find_by_id : ℕ → Action Platform (Option ReviewModel)
find_by_id id = gets (λ s. to_model? (find_one (λ (r : ReviewRow). r.id == id) s.reviews))

-- The page and the limit.
unfoldable pub normalize_pagination : ReviewPagination → ℕ → ℕ × ℕ
normalize_pagination p default_limit =
    (max 1 (or_else p.page 1), min 100 (max 1 (or_else p.limit default_limit)))

-- `ORDER BY created_at DESC`
abbrev pub newer : ReviewRow → ReviewRow → Bool
newer a b = ltb b.created_at a.created_at

-- The page of the selected rows, with the number of all of them.
unfoldable pub find_page : (ReviewRow → Bool) → ℕ → ℕ → List ReviewRow → List ReviewRow × ℕ
unfolding page_of
find_page condition page limit rows =
    let found = sort_by newer (select condition rows) in (page_of page limit found, length found)

abbrev pub is_public_for : ℕ → ReviewRow → Bool
is_public_for product_id r = is_some r.product_id product_id && not r.is_hidden

-- `GROUP BY rating` with `COUNT(*)`
abbrev pub bump : ℕ → List (ℕ × ℕ) → List (ℕ × ℕ)
bump rating [] = (rating, 1) ∷ []
bump rating ((k, n) ∷ groups) =
    let rest = bump rating groups in if k == rating then (k, suc n) ∷ groups else (k, n) ∷ rest

unfoldable pub group_ratings : List ReviewRow → List (ℕ × ℕ)
group_ratings [] = []
group_ratings (r ∷ rs) = bump r.rating (group_ratings rs)

-- `distribution[rating] = count`
abbrev pub set_count : ℕ → ℕ → List (ℕ × ℕ) → List (ℕ × ℕ)
set_count rating count [] = (rating, count) ∷ []
set_count rating count ((k, n) ∷ distribution) =
    let rest = set_count rating count distribution in
    if k == rating then (k, count) ∷ distribution else (k, n) ∷ rest

abbrev pub no_ratings : List (ℕ × ℕ)
no_ratings = (1, 0) ∷ (2, 0) ∷ (3, 0) ∷ (4, 0) ∷ (5, 0) ∷ []

-- What the loop over the groups carries: the distribution, the total and the sum.
pub record Tally : Type 0 where
  pub distribution : List (ℕ × ℕ)
  pub total : ℕ
  pub sum : ℕ

unfoldable pub tally : List (ℕ × ℕ) → Tally → Tally
tally [] t = t
tally ((rating, count) ∷ groups) t = tally groups (record {
  distribution = set_count rating count t.distribution;
  total = t.total + count;
  sum = t.sum + rating * count;
})

module _ (rounded_tenths : ℕ → ℕ → ℕ) where
  unfoldable pub get_rating_stats : ℕ → List ReviewRow → RatingStatsModel
  unfolding group_ratings tally
  get_rating_stats product_id rows =
      let t =
        tally (group_ratings (select (is_public_for product_id) rows))
          (record { distribution = no_ratings; total = 0; sum = 0 }) in
      record {
        avg = if t.total == 0 then 0 else rounded_tenths t.sum t.total;
        total = t.total;
        distribution = t.distribution;
      }

  unfoldable pub find_public_by_product :
      ℕ → ReviewPagination → Action Platform PublicReviewListResult
  unfolding normalize_pagination find_page get_rating_stats
  find_public_by_product product_id pagination =
      let (page, limit) = normalize_pagination pagination 10 in
      gets (λ s.
        let (found, total) = find_page (is_public_for product_id) page limit s.reviews in
        record {
          list = record { data_ = map to_model found; total = total; page = page; limit = limit };
          stats = get_rating_stats product_id s.reviews;
        })

-- `filter.replied`: whether the reply has to be there, has to be absent, or does not matter
abbrev pub replied_fits : Option Bool → Option Text → Bool
replied_fits none reply = true
replied_fits (some replied) none = not replied
replied_fits (some replied) (some reply) = replied

unfoldable pub find_for_seller :
    ℕ → ReviewPagination → Option Bool → Action Platform ReviewListResult
unfolding normalize_pagination find_page
find_for_seller seller_id pagination replied =
    let (page, limit) = normalize_pagination pagination 20 in
    gets (λ s.
      let (found, total) =
        find_page
          (λ r.
            is_some r.reviewee_id seller_id
            && not r.is_hidden
            && replied_fits replied r.seller_reply)
          page limit s.reviews in
      record { data_ = map to_model found; total = total; page = page; limit = limit })

-- `filter.isHidden`
abbrev pub hidden_fits : Option Bool → Bool → Bool
hidden_fits none hidden = true
hidden_fits (some wanted) hidden = same_bool wanted hidden

unfoldable pub find_for_moderation :
    ReviewPagination → Option Bool → Action Platform ReviewListResult
unfolding normalize_pagination find_page
find_for_moderation pagination is_hidden =
    let (page, limit) = normalize_pagination pagination 20 in
    gets (λ s.
      let (found, total) =
        find_page (λ r. hidden_fits is_hidden r.is_hidden) page limit s.reviews in
      record { data_ = map to_model found; total = total; page = page; limit = limit })

abbrev pub is_null : Option Text → Bool
is_null none = true
is_null (some t) = false

abbrev pub awaits_reply : ℕ → ℕ → ReviewRow → Bool
awaits_reply id seller_id r =
    r.id == id && is_some r.reviewee_id seller_id && is_null r.seller_reply

abbrev pub set_reply : Text → ℕ → ReviewRow → ReviewRow
set_reply reply replied_at r = record r {
  seller_reply = some reply;
  seller_reply_at = some replied_at;
}

abbrev pub touch : ℕ → ReviewRow → ReviewRow
touch now r = record r { updated_at = now }

-- An update at the time `now` of the database, whose `affected` is compared with 1, followed by
-- `findById`. TypeORM sets the column of the last update.
unfoldable pub update_one :
    ℕ → ℕ → (ReviewRow → Bool) → (ReviewRow → ReviewRow) → Action Platform (Option ReviewModel)
unfolding find_by_id
update_one now id condition change = do
  affected ← gets (λ s. count_where condition s.reviews)
  modify (λ s. record s { reviews = update_where condition (λ r. touch now (change r)) s.reviews })
  (if not (affected == 1) then pure none else find_by_id id)

unfoldable pub save_reply_if_unreplied : ℕ → ℕ → ℕ → Text → ℕ → Action Platform (Option ReviewModel)
unfolding update_one
save_reply_if_unreplied now id seller_id reply replied_at =
    update_one now id (awaits_reply id seller_id) (set_reply reply replied_at)

abbrev pub has_visibility : ℕ → Bool → ReviewRow → Bool
has_visibility id expected_hidden r = r.id == id && same_bool r.is_hidden expected_hidden

abbrev pub set_hidden : Bool → Option Text → Option ℕ → Option ℕ → ReviewRow → ReviewRow
set_hidden is_hidden hidden_reason hidden_by hidden_at r = record r {
  is_hidden = is_hidden;
  hidden_reason = hidden_reason;
  hidden_by = hidden_by;
  hidden_at = hidden_at;
}

unfoldable pub set_visibility :
    ℕ → ℕ → Bool → Bool → Option Text → Option ℕ → Option ℕ → Action Platform (Option ReviewModel)
unfolding update_one
set_visibility now id expected_hidden is_hidden hidden_reason hidden_by hidden_at =
    update_one now id (has_visibility id expected_hidden)
      (set_hidden is_hidden hidden_reason hidden_by hidden_at)
