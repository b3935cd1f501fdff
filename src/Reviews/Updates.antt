-- ===== src/Reviews/Updates.antt =====
-- What the mutations of reviews find and write when they succeed; a refusal leaves the platform
-- alone.
use agrilink_backend.Base.{
  ℕ, Bool, true, false, ◌≡◌, refl, ◌∙◌, ◌⊎◌, inl, inr, none, some, review_not_found, review_state,
  Error, Result, ok, err, Text, arith, ◌==◌, Bool-cases, Option-cases, Result-cases, ==_refl,
}
use agrilink_backend.Base.Action.{Action, ◌>>=◌, ◌>>◌, lift, or_throw, gets}
use agrilink_backend.Base.Affected.{count_where-found, update_where-none}
use agrilink_backend.Base.Keyed.{IsKeyed}
use agrilink_backend.Base.Table.{find_one, update_where, count_where}
use agrilink_backend.Base.TableLaws.{find_one-update_where, find_one_sound}
use agrilink_backend.Base.Words.{trim}
use agrilink_backend.Reviews.Models.{ReviewModel, to_model}
use agrilink_backend.Reviews.Policy.{
  assert_can_reply_to_review, assert_can_change_review_visibility,
}
use agrilink_backend.Reviews.Repository.{
  find_by_id, awaits_reply, set_reply, touch, update_one, save_reply_if_unreplied, has_visibility,
  set_hidden, set_visibility,
}
use agrilink_backend.Reviews.ReadModel.{compose_one}
use agrilink_backend.Reviews.UseCases.{reply_to_review, hide_review, unhide_review}
use agrilink_backend.Platform.{Platform, ReviewRow}

abbrev pub named : ℕ → ReviewRow → Bool
named id r = r.id == id

-- The call throws and leaves the platform as it found it.
abbrev pub Refused : {A : Type 0} → Result A × Platform → Platform → Type 0
Refused result s = (e : Error) × (result ≡ (err e, s))

-- An update of one review took place.
pub record Updated (now id : ℕ) (q : ReviewRow → Bool) (f : ReviewRow → ReviewRow) (s : Platform)
    (result : Result ReviewModel × Platform) : Type 0 where
  pub row : ReviewRow
  pub model : ReviewModel
  pub found : find_one (named id) s.reviews ≡ some row
  pub chosen : q row ≡ true
  pub done :
      result ≡ (ok model, record s { reviews = update_where q (λ r. touch now (f r)) s.reviews })

module _ (now id : ℕ) (q : ReviewRow → Bool) (f : ReviewRow → ReviewRow) (s : Platform) where
  pub update_one-chosen :
      (row : ReviewRow)
      → IsKeyed (λ r. r.id) s.reviews
      → find_one (named id) s.reviews ≡ some row
      → ((x : ReviewRow) → q x ≡ true → x.id ≡ id)
      → ((x : ReviewRow) → (f x).id ≡ x.id)
      → q row ≡ true
      → update_one now id q f s ≡ (
        ok (some (to_model (touch now (f row)))),
        record s { reviews = update_where q (λ r. touch now (f r)) s.reviews },
      )
  unfolding update_one find_by_id
  update_one-chosen row keyed found names keeps chosen =
      let one = count_where-found (λ r. r.id) q id s.reviews row keyed found names in
      let again =
        find_one-update_where (named id) q (λ r. touch now (f r)) s.reviews (λ r. rw (keeps r)) in
      rw (one, chosen, again, found, chosen) refl

  pub update_one-left :
      (row : ReviewRow)
      → IsKeyed (λ r. r.id) s.reviews
      → find_one (named id) s.reviews ≡ some row
      → ((x : ReviewRow) → q x ≡ true → x.id ≡ id)
      → q row ≡ false
      → update_one now id q f s ≡ (ok none, s)
  unfolding update_one find_by_id
  update_one-left row keyed found names left =
      let zero_rows : count_where q s.reviews ≡ 0 =
        count_where-found (λ r. r.id) q id s.reviews row keyed found names ∙ rw left in
      rw (zero_rows, update_where-none q (λ r. touch now (f r)) s.reviews zero_rows) refl

  -- What the three updates have in common: load, check, update, compose.
  abbrev checked_update : (ReviewModel → Result (Unit {0})) → Action Platform ReviewModel
  checked_update check = do
    found ← find_by_id id
    review ← or_throw found review_not_found
    lift (check review)
    saved ← update_one now id q f
    updated ← or_throw saved review_state
    gets (compose_one updated)

  checked_update-runs :
      (check : ReviewModel → Result (Unit {0})) (row : ReviewRow)
      → IsKeyed (λ r. r.id) s.reviews
      → ((x : ReviewRow) → q x ≡ true → x.id ≡ id)
      → ((x : ReviewRow) → (f x).id ≡ x.id)
      → find_one (named id) s.reviews ≡ some row
      → check (to_model row) ≡ ok tt
      → q row ≡ true
      → Updated now id q f s (checked_update check s)
  unfolding find_by_id
  checked_update-runs check row keyed names keeps found allowed chosen = record {
    row = row;
    model =
        compose_one (to_model (touch now (f row)))
          (record s { reviews = update_where q (λ r. touch now (f r)) s.reviews });
    found = found;
    chosen = chosen;
    done = rw (found, allowed, update_one-chosen row keyed found names keeps chosen) refl;
  }

  checked_update-cases :
      (check : ReviewModel → Result (Unit {0}))
      → IsKeyed (λ r. r.id) s.reviews
      → ((x : ReviewRow) → q x ≡ true → x.id ≡ id)
      → ((x : ReviewRow) → (f x).id ≡ x.id)
      → Refused (checked_update check s) s ⊎ Updated now id q f s (checked_update check s)
  unfolding find_by_id
  checked_update-cases check keyed names keeps =
      elim (Option-cases (find_one (named id) s.reviews)) [
        | inl gone ↦ inl (review_not_found, rw gone refl)
        | inr (row, found) ↦ elim (Result-cases (check (to_model row))) [
          | inl (e, refused) ↦ inl (e, rw (found, refused) refl)
          | inr (_, allowed) ↦ elim (Bool-cases (q row)) [
            | inl chosen ↦
                inr (checked_update-runs check row keyed names keeps found allowed chosen)
            | inr left ↦
                inl (
                  review_state,
                  rw (found, allowed, update_one-left row keyed found names left) refl,
                )
          ]
        ]
      ]

pub hide_review-cases :
    (now id admin_id : ℕ) (reason : Text) (s : Platform)
    → IsKeyed (λ r. r.id) s.reviews
    → Refused (hide_review now id admin_id reason s) s
      ⊎ Updated now id
          (has_visibility id false)
          (set_hidden true (some (trim reason)) (some admin_id) (some now))
          s
          (hide_review now id admin_id reason s)
unfolding hide_review set_visibility
hide_review-cases now id admin_id reason s keyed =
    checked_update-cases now id (has_visibility id false)
      (set_hidden true (some (trim reason)) (some admin_id) (some now)) s
      (λ review. assert_can_change_review_visibility review.is_hidden true) keyed
      (λ x q. ground arith) (λ x. refl)

pub unhide_review-cases :
    (now id : ℕ) (s : Platform)
    → IsKeyed (λ r. r.id) s.reviews
    → Refused (unhide_review now id s) s
      ⊎ Updated now id
          (has_visibility id true)
          (set_hidden false none none none)
          s
          (unhide_review now id s)
unfolding unhide_review set_visibility
unhide_review-cases now id s keyed =
    checked_update-cases now id (has_visibility id true) (set_hidden false none none none) s
      (λ review. assert_can_change_review_visibility review.is_hidden false) keyed
      (λ x q. ground arith) (λ x. refl)

pub reply_to_review-cases :
    (now id seller_id : ℕ) (reply : Text) (s : Platform)
    → IsKeyed (λ r. r.id) s.reviews
    → Refused (reply_to_review now id seller_id reply s) s
      ⊎ Updated now id
          (awaits_reply id seller_id)
          (set_reply (trim reply) now)
          s
          (reply_to_review now id seller_id reply s)
unfolding reply_to_review save_reply_if_unreplied
reply_to_review-cases now id seller_id reply s keyed =
    checked_update-cases now id (awaits_reply id seller_id) (set_reply (trim reply) now) s
      (λ review. assert_can_reply_to_review review.reviewee_id seller_id review.seller_reply) keyed
      (λ x q. ground arith) (λ x. refl)

-- The seller answers a review that has no reply.
pub reply_to_review-runs :
    (now id seller_id : ℕ) (reply : Text) (s : Platform) (row : ReviewRow)
    → IsKeyed (λ r. r.id) s.reviews
    → find_one (named id) s.reviews ≡ some row
    → row.reviewee_id ≡ some seller_id
    → row.seller_reply ≡ none
    → Updated now id
        (awaits_reply id seller_id)
        (set_reply (trim reply) now)
        s
        (reply_to_review now id seller_id reply s)
unfolding reply_to_review save_reply_if_unreplied assert_can_reply_to_review
reply_to_review-runs now id seller_id reply s row keyed found of_seller unreplied =
    let own = find_one_sound (named id) s.reviews row found in
    let mine = ==_refl seller_id in
    checked_update-runs now id (awaits_reply id seller_id) (set_reply (trim reply) now) s
      (λ review. assert_can_reply_to_review review.reviewee_id seller_id review.seller_reply) row
      keyed (λ x q. ground arith) (λ x. refl) found (rw (of_seller, unreplied, mine) refl)
      (rw (own, of_seller, unreplied, mine) refl)

-- A visible review is hidden, and a hidden one is shown.
pub hide_review-runs :
    (now id admin_id : ℕ) (reason : Text) (s : Platform) (row : ReviewRow)
    → IsKeyed (λ r. r.id) s.reviews
    → find_one (named id) s.reviews ≡ some row
    → row.is_hidden ≡ false
    → Updated now id
        (has_visibility id false)
        (set_hidden true (some (trim reason)) (some admin_id) (some now))
        s
        (hide_review now id admin_id reason s)
unfolding hide_review set_visibility assert_can_change_review_visibility
hide_review-runs now id admin_id reason s row keyed found visible =
    let own = find_one_sound (named id) s.reviews row found in
    checked_update-runs now id (has_visibility id false)
      (set_hidden true (some (trim reason)) (some admin_id) (some now)) s
      (λ review. assert_can_change_review_visibility review.is_hidden true) row keyed
      (λ x q. ground arith) (λ x. refl) found (rw visible refl) (rw (own, visible) refl)

pub unhide_review-runs :
    (now id : ℕ) (s : Platform) (row : ReviewRow)
    → IsKeyed (λ r. r.id) s.reviews
    → find_one (named id) s.reviews ≡ some row
    → row.is_hidden ≡ true
    → Updated now id
        (has_visibility id true)
        (set_hidden false none none none)
        s
        (unhide_review now id s)
unfolding unhide_review set_visibility assert_can_change_review_visibility
unhide_review-runs now id s row keyed found hidden =
    let own = find_one_sound (named id) s.reviews row found in
    checked_update-runs now id (has_visibility id true) (set_hidden false none none none) s
      (λ review. assert_can_change_review_visibility review.is_hidden false) row keyed
      (λ x q. ground arith) (λ x. refl) found (rw hidden refl) (rw (own, hidden) refl)
