-- ===== src/Reviews/Policy.antt =====
-- modules/reviews/domain/policies/review.policy.ts.
use agrilink_backend.Base.{
  ℕ, Bool, true, false, not, Option, none, some, Result, ok, err, review_ownership, review_state,
  Text, is_empty, ◌==◌, if◌then◌else◌,
}

unfoldable pub assert_can_review_product : ℕ → ℕ → Result (Unit {0})
assert_can_review_product reviewer_id seller_id =
    if reviewer_id == seller_id then err review_ownership else ok tt

-- `column === value`, where the column may be NULL
abbrev pub is_some : Option ℕ → ℕ → Bool
is_some none b = false
is_some (some a) b = a == b

-- `!!text`: neither null nor empty
abbrev pub is_truthy : Option Text → Bool
is_truthy none = false
is_truthy (some t) = not (is_empty t)

unfoldable pub assert_can_reply_to_review : Option ℕ → ℕ → Option Text → Result (Unit {0})
assert_can_reply_to_review reviewee_id seller_id seller_reply =
    if not (is_some reviewee_id seller_id)
    then err review_ownership
    else if is_truthy seller_reply
    then err review_state
    else ok tt

abbrev pub same_bool : Bool → Bool → Bool
same_bool true b = b
same_bool false b = not b

unfoldable pub assert_can_change_review_visibility : Bool → Bool → Result (Unit {0})
assert_can_change_review_visibility is_hidden should_be_hidden =
    if same_bool is_hidden should_be_hidden then err review_state else ok tt
