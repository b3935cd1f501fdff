-- ===== src/Reviews/Composition.antt =====
-- The read model of reviews, against looking each reviewer and product up in its table.
use agrilink_backend.Base.{
  ℕ, Bool, true, false, ◌≡◌, refl, subst, ap, ◌∙◌, inl, inr, Option, none, some, List, [], ◌∷◌, map,
  arith, ◌==◌, if◌then◌else◌, Bool-cases, Option-cases, ==_eq, All,
}
use agrilink_backend.Base.Keyed.{IsKeyed, All-map, All-map_two}
use agrilink_backend.Base.Table.{find_one, select}
use agrilink_backend.Reviews.Models.{ReviewModel, ReviewUserModel, ReviewProductModel}
use agrilink_backend.Reviews.ReadModel.{
  ReviewCompositionOptions, member, without, unique, present, user_summary, product_summary,
  user_summaries, product_summaries, map_get, shown_user, map_some, product_of, compose,
}
use agrilink_backend.Platform.{Platform, UserRow, ProductRow}

member-without :
    (k j : ℕ) (xs : List ℕ) → member k (without j xs) ≡ (if j == k then false else member k xs)
member-without k j [] = ground arith
member-without k j (x ∷ xs) = ground (arith, member-without k j xs)

member-unique : (k : ℕ) (xs : List ℕ) → member k (unique xs) ≡ member k xs
unfolding unique
member-unique k [] = refl
member-unique k (x ∷ xs) = ground (arith, member-without k x (unique xs), member-unique k xs)

module _ {R S : Type 0} (key : R → ℕ) (key' : S → ℕ) (summary : R → S) where
  -- The last of the selected summaries with a key is that of the one row with that key.
  map_get-select :
      (ids : List ℕ) (k : ℕ) (rows : List R)
      → ((r : R) → key' (summary r) ≡ key r)
      → IsKeyed key rows
      → member k ids ≡ true
      → map_get key' k (map summary (select (λ r. member (key r) ids) rows))
        ≡ map_some summary (find_one (λ r. key r == k) rows)
  unfolding map_get select find_one
  map_get-select ids k [] same keyed asked = refl
  map_get-select ids k (r ∷ rows) same (first, keyed) asked =
      let rest = map_get-select ids k rows same keyed asked in
      elim (Bool-cases (key r == k)) [
        | inl here ↦
            let equal : key r ≡ k = ==_eq (key r) k here in
            let chosen : member (key r) ids ≡ true = rw equal asked in
            let gone : find_one (λ x. key x == k) rows ≡ none =
              subst (λ j. find_one (λ x. key x == j) rows ≡ none) equal first in
            rw (chosen, here, rest, gone, same r, here) refl
        | inr away ↦ elim (Bool-cases (member (key r) ids)) [
          | inr left ↦ rw (left, away) rest
          | inl chosen ↦ elim (Option-cases (find_one (λ x. key x == k) rows)) [
            | inl gone ↦ rw (chosen, away, rest, gone, same r, away) refl
            | inr (x, there) ↦ rw (chosen, away, rest, there) refl
          ]
        ]
      ]

user_summaries-get :
    (ids : List ℕ) (k : ℕ) (users : List UserRow)
    → IsKeyed (λ (u : UserRow). u.id) users
    → member k ids ≡ true
    → map_get (λ (u : ReviewUserModel). u.id) k (user_summaries ids users)
      ≡ map_some user_summary (find_one (λ (u : UserRow). u.id == k) users)
unfolding user_summaries
user_summaries-get [] k users keyed asked = absurd (cc)
user_summaries-get (j ∷ ids) k users keyed asked =
    map_get-select (λ (u : UserRow). u.id) (λ (u : ReviewUserModel). u.id) user_summary (j ∷ ids) k
      users (λ r. refl) keyed asked

product_summaries-get :
    (ids : List ℕ) (k : ℕ) (products : List ProductRow)
    → IsKeyed (λ (p : ProductRow). p.id) products
    → member k ids ≡ true
    → map_get (λ (p : ReviewProductModel). p.id) k (product_summaries ids products)
      ≡ map_some product_summary (find_one (λ (p : ProductRow). p.id == k) products)
unfolding product_summaries
product_summaries-get [] k products keyed asked = absurd (cc)
product_summaries-get (j ∷ ids) k products keyed asked =
    map_get-select (λ (p : ProductRow). p.id) (λ (p : ReviewProductModel). p.id) product_summary
      (j ∷ ids) k products (λ r. refl) keyed asked

-- Every id that occurs among the reviews is among those that are asked for.
all_reviewers :
    (xs : List ReviewModel)
    → All
        (λ (r : ReviewModel).
          member r.reviewer_id (map (λ (x : ReviewModel). x.reviewer_id) xs) ≡ true)
        xs
all_reviewers [] = tt
all_reviewers (x ∷ xs) = (ground arith, All-map _ _ (λ r h. ground arith) xs (all_reviewers xs))

abbrev IsAskedFor : List ℕ → ReviewModel → Type 0
IsAskedFor ids r = (id : ℕ) → r.product_id ≡ some id → member id ids ≡ true

present-member :
    (k : ℕ) (o : Option ℕ) (os : List (Option ℕ))
    → member k (present os) ≡ true
    → member k (present (o ∷ os)) ≡ true
present-member k none os h = h
present-member k (some j) os h = ground arith

present-head :
    (k : ℕ) (o : Option ℕ) (os : List (Option ℕ)) → o ≡ some k → member k (present (o ∷ os)) ≡ true
present-head k none os h = absurd (cc)
present-head k (some j) os h = ground arith

all_products :
    (xs : List ReviewModel)
    → All (IsAskedFor (present (map (λ (x : ReviewModel). x.product_id) xs))) xs
all_products [] = tt
all_products (x ∷ xs) = (
  λ id e. present-head id x.product_id (map (λ (y : ReviewModel). y.product_id) xs) e,
  All-map _ _
      (λ r h id e.
        present-member id x.product_id (map (λ (y : ReviewModel). y.product_id) xs) (h id e))
      xs (all_products xs),
)

map-All : {A B : Type 0} (f g : A → B) (xs : List A) → All (λ x. f x ≡ g x) xs → map f xs ≡ map g xs
map-All f g [] h = refl
map-All f g (x ∷ xs) (e, h) = rw e (ap (λ t. g x ∷ t) (map-All f g xs h))

-- What is looked up for one review, where it is asked for.
abbrev pub looked_up : ReviewCompositionOptions → Platform → ReviewModel → ReviewModel
looked_up options s review = record review {
  reviewer =
      if options.include_reviewer
      then map_some (λ u. shown_user options.mask_reviewer (user_summary u))
          (find_one (λ (u : UserRow). u.id == review.reviewer_id) s.users)
      else none;
  product =
      if options.include_product
      then elim review.product_id [
        | none ↦ none
        | some id ↦ map_some product_summary (find_one (λ (p : ProductRow). p.id == id) s.products)
      ]
      else none;
}

map_some-map_some :
    {A B C : Type 0} (f : B → C) (g : A → B) (o : Option A)
    → map_some f (map_some g o) ≡ map_some (λ a. f (g a)) o
map_some-map_some f g none = refl
map_some-map_some f g (some a) = refl

reviewer_part :
    (asked mask : Bool) (ids : List ℕ) (k : ℕ) (users : List UserRow)
    → IsKeyed (λ (u : UserRow). u.id) users
    → member k ids ≡ true
    → map_some (shown_user mask) (
        map_get
          (λ (u : ReviewUserModel). u.id)
          k
          (user_summaries (if asked then unique ids else []) users))
      ≡ (if asked
          then map_some
              (λ u. shown_user mask (user_summary u))
              (find_one (λ (u : UserRow). u.id == k) users)
          else none)
unfolding user_summaries map_get
reviewer_part false mask ids k users keyed h = refl
reviewer_part true mask ids k users keyed h =
    ap (map_some (shown_user mask))
      (user_summaries-get (unique ids) k users keyed (member-unique k ids ∙ h))
    ∙ map_some-map_some (shown_user mask) user_summary (find_one (λ (u : UserRow). u.id == k) users)

product_part :
    (asked : Bool) (ids : List ℕ) (o : Option ℕ) (products : List ProductRow)
    → IsKeyed (λ (p : ProductRow). p.id) products
    → ((id : ℕ) → o ≡ some id → member id ids ≡ true)
    → product_of (product_summaries (if asked then unique ids else []) products) o ≡ (
        if asked
        then elim o [
          | none ↦ none
          | some id ↦ map_some product_summary (find_one (λ (p : ProductRow). p.id == id) products)
        ]
        else none)
unfolding product_summaries map_get
product_part false ids none products keyed h = refl
product_part false ids (some id) products keyed h = refl
product_part true ids none products keyed h = refl
product_part true ids (some id) products keyed h =
    product_summaries-get (unique ids) id products keyed (member-unique id ids ∙ h id refl)

with_parts : ReviewModel → Option ReviewUserModel → Option ReviewProductModel → ReviewModel
with_parts r u p = record r { reviewer = u; product = p }

same_parts :
    (r : ReviewModel) {u v : Option ReviewUserModel} {p q : Option ReviewProductModel}
    → u ≡ v
    → p ≡ q
    → with_parts r u p ≡ with_parts r v q
same_parts r {u} {v} {p} {q} h k = rw (h, k) refl

-- Where ids of users and of products are distinct, composing a list of reviews, which collects the
-- ids, reads the rows in two queries and joins them in memory, gives each review the summaries of
-- the user and of the product that it names, in its place in the list.
pub compose_lem :
    (reviews : List ReviewModel) (options : ReviewCompositionOptions) (s : Platform)
    → IsKeyed (λ (u : UserRow). u.id) s.users
    → IsKeyed (λ (p : ProductRow). p.id) s.products
    → compose reviews options s ≡ map (looked_up options s) reviews
unfolding compose with_parts
compose_lem reviews options s users products =
    let ids = map (λ (r : ReviewModel). r.reviewer_id) reviews in
    let product_ids = present (map (λ (r : ReviewModel). r.product_id) reviews) in
    let each : (r : ReviewModel) → member r.reviewer_id ids ≡ true → IsAskedFor product_ids r → _ =
      λ r known listed.
        same_parts r
          (reviewer_part options.include_reviewer options.mask_reviewer ids r.reviewer_id s.users
            users known)
          (product_part options.include_product product_ids r.product_id s.products products
            listed) in
    map-All _ (looked_up options s) reviews
      (All-map_two _ _ _ each reviews (all_reviewers reviews) (all_products reviews))
