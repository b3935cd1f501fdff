-- ===== src/Products/UseCases.antt =====
-- modules/products/application/use-cases/product.use-cases.ts, as far as it moves the status of a
-- product and its images; the moderation of
-- modules/products/application/services/product-boundary.service.ts; and what they and the orders
-- read and write in the product repository.
use agrilink_backend.Base.{
  ℕ, Bool, true, false, ◌&&◌, ◌||◌, not, Option, none, some, [], ◌∷◌, ◌++◌, Result, ok, err,
  product_forbidden, product_not_found, price_incompatible, Text, codes, is_whole, is_digit,
  is_empty, all, ◌==◌, if◌then◌else◌,
}
use agrilink_backend.Base.Action.{Action, ◌>>=◌, ◌>>◌, pure, gets, lift, or_throw, throw_if, modify}
use agrilink_backend.Base.Table.{find_one, select, update_where, count_where}
use agrilink_backend.Enums.{UserRole}
use agrilink_backend.Products.Status.{
  ProductStatus, draft, active, rejected, suspended, same_status, assert_product_status_transition,
}
use agrilink_backend.Platform.{Platform, ProductRow, ProductImageRow}

abbrev pub by_id : ℕ → ProductRow → Bool
by_id id p = p.id == id

unfoldable pub find_product_or_fail : ℕ → Action Platform ProductRow
find_product_or_fail id = do
  found ← gets (λ s. find_one (by_id id) s.products)
  or_throw found product_not_found

unfoldable pub assert_product_owner : ProductRow → ℕ → Result (Unit {0})
assert_product_owner product seller_id =
    if not (product.seller_id == seller_id) then err product_forbidden else ok tt

-- `productRepository.save(product)` of a product that was loaded
abbrev pub save : ProductRow → Action Platform ProductRow
save product = do
  modify (λ s. record s { products = update_where (by_id product.id) (λ r. product) s.products })
  pure product

unfoldable pub delete_product : ℕ → ℕ → Action Platform (Unit {0})
unfolding find_product_or_fail assert_product_owner
delete_product id seller_id = do
  product ← find_product_or_fail id
  lift (assert_product_owner product seller_id)
  save (record product { status = draft })
  pure tt

-- The type of the notification of a new status.
abbrev pub notification_type : ProductStatus → Text
notification_type status =
    if same_status status active then codes "product_approved" else codes "product_status_changed"

abbrev pub publish_status_changed : ProductRow → Action Platform (Unit {0})
publish_status_changed product = modify (λ s. record s {
  published =
      s.published
      ++ record {
        user_id = product.seller_id;
        subject_id = product.id;
        type_name = notification_type product.status;
      }
        ∷ [];
})

abbrev pub store_status : ProductRow → ProductStatus → Action Platform ProductRow
store_status product next_status = do
  saved ← save (record product { status = next_status; rejection_reason = none })
  publish_status_changed saved
  pure saved

unfoldable pub change_product_status : ℕ → ℕ → UserRole → ProductStatus → Action Platform ProductRow
unfolding find_product_or_fail assert_product_status_transition
change_product_status id actor_id actor_role next_status = do
  product ← find_product_or_fail id
  lift (
      assert_product_status_transition (record {
        current_status = product.status;
        next_status = next_status;
        seller_id = product.seller_id;
        actor_id = actor_id;
        actor_role = actor_role;
        available_quantity = product.available_quantity;
      }))
  (if same_status product.status next_status
      then pure product
      else store_status product next_status)

abbrev pub clear_primary : ProductImageRow → ProductImageRow
clear_primary i = record i { is_primary = false }

-- The images of a product.
abbrev pub of_product : ℕ → ProductImageRow → Bool
of_product product_id i = i.product_id == product_id

abbrev pub clear_all_primary : Bool → ℕ → Platform → Platform
clear_all_primary true product_id s = record s {
  product_images = update_where (of_product product_id) clear_primary s.product_images;
}
clear_all_primary false product_id s = s

unfoldable pub add_image : ℕ → ℕ → Text → Bool → Action Platform ProductImageRow
add_image image_id product_id image_url is_primary = do
  modify (clear_all_primary is_primary product_id)
  count ← gets (λ s. count_where (of_product product_id) s.product_images)
  let image : ProductImageRow = record {
    id = image_id;
    product_id = product_id;
    image_url = image_url;
    sort_order = count;
    is_primary = is_primary;
  }
  modify (λ s. record s { product_images = s.product_images ++ image ∷ [] })
  pure image

unfoldable pub add_product_image : ℕ → ℕ → ℕ → Text → Bool → Action Platform ProductImageRow
unfolding find_product_or_fail assert_product_owner add_image
add_product_image image_id product_id seller_id image_url is_primary = do
  product ← find_product_or_fail product_id
  lift (assert_product_owner product seller_id)
  add_image image_id product_id image_url is_primary

abbrev pub is_image : ℕ → ℕ → ProductImageRow → Bool
is_image product_id image_id i = i.id == image_id && i.product_id == product_id

abbrev pub image_there : Option ProductImageRow → Bool
image_there none = false
image_there (some i) = true

-- Where no image is found, the removal removes none.
unfoldable pub remove_image_by_product : ℕ → ℕ → Action Platform Bool
remove_image_by_product product_id image_id = do
  image ← gets (λ s. find_one (is_image product_id image_id) s.product_images)
  modify (λ s. record s {
    product_images = select (λ i. not (is_image product_id image_id i)) s.product_images;
  })
  pure (image_there image)

unfoldable pub remove_product_image : ℕ → ℕ → ℕ → Action Platform (Unit {0})
unfolding find_product_or_fail assert_product_owner remove_image_by_product
remove_product_image product_id image_id seller_id = do
  product ← find_product_or_fail product_id
  lift (assert_product_owner product seller_id)
  removed ← remove_image_by_product product_id image_id
  throw_if (not removed) product_not_found

pub data Moderation : Type 0 where
  invalid_target not_found conflict : Moderation
  updated : ProductStatus → ProductRow → Moderation

-- MODERATION_TARGETS
abbrev pub is_moderation_target : ProductStatus → Bool
is_moderation_target status =
    same_status status active || same_status status rejected || same_status status suspended

abbrev pub has_status : ℕ → ProductStatus → ProductRow → Bool
has_status id expected p = p.id == id && same_status p.status expected

abbrev pub set_moderated : ProductStatus → Option Text → ProductRow → ProductRow
set_moderated status reason p = record p { status = status; rejection_reason = reason }

unfoldable pub update_status_conditionally :
    ℕ → ProductStatus → ProductStatus → Option Text → Action Platform (Option ProductRow)
update_status_conditionally id expected_status status reason = do
  affected ← gets (λ s. count_where (has_status id expected_status) s.products)
  modify (λ s. record s {
    products =
        update_where (has_status id expected_status) (set_moderated status reason) s.products;
  })
  gets (λ s. if affected == 1 then find_one (by_id id) s.products else none)

abbrev pub told : ProductStatus → Option ProductRow → Moderation
told previous none = conflict
told previous (some product) = updated previous product

abbrev pub moderate_from : ProductRow → ProductStatus → Option Text → Action Platform Moderation
moderate_from current next_status reason = do
  product ←
      update_status_conditionally current.id current.status next_status
        (if same_status next_status rejected then reason else none)
  pure (told current.status product)

abbrev pub moderate_found :
    Option ProductRow → ProductStatus → Option Text → Action Platform Moderation
moderate_found none next_status reason = pure not_found
moderate_found (some current) next_status reason =
    if same_status current.status next_status
    then pure (updated current.status current)
    else moderate_from current next_status reason

unfoldable pub moderate : ℕ → ProductStatus → Option Text → Action Platform Moderation
unfolding update_status_conditionally
moderate id next_status reason =
    if not (is_moderation_target next_status) then pure invalid_target else (do
      found ← gets (λ s. find_one (by_id id) s.products)
      moderate_found found next_status reason)

-- What a commerce module sees of a product.
pub record ProductCommerceProjection : Type 0 where
  pub id : ℕ
  pub seller_id : ℕ
  pub name : Text
  pub price_per_unit : Text
  pub unit : Text

-- /^(0|[1-9]\d*)(?:\.(\d+))?$/, cut at the first dot
abbrev pub until_dot : Text → Text
until_dot [] = []
until_dot (c ∷ s) = let rest = until_dot s in if c == b'.' then [] else c ∷ rest

abbrev pub after_dot : Text → Option Text
after_dot [] = none
after_dot (c ∷ s) = let rest = after_dot s in if c == b'.' then some s else rest

abbrev pub is_zero_fraction : Option Text → Bool
is_zero_fraction none = true
is_zero_fraction (some digits) =
    not (is_empty digits) && all is_digit digits && all (λ c. c == b'0') digits

unfoldable pub to_integer_vnd : Text → Result Text
to_integer_vnd raw =
    if is_whole (until_dot raw) && is_zero_fraction (after_dot raw)
    then ok (until_dot raw)
    else err price_incompatible

abbrev pub is_on_sale : ℕ → ProductRow → Bool
is_on_sale id p = p.id == id && same_status p.status active

abbrev pub project : ProductRow → Text → Text → ProductCommerceProjection
project p name price = record {
  id = p.id;
  seller_id = p.seller_id;
  name = name;
  price_per_unit = price;
  unit = p.unit;
}

-- `!product || !product.name`
abbrev pub named_product : Option ProductRow → Option (ProductRow × Text)
named_product none = none
named_product (some p) = elim p.name [
  | none ↦ none
  | some name ↦ if is_empty name then none else some (p, name)
]

abbrev pub projected : Option (ProductRow × Text) → Result (Option ProductCommerceProjection)
projected none = ok none
projected (some (p, name)) = elim (to_integer_vnd p.price_per_unit) [
  | err e ↦ err e
  | ok price ↦ ok (some (project p name price))
]

unfoldable pub find_commerce_product : ℕ → Action Platform (Option ProductCommerceProjection)
unfolding to_integer_vnd
find_commerce_product id s = (projected (named_product (find_one (is_on_sale id) s.products)), s)
