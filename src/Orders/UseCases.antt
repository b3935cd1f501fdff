-- ===== src/Orders/UseCases.antt =====
-- modules/orders/application/use-cases/order.use-cases.ts and
-- modules/orders/application/services/order-boundary.service.ts. The fingerprint of a request and the
-- reader of products are parameters: the first is `Commerce.Fingerprint` at a hash, the second
-- belongs to the products module.
pub mod Retry
pub mod Pricing
use agrilink_backend.Base.{
  ℕ, Bool, true, false, ◌&&◌, ◌||◌, not, Option, none, some, List, [], ◌∷◌, map, Result, ok, err,
  commerce_not_found, commerce_conflict, commerce_input, commerce_forbidden, Text, codes, ◌==◌,
  if◌then◌else◌,
}
use agrilink_backend.Base.Errors
use agrilink_backend.Base.Action.{Action, ◌>>=◌, ◌>>◌, pure, lift, or_throw, throw_if}
use agrilink_backend.Enums.{
  UserRole, farmer, cooperative, supplier, same_role, CommerceActorContext,
}
use agrilink_backend.Commerce.MoneyVnd
use agrilink_backend.Commerce.MoneyVnd.{MoneyVnd}
use agrilink_backend.Commerce.Quantity
use agrilink_backend.Commerce.Fingerprint.{
  Json, null, text, opaque, number, array, object, Items, nil, cons, end, field,
}
use agrilink_backend.Orders.Status.{
  OrderStatus, OrderActor, pending, confirmed, preparing, handed_to_logistics, shipping, delivered,
  cancelled, buyer, seller, logistics, admin, same_actor,
}
use agrilink_backend.Orders.Order.{OrderItem, new_order_item, from_values, rehydrate, transition}
use agrilink_backend.Orders.Repository.{
  OrderModel, NewOrderItem, create_atomically, find_by_id, transition_atomically, list_for_buyer,
  list_for_seller,
}
use agrilink_backend.Payments.Payment.{PaymentMethod, cod, bank_transfer, manual}
use agrilink_backend.Store.{Store, Draw}

pub record ItemInput : Type 0 where
  pub product_id : ℕ
  pub quantity : Text

pub record CreateOrderInput : Type 0 where
  pub items : List ItemInput
  pub shipping_fee : Text
  pub platform_fee : Text
  pub payment_method : PaymentMethod
  pub note : Option Text

-- ProductCommerceProjection
pub record ProductProjection : Type 0 where
  pub id : ℕ
  pub seller_id : ℕ
  pub name : Text
  pub price_per_unit : Text

abbrev pub is_seller_role : UserRole → Bool
is_seller_role role = same_role role farmer || same_role role cooperative || same_role role supplier

-- `toOrderActor`
unfoldable pub to_order_actor : UserRole → Result OrderActor
to_order_actor role =
    if same_role role UserRole.buyer
    then ok buyer
    else if is_seller_role role
    then ok seller
    else if same_role role UserRole.logistics
    then ok logistics
    else if same_role role UserRole.admin
    then ok admin
    else err commerce_forbidden

-- `Promise.all(input.items.map(…))`
unfoldable pub find_all :
    (ℕ → Result (Option ProductProjection))
    → List ItemInput
    → Result (List (Option ProductProjection))
find_all find [] = ok []
find_all find (input ∷ inputs) =
    Errors.◌>>=◌ (find input.product_id)
      (λ product. Errors.map_ok (λ rest. product ∷ rest) (find_all find inputs))

-- `projections.some((product) => product === null)`, and the projections that are not null
abbrev pub has_null : List (Option ProductProjection) → Bool
has_null [] = false
has_null (none ∷ rest) = true
has_null (some p ∷ rest) = has_null rest

abbrev pub not_null : List (Option ProductProjection) → List ProductProjection
not_null [] = []
not_null (none ∷ rest) = not_null rest
not_null (some p ∷ rest) = p ∷ not_null rest

abbrev pub has_other_seller : ℕ → List ProductProjection → Bool
has_other_seller seller_id [] = false
has_other_seller seller_id (p ∷ rest) =
    not (p.seller_id == seller_id) || has_other_seller seller_id rest

-- `products.map((product, index) => new OrderItem(…))`: the two lists have one length.
unfoldable pub build_items : List ProductProjection → List ItemInput → Result (List OrderItem)
unfolding new_order_item
build_items [] inputs = ok []
build_items (p ∷ products) [] = ok []
build_items (p ∷ products) (input ∷ inputs) =
    Errors.◌>>=◌ (Quantity.parse input.quantity) (λ quantity.
      Errors.◌>>=◌ (MoneyVnd.parse p.price_per_unit) (λ price.
        Errors.◌>>=◌ (new_order_item p.id p.name quantity price none)
          (λ item. Errors.map_ok (λ items. item ∷ items) (build_items products inputs))))

-- `items.reduce((total, item) => total.add(item.lineTotal), MoneyVnd.parse('0'))`
unfoldable pub sum_items : MoneyVnd → List OrderItem → MoneyVnd
unfolding MoneyVnd.add
sum_items total [] = total
sum_items total (item ∷ items) = sum_items (MoneyVnd.add total item.line_total) items

abbrev pub item_input : OrderItem → NewOrderItem
item_input item = record {
  product_id = item.product_id;
  product_name = item.product_name;
  quantity = Quantity.to_string item.quantity;
  unit_price = MoneyVnd.to_string item.unit_price;
  line_total = MoneyVnd.to_string item.line_total;
}

abbrev pub json_items : List OrderItem → Items
json_items [] = nil
json_items (item ∷ items) =
    cons
      (object (
        field (codes "productId") (opaque item.product_id) (
          field (codes "quantity") (text (Quantity.to_string item.quantity))
            (field (codes "unitPrice") (text (MoneyVnd.to_string item.unit_price)) end))))
      (json_items items)

abbrev pub json_note : Option Text → Json
json_note none = null
json_note (some s) = text s

abbrev pub method_text : PaymentMethod → Text
method_text cod = codes "cod"
method_text bank_transfer = codes "bank_transfer"
method_text manual = codes "manual"

abbrev pub status_text : OrderStatus → Text
status_text pending = codes "pending"
status_text confirmed = codes "confirmed"
status_text preparing = codes "preparing"
status_text handed_to_logistics = codes "handed_to_logistics"
status_text shipping = codes "shipping"
status_text delivered = codes "delivered"
status_text cancelled = codes "cancelled"

-- `payload` of `CreateOrderUseCase`: the input, with the seller, and with the items given anew.
abbrev pub create_payload : CreateOrderInput → ℕ → List OrderItem → Json
create_payload input seller_id items = object (
    field (codes "items") (array (json_items items)) (
      field (codes "shippingFee") (text input.shipping_fee) (
        field (codes "platformFee") (text input.platform_fee) (
          field (codes "paymentMethod") (text (method_text input.payment_method)) (
            field (codes "note") (json_note input.note)
              (field (codes "sellerId") (opaque seller_id) end))))))

pub record TransitionRequest : Type 0 where
  pub order_id : ℕ
  pub to_status : OrderStatus
  pub expected_version : ℕ
  pub note : Option Text

abbrev pub transition_payload : TransitionRequest → Json
transition_payload input = object (
    field (codes "orderId") (opaque input.order_id) (
      field (codes "toStatus") (text (status_text input.to_status)) (
        field (codes "expectedVersion") (number input.expected_version)
          (field (codes "note") (json_note input.note) end))))

-- What `CreateOrderUseCase` has worked out when it calls the repository.
pub record PricedOrder : Type 0 where
  pub seller_id : ℕ
  pub items : List OrderItem
  pub subtotal : MoneyVnd
  pub shipping_fee : MoneyVnd
  pub platform_fee : MoneyVnd
  pub total_amount : MoneyVnd

-- The prices of an order for the products of one seller.
unfoldable pub price_order : ℕ → CreateOrderInput → ℕ → List ProductProjection → Result PricedOrder
unfolding build_items sum_items MoneyVnd.add from_values
price_order buyer_id input seller_id products =
    Errors.◌>>=◌ (build_items products input.items) (λ items.
      Errors.◌>>=◌ (MoneyVnd.parse (codes "0")) (λ start.
        let subtotal = sum_items start items in
        Errors.◌>>=◌ (MoneyVnd.parse input.shipping_fee) (λ shipping_fee.
          Errors.◌>>=◌ (MoneyVnd.parse input.platform_fee) (λ platform_fee.
            let total_amount = MoneyVnd.add (MoneyVnd.add subtotal shipping_fee) platform_fee in
            Errors.map_ok
              (λ _. record {
                seller_id = seller_id;
                items = items;
                subtotal = subtotal;
                shipping_fee = shipping_fee;
                platform_fee = platform_fee;
                total_amount = total_amount;
              })
              (from_values buyer_id seller_id subtotal shipping_fee platform_fee total_amount
                pending)))))

-- The checks of the seller; the list is not empty, as `input.items` is not.
unfoldable pub check_products : ℕ → CreateOrderInput → List ProductProjection → Result PricedOrder
unfolding price_order
check_products buyer_id input [] = err commerce_input
check_products buyer_id input (p ∷ rest) =
    if has_other_seller p.seller_id (p ∷ rest)
    then err commerce_input
    else if p.seller_id == buyer_id
    then err commerce_input
    else price_order buyer_id input p.seller_id (p ∷ rest)

abbrev pub is_empty_list : List ItemInput → Bool
is_empty_list [] = true
is_empty_list (x ∷ xs) = false

-- OrderBoundaryService.findForPayment
pub record OrderPaymentProjection : Type 0 where
  pub id : ℕ
  pub buyer_id : ℕ
  pub seller_id : ℕ
  pub total_amount : Text
  pub status : OrderStatus

unfoldable pub find_for_payment : ℕ → Action Store (Option OrderPaymentProjection)
unfolding find_by_id
find_for_payment order_id = do
  order ← find_by_id order_id
  pure (elim order [
    | none ↦ none
    | some model ↦ some (record {
      id = model.id;
      buyer_id = model.buyer_id;
      seller_id = model.seller_id;
      total_amount = model.total_amount;
      status = model.status;
    })
  ])

-- GetOrderUseCase
unfoldable pub get_order : CommerceActorContext → ℕ → Action Store OrderModel
unfolding find_by_id
get_order actor id = do
  found ← find_by_id id
  order ← or_throw found commerce_not_found
  throw_if
      (not (
        order.buyer_id == actor.id
        || order.seller_id == actor.id
        || same_role actor.role UserRole.admin
        || same_role actor.role UserRole.logistics))
      commerce_forbidden
  pure order

-- ListBuyerOrdersUseCase
unfoldable pub list_buyer_orders : CommerceActorContext → Action Store (List OrderModel)
unfolding list_for_buyer
list_buyer_orders actor = do
  throw_if (not (same_role actor.role UserRole.buyer)) commerce_forbidden
  list_for_buyer actor.id

-- ListSellerOrdersUseCase
unfoldable pub list_seller_orders : CommerceActorContext → Action Store (List OrderModel)
unfolding list_for_seller
list_seller_orders actor = do
  throw_if (not (is_seller_role actor.role)) commerce_forbidden
  list_for_seller actor.id

module _ (fingerprint : Text → ℕ → Json → ℕ) where
  -- CreateOrderUseCase
  unfoldable pub create_order :
      (ℕ → Result (Option ProductProjection))
      → Draw
      → ℕ
      → CommerceActorContext
      → CreateOrderInput
      → ℕ
      → Action Store OrderModel
  unfolding find_all check_products
  create_order find_commerce_product draw order_code actor input operation_key = do
    throw_if (not (same_role actor.role UserRole.buyer)) commerce_forbidden
    throw_if (is_empty_list input.items) commerce_input
    projections ← lift (find_all find_commerce_product input.items)
    throw_if (has_null projections) commerce_not_found
    priced ← lift (check_products actor.id input (not_null projections))
    create_atomically draw (record {
      order_code = order_code;
      buyer_id = actor.id;
      seller_id = priced.seller_id;
      subtotal = MoneyVnd.to_string priced.subtotal;
      shipping_fee = MoneyVnd.to_string priced.shipping_fee;
      platform_fee = MoneyVnd.to_string priced.platform_fee;
      total_amount = MoneyVnd.to_string priced.total_amount;
      payment_method = input.payment_method;
      shipping_address_id = none;
      note = input.note;
      items = map item_input priced.items;
      operation_key = operation_key;
      request_fingerprint =
          fingerprint (codes "create-order") actor.id
            (create_payload input priced.seller_id priced.items);
    })

  -- TransitionOrderStatusUseCase
  unfoldable pub transition_order :
      Draw → CommerceActorContext → TransitionRequest → ℕ → Action Store OrderModel
  unfolding find_by_id to_order_actor
  transition_order draw actor input operation_key = do
    found ← find_by_id input.order_id
    current ← or_throw found commerce_not_found
    domain_actor ← lift (to_order_actor actor.role)
    domain ← lift (
        rehydrate (record {
          id = current.id;
          order_code = current.order_code;
          buyer_id = current.buyer_id;
          seller_id = current.seller_id;
          status = current.status;
          subtotal = current.subtotal;
          shipping_fee = current.shipping_fee;
          platform_fee = current.platform_fee;
          total_amount = current.total_amount;
          version = current.version;
        }))
    throw_if
        ((same_actor domain_actor buyer && not (current.buyer_id == actor.id))
          || (same_actor domain_actor seller && not (current.seller_id == actor.id)))
        commerce_forbidden
    lift (transition input.to_status domain_actor domain)
    result ← transition_atomically draw (record {
      order_id = input.order_id;
      actor_id = actor.id;
      actor = domain_actor;
      expected_version = input.expected_version;
      to_status = input.to_status;
      operation_key = operation_key;
      request_fingerprint =
          fingerprint (codes "transition-order") actor.id (transition_payload input);
      note = input.note;
    })
    or_throw result commerce_conflict
