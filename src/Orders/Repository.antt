-- ===== src/Orders/Repository.antt =====
-- TypeOrmOrderRepository
-- (modules/orders/infrastructure/persistence/repositories/typeorm-order.repository.ts), the mapper
-- beside it, and the models that it exchanges with the use cases.
pub mod Updates
pub mod Replay
pub mod History
pub mod Winner
pub mod Purchases
use agrilink_backend.Base.{
  ℕ, suc, ◌+◌, Bool, true, false, ◌&&◌, ◌||◌, not, Option, none, some, List, [], ◌∷◌, ◌++◌, map,
  Result, ok, err, order_authorization, commerce_not_found, unique_violation, commerce_conflict,
  Text, length, ltb, ◌==◌, if◌then◌else◌,
}
use agrilink_backend.Base.Action.{Action, ◌>>=◌, ◌>>◌, pure, gets, lift, or_throw, throw_if, modify}
use agrilink_backend.Base.Table.{find_one, select, update_where, count_where}
use agrilink_backend.Base.Sort.{sort_by}
use agrilink_backend.Commerce.Operations.{OperationKey, idempotent, complete}
use agrilink_backend.Orders.Status.{
  OrderStatus, OrderActor, pending, delivered, buyer, seller, same_status, same_actor,
}
use agrilink_backend.Orders.Order.{Order, rehydrate, transition}
use agrilink_backend.Payments.Payment.{PaymentMethod}
use agrilink_backend.Store.{
  Store, OrderRow, OrderItemRow, HistoryRow, Draw, create_order, transition_order,
}

pub record OrderItemModel : Type 0 where
  pub id : ℕ
  pub product_id : ℕ
  pub product_name : Text
  pub quantity : Text
  pub unit_price : Text
  pub line_total : Text

pub record OrderModel : Type 0 where
  pub id : ℕ
  pub order_code : ℕ
  pub buyer_id : ℕ
  pub seller_id : ℕ
  pub status : OrderStatus
  pub subtotal : Text
  pub shipping_fee : Text
  pub platform_fee : Text
  pub total_amount : Text
  pub payment_method : PaymentMethod
  pub version : ℕ
  pub items : List OrderItemModel
  pub created_at : ℕ
  pub updated_at : ℕ

-- `Omit<OrderItemModel, 'id'>`
pub record NewOrderItem : Type 0 where
  pub product_id : ℕ
  pub product_name : Text
  pub quantity : Text
  pub unit_price : Text
  pub line_total : Text

pub record CreateOrderRepositoryInput : Type 0 where
  pub order_code : ℕ
  pub buyer_id : ℕ
  pub seller_id : ℕ
  pub subtotal : Text
  pub shipping_fee : Text
  pub platform_fee : Text
  pub total_amount : Text
  pub payment_method : PaymentMethod
  pub shipping_address_id : Option ℕ
  pub note : Option Text
  pub items : List NewOrderItem
  pub operation_key : ℕ
  pub request_fingerprint : ℕ

pub record TransitionInput : Type 0 where
  pub order_id : ℕ
  pub actor_id : ℕ
  pub actor : OrderActor
  pub expected_version : ℕ
  pub to_status : OrderStatus
  pub operation_key : ℕ
  pub request_fingerprint : ℕ
  pub note : Option Text

-- OrderPersistenceMapper.toDomain
unfoldable pub to_domain : OrderRow → Result Order
unfolding rehydrate
to_domain r = rehydrate (record {
  id = r.id;
  order_code = r.order_code;
  buyer_id = r.buyer_id;
  seller_id = r.seller_id;
  status = r.status;
  subtotal = r.subtotal;
  shipping_fee = r.shipping_fee;
  platform_fee = r.platform_fee;
  total_amount = r.total_amount;
  version = r.version;
})

abbrev pub to_item_model : OrderItemRow → OrderItemModel
to_item_model item = record {
  id = item.id;
  product_id = item.product_id;
  product_name = item.product_name;
  quantity = item.quantity;
  unit_price = item.unit_price;
  line_total = item.line_total;
}

-- OrderPersistenceMapper.toModel
abbrev pub to_model : OrderRow → List OrderItemRow → OrderModel
to_model r items = record {
  id = r.id;
  order_code = r.order_code;
  buyer_id = r.buyer_id;
  seller_id = r.seller_id;
  status = r.status;
  subtotal = r.subtotal;
  shipping_fee = r.shipping_fee;
  platform_fee = r.platform_fee;
  total_amount = r.total_amount;
  payment_method = r.payment_method;
  version = r.version;
  items = map to_item_model items;
  created_at = r.created_at;
  updated_at = r.updated_at;
}

-- `createdAt ASC, id ASC`
abbrev pub item_before : OrderItemRow → OrderItemRow → Bool
item_before a b = ltb a.created_at b.created_at || (a.created_at == b.created_at && ltb a.id b.id)

-- `createdAt DESC, id DESC`
abbrev pub order_before : OrderRow → OrderRow → Bool
order_before a b = ltb b.created_at a.created_at || (a.created_at == b.created_at && ltb b.id a.id)

abbrev pub items_of : ℕ → Store → List OrderItemRow
items_of id s =
    sort_by item_before (select (λ (item : OrderItemRow). item.order_id == id) s.order_items)

unfoldable pub find_by_id : ℕ → Action Store (Option OrderModel)
find_by_id id = gets (λ s. elim (find_one (λ (r : OrderRow). r.id == id) s.orders) [
  | none ↦ none
  | some r ↦ some (to_model r (items_of id s))
])

-- `orders.create` and `save`: the columns with a default get it.
abbrev pub new_row : Draw → CreateOrderRepositoryInput → OrderRow
new_row draw input = record {
  id = draw.id;
  order_code = input.order_code;
  buyer_id = input.buyer_id;
  seller_id = input.seller_id;
  status = pending;
  subtotal = input.subtotal;
  shipping_fee = input.shipping_fee;
  platform_fee = input.platform_fee;
  total_amount = input.total_amount;
  payment_method = input.payment_method;
  shipping_address_id = input.shipping_address_id;
  note = input.note;
  cancelled_reason = none;
  delivered_at = none;
  version = 1;
  created_at = draw.now;
  updated_at = draw.now;
}

unfoldable pub new_item_rows : Draw → ℕ → List NewOrderItem → List OrderItemRow
new_item_rows draw n [] = []
new_item_rows draw n (item ∷ items) =
    record {
      id = draw.item_id n;
      order_id = draw.id;
      product_id = item.product_id;
      product_name = item.product_name;
      quantity = item.quantity;
      unit_price = item.unit_price;
      line_total = item.line_total;
      created_at = draw.now;
    }
    ∷ new_item_rows draw (n + 1) items

abbrev pub is_taken : {A : Type 0} → Option A → Bool
is_taken none = false
is_taken (some a) = true

-- Inserts into the orders, whose codes are unique, and into the history, where order and operation
-- key are.
abbrev pub insert_order : OrderRow → Action Store (Unit {0})
insert_order row = do
  twin ← gets (λ s. find_one (λ (r : OrderRow). r.order_code == row.order_code) s.orders)
  throw_if (is_taken twin) unique_violation
  modify (λ s. record s { orders = s.orders ++ row ∷ [] })

abbrev pub same_operation : HistoryRow → HistoryRow → Bool
same_operation a b = b.order_id == a.order_id && b.operation_key == a.operation_key

abbrev pub insert_history : HistoryRow → Action Store (Unit {0})
insert_history row = do
  twin ← gets (λ s. find_one (same_operation row) s.order_history)
  throw_if (is_taken twin) unique_violation
  modify (λ s. record s { order_history = s.order_history ++ row ∷ [] })

unfoldable pub create_body : Draw → CreateOrderRepositoryInput → ℕ → Action Store OrderModel
create_body draw input operation_id = do
  let order = new_row draw input
  let items = new_item_rows draw 0 input.items
  insert_order order
  modify (λ s. record s { order_items = s.order_items ++ items })
  insert_history (record {
    order_id = order.id;
    from_status = none;
    to_status = pending;
    changed_by = input.buyer_id;
    note = none;
    operation_key = input.operation_key;
  })
  complete operation_id order.id order.id
  pure (to_model order items)

unfoldable pub create_atomically : Draw → CreateOrderRepositoryInput → Action Store OrderModel
create_atomically draw input =
    idempotent (λ model. model) find_by_id draw.operation_id
      (record {
        actor_id = input.buyer_id;
        operation_type = create_order;
        idempotency_key = input.operation_key;
        request_fingerprint = input.request_fingerprint;
      })
      (create_body draw input)

-- WHERE id = :id AND version = :version AND status = :status
abbrev pub is_current : ℕ → ℕ → OrderStatus → OrderRow → Bool
is_current id version status r = r.id == id && r.version == version && same_status r.status status

abbrev pub set_status : ℕ → OrderStatus → Option ℕ → OrderRow → OrderRow
set_status now status delivered_at r = record r {
  status = status;
  version = r.version + 1;
  delivered_at = delivered_at;
  updated_at = now;
}

unfoldable pub transition_body : Draw → TransitionInput → ℕ → Action Store (Option OrderModel)
transition_body draw input operation_id = do
  found ← gets (λ s. find_one (λ (r : OrderRow). r.id == input.order_id) s.orders)
  entity ← or_throw found commerce_not_found
  throw_if
      ((same_actor input.actor buyer && not (entity.buyer_id == input.actor_id))
        || (same_actor input.actor seller && not (entity.seller_id == input.actor_id)))
      order_authorization
  domain ← lift (to_domain entity)
  next ← lift (transition input.to_status input.actor domain)
  affected ←
      gets (λ s. count_where (is_current entity.id input.expected_version domain.status) s.orders)
  modify (λ s. record s {
    orders =
        update_where (is_current entity.id input.expected_version domain.status)
          (set_status draw.now next.status
            (if same_status next.status delivered then some draw.now else entity.delivered_at))
          s.orders;
  })
  throw_if (not (affected == 1)) commerce_conflict
  insert_history (record {
    order_id = entity.id;
    from_status = some domain.status;
    to_status = next.status;
    changed_by = input.actor_id;
    note = input.note;
    operation_key = input.operation_key;
  })
  complete operation_id entity.id entity.id
  find_by_id entity.id

unfoldable pub transition_atomically : Draw → TransitionInput → Action Store (Option OrderModel)
transition_atomically draw input =
    idempotent some find_by_id draw.operation_id
      (record {
        actor_id = input.actor_id;
        operation_type = transition_order;
        idempotency_key = input.operation_key;
        request_fingerprint = input.request_fingerprint;
      })
      (transition_body draw input)

-- `list({ buyerId })` and `list({ sellerId })`
abbrev pub list_where : (OrderRow → Bool) → Store → List OrderModel
list_where p s =
    map (λ (r : OrderRow). to_model r (items_of r.id s)) (sort_by order_before (select p s.orders))

unfoldable pub list_for_buyer : ℕ → Action Store (List OrderModel)
list_for_buyer buyer_id = gets (list_where (λ r. r.buyer_id == buyer_id))

unfoldable pub list_for_seller : ℕ → Action Store (List OrderModel)
list_for_seller seller_id = gets (list_where (λ r. r.seller_id == seller_id))

abbrev pub has_item : ℕ → List OrderItemRow → OrderRow → Bool
has_item product_id items r = ltb 0 (
    count_where (λ (item : OrderItemRow). item.order_id == r.id && item.product_id == product_id)
      items)

-- `getCount` over the inner join: the orders that the query selects, each once.
abbrev pub is_purchase : ℕ → ℕ → List OrderItemRow → OrderRow → Bool
is_purchase buyer_id product_id items r =
    r.buyer_id == buyer_id && same_status r.status delivered && has_item product_id items r

unfoldable pub has_completed_purchase : ℕ → ℕ → Action Store Bool
has_completed_purchase buyer_id product_id =
    gets (λ s. ltb 0 (count_where (is_purchase buyer_id product_id s.order_items) s.orders))
