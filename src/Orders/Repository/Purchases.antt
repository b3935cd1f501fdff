-- ===== src/Orders/Repository/Purchases.antt =====
-- What the query for a completed purchase tells.
use agrilink_backend.Base.{
  ℕ, ◌<◌, Bool, true, ◌&&◌, ◌≡◌, ◌↔◌, refl, List, arith, ltb, ◌==◌, ==_refl,
}
use agrilink_backend.Base.Membership.{Any, Any-map, Any-count, count-Any}
use agrilink_backend.Base.Table.{count_where}
use agrilink_backend.Orders.Repository.{is_purchase, has_item}
use agrilink_backend.Orders.Status.{
  OrderStatus, same_status, delivered, pending, confirmed, preparing, handed_to_logistics, shipping,
  cancelled,
}
use agrilink_backend.Store.{Store, OrderRow, OrderItemRow}

-- A delivered order of the buyer has an item of the product.
abbrev pub IsPurchase : ℕ → ℕ → List OrderItemRow → OrderRow → Type 0
IsPurchase buyer_id product_id items o =
    (o.buyer_id ≡ buyer_id)
    × (o.status ≡ delivered)
    × Any (λ (i : OrderItemRow). (i.order_id ≡ o.id) × (i.product_id ≡ product_id)) items

abbrev pub HasBought : ℕ → ℕ → Store → Type 0
HasBought buyer_id product_id s = Any (IsPurchase buyer_id product_id s.order_items) s.orders

abbrev is_item : ℕ → OrderRow → OrderItemRow → Bool
is_item product_id o i = i.order_id == o.id && i.product_id == product_id

abbrev IsItem : ℕ → OrderRow → OrderItemRow → Type 0
IsItem product_id o i = (i.order_id ≡ o.id) × (i.product_id ≡ product_id)

has_item_iff :
    (product_id : ℕ) (items : List OrderItemRow) (o : OrderRow)
    → (has_item product_id items o ≡ true) ↔ Any (IsItem product_id o) items
has_item_iff product_id items o = (
  λ h.
      let found = count-Any (is_item product_id o) items (ground arith) in
      Any-map (λ i. is_item product_id o i ≡ true) (IsItem product_id o)
        (λ i chosen. (ground arith, ground arith)) items found,
  λ h.
      let chosen =
        Any-map (IsItem product_id o) (λ i. is_item product_id o i ≡ true) (λ i e. ground arith)
          items h in
      let counted = Any-count (is_item product_id o) items chosen in ground arith,
)

delivered_of_same :
    (status : OrderStatus) → same_status status delivered ≡ true → status ≡ delivered
delivered_of_same delivered h = refl
delivered_of_same cancelled h = absurd (ground arith)
delivered_of_same shipping h = absurd (ground arith)
delivered_of_same handed_to_logistics h = absurd (ground arith)
delivered_of_same preparing h = absurd (ground arith)
delivered_of_same confirmed h = absurd (ground arith)
delivered_of_same pending h = absurd (ground arith)

is_purchase_iff :
    (buyer_id product_id : ℕ) (items : List OrderItemRow) (o : OrderRow)
    → (is_purchase buyer_id product_id items o ≡ true) ↔ IsPurchase buyer_id product_id items o
is_purchase_iff buyer_id product_id items o = (
  λ e. (
    ground arith,
    delivered_of_same o.status (ground arith),
    (has_item_iff product_id items o).0 (ground arith),
  ),
  λ (mine, arrived, item).
      rw (mine, arrived, ==_refl buyer_id, (has_item_iff product_id items o).1 item) refl,
)

-- The count of the query is positive exactly where there is such an order.
pub counted_iff :
    (buyer_id product_id : ℕ) (s : Store)
    → (ltb 0 (count_where (is_purchase buyer_id product_id s.order_items) s.orders) ≡ true)
      ↔ HasBought buyer_id product_id s
counted_iff buyer_id product_id s =
    let chosen : OrderRow → Bool = is_purchase buyer_id product_id s.order_items in
    let meant : OrderRow → Type 0 = IsPurchase buyer_id product_id s.order_items in
    (
      λ h.
          let found = count-Any chosen s.orders (ground arith) in
          Any-map (λ o. chosen o ≡ true) meant
            (λ o. (is_purchase_iff buyer_id product_id s.order_items o).0) s.orders found,
      λ h.
          let found =
            Any-map meant (λ o. chosen o ≡ true)
              (λ o. (is_purchase_iff buyer_id product_id s.order_items o).1) s.orders h in
          let counted : 0 < count_where chosen s.orders = Any-count chosen s.orders found in
          ground arith,
    )
