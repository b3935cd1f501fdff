-- ===== src/Orders/Order/Laws.antt =====
-- What an order that is loaded, priced or moved looks like.
use agrilink_backend.Base.{true, ◌≡◌, ok, arith}
use agrilink_backend.Orders.Status.{
  OrderStatus, OrderActor, transitions, includes, assert_order_transition,
}
use agrilink_backend.Orders.Order.{Order, OrderValues, rehydrate, transition}

pub transition_sound :
    (to : OrderStatus) (actor : OrderActor) (o next : Order)
    → transition to actor o ≡ ok next
    → (includes (transitions o.status) to ≡ true)
      × (assert_order_transition o.status to actor ≡ ok tt)
      × (next.status ≡ to)
unfolding transition assert_order_transition
transition_sound to actor o next h = (ground arith, ground arith, ground arith)

pub rehydrate-status : (v : OrderValues) (o : Order) → rehydrate v ≡ ok o → o.status ≡ v.status
unfolding rehydrate
rehydrate-status v o h = ground arith
