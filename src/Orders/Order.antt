-- ===== src/Orders/Order.antt =====
-- modules/orders/domain/order.ts and order-item.ts.
pub mod Laws
use agrilink_backend.Base.{
  ℕ, Option, none, some, Result, ok, err, order_invariant, Text, ◌==◌, if◌then◌else◌,
}
use agrilink_backend.Base.Errors.{◌>>=◌, ◌>>◌}
use agrilink_backend.Commerce.MoneyVnd
use agrilink_backend.Commerce.MoneyVnd.{MoneyVnd}
use agrilink_backend.Commerce.Quantity.{Quantity}
use agrilink_backend.Orders.Status.{OrderStatus, OrderActor, assert_order_transition}

pub record OrderItem : Type 0 where
  pub product_id : ℕ
  pub product_name : Text
  pub quantity : Quantity
  pub unit_price : MoneyVnd
  pub line_total : MoneyVnd

-- `lineTotal ?? calculated`, refused where the two differ
abbrev pub line_total_or : Option MoneyVnd → MoneyVnd → Result MoneyVnd
line_total_or none calculated = ok calculated
line_total_or (some given) calculated =
    if given.value == calculated.value then ok given else err order_invariant

-- `new OrderItem`
unfoldable pub new_order_item : ℕ → Text → Quantity → MoneyVnd → Option MoneyVnd → Result OrderItem
new_order_item product_id product_name quantity unit_price line_total = do
  calculated ← MoneyVnd.multiply unit_price quantity
  total ← line_total_or line_total calculated
  ok (record {
    product_id = product_id;
    product_name = product_name;
    quantity = quantity;
    unit_price = unit_price;
    line_total = total;
  })

pub record Order : Type 0 where
  pub id : Option ℕ
  pub order_code : Option ℕ
  pub buyer_id : ℕ
  pub seller_id : ℕ
  pub status : OrderStatus
  pub subtotal : MoneyVnd
  pub shipping_fee : MoneyVnd
  pub platform_fee : MoneyVnd
  pub total_amount : MoneyVnd
  pub version : ℕ

-- the test of the private constructor
unfoldable pub new_order : Order → Result Order
unfolding MoneyVnd.add
new_order o =
    if (MoneyVnd.add (MoneyVnd.add o.subtotal o.shipping_fee) o.platform_fee).value
      == o.total_amount.value
    then ok o
    else err order_invariant

-- The fields of a row or of a model that `rehydrate` reads.
pub record OrderValues : Type 0 where
  pub id : ℕ
  pub order_code : ℕ
  pub buyer_id : ℕ
  pub seller_id : ℕ
  pub status : OrderStatus
  pub subtotal : Text
  pub shipping_fee : Text
  pub platform_fee : Text
  pub total_amount : Text
  pub version : ℕ

-- An amount that does not parse, or a total that does not add up, throws.
unfoldable pub rehydrate : OrderValues → Result Order
unfolding new_order
rehydrate input = do
  subtotal ← MoneyVnd.parse input.subtotal
  shipping_fee ← MoneyVnd.parse input.shipping_fee
  platform_fee ← MoneyVnd.parse input.platform_fee
  total_amount ← MoneyVnd.parse input.total_amount
  new_order (record {
    id = some input.id;
    order_code = some input.order_code;
    buyer_id = input.buyer_id;
    seller_id = input.seller_id;
    status = input.status;
    subtotal = subtotal;
    shipping_fee = shipping_fee;
    platform_fee = platform_fee;
    total_amount = total_amount;
    version = input.version;
  })

unfoldable pub from_values :
    ℕ → ℕ → MoneyVnd → MoneyVnd → MoneyVnd → MoneyVnd → OrderStatus → Result Order
unfolding new_order
from_values buyer_id seller_id subtotal shipping_fee platform_fee total_amount status =
    new_order (record {
      id = none;
      order_code = none;
      buyer_id = buyer_id;
      seller_id = seller_id;
      status = status;
      subtotal = subtotal;
      shipping_fee = shipping_fee;
      platform_fee = platform_fee;
      total_amount = total_amount;
      version = 1;
    })

unfoldable pub transition : OrderStatus → OrderActor → Order → Result Order
transition to actor o = assert_order_transition o.status to actor >> ok (record o { status = to })
