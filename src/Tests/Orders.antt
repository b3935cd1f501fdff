-- ===== src/Tests/Orders.antt =====
-- An order that is created, confirmed, and refused a step.
use agrilink_backend.Base.{
  ℕ, ◌≡◌, ◌≢◌, refl, Option, none, some, List, [], ◌∷◌, Error, Result, ok, err, codes, ◌==◌,
  if◌then◌else◌,
}
use agrilink_backend.Base.Action.{execute}
use agrilink_backend.Base.Table.{find_one, select, update_where, count_where}
use agrilink_backend.Base.Sort.{sort_by}
use agrilink_backend.Commerce.MoneyVnd
use agrilink_backend.Commerce.Operations.{claim, replay, complete, idempotent}
use agrilink_backend.Orders.Status.{
  OrderStatus, confirmed, shipping, cancelled, buyer, seller, assert_order_transition,
}
use agrilink_backend.Orders.Order.{transition, new_order_item, from_values}
use agrilink_backend.Orders.Repository.{
  OrderModel, CreateOrderRepositoryInput, TransitionInput, find_by_id, to_domain, new_item_rows,
  create_body, create_atomically, transition_body, transition_atomically,
}
use agrilink_backend.Orders.Repository.History.{
  OrderCall, create, move, run_call, run_calls, IsJournal, run_calls-IsJournal,
}
use agrilink_backend.Orders.Repository.Winner.{transition_one_winner}
use agrilink_backend.Orders.Repository.Replay.{transition_again}
use agrilink_backend.Orders.UseCases.{
  transition_order, ProductProjection, CreateOrderInput, PricedOrder, find_all, check_products,
  price_order, build_items, sum_items,
}
use agrilink_backend.Orders.UseCases.Pricing.{IsPriced, check_products-IsPriced}
use agrilink_backend.Commerce.Quantity
use agrilink_backend.Orders.UseCases.Retry.{moved_order_refused}
use agrilink_backend.Payments.Payment.{cod}
use agrilink_backend.Enums.{farmer}
use agrilink_backend.Store.{Store}
use agrilink_backend.Tests.Data.{empty_store, draw_at}

abbrev created : CreateOrderRepositoryInput
created = record {
  order_code = 77;
  buyer_id = 1;
  seller_id = 2;
  subtotal = codes "40";
  shipping_fee = codes "0";
  platform_fee = codes "0";
  total_amount = codes "40";
  payment_method = cod;
  shipping_address_id = none;
  note = none;
  items =
      record {
        product_id = 5;
        product_name = codes "rice";
        quantity = codes "2";
        unit_price = codes "20";
        line_total = codes "40";
      }
      ∷ [];
  operation_key = 31;
  request_fingerprint = 41;
}

abbrev moved : ℕ → OrderStatus → TransitionInput
moved key to = record {
  order_id = 6;
  actor_id = 2;
  actor = seller;
  expected_version = 1;
  to_status = to;
  operation_key = key;
  request_fingerprint = 42;
  note = none;
}

-- The second step is not one of the machine, and is refused.
abbrev calls : List OrderCall
calls =
    create (draw_at 6) created
    ∷ move (draw_at 7) (moved 32 confirmed)
    ∷ move (draw_at 8) (moved 33 shipping)
    ∷ []

empty-IsJournal : IsJournal empty_store
empty-IsJournal = record { ids = tt; recorded = tt }

run_calls-IsJournal_example : IsJournal (run_calls calls empty_store)
unfolding find_one
run_calls-IsJournal_example =
    run_calls-IsJournal calls empty_store ((refl, refl), (tt, (tt, tt))) empty-IsJournal

abbrev created_store : Store
created_store = run_call (create (draw_at 6) created) empty_store

abbrev moved_store : Store
moved_store = run_call (move (draw_at 7) (moved 32 confirmed)) created_store

abbrev moved_order : OrderModel
moved_order = record {
  id = 6;
  order_code = 77;
  buyer_id = 1;
  seller_id = 2;
  status = confirmed;
  subtotal = codes "40";
  shipping_fee = codes "0";
  platform_fee = codes "0";
  total_amount = codes "40";
  payment_method = cod;
  version = 2;
  items =
      record {
        id = 1000;
        product_id = 5;
        product_name = codes "rice";
        quantity = codes "2";
        unit_price = codes "20";
        line_total = codes "40";
      }
      ∷ [];
  created_at = 5006;
  updated_at = 5007;
}

abbrev moved_model : Option OrderModel
moved_model = some moved_order

transition_again_example :
    transition_atomically (draw_at 9) (moved 32 confirmed) moved_store
    ≡ (ok moved_model, moved_store)
unfolding transition_atomically transition_body create_atomically create_body new_item_rows execute
    idempotent claim replay complete find_by_id find_one select sort_by update_where count_where
    to_domain transition assert_order_transition MoneyVnd.parse
transition_again_example =
    transition_again (draw_at 7) (draw_at 9) (moved 32 confirmed) created_store moved_store
      moved_model refl

-- The seller sends the transition that has just been made again, with its key.
moved_order_refused_example :
    (e : Error) × (transition_order
        (λ operation actor payload. 42)
        (draw_at 9)
        (record { id = 2; role = farmer })
        (record { order_id = 6; to_status = confirmed; expected_version = 1; note = none })
        32
        moved_store
      ≡ (err e, moved_store))
unfolding transition_atomically transition_body create_atomically create_body new_item_rows execute
    idempotent claim replay complete find_by_id find_one select sort_by update_where count_where
    to_domain transition assert_order_transition MoneyVnd.parse
moved_order_refused_example =
    moved_order_refused (λ operation actor payload. 42) (draw_at 9)
      (record { id = 2; role = farmer })
      (record { order_id = 6; to_status = confirmed; expected_version = 1; note = none }) 32
      moved_store moved_order refl refl

-- The buyer cancels the version that the seller has confirmed.
abbrev cancel : TransitionInput
cancel = record {
  order_id = 6;
  actor_id = 1;
  actor = buyer;
  expected_version = 1;
  to_status = cancelled;
  operation_key = 34;
  request_fingerprint = 43;
  note = none;
}

transition_one_winner_example :
    (e : Error) × (transition_atomically (draw_at 9) cancel moved_store ≡ (err e, moved_store))
unfolding transition_atomically transition_body create_atomically create_body new_item_rows execute
    idempotent claim replay complete find_by_id find_one select sort_by update_where count_where
    to_domain transition assert_order_transition MoneyVnd.parse
transition_one_winner_example =
    transition_one_winner (draw_at 7) (draw_at 9) (moved 32 confirmed) cancel created_store
      moved_store moved_model (refl, tt) refl refl refl refl refl

abbrev rice : ProductProjection
rice = record { id = 5; seller_id = 2; name = codes "rice"; price_per_unit = codes "20" }

abbrev order_input : CreateOrderInput
order_input = record {
  items = record { product_id = 5; quantity = codes "1.5" } ∷ [];
  shipping_fee = codes "7";
  platform_fee = codes "3";
  payment_method = cod;
  note = none;
}

abbrev priced_order : PricedOrder
priced_order = record {
  seller_id = 2;
  items =
      record {
        product_id = 5;
        product_name = codes "rice";
        quantity = record { thousandths = 1500 };
        unit_price = record { value = 20 };
        line_total = record { value = 30 };
      }
      ∷ [];
  subtotal = record { value = 30 };
  shipping_fee = record { value = 7 };
  platform_fee = record { value = 3 };
  total_amount = record { value = 40 };
}

abbrev rice_only : ℕ → Result (Option ProductProjection)
rice_only id = ok (if id == 5 then some rice else none)

check_products-IsPriced_example :
    IsPriced rice_only order_input priced_order × (priced_order.seller_id ≢ 1)
unfolding find_all check_products price_order build_items sum_items new_order_item from_values
    MoneyVnd.parse MoneyVnd.multiply MoneyVnd.add Quantity.parse Quantity.parse_parts
    Quantity.split_dot
check_products-IsPriced_example =
    check_products-IsPriced rice_only 1 order_input (some rice ∷ []) priced_order refl refl refl
