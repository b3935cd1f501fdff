-- ===== src/Tests/Payments.antt =====
-- A payment that is created, marked as paid, and refunded in two parts.
use agrilink_backend.Base.{
  ℕ, Error, err, ◌≡◌, ◌≢◌, none, refl, Option, some, List, [], ◌∷◌, ok, codes,
}
use agrilink_backend.Base.Action.{execute}
use agrilink_backend.Base.Table.{find_one, update_where, count_where}
use agrilink_backend.Commerce.MoneyVnd
use agrilink_backend.Commerce.Operations.{claim, replay, complete, idempotent}
use agrilink_backend.Payments.Payment.{
  cod, unpaid, seller, paid, partially_refunded, mark_paid, refund,
}
use agrilink_backend.Payments.Repository.{
  PaymentModel, CreatePaymentInput, MarkPaidInput, RefundInput, find_by_id, to_domain,
  create_atomically, create_body, mark_paid_atomically, mark_paid_body, refund_atomically,
  refund_body,
}
use agrilink_backend.Payments.Repository.Ledger.{
  PaymentCall, create, mark, give_back, run_call, run_calls, run_calls-IsLedger, IsLedger,
}
use agrilink_backend.Payments.Repository.Winner.{refund_one_winner}
use agrilink_backend.Payments.UseCases.{mark_payment_paid}
use agrilink_backend.Payments.UseCases.Retry.{marked_payment_refused}
use agrilink_backend.Enums.{farmer}
use agrilink_backend.Orders.Status.{confirmed}
use agrilink_backend.Payments.Repository.Replay.{refund_again, mark_paid_again}
use agrilink_backend.Store.{Store}
use agrilink_backend.Tests.Data.{empty_store, draw_at}

abbrev created : CreatePaymentInput
created = record {
  order_id = 7;
  actor_id = 1;
  amount = codes "50";
  method = cod;
  operation_key = 11;
  request_fingerprint = 21;
}

abbrev marked : MarkPaidInput
marked = record {
  payment_id = 1;
  actor_id = 2;
  actor = seller;
  expected_version = 1;
  operation_key = 12;
  request_fingerprint = 22;
}

abbrev back : ℕ → ℕ → RefundInput
back key version = record {
  payment_id = 1;
  actor_id = 3;
  amount = codes "25";
  expected_version = version;
  operation_key = key;
  request_fingerprint = 23;
}

-- The last refund would return more than was paid, and is refused.
abbrev calls : List PaymentCall
calls =
    create (draw_at 1) created
    ∷ mark (draw_at 2) marked
    ∷ give_back (draw_at 3) (back 13 2)
    ∷ give_back (draw_at 4) (back 14 3)
    ∷ give_back (draw_at 5) (back 15 4)
    ∷ []

empty-IsLedger : IsLedger empty_store.payments
empty-IsLedger = record { ids = tt; orders = tt; balanced = tt }

run_calls-IsLedger_example : IsLedger (run_calls calls empty_store).payments
unfolding find_one MoneyVnd.parse
run_calls-IsLedger_example =
    run_calls-IsLedger calls empty_store
      ((refl, (record { value = 50 }, refl)), (tt, (tt, (tt, (tt, tt))))) empty-IsLedger

abbrev paid_store : Store
paid_store = run_call (mark (draw_at 2) marked) (run_call (create (draw_at 1) created) empty_store)

abbrev refunded_store : Store
refunded_store = (refund_atomically (draw_at 3) (back 13 2) paid_store).1

abbrev refunded_model : Option PaymentModel
refunded_model = some (record {
  id = 1;
  order_id = 7;
  amount = codes "50";
  method = cod;
  status = partially_refunded;
  refunded_amount = codes "25";
  version = 3;
  created_at = 5001;
  updated_at = 5003;
})

refund_again_example :
    refund_atomically (draw_at 9) (back 13 2) refunded_store ≡ (ok refunded_model, refunded_store)
unfolding refund_atomically refund_body mark_paid_atomically mark_paid_body create_atomically
    create_body execute idempotent claim replay complete find_by_id find_one update_where
    count_where to_domain MoneyVnd.parse MoneyVnd.to_string mark_paid refund
refund_again_example =
    refund_again (draw_at 3) (draw_at 9) (back 13 2) paid_store refunded_store refunded_model refl

abbrev created_store : Store
created_store = run_call (create (draw_at 1) created) empty_store

abbrev paid_model : Option PaymentModel
paid_model = some (record {
  id = 1;
  order_id = 7;
  amount = codes "50";
  method = cod;
  status = paid;
  refunded_amount = codes "0";
  version = 2;
  created_at = 5001;
  updated_at = 5002;
})

mark_paid_again_example :
    mark_paid_atomically (draw_at 8) marked paid_store ≡ (ok paid_model, paid_store)
unfolding refund_atomically refund_body mark_paid_atomically mark_paid_body create_atomically
    create_body execute idempotent claim replay complete find_by_id find_one update_where
    count_where to_domain mark_paid MoneyVnd.parse
mark_paid_again_example =
    mark_paid_again (draw_at 2) (draw_at 8) marked created_store paid_store paid_model refl

-- A second administrator refunds the version that the first refund was made of.
refund_one_winner_example :
    (e : Error) × (refund_atomically (draw_at 6) (back 16 2) refunded_store
      ≡ (err e, refunded_store))
unfolding refund_atomically refund_body mark_paid_atomically mark_paid_body create_atomically
    create_body execute idempotent claim replay complete find_by_id find_one update_where
    count_where to_domain MoneyVnd.parse MoneyVnd.to_string mark_paid refund
refund_one_winner_example =
    refund_one_winner (draw_at 3) (draw_at 6) (back 13 2) (back 16 2) paid_store refunded_store
      refunded_model (refl, tt) refl refl refl refl refl

-- The store with the order of the payment.
abbrev ordered_store : Store
ordered_store = record paid_store {
  orders =
      record {
        id = 7;
        order_code = 70;
        buyer_id = 1;
        seller_id = 2;
        status = confirmed;
        subtotal = codes "50";
        shipping_fee = codes "0";
        platform_fee = codes "0";
        total_amount = codes "50";
        payment_method = cod;
        shipping_address_id = none;
        note = none;
        cancelled_reason = none;
        delivered_at = none;
        version = 2;
        created_at = 1;
        updated_at = 2;
      }
      ∷ [];
}

abbrev paid_payment : PaymentModel
paid_payment = record {
  id = 1;
  order_id = 7;
  amount = codes "50";
  method = cod;
  status = paid;
  refunded_amount = codes "0";
  version = 2;
  created_at = 5001;
  updated_at = 5002;
}

paid-ne-unpaid : paid ≢ unpaid
paid-ne-unpaid h = cc

-- The seller sends the confirmation that has just been made again, with its key.
marked_payment_refused_example :
    (e : Error) × (mark_payment_paid
        (λ operation actor payload. 22)
        (draw_at 8)
        (record { id = 2; role = farmer })
        1
        1
        12
        ordered_store
      ≡ (err e, ordered_store))
unfolding mark_paid_atomically mark_paid_body create_atomically create_body execute idempotent claim
    replay complete find_by_id find_one update_where count_where to_domain mark_paid MoneyVnd.parse
marked_payment_refused_example =
    marked_payment_refused (λ operation actor payload. 22) (draw_at 8)
      (record { id = 2; role = farmer }) 1 1 12 ordered_store paid_payment refl
      (λ same. paid-ne-unpaid same)
