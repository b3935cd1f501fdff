-- ===== src/Payments/UseCases.antt =====
-- modules/payments/application/use-cases/payment.use-cases.ts. The fingerprint of a request is a
-- parameter: `Commerce.Fingerprint` at a hash.
pub mod Retry
use agrilink_backend.Base.{
  ℕ, ◌&&◌, not, commerce_not_found, commerce_conflict, commerce_forbidden, Text, codes, ◌==◌,
  if◌then◌else◌,
}
use agrilink_backend.Base.Action.{Action, ◌>>=◌, ◌>>◌, lift, or_throw, throw_if}
use agrilink_backend.Enums.{UserRole, same_role, CommerceActorContext}
use agrilink_backend.Commerce.MoneyVnd
use agrilink_backend.Commerce.Fingerprint.{Json, text, opaque, number, object, end, field}
use agrilink_backend.Orders.UseCases.{is_seller_role, method_text, find_for_payment}
use agrilink_backend.Payments.Payment.{
  PaymentMethod, seller, admin, is_admin, Payment, new_payment, rehydrate, mark_paid, refund,
}
use agrilink_backend.Payments.Repository.{
  PaymentModel, create_atomically, find_by_id, find_by_order_id, mark_paid_atomically,
  refund_atomically,
}
use agrilink_backend.Store.{Store, Draw}

-- `Payment.rehydrate(payment)` on a model
unfoldable pub model_to_domain : PaymentModel → Action Store Payment
unfolding rehydrate
model_to_domain model = lift (
    rehydrate (record {
      order_id = model.order_id;
      amount = model.amount;
      method = model.method;
      status = model.status;
      refunded_amount = model.refunded_amount;
    }))

-- GetPaymentByOrderUseCase
unfoldable pub get_payment_by_order : CommerceActorContext → ℕ → Action Store PaymentModel
unfolding find_for_payment find_by_order_id
get_payment_by_order actor order_id = do
  found ← find_for_payment order_id
  order ← or_throw found commerce_not_found
  throw_if
      (not (order.buyer_id == actor.id)
        && not (order.seller_id == actor.id)
        && not (same_role actor.role UserRole.admin))
      commerce_forbidden
  payment ← find_by_order_id order_id
  or_throw payment commerce_not_found

module _ (fingerprint : Text → ℕ → Json → ℕ) where
  -- CreateManualPaymentUseCase
  unfoldable pub create_manual_payment :
      Draw → CommerceActorContext → ℕ → PaymentMethod → ℕ → Action Store PaymentModel
  unfolding find_for_payment new_payment
  create_manual_payment draw actor order_id method operation_key = do
    throw_if (not (same_role actor.role UserRole.buyer)) commerce_forbidden
    found ← find_for_payment order_id
    order ← or_throw found commerce_not_found
    throw_if (not (order.buyer_id == actor.id)) commerce_forbidden
    amount ← lift (MoneyVnd.parse order.total_amount)
    lift (new_payment order.id amount method amount)
    create_atomically draw (record {
      order_id = order.id;
      actor_id = actor.id;
      amount = MoneyVnd.to_string amount;
      method = method;
      operation_key = operation_key;
      request_fingerprint = fingerprint (codes "create-payment") actor.id (
          object (
            field (codes "orderId") (opaque order_id)
              (field (codes "method") (text (method_text method)) end)));
    })

  -- MarkPaymentPaidUseCase
  unfoldable pub mark_payment_paid :
      Draw → CommerceActorContext → ℕ → ℕ → ℕ → Action Store PaymentModel
  unfolding find_by_id find_for_payment model_to_domain
  mark_payment_paid draw actor payment_id expected_version operation_key = do
    found ← find_by_id payment_id
    payment ← or_throw found commerce_not_found
    order_found ← find_for_payment payment.order_id
    order ← or_throw order_found commerce_not_found
    throw_if (not (same_role actor.role UserRole.admin) && not (is_seller_role actor.role))
        commerce_forbidden
    let payment_actor = if same_role actor.role UserRole.admin then admin else seller
    throw_if (not (is_admin payment_actor) && not (order.seller_id == actor.id)) commerce_forbidden
    domain ← model_to_domain payment
    lift (mark_paid payment_actor domain)
    result ← mark_paid_atomically draw (record {
      payment_id = payment_id;
      actor_id = actor.id;
      actor = payment_actor;
      expected_version = expected_version;
      operation_key = operation_key;
      request_fingerprint = fingerprint (codes "mark-payment-paid") actor.id (
          object (
            field (codes "paymentId") (opaque payment_id)
              (field (codes "expectedVersion") (number expected_version) end)));
    })
    or_throw result commerce_conflict

  -- RefundPaymentUseCase
  unfoldable pub refund_payment :
      Draw → CommerceActorContext → ℕ → Text → ℕ → ℕ → Action Store PaymentModel
  unfolding find_by_id model_to_domain
  refund_payment draw actor payment_id amount expected_version operation_key = do
    throw_if (not (same_role actor.role UserRole.admin)) commerce_forbidden
    found ← find_by_id payment_id
    payment ← or_throw found commerce_not_found
    domain ← model_to_domain payment
    money ← lift (MoneyVnd.parse amount)
    lift (refund money admin domain)
    result ← refund_atomically draw (record {
      payment_id = payment_id;
      actor_id = actor.id;
      amount = amount;
      expected_version = expected_version;
      operation_key = operation_key;
      request_fingerprint = fingerprint (codes "refund-payment") actor.id (
          object (
            field (codes "paymentId") (opaque payment_id) (
              field (codes "amount") (text amount)
                (field (codes "expectedVersion") (number expected_version) end))));
    })
    or_throw result commerce_conflict
