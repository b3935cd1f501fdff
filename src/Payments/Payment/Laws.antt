-- ===== src/Payments/Payment/Laws.antt =====
-- When a payment may be marked as paid or refunded, and what a refund makes of it.
use agrilink_backend.Base.{
  ◌+◌, ◌≤◌, ◌<◌, ◌≡◌, ◌≢◌, ◌↔◌, ◌⊎◌, inl, inr, ap, ◌∙◌, Error, Result-cases, ok, err,
  payment_domain, arith,
}
use agrilink_backend.Commerce.MoneyVnd.{MoneyVnd}
use agrilink_backend.Payments.Payment.{
  unpaid, paid, partially_refunded, refunded, PaymentActor, admin, Payment, mark_paid, refund,
}

abbrev pub IsRefundable : MoneyVnd → PaymentActor → Payment → Type 0
IsRefundable a actor p =
    (actor ≡ admin)
    × ((p.status ≡ paid) ⊎ (p.status ≡ partially_refunded))
    × (0 < a.value)
    × (p.refunded_amount.value + a.value ≤ p.amount.value)

-- A refund that succeeds was allowed, raises the refunded amount by exactly what was asked for, and
-- leaves the payment refunded if all of it has gone back, partially refunded if not.
pub refund_sound :
    (a : MoneyVnd) (actor : PaymentActor) (p next : Payment)
    → refund a actor p ≡ ok next
    → IsRefundable a actor p
      × (next.amount ≡ p.amount)
      × (next.refunded_amount.value ≡ p.refunded_amount.value + a.value)
      × (((next.status ≡ refunded) × (next.refunded_amount.value ≡ p.amount.value))
          ⊎ ((next.status ≡ partially_refunded) × (next.refunded_amount.value < p.amount.value)))
unfolding refund
refund_sound a actor p next h = (ground arith, ground arith, ground arith, ground arith)

refund_error :
    (a : MoneyVnd) (actor : PaymentActor) (p : Payment) (e : Error)
    → refund a actor p ≡ err e
    → e ≡ payment_domain
unfolding refund
refund_error a actor p e h = ground arith

refund_complete :
    (a : MoneyVnd) (actor : PaymentActor) (p : Payment)
    → IsRefundable a actor p
    → refund a actor p ≢ err payment_domain
unfolding refund
refund_complete a actor p h = ground arith

-- A refund is refused, with the payment error, exactly when the actor is no administrator, the
-- payment is not paid, nothing is refunded, or more than the rest would be.
pub refund_refused :
    (a : MoneyVnd) (actor : PaymentActor) (p : Payment)
    → (refund a actor p ≡ err payment_domain) ↔ (¬ IsRefundable a actor p)
refund_refused a actor p = (λ h ok_to. refund_complete a actor p ok_to h, λ h. refused h)
  where
    refused : ¬ IsRefundable a actor p → refund a actor p ≡ err payment_domain
    refused h = elim (Result-cases (refund a actor p)) [
      | inl (e, failed) ↦ failed ∙ ap err (refund_error a actor p e failed)
      | inr (next, done) ↦ absurd (h (refund_sound a actor p next done).0)
    ]

pub mark_paid_sound :
    (actor : PaymentActor) (p next : Payment)
    → mark_paid actor p ≡ ok next
    → (p.status ≡ unpaid) × (next.status ≡ paid)
unfolding mark_paid
mark_paid_sound actor p next h = (ground arith, ground arith)
