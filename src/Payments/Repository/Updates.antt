-- ===== src/Payments/Repository/Updates.antt =====
-- What the bodies of the payment operations have done when they succeed.
use agrilink_backend.Base.{
  ℕ, ◌≡◌, inl, inr, Option, none, some, [], ◌∷◌, ◌++◌, ok, arith, Option-cases, Result-cases, ◌==◌,
}
use agrilink_backend.Base.Table.{find_one, update_where, count_where}
use agrilink_backend.Commerce.MoneyVnd
use agrilink_backend.Commerce.MoneyVnd.{MoneyVnd}
use agrilink_backend.Commerce.Operations.{complete, is_started, completed_by}
use agrilink_backend.Payments.Payment.{Payment, admin, mark_paid, refund}
use agrilink_backend.Payments.Repository.{
  PaymentModel, CreatePaymentInput, MarkPaidInput, RefundInput, to_domain, to_model, new_row,
  create_body, set_paid, mark_paid_body, to_model?, find_by_id, is_current, set_refunded,
  refund_body,
}
use agrilink_backend.Store.{Store, PaymentRow, Draw}

-- A refund that succeeds has read the payment, refunded it, and written the row that it read.
pub record Refunded (draw : Draw) (input : RefundInput) (i : ℕ) (t t' : Store)
    (b : Option PaymentModel) : Type 0 where
  pub entity : PaymentRow
  pub payment : Payment
  pub amount : MoneyVnd
  pub next : Payment
  pub found : find_one (λ (r : PaymentRow). r.id == input.payment_id) t.payments ≡ some entity
  pub loaded : to_domain entity ≡ ok payment
  pub parsed : MoneyVnd.parse input.amount ≡ ok amount
  pub allowed : refund amount admin payment ≡ ok next
  pub affected :
      count_where (is_current entity.id input.expected_version entity.status) t.payments ≡ 1
  pub payments :
      t'.payments
      ≡ update_where
          (is_current entity.id input.expected_version entity.status)
          (set_refunded draw.now next.status (MoneyVnd.to_string next.refunded_amount))
          t.payments
  pub operations :
      t'.operations ≡ update_where (is_started i) (completed_by entity.id entity.id) t.operations
  pub result : b ≡ to_model? (find_one (λ (r : PaymentRow). r.id == entity.id) t'.payments)

pub refund_body-Refunded :
    (draw : Draw) (input : RefundInput) (i : ℕ) (t t' : Store) (b : Option PaymentModel)
    → refund_body draw input i t ≡ (ok b, t')
    → Refunded draw input i t t' b
unfolding refund_body complete find_by_id
refund_body-Refunded draw input i t t' b h =
    elim (Option-cases (find_one (λ (r : PaymentRow). r.id == input.payment_id) t.payments)) [
      | inl e ↦ absurd (ground arith)
      | inr (entity, found) ↦ elim (Result-cases (to_domain entity)) [
        | inl (e, loaded) ↦ absurd (ground arith)
        | inr (payment, loaded) ↦ elim (Result-cases (MoneyVnd.parse input.amount)) [
          | inl (e, parsed) ↦ absurd (ground arith)
          | inr (amount, parsed) ↦ elim (Result-cases (refund amount admin payment)) [
            | inl (e, allowed) ↦ absurd (ground arith)
            | inr (next, allowed) ↦ record {
              entity = entity;
              payment = payment;
              amount = amount;
              next = next;
              found = found;
              loaded = loaded;
              parsed = parsed;
              allowed = allowed;
              affected = ground arith;
              payments = ground arith;
              operations = ground arith;
              result = ground arith;
            }
          ]
        ]
      ]
    ]

-- A mark that succeeds has read the payment, marked it, and written the row that it read.
pub record MarkedPaid (draw : Draw) (input : MarkPaidInput) (i : ℕ) (t t' : Store)
    (b : Option PaymentModel) : Type 0 where
  pub entity : PaymentRow
  pub payment : Payment
  pub next : Payment
  pub found : find_one (λ (r : PaymentRow). r.id == input.payment_id) t.payments ≡ some entity
  pub loaded : to_domain entity ≡ ok payment
  pub allowed : mark_paid input.actor payment ≡ ok next
  pub affected :
      count_where (is_current entity.id input.expected_version entity.status) t.payments ≡ 1
  pub payments :
      t'.payments
      ≡ update_where
          (is_current entity.id input.expected_version entity.status)
          (set_paid draw.now next.status)
          t.payments
  pub operations :
      t'.operations ≡ update_where (is_started i) (completed_by entity.id entity.id) t.operations
  pub result : b ≡ to_model? (find_one (λ (r : PaymentRow). r.id == entity.id) t'.payments)

pub mark_paid_body-MarkedPaid :
    (draw : Draw) (input : MarkPaidInput) (i : ℕ) (t t' : Store) (b : Option PaymentModel)
    → mark_paid_body draw input i t ≡ (ok b, t')
    → MarkedPaid draw input i t t' b
unfolding mark_paid_body complete find_by_id
mark_paid_body-MarkedPaid draw input i t t' b h =
    elim (Option-cases (find_one (λ (r : PaymentRow). r.id == input.payment_id) t.payments)) [
      | inl e ↦ absurd (ground arith)
      | inr (entity, found) ↦ elim (Result-cases (to_domain entity)) [
        | inl (e, loaded) ↦ absurd (ground arith)
        | inr (payment, loaded) ↦ elim (Result-cases (mark_paid input.actor payment)) [
          | inl (e, allowed) ↦ absurd (ground arith)
          | inr (next, allowed) ↦ record {
            entity = entity;
            payment = payment;
            next = next;
            found = found;
            loaded = loaded;
            allowed = allowed;
            affected = ground arith;
            payments = ground arith;
            operations = ground arith;
            result = ground arith;
          }
        ]
      ]
    ]

-- A creation that succeeds has found no payment of the order and has added one.
pub record Created (draw : Draw) (input : CreatePaymentInput) (i : ℕ) (t t' : Store)
    (b : PaymentModel) : Type 0 where
  pub first : find_one (λ (r : PaymentRow). r.order_id == input.order_id) t.payments ≡ none
  pub payments : t'.payments ≡ t.payments ++ new_row draw input ∷ []
  pub operations :
      t'.operations ≡ update_where (is_started i) (completed_by draw.id draw.id) t.operations
  pub result : b ≡ to_model (new_row draw input)

pub create_body-Created :
    (draw : Draw) (input : CreatePaymentInput) (i : ℕ) (t t' : Store) (b : PaymentModel)
    → create_body draw input i t ≡ (ok b, t')
    → Created draw input i t t' b
unfolding create_body complete
create_body-Created draw input i t t' b h =
    elim (Option-cases (find_one (λ (r : PaymentRow). r.order_id == input.order_id) t.payments)) [
      | inl first ↦ record {
        first = first;
        payments = ground arith;
        operations = ground arith;
        result = ground arith;
      }
      | inr (entity, found) ↦ absurd (ground arith)
    ]
