-- ===== src/Payments/Repository/Replay.antt =====
-- A payment operation that is called again with its key and its request returns the recorded
-- result.
use agrilink_backend.Base.{ℕ, Bool, ◌≡◌, refl, ◌∙◌, Option, some, ok, ◌==◌}
use agrilink_backend.Base.Table.{find_one, update_where}
use agrilink_backend.Base.Keyed.{found_again}
use agrilink_backend.Commerce.Operations.{is_started, completed_by}
use agrilink_backend.Commerce.Operations.Replay.{Finishes, Reads, idempotent_again}
use agrilink_backend.Payments.Repository.{
  PaymentModel, MarkPaidInput, RefundInput, to_model, to_model?, find_by_id, mark_paid_body,
  mark_paid_atomically, refund_body, refund_atomically,
}
use agrilink_backend.Payments.Repository.Updates.{refund_body-Refunded, mark_paid_body-MarkedPaid}
use agrilink_backend.Store.{Store, PaymentRow, Draw}

pub find_by_id-Reads : Reads some find_by_id
unfolding find_by_id
find_by_id-Reads reference t = refl

found_by_id :
    (id : ℕ) (t : Store) (r : PaymentRow)
    → find_one (λ (r : PaymentRow). r.id == id) t.payments ≡ some r
    → find_by_id id t ≡ (ok (some (to_model r)), t)
unfolding find_by_id
found_by_id id t r h = rw h

-- The end of a body that has updated a row: the row is found again, under the id that it had.
module _ (i : ℕ) (t t' : Store) (id : ℕ) (entity : PaymentRow) {b : Option PaymentModel} where
  finish :
      (q : PaymentRow → Bool) (f : PaymentRow → PaymentRow)
      → ((r : PaymentRow) → (f r).id ≡ r.id)
      → find_one (λ (r : PaymentRow). r.id == id) t.payments ≡ some entity
      → t'.payments ≡ update_where q f t.payments
      → t'.operations ≡ update_where (is_started i) (completed_by entity.id entity.id) t.operations
      → b ≡ to_model? (find_one (λ (r : PaymentRow). r.id == entity.id) t'.payments)
      → (reference : ℕ) × (a : PaymentModel) × (t'.operations
          ≡ update_where (is_started i) (completed_by reference reference) t.operations)
        × (find_by_id reference t' ≡ (ok (some a), t'))
        × (b ≡ some a)
  finish q f keeps found payments operations result =
      let (r', again) =
        found_again (λ r. r.id) id t.payments t'.payments entity q f keeps found payments in
      (entity.id, to_model r', operations, found_by_id entity.id t' r' again, result ∙ rw again)

refund_body-Finishes :
    (draw : Draw) (input : RefundInput) → Finishes some find_by_id (refund_body draw input)
refund_body-Finishes draw input i t t' b h =
    let done = refund_body-Refunded draw input i t t' b h in
    finish i t t' input.payment_id done.entity _ _ (λ r. refl) done.found done.payments
      done.operations done.result

mark_paid_body-Finishes :
    (draw : Draw) (input : MarkPaidInput) → Finishes some find_by_id (mark_paid_body draw input)
mark_paid_body-Finishes draw input i t t' b h =
    let done = mark_paid_body-MarkedPaid draw input i t t' b h in
    finish i t t' input.payment_id done.entity _ _ (λ r. refl) done.found done.payments
      done.operations done.result

-- A refund that is sent again with its key and its request is not made again: the recorded
-- payment is returned and the store stays as it is.
pub refund_again :
    (draw draw' : Draw) (input : RefundInput) (s s' : Store) (b : Option PaymentModel)
    → refund_atomically draw input s ≡ (ok b, s')
    → refund_atomically draw' input s' ≡ (ok b, s')
unfolding refund_atomically
refund_again draw draw' input s s' b h =
    idempotent_again some find_by_id find_by_id-Reads draw.operation_id draw'.operation_id _ _ _ s
      s' (refund_body-Finishes draw input) h

-- A payment that is marked as paid again with the same key and request is not written again: the
-- recorded payment is returned and the store stays as it is.
pub mark_paid_again :
    (draw draw' : Draw) (input : MarkPaidInput) (s s' : Store) (b : Option PaymentModel)
    → mark_paid_atomically draw input s ≡ (ok b, s')
    → mark_paid_atomically draw' input s' ≡ (ok b, s')
unfolding mark_paid_atomically
mark_paid_again draw draw' input s s' b h =
    idempotent_again some find_by_id find_by_id-Reads draw.operation_id draw'.operation_id _ _ _ s
      s' (mark_paid_body-Finishes draw input) h
