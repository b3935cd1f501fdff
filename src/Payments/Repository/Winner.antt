-- ===== src/Payments/Repository/Winner.antt =====
-- Of two refunds that name one version of a payment, one is made.
use agrilink_backend.Base.{
  ℕ, ◌≡◌, refl, inl, inr, Option, none, some, List, ok, err, Error, arith, ==_eq,
}
use agrilink_backend.Base.Table.{find_one}
use agrilink_backend.Base.TableLaws.{find_one_sound}
use agrilink_backend.Base.Keyed.{IsKeyed}
use agrilink_backend.Base.Versions.{IsPast, update_where-IsPast, stale_unselected}
use agrilink_backend.Commerce.Operations.{OperationKey, in_scope}
use agrilink_backend.Commerce.Operations.Replay.{idempotent-eq-ok}
use agrilink_backend.Commerce.Operations.Refusal.{idempotent_refused}
use agrilink_backend.Payments.Repository.{
  PaymentModel, RefundInput, find_by_id, refund_body, refund_atomically,
}
use agrilink_backend.Payments.Repository.Updates.{refund_body-Refunded}
use agrilink_backend.Store.{Store, PaymentRow, Draw, refund_payment}

abbrev pub refund_key : RefundInput → OperationKey
refund_key input = record {
  actor_id = input.actor_id;
  operation_type = refund_payment;
  idempotency_key = input.operation_key;
  request_fingerprint = input.request_fingerprint;
}

abbrev IsRefundedPast : RefundInput → List PaymentRow → Type 0
IsRefundedPast input rows =
    IsPast (λ (r : PaymentRow). r.id) (λ r. r.version) input.payment_id input.expected_version rows

refund_body-IsPast :
    (draw : Draw) (input : RefundInput) (i : ℕ) (t t' : Store) (b : Option PaymentModel)
    → IsKeyed (λ (r : PaymentRow). r.id) t.payments
    → refund_body draw input i t ≡ (ok b, t')
    → IsRefundedPast input t'.payments
refund_body-IsPast draw input i t t' b keyed h =
    let done = refund_body-Refunded draw input i t t' b h in
    rw done.payments (
      update_where-IsPast (λ r. r.id) (λ r. r.version) input.payment_id input.expected_version
        t.payments done.entity _ _ keyed done.found (λ x current. (ground arith, ground arith))
        done.affected (λ x. refl))

refund_body_stale :
    (draw : Draw) (input : RefundInput) (i : ℕ) (t t' : Store) (b : Option PaymentModel)
    → IsRefundedPast input t.payments
    → ¬ (refund_body draw input i t ≡ (ok b, t'))
refund_body_stale draw input i t t' b past h =
    let done = refund_body-Refunded draw input i t t' b h in
    let same : done.entity.id ≡ input.payment_id =
      ==_eq done.entity.id input.payment_id (find_one_sound _ t.payments done.entity done.found) in
    stale_unselected (λ r. r.id) (λ r. r.version) input.payment_id input.expected_version t.payments
      _ past (λ x current. (ground (arith, same), ground arith)) done.affected

-- Once a refund is made, a refund under another key that names the same payment and the same
-- version throws and leaves the store as it is. Payments have distinct ids, and neither key was
-- used before.
pub refund_one_winner :
    (draw draw' : Draw) (input input' : RefundInput) (s s' : Store) (b : Option PaymentModel)
    → IsKeyed (λ (r : PaymentRow). r.id) s.payments
    → find_one (in_scope (refund_key input)) s.operations ≡ none
    → refund_atomically draw input s ≡ (ok b, s')
    → find_one (in_scope (refund_key input')) s'.operations ≡ none
    → input'.payment_id ≡ input.payment_id
    → input'.expected_version ≡ input.expected_version
    → (e : Error) × (refund_atomically draw' input' s' ≡ (err e, s'))
unfolding refund_atomically
refund_one_winner draw draw' input input' s s' b keyed new made new' same_id same_version =
    elim (idempotent-eq-ok some find_by_id draw.operation_id (refund_key input) _ s made) [
      | inr (r, old, _, _) ↦ absurd (cc)
      | inl (_, ran) ↦
          idempotent_refused some find_by_id draw'.operation_id (refund_key input') _ s' new'
            (λ b' t ran'.
              refund_body_stale draw' input' draw'.operation_id _ t b'
                (rw (same_id, same_version) (refund_body-IsPast draw input _ _ s' b keyed ran))
                ran')
    ]
