-- ===== src/Payments/UseCases/Retry.antt =====
-- What `MarkPaymentPaidUseCase` does with a payment that has been marked already.
use agrilink_backend.Base.{
  ℕ, ◌≡◌, ◌≢◌, refl, sym, ◌∙◌, ◌&&◌, not, ◌==◌, Option, some, Option-cases, Result, Result-cases,
  Bool-cases, inl, inr, ok, err, Text, Error, arith, commerce_not_found, commerce_forbidden,
  if◌then◌else◌,
}
use agrilink_backend.Base.Table.{find_one}
use agrilink_backend.Commerce.Fingerprint.{Json}
use agrilink_backend.Enums.{UserRole, same_role, CommerceActorContext}
use agrilink_backend.Orders.UseCases.{is_seller_role}
use agrilink_backend.Payments.Payment.{
  PaymentActor, seller, admin, is_admin, unpaid, Payment, PaymentValues, rehydrate, mark_paid,
}
use agrilink_backend.Payments.Payment.Laws.{mark_paid_sound}
use agrilink_backend.Payments.Repository.{PaymentModel, find_by_id}
use agrilink_backend.Payments.UseCases.{mark_payment_paid}
use agrilink_backend.Store.{Store, OrderRow, Draw}

rehydrate-status : (v : PaymentValues) (p : Payment) → rehydrate v ≡ ok p → p.status ≡ v.status
unfolding rehydrate
rehydrate-status v p h = ground arith

found_model :
    {found : Option PaymentModel} {current : PaymentModel} {s : Store}
    → ◌≡◌ {A = Result (Option PaymentModel) × Store} (ok found, s) (ok (some current), s)
    → found ≡ some current
found_model h = cc

abbrev values_of : PaymentModel → PaymentValues
values_of m = record {
  order_id = m.order_id;
  amount = m.amount;
  method = m.method;
  status = m.status;
  refunded_amount = m.refunded_amount;
}

abbrev actor_of : CommerceActorContext → PaymentActor
actor_of actor = if same_role actor.role UserRole.admin then admin else seller

-- A payment that is not unpaid any more refuses to be marked as paid with an error, and the store
-- stays as it is.
pub marked_payment_refused :
    (fingerprint : Text → ℕ → Json → ℕ) (draw : Draw) (actor : CommerceActorContext)
    (payment_id expected_version key : ℕ) (s : Store) (current : PaymentModel)
    → find_by_id payment_id s ≡ (ok (some current), s)
    → current.status ≢ unpaid
    → (e : Error) × (mark_payment_paid fingerprint draw actor payment_id expected_version key s
        ≡ (err e, s))
unfolding mark_payment_paid find_by_id
marked_payment_refused fingerprint draw actor payment_id expected_version key s current found
      marked =
    rw (found_model found)
      (elim (Option-cases (find_one (λ (r : OrderRow). r.id == current.order_id) s.orders)) [
        | inl missing ↦ rw missing (commerce_not_found, refl)
        | inr (order, present) ↦
            rw present
              (elim (Bool-cases
                (not (same_role actor.role UserRole.admin) && not (is_seller_role actor.role))) [
                  | inl barred ↦ rw barred (commerce_forbidden, refl)
                  | inr allowed ↦
                      rw allowed
                        (elim (Bool-cases
                          (not (is_admin (actor_of actor)) && not (order.seller_id == actor.id))) [
                            | inl foreign ↦ rw foreign (commerce_forbidden, refl)
                            | inr own ↦
                                rw own (elim (Result-cases (rehydrate (values_of current))) [
                                  | inl (e, failed) ↦ rw failed (e, refl)
                                  | inr (p, loaded) ↦
                                      rw loaded
                                        (elim (Result-cases (mark_paid (actor_of actor) p)) [
                                          | inl (e, failed) ↦ rw failed (e, refl)
                                          | inr (next, done) ↦ absurd (
                                              marked (
                                                sym (rehydrate-status (values_of current) p loaded)
                                                ∙ (mark_paid_sound (actor_of actor) p next done).0))
                                        ])
                                ])
                          ])
                ])
      ])
