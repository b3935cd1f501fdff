-- ===== src/Orders/UseCases/Retry.antt =====
-- What `TransitionOrderStatusUseCase` does with an order that has been moved already.
use agrilink_backend.Base.{
  ℕ, ◌≡◌, ◌≢◌, refl, subst, ◌∙◌, ◌&&◌, ◌||◌, not, ◌==◌, Option, some, true, Result, Result-cases,
  Bool-cases, inl, inr, ok, err, Text, Error, arith, commerce_forbidden,
}
use agrilink_backend.Commerce.Fingerprint.{Json}
use agrilink_backend.Enums.{CommerceActorContext}
use agrilink_backend.Orders.Order.{Order, OrderValues, rehydrate, transition}
use agrilink_backend.Orders.Order.Laws.{transition_sound, rehydrate-status}
use agrilink_backend.Orders.Repository.{OrderModel, find_by_id}
use agrilink_backend.Orders.Status.{
  OrderStatus, pending, confirmed, preparing, handed_to_logistics, shipping, delivered, cancelled,
  OrderActor, buyer, seller, same_actor, transitions, includes,
}
use agrilink_backend.Orders.UseCases.{to_order_actor, TransitionRequest, transition_order}
use agrilink_backend.Store.{Store, Draw}

no_loop : (a : OrderStatus) → (includes (transitions a) a) ≢ true
unfolding transitions
no_loop pending h = ground arith
no_loop confirmed h = ground arith
no_loop preparing h = ground arith
no_loop handed_to_logistics h = ground arith
no_loop shipping h = ground arith
no_loop delivered h = ground arith
no_loop cancelled h = ground arith

-- No order is moved to the status that it has.
transition_in_place :
    (to : OrderStatus) (actor : OrderActor) (o next : Order)
    → o.status ≡ to
    → transition to actor o ≢ ok next
transition_in_place to actor o next same h =
    no_loop to
      (subst (λ a. includes (transitions a) to ≡ true) same (transition_sound to actor o next h).0)

abbrev values_of : OrderModel → OrderValues
values_of m = record {
  id = m.id;
  order_code = m.order_code;
  buyer_id = m.buyer_id;
  seller_id = m.seller_id;
  status = m.status;
  subtotal = m.subtotal;
  shipping_fee = m.shipping_fee;
  platform_fee = m.platform_fee;
  total_amount = m.total_amount;
  version = m.version;
}

found_model :
    {found : Option OrderModel} {current : OrderModel} {s : Store}
    → ◌≡◌ {A = Result (Option OrderModel) × Store} (ok found, s) (ok (some current), s)
    → found ≡ some current
found_model h = cc

-- An order that has the requested status already refuses the request with an error, and the store
-- stays as it is.
pub moved_order_refused :
    (fingerprint : Text → ℕ → Json → ℕ) (draw : Draw) (actor : CommerceActorContext)
    (input : TransitionRequest) (key : ℕ) (s : Store) (current : OrderModel)
    → find_by_id input.order_id s ≡ (ok (some current), s)
    → current.status ≡ input.to_status
    → (e : Error) × (transition_order fingerprint draw actor input key s ≡ (err e, s))
unfolding transition_order find_by_id
moved_order_refused fingerprint draw actor input key s current found same =
    rw (found_model found) (elim (Result-cases (to_order_actor actor.role)) [
      | inl (e, failed) ↦ rw failed (e, refl)
      | inr (a, is_actor) ↦ rw is_actor (elim (Result-cases (rehydrate (values_of current))) [
        | inl (e, failed) ↦ rw failed (e, refl)
        | inr (domain, loaded) ↦
            rw loaded
              (elim (Bool-cases (
                (same_actor a buyer && not (current.buyer_id == actor.id))
                || (same_actor a seller && not (current.seller_id == actor.id)))) [
                  | inl foreign ↦ rw foreign (commerce_forbidden, refl)
                  | inr own ↦ rw own (elim (Result-cases (transition input.to_status a domain)) [
                    | inl (e, failed) ↦ rw failed (e, refl)
                    | inr (next, moved) ↦ absurd (
                        transition_in_place input.to_status a domain next
                          (rehydrate-status (values_of current) domain loaded ∙ same) moved)
                  ])
                ])
      ])
    ])
