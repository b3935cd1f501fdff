-- ===== src/Orders/Repository/Winner.antt =====
-- Of two transitions that name one version of an order, one is made.
use agrilink_backend.Base.{
  ℕ, ◌≡◌, refl, inl, inr, Option, none, some, List, ok, err, Error, arith, ==_eq,
}
use agrilink_backend.Base.Table.{find_one}
use agrilink_backend.Base.TableLaws.{find_one_sound}
use agrilink_backend.Base.Keyed.{IsKeyed}
use agrilink_backend.Base.Versions.{IsPast, update_where-IsPast, stale_unselected}
use agrilink_backend.Commerce.Operations.{OperationKey, in_scope}
use agrilink_backend.Commerce.Operations.Replay.{idempotent-eq-ok}
use agrilink_backend.Commerce.Operations.Refusal.{idempotent_refused}
use agrilink_backend.Orders.Repository.{
  OrderModel, TransitionInput, find_by_id, transition_body, transition_atomically,
}
use agrilink_backend.Orders.Repository.Updates.{transition_body-Moved}
use agrilink_backend.Store.{Store, OrderRow, Draw, transition_order}

abbrev pub transition_key : TransitionInput → OperationKey
transition_key input = record {
  actor_id = input.actor_id;
  operation_type = transition_order;
  idempotency_key = input.operation_key;
  request_fingerprint = input.request_fingerprint;
}

abbrev IsMovedPast : TransitionInput → List OrderRow → Type 0
IsMovedPast input rows =
    IsPast (λ (r : OrderRow). r.id) (λ r. r.version) input.order_id input.expected_version rows

transition_body-IsPast :
    (draw : Draw) (input : TransitionInput) (i : ℕ) (t t' : Store) (b : Option OrderModel)
    → IsKeyed (λ (r : OrderRow). r.id) t.orders
    → transition_body draw input i t ≡ (ok b, t')
    → IsMovedPast input t'.orders
transition_body-IsPast draw input i t t' b keyed h =
    let done = transition_body-Moved draw input i t t' b h in
    rw done.orders (
      update_where-IsPast (λ r. r.id) (λ r. r.version) input.order_id input.expected_version
        t.orders done.entity _ _ keyed done.found (λ x current. (ground arith, ground arith))
        done.affected (λ x. refl))

transition_body_stale :
    (draw : Draw) (input : TransitionInput) (i : ℕ) (t t' : Store) (b : Option OrderModel)
    → IsMovedPast input t.orders
    → ¬ (transition_body draw input i t ≡ (ok b, t'))
transition_body_stale draw input i t t' b past h =
    let done = transition_body-Moved draw input i t t' b h in
    let same : done.entity.id ≡ input.order_id =
      ==_eq done.entity.id input.order_id (find_one_sound _ t.orders done.entity done.found) in
    stale_unselected (λ r. r.id) (λ r. r.version) input.order_id input.expected_version t.orders _
      past (λ x current. (ground (arith, same), ground arith)) done.affected

-- Once a transition is made, a transition under another key that names the same order and the same
-- version throws and leaves the store as it is. Orders have distinct ids, and neither key was
-- used before.
pub transition_one_winner :
    (draw draw' : Draw) (input input' : TransitionInput) (s s' : Store) (b : Option OrderModel)
    → IsKeyed (λ (r : OrderRow). r.id) s.orders
    → find_one (in_scope (transition_key input)) s.operations ≡ none
    → transition_atomically draw input s ≡ (ok b, s')
    → find_one (in_scope (transition_key input')) s'.operations ≡ none
    → input'.order_id ≡ input.order_id
    → input'.expected_version ≡ input.expected_version
    → (e : Error) × (transition_atomically draw' input' s' ≡ (err e, s'))
unfolding transition_atomically
transition_one_winner draw draw' input input' s s' b keyed new made new' same_id same_version =
    elim (idempotent-eq-ok some find_by_id draw.operation_id (transition_key input) _ s made) [
      | inr (r, old, _, _) ↦ absurd (cc)
      | inl (_, ran) ↦
          idempotent_refused some find_by_id draw'.operation_id (transition_key input') _ s' new'
            (λ b' t ran'.
              transition_body_stale draw' input' draw'.operation_id _ t b'
                (rw (same_id, same_version) (transition_body-IsPast draw input _ _ s' b keyed ran))
                ran')
    ]
