-- ===== src/Orders/Repository/Replay.antt =====
-- A transition that is called again with its key and its request returns the recorded order.
use agrilink_backend.Base.{ℕ, ◌≡◌, refl, Option, some, Result, ok, arith, ◌==◌}
use agrilink_backend.Base.Table.{find_one}
use agrilink_backend.Base.Keyed.{found_again}
use agrilink_backend.Commerce.Operations.Replay.{Finishes, Reads, idempotent_again}
use agrilink_backend.Orders.Repository.{
  OrderModel, TransitionInput, to_model, items_of, find_by_id, transition_body,
  transition_atomically,
}
use agrilink_backend.Orders.Repository.Updates.{transition_body-Moved}
use agrilink_backend.Store.{Store, OrderRow, Draw}

pub find_by_id-Reads : Reads some find_by_id
unfolding find_by_id
find_by_id-Reads reference t = refl

found_by_id :
    (id : ℕ) (t : Store) (r : OrderRow)
    → find_one (λ (r : OrderRow). r.id == id) t.orders ≡ some r
    → find_by_id id t ≡ (ok (some (to_model r (items_of id t))), t)
unfolding find_by_id
found_by_id id t r h = ground arith

same_result :
    {A : Type 0} (a b : A) (s : Store) (r : Result A × Store)
    → r ≡ (ok a, s)
    → r ≡ (ok b, s)
    → a ≡ b
same_result a b s r h k = cc

transition_body-Finishes :
    (draw : Draw) (input : TransitionInput) → Finishes some find_by_id (transition_body draw input)
transition_body-Finishes draw input i t t' b h =
    let done = transition_body-Moved draw input i t t' b h in
    let (r', again) =
      found_again (λ r. r.id) input.order_id t.orders t'.orders done.entity _ _ (λ r. refl)
        done.found done.orders in
    let found = found_by_id done.entity.id t' r' again in
    (
      done.entity.id,
      to_model r' (items_of done.entity.id t'),
      done.operations,
      found,
      same_result b _ t' _ done.result found,
    )

-- A transition that is sent to the repository again with its key and its request is not made again:
-- the recorded order is returned and the store stays as it is.
pub transition_again :
    (draw draw' : Draw) (input : TransitionInput) (s s' : Store) (b : Option OrderModel)
    → transition_atomically draw input s ≡ (ok b, s')
    → transition_atomically draw' input s' ≡ (ok b, s')
unfolding transition_atomically
transition_again draw draw' input s s' b h =
    idempotent_again some find_by_id find_by_id-Reads draw.operation_id draw'.operation_id _ _ _ s
      s' (transition_body-Finishes draw input) h
