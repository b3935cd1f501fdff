-- ===== src/Orders/Repository/Updates.antt =====
-- What the bodies of the order operations have done when they succeed.
use agrilink_backend.Base.{
  ℕ, ◌≡◌, inl, inr, Option, none, some, [], ◌∷◌, ◌++◌, Result, ok, arith, Option-cases,
  Result-cases, ◌==◌, if◌then◌else◌,
}
use agrilink_backend.Base.Table.{find_one, update_where, count_where}
use agrilink_backend.Commerce.Operations.{complete, is_started, completed_by}
use agrilink_backend.Orders.Status.{OrderStatus, delivered, pending, same_status}
use agrilink_backend.Orders.Order.{Order, transition}
use agrilink_backend.Orders.Repository.{
  OrderModel, CreateOrderRepositoryInput, TransitionInput, to_domain, to_model, find_by_id, new_row,
  new_item_rows, create_body, is_current, set_status, transition_body, same_operation,
}
use agrilink_backend.Store.{Store, OrderRow, HistoryRow, Draw}

-- The history entry of a transition, and of a creation.
abbrev pub transition_entry : TransitionInput → OrderRow → OrderStatus → OrderStatus → HistoryRow
transition_entry input entity from to = record {
  order_id = entity.id;
  from_status = some from;
  to_status = to;
  changed_by = input.actor_id;
  note = input.note;
  operation_key = input.operation_key;
}

abbrev pub creation_entry : Draw → CreateOrderRepositoryInput → HistoryRow
creation_entry draw input = record {
  order_id = draw.id;
  from_status = none;
  to_status = pending;
  changed_by = input.buyer_id;
  note = none;
  operation_key = input.operation_key;
}

-- A transition that succeeds has read the order, moved it, written the row that it read, and added
-- one entry to the history.
pub record Moved (draw : Draw) (input : TransitionInput) (i : ℕ) (t t' : Store)
    (b : Option OrderModel) : Type 0 where
  pub entity : OrderRow
  pub order : Order
  pub next : Order
  pub found : find_one (λ (r : OrderRow). r.id == input.order_id) t.orders ≡ some entity
  pub loaded : to_domain entity ≡ ok order
  pub allowed : transition input.to_status input.actor order ≡ ok next
  pub affected : count_where (is_current entity.id input.expected_version order.status) t.orders ≡ 1
  pub orders :
      t'.orders
      ≡ update_where
          (is_current entity.id input.expected_version order.status)
          (set_status draw.now next.status
            (if same_status next.status delivered then some draw.now else entity.delivered_at))
          t.orders
  pub history :
      t'.order_history
      ≡ t.order_history ++ transition_entry input entity order.status next.status ∷ []
  pub items : t'.order_items ≡ t.order_items
  pub operations :
      t'.operations ≡ update_where (is_started i) (completed_by entity.id entity.id) t.operations
  pub result : ◌≡◌ {A = Result (Option OrderModel) × Store} (find_by_id entity.id t') (ok b, t')

pub transition_body-Moved :
    (draw : Draw) (input : TransitionInput) (i : ℕ) (t t' : Store) (b : Option OrderModel)
    → transition_body draw input i t ≡ (ok b, t')
    → Moved draw input i t t' b
unfolding transition_body complete find_by_id
transition_body-Moved draw input i t t' b h =
    elim (Option-cases (find_one (λ (r : OrderRow). r.id == input.order_id) t.orders)) [
      | inl e ↦ absurd (ground arith)
      | inr (entity, found) ↦ elim (Result-cases (to_domain entity)) [
        | inl (e, loaded) ↦ absurd (ground arith)
        | inr (order, loaded) ↦ elim (Result-cases (transition input.to_status input.actor order)) [
          | inl (e, allowed) ↦ absurd (ground arith)
          | inr (next, allowed) ↦
              elim (Option-cases (
                find_one (same_operation (transition_entry input entity order.status next.status))
                  t.order_history)) [
                    | inr (_, twin) ↦ absurd (ground arith)
                    | inl first ↦ record {
                      entity = entity;
                      order = order;
                      next = next;
                      found = found;
                      loaded = loaded;
                      allowed = allowed;
                      affected = ground arith;
                      orders = ground arith;
                      history = ground arith;
                      items = ground arith;
                      operations = ground arith;
                      result = ground arith;
                    }
                  ]
        ]
      ]
    ]

-- A creation that succeeds has added the order, its items, and the first entry of its history.
pub record Created (draw : Draw) (input : CreateOrderRepositoryInput) (i : ℕ) (t t' : Store)
    (b : OrderModel) : Type 0 where
  pub orders : t'.orders ≡ t.orders ++ new_row draw input ∷ []
  pub items : t'.order_items ≡ t.order_items ++ new_item_rows draw 0 input.items
  pub history : t'.order_history ≡ t.order_history ++ creation_entry draw input ∷ []
  pub operations :
      t'.operations ≡ update_where (is_started i) (completed_by draw.id draw.id) t.operations
  pub result : b ≡ to_model (new_row draw input) (new_item_rows draw 0 input.items)

pub create_body-Created :
    (draw : Draw) (input : CreateOrderRepositoryInput) (i : ℕ) (t t' : Store) (b : OrderModel)
    → create_body draw input i t ≡ (ok b, t')
    → Created draw input i t t' b
unfolding create_body complete
create_body-Created draw input i t t' b h =
    elim (Option-cases (find_one (λ (r : OrderRow). r.order_code == input.order_code) t.orders)) [
      | inr (_, taken) ↦ absurd (ground arith)
      | inl free ↦
          elim (Option-cases
            (find_one (same_operation (creation_entry draw input)) t.order_history)) [
              | inr (_, twin) ↦ absurd (ground arith)
              | inl first ↦ record {
                orders = ground arith;
                items = ground arith;
                history = ground arith;
                operations = ground arith;
                result = ground arith;
              }
            ]
    ]
