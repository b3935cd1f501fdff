-- ===== src/Orders/Status/Laws.antt =====
-- The order status machine: who may take which step, where it ends, and how long a run can be.
use agrilink_backend.Base.{
  ℕ, ◌+◌, ◌≤◌, ◌<◌, ◌≡◌, ◌≢◌, ◌↔◌, ◌⊎◌, inl, inr, List, [], ◌∷◌, Result, Result-cases, ok, length,
  arith,
}
use agrilink_backend.Base.Errors.{◌>>◌}
use agrilink_backend.Orders.Status.{
  OrderStatus, pending, confirmed, preparing, handed_to_logistics, shipping, delivered, cancelled,
  OrderActor, seller, logistics, admin, assert_order_transition,
}

-- The steps of the machine, each with the actors that may take it.
pub data Step : OrderActor → OrderStatus → OrderStatus → Type 0 where
  confirm : {a : OrderActor} → (a ≡ seller) ⊎ (a ≡ admin) → Step a pending confirmed
  prepare : {a : OrderActor} → (a ≡ seller) ⊎ (a ≡ admin) → Step a confirmed preparing
  hand_over : {a : OrderActor} → (a ≡ seller) ⊎ (a ≡ admin) → Step a preparing handed_to_logistics
  ship : {a : OrderActor} → (a ≡ logistics) ⊎ (a ≡ admin) → Step a handed_to_logistics shipping
  deliver : {a : OrderActor} → (a ≡ logistics) ⊎ (a ≡ admin) → Step a shipping delivered
  cancel_pending : {a : OrderActor} → a ≢ logistics → Step a pending cancelled
  cancel_confirmed : {a : OrderActor} → (a ≡ seller) ⊎ (a ≡ admin) → Step a confirmed cancelled
  cancel_preparing : {a : OrderActor} → (a ≡ seller) ⊎ (a ≡ admin) → Step a preparing cancelled

Step-allowed :
    {a : OrderActor} {from to : OrderStatus}
    → Step a from to
    → assert_order_transition from to a ≡ ok tt
unfolding assert_order_transition
Step-allowed (confirm h) = ground arith
Step-allowed (prepare h) = ground arith
Step-allowed (hand_over h) = ground arith
Step-allowed (ship h) = ground arith
Step-allowed (deliver h) = ground arith
Step-allowed {a} (cancel_pending h) = ground arith
Step-allowed (cancel_confirmed h) = ground arith
Step-allowed (cancel_preparing h) = ground arith

allowed-Step :
    (from to : OrderStatus) (a : OrderActor)
    → assert_order_transition from to a ≡ ok tt
    → Step a from to
unfolding assert_order_transition
allowed-Step pending confirmed a h = confirm (ground arith)
allowed-Step pending cancelled a h = cancel_pending (ground arith)
allowed-Step confirmed preparing a h = prepare (ground arith)
allowed-Step confirmed cancelled a h = cancel_confirmed (ground arith)
allowed-Step preparing handed_to_logistics a h = hand_over (ground arith)
allowed-Step preparing cancelled a h = cancel_preparing (ground arith)
allowed-Step handed_to_logistics shipping a h = ship (ground arith)
allowed-Step shipping delivered a h = deliver (ground arith)
allowed-Step _ _ a h = absurd (ground arith)

-- `assertOrderTransition` accepts exactly the steps of the machine: a seller confirms, prepares and
-- hands over, logistics ships and delivers, a buyer cancels a pending order only, a seller cancels
-- until the order is handed over, and an administrator takes each of these steps.
pub assert_order_transition_iff :
    (from to : OrderStatus) (a : OrderActor)
    → (assert_order_transition from to a ≡ ok tt) ↔ Step a from to
assert_order_transition_iff from to a = (allowed-Step from to a, Step-allowed)

-- How far an order has come.
abbrev pub stage : OrderStatus → ℕ
stage pending = 0
stage confirmed = 1
stage preparing = 2
stage handed_to_logistics = 3
stage shipping = 4
stage delivered = 5
stage cancelled = 5

-- A run of the machine: one attempted step after another.
unfoldable pub run : OrderStatus → List (OrderStatus × OrderActor) → Result OrderStatus
run from [] = ok from
run from ((to, a) ∷ rest) = assert_order_transition from to a >> run to rest

Step-rises : {a : OrderActor} {from to : OrderStatus} → Step a from to → stage from < stage to
Step-rises (confirm h) = omega arith
Step-rises (prepare h) = omega arith
Step-rises (hand_over h) = omega arith
Step-rises (ship h) = omega arith
Step-rises (deliver h) = omega arith
Step-rises (cancel_pending h) = omega arith
Step-rises (cancel_confirmed h) = omega arith
Step-rises (cancel_preparing h) = omega arith

run-inverse :
    (from to : OrderStatus) (a : OrderActor) (rest : List (OrderStatus × OrderActor))
    {last : OrderStatus}
    → run from ((to, a) ∷ rest) ≡ ok last
    → Step a from to × (run to rest ≡ ok last)
unfolding run
run-inverse from to a rest h = elim (Result-cases (assert_order_transition from to a)) [
  | inr (_, allowed) ↦ (allowed-Step from to a allowed, ground (arith, allowed))
  | inl (e, refused) ↦ absurd (ground (arith, refused))
]

run_end : (from last : OrderStatus) → run from [] ≡ ok last → from ≡ last
unfolding run
run_end from last h = cc

-- Every run that is accepted climbs: its length is at most the stages between its ends, so a run
-- from a new order takes at most five steps, and none leaves a delivered or cancelled order.
pub run_bounded :
    (from last : OrderStatus) (steps : List (OrderStatus × OrderActor))
    → run from steps ≡ ok last
    → length steps + stage from ≤ stage last
run_bounded from last [] h = rw (run_end from last h) (omega arith)
run_bounded from last ((to, a) ∷ rest) h =
    let (step, later) = run-inverse from to a rest h in
    omega (arith, Step-rises step, run_bounded to last rest later)
